-- ===== src/Mdns/Once.antt =====
-- The callback of every `resolve` is called once (mdns.cpp).
use link_ice.Prelude.{
  ℕ, ◌+◌, ◌≤◌, ◌<◌, ◌%◌, ◌^◌, ◌>>=◌, ◌≡◌, refl, subst, arith, Bool, true, false, if◌then◌else◌, ltb,
  ◌==◌, List, [], ◌∷◌, ◌++◌, Bytes, some, Option-cases, Bool-cases, inl, inr, Outcome, value,
  >>=-Returns, Returns,
}
use link_ice.Prelude.Assoc.{bytes_key, lookup}
use link_ice.Stun.Safety.{Done}
use link_ice.Mdns.Names.{to_lower}
use link_ice.Mdns.Messages.{encode_dns_query, DnsParsedMessage}
use link_ice.Mdns.MessageSafety.{parse_dns_message-returns}
use link_ice.Mdns.Manager.{
  NameRecord, PendingQuery, MdnsResolveResult, callback, multicast_v4, multicast_v6, Outside,
  MdnsManager, find_query, drop_query, absorb_all, fire_resolved, fire_all, register_name,
  unregister_name, send_query, resolve, on_timeout, stop, send_answer, on_query, on_response,
  on_packet, unless_empty,
}
use link_ice.Mdns.Counts.{
  callbacks, live, callbacks-append, live-push, live-absorb_all, fire_resolved-balance,
  fire_all-balance, live-drop_self, live-drop_ne,
}

-- Every call of `resolve` so far either waits or has had its callback, once.
unfoldable pub IsOnce : MdnsManager → Type 0
IsOnce m = (id : ℕ) → callbacks id m.out + live id m.pending ≡ (if ltb id m.next_id then 1 else 0)

-- What happens to a manager.
pub data Event : Type 0 where
  register unregister look_up : Bytes → Event
  packet : Bytes → Bool → Event
  timeout : Bytes → ℕ → Event
  end : Event

module _ (out : Outside) where
  silent_v4 : (id : ℕ) (b bs : Bytes) → callbacks id (unless_empty out (multicast_v4 b) bs) ≡ 0
  unfolding callbacks
  silent_v4 id b [] = refl
  silent_v4 id b (x ∷ bs) = refl

  silent_v6 : (id : ℕ) (b bs : Bytes) → callbacks id (unless_empty out (multicast_v6 b) bs) ≡ 0
  unfolding callbacks
  silent_v6 id b [] = refl
  silent_v6 id b (x ∷ bs) = refl

  send_query-silent :
      (name : Bytes) (txn id : ℕ) (m : MdnsManager) → callbacks id (send_query out name txn m) ≡ 0
  unfolding callbacks send_query
  send_query-silent name txn id m =
      let a = encode_dns_query name txn false in
      let aaaa = encode_dns_query name txn true in
      let v4 =
        callbacks-append id (unless_empty out (multicast_v4 a) a)
          (unless_empty out (multicast_v4 aaaa) aaaa) in
      let v6 =
        callbacks-append id (unless_empty out (multicast_v6 a) a)
          (unless_empty out (multicast_v6 aaaa) aaaa) in
      let both =
        callbacks-append id
          (if out.v4_open
            then unless_empty out (multicast_v4 a) a ++ unless_empty out (multicast_v4 aaaa) aaaa
            else [])
          (if out.v6_open
            then unless_empty out (multicast_v6 a) a ++ unless_empty out (multicast_v6 aaaa) aaaa
            else []) in
      let a4 = silent_v4 id a a in
      let b4 = silent_v4 id aaaa aaaa in
      let a6 = silent_v6 id a a in let b6 = silent_v6 id aaaa aaaa in ground arith

  send_answer-silent :
      (name : Bytes) (rec : NameRecord) (txn qtype id : ℕ) (v6 : Bool) (m : MdnsManager)
      → callbacks id (send_answer out name rec txn qtype v6 m) ≡ 0
  unfolding callbacks send_answer
  send_answer-silent name rec txn qtype id v6 m = ground arith

  pub resolve-IsOnce : (name : Bytes) (m : MdnsManager) → IsOnce m → IsOnce (resolve out name m)
  unfolding resolve IsOnce live callbacks
  resolve-IsOnce name m h id =
      let txn = out.random m.next_id % 2 ^ 16 in
      let q : PendingQuery = record {
        id = m.next_id;
        txn_id = txn;
        accumulated = record { ipv4 = []; ipv6 = []; resolved = false };
        fired = false;
      } in
      let n = to_lower name in
      elim (Option-cases (lookup n m.names)) [
        | inl e ↦
            let sent = callbacks-append id m.out (send_query out n txn m) in
            let quiet = send_query-silent n txn id m in
            let more = live-push id n q m.pending in
            let before = h id in rw (resolve, e) (ground arith)
        | inr (rec, e) ↦
            let r : MdnsResolveResult = record {
              ipv4 = rec.ipv4;
              ipv6 = rec.ipv6;
              resolved = true;
            } in
            let sent = callbacks-append id m.out (callback m.next_id r ∷ []) in
            let before = h id in rw (resolve, e) (ground arith)
      ]

  on_timeout-IsOnce :
      (name : Bytes) (id : ℕ) (m : MdnsManager) → IsOnce m → IsOnce (on_timeout out name id m)
  unfolding on_timeout IsOnce callbacks
  on_timeout-IsOnce name id m h j = elim (Option-cases (find_query name id m.pending)) [
    | inl e ↦ rw (on_timeout, e) (h j)
    | inr (q, e) ↦ elim (Bool-cases q.fired) [
      | inl gone ↦ rw (on_timeout, e, gone) (h j)
      | inr waits ↦
          let sent = callbacks-append j m.out (callback id q.accumulated ∷ []) in
          let self = live-drop_self name id q m.pending e waits in
          let other = live-drop_ne name id j m.pending in
          let before = h j in
          elim (Bool-cases (id == j)) [
            | inl here ↦
                let same : id ≡ j = ground arith in
                let self_j : live j (drop_query name id m.pending) + 1 ≤ live j m.pending =
                  subst (λ (x : ℕ). live x (drop_query name id m.pending) + 1 ≤ live x m.pending)
                    same self in
                rw (on_timeout, e, waits) (ground arith)
            | inr apart ↦ rw (on_timeout, e, waits) (ground (arith, other apart))
          ]
    ]
  ]

  stop-IsOnce : (m : MdnsManager) → IsOnce m → IsOnce (stop out m)
  unfolding stop IsOnce live
  stop-IsOnce m h id =
      let sent = callbacks-append id m.out (fire_all m.pending) in
      let all = fire_all-balance id m.pending in let before = h id in ground arith

  on_response-IsOnce :
      (msg : DnsParsedMessage) (m : MdnsManager) → IsOnce m → IsOnce (on_response out msg m)
  unfolding on_response IsOnce
  on_response-IsOnce msg m h id =
      let absorbed = absorb_all msg.answers m.pending in
      let (pending, calls) = fire_resolved absorbed in
      omega (
        arith,
        callbacks-append id m.out calls,
        fire_resolved-balance id absorbed,
        live-absorb_all id msg.answers m.pending,
        h id,
      )

  on_query-IsOnce :
      (msg : DnsParsedMessage) (v6 : Bool) (m : MdnsManager)
      → IsOnce m
      → IsOnce (on_query out msg v6 m)
  unfolding on_query IsOnce
  on_query-IsOnce msg v6 m h id = elim (Option-cases (lookup msg.question m.names)) [
    | inl e ↦ rw (on_query, e) (ground (arith, h id))
    | inr (rec, e) ↦
        let answer = send_answer out msg.question rec msg.txn_id msg.qtype v6 m in
        let sent = callbacks-append id m.out answer in
        let quiet = send_answer-silent msg.question rec msg.txn_id msg.qtype id v6 m in
        let before = h id in rw (on_query, e) (ground arith)
  ]

  register_name-IsOnce :
      (name : Bytes) (m : MdnsManager) → IsOnce m → IsOnce (register_name out name m)
  unfolding register_name IsOnce
  register_name-IsOnce name m h = h

  unregister_name-IsOnce :
      (name : Bytes) (m : MdnsManager) → IsOnce m → IsOnce (unregister_name out name m)
  unfolding unregister_name IsOnce
  unregister_name-IsOnce name m h = h

  on_packet-IsOnce :
      (bytes : Bytes) (v6 : Bool) (m : MdnsManager)
      → IsOnce m
      → Returns (on_packet out bytes v6 m) IsOnce
  unfolding on_packet
  on_packet-IsOnce bytes v6 m h =
      >>=-Returns Done IsOnce _ _ (parse_dns_message-returns out.inet bytes) λ parsed d.
        elim (Option-cases parsed) [
          | inl e ↦ simp e h
          | inr (msg, e) ↦ elim (Bool-cases msg.is_response) [
            | inl answer ↦ simp (e, answer) (on_response-IsOnce msg m h)
            | inr question ↦ simp (e, question) (on_query-IsOnce msg v6 m h)
          ]
        ]

  unfoldable pub happen : Event → MdnsManager → Outcome MdnsManager
  happen (register name) m = value (register_name out name m)
  happen (unregister name) m = value (unregister_name out name m)
  happen (look_up name) m = value (resolve out name m)
  happen (packet bytes v6) m = on_packet out bytes v6 m
  happen (timeout name id) m = value (on_timeout out name id m)
  happen end m = value (stop out m)

  unfoldable pub run : List Event → MdnsManager → Outcome MdnsManager
  run [] m = value m
  run (e ∷ es) m = happen e m >>= run es

  happen-IsOnce : (e : Event) (m : MdnsManager) → IsOnce m → Returns (happen e m) IsOnce
  unfolding happen
  happen-IsOnce (register name) m h = register_name-IsOnce name m h
  happen-IsOnce (unregister name) m h = unregister_name-IsOnce name m h
  happen-IsOnce (look_up name) m h = resolve-IsOnce name m h
  happen-IsOnce (packet bytes v6) m h = on_packet-IsOnce bytes v6 m h
  happen-IsOnce (timeout name id) m h = on_timeout-IsOnce name id m h
  happen-IsOnce end m h = stop-IsOnce m h

  -- Whatever the manager is told, in any order and with any packets, the handlers return, and every call of
  -- `resolve` made so far either has one query waiting or has had its callback, once, and never both.
  pub run-IsOnce : (es : List Event) (m : MdnsManager) → IsOnce m → Returns (run es m) IsOnce
  unfolding run
  run-IsOnce [] m h = h
  run-IsOnce (e ∷ es) m h =
      >>=-Returns IsOnce IsOnce _ _ (happen-IsOnce e m h) λ t k. run-IsOnce es t k

  -- Stopping a running manager leaves no call of `resolve` without its callback, and none with two.
  pub stop_answers :
      (m : MdnsManager) (id : ℕ)
      → IsOnce m
      → m.running ≡ true
      → id < m.next_id
      → callbacks id (stop out m).out ≡ 1
  unfolding stop IsOnce
  stop_answers m id h on made =
      let sent = callbacks-append id m.out (fire_all m.pending) in
      let all = fire_all-balance id m.pending in let before = h id in simp on (ground arith)

  -- The timer of a call of `resolve` that still waits under its name calls it, once, and ends its query.
  pub timeout_answers :
      (name : Bytes) (id : ℕ) (q : PendingQuery) (m : MdnsManager)
      → IsOnce m
      → find_query name id m.pending ≡ some q
      → q.fired ≡ false
      → let t = on_timeout out name id m in (callbacks id t.out ≡ 1) × (live id t.pending ≡ 0)
  unfolding on_timeout IsOnce callbacks
  timeout_answers name id q m h e waits =
      let sent = callbacks-append id m.out (callback id q.accumulated ∷ []) in
      let self = live-drop_self name id q m.pending e waits in
      let before = h id in
      (rw (on_timeout, e, waits) (ground arith), rw (on_timeout, e, waits) (ground arith))
