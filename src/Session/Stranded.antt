-- ===== src/Session/Stranded.antt =====
-- The nominee of a controlling agent behind a rebuild of the check list (session.cpp, regular nomination).
use link_ice.Prelude.{
  ℕ, ◌+◌, ◌%◌, ◌^◌, ◌≤◌, ◌<◌, ◌≡◌, ◌≢◌, ==_false, refl, sym, ap, ◌∙◌, subst, arith, ◌&&◌, ◌||◌, not,
  Bool, true, false, ltb, leb, ◌==◌, List, [], ◌∷◌, ◌++◌, Bytes, bytes_eq, length, get_elem?,
  Option, some, none, Option-cases, Bool-cases, inl, inr,
}
use link_ice.Candidate.{Candidate, prflx, family_code}
use link_ice.CheckList
use link_ice.CheckList.{
  CheckPair, Checks, Tick, next_tick, nomination_wait, session_failed, succeeded, set_at, failed,
  unfreeze_siblings, send_check,
}
use link_ice.CheckList.Static.{
  count, count-append, count-set_at, IsStatic, unfreeze_siblings-static, send_check-static,
  run_next_check-static, fire-static,
}
use link_ice.Stun.Address.{MappedAddress}
use link_ice.Stun.Parser.{StunMessage}
use link_ice.Session.{checking, IceConfig, Outside, Session}
use link_ice.Session.Address.{is_empty, address_str, set_address}
use link_ice.Session.Tick.{
  is_checking, is_connected, is_none, give_up, after_tick, checks_of, run_next_check, begin_checks,
}
use link_ice.Session.Pairing.{build_check_list}
use link_ice.Session.Built.{SortLaws, is_fresh, Passes, build_check_list-IsBuilt}
use link_ice.Session.Consent.{on_keepalive}
use link_ice.Session.Found.{find_pair_sound, none_passes}
use link_ice.Session.Nominate.{
  no_candidate, find_pair, measure, discover, succeed, conclude, handle_check_response,
}
use link_ice.Session.Receive.{on_binding_error}
use link_ice.Session.Requests.{
  is_some, value_or, source, reply, success_response, same_role, at_endpoint, local_of_family,
  triggered_pair, trigger, maybe_trigger_check_from_peer, accept_request, handle_binding_request,
}

abbrev pub is_nominee : CheckPair → Bool
is_nominee p = p.nominee_check_sent

is_nominee-IsStatic : IsStatic is_nominee
unfolding IsStatic
is_nominee-IsStatic p t n u = refl

-- A controlling agent under regular nomination that has chosen its nominee, while no pair of the list is it.
pub record IsStranded (s : Session) : Type 0 where
  pub controlling : s.controlling ≡ true
  pub selected : s.nominee_selected ≡ true
  pub gone : count is_nominee s.check_list ≡ 0
  pub apart : is_connected s.state ≡ false

-- What happens to a session while it checks: a response to a check, an error response, a request of
-- the peer, a tick at a time, a triggered check for an endpoint.
pub data CheckEvent : Type 0 where
  response error : StunMessage → CheckEvent
  inbound_request : StunMessage → ℕ → Bool → CheckEvent
  tick : ℕ → CheckEvent
  triggered : Bytes → ℕ → CheckEvent

after_tick-IsStranded :
    (s : Session) (c : Checks) (t : Tick)
    → IsStranded s
    → count is_nominee c.pairs ≡ 0
    → IsStranded (after_tick s (c, t))
unfolding after_tick give_up
after_tick-IsStranded s c next_tick i h = record {
  controlling = i.controlling;
  selected = i.selected;
  gone = h;
  apart = i.apart;
}
after_tick-IsStranded s c nomination_wait i h = record {
  controlling = i.controlling;
  selected = i.selected;
  gone = h;
  apart = i.apart;
}
after_tick-IsStranded s c session_failed i h = record {
  controlling = i.controlling;
  selected = i.selected;
  gone = h;
  apart = refl;
}

-- A list of fresh pairs has no nominee.
fresh-nominees : (ps : List CheckPair) → Passes is_fresh ps → count is_nominee ps ≡ 0
unfolding Passes count is_fresh
fresh-nominees [] h = refl
fresh-nominees (p ∷ ps) h = let later = fresh-nominees ps in ground arith

module _ (cfg : IceConfig) (out : Outside) where
  unfoldable pub run_event : Session → CheckEvent → Session
  run_event s (response msg) = handle_check_response cfg out msg s
  run_event s (error msg) = on_binding_error cfg out msg s
  run_event s (inbound_request msg cid from_tcp) = handle_binding_request cfg out msg cid from_tcp s
  run_event s (tick now) = run_next_check cfg out now s
  run_event s (triggered ip port) = maybe_trigger_check_from_peer cfg out ip port s

  -- No 487 is among the error responses, and no request claims the controlling role.
  unfoldable pub KeepsRole : List CheckEvent → Type 0
  KeepsRole [] = Unit
  KeepsRole (error msg ∷ es) = (value_or msg.error_code 0 ≢ 487) × KeepsRole es
  KeepsRole (response msg ∷ es) = KeepsRole es
  KeepsRole (inbound_request msg cid from_tcp ∷ es) =
      (is_some msg.ice_controlling ≡ false) × KeepsRole es
  KeepsRole (tick now ∷ es) = KeepsRole es
  KeepsRole (triggered ip port ∷ es) = KeepsRole es

  unfoldable pub run_events : List CheckEvent → Session → Session
  run_events [] s = s
  run_events (e ∷ es) s = run_events es (run_event s e)

module _ (cfg : IceConfig) (out : Outside) (regular : cfg.aggressive_nomination ≡ false) where
  run_next_check-IsStranded :
      (now : ℕ) (s : Session) → IsStranded s → IsStranded (run_next_check cfg out now s)
  unfolding run_next_check checks_of
  run_next_check-IsStranded now s i =
      let (c, t) = CheckList.run_next_check cfg.checks now (checks_of cfg out s) in
      let kept =
        run_next_check-static is_nominee is_nominee-IsStatic cfg.checks now (checks_of cfg out s) in
      elim (Bool-cases (is_checking s.state)) [
        | inl y ↦ rw y (after_tick-IsStranded s c t i (kept ∙ i.gone))
        | inr n ↦ rw n i
      ]

  -- Nothing is nominated when a check succeeds.
  conclude-IsStranded :
      (j : ℕ) (p : CheckPair) (s : Session)
      → IsStranded s
      → is_nominee p ≡ false
      → conclude cfg out j p s ≡ s
  unfolding conclude
  conclude-IsStranded j p s i h = let a = i.controlling in let b = i.selected in ground arith

  measure-keeps : (p : CheckPair) (s : Session) → IsStranded s → IsStranded (measure cfg out p s)
  unfolding measure
  measure-keeps p s i = elim (Bool-cases (p.txn_send_us == 0)) [
    | inl zero_time ↦ rw zero_time i
    | inr timed ↦ rw timed (record {
      controlling = i.controlling;
      selected = i.selected;
      gone = i.gone;
      apart = i.apart;
    })
  ]

  measure-list : (p : CheckPair) (s : Session) → (measure cfg out p s).check_list ≡ s.check_list
  unfolding measure
  measure-list p s = ground arith

  discover-keeps :
      (p : CheckPair) (m : Option MappedAddress) (s : Session)
      → IsStranded s
      → IsStranded (discover cfg out p m s)
  unfolding discover
  discover-keeps p none s i = i
  discover-keeps p (some m) s i =
      elim (Bool-cases (bytes_eq m.ip (address_str out.inet p.local) && m.port == p.local.port)) [
        | inl known ↦ rw known i
        | inr other ↦ rw other (record {
          controlling = i.controlling;
          selected = i.selected;
          gone = i.gone;
          apart = i.apart;
        })
      ]

  discover-list :
      (p : CheckPair) (m : Option MappedAddress) (s : Session)
      → (discover cfg out p m s).check_list ≡ s.check_list
  unfolding discover
  discover-list p none s = refl
  discover-list p (some m) s = ground arith

  succeed-IsStranded :
      (j : ℕ) (p : CheckPair) (s : Session)
      → IsStranded s
      → get_elem? s.check_list j ≡ some p
      → IsStranded (succeed cfg out j p s)
  unfolding succeed
  succeed-IsStranded j p s i e =
      let x = record p { valid = true; state = succeeded } in
      let l = set_at j x s.check_list in
      record {
        controlling = i.controlling;
        selected = i.selected;
        gone =
            unfreeze_siblings-static is_nominee is_nominee-IsStatic p.local.foundation
              p.remote.foundation l
            ∙ count-set_at is_nominee j p x s.check_list e refl
            ∙ i.gone;
        apart = i.apart;
      }

  handle_check_response-IsStranded :
      (msg : StunMessage) (s : Session)
      → IsStranded s
      → IsStranded (handle_check_response cfg out msg s)
  unfolding handle_check_response
  handle_check_response-IsStranded msg s i =
      let q = λ (p : CheckPair). bytes_eq p.txn_id msg.txn_id in
      elim (Bool-cases (is_checking s.state)) [
        | inr n ↦ rw n i
        | inl y ↦ elim (Option-cases (find_pair q 0 s.check_list)) [
          | inl e ↦ rw (y, e) i
          | inr ((j, p), e) ↦
              let (at, holds) = find_pair_sound q j p s.check_list e in
              let t = measure cfg out p s in
              let it = measure-keeps p s i in
              let u = record t {
                nominated_local_type = p.local.type;
                nominated_remote_type = p.remote.type;
              } in
              let iu : IsStranded u = record {
                controlling = it.controlling;
                selected = it.selected;
                gone = it.gone;
                apart = it.apart;
              } in
              let v = discover cfg out p msg.xor_mapped u in
              let iv = discover-keeps p msg.xor_mapped u iu in
              let list : v.check_list ≡ s.check_list =
                discover-list p msg.xor_mapped u ∙ measure-list p s in
              let w = succeed cfg out j p v in
              let iw =
                succeed-IsStranded j p v iv
                  (ap (λ (l : List CheckPair). get_elem? l j) list ∙ at) in
              let stays =
                conclude-IsStranded j p w iw (none_passes is_nominee j p s.check_list i.gone at) in
              rw (y, e) (subst IsStranded (sym stays) iw)
        ]
      ]

  trigger-IsStranded :
      (l : Candidate) (ip : Bytes) (port : ℕ) (s : Session)
      → IsStranded s
      → IsStranded (trigger cfg out l ip port s)
  unfolding trigger count triggered_pair
  trigger-IsStranded l ip port s i =
      let ps = s.check_list ++ (triggered_pair cfg out l ip port s ∷ []) in
      let longer : count is_nominee ps ≡ 0 = omega (
        arith,
        count-append is_nominee s.check_list (triggered_pair cfg out l ip port s ∷ []),
        i.gone,
      ) in
      let sent =
        send_check-static is_nominee is_nominee-IsStatic cfg.checks out.now (length s.check_list)
          ps in
      record {
        controlling = i.controlling;
        selected = i.selected;
        gone = elim (Bool-cases (is_checking s.state || is_connected s.state)) [
          | inl now ↦ rw now (sent ∙ longer)
          | inr not_now ↦ rw not_now longer
        ];
        apart = i.apart;
      }

  maybe_trigger-IsStranded :
      (ip : Bytes) (port : ℕ) (s : Session)
      → IsStranded s
      → IsStranded (maybe_trigger_check_from_peer cfg out ip port s)
  unfolding maybe_trigger_check_from_peer
  maybe_trigger-IsStranded ip port s i =
      let at = set_address out.inet ip (record no_candidate { type = prflx }) in
      elim (Bool-cases (is_empty ip || (is_none s.local_candidates || cfg.lite_mode))) [
        | inl nothing ↦ rw nothing i
        | inr some_way ↦
            elim (Bool-cases (is_some (find_pair (at_endpoint cfg out ip port) 0 s.check_list))) [
              | inl there ↦ rw (some_way, there) i
              | inr absent ↦
                  elim (Option-cases
                    (local_of_family cfg out (family_code at.family) s.local_candidates)) [
                      | inl e ↦ rw (some_way, absent, e) i
                      | inr (l, e) ↦ rw (some_way, absent, e) (trigger-IsStranded l ip port s i)
                    ]
            ]
      ]

  -- An error response other than 487 fails the pair, which was no nominee.
  on_binding_error-IsStranded :
      (msg : StunMessage) (s : Session)
      → IsStranded s
      → value_or msg.error_code 0 ≢ 487
      → IsStranded (on_binding_error cfg out msg s)
  unfolding on_binding_error
  on_binding_error-IsStranded msg s i code =
      let q = λ (p : CheckPair). bytes_eq p.txn_id msg.txn_id in
      let other = ==_false (value_or msg.error_code 0) 487 code in
      elim (Option-cases (find_pair q 0 s.check_list)) [
        | inl e ↦ simp (on_binding_error, other, e) i
        | inr ((j, p), e) ↦
            let (at, holds) = find_pair_sound q j p s.check_list e in
            let x = record p { state = failed } in
            let l = set_at j x s.check_list in
            simp (on_binding_error, other, e)
              (record {
                controlling = i.controlling;
                selected = i.selected;
                gone =
                    unfreeze_siblings-static is_nominee is_nominee-IsStatic p.local.foundation
                      p.remote.foundation l
                    ∙ count-set_at is_nominee j p x s.check_list at refl
                    ∙ i.gone;
                apart = i.apart;
              })
      ]

  reply-IsStranded :
      (cid : ℕ) (from_tcp : Bool) (bytes : Bytes) (s : Session)
      → IsStranded s
      → IsStranded (reply cfg out cid from_tcp bytes s)
  unfolding reply
  reply-IsStranded cid from_tcp bytes s i =
      let list : (reply cfg out cid from_tcp bytes s).check_list ≡ s.check_list = ground arith in
      let role : (reply cfg out cid from_tcp bytes s).controlling ≡ s.controlling = ground arith in
      let chosen : (reply cfg out cid from_tcp bytes s).nominee_selected ≡ s.nominee_selected =
        ground arith in
      let same : (reply cfg out cid from_tcp bytes s).state ≡ s.state = ground arith in
      record {
        controlling = role ∙ i.controlling;
        selected = chosen ∙ i.selected;
        gone = ap (count is_nominee) list ∙ i.gone;
        apart = ap is_connected same ∙ i.apart;
      }

  -- A request that leaves the role alone is answered, and nominates nothing.
  handle_binding_request-IsStranded :
      (msg : StunMessage) (cid : ℕ) (from_tcp : Bool) (s : Session)
      → IsStranded s
      → is_some msg.ice_controlling ≡ false
      → IsStranded (handle_binding_request cfg out msg cid from_tcp s)
  unfolding handle_binding_request accept_request same_role
  handle_binding_request-IsStranded msg cid from_tcp s i leaves =
      let (ip, port) = source (out.endpoint from_tcp cid) in
      let t = reply cfg out cid from_tcp (success_response cfg out s msg.txn_id) s in
      let it = reply-IsStranded cid from_tcp (success_response cfg out s msg.txn_id) s i in
      let ctrl = i.controlling in
      let agrees : same_role cfg out msg s ≡ false = ground arith in
      let asks : (msg.use_candidate && not s.controlling) ≡ false = ground arith in
      simp (handle_binding_request, accept_request, agrees, asks)
        (maybe_trigger-IsStranded ip port t it)

  pub run_events-IsStranded :
      (es : List CheckEvent) (s : Session)
      → IsStranded s
      → KeepsRole cfg out es
      → IsStranded (run_events cfg out es s)
  unfolding run_events run_event KeepsRole
  run_events-IsStranded [] s i k = i
  run_events-IsStranded (response msg ∷ es) s i k =
      run_events-IsStranded es (handle_check_response cfg out msg s)
        (handle_check_response-IsStranded msg s i) k
  run_events-IsStranded (error msg ∷ es) s i (code, k) =
      run_events-IsStranded es (on_binding_error cfg out msg s)
        (on_binding_error-IsStranded msg s i code) k
  run_events-IsStranded (inbound_request msg cid from_tcp ∷ es) s i (leaves, k) =
      run_events-IsStranded es (handle_binding_request cfg out msg cid from_tcp s)
        (handle_binding_request-IsStranded msg cid from_tcp s i leaves) k
  run_events-IsStranded (tick now ∷ es) s i k =
      run_events-IsStranded es (run_next_check cfg out now s) (run_next_check-IsStranded now s i) k
  run_events-IsStranded (triggered ip port ∷ es) s i k =
      run_events-IsStranded es (maybe_trigger_check_from_peer cfg out ip port s)
        (maybe_trigger-IsStranded ip port s i) k

  pub begin_checks-IsStranded : (s : Session) → IsStranded s → IsStranded (begin_checks cfg out s)
  unfolding begin_checks
  begin_checks-IsStranded s i =
      let fired =
        CheckList.fire cfg.checks out.now (length s.check_list) 0 false false s.check_list in
      let kept =
        fire-static is_nominee is_nominee-IsStatic cfg.checks out.now (length s.check_list) 0 false
          false s.check_list in
      let t = record s { check_list = fired } in
      let it : IsStranded t = record {
        controlling = i.controlling;
        selected = i.selected;
        gone = kept ∙ i.gone;
        apart = i.apart;
      } in
      elim (Bool-cases cfg.lite_mode) [
        | inl lite ↦ rw lite i
        | inr full ↦ simp full (run_next_check-IsStranded out.later t it)
      ]

  -- A controlling agent under regular nomination that was connected by its nominee and loses the consent of
  -- the peer goes back to Checking with a new check list, and as long as it keeps its role and does not restart, no
  -- sequence of responses, requests of the peer, ticks and triggered checks connects it again: the nominee is
  -- gone from the list, but nominee_selected stays set. No error response is a 487 and no request claims the
  -- controlling role. The agent is no lite agent, it has recoveries left, and the sort is a sort.
  pub recovery_stays_unconnected :
      SortLaws out.sort
      → (s : Session) (es : List CheckEvent) → is_connected s.state ≡ true
      → cfg.lite_mode ≡ false
      → s.controlling ≡ true
      → s.nominee_selected ≡ true
      → s.consent_missed + 1 < 2 ^ 32
      → cfg.consent_max_failures ≤ s.consent_missed + 1
      → s.consent_recovery_attempts < cfg.consent_max_recovery
      → KeepsRole cfg out es
      → is_connected (run_events cfg out es (on_keepalive cfg out s)).state ≡ false
  unfolding on_keepalive build_check_list
  recovery_stays_unconnected laws s es conn full ctrl sel small lost left keeps =
      let t = record s {
        consent_recovery_attempts = s.consent_recovery_attempts + 1;
        consent_missed = 0;
        state = checking;
      } in
      let u = build_check_list cfg out t in
      let iu : IsStranded u = record {
        controlling = ctrl;
        selected = sel;
        gone = fresh-nominees u.check_list (build_check_list-IsBuilt cfg out laws t).fresh;
        apart = refl;
      } in
      let wrapped : (s.consent_missed + 1) % 2 ^ 32 ≡ s.consent_missed + 1 = omega arith in
      let over : leb cfg.consent_max_failures (s.consent_missed + 1) ≡ true = ground arith in
      let more : ltb s.consent_recovery_attempts cfg.consent_max_recovery ≡ true = ground arith in
      simp (conn, full, wrapped, over, more)
        (run_events-IsStranded es (begin_checks cfg out u) (begin_checks-IsStranded u iu)
          keeps).apart
