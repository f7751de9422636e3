-- ===== src/Turn/Relay.antt =====
-- What the data connections of the TURN client keep (turn.cpp).
use link_ice.Prelude.{
  ℕ, zero, suc, ◌+◌, ◌≡◌, refl, sym, ap, ◌∙◌, subst, arith, if◌then◌else◌, ◌==◌, List, [], ◌∷◌,
  ◌++◌, Bytes, bytes_eq, Option, none, some, Option-cases, Bool-cases, inl, inr, >>=-Returns,
  Returns,
}
use link_ice.Prelude.Assoc.{
  nat_key, bytes_key, lookup, remove, lookup-put_ne, lookup-remove_self, lookup-remove_ne,
}
use link_ice.Stun.Parser.{StunMessage}
use link_ice.Stun.Safety.{Done, parse_stun-returns}
use link_ice.Turn.{try_take_stream_frame}
use link_ice.Turn.Channels.{Peer}
use link_ice.Turn.Client.{
  TurnConfig, Outside, TurnClient, Action, to_server, to_data_connection, data_cb, alloc_cb,
  conn_attempt_cb, data_conn_cb, arm_refresh,
}
use link_ice.Turn.DataConnections.{
  on_bind_response, on_bind_error, dispatch_data_conn_message, drain_data_conn, keep_rest,
  on_handshake, on_data_connection_inbound,
}

-- A connection that is bound keeps no bytes of the handshake.
unfoldable pub IsSettled : TurnClient → Type 0
IsSettled t =
    (cid : ℕ) (peer : Peer)
    → lookup cid t.bound_peers ≡ some peer
    → lookup cid t.data_conn_rx_buffers ≡ none

-- The bytes that are handed on as a peer's.
unfoldable pub data_count : List Action → ℕ
data_count [] = 0
data_count (data_cb p b ∷ as_) = 1 + data_count as_
data_count (to_server b ∷ as_) = data_count as_
data_count (to_data_connection c b ∷ as_) = data_count as_
data_count (alloc_cb i p ∷ as_) = data_count as_
data_count (conn_attempt_cb i p c ∷ as_) = data_count as_
data_count (data_conn_cb c d p ∷ as_) = data_count as_
data_count (arm_refresh n ∷ as_) = data_count as_

data_count-append : (xs ys : List Action) → data_count (xs ++ ys) ≡ data_count xs + data_count ys
unfolding data_count
data_count-append [] ys = omega arith
data_count-append (data_cb p b ∷ xs) ys = omega (arith, data_count-append xs ys)
data_count-append (to_server b ∷ xs) ys = data_count-append xs ys
data_count-append (to_data_connection c b ∷ xs) ys = data_count-append xs ys
data_count-append (alloc_cb i p ∷ xs) ys = data_count-append xs ys
data_count-append (conn_attempt_cb i p c ∷ xs) ys = data_count-append xs ys
data_count-append (data_conn_cb c d p ∷ xs) ys = data_count-append xs ys
data_count-append (arm_refresh n ∷ xs) ys = data_count-append xs ys

module _ (cfg : TurnConfig) (out : Outside) where
  on_bind_response-data :
      (cid : ℕ) (t : TurnClient)
      → data_count (on_bind_response cfg out cid t).out ≡ data_count t.out
  unfolding on_bind_response data_count
  on_bind_response-data cid t = elim (Option-cases (lookup cid t.pending_binds)) [
    | inl e ↦ rw (on_bind_response, e) refl
    | inr (pb, e) ↦
        rw (on_bind_response, e)
          (omega (arith, data_count-append t.out (data_conn_cb pb.connection_id cid pb.peer ∷ [])))
  ]

  on_bind_error-data :
      (cid : ℕ) (t : TurnClient) → data_count (on_bind_error cfg out cid t).out ≡ data_count t.out
  unfolding on_bind_error
  on_bind_error-data cid t = refl

  on_bind_response-IsSettled :
      (cid : ℕ) (t : TurnClient) → IsSettled t → IsSettled (on_bind_response cfg out cid t)
  unfolding on_bind_response IsSettled
  on_bind_response-IsSettled cid t h = elim (Option-cases (lookup cid t.pending_binds)) [
    | inl e ↦ rw (on_bind_response, e) h
    | inr (pb, e) ↦
        rw (on_bind_response, e)
          λ c peer q. elim (Bool-cases (cid == c)) [
            | inl here ↦
                let same : cid ≡ c = ground arith in
                subst (λ (x : ℕ). lookup x (remove cid t.data_conn_rx_buffers) ≡ none) same
                  (lookup-remove_self cid t.data_conn_rx_buffers)
            | inr other ↦
                lookup-remove_ne cid c t.data_conn_rx_buffers other
                ∙ h c peer (sym (lookup-put_ne cid c pb.peer t.bound_peers other) ∙ q)
          ]
  ]

  removed-IsSettled :
      (cid : ℕ) (t : TurnClient)
      → IsSettled t
      → IsSettled (record t { data_conn_rx_buffers = remove cid t.data_conn_rx_buffers })
  unfolding IsSettled
  removed-IsSettled cid t h c peer q = elim (Bool-cases (cid == c)) [
    | inl here ↦
        let same : cid ≡ c = ground arith in
        subst (λ (x : ℕ). lookup x (remove cid t.data_conn_rx_buffers) ≡ none) same
          (lookup-remove_self cid t.data_conn_rx_buffers)
    | inr other ↦ lookup-remove_ne cid c t.data_conn_rx_buffers other ∙ h c peer q
  ]

  on_bind_error-IsSettled :
      (cid : ℕ) (t : TurnClient) → IsSettled t → IsSettled (on_bind_error cfg out cid t)
  unfolding on_bind_error IsSettled
  on_bind_error-IsSettled cid t h = removed-IsSettled cid t h

-- What both responses keep, the whole loop over the messages of a buffer keeps, and it returns.
module _ (cfg : TurnConfig) (out : Outside) (cid : ℕ) (Kept : TurnClient → Type 0)
    (response_keeps : (t : TurnClient) → Kept t → Kept (on_bind_response cfg out cid t))
    (error_keeps : (t : TurnClient) → Kept t → Kept (on_bind_error cfg out cid t)) where
  handled-Kept :
      (parsed : Option StunMessage) (t : TurnClient)
      → Kept t
      → Kept (elim parsed as (λ _. TurnClient) [
        | none ↦ t
        | some msg ↦
            if msg.msg_type == 0x010B
            then on_bind_response cfg out cid t
            else if msg.msg_type == 0x011B
            then on_bind_error cfg out cid t
            else t
      ])
  handled-Kept none t h = h
  handled-Kept (some msg) t h = elim (Bool-cases (msg.msg_type == 0x010B)) [
    | inl bound ↦ rw bound (response_keeps t h)
    | inr not_bound ↦ elim (Bool-cases (msg.msg_type == 0x011B)) [
      | inl refused ↦ rw (not_bound, refused) (error_keeps t h)
      | inr other ↦ rw (not_bound, other) h
    ]
  ]

  dispatch-Kept :
      (bytes : Bytes) (t : TurnClient)
      → Kept t
      → Returns (dispatch_data_conn_message cfg out cid bytes t) Kept
  unfolding dispatch_data_conn_message
  dispatch-Kept bytes t h =
      >>=-Returns Done Kept _ _ (parse_stun-returns out.inet bytes)
        λ parsed d. handled-Kept parsed t h

  pub drain-Kept :
      (fuel : ℕ) (buf : Bytes) (t : TurnClient)
      → Kept t
      → Returns (drain_data_conn cfg out fuel cid buf t) (λ r. Kept r.0)
  unfolding drain_data_conn
  drain-Kept zero buf t h = h
  drain-Kept (suc fuel) buf t h = elim (Option-cases (try_take_stream_frame buf)) [
    | inl e ↦ rw (drain_data_conn, e) h
    | inr ((frame, rest), e) ↦
        rw (drain_data_conn, e)
          (>>=-Returns Kept (λ r. Kept r.0) _ _ (dispatch-Kept frame t h)
            λ u k. drain-Kept fuel rest u k)
  ]

module _ (cfg : TurnConfig) (out : Outside) where
  keep_rest-data :
      (cid : ℕ) (r : TurnClient × Bytes)
      → data_count (keep_rest cfg out cid r).out ≡ data_count r.0.out
  unfolding keep_rest
  keep_rest-data cid (t, rest) = elim (Option-cases (lookup cid t.bound_peers)) [
    | inl e ↦ rw (keep_rest, e) (ground arith)
    | inr (p, e) ↦ rw (keep_rest, e) (ground arith)
  ]

  keep_rest-IsSettled :
      (cid : ℕ) (r : TurnClient × Bytes) → IsSettled r.0 → IsSettled (keep_rest cfg out cid r)
  unfolding keep_rest IsSettled
  keep_rest-IsSettled cid (t, rest) h = elim (Bool-cases (bytes_eq rest [])) [
    | inl nothing ↦ rw (keep_rest, nothing) h
    | inr more ↦ elim (Option-cases (lookup cid t.bound_peers)) [
      | inr (p, e) ↦ rw (keep_rest, more, e) h
      | inl e ↦
          rw (keep_rest, more, e)
            λ c peer q. elim (Bool-cases (cid == c)) [
              | inl here ↦
                  let same : cid ≡ c = ground arith in
                  absurd (ground (arith, ap (λ (x : ℕ). lookup x t.bound_peers) same))
              | inr other ↦ lookup-put_ne cid c rest t.data_conn_rx_buffers other ∙ h c peer q
            ]
    ]
  ]

  -- Bytes on a data connection are always handled, whatever they are, and a connection that is bound never
  -- keeps bytes of the handshake behind: from there on everything goes to the application.
  pub data_connection-IsSettled :
      (cid : ℕ) (bytes : Bytes) (t : TurnClient)
      → IsSettled t
      → Returns (on_data_connection_inbound cfg out cid bytes t) IsSettled
  unfolding on_data_connection_inbound on_handshake IsSettled
  data_connection-IsSettled cid bytes t h = elim (Option-cases (lookup cid t.bound_peers)) [
    | inr (p, e) ↦ rw (on_data_connection_inbound, e) h
    | inl e ↦
        rw (on_data_connection_inbound, e)
          (>>=-Returns (λ r. IsSettled r.0) IsSettled _ _
            (drain-Kept cfg out cid IsSettled (on_bind_response-IsSettled cfg out cid)
              (on_bind_error-IsSettled cfg out cid) _ _ _ (removed-IsSettled cfg out cid t h))
            λ r k. keep_rest-IsSettled cid r k)
  ]

  -- The bytes of the chunk that ends the handshake are lost: on a connection that is not bound yet, no chunk,
  -- whatever follows the ConnectionBind response in it, hands any byte on to the application.
  pub handshake_hands_on_nothing :
      (cid : ℕ) (bytes : Bytes) (t : TurnClient)
      → lookup cid t.bound_peers ≡ none
      → Returns
          (on_data_connection_inbound cfg out cid bytes t)
          (λ u. data_count u.out ≡ data_count t.out)
  unfolding on_data_connection_inbound on_handshake
  handshake_hands_on_nothing cid bytes t e =
      let Same = λ (u : TurnClient). data_count u.out ≡ data_count t.out in
      rw (on_data_connection_inbound, e)
        (>>=-Returns (λ r. Same r.0) Same _ _
          (drain-Kept cfg out cid Same (λ u k. on_bind_response-data cfg out cid u ∙ k)
            (λ u k. on_bind_error-data cfg out cid u ∙ k) _ _ _ refl)
          λ r k. keep_rest-data cid r ∙ k)
