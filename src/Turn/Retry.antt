-- ===== src/Turn/Retry.antt =====
-- The retries of an Allocate request (turn.cpp).
use link_ice.Prelude.{
  ℕ, zero, suc, ◌≡◌, ◌≢◌, refl, ap, ◌∙◌, true, false, ◌==◌, ==_false, [], ◌∷◌, Bytes, List, length,
  ◌++◌, append_assoc, append-nil, All, take, sym, some,
}
use link_ice.Stun.Parser.{StunMessage}
use link_ice.Stun.Builder.{
  add_requested_transport, build, wire_with, new_builder, add_attr, add_attr_u32, add_username,
  add_realm, add_nonce, add_integrity, add_fingerprint,
}
use link_ice.Stun.Endian.{write16}
use link_ice.Turn.Client.{
  Action, TurnConfig, Outside, TurnClient, to_server, allocate_request, emit, send_to_server, start,
  sign, draw, compute_auth_key, on_allocate_error, or_else,
}

-- The message type of an Allocate request stands in the first two bytes.
abbrev pub IsAllocate : Bytes → Type 0
IsAllocate b = take 2 b ≡ 0 ∷ 3 ∷ []

abbrev pub requests : List Bytes → List Action
requests [] = []
requests (b ∷ bs) = to_server b ∷ requests bs

module _ (cfg : TurnConfig) (out : Outside) where
  -- The same error response again and again.
  unfoldable pub errors : ℕ → StunMessage → TurnClient → TurnClient
  errors zero msg t = t
  errors (suc n) msg t = errors n msg (on_allocate_error cfg out msg t)

  send_datagram :
      (bytes : Bytes) (t : TurnClient)
      → out.carrier ≡ true
      → out.server_cid ≢ 0
      → cfg.tcp_transport ≡ false
      → cfg.tls_transport ≡ false
      → send_to_server cfg out bytes t ≡ emit (to_server bytes) t
  unfolding send_to_server
  send_datagram bytes t carrier cid tcp tls =
      let there : (out.server_cid == 0) ≡ false = ==_false out.server_cid 0 cid in
      rw (carrier, there, tcp, tls) refl

  error_sends :
      (msg : StunMessage) (t : TurnClient)
      → out.carrier ≡ true
      → out.server_cid ≢ 0
      → cfg.tcp_transport ≡ false
      → cfg.tls_transport ≡ false
      → msg.error_code ≡ some 401
      → (b : Bytes) × IsAllocate b
        × ((on_allocate_error cfg out msg t).out ≡ t.out ++ (to_server b ∷ []))
  unfolding on_allocate_error compute_auth_key sign start build wire_with write16 new_builder
      add_attr add_attr_u32 add_username add_realm add_nonce add_integrity add_fingerprint
      add_requested_transport
  error_sends msg t carrier cid tcp tls e =
      let u =
        compute_auth_key cfg out
          (record t { realm = or_else msg.realm t.realm; nonce = or_else msg.nonce t.nonce }) in
      let retry = build (
        sign cfg out u
          (add_requested_transport cfg.requested_transport (start cfg out allocate_request u))) in
      let sent = send_datagram retry (draw cfg out u) carrier cid tcp tls in
      (retry, refl, simp (e) (ap (λ (x : TurnClient). x.out) sent))

  -- A client whose credentials the server refuses never gives up: each 401, also those that answer a request
  -- with credentials, sends one more Allocate request and nothing else, without a bound. The transport is a
  -- datagram one.
  pub errors_without_end :
      (n : ℕ) (msg : StunMessage) (t : TurnClient)
      → out.carrier ≡ true
      → out.server_cid ≢ 0
      → cfg.tcp_transport ≡ false
      → cfg.tls_transport ≡ false
      → msg.error_code ≡ some 401
      → (bs : List Bytes) × (length bs ≡ n)
        × All IsAllocate bs
        × ((errors n msg t).out ≡ t.out ++ requests bs)
  unfolding errors
  errors_without_end zero msg t carrier cid tcp tls e = ([], refl, tt, sym (append-nil t.out))
  errors_without_end (suc n) msg t carrier cid tcp tls e =
      let (b, allocate, one) = error_sends msg t carrier cid tcp tls e in
      let (bs, many, all, rest) =
        errors_without_end n msg (on_allocate_error cfg out msg t) carrier cid tcp tls e in
      (
        b ∷ bs,
        ap suc many,
        (allocate, all),
        rest
            ∙ ap (λ (x : List Action). x ++ requests bs) one
            ∙ append_assoc t.out (to_server b ∷ []) (requests bs),
      )
