-- ===== src/Session/Authentic.antt =====
-- What passes the integrity check of `on_carrier_data` (session.cpp), and what does not.
use link_ice.Prelude.{
  ℕ, ◌<◌, ◌≡◌, refl, arith, Bool, false, [], Bytes, some, length, value, ◌⊎◌, inl, inr, Bool-cases,
}
use link_ice.Stun.Constants.{binding_request}
use link_ice.Stun.Address.{Inet}
use link_ice.Stun.Builder.{set_txn_id, new_builder}
use link_ice.Stun.Parser.{StunMessage, new_message, parse_stun}
use link_ice.Stun.RoundTrip.{apply_all, encode_all, add_all}
use link_ice.Stun.Codec.{parse_stun-build}
use link_ice.Stun.Integrity.{verify_integrity}
use link_ice.Session.{IceConfig, Outside, Session}
use link_ice.Session.Consent.{keepalive}
use link_ice.Session.Role.{switch_role, handle_role_conflict, switch_role-controlling}
use link_ice.Session.Receive.{
  on_binding_error, integrity_key, answers_probe, on_stun, on_carrier_data,
}

-- What the parser makes of a keepalive: no attribute is there.
parsed_keepalive :
    (inet : Inet) (txn : Bytes)
    → length txn ≡ 12
    → parse_stun inet (keepalive txn) ≡ value (some (new_message binding_request txn))
unfolding keepalive apply_all add_all encode_all set_txn_id new_builder
parsed_keepalive inet txn l =
    parse_stun-build inet binding_request txn [] (omega arith) l tt (omega arith)

module _ (cfg : IceConfig) (out : Outside) where
  -- A STUN message that lacks MESSAGE-INTEGRITY, or whose digest is not the one under the key for it, changes
  -- nothing of the session but the time of its last activity, and causes no action. It does not come from the TURN server, and no STUN probe
  -- of the gathering waits for it.
  forged_message-dropped :
      (cid : ℕ) (bytes : Bytes) (from_tcp : Bool) (s : Session) (msg : StunMessage)
      → out.is_turn_server cid ≡ false
      → parse_stun out.inet bytes ≡ value (some msg)
      → answers_probe msg s ≡ false
      → (msg.has_integrity ≡ false)
        ⊎ (verify_integrity out.hmac_sha1 bytes (integrity_key msg s) ≡ value false)
      → on_carrier_data cfg out cid bytes from_tcp s ≡ value (record s { last_activity = out.now })
  unfolding on_carrier_data on_stun answers_probe integrity_key
  forged_message-dropped cid bytes from_tcp s msg h p a (inl missing) = rw (h, p, a, missing) refl
  forged_message-dropped cid bytes from_tcp s msg h p a (inr wrong) =
      elim (Bool-cases msg.has_integrity) [
        | inl there ↦ rw (h, p, a, wrong, there) refl
        | inr missing ↦ rw (h, p, a, missing) refl
      ]

  -- The keepalive of one agent is dropped by the other: whatever the state of the peer, it sends no response
  -- and notes only the time,
  -- so it never refreshes the consent of the sender. The transaction id has twelve bytes; the keepalive does
  -- not arrive over the connection to the TURN server.
  pub keepalive_unanswered :
      (txn : Bytes) (cid : ℕ) (from_tcp : Bool) (peer : Session)
      → length txn ≡ 12
      → out.is_turn_server cid ≡ false
      → on_carrier_data cfg out cid (keepalive txn) from_tcp peer
        ≡ value (record peer { last_activity = out.now })
  unfolding keepalive answers_probe new_message
  keepalive_unanswered txn cid from_tcp peer l h =
      forged_message-dropped cid (keepalive txn) from_tcp peer (new_message binding_request txn) h
        (parsed_keepalive out.inet txn l) refl (inl refl)

  -- Two agents claim one role and the sender's tie-breaker is the larger one: the inbound check makes this
  -- side switch, and the 487 that answers its own check, sent before, makes it switch back. Both then claim
  -- the same role again.
  pub conflict_race :
      (s : Session) (sender_tiebreaker : ℕ) (msg : StunMessage)
      → s.tiebreaker < sender_tiebreaker
      → msg.error_code ≡ some 487
      → (on_binding_error cfg out msg
          (handle_role_conflict cfg out s.controlling sender_tiebreaker s).0).controlling
        ≡ s.controlling
  unfolding on_binding_error handle_role_conflict
  conflict_race s tb msg h e =
      let t = switch_role cfg out s in
      let once = switch_role-controlling cfg out s in
      let twice = switch_role-controlling cfg out t in rw e (ground arith)
