-- ===== src/Session/Receive.antt =====
-- The dispatch of inbound bytes (session.cpp): `on_carrier_data` and, for TCP, `on_tcp_carrier_data`.
use link_ice.Prelude.{
  ℕ, ◌&&◌, ◌||◌, not, Bool, if◌then◌else◌, ◌==◌, List, [], ◌∷◌, Bytes, bytes_eq, none, some,
  Outcome, value, ◌>>=◌,
}
use link_ice.CheckList.{failed, set_at, unfreeze_siblings, contains}
use link_ice.Reorder.{deliver_in_order}
use link_ice.Stun.Constants.{binding_request}
use link_ice.Stun.Parser.{StunMessage, parse_stun}
use link_ice.Stun.Integrity.{verify_integrity}
use link_ice.Session.{IceConfig, Outside, turn_inbound, gather_response, on_data, Session, emit}
use link_ice.Session.Tick.{is_connected}
use link_ice.Session.Role.{switch_role}
use link_ice.Session.PathProbe.{on_path_mtu_probe_response}
use link_ice.Session.Nominate.{find_pair, handle_check_response}
use link_ice.Session.Requests.{binding_response, binding_error, value_or, handle_binding_request}

unfoldable pub emit_data : List Bytes → Session → Session
emit_data [] s = s
emit_data (d ∷ ds) s = emit_data ds (emit (on_data d) s)

-- The key of a response is that of the request it answers.
unfoldable pub integrity_key : StunMessage → Session → Bytes
integrity_key msg s =
    if msg.msg_type == binding_response || msg.msg_type == binding_error
    then s.remote_pwd
    else s.local_pwd

-- Whether the session waits for this response of a STUN server.
unfoldable pub answers_probe : StunMessage → Session → Bool
answers_probe msg s = msg.msg_type == binding_response && contains msg.txn_id s.pending_stun_probes

module _ (cfg : IceConfig) (out : Outside) where
  -- An error response to a check: 487 switches the role, any other code fails the pair.
  unfoldable pub on_binding_error : StunMessage → Session → Session
  on_binding_error msg s =
      if value_or msg.error_code 0 == 487
      then switch_role cfg out s
      else elim (find_pair (λ p. bytes_eq p.txn_id msg.txn_id) 0 s.check_list) [
        | none ↦ s
        | some (i, p) ↦ record s {
          check_list =
              unfreeze_siblings p.local.foundation p.remote.foundation
                (set_at i (record p { state = failed }) s.check_list);
        }
      ]

  unfoldable pub on_binding_response : StunMessage → Session → Session
  on_binding_response msg s =
      if s.pmtu_inflight && bytes_eq msg.txn_id s.pmtu_inflight_txn
      then on_path_mtu_probe_response out s
      else if is_connected s.state
      then record s { consent_missed = 0 }
      else handle_check_response cfg out msg s

  -- The handlers behind the integrity check.
  unfoldable pub dispatch : StunMessage → ℕ → Bool → Session → Session
  dispatch msg cid from_tcp s =
      if msg.msg_type == binding_error
      then on_binding_error msg s
      else if msg.msg_type == binding_response
      then on_binding_response msg s
      else if msg.msg_type == binding_request
      then handle_binding_request cfg out msg cid from_tcp s
      else s

  unfoldable pub on_stun : StunMessage → ℕ → Bytes → Bool → Session → Outcome Session
  on_stun msg cid bytes from_tcp s =
      if answers_probe msg s
      then value (emit (gather_response msg.txn_id) s)
      else if not msg.has_integrity
      then value s
      else (do
        ok ← verify_integrity out.hmac_sha1 bytes (integrity_key msg s)
        value (if ok then dispatch msg cid from_tcp s else s))

  -- Application data; only a connected session hands it on.
  unfoldable pub on_app_data : Bytes → Bool → Session → Outcome Session
  on_app_data bytes from_tcp s =
      if not (is_connected s.state)
      then value s
      else if cfg.ordered_delivery && not from_tcp
      then (do
        delivered ← deliver_in_order bytes s.receiver
        value (emit_data delivered.1 (record s { receiver = delivered.0 })))
      else value (emit (on_data bytes) s)

  unfoldable pub on_carrier_data : ℕ → Bytes → Bool → Session → Outcome Session
  on_carrier_data cid bytes from_tcp s =
      let t = record s { last_activity = out.now } in
      if out.is_turn_server cid then value (emit (turn_inbound cid bytes) t) else (do
        parsed ← parse_stun out.inet bytes
        elim parsed [
          | none ↦ on_app_data bytes from_tcp t
          | some msg ↦ on_stun msg cid bytes from_tcp t
        ])
