-- ===== src/Session/PathProbe.antt =====
-- The path MTU probes of a session (session.cpp).
use link_ice.Prelude.{
  ℕ, ◌+◌, ◌||◌, not, true, false, if◌then◌else◌, ◌==◌, ◌∷◌, ◌++◌, Bytes, none, some,
}
use link_ice.Stun.Constants.{binding_request}
use link_ice.Stun.Builder.{
  new_builder, set_txn_id, add_username, add_priority, add_ice_controlling, add_ice_controlled,
  add_padding_to, add_integrity, add_fingerprint, build,
}
use link_ice.PathMtu.{Probe, next_probe_size, on_probe_ack, on_probe_loss, is_complete}
use link_ice.Session.{Outside, send_udp, Session, emit}
use link_ice.Session.Tick.{is_connected}

module _ (out : Outside) where
  unfoldable pub probe_message : Session → Bytes → ℕ → Bytes
  probe_message s txn size =
      let b = add_priority 0 (
        add_username (s.remote_ufrag ++ (58 ∷ s.local_ufrag))
          (set_txn_id txn (new_builder binding_request txn))) in
      let r =
        if s.controlling
        then add_ice_controlling s.tiebreaker b
        else add_ice_controlled s.tiebreaker b in
      build (add_fingerprint (add_integrity out.hmac_sha1 s.remote_pwd (add_padding_to size r)))

  unfoldable pub start_path_mtu_probe : Session → Session
  start_path_mtu_probe s = elim s.pmtu_probe [
    | none ↦ s
    | some p ↦
        if not (is_connected s.state) || s.pmtu_inflight then s else elim (next_probe_size p) [
          | none ↦ record s { effective_mtu = p.effective }
          | some size ↦
              if s.nominated.cid == 0 || not out.carrier
              then s
              else emit (send_udp s.nominated.cid (probe_message s (out.txn_id s.drawn) size))
                  (record s {
                    pmtu_inflight_txn = out.txn_id s.drawn;
                    pmtu_inflight = true;
                    drawn = s.drawn + 1;
                  })
        ]
  ]

  -- The end of a probe: the search moves on, and the next probe starts unless it is complete.
  unfoldable pub after_probe : Session → Probe → Session
  after_probe s p =
      let t = record s { pmtu_probe = some p; effective_mtu = p.effective } in
      if is_complete p then t else start_path_mtu_probe t

  unfoldable pub on_path_mtu_probe_timeout : Session → Session
  on_path_mtu_probe_timeout s = elim s.pmtu_probe [
    | none ↦ s
    | some p ↦
        if not s.pmtu_inflight
        then s
        else after_probe (record s { pmtu_inflight = false }) (on_probe_loss p)
  ]

  -- The acknowledgement of a probe, in `on_carrier_data`.
  unfoldable pub on_path_mtu_probe_response : Session → Session
  on_path_mtu_probe_response s =
      let t = record s { pmtu_inflight = false } in
      let u : Session = elim s.pmtu_probe [ none ↦ t | some p ↦ after_probe t (on_probe_ack p) ] in
      record u { consent_missed = 0 }
