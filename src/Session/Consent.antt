-- ===== src/Session/Consent.antt =====
-- Consent freshness (session.cpp): `on_keepalive`, the loss of consent, and `restart`.
use link_ice.Prelude.{
  ◌+◌, ◌-◌, ◌/◌, ◌%◌, ◌^◌, ◌&&◌, not, Bool, true, false, if◌then◌else◌, ltb, leb, ◌==◌, [], ◌∷◌,
  length, Bytes, none, some,
}
use link_ice.Candidate.{transport_is_tcp, udp}
use link_ice.Stun.Constants.{binding_request}
use link_ice.Stun.Builder.{new_builder, set_txn_id, build}
use link_ice.Session.{
  SessionState, new, checking, gave_up, IceConfig, Outside, Nomination, send_udp, send_tcp,
  on_auto_restart, gather, Session, emit,
}
use link_ice.Session.Pairing.{build_check_list}
use link_ice.Session.Tick.{is_connected, give_up, begin_checks}

unfoldable pub frame_tcp_stun : Bytes → Bytes
frame_tcp_stun msg = (length msg % 2 ^ 16 / 2 ^ 8) ∷ (length msg % 2 ^ 8) ∷ msg

abbrev pub is_failed : SessionState → Bool
is_failed new = false
is_failed SessionState.gathering = false
is_failed SessionState.waiting_remote = false
is_failed checking = false
is_failed SessionState.connected = false
is_failed gave_up = true

abbrev pub no_nomination : Nomination
no_nomination = record { ip = []; port = 0; relay = false; cid = 0; transport = udp }

-- A message of the session's own over the nominated transport's carrier.
unfoldable pub send_on : Outside → Nomination → Bytes → Session → Session
send_on out n msg s =
    if transport_is_tcp n.transport
    then (if out.carrier_tcp then emit (send_tcp n.cid (frame_tcp_stun msg)) s else s)
    else if out.carrier
    then emit (send_udp n.cid msg) s
    else s

-- The keepalive message: a binding request without attributes.
unfoldable pub keepalive : Bytes → Bytes
keepalive txn = build (set_txn_id txn (new_builder binding_request txn))

module _ (cfg : IceConfig) (out : Outside) where
  -- What `restart` resets of the fields modelled here; the new gathering is an action.
  unfoldable pub restart : Session → Session
  restart s =
      let n = s.nominated in
      if is_failed s.state
      then s
      else emit gather (record s {
        nomination_wait_armed = false;
        local_ufrag = out.ufrag;
        local_pwd = out.pwd;
        local_candidates = [];
        remote_candidates = [];
        remote_ufrag = [];
        remote_pwd = [];
        check_list = [];
        pending_stun_probes = [];
        consent_missed = 0;
        consent_recovery_attempts = 0;
        nominee_selected = false;
        remote_end_of_candidates = false;
        nominated = record n { ip = []; port = 0; relay = false; cid = 0 };
        peer_symmetric = false;
        symmetric_stride = 0;
        state = new;
      })

  -- Whether the last automatic restart is long enough ago.
  unfoldable pub backoff_over : Session → Bool
  backoff_over s = elim s.auto_restart_last [
    | none ↦ true
    | some t ↦ leb cfg.auto_restart_backoff (out.now - t)
  ]

  -- `notify_consent_loss_for_test`
  unfoldable pub notify_consent_loss : Session → Session
  notify_consent_loss s =
      let n = (s.auto_restart_attempts + 1) % 2 ^ 32 in
      if cfg.auto_restart_on_consent_loss
        && ltb s.auto_restart_attempts cfg.auto_restart_max_attempts
      then (if backoff_over s
          then restart (
              emit (on_auto_restart n) (record s {
                auto_restart_attempts = n;
                auto_restart_last = some out.now;
                consent_missed = 0;
              }))
          else record s { consent_missed = 0 })
      else give_up s

  unfoldable pub on_keepalive : Session → Session
  on_keepalive s =
      let missed = (s.consent_missed + 1) % 2 ^ 32 in
      let t = record s { consent_missed = missed } in
      if not (is_connected s.state)
      then s
      else if cfg.lite_mode
      then s
      else if leb cfg.consent_max_failures missed
      then (if ltb s.consent_recovery_attempts cfg.consent_max_recovery
          then begin_checks cfg out (
              build_check_list cfg out (record s {
                consent_recovery_attempts = s.consent_recovery_attempts + 1;
                consent_missed = 0;
                state = checking;
              }))
          else notify_consent_loss t)
      else if s.nominated.cid == 0
      then t
      else send_on out s.nominated (keepalive (out.txn_id s.drawn))
          (record t { drawn = s.drawn + 1 })
