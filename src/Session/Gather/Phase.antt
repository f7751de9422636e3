-- ===== src/Session/Gather/Phase.antt =====
-- The start of the gathering phase, and `set_remote` (session.cpp).
use link_ice.Prelude.{
  ℕ, ◌≡◌, ◌&&◌, not, true, false, if◌then◌else◌, List, ◌++◌, Bytes, Bool-cases, inl, inr,
}
use link_ice.Candidate.{Candidate}
use link_ice.Session.{gathering, checking, Session, resolve_remote_mdns_candidates, emit}
use link_ice.Session.Pairing.{build_check_list}
use link_ice.Session.Remote.{is_waiting_for_remote}
use link_ice.Session.Tick.{is_none, begin_checks}
use link_ice.Session.Gather.{GatherConfig, Around, Gatherer, has_bit, is_gathering, no_servers}
use link_ice.Session.Gather.Probes.{
  on_gathering_complete, start_multi_stun_probes, gather_tcp_server_reflexive,
}
use link_ice.Session.Gather.Hosts.{HostSource, gather_host_candidates}
use link_ice.Session.Gather.Relays.{gather_relay, fold_turn, no_configs}
use link_ice.Session.Gather.Walk.{on_gathering_complete-left}

module _ (cfg : GatherConfig) (out : Around) where
  -- `gather`, with the candidates of the port mapping; the probes are posted.
  unfoldable pub gather : ℕ → HostSource → List Candidate → Gatherer → Gatherer
  gather local_port from mapped g =
      let s = g.session in
      let found = gather_host_candidates cfg out local_port from (record s { state = gathering }) in
      let h = gather_relay cfg out (record g {
        session = record found { local_candidates = found.local_candidates ++ mapped };
      }) in
      if no_servers cfg.stun_servers && not h.turn_gathering
      then on_gathering_complete cfg out h
      else h

  -- What `gather` posts where there are STUN servers.
  unfoldable pub on_probes : Gatherer → Gatherer
  on_probes g = gather_tcp_server_reflexive cfg out (start_multi_stun_probes cfg out g)

  unfoldable pub set_remote : Bytes → Bytes → List Candidate → Session → Session
  set_remote ufrag pwd candidates s =
      let t = record s {
        remote_ufrag = ufrag;
        remote_pwd = pwd;
        remote_candidates = candidates;
        last_activity = out.session.now;
      } in
      emit resolve_remote_mdns_candidates (
        if is_waiting_for_remote s.state && not (is_none s.local_candidates)
        then begin_checks cfg.ice out.session
            (build_check_list cfg.ice out.session (record t { state = checking }))
        else t)

module _ (cfg : GatherConfig) (out : Around) where
  -- Without STUN and TURN servers the phase is over at once.
  gather_without_servers :
      (local_port : ℕ) (from : HostSource) (mapped : List Candidate) (g : Gatherer)
      → no_servers cfg.stun_servers ≡ true
      → no_configs (fold_turn cfg).turn_servers ≡ true
      → g.turn_gathering ≡ false
      → is_gathering (gather cfg out local_port from mapped g).session.state ≡ false
  unfolding gather gather_relay
  gather_without_servers local_port from mapped g stun turn idle =
      elim (Bool-cases (has_bit 3 cfg.candidate_filter_flags)) [
        | inl alone ↦
            simp (gather, gather_relay, alone, stun, idle) (on_gathering_complete-left cfg out _)
        | inr open_ ↦
            simp (gather, gather_relay, open_, turn, stun, idle)
              (on_gathering_complete-left cfg out _)
      ]
