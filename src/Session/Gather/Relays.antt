-- ===== src/Session/Gather/Relays.antt =====
-- The TURN servers (session.cpp): the attempts to allocate, the relay candidate, and the backup servers.
use link_ice.Prelude.{
  ℕ, ◌+◌, ◌-◌, ◌&&◌, ◌||◌, not, Bool, true, false, if◌then◌else◌, leb, ◌==◌, List, [], ◌∷◌, ◌++◌,
  drop, length, get_elem?, Option, none, some,
}
use link_ice.Candidate.{relay, udp, type_code, Candidate}
use link_ice.Candidate.Priority.{compute_priority}
use link_ice.Stun.Address.{MappedAddress}
use link_ice.Turn.Client.{TurnConfig}
use link_ice.Session.{checking, Session, on_gathered, emit}
use link_ice.Session.Address.{is_empty, address_str, set_address}
use link_ice.Session.Consent.{is_failed}
use link_ice.Session.Nominate.{no_candidate}
use link_ice.Session.Tick.{is_checking, is_connected, is_none, rebuild}
use link_ice.Session.Gather.Probes.{on_gathering_complete}
use link_ice.Session.Gather.{
  has_bit, candidate_allowed, GatherConfig, Around, TurnCarrier, over_tls, over_tcp, over_udp,
  Relay, Gatherer, step, arm_allocate, arm_backup, attempt_again, close_turn, close_probe,
  allocate_probe, allocate_turn, create_permission, no_servers,
}

abbrev pub is_some {ℓ} : {A : Type ℓ} → Option A → Bool
is_some none = false
is_some (some x) = true

abbrev pub no_configs : List TurnConfig → Bool
no_configs [] = true
no_configs (x ∷ xs) = false

module _ (cfg : GatherConfig) (out : Around) where
  -- The candidate of an allocation.
  unfoldable pub relay_of : MappedAddress → Candidate
  relay_of relayed =
      record (set_address out.session.inet relayed.ip (record no_candidate { type = relay })) {
        port = relayed.port;
        priority = compute_priority relay 65535 1;
      }

  -- A client as it is built, with the whole configuration.
  abbrev pub built_client : TurnConfig → TurnCarrier → ℕ → Relay
  built_client c carrier cid = record {
    config = c;
    carrier = carrier;
    server_cid = cid;
    allocated = false;
    healthy = true;
    relayed = record { ip = []; port = 0 };
  }

  -- The carrier for a server: TLS before TCP before UDP, by what there is; nothing where the client cannot be built.
  unfoldable pub build_turn_client : TurnConfig → Option Relay
  build_turn_client c =
      let want_tls = c.tls_transport && out.carrier_tls in
      let want_tcp = not want_tls && (c.tcp_transport && out.session.carrier_tcp) in
      let cid = out.session.cid_to false udp c.server c.port in
      if want_tls || want_tcp
      then elim (out.connect_stream want_tls c) [
        | none ↦ none
        | some stream ↦ some (built_client c (if want_tls then over_tls else over_tcp) stream)
      ]
      else if out.session.carrier && not (cid == 0)
      then some (built_client c over_udp cid)
      else none

  -- The allocation part is over; with the STUN part over too, or none, the phase is.
  unfoldable pub end_turn : Gatherer → Gatherer
  end_turn g =
      let h = record g { turn_gathering = false } in
      if g.stun_gathered || no_servers cfg.stun_servers
      then on_gathering_complete cfg out (record h { gather_gen = g.gather_gen + 1 })
      else h

  -- The attempt on the server at the index, on the configuration that goes to the client.
  unfoldable pub attempt : TurnConfig → Gatherer → Gatherer
  attempt c g =
      let next = step attempt_again (record g { turn_attempt_idx = g.turn_attempt_idx + 1 }) in
      let gen = g.turn_allocate_gen + 1 in
      if is_empty c.server then next else elim (build_turn_client c) [
        | none ↦ next
        | some client ↦
            let h = step (allocate_turn client.config) (record g { turn = some client }) in
            if out.timers then step (arm_allocate gen) (record h { turn_allocate_gen = gen }) else h
      ]

  unfoldable pub close_primary : Gatherer → Gatherer
  close_primary g = elim g.turn [ none ↦ g | some r ↦ step close_turn (record g { turn = none }) ]

  unfoldable pub try_next_turn_attempt : Gatherer → Gatherer
  try_next_turn_attempt g =
      let h = close_primary (record g { turn_allocate_gen = g.turn_allocate_gen + 1 }) in
      elim (get_elem? cfg.turn_servers h.turn_attempt_idx) [
        | none ↦ end_turn h
        | some c ↦ attempt (record c { tcp_transport = c.tcp_transport || cfg.prefer_turn_tcp }) h
      ]

  -- The timer of an attempt, unless something has moved the generation on.
  unfoldable pub on_allocate_timeout : ℕ → Gatherer → Gatherer
  on_allocate_timeout gen g =
      let next = try_next_turn_attempt (record g { turn_attempt_idx = g.turn_attempt_idx + 1 }) in
      if gen == g.turn_allocate_gen
      then elim g.turn [ none ↦ next | some r ↦ if r.allocated then g else next ]
      else g

  unfoldable pub permit_all : List Candidate → Gatherer → Gatherer
  permit_all [] g = g
  permit_all (c ∷ cs) g =
      permit_all cs (step (create_permission (address_str out.session.inet c)) g)

  -- The servers behind the one in use are its backups.
  unfoldable pub keep_backups : Gatherer → Gatherer
  keep_backups g =
      let backups = drop (g.turn_attempt_idx + 1) cfg.turn_servers in
      let h = record g { turn_backups = backups } in
      let gen = g.turn_backup_gen + 1 in
      let k = record h { turn_backup_probe_idx = 0 } in
      if no_configs backups || cfg.turn_backup_interval_s == 0
      then h
      else if out.timers
      then step (arm_backup gen) (record k { turn_backup_gen = gen })
      else k

  -- A relay candidate while the checks run.
  unfoldable pub check_relay : Gatherer → Gatherer
  check_relay g =
      let s = rebuild cfg.ice out.session g.session in
      if not (is_none g.session.remote_candidates) && is_checking g.session.state
      then record g { session = if s.controlling then s else emit on_gathered s }
      else g

  -- The allocation of the primary.
  unfoldable pub on_alloc : MappedAddress → Gatherer → Gatherer
  on_alloc relayed g =
      let c = relay_of relayed in
      let s = g.session in
      let h = record g { turn_allocate_gen = g.turn_allocate_gen + 1 } in
      let k = record h {
        session = record s { local_candidates = s.local_candidates ++ (c ∷ []) };
      } in
      let permitted = if is_some g.turn then permit_all s.remote_candidates k else k in
      if candidate_allowed c.type c.family cfg.candidate_filter_flags
      then check_relay (end_turn (keep_backups permitted))
      else h

  unfoldable pub close_backup : Gatherer → Gatherer
  close_backup g = elim g.turn_backup_probe [
    | none ↦ g
    | some r ↦ step close_probe (record g { turn_backup_probe = none })
  ]

  -- One backup is probed at a time, in turn; the timer is armed again first.
  unfoldable pub on_turn_backup_tick : Gatherer → Gatherer
  on_turn_backup_tick g =
      let h = close_backup g in
      let idx =
        if leb (length g.turn_backups) g.turn_backup_probe_idx
        then 0
        else g.turn_backup_probe_idx in
      let gen = g.turn_backup_gen + 1 in
      let k = record h { turn_backup_probe_idx = idx + 1 } in
      let armed =
        if out.timers then step (arm_backup gen) (record k { turn_backup_gen = gen }) else k in
      if cfg.turn_backup_interval_s == 0 || is_failed g.session.state
      then g
      else elim (get_elem? g.turn_backups idx) [
        | none ↦ g
        | some c ↦ elim (build_turn_client c) [
          | none ↦ armed
          | some client ↦ step allocate_probe (record armed { turn_backup_probe = some client })
        ]
      ]

  unfoldable pub on_backup_timer : ℕ → Gatherer → Gatherer
  on_backup_timer gen g = if gen == g.turn_backup_gen then on_turn_backup_tick g else g

  unfoldable pub without_relays : List Candidate → List Candidate
  without_relays [] = []
  without_relays (c ∷ cs) =
      let rest = without_relays cs in if type_code c.type == type_code relay then rest else c ∷ rest

  -- The checks with a new relay; a connected session goes back to them.
  unfoldable pub check_promoted : Session → Session
  check_promoted s =
      if not (is_none s.remote_candidates) && is_checking s.state
      then rebuild cfg.ice out.session s
      else if is_connected s.state
      then rebuild cfg.ice out.session (record s { state = checking })
      else s

  -- A backup takes the primary's place.
  unfoldable pub promote_turn_backup : Relay → Gatherer → Gatherer
  promote_turn_backup client g =
      let h = if is_some g.turn then step close_turn g else g in
      let c = relay_of client.relayed in
      let kept = without_relays g.session.local_candidates in
      let candidates =
        if candidate_allowed c.type c.family cfg.candidate_filter_flags
        then kept ++ (c ∷ [])
        else kept in
      record h {
        turn_last_failover = some out.now_s;
        turn = some client;
        session = check_promoted (record g.session { local_candidates = candidates });
      }

  -- The interval since the last failover is over; before the first it counts as over.
  unfoldable pub interval_ok : Gatherer → Bool
  interval_ok g = elim g.turn_last_failover [
    | none ↦ true
    | some last ↦ leb cfg.turn_failover_min_interval_s (out.now_s - last)
  ]

  unfoldable pub primary_healthy : Gatherer → Bool
  primary_healthy g = elim g.turn [ none ↦ false | some r ↦ r.allocated && r.healthy ]

  -- The allocation of a backup: promoted only in the place of an unhealthy primary.
  unfoldable pub on_backup_alloc : Gatherer → Gatherer
  on_backup_alloc g = elim g.turn_backup_probe [
    | none ↦ g
    | some client ↦
        if primary_healthy g || not (interval_ok g)
        then close_backup g
        else promote_turn_backup client (record g { turn_backup_probe = none })
  ]

-- The configuration with a lone `turn` among the servers.
unfoldable pub fold_turn : GatherConfig → GatherConfig
fold_turn cfg = record cfg {
  turn_servers =
      if no_configs cfg.turn_servers && not (is_empty cfg.turn.server)
      then cfg.turn ∷ []
      else cfg.turn_servers;
}

-- The walk over the servers. It changes `cfg_`, so all that runs later is given the folded configuration.
unfoldable pub gather_relay : GatherConfig → Around → Gatherer → Gatherer
gather_relay cfg out g =
    let folded = fold_turn cfg in
    if has_bit 3 cfg.candidate_filter_flags || no_configs folded.turn_servers
    then g
    else try_next_turn_attempt folded out (record g { turn_gathering = true; turn_attempt_idx = 0 })
