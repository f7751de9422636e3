-- ===== src/Session/Gather/Tests.antt =====
-- Runs of the gathering phase.
use link_ice.Prelude.{
  ◌+◌, ◌*◌, ◌/◌, ◌%◌, ◌^◌, ◌≡◌, refl, arith, [], ◌∷◌, true, false, none, some, replicate, length,
}
use link_ice.Candidate.{udp}
use link_ice.Stun.Address.{MappedAddress}
use link_ice.Stun.Parser.{StunMessage, new_message}
use link_ice.Turn.Client
use link_ice.Turn.Client.{TurnConfig, TurnClient, to_server, is_healthy}
use link_ice.Turn.Health.{IsHealthy}
use link_ice.Turn.Health.Inbound.{run}
use link_ice.Session.{gathering}
use link_ice.Session.Samples.{small_inet, cfg, out, session}
use link_ice.Session.Gather.{is_gathering, GatherConfig, Around, over_udp, Relay, Gatherer}
use link_ice.Session.Gather.Probes.{handle_gather_response}
use link_ice.Session.Gather.Relays.{attempt, fold_turn, gather_relay, on_backup_alloc}
use link_ice.Session.Gather.Attempts.{failures}
use link_ice.Session.Gather.Walk.{failures_end_gathering, fallback_frames}
use link_ice.Session.Gather.Failover.{Stays, failover_never_happens}
use link_ice.Session.Gather.Stride.{later_responses_ignored}
use link_ice.Session.Gather.Slots.{OneEach, tally, handle_gather_response-OneEach}

-- A server that is configured for TLS.
abbrev server : TurnConfig
server = record {
  server = 115 ∷ [];
  port = 3478;
  username = 117 ∷ [];
  password = 112 ∷ [];
  tcp_transport = false;
  tls_transport = true;
  requested_transport = 17;
}

-- Two such servers, and no IPv4 candidates.
abbrev settings : GatherConfig
settings = record {
  ice = cfg;
  stun_servers = [];
  turn = server;
  turn_servers = server ∷ server ∷ [];
  candidate_filter_flags = 1;
  tcp_candidates_enabled = false;
  prefer_turn_tcp = false;
  turn_backup_interval_s = 30;
  turn_failover_min_interval_s = 60;
}

abbrev around : Around
around = record {
  session = out;
  parse_uri = λ uri. none;
  carrier_tls = false;
  timers = true;
  connect_stream = λ tls c. none;
  now_s = 5;
}

abbrev starting : Gatherer
starting = record {
  session = record session {
    state = gathering;
    local_candidates = [];
    remote_candidates = [];
    pending_stun_probes = (3 ∷ []) ∷ [];
  };
  stun_gathered = false;
  turn_gathering = true;
  first_srflx_port = none;
  turn = none;
  turn_attempt_idx = 0;
  turn_backups = [];
  turn_backup_probe = none;
  turn_backup_probe_idx = 0;
  turn_last_failover = none;
  gather_gen = 0;
  turn_allocate_gen = 0;
  turn_backup_gen = 0;
  steps = [];
}

failures_end_gathering_example :
    let folded = fold_turn settings in
    let x =
      failures folded around
        (2 * length folded.turn_servers + 1)
        (gather_relay settings around starting) in
    (x.turn_gathering ≡ false) × (is_gathering x.session.state ≡ false)
unfolding fold_turn
failures_end_gathering_example = failures_end_gathering settings around starting refl refl refl refl

abbrev mapped : MappedAddress
mapped = record { ip = 108 ∷ []; port = 9 }

abbrev client_out : Client.Outside
client_out = record {
  inet = small_inet;
  hmac_sha1 = λ k m. replicate 20 0;
  md5 = λ m. replicate 16 0;
  txn_id = λ n. replicate 12 n;
  data_carrier_factory = λ n. 0;
  carrier = true;
  server_cid = 5;
}

abbrev client : TurnClient
client = record {
  allocated = true;
  refresh_healthy = true;
  relayed = mapped;
  realm = [];
  nonce = [];
  auth_key = [];
  lifetime = 600;
  channels = record {
    peer_to_channel = [];
    channel_to_peer = [];
    next_channel = 0x4000;
    permissions = [];
  };
  rx_buffer = [];
  pending_connects = [];
  pending_binds = [];
  data_conn_rx_buffers = [];
  data_connections = [];
  bound_peers = [];
  drawn = 0;
  opened = 0;
  out = [];
}

fallback_frames_example :
    (r : Relay) × ((attempt settings around server starting).turn ≡ some r)
    × (r.carrier ≡ over_udp)
    × (Client.send_to_server r.config
          (record client_out { carrier = true; server_cid = r.server_cid })
          (8 ∷ 9 ∷ [])
          client
        ≡ Client.emit (to_server (2 / 2 ^ 8 ∷ 2 % 2 ^ 8 ∷ 8 ∷ 9 ∷ [])) client)
fallback_frames_example =
    fallback_frames settings around server starting client_out (8 ∷ 9 ∷ []) client refl refl refl
      refl refl (λ e. absurd (ground arith)) (omega arith)

abbrev primary : Relay
primary = record {
  config = server;
  carrier = over_udp;
  server_cid = 5;
  allocated = true;
  healthy = true;
  relayed = mapped;
}

abbrev probed : Gatherer
probed = record starting { turn = some primary; turn_backup_probe = some primary }

failover_never_happens_example : Stays probed (on_backup_alloc settings around probed)
unfolding IsHealthy is_healthy run
failover_never_happens_example =
    failover_never_happens settings around server client_out [] client client primary probed refl
      refl refl refl refl

abbrev answer : StunMessage
answer = record (new_message 0x0101 (3 ∷ [])) { xor_mapped = some mapped }

handle_gather_response-OneEach_example :
    OneEach (handle_gather_response settings around answer udp starting).session.local_candidates
unfolding tally
handle_gather_response-OneEach_example =
    handle_gather_response-OneEach settings around answer udp starting (λ tcp. omega arith)

abbrev quiet : Gatherer
quiet = record starting { turn_gathering = false }

later_responses_ignored_example :
    let h = handle_gather_response settings around answer udp quiet in
    (h.session.symmetric_stride ≡ 0) × (handle_gather_response settings around answer udp h ≡ h)
unfolding new_message
later_responses_ignored_example =
    later_responses_ignored settings around answer answer mapped udp udp quiet refl refl refl refl
      refl
