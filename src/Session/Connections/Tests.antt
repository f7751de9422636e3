-- ===== src/Session/Connections/Tests.antt =====
-- Runs of the connection maps and of a TCP stream.
use link_ice.Prelude.{◌+◌, ◌≡◌, refl, arith, [], ◌∷◌, true, false, none, some, value, ◌>>=◌}
use link_ice.Prelude.Assoc.{nat_key, bytes_key}
use link_ice.Session.{Outside}
use link_ice.Session.Samples.{small_inet, cfg, out, session}
use link_ice.Session.Requests.{reply}
use link_ice.Session.Connections.{
  endpoint_key, Carriers, Connections, ensure_remote_cid, relay_cid_for_endpoint,
  ensure_remote_tcp_cid,
}
use link_ice.Session.Connections.Routing.{IsRouted, Fresh, Ensures, Reaches, connections-IsRouted}
use link_ice.Session.Connections.Relayed.{
  is_relayed, endpoint_of, after_restart, restart_silences_relay,
}
use link_ice.Session.Stream.{rx_buffer, arrive}
use link_ice.Session.Stream.Refinement.{stream_of, receive_all, seen, arrive-receive_all}
use link_ice.Session.Consent.{frame_tcp_stun}

abbrev carriers : Carriers
carriers = record {
  inet = small_inet;
  carrier = true;
  carrier_tcp = false;
  connect = λ uri n. some (n + 1);
  connect_tcp = λ uri n. none;
}

abbrev no_connections : Connections
no_connections = record {
  endpoint_to_cid = [];
  cid_to_endpoint_udp = [];
  cid_to_endpoint_tcp = [];
  relay_endpoint_to_cid = [];
  relay_cids = [];
  next_relay_cid = 100;
  tcp_rx_buffers = [];
  tcp_connect_timers = [];
  opened = 0;
  out = [];
}

no_connections-IsRouted : IsRouted no_connections
no_connections-IsRouted = record {
  direct = λ key cid e. absurd (ground arith);
  relayed = λ key cid e. absurd (ground arith);
  below = λ cid ep e. absurd (ground arith);
}

carriers-Fresh : Fresh carriers no_connections
carriers-Fresh = record { apart = λ uri cid e. refl; below = λ uri cid e. ground arith }

connections-IsRouted_example :
    let direct = ensure_remote_cid carriers (49 ∷ []) 80 no_connections in
    let relayed = relay_cid_for_endpoint carriers (49 ∷ []) 80 no_connections in
    (IsRouted direct.0 × Ensures carriers (49 ∷ []) 80 no_connections direct)
    × (IsRouted relayed.0
        × Reaches relayed.0.cid_to_endpoint_udp relayed.1 (endpoint_key (49 ∷ []) 80))
    × IsRouted (ensure_remote_tcp_cid carriers (49 ∷ []) 80 no_connections).0
connections-IsRouted_example =
    connections-IsRouted carriers (49 ∷ []) 80 no_connections no_connections-IsRouted carriers-Fresh

abbrev relayed_out : Outside
relayed_out = record out {
  turn = true;
  endpoint = endpoint_of (after_restart carriers (49 ∷ []) 80 no_connections).0;
  is_relay_cid = is_relayed (after_restart carriers (49 ∷ []) 80 no_connections).0;
}

restart_silences_relay_example :
    reply cfg relayed_out
      (after_restart carriers (49 ∷ []) 80 no_connections).1
      false
      (7 ∷ [])
      session
    ≡ session
restart_silences_relay_example =
    restart_silences_relay carriers cfg relayed_out (49 ∷ []) 80 no_connections (7 ∷ []) session
      refl refl refl refl

arrive-receive_all_example :
    (arrive cfg out 5
        ((0 ∷ []) ∷ (2 ∷ 7 ∷ []) ∷ (8 ∷ 0 ∷ 1 ∷ 9 ∷ []) ∷ [])
        (no_connections, session)
      >>= seen cfg out 5)
    ≡ (receive_all cfg out 5 ((7 ∷ 8 ∷ []) ∷ (9 ∷ []) ∷ []) session >>= λ t. value ([], t))
unfolding rx_buffer stream_of frame_tcp_stun
arrive-receive_all_example =
    arrive-receive_all cfg out 5 ((7 ∷ 8 ∷ []) ∷ (9 ∷ []) ∷ [])
      ((0 ∷ []) ∷ (2 ∷ 7 ∷ []) ∷ (8 ∷ 0 ∷ 1 ∷ 9 ∷ []) ∷ []) no_connections session refl
      (omega arith, (omega arith, tt)) refl
