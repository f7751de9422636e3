-- ===== src/Turn/Tests.antt =====
-- Runs of the TURN transport on small messages.
use link_ice.Prelude.{
  ℕ, ◌+◌, ◌≡◌, refl, arith, [], ◌∷◌, length, replicate, true, false, Option, none, some, value,
  Returns, List, All, Bytes,
}
use link_ice.Prelude.Assoc.{nat_key, lookup}
use link_ice.Stun.Address.{Inet}
use link_ice.Stun.Parser.{StunMessage}
use link_ice.Turn.{encode_stream_frame, send_to_server, send_all, inbound_all}
use link_ice.Turn.Framing.{inbound-send_all}
use link_ice.Turn.Client.{TurnConfig, Outside, TurnClient, data_cb, emit}
use link_ice.Turn.DataConnections.{
  connect_to_peer, handle_connect_response, on_bind_response, on_data_connection_inbound,
}
use link_ice.Turn.Relay.{
  IsSettled, data_count, data_connection-IsSettled, handshake_hands_on_nothing,
}
use link_ice.Turn.Connect.{connect-data}
use link_ice.Turn.Retry.{IsAllocate, requests, errors, errors_without_end}
use link_ice.Turn.Channels.{
  Peer, Channels, IsConsistent, Requested, channel_of, peer_of, bind_channel,
  bind_channel-IsConsistent,
}

inbound-send_all_example :
    inbound_all [] ((0 ∷ []) ∷ (2 ∷ 7 ∷ []) ∷ (8 ∷ 0 ∷ 1 ∷ 9 ∷ []) ∷ [])
    ≡ ((7 ∷ 8 ∷ []) ∷ (9 ∷ []) ∷ [], [])
unfolding send_all send_to_server encode_stream_frame
inbound-send_all_example =
    inbound-send_all ((7 ∷ 8 ∷ []) ∷ (9 ∷ []) ∷ [])
      ((0 ∷ []) ∷ (2 ∷ 7 ∷ []) ∷ (8 ∷ 0 ∷ 1 ∷ 9 ∷ []) ∷ []) (omega arith, (omega arith, tt)) refl

abbrev fresh : Channels
fresh = record {
  peer_to_channel = [];
  channel_to_peer = [];
  next_channel = 0x4000;
  permissions = [];
}

fresh-IsConsistent : IsConsistent fresh
unfolding channel_of peer_of
fresh-IsConsistent = record {
  bound = λ k c e. absurd (ground arith);
  back = λ c p e. absurd (ground arith);
  started = omega arith;
}

abbrev some_peer : Peer
some_peer = record { ip = 49 ∷ []; port = 80 }

bind_channel-IsConsistent_example :
    let r = bind_channel false some_peer fresh in IsConsistent r.0 × Requested some_peer r.1 r.0
bind_channel-IsConsistent_example =
    bind_channel-IsConsistent false some_peer fresh fresh-IsConsistent (omega arith)

-- A client of a TCP allocation whose factory opens the connection 9, and one of a datagram allocation.
abbrev some_inet : Inet
some_inet = record {
  pton4 = λ ip. some 7;
  ntop4 = λ a. 49 ∷ [];
  pton6 = λ ip. none;
  ntop6 = λ a. 49 ∷ [];
}

abbrev client_outside : Outside
client_outside = record {
  inet = some_inet;
  hmac_sha1 = λ k m. replicate 20 0;
  md5 = λ m. replicate 16 0;
  txn_id = λ n. replicate 12 n;
  data_carrier_factory = λ n. 9 + n;
  carrier = true;
  server_cid = 4;
}

abbrev transport : ℕ → TurnConfig
transport n = record {
  server = 115 ∷ [];
  port = 3478;
  username = 117 ∷ [];
  password = 112 ∷ [];
  tcp_transport = false;
  tls_transport = false;
  requested_transport = n;
}

abbrev idle_client : TurnClient
idle_client = record {
  allocated = false;
  refresh_healthy = true;
  relayed = record { ip = []; port = 0 };
  realm = [];
  nonce = [];
  auth_key = [];
  lifetime = 600;
  channels = fresh;
  rx_buffer = [];
  pending_connects = [];
  pending_binds = [];
  data_conn_rx_buffers = [];
  data_connections = [];
  bound_peers = [];
  drawn = 3;
  opened = 0;
  out = [];
}

idle_client-IsSettled : IsSettled idle_client
unfolding IsSettled
idle_client-IsSettled cid peer e = refl

data_connection-IsSettled_example :
    Returns
      (on_data_connection_inbound (transport 6) client_outside 9 (0 ∷ 1 ∷ 5 ∷ []) idle_client)
      IsSettled
data_connection-IsSettled_example =
    data_connection-IsSettled (transport 6) client_outside 9 (0 ∷ 1 ∷ 5 ∷ []) idle_client
      idle_client-IsSettled

handshake_hands_on_nothing_example :
    Returns
      (on_data_connection_inbound (transport 6) client_outside 9 (0 ∷ 1 ∷ 5 ∷ []) idle_client)
      (λ u. data_count u.out ≡ data_count idle_client.out)
handshake_hands_on_nothing_example =
    handshake_hands_on_nothing (transport 6) client_outside 9 (0 ∷ 1 ∷ 5 ∷ []) idle_client refl

abbrev response : Option ℕ → Option ℕ → StunMessage
response id code = record {
  msg_type = 0x010A;
  txn_id = replicate 12 3;
  xor_mapped = none;
  xor_peer = none;
  xor_relayed = none;
  priority = none;
  lifetime = none;
  error_code = code;
  username = none;
  realm = some (114 ∷ []);
  nonce = none;
  connection_id = id;
  payload = [];
  use_candidate = false;
  ice_controlling = none;
  ice_controlled = none;
  has_integrity = false;
  has_fingerprint = false;
}

connect-data_example :
    let w =
      handle_connect_response
        (transport 6)
        client_outside
        (response (some 5) none)
        (connect_to_peer (transport 6) client_outside some_peer idle_client) in
    let u = on_bind_response (transport 6) client_outside 9 w in
    (lookup 5 u.data_connections ≡ some 9)
    × (on_data_connection_inbound (transport 6) client_outside 9 (1 ∷ 2 ∷ []) u
        ≡ value (emit (data_cb some_peer (1 ∷ 2 ∷ [])) u))
connect-data_example =
    connect-data (transport 6) client_outside some_peer idle_client (response (some 5) none) 5
      (1 ∷ 2 ∷ []) refl refl refl (λ e. absurd (ground arith))

errors_without_end_example :
    (bs : List Bytes) × (length bs ≡ 3)
    × All IsAllocate bs
    × ((errors (transport 17) client_outside 3 (response none (some 401)) idle_client).out
        ≡ requests bs)
errors_without_end_example =
    errors_without_end (transport 17) client_outside 3 (response none (some 401)) idle_client refl
      (λ e. absurd (ground arith)) refl refl refl

abbrev allocated_client : TurnClient
allocated_client = record idle_client { allocated = true }
