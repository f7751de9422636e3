-- ===== src/Turn/Client.antt =====
-- The TURN client of turn.cpp: the allocation, the permissions, the channels and the relayed data. Its
-- messages go to the server over one connection.
use link_ice.Prelude.{
  ℕ, ◌+◌, ◌/◌, ◌||◌, ◌&&◌, not, Bool, true, false, if◌then◌else◌, ◌==◌, List, [], ◌∷◌, ◌++◌, Bytes,
  bytes_eq, Option, none, some, Outcome, value, ◌>>=◌,
}
use link_ice.CheckList.{contains}
use link_ice.Stun.Address.{Inet, MappedAddress}
use link_ice.Stun.Builder.{
  StunBuilder, new_builder, add_requested_transport, add_username, add_realm, add_nonce,
  add_integrity, add_fingerprint, add_xor_peer_address, add_data, add_channel_number, add_lifetime,
  build,
}
use link_ice.Stun.Parser.{StunMessage}
use link_ice.Stun.ChannelData.{encode_channel_data}
use link_ice.Turn.{encode_stream_frame}
use link_ice.Turn.Channels.{Peer, Channels, peer_key, channel_of}
use link_ice.Turn.Channels

abbrev pub requested_transport_tcp : ℕ
requested_transport_tcp = 6

pub record TurnConfig : Type 0 where
  pub server : Bytes
  pub port : ℕ
  pub username : Bytes
  pub password : Bytes
  pub tcp_transport : Bool
  pub tls_transport : Bool
  pub requested_transport : ℕ

-- What the client is given: the address library, the digests, random transaction ids, the connections that
-- the factory opens for data (0 where it opens none), the carrier and its connection to the server.
pub record Outside : Type 0 where
  pub inet : Inet
  pub hmac_sha1 : Bytes → Bytes → Bytes
  pub md5 : Bytes → Bytes
  pub txn_id : ℕ → Bytes
  pub data_carrier_factory : ℕ → ℕ
  pub carrier : Bool
  pub server_cid : ℕ

-- What a handler sends and whom it calls, in order.
pub data Action : Type 0 where
  to_server : Bytes → Action
  to_data_connection : ℕ → Bytes → Action
  data_cb : Peer → Bytes → Action
  alloc_cb : Bytes → ℕ → Action
  conn_attempt_cb : Bytes → ℕ → ℕ → Action
  data_conn_cb : ℕ → ℕ → Peer → Action
  arm_refresh : ℕ → Action

pub record PendingBind : Type 0 where
  pub connection_id : ℕ
  pub peer : Peer

-- The members of the client; `drawn` and `opened` count the random ids and the data connections, `out`
-- collects the actions.
pub record TurnClient : Type 0 where
  pub allocated : Bool
  pub refresh_healthy : Bool
  pub relayed : MappedAddress
  pub realm : Bytes
  pub nonce : Bytes
  pub auth_key : Bytes
  pub lifetime : ℕ
  pub channels : Channels
  pub rx_buffer : Bytes
  pub pending_connects : List (Bytes × Peer)
  pub pending_binds : List (ℕ × PendingBind)
  pub data_conn_rx_buffers : List (ℕ × Bytes)
  pub data_connections : List (ℕ × ℕ)
  pub bound_peers : List (ℕ × Peer)
  pub drawn : ℕ
  pub opened : ℕ
  pub out : List Action

unfoldable pub is_healthy : TurnClient → Bool
is_healthy t = t.allocated && t.refresh_healthy

abbrev pub emit : Action → TurnClient → TurnClient
emit a t = record t { out = t.out ++ (a ∷ []) }

-- `error_code == n`
abbrev pub is : Option ℕ → ℕ → Bool
is none n = false
is (some m) n = m == n

abbrev pub or_else : Option Bytes → Bytes → Bytes
or_else none d = d
or_else (some x) d = x

-- The numbers of the messages.
abbrev pub allocate_request : ℕ
allocate_request = 0x0003

abbrev pub refresh_request : ℕ
refresh_request = 0x0004

abbrev pub create_perm_request : ℕ
create_perm_request = 0x0008

abbrev pub channel_bind_request : ℕ
channel_bind_request = 0x0009

abbrev pub send_indication_type : ℕ
send_indication_type = 0x0016

module _ (cfg : TurnConfig) (out : Outside) where
  -- A message for the server, framed on a stream.
  unfoldable pub send_to_server : Bytes → TurnClient → TurnClient
  send_to_server bytes t =
      if not out.carrier || out.server_cid == 0
      then t
      else if cfg.tcp_transport || cfg.tls_transport
      then elim (encode_stream_frame bytes []) [
        | none ↦ t
        | some framed ↦ emit (to_server framed) t
      ]
      else emit (to_server bytes) t

  -- A builder with the next random transaction id.
  unfoldable pub start : ℕ → TurnClient → StunBuilder
  start type t = new_builder type (out.txn_id t.drawn)

  -- The credentials and the fingerprint at the end of a request.
  unfoldable pub sign : TurnClient → StunBuilder → StunBuilder
  sign t b = add_fingerprint (
      add_integrity out.hmac_sha1 t.auth_key
        (add_nonce t.nonce (add_realm t.realm (add_username cfg.username b))))

  abbrev pub draw : TurnClient → TurnClient
  draw t = record t { drawn = t.drawn + 1 }

  -- MD5 of `user:realm:password`.
  unfoldable pub compute_auth_key : TurnClient → TurnClient
  compute_auth_key t = record t {
    auth_key = out.md5 (cfg.username ++ (58 ∷ (t.realm ++ (58 ∷ cfg.password))));
  }

  -- The first request, without credentials, and whether it was sent.
  unfoldable pub allocate : TurnClient → TurnClient × Bool
  allocate t =
      let msg =
        build (add_requested_transport cfg.requested_transport (start allocate_request t)) in
      let sent = send_to_server msg (draw t) in
      if bytes_eq cfg.server []
      then (t, false)
      else if not out.carrier || out.server_cid == 0
      then (t, false)
      else (sent, true)

  -- The error response to an Allocate request: with a challenge or a stale nonce, another request.
  unfoldable pub on_allocate_error : StunMessage → TurnClient → TurnClient
  on_allocate_error msg t =
      let u =
        compute_auth_key
          (record t { realm = or_else msg.realm t.realm; nonce = or_else msg.nonce t.nonce }) in
      let retry =
        build
          (sign u (add_requested_transport cfg.requested_transport (start allocate_request u))) in
      if is msg.error_code 401 || is msg.error_code 438 then send_to_server retry (draw u) else t

  -- The timer of the refresh is armed for half of the lifetime.
  unfoldable pub schedule_refresh : TurnClient → TurnClient
  schedule_refresh t = emit (arm_refresh (t.lifetime / 2)) t

  unfoldable pub handle_allocate_response : StunMessage → TurnClient → TurnClient
  handle_allocate_response msg t = elim msg.xor_relayed [
    | none ↦ t
    | some relayed ↦
        let lifetime : ℕ = elim msg.lifetime [ none ↦ t.lifetime | some l ↦ l ] in
        emit (alloc_cb relayed.ip relayed.port)
          (schedule_refresh (record t { relayed = relayed; allocated = true; lifetime = lifetime }))
  ]

  unfoldable pub handle_data_indication : StunMessage → TurnClient → TurnClient
  handle_data_indication msg t = elim msg.xor_peer [
    | none ↦ t
    | some peer ↦
        if bytes_eq msg.payload []
        then t
        else emit (data_cb (record { ip = peer.ip; port = peer.port }) msg.payload) t
  ]

  unfoldable pub handle_channel_data : Bytes → TurnClient → Outcome TurnClient
  handle_channel_data bytes t = do
    found ← Channels.handle_channel_data t.channels bytes
    value (elim found [ none ↦ t | some (peer, payload) ↦ emit (data_cb peer payload) t ])

  -- Data for a peer: ChannelData on its channel, or else a Send indication.
  unfoldable pub send_indication : Peer → Bytes → TurnClient → TurnClient
  send_indication peer data_ t =
      let channel : ℕ = elim (channel_of (peer_key peer) t.channels.peer_to_channel) [
        | none ↦ 0
        | some c ↦ c
      ] in
      let msg = build (
        add_data data_
          (add_xor_peer_address out.inet peer.ip peer.port (start send_indication_type t))) in
      if channel == 0
      then send_to_server msg (draw t)
      else send_to_server (encode_channel_data channel data_) t

  unfoldable pub bind_channel : Peer → TurnClient → TurnClient
  bind_channel peer t =
      let (channels, asked) =
        Channels.bind_channel (cfg.requested_transport == requested_transport_tcp) peer
          t.channels in
      let u = record t { channels = channels } in
      elim asked [
        | none ↦ u
        | some channel ↦
            send_to_server
              (build (
                sign u (
                  add_xor_peer_address out.inet peer.ip peer.port
                    (add_channel_number channel (start channel_bind_request u)))))
              (draw u)
      ]

  unfoldable pub create_permission : Bytes → TurnClient → TurnClient
  create_permission ip t =
      let c = t.channels in
      let u = record t { channels = record c { permissions = ip ∷ c.permissions } } in
      if contains ip c.permissions
      then t
      else send_to_server
          (build (sign u (add_xor_peer_address out.inet ip 0 (start create_perm_request u))))
          (draw u)

  -- A Refresh request; a lifetime of 0 ends the allocation.
  unfoldable pub refresh_with : ℕ → TurnClient → TurnClient
  refresh_with lifetime t =
      send_to_server (build (sign t (add_lifetime lifetime (start refresh_request t)))) (draw t)

  unfoldable pub refresh : TurnClient → TurnClient
  refresh t = refresh_with t.lifetime t

  unfoldable pub close : TurnClient → TurnClient
  close t = let u = refresh_with 0 t in if t.allocated then record u { allocated = false } else t

  -- The timer of the refresh.
  unfoldable pub on_refresh_timer : TurnClient → TurnClient
  on_refresh_timer t = if t.allocated then schedule_refresh (refresh t) else t
