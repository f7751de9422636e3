-- ===== src/Turn/DataConnections.antt =====
-- The data connections of a TCP allocation (turn.cpp, RFC 6062): Connect, ConnectionBind and the bytes that
-- arrive on a data connection.
use link_ice.Prelude.{
  ℕ, zero, suc, ◌+◌, ◌||◌, not, if◌then◌else◌, ◌==◌, [], ◌++◌, Bytes, bytes_eq, length, none, some,
  Outcome, value, ◌>>=◌,
}
use link_ice.Prelude.Assoc.{nat_key, bytes_key, lookup, put, remove}
use link_ice.Stun.Builder.{StunBuilder, add_xor_peer_address, add_connection_id, build}
use link_ice.Stun.Parser.{StunMessage, parse_stun}
use link_ice.Turn.{encode_stream_frame, try_take_stream_frame}
use link_ice.Turn.Channels.{Peer}
use link_ice.Turn.Client.{
  TurnConfig, Outside, TurnClient, to_data_connection, data_cb, conn_attempt_cb, data_conn_cb, emit,
  requested_transport_tcp, send_to_server, start, sign,
}

abbrev pub connect_request : ℕ
connect_request = 0x000A

abbrev pub connection_bind_request : ℕ
connection_bind_request = 0x000B

abbrev pub connection_bind_response : ℕ
connection_bind_response = 0x010B

abbrev pub connection_bind_error : ℕ
connection_bind_error = 0x011B

module _ (cfg : TurnConfig) (out : Outside) where
  -- The credentials, once the server has named its realm.
  unfoldable pub sign_if_known : TurnClient → StunBuilder → StunBuilder
  sign_if_known t b = if bytes_eq t.realm [] then b else sign cfg out t b

  -- The pending request is kept under the transaction id of its message.
  unfoldable pub connect_to_peer : Peer → TurnClient → TurnClient
  connect_to_peer peer t =
      let b = start cfg out connect_request t in
      let msg = build (sign_if_known t (add_xor_peer_address out.inet peer.ip peer.port b)) in
      let u = record t {
        pending_connects = put b.txn_id peer t.pending_connects;
        drawn = t.drawn + 1;
      } in
      if cfg.requested_transport == requested_transport_tcp then send_to_server cfg out msg u else t

  unfoldable pub send_framed_on_data_cid : ℕ → Bytes → TurnClient → TurnClient
  send_framed_on_data_cid cid bytes t =
      if not out.carrier || cid == 0 then t else elim (encode_stream_frame bytes []) [
        | none ↦ t
        | some framed ↦ emit (to_data_connection cid framed) t
      ]

  unfoldable pub open_data_connection : ℕ → Peer → TurnClient → TurnClient
  open_data_connection connection_id peer t =
      let cid = out.data_carrier_factory t.opened in
      let u = record t { opened = t.opened + 1 } in
      let pending = record u {
        pending_binds =
            put cid (record { connection_id = connection_id; peer = peer }) t.pending_binds;
        drawn = t.drawn + 1;
      } in
      let msg = build (
        sign_if_known u
          (add_connection_id connection_id (start cfg out connection_bind_request u))) in
      if cid == 0 then u else send_framed_on_data_cid cid msg pending

  unfoldable pub handle_connect_response : StunMessage → TurnClient → TurnClient
  handle_connect_response msg t = elim msg.connection_id [
    | none ↦ t
    | some id ↦ elim (lookup msg.txn_id t.pending_connects) [
      | none ↦ t
      | some peer ↦
          open_data_connection id peer
            (record t { pending_connects = remove msg.txn_id t.pending_connects })
    ]
  ]

  unfoldable pub handle_connection_attempt : StunMessage → TurnClient → TurnClient
  handle_connection_attempt msg t = elim msg.connection_id [
    | none ↦ t
    | some id ↦ elim msg.xor_peer [
      | none ↦ t
      | some peer ↦
          open_data_connection id (record { ip = peer.ip; port = peer.port })
            (emit (conn_attempt_cb peer.ip peer.port id) t)
    ]
  ]

  -- A response to ConnectionBind: the connection belongs to the peer that was pending.
  unfoldable pub on_bind_response : ℕ → TurnClient → TurnClient
  on_bind_response cid t = elim (lookup cid t.pending_binds) [
    | none ↦ t
    | some pb ↦ emit (data_conn_cb pb.connection_id cid pb.peer) (record t {
      pending_binds = remove cid t.pending_binds;
      data_connections = put pb.connection_id cid t.data_connections;
      bound_peers = put cid pb.peer t.bound_peers;
      data_conn_rx_buffers = remove cid t.data_conn_rx_buffers;
    })
  ]

  unfoldable pub on_bind_error : ℕ → TurnClient → TurnClient
  on_bind_error cid t = record t {
    pending_binds = remove cid t.pending_binds;
    data_conn_rx_buffers = remove cid t.data_conn_rx_buffers;
  }

  unfoldable pub dispatch_data_conn_message : ℕ → Bytes → TurnClient → Outcome TurnClient
  dispatch_data_conn_message cid bytes t = do
    parsed ← parse_stun out.inet bytes
    value (elim parsed [
      | none ↦ t
      | some msg ↦
          if msg.msg_type == connection_bind_response
          then on_bind_response cid t
          else if msg.msg_type == connection_bind_error
          then on_bind_error cid t
          else t
    ])

  -- The loop over the messages of the buffer; what is left of it. An iteration takes two bytes or more off
  -- the buffer, so its length is enough fuel.
  unfoldable pub drain_data_conn : ℕ → ℕ → Bytes → TurnClient → Outcome (TurnClient × Bytes)
  drain_data_conn zero cid buf t = value (t, buf)
  drain_data_conn (suc fuel) cid buf t = elim (try_take_stream_frame buf) [
    | none ↦ value (t, buf)
    | some (frame, rest) ↦ dispatch_data_conn_message cid frame t >>= drain_data_conn fuel cid rest
  ]

  -- The rest waits for more bytes only while the connection is not bound.
  unfoldable pub keep_rest : ℕ → TurnClient × Bytes → TurnClient
  keep_rest cid (t, rest) = if bytes_eq rest [] then t else elim (lookup cid t.bound_peers) [
    | none ↦ record t { data_conn_rx_buffers = put cid rest t.data_conn_rx_buffers }
    | some peer ↦ t
  ]

  unfoldable pub buffered : ℕ → TurnClient → Bytes
  buffered cid t = elim (lookup cid t.data_conn_rx_buffers) [ none ↦ [] | some b ↦ b ]

  -- Bytes on a data connection that is not bound.
  unfoldable pub on_handshake : ℕ → Bytes → TurnClient → Outcome TurnClient
  on_handshake cid bytes t =
      let buf = buffered cid t ++ bytes in
      drain_data_conn (length buf) cid buf
        (record t { data_conn_rx_buffers = remove cid t.data_conn_rx_buffers })
      >>= λ r. value (keep_rest cid r)

  unfoldable pub on_data_connection_inbound : ℕ → Bytes → TurnClient → Outcome TurnClient
  on_data_connection_inbound cid bytes t = elim (lookup cid t.bound_peers) [
    | some peer ↦ value (emit (data_cb peer bytes) t)
    | none ↦ on_handshake cid bytes t
  ]
