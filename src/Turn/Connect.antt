-- ===== src/Turn/Connect.antt =====
-- A data connection from the Connect request to its first data (turn.cpp).
use link_ice.Prelude.{
  ℕ, ◌+◌, ◌≡◌, ◌≢◌, refl, sym, ap, ◌∙◌, subst, arith, true, false, ◌==◌, ==_false, List, [], Bytes,
  some, Option-cases, inl, inr, value,
}
use link_ice.Prelude.Assoc.{nat_key, bytes_key, lookup, put, remove, lookup-put_self}
use link_ice.Stun.Builder.{new_builder, add_xor_peer_address, add_connection_id, build}
use link_ice.Stun.Parser.{StunMessage}
use link_ice.Turn.{encode_stream_frame}
use link_ice.Turn.Channels.{Peer}
use link_ice.Turn.Client.{
  TurnConfig, Outside, TurnClient, PendingBind, data_cb, emit, requested_transport_tcp,
  send_to_server, start,
}
use link_ice.Turn.DataConnections.{
  sign_if_known, connect_to_peer, send_framed_on_data_cid, open_data_connection,
  handle_connect_response, on_bind_response, on_data_connection_inbound,
}

module _ (cfg : TurnConfig) (out : Outside) where
  send_to_server-keeps :
      (b : Bytes) (t : TurnClient)
      → ((send_to_server cfg out b t).pending_connects ≡ t.pending_connects)
        × ((send_to_server cfg out b t).opened ≡ t.opened)
  unfolding send_to_server
  send_to_server-keeps b t = elim (Option-cases (encode_stream_frame b [])) [
    | inl e ↦ rw (send_to_server, e) (ground arith, ground arith)
    | inr (f, e) ↦ rw (send_to_server, e) (ground arith, ground arith)
  ]

  connect_to_peer-pending :
      (peer : Peer) (t : TurnClient)
      → cfg.requested_transport ≡ requested_transport_tcp
      → (lookup (out.txn_id t.drawn) (connect_to_peer cfg out peer t).pending_connects ≡ some peer)
        × ((connect_to_peer cfg out peer t).opened ≡ t.opened)
  unfolding connect_to_peer start new_builder
  connect_to_peer-pending peer t tcp =
      let b = new_builder 0x000A (out.txn_id t.drawn) in
      let msg =
        build (sign_if_known cfg out t (add_xor_peer_address out.inet peer.ip peer.port b)) in
      let u = record t {
        pending_connects = put (out.txn_id t.drawn) peer t.pending_connects;
        drawn = t.drawn + 1;
      } in
      let (pending, opened) = send_to_server-keeps msg u in
      let is_tcp : (cfg.requested_transport == requested_transport_tcp) ≡ true = ground arith in
      rw is_tcp (
        ap (λ (m : List (Bytes × Peer)). lookup (out.txn_id t.drawn) m) pending
            ∙ lookup-put_self (out.txn_id t.drawn) peer t.pending_connects,
        opened,
      )

  handle_connect_response_opens :
      (msg : StunMessage) (id : ℕ) (peer : Peer) (t : TurnClient)
      → msg.connection_id ≡ some id
      → lookup msg.txn_id t.pending_connects ≡ some peer
      → handle_connect_response cfg out msg t
        ≡ open_data_connection cfg out id peer
            (record t { pending_connects = remove msg.txn_id t.pending_connects })
  unfolding handle_connect_response
  handle_connect_response_opens msg id peer t has known =
      rw (handle_connect_response, has, known) refl

  open_data_connection-pending :
      (id : ℕ) (peer : Peer) (t : TurnClient)
      → out.data_carrier_factory t.opened ≢ 0
      → lookup
          (out.data_carrier_factory t.opened)
          (open_data_connection cfg out id peer t).pending_binds
        ≡ some (record { connection_id = id; peer = peer })
  unfolding open_data_connection send_framed_on_data_cid
  open_data_connection-pending id peer t opens =
      let cid = out.data_carrier_factory t.opened in
      let open_ : (cid == 0) ≡ false = ==_false cid 0 opens in
      let u = record t { opened = t.opened + 1 } in
      let msg = build (sign_if_known cfg out u (add_connection_id id (start cfg out 0x000B u))) in
      let stored =
        lookup-put_self cid (record { connection_id = id; peer = peer }) t.pending_binds in
      elim (Option-cases (encode_stream_frame msg [])) [
        | inl e ↦
            rw (open_data_connection, open_, send_framed_on_data_cid, e) (ground (arith, stored))
        | inr (f, e) ↦
            rw (open_data_connection, open_, send_framed_on_data_cid, e) (ground (arith, stored))
      ]

  on_bind_response-bound :
      (cid : ℕ) (t : TurnClient) (pb : PendingBind)
      → lookup cid t.pending_binds ≡ some pb
      → (lookup pb.connection_id (on_bind_response cfg out cid t).data_connections ≡ some cid)
        × (lookup cid (on_bind_response cfg out cid t).bound_peers ≡ some pb.peer)
  unfolding on_bind_response
  on_bind_response-bound cid t pb e =
      rw (on_bind_response, e)
        (
          lookup-put_self pb.connection_id cid t.data_connections,
          lookup-put_self cid pb.peer t.bound_peers,
        )

  inbound_of_bound :
      (cid : ℕ) (peer : Peer) (bytes : Bytes) (t : TurnClient)
      → lookup cid t.bound_peers ≡ some peer
      → on_data_connection_inbound cfg out cid bytes t ≡ value (emit (data_cb peer bytes) t)
  unfolding on_data_connection_inbound
  inbound_of_bound cid peer bytes t e = rw (on_data_connection_inbound, e) refl

  -- What a client asks for it gets: the connection that the factory opens for the response to a Connect
  -- request is bound, once the server confirms it, to the peer of that request, and what then arrives on it
  -- is handed on as that peer's. The allocation is a TCP allocation, the response carries the transaction id
  -- of the request, and the factory opens a connection.
  pub connect-data :
      (peer : Peer) (t : TurnClient) (msg : StunMessage) (id : ℕ) (bytes : Bytes)
      → cfg.requested_transport ≡ requested_transport_tcp
      → msg.connection_id ≡ some id
      → msg.txn_id ≡ out.txn_id t.drawn
      → out.data_carrier_factory t.opened ≢ 0
      → let cid = out.data_carrier_factory t.opened in
        let u =
          on_bind_response cfg out cid
            (handle_connect_response cfg out msg (connect_to_peer cfg out peer t)) in
        (lookup id u.data_connections ≡ some cid)
        × (on_data_connection_inbound cfg out cid bytes u ≡ value (emit (data_cb peer bytes) u))
  connect-data peer t msg id bytes tcp has txn opens =
      let c = connect_to_peer cfg out peer t in
      let (known, same) = connect_to_peer-pending peer t tcp in
      let d = record c { pending_connects = remove msg.txn_id c.pending_connects } in
      let opened =
        handle_connect_response_opens msg id peer c has
          (ap (λ (x : Bytes). lookup x c.pending_connects) txn ∙ known) in
      let cid = out.data_carrier_factory t.opened in
      let pending : lookup cid (open_data_connection cfg out id peer d).pending_binds
          ≡ some (record { connection_id = id; peer = peer }) =
        ap
          (λ (n : ℕ).
            lookup (out.data_carrier_factory n)
              (open_data_connection cfg out id peer d).pending_binds)
          (sym same)
        ∙ open_data_connection-pending id peer d
            (subst (λ (n : ℕ). out.data_carrier_factory n ≢ 0) (sym same) opens) in
      let w = handle_connect_response cfg out msg c in
      let pending_w : lookup cid w.pending_binds
          ≡ some (record { connection_id = id; peer = peer }) =
        ap (λ (x : TurnClient). lookup cid x.pending_binds) opened ∙ pending in
      let (here, bound) =
        on_bind_response-bound cid w (record { connection_id = id; peer = peer }) pending_w in
      (here, inbound_of_bound cid peer bytes (on_bind_response cfg out cid w) bound)
