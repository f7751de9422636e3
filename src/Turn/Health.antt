-- ===== src/Turn/Health.antt =====
-- The health of an allocation, which the failover to a backup server asks for (turn.hpp and turn.cpp).
pub mod Inbound
use link_ice.Prelude.{
  ℕ, ◌≡◌, refl, arith, ◌∙◌, ◌||◌, ◌&&◌, not, Bool, true, false, if◌then◌else◌, ◌==◌, List, [], ◌∷◌,
  ◌++◌, Bytes, bytes_eq, Option, none, some, Option-cases, Bool-cases, inl, inr, Outcome, value,
  ◌>>=◌, >>=-Returns, Returns, length, ltb, if-Returns,
}
use link_ice.Prelude.Assoc.{nat_key, bytes_key, lookup}
use link_ice.CheckList.{contains}
use link_ice.Stun.Parser.{StunMessage, parse_stun}
use link_ice.Stun.Safety.{Done, parse_stun-returns, read8-Done}
use link_ice.Stun.ChannelData.{Describes, is_channel_data, parse_channel_data_sound}
use link_ice.Turn.{encode_stream_frame}
use link_ice.Turn
use link_ice.Turn.Channels
use link_ice.Turn.Channels.{Peer, peer_key, channel_of}
use link_ice.Turn.Client.{
  emit, data_cb, TurnConfig, Outside, TurnClient, is_healthy, requested_transport_tcp,
  send_to_server, start, sign, draw, compute_auth_key, on_allocate_error, is, schedule_refresh,
  handle_allocate_response, handle_data_indication, handle_channel_data, send_indication,
  bind_channel, create_permission, refresh_with, refresh, on_refresh_timer,
}
use link_ice.Turn.DataConnections.{
  sign_if_known, connect_to_peer, send_framed_on_data_cid, open_data_connection,
  handle_connect_response, handle_connection_attempt, on_bind_response, on_bind_error, keep_rest,
  on_handshake, on_data_connection_inbound,
}
use link_ice.Turn.Dispatch.{handle_message, dispatch_inbound_message, dispatch_all, on_inbound}
use link_ice.Turn.Relay.{drain-Kept}

unfoldable pub IsHealthy : TurnClient → Type 0
IsHealthy t = is_healthy t ≡ true

module _ (cfg : TurnConfig) (out : Outside) where
  pub send_to_server-is_healthy :
      (b : Bytes) (t : TurnClient) → is_healthy (send_to_server cfg out b t) ≡ is_healthy t
  unfolding send_to_server is_healthy
  send_to_server-is_healthy b t = elim (Option-cases (encode_stream_frame b [])) [
    | inl e ↦ rw (send_to_server, e) (ground arith)
    | inr (f, e) ↦ rw (send_to_server, e) (ground arith)
  ]

  -- A handler that sends a message under a condition.
  if_send-is_healthy :
      (c : Bool) (b : Bytes) (u t : TurnClient)
      → is_healthy u ≡ is_healthy t
      → is_healthy (if c then send_to_server cfg out b u else t) ≡ is_healthy t
  if_send-is_healthy true b u t h = send_to_server-is_healthy b u ∙ h
  if_send-is_healthy false b u t h = refl

  unless_send-is_healthy :
      (c : Bool) (b : Bytes) (u t : TurnClient)
      → is_healthy u ≡ is_healthy t
      → is_healthy (if c then t else send_to_server cfg out b u) ≡ is_healthy t
  unless_send-is_healthy true b u t h = refl
  unless_send-is_healthy false b u t h = send_to_server-is_healthy b u ∙ h

  on_allocate_error-is_healthy :
      (msg : StunMessage) (t : TurnClient)
      → is_healthy (on_allocate_error cfg out msg t) ≡ is_healthy t
  unfolding on_allocate_error compute_auth_key is_healthy
  on_allocate_error-is_healthy msg t =
      if_send-is_healthy (is msg.error_code 401 || is msg.error_code 438) _ _ t refl

  handle_allocate_response-is_healthy :
      (msg : StunMessage) (t : TurnClient)
      → is_healthy t ≡ true
      → is_healthy (handle_allocate_response cfg out msg t) ≡ true
  unfolding handle_allocate_response schedule_refresh is_healthy
  handle_allocate_response-is_healthy msg t h = elim (Option-cases msg.xor_relayed) [
    | inl e ↦ simp (handle_allocate_response, is_healthy, e) h
    | inr (r, e) ↦ simp (handle_allocate_response, is_healthy, e) (ground arith)
  ]

  handle_data_indication-is_healthy :
      (msg : StunMessage) (t : TurnClient)
      → is_healthy (handle_data_indication cfg out msg t) ≡ is_healthy t
  unfolding handle_data_indication is_healthy
  handle_data_indication-is_healthy msg t = elim (Option-cases msg.xor_peer) [
    | inl e ↦ simp (handle_data_indication, is_healthy, e) refl
    | inr (r, e) ↦ simp (handle_data_indication, is_healthy, e) (ground arith)
  ]

  pub send_framed_on_data_cid-is_healthy :
      (cid : ℕ) (b : Bytes) (t : TurnClient)
      → is_healthy (send_framed_on_data_cid cfg out cid b t) ≡ is_healthy t
  unfolding send_framed_on_data_cid is_healthy
  send_framed_on_data_cid-is_healthy cid b t = elim (Option-cases (encode_stream_frame b [])) [
    | inl e ↦ rw (send_framed_on_data_cid, e) (ground arith)
    | inr (f, e) ↦ rw (send_framed_on_data_cid, e) (ground arith)
  ]

  open_data_connection-is_healthy :
      (id : ℕ) (peer : Peer) (t : TurnClient)
      → is_healthy (open_data_connection cfg out id peer t) ≡ is_healthy t
  unfolding open_data_connection is_healthy
  open_data_connection-is_healthy id peer t =
      elim (Bool-cases (out.data_carrier_factory t.opened == 0)) [
        | inl refused ↦ rw (open_data_connection, refused) refl
        | inr opens ↦ rw (open_data_connection, opens) (send_framed_on_data_cid-is_healthy _ _ _)
      ]

  handle_connect_response-is_healthy :
      (msg : StunMessage) (t : TurnClient)
      → is_healthy (handle_connect_response cfg out msg t) ≡ is_healthy t
  unfolding handle_connect_response is_healthy
  handle_connect_response-is_healthy msg t = elim (Option-cases msg.connection_id) [
    | inl e ↦ simp (handle_connect_response, is_healthy, e) refl
    | inr (id, e) ↦ elim (Option-cases (lookup msg.txn_id t.pending_connects)) [
      | inl f ↦ simp (handle_connect_response, is_healthy, e, f) refl
      | inr (peer, f) ↦
          simp (handle_connect_response, is_healthy, e, f)
            (open_data_connection-is_healthy id peer _)
    ]
  ]

  handle_connection_attempt-is_healthy :
      (msg : StunMessage) (t : TurnClient)
      → is_healthy (handle_connection_attempt cfg out msg t) ≡ is_healthy t
  unfolding handle_connection_attempt is_healthy
  handle_connection_attempt-is_healthy msg t = elim (Option-cases msg.connection_id) [
    | inl e ↦ simp (handle_connection_attempt, is_healthy, e) refl
    | inr (id, e) ↦ elim (Option-cases msg.xor_peer) [
      | inl f ↦ simp (handle_connection_attempt, is_healthy, e, f) refl
      | inr (peer, f) ↦
          simp (handle_connection_attempt, is_healthy, e, f)
            (open_data_connection-is_healthy id _ _)
    ]
  ]

  handle_message-is_healthy :
      (msg : StunMessage) (t : TurnClient)
      → is_healthy t ≡ true
      → is_healthy (handle_message cfg out msg t) ≡ true
  unfolding handle_message
  handle_message-is_healthy msg t h =
      let a = on_allocate_error-is_healthy msg t ∙ h in
      let b = handle_allocate_response-is_healthy msg t h in
      let c = handle_data_indication-is_healthy msg t ∙ h in
      let d = handle_connection_attempt-is_healthy msg t ∙ h in
      let e = handle_connect_response-is_healthy msg t ∙ h in ground arith

  pub message-IsHealthy :
      (parsed : Option StunMessage) (t : TurnClient)
      → is_healthy t ≡ true
      → is_healthy
          (elim parsed as (λ _. TurnClient) [ none ↦ t | some msg ↦ handle_message cfg out msg t ])
        ≡ true
  message-IsHealthy none t h = h
  message-IsHealthy (some msg) t h = handle_message-is_healthy msg t h

  pub send_indication-is_healthy :
      (peer : Peer) (b : Bytes) (t : TurnClient)
      → is_healthy (send_indication cfg out peer b t) ≡ is_healthy t
  unfolding send_indication is_healthy
  send_indication-is_healthy peer b t =
      elim (Option-cases (channel_of (peer_key peer) t.channels.peer_to_channel)) [
        | inl e ↦ simp (send_indication, e) (send_to_server-is_healthy _ _)
        | inr (c, e) ↦ elim (Bool-cases (c == 0)) [
          | inl unbound ↦ simp (send_indication, e, unbound) (send_to_server-is_healthy _ _)
          | inr bound ↦ simp (send_indication, e, bound) (send_to_server-is_healthy _ _)
        ]
      ]

  pub bind_channel-is_healthy :
      (peer : Peer) (t : TurnClient) → is_healthy (bind_channel cfg out peer t) ≡ is_healthy t
  unfolding bind_channel is_healthy
  bind_channel-is_healthy peer t =
      let asked =
        Channels.bind_channel (cfg.requested_transport == requested_transport_tcp) peer
          t.channels in
      elim (Option-cases asked.1) [
        | inl e ↦ simp (bind_channel, e) refl
        | inr (c, e) ↦ simp (bind_channel, e) (send_to_server-is_healthy _ _)
      ]

  pub create_permission-is_healthy :
      (ip : Bytes) (t : TurnClient) → is_healthy (create_permission cfg out ip t) ≡ is_healthy t
  unfolding create_permission is_healthy
  create_permission-is_healthy ip t =
      unless_send-is_healthy (contains ip t.channels.permissions) _ _ t refl

  pub connect_to_peer-is_healthy :
      (peer : Peer) (t : TurnClient) → is_healthy (connect_to_peer cfg out peer t) ≡ is_healthy t
  unfolding connect_to_peer is_healthy
  connect_to_peer-is_healthy peer t =
      if_send-is_healthy (cfg.requested_transport == requested_transport_tcp) _ _ t refl

  pub on_refresh_timer-is_healthy :
      (t : TurnClient) → is_healthy (on_refresh_timer cfg out t) ≡ is_healthy t
  unfolding on_refresh_timer refresh refresh_with schedule_refresh is_healthy
  on_refresh_timer-is_healthy t = elim (Bool-cases t.allocated) [
    | inl on ↦ simp (on_refresh_timer, on) (send_to_server-is_healthy _ _)
    | inr off ↦ simp (on_refresh_timer, off) refl
  ]
