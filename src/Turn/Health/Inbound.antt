-- ===== src/Turn/Health/Inbound.antt =====
-- The health of an allocation over whole runs of the client (turn.cpp).
use link_ice.Prelude.{
  ℕ, ◌≡◌, arith, ◌∙◌, ◌||◌, true, false, if◌then◌else◌, List, [], ◌∷◌, Bytes, Option, none, some,
  Option-cases, Bool-cases, inl, inr, Outcome, value, ◌>>=◌, >>=-Returns, Returns, length, ltb,
  if-Returns,
}
use link_ice.Prelude.Assoc.{nat_key, bytes_key, lookup}
use link_ice.Stun.Parser.{parse_stun}
use link_ice.Stun.Safety.{Done, parse_stun-returns, read8-Done}
use link_ice.Stun.ChannelData.{Describes, is_channel_data, parse_channel_data_sound}
use link_ice.Turn.{encode_stream_frame}
use link_ice.Turn
use link_ice.Turn.Channels
use link_ice.Turn.Channels.{Peer, peer_key, channel_of}
use link_ice.Turn.Client.{
  emit, data_cb, TurnConfig, Outside, TurnClient, is_healthy, handle_channel_data, send_indication,
  bind_channel, create_permission, on_refresh_timer,
}
use link_ice.Turn.DataConnections.{
  connect_to_peer, on_bind_response, on_bind_error, keep_rest, on_handshake,
  on_data_connection_inbound,
}
use link_ice.Turn.Dispatch.{handle_message, dispatch_inbound_message, dispatch_all, on_inbound}
use link_ice.Turn.Relay.{drain-Kept}
use link_ice.Turn.Health.{
  IsHealthy, message-IsHealthy, send_indication-is_healthy, bind_channel-is_healthy,
  create_permission-is_healthy, connect_to_peer-is_healthy, on_refresh_timer-is_healthy,
}

is_channel_data-returns : (bytes : Bytes) → Returns (is_channel_data bytes) Done
unfolding is_channel_data
is_channel_data-returns bytes =
    if-Returns Done (ltb (length bytes) 4) _ _ (λ _. tt)
      λ long. >>=-Returns Done Done _ _ (read8-Done bytes (ground arith)) λ first d. tt

-- What happens to a client before it is closed: bytes from the server or on a data connection, the timer,
-- and the session's calls.
pub data Event : Type 0 where
  inbound : Bytes → Event
  data_inbound : ℕ → Bytes → Event
  refresh_timer : Event
  indication : Peer → Bytes → Event
  channel connect : Peer → Event
  permission : Bytes → Event

module _ (cfg : TurnConfig) (out : Outside) where
  found-IsHealthy :
      (found : Option (Peer × Bytes)) (t : TurnClient)
      → is_healthy t ≡ true
      → is_healthy (elim found as (λ _. TurnClient) [
        | none ↦ t
        | some (peer, payload) ↦ emit (data_cb peer payload) t
      ])
        ≡ true
  unfolding is_healthy
  found-IsHealthy none t h = h
  found-IsHealthy (some (peer, payload)) t h = h

  handle_channel_data-IsHealthy :
      (bytes : Bytes) (t : TurnClient)
      → IsHealthy t
      → Returns (handle_channel_data cfg out bytes t) IsHealthy
  unfolding handle_channel_data Channels.handle_channel_data IsHealthy
  handle_channel_data-IsHealthy bytes t h =
      >>=-Returns Done IsHealthy _ _
        (>>=-Returns (λ frame. Describes bytes frame) Done _ _ (parse_channel_data_sound bytes)
          λ frame d. tt)
        λ found d. found-IsHealthy found t h

  dispatch_inbound_message-IsHealthy :
      (bytes : Bytes) (t : TurnClient)
      → IsHealthy t
      → Returns (dispatch_inbound_message cfg out bytes t) IsHealthy
  unfolding dispatch_inbound_message IsHealthy
  dispatch_inbound_message-IsHealthy bytes t h =
      >>=-Returns Done IsHealthy _ _ (is_channel_data-returns bytes) λ channel c.
        elim channel
          as (λ b.
            Returns
              (if b then handle_channel_data cfg out bytes t else (do
                parsed ← parse_stun out.inet bytes
                value (elim parsed [ none ↦ t | some msg ↦ handle_message cfg out msg t ])))
              IsHealthy) [
                | true ↦ handle_channel_data-IsHealthy bytes t h
                | false ↦
                    >>=-Returns Done IsHealthy _ _ (parse_stun-returns out.inet bytes)
                      λ parsed d. message-IsHealthy cfg out parsed t h
              ]

  dispatch_all-IsHealthy :
      (ms : List Bytes) (t : TurnClient)
      → IsHealthy t
      → Returns (dispatch_all cfg out ms t) IsHealthy
  unfolding dispatch_all
  dispatch_all-IsHealthy [] t h = h
  dispatch_all-IsHealthy (m ∷ ms) t h =
      >>=-Returns IsHealthy IsHealthy _ _ (dispatch_inbound_message-IsHealthy m t h)
        λ u k. dispatch_all-IsHealthy ms u k

  on_inbound-IsHealthy :
      (bytes : Bytes) (t : TurnClient)
      → IsHealthy t
      → Returns (on_inbound cfg out bytes t) IsHealthy
  unfolding on_inbound IsHealthy is_healthy
  on_inbound-IsHealthy bytes t h = elim (Bool-cases (cfg.tcp_transport || cfg.tls_transport)) [
    | inl stream ↦
        rw (on_inbound, stream)
          (dispatch_all-IsHealthy (Turn.on_inbound t.rx_buffer bytes).0
            (record t { rx_buffer = (Turn.on_inbound t.rx_buffer bytes).1 }) h)
    | inr datagram ↦ rw (on_inbound, datagram) (dispatch_inbound_message-IsHealthy bytes t h)
  ]

  on_bind_response-IsHealthy :
      (cid : ℕ) (t : TurnClient) → IsHealthy t → IsHealthy (on_bind_response cfg out cid t)
  unfolding on_bind_response IsHealthy is_healthy
  on_bind_response-IsHealthy cid t h = elim (Option-cases (lookup cid t.pending_binds)) [
    | inl e ↦ simp (on_bind_response, e) h
    | inr (pb, e) ↦ simp (on_bind_response, e) h
  ]

  keep_rest-IsHealthy :
      (cid : ℕ) (r : TurnClient × Bytes) → IsHealthy r.0 → IsHealthy (keep_rest cfg out cid r)
  unfolding keep_rest IsHealthy is_healthy
  keep_rest-IsHealthy cid (t, rest) h = elim (Option-cases (lookup cid t.bound_peers)) [
    | inl e ↦ simp (keep_rest, e) (ground arith)
    | inr (p, e) ↦ simp (keep_rest, e) (ground arith)
  ]

  data_connection-IsHealthy :
      (cid : ℕ) (bytes : Bytes) (t : TurnClient)
      → IsHealthy t
      → Returns (on_data_connection_inbound cfg out cid bytes t) IsHealthy
  unfolding on_data_connection_inbound on_handshake IsHealthy on_bind_error is_healthy
  data_connection-IsHealthy cid bytes t h = elim (Option-cases (lookup cid t.bound_peers)) [
    | inr (p, e) ↦ simp (on_data_connection_inbound, e) h
    | inl e ↦
        simp (on_data_connection_inbound, e)
          (>>=-Returns (λ r. IsHealthy r.0) IsHealthy _ _
            (drain-Kept cfg out cid IsHealthy (on_bind_response-IsHealthy cid) (λ u k. k) _ _ _ h)
            λ r k. keep_rest-IsHealthy cid r k)
  ]

  unfoldable pub happen : Event → TurnClient → Outcome TurnClient
  happen (inbound bytes) t = on_inbound cfg out bytes t
  happen (data_inbound cid bytes) t = on_data_connection_inbound cfg out cid bytes t
  happen refresh_timer t = value (on_refresh_timer cfg out t)
  happen (indication peer bytes) t = value (send_indication cfg out peer bytes t)
  happen (channel peer) t = value (bind_channel cfg out peer t)
  happen (connect peer) t = value (connect_to_peer cfg out peer t)
  happen (permission ip) t = value (create_permission cfg out ip t)

  unfoldable pub run : List Event → TurnClient → Outcome TurnClient
  run [] t = value t
  run (e ∷ es) t = happen e t >>= run es

  happen-IsHealthy : (e : Event) (t : TurnClient) → IsHealthy t → Returns (happen e t) IsHealthy
  unfolding happen IsHealthy
  happen-IsHealthy (inbound bytes) t h = on_inbound-IsHealthy bytes t h
  happen-IsHealthy (data_inbound cid bytes) t h = data_connection-IsHealthy cid bytes t h
  happen-IsHealthy refresh_timer t h = on_refresh_timer-is_healthy cfg out t ∙ h
  happen-IsHealthy (indication peer bytes) t h = send_indication-is_healthy cfg out peer bytes t ∙ h
  happen-IsHealthy (channel peer) t h = bind_channel-is_healthy cfg out peer t ∙ h
  happen-IsHealthy (connect peer) t h = connect_to_peer-is_healthy cfg out peer t ∙ h
  happen-IsHealthy (permission ip) t h = create_permission-is_healthy cfg out ip t ∙ h

  -- An allocation never counts as unhealthy before it is closed: whatever the server sends, error responses to
  -- refreshes included, and however many refreshes it leaves unanswered, every handler returns and the client
  -- is as healthy as before.
  pub run-IsHealthy :
      (es : List Event) (t : TurnClient) → IsHealthy t → Returns (run es t) IsHealthy
  unfolding run
  run-IsHealthy [] t h = h
  run-IsHealthy (e ∷ es) t h =
      >>=-Returns IsHealthy IsHealthy _ _ (happen-IsHealthy e t h) λ u k. run-IsHealthy es u k
