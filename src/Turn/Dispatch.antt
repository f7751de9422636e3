-- ===== src/Turn/Dispatch.antt =====
-- The dispatch of what the TURN server sends: `dispatch_inbound_message` and `on_inbound` of turn.cpp.
use link_ice.Prelude.{
  ℕ, ◌||◌, if◌then◌else◌, ◌==◌, List, [], ◌∷◌, Bytes, none, some, Outcome, value, ◌>>=◌,
}
use link_ice.Stun.Parser.{StunMessage, parse_stun}
use link_ice.Stun.ChannelData.{is_channel_data}
use link_ice.Turn
use link_ice.Turn.Client.{
  TurnConfig, Outside, TurnClient, on_allocate_error, handle_allocate_response,
  handle_data_indication, handle_channel_data,
}
use link_ice.Turn.DataConnections.{handle_connect_response, handle_connection_attempt}

abbrev pub allocate_response : ℕ
allocate_response = 0x0103

abbrev pub allocate_error : ℕ
allocate_error = 0x0113

abbrev pub data_indication : ℕ
data_indication = 0x0017

abbrev pub connection_attempt_indication : ℕ
connection_attempt_indication = 0x001C

abbrev pub connect_response : ℕ
connect_response = 0x010A

module _ (cfg : TurnConfig) (out : Outside) where
  -- The responses to ChannelBind, and any other message, change nothing.
  unfoldable pub handle_message : StunMessage → TurnClient → TurnClient
  handle_message msg t =
      if msg.msg_type == allocate_error
      then on_allocate_error cfg out msg t
      else if msg.msg_type == allocate_response
      then handle_allocate_response cfg out msg t
      else if msg.msg_type == data_indication
      then handle_data_indication cfg out msg t
      else if msg.msg_type == connection_attempt_indication
      then handle_connection_attempt cfg out msg t
      else if msg.msg_type == connect_response
      then handle_connect_response cfg out msg t
      else t

  unfoldable pub dispatch_inbound_message : Bytes → TurnClient → Outcome TurnClient
  dispatch_inbound_message bytes t = do
    channel ← is_channel_data bytes
    if channel then handle_channel_data cfg out bytes t else (do
      parsed ← parse_stun out.inet bytes
      value (elim parsed [ none ↦ t | some msg ↦ handle_message msg t ]))

  unfoldable pub dispatch_all : List Bytes → TurnClient → Outcome TurnClient
  dispatch_all [] t = value t
  dispatch_all (m ∷ ms) t = dispatch_inbound_message m t >>= dispatch_all ms

  -- On a stream the complete messages of the buffer are dispatched in order, a datagram is one message. No
  -- handler reads or writes the buffer, so the messages are taken before they are dispatched.
  unfoldable pub on_inbound : Bytes → TurnClient → Outcome TurnClient
  on_inbound bytes t =
      let (messages, rest) = Turn.on_inbound t.rx_buffer bytes in
      if cfg.tcp_transport || cfg.tls_transport
      then dispatch_all messages (record t { rx_buffer = rest })
      else dispatch_inbound_message bytes t
