-- ===== src/Turn.antt =====
-- turn.hpp and turn.cpp: messages with a length prefix on a stream transport, and channels.
pub mod Framing
pub mod Channels
pub mod Client
pub mod DataConnections
pub mod Dispatch
pub mod Relay
pub mod Connect
pub mod Retry
pub mod Health
mod Tests
use link_ice.Prelude.{
  ℕ, zero, suc, ◌+◌, ◌*◌, ◌/◌, ◌%◌, ◌^◌, Bool, if◌then◌else◌, ltb, Option, none, some, List, [],
  ◌∷◌, ◌++◌, length, take, drop, Bytes,
}

-- The payload behind its length, at the end of `out`; nothing where it is too long.
unfoldable pub encode_stream_frame : Bytes → Bytes → Option Bytes
encode_stream_frame payload out =
    if ltb 0xFFFF (length payload)
    then none
    else some (out ++ (length payload / 2 ^ 8 ∷ length payload % 2 ^ 8 ∷ payload))

-- The first message of the buffer and what is left of it; nothing while it is incomplete.
unfoldable pub try_take_stream_frame : Bytes → Option (Bytes × Bytes)
try_take_stream_frame [] = none
try_take_stream_frame (a ∷ []) = none
try_take_stream_frame (a ∷ b ∷ p) =
    let msg_len = a * 2 ^ 8 + b in
    if ltb (length p) msg_len then none else some (take msg_len p, drop msg_len p)

-- The loop over the buffer: the messages and the rest. An iteration takes two bytes or more off the
-- buffer, so its length is enough fuel.
abbrev pub put_message : Bytes → List Bytes × Bytes → List Bytes × Bytes
put_message m (ms, rest) = (m ∷ ms, rest)

unfoldable pub take_frames : ℕ → Bytes → List Bytes × Bytes
take_frames zero buffer = ([], buffer)
take_frames (suc fuel) buffer = elim (try_take_stream_frame buffer) [
  | none ↦ ([], buffer)
  | some (frame, rest) ↦ put_message frame (take_frames fuel rest)
]

-- `on_inbound` on a stream transport: the messages that are dispatched, and the new `rx_buffer_`.
unfoldable pub on_inbound : Bytes → Bytes → List Bytes × Bytes
on_inbound rx_buffer bytes = let buffer = rx_buffer ++ bytes in take_frames (length buffer) buffer

-- The chunks of a connection, one after the other.
unfoldable pub inbound_all : Bytes → List Bytes → List Bytes × Bytes
inbound_all rx_buffer [] = ([], rx_buffer)
inbound_all rx_buffer (c ∷ cs) =
    let (ms, rest) = on_inbound rx_buffer c in
    let (more, left) = inbound_all rest cs in (ms ++ more, left)

-- `send_to_server` on a stream transport: what goes to the carrier.
unfoldable pub send_to_server : Bytes → Bytes
send_to_server bytes = elim (encode_stream_frame bytes []) [ none ↦ [] | some framed ↦ framed ]

-- The bytes of the connection after several messages.
unfoldable pub send_all : List Bytes → Bytes
send_all [] = []
send_all (m ∷ ms) = send_to_server m ++ send_all ms
