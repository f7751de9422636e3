-- ===== src/Session/Stream.antt =====
-- TCP in the session (session.cpp): `on_tcp_carrier_data` puts the messages of a stream together again.
pub mod Refinement
use link_ice.Prelude.{
  ℕ, zero, suc, ◌+◌, ◌*◌, ◌^◌, if◌then◌else◌, ltb, List, [], ◌∷◌, ◌++◌, length, take, drop, Bytes,
  Option, none, some, Outcome, value, ◌>>=◌, true,
}
use link_ice.Prelude.Assoc.{nat_key, lookup, put}
use link_ice.Session.{IceConfig, Outside, Session}
use link_ice.Session.Receive.{on_carrier_data}
use link_ice.Session.Connections.{Connections, without}

-- The first message of the buffer and what is left of it; nothing while it is incomplete.
unfoldable pub take_frame : Bytes → Option (Bytes × Bytes)
take_frame [] = none
take_frame (a ∷ []) = none
take_frame (a ∷ b ∷ p) =
    let len = a * 2 ^ 8 + b in if ltb (length p) len then none else some (take len p, drop len p)

-- `tcp_rx_buffers_[cid]`
unfoldable pub rx_buffer : ℕ → Connections → Bytes
rx_buffer cid c = elim (lookup cid c.tcp_rx_buffers) [ none ↦ [] | some b ↦ b ]

module _ (cfg : IceConfig) (out : Outside) where
  -- The loop over the buffer; an iteration takes two bytes or more, so its length is enough fuel.
  unfoldable pub drain_frames : ℕ → ℕ → Bytes → Session → Outcome (Session × Bytes)
  drain_frames zero cid buf s = value (s, buf)
  drain_frames (suc fuel) cid buf s = elim (take_frame buf) [
    | none ↦ value (s, buf)
    | some (frame, rest) ↦ on_carrier_data cfg out cid frame true s >>= drain_frames fuel cid rest
  ]

  -- The connection has its first bytes, so its connect timer is off.
  unfoldable pub on_tcp_carrier_data :
      ℕ → Bytes → Connections × Session → Outcome (Connections × Session)
  on_tcp_carrier_data cid bytes (c, s) =
      let buf = rx_buffer cid c ++ bytes in
      drain_frames (length buf) cid buf s >>= λ r. value (
        record c {
          tcp_connect_timers = without cid c.tcp_connect_timers;
          tcp_rx_buffers = put cid r.1 c.tcp_rx_buffers;
        },
        r.0,
      )

  -- The chunks of a connection, one after the other.
  unfoldable pub arrive : ℕ → List Bytes → Connections × Session → Outcome (Connections × Session)
  arrive cid [] r = value r
  arrive cid (b ∷ bs) r = on_tcp_carrier_data cid b r >>= arrive cid bs
