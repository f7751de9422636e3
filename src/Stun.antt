-- ===== src/Stun.antt =====
-- stun.hpp and stun.cpp: the STUN and TURN wire format, its builder, its parser, the integrity check
-- and the ChannelData framing.
pub mod Constants
pub mod Endian
pub mod Address
pub mod Crc
pub mod Builder
pub mod Parser
pub mod Safety
pub mod Layout
pub mod RoundTrip
pub mod Header
pub mod Codec
pub mod CheckRequest
pub mod CheckSigned
pub mod Integrity
pub mod Signed
pub mod ChannelData
pub mod Padding
mod Tests
