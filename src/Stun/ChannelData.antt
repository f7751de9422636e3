-- ===== src/Stun/ChannelData.antt =====
-- The ChannelData frames of stun.hpp and stun.cpp: `encode_channel_data`, `is_channel_data` and
-- `parse_channel_data`.
use link_ice.Prelude.{
  ℕ, ◌+◌, ◌-◌, ◌*◌, ◌/◌, ◌%◌, ◌^◌, ◌≤◌, ◌<◌, ◌≡◌, arith, [], ◌∷◌, ◌++◌, Bytes, Bool, true, false,
  ◌||◌, Option, none, some, if◌then◌else◌, ltb, ◌==◌, length, drop, take, length-take, replicate,
  length-append, Outcome, value, ◌>>=◌, read8, read16, read_bytes, Returns, bit_and,
  bit_and_top_two,
}
use link_ice.Stun.Constants.{channel_number_min, channel_number_max}
use link_ice.Stun.Endian.{write16, read_bytes-middle}
use link_ice.Stun.Builder.{StunBuilder, build, wire_with}

unfoldable pub encode_channel_data : ℕ → Bytes → Bytes
encode_channel_data channel payload =
    let len = length payload % 2 ^ 16 in
    let pad = (4 - length payload % 4) % 4 in
    (channel / 2 ^ 8 % 2 ^ 8)
    ∷ (channel % 2 ^ 8)
    ∷ (len / 2 ^ 8)
    ∷ (len % 2 ^ 8)
    ∷ (payload ++ replicate pad 0)

unfoldable pub is_channel_data : Bytes → Outcome Bool
is_channel_data raw =
    if ltb (length raw) 4
    then value false
    else (do first ← read8 raw; value (bit_and first 0xC0 == 0x40))

pub record ChannelDataView : Type 0 where
  pub channel : ℕ
  pub payload : Bytes

unfoldable pub parse_channel_data : Bytes → Outcome (Option ChannelDataView)
parse_channel_data raw = if ltb (length raw) 4 then value none else (do
  channel ← read16 raw
  if ltb channel channel_number_min || ltb channel_number_max channel then value none else (do
    len ← read16 (drop 2 raw)
    if ltb (length raw) (4 + len) then value none else (do
      payload ← read_bytes len (drop 4 raw)
      value (some (record { channel = channel; payload = payload })))))

-- The channels of RFC 5766.
abbrev pub IsChannel : ℕ → Type 0
IsChannel n = (channel_number_min ≤ n) × (n ≤ channel_number_max)

-- A frame for a valid channel and a payload below 65536 bytes, with any bytes behind it, is read back
-- as that channel and payload.
pub parse-encode_channel_data :
    (channel : ℕ) (payload back : Bytes)
    → IsChannel channel
    → length payload < 2 ^ 16
    → parse_channel_data (encode_channel_data channel payload ++ back)
      ≡ value (some (record { channel = channel; payload = payload }))
unfolding parse_channel_data encode_channel_data read16
parse-encode_channel_data channel payload back valid fits =
    let number : channel / 2 ^ 8 % 2 ^ 8 * 2 ^ 8 + channel % 2 ^ 8 ≡ channel = omega arith in
    let size : length payload % 2 ^ 16 / 2 ^ 8 * 2 ^ 8 + length payload % 2 ^ 16 % 2 ^ 8
        ≡ length payload =
      omega arith in
    ground (arith, number, size, room, stored)
  where
    room : length payload ≤ length ((payload ++ replicate ((4 - length payload % 4) % 4) 0) ++ back)
    room = omega (
      arith,
      length-append (payload ++ replicate ((4 - length payload % 4) % 4) 0) back,
      length-append {A = ℕ} payload (replicate ((4 - length payload % 4) % 4) 0),
    )

    stored :
        read_bytes
          (length payload)
          ((payload ++ replicate ((4 - length payload % 4) % 4) 0) ++ back)
        ≡ value payload
    stored = read_bytes-middle payload (replicate ((4 - length payload % 4) % 4) 0) back

-- What a returned view says of the buffer.
abbrev pub Describes : Bytes → Option ChannelDataView → Type 0
Describes raw none = Unit {0}
Describes raw (some view) =
    IsChannel view.channel
    × (read16 raw ≡ value view.channel)
    × (read16 (drop 2 raw) ≡ value (length view.payload))
    × (view.payload ≡ take (length view.payload) (drop 4 raw))

-- On every buffer the parser stays inside the buffer; what it returns is a channel of the valid range,
-- the one in the header, and as many bytes behind the header as its length field announces.
pub parse_channel_data_sound : (raw : Bytes) → Returns (parse_channel_data raw) (Describes raw)
unfolding parse_channel_data read16 read_bytes
parse_channel_data_sound [] = tt
parse_channel_data_sound (a ∷ []) = tt
parse_channel_data_sound (a ∷ b ∷ []) = tt
parse_channel_data_sound (a ∷ b ∷ c ∷ []) = tt
parse_channel_data_sound (a ∷ b ∷ c ∷ d ∷ p) = ground (arith, length-take (c * 2 ^ 8 + d) p)

-- The demultiplexer takes every ChannelData frame on a valid channel for one.
pub is_channel_data-encode :
    (channel : ℕ) (payload : Bytes)
    → IsChannel channel
    → is_channel_data (encode_channel_data channel payload) ≡ value true
unfolding is_channel_data encode_channel_data read8
is_channel_data-encode channel payload valid =
    let byte : channel / 2 ^ 8 % 2 ^ 8 < 256 = omega arith in
    ground (arith, bit_and_top_two (channel / 2 ^ 8 % 2 ^ 8) byte)

-- The demultiplexer takes no built STUN message for ChannelData whose type has its two top bits clear.
pub is_channel_data-build :
    (b : StunBuilder) → b.msg_type < 2 ^ 14 → is_channel_data (build b) ≡ value false
unfolding is_channel_data build wire_with write16 read8
is_channel_data-build b small =
    let byte : b.msg_type / 2 ^ 8 % 2 ^ 8 < 256 = omega arith in
    ground (arith, bit_and_top_two (b.msg_type / 2 ^ 8 % 2 ^ 8) byte)
