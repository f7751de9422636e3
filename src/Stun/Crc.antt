-- ===== src/Stun/Crc.antt =====
-- `stun_crc32` of stun.cpp: the bitwise CRC-32 that FINGERPRINT carries.
use link_ice.Prelude.{
  ℕ, zero, suc, ◌/◌, ◌%◌, ◌^◌, ◌<◌, ◌≡◌, refl, arith, [], ◌∷◌, Bytes, IsByte, All, if◌then◌else◌,
  ◌==◌, bit_xor, bit_xor-lt,
}

-- `(crc >> 1) ^ (0xEDB88320 & (-(crc & 1)))`: the mask is all ones or zero.
unfoldable pub crc_bit : ℕ → ℕ
crc_bit crc = bit_xor (crc / 2) (if crc % 2 == 1 then 0xEDB88320 else 0)

unfoldable pub crc_bits : ℕ → ℕ → ℕ
crc_bits zero crc = crc
crc_bits (suc j) crc = crc_bits j (crc_bit crc)

unfoldable pub crc_loop : Bytes → ℕ → ℕ
crc_loop [] crc = crc
crc_loop (b ∷ bs) crc = crc_loop bs (crc_bits 8 (bit_xor crc b))

unfoldable pub crc32 : Bytes → ℕ
crc32 bs = bit_xor (crc_loop bs 0xFFFFFFFF) 0xFFFFFFFF

crc_bit-lt : (crc : ℕ) → crc < 2 ^ 32 → crc_bit crc < 2 ^ 32
unfolding crc_bit
crc_bit-lt crc h =
    bit_xor-lt 32 (crc / 2) (if crc % 2 == 1 then 0xEDB88320 else 0) (omega arith) (ground arith)

crc_bits-lt : (j crc : ℕ) → crc < 2 ^ 32 → crc_bits j crc < 2 ^ 32
unfolding crc_bits
crc_bits-lt zero crc h = h
crc_bits-lt (suc j) crc h = crc_bits-lt j (crc_bit crc) (crc_bit-lt crc h)

crc_loop-lt : (bs : Bytes) (crc : ℕ) → All IsByte bs → crc < 2 ^ 32 → crc_loop bs crc < 2 ^ 32
unfolding crc_loop
crc_loop-lt [] crc h k = k
crc_loop-lt (b ∷ bs) crc h k =
    crc_loop-lt bs _ h.1 (crc_bits-lt 8 _ (bit_xor-lt 32 crc b k (byte_fits h.0)))
  where
    byte_fits : {n : ℕ} → n < 256 → n < 2 ^ 32
    byte_fits f = omega arith

-- The checksum is a 32-bit number.
pub crc32-lt : (bs : Bytes) → All IsByte bs → crc32 bs < 2 ^ 32
unfolding crc32
crc32-lt bs h = bit_xor-lt 32 _ _ (crc_loop-lt bs _ h (omega arith)) (omega arith)

-- The check value of CRC-32 on "123456789".
crc32_check : crc32 (0x31 ∷ 0x32 ∷ 0x33 ∷ 0x34 ∷ 0x35 ∷ 0x36 ∷ 0x37 ∷ 0x38 ∷ 0x39 ∷ []) ≡ 0xCBF43926
unfolding crc32 crc_loop crc_bits crc_bit
crc32_check = refl
