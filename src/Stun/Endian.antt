-- ===== src/Stun/Endian.antt =====
-- The endian helpers of stun.cpp (`read16` to `write64`); the reads themselves stand with `Outcome`.
use link_ice.Prelude.{
  ℕ, ◌+◌, ◌*◌, ◌/◌, ◌%◌, ◌^◌, ◌≤◌, ◌<◌, ◌≡◌, refl, sym, ◌∙◌, ap, arith, [], ◌∷◌, ◌++◌, Bytes,
  length, take, value, read16, read32, read_bytes, take-append, take_front, length-append,
  append_assoc, le→leb,
}

unfoldable pub write16 : ℕ → Bytes
write16 v = (v / 2 ^ 8 % 2 ^ 8) ∷ (v % 2 ^ 8) ∷ []

unfoldable pub write32 : ℕ → Bytes
write32 v = (v / 2 ^ 24 % 2 ^ 8) ∷ (v / 2 ^ 16 % 2 ^ 8) ∷ (v / 2 ^ 8 % 2 ^ 8) ∷ (v % 2 ^ 8) ∷ []

unfoldable pub write64 : ℕ → Bytes
write64 v = write32 (v / 2 ^ 32 % 2 ^ 32) ++ write32 (v % 2 ^ 32)

pub length-write16 : (v : ℕ) → length (write16 v) ≡ 2
unfolding write16
length-write16 v = refl

pub length-write32 : (v : ℕ) → length (write32 v) ≡ 4
unfolding write32
length-write32 v = refl

pub length-write64 : (v : ℕ) → length (write64 v) ≡ 8
unfolding write64 write32
length-write64 v = refl

pub read16-write16 : (v : ℕ) (p : Bytes) → v < 2 ^ 16 → read16 (write16 v ++ p) ≡ value v
unfolding read16 write16
read16-write16 v p h = ground arith

pub read32-write32 : (v : ℕ) (p : Bytes) → v < 2 ^ 32 → read32 (write32 v ++ p) ≡ value v
unfolding read32 write32
read32-write32 v p h = ground arith

-- A read needs as many bytes as it takes, and no more.
pub read16-value : (p : Bytes) → 2 ≤ length p → (v : ℕ) × (read16 p ≡ value v)
unfolding read16
read16-value [] h = absurd (omega arith)
read16-value (a ∷ []) h = absurd (omega arith)
read16-value (a ∷ b ∷ p) h = (a * 2 ^ 8 + b, refl)

pub read32-value : (p : Bytes) → 4 ≤ length p → (v : ℕ) × (read32 p ≡ value v)
unfolding read32
read32-value [] h = absurd (omega arith)
read32-value (a ∷ []) h = absurd (omega arith)
read32-value (a ∷ b ∷ []) h = absurd (omega arith)
read32-value (a ∷ b ∷ c ∷ []) h = absurd (omega arith)
read32-value (a ∷ b ∷ c ∷ d ∷ p) h = (a * 2 ^ 24 + b * 2 ^ 16 + c * 2 ^ 8 + d, refl)

pub read_bytes-value : (n : ℕ) (p : Bytes) → n ≤ length p → read_bytes n p ≡ value (take n p)
unfolding read_bytes
read_bytes-value n p h = rw (le→leb n (length p) h)

pub read_bytes_front : (n : ℕ) (p q : Bytes) → n ≤ length p → read_bytes n (p ++ q) ≡ read_bytes n p
read_bytes_front n p q h =
    read_bytes-value n (p ++ q) (omega (arith, length-append p q))
    ∙ (ap value (take_front n p q h) ∙ sym (read_bytes-value n p h))

pub read_bytes-append : (v q : Bytes) → read_bytes (length v) (v ++ q) ≡ value v
read_bytes-append v q =
    read_bytes-value (length v) (v ++ q) (omega (arith, length-append v q))
    ∙ ap value (take-append (length v) v q refl)

pub read_bytes-middle : (v q r : Bytes) → read_bytes (length v) ((v ++ q) ++ r) ≡ value v
read_bytes-middle v q r = rw append_assoc (read_bytes-append v (q ++ r))

-- What lies behind the bytes that a read takes does not matter.
pub read16-append : (p q : Bytes) → 2 ≤ length p → read16 (p ++ q) ≡ read16 p
unfolding read16
read16-append [] q h = absurd (omega arith)
read16-append (a ∷ []) q h = absurd (omega arith)
read16-append (a ∷ b ∷ p) q h = refl

pub read32-append : (p q : Bytes) → 4 ≤ length p → read32 (p ++ q) ≡ read32 p
unfolding read32
read32-append [] q h = absurd (omega arith)
read32-append (a ∷ []) q h = absurd (omega arith)
read32-append (a ∷ b ∷ []) q h = absurd (omega arith)
read32-append (a ∷ b ∷ c ∷ []) q h = absurd (omega arith)
read32-append (a ∷ b ∷ c ∷ d ∷ p) q h = refl
