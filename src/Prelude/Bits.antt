-- ===== src/Prelude/Bits.antt =====
-- Exclusive and inclusive or at every width: the equation for the lowest digit, and from it the
-- laws that the codecs use. Shifts and masks by a power of two are written `*`, `/` and `%`.
use Prim.Native.Nat.{
  ℕ, zero, suc, ◌+◌, ◌-◌, ◌*◌, ◌/◌, ◌%◌, ◌^◌, ◌≤◌, ◌<◌, max, bit_or, bit_xor, differ, digits,
  bit_or-bitwise, bit_xor-bitwise,
}
use mathlib.Core.Path.{◌≡◌, refl, ap, ◌∙◌}
use native.Mathlib.Omega.{arith}
use native.Mathlib.Nat.{pow-suc}

-- The digit recursion does not depend on how much fuel is left over.
module _ (f : ℕ → ℕ → ℕ) where
  one_more :
      (b n a : ℕ) → a ≤ n → digits (λ (d : ℕ). d) f (suc n) a b ≡ digits (λ (d : ℕ). d) f n a b
  one_more b zero zero h = refl
  one_more b (suc n) zero h = refl
  one_more b zero (suc a) h = absurd (omega arith)
  one_more b (suc n) (suc a) h = omega (arith, one_more (b / 2) n (suc a / 2) (omega arith))

  left_over :
      (spare b n m a : ℕ)
      → m ≡ spare + n
      → a ≤ n
      → digits (λ (d : ℕ). d) f m a b ≡ digits (λ (d : ℕ). d) f n a b
  left_over zero b n m a e h = let same : m ≡ n = omega arith in rw same
  left_over (suc spare) b n zero a e h = absurd (omega arith)
  left_over (suc spare) b n (suc m) a e h =
      one_more b m a (omega arith) ∙ left_over spare b n m a (omega arith) h

  half_fuel :
      (a b : ℕ)
      → digits (λ (d : ℕ). d) f a (suc a / 2) (b / 2)
        ≡ digits (λ (d : ℕ). d) f (suc a / 2) (suc a / 2) (b / 2)
  half_fuel a b =
      left_over (a - suc a / 2) (b / 2) (suc a / 2) a (suc a / 2) (omega arith) (omega arith)

differ_digit : (x y : ℕ) → x < 2 → y < 2 → differ x y ≡ (x + y) % 2
differ_digit zero y h k = omega arith
differ_digit (suc zero) zero h k = omega arith
differ_digit (suc zero) (suc y) h k = omega arith
differ_digit (suc (suc x)) y h k = absurd (omega arith)

pub bit_xor_step : (a b : ℕ) → bit_xor a b ≡ bit_xor (a / 2) (b / 2) * 2 + (a + b) % 2
bit_xor_step zero b = omega (arith, bit_xor-bitwise 0 (b / 2), bit_xor-bitwise 0 b)
bit_xor_step (suc a) b =
    let last = differ_digit (suc a % 2) (b % 2) (omega arith) (omega arith) in
    let rest = half_fuel differ a b in
    omega (arith, rest, last, bit_xor-bitwise (suc a / 2) (b / 2), bit_xor-bitwise (suc a) b)

bit_or_step : (b a : ℕ) → bit_or a b ≡ bit_or (a / 2) (b / 2) * 2 + max (a % 2) (b % 2)
bit_or_step b zero = omega (arith, bit_or-bitwise 0 (b / 2), bit_or-bitwise 0 b)
bit_or_step b (suc a) =
    omega (arith, half_fuel max a b, bit_or-bitwise (suc a / 2) (b / 2), bit_or-bitwise (suc a) b)

zero-bit_xor : (b : ℕ) → bit_xor 0 b ≡ b
zero-bit_xor b = bit_xor-bitwise 0 b

cancel_fuel : (n a b : ℕ) → a ≤ n → b ≤ n → bit_xor (bit_xor a b) b ≡ a
cancel_fuel zero zero zero h k = refl
cancel_fuel zero zero (suc b) h k = absurd (omega arith)
cancel_fuel zero (suc a) b h k = absurd (omega arith)
cancel_fuel (suc n) a b h k =
    let half : bit_xor a b / 2 ≡ bit_xor (a / 2) (b / 2) = omega (arith, bit_xor_step a b) in
    omega (
      arith,
      bit_xor_step a b,
      bit_xor_step (bit_xor a b) b,
      ap (λ (t : ℕ). bit_xor t (b / 2)) half,
      cancel_fuel n (a / 2) (b / 2) (omega arith) (omega arith),
    )

-- A second exclusive or with the same key restores the number.
pub bit_xor-cancel : (a b : ℕ) → bit_xor (bit_xor a b) b ≡ a
bit_xor-cancel a b = cancel_fuel (a + b) a b (omega arith) (omega arith)

pub bit_xor-lt : (k a b : ℕ) → a < 2 ^ k → b < 2 ^ k → bit_xor a b < 2 ^ k
bit_xor-lt zero zero zero h l = omega arith
bit_xor-lt zero zero (suc b) h l = absurd (omega arith)
bit_xor-lt zero (suc a) b h l = absurd (omega arith)
bit_xor-lt (suc k) a b h l = omega (
  arith,
  pow-suc 2 k,
  bit_xor_step a b,
  bit_xor-lt k (a / 2) (b / 2) (omega (arith, pow-suc 2 k)) (omega (arith, pow-suc 2 k)),
)

bit_or-zero_fuel : (a n : ℕ) → a ≤ n → bit_or a 0 ≡ a
bit_or-zero_fuel (suc a) (suc n) h =
    let half = bit_or-zero_fuel (suc a / 2) n (omega arith) in
    omega (arith, half, bit_or_step 0 (suc a))
bit_or-zero_fuel (suc a) zero h = absurd (omega arith)
bit_or-zero_fuel zero n h = refl

-- `(q << k) | r` is a sum where `r` fits in the `k` bits that the shift has freed.
pub bit_or-shift : (k q r : ℕ) → r < 2 ^ k → bit_or (q * 2 ^ k) r ≡ q * 2 ^ k + r
bit_or-shift zero q zero h =
    rw (bit_or-zero_fuel (q * 2 ^ 0) (q * 2 ^ 0) (omega arith)) (omega arith)
bit_or-shift zero q (suc r) h = absurd (omega arith)
bit_or-shift (suc k) q r h =
    let twice : q * 2 ^ suc k ≡ q * 2 ^ k * 2 =
      omega (arith, ap (λ (t : ℕ). q * t) (pow-suc 2 k)) in
    let half : q * 2 ^ suc k / 2 ≡ q * 2 ^ k = omega arith in
    omega (
      arith,
      bit_or_step r (q * 2 ^ suc k),
      ap (λ (t : ℕ). bit_or t (r / 2)) half,
      bit_or-shift k q (r / 2) (omega (arith, pow-suc 2 k)),
    )
