-- ===== src/Prelude/Table.antt =====
-- Facts about every byte, by evaluation.
use Prim.Native.Nat.{ℕ, zero, suc, ◌<◌, ◌/◌, ◌*◌, bit_and}
use mathlib.Core.Path.{◌≡◌, refl}
use mathlib.Core.Bool.{Bool, true, ◌&&◌}
use native.Mathlib.Omega.{arith}
use link_ice.Prelude.Tests.{◌==◌, ==_iff}

first_fit : (ℕ → Bool) → ℕ → Bool
first_fit p zero = true
first_fit p (suc n) = first_fit p n && p n

first_fit_sound : (p : ℕ → Bool) (n : ℕ) → first_fit p n ≡ true → (x : ℕ) → x < n → p x ≡ true
unfolding first_fit
first_fit_sound p (suc n) h x lt = ground (arith, first_fit_sound p n (ground arith) x)
first_fit_sound p zero h x lt = absurd (omega arith)

mask_fits : ℕ → Bool
mask_fits x = bit_and x 0xC0 == x / 64 * 64

every_byte : first_fit mask_fits 256 ≡ true
unfolding first_fit mask_fits
every_byte = refl

-- The mask of the two top bits of a byte.
pub bit_and_top_two : (x : ℕ) → x < 256 → bit_and x 0xC0 ≡ x / 64 * 64
unfolding mask_fits
bit_and_top_two x h = (==_iff _ _).0 (first_fit_sound mask_fits 256 every_byte x h)
