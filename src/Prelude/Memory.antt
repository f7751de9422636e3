-- ===== src/Prelude/Memory.antt =====
-- The result of code that reads a buffer through a pointer: a value, a read outside the buffer, or
-- a loop that used up the fuel it was given.
use link_ice.Prelude.Tests.{leb, if◌then◌else◌}
use link_ice.Prelude.Lists.{Bytes, length, take}
use Prim.Native.Nat.{ℕ, ◌+◌, ◌*◌, ◌^◌}
use mathlib.Core.List.{[], ◌∷◌}
use mathlib.Core.Path.{◌≡◌, refl}
use mathlib.Core.Bool.{Bool, true, false}

pub data Outcome {ℓ} (A : Type ℓ) : Type ℓ where
  value : A → Outcome A
  fault : Outcome A
  spent : Outcome A

infixl 5 ◌>>=◌
abbrev pub ◌>>=◌ {ℓ κ} : {A : Type ℓ} {B : Type κ} → Outcome A → (A → Outcome B) → Outcome B
value a >>= f = f a
fault >>= f = fault
spent >>= f = spent

-- The code returned, with a result of which `P` holds.
abbrev pub Returns {ℓ} : {A : Type ℓ} → Outcome A → (A → Type 0) → Type 0
Returns (value a) P = P a
Returns fault P = ⊥
Returns spent P = ⊥

-- The bytes that a pointer reaches are a list; a C read past the end of the list is a fault.
unfoldable pub read8 : Bytes → Outcome ℕ
read8 [] = fault
read8 (a ∷ p) = value a

-- `(p[0] << 8) | p[1]`: the fields of two bytes do not overlap.
unfoldable pub read16 : Bytes → Outcome ℕ
read16 [] = fault
read16 (a ∷ []) = fault
read16 (a ∷ b ∷ p) = value (a * 2 ^ 8 + b)

unfoldable pub read32 : Bytes → Outcome ℕ
read32 (a ∷ b ∷ c ∷ d ∷ p) = value (a * 2 ^ 24 + b * 2 ^ 16 + c * 2 ^ 8 + d)
read32 _ = fault

-- `n` bytes copied from the pointer.
unfoldable pub read_bytes : ℕ → Bytes → Outcome Bytes
read_bytes n p = if leb n (length p) then value (take n p) else fault

-- Both branches return, so the conditional does.
pub if-Returns {ℓ} :
    {A : Type ℓ} (P : A → Type 0) (b : Bool) (x y : Outcome A)
    → (b ≡ true → Returns x P)
    → (b ≡ false → Returns y P)
    → Returns (if b then x else y) P
if-Returns P true x y h k = h refl
if-Returns P false x y h k = k refl

pub >>=-Returns {ℓ κ} :
    {A : Type ℓ} {B : Type κ} (P : A → Type 0) (Q : B → Type 0) (m : Outcome A) (f : A → Outcome B)
    → Returns m P
    → ((a : A) → P a → Returns (f a) Q)
    → Returns (m >>= f) Q
>>=-Returns P Q (value a) f h k = k a h
>>=-Returns P Q fault f h k = h
>>=-Returns P Q spent f h k = h

-- A reading that returned has a value.
pub Returns-value {ℓ} :
    {A : Type ℓ} (P : A → Type 0) (m : Outcome A) → Returns m P → (a : A) × (m ≡ value a) × P a
Returns-value P (value a) h = (a, refl, h)
Returns-value P fault h = absurd h
Returns-value P spent h = absurd h

-- Two ways to go on after the same computation.
pub >>=-value_then {ℓ κ μ} :
    {A : Type ℓ} {B : Type κ} {C : Type μ} (m : Outcome A) (h : A → B) (k : B → Outcome C)
    (g : A → Outcome C)
    → ((a : A) → k (h a) ≡ g a)
    → ((m >>= λ a. value (h a)) >>= k) ≡ (m >>= g)
>>=-value_then (value a) h k g e = e a
>>=-value_then fault h k g e = refl
>>=-value_then spent h k g e = refl
