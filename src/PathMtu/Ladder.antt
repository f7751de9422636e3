-- ===== src/PathMtu/Ladder.antt =====
-- The ladder of probe sizes that the constructor of `PathMtuProbe` prepares: `std::sort`, `std::unique`
-- and `std::remove_if` over the configured `int`s.
use link_ice.Prelude.{
  ℕ, zero, suc, ◌≤◌, ◌<◌, ◌≡◌, refl, arith, Bool, true, false, if◌then◌else◌, leb, ◌==◌, List, [],
  ◌∷◌, length, get_or, All, Bool-cases, inl, inr, subst,
}

-- `negsuc n` is -(n + 1).
pub data ℤ : Type 0 where
  pos : ℕ → ℤ
  negsuc : ℕ → ℤ

abbrev pub leb_ℤ : ℤ → ℤ → Bool
leb_ℤ (pos a) (pos b) = leb a b
leb_ℤ (pos a) (negsuc b) = false
leb_ℤ (negsuc a) (pos b) = true
leb_ℤ (negsuc a) (negsuc b) = leb b a

abbrev pub eq_ℤ : ℤ → ℤ → Bool
eq_ℤ (pos a) (pos b) = a == b
eq_ℤ (pos a) (negsuc b) = false
eq_ℤ (negsuc a) (pos b) = false
eq_ℤ (negsuc a) (negsuc b) = a == b

unfoldable pub insert : ℤ → List ℤ → List ℤ
insert x [] = x ∷ []
insert x (y ∷ ys) = if leb_ℤ x y then x ∷ y ∷ ys else y ∷ insert x ys

unfoldable pub sort : List ℤ → List ℤ
sort [] = []
sort (x ∷ xs) = insert x (sort xs)

-- Of equal neighbours one is kept.
unfoldable pub unique : List ℤ → List ℤ
unique [] = []
unique (x ∷ []) = x ∷ []
unique (x ∷ y ∷ ys) = if eq_ℤ x y then unique (y ∷ ys) else x ∷ unique (y ∷ ys)

-- Drops `v <= 0` and `(size_t)v <= base`; what is left is read as a size.
unfoldable pub above : ℕ → List ℤ → List ℕ
above base [] = []
above base (pos n ∷ xs) =
    if leb n 0 then above base xs else if leb n base then above base xs else n ∷ above base xs
above base (negsuc n ∷ xs) = above base xs

unfoldable pub prepare : ℕ → List ℤ → List ℕ
prepare base steps = above base (unique (sort steps))

-- Strictly ascending, from above `lo`.
abbrev pub Ascends : ℕ → List ℕ → Type 0
Ascends lo [] = Unit {0}
Ascends lo (x ∷ xs) = (lo < x) × Ascends x xs

-- Ascending, equal neighbours allowed.
abbrev Sorted : List ℤ → Type 0
Sorted [] = Unit {0}
Sorted (x ∷ []) = Unit {0}
Sorted (x ∷ y ∷ ys) = (leb_ℤ x y ≡ true) × Sorted (y ∷ ys)

leb_ℤ_total : (x y : ℤ) → leb_ℤ x y ≡ false → leb_ℤ y x ≡ true
leb_ℤ_total (pos a) (pos b) h = ground arith
leb_ℤ_total (pos a) (negsuc b) h = refl
leb_ℤ_total (negsuc a) (pos b) h = cc
leb_ℤ_total (negsuc a) (negsuc b) h = ground arith

insert-Sorted : (x : ℤ) (ys : List ℤ) → Sorted ys → Sorted (insert x ys)
unfolding insert
insert-Sorted x [] h = tt
insert-Sorted x (y ∷ []) h = ground (arith, leb_ℤ_total x y)
insert-Sorted x (y ∷ z ∷ zs) h =
    ground (arith, leb_ℤ_total x y, leb_ℤ_total x z, insert-Sorted x (z ∷ zs))

sort-Sorted : (xs : List ℤ) → Sorted (sort xs)
unfolding sort
sort-Sorted [] = tt
sort-Sorted (x ∷ xs) = insert-Sorted x (sort xs) (sort-Sorted xs)

-- Strictly ascending integers.
abbrev Strict : List ℤ → Type 0
Strict [] = Unit {0}
Strict (x ∷ []) = Unit {0}
Strict (x ∷ y ∷ ys) = (leb_ℤ x y ≡ true) × (eq_ℤ x y ≡ false) × Strict (y ∷ ys)

Strict-tail : (x : ℤ) (ys : List ℤ) → Strict (x ∷ ys) → Strict ys
Strict-tail x [] h = tt
Strict-tail x (y ∷ ys) h = h.2

eq_ℤ_sound : (x y : ℤ) → eq_ℤ x y ≡ true → x ≡ y
eq_ℤ_sound (pos a) (pos b) h = ground arith
eq_ℤ_sound (pos a) (negsuc b) h = cc
eq_ℤ_sound (negsuc a) (pos b) h = cc
eq_ℤ_sound (negsuc a) (negsuc b) h = ground arith

unique_head : (x : ℤ) (ys : List ℤ) → (rest : List ℤ) × (unique (x ∷ ys) ≡ x ∷ rest)
unfolding unique
unique_head x [] = ([], refl)
unique_head x (y ∷ ys) = elim (Bool-cases (eq_ℤ x y)) [
  | inl same ↦ let (rest, e) = unique_head y ys in (rest, rw (same, eq_ℤ_sound x y same) e)
  | inr other ↦ (unique (y ∷ ys), rw other)
]

unique-Strict : (xs : List ℤ) → Sorted xs → Strict (unique xs)
unfolding unique
unique-Strict [] h = tt
unique-Strict (x ∷ []) h = tt
unique-Strict (x ∷ y ∷ ys) h = elim (Bool-cases (eq_ℤ x y)) [
  | inl same ↦ rw same (unique-Strict (y ∷ ys) h.1)
  | inr other ↦
      let (rest, e) = unique_head y ys in
      rw (other, e) (h.0, other, subst Strict e (unique-Strict (y ∷ ys) h.1))
]

Ascends-from :
    (base lo : ℕ) (ys : List ℤ) → base ≤ lo → Strict (pos lo ∷ ys) → Ascends lo (above base ys)
unfolding above
Ascends-from base lo [] h s = tt
Ascends-from base lo (pos n ∷ ys) h s = ground (arith, Ascends-from base n ys)
Ascends-from base lo (negsuc n ∷ ys) h s = absurd (cc)

above-Ascends : (base : ℕ) (ys : List ℤ) → Strict ys → Ascends base (above base ys)
unfolding above
above-Ascends base [] s = tt
above-Ascends base (pos n ∷ ys) s =
    ground (arith, Ascends-from base n ys, above-Ascends base ys, Strict-tail (pos n) ys s)
above-Ascends base (negsuc n ∷ ys) s = above-Ascends base ys (Strict-tail (negsuc n) ys s)

-- Whatever was configured, the prepared ladder ascends strictly from above the base.
pub prepare-Ascends : (base : ℕ) (steps : List ℤ) → Ascends base (prepare base steps)
unfolding prepare
prepare-Ascends base steps = above-Ascends base _ (unique-Strict (sort steps) (sort-Sorted steps))

pub Ascends-step :
    (lo : ℕ) (xs : List ℕ) (i : ℕ)
    → Ascends lo xs
    → suc i < length xs
    → get_or xs i 0 < get_or xs (suc i) 0
Ascends-step lo [] i h l = absurd (omega arith)
Ascends-step lo (x ∷ []) i h l = absurd (omega arith)
Ascends-step lo (x ∷ y ∷ ys) zero h l = h.1.0
Ascends-step lo (x ∷ y ∷ ys) (suc i) h l = Ascends-step x (y ∷ ys) i h.1 (omega arith)

-- Every rung up to an index lies at most at that rung.
pub Ascends-le_all :
    (lo : ℕ) (xs : List ℕ) (i : ℕ)
    → Ascends lo xs
    → length xs ≡ suc i
    → All (λ x. x ≤ get_or xs i 0) xs
Ascends-le_all lo [] i h l = absurd (omega arith)
Ascends-le_all lo (x ∷ []) zero h l = omega arith
Ascends-le_all lo (x ∷ []) (suc i) h l = absurd (omega arith)
Ascends-le_all lo (x ∷ y ∷ ys) zero h l = absurd (omega arith)
Ascends-le_all lo (x ∷ y ∷ ys) (suc i) h l =
    let rest = Ascends-le_all x (y ∷ ys) i h.1 (omega arith) in (omega (arith, rest.0, h.1.0), rest)

pub All-get_or : (top : ℕ) (xs : List ℕ) (i : ℕ) → All (λ x. x ≤ top) xs → get_or xs i 0 ≤ top
All-get_or top [] i h = omega arith
All-get_or top (x ∷ xs) zero h = h.0
All-get_or top (x ∷ xs) (suc i) h = All-get_or top xs i h.1
