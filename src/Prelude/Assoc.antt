-- ===== src/Prelude/Assoc.antt =====
-- Maps as association lists: `find`, `m[k] = v` and `erase` of the C++ containers.
use Prim.Native.Nat.{ℕ}
use mathlib.Core.Path.{◌≡◌, refl}
use mathlib.Core.Logic.{inl, inr}
use mathlib.Core.Bool.{Bool, true, false}
use mathlib.Core.Option.{Option, none, some}
use mathlib.Core.List.{List, [], ◌∷◌}
use link_ice.Prelude.Tests.{◌==◌, ==_refl, ==_iff, if◌then◌else◌, Bool-cases}
use link_ice.Prelude.Lists.{Bytes, bytes_eq, bytes_eq_refl, bytes_eq_sound}

-- A type of keys with its `==`.
pub record Key {ℓ} (K : Type ℓ) : Type ℓ where
  pub same : K → K → Bool
  pub same_refl : (k : K) → same k k ≡ true
  pub same_sound : (j k : K) → same j k ≡ true → j ≡ k

instance abbrev pub nat_key : Key ℕ
nat_key = record { same = ◌==◌; same_refl = ==_refl; same_sound = λ j k h. (==_iff j k).0 h }

instance abbrev pub bytes_key : Key Bytes
bytes_key = record { same = bytes_eq; same_refl = bytes_eq_refl; same_sound = bytes_eq_sound }

module _ {ℓ κ} {K : Type ℓ} {V : Type κ} ⦃o : Key K⦄ where
  abbrev pub lookup : K → List (K × V) → Option V
  lookup k [] = none
  lookup k ((j, v) ∷ m) = let rest = lookup k m in if o.same j k then some v else rest

  abbrev pub remove : K → List (K × V) → List (K × V)
  remove k [] = []
  remove k ((j, v) ∷ m) = let rest = remove k m in if o.same j k then rest else (j, v) ∷ rest

  -- An entry replaces the one with its key.
  abbrev pub put : K → V → List (K × V) → List (K × V)
  put k v m = (k, v) ∷ remove k m

  pub lookup-put_self : (k : K) (v : V) (m : List (K × V)) → lookup k (put k v m) ≡ some v
  lookup-put_self k v m = rw (o.same_refl k) refl

  pub lookup-remove_self : (k : K) (m : List (K × V)) → lookup k (remove k m) ≡ none
  lookup-remove_self k [] = refl
  lookup-remove_self k ((j, v) ∷ m) = elim (Bool-cases (o.same j k)) [
    | inl here ↦ rw here (lookup-remove_self k m)
    | inr other ↦ rw (other, other) (lookup-remove_self k m)
  ]

  pub lookup-remove_ne :
      (k j : K) (m : List (K × V)) → o.same k j ≡ false → lookup j (remove k m) ≡ lookup j m
  lookup-remove_ne k j [] h = refl
  lookup-remove_ne k j ((x, v) ∷ m) h = elim (Bool-cases (o.same x k)) [
    | inl here ↦
        let apart : o.same x j ≡ false = rw (o.same_sound x k here) h in
        rw (here, apart) (lookup-remove_ne k j m h)
    | inr other ↦ rw (other, lookup-remove_ne k j m h) refl
  ]

  pub lookup-put_ne :
      (k j : K) (v : V) (m : List (K × V)) → o.same k j ≡ false → lookup j (put k v m) ≡ lookup j m
  lookup-put_ne k j v m h = rw h (lookup-remove_ne k j m h)
