-- ===== src/Session/Found.antt =====
-- What `find_pair` finds: the search loops over the check list (session.cpp).
use link_ice.Prelude.{
  ℕ, zero, suc, ◌-◌, ◌≤◌, ◌≡◌, sym, ap, ◌∙◌, arith, Bool, true, false, if◌then◌else◌, List, [], ◌∷◌,
  get_elem?, some, Bool-cases, inl, inr,
}
use link_ice.CheckList.{CheckPair}
use link_ice.CheckList.Static.{count}
use link_ice.Session.Nominate.{find_pair}

find_pair-from :
    (q : CheckPair → Bool) (i j : ℕ) (p : CheckPair) (ps : List CheckPair)
    → find_pair q i ps ≡ some (j, p)
    → (i ≤ j) × (get_elem? ps (j - i) ≡ some p) × (q p ≡ true)
unfolding find_pair
find_pair-from q i j p [] e = absurd (ground arith)
find_pair-from q i j p (x ∷ ps) e = elim (Bool-cases (q x)) [
  | inl here ↦
      let found : some (i, x) ≡ some (j, p) =
        ap (λ (b : Bool). if b then some (i, x) else find_pair q (suc i) ps) (sym here) ∙ e in
      ground arith
  | inr not_here ↦
      let later : find_pair q (suc i) ps ≡ some (j, p) =
        ap (λ (b : Bool). if b then some (i, x) else find_pair q (suc i) ps) (sym not_here) ∙ e in
      let (le, at, holds) = find_pair-from q (suc i) j p ps later in
      let step : j - i ≡ suc (j - suc i) = omega (arith, le) in
      (omega (arith, le), ap (λ (n : ℕ). get_elem? (x ∷ ps) n) step ∙ at, holds)
]

-- The pair that is found stands at that place and passes the test.
pub find_pair_sound :
    (q : CheckPair → Bool) (j : ℕ) (p : CheckPair) (ps : List CheckPair)
    → find_pair q 0 ps ≡ some (j, p)
    → (get_elem? ps j ≡ some p) × (q p ≡ true)
find_pair_sound q j p ps e =
    let (le, at, holds) = find_pair-from q 0 j p ps e in
    (ap (λ (n : ℕ). get_elem? ps n) (omega arith) ∙ at, holds)

-- Where no pair passes a test, the one at this place does not.
pub none_passes :
    (q : CheckPair → Bool) (i : ℕ) (p : CheckPair) (ps : List CheckPair)
    → count q ps ≡ 0
    → get_elem? ps i ≡ some p
    → q p ≡ false
unfolding count
none_passes q i p [] c e = absurd (ground arith)
none_passes q zero p (x ∷ ps) c e = let same : q x ≡ q p = ground arith in ground arith
none_passes q (suc i) p (x ∷ ps) c e = none_passes q i p ps (omega (arith, c)) e
