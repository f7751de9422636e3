-- ===== src/CheckList/Frozen.antt =====
-- Which pairs of the check list wait and which are frozen (assign_initial_pair_states and
-- unfreeze_stuck_pairs of session.cpp).
use link_ice.Prelude.{
  ℕ, ◌+◌, ◌-◌, ◌≡◌, refl, ap, arith, min, Bool, true, false, ◌&&◌, ◌||◌, if◌then◌else◌, List, [],
  ◌∷◌, Bytes, bytes_eq, bytes_eq_sound, Bool-cases, inl, inr,
}
use link_ice.CheckList.{
  CheckPair, is_frozen, is_waiting, key, contains, assign_states, assign_initial_pair_states,
  has_active, promote_stuck, unfreeze_stuck_pairs,
}

-- The pairs of one foundation tuple: all of them, the waiting and the frozen ones.
unfoldable pub with_key : Bytes → List CheckPair → ℕ
with_key k [] = 0
with_key k (p ∷ ps) = (if bytes_eq (key p) k then 1 else 0) + with_key k ps

unfoldable pub waiting_with : Bytes → List CheckPair → ℕ
waiting_with k [] = 0
waiting_with k (p ∷ ps) =
    (if bytes_eq (key p) k && is_waiting p.state then 1 else 0) + waiting_with k ps

unfoldable pub frozen_with : Bytes → List CheckPair → ℕ
frozen_with k [] = 0
frozen_with k (p ∷ ps) =
    (if bytes_eq (key p) k && is_frozen p.state then 1 else 0) + frozen_with k ps

assign_states-counts :
    (k : Bytes) (ps : List CheckPair) (seen : List Bytes)
    → (waiting_with k (assign_states seen ps)
        ≡ (if contains k seen then 0 else min 1 (with_key k ps)))
      × (frozen_with k (assign_states seen ps)
          ≡ (if contains k seen then with_key k ps else with_key k ps - 1))
unfolding assign_states with_key waiting_with frozen_with
assign_states-counts k [] seen = ground arith
assign_states-counts k (p ∷ ps) seen =
    let again = assign_states-counts k ps seen in
    let first = assign_states-counts k ps (key p ∷ seen) in
    elim (Bool-cases (bytes_eq (key p) k)) [
      | inl same ↦
          let here : contains (key p) seen ≡ contains k seen =
            ap (λ (x : Bytes). contains x seen) (bytes_eq_sound (key p) k same) in
          ground arith
      | inr other ↦ ground arith
    ]

-- After the list is built, every foundation tuple that occurs has exactly one pair in Waiting, and all its
-- other pairs are Frozen.
pub initial-one_waiting :
    (k : Bytes) (ps : List CheckPair)
    → (waiting_with k (assign_initial_pair_states ps) ≡ min 1 (with_key k ps))
      × (frozen_with k (assign_initial_pair_states ps) ≡ with_key k ps - 1)
unfolding assign_initial_pair_states
initial-one_waiting k ps = assign_states-counts k ps []

unfoldable pub has_frozen : List CheckPair → Bool
has_frozen [] = false
has_frozen (p ∷ ps) = is_frozen p.state || has_frozen ps

promote_stuck-active :
    (ps : List CheckPair) → has_frozen ps ≡ true → has_active (promote_stuck [] ps) ≡ true
unfolding promote_stuck has_frozen has_active
promote_stuck-active [] h = cc
promote_stuck-active (p ∷ ps) h =
    let later = promote_stuck-active ps in
    elim (Bool-cases (is_frozen p.state)) [
      | inl here ↦ rw here refl
      | inr not_here ↦ rw not_here (ground arith)
    ]

-- The fallback never leaves a list stranded: if a pair is Frozen before it, some pair is Waiting or
-- InProgress behind it.
pub unfreeze_stuck-active :
    (ps : List CheckPair) → has_frozen ps ≡ true → has_active (unfreeze_stuck_pairs ps) ≡ true
unfolding unfreeze_stuck_pairs
unfreeze_stuck-active ps h = elim (Bool-cases (has_active ps)) [
  | inl a ↦ rw (a, a) refl
  | inr n ↦ rw n (promote_stuck-active ps h)
]
