-- ===== src/Session/Built.antt =====
-- What `build_check_list` of session.cpp leaves behind.
use link_ice.Prelude.{
  ℕ, zero, suc, ◌+◌, ◌-◌, ◌≤◌, ◌≡◌, refl, ◌∙◌, arith, min, ◌&&◌, not, Bool, true, ◌==◌, List, [],
  ◌∷◌, map, length, Bytes, some, get_elem?, All, Bool-cases, inl, inr,
}
use link_ice.Candidate.{Candidate}
use link_ice.Candidate.Priority.{pair_priority}
use link_ice.CheckList.{
  CheckPair, PairState, frozen, waiting, key, contains, assign_states, assign_initial_pair_states,
}
use link_ice.CheckList.Static.{count, count-append}
use link_ice.CheckList.Frozen.{with_key, waiting_with, frozen_with, initial-one_waiting}
use link_ice.Session.{IceConfig, Outside, Session}
use link_ice.Session.Pairing.{
  makes_pair, stride, prediction_attempts, new_pair, with_foundation, assign_local_foundations,
  predicted_pairs, pairs_of, pairs_with, all_pairs, build_check_list,
}

unfoldable pub Descends : List CheckPair → Type 0
Descends [] = Unit
Descends (p ∷ ps) = All (λ q. q.priority ≤ p.priority) ps × Descends ps

-- What the standard says of `std::ranges::sort` with this comparison: the same pairs, by descending
-- priority; nothing of the order among equals.
pub record SortLaws (sort : List CheckPair → List CheckPair) : Type 0 where
  pub counted : (q : CheckPair → Bool) (ps : List CheckPair) → count q (sort ps) ≡ count q ps
  pub descends : (ps : List CheckPair) → Descends (sort ps)

-- A pair as it is made: of two candidates that may be paired, never checked, never nominated.
unfoldable pub is_fresh : CheckPair → Bool
is_fresh p =
    makes_pair p.local p.remote
    && (not p.valid && (not p.nominee_check_sent && (not p.pending_nomination && p.retries == 0)))

-- The states do not matter to a test that does not read them.
count-assign_states :
    (q : CheckPair → Bool) (seen : List Bytes) (ps : List CheckPair)
    → ((p : CheckPair) (t : PairState) → q (record p { state = t }) ≡ q p)
    → count q (assign_states seen ps) ≡ count q ps
unfolding count assign_states
count-assign_states q seen [] h = refl
count-assign_states q seen (p ∷ ps) h = ground (
  arith,
  h p frozen,
  h p waiting,
  count-assign_states q seen ps h,
  count-assign_states q (key p ∷ seen) ps h,
)

with_key-assign_states :
    (k : Bytes) (seen : List Bytes) (ps : List CheckPair)
    → with_key k (assign_states seen ps) ≡ with_key k ps
unfolding with_key assign_states
with_key-assign_states k seen [] = refl
with_key-assign_states k seen (p ∷ ps) =
    ground (arith, with_key-assign_states k seen ps, with_key-assign_states k (key p ∷ seen) ps)

below-assign_states :
    (n : ℕ) (seen : List Bytes) (ps : List CheckPair)
    → All (λ q. q.priority ≤ n) ps
    → All (λ q. q.priority ≤ n) (assign_states seen ps)
unfolding assign_states
below-assign_states n seen [] h = tt
below-assign_states n seen (p ∷ ps) (h, hs) = elim (Bool-cases (contains (key p) seen)) [
  | inl again ↦ rw again (h, below-assign_states n seen ps hs)
  | inr first ↦ rw first (h, below-assign_states n (key p ∷ seen) ps hs)
]

Descends-assign_states :
    (seen : List Bytes) (ps : List CheckPair) → Descends ps → Descends (assign_states seen ps)
unfolding assign_states Descends
Descends-assign_states seen [] h = tt
Descends-assign_states seen (p ∷ ps) (h, hs) = elim (Bool-cases (contains (key p) seen)) [
  | inl again ↦
      rw again (below-assign_states p.priority seen ps h, Descends-assign_states seen ps hs)
  | inr first ↦ rw first (
    below-assign_states p.priority (key p ∷ seen) ps h,
    Descends-assign_states (key p ∷ seen) ps hs,
  )
]

-- No pair fails a test.
unfoldable pub Passes : (CheckPair → Bool) → List CheckPair → Type 0
Passes q ps = count (λ p. not (q p)) ps ≡ 0

-- A well-formed check list of the session's candidates.
pub record IsBuilt (s : Session) : Type 0 where
  pub fresh : Passes is_fresh s.check_list
  pub descends : Descends s.check_list
  pub one_waiting :
      (k : Bytes)
      → (waiting_with k s.check_list ≡ min 1 (with_key k s.check_list))
        × (frozen_with k s.check_list ≡ with_key k s.check_list - 1)
  pub complete :
      (q : Candidate → Candidate → Bool) (l r : Candidate) (i j : ℕ)
      → get_elem? s.local_candidates i ≡ some l
      → get_elem? s.remote_candidates j ≡ some r
      → makes_pair l r ≡ true
      → q l r ≡ true
      → 1 ≤ count (λ p. q p.local p.remote) s.check_list

module _ (cfg : IceConfig) (out : Outside) where
  predicted-fresh :
      (n k step : ℕ) (pair : CheckPair) (drawn : ℕ)
      → is_fresh pair ≡ true
      → Passes is_fresh (predicted_pairs cfg out n k step pair drawn)
  unfolding Passes count predicted_pairs is_fresh makes_pair
  predicted-fresh zero k step pair drawn h = refl
  predicted-fresh (suc n) k step pair drawn h =
      let rest = predicted-fresh n (suc k) step pair (suc drawn) h in ground arith

  pairs_of-fresh :
      (s : Session) (l r : Candidate) (drawn : ℕ) → Passes is_fresh (pairs_of cfg out s l r drawn)
  unfolding Passes count pairs_of is_fresh
  pairs_of-fresh s l r drawn =
      let p =
        new_pair l r (pair_priority l.priority r.priority s.controlling) (out.txn_id drawn)
          l.transport in
      elim (Bool-cases (makes_pair l r)) [
        | inl pairs ↦
            let fresh : is_fresh p ≡ true = rw pairs refl in
            let more =
              predicted-fresh (prediction_attempts cfg s) 1 (stride cfg s) p (suc drawn) fresh in
            rw pairs (ground arith)
        | inr refused ↦ rw refused refl
      ]

  pairs_with-fresh :
      (s : Session) (l : Candidate) (rs : List Candidate) (drawn : ℕ)
      → Passes is_fresh (pairs_with cfg out s l rs drawn)
  unfolding Passes count pairs_with
  pairs_with-fresh s l [] drawn = refl
  pairs_with-fresh s l (r ∷ rs) drawn =
      let here = pairs_of cfg out s l r drawn in
      let next = drawn + length here in
      omega (
        arith,
        count-append (λ p. not (is_fresh p)) here (pairs_with cfg out s l rs next),
        pairs_of-fresh s l r drawn,
        pairs_with-fresh s l rs next,
      )

  all_pairs-fresh :
      (s : Session) (ls rs : List Candidate) (drawn : ℕ)
      → Passes is_fresh (all_pairs cfg out s ls rs drawn)
  unfolding Passes count all_pairs
  all_pairs-fresh s [] rs drawn = refl
  all_pairs-fresh s (l ∷ ls) rs drawn =
      let here = pairs_with cfg out s l rs drawn in
      let next = drawn + length here in
      omega (
        arith,
        count-append (λ p. not (is_fresh p)) here (all_pairs cfg out s ls rs next),
        pairs_with-fresh s l rs drawn,
        all_pairs-fresh s ls rs next,
      )

  -- Every two candidates that may be paired are.
  pairs_with_complete :
      (q : CheckPair → Bool) (s : Session) (l r : Candidate) (rs : List Candidate) (j drawn : ℕ)
      → get_elem? rs j ≡ some r
      → makes_pair l r ≡ true
      → ((txn : Bytes)
          → q (new_pair l r (pair_priority l.priority r.priority s.controlling) txn l.transport)
            ≡ true)
      → 1 ≤ count q (pairs_with cfg out s l rs drawn)
  unfolding count pairs_with pairs_of
  pairs_with_complete q s l r [] j drawn e m h = absurd (ground arith)
  pairs_with_complete q s l r (x ∷ rs) zero drawn e m h =
      let here = pairs_of cfg out s l x drawn in
      let split = count-append q here (pairs_with cfg out s l rs (drawn + length here)) in
      let this = h (out.txn_id drawn) in ground arith
  pairs_with_complete q s l r (x ∷ rs) (suc j) drawn e m h =
      let here = pairs_of cfg out s l x drawn in
      omega (
        arith,
        count-append q here (pairs_with cfg out s l rs (drawn + length here)),
        pairs_with_complete q s l r rs j (drawn + length here) e m h,
      )

  all_pairs_complete :
      (q : CheckPair → Bool) (s : Session) (l r : Candidate) (ls rs : List Candidate)
      (i j drawn : ℕ)
      → get_elem? ls i ≡ some l
      → get_elem? rs j ≡ some r
      → makes_pair l r ≡ true
      → ((txn : Bytes)
          → q (new_pair l r (pair_priority l.priority r.priority s.controlling) txn l.transport)
            ≡ true)
      → 1 ≤ count q (all_pairs cfg out s ls rs drawn)
  unfolding count all_pairs
  all_pairs_complete q s l r [] rs i j drawn f e m h = absurd (ground arith)
  all_pairs_complete q s l r (x ∷ ls) rs zero j drawn f e m h =
      let here = pairs_with cfg out s x rs drawn in
      let split = count-append q here (all_pairs cfg out s ls rs (drawn + length here)) in
      let found = pairs_with_complete q s l r rs j drawn e m h in ground arith
  all_pairs_complete q s l r (x ∷ ls) rs (suc i) j drawn f e m h =
      let here = pairs_with cfg out s x rs drawn in
      omega (
        arith,
        count-append q here (all_pairs cfg out s ls rs (drawn + length here)),
        all_pairs_complete q s l r ls rs i j (drawn + length here) f e m h,
      )

  -- Whatever the candidates are, the new check list has only pairs of candidates that may be paired (of one
  -- family, with transports that complement each other, neither an unresolved mDNS name), none of them
  -- checked or nominated before; it has such a pair for every two candidates that may be paired; it descends
  -- by priority; and every foundation tuple in it has exactly one pair in Waiting and all others Frozen. The
  -- sort is a sort.
  pub build_check_list-IsBuilt :
      SortLaws out.sort → (s : Session) → IsBuilt (build_check_list cfg out s)
  unfolding build_check_list assign_initial_pair_states Passes is_fresh
  build_check_list-IsBuilt laws s =
      let ls = assign_local_foundations cfg out s.local_candidates in
      let rs = map (with_foundation cfg out) s.remote_candidates in
      let pairs = all_pairs cfg out s ls rs s.drawn in
      let sorted = out.sort pairs in
      let q = λ (p : CheckPair). not (is_fresh p) in
      record {
        fresh =
            count-assign_states q [] sorted (λ p t. refl)
            ∙ laws.counted q pairs
            ∙ all_pairs-fresh s ls rs s.drawn;
        descends = Descends-assign_states [] sorted (laws.descends pairs);
        one_waiting = λ k.
            let same = with_key-assign_states k [] sorted in
            let (w, f) = initial-one_waiting k sorted in
            (omega (arith, w, same), omega (arith, f, same));
        complete = λ q l r i j f e m h.
            let p = λ (x : CheckPair). q x.local x.remote in
            omega (
              arith,
              count-assign_states p [] sorted (λ x t. refl),
              laws.counted p pairs,
              all_pairs_complete p s l r ls rs i j s.drawn f e m (λ txn. h),
            );
      }
