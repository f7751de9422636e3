-- ===== src/CheckList/Static.antt =====
-- What the pacing of the checks leaves alone (session.cpp): a test of the pairs that reads neither the
-- state nor the retries nor the time of the last check counts the same pairs before and behind it.
use link_ice.Prelude.{
  ℕ, zero, suc, ◌+◌, ◌%◌, ◌^◌, ◌≡◌, refl, ◌∙◌, arith, Bool, true, if◌then◌else◌, List, [], ◌∷◌,
  ◌++◌, length, get_elem?, Bytes, some, Option-cases, inl, inr,
}
use link_ice.CheckList.{
  CheckPair, PairState, CheckConfig, Checks, waiting, in_progress, failed, key, unfreeze_loop,
  unfreeze_siblings, promote_stuck, unfreeze_stuck_pairs, set_at, send_check, retransmit_one,
  retransmit, promote, run_next_check, fire,
}

unfoldable pub count : (CheckPair → Bool) → List CheckPair → ℕ
count q [] = 0
count q (p ∷ ps) = (if q p then 1 else 0) + count q ps

pub count-append :
    (q : CheckPair → Bool) (xs ys : List CheckPair) → count q (xs ++ ys) ≡ count q xs + count q ys
unfolding count
count-append q [] ys = omega arith
count-append q (x ∷ xs) ys = ground (arith, count-append q xs ys)

pub count-set_at :
    (q : CheckPair → Bool) (i : ℕ) (p x : CheckPair) (ps : List CheckPair)
    → get_elem? ps i ≡ some p
    → q x ≡ q p
    → count q (set_at i x ps) ≡ count q ps
unfolding count
count-set_at q i p x [] e h = refl
count-set_at q zero p x (y ∷ ps) e h = let same : q y ≡ q p = ground arith in ground arith
count-set_at q (suc i) p x (y ∷ ps) e h = ground (arith, count-set_at q i p x ps e h)

-- The tests that the pacing does not see.
unfoldable pub IsStatic : (CheckPair → Bool) → Type 0
IsStatic q =
    (p : CheckPair) (t : PairState) (n u : ℕ)
    → q (record p { state = t; retries = n; txn_send_us = u }) ≡ q p

module _ (q : CheckPair → Bool) (static : IsStatic q) where
  unfreeze_loop-static :
      (l r : Bytes) (ps : List CheckPair) → count q (unfreeze_loop l r ps) ≡ count q ps
  unfolding count unfreeze_loop IsStatic
  unfreeze_loop-static l r [] = refl
  unfreeze_loop-static l r (p ∷ ps) =
      ground (arith, static p waiting p.retries p.txn_send_us, unfreeze_loop-static l r ps)

  pub unfreeze_siblings-static :
      (l r : Bytes) (ps : List CheckPair) → count q (unfreeze_siblings l r ps) ≡ count q ps
  unfolding unfreeze_siblings
  unfreeze_siblings-static l r ps = ground (arith, unfreeze_loop-static l r ps)

  promote_stuck-static :
      (seen : List Bytes) (ps : List CheckPair) → count q (promote_stuck seen ps) ≡ count q ps
  unfolding count promote_stuck IsStatic
  promote_stuck-static seen [] = refl
  promote_stuck-static seen (p ∷ ps) = ground (
    arith,
    static p waiting p.retries p.txn_send_us,
    promote_stuck-static seen ps,
    promote_stuck-static (key p ∷ seen) ps,
  )

  unfreeze_stuck-static : (ps : List CheckPair) → count q (unfreeze_stuck_pairs ps) ≡ count q ps
  unfolding unfreeze_stuck_pairs
  unfreeze_stuck-static ps = ground (arith, promote_stuck-static [] ps)

  fail-static :
      (i : ℕ) (p : CheckPair) (ps : List CheckPair)
      → get_elem? ps i ≡ some p
      → count q (
          unfreeze_siblings p.local.foundation p.remote.foundation
            (set_at i (record p { state = failed }) ps))
        ≡ count q ps
  unfolding IsStatic
  fail-static i p ps e =
      let x = record p { state = failed } in
      unfreeze_siblings-static p.local.foundation p.remote.foundation (set_at i x ps)
      ∙ count-set_at q i p x ps e (static p failed p.retries p.txn_send_us)

  pub send_check-static :
      (cfg : CheckConfig) (now i : ℕ) (ps : List CheckPair)
      → count q (send_check cfg now i ps) ≡ count q ps
  unfolding send_check IsStatic
  send_check-static cfg now i ps = elim (Option-cases (get_elem? ps i)) [
    | inl e ↦ rw (send_check, e) refl
    | inr (p, e) ↦
        let n = (p.retries + 1) % 2 ^ 8 in
        let x = record p { retries = n; txn_send_us = now } in
        let sent = count-set_at q i p x ps e (static p p.state n now) in
        rw (send_check, e) (ground (arith, fail-static i p ps e))
  ]

  pub start_check-static :
      (cfg : CheckConfig) (now i : ℕ) (p : CheckPair) (ps : List CheckPair)
      → get_elem? ps i ≡ some p
      → count q (send_check cfg now i (set_at i (record p { state = in_progress }) ps)) ≡ count q ps
  unfolding IsStatic
  start_check-static cfg now i p ps e =
      let x = record p { state = in_progress } in
      send_check-static cfg now i (set_at i x ps)
      ∙ count-set_at q i p x ps e (static p in_progress p.retries p.txn_send_us)

  retransmit_one-static :
      (cfg : CheckConfig) (now i : ℕ) (ps : List CheckPair)
      → count q (retransmit_one cfg now i ps) ≡ count q ps
  unfolding retransmit_one
  retransmit_one-static cfg now i ps = elim (Option-cases (get_elem? ps i)) [
    | inl e ↦ rw (retransmit_one, e) refl
    | inr (p, e) ↦
        rw (retransmit_one, e)
          (ground (arith, fail-static i p ps e, send_check-static cfg now i ps))
  ]

  retransmit-static :
      (cfg : CheckConfig) (now n i : ℕ) (ps : List CheckPair)
      → count q (retransmit cfg now n i ps) ≡ count q ps
  unfolding retransmit
  retransmit-static cfg now zero i ps = refl
  retransmit-static cfg now (suc n) i ps =
      retransmit-static cfg now n (suc i) (retransmit_one cfg now i ps)
      ∙ retransmit_one-static cfg now i ps

  promote-static :
      (cfg : CheckConfig) (now n i : ℕ) (ps : List CheckPair)
      → count q (promote cfg now n i ps) ≡ count q ps
  unfolding promote
  promote-static cfg now zero i ps = refl
  promote-static cfg now (suc n) i ps = elim (Option-cases (get_elem? ps i)) [
    | inl e ↦ rw (promote, e) refl
    | inr (p, e) ↦
        let sent = send_check cfg now i (set_at i (record p { state = in_progress }) ps) in
        rw (promote, e)
          (ground (
            arith,
            promote-static cfg now n (suc i) ps,
            promote-static cfg now n (suc i) sent,
            start_check-static cfg now i p ps e,
          ))
  ]

  pub run_next_check-static :
      (cfg : CheckConfig) (now : ℕ) (s : Checks)
      → count q (run_next_check cfg now s).0.pairs ≡ count q s.pairs
  unfolding run_next_check
  run_next_check-static cfg now s =
      let n = length s.pairs in
      let stuck = unfreeze_stuck_pairs s.pairs in
      let walked = retransmit cfg now n 0 stuck in
      let a = unfreeze_stuck-static s.pairs in
      let b = retransmit-static cfg now n 0 stuck in
      let c = promote-static cfg now n 0 walked in ground arith

  pub fire-static :
      (cfg : CheckConfig) (now n i : ℕ) (v4 v6 : Bool) (ps : List CheckPair)
      → count q (fire cfg now n i v4 v6 ps) ≡ count q ps
  unfolding fire
  fire-static cfg now zero i v4 v6 ps = refl
  fire-static cfg now (suc n) i v4 v6 ps = elim (Option-cases (get_elem? ps i)) [
    | inl e ↦ rw (fire, e) refl
    | inr (p, e) ↦
        let sent = send_check cfg now i (set_at i (record p { state = in_progress }) ps) in
        rw (fire, e)
          (ground (
            arith,
            fire-static cfg now n (suc i) v4 v6 ps,
            fire-static cfg now n (suc i) true v6 sent,
            fire-static cfg now n (suc i) v4 true sent,
            start_check-static cfg now i p ps e,
          ))
  ]
