-- ===== src/CheckList/Pacing.antt =====
-- The pace of the checks (run_next_check of session.cpp).
use link_ice.Prelude.{
  ℕ, zero, suc, ◌+◌, ◌%◌, ◌^◌, ◌≤◌, ◌≡◌, refl, arith, true, false, if◌then◌else◌, leb, List, [],
  ◌∷◌, length, get_elem?, Bytes, some, Option-cases, Bool-cases, ◌⊎◌, inl, inr,
}
use link_ice.CheckList.{
  CheckPair, PairState, CheckConfig, Checks, Tick, frozen, waiting, in_progress, succeeded, failed,
  is_frozen, is_waiting, is_in_progress, key, in_progress_count, unfreeze_loop, unfreeze_siblings,
  promote_stuck, unfreeze_stuck_pairs, set_at, send_check, retransmit_one, retransmit, promote,
  any_pending, run_next_check,
}

frozen_idle : (s : PairState) → is_frozen s ≡ true → is_in_progress s ≡ false
frozen_idle frozen h = refl
frozen_idle waiting h = refl
frozen_idle in_progress h = cc
frozen_idle succeeded h = refl
frozen_idle failed h = refl

pub waiting_idle : (s : PairState) → is_waiting s ≡ true → is_in_progress s ≡ false
waiting_idle frozen h = refl
waiting_idle waiting h = refl
waiting_idle in_progress h = cc
waiting_idle succeeded h = refl
waiting_idle failed h = refl

count-unfreeze_loop :
    (l r : Bytes) (ps : List CheckPair)
    → in_progress_count (unfreeze_loop l r ps) ≡ in_progress_count ps
unfolding in_progress_count unfreeze_loop
count-unfreeze_loop l r [] = refl
count-unfreeze_loop l r (p ∷ ps) =
    let idle = frozen_idle p.state in ground (arith, count-unfreeze_loop l r ps)

count-promote_stuck :
    (seen : List Bytes) (ps : List CheckPair)
    → in_progress_count (promote_stuck seen ps) ≡ in_progress_count ps
unfolding in_progress_count promote_stuck
count-promote_stuck seen [] = refl
count-promote_stuck seen (p ∷ ps) =
    let idle = frozen_idle p.state in
    ground (arith, count-promote_stuck seen ps, count-promote_stuck (key p ∷ seen) ps)

-- A pair is replaced.
pub count-set_at :
    (i : ℕ) (p q : CheckPair) (ps : List CheckPair)
    → get_elem? ps i ≡ some p
    → in_progress_count (set_at i q ps) + (if is_in_progress p.state then 1 else 0)
      ≡ in_progress_count ps + (if is_in_progress q.state then 1 else 0)
unfolding in_progress_count
count-set_at i p q [] e = ground arith
count-set_at zero p q (x ∷ ps) e = ground arith
count-set_at (suc i) p q (x ∷ ps) e = ground (arith, count-set_at i p q ps e)

count-unfreeze_siblings :
    (l r : Bytes) (ps : List CheckPair)
    → in_progress_count (unfreeze_siblings l r ps) ≡ in_progress_count ps
unfolding unfreeze_siblings
count-unfreeze_siblings l r ps = ground (arith, count-unfreeze_loop l r ps)

count-unfreeze_stuck :
    (ps : List CheckPair) → in_progress_count (unfreeze_stuck_pairs ps) ≡ in_progress_count ps
unfolding unfreeze_stuck_pairs
count-unfreeze_stuck ps = ground (arith, count-promote_stuck [] ps)

-- A pair that fails frees its place, and its siblings only wait.
count-fail :
    (i : ℕ) (p : CheckPair) (ps : List CheckPair)
    → get_elem? ps i ≡ some p
    → in_progress_count (
        unfreeze_siblings p.local.foundation p.remote.foundation
          (set_at i (record p { state = failed }) ps))
      ≤ in_progress_count ps
count-fail i p ps e =
    let q = record p { state = failed } in
    omega (
      arith,
      count-unfreeze_siblings p.local.foundation p.remote.foundation (set_at i q ps),
      count-set_at i p q ps e,
    )

pub count-send_check :
    (cfg : CheckConfig) (now i : ℕ) (ps : List CheckPair)
    → in_progress_count (send_check cfg now i ps) ≤ in_progress_count ps
unfolding send_check
count-send_check cfg now i ps = elim (Option-cases (get_elem? ps i)) [
  | inl e ↦ rw (send_check, e) (omega arith)
  | inr (p, e) ↦
      let q = record p { retries = (p.retries + 1) % 2 ^ 8; txn_send_us = now } in
      let fails = count-fail i p ps e in
      let kept : in_progress_count (set_at i q ps) ≤ in_progress_count ps =
        omega (arith, count-set_at i p q ps e) in
      elim (Bool-cases (leb cfg.max_check_retries p.retries)) [
        | inl spent ↦ rw (send_check, e, spent) fails
        | inr left ↦ rw (send_check, e, left) kept
      ]
]

count-retransmit_one :
    (cfg : CheckConfig) (now i : ℕ) (ps : List CheckPair)
    → in_progress_count (retransmit_one cfg now i ps) ≤ in_progress_count ps
unfolding retransmit_one
count-retransmit_one cfg now i ps = elim (Option-cases (get_elem? ps i)) [
  | inl e ↦ rw (retransmit_one, e) (omega arith)
  | inr (p, e) ↦
      let fails = count-fail i p ps e in
      let sends = count-send_check cfg now i ps in rw (retransmit_one, e) (ground arith)
]

count-retransmit :
    (cfg : CheckConfig) (now n i : ℕ) (ps : List CheckPair)
    → in_progress_count (retransmit cfg now n i ps) ≤ in_progress_count ps
unfolding retransmit
count-retransmit cfg now zero i ps = omega arith
count-retransmit cfg now (suc n) i ps = omega (
  arith,
  count-retransmit cfg now n (suc i) (retransmit_one cfg now i ps),
  count-retransmit_one cfg now i ps,
)

count-promote :
    (cfg : CheckConfig) (now n i : ℕ) (ps : List CheckPair)
    → in_progress_count ps ≤ 10
    → in_progress_count (promote cfg now n i ps) ≤ 10
unfolding promote
count-promote cfg now zero i ps h = h
count-promote cfg now (suc n) i ps h = elim (Option-cases (get_elem? ps i)) [
  | inl e ↦ rw (promote, e) h
  | inr (p, e) ↦
      let q = record p { state = in_progress } in
      let skip = count-promote cfg now n (suc i) ps h in
      let started = send_check cfg now i (set_at i q ps) in
      let bound : leb 10 (in_progress_count ps) ≡ false → in_progress_count started ≤ 10 = λ room.
        ground (arith, count-send_check cfg now i (set_at i q ps), count-set_at i p q ps e) in
      let sent = count-promote cfg now n (suc i) started in rw (promote, e) (ground arith)
]

-- A tick never has more than ten checks in flight if there were no more before it.
pub run_next_check-cap :
    (cfg : CheckConfig) (now : ℕ) (s : Checks)
    → in_progress_count s.pairs ≤ 10
    → in_progress_count (run_next_check cfg now s).0.pairs ≤ 10
unfolding run_next_check
run_next_check-cap cfg now s h =
    let n = length s.pairs in
    let walked = retransmit cfg now n 0 (unfreeze_stuck_pairs s.pairs) in
    let before : in_progress_count walked ≤ 10 = omega (
      arith,
      count-retransmit cfg now n 0 (unfreeze_stuck_pairs s.pairs),
      count-unfreeze_stuck s.pairs,
    ) in
    let behind = count-promote cfg now n 0 walked before in ground arith

settled_idle :
    (i : ℕ) (p : CheckPair) (ps : List CheckPair)
    → any_pending ps ≡ false
    → get_elem? ps i ≡ some p
    → is_waiting p.state ≡ false
unfolding any_pending
settled_idle i p [] h e = ground arith
settled_idle zero p (x ∷ ps) h e = ground arith
settled_idle (suc i) p (x ∷ ps) h e = settled_idle i p ps (ground arith) e

-- Where no pair waits, none is started.
promote_settled :
    (cfg : CheckConfig) (now n i : ℕ) (ps : List CheckPair)
    → any_pending ps ≡ false
    → promote cfg now n i ps ≡ ps
unfolding promote
promote_settled cfg now zero i ps h = refl
promote_settled cfg now (suc n) i ps h = elim (Option-cases (get_elem? ps i)) [
  | inl e ↦ rw (promote, e) refl
  | inr (p, e) ↦
      let idle = settled_idle i p ps h e in
      let skip = promote_settled cfg now n (suc i) ps h in rw (promote, e, idle) (ground arith)
]

-- The session gives up, or waits for the peer's nomination, only when every pair has succeeded or failed.
pub session_failed-settled :
    (cfg : CheckConfig) (now : ℕ) (s : Checks)
    → ((run_next_check cfg now s).1 ≡ Tick.session_failed)
      ⊎ ((run_next_check cfg now s).1 ≡ Tick.nomination_wait)
    → any_pending (run_next_check cfg now s).0.pairs ≡ false
unfolding run_next_check
session_failed-settled cfg now s h =
    let n = length s.pairs in
    let walked = retransmit cfg now n 0 (unfreeze_stuck_pairs s.pairs) in
    elim (Bool-cases (any_pending walked)) [
      | inl more ↦ absurd (ground arith)
      | inr none_left ↦ let same = promote_settled cfg now n 0 walked none_left in ground arith
    ]
