-- ===== src/CheckList/Begin.antt =====
-- The start of the checks (begin_checks of session.cpp).
use link_ice.Prelude.{
  ℕ, zero, suc, ◌+◌, ◌≤◌, arith, Bool, true, false, if◌then◌else◌, List, length, get_elem?,
  Option-cases, inl, inr,
}
use link_ice.CheckList.{
  CheckPair, CheckConfig, Checks, in_progress, in_progress_count, set_at, send_check, fire,
  begin_checks,
}
use link_ice.CheckList.Pacing.{count-set_at, count-send_check, run_next_check-cap}

-- The families that are left to fire.
abbrev left_to_fire : Bool → ℕ
left_to_fire fired = if fired then 0 else 1

count-fire :
    (cfg : CheckConfig) (now n i : ℕ) (v4 v6 : Bool) (ps : List CheckPair)
    → in_progress_count (fire cfg now n i v4 v6 ps)
      ≤ in_progress_count ps + (left_to_fire v4 + left_to_fire v6)
unfolding fire
count-fire cfg now zero i v4 v6 ps = omega arith
count-fire cfg now (suc n) i v4 v6 ps = elim (Option-cases (get_elem? ps i)) [
  | inl e ↦ rw (fire, e) (omega arith)
  | inr (p, e) ↦
      let q = record p { state = in_progress } in
      let sent = send_check cfg now i (set_at i q ps) in
      let one : in_progress_count sent ≤ in_progress_count ps + 1 =
        ground (arith, count-send_check cfg now i (set_at i q ps), count-set_at i p q ps e) in
      let skip = count-fire cfg now n (suc i) v4 v6 ps in
      let four = count-fire cfg now n (suc i) true v6 sent in
      let six = count-fire cfg now n (suc i) v4 true sent in rw (fire, e) (ground arith)
]

-- The start of the checks, one pair of each address family and then a tick, leaves at most ten checks in
-- flight if there were at most eight before it.
pub begin_checks-cap :
    (lite_mode : Bool) (cfg : CheckConfig) (now later : ℕ) (s : Checks)
    → in_progress_count s.pairs ≤ 8
    → in_progress_count (begin_checks lite_mode cfg now later s).0.pairs ≤ 10
unfolding begin_checks
begin_checks-cap true cfg now later s h = omega (arith, h)
begin_checks-cap false cfg now later s h =
    let fired = fire cfg now (length s.pairs) 0 false false s.pairs in
    run_next_check-cap cfg later (record s { pairs = fired })
      (omega (arith, h, count-fire cfg now (length s.pairs) 0 false false s.pairs))
