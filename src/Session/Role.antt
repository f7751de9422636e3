-- ===== src/Session/Role.antt =====
-- Role conflicts (session.cpp): `handle_role_conflict` on an inbound check, and the 487 response to a
-- check of one's own.
use link_ice.Prelude.{
  ℕ, ◌≡◌, ◌≢◌, refl, arith, ◌&&◌, not, Bool, true, false, if◌then◌else◌, leb, Bool-cases, inl, inr,
}
use link_ice.Session.{IceConfig, Outside, Session}
use link_ice.Session.Pairing.{build_check_list}
use link_ice.Session.Tick.{
  is_checking, is_none, give_up, after_tick, checks_of, run_next_check, rebuild,
}
use link_ice.CheckList
use link_ice.CheckList.{Checks, Tick, next_tick, nomination_wait, session_failed}

abbrev pub same : Bool → Bool → Bool
same true b = b
same false b = not b

module _ (cfg : IceConfig) (out : Outside) where
  -- The switch, with the rebuild while the session checks.
  unfoldable pub switch_role : Session → Session
  switch_role s =
      let t = record s { controlling = not s.controlling } in
      if is_checking s.state
        && (not (is_none s.local_candidates) && not (is_none s.remote_candidates))
      then rebuild cfg out t
      else t

  -- Whether this side switched.
  unfoldable pub handle_role_conflict : Bool → ℕ → Session → Session × Bool
  handle_role_conflict sender_controlling sender_tiebreaker s =
      if not (same sender_controlling s.controlling)
      then (s, false)
      else if leb sender_tiebreaker s.tiebreaker
      then (s, false)
      else (switch_role s, true)

-- A tick and a rebuild keep the role and the tie-breaker.
after_tick-controlling :
    (s : Session) (c : Checks) (t : Tick) → (after_tick s (c, t)).controlling ≡ s.controlling
unfolding after_tick give_up
after_tick-controlling s c next_tick = refl
after_tick-controlling s c nomination_wait = refl
after_tick-controlling s c session_failed = refl

module _ (cfg : IceConfig) (out : Outside) where
  pub run_next_check-controlling :
      (now : ℕ) (s : Session) → (run_next_check cfg out now s).controlling ≡ s.controlling
  unfolding run_next_check
  run_next_check-controlling now s =
      let (c, t) = CheckList.run_next_check cfg.checks now (checks_of cfg out s) in
      let kept = after_tick-controlling s c t in
      elim (Bool-cases (is_checking s.state)) [ inl y ↦ rw y kept | inr n ↦ rw n refl ]

  pub switch_role-controlling :
      (s : Session) → (switch_role cfg out s).controlling ≡ not s.controlling
  unfolding switch_role rebuild build_check_list
  switch_role-controlling s =
      let t = record s { controlling = not s.controlling } in
      let kept = run_next_check-controlling out.now (build_check_list cfg out t) in ground arith

  -- Two agents claim one role and each receives the other's check. If their tie-breakers differ, exactly one
  -- of them switches, and the roles behind it are opposite, whatever the state of either side.
  pub role_conflict_resolved :
      (a b : Session)
      → a.controlling ≡ b.controlling
      → a.tiebreaker ≢ b.tiebreaker
      → ((handle_role_conflict cfg out b.controlling b.tiebreaker a).1
          ≡ not (handle_role_conflict cfg out a.controlling a.tiebreaker b).1)
        × ((handle_role_conflict cfg out b.controlling b.tiebreaker a).0.controlling
            ≡ not (handle_role_conflict cfg out a.controlling a.tiebreaker b).0.controlling)
  unfolding handle_role_conflict
  role_conflict_resolved a b e d =
      let sa = switch_role-controlling a in let sb = switch_role-controlling b in ground arith
