-- ===== src/Session/Tick.antt =====
-- `run_next_check` and `begin_checks` of session.cpp on a session, the end of the wait for a nomination,
-- and the rebuild of the check list that several handlers share.
use link_ice.Prelude.{ℕ, Bool, true, false, if◌then◌else◌, List, [], ◌∷◌, length}
use link_ice.Candidate.{Candidate}
use link_ice.CheckList.{CheckPair, Checks, Tick, next_tick, nomination_wait, session_failed}
use link_ice.CheckList
use link_ice.Session.{
  SessionState, new, gathering, waiting_remote, checking, connected, gave_up, IceConfig, Outside,
  Session, on_failed, emit,
}
use link_ice.Session.Pairing.{build_check_list}

abbrev pub is_checking : SessionState → Bool
is_checking new = false
is_checking gathering = false
is_checking waiting_remote = false
is_checking checking = true
is_checking connected = false
is_checking gave_up = false

abbrev pub is_connected : SessionState → Bool
is_connected new = false
is_connected gathering = false
is_connected waiting_remote = false
is_connected checking = false
is_connected connected = true
is_connected gave_up = false

abbrev pub is_none : List Candidate → Bool
is_none [] = true
is_none (c ∷ cs) = false

-- What the session declares when it gives up.
unfoldable pub give_up : Session → Session
give_up s = emit on_failed (record s { state = gave_up })

-- What a tick leaves of the session.
unfoldable pub after_tick : Session → Checks × Tick → Session
after_tick s (c, t) =
    let s' = record s { check_list = c.pairs; nomination_wait_armed = c.nomination_wait_armed } in
    elim t [ next_tick ↦ s' | nomination_wait ↦ s' | session_failed ↦ give_up s' ]

module _ (cfg : IceConfig) (out : Outside) where
  unfoldable pub checks_of : Session → Checks
  checks_of s = record {
    controlling = s.controlling;
    nomination_wait_armed = s.nomination_wait_armed;
    nomination_wait_ms = cfg.nomination_wait_ms;
    pairs = s.check_list;
  }

  unfoldable pub run_next_check : ℕ → Session → Session
  run_next_check now s =
      if is_checking s.state
      then after_tick s (CheckList.run_next_check cfg.checks now (checks_of s))
      else s

  -- The clock is read for the pairs that are fired and again for the tick.
  unfoldable pub begin_checks : Session → Session
  begin_checks s =
      let fired =
        CheckList.fire cfg.checks out.now (length s.check_list) 0 false false s.check_list in
      if cfg.lite_mode then s else run_next_check out.later (record s { check_list = fired })

  -- The rebuild under a new role or with new candidates.
  unfoldable pub rebuild : Session → Session
  rebuild s = run_next_check out.now (build_check_list cfg out s)

-- The timer of the wait for a nomination, if no other event came first.
unfoldable pub on_nomination_wait_expired : Session → Session
on_nomination_wait_expired s = if is_connected s.state then s else give_up s
