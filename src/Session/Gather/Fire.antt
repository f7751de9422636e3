-- ===== src/Session/Gather/Fire.antt =====
-- What the timers and the posted retries of gathering run (session.cpp).
use link_ice.Prelude.{ℕ, List, [], ◌∷◌, get_elem?, none, some}
use link_ice.Session.Gather.{
  GatherConfig, Around, Step, arm_gather, arm_fallback, arm_allocate, arm_backup, attempt_again,
  close_turn, close_probe, allocate_probe, allocate_turn, create_permission, Gatherer,
}
use link_ice.Session.Gather.Probes.{on_gather_timeout, on_fallback}
use link_ice.Session.Gather.Relays.{on_allocate_timeout, on_backup_timer, try_next_turn_attempt}

module _ (cfg : GatherConfig) (out : Around) where
  -- A timer or a posted retry comes; the other steps are over when they are made.
  unfoldable pub fire : Step → Gatherer → Gatherer
  fire (arm_gather gen) g = on_gather_timeout cfg out gen g
  fire (arm_fallback gen) g = on_fallback cfg out gen g
  fire (arm_allocate gen) g = on_allocate_timeout cfg out gen g
  fire (arm_backup gen) g = on_backup_timer cfg out gen g
  fire attempt_again g = try_next_turn_attempt cfg out g
  fire close_turn g = g
  fire close_probe g = g
  fire allocate_probe g = g
  fire (allocate_turn c) g = g
  fire (create_permission ip) g = g

  -- The step at a place of those that were made.
  unfoldable pub fire_at : ℕ → Gatherer → Gatherer
  fire_at i g = elim (get_elem? g.steps i) [ none ↦ g | some a ↦ fire a g ]

  unfoldable pub fire_all : List ℕ → Gatherer → Gatherer
  fire_all [] g = g
  fire_all (i ∷ is) g = fire_all is (fire_at i g)
