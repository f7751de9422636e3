-- ===== src/Session/Gather/Failover.antt =====
-- The failover to a backup TURN server (session.cpp and turn.hpp).
use link_ice.Prelude.{
  ◌≡◌, refl, subst, arith, ◌||◌, not, true, List, some, Option-cases, inl, inr, Outcome, value,
  Returns,
}
use link_ice.Turn.Client
use link_ice.Turn.Client.{TurnConfig, TurnClient, is_healthy}
use link_ice.Turn.Health.{IsHealthy}
use link_ice.Turn.Health.Inbound.{Event, run, run-IsHealthy}
use link_ice.Session.Gather.{GatherConfig, Around, Relay, Gatherer}
use link_ice.Session.Gather.Relays.{close_backup, interval_ok, primary_healthy, on_backup_alloc}

-- The primary and the session are as before.
abbrev pub Stays : Gatherer → Gatherer → Type 0
Stays g h =
    (h.turn ≡ g.turn) × (h.session ≡ g.session) × (h.turn_last_failover ≡ g.turn_last_failover)

module _ (cfg : GatherConfig) (out : Around) where
  close_backup-Stays : (g : Gatherer) → Stays g (close_backup cfg out g)
  unfolding close_backup
  close_backup-Stays g = elim (Option-cases g.turn_backup_probe) [
    | inl e ↦ simp (close_backup, e) (refl, refl, refl)
    | inr (r, e) ↦ simp (close_backup, e) (refl, refl, refl)
  ]

  -- A backup whose allocation succeeds takes the place of the primary only if that is not healthy and the
  -- interval since the last failover is over.
  pub on_backup_alloc-Stays :
      (g : Gatherer)
      → (primary_healthy cfg out g || not (interval_ok cfg out g)) ≡ true
      → Stays g (on_backup_alloc cfg out g)
  unfolding on_backup_alloc
  on_backup_alloc-Stays g bars = elim (Option-cases g.turn_backup_probe) [
    | inl e ↦ simp (on_backup_alloc, e) (refl, refl, refl)
    | inr (r, e) ↦ simp (on_backup_alloc, e, bars) (close_backup-Stays g)
  ]

  healthy-Stays :
      (r : Relay) (t : TurnClient) (g : Gatherer)
      → is_healthy t ≡ true
      → g.turn ≡ some r
      → r.allocated ≡ t.allocated
      → r.healthy ≡ t.refresh_healthy
      → Stays g (on_backup_alloc cfg out g)
  unfolding is_healthy primary_healthy
  healthy-Stays r t g h e a b =
      let same : primary_healthy cfg out g ≡ true = simp (primary_healthy, e) (ground arith) in
      on_backup_alloc-Stays g (ground arith)

  -- No failover ever happens while the primary is open: after any run of a client that was allocated, whatever
  -- its server sends or leaves unanswered, a backup whose allocation succeeds is closed again, and the primary
  -- and the session stay as they are. (run-IsHealthy has that every such run comes to an end.)
  pub failover_never_happens :
      (turn_cfg : TurnConfig) (turn_out : Client.Outside) (es : List Event) (t u : TurnClient)
      (r : Relay) (g : Gatherer)
      → IsHealthy t
      → run turn_cfg turn_out es t ≡ value u
      → g.turn ≡ some r
      → r.allocated ≡ u.allocated
      → r.healthy ≡ u.refresh_healthy
      → Stays g (on_backup_alloc cfg out g)
  unfolding IsHealthy
  failover_never_happens turn_cfg turn_out es t u r g h ends e a b =
      let k : Returns (value u) IsHealthy =
        subst (λ (m : Outcome TurnClient). Returns m IsHealthy) ends
          (run-IsHealthy turn_cfg turn_out es t h) in
      healthy-Stays r u g k e a b
