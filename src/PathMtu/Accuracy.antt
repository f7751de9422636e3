-- ===== src/PathMtu/Accuracy.antt =====
-- The search against a path whose MTU is fixed: every probe up to it arrives, every larger one is lost.
use link_ice.Prelude.{
  ℕ, zero, suc, ◌+◌, ◌*◌, ◌≤◌, ◌<◌, ◌≡◌, refl, arith, ◌∙◌, if◌then◌else◌, leb, List, [], length,
  get_or, ◌⊎◌, inl, inr, All, subst, Bool-cases,
}
use link_ice.PathMtu.{Probe, searching, search_complete, new_probe, on_probe_ack, on_probe_loss}
use link_ice.PathMtu.Ladder.{ℤ, prepare, Ascends-le_all}
use link_ice.PathMtu.Invariant.{IsValid, new_probe-IsValid}
use link_ice.PathMtu.Progress.{
  Event, ack, loss, handle, measure, IsBounded, handle-IsBounded, handle-falls, steps-handle,
  complete_stays, measure-new_probe, steps-new_probe, measure_pos,
}

-- The path's answer to the probe under test.
unfoldable pub verdict : ℕ → Probe → Event
verdict mtu p = if leb p.current mtu then ack else loss

unfoldable pub drive : ℕ → ℕ → Probe → Probe
drive mtu zero p = p
drive mtu (suc n) p = drive mtu n (handle (verdict mtu p) p)

-- The last rung of the ladder is confirmed, or there is none.
abbrev Exhausted : Probe → Type 0
Exhausted p =
    (p.steps ≡ [])
    ⊎ ((length p.steps ≡ suc p.ladder_idx) × (p.effective ≡ get_or p.steps p.ladder_idx 0))

-- The confirmed size arrives, the failed one does not, and a search that has ended is within eight
-- bytes of the path's MTU or has confirmed the whole ladder.
pub record Tracks (mtu : ℕ) (p : Probe) : Type 0 where
  pub arrives : p.effective ≤ mtu
  pub fails : (p.high ≡ 0) ⊎ (mtu < p.high)
  pub close : (p.state ≡ searching) ⊎ (mtu < p.effective + 8) ⊎ Exhausted p

new_probe-Tracks : (mtu base : ℕ) (steps : List ℤ) → base ≤ mtu → Tracks mtu (new_probe base steps)
unfolding new_probe
new_probe-Tracks mtu base steps h = ground arith

module _ (mtu : ℕ) (p : Probe) (v : IsValid p) (s : p.state ≡ searching) (t : Tracks mtu p) where
  ack-Tracks : p.current ≤ mtu → Tracks mtu (on_probe_ack p)
  unfolding on_probe_ack
  ack-Tracks h = ground (arith, v.phase, t.fails)

  loss-Tracks : mtu < p.current → Tracks mtu (on_probe_loss p)
  unfolding on_probe_loss
  loss-Tracks h = ground (arith, v.phase, t.fails, t.arrives)

  handle-Tracks : Tracks mtu (handle (verdict mtu p) p)
  unfolding handle verdict
  handle-Tracks = elim (Bool-cases (leb p.current mtu)) [
    | inl small ↦ rw small (ack-Tracks (ground arith))
    | inr large ↦ rw large (loss-Tracks (ground arith))
  ]

verdict_stays : (mtu n : ℕ) (p : Probe) → p.state ≡ search_complete → drive mtu n p ≡ p
unfolding drive
verdict_stays mtu zero p h = refl
verdict_stays mtu (suc n) p h = rw (complete_stays (verdict mtu p) p h) (verdict_stays mtu n p h)

steps-drive : (mtu n : ℕ) (p : Probe) → (drive mtu n p).steps ≡ p.steps
unfolding drive
steps-drive mtu zero p = refl
steps-drive mtu (suc n) p =
    steps-drive mtu n (handle (verdict mtu p) p) ∙ steps-handle (verdict mtu p) p

drive-ends :
    (mtu top n : ℕ) (p : Probe)
    → IsBounded top p
    → Tracks mtu p
    → measure top p ≤ n
    → IsBounded top (drive mtu n p)
      × Tracks mtu (drive mtu n p)
      × ((drive mtu n p).state ≡ search_complete)
unfolding drive
drive-ends mtu top zero p b t h = (b, t, measure_pos top p b (omega arith))
drive-ends mtu top (suc n) p b t h = elim b.valid.phase [
  | inl done ↦ rw (verdict_stays mtu (suc n) p done.0) (b, t, done.0)
  | inr going ↦
      drive-ends mtu top n (handle (verdict mtu p) p) (handle-IsBounded top (verdict mtu p) p b)
        (handle-Tracks mtu p b.valid going.0 t)
        (omega (arith, handle-falls top (verdict mtu p) p b going.0))
]

Exhausted-All : (p : Probe) → IsValid p → Exhausted p → All (λ x. x ≤ p.effective) p.steps
Exhausted-All p v (inl none_left) = rw none_left tt
Exhausted-All p v (inr (last, e)) = rw e (Ascends-le_all p.base p.steps p.ladder_idx v.ladder last)

-- On a path that carries exactly the probes of at most `mtu` bytes, the base included, the search over
-- any ladder with rungs of at most `top` bytes ends within 2 * top + 2 * (number of rungs) + 2 probes;
-- the size it settles on is carried, and it is less than eight bytes below the MTU or no smaller than
-- any rung.
pub search_finds_mtu :
    (mtu top base n : ℕ) (steps : List ℤ)
    → base ≤ mtu
    → All (λ x. x ≤ top) (prepare base steps)
    → 2 * top + 2 * length (prepare base steps) + 2 ≤ n
    → let p = drive mtu n (new_probe base steps) in
      (p.state ≡ search_complete)
      × (p.effective ≤ mtu)
      × ((mtu < p.effective + 8) ⊎ All (λ x. x ≤ p.effective) (prepare base steps))
search_finds_mtu mtu top base n steps h rungs enough = (done, ended.1.arrives, settle ended.1.close)
  where
    last : Probe
    last = drive mtu n (new_probe base steps)

    ended : IsBounded top last × Tracks mtu last × (last.state ≡ search_complete)
    ended =
        drive-ends mtu top n (new_probe base steps)
          (record {
            valid = new_probe-IsValid base steps;
            rungs = rw (steps-new_probe base steps) rungs;
          })
          (new_probe-Tracks mtu base steps h) (omega (arith, measure-new_probe top base steps))

    done : last.state ≡ search_complete
    done = ended.2

    ladder : last.steps ≡ prepare base steps
    ladder = steps-drive mtu n (new_probe base steps) ∙ steps-new_probe base steps

    settle :
        ((last.state ≡ searching) ⊎ (mtu < last.effective + 8) ⊎ Exhausted last)
        → (mtu < last.effective + 8) ⊎ All (λ x. x ≤ last.effective) (prepare base steps)
    settle (inl going) = absurd (cc (done))
    settle (inr (inl near)) = inl near
    settle (inr (inr all)) =
        inr (subst (All (λ x. x ≤ last.effective)) ladder (Exhausted-All last ended.0.valid all))
