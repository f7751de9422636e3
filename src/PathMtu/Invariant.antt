-- ===== src/PathMtu/Invariant.antt =====
-- The invariant of the search, kept by the constructor and by both events.
use link_ice.Prelude.{
  ℕ, ◌≤◌, ◌<◌, ◌≡◌, ◌≢◌, refl, arith, if◌then◌else◌, List, [], ◌∷◌, length, get_or, ◌⊎◌, inl, inr,
}
use link_ice.PathMtu.{
  Probe, searching, search_complete, new_probe, on_probe_ack, on_probe_loss, initial, is_empty,
}
use link_ice.PathMtu.Ladder.{ℤ, prepare, prepare-Ascends, Ascends, Ascends-step}

-- Climbing: the probe under test is a rung of the ladder, and no size has failed yet.
abbrev pub Climbing : Probe → Type 0
Climbing p =
    (p.high ≡ 0) × (p.ladder_idx < length p.steps) × (p.current ≡ get_or p.steps p.ladder_idx 0)

-- Bisecting: the probe under test lies below a size that failed.
abbrev pub Bisecting : Probe → Type 0
Bisecting p = (p.high ≢ 0) × (p.current < p.high)

-- A search under way: fewer losses than the threshold, and a size above the confirmed one.
abbrev pub Underway : Probe → Type 0
Underway p =
    (p.state ≡ searching)
    × (p.loss_count < 2)
    × (p.effective < p.current)
    × (Climbing p ⊎ Bisecting p)

abbrev pub Finished : Probe → Type 0
Finished p = (p.state ≡ search_complete) × (p.current ≡ 0)

pub record IsValid (p : Probe) : Type 0 where
  pub grows : p.base ≤ p.effective
  pub ladder : Ascends p.base p.steps
  pub phase : Finished p ⊎ Underway p

new_probe-phase :
    (base : ℕ) (steps : List ℕ)
    → Ascends base steps
    → let p = initial base steps in
      IsValid (
        if is_empty steps
        then record p { state = search_complete }
        else record p { state = searching; current = get_or steps 0 0 })
new_probe-phase base [] h = record { grows = omega arith; ladder = h; phase = inl (refl, refl) }
new_probe-phase base (x ∷ xs) h = record {
  grows = omega arith;
  ladder = h;
  phase = inr (refl, omega arith, h.0, inl (refl, omega arith, refl));
}

-- Whatever ladder is configured, the constructor sets up a valid search.
pub new_probe-IsValid : (base : ℕ) (steps : List ℤ) → IsValid (new_probe base steps)
unfolding new_probe
new_probe-IsValid base steps =
    new_probe-phase base (prepare base steps) (prepare-Ascends base steps)

-- An acknowledgement keeps a valid search valid, in every state and on every branch.
pub on_probe_ack-IsValid : (p : Probe) → IsValid p → IsValid (on_probe_ack p)
unfolding on_probe_ack
on_probe_ack-IsValid p v =
    ground (arith, Ascends-step p.base p.steps p.ladder_idx v.ladder, v.phase)

-- A loss keeps a valid search valid, in every state and on every branch.
pub on_probe_loss-IsValid : (p : Probe) → IsValid p → IsValid (on_probe_loss p)
unfolding on_probe_loss
on_probe_loss-IsValid p v = ground (arith, v.phase)
