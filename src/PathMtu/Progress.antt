-- ===== src/PathMtu/Progress.antt =====
-- The search ends: every event lowers a measure.
use link_ice.Prelude.{
  ℕ, ◌+◌, ◌-◌, ◌*◌, ◌≤◌, ◌<◌, ◌≡◌, refl, arith, if◌then◌else◌, ◌==◌, List, [], ◌∷◌, length, inl,
  inr, All,
}
use link_ice.PathMtu.{
  Probe, searching, search_complete, is_complete_state, new_probe, on_probe_ack, on_probe_loss,
}
use link_ice.PathMtu.Ladder.{ℤ, prepare, All-get_or}
use link_ice.PathMtu.Invariant.{
  IsValid, new_probe-IsValid, on_probe_ack-IsValid, on_probe_loss-IsValid,
}

-- An acknowledgement or a loss of the probe under test.
pub data Event : Type 0 where
  ack loss : Event

unfoldable pub handle : Event → Probe → Probe
handle ack p = on_probe_ack p
handle loss p = on_probe_loss p

unfoldable pub run : List Event → Probe → Probe
run [] p = p
run (e ∷ es) p = run es (handle e p)

-- `top` bounds the ladder. Two losses may be spent at each size; a bisected window shrinks with every
-- decision, and a climb has rungs left besides.
pub measure : ℕ → Probe → ℕ
measure top p =
    if is_complete_state p.state
    then 0
    else if p.high == 0
    then 2 * top + 2 * (length p.steps - p.ladder_idx) + 2 - p.loss_count
    else 2 * (p.high - p.effective) + 2 - p.loss_count

-- What the measure needs: a valid search over a ladder of bounded rungs.
pub record IsBounded (top : ℕ) (p : Probe) : Type 0 where
  pub valid : IsValid p
  pub rungs : All (λ x. x ≤ top) p.steps

ack-falls :
    (top : ℕ) (p : Probe)
    → IsBounded top p
    → p.state ≡ searching
    → measure top (on_probe_ack p) < measure top p
unfolding measure on_probe_ack
ack-falls top p b s = ground (arith, b.valid.phase)

loss-falls :
    (top : ℕ) (p : Probe)
    → IsBounded top p
    → p.state ≡ searching
    → measure top (on_probe_loss p) < measure top p
unfolding measure on_probe_loss
loss-falls top p b s = ground (arith, b.valid.phase, All-get_or top p.steps p.ladder_idx b.rungs)

pub steps-handle : (e : Event) (p : Probe) → (handle e p).steps ≡ p.steps
unfolding handle on_probe_ack on_probe_loss
steps-handle ack p = ground arith
steps-handle loss p = ground arith

pub handle-IsBounded :
    (top : ℕ) (e : Event) (p : Probe) → IsBounded top p → IsBounded top (handle e p)
unfolding handle
handle-IsBounded top ack p b = record {
  valid = on_probe_ack-IsValid p b.valid;
  rungs = rw (steps-handle ack p) (b.rungs);
}
handle-IsBounded top loss p b = record {
  valid = on_probe_loss-IsValid p b.valid;
  rungs = rw (steps-handle loss p) (b.rungs);
}

pub complete_stays : (e : Event) (p : Probe) → p.state ≡ search_complete → handle e p ≡ p
unfolding handle on_probe_ack on_probe_loss
complete_stays ack p h = ground arith
complete_stays loss p h = ground arith

run_complete : (es : List Event) (p : Probe) → p.state ≡ search_complete → run es p ≡ p
unfolding run
run_complete [] p h = refl
run_complete (e ∷ es) p h = rw (complete_stays e p h) (run_complete es p h)

pub handle-falls :
    (top : ℕ) (e : Event) (p : Probe)
    → IsBounded top p
    → p.state ≡ searching
    → measure top (handle e p) < measure top p
unfolding handle
handle-falls top ack p b s = ack-falls top p b s
handle-falls top loss p b s = loss-falls top p b s

pub measure_pos :
    (top : ℕ) (p : Probe) → IsBounded top p → measure top p ≡ 0 → p.state ≡ search_complete
unfolding measure
measure_pos top p b h = ground (arith, b.valid.phase)

-- From any valid search with rungs of at most `top` bytes, whatever is acknowledged and whatever is lost, as many events as the measure
-- says complete it.
pub run-completes :
    (top : ℕ) (es : List Event) (p : Probe)
    → IsBounded top p
    → measure top p ≤ length es
    → (run es p).state ≡ search_complete
unfolding run
run-completes top [] p b h = measure_pos top p b (omega arith)
run-completes top (e ∷ es) p b h = elim b.valid.phase [
  | inl done ↦ rw (run_complete (e ∷ es) p done.0) (done.0)
  | inr going ↦
      run-completes top es (handle e p) (handle-IsBounded top e p b)
        (omega (arith, handle-falls top e p b going.0))
]

pub measure-new_probe :
    (top base : ℕ) (steps : List ℤ)
    → measure top (new_probe base steps) ≤ 2 * top + 2 * length (prepare base steps) + 2
unfolding measure new_probe
measure-new_probe top base steps = ground arith

pub steps-new_probe :
    (base : ℕ) (steps : List ℤ) → (new_probe base steps).steps ≡ prepare base steps
unfolding new_probe
steps-new_probe base steps = ground arith

-- Whatever ladder is configured, a search over rungs of at most `top` bytes is complete after
-- 2 * top + 2 * (number of rungs) + 2 events, whichever probes are acknowledged.
pub search_terminates :
    (top base : ℕ) (steps : List ℤ) (es : List Event)
    → All (λ x. x ≤ top) (prepare base steps)
    → 2 * top + 2 * length (prepare base steps) + 2 ≤ length es
    → (run es (new_probe base steps)).state ≡ search_complete
search_terminates top base steps es rungs enough =
    run-completes top es (new_probe base steps)
      (record {
        valid = new_probe-IsValid base steps;
        rungs = rw (steps-new_probe base steps) rungs;
      })
      (omega (arith, measure-new_probe top base steps))

run-IsValid : (es : List Event) (p : Probe) → IsValid p → IsValid (run es p)
unfolding run handle
run-IsValid [] p v = v
run-IsValid (ack ∷ es) p v = run-IsValid es (on_probe_ack p) (on_probe_ack-IsValid p v)
run-IsValid (loss ∷ es) p v = run-IsValid es (on_probe_loss p) (on_probe_loss-IsValid p v)

-- Every state that the search reaches is valid: from the constructor, whatever the configured ladder, through
-- any sequence of acknowledgements and losses.
pub search-IsValid :
    (base : ℕ) (steps : List ℤ) (es : List Event) → IsValid (run es (new_probe base steps))
search-IsValid base steps es = run-IsValid es (new_probe base steps) (new_probe-IsValid base steps)
