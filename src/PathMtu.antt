-- ===== src/PathMtu.antt =====
-- path_mtu.hpp and path_mtu.cpp: the search for the path MTU. The owning session sends the probes and
-- reports for each an acknowledgement or a loss. Sizes are far below 2 ^ 64, so they do not wrap.
pub mod Ladder
pub mod Invariant
pub mod Progress
pub mod Accuracy
mod Tests
use link_ice.Prelude.{
  ℕ, zero, suc, ◌+◌, ◌-◌, ◌/◌, Bool, true, false, ◌&&◌, if◌then◌else◌, ltb, leb, ◌==◌, Option, none,
  some, List, [], ◌∷◌, length, get_or,
}
use Ladder.{ℤ, prepare}

pub data PathMtuState : Type 0 where
  base_state searching search_complete error : PathMtuState

abbrev pub probe_granularity : ℕ
probe_granularity = 8

abbrev pub probe_loss_threshold : ℕ
probe_loss_threshold = 2

-- `steps` holds what the constructor keeps of the ladder: positive numbers.
pub record Probe : Type 0 where
  pub base : ℕ
  pub steps : List ℕ
  pub ladder_idx : ℕ
  pub low : ℕ
  pub high : ℕ
  pub current : ℕ
  pub effective : ℕ
  pub loss_count : ℕ
  pub state : PathMtuState

abbrev pub is_empty {ℓ} : {A : Type ℓ} → List A → Bool
is_empty [] = true
is_empty (x ∷ xs) = false

abbrev pub initial : ℕ → List ℕ → Probe
initial base steps = record {
  base = base;
  steps = steps;
  ladder_idx = 0;
  low = 0;
  high = 0;
  current = 0;
  effective = base;
  loss_count = 0;
  state = base_state;
}

-- The constructor.
unfoldable pub new_probe : ℕ → List ℤ → Probe
new_probe base steps =
    let p = initial base (prepare base steps) in
    if is_empty p.steps
    then record p { state = search_complete }
    else record p { state = searching; current = get_or p.steps 0 0 }

abbrev pub is_complete_state : PathMtuState → Bool
is_complete_state search_complete = true
is_complete_state base_state = false
is_complete_state searching = false
is_complete_state error = false

unfoldable pub is_complete : Probe → Bool
is_complete p = is_complete_state p.state

unfoldable pub next_probe_size : Probe → Option ℕ
next_probe_size p =
    if is_complete_state p.state then none else if p.current == 0 then none else some p.current

abbrev pub finish : Probe → Probe
finish p = record p { state = search_complete; current = 0 }

-- `current_ = (low_ + high_) / 2`, or the end of the search in a narrow window.
abbrev pub bisect : Probe → Probe
bisect p =
    if leb (p.high - p.low) probe_granularity
    then finish p
    else record p { current = (p.low + p.high) / 2; state = searching }

unfoldable pub on_probe_ack : Probe → Probe
on_probe_ack p =
    let q = record p { effective = p.current; loss_count = 0 } in
    if is_complete_state p.state
    then p
    else if p.high == 0
    then if leb (length p.steps) (p.ladder_idx + 1) then finish q else record q {
      ladder_idx = p.ladder_idx + 1;
      current = get_or p.steps (p.ladder_idx + 1) 0;
      state = searching;
    }
    else bisect (record q { low = p.current })

unfoldable pub on_probe_loss : Probe → Probe
on_probe_loss p =
    if is_complete_state p.state
    then p
    else if ltb (p.loss_count + 1) probe_loss_threshold
    then record p { loss_count = p.loss_count + 1 }
    else bisect (record p { loss_count = 0; state = error; high = p.current; low = p.effective })
