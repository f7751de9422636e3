-- ===== src/CheckList.antt =====
-- The check list of session.cpp and session.hpp: pair states and pacing. The clock is an
-- argument; what leaves through a carrier is not part of the state.
pub mod Frozen
pub mod Pacing
pub mod Begin
pub mod Static
mod Tests
use link_ice.Prelude.{
  ℕ, zero, suc, ◌+◌, ◌-◌, ◌*◌, ◌%◌, ◌^◌, min, Bool, true, false, ◌&&◌, ◌||◌, not, if◌then◌else◌,
  ltb, leb, ◌==◌, Option, none, some, List, [], ◌∷◌, ◌++◌, length, get_elem?, Bytes, bytes_eq,
}
use link_ice.Candidate.{AddressFamily, ipv4, ipv6, other_family, Candidate, TransportType}

pub data PairState : Type 0 where
  frozen waiting in_progress succeeded failed : PairState

abbrev pub check_concurrency_cap : ℕ
check_concurrency_cap = 10

pub record CheckPair : Type 0 where
  pub local : Candidate
  pub remote : Candidate
  pub priority : ℕ
  pub retries : ℕ
  pub nominated : Bool
  pub state : PairState
  pub valid : Bool
  pub nominee_check_sent : Bool
  pub triggered : Bool
  pub pending_nomination : Bool
  pub txn_id : Bytes
  pub txn_send_us : ℕ
  pub transport_type : TransportType

abbrev pub is_frozen : PairState → Bool
is_frozen frozen = true
is_frozen waiting = false
is_frozen in_progress = false
is_frozen succeeded = false
is_frozen failed = false

abbrev pub is_waiting : PairState → Bool
is_waiting frozen = false
is_waiting waiting = true
is_waiting in_progress = false
is_waiting succeeded = false
is_waiting failed = false

abbrev pub is_in_progress : PairState → Bool
is_in_progress frozen = false
is_in_progress waiting = false
is_in_progress in_progress = true
is_in_progress succeeded = false
is_in_progress failed = false

abbrev pub is_empty : Bytes → Bool
is_empty [] = true
is_empty (x ∷ xs) = false

-- `local.foundation + "|" + remote.foundation`
abbrev pub key : CheckPair → Bytes
key p = p.local.foundation ++ (124 ∷ p.remote.foundation)

abbrev pub contains : Bytes → List Bytes → Bool
contains k [] = false
contains k (x ∷ xs) = bytes_eq x k || contains k xs

-- The loop over the list, with the set of the keys seen so far.
unfoldable pub assign_states : List Bytes → List CheckPair → List CheckPair
assign_states seen [] = []
assign_states seen (p ∷ ps) =
    let again = assign_states seen ps in
    let first = assign_states (key p ∷ seen) ps in
    if contains (key p) seen
    then record p { state = frozen } ∷ again
    else record p { state = waiting } ∷ first

unfoldable pub assign_initial_pair_states : List CheckPair → List CheckPair
assign_initial_pair_states ps = assign_states [] ps

unfoldable pub in_progress_count : List CheckPair → ℕ
in_progress_count [] = 0
in_progress_count (p ∷ ps) = (if is_in_progress p.state then 1 else 0) + in_progress_count ps

abbrev pub shares : Bytes → Bytes → CheckPair → Bool
shares local_fnd remote_fnd p =
    bytes_eq p.local.foundation local_fnd && bytes_eq p.remote.foundation remote_fnd

unfoldable pub unfreeze_loop : Bytes → Bytes → List CheckPair → List CheckPair
unfreeze_loop local_fnd remote_fnd [] = []
unfreeze_loop local_fnd remote_fnd (p ∷ ps) =
    (if is_frozen p.state && shares local_fnd remote_fnd p then record p { state = waiting } else p)
    ∷ unfreeze_loop local_fnd remote_fnd ps

unfoldable pub unfreeze_siblings : Bytes → Bytes → List CheckPair → List CheckPair
unfreeze_siblings local_fnd remote_fnd ps =
    if is_empty local_fnd || is_empty remote_fnd then ps else unfreeze_loop local_fnd remote_fnd ps

unfoldable pub has_active : List CheckPair → Bool
has_active [] = false
has_active (p ∷ ps) = (is_waiting p.state || is_in_progress p.state) || has_active ps

unfoldable pub promote_stuck : List Bytes → List CheckPair → List CheckPair
promote_stuck promoted [] = []
promote_stuck promoted (p ∷ ps) =
    let on = promote_stuck promoted ps in
    let first = promote_stuck (key p ∷ promoted) ps in
    if not (is_frozen p.state)
    then p ∷ on
    else if contains (key p) promoted
    then p ∷ on
    else record p { state = waiting } ∷ first

unfoldable pub unfreeze_stuck_pairs : List CheckPair → List CheckPair
unfreeze_stuck_pairs ps = if has_active ps then ps else promote_stuck [] ps

abbrev pub set_at {ℓ} : {A : Type ℓ} → ℕ → A → List A → List A
set_at i a [] = []
set_at zero a (x ∷ xs) = a ∷ xs
set_at (suc i) a (x ∷ xs) = x ∷ set_at i a xs

-- `CheckConfig`: what `cfg_` holds of the checks, the number of retries already a byte and not zero.
pub record CheckConfig : Type 0 where
  pub check_interval_ms : ℕ
  pub max_check_retries : ℕ

abbrev pub base_rto_us : CheckConfig → ℕ
base_rto_us cfg = cfg.check_interval_ms * 5 * 1000 % 2 ^ 64

-- `now_us - sent < base << shift` on 64 bits.
abbrev pub within : ℕ → ℕ → ℕ → ℕ → Bool
within now sent base shift = ltb ((now + (2 ^ 64 - sent)) % 2 ^ 64) (base * 2 ^ shift % 2 ^ 64)

-- `send_check` on the pair at this place.
unfoldable pub send_check : CheckConfig → ℕ → ℕ → List CheckPair → List CheckPair
send_check cfg now i ps = elim (get_elem? ps i) [
  | none ↦ ps
  | some p ↦
      if leb cfg.max_check_retries p.retries
      then unfreeze_siblings p.local.foundation p.remote.foundation
          (set_at i (record p { state = failed }) ps)
      else set_at i (record p { retries = (p.retries + 1) % 2 ^ 8; txn_send_us = now }) ps
]

-- One iteration of the first pass of `run_next_check`.
unfoldable pub retransmit_one : CheckConfig → ℕ → ℕ → List CheckPair → List CheckPair
retransmit_one cfg now i ps = elim (get_elem? ps i) [
  | none ↦ ps
  | some p ↦
      if not (is_in_progress p.state)
      then ps
      else if leb cfg.max_check_retries p.retries
      then (if not (p.txn_send_us == 0)
            && within now p.txn_send_us (base_rto_us cfg) (cfg.max_check_retries - 1)
          then ps
          else unfreeze_siblings p.local.foundation p.remote.foundation
              (set_at i (record p { state = failed }) ps))
      else if not (p.txn_send_us == 0)
          && within now p.txn_send_us (base_rto_us cfg) (min p.retries 5)
      then ps
      else send_check cfg now i ps
]

-- `n` pairs from the place `i` on.
unfoldable pub retransmit : CheckConfig → ℕ → ℕ → ℕ → List CheckPair → List CheckPair
retransmit cfg now zero i ps = ps
retransmit cfg now (suc n) i ps = retransmit cfg now n (suc i) (retransmit_one cfg now i ps)

-- The second pass: Waiting pairs up to the cap.
unfoldable pub promote : CheckConfig → ℕ → ℕ → ℕ → List CheckPair → List CheckPair
promote cfg now zero i ps = ps
promote cfg now (suc n) i ps = elim (get_elem? ps i) [
  | none ↦ ps
  | some p ↦
      let skip = promote cfg now n (suc i) ps in
      let sent =
        promote cfg now n (suc i)
          (send_check cfg now i (set_at i (record p { state = in_progress }) ps)) in
      if leb check_concurrency_cap (in_progress_count ps)
      then ps
      else if is_waiting p.state && ltb p.retries cfg.max_check_retries
      then sent
      else skip
]

unfoldable pub any_pending : List CheckPair → Bool
any_pending [] = false
any_pending (p ∷ ps) =
    (is_frozen p.state || (is_waiting p.state || is_in_progress p.state)) || any_pending ps

unfoldable pub any_valid : List CheckPair → Bool
any_valid [] = false
any_valid (p ∷ ps) = p.valid || any_valid ps

-- What a tick of a session in Checking ends in: the timer of the next tick, the one-shot wait for a
-- nomination, or the failure of the session.
pub data Tick : Type 0 where
  next_tick nomination_wait session_failed : Tick

-- The state of the session that `run_next_check` reads and writes in Checking.
pub record Checks : Type 0 where
  pub controlling : Bool
  pub nomination_wait_armed : Bool
  pub nomination_wait_ms : ℕ
  pub pairs : List CheckPair

unfoldable pub run_next_check : CheckConfig → ℕ → Checks → Checks × Tick
run_next_check cfg now s =
    let n = length s.pairs in
    let walked = retransmit cfg now n 0 (unfreeze_stuck_pairs s.pairs) in
    let promoted = promote cfg now n 0 walked in
    let s' = record s { pairs = promoted } in
    if any_pending walked
    then (s', next_tick)
    else if (not s.controlling && not s.nomination_wait_armed)
        && (ltb 0 s.nomination_wait_ms && any_valid promoted)
    then (record s' { nomination_wait_armed = true }, nomination_wait)
    else (s', session_failed)

abbrev pub is_ipv4 : AddressFamily → Bool
is_ipv4 ipv4 = true
is_ipv4 ipv6 = false
is_ipv4 (other_family n) = false

abbrev pub is_ipv6 : AddressFamily → Bool
is_ipv6 ipv4 = false
is_ipv6 ipv6 = true
is_ipv6 (other_family n) = false

-- The loop of `begin_checks` over `n` pairs from the place `i` on, and which families it has fired.
unfoldable pub fire : CheckConfig → ℕ → ℕ → ℕ → Bool → Bool → List CheckPair → List CheckPair
fire cfg now zero i fired_v4 fired_v6 ps = ps
fire cfg now (suc n) i fired_v4 fired_v6 ps = elim (get_elem? ps i) [
  | none ↦ ps
  | some p ↦
      let skip = fire cfg now n (suc i) fired_v4 fired_v6 ps in
      let sent = send_check cfg now i (set_at i (record p { state = in_progress }) ps) in
      let v4 = fire cfg now n (suc i) true fired_v6 sent in
      let v6 = fire cfg now n (suc i) fired_v4 true sent in
      if fired_v4 && fired_v6
      then ps
      else if not (is_waiting p.state)
      then skip
      else if is_ipv4 p.local.family && not fired_v4
      then v4
      else if is_ipv6 p.local.family && not fired_v6
      then v6
      else skip
]

-- `begin_checks` of a session in Checking; a lite agent starts nothing. The clock is read for the pairs
-- that are fired and again for the tick.
unfoldable pub begin_checks : Bool → CheckConfig → ℕ → ℕ → Checks → Checks × Option Tick
begin_checks lite_mode cfg now later s =
    let fired = fire cfg now (length s.pairs) 0 false false s.pairs in
    let (s', tick) = run_next_check cfg later (record s { pairs = fired }) in
    if lite_mode then (s, none) else (s', some tick)
