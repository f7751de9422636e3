-- ===== src/CheckList/Tests.antt =====
-- Runs of the check list on two pairs of one foundation tuple.
use link_ice.Prelude.{◌≤◌, arith, List, [], ◌∷◌, true, false, replicate}
use link_ice.Candidate.{Candidate, host, ipv4, udp}
use link_ice.CheckList.{
  CheckPair, PairState, CheckConfig, Checks, frozen, in_progress, in_progress_count, run_next_check,
}
use link_ice.CheckList.Pacing.{run_next_check-cap}

abbrev some_candidate : Candidate
some_candidate = record {
  type = host;
  family = ipv4;
  port = 1000;
  priority = 5;
  addr = replicate 16 0;
  hostname = [];
  transport = udp;
  foundation = 102 ∷ [];
}

abbrev pair_in : PairState → CheckPair
pair_in s = record {
  local = some_candidate;
  remote = some_candidate;
  priority = 7;
  retries = 0;
  nominated = false;
  state = s;
  valid = false;
  nominee_check_sent = false;
  triggered = false;
  pending_nomination = false;
  txn_id = replicate 12 1;
  txn_send_us = 0;
  transport_type = udp;
}

abbrev settings : CheckConfig
settings = record { check_interval_ms = 50; max_check_retries = 4 }

abbrev checks_of : List CheckPair → Checks
checks_of ps = record {
  controlling = true;
  nomination_wait_armed = false;
  nomination_wait_ms = 500;
  pairs = ps;
}

abbrev two_frozen : List CheckPair
two_frozen = pair_in frozen ∷ pair_in frozen ∷ []

run_next_check-cap_example :
    in_progress_count
      (run_next_check settings 9 (checks_of (pair_in in_progress ∷ two_frozen))).0.pairs
    ≤ 10
unfolding in_progress_count
run_next_check-cap_example =
    run_next_check-cap settings 9 (checks_of (pair_in in_progress ∷ two_frozen)) (omega arith)
