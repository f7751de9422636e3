-- ===== src/Session/Samples.antt =====
-- A small pair of candidates, and a session with its surroundings, for runs.
use link_ice.Prelude.{
  ℕ, ◌+◌, ◌≤◌, ◌≡◌, refl, arith, Bool, true, false, if◌then◌else◌, ltb, List, [], ◌∷◌, none, some,
  replicate, All, Bool-cases, inl, inr,
}
use link_ice.Candidate.{Candidate, host, ipv4, udp}
use link_ice.CheckList.{CheckPair, succeeded}
use link_ice.CheckList.Static.{count}
use link_ice.Reorder.{start}
use link_ice.Stun.Address.{Inet}
use link_ice.Session.{checking, IceConfig, Outside, EndpointInfo, Session}
use link_ice.Session.Pairing.{new_pair}
use link_ice.Session.Built.{Descends, SortLaws}
use link_ice.Session.Consent.{no_nomination}

-- Insertion by descending priority.
insert : CheckPair → List CheckPair → List CheckPair
insert p [] = p ∷ []
insert p (x ∷ xs) =
    let later = insert p xs in if ltb p.priority x.priority then x ∷ later else p ∷ x ∷ xs

pub insertion_sort : List CheckPair → List CheckPair
insertion_sort [] = []
insertion_sort (p ∷ ps) = insert p (insertion_sort ps)

count-insert :
    (q : CheckPair → Bool) (p : CheckPair) (ps : List CheckPair)
    → count q (insert p ps) ≡ (if q p then 1 else 0) + count q ps
unfolding count insert
count-insert q p [] = refl
count-insert q p (x ∷ xs) = ground (arith, count-insert q p xs)

count-insertion_sort :
    (q : CheckPair → Bool) (ps : List CheckPair) → count q (insertion_sort ps) ≡ count q ps
unfolding count insertion_sort
count-insertion_sort q [] = refl
count-insertion_sort q (p ∷ ps) =
    omega (arith, count-insert q p (insertion_sort ps), count-insertion_sort q ps)

below-insert :
    (n : ℕ) (p : CheckPair) (ps : List CheckPair)
    → p.priority ≤ n
    → All (λ q. q.priority ≤ n) ps
    → All (λ q. q.priority ≤ n) (insert p ps)
unfolding insert
below-insert n p [] h hs = (h, tt)
below-insert n p (x ∷ xs) h (k, hs) = elim (Bool-cases (ltb p.priority x.priority)) [
  | inl less ↦ rw less (k, below-insert n p xs h hs)
  | inr not_less ↦ rw not_less (h, (k, hs))
]

below_more :
    (m n : ℕ) (ps : List CheckPair)
    → m ≤ n
    → All (λ q. q.priority ≤ m) ps
    → All (λ q. q.priority ≤ n) ps
below_more m n [] h hs = tt
below_more m n (x ∷ xs) h (k, hs) = (omega (arith, k, h), below_more m n xs h hs)

Descends-insert : (p : CheckPair) (ps : List CheckPair) → Descends ps → Descends (insert p ps)
unfolding Descends insert
Descends-insert p [] h = (tt, tt)
Descends-insert p (x ∷ xs) (h, hs) = elim (Bool-cases (ltb p.priority x.priority)) [
  | inl less ↦ rw less (below-insert x.priority p xs (ground arith) h, Descends-insert p xs hs)
  | inr not_less ↦
      let le : x.priority ≤ p.priority = ground arith in
      rw not_less ((le, below_more x.priority p.priority xs le h), (h, hs))
]

Descends-insertion_sort : (ps : List CheckPair) → Descends (insertion_sort ps)
unfolding Descends insertion_sort
Descends-insertion_sort [] = tt
Descends-insertion_sort (p ∷ ps) =
    Descends-insert p (insertion_sort ps) (Descends-insertion_sort ps)

pub insertion_sort-SortLaws : SortLaws insertion_sort
insertion_sort-SortLaws = record {
  counted = count-insertion_sort;
  descends = Descends-insertion_sort;
}

abbrev pub small_inet : Inet
small_inet = record {
  pton4 = λ ip. some 1;
  ntop4 = λ a. 108 ∷ [];
  pton6 = λ ip. none;
  ntop6 = λ a. 109 ∷ [];
}

abbrev pub cfg : IceConfig
cfg = record {
  checks = record { check_interval_ms = 50; max_check_retries = 4 };
  aggressive_nomination = false;
  lite_mode = false;
  ordered_delivery = false;
  nomination_wait_ms = 0;
  symmetric_port_prediction_enabled = false;
  symmetric_port_prediction_attempts = 0;
  consent_max_failures = 3;
  consent_max_recovery = 3;
  auto_restart_on_consent_loss = true;
  auto_restart_max_attempts = 3;
  auto_restart_backoff = 500;
  pmtu_active_probing = false;
  path_mtu = 1200;
  pmtu_search_steps = [];
}

abbrev pub peer_endpoint : EndpointInfo
peer_endpoint = record { ip = 108 ∷ []; port = 7; transport = udp }

abbrev pub out : Outside
out = record {
  inet = small_inet;
  hmac_sha1 = λ key msg. replicate 20 0;
  sort = insertion_sort;
  now = 1000;
  later = 1001;
  txn_id = λ n. replicate 12 n;
  ufrag = 1 ∷ [];
  pwd = 2 ∷ [];
  endpoint = λ tcp cid. some peer_endpoint;
  is_relay_cid = λ cid. false;
  is_turn_server = λ cid. false;
  cid_to = λ relayed tx ip port. 5;
  carrier = true;
  carrier_tcp = false;
  turn = false;
  turn_allocated = false;
}

abbrev pub local_host : Candidate
local_host = record {
  type = host;
  family = ipv4;
  port = 9;
  priority = 10;
  addr = replicate 16 0;
  hostname = [];
  transport = udp;
  foundation = 1 ∷ [];
}

abbrev pub remote_host : Candidate
remote_host = record local_host { port = 7; priority = 20 }

abbrev pub only_pair : CheckPair
only_pair = record (new_pair local_host remote_host 30 (replicate 12 0) udp) {
  state = succeeded;
  valid = true;
}

abbrev pub session : Session
session = record {
  state = checking;
  controlling = false;
  tiebreaker = 4;
  local_ufrag = [];
  local_pwd = [];
  remote_ufrag = [];
  remote_pwd = [];
  local_candidates = local_host ∷ [];
  remote_candidates = remote_host ∷ [];
  remote_end_of_candidates = false;
  check_list = only_pair ∷ [];
  nominee_selected = false;
  nomination_wait_armed = false;
  pending_nom = no_nomination;
  nominated = no_nomination;
  nominated_local_type = host;
  nominated_remote_type = host;
  rtt_ewma_us = 0;
  consent_missed = 0;
  consent_recovery_attempts = 0;
  auto_restart_attempts = 0;
  auto_restart_last = none;
  peer_symmetric = false;
  symmetric_stride = 0;
  pending_stun_probes = [];
  pmtu_probe = none;
  pmtu_inflight = false;
  pmtu_inflight_txn = [];
  effective_mtu = 1200;
  receiver = start;
  last_activity = 0;
  drawn = 0;
  out = [];
}
