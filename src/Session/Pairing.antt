-- ===== src/Session/Pairing.antt =====
-- `build_check_list` and `assign_local_foundations` of session.cpp. `std::ranges::sort` and the random
-- transaction ids are parameters.
use link_ice.Prelude.{
  ℕ, zero, suc, ◌+◌, ◌-◌, ◌*◌, ◌%◌, ◌^◌, ◌&&◌, ◌||◌, not, Bool, true, false, if◌then◌else◌, ltb,
  ◌==◌, List, [], ◌∷◌, ◌++◌, map, length, Bytes, decimal,
}
use link_ice.Candidate.{
  Candidate, CandidateType, TransportType, host, srflx, relay, prflx, host_mdns, other, udp,
  tcp_active, tcp_passive, tcp_simultaneous_open, is_host_mdns, family_code,
}
use link_ice.Candidate.Priority.{pair_priority, compute_foundation}
use link_ice.CheckList.{CheckPair, frozen, assign_initial_pair_states}
use link_ice.Session.{IceConfig, Outside, Session}
use link_ice.Session.Address.{is_empty, address_str}

unfoldable pub tcp_transport_pairs : TransportType → TransportType → Bool
tcp_transport_pairs tcp_active tcp_passive = true
tcp_transport_pairs tcp_passive tcp_active = true
tcp_transport_pairs tcp_simultaneous_open tcp_simultaneous_open = true
tcp_transport_pairs _ _ = false

abbrev pub is_udp : TransportType → Bool
is_udp udp = true
is_udp tcp_active = false
is_udp tcp_passive = false
is_udp tcp_simultaneous_open = false

abbrev pub is_srflx : CandidateType → Bool
is_srflx srflx = true
is_srflx host = false
is_srflx relay = false
is_srflx prflx = false
is_srflx host_mdns = false
is_srflx (other n) = false

-- The guards of the double loop: whether two candidates make a pair.
unfoldable pub makes_pair : Candidate → Candidate → Bool
makes_pair l r =
    not (is_host_mdns l.type)
    && (not (is_host_mdns r.type && not (is_empty r.hostname))
        && (family_code l.family == family_code r.family
            && (is_udp l.transport && is_udp r.transport
                || tcp_transport_pairs l.transport r.transport)))

unfoldable pub stride : IceConfig → Session → ℕ
stride cfg s =
    if not s.peer_symmetric || not cfg.symmetric_port_prediction_enabled
    then 0
    else if s.symmetric_stride == 0
    then 1
    else s.symmetric_stride

unfoldable pub prediction_attempts : IceConfig → Session → ℕ
prediction_attempts cfg s = if stride cfg s == 0 then 0 else cfg.symmetric_port_prediction_attempts

-- A pair with the defaults of the struct.
abbrev pub new_pair : Candidate → Candidate → ℕ → Bytes → TransportType → CheckPair
new_pair l r priority txn transport = record {
  local = l;
  remote = r;
  priority = priority;
  retries = 0;
  nominated = false;
  state = frozen;
  valid = false;
  nominee_check_sent = false;
  triggered = false;
  pending_nomination = false;
  txn_id = txn;
  txn_send_us = 0;
  transport_type = transport;
}

module _ (cfg : IceConfig) (out : Outside) where
  unfoldable pub with_foundation : Candidate → Candidate
  with_foundation c =
      if is_empty c.foundation
      then record c {
        foundation = compute_foundation c.type (address_str out.inet c) [] c.transport;
      }
      else c

  unfoldable pub assign_local_foundations : List Candidate → List Candidate
  assign_local_foundations cs = map with_foundation cs

  -- `n` predicted ports, the first at the distance `k` times the stride; each pair draws an id.
  unfoldable pub predicted_pairs : ℕ → ℕ → ℕ → CheckPair → ℕ → List CheckPair
  predicted_pairs zero k step pair drawn = []
  predicted_pairs (suc n) k step pair drawn =
      let port = (pair.remote.port + step * k) % 2 ^ 32 in
      let rest = predicted_pairs n (suc k) step pair (suc drawn) in
      let r = record pair.remote {
        port = port;
        foundation = pair.remote.foundation ++ (58 ∷ 112 ∷ decimal 5 port);
      } in
      if ltb 65535 port
      then []
      else record pair { remote = r; txn_id = out.txn_id drawn; priority = pair.priority - 1 }
        ∷ rest

  -- The body of the inner loop: what it appends to the list.
  unfoldable pub pairs_of : Session → Candidate → Candidate → ℕ → List CheckPair
  pairs_of s l r drawn =
      let p =
        new_pair l r (pair_priority l.priority r.priority s.controlling) (out.txn_id drawn)
          l.transport in
      if not (makes_pair l r)
      then []
      else if ltb 0 (prediction_attempts cfg s) && is_srflx r.type
      then p ∷ predicted_pairs (prediction_attempts cfg s) 1 (stride cfg s) p (suc drawn)
      else p ∷ []

  unfoldable pub pairs_with : Session → Candidate → List Candidate → ℕ → List CheckPair
  pairs_with s l [] drawn = []
  pairs_with s l (r ∷ rs) drawn =
      let here = pairs_of s l r drawn in here ++ pairs_with s l rs (drawn + length here)

  unfoldable pub all_pairs : Session → List Candidate → List Candidate → ℕ → List CheckPair
  all_pairs s [] rs drawn = []
  all_pairs s (l ∷ ls) rs drawn =
      let here = pairs_with s l rs drawn in here ++ all_pairs s ls rs (drawn + length here)

  unfoldable pub build_check_list : Session → Session
  build_check_list s =
      let ls = assign_local_foundations s.local_candidates in
      let rs = map with_foundation s.remote_candidates in
      let pairs = all_pairs s ls rs s.drawn in
      record s {
        local_candidates = ls;
        remote_candidates = rs;
        check_list = assign_initial_pair_states (out.sort pairs);
        drawn = s.drawn + length pairs;
      }
