-- ===== src/Session/Nominate.antt =====
-- Nomination (session.cpp): `on_nominated` and `handle_check_response`.
use link_ice.Prelude.{
  ℕ, suc, ◌+◌, ◌-◌, ◌*◌, ◌/◌, ◌%◌, ◌^◌, ◌&&◌, ◌||◌, not, Bool, true, false, if◌then◌else◌, ltb,
  ◌==◌, List, [], ◌∷◌, ◌++◌, bytes_eq, replicate, Option, none, some, get_elem?,
}
use link_ice.Candidate.{
  Candidate, CandidateType, host, srflx, relay, prflx, host_mdns, other, other_family, udp,
}
use link_ice.Candidate.Priority.{compute_priority}
use link_ice.CheckList.{CheckPair, succeeded, set_at, unfreeze_siblings, send_check}
use link_ice.PathMtu.{new_probe}
use link_ice.Stun.Address.{MappedAddress}
use link_ice.Stun.Parser.{StunMessage}
use link_ice.Session.{
  connected, IceConfig, Outside, Nomination, bind_channel, on_connected, flush_pending_app_data,
  Session, emit,
}
use link_ice.Session.Address.{address_str, set_address}
use link_ice.Session.Pairing.{is_udp}
use link_ice.Session.Tick.{is_checking}
use link_ice.Session.Consent.{on_keepalive}
use link_ice.Session.PathProbe.{start_path_mtu_probe}

abbrev pub is_relay : CandidateType → Bool
is_relay relay = true
is_relay host = false
is_relay srflx = false
is_relay prflx = false
is_relay host_mdns = false
is_relay (other n) = false

-- `Candidate{}`
abbrev pub no_candidate : Candidate
no_candidate = record {
  type = host;
  family = other_family 0;
  port = 0;
  priority = 0;
  addr = replicate 16 0;
  hostname = [];
  transport = udp;
  foundation = [];
}

-- The place of the first pair from the place `i` on that passes the test.
unfoldable pub find_pair : (CheckPair → Bool) → ℕ → List CheckPair → Option (ℕ × CheckPair)
find_pair q i [] = none
find_pair q i (p ∷ ps) = let later = find_pair q (suc i) ps in if q p then some (i, p) else later

-- The valid pair of the highest priority, the first among equals.
unfoldable pub best_valid : ℕ → List CheckPair → Option (ℕ × CheckPair) → Option (ℕ × CheckPair)
best_valid i [] best = best
best_valid i (p ∷ ps) best = best_valid (suc i) ps (
    if p.valid && elim best [ none ↦ true | some b ↦ ltb b.1.priority p.priority ]
    then some (i, p)
    else best)

unfoldable pub clear_pending : ℕ → List CheckPair → List CheckPair
clear_pending i ps = elim (get_elem? ps i) [
  | none ↦ ps
  | some q ↦ set_at i (record q { pending_nomination = false }) ps
]

module _ (cfg : IceConfig) (out : Outside) where
  -- The path MTU search starts once in the life of a session.
  unfoldable pub start_search : Session → Session
  start_search s = elim s.pmtu_probe [
    | some p ↦ s
    | none ↦
        if cfg.pmtu_active_probing
        then start_path_mtu_probe out
            (record s { pmtu_probe = some (new_probe cfg.path_mtu cfg.pmtu_search_steps) })
        else s
  ]

  -- The state of the session as `on_nominated` sets it, before what it calls.
  unfoldable pub nominated_state : Nomination → Session → Session
  nominated_state n s = record s {
    nomination_wait_armed = false;
    state = connected;
    consent_missed = 0;
    consent_recovery_attempts = 0;
    auto_restart_attempts = 0;
    auto_restart_last = none;
    nominated = n;
  }

  unfoldable pub on_nominated : Nomination → Session → Session
  on_nominated n s =
      let t = nominated_state n s in
      let bound = if n.relay && out.turn then emit (bind_channel n.ip n.port) t else t in
      start_search
        (on_keepalive cfg out (emit (on_connected n.ip n.port) (emit flush_pending_app_data bound)))

  -- The pair with the highest priority is nominated by a check of its own.
  unfoldable pub nominate_best : Session → Session
  nominate_best s = elim (best_valid 0 s.check_list none) [
    | none ↦ s
    | some (i, p) ↦ record s {
      nominee_selected = true;
      check_list =
          send_check cfg.checks out.now i
            (set_at i (record p { nominee_check_sent = true }) s.check_list);
    }
  ]

  -- The round trip of the check, on 64 bits.
  unfoldable pub measure : CheckPair → Session → Session
  measure p s =
      let sample = (out.now + (2 ^ 64 - p.txn_send_us)) % 2 ^ 64 in
      if p.txn_send_us == 0 then s else record s {
        rtt_ewma_us =
            if s.rtt_ewma_us == 0
            then sample
            else (s.rtt_ewma_us * 7 % 2 ^ 64 + sample) % 2 ^ 64 / 8;
      }

  -- A mapped address other than the local candidate's is a peer-reflexive candidate.
  unfoldable pub discover : CheckPair → Option MappedAddress → Session → Session
  discover p none s = s
  discover p (some mapped) s =
      let c = set_address out.inet mapped.ip (record no_candidate { type = prflx }) in
      if bytes_eq mapped.ip (address_str out.inet p.local) && mapped.port == p.local.port
      then s
      else record s {
        local_candidates =
            s.local_candidates
            ++ (record c { port = mapped.port; priority = compute_priority prflx 65535 1 } ∷ []);
      }

  -- The pair at this place has succeeded.
  unfoldable pub succeed : ℕ → CheckPair → Session → Session
  succeed i p s = record s {
    check_list =
        unfreeze_siblings p.local.foundation p.remote.foundation
          (set_at i (record p { valid = true; state = succeeded }) s.check_list);
  }

  -- The nomination of a pair by the controlling agent, over a connection for the pair's transport.
  unfoldable pub nomination_of : CheckPair → Nomination
  nomination_of p =
      let ip = address_str out.inet p.remote in
      let via_turn = is_relay p.local.type && (is_udp p.transport_type && out.turn_allocated) in
      record {
        ip = ip;
        port = p.remote.port;
        relay = is_relay p.local.type || is_relay p.remote.type;
        cid = out.cid_to via_turn p.transport_type ip p.remote.port;
        transport = p.transport_type;
      }

  -- What follows the success: a deferred nomination, a nomination, or the choice of the nominee.
  unfoldable pub conclude : ℕ → CheckPair → Session → Session
  conclude i p s =
      if not s.controlling && p.pending_nomination
      then on_nominated s.pending_nom (record s { check_list = clear_pending i s.check_list })
      else if not s.controlling
      then s
      else if cfg.aggressive_nomination || p.nominee_check_sent
      then on_nominated (nomination_of p) s
      else if not s.nominee_selected && not p.valid
      then nominate_best s
      else s

  unfoldable pub handle_check_response : StunMessage → Session → Session
  handle_check_response msg s =
      if not (is_checking s.state)
      then s
      else elim (find_pair (λ p. bytes_eq p.txn_id msg.txn_id) 0 s.check_list) [
        | none ↦ s
        | some (i, p) ↦
            let t = measure p s in
            let u = record t {
              nominated_local_type = p.local.type;
              nominated_remote_type = p.remote.type;
            } in
            conclude i p (succeed i p (discover p msg.xor_mapped u))
      ]
