-- ===== src/Session/Requests.antt =====
-- Inbound checks (session.cpp): `handle_binding_request` and `maybe_trigger_check_from_peer`.
use link_ice.Prelude.{
  ℕ, ◌+◌, ◌&&◌, ◌||◌, not, Bool, true, false, if◌then◌else◌, ◌==◌, List, [], ◌∷◌, ◌++◌, Bytes,
  bytes_eq, Option, none, some, length,
}
use link_ice.Candidate.{
  Candidate, prflx, udp, tcp_active, family_code, transport_code, TransportType,
}
use link_ice.Candidate.Priority.{compute_priority, pair_priority}
use link_ice.CheckList.{
  CheckPair, PairState, frozen, waiting, in_progress, succeeded, failed, is_frozen, set_at,
  send_check,
}
use link_ice.Stun.Builder.{
  new_builder, set_txn_id, add_error_code, add_integrity, add_fingerprint, build,
}
use link_ice.Stun.Parser.{StunMessage}
use link_ice.Session.{
  IceConfig, Outside, EndpointInfo, Nomination, send_udp, send_tcp, send_indication, Session, emit,
}
use link_ice.Session.Address.{is_empty, address_str, set_address}
use link_ice.Session.Pairing.{new_pair, with_foundation}
use link_ice.Session.Tick.{is_checking, is_connected, is_none, run_next_check}
use link_ice.Session.Role.{handle_role_conflict}
use link_ice.Session.Consent.{frame_tcp_stun}
use link_ice.Session.Nominate.{no_candidate, find_pair, on_nominated}

abbrev pub binding_response : ℕ
binding_response = 0x0101

abbrev pub binding_error : ℕ
binding_error = 0x0111

-- `kStunErrorReasonRoleConflict`
abbrev pub role_conflict_reason : Bytes
role_conflict_reason = 82 ∷ 111 ∷ 108 ∷ 101 ∷ 32 ∷ 67 ∷ 111 ∷ 110 ∷ 102 ∷ 108 ∷ 105 ∷ 99 ∷ 116 ∷ []

abbrev pub is_some {ℓ} : {A : Type ℓ} → Option A → Bool
is_some none = false
is_some (some x) = true

abbrev pub value_or : Option ℕ → ℕ → ℕ
value_or none d = d
value_or (some x) d = x

abbrev pub is_succeeded : PairState → Bool
is_succeeded succeeded = true
is_succeeded frozen = false
is_succeeded waiting = false
is_succeeded in_progress = false
is_succeeded failed = false

-- The address and port that the connection maps have for a connection.
abbrev pub source : Option EndpointInfo → Bytes × ℕ
source none = ([], 0)
source (some e) = (e.ip, e.port)

abbrev pub same_transport : TransportType → TransportType → Bool
same_transport t u = transport_code t == transport_code u

module _ (cfg : IceConfig) (out : Outside) where
  -- A reply goes back the way the request came: framed over TCP, through the relay, or over UDP.
  unfoldable pub reply : ℕ → Bool → Bytes → Session → Session
  reply cid from_tcp msg s =
      let (ip, port) = source (out.endpoint false cid) in
      if from_tcp
      then (if out.carrier_tcp then emit (send_tcp cid (frame_tcp_stun msg)) s else s)
      else if out.turn && out.is_relay_cid cid
      then (if is_empty ip then s else emit (send_indication ip port msg) s)
      else if out.carrier
      then emit (send_udp cid msg) s
      else s

  unfoldable pub role_conflict_error : Session → Bytes → Bytes
  role_conflict_error s txn = build (
      add_fingerprint (
        add_integrity out.hmac_sha1 s.local_pwd (
          add_error_code 487 role_conflict_reason
            (set_txn_id txn (new_builder binding_error txn)))))

  unfoldable pub success_response : Session → Bytes → Bytes
  success_response s txn = build (
      add_fingerprint (
        add_integrity out.hmac_sha1 s.local_pwd
          (set_txn_id txn (new_builder binding_response txn))))

  abbrev pub at_endpoint : Bytes → ℕ → CheckPair → Bool
  at_endpoint ip port p = bytes_eq (address_str out.inet p.remote) ip && p.remote.port == port

  -- USE-CANDIDATE for a pair that has not succeeded: it may run, and the nomination waits for its success.
  unfoldable pub defer_nomination : Nomination → Option (ℕ × CheckPair) → Session → Session
  defer_nomination n none s = record s { pending_nom = n }
  defer_nomination n (some (i, p)) s = record s {
    pending_nom = n;
    check_list =
        set_at i
          (record p {
            state = if is_frozen p.state then waiting else p.state;
            pending_nomination = true;
          })
          s.check_list;
  }

  -- The nomination that USE-CANDIDATE over this connection asks for.
  unfoldable pub nomination_by : ℕ → Bool → Nomination
  nomination_by cid from_tcp =
      let (ip, port) = source (out.endpoint from_tcp cid) in
      record {
        ip = ip;
        port = port;
        relay = not from_tcp && out.is_relay_cid cid;
        cid = cid;
        transport = if from_tcp then tcp_active else udp;
      }

  abbrev pub is_nominated_by : Nomination → CheckPair → Bool
  is_nominated_by n p = at_endpoint n.ip n.port p && same_transport p.transport_type n.transport

  unfoldable pub nominate_or_defer : Nomination → Option (ℕ × CheckPair) → Session → Session
  nominate_or_defer n none s = run_next_check cfg out out.now (defer_nomination n none s)
  nominate_or_defer n (some (i, p)) s =
      if is_succeeded p.state
      then on_nominated cfg out n s
      else run_next_check cfg out out.now (defer_nomination n (some (i, p)) s)

  unfoldable pub use_candidate : ℕ → Bool → Session → Session
  use_candidate cid from_tcp s =
      let n = nomination_by cid from_tcp in
      if is_empty n.ip
      then s
      else nominate_or_defer n (find_pair (is_nominated_by n) 0 s.check_list) s

  -- The first local candidate of the family.
  unfoldable pub local_of_family : ℕ → List Candidate → Option Candidate
  local_of_family f [] = none
  local_of_family f (c ∷ cs) =
      let later = local_of_family f cs in if family_code c.family == f then some c else later

  -- A pair for the source of an inbound check. It waits for its success to be nominated where the peer has
  -- asked for that already.
  unfoldable pub triggered_pair : Candidate → Bytes → ℕ → Session → CheckPair
  triggered_pair l ip port s =
      let blank = record no_candidate { type = prflx } in
      let at = set_address out.inet ip blank in
      let r = record at { port = port; priority = compute_priority prflx 65535 1 } in
      let p =
        new_pair (with_foundation cfg out l) (with_foundation cfg out r)
          (pair_priority l.priority r.priority s.controlling) (out.txn_id s.drawn) udp in
      let pending =
        not s.controlling
        && (not (is_empty s.pending_nom.ip) && at_endpoint s.pending_nom.ip s.pending_nom.port p) in
      record p { triggered = true; state = in_progress; pending_nomination = pending }

  -- The pair is put at the end of the list and checked at once.
  unfoldable pub trigger : Candidate → Bytes → ℕ → Session → Session
  trigger l ip port s =
      let ps = s.check_list ++ (triggered_pair l ip port s ∷ []) in
      record s {
        drawn = s.drawn + 1;
        check_list =
            if is_checking s.state || is_connected s.state
            then send_check cfg.checks out.now (length s.check_list) ps
            else ps;
      }

  unfoldable pub maybe_trigger_check_from_peer : Bytes → ℕ → Session → Session
  maybe_trigger_check_from_peer ip port s =
      let at = set_address out.inet ip (record no_candidate { type = prflx }) in
      if is_empty ip || (is_none s.local_candidates || cfg.lite_mode)
      then s
      else if is_some (find_pair (at_endpoint ip port) 0 s.check_list)
      then s
      else elim (local_of_family (family_code at.family) s.local_candidates) [
        | none ↦ s
        | some l ↦ trigger l ip port s
      ]

  -- Whether the request claims the role that this side has.
  unfoldable pub same_role : StunMessage → Session → Bool
  same_role msg s =
      is_some msg.ice_controlling && s.controlling
      || is_some msg.ice_controlled && not s.controlling

  -- What follows unless the request is refused: the response, the nomination and the triggered check.
  unfoldable pub accept_request : StunMessage → ℕ → Bool → Session → Session
  accept_request msg cid from_tcp s =
      let (ip, port) = source (out.endpoint from_tcp cid) in
      let t = reply cid from_tcp (success_response s msg.txn_id) s in
      let u = if msg.use_candidate && not s.controlling then use_candidate cid from_tcp t else t in
      maybe_trigger_check_from_peer ip port u

  unfoldable pub handle_binding_request : StunMessage → ℕ → Bool → Session → Session
  handle_binding_request msg cid from_tcp s =
      let tb =
        if is_some msg.ice_controlling
        then value_or msg.ice_controlling 0
        else value_or msg.ice_controlled 0 in
      let (t, switched) = handle_role_conflict cfg out (is_some msg.ice_controlling) tb s in
      if not (same_role msg s)
      then accept_request msg cid from_tcp s
      else if switched
      then accept_request msg cid from_tcp t
      else reply cid from_tcp (role_conflict_error s msg.txn_id) s
