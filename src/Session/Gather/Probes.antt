-- ===== src/Session/Gather/Probes.antt =====
-- The STUN probes, their responses, and the end of the gathering phase (session.cpp).
use link_ice.Prelude.{
  ℕ, ◌+◌, ◌&&◌, ◌||◌, not, Bool, true, false, if◌then◌else◌, ◌==◌, List, [], ◌∷◌, ◌++◌, replicate,
  Bytes, Option, none, some,
}
use link_ice.Candidate.{
  srflx, ipv4, ipv6, TransportType, udp, tcp_active, transport_is_tcp, Candidate,
}
use link_ice.Candidate.Priority.{compute_priority}
use link_ice.CheckList.{contains}
use link_ice.Stun.Address.{MappedAddress}
use link_ice.Stun.Endian.{write32}
use link_ice.Stun.Constants.{binding_request}
use link_ice.Stun.Builder.{new_builder, build}
use link_ice.Stun.Parser.{StunMessage}
use link_ice.Session.{waiting_remote, checking, Session, send_udp, send_tcp, on_gathered, emit}
use link_ice.Session.Address.{is_empty}
use link_ice.Session.Pairing.{build_check_list}
use link_ice.Session.Tick.{is_none, begin_checks}
use link_ice.Session.Consent.{frame_tcp_stun}
use link_ice.Session.Nominate.{no_candidate}
use link_ice.Session.Gather.{
  candidate_allowed, GatherConfig, Around, Gatherer, step, is_gathering, no_servers, colon,
  erase_first, port_stride, has_srflx, arm_gather, arm_fallback,
}

module _ (cfg : GatherConfig) (out : Around) where
  unfoldable pub split_stun_host_port : Bytes → Option (Bytes × ℕ)
  split_stun_host_port server =
      let canonical = (115 ∷ 116 ∷ 117 ∷ 110 ∷ 58 ∷ 47 ∷ 47 ∷ []) ++ server in
      if is_empty server
      then none
      else if not (has_colon server)
      then some (server, 3478)
      else elim (out.parse_uri canonical) [
        | none ↦ none
        | some (name, port) ↦ if is_empty name || port == 0 then none else some (name, port)
      ]
    where
      has_colon : Bytes → Bool
      has_colon [] = false
      has_colon (x ∷ xs) = x == colon || has_colon xs

  -- A probe to one server, over TCP if so asked.
  unfoldable pub send_probe : Bool → Bytes → Session → Session
  send_probe tcp server s = elim (split_stun_host_port server) [
    | none ↦ s
    | some (name, port) ↦
        let cid = out.session.cid_to false (if tcp then tcp_active else udp) name port in
        let txn = out.session.txn_id s.drawn in
        let msg = build (new_builder binding_request txn) in
        let t = record s {
          pending_stun_probes = s.pending_stun_probes ++ (txn ∷ []);
          drawn = s.drawn + 1;
        } in
        if cid == 0
        then s
        else if tcp
        then emit (send_tcp cid (frame_tcp_stun msg)) t
        else if out.session.carrier
        then emit (send_udp cid msg) t
        else t
  ]

  unfoldable pub send_probes : Bool → List Bytes → Session → Session
  send_probes tcp [] s = s
  send_probes tcp (x ∷ xs) s = send_probes tcp xs (send_probe tcp x s)

  -- The end of the phase, or of one of its parts: the peer hears of the candidates.
  unfoldable pub on_gathering_complete : Gatherer → Gatherer
  on_gathering_complete g =
      let s = record g.session { pending_stun_probes = [] } in
      let t =
        if is_gathering s.state
        then (if is_none s.remote_candidates
            then record s { state = waiting_remote }
            else begin_checks cfg.ice out.session
                (build_check_list cfg.ice out.session (record s { state = checking })))
        else s in
      record g { gather_gen = g.gather_gen + 1; session = emit on_gathered t }

  unfoldable pub start_multi_stun_probes : Gatherer → Gatherer
  start_multi_stun_probes g =
      let s = send_probes false cfg.stun_servers (record g.session { pending_stun_probes = [] }) in
      let gen = g.gather_gen + 1 in
      if no_servers s.pending_stun_probes
      then on_gathering_complete (record g { session = s })
      else if out.timers
      then step (arm_gather gen) (record g { session = s; gather_gen = gen })
      else record g { session = s }

  unfoldable pub gather_tcp_server_reflexive : Gatherer → Gatherer
  gather_tcp_server_reflexive g =
      if cfg.tcp_candidates_enabled && out.session.carrier_tcp
      then record g { session = send_probes true cfg.stun_servers g.session }
      else g

  -- The timers, unless something has moved the generation on.
  unfoldable pub on_gather_timeout : ℕ → Gatherer → Gatherer
  on_gather_timeout gen g =
      if gen == g.gather_gen
      then on_gathering_complete
          (record g { session = record g.session { pending_stun_probes = [] } })
      else g

  unfoldable pub on_fallback : ℕ → Gatherer → Gatherer
  on_fallback gen g = if gen == g.gather_gen then on_gathering_complete g else g

  -- The candidate of a mapped address. The text comes from inet_ntop, so one of the families reads it.
  unfoldable pub srflx_of : MappedAddress → TransportType → Candidate
  srflx_of mapped src_transport =
      let c : Candidate = record no_candidate {
        type = srflx;
        port = mapped.port;
        priority = compute_priority srflx 65535 1;
        transport = if transport_is_tcp src_transport then tcp_active else udp;
      } in
      elim (out.session.inet.pton4 mapped.ip) [
        | some a ↦ record c { family = ipv4; addr = write32 a ++ replicate 12 0 }
        | none ↦ elim (out.session.inet.pton6 mapped.ip) [
          | some a ↦ record c { family = ipv6; addr = a }
          | none ↦ record c { family = ipv6 }
        ]
      ]

  -- The first two ports that differ give the stride.
  unfoldable pub learn_stride : ℕ → Gatherer → Gatherer
  learn_stride port g =
      let s = g.session in
      if not cfg.ice.symmetric_port_prediction_enabled then g else elim g.first_srflx_port [
        | none ↦ record g { first_srflx_port = some port }
        | some first ↦
            if not (port == first) && s.symmetric_stride == 0
            then record g { session = record s { symmetric_stride = port_stride first port } }
            else g
      ]

  unfoldable pub add_srflx : Candidate → Session → Session
  add_srflx c s =
      if not (has_srflx (transport_is_tcp c.transport) s.local_candidates)
        && candidate_allowed c.type c.family cfg.candidate_filter_flags
      then record s { local_candidates = s.local_candidates ++ (c ∷ []) }
      else s

  -- The first response ends the STUN part; an allocation in flight gets a little longer.
  unfoldable pub first_response : Gatherer → Gatherer
  first_response g =
      let h = record g { stun_gathered = true; gather_gen = g.gather_gen + 1 } in
      if g.stun_gathered
      then g
      else if not g.turn_gathering
      then on_gathering_complete h
      else if out.timers
      then step (arm_fallback (g.gather_gen + 2)) (record h { gather_gen = g.gather_gen + 2 })
      else h

  unfoldable pub handle_gather_response : StunMessage → TransportType → Gatherer → Gatherer
  handle_gather_response msg src_transport g =
      if not (contains msg.txn_id g.session.pending_stun_probes) then g else elim msg.xor_mapped [
        | none ↦ g
        | some mapped ↦
            let c = srflx_of mapped src_transport in
            let s = record g.session {
              pending_stun_probes = erase_first msg.txn_id g.session.pending_stun_probes;
            } in
            let h = learn_stride c.port (record g { session = s }) in
            first_response (record h { session = add_srflx c h.session })
      ]
