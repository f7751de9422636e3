-- ===== src/Session/Gather/Slots.antt =====
-- The server-reflexive and the relay candidates that gathering leaves (session.cpp).
use link_ice.Prelude.{
  ℕ, ◌+◌, ◌≤◌, ◌≡◌, refl, sym, ap, subst, ◌∙◌, arith, ◌&&◌, not, Bool, true, false, if◌then◌else◌,
  ◌==◌, List, [], ◌∷◌, ◌++◌, map, Bytes, Option-cases, Bool-cases, inl, inr,
}
use link_ice.Candidate.{Candidate, srflx, relay, TransportType, transport_is_tcp, type_code}
use link_ice.CheckList.{contains, Checks, Tick, next_tick, nomination_wait, session_failed}
use link_ice.CheckList
use link_ice.Stun.Address.{MappedAddress}
use link_ice.Stun.Parser.{StunMessage}
use link_ice.Session.{Session, checking}
use link_ice.Session.Address.{is_empty}
use link_ice.Session.Pairing.{with_foundation, assign_local_foundations, build_check_list}
use link_ice.Session.Tick.{
  is_none, is_checking, give_up, after_tick, checks_of, run_next_check, begin_checks, rebuild,
}
use link_ice.Session.Gather.{
  erase_first, candidate_allowed, has_srflx, is_gathering, GatherConfig, Around, Relay, Gatherer,
}
use link_ice.Session.Gather.Probes.{
  on_gathering_complete, srflx_of, learn_stride, add_srflx, first_response, handle_gather_response,
}
use link_ice.Session.Gather.Relays.{relay_of, without_relays, check_promoted, promote_turn_backup}

-- The candidates that pass a test.
unfoldable pub tally : (Candidate → Bool) → List Candidate → ℕ
tally q [] = 0
tally q (c ∷ cs) = (if q c then 1 else 0) + tally q cs

-- The test for a server-reflexive candidate over TCP or not, and for a relay candidate.
abbrev pub is_srflx : Bool → Candidate → Bool
is_srflx true c = type_code c.type == type_code srflx && transport_is_tcp c.transport
is_srflx false c = type_code c.type == type_code srflx && not (transport_is_tcp c.transport)

abbrev pub is_relay : Candidate → Bool
is_relay c = type_code c.type == type_code relay

tally-append :
    (q : Candidate → Bool) (xs ys : List Candidate) → tally q (xs ++ ys) ≡ tally q xs + tally q ys
unfolding tally
tally-append q [] ys = omega arith
tally-append q (x ∷ xs) ys = omega (arith, tally-append q xs ys)

-- A test that does not read the foundation.
unfoldable pub IsBlind : (Candidate → Bool) → Type 0
IsBlind q = (c : Candidate) (f : Bytes) → q (record c { foundation = f }) ≡ q c

is_srflx-IsBlind : (tcp : Bool) → IsBlind (is_srflx tcp)
unfolding IsBlind
is_srflx-IsBlind true c f = refl
is_srflx-IsBlind false c f = refl

is_relay-IsBlind : IsBlind is_relay
unfolding IsBlind
is_relay-IsBlind c f = refl

has_srflx-tally :
    (tcp : Bool) (cs : List Candidate) → has_srflx tcp cs ≡ false → tally (is_srflx tcp) cs ≡ 0
unfolding has_srflx tally
has_srflx-tally tcp [] h = refl
has_srflx-tally true (c ∷ cs) h = let rest = has_srflx-tally true cs in ground arith
has_srflx-tally false (c ∷ cs) h = let rest = has_srflx-tally false cs in ground arith

-- One server-reflexive candidate at most over UDP, and one over TCP.
abbrev pub OneEach : List Candidate → Type 0
OneEach cs = (tcp : Bool) → tally (is_srflx tcp) cs ≤ 1

module _ (cfg : GatherConfig) (out : Around) where
  map-tally :
      (q : Candidate → Bool) (cs : List Candidate)
      → IsBlind q
      → tally q (map (with_foundation cfg.ice out.session) cs) ≡ tally q cs
  unfolding tally with_foundation IsBlind
  map-tally q [] h = refl
  map-tally q (c ∷ cs) h = elim (Bool-cases (is_empty c.foundation)) [
    | inl bare ↦ simp (with_foundation, bare, h) (omega (arith, map-tally q cs h))
    | inr has ↦ simp (with_foundation, has) (omega (arith, map-tally q cs h))
  ]

  after_tick-local :
      (t : Tick) (c : Checks) (s : Session)
      → (after_tick s (c, t)).local_candidates ≡ s.local_candidates
  unfolding after_tick give_up
  after_tick-local next_tick c s = refl
  after_tick-local nomination_wait c s = refl
  after_tick-local session_failed c s = refl

  run_next_check-local :
      (now : ℕ) (s : Session)
      → (run_next_check cfg.ice out.session now s).local_candidates ≡ s.local_candidates
  unfolding run_next_check
  run_next_check-local now s =
      let (c, t) = CheckList.run_next_check cfg.ice.checks now (checks_of cfg.ice out.session s) in
      let ticked = after_tick-local t c s in
      elim (Bool-cases (is_checking s.state)) [
        | inl on ↦ simp (run_next_check, on) ticked
        | inr off ↦ simp (run_next_check, off) refl
      ]

  begin_checks-local :
      (s : Session) → (begin_checks cfg.ice out.session s).local_candidates ≡ s.local_candidates
  unfolding begin_checks
  begin_checks-local s = elim (Bool-cases cfg.ice.lite_mode) [
    | inl lite ↦ simp (begin_checks, lite) refl
    | inr full ↦ simp (begin_checks, full) (run_next_check-local out.session.later _)
  ]

  on_gathering_complete-tally :
      (q : Candidate → Bool) (g : Gatherer)
      → IsBlind q
      → tally q (on_gathering_complete cfg out g).session.local_candidates
        ≡ tally q g.session.local_candidates
  unfolding on_gathering_complete build_check_list assign_local_foundations
  on_gathering_complete-tally q g h = elim (Bool-cases (is_gathering g.session.state)) [
    | inr left ↦ simp (on_gathering_complete, left) refl
    | inl still ↦ elim (Bool-cases (is_none g.session.remote_candidates)) [
      | inl no_peer ↦ simp (on_gathering_complete, still, no_peer) refl
      | inr peer ↦
          simp (on_gathering_complete, still, peer)
            (ap (tally q) (begin_checks-local _) ∙ map-tally q g.session.local_candidates h)
    ]
  ]

  without_relays-tally : (cs : List Candidate) → tally is_relay (without_relays cfg out cs) ≡ 0
  unfolding without_relays tally
  without_relays-tally [] = refl
  without_relays-tally (c ∷ cs) = let rest = without_relays-tally cs in ground arith

  srflx_of-slot :
      (mapped : MappedAddress) (t : TransportType)
      → (tcp : Bool) → is_srflx tcp (srflx_of cfg out mapped t) ≡ true
      → transport_is_tcp (srflx_of cfg out mapped t).transport ≡ tcp
  unfolding srflx_of
  srflx_of-slot mapped t true h = ground arith
  srflx_of-slot mapped t false h = ground arith

  tally_push :
      (q : Candidate → Bool) (c : Candidate) (cs : List Candidate)
      → tally q (cs ++ (c ∷ [])) ≡ tally q cs + (if q c then 1 else 0)
  unfolding tally
  tally_push q c cs = omega (arith, tally-append q cs (c ∷ []))

  add_srflx-OneEach :
      (c : Candidate) (s : Session)
      → ((tcp : Bool) → is_srflx tcp c ≡ true → transport_is_tcp c.transport ≡ tcp)
      → OneEach s.local_candidates
      → OneEach (add_srflx cfg out c s).local_candidates
  unfolding add_srflx
  add_srflx-OneEach c s slot h tcp =
      let cs = s.local_candidates in
      let before = h tcp in
      let push = tally_push (is_srflx tcp) c cs in
      elim (Bool-cases (has_srflx (transport_is_tcp c.transport) cs)) [
        | inl taken ↦ simp (add_srflx, taken) before
        | inr free ↦
            elim (Bool-cases (candidate_allowed c.type c.family cfg.candidate_filter_flags)) [
              | inr excluded ↦ simp (add_srflx, free, excluded) before
              | inl allowed ↦ elim (Bool-cases (is_srflx tcp c)) [
                | inr other ↦
                    let less : tally (is_srflx tcp) (cs ++ (c ∷ [])) ≤ 1 =
                      ground (arith, push, other) in
                    simp (add_srflx, free, allowed) less
                | inl own ↦
                    let empty : tally (is_srflx tcp) cs ≡ 0 =
                      subst (λ (b : Bool). tally (is_srflx b) cs ≡ 0) (slot tcp own)
                        (has_srflx-tally (transport_is_tcp c.transport) cs free) in
                    let less : tally (is_srflx tcp) (cs ++ (c ∷ [])) ≤ 1 =
                      ground (arith, push, own, empty) in
                    simp (add_srflx, free, allowed) less
              ]
            ]
      ]

  learn_stride-local :
      (port : ℕ) (g : Gatherer)
      → (learn_stride cfg out port g).session.local_candidates ≡ g.session.local_candidates
  unfolding learn_stride
  learn_stride-local port g = elim (Option-cases g.first_srflx_port) [
    | inl e ↦ simp (learn_stride, e) (ground arith)
    | inr (a, e) ↦ simp (learn_stride, e) (ground arith)
  ]

  first_response-OneEach :
      (g : Gatherer)
      → OneEach g.session.local_candidates
      → OneEach (first_response cfg out g).session.local_candidates
  unfolding first_response tally on_gathering_complete
  first_response-OneEach g h tcp =
      let before = h tcp in
      let done =
        on_gathering_complete-tally (is_srflx tcp)
          (record g { stun_gathered = true; gather_gen = g.gather_gen + 1 })
          (is_srflx-IsBlind tcp) in
      elim (Bool-cases g.stun_gathered) [
        | inl again ↦ simp (first_response, again) before
        | inr first ↦ elim (Bool-cases g.turn_gathering) [
          | inl waits ↦ elim (Bool-cases out.timers) [
            | inl timers ↦ simp (first_response, first, waits, timers) before
            | inr none_ ↦ simp (first_response, first, waits, none_) before
          ]
          | inr over ↦ simp (first_response, first, over) (omega (arith, done, before))
        ]
      ]

  -- However many STUN servers answer, over UDP or TCP, the session has one server-reflexive candidate at most over
  -- UDP and one over TCP, if it had no more before.
  pub handle_gather_response-OneEach :
      (msg : StunMessage) (t : TransportType) (g : Gatherer)
      → OneEach g.session.local_candidates
      → OneEach (handle_gather_response cfg out msg t g).session.local_candidates
  unfolding handle_gather_response
  handle_gather_response-OneEach msg t g h =
      elim (Bool-cases (contains msg.txn_id g.session.pending_stun_probes)) [
        | inr unknown ↦ simp (handle_gather_response, unknown) h
        | inl awaited ↦ elim (Option-cases msg.xor_mapped) [
          | inl e ↦ simp (handle_gather_response, awaited, e) h
          | inr (mapped, e) ↦
              let c = srflx_of cfg out mapped t in
              let s = record g.session {
                pending_stun_probes = erase_first msg.txn_id g.session.pending_stun_probes;
              } in
              let learnt = learn_stride cfg out c.port (record g { session = s }) in
              let same = learn_stride-local c.port (record g { session = s }) in
              simp (handle_gather_response, awaited, e)
                (first_response-OneEach _ (
                  add_srflx-OneEach c learnt.session (srflx_of-slot mapped t)
                    (subst OneEach (sym same) h)))
        ]
      ]

  rebuild-tally :
      (q : Candidate → Bool) (s : Session)
      → IsBlind q
      → tally q (rebuild cfg.ice out.session s).local_candidates ≡ tally q s.local_candidates
  unfolding rebuild build_check_list assign_local_foundations
  rebuild-tally q s h =
      ap (tally q) (run_next_check-local out.session.now _) ∙ map-tally q s.local_candidates h

  check_promoted-tally :
      (q : Candidate → Bool) (s : Session)
      → IsBlind q
      → tally q (check_promoted cfg out s).local_candidates ≡ tally q s.local_candidates
  unfolding check_promoted
  check_promoted-tally q s h =
      let checks = rebuild-tally q s h in
      let again = rebuild-tally q (record s { state = checking }) h in ground arith

  -- A promoted backup leaves one relay candidate at most, its own: none where the filter excludes it.
  pub promote_turn_backup-relay :
      (client : Relay) (g : Gatherer)
      → tally is_relay (promote_turn_backup cfg out client g).session.local_candidates ≡ (
          if candidate_allowed
              (relay_of cfg out client.relayed).type
              (relay_of cfg out client.relayed).family
              cfg.candidate_filter_flags
            && is_relay (relay_of cfg out client.relayed)
          then 1
          else 0)
  unfolding promote_turn_backup
  promote_turn_backup-relay client g =
      let c = relay_of cfg out client.relayed in
      let kept = without_relays cfg out g.session.local_candidates in
      let zero_ = without_relays-tally g.session.local_candidates in
      let push = tally_push is_relay c kept in
      let allowed = candidate_allowed c.type c.family cfg.candidate_filter_flags in
      let done =
        check_promoted-tally is_relay
          (record g.session { local_candidates = if allowed then kept ++ (c ∷ []) else kept })
          is_relay-IsBlind in
      done ∙ ground (arith, push, zero_)
