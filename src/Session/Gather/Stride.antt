-- ===== src/Session/Gather/Stride.antt =====
-- The detection of a symmetric NAT from the responses of several STUN servers (session.cpp).
use link_ice.Prelude.{
  ℕ, ◌≡◌, refl, ap, ◌∙◌, arith, true, false, [], none, some, Option-cases, Bool-cases, inl, inr,
}
use link_ice.Candidate.{Candidate, TransportType}
use link_ice.CheckList.{contains, Checks, Tick, next_tick, nomination_wait, session_failed}
use link_ice.CheckList
use link_ice.Stun.Address.{MappedAddress}
use link_ice.Stun.Parser.{StunMessage}
use link_ice.Session.{Session}
use link_ice.Session.Pairing.{build_check_list}
use link_ice.Session.Tick.{
  is_none, is_checking, give_up, after_tick, checks_of, run_next_check, begin_checks,
}
use link_ice.Session.Gather.{erase_first, is_gathering, GatherConfig, Around, Gatherer}
use link_ice.Session.Gather.Probes.{
  on_gathering_complete, srflx_of, learn_stride, add_srflx, first_response, handle_gather_response,
}

-- The probes and the stride.
abbrev Same : Session → Session → Type 0
Same s t =
    (s.pending_stun_probes ≡ t.pending_stun_probes) × (s.symmetric_stride ≡ t.symmetric_stride)

module _ (cfg : GatherConfig) (out : Around) where
  after_tick-Same : (t : Tick) (c : Checks) (s : Session) → Same (after_tick s (c, t)) s
  unfolding after_tick give_up
  after_tick-Same next_tick c s = (refl, refl)
  after_tick-Same nomination_wait c s = (refl, refl)
  after_tick-Same session_failed c s = (refl, refl)

  run_next_check-Same : (now : ℕ) (s : Session) → Same (run_next_check cfg.ice out.session now s) s
  unfolding run_next_check
  run_next_check-Same now s =
      let (c, t) = CheckList.run_next_check cfg.ice.checks now (checks_of cfg.ice out.session s) in
      let ticked = after_tick-Same t c s in
      elim (Bool-cases (is_checking s.state)) [
        | inl on ↦ simp (run_next_check, on) ticked
        | inr off ↦ simp (run_next_check, off) (refl, refl)
      ]

  begin_checks-Same : (s : Session) → Same (begin_checks cfg.ice out.session s) s
  unfolding begin_checks
  begin_checks-Same s = elim (Bool-cases cfg.ice.lite_mode) [
    | inl lite ↦ simp (begin_checks, lite) (refl, refl)
    | inr full ↦ simp (begin_checks, full) (run_next_check-Same out.session.later _)
  ]

  on_gathering_complete-forgets :
      (g : Gatherer)
      → let s = (on_gathering_complete cfg out g).session in
        (s.pending_stun_probes ≡ []) × (s.symmetric_stride ≡ g.session.symmetric_stride)
  unfolding on_gathering_complete build_check_list
  on_gathering_complete-forgets g = elim (Bool-cases (is_gathering g.session.state)) [
    | inr left ↦ simp (on_gathering_complete, left) (refl, refl)
    | inl still ↦ elim (Bool-cases (is_none g.session.remote_candidates)) [
      | inl no_peer ↦ simp (on_gathering_complete, still, no_peer) (refl, refl)
      | inr peer ↦ simp (on_gathering_complete, still, peer) (begin_checks-Same _)
    ]
  ]

  learn_stride_first :
      (port : ℕ) (g : Gatherer)
      → g.first_srflx_port ≡ none
      → (learn_stride cfg out port g).session ≡ g.session
  unfolding learn_stride
  learn_stride_first port g e = simp (learn_stride, e) (ground arith)

  learn_stride-rest :
      (port : ℕ) (g : Gatherer)
      → ((learn_stride cfg out port g).stun_gathered ≡ g.stun_gathered)
        × ((learn_stride cfg out port g).turn_gathering ≡ g.turn_gathering)
  unfolding learn_stride
  learn_stride-rest port g = elim (Option-cases g.first_srflx_port) [
    | inl e ↦ simp (learn_stride, e) (ground arith, ground arith)
    | inr (a, e) ↦ simp (learn_stride, e) (ground arith, ground arith)
  ]

  add_srflx-stride :
      (c : Candidate) (s : Session) → (add_srflx cfg out c s).symmetric_stride ≡ s.symmetric_stride
  unfolding add_srflx
  add_srflx-stride c s = ground arith

  first_response-forgets :
      (g : Gatherer)
      → g.stun_gathered ≡ false
      → g.turn_gathering ≡ false
      → let s = (first_response cfg out g).session in
        (s.pending_stun_probes ≡ []) × (s.symmetric_stride ≡ g.session.symmetric_stride)
  unfolding first_response
  first_response-forgets g first over =
      simp (first_response, first, over) (on_gathering_complete-forgets _)

  ignores :
      (msg : StunMessage) (t : TransportType) (g : Gatherer)
      → g.session.pending_stun_probes ≡ []
      → handle_gather_response cfg out msg t g ≡ g
  unfolding handle_gather_response
  ignores msg t g e = simp (handle_gather_response, e) refl

  -- With no allocation in flight the first response of a STUN server, which cannot show a stride yet, makes the
  -- session deaf to the others: the stride stays as it was, and every later response, of whatever server,
  -- changes nothing. So several STUN servers never detect a symmetric NAT.
  pub later_responses_ignored :
      (first second : StunMessage) (mapped : MappedAddress) (t u : TransportType) (g : Gatherer)
      → contains first.txn_id g.session.pending_stun_probes ≡ true
      → first.xor_mapped ≡ some mapped
      → g.first_srflx_port ≡ none
      → g.stun_gathered ≡ false
      → g.turn_gathering ≡ false
      → let h = handle_gather_response cfg out first t g in
        (h.session.symmetric_stride ≡ g.session.symmetric_stride)
        × (handle_gather_response cfg out second u h ≡ h)
  unfolding handle_gather_response
  later_responses_ignored first second mapped t u g awaited has fresh alone over =
      let h = handle_gather_response cfg out first t g in
      let c = srflx_of cfg out mapped t in
      let s = record g.session {
        pending_stun_probes = erase_first first.txn_id g.session.pending_stun_probes;
      } in
      let learnt = learn_stride cfg out c.port (record g { session = s }) in
      let rest = learn_stride-rest c.port (record g { session = s }) in
      let added = record learnt { session = add_srflx cfg out c learnt.session } in
      let goes : h ≡ first_response cfg out added =
        simp (handle_gather_response, awaited, has) refl in
      let (deaf, stride) = first_response-forgets added (rest.0 ∙ alone) (rest.1 ∙ over) in
      let kept =
        stride
        ∙ add_srflx-stride c learnt.session
        ∙ ap (λ (x : Session). x.symmetric_stride)
            (learn_stride_first c.port (record g { session = s }) fresh) in
      let none_left : h.session.pending_stun_probes ≡ [] =
        ap (λ (x : Gatherer). x.session.pending_stun_probes) goes ∙ deaf in
      (ap (λ (x : Gatherer). x.session.symmetric_stride) goes ∙ kept, ignores second u h none_left)
