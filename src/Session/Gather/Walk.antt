-- ===== src/Session/Gather/Walk.antt =====
-- The walk over the TURN servers ends, and the gathering phase with it; the client that is tried over UDP for want of a stream (session.cpp).
use link_ice.Prelude.{
  ℕ, zero, suc, ◌+◌, ◌*◌, ◌/◌, ◌%◌, ◌^◌, ◌≤◌, ◌<◌, ◌≡◌, ◌≢◌, refl, sym, ap, ◌∙◌, subst, arith, ◌||◌,
  not, Bool, true, false, ltb, ==_false, ◌∷◌, length, get_elem?, Bytes, Option, none, some,
  Option-cases, Bool-cases, inl, inr,
}
use link_ice.Candidate.{udp}
use link_ice.CheckList.{Checks, Tick, next_tick, nomination_wait, session_failed}
use link_ice.CheckList
use link_ice.Turn.{encode_stream_frame}
use link_ice.Turn.Client
use link_ice.Turn.Client.{TurnConfig, TurnClient, to_server}
use link_ice.Session.{Session}
use link_ice.Session.Address.{is_empty}
use link_ice.Session.Pairing.{build_check_list}
use link_ice.Session.Tick.{
  is_none, is_checking, give_up, after_tick, checks_of, run_next_check, begin_checks,
}
use link_ice.Session.Gather.{
  has_bit, no_servers, is_gathering, GatherConfig, Around, over_udp, Relay, Gatherer,
}
use link_ice.Session.Gather.Probes.{on_gathering_complete}
use link_ice.Session.Gather.Relays.{
  no_configs, built_client, build_turn_client, end_turn, attempt, close_primary,
  try_next_turn_attempt, on_allocate_timeout, fold_turn, gather_relay,
}
use link_ice.Session.Gather.Attempts.{
  is_idle, IsPending, next_failure, failures, ahead, fire_last-next, timeout_tries_next,
  try_next-Closer, next_failure-Closer,
}

module _ (cfg : GatherConfig) (out : Around) where
  after_tick-left :
      (t : Tick) (c : Checks) (s : Session)
      → is_gathering s.state ≡ false
      → is_gathering (after_tick s (c, t)).state ≡ false
  unfolding after_tick give_up
  after_tick-left next_tick c s h = h
  after_tick-left nomination_wait c s h = h
  after_tick-left session_failed c s h = refl

  run_next_check-left :
      (now : ℕ) (s : Session)
      → is_gathering s.state ≡ false
      → is_gathering (run_next_check cfg.ice out.session now s).state ≡ false
  unfolding run_next_check
  run_next_check-left now s h =
      let (c, t) = CheckList.run_next_check cfg.ice.checks now (checks_of cfg.ice out.session s) in
      let ticked = after_tick-left t c s h in
      elim (Bool-cases (is_checking s.state)) [
        | inl on ↦ simp (run_next_check, on) ticked
        | inr off ↦ simp (run_next_check, off) h
      ]

  begin_checks-left :
      (s : Session)
      → is_gathering s.state ≡ false
      → is_gathering (begin_checks cfg.ice out.session s).state ≡ false
  unfolding begin_checks
  begin_checks-left s h = elim (Bool-cases cfg.ice.lite_mode) [
    | inl lite ↦ simp (begin_checks, lite) h
    | inr full ↦ simp (begin_checks, full) (run_next_check-left out.session.later _ h)
  ]

  -- The phase is over when on_gathering_complete has run.
  pub on_gathering_complete-left :
      (g : Gatherer) → is_gathering (on_gathering_complete cfg out g).session.state ≡ false
  unfolding on_gathering_complete build_check_list
  on_gathering_complete-left g = elim (Bool-cases (is_gathering g.session.state)) [
    | inr left ↦ simp (on_gathering_complete, left) refl
    | inl still ↦ elim (Bool-cases (is_none g.session.remote_candidates)) [
      | inl no_peer ↦ simp (on_gathering_complete, still, no_peer) refl
      | inr peer ↦ simp (on_gathering_complete, still, peer) (begin_checks-left _ refl)
    ]
  ]

  -- Nothing of the STUN part is open, and where the TURN part is over the phase is.
  abbrev Ends : Gatherer → Type 0
  Ends x =
      ((x.stun_gathered || no_servers cfg.stun_servers) ≡ true)
      × (x.turn_gathering ≡ false → is_gathering x.session.state ≡ false)

  attempt-Ends :
      (c : TurnConfig) (g : Gatherer)
      → g.turn_gathering ≡ true
      → (g.stun_gathered || no_servers cfg.stun_servers) ≡ true
      → Ends (attempt cfg out c g)
  unfolding attempt
  attempt-Ends c g on stun = elim (Bool-cases (is_empty c.server)) [
    | inl empty ↦ simp (attempt, empty) (stun, λ off. absurd (ground arith))
    | inr named ↦ elim (Option-cases (build_turn_client cfg out c)) [
      | inl not_built ↦ simp (attempt, named, not_built) (stun, λ off. absurd (ground arith))
      | inr (r, built) ↦ elim (Bool-cases out.timers) [
        | inl timers ↦ simp (attempt, named, built, timers) (stun, λ off. absurd (ground arith))
        | inr none_ ↦ simp (attempt, named, built, none_) (stun, λ off. absurd (ground arith))
      ]
    ]
  ]

  end_turn-Ends :
      (g : Gatherer)
      → (g.stun_gathered || no_servers cfg.stun_servers) ≡ true
      → Ends (end_turn cfg out g)
  unfolding end_turn on_gathering_complete
  end_turn-Ends g stun =
      let left =
        on_gathering_complete-left
          (record g { turn_gathering = false; gather_gen = g.gather_gen + 1 }) in
      simp (end_turn, stun) (refl, λ off. left)

  close_primary-Ends :
      (g : Gatherer)
      → ((close_primary cfg out g).turn_gathering ≡ g.turn_gathering)
        × ((close_primary cfg out g).stun_gathered ≡ g.stun_gathered)
  unfolding close_primary
  close_primary-Ends g = elim (Option-cases g.turn) [
    | inl e ↦ simp (close_primary, e) (refl, refl)
    | inr (r, e) ↦ simp (close_primary, e) (refl, refl)
  ]

  try_next-Ends :
      (g : Gatherer)
      → g.turn_gathering ≡ true
      → (g.stun_gathered || no_servers cfg.stun_servers) ≡ true
      → Ends (try_next_turn_attempt cfg out g)
  unfolding try_next_turn_attempt
  try_next-Ends g on stun =
      let g' = record g { turn_allocate_gen = g.turn_allocate_gen + 1 } in
      let h = close_primary cfg out g' in
      let (same_on, same_stun) = close_primary-Ends g' in
      let stun_h : (h.stun_gathered || no_servers cfg.stun_servers) ≡ true =
        ground (arith, same_stun) in
      elim (Option-cases (get_elem? cfg.turn_servers h.turn_attempt_idx)) [
        | inl e ↦ simp (try_next_turn_attempt, e) (end_turn-Ends h stun_h)
        | inr (c, e) ↦ simp (try_next_turn_attempt, e) (attempt-Ends _ h (same_on ∙ on) stun_h)
      ]

  next_failure-Ends :
      (g : Gatherer)
      → is_idle g ≡ true
      → g.turn_gathering ≡ true
      → (g.stun_gathered || no_servers cfg.stun_servers) ≡ true
      → Ends (next_failure cfg out g)
  unfolding next_failure is_idle
  next_failure-Ends g idle on stun =
      let next = record g { turn_attempt_idx = g.turn_attempt_idx + 1 } in
      let by : Option Relay → Gatherer = λ o. elim o [
        | some r ↦ on_allocate_timeout cfg out g.turn_allocate_gen g
        | none ↦ try_next_turn_attempt cfg out g
      ] in
      elim (Option-cases g.turn) [
        | inl e ↦ subst (λ (o : Option Relay). Ends (by o)) (sym e) (try_next-Ends g on stun)
        | inr (r, e) ↦
            let idle_r =
              sym (
                ap
                  (λ (o : Option Relay). elim o as (λ _. Bool) [
                    | none ↦ true
                    | some x ↦ not x.allocated
                  ])
                  e)
              ∙ idle in
            let open_ : r.allocated ≡ false = ground arith in
            subst (λ (o : Option Relay). Ends (by o)) (sym e)
              (subst Ends (sym (timeout_tries_next cfg out g r e open_))
                (try_next-Ends next on stun))
      ]

  ended : (k : ℕ) (x : Gatherer) → x.turn_gathering ≡ false → failures cfg out k x ≡ x
  unfolding failures
  ended zero x off = refl
  ended (suc k) x off = simp (failures, off) refl

  failures-end :
      (n : ℕ) (g : Gatherer)
      → out.timers ≡ true
      → is_idle g ≡ true
      → IsPending g
      → g.turn_gathering ≡ true
      → (g.stun_gathered || no_servers cfg.stun_servers) ≡ true
      → ahead cfg out g < n
      → let x = failures cfg out n g in
        (x.turn_gathering ≡ false) × (is_gathering x.session.state ≡ false)
  unfolding failures
  failures-end zero g timers idle waits on stun h = absurd (omega (arith, h))
  failures-end (suc n) g timers idle waits on stun h =
      let x = next_failure cfg out g in
      let fired = fire_last-next cfg out g waits in
      let (still, closer) = next_failure-Closer cfg out g timers idle in
      let (stun_x, left) = next_failure-Ends g idle on stun in
      elim (Bool-cases x.turn_gathering) [
        | inl going ↦
            let (less, next) = closer going in
            simp (failures, on, fired)
              (failures-end n x timers still next going stun_x (omega (arith, h, less)))
        | inr off ↦ let same = ended n x off in simp (failures, on, fired, same) (off, left off)
      ]

  start-Ends :
      (g : Gatherer)
      → out.timers ≡ true
      → g.turn_gathering ≡ true
      → (g.stun_gathered || no_servers cfg.stun_servers) ≡ true
      → let x =
          failures cfg out (2 * length cfg.turn_servers + 1) (try_next_turn_attempt cfg out g) in
        (x.turn_gathering ≡ false) × (is_gathering x.session.state ≡ false)
  start-Ends g timers on stun =
      let n = 2 * length cfg.turn_servers + 1 in
      let x = try_next_turn_attempt cfg out g in
      let (still, closer) = try_next-Closer cfg out g timers in
      let (stun_x, left) = try_next-Ends g on stun in
      elim (Bool-cases x.turn_gathering) [
        | inl going ↦
            let (less, waits) = closer going in
            failures-end n x timers still waits going stun_x (omega (arith, less))
        | inr off ↦ let same = ended n x off in simp same (off, left off)
      ]

module _ (cfg : GatherConfig) (out : Around) where
  -- If no TURN server answers, the walk over the servers that gather_relay starts ends by itself, and the gathering
  -- phase with it: what was armed or posted last, the timer of an attempt or the retry behind a server that could
  -- not be tried, comes 2n + 1 times at most for n servers, and then the session checks, waits for the peer or
  -- has given up, but no longer gathers. There are timers, there is a server, the filter admits more than
  -- hosts, and the STUN part is over or there is none.
  pub failures_end_gathering :
      (g : Gatherer)
      → out.timers ≡ true
      → has_bit 3 cfg.candidate_filter_flags ≡ false
      → no_configs (fold_turn cfg).turn_servers ≡ false
      → (g.stun_gathered || no_servers cfg.stun_servers) ≡ true
      → let folded = fold_turn cfg in
        let x = failures folded out (2 * length folded.turn_servers + 1) (gather_relay cfg out g) in
        (x.turn_gathering ≡ false) × (is_gathering x.session.state ≡ false)
  unfolding gather_relay fold_turn
  failures_end_gathering g timers open_ servers stun =
      simp (gather_relay, open_, servers)
        (start-Ends (fold_turn cfg) out (record g { turn_gathering = true; turn_attempt_idx = 0 })
          timers refl stun)

  -- Without a TLS and a TCP carrier a server that is configured for TLS is tried over UDP, but its client is
  -- built with the configuration for TLS and still frames every message for a stream, so the server gets
  -- datagrams that are no STUN messages: two bytes of length stand in front. The message has at most 65535
  -- bytes, and the UDP carrier connects to the server.
  pub fallback_frames :
      (c : TurnConfig) (g : Gatherer) (turn_out : Client.Outside) (bytes : Bytes) (t : TurnClient)
      → c.tls_transport ≡ true
      → is_empty c.server ≡ false
      → out.carrier_tls ≡ false
      → out.session.carrier_tcp ≡ false
      → out.session.carrier ≡ true
      → out.session.cid_to false udp c.server c.port ≢ 0
      → length bytes ≤ 0xFFFF
      → (r : Relay) × ((attempt cfg out c g).turn ≡ some r)
        × (r.carrier ≡ over_udp)
        × (Client.send_to_server r.config
              (record turn_out { carrier = true; server_cid = r.server_cid })
              bytes
              t
            ≡ Client.emit (to_server (length bytes / 2 ^ 8 ∷ length bytes % 2 ^ 8 ∷ bytes)) t)
  unfolding attempt build_turn_client Client.send_to_server encode_stream_frame
  fallback_frames c g turn_out bytes t tls named no_tls no_tcp udp_ opens fits =
      let cid = out.session.cid_to false udp c.server c.port in
      let there = ==_false cid 0 opens in
      let short : ltb 0xFFFF (length bytes) ≡ false = ground arith in
      let r = built_client cfg out c over_udp cid in
      let built : build_turn_client cfg out c ≡ some r = elim (Bool-cases c.tcp_transport) [
        | inl tcp ↦ simp (build_turn_client, tls, no_tls, no_tcp, udp_, there, tcp) refl
        | inr datagram ↦ simp (build_turn_client, tls, no_tls, no_tcp, udp_, there, datagram) refl
      ] in
      (
        r,
        elim (Bool-cases out.timers) [
          | inl timers ↦ simp (attempt, named, built, timers) refl
          | inr none_ ↦ simp (attempt, named, built, none_) refl
        ],
        refl,
        simp (Client.send_to_server, encode_stream_frame, tls, there, short) (ground arith),
      )
