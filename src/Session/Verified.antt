-- ===== src/Session/Verified.antt =====
-- When a session becomes connected (session.cpp): only over a pair that was checked.
use link_ice.Prelude.{
  ℕ, zero, suc, ◌≤◌, ◌≡◌, refl, sym, ap, ◌∙◌, subst, arith, ◌&&◌, ◌||◌, not, Bool, true, false,
  if◌then◌else◌, List, [], ◌∷◌, Bytes, bytes_eq, get_elem?, Option, some, none, Option-cases,
  Bool-cases, inl, inr,
}
use link_ice.Candidate.{Candidate, prflx, family_code}
use link_ice.CheckList
use link_ice.CheckList.{
  CheckPair, Checks, Tick, next_tick, nomination_wait, session_failed, succeeded, set_at,
}
use link_ice.CheckList.Static.{count}
use link_ice.Stun.Address.{MappedAddress}
use link_ice.Stun.Parser.{StunMessage}
use link_ice.Session.{SessionState, IceConfig, Outside, Session, Nomination}
use link_ice.Session.Address.{is_empty, set_address}
use link_ice.Session.Tick.{
  is_checking, is_connected, give_up, after_tick, checks_of, run_next_check,
}
use link_ice.Session.Found.{find_pair_sound}
use link_ice.Session.Nominate.{
  no_candidate, find_pair, best_valid, nominate_best, measure, discover, succeed, conclude,
  handle_check_response,
}
use link_ice.Session.Requests.{
  is_succeeded, source, reply, success_response, local_of_family, trigger,
  maybe_trigger_check_from_peer, defer_nomination, nomination_by, is_nominated_by,
  nominate_or_defer, use_candidate, accept_request,
}

found_counts :
    (q : CheckPair → Bool) (i : ℕ) (p : CheckPair) (ps : List CheckPair)
    → get_elem? ps i ≡ some p
    → q p ≡ true
    → 1 ≤ count q ps
unfolding count
found_counts q i p [] e h = absurd (ground arith)
found_counts q zero p (x ∷ ps) e h = let same : q x ≡ q p = ground arith in ground arith
found_counts q (suc i) p (x ∷ ps) e h = omega (arith, found_counts q i p ps e h)

after_tick-apart :
    (s : Session) (c : Checks) (t : Tick)
    → is_connected s.state ≡ false
    → is_connected (after_tick s (c, t)).state ≡ false
unfolding after_tick give_up
after_tick-apart s c next_tick h = h
after_tick-apart s c nomination_wait h = h
after_tick-apart s c session_failed h = refl

module _ (cfg : IceConfig) (out : Outside) where
  pub run_next_check-apart :
      (now : ℕ) (s : Session)
      → is_connected s.state ≡ false
      → is_connected (run_next_check cfg out now s).state ≡ false
  unfolding run_next_check checks_of
  run_next_check-apart now s h =
      let (c, t) = CheckList.run_next_check cfg.checks now (checks_of cfg out s) in
      elim (Bool-cases (is_checking s.state)) [
        | inl y ↦ rw y (after_tick-apart s c t h)
        | inr n ↦ rw n h
      ]

  reply-state :
      (cid : ℕ) (tcp : Bool) (m : Bytes) (s : Session) → (reply cfg out cid tcp m s).state ≡ s.state
  unfolding reply
  reply-state cid tcp m s = ground arith

  reply-list :
      (cid : ℕ) (tcp : Bool) (m : Bytes) (s : Session)
      → (reply cfg out cid tcp m s).check_list ≡ s.check_list
  unfolding reply
  reply-list cid tcp m s = ground arith

  trigger-state :
      (l : Candidate) (ip : Bytes) (port : ℕ) (s : Session)
      → (trigger cfg out l ip port s).state ≡ s.state
  unfolding trigger
  trigger-state l ip port s = refl

  maybe_trigger-state :
      (ip : Bytes) (port : ℕ) (s : Session)
      → (maybe_trigger_check_from_peer cfg out ip port s).state ≡ s.state
  unfolding maybe_trigger_check_from_peer
  maybe_trigger-state ip port s =
      let at = set_address out.inet ip (record no_candidate { type = prflx }) in
      elim (Option-cases (local_of_family cfg out (family_code at.family) s.local_candidates)) [
        | inl e ↦ rw (maybe_trigger_check_from_peer, e) (ground arith)
        | inr (l, e) ↦
            let kept = trigger-state l ip port s in
            rw (maybe_trigger_check_from_peer, e) (ground arith)
      ]

  defer-state :
      (n : Nomination) (f : Option (ℕ × CheckPair)) (s : Session)
      → (defer_nomination cfg out n f s).state ≡ s.state
  unfolding defer_nomination
  defer-state n none s = refl
  defer-state n (some (i, p)) s = refl

  nominate_or_defer-verified :
      (n : Nomination) (found : Option (ℕ × CheckPair)) (s : Session)
      → is_connected s.state ≡ false
      → is_connected (nominate_or_defer cfg out n found s).state ≡ true
      → (i : ℕ) × (p : CheckPair) × (found ≡ some (i, p)) × (is_succeeded p.state ≡ true)
  unfolding nominate_or_defer
  nominate_or_defer-verified n none s h c =
      let d = defer_nomination cfg out n none s in
      let apart =
        run_next_check-apart out.now d
          (ap (λ (t : SessionState). is_connected t) (defer-state n none s) ∙ h) in
      absurd (cc)
  nominate_or_defer-verified n (some (i, p)) s h c = elim (Bool-cases (is_succeeded p.state)) [
    | inl yes_it_has ↦ (i, p, refl, yes_it_has)
    | inr not_yet ↦
        let d = defer_nomination cfg out n (some (i, p)) s in
        let apart =
          run_next_check-apart out.now d
            (ap (λ (t : SessionState). is_connected t) (defer-state n (some (i, p)) s) ∙ h) in
        absurd (ground arith)
  ]

  -- USE-CANDIDATE connects at once only over a pair that has succeeded.
  use_candidate-verified :
      (cid : ℕ) (tcp : Bool) (s : Session)
      → is_connected s.state ≡ false
      → is_connected (use_candidate cfg out cid tcp s).state ≡ true
      → 1
        ≤ count
            (λ p. is_succeeded p.state && is_nominated_by cfg out (nomination_by cfg out cid tcp) p)
            s.check_list
  unfolding use_candidate
  use_candidate-verified cid tcp s h c =
      let n = nomination_by cfg out cid tcp in
      let found = find_pair (is_nominated_by cfg out n) 0 s.check_list in
      elim (Bool-cases (is_empty n.ip)) [
        | inl unknown ↦ absurd (ground arith)
        | inr known ↦
            let c' : is_connected (nominate_or_defer cfg out n found s).state ≡ true =
              ground arith in
            let (i, p, e, good) = nominate_or_defer-verified n found s h c' in
            let (at, matches) = find_pair_sound (is_nominated_by cfg out n) i p s.check_list e in
            found_counts (λ q. is_succeeded q.state && is_nominated_by cfg out n q) i p s.check_list
              at (rw good matches)
      ]

  -- A request that a session accepts while it is not connected connects it only if it carries USE-CANDIDATE,
  -- this side is controlled, and a pair for the connection's endpoint and transport has succeeded before.
  pub accept_request-verified :
      (msg : StunMessage) (cid : ℕ) (tcp : Bool) (s : Session)
      → is_connected s.state ≡ false
      → is_connected (accept_request cfg out msg cid tcp s).state ≡ true
      → (msg.use_candidate ≡ true)
        × (s.controlling ≡ false)
        × (1
            ≤ count
                (λ p.
                  is_succeeded p.state && is_nominated_by cfg out (nomination_by cfg out cid tcp) p)
                s.check_list)
  unfolding accept_request
  accept_request-verified msg cid tcp s h c =
      let (ip, port) = source (out.endpoint tcp cid) in
      let t = reply cfg out cid tcp (success_response cfg out s msg.txn_id) s in
      let kept = reply-state cid tcp (success_response cfg out s msg.txn_id) s in
      let list = reply-list cid tcp (success_response cfg out s msg.txn_id) s in
      let apart : is_connected t.state ≡ false =
        ap (λ (x : SessionState). is_connected x) kept ∙ h in
      let asks = msg.use_candidate && not s.controlling in
      let u = use_candidate cfg out cid tcp t in
      let w = if asks then u else t in
      let cw : is_connected w.state ≡ true =
        ap (λ (x : SessionState). is_connected x) (sym (maybe_trigger-state ip port w)) ∙ c in
      elim (Bool-cases asks) [
        | inl asked ↦
            let c' : is_connected u.state ≡ true =
              ap (λ (b : Bool). is_connected (if b then u else t).state) (sym asked) ∙ cw in
            let good = use_candidate-verified cid tcp t apart c' in
            let q = λ (p : CheckPair).
              is_succeeded p.state && is_nominated_by cfg out (nomination_by cfg out cid tcp) p in
            (ground arith, ground arith, subst (λ (l : List CheckPair). 1 ≤ count q l) list good)
        | inr other ↦
            let c' : is_connected t.state ≡ true =
              ap (λ (b : Bool). is_connected (if b then u else t).state) (sym other) ∙ cw in
            absurd (ground arith)
      ]

  nominate_best-state : (s : Session) → (nominate_best cfg out s).state ≡ s.state
  unfolding nominate_best
  nominate_best-state s = elim (Option-cases (best_valid 0 s.check_list none)) [
    | inl e ↦ rw (nominate_best, e) refl
    | inr ((i, p), e) ↦ rw (nominate_best, e) refl
  ]

  -- The check response that connects a session.
  conclude-verified :
      (i : ℕ) (p : CheckPair) (s : Session)
      → is_connected s.state ≡ false
      → is_connected (conclude cfg out i p s).state ≡ true
      → (if s.controlling
          then cfg.aggressive_nomination || p.nominee_check_sent
          else p.pending_nomination)
        ≡ true
  unfolding conclude
  conclude-verified i p s h c = let best = nominate_best-state s in ground arith

  measure-state : (p : CheckPair) (s : Session) → (measure cfg out p s).state ≡ s.state
  unfolding measure
  measure-state p s = ground arith

  measure-controlling :
      (p : CheckPair) (s : Session) → (measure cfg out p s).controlling ≡ s.controlling
  unfolding measure
  measure-controlling p s = ground arith

  discover-state :
      (p : CheckPair) (m : Option MappedAddress) (s : Session)
      → (discover cfg out p m s).state ≡ s.state
  unfolding discover
  discover-state p none s = refl
  discover-state p (some m) s = ground arith

  discover-controlling :
      (p : CheckPair) (m : Option MappedAddress) (s : Session)
      → (discover cfg out p m s).controlling ≡ s.controlling
  unfolding discover
  discover-controlling p none s = refl
  discover-controlling p (some m) s = ground arith

  -- A response connects a session that checks only if it answers the check of a pair (its transaction id is
  -- the pair's) that was to be nominated: by the controlling agent under aggressive nomination or as its
  -- nominee, by the controlled agent because the peer asked for it with USE-CANDIDATE.
  pub handle_check_response-verified :
      (msg : StunMessage) (s : Session)
      → is_connected s.state ≡ false
      → is_connected (handle_check_response cfg out msg s).state ≡ true
      → 1
        ≤ count
            (λ p.
              bytes_eq p.txn_id msg.txn_id
              && (if s.controlling
                  then cfg.aggressive_nomination || p.nominee_check_sent
                  else p.pending_nomination))
            s.check_list
  unfolding handle_check_response succeed
  handle_check_response-verified msg s h c =
      let q = λ (p : CheckPair). bytes_eq p.txn_id msg.txn_id in
      let wanted = λ (b : Bool) (p : CheckPair).
        if b then cfg.aggressive_nomination || p.nominee_check_sent else p.pending_nomination in
      elim (Bool-cases (is_checking s.state)) [
        | inr idle ↦ absurd (ground arith)
        | inl busy ↦ elim (Option-cases (find_pair q 0 s.check_list)) [
          | inl e ↦
              let same : handle_check_response cfg out msg s ≡ s =
                rw (handle_check_response, busy, e) refl in
              absurd (ground (arith, ap (λ (x : Session). is_connected x.state) same))
          | inr ((i, p), e) ↦
              let (at, holds) = find_pair_sound q i p s.check_list e in
              let t = measure cfg out p s in
              let u = record t {
                nominated_local_type = p.local.type;
                nominated_remote_type = p.remote.type;
              } in
              let v = discover cfg out p msg.xor_mapped u in
              let w = succeed cfg out i p v in
              let role : w.controlling ≡ s.controlling =
                discover-controlling p msg.xor_mapped u ∙ measure-controlling p s in
              let kept : w.state ≡ s.state =
                discover-state p msg.xor_mapped u ∙ measure-state p s in
              let same : handle_check_response cfg out msg s ≡ conclude cfg out i p w =
                rw (handle_check_response, busy, e) refl in
              let ready =
                conclude-verified i p w (ap (λ (x : SessionState). is_connected x) kept ∙ h)
                  (ap (λ (x : Session). is_connected x.state) (sym same) ∙ c) in
              found_counts (λ x. q x && wanted s.controlling x) i p s.check_list at
                (rw holds (subst (λ (b : Bool). wanted b p ≡ true) role ready))
        ]
      ]
