-- ===== src/Session/ConsentBound.antt =====
-- How long a session stays connected without an answer, and how often it recovers (session.cpp).
use link_ice.Prelude.{
  ℕ, zero, suc, ◌+◌, ◌%◌, ◌^◌, ◌<◌, ◌≡◌, refl, ap, ◌∙◌, arith, true, false, leb, length, none, some,
}
use link_ice.CheckList
use link_ice.CheckList.{Checks, Tick, next_tick, nomination_wait, session_failed}
use link_ice.Session.{
  SessionState, new, gathering, waiting_remote, checking, connected, gave_up, IceConfig, Outside,
  Session, on_auto_restart, emit,
}
use link_ice.Session.Pairing.{build_check_list}
use link_ice.Session.Tick.{is_connected, give_up, begin_checks}
use link_ice.Session.Verified.{run_next_check-apart}
use link_ice.Session.Consent.{
  is_failed, send_on, backoff_over, restart, notify_consent_loss, on_keepalive,
}

failed-apart : (t : SessionState) → is_failed t ≡ true → is_connected t ≡ false
failed-apart new h = refl
failed-apart gathering h = refl
failed-apart waiting_remote h = refl
failed-apart checking h = refl
failed-apart connected h = cc
failed-apart gave_up h = refl

module _ (cfg : IceConfig) (out : Outside) where
  -- `n` keepalives without an answer to any.
  unfoldable pub unanswered : ℕ → Session → Session
  unanswered zero s = s
  unanswered (suc n) s = unanswered n (on_keepalive cfg out s)

  -- What a keepalive below the limit leaves.
  keepalive_below :
      (s : Session)
      → is_connected s.state ≡ true
      → cfg.lite_mode ≡ false
      → (s.consent_missed + 1) < cfg.consent_max_failures
      → cfg.consent_max_failures < 2 ^ 32
      → ((on_keepalive cfg out s).state ≡ s.state)
        × ((on_keepalive cfg out s).consent_missed ≡ s.consent_missed + 1)
        × ((on_keepalive cfg out s).auto_restart_last ≡ s.auto_restart_last)
  unfolding on_keepalive send_on
  keepalive_below s conn full below small =
      let wrapped : (s.consent_missed + 1) % 2 ^ 32 ≡ s.consent_missed + 1 = omega arith in
      (ground arith, ground arith, ground arith)

  -- Below the limit every keepalive is counted and the session stays connected.
  unanswered_below :
      (n : ℕ) (s : Session)
      → is_connected s.state ≡ true
      → cfg.lite_mode ≡ false
      → (s.consent_missed + n) < cfg.consent_max_failures
      → cfg.consent_max_failures < 2 ^ 32
      → (is_connected (unanswered n s).state ≡ true)
        × ((unanswered n s).consent_missed ≡ s.consent_missed + n)
        × ((unanswered n s).auto_restart_last ≡ s.auto_restart_last)
  unfolding unanswered
  unanswered_below zero s conn full below small = (conn, omega arith, refl)
  unanswered_below (suc n) s conn full below small =
      let (st, miss, rec) = keepalive_below s conn full (omega arith) small in
      let t = on_keepalive cfg out s in
      let conn' : is_connected t.state ≡ true =
        ap (λ (x : SessionState). is_connected x) st ∙ conn in
      let (a, b, c) = unanswered_below n t conn' full (omega (arith, miss)) small in
      (a, omega (arith, b, miss), c ∙ rec)

  restart-apart : (s : Session) → is_connected (restart cfg out s).state ≡ false
  unfolding restart
  restart-apart s = let idle = failed-apart s.state in ground arith

  notify_consent_loss-apart :
      (s : Session)
      → s.auto_restart_last ≡ none
      → is_connected (notify_consent_loss cfg out s).state ≡ false
  unfolding notify_consent_loss give_up backoff_over
  notify_consent_loss-apart s fresh =
      let n = (s.auto_restart_attempts + 1) % 2 ^ 32 in
      let t = emit (on_auto_restart n) (record s {
        auto_restart_attempts = n;
        auto_restart_last = some out.now;
        consent_missed = 0;
      }) in
      let again = restart-apart t in
      let over : backoff_over cfg out s ≡ true = rw (backoff_over, fresh) refl in ground arith

  begin_checks-apart :
      (s : Session)
      → is_connected s.state ≡ false
      → is_connected (begin_checks cfg out s).state ≡ false
  unfolding begin_checks
  begin_checks-apart s h =
      let fired =
        CheckList.fire cfg.checks out.now (length s.check_list) 0 false false s.check_list in
      let later = run_next_check-apart cfg out out.later (record s { check_list = fired }) h in
      ground arith

  keepalive_at_limit :
      (s : Session)
      → is_connected s.state ≡ true
      → cfg.lite_mode ≡ false
      → s.auto_restart_last ≡ none
      → s.consent_missed + 1 ≡ cfg.consent_max_failures
      → cfg.consent_max_failures < 2 ^ 32
      → is_connected (on_keepalive cfg out s).state ≡ false
  unfolding on_keepalive build_check_list
  keepalive_at_limit s conn full fresh at small =
      let wrapped : (s.consent_missed + 1) % 2 ^ 32 ≡ s.consent_missed + 1 = omega arith in
      let over : leb cfg.consent_max_failures (s.consent_missed + 1) ≡ true = ground arith in
      let t = record s {
        consent_recovery_attempts = s.consent_recovery_attempts + 1;
        consent_missed = 0;
        state = checking;
      } in
      let recovers = begin_checks-apart (build_check_list cfg out t) refl in
      let lost =
        notify_consent_loss-apart (record s { consent_missed = s.consent_missed + 1 }) fresh in
      simp (conn, full, wrapped, over) (ground arith)

  -- The consent of a session that gets no answer runs out exactly at the limit: the session is connected and
  -- counts every keepalive while the failures are below consent_max_failures, and the keepalive that reaches
  -- it ends the connection, by a recovery, a restart or the failure of the session. No automatic restart is
  -- pending, which on_nominated ensures; the agent is no lite agent and the limit fits the 32-bit counter.
  pub consent_expires :
      (n : ℕ) (s : Session)
      → is_connected s.state ≡ true
      → cfg.lite_mode ≡ false
      → s.auto_restart_last ≡ none
      → s.consent_missed + (n + 1) ≡ cfg.consent_max_failures
      → cfg.consent_max_failures < 2 ^ 32
      → (is_connected (unanswered n s).state ≡ true)
        × ((unanswered n s).consent_missed ≡ s.consent_missed + n)
        × (is_connected (on_keepalive cfg out (unanswered n s)).state ≡ false)
  consent_expires n s conn full fresh at small =
      let (a, b, c) = unanswered_below n s conn full (omega (arith, at)) small in
      (a, b, keepalive_at_limit (unanswered n s) a full (c ∙ fresh) (omega (arith, at, b)) small)
