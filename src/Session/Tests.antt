-- ===== src/Session/Tests.antt =====
-- Runs of the session on a small pair of candidates.
use link_ice.Prelude.{
  ◌≤◌, ◌≡◌, refl, arith, true, false, ◌&&◌, ◌||◌, not, if◌then◌else◌, [], ◌∷◌, bytes_eq, some,
  replicate, value, All,
}
use link_ice.Candidate.{Candidate, transport_is_tcp}
use link_ice.CheckList.Static.{count}
use link_ice.Stun.Parser.{StunMessage, new_message}
use link_ice.Session.{connected, Session}
use link_ice.Session.Pairing.{build_check_list}
use link_ice.Session.Built.{IsBuilt, build_check_list-IsBuilt}
use link_ice.Session.Tick.{is_connected}
use link_ice.Session.Role.{handle_role_conflict, role_conflict_resolved}
use link_ice.Session.Consent.{send_on, keepalive, on_keepalive}
use link_ice.Session.ConsentBound.{unanswered, consent_expires}
use link_ice.Session.Nominate.{
  find_pair, conclude, succeed, discover, measure, on_nominated, start_search, nominated_state,
  handle_check_response,
}
use link_ice.Session.Requests.{
  is_succeeded, is_nominated_by, nomination_by, accept_request, handle_binding_request,
  maybe_trigger_check_from_peer, use_candidate, nominate_or_defer, reply,
}
use link_ice.Session.Address.{address_str}
use link_ice.Session.Receive.{on_binding_error, on_carrier_data}
use link_ice.Session.Authentic.{keepalive_unanswered, conflict_race}
use link_ice.Session.Accepted.{check_request-handled}
use link_ice.Stun.CheckRequest.{Check, check_username, check_request, checked}
use link_ice.Session.Stranded.{
  tick, response, inbound_request, KeepsRole, run_events, recovery_stays_unconnected,
}
use link_ice.Session.Remote.{merge, is_known, Distinct, merge-Distinct}
use link_ice.Session.Verified.{accept_request-verified, handle_check_response-verified}
use link_ice.Session.Samples.{
  cfg, out, local_host, remote_host, only_pair, session, insertion_sort-SortLaws,
}

build_check_list-IsBuilt_example : IsBuilt (build_check_list cfg out session)
build_check_list-IsBuilt_example = build_check_list-IsBuilt cfg out insertion_sort-SortLaws session

role_conflict_resolved_example :
    ((handle_role_conflict cfg out false 6 session).1
      ≡ not (handle_role_conflict cfg out false 4 (record session { tiebreaker = 6 })).1)
    × ((handle_role_conflict cfg out false 6 session).0.controlling
        ≡ not
            (handle_role_conflict cfg out false 4
              (record session { tiebreaker = 6 })).0.controlling)
role_conflict_resolved_example =
    role_conflict_resolved cfg out session (record session { tiebreaker = 6 }) refl
      (λ e. absurd (omega (arith, e)))

abbrev request : StunMessage
request = record (new_message 1 (replicate 12 3)) { use_candidate = true }

-- A check with the empty password of the session.
abbrev inbound_check : Check
inbound_check = record {
  txn_id = replicate 12 3;
  remote_ufrag = 97 ∷ [];
  local_ufrag = 99 ∷ [];
  priority = 2130706431;
  controlling = true;
  tiebreaker = 77;
  aggressive_nomination = false;
  nominee_check_sent = true;
  remote_pwd = [];
}

check_request-handled_example :
    on_carrier_data cfg out 5 (check_request out.hmac_sha1 inbound_check []) false session
    ≡ value (
        handle_binding_request cfg out
          (checked inbound_check)
          5
          false
          (record session { last_activity = out.now }))
unfolding check_username
check_request-handled_example =
    check_request-handled cfg out (λ key msg. refl) inbound_check [] 5 false session refl
      (omega arith) (omega arith) (omega arith) refl refl

keepalive_unanswered_example :
    on_carrier_data cfg out 5 (keepalive (replicate 12 3)) false session
    ≡ value (record session { last_activity = out.now })
keepalive_unanswered_example =
    keepalive_unanswered cfg out (replicate 12 3) 5 false session refl refl

conflict_race_example :
    (on_binding_error cfg out
      (record (new_message 0x0111 []) { error_code = some 487 })
      (handle_role_conflict cfg out false 6 session).0).controlling
    ≡ false
conflict_race_example =
    conflict_race cfg out session 6 (record (new_message 0x0111 []) { error_code = some 487 })
      (omega arith) refl

abbrev connected_controller : Session
connected_controller = record session {
  state = connected;
  controlling = true;
  nominee_selected = true;
  consent_missed = 2;
}

recovery_stays_unconnected_example :
    is_connected
      (run_events cfg out
        (tick 1100
          ∷ response (new_message 0x0101 (replicate 12 0))
          ∷ inbound_request (new_message 0x0001 (replicate 12 1)) 5 false
          ∷ [])
        (on_keepalive cfg out connected_controller)).state
    ≡ false
unfolding KeepsRole new_message
recovery_stays_unconnected_example =
    recovery_stays_unconnected cfg out refl insertion_sort-SortLaws connected_controller
      (tick 1100
        ∷ response (new_message 0x0101 (replicate 12 0))
        ∷ inbound_request (new_message 0x0001 (replicate 12 1)) 5 false
        ∷ [])
      refl refl refl refl (omega arith) (omega arith) (omega arith) (refl, tt)

consent_expires_example :
    (is_connected (unanswered cfg out 2 (record session { state = connected })).state ≡ true)
    × ((unanswered cfg out 2 (record session { state = connected })).consent_missed ≡ 2)
    × (is_connected
          (on_keepalive cfg out (unanswered cfg out 2 (record session { state = connected }))).state
        ≡ false)
consent_expires_example =
    consent_expires cfg out 2 (record session { state = connected }) refl refl refl (omega arith)
      (omega arith)

accept_request-verified_example :
    (request.use_candidate ≡ true)
    × (session.controlling ≡ false)
    × (1
        ≤ count
            (λ p. is_succeeded p.state && is_nominated_by cfg out (nomination_by cfg out 5 false) p)
            session.check_list)
unfolding accept_request maybe_trigger_check_from_peer use_candidate nomination_by nominate_or_defer
    find_pair reply address_str on_nominated start_search on_keepalive nominated_state send_on
    transport_is_tcp
accept_request-verified_example = accept_request-verified cfg out request 5 false session refl refl

abbrev waiting_for_success : Session
waiting_for_success = record session {
  check_list = record only_pair { pending_nomination = true } ∷ [];
}

handle_check_response-verified_example :
    1
    ≤ count
        (λ p.
          bytes_eq p.txn_id (replicate 12 0)
          && (if false then false || p.nominee_check_sent else p.pending_nomination))
        waiting_for_success.check_list
unfolding handle_check_response find_pair new_message conclude succeed discover measure on_nominated
    start_search on_keepalive nominated_state
handle_check_response-verified_example =
    handle_check_response-verified cfg out (new_message 0x0101 (replicate 12 0)) waiting_for_success
      refl refl

merge-Distinct_example :
    let s = merge cfg out (remote_host ∷ local_host ∷ local_host ∷ []) session in
    Distinct cfg out s.remote_candidates
    × All
        (λ c. is_known cfg out c s.remote_candidates ≡ true)
        (remote_host ∷ local_host ∷ local_host ∷ [])
    × ((c : Candidate)
        → is_known cfg out c session.remote_candidates ≡ true
        → is_known cfg out c s.remote_candidates ≡ true)
unfolding Distinct
merge-Distinct_example =
    merge-Distinct cfg out (remote_host ∷ local_host ∷ local_host ∷ []) session (tt, tt)
