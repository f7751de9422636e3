-- ===== src/Session/Accepted.antt =====
-- A check request of one agent at the other: `send_check` and `on_carrier_data` (session.cpp).
use link_ice.Prelude.{
  ℕ, ◌+◌, ◌^◌, ◌≤◌, ◌<◌, ◌≡◌, refl, sym, ap, ◌∙◌, Bool, true, false, Bytes, length, value,
}
use link_ice.Stun.CheckRequest.{
  Check, check_username, check_request, checked, parse_stun-check_request,
}
use link_ice.Stun.CheckSigned.{verify-check_request}
use link_ice.Stun.Integrity.{verify_integrity}
use link_ice.Stun.Parser.{new_message}
use link_ice.Session.{IceConfig, Outside, Session}
use link_ice.Session.Requests.{handle_binding_request}
use link_ice.Session.Receive.{integrity_key, answers_probe, dispatch, on_stun, on_carrier_data}

module _ (cfg : IceConfig) (out : Outside) where
  -- A check that an agent sends with the peer's password passes the peer's integrity check, whatever state the
  -- peer is in, and the peer handles exactly the request that was meant: its username, priority, role, tie-breaker
  -- and nomination. The digest has 20 bytes, the fields fit their attributes, and the check does not arrive
  -- over the connection to the TURN server.
  pub check_request-handled :
      ((key msg : Bytes) → length (out.hmac_sha1 key msg) ≡ 20)
      → (c : Check) (random_txn : Bytes) (cid : ℕ) (from_tcp : Bool) (peer : Session)
      → length c.txn_id ≡ 12
      → c.priority < 2 ^ 32
      → c.tiebreaker < 2 ^ 64
      → length (check_username c) + 128 ≤ 2 ^ 16
      → c.remote_pwd ≡ peer.local_pwd
      → out.is_turn_server cid ≡ false
      → on_carrier_data cfg out cid (check_request out.hmac_sha1 c random_txn) from_tcp peer
        ≡ value (
            handle_binding_request cfg out
              (checked c)
              cid
              from_tcp
              (record peer { last_activity = out.now }))
  unfolding on_carrier_data on_stun answers_probe integrity_key dispatch checked new_message
  check_request-handled hmac_length c random_txn cid from_tcp peer txn priority tiebreaker room key
        direct =
      let bytes = check_request out.hmac_sha1 c random_txn in
      let parsed =
        parse_stun-check_request out.inet out.hmac_sha1 hmac_length c txn priority tiebreaker
          random_txn room in
      let valid : verify_integrity out.hmac_sha1 bytes peer.local_pwd ≡ value true =
        sym (ap (verify_integrity out.hmac_sha1 bytes) key)
        ∙ verify-check_request out.hmac_sha1 hmac_length c random_txn txn room in
      rw (direct, parsed, valid) refl
