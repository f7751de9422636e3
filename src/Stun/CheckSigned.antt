-- ===== src/Stun/CheckSigned.antt =====
-- The signature of a check request under the key of the peer (stun.cpp, session.cpp).
use link_ice.Prelude.{
  ℕ, ◌+◌, ◌^◌, ◌≤◌, ◌<◌, ◌≡◌, refl, arith, Bool, true, false, ◌||◌, [], ◌∷◌, Bytes, length, All,
  bit_xor, value,
}
use link_ice.Stun.Constants.{binding_request, attr_username, attr_priority, attr_fingerprint}
use link_ice.Stun.Endian.{write32, length-write32, length-write64}
use link_ice.Stun.Crc.{crc32}
use link_ice.Stun.Builder.{
  StunBuilder, new_builder, add_attr_u32, add_integrity, add_fingerprint, wire_with,
}
use link_ice.Stun.RoundTrip.{
  Fits, encode_all, add_all, length-encode_all_cons, length-encode_all_nil,
}
use link_ice.Stun.Integrity.{NotIntegrity, verify_integrity}
use link_ice.Stun.Signed.{verify-add_integrity}
use link_ice.Stun.CheckRequest.{
  Check, check_username, check_request, role_attrs, check_attrs, check_builder-add_all,
}

ruleset sizes =
    (arith, length-encode_all_cons, length-encode_all_nil, length-write32, length-write64)

-- The attributes of a check request fit, and the signature is not among them.
signed_sizes :
    (controlling nominate : Bool) (username priority crc : Bytes) (tiebreaker : ℕ)
    → length username + 128 ≤ 2 ^ 16
    → length priority ≡ 4
    → length crc ≡ 4
    → let avs =
        (attr_username, username)
        ∷ (attr_priority, priority)
        ∷ role_attrs controlling nominate tiebreaker in
      All Fits avs
      × All NotIntegrity avs
      × (length (encode_all avs) + (24 + length (encode_all ((attr_fingerprint, crc) ∷ [])))
          < 2 ^ 16)
signed_sizes true true u p c tb room hp hc = omega sizes
signed_sizes true false u p c tb room hp hc = omega sizes
signed_sizes false nominate u p c tb room hp hc = omega sizes

-- The attribute that `add_fingerprint` adds.
abbrev fingerprint : StunBuilder → Bytes
fingerprint b = write32 (bit_xor (crc32 (wire_with 8 b)) 0x5354554E)

add_fingerprint-add_all :
    (b : StunBuilder) → add_fingerprint b ≡ add_all ((attr_fingerprint, fingerprint b) ∷ []) b
unfolding add_fingerprint add_attr_u32 add_all
add_fingerprint-add_all b = refl

-- A check request passes the check of the peer under the password that it was made for.
pub verify-check_request :
    (hmac_sha1 : Bytes → Bytes → Bytes)
    → ((key msg : Bytes) → length (hmac_sha1 key msg) ≡ 20)
    → (c : Check) (random_txn : Bytes) → length c.txn_id ≡ 12
    → length (check_username c) + 128 ≤ 2 ^ 16
    → verify_integrity hmac_sha1 (check_request hmac_sha1 c random_txn) c.remote_pwd ≡ value true
unfolding check_request check_attrs
verify-check_request hmac_sha1 hmac_length c random_txn txn room =
    let base = add_all (check_attrs c) (new_builder binding_request c.txn_id) in
    let signed = add_integrity hmac_sha1 c.remote_pwd base in
    let (fits, others, small) =
      signed_sizes c.controlling (c.aggressive_nomination || c.nominee_check_sent)
        (check_username c) (write32 c.priority) (fingerprint signed) c.tiebreaker room
        (length-write32 c.priority) (length-write32 _) in
    rw (check_builder-add_all c random_txn, add_fingerprint-add_all signed)
      (verify-add_integrity hmac_sha1 hmac_length c.remote_pwd binding_request c.txn_id
        (check_attrs c) ((attr_fingerprint, fingerprint signed) ∷ []) (omega arith) txn fits others
        small)
