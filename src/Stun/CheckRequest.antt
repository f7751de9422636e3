-- ===== src/Stun/CheckRequest.antt =====
-- The binding request of a connectivity check, as `IceSession::send_check` of session.cpp builds it,
-- and what the peer's parser makes of it.
use link_ice.Prelude.{
  ℕ, ◌+◌, ◌^◌, ◌≤◌, ◌<◌, ◌≡◌, refl, sym, arith, List, [], ◌∷◌, ◌++◌, Bytes, Bool, true, false, ◌||◌,
  none, some, if◌then◌else◌, All, length, bit_xor, value, read32, read_bytes, append-nil, ◌&&◌,
}
use link_ice.Stun.Constants.{
  binding_request, attr_username, attr_priority, attr_ice_controlling, attr_ice_controlled,
  attr_use_candidate, attr_message_integrity, attr_fingerprint,
}
use link_ice.Stun.Endian.{
  write32, write64, length-write32, length-write64, read32-write32, read_bytes-append,
}
use link_ice.Stun.Address.{Inet}
use link_ice.Stun.Crc.{crc32}
use link_ice.Stun.Builder.{
  StunBuilder, new_builder, set_txn_id, add_attr, add_attr_u32, add_attr_u64, add_username,
  add_priority, add_ice_controlling, add_ice_controlled, add_use_candidate, add_integrity,
  add_fingerprint, build, wire_with,
}
use link_ice.Stun.Parser.{StunMessage, new_message, read64, handle_attr, parse_stun}
use link_ice.Stun.RoundTrip.{
  Fits, apply_all, encode_all, add_all, add_all-append, length-encode_all_cons,
  length-encode_all_nil,
}
use link_ice.Stun.Codec.{parse_stun-build}

-- What `send_check` reads of the pair, of the session and of its configuration.
pub record Check : Type 0 where
  pub txn_id : Bytes
  pub remote_ufrag : Bytes
  pub local_ufrag : Bytes
  pub priority : ℕ
  pub controlling : Bool
  pub tiebreaker : ℕ
  pub aggressive_nomination : Bool
  pub nominee_check_sent : Bool
  pub remote_pwd : Bytes

-- `remote_ufrag_ + ":" + local_ufrag_`
unfoldable pub check_username : Check → Bytes
check_username c = c.remote_ufrag ++ (0x3A ∷ c.local_ufrag)

unfoldable pub add_role : Check → StunBuilder → StunBuilder
add_role c b =
    if c.controlling
    then if c.aggressive_nomination || c.nominee_check_sent
      then add_use_candidate (add_ice_controlling c.tiebreaker b)
      else add_ice_controlling c.tiebreaker b
    else add_ice_controlled c.tiebreaker b

unfoldable pub check_builder : Check → Bytes → StunBuilder
unfolding add_role
check_builder c random_txn = add_role c (
    add_priority c.priority (
      add_username (check_username c)
        (set_txn_id c.txn_id (new_builder binding_request random_txn))))

unfoldable pub check_request : (Bytes → Bytes → Bytes) → Check → Bytes → Bytes
check_request hmac_sha1 c random_txn =
    build (add_fingerprint (add_integrity hmac_sha1 c.remote_pwd (check_builder c random_txn)))

-- The attributes of the role, as a list.
abbrev pub role_attrs : Bool → Bool → ℕ → List (ℕ × Bytes)
role_attrs true true tb = (attr_ice_controlling, write64 tb) ∷ (attr_use_candidate, []) ∷ []
role_attrs true false tb = (attr_ice_controlling, write64 tb) ∷ []
role_attrs false nominate tb = (attr_ice_controlled, write64 tb) ∷ []

unfoldable pub check_attrs : Check → List (ℕ × Bytes)
check_attrs c =
    (attr_username, check_username c)
    ∷ (attr_priority, write32 c.priority)
    ∷ role_attrs c.controlling (c.aggressive_nomination || c.nominee_check_sent) c.tiebreaker

read64-write64 : (n : ℕ) (q : Bytes) → n < 2 ^ 64 → read64 (write64 n ++ q) ≡ value n
unfolding read64 read32 write64 write32
read64-write64 n q h = ground arith

add_role-add_all :
    (c : Check) (b : StunBuilder)
    → add_role c b
      ≡ add_all
          (role_attrs c.controlling (c.aggressive_nomination || c.nominee_check_sent) c.tiebreaker)
          b
unfolding add_role add_all add_ice_controlling add_ice_controlled add_use_candidate add_attr_u64
add_role-add_all c b = go c.controlling (c.aggressive_nomination || c.nominee_check_sent)
  where
    go :
        (controlling nominate : Bool)
        → (if controlling
            then if nominate
              then add_use_candidate (add_ice_controlling c.tiebreaker b)
              else add_ice_controlling c.tiebreaker b
            else add_ice_controlled c.tiebreaker b)
          ≡ add_all (role_attrs controlling nominate c.tiebreaker) b
    go true true = refl
    go true false = refl
    go false nominate = refl

pub check_builder-add_all :
    (c : Check) (random_txn : Bytes)
    → check_builder c random_txn ≡ add_all (check_attrs c) (new_builder binding_request c.txn_id)
unfolding check_builder check_attrs add_all add_username add_priority add_attr_u32 set_txn_id
    new_builder
check_builder-add_all c random_txn = add_role-add_all c _

module _ (hmac_sha1 : Bytes → Bytes → Bytes) where
  -- The two trailing attributes of a signed message.
  unfoldable pub signature : Bytes → StunBuilder → Bytes
  signature key b = hmac_sha1 key (wire_with 24 b)

  unfoldable pub seal_attrs : Bytes → StunBuilder → List (ℕ × Bytes)
  unfolding signature
  seal_attrs key b =
      let sig = signature key b in
      let crc = bit_xor (crc32 (wire_with 8 (add_attr attr_message_integrity sig b))) 0x5354554E in
      (attr_message_integrity, sig) ∷ (attr_fingerprint, write32 crc) ∷ []

  pub sealed-add_all :
      (key : Bytes) (b : StunBuilder)
      → add_fingerprint (add_integrity hmac_sha1 key b) ≡ add_all (seal_attrs key b) b
  unfolding add_fingerprint add_integrity seal_attrs add_all add_attr_u32
  sealed-add_all key b = refl

-- What the receiver is to read.
unfoldable pub checked : Check → StunMessage
checked c = record (new_message binding_request c.txn_id) {
  username = some (check_username c);
  priority = some c.priority;
  use_candidate = c.controlling && (c.aggressive_nomination || c.nominee_check_sent);
  ice_controlling = if c.controlling then some c.tiebreaker else none;
  ice_controlled = if c.controlling then none else some c.tiebreaker;
  has_integrity = true;
  has_fingerprint = true;
}

whole : (v : Bytes) → read_bytes (length v) v ≡ value v
whole v = rw append-nil at (read_bytes-append v [])

ruleset sizes =
    (arith, length-encode_all_cons, length-encode_all_nil, length-write32, length-write64)

request_sizes :
    (controlling nominate : Bool) (username priority sig crc : Bytes) (tiebreaker : ℕ)
    → length username + 128 ≤ 2 ^ 16
    → length priority ≡ 4
    → length sig ≡ 20
    → length crc ≡ 4
    → let avs =
        ((attr_username, username)
          ∷ (attr_priority, priority)
          ∷ role_attrs controlling nominate tiebreaker)
        ++ ((attr_message_integrity, sig) ∷ (attr_fingerprint, crc) ∷ []) in
      All Fits avs × (length (encode_all avs) < 2 ^ 16)
request_sizes true true u p s c tb room hp hs hc = omega sizes
request_sizes true false u p s c tb room hp hs hc = omega sizes
request_sizes false nominate u p s c tb room hp hs hc = omega sizes

module _ (inet : Inet) (hmac_sha1 : Bytes → Bytes → Bytes)
    (hmac_length : (key msg : Bytes) → length (hmac_sha1 key msg) ≡ 20) (c : Check)
    (txn_fits : length c.txn_id ≡ 12) (priority_fits : c.priority < 2 ^ 32)
    (tiebreaker_fits : c.tiebreaker < 2 ^ 64) where
  whole64 : read64 (write64 c.tiebreaker) ≡ value c.tiebreaker
  whole64 = rw append-nil at (read64-write64 c.tiebreaker [] tiebreaker_fits)

  whole32 : read32 (write32 c.priority) ≡ value c.priority
  whole32 = rw append-nil at (read32-write32 c.priority [] priority_fits)

  -- What the role attributes and the two last ones make of a message that has no role yet.
  role_applied :
      (controlling nominate : Bool) (sig crc : Bytes) (m : StunMessage)
      → m.use_candidate ≡ false
      → m.ice_controlling ≡ none
      → m.ice_controlled ≡ none
      → apply_all inet
          (role_attrs controlling nominate c.tiebreaker
            ++ ((attr_message_integrity, sig) ∷ (attr_fingerprint, crc) ∷ []))
          m
        ≡ value (record m {
          use_candidate = controlling && nominate;
          ice_controlling = if controlling then some c.tiebreaker else none;
          ice_controlled = if controlling then none else some c.tiebreaker;
          has_integrity = true;
          has_fingerprint = true;
        })
  unfolding apply_all handle_attr write64 write32
  role_applied true true sig crc m u k l = ground (arith, whole64)
  role_applied true false sig crc m u k l = ground (arith, whole64)
  role_applied false nominate sig crc m u k l = ground (arith, whole64)

  applied :
      (sig crc : Bytes)
      → apply_all inet
          (check_attrs c ++ ((attr_message_integrity, sig) ∷ (attr_fingerprint, crc) ∷ []))
          (new_message binding_request c.txn_id)
        ≡ value (checked c)
  unfolding apply_all check_attrs checked handle_attr write32 new_message
  applied sig crc =
      rw (whole (check_username c), whole32)
        (role_applied c.controlling (c.aggressive_nomination || c.nominee_check_sent) sig crc _ refl
          refl refl)

  -- The peer parses a check request of this agent into exactly its username, priority, role and
  -- tie-breaker, and sees the nomination, the integrity and the fingerprint attributes. The digest has 20 bytes,
  -- the transaction id twelve, priority and tie-breaker fit 32 and 64 bits, and the username leaves room for
  -- the rest in 65536 bytes.
  pub parse_stun-check_request :
      (random_txn : Bytes)
      → length (check_username c) + 128 ≤ 2 ^ 16
      → parse_stun inet (check_request hmac_sha1 c random_txn) ≡ value (some (checked c))
  unfolding check_request check_attrs seal_attrs write32
  parse_stun-check_request random_txn room = rw (
    built,
    parse_stun-build inet binding_request c.txn_id all_attrs (omega arith) txn_fits sizes_ok.0
        sizes_ok.1,
    applied _ _,
  )
    where
      base : StunBuilder
      base = add_all (check_attrs c) (new_builder binding_request c.txn_id)

      all_attrs : List (ℕ × Bytes)
      all_attrs = check_attrs c ++ seal_attrs hmac_sha1 c.remote_pwd base

      sizes_ok : All Fits all_attrs × (length (encode_all all_attrs) < 2 ^ 16)
      sizes_ok =
          request_sizes c.controlling (c.aggressive_nomination || c.nominee_check_sent) _ _ _ _
            c.tiebreaker room refl (hmac_length _ _) refl

      built :
          add_fingerprint (add_integrity hmac_sha1 c.remote_pwd (check_builder c random_txn))
          ≡ add_all all_attrs (new_builder binding_request c.txn_id)
      built =
          rw (check_builder-add_all c random_txn, sealed-add_all)
            (sym (
              add_all-append (check_attrs c) (seal_attrs hmac_sha1 c.remote_pwd base)
                (new_builder binding_request c.txn_id)))
