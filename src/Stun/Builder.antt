-- ===== src/Stun/Builder.antt =====
-- The class `StunBuilder` of stun.cpp. A transaction id is its twelve bytes, a string is its bytes;
-- OpenSSL's HMAC-SHA1 and the C library's address parser are parameters.
use link_ice.Prelude.{
  ℕ, zero, suc, ◌+◌, ◌-◌, ◌*◌, ◌/◌, ◌%◌, ◌^◌, [], ◌∷◌, ◌++◌, Bytes, if◌then◌else◌, ltb, leb, ◌==◌,
  length, replicate, bit_xor,
}
use link_ice.Stun.Constants.{
  magic_cookie, attr_username, attr_unknown_attributes, attr_message_integrity, attr_error_code,
  attr_priority, attr_use_candidate, attr_ice_controlling, attr_ice_controlled, attr_fingerprint,
  attr_channel_number, attr_lifetime, attr_xor_peer_address, attr_data, attr_realm, attr_nonce,
  attr_xor_relayed_address, attr_requested_transport, attr_connection_id,
}
use link_ice.Stun.Endian.{write16, write32, write64}
use link_ice.Stun.Address.{Inet, encode_xor_addr}
use link_ice.Stun.Crc.{crc32}

pub record StunBuilder : Type 0 where
  pub msg_type : ℕ
  pub txn_id : Bytes
  pub attrs : Bytes

-- The constructor: the random transaction id is drawn by libsodium, so it is an argument.
unfoldable pub new_builder : ℕ → Bytes → StunBuilder
new_builder msg_type random_txn = record { msg_type = msg_type; txn_id = random_txn; attrs = [] }

unfoldable pub set_txn_id : Bytes → StunBuilder → StunBuilder
set_txn_id id b = record b { txn_id = id }

-- `while (attrs_.size() % 4 != 0) attrs_.push_back(0);` takes three rounds at most.
unfoldable pub pad_loop : ℕ → Bytes → Bytes
pad_loop zero xs = xs
pad_loop (suc fuel) xs =
    let more = pad_loop fuel (xs ++ 0 ∷ []) in if length xs % 4 == 0 then xs else more

unfoldable pub add_attr : ℕ → Bytes → StunBuilder → StunBuilder
add_attr type v b = record b {
  attrs = pad_loop 3 (b.attrs ++ (write16 type ++ (write16 (length v % 2 ^ 16) ++ v)));
}

unfoldable pub add_attr_u32 : ℕ → ℕ → StunBuilder → StunBuilder
add_attr_u32 type n = add_attr type (write32 n)

unfoldable pub add_attr_u64 : ℕ → ℕ → StunBuilder → StunBuilder
add_attr_u64 type n = add_attr type (write64 n)

unfoldable pub add_username : Bytes → StunBuilder → StunBuilder
add_username = add_attr attr_username

unfoldable pub add_priority : ℕ → StunBuilder → StunBuilder
add_priority = add_attr_u32 attr_priority

unfoldable pub add_use_candidate : StunBuilder → StunBuilder
add_use_candidate = add_attr attr_use_candidate []

unfoldable pub add_ice_controlling : ℕ → StunBuilder → StunBuilder
add_ice_controlling = add_attr_u64 attr_ice_controlling

unfoldable pub add_ice_controlled : ℕ → StunBuilder → StunBuilder
add_ice_controlled = add_attr_u64 attr_ice_controlled

unfoldable pub add_xor_peer_address : Inet → Bytes → ℕ → StunBuilder → StunBuilder
add_xor_peer_address inet ip port b =
    add_attr attr_xor_peer_address (encode_xor_addr inet ip port b.txn_id) b

unfoldable pub add_xor_relayed_address : Inet → Bytes → ℕ → StunBuilder → StunBuilder
add_xor_relayed_address inet ip port b =
    add_attr attr_xor_relayed_address (encode_xor_addr inet ip port b.txn_id) b

unfoldable pub add_error_code : ℕ → Bytes → StunBuilder → StunBuilder
add_error_code code reason =
    add_attr attr_error_code (0 ∷ 0 ∷ (code / 100 % 2 ^ 8) ∷ (code % 100 % 2 ^ 8) ∷ reason)

unfoldable pub add_data : Bytes → StunBuilder → StunBuilder
add_data = add_attr attr_data

unfoldable pub add_channel_number : ℕ → StunBuilder → StunBuilder
add_channel_number channel =
    add_attr attr_channel_number ((channel / 2 ^ 8 % 2 ^ 8) ∷ (channel % 2 ^ 8) ∷ 0 ∷ 0 ∷ [])

unfoldable pub add_requested_transport : ℕ → StunBuilder → StunBuilder
add_requested_transport proto = add_attr attr_requested_transport (proto ∷ 0 ∷ 0 ∷ 0 ∷ [])

unfoldable pub add_lifetime : ℕ → StunBuilder → StunBuilder
add_lifetime = add_attr_u32 attr_lifetime

unfoldable pub add_realm : Bytes → StunBuilder → StunBuilder
add_realm = add_attr attr_realm

unfoldable pub add_nonce : Bytes → StunBuilder → StunBuilder
add_nonce = add_attr attr_nonce

unfoldable pub add_connection_id : ℕ → StunBuilder → StunBuilder
add_connection_id = add_attr_u32 attr_connection_id

-- The header and the attributes so far, with `extra` bytes more announced in the length field: the
-- text that `add_integrity`, `add_fingerprint` and `build` share.
unfoldable pub wire_with : ℕ → StunBuilder → Bytes
wire_with extra b =
    write16 b.msg_type
    ++ (write16 ((length b.attrs + extra) % 2 ^ 16)
        ++ (write32 magic_cookie ++ (b.txn_id ++ b.attrs)))

unfoldable pub add_integrity : (Bytes → Bytes → Bytes) → Bytes → StunBuilder → StunBuilder
add_integrity hmac_sha1 key b = add_attr attr_message_integrity (hmac_sha1 key (wire_with 24 b)) b

unfoldable pub add_fingerprint : StunBuilder → StunBuilder
add_fingerprint b = add_attr_u32 attr_fingerprint (bit_xor (crc32 (wire_with 8 b)) 0x5354554E) b

-- `target & ~3` is `target` rounded down to a multiple of four.
unfoldable pub add_padding_to : ℕ → StunBuilder → StunBuilder
add_padding_to target b =
    let cur = 20 + length b.attrs in
    let aligned = target / 4 * 4 in
    let value_len = aligned - cur - 4 in
    if leb target cur
    then b
    else if ltb (target - cur) 4
    then b
    else if leb aligned cur
    then b
    else if ltb 0xFFFF value_len
    then b
    else add_attr attr_unknown_attributes (replicate value_len 0) b

unfoldable pub build : StunBuilder → Bytes
build b = wire_with 0 b
