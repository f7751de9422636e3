-- ===== src/Stun/Parser.antt =====
-- `parse_stun` of stun.cpp. A pointer into the packet is the list of the bytes from there on.
use link_ice.Prelude.{
  ℕ, zero, suc, ◌+◌, ◌*◌, ◌%◌, ◌^◌, [], Bytes, Option, none, some, Bool, true, false, if◌then◌else◌,
  ltb, leb, ◌==◌, length, drop, Outcome, value, spent, ◌>>=◌, read8, read16, read32, read_bytes,
  not,
}
use link_ice.Stun.Constants.{
  magic_cookie, attr_username, attr_message_integrity, attr_error_code, attr_xor_mapped_address,
  attr_priority, attr_use_candidate, attr_ice_controlling, attr_ice_controlled, attr_fingerprint,
  attr_lifetime, attr_xor_peer_address, attr_data, attr_realm, attr_nonce, attr_xor_relayed_address,
  attr_connection_id,
}
use link_ice.Stun.Address.{Inet, MappedAddress, decode_xor_addr}

-- stun.hpp
pub record StunMessage : Type 0 where
  pub msg_type : ℕ
  pub txn_id : Bytes
  pub xor_mapped : Option MappedAddress
  pub xor_peer : Option MappedAddress
  pub xor_relayed : Option MappedAddress
  pub priority : Option ℕ
  pub lifetime : Option ℕ
  pub error_code : Option ℕ
  pub username : Option Bytes
  pub realm : Option Bytes
  pub nonce : Option Bytes
  pub connection_id : Option ℕ
  pub payload : Bytes
  pub use_candidate : Bool
  pub ice_controlling : Option ℕ
  pub ice_controlled : Option ℕ
  pub has_integrity : Bool
  pub has_fingerprint : Bool

unfoldable pub new_message : ℕ → Bytes → StunMessage
new_message type txn = record {
  msg_type = type;
  txn_id = txn;
  xor_mapped = none;
  xor_peer = none;
  xor_relayed = none;
  priority = none;
  lifetime = none;
  error_code = none;
  username = none;
  realm = none;
  nonce = none;
  connection_id = none;
  payload = [];
  use_candidate = false;
  ice_controlling = none;
  ice_controlled = none;
  has_integrity = false;
  has_fingerprint = false;
}

-- `while (offset % 4 != 0) ++offset;` takes three rounds at most.
unfoldable pub align_loop : ℕ → ℕ → ℕ
align_loop zero offset = offset
align_loop (suc fuel) offset =
    let more = align_loop fuel (offset + 1) in if offset % 4 == 0 then offset else more

-- `(hi << 32) | lo` of two 32-bit halves, big endian.
unfoldable pub read64 : Bytes → Outcome ℕ
read64 p = do hi ← read32 p; lo ← read32 (drop 4 p); value (hi * 2 ^ 32 + lo)

unfoldable pub read_error_code : Bytes → Outcome ℕ
read_error_code p = do
  class_ ← read8 (drop 2 p)
  number ← read8 (drop 3 p)
  value ((class_ * 100 + number) % 2 ^ 16)

-- A numeric attribute that is shorter than its number leaves the field as it is.
abbrev pub field {ℓ} :
    {A : Type ℓ} → Bool → Outcome A → (A → StunMessage) → StunMessage → Outcome StunMessage
field true read put msg = do a ← read; value (put a)
field false read put msg = value msg

-- The `switch` on the attribute's type.
unfoldable pub handle_attr : Inet → Bytes → ℕ → ℕ → StunMessage → Outcome StunMessage
handle_attr inet p len type msg =
    if type == attr_xor_mapped_address
    then (do a ← decode_xor_addr inet p len msg.txn_id; value (record msg { xor_mapped = a }))
    else if type == attr_xor_peer_address
    then (do a ← decode_xor_addr inet p len msg.txn_id; value (record msg { xor_peer = a }))
    else if type == attr_xor_relayed_address
    then (do a ← decode_xor_addr inet p len msg.txn_id; value (record msg { xor_relayed = a }))
    else if type == attr_priority
    then field (leb 4 len) (read32 p) (λ n. record msg { priority = some n }) msg
    else if type == attr_lifetime
    then field (leb 4 len) (read32 p) (λ n. record msg { lifetime = some n }) msg
    else if type == attr_use_candidate
    then value (record msg { use_candidate = true })
    else if type == attr_ice_controlling
    then field (leb 8 len) (read64 p) (λ n. record msg { ice_controlling = some n }) msg
    else if type == attr_ice_controlled
    then field (leb 8 len) (read64 p) (λ n. record msg { ice_controlled = some n }) msg
    else if type == attr_error_code
    then field (leb 4 len) (read_error_code p) (λ n. record msg { error_code = some n }) msg
    else if type == attr_username
    then (do s ← read_bytes len p; value (record msg { username = some s }))
    else if type == attr_realm
    then (do s ← read_bytes len p; value (record msg { realm = some s }))
    else if type == attr_nonce
    then (do s ← read_bytes len p; value (record msg { nonce = some s }))
    else if type == attr_connection_id
    then field (leb 4 len) (read32 p) (λ n. record msg { connection_id = some n }) msg
    else if type == attr_data
    then (do s ← read_bytes len p; value (record msg { payload = s }))
    else if type == attr_message_integrity
    then value (record msg { has_integrity = true })
    else if type == attr_fingerprint
    then value (record msg { has_fingerprint = true })
    else value msg

-- One round of the attribute loop: the next offset and message, or none where the loop ends.
unfoldable pub parse_round : Inet → Bytes → ℕ → ℕ → StunMessage → Outcome (Option (ℕ × StunMessage))
parse_round inet packet limit offset msg =
    if leb (offset + 4) limit
    then (do
      type ← read16 (drop offset packet)
      len ← read16 (drop (offset + 2) packet)
      let start = offset + 4
      if ltb (length packet) (start + len) then value none else (do
        msg' ← handle_attr inet (drop start packet) len type msg
        value (some (align_loop 3 (start + len), msg'))))
    else value none

unfoldable pub parse_loop : Inet → Bytes → ℕ → ℕ → ℕ → StunMessage → Outcome StunMessage
parse_loop inet packet limit zero offset msg = spent
parse_loop inet packet limit (suc fuel) offset msg = do
  round ← parse_round inet packet limit offset msg
  elim round [ none ↦ value msg | some (next, msg') ↦ parse_loop inet packet limit fuel next msg' ]

-- Each round moves the offset on by four at least, so `limit` rounds are more than enough.
unfoldable pub parse_stun : Inet → Bytes → Outcome (Option StunMessage)
parse_stun inet packet = if ltb (length packet) 20 then value none else (do
  type ← read16 packet
  len ← read16 (drop 2 packet)
  cookie ← read32 (drop 4 packet)
  if not (cookie == magic_cookie)
      then value none
      else if ltb (length packet) (20 + len)
      then value none
      else (do
        txn ← read_bytes 12 (drop 8 packet)
        msg ← parse_loop inet packet (20 + len) (20 + len) 20 (new_message type txn)
        value (some msg)))
