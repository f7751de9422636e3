-- ===== src/Stun/Constants.antt =====
-- The numbers of stun.hpp: message types, the magic cookie, attribute types and channel numbers.
use link_ice.Prelude.{ℕ}

abbrev pub binding_request : ℕ
binding_request = 0x0001

abbrev pub magic_cookie : ℕ
magic_cookie = 0x2112A442

abbrev pub attr_username : ℕ
attr_username = 0x0006

abbrev pub attr_unknown_attributes : ℕ
attr_unknown_attributes = 0x000A

abbrev pub attr_message_integrity : ℕ
attr_message_integrity = 0x0008

abbrev pub attr_error_code : ℕ
attr_error_code = 0x0009

abbrev pub attr_xor_mapped_address : ℕ
attr_xor_mapped_address = 0x0020

abbrev pub attr_priority : ℕ
attr_priority = 0x0024

abbrev pub attr_use_candidate : ℕ
attr_use_candidate = 0x0025

abbrev pub attr_ice_controlling : ℕ
attr_ice_controlling = 0x802A

abbrev pub attr_ice_controlled : ℕ
attr_ice_controlled = 0x8029

abbrev pub attr_fingerprint : ℕ
attr_fingerprint = 0x8028

abbrev pub channel_number_min : ℕ
channel_number_min = 0x4000

abbrev pub channel_number_max : ℕ
channel_number_max = 0x7FFF

abbrev pub attr_channel_number : ℕ
attr_channel_number = 0x000C

abbrev pub attr_lifetime : ℕ
attr_lifetime = 0x000D

abbrev pub attr_xor_peer_address : ℕ
attr_xor_peer_address = 0x0012

abbrev pub attr_data : ℕ
attr_data = 0x0013

abbrev pub attr_realm : ℕ
attr_realm = 0x0014

abbrev pub attr_nonce : ℕ
attr_nonce = 0x0015

abbrev pub attr_xor_relayed_address : ℕ
attr_xor_relayed_address = 0x0016

abbrev pub attr_requested_transport : ℕ
attr_requested_transport = 0x0019

abbrev pub attr_connection_id : ℕ
attr_connection_id = 0x002A
