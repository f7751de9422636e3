-- ===== src/Stun/Tests.antt =====
-- Runs of the STUN codec on small packets.
use link_ice.Prelude.{
  ℕ, ◌+◌, ◌%◌, ◌≡◌, refl, arith, List, [], ◌∷◌, ◌++◌, Bytes, true, false, if◌then◌else◌, Option,
  none, some, length, replicate, bytes_eq, value, fault, ◌>>=◌, Returns, All,
}
use link_ice.Stun.Constants.{attr_username, attr_priority, attr_message_integrity, attr_fingerprint}
use link_ice.Stun.Endian.{write16}
use link_ice.Stun.Address.{Inet, InetLaws}
use link_ice.Stun.Builder.{new_builder, add_integrity, build}
use link_ice.Stun.Parser.{new_message, parse_stun}
use link_ice.Stun.Safety.{Done, parse_stun-returns}
use link_ice.Stun.Layout.{tlv}
use link_ice.Stun.RoundTrip.{apply_all, encode_all, add_all, Fits}
use link_ice.Stun.Codec.{parse_stun-build}
use link_ice.Stun.CheckRequest.{
  Check, check_username, check_request, checked, parse_stun-check_request,
}
use link_ice.Stun.Integrity.{verify_integrity, NotIntegrity}
use link_ice.Stun.Signed.{verify-add_integrity, verify_over_read}

-- An address library that knows 127.0.0.1, as `l`, and ::1, as `m`.
abbrev loopback : Bytes
loopback = replicate 15 0 ++ (1 ∷ [])

abbrev read_loopback4 : Bytes → Option ℕ
read_loopback4 ip = if bytes_eq ip (108 ∷ []) then some 0x7F000001 else none

abbrev read_loopback6 : Bytes → Option Bytes
read_loopback6 ip = if bytes_eq ip (109 ∷ []) then some loopback else none

abbrev small_inet : Inet
small_inet = record {
  pton4 = read_loopback4;
  ntop4 = λ a. 108 ∷ [];
  pton6 = read_loopback6;
  ntop6 = λ a. 109 ∷ [];
}

abbrev txn : Bytes
txn = 1 ∷ 2 ∷ 3 ∷ 4 ∷ 5 ∷ 6 ∷ 7 ∷ 8 ∷ 9 ∷ 10 ∷ 11 ∷ 12 ∷ []

abbrev two_attrs : List (ℕ × Bytes)
two_attrs = (attr_username, 97 ∷ 58 ∷ 98 ∷ []) ∷ (attr_priority, 0 ∷ 0 ∷ 1 ∷ 0 ∷ []) ∷ []

-- A digest that depends on the lengths only.
abbrev digest : Bytes → Bytes → Bytes
digest key msg = replicate 20 ((length key + length msg) % 256)

two_attrs-Fits : All Fits two_attrs
two_attrs-Fits = ((omega arith, omega arith), ((omega arith, omega arith), tt))

two_attrs-NotIntegrity : All NotIntegrity two_attrs
two_attrs-NotIntegrity = (λ e. absurd (omega (arith, e)), (λ e. absurd (omega (arith, e)), tt))

parse_stun-build_example :
    parse_stun small_inet (build (add_all two_attrs (new_builder 1 txn)))
    ≡ (apply_all small_inet two_attrs (new_message 1 txn) >>= λ m. value (some m))
unfolding encode_all tlv write16
parse_stun-build_example =
    parse_stun-build small_inet 1 txn two_attrs (omega arith) refl two_attrs-Fits (omega arith)

parse_stun-returns_example : Returns (parse_stun small_inet (0 ∷ 1 ∷ 0 ∷ 9 ∷ [])) Done
parse_stun-returns_example = parse_stun-returns small_inet (0 ∷ 1 ∷ 0 ∷ 9 ∷ [])

verify-add_integrity_example :
    verify_integrity digest
      (build (
        add_all
          ((attr_fingerprint, 1 ∷ 2 ∷ 3 ∷ 4 ∷ []) ∷ [])
          (add_integrity digest (7 ∷ []) (add_all two_attrs (new_builder 1 txn)))))
      (7 ∷ [])
    ≡ value true
unfolding encode_all tlv write16
verify-add_integrity_example =
    verify-add_integrity digest (λ key msg. refl) (7 ∷ []) 1 txn two_attrs
      ((attr_fingerprint, 1 ∷ 2 ∷ 3 ∷ 4 ∷ []) ∷ []) (omega arith) refl two_attrs-Fits
      two_attrs-NotIntegrity (omega arith)

verify_over_read_example :
    verify_integrity digest
      (build
        (add_all (two_attrs ++ ((attr_message_integrity, 1 ∷ 2 ∷ []) ∷ [])) (new_builder 1 txn)))
      (7 ∷ [])
    ≡ fault
unfolding encode_all tlv write16
verify_over_read_example =
    verify_over_read digest (7 ∷ []) 1 txn two_attrs (omega arith) refl two_attrs-Fits
      two_attrs-NotIntegrity (1 ∷ 2 ∷ []) [] (omega arith) (omega arith) (omega arith) (omega arith)

abbrev small_check : Check
small_check = record {
  txn_id = txn;
  remote_ufrag = 97 ∷ 98 ∷ [];
  local_ufrag = 99 ∷ [];
  priority = 2130706431;
  controlling = true;
  tiebreaker = 77;
  aggressive_nomination = false;
  nominee_check_sent = true;
  remote_pwd = 112 ∷ 119 ∷ [];
}

parse_stun-check_request_example :
    parse_stun small_inet (check_request digest small_check []) ≡ value (some (checked small_check))
unfolding check_username
parse_stun-check_request_example =
    parse_stun-check_request small_inet digest (λ key msg. refl) small_check refl (omega arith)
      (omega arith) [] (omega arith)

small_inet-InetLaws : InetLaws small_inet
small_inet-InetLaws = record {
  pton4-lt = λ ip a e. ground arith;
  pton6-length = λ ip a e. ground arith;
}
