-- ===== src/Stun/Codec.antt =====
-- The builder against the parser: `StunBuilder` and `parse_stun` of stun.cpp are inverse.
use link_ice.Prelude.{
  ℕ, ◌+◌, ◌%◌, ◌^◌, ◌<◌, ◌≡◌, sym, ◌∙◌, arith, List, [], ◌++◌, append_assoc, append-nil, Bytes,
  some, All, length, value, ◌>>=◌,
}
use link_ice.Stun.Address.{Inet}
use link_ice.Stun.Builder.{StunBuilder, new_builder, build, wire_with}
use link_ice.Stun.Parser.{new_message, parse_stun}
use link_ice.Stun.Header.{header, length-header, parse_stun-header}
use link_ice.Stun.RoundTrip.{
  Fits, apply_all, encode_all, add_all, header-add_all, attrs-add_all, parse_loop-encode_all,
}

-- What the builder sends or signs is a header and the attributes.
pub wire_with-header :
    (extra : ℕ) (b : StunBuilder)
    → wire_with extra b ≡ header b.msg_type ((length b.attrs + extra) % 2 ^ 16) b.txn_id ++ b.attrs
unfolding wire_with header
wire_with-header extra b = rw (append_assoc, append_assoc, append_assoc)

pub build-add_all :
    (type : ℕ) (txn : Bytes) (avs : List (ℕ × Bytes))
    → length (encode_all avs) < 2 ^ 16
    → build (add_all avs (new_builder type txn))
      ≡ header type (length (encode_all avs)) txn ++ encode_all avs
unfolding build
build-add_all type txn avs small =
    wire_with-header 0 (add_all avs (new_builder type txn)) ∙ rw (kept.0, kept.1, added, same)
  where
    kept :
        ((add_all avs (new_builder type txn)).msg_type ≡ type)
        × ((add_all avs (new_builder type txn)).txn_id ≡ txn)
    kept = unfold new_builder in header-add_all avs (new_builder type txn)

    added : (add_all avs (new_builder type txn)).attrs ≡ encode_all avs
    added = unfold new_builder in attrs-add_all avs (new_builder type txn) (omega arith)

    same : (length (encode_all avs) + 0) % 2 ^ 16 ≡ length (encode_all avs)
    same = omega arith

-- Whatever attributes are added to a fresh builder, parsing the built packet handles exactly their
-- values, in order, on a message with the builder's type and transaction id, provided that each type
-- and each length fits in 16 bits, and so does the length of all the attributes.
pub parse_stun-build :
    (inet : Inet) (type : ℕ) (txn : Bytes) (avs : List (ℕ × Bytes))
    → type < 2 ^ 16
    → length txn ≡ 12
    → All Fits avs
    → length (encode_all avs) < 2 ^ 16
    → parse_stun inet (build (add_all avs (new_builder type txn)))
      ≡ (apply_all inet avs (new_message type txn) >>= λ m. value (some m))
parse_stun-build inet type txn avs ht lt fits small = rw (
  build-add_all type txn avs small,
  parse_stun-header type (length (encode_all avs)) txn lt (encode_all avs) inet ht small
      (omega arith),
  parse_loop-encode_all inet avs (header type (length (encode_all avs)) txn) []
      (header type (length (encode_all avs)) txn ++ encode_all avs) (20 + length (encode_all avs))
      (20 + length (encode_all avs)) 20 (new_message type txn) fits (rw append-nil) (sym head)
      (omega (arith, head)) (omega (arith, head)) (omega (arith, head)),
)
  where
    head : length (header type (length (encode_all avs)) txn) ≡ 20
    head = length-header type (length (encode_all avs)) txn lt
