-- ===== src/Stun/Padding.antt =====
-- `add_padding_to` of stun.cpp: probe packets of a given size.
use link_ice.Prelude.{
  ℕ, ◌+◌, ◌-◌, ◌*◌, ◌/◌, ◌%◌, ◌^◌, ◌≤◌, ◌<◌, ◌≡◌, arith, length, replicate, length-append,
  length-replicate, ◌∙◌, ap,
}
use link_ice.Stun.Constants.{attr_unknown_attributes}
use link_ice.Stun.Header.{header, length-header}
use link_ice.Stun.Builder.{StunBuilder, add_attr, add_padding_to, build}
use link_ice.Stun.Layout.{tlv, length-tlv, attrs-add_attr}
use link_ice.Stun.Codec.{wire_with-header}

-- A builder as its own operations leave it.
pub record IsAligned (b : StunBuilder) : Type 0 where
  pub aligned : length b.attrs % 4 ≡ 0
  pub txn_length : length b.txn_id ≡ 12

pub length-build : (b : StunBuilder) → length b.txn_id ≡ 12 → length (build b) ≡ 20 + length b.attrs
unfolding build
length-build b h = omega (
  arith,
  ap length (wire_with-header 0 b),
  length-append (header b.msg_type ((length b.attrs + 0) % 2 ^ 16) b.txn_id) b.attrs,
  length-header b.msg_type ((length b.attrs + 0) % 2 ^ 16) b.txn_id h,
)

filler_size :
    (n : ℕ) (b : StunBuilder)
    → length b.attrs % 4 ≡ 0
    → n % 4 ≡ 0
    → length (add_attr attr_unknown_attributes (replicate n 0) b).attrs ≡ length b.attrs + 4 + n
filler_size n b al four = omega (
  arith,
  ap length (attrs-add_attr attr_unknown_attributes (replicate n 0) b al),
  length-append b.attrs (tlv attr_unknown_attributes (replicate n 0)),
  length-tlv attr_unknown_attributes (replicate n 0),
  length-replicate {A = ℕ} n 0,
)

-- Where there is room for an attribute and its length fits in 16 bits, the built packet has exactly
-- the target size rounded down to a multiple of four.
pub length-add_padding_to :
    (target : ℕ) (b : StunBuilder)
    → IsAligned b
    → 20 + length b.attrs < target / 4 * 4
    → target / 4 * 4 - (20 + length b.attrs) - 4 ≤ 0xFFFF
    → length (build (add_padding_to target b)) ≡ target / 4 * 4
length-add_padding_to target b ok room short = length-build (add_padding_to target b) kept ∙ sized
  where
    gap : ℕ
    gap = target / 4 * 4 - (20 + length b.attrs) - 4

    kept : length (add_padding_to target b).txn_id ≡ 12
    kept = unfold add_padding_to add_attr in ground (arith, ok.txn_length)

    sized : 20 + length (add_padding_to target b).attrs ≡ target / 4 * 4
    sized =
        unfold add_padding_to in
        ground (arith, filler_size gap b ok.aligned (omega (arith, ok.aligned)), ok.aligned)

-- Where the message has reached the target already, nothing is added.
pub add_padding_to_keeps :
    (target : ℕ) (b : StunBuilder)
    → target / 4 * 4 ≤ 20 + length b.attrs
    → add_padding_to target b ≡ b
unfolding add_padding_to
add_padding_to_keeps target b h = ground arith
