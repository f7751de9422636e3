-- ===== src/Stun/RoundTrip.antt =====
-- Parsing what the builder built.
use link_ice.Prelude.{
  ℕ, zero, suc, ◌+◌, ◌-◌, ◌%◌, ◌^◌, ◌≤◌, ◌<◌, ◌≡◌, refl, sym, ap, ◌∙◌, arith, List, [], ◌∷◌, ◌++◌,
  append_assoc, append-nil, Bytes, none, some, length, drop, replicate, length-append, le→leb,
  le→ltb_false, lt→leb_false, >>=-value_then, All, Outcome, value, ◌>>=◌, read8, read16, read32,
}
use link_ice.Stun.Endian.{read32-append, read_bytes-append, read_bytes_front}
use link_ice.Stun.Address.{Inet, decode_xor_addr}
use link_ice.Stun.Builder.{StunBuilder, add_attr}
use link_ice.Stun.Parser.{
  StunMessage, read64, read_error_code, handle_attr, parse_round, parse_loop,
}
use link_ice.Stun.Layout.{
  padding, tlv, length-tlv, attrs-add_attr, align_loop-padding, type_at, len_at, value_at,
}

read8-append : (p q : Bytes) → 1 ≤ length p → read8 (p ++ q) ≡ read8 p
unfolding read8
read8-append [] q h = absurd (omega arith)
read8-append (a ∷ p) q h = refl

abbrev drop4-append : (p q : Bytes) → 4 ≤ length p → drop 4 (p ++ q) ≡ drop 4 p ++ q
drop4-append [] q h = absurd (omega arith)
drop4-append (a ∷ []) q h = absurd (omega arith)
drop4-append (a ∷ b ∷ []) q h = absurd (omega arith)
drop4-append (a ∷ b ∷ c ∷ []) q h = absurd (omega arith)
drop4-append (a ∷ b ∷ c ∷ d ∷ p) q h = refl

read64-append : (p q : Bytes) → 8 ≤ length p → read64 (p ++ q) ≡ read64 p
unfolding read64 read32
read64-append (a ∷ b ∷ c ∷ d ∷ e ∷ f ∷ g ∷ h ∷ p) q l = refl
read64-append p q l = absurd (omega arith)

read_error_code-append : (p q : Bytes) → 4 ≤ length p → read_error_code (p ++ q) ≡ read_error_code p
unfolding read_error_code read8
read_error_code-append (a ∷ b ∷ c ∷ d ∷ p) q l = refl
read_error_code-append p q l = absurd (omega arith)

decode-append :
    (inet : Inet) (v q txn : Bytes)
    → decode_xor_addr inet (v ++ q) (length v) txn ≡ decode_xor_addr inet v (length v) txn
unfolding decode_xor_addr read8 read16
decode-append inet (a ∷ b ∷ c ∷ d ∷ p) q txn =
    ground (arith, read32-append p q, read_bytes_front 16 p q)
decode-append inet v q txn = refl

module _ (inet : Inet) where
  -- The switch reads the attribute's value and nothing behind it.
  handle_attr-append :
      (v q : Bytes) (type : ℕ) (msg : StunMessage)
      → handle_attr inet (v ++ q) (length v) type msg ≡ handle_attr inet v (length v) type msg
  unfolding handle_attr
  handle_attr-append v q type msg = ground (
    arith,
    decode-append inet v q msg.txn_id,
    read32-append v q,
    read64-append v q,
    read_error_code-append v q,
    read_bytes-append v q,
    read_bytes-append v [],
    append-nil v,
  )

  -- One round of the loop at an attribute that stands behind an aligned front.
  parse_round-tlv :
      (front back : Bytes) (type : ℕ) (v : Bytes) (limit : ℕ) (msg : StunMessage)
      → length front % 4 ≡ 0
      → type < 2 ^ 16
      → length v < 2 ^ 16
      → length front + length (tlv type v) ≤ limit
      → parse_round inet (front ++ (tlv type v ++ back)) limit (length front) msg ≡ (
          handle_attr inet v (length v) type msg >>= λ m.
          value (some (length front + length (tlv type v), m)))
  unfolding parse_round
  parse_round-tlv front back type v limit msg aligned ht hv fits = rw (
    le→leb (length front + 4) limit (omega (arith, length-tlv type v)),
    type_at front back type v ht,
    len_at front back type v hv,
    le→ltb_false (length (front ++ (tlv type v ++ back))) (length front + 4 + length v) room,
    value_at front back type v,
    handle_attr-append v (replicate (padding (length v)) 0 ++ back) type msg,
    align_loop-padding 3 (length front + 4 + length v) (omega arith),
    landing,
  )
    where
      room : length front + 4 + length v ≤ length (front ++ (tlv type v ++ back))
      room = omega (
        arith,
        length-append front (tlv type v ++ back),
        length-append (tlv type v) back,
        length-tlv type v,
      )

      landing :
          length front + 4 + length v + padding (length front + 4 + length v)
          ≡ length front + length (tlv type v)
      landing = omega (arith, length-tlv type v)

  -- A message after the attributes of a list, each handled on its own value.
  unfoldable pub apply_all : List (ℕ × Bytes) → StunMessage → Outcome StunMessage
  apply_all [] msg = value msg
  apply_all ((type, v) ∷ rest) msg = do m ← handle_attr inet v (length v) type msg; apply_all rest m

unfoldable pub encode_all : List (ℕ × Bytes) → Bytes
encode_all [] = []
encode_all ((type, v) ∷ rest) = tlv type v ++ encode_all rest

unfoldable pub add_all : List (ℕ × Bytes) → StunBuilder → StunBuilder
add_all [] b = b
add_all ((type, v) ∷ rest) b = add_all rest (add_attr type v b)

pub length-encode_all_cons :
    (type : ℕ) (v : Bytes) (rest : List (ℕ × Bytes))
    → length (encode_all ((type, v) ∷ rest))
      ≡ 4 + length v + padding (length v) + length (encode_all rest)
unfolding encode_all
length-encode_all_cons type v rest =
    omega (arith, length-append (tlv type v) (encode_all rest), length-tlv type v)

pub length-encode_all_nil : length (encode_all []) ≡ 0
unfolding encode_all
length-encode_all_nil = refl

-- Each type and each value's length fits its 16-bit field.
abbrev pub Fits : ℕ × Bytes → Type 0
Fits (type, v) = (type < 2 ^ 16) × (length v < 2 ^ 16)

parse_round_end :
    (inet : Inet) (packet : Bytes) (limit offset : ℕ) (msg : StunMessage)
    → limit < offset + 4
    → parse_round inet packet limit offset msg ≡ value none
unfolding parse_round
parse_round_end inet packet limit offset msg h = rw (lt→leb_false (offset + 4) limit h)

-- The loop over the attributes of a list, wherever in a packet they stand.
pub parse_loop-encode_all :
    (inet : Inet) (avs : List (ℕ × Bytes)) (front back packet : Bytes) (limit fuel offset : ℕ)
    (msg : StunMessage)
    → All Fits avs
    → packet ≡ front ++ (encode_all avs ++ back)
    → offset ≡ length front
    → length front % 4 ≡ 0
    → limit ≡ length front + length (encode_all avs)
    → limit - length front < fuel
    → parse_loop inet packet limit fuel offset msg ≡ apply_all inet avs msg
unfolding parse_loop apply_all encode_all
parse_loop-encode_all inet avs front back packet limit zero offset msg fits hp ho al e enough =
    absurd (omega arith)
parse_loop-encode_all inet [] front back packet limit (suc fuel) offset msg fits hp ho al e enough =
    rw (parse_round_end inet packet limit offset msg (omega arith))
parse_loop-encode_all inet ((type, v) ∷ rest) front back packet limit (suc fuel) offset msg fits hp
      ho al e enough =
    rw step (
      >>=-value_then (handle_attr inet v (length v) type msg) _ _ _ λ m.
        parse_loop-encode_all inet rest (front ++ tlv type v) back packet limit fuel _ m fits.1
          (hp ∙ regroup) (sym (length-append front (tlv type v)))
          (omega (arith, length-append front (tlv type v), length-tlv type v))
          (omega (arith, long, length-append front (tlv type v)))
          (omega (arith, long, length-append front (tlv type v), length-tlv type v)))
  where
    long : length (tlv type v ++ encode_all rest) ≡ length (tlv type v) + length (encode_all rest)
    long = length-append (tlv type v) (encode_all rest)

    regroup :
        front ++ ((tlv type v ++ encode_all rest) ++ back)
        ≡ (front ++ tlv type v) ++ (encode_all rest ++ back)
    regroup =
        ap (◌++◌ front) (append_assoc (tlv type v) (encode_all rest) back)
        ∙ sym (append_assoc front (tlv type v) (encode_all rest ++ back))

    step : parse_round inet packet limit offset msg ≡ (
        handle_attr inet v (length v) type msg >>= λ m.
        value (some (length front + length (tlv type v), m)))
    step =
        rw (hp, ho, append_assoc)
          (parse_round-tlv inet front (encode_all rest ++ back) type v limit msg al fits.0.0
            fits.0.1 (omega (arith, long)))

-- `add_attr` after `add_attr` leaves the encodings in order behind the attributes there were.
pub attrs-add_all :
    (avs : List (ℕ × Bytes)) (b : StunBuilder)
    → length b.attrs % 4 ≡ 0
    → (add_all avs b).attrs ≡ b.attrs ++ encode_all avs
unfolding add_all encode_all
attrs-add_all [] b al = sym (append-nil b.attrs)
attrs-add_all ((type, v) ∷ rest) b al =
    attrs-add_all rest (add_attr type v b) (
      rw (attrs-add_attr type v b al)
        (omega (arith, length-append b.attrs (tlv type v), length-tlv type v)))
    ∙ rw (attrs-add_attr type v b al) (append_assoc b.attrs (tlv type v) (encode_all rest))

pub add_all-append :
    (xs ys : List (ℕ × Bytes)) (b : StunBuilder) → add_all (xs ++ ys) b ≡ add_all ys (add_all xs b)
unfolding add_all
add_all-append [] ys b = refl
add_all-append ((type, v) ∷ xs) ys b = add_all-append xs ys (add_attr type v b)

pub header-add_all :
    (avs : List (ℕ × Bytes)) (b : StunBuilder)
    → ((add_all avs b).msg_type ≡ b.msg_type) × ((add_all avs b).txn_id ≡ b.txn_id)
unfolding add_all add_attr
header-add_all [] b = (refl, refl)
header-add_all ((type, v) ∷ rest) b = header-add_all rest (add_attr type v b)
