-- ===== src/Stun/Integrity.antt =====
-- `verify_integrity` of stun.cpp. OpenSSL's HMAC-SHA1 is a parameter; `sodium_memcmp` compares the two
-- digests byte for byte.
use link_ice.Prelude.{
  ℕ, zero, suc, ◌+◌, ◌-◌, ◌%◌, ◌^◌, ◌≤◌, ◌<◌, ◌≡◌, ◌≢◌, sym, ap, ◌∙◌, arith, List, [], ◌∷◌, ◌++◌,
  append_assoc, Bytes, Bool, false, if◌then◌else◌, ltb, leb, ◌==◌, bytes_eq, length, drop, take,
  All, length-append, le→leb, Outcome, value, spent, ◌>>=◌, read16, read_bytes,
}
use link_ice.Stun.Constants.{attr_message_integrity}
use link_ice.Stun.Endian.{write16}
use link_ice.Stun.Parser.{align_loop}
use link_ice.Stun.Layout.{tlv, length-tlv, align_loop-padding, type_at, len_at}
use link_ice.Stun.RoundTrip.{Fits, encode_all}

-- The search for the attribute's offset; 0 where there is none.
unfoldable pub find_integrity : Bytes → ℕ → ℕ → ℕ → Outcome ℕ
find_integrity raw limit zero offset = spent
find_integrity raw limit (suc fuel) offset =
    if leb (offset + 4) limit
    then (do
      type ← read16 (drop offset raw)
      len ← read16 (drop (offset + 2) raw)
      let next = find_integrity raw limit fuel (align_loop 3 (offset + (4 + len)))
      if type == attr_message_integrity then value offset else next)
    else value 0

unfoldable pub verify_integrity : (Bytes → Bytes → Bytes) → Bytes → Bytes → Outcome Bool
verify_integrity hmac_sha1 raw key = if ltb (length raw) 44 then value false else (do
  msg_len ← read16 (drop 2 raw)
  mi_offset ← find_integrity raw (20 + msg_len) (20 + msg_len) 20
  if mi_offset == 0 then value false else (do
    stored ← read_bytes 20 (drop (mi_offset + 4) raw)
    let hdr = take 2 raw ++ (write16 ((mi_offset - 20 + 24) % 2 ^ 16) ++ take 16 (drop 4 raw))
    let computed = hmac_sha1 key (hdr ++ take (mi_offset - 20) (drop 20 raw))
    value (bytes_eq computed stored)))

abbrev pub NotIntegrity : ℕ × Bytes → Type 0
NotIntegrity (type, v) = type ≢ attr_message_integrity

-- The first MESSAGE-INTEGRITY is found, behind any attributes of other types.
pub find_integrity-found :
    (avs : List (ℕ × Bytes)) (v front back packet : Bytes) (limit fuel offset : ℕ)
    → All Fits avs
    → All NotIntegrity avs
    → length v < 2 ^ 16
    → packet ≡ front ++ (encode_all avs ++ (tlv attr_message_integrity v ++ back))
    → offset ≡ length front
    → length front % 4 ≡ 0
    → length front + length (encode_all avs) + 4 ≤ limit
    → limit - length front < fuel
    → find_integrity packet limit fuel offset ≡ value (length front + length (encode_all avs))
unfolding find_integrity encode_all
find_integrity-found avs v front back packet limit zero offset fits other hv hp ho al room enough =
    absurd (omega arith)
find_integrity-found [] v front back packet limit (suc fuel) offset fits other hv hp ho al room
      enough =
    rw
      (
        le→leb (offset + 4) limit (omega arith),
        hp,
        ho,
        type_at front back attr_message_integrity v (omega arith),
        len_at front back attr_message_integrity v hv,
      )
      (ap value (omega arith))
find_integrity-found ((type, w) ∷ rest) v front back packet limit (suc fuel) offset fits other hv hp
      ho al room enough =
    ground (
      arith,
      le→leb (offset + 4) limit (omega (arith, long)),
      type_here,
      len_here,
      landing,
      find_integrity-found rest v (front ++ tlv type w) back packet limit fuel
          (align_loop 3 (offset + (4 + length w))) fits.1 other.1 hv (hp ∙ regroup)
          (landing ∙ sym (length-append front (tlv type w)))
          (omega (arith, length-append front (tlv type w), length-tlv type w))
          (omega (arith, long, length-append front (tlv type w)))
          (omega (arith, long, length-append front (tlv type w), length-tlv type w)),
      length-append front (tlv type w),
      long,
    )
  where
    tail : Bytes
    tail = encode_all rest ++ (tlv attr_message_integrity v ++ back)

    long : length (tlv type w ++ encode_all rest) ≡ length (tlv type w) + length (encode_all rest)
    long = length-append (tlv type w) (encode_all rest)

    apart : packet ≡ front ++ (tlv type w ++ tail)
    apart = hp ∙ ap (◌++◌ front) (append_assoc (tlv type w) (encode_all rest) _)

    regroup :
        front ++ ((tlv type w ++ encode_all rest) ++ (tlv attr_message_integrity v ++ back))
        ≡ (front ++ tlv type w) ++ tail
    regroup =
        ap (◌++◌ front) (append_assoc (tlv type w) (encode_all rest) _)
        ∙ sym (append_assoc front (tlv type w) tail)

    type_here : read16 (drop offset packet) ≡ value type
    type_here = rw (apart, ho) (type_at front tail type w fits.0.0)

    len_here : read16 (drop (offset + 2) packet) ≡ value (length w)
    len_here = rw (apart, ho) (len_at front tail type w fits.0.1)

    landing : align_loop 3 (offset + (4 + length w)) ≡ length front + length (tlv type w)
    landing =
        align_loop-padding 3 (offset + (4 + length w)) (omega arith)
        ∙ omega (arith, length-tlv type w)
