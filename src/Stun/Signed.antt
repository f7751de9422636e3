-- ===== src/Stun/Signed.antt =====
-- The integrity check on packets that the builder signed, and on packets with a cut-off digest.
use link_ice.Prelude.{
  ℕ, ◌+◌, ◌-◌, ◌%◌, ◌^◌, ◌≤◌, ◌<◌, ◌≡◌, refl, sym, ap, ◌∙◌, arith, List, [], ◌∷◌, ◌++◌,
  append_assoc, Bytes, true, bytes_eq, bytes_eq_refl, length, drop, take, All, length-append,
  drop-append, take-append, replicate, length-replicate, lt→leb_false, le→ltb_false, ==_false,
  value, fault, ◌>>=◌, read_bytes, subst,
}
use link_ice.Stun.Constants.{attr_message_integrity}
use link_ice.Stun.Endian.{write16, write32, read_bytes-append}
use link_ice.Stun.Builder.{new_builder, add_integrity, build, wire_with}
use link_ice.Stun.Layout.{padding, tlv, length-tlv, value_at}
use link_ice.Stun.Header.{header, length-header, len-header}
use link_ice.Stun.RoundTrip.{
  Fits, encode_all, add_all, add_all-append, length-encode_all_cons, attrs-add_all, header-add_all,
}
use link_ice.Stun.Codec.{wire_with-header, build-add_all}
use link_ice.Stun.Integrity.{verify_integrity, find_integrity-found, NotIntegrity}

-- `hdr` of `verify_integrity`: the packet's header with another length.
relabelled :
    (type len len' : ℕ) (txn body : Bytes)
    → length txn ≡ 12
    → take 2 (header type len txn ++ body)
        ++ (write16 len' ++ take 16 (drop 4 (header type len txn ++ body)))
      ≡ header type len' txn
unfolding header write16 write32
relabelled type len len' txn body lt = rw (take-append 12 txn body lt)

encode_all-append :
    (xs ys : List (ℕ × Bytes)) → encode_all (xs ++ ys) ≡ encode_all xs ++ encode_all ys
unfolding encode_all
encode_all-append [] ys = refl
encode_all-append ((type, v) ∷ xs) ys =
    ap (◌++◌ (tlv type v)) (encode_all-append xs ys) ∙ sym (append_assoc (tlv type v) _ _)

module _ (hmac_sha1 : Bytes → Bytes → Bytes) (key : Bytes) (type : ℕ) (txn : Bytes)
    (avs : List (ℕ × Bytes)) (type_fits : type < 2 ^ 16) (txn_fits : length txn ≡ 12)
    (fits : All Fits avs) (other : All NotIntegrity avs) where
  -- What `add_integrity` signs after these attributes.
  signed_text : Bytes
  signed_text = wire_with 24 (add_all avs (new_builder type txn))

  signed_text-header :
      signed_text ≡ header type ((length (encode_all avs) + 24) % 2 ^ 16) txn ++ encode_all avs
  unfolding signed_text new_builder
  signed_text-header =
      wire_with-header 24 (add_all avs (new_builder type txn))
      ∙ rw (
        (header-add_all avs (new_builder type txn)).0,
        (header-add_all avs (new_builder type txn)).1,
        attrs-add_all avs (new_builder type txn) (omega arith),
      )

  -- A packet that carries `v` in its first MESSAGE-INTEGRITY, with anything behind it.
  module _ (v back : Bytes) (total : ℕ) (v_fits : length v < 2 ^ 16) (total_fits : total < 2 ^ 16)
      (room : length (encode_all avs) + 4 ≤ total)
      (big : 24
        ≤ length (encode_all avs) + (length (tlv attr_message_integrity v) + length back)) where
    abbrev body : Bytes
    body = encode_all avs ++ (tlv attr_message_integrity v ++ back)

    abbrev packet : Bytes
    packet = header type total txn ++ body

    head : length (header type total txn) ≡ 20
    head = length-header type total txn txn_fits

    long :
        length packet
        ≡ 20 + (length (encode_all avs) + (length (tlv attr_message_integrity v) + length back))
    long = omega (
      arith,
      head,
      length-append (header type total txn) body,
      length-append (encode_all avs) (tlv attr_message_integrity v ++ back),
      length-append (tlv attr_message_integrity v) back,
    )

    -- The check comes down to reading twenty bytes behind the attribute's header.
    verify-read : verify_integrity hmac_sha1 packet key ≡ (
        read_bytes 20 (v ++ (replicate (padding (length v)) 0 ++ back)) >>= λ stored.
        value (bytes_eq (hmac_sha1 key signed_text) stored))
    unfolding verify_integrity
    verify-read = rw (
      le→ltb_false (length packet) 44 (omega (arith, long)),
      len-header type total txn txn_fits body total_fits,
      find_integrity-found avs v (header type total txn) back packet (20 + total) (20 + total) 20
          fits other v_fits refl (sym head) (omega (arith, head)) (omega (arith, head))
          (omega (arith, head)),
      ==_false (length (header type total txn) + length (encode_all avs)) 0 (omega (arith, head)),
      pointer,
      text,
    )
      where
        split_packet :
            packet
            ≡ (header type total txn ++ encode_all avs) ++ (tlv attr_message_integrity v ++ back)
        split_packet = sym (append_assoc (header type total txn) (encode_all avs) _)

        front_length :
            length (header type total txn) + length (encode_all avs)
            ≡ length (header type total txn ++ encode_all avs)
        front_length = sym (length-append (header type total txn) (encode_all avs))

        pointer :
            drop (length (header type total txn) + length (encode_all avs) + 4) packet
            ≡ v ++ (replicate (padding (length v)) 0 ++ back)
        pointer =
            rw (split_packet, front_length)
              (value_at (header type total txn ++ encode_all avs) back attr_message_integrity v)

        announced :
            length (header type total txn) + length (encode_all avs) - 20 + 24
            ≡ length (encode_all avs) + 24
        announced = omega (arith, head)

        span :
            length (header type total txn) + length (encode_all avs) - 20 ≡ length (encode_all avs)
        span = omega (arith, head)

        text :
            (take 2 packet
                ++ (write16 (
                      (length (header type total txn) + length (encode_all avs) - 20 + 24) % 2 ^ 16)
                    ++ take 16 (drop 4 packet)))
              ++ take
                  (length (header type total txn) + length (encode_all avs) - 20)
                  (drop 20 packet)
            ≡ signed_text
        text = rw (
          announced,
          span,
          relabelled type total ((length (encode_all avs) + 24) % 2 ^ 16) txn body txn_fits,
          drop-append 20 (header type total txn) body head,
          take-append (length (encode_all avs)) (encode_all avs)
              (tlv attr_message_integrity v ++ back) refl,
          signed_text-header,
        )

  -- A packet of the builder with further attributes behind the signature is such a packet.
  module _ (v : Bytes) (after : List (ℕ × Bytes)) where
    build-integrity :
        length (encode_all (avs ++ ((attr_message_integrity, v) ∷ after))) < 2 ^ 16
        → build (add_all (avs ++ ((attr_message_integrity, v) ∷ after)) (new_builder type txn))
          ≡ header type (length (encode_all (avs ++ ((attr_message_integrity, v) ∷ after)))) txn
            ++ (encode_all avs ++ (tlv attr_message_integrity v ++ encode_all after))
    build-integrity small =
        build-add_all type txn (avs ++ ((attr_message_integrity, v) ∷ after)) small
        ∙ ap
            (◌++◌ (
              header type (length (encode_all (avs ++ ((attr_message_integrity, v) ∷ after)))) txn))
            (encode_all-append avs ((attr_message_integrity, v) ∷ after)
              ∙ ap (◌++◌ (encode_all avs)) (unfold encode_all in refl))

  -- Whatever twenty bytes the attribute carries, the check answers whether they are the digest of the
  -- header and the attributes before it; what stands behind it does not count. The attributes before it fit
  -- their fields and are of other types, and all together are below 65536 bytes.
  pub verify-digest :
      (v : Bytes) (after : List (ℕ × Bytes))
      → length v ≡ 20
      → length (encode_all (avs ++ ((attr_message_integrity, v) ∷ after))) < 2 ^ 16
      → verify_integrity hmac_sha1
          (build (add_all (avs ++ ((attr_message_integrity, v) ∷ after)) (new_builder type txn)))
          key
        ≡ value (bytes_eq (hmac_sha1 key (wire_with 24 (add_all avs (new_builder type txn)))) v)
  unfolding signed_text
  verify-digest v after lv small = rw (
    build-integrity v after small,
    verify-read v (encode_all after) _ (omega arith) small (omega (arith, sized))
        (omega (arith, length-tlv attr_message_integrity v)),
    stored,
  )
    where
      sized :
          length (encode_all (avs ++ ((attr_message_integrity, v) ∷ after)))
          ≡ length (encode_all avs) + (24 + length (encode_all after))
      sized = omega (
        arith,
        ap length (encode_all-append avs ((attr_message_integrity, v) ∷ after)),
        length-append (encode_all avs) (encode_all ((attr_message_integrity, v) ∷ after)),
        length-encode_all_cons attr_message_integrity v after,
      )

      stored : read_bytes 20 (v ++ (replicate (padding (length v)) 0 ++ encode_all after)) ≡ value v
      stored =
          subst
            (λ n.
              read_bytes n (v ++ (replicate (padding (length v)) 0 ++ encode_all after)) ≡ value v)
            lv (read_bytes-append v (replicate (padding (length v)) 0 ++ encode_all after))

  -- The bug: a first MESSAGE-INTEGRITY with fewer than twenty bytes from its value to the end of the
  -- packet makes the check read behind the packet's end, once the packet has 44 bytes. The attributes
  -- before it fit their fields and are of other types, and all together are below 65536 bytes.
  pub verify_over_read :
      (v : Bytes) (after : List (ℕ × Bytes))
      → length v < 2 ^ 16
      → length (encode_all (avs ++ ((attr_message_integrity, v) ∷ after))) < 2 ^ 16
      → 24 ≤ length (encode_all (avs ++ ((attr_message_integrity, v) ∷ after)))
      → length v + padding (length v) + length (encode_all after) < 20
      → verify_integrity hmac_sha1
          (build (add_all (avs ++ ((attr_message_integrity, v) ∷ after)) (new_builder type txn)))
          key
        ≡ fault
  unfolding read_bytes
  verify_over_read v after lv small big short = rw (
    build-integrity v after small,
    verify-read v (encode_all after) _ lv small (omega (arith, sized))
        (omega (arith, sized, length-tlv attr_message_integrity v)),
    lt→leb_false 20 (length (v ++ (replicate (padding (length v)) 0 ++ encode_all after))) (
        omega (
          arith,
          length-append v (replicate (padding (length v)) 0 ++ encode_all after),
          length-append {A = ℕ} (replicate (padding (length v)) 0) (encode_all after),
          length-replicate {A = ℕ} (padding (length v)) 0,
        )),
  )
    where
      sized :
          length (encode_all (avs ++ ((attr_message_integrity, v) ∷ after)))
          ≡ length (encode_all avs)
            + (4 + length v + padding (length v) + length (encode_all after))
      sized = omega (
        arith,
        ap length (encode_all-append avs ((attr_message_integrity, v) ∷ after)),
        length-append (encode_all avs) (encode_all ((attr_message_integrity, v) ∷ after)),
        length-encode_all_cons attr_message_integrity v after,
      )

-- A packet that `add_integrity` signed passes the check under the same key, with any attributes added
-- behind the signature. The digest has 20 bytes, the attributes before it fit their fields and hold no
-- MESSAGE-INTEGRITY, and all attributes together are below 65536 bytes.
pub verify-add_integrity :
    (hmac_sha1 : Bytes → Bytes → Bytes)
    → ((key msg : Bytes) → length (hmac_sha1 key msg) ≡ 20)
    → (key : Bytes) (type : ℕ) (txn : Bytes) (avs after : List (ℕ × Bytes)) → type < 2 ^ 16
    → length txn ≡ 12
    → All Fits avs
    → All NotIntegrity avs
    → length (encode_all avs) + (24 + length (encode_all after)) < 2 ^ 16
    → verify_integrity hmac_sha1
        (build (add_all after (add_integrity hmac_sha1 key (add_all avs (new_builder type txn)))))
        key
      ≡ value true
verify-add_integrity hmac_sha1 hmac_length key type txn avs after ht lt fits other small =
    subst (λ b. verify_integrity hmac_sha1 (build b) key ≡ value true) (sym built)
      (verify-digest hmac_sha1 key type txn avs ht lt fits other sig after (hmac_length _ _)
          (omega (arith, sized))
        ∙ ap value (bytes_eq_refl sig))
  where
    sig : Bytes
    sig = hmac_sha1 key (wire_with 24 (add_all avs (new_builder type txn)))

    built :
        add_all after (add_integrity hmac_sha1 key (add_all avs (new_builder type txn)))
        ≡ add_all (avs ++ ((attr_message_integrity, sig) ∷ after)) (new_builder type txn)
    built = sym (
        add_all-append avs ((attr_message_integrity, sig) ∷ after) (new_builder type txn)
        ∙ (unfold add_all add_integrity in refl))

    sized :
        length (encode_all (avs ++ ((attr_message_integrity, sig) ∷ after)))
        ≡ length (encode_all avs) + (24 + length (encode_all after))
    sized = omega (
      arith,
      ap length (encode_all-append avs ((attr_message_integrity, sig) ∷ after)),
      length-append (encode_all avs) (encode_all ((attr_message_integrity, sig) ∷ after)),
      length-encode_all_cons attr_message_integrity sig after,
      hmac_length key (wire_with 24 (add_all avs (new_builder type txn))),
    )
