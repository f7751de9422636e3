-- ===== src/Candidate/SignalRoundTrip.antt =====
-- `deserialize_signal` against `serialize_signal`.
use link_ice.Prelude.{
  ℕ, ◌+◌, ◌-◌, ◌*◌, ◌/◌, ◌%◌, ◌^◌, ◌≤◌, ◌<◌, ◌≡◌, refl, sym, ap, ◌∙◌, arith, List, [], ◌∷◌, ◌++◌,
  map, append_assoc, append-nil, Bytes, true, false, some, if◌then◌else◌, ltb, min, length, drop,
  take, replicate, length-append, length-take, length-replicate, drop-append, drop_behind, drop-add,
  All, ◌⊎◌, inl, inr, take-append, Bool-cases, ltb→lt, lt→ltb, le→ltb_false, ==_refl, ==_false,
  value, read16, read_bytes,
}
use link_ice.Stun.Endian.{
  write16, write32, length-write16, length-write32, read16-write16, read32-write32,
  read_bytes-append,
}
use link_ice.Candidate.{Candidate, is_host_mdns}
use link_ice.Candidate.Wire.{to_wire, IsWire, on_wire, length-to_wire, from_wire-to_wire}
use link_ice.Candidate.Signal.{
  SignalHeader, fixed_field, wires, mdns_count, hostnames, pack_count, serialize_signal,
  read_candidates, count_host_mdns, cons_named, read_hostnames, read_trailer, deserialize_signal,
}

-- A candidate that the envelope carries: in range, with a hostname of 1 to 64 bytes exactly where the
-- type is HostMdns.
pub record IsSendable (c : Candidate) : Type 0 where
  pub wire : IsWire c
  pub name :
      ((is_host_mdns c.type ≡ true) × (0 < length c.hostname) × (length c.hostname ≤ 64))
      ⊎ ((is_host_mdns c.type ≡ false) × (c.hostname ≡ []))

-- All but the foundation arrives.
abbrev pub sent : Candidate → Candidate
sent c = record c { foundation = [] }

read_candidates-wires :
    (cs : List Candidate) (rest : Bytes)
    → All IsSendable cs
    → read_candidates (length cs) (wires cs ++ rest) ≡ value (map on_wire cs, rest)
unfolding read_candidates wires
read_candidates-wires [] rest h = refl
read_candidates-wires (c ∷ cs) rest h = rw (
  append_assoc,
  from_wire-to_wire c (wires cs ++ rest) h.0.wire,
  drop-append 24 (to_wire c) (wires cs ++ rest) (length-to_wire c h.0.wire.addr_length),
  read_candidates-wires cs rest h.1,
)

length-wires : (cs : List Candidate) → All IsSendable cs → length (wires cs) ≡ length cs * 24
unfolding wires
length-wires [] h = refl
length-wires (c ∷ cs) h = omega (
  arith,
  length-append (to_wire c) (wires cs),
  length-to_wire c h.0.wire.addr_length,
  length-wires cs h.1,
)

count-mdns_count :
    (cs : List Candidate) → All IsSendable cs → count_host_mdns (map on_wire cs) ≡ mdns_count cs
unfolding count_host_mdns mdns_count
count-mdns_count [] h = refl
count-mdns_count (c ∷ cs) h = ground (arith, h.0.name, count-mdns_count cs h.1)

mdns_count-le : (cs : List Candidate) → mdns_count cs ≤ length cs
unfolding mdns_count
mdns_count-le [] = omega arith
mdns_count-le (c ∷ cs) = ground (arith, mdns_count-le cs)

-- One hostname of the trailer.
one_hostname :
    (c : Candidate) (cs : List Candidate) (p : Bytes)
    → is_host_mdns c.type ≡ true
    → 0 < length c.hostname
    → length c.hostname ≤ 64
    → read_hostnames (on_wire c ∷ cs) (
        write16 (min (length c.hostname) 64) ++ (take (min (length c.hostname) 64) c.hostname ++ p))
      ≡ cons_named (sent c) 1 (read_hostnames cs p)
unfolding read_hostnames
one_hostname c cs p m lo hi =
    let name = c.hostname in
    let w = write16 (length name) in
    let fits : min (length name) 64 ≡ length name = omega arith in
    let all : take (length name) name ≡ name =
      ap (take (length name)) (sym (append-nil name)) ∙ take-append (length name) name [] refl in
    let size : length (w ++ (name ++ p)) ≡ 2 + (length name + length p) =
      omega
        (arith, length-append w (name ++ p), length-append name p, length-write16 (length name)) in
    let read : read16 (w ++ (name ++ p)) ≡ value (length name) =
      read16-write16 (length name) (name ++ p) (omega arith) in
    rw (
      fits,
      all,
      m,
      le→ltb_false (length (w ++ (name ++ p))) 2 (omega arith),
      read,
      drop-append 2 w (name ++ p) (length-write16 (length name)),
      ==_false (length name) 0 (omega arith),
      le→ltb_false 64 (length name) hi,
      le→ltb_false (length (name ++ p)) (length name) (omega (arith, length-append name p)),
      read_bytes-append name p,
      drop-append (length name) name p refl,
    )

-- The trailer of a candidate with a name, and of one without.
hostnames-named :
    (c : Candidate) (cs : List Candidate) (rest : Bytes)
    → is_host_mdns c.type ≡ true
    → 0 < length c.hostname
    → hostnames (c ∷ cs) ++ rest
      ≡ write16 (min (length c.hostname) 64)
        ++ (take (min (length c.hostname) 64) c.hostname ++ (hostnames cs ++ rest))
unfolding hostnames
hostnames-named c cs rest m lo =
    let w = write16 (min (length c.hostname) 64) in
    let t = take (min (length c.hostname) 64) c.hostname in
    rw (m, lt→ltb 0 (length c.hostname) lo)
      (append_assoc (w ++ t) (hostnames cs) rest ∙ append_assoc w t (hostnames cs ++ rest))

hostnames-unnamed :
    (c : Candidate) (cs : List Candidate) (rest : Bytes)
    → is_host_mdns c.type ≡ false
    → hostnames (c ∷ cs) ++ rest ≡ hostnames cs ++ rest
unfolding hostnames
hostnames-unnamed c cs rest m = rw m

sent-unnamed : (c : Candidate) → c.hostname ≡ [] → on_wire c ≡ sent c
sent-unnamed c e = ap (λ (n : Bytes). record c { foundation = []; hostname = n }) (sym e)

read_hostnames-skip :
    (c : Candidate) (cs : List Candidate) (p : Bytes)
    → is_host_mdns c.type ≡ false
    → read_hostnames (on_wire c ∷ cs) p ≡ cons_named (on_wire c) 0 (read_hostnames cs p)
unfolding read_hostnames
read_hostnames-skip c cs p m = rw m

mdns_count-named :
    (c : Candidate) (cs : List Candidate)
    → is_host_mdns c.type ≡ true
    → 0 < length c.hostname
    → mdns_count (c ∷ cs) ≡ 1 + mdns_count cs
unfolding mdns_count
mdns_count-named c cs m lo = rw (m, lt→ltb 0 (length c.hostname) lo)

mdns_count-unnamed :
    (c : Candidate) (cs : List Candidate)
    → is_host_mdns c.type ≡ false
    → mdns_count (c ∷ cs) ≡ mdns_count cs
unfolding mdns_count
mdns_count-unnamed c cs m = rw m (omega arith)

read_hostnames-hostnames :
    (cs : List Candidate) (rest : Bytes)
    → All IsSendable cs
    → read_hostnames (map on_wire cs) (hostnames cs ++ rest)
      ≡ value (some (map sent cs, rest, mdns_count cs))
unfolding read_hostnames hostnames mdns_count
read_hostnames-hostnames [] rest h = refl
read_hostnames-hostnames (c ∷ cs) rest h =
    let named = map sent (c ∷ cs) in
    let before = read_hostnames-hostnames cs rest h.1 in
    elim h.0.name [
      | inl (m, lo, hi) ↦
          ap (read_hostnames (map on_wire (c ∷ cs))) (hostnames-named c cs rest m lo)
          ∙ one_hostname c (map on_wire cs) (hostnames cs ++ rest) m lo hi
          ∙ ap (cons_named (sent c) 1) before
          ∙ ap (λ (n : ℕ). value (some (named, rest, n))) (sym (mdns_count-named c cs m lo))
      | inr (m, e) ↦
          ap (read_hostnames (map on_wire (c ∷ cs))) (hostnames-unnamed c cs rest m)
          ∙ read_hostnames-skip c (map on_wire cs) (hostnames cs ++ rest) m
          ∙ ap (cons_named (on_wire c) 0) before
          ∙ ap (λ (d : Candidate). value (some (d ∷ map sent cs, rest, 0 + mdns_count cs)))
              (sent-unnamed c e)
          ∙ ap (λ (n : ℕ). value (some (named, rest, n))) (omega (arith, mdns_count-unnamed c cs m))
    ]

-- Without a name to send, the candidates are complete as they stand in the body.
unnamed_all :
    (cs : List Candidate) → All IsSendable cs → mdns_count cs ≡ 0 → map on_wire cs ≡ map sent cs
unfolding mdns_count
unnamed_all [] h e = refl
unnamed_all (c ∷ cs) h e = elim h.0.name [
  | inl (m, lo, hi) ↦ absurd (omega (arith, e, mdns_count-named c cs m lo))
  | inr (m, n) ↦
      ap (◌∷◌ (on_wire c)) (unnamed_all cs h.1 (omega (arith, e, mdns_count-unnamed c cs m)))
      ∙ ap (λ (d : Candidate). d ∷ map sent cs) (sent-unnamed c n)
]

trailer : List Candidate → Bytes
trailer cs = if ltb 0 (mdns_count cs) then write32 (mdns_count cs) ++ hostnames cs else []

read_trailer-trailer :
    (header : SignalHeader) (cs : List Candidate) (flags : ℕ)
    → All IsSendable cs
    → length cs ≤ 256
    → read_trailer header (map on_wire cs) flags (trailer cs)
      ≡ value (some (record { header = header; candidates = map sent cs; flags = flags }))
unfolding read_trailer trailer
read_trailer-trailer header cs flags h n =
    let e = count-mdns_count cs h in
    let k = mdns_count cs in
    let w = write32 k in
    let hs = hostnames cs in
    let size : length (w ++ hs) ≡ 4 + length hs =
      omega (arith, length-append w hs, length-write32 k) in
    let names : read_hostnames (map on_wire cs) hs ≡ value (some (map sent cs, [], k)) =
      ap (read_hostnames (map on_wire cs)) (sym (append-nil hs))
      ∙ read_hostnames-hostnames cs [] h in
    elim (Bool-cases (ltb 0 k)) [
      | inl pos ↦
          let lo = ltb→lt 0 k pos in
          rw (
            pos,
            ==_false (length (w ++ hs)) 0 (λ z. absurd (omega (arith, size, z))),
            e,
            ==_false k 0 (λ z. absurd (omega (arith, lo, z))),
            le→ltb_false (length (w ++ hs)) 4 (omega (arith, size)),
            read32-write32 k hs (omega (arith, mdns_count-le cs, n)),
            ==_refl k,
            drop-append 4 w hs (length-write32 k),
            names,
            ==_refl k,
          )
      | inr neg ↦
          let zero_names : k ≡ 0 = ground arith in
          rw (neg, e, zero_names, unnamed_all cs h zero_names)
    ]

fixed_field-length : (n : ℕ) (s : Bytes) → length s ≤ n → length (fixed_field n s) ≡ n
unfolding fixed_field
fixed_field-length n s h = omega (
  arith,
  length-append (take n s) (replicate (n - length s) 0),
  length-take n s,
  length-replicate {A = ℕ} (n - length s) 0,
)

pack_count-low :
    (flags n : ℕ) → flags % 2 ^ 16 ≡ 0 → flags < 2 ^ 32 → n ≤ 256 → pack_count flags n ≡ flags + n
unfolding pack_count
pack_count-low flags n h b l = omega arith

-- A receiver reads back exactly what the sender gathered: the credentials padded with zeros to 8 and
-- 32 bytes, every candidate but for its foundation, and the flags. The credentials fit their fields,
-- the flags stand in the upper 16 of 32 bits, there are at most 256 candidates, each in range and with a
-- hostname of 1 to 64 bytes where it is HostMdns and none where it is not.
pub deserialize-serialize :
    (ufrag pwd : Bytes) (cs : List Candidate) (flags : ℕ)
    → length ufrag ≤ 8
    → length pwd ≤ 32
    → All IsSendable cs
    → length cs ≤ 256
    → flags % 2 ^ 16 ≡ 0
    → flags < 2 ^ 32
    → deserialize_signal (serialize_signal ufrag pwd cs flags)
      ≡ value (
          some (record {
            header = record {
              ufrag = fixed_field 8 ufrag;
              pwd = fixed_field 32 pwd;
              candidate_count = length cs;
            };
            candidates = map sent cs;
            flags = flags;
          }))
unfolding deserialize_signal serialize_signal trailer
deserialize-serialize ufrag pwd cs flags lu lp h n low wide =
    let u = fixed_field 8 ufrag in
    let v = fixed_field 32 pwd in
    let k = length cs in
    let packed = pack_count flags k in
    let p : packed ≡ flags + k = pack_count-low flags k low wide n in
    let q = wires cs ++ trailer cs in
    let body = v ++ (write32 packed ++ q) in
    let lu' = fixed_field-length 8 ufrag lu in
    let lv' = fixed_field-length 32 pwd lp in
    let size : length (u ++ body) ≡ 44 + (k * 24 + length (trailer cs)) = omega (
      arith,
      length-append u body,
      length-append v (write32 packed ++ q),
      length-append (write32 packed) q,
      length-write32 packed,
      length-append (wires cs) (trailer cs),
      length-wires cs h,
    ) in
    let first : read_bytes 8 (u ++ body) ≡ value u =
      ap (λ (m : ℕ). read_bytes m (u ++ body)) (sym lu') ∙ read_bytes-append u body in
    let second : read_bytes 32 body ≡ value v =
      ap (λ (m : ℕ). read_bytes m body) (sym lv') ∙ read_bytes-append v (write32 packed ++ q) in
    let third : drop 40 (u ++ body) ≡ write32 packed ++ q =
      drop_behind 40 8 32 u body lu' (omega arith) ∙ drop-append 32 v (write32 packed ++ q) lv' in
    let fourth : drop 44 (u ++ body) ≡ q =
      drop-add 44 40 4 (u ++ body) (omega arith)
      ∙ ap (drop 4) third
      ∙ drop-append 4 (write32 packed) q (length-write32 packed) in
    let count : packed % 2 ^ 16 ≡ k = omega arith in
    let mask : packed / 2 ^ 16 * 2 ^ 16 ≡ flags = omega arith in
    rw
      (
        le→ltb_false (length (u ++ body)) 44 (omega arith),
        first,
        drop-append 8 u body lu',
        second,
        third,
        read32-write32 packed q (omega arith),
        count,
        mask,
        le→ltb_false 256 k n,
        le→ltb_false (length (u ++ body)) (44 + k * 24) (omega arith),
        fourth,
        read_candidates-wires cs (trailer cs) h,
      )
      (read_trailer-trailer (record { ufrag = u; pwd = v; candidate_count = k }) cs flags h n)
