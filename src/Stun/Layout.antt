-- ===== src/Stun/Layout.antt =====
-- How `add_attr` lays an attribute out, and how the parser's loop reads it back.
use link_ice.Prelude.{
  ℕ, zero, suc, ◌+◌, ◌-◌, ◌%◌, ◌^◌, ◌≤◌, ◌<◌, ◌≡◌, refl, ◌∙◌, arith, [], ◌∷◌, ◌++◌, append_assoc,
  append-nil, Bytes, Bool-cases, inl, inr, ◌==◌, length, drop, replicate, length-append,
  length-replicate, drop_behind, drop-append, value, read16,
}
use link_ice.Stun.Endian.{write16, length-write16, read16-write16}
use link_ice.Stun.Builder.{StunBuilder, pad_loop, add_attr}
use link_ice.Stun.Parser.{align_loop}

-- The zero bytes behind `n` bytes, up to the next multiple of four.
abbrev pub padding : ℕ → ℕ
padding n = (4 - n % 4) % 4

pad_loop-padding :
    (fuel : ℕ) (xs : Bytes)
    → padding (length xs) ≤ fuel
    → pad_loop fuel xs ≡ xs ++ replicate (padding (length xs)) 0
unfolding pad_loop
pad_loop-padding zero xs h =
    let none_left : padding (length xs) ≡ 0 = omega arith in rw (none_left, append-nil)
pad_loop-padding (suc fuel) xs h = elim (Bool-cases (length xs % 4 == 0)) [
  | inl done ↦
      let none_left : padding (length xs) ≡ 0 = ground arith in rw (done, none_left, append-nil)
  | inr more ↦
      let longer : length (xs ++ 0 ∷ []) ≡ length xs + 1 = length-append xs (0 ∷ []) in
      let one_less : padding (length xs) ≡ suc (padding (length (xs ++ 0 ∷ []))) =
        ground (arith, longer) in
      rw (more, one_less)
        (pad_loop-padding fuel (xs ++ 0 ∷ []) (omega arith)
          ∙ append_assoc xs (0 ∷ []) (replicate (padding (length (xs ++ 0 ∷ []))) 0))
]

pub align_loop-padding : (fuel n : ℕ) → padding n ≤ fuel → align_loop fuel n ≡ n + padding n
unfolding align_loop
align_loop-padding zero n h = omega arith
align_loop-padding (suc fuel) n h = elim (Bool-cases (n % 4 == 0)) [
  | inl done ↦ rw done (ground arith)
  | inr more ↦ rw more (ground (arith, align_loop-padding fuel (n + 1) (ground arith)))
]

-- One attribute on the wire: type, length, value, padding.
unfoldable pub tlv : ℕ → Bytes → Bytes
tlv type v =
    write16 type ++ (write16 (length v % 2 ^ 16) ++ (v ++ replicate (padding (length v)) 0))

pub length-tlv : (type : ℕ) (v : Bytes) → length (tlv type v) ≡ 4 + length v + padding (length v)
unfolding tlv write16
length-tlv type v = omega (
  arith,
  length-append v (replicate (padding (length v)) 0),
  length-replicate {A = ℕ} (padding (length v)) 0,
)

-- On aligned attributes `add_attr` appends one such block.
pub attrs-add_attr :
    (type : ℕ) (v : Bytes) (b : StunBuilder)
    → length b.attrs % 4 ≡ 0
    → (add_attr type v b).attrs ≡ b.attrs ++ tlv type v
unfolding add_attr tlv
attrs-add_attr type v b h = rw (
  pad_loop-padding 3 (b.attrs ++ (write16 type ++ (write16 (length v % 2 ^ 16) ++ v)))
      (omega arith),
  same,
  append_assoc,
  append_assoc,
  append_assoc,
)
  where
    same :
        padding (length (b.attrs ++ (write16 type ++ (write16 (length v % 2 ^ 16) ++ v))))
        ≡ padding (length v)
    same =
        let l1 = length-append b.attrs (write16 type ++ (write16 (length v % 2 ^ 16) ++ v)) in
        let l2 = length-append (write16 type) (write16 (length v % 2 ^ 16) ++ v) in
        let l3 = length-append (write16 (length v % 2 ^ 16)) v in
        omega (arith, length-write16 type, length-write16 (length v % 2 ^ 16))

-- The loop's two reads at an attribute that stands behind `front`.
module _ (front back : Bytes) (type : ℕ) (v : Bytes) where
  pub type_at :
      type < 2 ^ 16 → read16 (drop (length front) (front ++ (tlv type v ++ back))) ≡ value type
  unfolding tlv
  type_at h = rw (
    drop-append (length front) front (tlv type v ++ back) refl,
    append_assoc,
    read16-write16 type
        ((write16 (length v % 2 ^ 16) ++ (v ++ replicate (padding (length v)) 0)) ++ back) h,
  )

  pub len_at :
      length v < 2 ^ 16
      → read16 (drop (length front + 2) (front ++ (tlv type v ++ back))) ≡ value (length v)
  unfolding tlv
  len_at h =
      let small : length v % 2 ^ 16 ≡ length v = omega arith in
      rw (
        drop_behind (length front + 2) (length front) 2 front (tlv type v ++ back) refl refl,
        append_assoc,
        drop-append 2 (write16 type)
            ((write16 (length v % 2 ^ 16) ++ (v ++ replicate (padding (length v)) 0)) ++ back)
            (length-write16 type),
        append_assoc,
        read16-write16 (length v % 2 ^ 16) ((v ++ replicate (padding (length v)) 0) ++ back)
            (omega arith),
        small,
      )

  -- What the pointer to the value reaches.
  pub value_at :
      drop (length front + 4) (front ++ (tlv type v ++ back))
      ≡ v ++ (replicate (padding (length v)) 0 ++ back)
  unfolding tlv
  value_at = rw (
    drop_behind (length front + 4) (length front) 4 front (tlv type v ++ back) refl refl,
    append_assoc,
    drop_behind 4 2 2 (write16 type)
        ((write16 (length v % 2 ^ 16) ++ (v ++ replicate (padding (length v)) 0)) ++ back)
        (length-write16 type) (omega arith),
    append_assoc,
    drop-append 2 (write16 (length v % 2 ^ 16)) ((v ++ replicate (padding (length v)) 0) ++ back)
        (length-write16 _),
    append_assoc,
  )
