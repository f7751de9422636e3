-- ===== src/Mdns/NameSafety.antt =====
-- `decode_name` on every packet: no read outside it, an end within the fuel, and bounds on the result.
use link_ice.Prelude.{
  ℕ, zero, suc, ◌+◌, ◌-◌, ◌*◌, ◌/◌, ◌%◌, ◌^◌, ◌≤◌, ◌<◌, ◌≡◌, refl, arith, [], ◌∷◌, ◌++◌, map, Bytes,
  true, false, not, Option, none, some, if◌then◌else◌, ltb, leb, ◌==◌, length, drop, take,
  length-append, length-map, length-take, value, ◌>>=◌, read8, read_bytes, Returns, if-Returns,
  >>=-Returns, ◌⊎◌, inl,
}
use link_ice.Stun.Endian.{read_bytes-value}
use link_ice.Stun.Safety.{Done, read8-Done, left_after}
use link_ice.Mdns.Names.{
  tolower, to_lower, Cursor, Round, return, continue, dotted, decode_round, decode_loop, cursor_at,
  decode_name, dot,
}

-- What holds of the cursor in a name that starts at `off`.
pub record IsCursor (bytes : Bytes) (off : ℕ) (c : Cursor) : Type 0 where
  pub few_jumps : c.jumps ≤ 16
  pub short : c.total ≤ 255
  pub name_total : length c.name ≤ c.total
  pub ahead :
      (c.jumped ≡ false) × (off ≤ c.cur)
      ⊎ (c.jumped ≡ true) × (off < c.next) × (c.next ≤ length bytes)

-- A decoded name of at most 255 bytes and an offset behind its start, inside the packet.
unfoldable pub Decoded : Bytes → ℕ → Option (Bytes × ℕ) → Type 0
Decoded bytes off none = Unit
Decoded bytes off (some (name, next)) = (length name ≤ 255) × (off < next) × (next ≤ length bytes)

-- The rounds that are left.
abbrev left : Cursor → ℕ
left c = (16 - c.jumps) + (255 - c.total)

Proceeds : Bytes → ℕ → Cursor → Round → Type 0
Proceeds bytes off c (return r) = Decoded bytes off r
Proceeds bytes off c (continue c') = IsCursor bytes off c' × (left c' < left c)

length-dotted : (name : Bytes) → length (dotted name) ≤ length name + 1
length-dotted [] = omega arith
length-dotted (c ∷ cs) = omega (arith, length-append cs (dot ∷ []))

jump_Proceeds :
    (bytes : Bytes) (off : ℕ) (c : Cursor) (len : ℕ)
    → IsCursor bytes off c
    → c.cur < length bytes
    → Returns
        (if leb (length bytes) (c.cur + 1) then value (return none) else (do
          low ← read8 (drop (c.cur + 1) bytes)
          let target = len % 2 ^ 6 * 2 ^ 8 + low
          if leb (length bytes) target
              then value (return none)
              else if ltb 16 (c.jumps + 1)
              then value (return none)
              else value (
                  continue (record c {
                    next = if c.jumped then c.next else c.cur + 2;
                    cur = target;
                    jumped = true;
                    jumps = c.jumps + 1;
                  }))))
        (Proceeds bytes off c)
unfolding Proceeds Decoded
jump_Proceeds bytes off c len h inside =
    if-Returns (Proceeds bytes off c) (leb (length bytes) (c.cur + 1)) _ _ (λ _. tt)
      λ two.
        >>=-Returns Done (Proceeds bytes off c) _ _
          (read8-Done (drop (c.cur + 1) bytes) (left_after (c.cur + 1) 1 bytes (ground arith)))
          λ low _. ground (arith, h.ahead, h.few_jumps)

label_Proceeds :
    (bytes : Bytes) (off : ℕ) (c : Cursor) (len : ℕ)
    → IsCursor bytes off c
    → c.cur < length bytes
    → Returns
        (if not (len / 2 ^ 6 % 4 == 0)
          then value (return none)
          else if ltb (length bytes) (c.cur + 1 + len)
          then value (return none)
          else if ltb 255 (c.total + 1 + len)
          then value (return none)
          else (do
            l ← read_bytes len (drop (c.cur + 1) bytes)
            value (
                continue (record c {
                  name = dotted c.name ++ to_lower l;
                  cur = c.cur + 1 + len;
                  total = c.total + 1 + len;
                }))))
        (Proceeds bytes off c)
unfolding Proceeds Decoded to_lower
label_Proceeds bytes off c len h inside =
    if-Returns (Proceeds bytes off c) (not (len / 2 ^ 6 % 4 == 0)) _ _ (λ _. tt)
      λ _.
        if-Returns (Proceeds bytes off c) (ltb (length bytes) (c.cur + 1 + len)) _ _ (λ _. tt)
          λ fits.
            if-Returns (Proceeds bytes off c) (ltb 255 (c.total + 1 + len)) _ _ (λ _. tt)
              λ small.
                let p = drop (c.cur + 1) bytes in
                let room : len ≤ length p = left_after (c.cur + 1) len bytes (ground arith) in
                let short : length (take len p) ≤ len = omega (arith, length-take len p) in
                let longer : length (dotted c.name ++ map tolower (take len p))
                    ≤ c.total + 1 + len =
                  omega (
                    arith,
                    length-append (dotted c.name) (map tolower (take len p)),
                    length-map tolower (take len p),
                    length-dotted c.name,
                    h.name_total,
                    short,
                  ) in
                rw (read_bytes-value len p room) (
                  record {
                    few_jumps = h.few_jumps;
                    short = ground arith;
                    name_total = longer;
                    ahead = ground (arith, h.ahead);
                  },
                  ground arith,
                )

decode_round-Proceeds :
    (bytes : Bytes) (off : ℕ) (c : Cursor)
    → IsCursor bytes off c
    → Returns (decode_round bytes c) (Proceeds bytes off c)
unfolding decode_round Proceeds Decoded
decode_round-Proceeds bytes off c h =
    if-Returns (Proceeds bytes off c) (leb (length bytes) c.cur) _ _ (λ _. tt)
      λ inside.
        >>=-Returns Done (Proceeds bytes off c) _ _
          (read8-Done (drop c.cur bytes) (left_after c.cur 1 bytes (ground arith)))
          λ len _.
            if-Returns (Proceeds bytes off c) (len == 0) _ _ (λ _. ground (arith, h.ahead))
              λ some_len.
                if-Returns (Proceeds bytes off c) (len / 2 ^ 6 % 4 == 3) _ _
                  (λ _. jump_Proceeds bytes off c len h (ground arith))
                  λ _. label_Proceeds bytes off c len h (ground arith)

decode_loop-returns :
    (bytes : Bytes) (off fuel : ℕ) (c : Cursor)
    → IsCursor bytes off c
    → left c < fuel
    → Returns (decode_loop bytes fuel c) (Decoded bytes off)
unfolding decode_loop Proceeds
decode_loop-returns bytes off zero c h l = absurd (omega arith)
decode_loop-returns bytes off (suc fuel) c h l =
    >>=-Returns (Proceeds bytes off c) (Decoded bytes off) _ _ (decode_round-Proceeds bytes off c h)
      (elim [
        | return r ↦ λ d. d
        | continue c' ↦ λ p. decode_loop-returns bytes off fuel c' p.0 (omega (arith, p.1, l))
      ])

-- On every packet and at every offset the decoder reads only inside the packet and ends within its 272
-- iterations, pointer loops included; a name it returns has at most 255 bytes, and the offset it returns
-- is behind the start of the name and not behind the packet.
pub decode_name-returns :
    (bytes : Bytes) (off : ℕ) → Returns (decode_name bytes off) (Decoded bytes off)
unfolding decode_name
decode_name-returns bytes off =
    decode_loop-returns bytes off 272 (cursor_at off)
      (record {
        few_jumps = omega arith;
        short = omega arith;
        name_total = omega arith;
        ahead = inl (refl, omega arith);
      })
      (omega arith)
