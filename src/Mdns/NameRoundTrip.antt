-- ===== src/Mdns/NameRoundTrip.antt =====
-- `decode_name` against `encode_name`.
use link_ice.Prelude.{
  ℕ, zero, suc, ◌+◌, ◌-◌, ◌/◌, ◌%◌, ◌^◌, ◌≤◌, ◌<◌, ◌≡◌, refl, sym, ap, ◌∙◌, arith, [], ◌∷◌, ◌++◌,
  map, append_assoc, append-nil, Bytes, true, false, some, if◌then◌else◌, ◌==◌, length, drop,
  length-append, length-map, length-drop, drop-append, drop_behind, value, read8, lt→leb_false,
  le→ltb_false, ==_false,
}
use link_ice.Stun.Endian.{read_bytes-append}
use link_ice.Mdns.Names.{
  tolower, to_lower, label, behind_label, encode_labels, encode_name, Cursor, return, continue,
  is_empty, dotted, decode_round, decode_loop, cursor_at, decode_name, dot,
}

-- A name without the dot of the root at its end.
unfoldable pub rootless : Bytes → Bytes
rootless [] = []
rootless (c ∷ cs) =
    let rest = rootless cs in if is_empty cs then (if c == dot then [] else c ∷ []) else c ∷ rest

-- What the decoder makes of a name: lower case, no dot at the end.
unfoldable pub canonical_name : Bytes → Bytes
canonical_name name = to_lower (rootless name)

-- The names behind the first label.
further : Bytes → Bytes
further [] = []
further (c ∷ cs) = dot ∷ rootless (c ∷ cs)

rootless-label : (name : Bytes) → rootless name ≡ label name ++ further (drop 1 (behind_label name))
unfolding rootless label behind_label further
rootless-label [] = refl
rootless-label (c ∷ []) = ground arith
rootless-label (c ∷ d ∷ cs) = ground (arith, rootless-label (d ∷ cs))

length-behind : (name : Bytes) → length (behind_label name) ≤ length name
unfolding behind_label
length-behind [] = omega arith
length-behind (c ∷ cs) = ground (arith, length-behind cs)

-- The name decoded so far and the labels of another name.
joined : Bytes → Bytes → Bytes
joined acc [] = acc
joined acc (c ∷ cs) = dotted acc ++ to_lower (rootless (c ∷ cs))

to_lower-append : (a b : Bytes) → to_lower (a ++ b) ≡ to_lower a ++ to_lower b
unfolding to_lower
to_lower-append [] b = refl
to_lower-append (c ∷ a) b = rw (to_lower-append a b)

is_empty-append : (a b : Bytes) → 0 < length b → is_empty (a ++ b) ≡ false
is_empty-append [] [] h = absurd (omega arith)
is_empty-append [] (c ∷ b) h = refl
is_empty-append (c ∷ a) b h = refl

dotted-label :
    (acc l : Bytes)
    → 0 < length l
    → dotted (dotted acc ++ to_lower l) ≡ (dotted acc ++ to_lower l) ++ (dot ∷ [])
unfolding to_lower
dotted-label acc l h =
    rw (is_empty-append (dotted acc) (map tolower l) (omega (arith, h, length-map tolower l)))

joined-further :
    (acc l r : Bytes)
    → 0 < length l
    → joined (dotted acc ++ to_lower l) r ≡ dotted acc ++ to_lower (l ++ further r)
unfolding joined further
joined-further acc l [] h = rw (append-nil l)
joined-further acc l (c ∷ r) h =
    let tail = to_lower (rootless (c ∷ r)) in
    let point : to_lower (dot ∷ rootless (c ∷ r)) ≡ dot ∷ tail = unfold to_lower tolower in refl in
    ap (λ (x : Bytes). x ++ tail) (dotted-label acc l h)
    ∙ append_assoc (dotted acc ++ to_lower l) (dot ∷ []) tail
    ∙ append_assoc (dotted acc) (to_lower l) (dot ∷ tail)
    ∙ ap (λ (x : Bytes). dotted acc ++ x)
        (ap (λ (x : Bytes). to_lower l ++ x) (sym point)
          ∙ sym (to_lower-append l (dot ∷ rootless (c ∷ r))))

joined-label :
    (acc : Bytes) (c : ℕ) (cs : Bytes)
    → 0 < length (label (c ∷ cs))
    → joined (dotted acc ++ to_lower (label (c ∷ cs))) (drop 1 (behind_label (c ∷ cs)))
      ≡ joined acc (c ∷ cs)
unfolding joined
joined-label acc c cs h =
    joined-further acc (label (c ∷ cs)) (drop 1 (behind_label (c ∷ cs))) h
    ∙ ap (λ (x : Bytes). dotted acc ++ to_lower x) (sym (rootless-label (c ∷ cs)))

-- The decoder's round on a label.
decode_round-label :
    (front l rest : Bytes) (c : Cursor)
    → c.cur ≡ length front
    → 0 < length l
    → length l ≤ 63
    → c.total + 1 + length l ≤ 255
    → decode_round (front ++ ((length l ∷ l) ++ rest)) c
      ≡ value (
          continue (record c {
            name = dotted c.name ++ to_lower l;
            cur = c.cur + 1 + length l;
            total = c.total + 1 + length l;
          }))
unfolding decode_round read8
decode_round-label front l rest c at lo hi fits =
    let n = length l in
    let tail = (n ∷ l) ++ rest in
    let bytes = front ++ tail in
    let size : length bytes ≡ length front + (1 + (n + length rest)) =
      omega (arith, length-append front tail, length-append l rest) in
    let here : drop c.cur bytes ≡ tail = rw at (drop-append (length front) front tail refl) in
    let next : drop (c.cur + 1) bytes ≡ l ++ rest =
      drop_behind (c.cur + 1) (length front) 1 front tail refl (omega (arith, at)) in
    let low : (n / 2 ^ 6 % 4 == 0) ≡ true = ground arith in
    rw (
      lt→leb_false (length bytes) c.cur (omega (arith, size, at)),
      here,
      ==_false n 0 (λ e. absurd (omega (arith, e, lo))),
      ==_false (n / 2 ^ 6 % 4) 3 (λ e. absurd (omega (arith, e, hi))),
      low,
      le→ltb_false (length bytes) (c.cur + 1 + n) (omega (arith, size, at)),
      le→ltb_false 255 (c.total + 1 + n) (omega (arith, fits)),
      next,
      read_bytes-append l rest,
    )

decode_round-root :
    (front rest : Bytes) (c : Cursor)
    → c.cur ≡ length front
    → c.jumped ≡ false
    → decode_round (front ++ (0 ∷ rest)) c ≡ value (return (some (c.name, c.cur + 1)))
unfolding decode_round read8
decode_round-root front rest c at direct =
    let bytes = front ++ (0 ∷ rest) in
    let here : drop c.cur bytes ≡ 0 ∷ rest =
      rw at (drop-append (length front) front (0 ∷ rest) refl) in
    rw (
      lt→leb_false (length bytes) c.cur (omega (arith, length-append front (0 ∷ rest), at)),
      here,
      direct,
    )

-- What a successful encoding says of the first label.
encode_labels-ok :
    (k size c : ℕ) (cs : Bytes)
    → (encode_labels (suc k) size (c ∷ cs)).1 ≡ true
    → let l = label (c ∷ cs) in
      let more = encode_labels k (size + 1 + length l) (drop 1 (behind_label (c ∷ cs))) in
      (0 < length l)
      × (length l ≤ 63)
      × (size + 1 + length l ≤ 255)
      × (more.1 ≡ true)
      × ((encode_labels (suc k) size (c ∷ cs)).0 ≡ (length l ∷ l) ++ more.0)
unfolding encode_labels
encode_labels-ok k size c cs h = ground arith

encode_labels-nil : (k size : ℕ) → encode_labels k size [] ≡ (0 ∷ [], true)
unfolding encode_labels
encode_labels-nil zero size = refl
encode_labels-nil (suc k) size = refl

decode_loop-encode :
    (fuel k : ℕ) (name front back : Bytes) (c : Cursor)
    → c.cur ≡ length front
    → c.jumped ≡ false
    → length name ≤ k
    → 255 - c.total < fuel
    → (encode_labels k c.total name).1 ≡ true
    → decode_loop (front ++ ((encode_labels k c.total name).0 ++ back)) fuel c
      ≡ value (some (joined c.name name, length front + length (encode_labels k c.total name).0))
unfolding decode_loop joined
decode_loop-encode zero k name front back c at direct l f ok = absurd (omega arith)
decode_loop-encode (suc fuel) k [] front back c at direct l f ok =
    rw (encode_labels-nil k c.total, decode_round-root front back c at direct, at)
decode_loop-encode (suc fuel) zero (x ∷ xs) front back c at direct l f ok = absurd (omega arith)
decode_loop-encode (suc fuel) (suc k) (x ∷ xs) front back c at direct l f ok =
    let e = encode_labels-ok k c.total x xs ok in
    let lab = label (x ∷ xs) in
    let n = length lab in
    let left = drop 1 (behind_label (x ∷ xs)) in
    let more = encode_labels k (c.total + 1 + n) left in
    let c' : Cursor = record c {
      name = dotted c.name ++ to_lower lab;
      cur = c.cur + 1 + n;
      total = c.total + 1 + n;
    } in
    let front' = front ++ (n ∷ lab) in
    let tail = more.0 ++ back in
    let bytes : front ++ ((encode_labels (suc k) c.total (x ∷ xs)).0 ++ back)
        ≡ front ++ ((n ∷ lab) ++ tail) =
      ap (λ (w : Bytes). front ++ (w ++ back)) e.4
      ∙ ap (λ (w : Bytes). front ++ w) (append_assoc (n ∷ lab) more.0 back) in
    let shorter : length left ≤ k =
      omega (arith, l, length-behind (x ∷ xs), length-drop 1 (behind_label (x ∷ xs))) in
    let size : length front' ≡ length front + (1 + n) =
      omega (arith, length-append front (n ∷ lab)) in
    let rest =
      decode_loop-encode fuel k left front' back c' (omega (arith, size, at)) direct shorter
        (omega (arith, f, e.2, e.0)) e.3 in
    let whole : length front + length (encode_labels (suc k) c.total (x ∷ xs)).0
        ≡ length front' + length more.0 =
      omega (arith, size, ap (λ (w : Bytes). length w) e.4, length-append (n ∷ lab) more.0) in
    let step : decode_loop (front ++ ((n ∷ lab) ++ tail)) (suc fuel) c
        ≡ decode_loop (front ++ ((n ∷ lab) ++ tail)) fuel c' =
      rw (decode_loop, decode_round-label front lab tail c at e.0 e.1 e.2) in
    rw whole (
      ap (λ (w : Bytes). decode_loop w (suc fuel) c) bytes
      ∙ step
      ∙ ap (λ (w : Bytes). decode_loop w fuel c') (sym (append_assoc front (n ∷ lab) tail))
      ∙ rest
      ∙ ap (λ (w : Bytes). value (some (w, length front' + length more.0)))
          (joined-label c.name x xs e.0))

-- Wherever in a packet an encoded name stands, the decoder returns it in lower case and without a dot at
-- its end, and the offset behind it. The encoder accepts the name: its labels are not empty and have at
-- most 63 bytes, and together at most 255.
pub decode-encode_name :
    (name front back : Bytes)
    → (encode_name name).1 ≡ true
    → decode_name (front ++ ((encode_name name).0 ++ back)) (length front)
      ≡ value (some (canonical_name name, length front + length (encode_name name).0))
unfolding decode_name encode_name canonical_name joined to_lower rootless
decode-encode_name [] front back ok =
    decode_loop-encode 272 0 [] front back (cursor_at (length front)) refl refl (omega arith)
      (omega arith) ok
decode-encode_name (x ∷ xs) front back ok =
    decode_loop-encode 272 (length (x ∷ xs)) (x ∷ xs) front back (cursor_at (length front)) refl
      refl (omega arith) (omega arith) ok
