-- ===== src/Mdns/Names.antt =====
-- `encode_name` and `decode_name` of mdns.cpp, and what it uses of the C library's `tolower`.
use link_ice.Prelude.{
  ℕ, zero, suc, ◌+◌, ◌*◌, ◌/◌, ◌%◌, ◌^◌, [], ◌∷◌, ◌++◌, map, Bytes, Bool, true, false, ◌&&◌, not,
  Option, none, some, if◌then◌else◌, ltb, leb, ◌==◌, length, drop, Outcome, value, spent, ◌>>=◌,
  read8, read_bytes,
}

-- `tolower` in the C locale.
unfoldable pub tolower : ℕ → ℕ
tolower c = if leb 65 c && leb c 90 then c + 32 else c

unfoldable pub to_lower : Bytes → Bytes
to_lower s = map tolower s

abbrev pub dot : ℕ
dot = 46

-- The bytes up to the next dot, and what is left from the dot on.
unfoldable pub label : Bytes → Bytes
label [] = []
label (c ∷ cs) = let rest = label cs in if c == dot then [] else c ∷ rest

unfoldable pub behind_label : Bytes → Bytes
behind_label [] = []
behind_label (c ∷ cs) = let rest = behind_label cs in if c == dot then c ∷ cs else rest

abbrev pub put_front : Bytes → Bytes × Bool → Bytes × Bool
put_front w (out, ok) = (w ++ out, ok)

-- The loop of `encode_name`: what it appends to `out`, also where it fails, and whether it succeeds. Each
-- iteration takes a byte or more off the name, so its length is enough fuel.
unfoldable pub encode_labels : ℕ → ℕ → Bytes → Bytes × Bool
encode_labels zero size name = (0 ∷ [], true)
encode_labels (suc fuel) size [] = (0 ∷ [], true)
encode_labels (suc fuel) size (c ∷ cs) =
    let l = label (c ∷ cs) in
    let rest = encode_labels fuel (size + 1 + length l) (drop 1 (behind_label (c ∷ cs))) in
    if length l == 0
    then ([], false)
    else if ltb 63 (length l)
    then ([], false)
    else if ltb 255 (size + 1 + length l)
    then (length l ∷ l, false)
    else put_front (length l ∷ l) rest

unfoldable pub encode_name : Bytes → Bytes × Bool
encode_name name = encode_labels (length name) 0 name

-- The local variables of `decode_name`.
pub record Cursor : Type 0 where
  pub name : Bytes
  pub next : ℕ
  pub jumped : Bool
  pub cur : ℕ
  pub jumps : ℕ
  pub total : ℕ

pub data Round : Type 0 where
  return : Option (Bytes × ℕ) → Round
  continue : Cursor → Round

abbrev pub is_empty : Bytes → Bool
is_empty [] = true
is_empty (c ∷ cs) = false

-- The labels so far, with a dot where another one follows.
abbrev pub dotted : Bytes → Bytes
dotted name = if is_empty name then [] else name ++ (dot ∷ [])

-- One iteration of the loop of `decode_name`: the two top bits of the length say what stands here.
unfoldable pub decode_round : Bytes → Cursor → Outcome Round
decode_round bytes c = if leb (length bytes) c.cur then value (return none) else (do
  len ← read8 (drop c.cur bytes)
  if len == 0
      then value (return (some (c.name, if c.jumped then c.next else c.cur + 1)))
      else if len / 2 ^ 6 % 4 == 3
      then (if leb (length bytes) (c.cur + 1) then value (return none) else (do
        low ← read8 (drop (c.cur + 1) bytes)
        let target = len % 2 ^ 6 * 2 ^ 8 + low
        if leb (length bytes) target
            then value (return none)
            else if ltb 16 (c.jumps + 1)
            then value (return none)
            else value (
                continue (record c {
                  next = if c.jumped then c.next else c.cur + 2;
                  cur = target;
                  jumped = true;
                  jumps = c.jumps + 1;
                }))))
      else if not (len / 2 ^ 6 % 4 == 0)
      then value (return none)
      else if ltb (length bytes) (c.cur + 1 + len)
      then value (return none)
      else if ltb 255 (c.total + 1 + len)
      then value (return none)
      else (do
        l ← read_bytes len (drop (c.cur + 1) bytes)
        value (
            continue (record c {
              name = dotted c.name ++ to_lower l;
              cur = c.cur + 1 + len;
              total = c.total + 1 + len;
            }))))

unfoldable pub decode_loop : Bytes → ℕ → Cursor → Outcome (Option (Bytes × ℕ))
decode_loop bytes zero c = spent
decode_loop bytes (suc fuel) c = do
  round ← decode_round bytes c
  elim round [ return r ↦ value r | continue c' ↦ decode_loop bytes fuel c' ]

abbrev pub cursor_at : ℕ → Cursor
cursor_at off = record { name = []; next = 0; jumped = false; cur = off; jumps = 0; total = 0 }

-- At most sixteen jumps and 255 bytes of labels: 272 iterations are enough. The name and the offset
-- behind it.
unfoldable pub decode_name : Bytes → ℕ → Outcome (Option (Bytes × ℕ))
decode_name bytes off = decode_loop bytes 272 (cursor_at off)
