-- ===== src/Turn/Framing.antt =====
-- The stream framing of turn.cpp, whatever the chunks in which the bytes arrive.
use link_ice.Prelude.{
  ℕ, zero, suc, ◌+◌, ◌*◌, ◌/◌, ◌%◌, ◌^◌, ◌≤◌, ◌<◌, ◌≡◌, refl, sym, ap, ◌∙◌, arith, false, ltb,
  Option, none, some, Option-cases, List, [], ◌∷◌, ◌++◌, append_assoc, append-nil, length, take,
  drop, length-append, length-drop, take_front, take-append, drop-append, All, Bytes, Bool-cases,
  le→ltb_false, inl, inr,
}
use link_ice.Turn.{
  encode_stream_frame, try_take_stream_frame, put_message, take_frames, on_inbound, inbound_all,
  send_to_server, send_all,
}

drop_front : (n : ℕ) (xs ys : Bytes) → n ≤ length xs → drop n (xs ++ ys) ≡ drop n xs ++ ys
drop_front zero xs ys h = refl
drop_front (suc n) [] ys h = absurd (omega arith)
drop_front (suc n) (x ∷ xs) ys h = drop_front n xs ys (omega arith)

with_more : Bytes → Option (Bytes × Bytes) → Option (Bytes × Bytes)
with_more more none = none
with_more more (some (f, r)) = some (f, r ++ more)

-- More bytes do not change a message that is complete.
try_take-append :
    (b more f r : Bytes)
    → try_take_stream_frame b ≡ some (f, r)
    → try_take_stream_frame (b ++ more) ≡ some (f, r ++ more)
unfolding try_take_stream_frame with_more
try_take-append [] more f r e = cc
try_take-append (a ∷ []) more f r e = cc
try_take-append (a ∷ c ∷ p) more f r e =
    let n = a * 2 ^ 8 + c in
    let full : ltb (length p) n ≡ false
        → try_take_stream_frame (a ∷ c ∷ p) ≡ some (take n p, drop n p) =
      λ h. rw (try_take_stream_frame, h) in
    elim (Bool-cases (ltb (length p) n)) [
      | inl short ↦ absurd (ground arith)
      | inr enough ↦
          let fits : n ≤ length p = ground arith in
          rw
            (
              le→ltb_false (length (p ++ more)) n (omega (arith, length-append p more)),
              take_front n p more fits,
              drop_front n p more fits,
            )
            (ap (with_more more) (sym (full enough) ∙ e))
    ]

try_take-length : (b f r : Bytes) → try_take_stream_frame b ≡ some (f, r) → length r < length b
unfolding try_take_stream_frame
try_take-length [] f r e = cc
try_take-length (a ∷ []) f r e = cc
try_take-length (a ∷ c ∷ p) f r e = ground (arith, length-drop (a * 2 ^ 8 + c) p)

take_frames_stops :
    (fuel : ℕ) (b : Bytes) → try_take_stream_frame b ≡ none → take_frames fuel b ≡ ([], b)
unfolding take_frames
take_frames_stops zero b e = refl
take_frames_stops (suc fuel) b e = rw (take_frames, e)

take_frames_goes :
    (fuel : ℕ) (b f r : Bytes)
    → try_take_stream_frame b ≡ some (f, r)
    → take_frames (suc fuel) b ≡ put_message f (take_frames fuel r)
unfolding take_frames
take_frames_goes fuel b f r e = rw (take_frames, e)

-- Fuel for every byte is enough, and more makes no difference.
take_frames-fuel :
    (n m : ℕ) (b : Bytes) → length b ≤ n → length b ≤ m → take_frames n b ≡ take_frames m b
take_frames-fuel zero m b h k = elim (Option-cases (try_take_stream_frame b)) [
  | inl e ↦ take_frames_stops zero b e ∙ sym (take_frames_stops m b e)
  | inr ((f, r), e) ↦ absurd (omega (arith, try_take-length b f r e))
]
take_frames-fuel (suc n) zero b h k = elim (Option-cases (try_take_stream_frame b)) [
  | inl e ↦ take_frames_stops (suc n) b e ∙ sym (take_frames_stops zero b e)
  | inr ((f, r), e) ↦ absurd (omega (arith, try_take-length b f r e))
]
take_frames-fuel (suc n) (suc m) b h k = elim (Option-cases (try_take_stream_frame b)) [
  | inl e ↦ take_frames_stops (suc n) b e ∙ sym (take_frames_stops (suc m) b e)
  | inr ((f, r), e) ↦
      let less = try_take-length b f r e in
      take_frames_goes n b f r e
      ∙ ap (put_message f) (take_frames-fuel n m r (omega arith) (omega arith))
      ∙ sym (take_frames_goes m b f r e)
]

-- The messages of a buffer and what is left.
abbrev frames : Bytes → List Bytes × Bytes
frames b = take_frames (length b) b

frames_stop : (b : Bytes) → try_take_stream_frame b ≡ none → frames b ≡ ([], b)
frames_stop b e = take_frames_stops (length b) b e

frames_go :
    (b f r : Bytes) → try_take_stream_frame b ≡ some (f, r) → frames b ≡ put_message f (frames r)
frames_go b f r e =
    let less = try_take-length b f r e in
    take_frames-fuel (length b) (suc (length b)) b (omega arith) (omega arith)
    ∙ take_frames_goes (length b) b f r e
    ∙ ap (put_message f) (take_frames-fuel (length b) (length r) r (omega arith) (omega arith))

-- Messages found one after the other.
then_frames : Bytes → List Bytes × Bytes → List Bytes × Bytes
then_frames more (ms, r) = (ms ++ (frames (r ++ more)).0, (frames (r ++ more)).1)

frames-append_fuel :
    (k : ℕ) (b more : Bytes) → length b ≤ k → frames (b ++ more) ≡ then_frames more (frames b)
unfolding take_frames then_frames
frames-append_fuel zero b more h = elim (Option-cases (try_take_stream_frame b)) [
  | inl e ↦ sym (ap (then_frames more) (frames_stop b e))
  | inr ((f, r), e) ↦ absurd (omega (arith, try_take-length b f r e))
]
frames-append_fuel (suc k) b more h = elim (Option-cases (try_take_stream_frame b)) [
  | inl e ↦ sym (ap (then_frames more) (frames_stop b e))
  | inr ((f, r), e) ↦
      let less = try_take-length b f r e in
      frames_go (b ++ more) f (r ++ more) (try_take-append b more f r e)
      ∙ ap (put_message f) (frames-append_fuel k r more (omega arith))
      ∙ sym (ap (then_frames more) (frames_go b f r e))
]

frames-drained_fuel : (k : ℕ) (b : Bytes) → length b ≤ k → try_take_stream_frame (frames b).1 ≡ none
frames-drained_fuel zero b h = elim (Option-cases (try_take_stream_frame b)) [
  | inl e ↦ ap (λ (x : List Bytes × Bytes). try_take_stream_frame x.1) (frames_stop b e) ∙ e
  | inr ((f, r), e) ↦ absurd (omega (arith, try_take-length b f r e))
]
frames-drained_fuel (suc k) b h = elim (Option-cases (try_take_stream_frame b)) [
  | inl e ↦ ap (λ (x : List Bytes × Bytes). try_take_stream_frame x.1) (frames_stop b e) ∙ e
  | inr ((f, r), e) ↦
      let less = try_take-length b f r e in
      ap (λ (x : List Bytes × Bytes). try_take_stream_frame x.1) (frames_go b f r e)
      ∙ frames-drained_fuel k r (omega arith)
]

abbrev pub concat : List Bytes → Bytes
concat [] = []
concat (c ∷ cs) = c ++ concat cs

inbound_all-frames :
    (rx : Bytes) (cs : List Bytes)
    → try_take_stream_frame rx ≡ none
    → inbound_all rx cs ≡ frames (rx ++ concat cs)
unfolding inbound_all on_inbound then_frames
inbound_all-frames rx [] e = sym (ap frames (append-nil rx) ∙ frames_stop rx e)
inbound_all-frames rx (c ∷ cs) e =
    let next = frames (rx ++ c) in
    let rest =
      inbound_all-frames next.1 cs
        (frames-drained_fuel (length (rx ++ c)) (rx ++ c) (omega arith)) in
    sym (
      ap frames (sym (append_assoc rx c (concat cs)))
      ∙ frames-append_fuel (length (rx ++ c)) (rx ++ c) (concat cs) (omega arith)
      ∙ ap (λ (x : List Bytes × Bytes). (next.0 ++ x.0, x.1)) (sym rest))

try_take-sent :
    (m more : Bytes)
    → length m ≤ 0xFFFF
    → try_take_stream_frame (send_to_server m ++ more) ≡ some (m, more)
unfolding send_to_server encode_stream_frame try_take_stream_frame
try_take-sent m more h =
    let n = length m in
    let read : n / 2 ^ 8 * 2 ^ 8 + n % 2 ^ 8 ≡ n = omega arith in
    rw (
      le→ltb_false 0xFFFF n h,
      try_take_stream_frame,
      read,
      le→ltb_false (length (m ++ more)) n (omega (arith, length-append m more)),
      take-append n m more refl,
      drop-append n m more refl,
    )

empty_incomplete : try_take_stream_frame [] ≡ none
unfolding try_take_stream_frame
empty_incomplete = refl

frames-send_all :
    (ms : List Bytes) → All (λ (m : Bytes). length m ≤ 0xFFFF) ms → frames (send_all ms) ≡ (ms, [])
unfolding send_all
frames-send_all [] h = frames_stop [] empty_incomplete
frames-send_all (m ∷ ms) h =
    frames_go (send_to_server m ++ send_all ms) m (send_all ms) (try_take-sent m (send_all ms) h.0)
    ∙ ap (put_message m) (frames-send_all ms h.1)

-- Messages of at most 65535 bytes that are sent over a stream arrive complete, in order and with nothing
-- left over, into whatever chunks the stream cuts their bytes.
pub inbound-send_all :
    (ms cs : List Bytes)
    → All (λ (m : Bytes). length m ≤ 0xFFFF) ms
    → concat cs ≡ send_all ms
    → inbound_all [] cs ≡ (ms, [])
inbound-send_all ms cs h e =
    inbound_all-frames [] cs empty_incomplete ∙ ap frames e ∙ frames-send_all ms h
