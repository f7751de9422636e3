-- ===== src/Reorder/Overflow.antt =====
-- What a full window does to ordered delivery (deliver_in_order of session.cpp).
use link_ice.Prelude.{
  ℕ, ◌≤◌, ◌<◌, ◌≡◌, ◌≢◌, refl, sym, subst, ap, ◌∙◌, arith, true, false, ltb, ◌==◌, List, [], ◌∷◌,
  ◌++◌, length, Bytes, le→leb, le→ltb_false, Bool-cases, inl, inr,
}
use link_ice.Reorder.{Receiver, Entry, assign, deliver, first_key}

-- The frame that is expected next waits at the front of a full window.
pub record IsStalled (r : Receiver) : Type 0 where
  pub rest : List Entry
  pub payload : Bytes
  pub front : r.buffer ≡ (r.next, payload) ∷ rest
  pub full : 64 ≤ length r.buffer

-- Arrivals with their payloads, and what was handed on.
unfoldable pub deliver_all : List (ℕ × Bytes) → Receiver → Receiver × List Bytes
deliver_all [] r = (r, [])
deliver_all ((s, d) ∷ fs) r =
    let (r', out) = deliver s d r in let (r'', more) = deliver_all fs r' in (r'', out ++ more)

-- None of the arrivals has this number.
unfoldable pub Without : ℕ → List (ℕ × Bytes) → Type 0
Without k [] = Unit
Without k ((s, d) ∷ fs) = (s ≢ k) × Without k fs

assign-length : (k : ℕ) (d : Bytes) (m : List Entry) → length m ≤ length (assign k d m)
unfolding assign
assign-length k d [] = omega arith
assign-length k d ((n, e) ∷ m) = ground (arith, assign-length k d m)

assign_behind :
    (k n : ℕ) (d e : Bytes) (m : List Entry)
    → n < k
    → assign k d ((n, e) ∷ m) ≡ (n, e) ∷ assign k d m
unfolding assign
assign_behind k n d e m h = ground arith

-- A frame ahead of the next one fills the window: the receiver moves on to the first number that waits.
deliver_full :
    (s : ℕ) (d : Bytes) (r : Receiver)
    → r.next < s
    → 64 ≤ length r.buffer
    → deliver s d r
      ≡ (record { next = first_key r.buffer r.next; buffer = assign s d r.buffer }, [])
unfolding deliver
deliver_full s d r h l =
    let neq : (s == r.next) ≡ false = ground arith in
    rw (le→ltb_false s r.next (omega arith), neq, le→leb 64 (length r.buffer) l)

deliver_old : (s : ℕ) (d : Bytes) (r : Receiver) → ltb s r.next ≡ true → deliver s d r ≡ (r, [])
unfolding deliver
deliver_old s d r h = rw h

deliver-IsStalled :
    (s : ℕ) (d : Bytes) (r : Receiver)
    → IsStalled r
    → s ≢ r.next
    → IsStalled (deliver s d r).0 × ((deliver s d r).0.next ≡ r.next) × ((deliver s d r).1 ≡ [])
deliver-IsStalled s d r h ne = elim (Bool-cases (ltb s r.next)) [
  | inl before ↦ rw (deliver_old s d r before) (h, refl, refl)
  | inr after ↦
      let gt : r.next < s = ground arith in
      let buffer = assign s d r.buffer in
      let next : first_key r.buffer r.next ≡ r.next = ap (λ m. first_key m r.next) h.front in
      let front : buffer ≡ (r.next, h.payload) ∷ assign s d h.rest =
        ap (assign s d) h.front ∙ assign_behind s r.next d h.payload h.rest gt in
      rw (deliver_full s d r gt h.full, next)
        (
          record {
            rest = assign s d h.rest;
            payload = h.payload;
            front = front;
            full = omega (arith, h.full, assign-length s d r.buffer);
          },
          refl,
          refl,
        )
]

deliver_all-IsStalled :
    (fs : List (ℕ × Bytes)) (r : Receiver)
    → IsStalled r
    → Without r.next fs
    → (deliver_all fs r).1 ≡ []
unfolding deliver_all Without
deliver_all-IsStalled [] r h w = refl
deliver_all-IsStalled ((s, d) ∷ fs) r h (ne, w) =
    let r' = (deliver s d r).0 in
    let one = deliver-IsStalled s d r h ne in
    rw (one.2, deliver_all-IsStalled fs r' one.0 (subst (λ k. Without k fs) (sym one.1) w))

-- The window is full and its first number `k` is ahead of the next one. A frame behind `k` arrives, which moves
-- the receiver to `k`. Whatever arrives then without the number `k`, nothing is handed on, though the frame with
-- the number `k` is in the buffer.
pub overflow-stalls :
    (k s : ℕ) (d e : Bytes) (rest : List Entry) (r : Receiver) (fs : List (ℕ × Bytes))
    → r.buffer ≡ (k, e) ∷ rest
    → 64 ≤ length r.buffer
    → r.next < k
    → k < s
    → Without k fs
    → ((deliver s d r).0.next ≡ k) × ((deliver_all ((s, d) ∷ fs) r).1 ≡ [])
unfolding deliver_all
overflow-stalls k s d e rest r fs front full lt behind w =
    let next : first_key r.buffer r.next ≡ k = ap (λ m. first_key m r.next) front in
    let buffer = assign s d r.buffer in
    let r' : Receiver = record { next = k; buffer = buffer } in
    let step : deliver s d r ≡ (r', []) = rw (deliver_full s d r (omega arith) full, next) in
    let stalled : IsStalled r' = record {
      rest = assign s d rest;
      payload = e;
      front = ap (assign s d) front ∙ assign_behind s k d e rest behind;
      full = omega (arith, full, assign-length s d r.buffer);
    } in
    rw step (refl, deliver_all-IsStalled fs r' stalled w)
