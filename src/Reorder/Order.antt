-- ===== src/Reorder/Order.antt =====
-- Ordered delivery while the window has room (deliver_in_order of session.cpp).
use link_ice.Prelude.{
  ℕ, zero, suc, ◌+◌, ◌-◌, ◌^◌, ◌≤◌, ◌<◌, ◌≡◌, refl, sym, ap, ◌∙◌, arith, Bool, true, false, ◌&&◌,
  ◌||◌, ltb, leb, ◌==◌, none, some, Option-cases, List, [], ◌∷◌, ◌++◌, map, length, drop-append,
  length-append, Bytes, value, lt→ltb, le→ltb_false, lt→leb_false, ◌⊎◌, inl, inr,
}
use link_ice.Stun.Endian.{write32, length-write32, read32-write32}
use link_ice.Reorder.{
  Receiver, Entry, find, erase, assign, next_seq, put_first, drain, deliver, deliver_in_order,
  send_framed, receive, reorder_window,
}

-- The payloads with the numbers from `from` on.
unfoldable pub stream : (ℕ → Bytes) → ℕ → ℕ → List Bytes
stream payload from zero = []
stream payload from (suc n) = payload from ∷ stream payload (suc from) n

pub trichotomy : (a b : ℕ) → (a < b) ⊎ ((a ≡ b) ⊎ (b < a))
trichotomy a b = ground arith

zero_add : (n : ℕ) → 0 + n ≡ n
zero_add n = omega arith

stream-append :
    (payload : ℕ → Bytes) (from m n to : ℕ)
    → to ≡ from + m
    → stream payload from m ++ stream payload to n ≡ stream payload from (m + n)
unfolding stream
stream-append payload from zero n to e = let here : to ≡ from = omega arith in rw (here, zero_add n)
stream-append payload from (suc m) n to e =
    let more : suc m + n ≡ suc (m + n) = omega arith in
    rw (more, stream-append payload (suc from) m n to (omega arith))

-- No number is the last one of 32 bits.
unfoldable pub InRange : List ℕ → Type 0
InRange [] = Unit
InRange (s ∷ ss) = (s < 2 ^ 32 - 1) × InRange ss

module _ (payload : ℕ → Bytes) where
  -- The buffer holds payloads under their own numbers, from `low` on.
  unfoldable pub Ahead : ℕ → List Entry → Type 0
  Ahead low [] = Unit
  Ahead low ((n, d) ∷ m) = (d ≡ payload n) × (low ≤ n) × (n < 2 ^ 32 - 1) × Ahead low m

  pub find-Ahead :
      (k low : ℕ) (m : List Entry) (d : Bytes)
      → Ahead low m
      → find k m ≡ some d
      → (d ≡ payload k) × (k < 2 ^ 32 - 1)
  unfolding find Ahead
  find-Ahead k low [] d h e = ground arith
  find-Ahead k low ((n, d') ∷ m) d (p, q, b, h) e = ground (arith, find-Ahead k low m d h)

  pub erase-Ahead : (low : ℕ) (m : List Entry) → Ahead low m → Ahead (suc low) (erase low m)
  unfolding erase Ahead
  erase-Ahead low [] h = h
  erase-Ahead low ((n, d) ∷ m) (p, q, b, h) = ground (arith, erase-Ahead low m h)

  missing-Ahead : (low : ℕ) (m : List Entry) → Ahead low m → find low m ≡ none → Ahead (suc low) m
  unfolding find Ahead
  missing-Ahead low [] h e = h
  missing-Ahead low ((n, d) ∷ m) (p, q, b, h) e = ground (arith, missing-Ahead low m h)

  assign-Ahead :
      (k low : ℕ) (m : List Entry)
      → Ahead low m
      → low ≤ k
      → k < 2 ^ 32 - 1
      → Ahead low (assign k (payload k) m)
  unfolding assign Ahead
  assign-Ahead k low [] h l u = ground arith
  assign-Ahead k low ((n, d) ∷ m) (p, q, b, h) l u = ground (arith, assign-Ahead k low m h l u)

  erase-le : (k : ℕ) (m : List Entry) → length (erase k m) ≤ length m
  unfolding erase
  erase-le k [] = omega arith
  erase-le k ((n, d) ∷ m) = ground (arith, erase-le k m)

  erase-length :
      (k : ℕ) (m : List Entry) (d : Bytes) → find k m ≡ some d → length (erase k m) < length m
  unfolding find erase
  erase-length k [] d e = ground arith
  erase-length k ((n, d') ∷ m) d e = ground (arith, erase-le k m, erase-length k m d)

  -- The receiver went on from `r` by the payloads that it delivered, in the order of their numbers.
  unfoldable pub InOrder : Receiver → Receiver × List Bytes → Type 0
  InOrder r (r', out) =
      (r'.next ≡ r.next + length out)
      × (out ≡ stream payload r.next (length out))
      × Ahead (suc r'.next) r'.buffer
      × (r'.next < 2 ^ 32)

  put_first-InOrder :
      (n : ℕ) (m m' : List Entry) (x : Receiver × List Bytes)
      → InOrder (record { next = suc n; buffer = m }) x
      → InOrder (record { next = n; buffer = m' }) (put_first (payload n) x)
  unfolding InOrder stream
  put_first-InOrder n m m' (r', out) (e, s, a, b) = (omega arith, ap (◌∷◌ (payload n)) s, a, b)

  rest-InOrder : (r : Receiver) → Ahead (suc r.next) r.buffer → r.next < 2 ^ 32 → InOrder r (r, [])
  unfolding InOrder stream
  rest-InOrder r h b = (omega arith, refl, h, b)

  empty-Ahead : (low : ℕ) (m : List Entry) → length m ≤ 0 → Ahead low m
  unfolding Ahead
  empty-Ahead low [] h = tt
  empty-Ahead low (e ∷ m) h = absurd (omega arith)

  pub drain_stops :
      (fuel : ℕ) (r : Receiver) → find r.next r.buffer ≡ none → drain (suc fuel) r ≡ (r, [])
  unfolding drain
  drain_stops fuel r e = rw (drain, e)

  pub drain_goes :
      (fuel : ℕ) (r : Receiver) (d : Bytes)
      → find r.next r.buffer ≡ some d
      → drain (suc fuel) r
        ≡ put_first d
            (drain fuel (record { next = next_seq r.next; buffer = erase r.next r.buffer }))
  unfolding drain
  drain_goes fuel r d e = rw (drain, e)

  drain-InOrder :
      (fuel : ℕ) (r : Receiver)
      → Ahead r.next r.buffer
      → r.next < 2 ^ 32
      → length r.buffer ≤ fuel
      → InOrder r (drain fuel r)
  unfolding drain
  drain-InOrder zero r h b l = rest-InOrder r (empty-Ahead (suc r.next) r.buffer l) b
  drain-InOrder (suc fuel) r h b l = elim (Option-cases (find r.next r.buffer)) [
    | inl e ↦ rw (drain_stops fuel r e) (rest-InOrder r (missing-Ahead r.next r.buffer h e) b)
    | inr (d, e) ↦
        let found = find-Ahead r.next r.next r.buffer d h e in
        let wrap : next_seq r.next ≡ suc r.next = omega (arith, found.1) in
        let left = erase r.next r.buffer in
        let shorter = erase-length r.next r.buffer d e in
        rw (drain_goes fuel r d e, wrap, found.0)
          (put_first-InOrder r.next left r.buffer
            (drain fuel (record { next = suc r.next; buffer = left }))
            (drain-InOrder fuel (record { next = suc r.next; buffer = left })
              (erase-Ahead r.next r.buffer h) (omega (arith, found.1)) (omega (arith, shorter, l))))
  ]

  weaken-Ahead : (low high : ℕ) (m : List Entry) → low ≤ high → Ahead high m → Ahead low m
  unfolding Ahead
  weaken-Ahead low high [] l h = h
  weaken-Ahead low high ((n, d) ∷ m) l (p, q, b, h) =
      (p, omega arith, b, weaken-Ahead low high m l h)

  -- A frame before the next number, the next one, and one behind it.
  pub deliver_duplicate :
      (seq : ℕ) (d : Bytes) (r : Receiver) → seq < r.next → deliver seq d r ≡ (r, [])
  unfolding deliver
  deliver_duplicate seq d r h = rw (lt→ltb seq r.next h)

  pub deliver_expected :
      (seq : ℕ) (d : Bytes) (r : Receiver)
      → seq ≡ r.next
      → deliver seq d r
        ≡ put_first d (drain (length r.buffer) (record r { next = next_seq r.next }))
  unfolding deliver
  deliver_expected seq d r e =
      let eq : (seq == r.next) ≡ true = ground arith in
      rw (le→ltb_false seq r.next (omega arith), eq)

  pub deliver_ahead :
      (seq : ℕ) (d : Bytes) (r : Receiver)
      → r.next < seq
      → length r.buffer < 64
      → deliver seq d r ≡ (record { next = r.next; buffer = assign seq d r.buffer }, [])
  unfolding deliver
  deliver_ahead seq d r h l =
      let neq : (seq == r.next) ≡ false = ground arith in
      rw (le→ltb_false seq r.next (omega arith), neq, lt→leb_false 64 (length r.buffer) l)

  pub deliver-InOrder :
      (seq : ℕ) (r : Receiver)
      → Ahead (suc r.next) r.buffer
      → r.next < 2 ^ 32
      → seq < 2 ^ 32 - 1
      → ((seq ≤ r.next) ⊎ (length r.buffer < 64))
      → InOrder r (deliver seq (payload seq) r)
  unfolding InOrder
  deliver-InOrder seq r h b s room = elim (trichotomy seq r.next) [
    | inl lt ↦ rw (deliver_duplicate seq (payload seq) r lt) (rest-InOrder r h b)
    | inr (inl e) ↦
        let wrap : next_seq r.next ≡ suc r.next = omega arith in
        rw (deliver_expected seq (payload seq) r e, e, wrap)
          (put_first-InOrder r.next r.buffer r.buffer
            (drain (length r.buffer) (record { next = suc r.next; buffer = r.buffer }))
            (drain-InOrder (length r.buffer) (record { next = suc r.next; buffer = r.buffer }) h
              (omega arith) (omega arith)))
    | inr (inr gt) ↦
        rw
          (deliver_ahead seq (payload seq) r gt
            (elim room [ inl l ↦ absurd (omega arith) | inr l ↦ l ]))
          (rest-InOrder (record { next = r.next; buffer = assign seq (payload seq) r.buffer })
            (assign-Ahead seq (suc r.next) r.buffer h gt s) b)
  ]

  join-InOrder :
      (r r1 r2 : Receiver) (out more : List Bytes)
      → InOrder r (r1, out)
      → InOrder r1 (r2, more)
      → InOrder r (r2, out ++ more)
  unfolding InOrder
  join-InOrder r r1 r2 out more (e, s, a, b) (e', s', a', b') =
      let both : length (out ++ more) ≡ length out + length more = length-append out more in
      (
        omega (arith, both, e, e'),
        (ap (λ (t : List Bytes). t ++ more) s
            ∙ ap (λ (t : List Bytes). stream payload r.next (length out) ++ t) s'
            ∙ stream-append payload r.next (length out) (length more) r1.next e
            ∙ ap (stream payload r.next) (sym both)),
        a',
        b',
      )

  -- The frame with this number, as the peer sends it.
  abbrev pub frame : ℕ → Bytes
  frame seq = (send_framed seq (payload seq)).0

  -- An arrival finds the window full.
  unfoldable pub overflows : List ℕ → Receiver → Bool
  overflows [] r = false
  overflows (s ∷ ss) r =
      (ltb r.next s && leb reorder_window (length r.buffer))
      || overflows ss (deliver s (payload s) r).0

  deliver_in_order-frame :
      (seq : ℕ) (r : Receiver)
      → seq < 2 ^ 32
      → deliver_in_order (frame seq) r ≡ value (deliver seq (payload seq) r)
  unfolding deliver_in_order send_framed
  deliver_in_order-frame seq r h =
      let w = write32 seq in
      rw (
        le→ltb_false (length (w ++ payload seq)) 4
            (omega (arith, length-append w (payload seq), length-write32 seq)),
        read32-write32 seq (payload seq) h,
        drop-append 4 w (payload seq) (length-write32 seq),
      )

  -- The result of a whole list of arrivals.
  unfoldable pub arrive : List ℕ → Receiver → Receiver × List Bytes
  arrive [] r = (r, [])
  arrive (s ∷ ss) r =
      let (r', out) = deliver s (payload s) r in
      let (r'', more) = arrive ss r' in (r'', out ++ more)

  pub receive-arrive :
      (ss : List ℕ) (r : Receiver) → InRange ss → receive (map frame ss) r ≡ value (arrive ss r)
  unfolding receive arrive InRange
  receive-arrive [] r h = refl
  receive-arrive (s ∷ ss) r (b, h) =
      rw (deliver_in_order-frame s r (omega arith), receive-arrive ss (deliver s (payload s) r).0 h)

  pub arrive-InOrder :
      (ss : List ℕ) (r : Receiver)
      → InRange ss
      → Ahead (suc r.next) r.buffer
      → r.next < 2 ^ 32
      → overflows ss r ≡ false
      → InOrder r (arrive ss r)
  unfolding arrive InRange overflows InOrder
  arrive-InOrder [] r h a b o = rest-InOrder r a b
  arrive-InOrder (s ∷ ss) r (l, h) a b o =
      let (r', out) = deliver s (payload s) r in
      let room : (s ≤ r.next) ⊎ (length r.buffer < 64) = ground arith in
      let now = deliver-InOrder s r a b l room in
      let later = arrive-InOrder ss r' h now.2 now.3 (ground arith) in
      join-InOrder r r' (arrive ss r').0 out (arrive ss r').1 now later
