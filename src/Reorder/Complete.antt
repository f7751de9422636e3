-- ===== src/Reorder/Complete.antt =====
-- No frame that arrives is lost while the window has room (deliver_in_order of session.cpp).
use link_ice.Prelude.{
  ℕ, zero, suc, ◌-◌, ◌^◌, ◌≤◌, ◌<◌, ◌≡◌, ◌≢◌, refl, arith, Bool, true, false, ◌||◌, ltb, Option,
  none, some, Option-cases, List, [], ◌∷◌, map, length, Bytes, Returns, ◌⊎◌, inl, inr,
}
use link_ice.Reorder.{
  Receiver, Entry, start, find, erase, assign, next_seq, drain, deliver, receive,
}
use link_ice.Reorder.Order.{
  stream, find-Ahead, erase-Ahead, Ahead, InOrder, frame, overflows, InRange, arrive,
  receive-arrive, arrive-InOrder, deliver-InOrder, drain_stops, drain_goes, trichotomy,
  deliver_duplicate, deliver_expected, deliver_ahead,
}

abbrev is_some : Option Bytes → Bool
is_some none = false
is_some (some d) = true

-- The frame was delivered or waits in the buffer.
unfoldable pub has : ℕ → Receiver → Bool
has k r = ltb k r.next || is_some (find k r.buffer)

find-erase : (k j : ℕ) (m : List Entry) → k ≢ j → find k (erase j m) ≡ find k m
unfolding find erase
find-erase k j [] h = refl
find-erase k j ((n, d) ∷ m) h = ground (arith, find-erase k j m h)

find-assign : (k j : ℕ) (d : Bytes) (m : List Entry) → k ≢ j → find k (assign j d m) ≡ find k m
unfolding find assign
find-assign k j d [] h = ground arith
find-assign k j d ((n, e) ∷ m) h = ground (arith, find-assign k j d m h)

find-assign_same : (j : ℕ) (d : Bytes) (m : List Entry) → find j (assign j d m) ≡ some d
unfolding find assign
find-assign_same j d [] = ground arith
find-assign_same j d ((n, e) ∷ m) = ground (arith, find-assign_same j d m)

has-step :
    (k n : ℕ) (r : Receiver)
    → n ≡ suc r.next
    → has k r ≡ true
    → has k (record { next = n; buffer = erase r.next r.buffer }) ≡ true
unfolding has
has-step k n r e h = elim (trichotomy k r.next) [
  | inl lt ↦ ground arith
  | inr (inl eq) ↦ ground arith
  | inr (inr gt) ↦
      rw (find-erase k r.next r.buffer (λ z. absurd (omega (arith, z, gt)))) (ground arith)
]

has-next :
    (k n : ℕ) (r : Receiver) → r.next ≤ n → has k r ≡ true → has k (record r { next = n }) ≡ true
unfolding has
has-next k n r l h = ground arith

has-assign :
    (k seq : ℕ) (d : Bytes) (r : Receiver)
    → has k r ≡ true
    → has k (record { next = r.next; buffer = assign seq d r.buffer }) ≡ true
unfolding has
has-assign k seq d r h = elim (trichotomy k seq) [
  | inl lt ↦ rw (find-assign k seq d r.buffer (λ z. absurd (omega (arith, z, lt)))) h
  | inr (inl eq) ↦ rw (eq, find-assign_same seq d r.buffer) (ground arith)
  | inr (inr gt) ↦ rw (find-assign k seq d r.buffer (λ z. absurd (omega (arith, z, gt)))) h
]

-- The number is in the list.
unfoldable pub Among : ℕ → List ℕ → Type 0
Among k [] = ⊥
Among k (s ∷ ss) = (k ≡ s) ⊎ Among k ss

module _ (payload : ℕ → Bytes) where
  has-drain :
      (fuel k : ℕ) (r : Receiver)
      → Ahead payload r.next r.buffer
      → has k r ≡ true
      → has k (drain fuel r).0 ≡ true
  unfolding drain
  has-drain zero k r a h = h
  has-drain (suc fuel) k r a h = elim (Option-cases (find r.next r.buffer)) [
    | inl e ↦ rw (drain_stops payload fuel r e) h
    | inr (d, e) ↦
        let found = find-Ahead payload r.next r.next r.buffer d a e in
        let wrap : next_seq r.next ≡ suc r.next = omega (arith, found.1) in
        rw (drain_goes payload fuel r d e, wrap)
          (has-drain fuel k (record { next = suc r.next; buffer = erase r.next r.buffer })
            (erase-Ahead payload r.next r.buffer a) (has-step k (suc r.next) r refl h))
  ]

  -- A frame that was there stays, and the one that arrives is there.
  has-deliver :
      (k seq : ℕ) (r : Receiver)
      → Ahead payload (suc r.next) r.buffer
      → seq < 2 ^ 32 - 1
      → ((seq ≤ r.next) ⊎ (length r.buffer < 64))
      → ((k ≡ seq) ⊎ (has k r ≡ true))
      → has k (deliver seq (payload seq) r).0 ≡ true
  unfolding has
  has-deliver k seq r a b room h = elim (trichotomy seq r.next) [
    | inl lt ↦
        rw (deliver_duplicate payload seq (payload seq) r lt)
          (elim h [ inl e ↦ ground arith | inr t ↦ t ])
    | inr (inl e) ↦
        let wrap : next_seq r.next ≡ suc r.next = omega arith in
        rw (deliver_expected payload seq (payload seq) r e, wrap)
          (has-drain (length r.buffer) k (record { next = suc r.next; buffer = r.buffer }) a
            (elim h [ inl s ↦ ground arith | inr t ↦ has-next k (suc r.next) r (omega arith) t ]))
    | inr (inr gt) ↦
        rw
          (deliver_ahead payload seq (payload seq) r gt
            (elim room [ inl l ↦ absurd (omega arith) | inr l ↦ l ]))
          (elim h [
            | inl s ↦ rw (s, find-assign_same seq (payload seq) r.buffer) (ground arith)
            | inr t ↦ has-assign k seq (payload seq) r t
          ])
  ]

  has-arrive :
      (k : ℕ) (ss : List ℕ) (r : Receiver)
      → InRange ss
      → Ahead payload (suc r.next) r.buffer
      → r.next < 2 ^ 32
      → overflows payload ss r ≡ false
      → (Among k ss ⊎ (has k r ≡ true))
      → has k (arrive payload ss r).0 ≡ true
  unfolding arrive InRange overflows InOrder Among
  has-arrive k [] r h a b o m = elim m [ inl e ↦ absurd e | inr t ↦ t ]
  has-arrive k (s ∷ ss) r (l, h) a b o m =
      let r' = (deliver s (payload s) r).0 in
      let room : (s ≤ r.next) ⊎ (length r.buffer < 64) = ground arith in
      let now = deliver-InOrder payload s r a b l room in
      has-arrive k ss r' h now.2 now.3 (ground arith) (elim m [
        | inl (inl e) ↦ inr (has-deliver k s r a l room (inl e))
        | inl (inr n) ↦ inl n
        | inr t ↦ inr (has-deliver k s r a l room (inr t))
      ])

  next_missing : (low : ℕ) (m : List Entry) → Ahead payload (suc low) m → find low m ≡ none
  unfolding find Ahead
  next_missing low [] h = refl
  next_missing low ((n, d) ∷ m) (p, q, b, h) = ground (arith, next_missing low m h)

  reached :
      (n : ℕ) (ss : List ℕ) (r : Receiver)
      → Ahead payload (suc r.next) r.buffer
      → ((k : ℕ) → k < n → Among k ss)
      → ((k : ℕ) → Among k ss → has k r ≡ true)
      → n ≤ r.next
  unfolding has
  reached n ss r a all got = elim (trichotomy r.next n) [
    | inl lt ↦
        let found = got r.next (all r.next lt) in
        let missing = next_missing r.next r.buffer a in absurd (ground arith)
    | inr (inl e) ↦ omega (arith, e)
    | inr (inr gt) ↦ omega (arith, gt)
  ]

  -- The peer's frames arrive in any order, some of them twice or never. While the window is never full when a frame
  -- ahead of the next one arrives, and the numbers are below 2^32 - 1, the payloads handed on are those of the
  -- numbers 0, 1, 2 and so on, each once and in this order; and if all numbers below `n` have arrived, at least
  -- `n` payloads were handed on.
  pub receive-in_order :
      (ss : List ℕ) (n : ℕ)
      → InRange ss
      → overflows payload ss start ≡ false
      → ((k : ℕ) → k < n → Among k ss)
      → Returns
          (receive (map (frame payload) ss) start)
          (λ x. (x.1 ≡ stream payload 0 (length x.1)) × (n ≤ length x.1))
  unfolding InOrder Ahead
  receive-in_order ss n h o all =
      let r = (arrive payload ss start).0 in
      let order : InOrder payload start (arrive payload ss start) =
        arrive-InOrder payload ss start h tt (omega arith) o in
      let far : n ≤ r.next =
        reached n ss r order.2 all (λ k m. has-arrive k ss start h tt (omega arith) o (inl m)) in
      rw (receive-arrive payload ss start h) (order.1, omega (arith, far, order.0))
