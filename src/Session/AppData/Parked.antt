-- ===== src/Session/AppData/Parked.antt =====
-- What of the application's data waits for the connection, and in which order it is sent (session.cpp).
use link_ice.Prelude.{
  ℕ, zero, suc, ◌-◌, ◌≤◌, ◌≡◌, refl, sym, ap, ◌∙◌, arith, true, false, leb, List, [], ◌∷◌, ◌++◌,
  append_assoc, append-nil, subst, ◌&&◌, drop, drop-add, length, length-drop, length-append, Bytes,
  Bool-cases, inl, inr,
}
use link_ice.Session.{IceConfig, Outside, Session}
use link_ice.Session.Tick.{is_connected}
use link_ice.Session.AppData.{
  pending_app_data_max_frames, Sender, send_direct, send_on_strand, park, send, send_each, flush,
  flush_pending_app_data,
}

-- The last `n` of a list, the whole list where it has fewer.
unfoldable pub newest {ℓ} : {A : Type ℓ} → ℕ → List A → List A
newest n xs = drop (length xs - n) xs

drop_front {ℓ} :
    {A : Type ℓ} (n : ℕ) (xs ys : List A) → n ≤ length xs → drop n (xs ++ ys) ≡ drop n xs ++ ys
drop_front zero xs ys h = refl
drop_front (suc n) [] ys h = absurd (omega arith)
drop_front (suc n) (x ∷ xs) ys h = drop_front n xs ys (omega arith)

newest-append {ℓ} :
    {A : Type ℓ} (n : ℕ) (xs ys : List A) → newest n (newest n xs ++ ys) ≡ newest n (xs ++ ys)
unfolding newest
newest-append n xs ys =
    let k = length xs - n in
    let front = drop_front k xs ys (omega arith) in
    let a = length-append (drop k xs) ys in
    let b = length-append xs ys in
    let c = length-drop k xs in
    let more = length (drop k xs ++ ys) - n in
    ap (drop more) (sym front)
    ∙ sym (drop-add (length (xs ++ ys) - n) k more (xs ++ ys) (omega (arith, a, b, c)))

module _ (cfg : IceConfig) (out : Outside) where
  park-newest :
      (b : Bytes) (q : List Bytes)
      → length q ≤ pending_app_data_max_frames
      → park cfg out b q ≡ newest pending_app_data_max_frames (q ++ (b ∷ []))
  unfolding park newest
  park-newest b q h =
      let size = length-append q (b ∷ []) in
      elim (Bool-cases (leb 64 (length q))) [
        | inl full ↦
            let one : length (q ++ (b ∷ [])) - 64 ≡ 1 = ground arith in
            rw (full, one) (sym (drop_front 1 q (b ∷ []) (ground arith)))
        | inr room ↦
            let none_ : length (q ++ (b ∷ [])) - 64 ≡ 0 = ground arith in rw (room, none_) refl
      ]

  newest-length : (q : List Bytes) → length (newest 64 q) ≤ 64
  unfolding newest
  newest-length q = omega (arith, length-drop (length q - 64) q)

  send_each-newest :
      (bs : List Bytes) (t : Sender)
      → is_connected t.session.state ≡ false
      → length t.pending_app_data ≤ pending_app_data_max_frames
      → send_each cfg out bs t ≡ record t {
        pending_app_data = newest pending_app_data_max_frames (t.pending_app_data ++ bs);
      }
  unfolding send_each send newest
  send_each-newest [] t apart h =
      let q = t.pending_app_data in
      let short : length (q ++ []) - 64 ≡ 0 = omega (arith, length-append q []) in
      let whole : newest 64 (q ++ []) ≡ q = ap (λ (n : ℕ). drop n (q ++ [])) short ∙ append-nil q in
      ap (λ (x : List Bytes). record t { pending_app_data = x }) (sym whole)
  send_each-newest (b ∷ bs) t apart h =
      let q = t.pending_app_data in
      let parked = park-newest b q h in
      let next = record t { pending_app_data = park cfg out b q } in
      let goes : send cfg out b t ≡ next = simp (send, apart) refl in
      let fits : length (park cfg out b q) ≤ 64 =
        subst (λ (x : List Bytes). length x ≤ 64) (sym parked) (newest-length (q ++ (b ∷ []))) in
      let same : newest 64 (park cfg out b q ++ bs) ≡ newest 64 (q ++ (b ∷ bs)) =
        ap (λ (x : List Bytes). newest 64 (x ++ bs)) parked
        ∙ newest-append 64 (q ++ (b ∷ [])) bs
        ∙ ap (newest 64) (append_assoc q (b ∷ []) bs) in
      ap (send_each cfg out bs) goes
      ∙ send_each-newest bs next apart fits
      ∙ ap (λ (x : List Bytes). record t { pending_app_data = x }) same

  send_direct-state : (b : Bytes) (s : Session) → (send_direct cfg out b s).state ≡ s.state
  unfolding send_direct
  send_direct-state b s = ground arith

  send_on_strand-state :
      (b : Bytes) (t : Sender) → (send_on_strand cfg out b t).session.state ≡ t.session.state
  unfolding send_on_strand
  send_on_strand-state b t = elim (Bool-cases (t.session.nominated.relay && out.turn)) [
    | inl through ↦ simp (send_on_strand, through) refl
    | inr past ↦ simp (send_on_strand, past) (send_direct-state _ t.session)
  ]

  flush-send_each :
      (bs : List Bytes) (t : Sender)
      → is_connected t.session.state ≡ true
      → flush cfg out bs t ≡ send_each cfg out bs t
  unfolding flush send_each send
  flush-send_each [] t on = refl
  flush-send_each (b ∷ bs) t on =
      let next = send_on_strand cfg out b t in
      let still : is_connected next.session.state ≡ true =
        ap is_connected (send_on_strand-state b t) ∙ on in
      let goes : send cfg out b t ≡ next = simp (send, on) refl in
      flush-send_each bs next still ∙ ap (send_each cfg out bs) (sym goes)

  -- Data that the application sends before the session is connected is not lost but for its beginning: once the
  -- session is connected the flush does what sending the last 64 payloads then would do, in their order and
  -- with the same sequence numbers. At most 64 were parked before.
  pub parked_then_sent :
      (bs : List Bytes) (t : Sender) (s : Session)
      → is_connected t.session.state ≡ false
      → is_connected s.state ≡ true
      → length t.pending_app_data ≤ pending_app_data_max_frames
      → flush_pending_app_data cfg out (record (send_each cfg out bs t) { session = s })
        ≡ send_each cfg out
            (newest pending_app_data_max_frames (t.pending_app_data ++ bs))
            (record t { session = s; pending_app_data = [] })
  unfolding flush_pending_app_data
  parked_then_sent bs t s apart on h =
      let last = newest 64 (t.pending_app_data ++ bs) in
      ap (λ (x : Sender). flush_pending_app_data cfg out (record x { session = s }))
        (send_each-newest bs t apart h)
      ∙ flush-send_each last (record t { session = s; pending_app_data = [] }) on
