-- ===== src/Session/Stream/Refinement.antt =====
-- The stream refines a sequence of messages (session.cpp).
use link_ice.Prelude.{
  ℕ, zero, suc, ◌%◌, ◌^◌, ◌≤◌, ◌≡◌, refl, sym, ap, ◌∙◌, arith, List, [], ◌∷◌, ◌++◌, length, Bytes,
  All, ltb, false, Option-cases, inl, inr, Outcome, value, fault, spent, ◌>>=◌, true,
}
use link_ice.Prelude.Assoc.{nat_key, put, lookup-put_self}
use link_ice.Turn.{
  encode_stream_frame, try_take_stream_frame, take_frames, on_inbound, inbound_all, send_to_server,
  send_all,
}
use link_ice.Turn.Framing.{concat, inbound-send_all}
use link_ice.Session.{IceConfig, Outside, Session}
use link_ice.Session.Consent.{frame_tcp_stun}
use link_ice.Session.Receive.{on_carrier_data}
use link_ice.Session.Connections.{Connections, without}
use link_ice.Session.Stream.{take_frame, rx_buffer, drain_frames, on_tcp_carrier_data, arrive}

>>=-assoc {ℓ κ μ} :
    {A : Type ℓ} {B : Type κ} {C : Type μ} (m : Outcome A) (f : A → Outcome B) (g : B → Outcome C)
    → ((m >>= f) >>= g) ≡ (m >>= λ a. f a >>= g)
>>=-assoc (value a) f g = refl
>>=-assoc fault f g = refl
>>=-assoc spent f g = refl

>>=-same {ℓ κ} :
    {A : Type ℓ} {B : Type κ} (m : Outcome A) (f g : A → Outcome B)
    → ((a : A) → f a ≡ g a)
    → (m >>= f) ≡ (m >>= g)
>>=-same (value a) f g h = h a
>>=-same fault f g h = refl
>>=-same spent f g h = refl

>>=-chain {ℓ κ μ ν π} :
    {A : Type ℓ} {B : Type κ} {C : Type μ} {D : Type ν} {E : Type π} (m : Outcome A)
    (f : A → Outcome B) (g : B → Outcome C) (h : C → Outcome D) (k : D → Outcome E)
    → ((((m >>= f) >>= g) >>= h) >>= k) ≡ (m >>= λ a. ((f a >>= g) >>= h) >>= k)
>>=-chain (value a) f g h k = refl
>>=-chain fault f g h k = refl
>>=-chain spent f g h k = refl

-- The same loop as the TURN client's.
take_frame-try_take : (b : Bytes) → take_frame b ≡ try_take_stream_frame b
unfolding take_frame try_take_stream_frame
take_frame-try_take [] = refl
take_frame-try_take (a ∷ []) = refl
take_frame-try_take (a ∷ b ∷ p) = refl

-- The bytes of messages that are sent with frame_tcp_stun.
unfoldable pub stream_of : List Bytes → Bytes
stream_of [] = []
stream_of (m ∷ ms) = frame_tcp_stun m ++ stream_of ms

stream_of-send_all :
    (ms : List Bytes) → All (λ (m : Bytes). length m ≤ 0xFFFF) ms → stream_of ms ≡ send_all ms
unfolding stream_of send_all frame_tcp_stun send_to_server encode_stream_frame
stream_of-send_all [] h = refl
stream_of-send_all (m ∷ ms) (h, hs) =
    let whole : length m % 2 ^ 16 ≡ length m = omega arith in
    let fits : ltb 0xFFFF (length m) ≡ false = ground arith in
    rw (whole, send_all, send_to_server, encode_stream_frame, fits, stream_of-send_all ms hs) refl

module _ (cfg : IceConfig) (out : Outside) where
  -- The messages one by one, each as a whole.
  unfoldable pub receive_all : ℕ → List Bytes → Session → Outcome Session
  receive_all cid [] s = value s
  receive_all cid (m ∷ ms) s = on_carrier_data cfg out cid m true s >>= receive_all cid ms

  receive_all-append :
      (cid : ℕ) (xs ys : List Bytes) (s : Session)
      → receive_all cid (xs ++ ys) s ≡ (receive_all cid xs s >>= receive_all cid ys)
  unfolding receive_all
  receive_all-append cid [] ys s = refl
  receive_all-append cid (m ∷ xs) ys s =
      >>=-same (on_carrier_data cfg out cid m true s) _ _ (receive_all-append cid xs ys)
      ∙ sym (
          >>=-assoc (on_carrier_data cfg out cid m true s) (receive_all cid xs)
            (receive_all cid ys))

  -- The loop is the messages of the buffer one by one.
  drain_frames-receive_all :
      (fuel cid : ℕ) (buf : Bytes) (s : Session)
      → drain_frames cfg out fuel cid buf s
        ≡ (receive_all cid (take_frames fuel buf).0 s >>= λ t. value (t, (take_frames fuel buf).1))
  unfolding drain_frames receive_all take_frames
  drain_frames-receive_all zero cid buf s = refl
  drain_frames-receive_all (suc fuel) cid buf s = elim (Option-cases (take_frame buf)) [
    | inl e ↦
        let same = sym (take_frame-try_take buf) ∙ e in rw (drain_frames, take_frames, e, same) refl
    | inr ((frame, rest), e) ↦
        let same = sym (take_frame-try_take buf) ∙ e in
        rw (drain_frames, take_frames, e, same)
          (>>=-same (on_carrier_data cfg out cid frame true s) _ _
              (drain_frames-receive_all fuel cid rest)
            ∙ sym (
                >>=-assoc (on_carrier_data cfg out cid frame true s)
                  (receive_all cid (take_frames fuel rest).0)
                  (λ t. value (t, (take_frames fuel rest).1))))
  ]

  -- What is left in the buffer, and the session.
  abbrev pub seen : ℕ → Connections × Session → Outcome (Bytes × Session)
  seen cid (c, s) = value (rx_buffer cid c, s)

  -- The maps behind a chunk.
  abbrev kept : ℕ → Connections → Bytes → Connections
  kept cid d rest = record d {
    tcp_connect_timers = without cid d.tcp_connect_timers;
    tcp_rx_buffers = put cid rest d.tcp_rx_buffers;
  }

  kept_rest : (cid : ℕ) (d : Connections) (rest : Bytes) → rx_buffer cid (kept cid d rest) ≡ rest
  unfolding rx_buffer
  kept_rest cid d rest = rw (rx_buffer, lookup-put_self cid rest d.tcp_rx_buffers) refl

  arrive-inbound_all :
      (cid : ℕ) (cs : List Bytes) (c : Connections) (s : Session)
      → (arrive cfg out cid cs (c, s) >>= seen cid) ≡ (
          receive_all cid (inbound_all (rx_buffer cid c) cs).0 s >>= λ t.
          value ((inbound_all (rx_buffer cid c) cs).1, t))
  unfolding arrive inbound_all on_tcp_carrier_data on_inbound receive_all
  arrive-inbound_all cid [] c s = refl
  arrive-inbound_all cid (b ∷ bs) c s =
      let buf = rx_buffer cid c ++ b in
      let (ms, rest) = take_frames (length buf) buf in
      let first = receive_all cid ms s in
      let next = kept cid c rest in
      ap
        (λ (x : Outcome (Session × Bytes)).
          ((x >>= λ r. value (kept cid c r.1, r.0)) >>= arrive cfg out cid bs) >>= seen cid)
        (drain_frames-receive_all (length buf) cid buf s)
      ∙ >>=-chain first (λ t. value (t, rest)) (λ r. value (kept cid c r.1, r.0))
          (arrive cfg out cid bs) (seen cid)
      ∙ >>=-same first _ _ (λ t.
        arrive-inbound_all cid bs next t
        ∙ ap
            (λ (r : Bytes).
              receive_all cid (inbound_all r bs).0 t >>= λ u. value ((inbound_all r bs).1, u))
            (kept_rest cid c rest))
      ∙ sym (
          >>=-assoc first (receive_all cid (inbound_all rest bs).0)
            (λ t. value ((inbound_all rest bs).1, t)))
      ∙ ap (λ (x : Outcome Session). x >>= λ t. value ((inbound_all rest bs).1, t))
          (sym (receive_all-append cid ms (inbound_all rest bs).0 s))

  -- A TCP connection is a sequence of messages: whatever chunks the bytes of a peer's messages arrive in, the
  -- session comes to where the messages, handled one by one as datagrams are, take it, failures of a handler
  -- included, and nothing is left in the buffer. The messages have at most 65535 bytes and the connection
  -- starts with an empty buffer.
  pub arrive-receive_all :
      (cid : ℕ) (ms cs : List Bytes) (c : Connections) (s : Session)
      → rx_buffer cid c ≡ []
      → All (λ (m : Bytes). length m ≤ 0xFFFF) ms
      → concat cs ≡ stream_of ms
      → (arrive cfg out cid cs (c, s) >>= seen cid) ≡ (receive_all cid ms s >>= λ t. value ([], t))
  arrive-receive_all cid ms cs c s idle fit same =
      let found = inbound-send_all ms cs fit (same ∙ stream_of-send_all ms fit) in
      arrive-inbound_all cid cs c s
      ∙ ap
          (λ (r : Bytes).
            receive_all cid (inbound_all r cs).0 s >>= λ t. value ((inbound_all r cs).1, t))
          idle
      ∙ ap (λ (r : List Bytes × Bytes). receive_all cid r.0 s >>= λ t. value (r.1, t)) found
