-- ===== src/Turn/Channels.antt =====
-- The channels of a TURN allocation: bind_channel, the lookup of send_indication, and
-- handle_channel_data of turn.cpp.
use link_ice.Prelude.{
  decimal, ℕ, ◌+◌, ◌-◌, ◌%◌, ◌^◌, ◌≤◌, ◌<◌, ◌≡◌, refl, sym, ap, ◌∙◌, arith, Bool, true, false,
  if◌then◌else◌, ltb, ◌==◌, ==_refl, bytes_eq, bytes_eq_sound, bytes_eq_refl, subst, Option, none,
  some, Option-cases, Bool-cases, List, [], ◌∷◌, ◌++◌, length, append-nil, Bytes, Outcome, value,
  ◌>>=◌, inl, inr,
}
use link_ice.Stun.Constants.{channel_number_min, channel_number_max}
use link_ice.Stun.ChannelData.{
  IsChannel, encode_channel_data, parse_channel_data, parse-encode_channel_data,
}

pub record Peer : Type 0 where
  pub ip : Bytes
  pub port : ℕ

-- `peer_ip + ":" + std::to_string(peer_port)`
unfoldable pub peer_key : Peer → Bytes
peer_key p = p.ip ++ (58 ∷ decimal 5 p.port)

-- The two maps, newest entry first, the next channel and the permissions.
pub record Channels : Type 0 where
  pub peer_to_channel : List (Bytes × ℕ)
  pub channel_to_peer : List (ℕ × Peer)
  pub next_channel : ℕ
  pub permissions : List Bytes

unfoldable pub channel_of : Bytes → List (Bytes × ℕ) → Option ℕ
channel_of k [] = none
channel_of k ((j, c) ∷ m) = if bytes_eq j k then some c else channel_of k m

unfoldable pub peer_of : ℕ → List (ℕ × Peer) → Option Peer
peer_of c [] = none
peer_of c ((n, p) ∷ m) = if n == c then some p else peer_of c m

-- The state and the channel that is requested from the server. `next_channel_++` wraps at 16 bits.
unfoldable pub bind_channel : Bool → Peer → Channels → Channels × Option ℕ
bind_channel tcp_allocation peer t =
    let next = (t.next_channel + 1) % 2 ^ 16 in
    if tcp_allocation then (t, none) else elim (channel_of (peer_key peer) t.peer_to_channel) [
      | some c ↦ (t, none)
      | none ↦
          if ltb channel_number_max t.next_channel
          then (record t { next_channel = next }, none)
          else (
            record {
              peer_to_channel = (peer_key peer, t.next_channel) ∷ t.peer_to_channel;
              channel_to_peer = (t.next_channel, peer) ∷ t.channel_to_peer;
              next_channel = next;
              permissions = peer.ip ∷ t.permissions;
            },
            some t.next_channel,
          )
    ]

-- The datagram that `data_cb_` is called with.
unfoldable pub handle_channel_data : Channels → Bytes → Outcome (Option (Peer × Bytes))
handle_channel_data t bytes = do
  frame ← parse_channel_data bytes
  value (elim frame [
    | none ↦ none
    | some view ↦ elim (peer_of view.channel t.channel_to_peer) [
      | none ↦ none
      | some peer ↦ some (peer, view.payload)
    ]
  ])

-- Every bound peer has a channel of its own range that leads back to it, below the next one to be given out,
-- and every channel leads to a peer that is bound to it.
pub record IsConsistent (t : Channels) : Type 0 where
  pub bound :
      (k : Bytes) (c : ℕ)
      → channel_of k t.peer_to_channel ≡ some c
      → IsChannel c
        × (c < t.next_channel)
        × ((p : Peer) × (peer_of c t.channel_to_peer ≡ some p) × (peer_key p ≡ k))
  pub back :
      (c : ℕ) (p : Peer)
      → peer_of c t.channel_to_peer ≡ some p
      → channel_of (peer_key p) t.peer_to_channel ≡ some c
  pub started : channel_number_min ≤ t.next_channel

-- The peer is bound to the channel that is requested for it.
abbrev pub Requested : Peer → Option ℕ → Channels → Type 0
Requested peer none t = Unit
Requested peer (some c) t = channel_of (peer_key peer) t.peer_to_channel ≡ some c

-- The entry for a peer that may be there, behind a new one.
abbrev BoundTo : ℕ → Peer → Channels → Option Peer → Type 0
BoundTo c peer t none = Unit
BoundTo c peer t (some p) =
    channel_of (peer_key p) ((peer_key peer, t.next_channel) ∷ t.peer_to_channel) ≡ some c

advance :
    (t : Channels) → IsConsistent t → IsConsistent (record t { next_channel = t.next_channel + 1 })
advance t h = record {
  bound = λ k c q. let b = h.bound k c q in (b.0, omega (arith, b.1), b.2);
  back = h.back;
  started = omega (arith, h.started);
}

bind_new :
    (peer : Peer) (t : Channels)
    → IsConsistent t
    → t.next_channel ≤ channel_number_max
    → channel_of (peer_key peer) t.peer_to_channel ≡ none
    → IsConsistent (record {
      peer_to_channel = (peer_key peer, t.next_channel) ∷ t.peer_to_channel;
      channel_to_peer = (t.next_channel, peer) ∷ t.channel_to_peer;
      next_channel = t.next_channel + 1;
      permissions = peer.ip ∷ t.permissions;
    })
unfolding channel_of peer_of
bind_new peer t h room unbound = record {
  bound = λ k c q. elim (Bool-cases (bytes_eq (peer_key peer) k)) [
    | inl same ↦
        let here : t.next_channel ≡ c = ground arith in
        (
          (omega (arith, h.started, here), omega (arith, room, here)),
          omega (arith, here),
          (peer, rw (peer_of, here, ==_refl c) refl, bytes_eq_sound (peer_key peer) k same),
        )
    | inr other ↦
        let old : channel_of k t.peer_to_channel ≡ some c = ground arith in
        let b = h.bound k c old in
        let apart : (t.next_channel == c) ≡ false = ground (arith, b.1) in
        (b.0, omega (arith, b.1), (b.2.0, rw (peer_of, apart) b.2.1, b.2.2))
  ];
  back = λ c p q. elim (Bool-cases (t.next_channel == c)) [
    | inl same ↦
        let here : t.next_channel ≡ c = ground arith in
        let it : some peer ≡ some p =
          sym (ap (λ (b : Bool). if b then some peer else peer_of c t.channel_to_peer) same) ∙ q in
        subst (λ (x : Option Peer). BoundTo c peer t x) it
          (rw (channel_of, bytes_eq_refl (peer_key peer), here) refl)
    | inr other ↦
        let old : peer_of c t.channel_to_peer ≡ some p =
          sym (ap (λ (b : Bool). if b then some peer else peer_of c t.channel_to_peer) other) ∙ q in
        let kept = h.back c p old in
        elim (Bool-cases (bytes_eq (peer_key peer) (peer_key p))) [
          | inl same ↦
              let key = bytes_eq_sound (peer_key peer) (peer_key p) same in
              let clash =
                sym unbound ∙ ap (λ (k : Bytes). channel_of k t.peer_to_channel) key ∙ kept in
              absurd (ground arith)
          | inr apart ↦ rw (channel_of, apart) kept
        ]
  ];
  started = omega (arith, h.started);
}

-- Binding a peer keeps the two maps inverse to each other and the channels in their range, on every branch, and
-- where a channel is requested from the server the peer is bound to it. The counter is below 65535.
pub bind_channel-IsConsistent :
    (tcp_allocation : Bool) (peer : Peer) (t : Channels)
    → IsConsistent t
    → t.next_channel < 2 ^ 16 - 1
    → let r = bind_channel tcp_allocation peer t in IsConsistent r.0 × Requested peer r.1 r.0
unfolding bind_channel channel_of
bind_channel-IsConsistent true peer t h b = (h, tt)
bind_channel-IsConsistent false peer t h b =
    let wrap : (t.next_channel + 1) % 2 ^ 16 ≡ t.next_channel + 1 = omega arith in
    elim (Option-cases (channel_of (peer_key peer) t.peer_to_channel)) [
      | inr (c, e) ↦ rw (bind_channel, e) (h, tt)
      | inl e ↦ elim (Bool-cases (ltb channel_number_max t.next_channel)) [
        | inl out ↦ rw (bind_channel, e, out, wrap) (advance t h, tt)
        | inr room ↦
            rw (bind_channel, e, room, wrap)
              (
                bind_new peer t h (ground arith) e,
                rw (channel_of, bytes_eq_refl (peer_key peer)) refl,
              )
      ]
    ]

-- A frame on the channel of a bound peer is handed on as that peer's, with its payload.
pub handle_channel_data-bound :
    (t : Channels) (peer : Peer) (c : ℕ) (payload : Bytes)
    → IsConsistent t
    → channel_of (peer_key peer) t.peer_to_channel ≡ some c
    → length payload < 2 ^ 16
    → (p : Peer) × (handle_channel_data t (encode_channel_data c payload)
        ≡ value (some (p, payload)))
      × (peer_key p ≡ peer_key peer)
unfolding handle_channel_data
handle_channel_data-bound t peer c payload h e fits =
    let b = h.bound (peer_key peer) c e in
    let frame : parse_channel_data (encode_channel_data c payload)
        ≡ value (some (record { channel = c; payload = payload })) =
      ap parse_channel_data (sym (append-nil (encode_channel_data c payload)))
      ∙ parse-encode_channel_data c payload [] b.0 fits in
    (b.2.0, rw (frame, b.2.1) refl, b.2.2)
