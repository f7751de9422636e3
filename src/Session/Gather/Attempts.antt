-- ===== src/Session/Gather/Attempts.antt =====
-- Each failure of a TURN server brings the walk over the servers closer to its end (session.cpp).
use link_ice.Prelude.{
  ℕ, zero, suc, ◌+◌, ◌-◌, ◌*◌, ◌<◌, ◌≡◌, refl, sym, ap, ◌∙◌, arith, ◌&&◌, ◌||◌, ◌==◌, not, Bool,
  true, false, if◌then◌else◌, ==_refl, subst, List, [], ◌∷◌, ◌++◌, length, get_elem?, Option, none,
  some, Option-cases, Bool-cases, inl, inr,
}
use link_ice.Candidate.{udp}
use link_ice.Turn.Client.{TurnConfig}
use link_ice.Session.Address.{is_empty}
use link_ice.Session.Gather.{
  GatherConfig, Around, Step, arm_allocate, attempt_again, Relay, Gatherer,
}
use link_ice.Session.Gather.Fire.{fire}
use link_ice.Session.Gather.Probes.{on_gathering_complete}
use link_ice.Session.Gather.Relays.{
  build_turn_client, end_turn, attempt, close_primary, try_next_turn_attempt, on_allocate_timeout,
}

abbrev unallocated : Option Relay → Bool
unallocated none = true
unallocated (some r) = not r.allocated

-- No allocation has succeeded.
unfoldable pub is_idle : Gatherer → Bool
is_idle g = elim g.turn [ none ↦ true | some r ↦ not r.allocated ]

get_elem?-some {ℓ} :
    {A : Type ℓ} (xs : List A) (i : ℕ) (x : A) → get_elem? xs i ≡ some x → i < length xs
get_elem?-some [] i x e = absurd (ground arith)
get_elem?-some (y ∷ xs) zero x e = omega arith
get_elem?-some (y ∷ xs) (suc i) x e = let rest = get_elem?-some xs i x e in omega arith

unfoldable pub last_step : List Step → Option Step
last_step [] = none
last_step (a ∷ []) = some a
last_step (a ∷ b ∷ xs) = last_step (b ∷ xs)

last_step-push : (xs : List Step) (a : Step) → last_step (xs ++ (a ∷ [])) ≡ some a
unfolding last_step
last_step-push [] a = refl
last_step-push (x ∷ []) a = refl
last_step-push (x ∷ y ∷ xs) a = last_step-push (y ∷ xs) a

-- What the walk waits for: the timer of the attempt in flight, or the posted retry behind a server that could
-- not be tried.
abbrev pub awaited : ℕ → Option Relay → Step
awaited gen none = attempt_again
awaited gen (some r) = arm_allocate gen

-- What the walk waits for was armed or posted, last of all.
unfoldable pub IsPending : Gatherer → Type 0
IsPending g = last_step g.steps ≡ some (awaited g.turn_allocate_gen g.turn)

module _ (cfg : GatherConfig) (out : Around) where
  -- What was armed or posted last comes.
  unfoldable pub fire_last : Gatherer → Gatherer
  fire_last g = elim (last_step g.steps) [ none ↦ g | some a ↦ fire cfg out a g ]

  -- What that does to the walk.
  unfoldable pub next_failure : Gatherer → Gatherer
  next_failure g = elim g.turn [
    | some r ↦ on_allocate_timeout cfg out g.turn_allocate_gen g
    | none ↦ try_next_turn_attempt cfg out g
  ]

  unfoldable pub failures : ℕ → Gatherer → Gatherer
  failures zero g = g
  failures (suc n) g = let rest = failures n (fire_last g) in if g.turn_gathering then rest else g

  -- How far the walk is from its end.
  unfoldable pub ahead : Gatherer → ℕ
  ahead g =
      2 * (length cfg.turn_servers - g.turn_attempt_idx) + (elim g.turn [ none ↦ 1 | some r ↦ 0 ])

  awaited-next :
      (g : Gatherer) (o : Option Relay)
      → fire cfg out (awaited g.turn_allocate_gen o) g ≡ elim o as (λ _. Gatherer) [
        | some r ↦ on_allocate_timeout cfg out g.turn_allocate_gen g
        | none ↦ try_next_turn_attempt cfg out g
      ]
  unfolding fire
  awaited-next g none = refl
  awaited-next g (some r) = refl

  pub fire_last-next : (g : Gatherer) → IsPending g → fire_last g ≡ next_failure g
  unfolding fire_last next_failure IsPending
  fire_last-next g h = simp (fire_last, h) (awaited-next g g.turn)

  -- Either the walk is over, or nothing is allocated, it is closer to its end and goes on by itself.
  abbrev pub Closer : ℕ → Gatherer → Type 0
  Closer n g = (is_idle g ≡ true) × ((g.turn_gathering ≡ true) → (ahead g < n) × IsPending g)

  build_turn_client-unallocated :
      (c : TurnConfig) → unallocated (build_turn_client cfg out c) ≡ true
  unfolding build_turn_client
  build_turn_client-unallocated c =
      let tls = c.tls_transport && out.carrier_tls in
      let tcp = not tls && (c.tcp_transport && out.session.carrier_tcp) in
      let cid = out.session.cid_to false udp c.server c.port in
      elim (Bool-cases (tls || tcp)) [
        | inl stream ↦ elim (Option-cases (out.connect_stream tls c)) [
          | inl refused ↦ rw (build_turn_client, stream, refused) refl
          | inr (n, opens) ↦ rw (build_turn_client, stream, opens) refl
        ]
        | inr datagram ↦ elim (Bool-cases (out.session.carrier && not (cid == 0))) [
          | inl there ↦ rw (build_turn_client, datagram, there) refl
          | inr missing ↦ rw (build_turn_client, datagram, missing) refl
        ]
      ]

  build_turn_client-idle :
      (c : TurnConfig) (r : Relay) → build_turn_client cfg out c ≡ some r → r.allocated ≡ false
  build_turn_client-idle c r e =
      let idle : not r.allocated ≡ true =
        sym (ap unallocated e) ∙ build_turn_client-unallocated c in
      ground arith

  attempt-Closer :
      (c : TurnConfig) (g : Gatherer)
      → out.timers ≡ true
      → g.turn ≡ none
      → g.turn_attempt_idx < length cfg.turn_servers
      → Closer (2 * (length cfg.turn_servers - g.turn_attempt_idx) + 1) (attempt cfg out c g)
  unfolding attempt ahead is_idle IsPending
  attempt-Closer c g timers idle inside = elim (Bool-cases (is_empty c.server)) [
    | inl empty ↦
        simp (attempt, empty, idle)
          (refl, λ on. (omega arith, last_step-push g.steps attempt_again))
    | inr named ↦ elim (Option-cases (build_turn_client cfg out c)) [
      | inr (r, built) ↦
          let open_ = build_turn_client-idle c r built in
          simp (attempt, named, built, timers, open_)
            (refl, λ on. (omega arith, last_step-push _ (arm_allocate (g.turn_allocate_gen + 1))))
      | inl not_built ↦
          simp (attempt, named, not_built, idle)
            (refl, λ on. (omega arith, last_step-push g.steps attempt_again))
    ]
  ]

  pub none-is_idle : (g : Gatherer) → g.turn ≡ none → is_idle g ≡ true
  unfolding is_idle
  none-is_idle g e =
      ap (λ (o : Option Relay). elim o as (λ _. Bool) [ none ↦ true | some r ↦ not r.allocated ]) e

  pub end_turn-ends : (g : Gatherer) → (end_turn cfg out g).turn_gathering ≡ false
  unfolding end_turn on_gathering_complete
  end_turn-ends g = ground arith

  end_turn-is_idle : (g : Gatherer) → is_idle (end_turn cfg out g) ≡ is_idle g
  unfolding end_turn on_gathering_complete is_idle
  end_turn-is_idle g = ground arith

  pub close_primary-none : (g : Gatherer) → (close_primary cfg out g).turn ≡ none
  unfolding close_primary
  close_primary-none g = elim (Option-cases g.turn) [
    | inl e ↦ simp (close_primary, e) refl
    | inr (r, e) ↦ simp (close_primary, e) refl
  ]

  pub close_primary-idx :
      (g : Gatherer) → (close_primary cfg out g).turn_attempt_idx ≡ g.turn_attempt_idx
  unfolding close_primary
  close_primary-idx g = elim (Option-cases g.turn) [
    | inl e ↦ simp (close_primary, e) refl
    | inr (r, e) ↦ simp (close_primary, e) refl
  ]

  pub try_next-Closer :
      (g : Gatherer)
      → out.timers ≡ true
      → Closer
          (2 * (length cfg.turn_servers - g.turn_attempt_idx) + 1)
          (try_next_turn_attempt cfg out g)
  unfolding try_next_turn_attempt is_idle
  try_next-Closer g timers =
      let h = close_primary cfg out (record g { turn_allocate_gen = g.turn_allocate_gen + 1 }) in
      let idle = close_primary-none (record g { turn_allocate_gen = g.turn_allocate_gen + 1 }) in
      let idx = close_primary-idx (record g { turn_allocate_gen = g.turn_allocate_gen + 1 }) in
      elim (Option-cases (get_elem? cfg.turn_servers h.turn_attempt_idx)) [
        | inl e ↦
            let off = end_turn-ends h in
            simp (try_next_turn_attempt, e)
              (end_turn-is_idle h ∙ none-is_idle h idle, λ on. absurd (ground arith))
        | inr (c, e) ↦
            let inside = get_elem?-some cfg.turn_servers h.turn_attempt_idx c e in
            let (still, closer) =
              attempt-Closer (record c { tcp_transport = c.tcp_transport || cfg.prefer_turn_tcp }) h
                timers idle inside in
            simp (try_next_turn_attempt, e)
              (still, λ on. let (less, waits) = closer on in (omega (arith, idx), waits))
      ]

  try_next-inside :
      (g : Gatherer)
      → (try_next_turn_attempt cfg out g).turn_gathering ≡ true
      → g.turn_attempt_idx < length cfg.turn_servers
  unfolding try_next_turn_attempt
  try_next-inside g on =
      let h = close_primary cfg out (record g { turn_allocate_gen = g.turn_allocate_gen + 1 }) in
      let idx = close_primary-idx (record g { turn_allocate_gen = g.turn_allocate_gen + 1 }) in
      elim (Option-cases (get_elem? cfg.turn_servers h.turn_attempt_idx)) [
        | inl e ↦
            let same : try_next_turn_attempt cfg out g ≡ end_turn cfg out h =
              simp (try_next_turn_attempt, e) refl in
            let off = sym (ap (λ (x : Gatherer). x.turn_gathering) same) ∙ on in
            absurd (ground (arith, end_turn-ends h, off))
        | inr (c, e) ↦ omega (arith, get_elem?-some cfg.turn_servers h.turn_attempt_idx c e, idx)
      ]

  pub timeout_tries_next :
      (g : Gatherer) (r : Relay)
      → g.turn ≡ some r
      → r.allocated ≡ false
      → on_allocate_timeout cfg out g.turn_allocate_gen g
        ≡ try_next_turn_attempt cfg out (record g { turn_attempt_idx = g.turn_attempt_idx + 1 })
  unfolding on_allocate_timeout
  timeout_tries_next g r e open_ =
      let next =
        try_next_turn_attempt cfg out (record g { turn_attempt_idx = g.turn_attempt_idx + 1 }) in
      rw (on_allocate_timeout, ==_refl g.turn_allocate_gen)
        (ap
            (λ (o : Option Relay). elim o as (λ _. Gatherer) [
              | none ↦ next
              | some x ↦ if x.allocated then g else next
            ])
            e
          ∙ ap (λ (b : Bool). if b then g else next) open_)

  pub next_failure-Closer :
      (g : Gatherer) → out.timers ≡ true → is_idle g ≡ true → Closer (ahead g) (next_failure g)
  unfolding next_failure ahead is_idle
  next_failure-Closer g timers idle =
      let next = record g { turn_attempt_idx = g.turn_attempt_idx + 1 } in
      let by : Option Relay → Gatherer = λ o. elim o [
        | some r ↦ on_allocate_timeout cfg out g.turn_allocate_gen g
        | none ↦ try_next_turn_attempt cfg out g
      ] in
      let far : Option Relay → ℕ = λ o.
        2 * (length cfg.turn_servers - g.turn_attempt_idx) + (elim o [ none ↦ 1 | some r ↦ 0 ]) in
      elim (Option-cases g.turn) [
        | inl e ↦
            subst (λ (o : Option Relay). Closer (far o) (by o)) (sym e) (try_next-Closer g timers)
        | inr (r, e) ↦
            let open_ : r.allocated ≡ false =
              let idle_r =
                sym (
                  ap
                    (λ (o : Option Relay). elim o as (λ _. Bool) [
                      | none ↦ true
                      | some x ↦ not x.allocated
                    ])
                    e)
                ∙ idle in
              ground arith in
            let (still, closer) = try_next-Closer next timers in
            subst (λ (o : Option Relay). Closer (far o) (by o)) (sym e)
              (subst (λ (h : Gatherer). Closer (far (some r)) h)
                (sym (timeout_tries_next g r e open_))
                (
                  still,
                  λ on.
                      let (less, waits) = closer on in
                      (omega (arith, try_next-inside next on), waits),
                ))
      ]
