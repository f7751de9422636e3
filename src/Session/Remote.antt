-- ===== src/Session/Remote.antt =====
-- The peer's candidates (session.cpp): `add_remote_candidates` and `set_peer_signal_flags`.
use link_ice.Prelude.{
  ◌≡◌, refl, arith, ◌&&◌, ◌||◌, not, Bool, true, false, if◌then◌else◌, ◌==◌, List, [], ◌∷◌, ◌++◌,
  Bytes, bytes_eq, bytes_eq_refl, ==_refl, All, All-append, Bool-cases, inl, inr,
}
use link_ice.Candidate.{Candidate, type_code, transport_code}
use link_ice.Session.{
  SessionState, new, gathering, waiting_remote, checking, connected, gave_up, IceConfig, Outside,
  Session, create_permission, on_gathered, resolve_remote_mdns_candidates, emit,
}
use link_ice.Session.Address.{is_empty, address_str}
use link_ice.Session.Pairing.{build_check_list}
use link_ice.Session.Tick.{is_checking, is_none, begin_checks, rebuild}
use link_ice.Session.Role.{same}
use link_ice.Session.Nominate.{nominate_best}

-- The session waits for candidates of either side.
abbrev pub is_waiting_for_remote : SessionState → Bool
is_waiting_for_remote waiting_remote = true
is_waiting_for_remote gathering = true
is_waiting_for_remote new = false
is_waiting_for_remote checking = false
is_waiting_for_remote connected = false
is_waiting_for_remote gave_up = false

module _ (cfg : IceConfig) (out : Outside) where
  -- One address, port, type and transport.
  unfoldable pub is_duplicate : Candidate → Candidate → Bool
  is_duplicate c e =
      bytes_eq (address_str out.inet e) (address_str out.inet c)
      && (e.port == c.port
          && (type_code e.type == type_code c.type
              && transport_code e.transport == transport_code c.transport))

  unfoldable pub is_known : Candidate → List Candidate → Bool
  is_known c [] = false
  is_known c (e ∷ es) = is_duplicate c e || is_known c es

  -- A candidate that is new gets a permission at the relay, if there is one.
  unfoldable pub merge_one : Candidate → Session → Session
  merge_one c s =
      let t =
        if out.turn && out.turn_allocated
        then emit (create_permission (address_str out.inet c)) s
        else s in
      if is_known c s.remote_candidates
      then s
      else record t { remote_candidates = s.remote_candidates ++ (c ∷ []) }

  unfoldable pub merge : List Candidate → Session → Session
  merge [] s = s
  merge (c ∷ cs) s = merge cs (merge_one c s)

  -- New credentials are a restart of the peer.
  unfoldable pub take_credentials : Bytes → Bytes → Session → Session
  take_credentials ufrag pwd s =
      let t =
        if not (is_empty s.remote_ufrag) && not (bytes_eq s.remote_ufrag ufrag)
        then record s { remote_candidates = []; check_list = [] }
        else s in
      record t { remote_ufrag = ufrag; remote_pwd = pwd }

  -- The end of the candidates: the controlling agent chooses its nominee now.
  unfoldable pub end_candidates : Session → Session
  end_candidates s =
      let t = record s { remote_end_of_candidates = true } in
      if s.controlling && (not cfg.aggressive_nomination && not s.nominee_selected)
      then nominate_best cfg out t
      else t

  -- The checks of the merged candidates.
  unfoldable pub start_or_rebuild : Session → Session
  start_or_rebuild s =
      let answered = if s.controlling then s else emit on_gathered s in
      if is_none s.remote_candidates
      then s
      else if is_waiting_for_remote s.state
      then (if is_none s.local_candidates
          then s
          else begin_checks cfg out
              (build_check_list cfg out (record answered { state = checking })))
      else if is_checking s.state
      then emit resolve_remote_mdns_candidates (rebuild cfg out s)
      else emit resolve_remote_mdns_candidates s

  unfoldable pub add_remote_candidates : Bytes → Bytes → List Candidate → Bool → Session → Session
  add_remote_candidates ufrag pwd cands end_of_candidates s =
      let t = take_credentials ufrag pwd s in
      let u = if end_of_candidates then end_candidates t else t in start_or_rebuild (merge cands u)

  -- The peer's announcement of a symmetric NAT.
  unfoldable pub set_peer_signal_flags : Bool → Session → Session
  set_peer_signal_flags symmetric s =
      let t = record s { peer_symmetric = symmetric } in
      if not (same s.peer_symmetric symmetric)
        && (is_checking s.state
            && (not (is_none s.remote_candidates) && not (is_none s.local_candidates)))
      then rebuild cfg out t
      else t

  -- No two candidates of the list are duplicates.
  unfoldable pub Distinct : List Candidate → Type 0
  Distinct [] = Unit
  Distinct (x ∷ xs) = All (λ c. is_duplicate c x ≡ false) xs × Distinct xs

  Distinct-push :
      (c : Candidate) (xs : List Candidate)
      → Distinct xs
      → is_known c xs ≡ false
      → Distinct (xs ++ (c ∷ []))
  unfolding Distinct is_known
  Distinct-push c [] d h = (tt, tt)
  Distinct-push c (x ∷ xs) (a, d) h =
      let here : is_duplicate c x ≡ false = ground arith in
      let there : is_known c xs ≡ false = ground arith in
      (
        All-append (λ e. is_duplicate e x ≡ false) xs (c ∷ []) a (here, tt),
        Distinct-push c xs d there,
      )

  merge_one-Distinct :
      (c : Candidate) (s : Session)
      → Distinct s.remote_candidates
      → Distinct (merge_one c s).remote_candidates
  unfolding merge_one
  merge_one-Distinct c s d = elim (Bool-cases (is_known c s.remote_candidates)) [
    | inl known ↦ rw known d
    | inr fresh ↦ rw fresh (Distinct-push c s.remote_candidates d fresh)
  ]

  is_duplicate_refl : (c : Candidate) → is_duplicate c c ≡ true
  unfolding is_duplicate
  is_duplicate_refl c = rw (
    bytes_eq_refl (address_str out.inet c),
    ==_refl c.port,
    ==_refl (type_code c.type),
    ==_refl (transport_code c.transport),
  )

  is_known-push :
      (c d : Candidate) (xs : List Candidate)
      → is_known c xs ≡ true
      → is_known c (xs ++ (d ∷ [])) ≡ true
  unfolding is_known
  is_known-push c d [] h = absurd (ground arith)
  is_known-push c d (x ∷ xs) h = let later = is_known-push c d xs in ground arith

  is_known_last : (c : Candidate) (xs : List Candidate) → is_known c (xs ++ (c ∷ [])) ≡ true
  unfolding is_known
  is_known_last c [] = rw (is_duplicate_refl c) refl
  is_known_last c (x ∷ xs) = let later = is_known_last c xs in ground arith

  merge_one_keeps :
      (c d : Candidate) (s : Session)
      → is_known c s.remote_candidates ≡ true
      → is_known c (merge_one d s).remote_candidates ≡ true
  unfolding merge_one
  merge_one_keeps c d s h = elim (Bool-cases (is_known d s.remote_candidates)) [
    | inl known ↦ rw known h
    | inr fresh ↦ rw fresh (is_known-push c d s.remote_candidates h)
  ]

  merge_keeps :
      (c : Candidate) (cs : List Candidate) (s : Session)
      → is_known c s.remote_candidates ≡ true
      → is_known c (merge cs s).remote_candidates ≡ true
  unfolding merge
  merge_keeps c [] s h = h
  merge_keeps c (d ∷ cs) s h = merge_keeps c cs (merge_one d s) (merge_one_keeps c d s h)

  merge_one_knows :
      (c : Candidate) (s : Session) → is_known c (merge_one c s).remote_candidates ≡ true
  unfolding merge_one
  merge_one_knows c s = elim (Bool-cases (is_known c s.remote_candidates)) [
    | inl known ↦ rw known known
    | inr fresh ↦ rw fresh (is_known_last c s.remote_candidates)
  ]

  -- The merge of a batch of candidates keeps the peer's list free of duplicates (no two have one address,
  -- port, type and transport), has every candidate of the batch in it afterwards, up to duplicates, and
  -- loses none that was there.
  pub merge-Distinct :
      (cs : List Candidate) (s : Session)
      → Distinct s.remote_candidates
      → Distinct (merge cs s).remote_candidates
        × All (λ c. is_known c (merge cs s).remote_candidates ≡ true) cs
        × ((c : Candidate)
            → is_known c s.remote_candidates ≡ true
            → is_known c (merge cs s).remote_candidates ≡ true)
  unfolding merge
  merge-Distinct [] s d = (d, tt, λ c h. h)
  merge-Distinct (c ∷ cs) s d =
      let (distinct, all, kept) = merge-Distinct cs (merge_one c s) (merge_one-Distinct c s d) in
      (
        distinct,
        (merge_keeps c cs (merge_one c s) (merge_one_knows c s), all),
        λ x h. kept x (merge_one_keeps x c s h),
      )
