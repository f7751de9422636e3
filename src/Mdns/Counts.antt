-- ===== src/Mdns/Counts.antt =====
-- How many callbacks an operation makes and how many queries it leaves (mdns.cpp).
use link_ice.Prelude.{
  ℕ, ◌+◌, ◌≤◌, ◌≡◌, refl, sym, ap, ◌∙◌, arith, ◌&&◌, not, Bool, false, if◌then◌else◌, ◌==◌, List,
  [], ◌∷◌, ◌++◌, Bytes, bytes_eq, some, Bool-cases, inl, inr,
}
use link_ice.Prelude.Assoc.{bytes_key}
use link_ice.Mdns.Messages.{Answer}
use link_ice.Mdns.Manager.{
  PendingQuery, Action, callback, multicast_v4, multicast_v6, unicast_v4, unicast_v6, Pending, push,
  find_id, find_query, without_id, keep_list, drop_query, absorb_one, absorb_list, absorb,
  absorb_all, fire_list, fire_resolved, fire_all_list, fire_all,
}

-- The callbacks of one call among the actions.
unfoldable pub callbacks : ℕ → List Action → ℕ
callbacks id [] = 0
callbacks id (callback n r ∷ as_) = (if n == id then 1 else 0) + callbacks id as_
callbacks id (multicast_v4 b ∷ as_) = callbacks id as_
callbacks id (multicast_v6 b ∷ as_) = callbacks id as_
callbacks id (unicast_v4 b ∷ as_) = callbacks id as_
callbacks id (unicast_v6 b ∷ as_) = callbacks id as_

-- The queries of one call that wait.
unfoldable pub live_list : ℕ → List PendingQuery → ℕ
live_list id [] = 0
live_list id (q ∷ qs) = (if q.id == id && not q.fired then 1 else 0) + live_list id qs

unfoldable pub live : ℕ → Pending → ℕ
live id [] = 0
live id ((n, qs) ∷ m) = live_list id qs + live id m

pub callbacks-append :
    (id : ℕ) (xs ys : List Action) → callbacks id (xs ++ ys) ≡ callbacks id xs + callbacks id ys
unfolding callbacks
callbacks-append id [] ys = omega arith
callbacks-append id (callback n r ∷ xs) ys = omega (arith, callbacks-append id xs ys)
callbacks-append id (multicast_v4 b ∷ xs) ys = callbacks-append id xs ys
callbacks-append id (multicast_v6 b ∷ xs) ys = callbacks-append id xs ys
callbacks-append id (unicast_v4 b ∷ xs) ys = callbacks-append id xs ys
callbacks-append id (unicast_v6 b ∷ xs) ys = callbacks-append id xs ys

pub live_list-push :
    (id : ℕ) (q : PendingQuery) (qs : List PendingQuery)
    → live_list id (qs ++ (q ∷ [])) ≡ live_list id qs + (if q.id == id && not q.fired then 1 else 0)
unfolding live_list
live_list-push id q [] = omega arith
live_list-push id q (x ∷ qs) = omega (arith, live_list-push id q qs)

pub live-push :
    (id : ℕ) (name : Bytes) (q : PendingQuery) (m : Pending)
    → live id (push name q m) ≡ live id m + (if q.id == id && not q.fired then 1 else 0)
unfolding live live_list push
live-push id name q [] = omega arith
live-push id name q ((n, qs) ∷ m) = ground (arith, live_list-push id q qs, live-push id name q m)

pub live-keep_list :
    (id : ℕ) (n : Bytes) (qs : List PendingQuery) (m : Pending)
    → live id (keep_list n qs m) ≡ live_list id qs + live id m
unfolding live live_list
live-keep_list id n [] m = omega arith
live-keep_list id n (q ∷ qs) m = refl

pub live_list-absorb :
    (id : ℕ) (a : Answer) (qs : List PendingQuery)
    → live_list id (absorb_list a qs) ≡ live_list id qs
unfolding live_list absorb_list absorb_one
live_list-absorb id a [] = refl
live_list-absorb id a (q ∷ qs) = omega (arith, live_list-absorb id a qs)

pub live-absorb : (id : ℕ) (a : Answer) (m : Pending) → live id (absorb a m) ≡ live id m
unfolding live absorb
live-absorb id a [] = refl
live-absorb id a ((n, qs) ∷ m) = ground (arith, live_list-absorb id a qs, live-absorb id a m)

pub live-absorb_all :
    (id : ℕ) (as_ : List Answer) (m : Pending) → live id (absorb_all as_ m) ≡ live id m
unfolding absorb_all
live-absorb_all id [] m = refl
live-absorb_all id (a ∷ as_) m = live-absorb_all id as_ (absorb a m) ∙ live-absorb id a m

-- A query either goes on waiting or is called.
pub fire_list-balance :
    (id : ℕ) (qs : List PendingQuery)
    → live_list id (fire_list qs).0 + callbacks id (fire_list qs).1 ≡ live_list id qs
unfolding live_list callbacks fire_list
fire_list-balance id [] = omega arith
fire_list-balance id (q ∷ qs) = let rest = fire_list-balance id qs in ground arith

pub fire_resolved-balance :
    (id : ℕ) (m : Pending)
    → live id (fire_resolved m).0 + callbacks id (fire_resolved m).1 ≡ live id m
unfolding live callbacks fire_resolved
fire_resolved-balance id [] = omega arith
fire_resolved-balance id ((n, qs) ∷ m) =
    let (kept, calls) = fire_list qs in
    let (rest, more) = fire_resolved m in
    omega (
      arith,
      fire_list-balance id qs,
      fire_resolved-balance id m,
      live-keep_list id n kept rest,
      callbacks-append id calls more,
    )

pub fire_all_list-balance :
    (id : ℕ) (qs : List PendingQuery) → callbacks id (fire_all_list qs) ≡ live_list id qs
unfolding live_list callbacks fire_all_list
fire_all_list-balance id [] = refl
fire_all_list-balance id (q ∷ qs) = let rest = fire_all_list-balance id qs in ground arith

pub fire_all-balance : (id : ℕ) (m : Pending) → callbacks id (fire_all m) ≡ live id m
unfolding live callbacks fire_all
fire_all-balance id [] = refl
fire_all-balance id ((n, qs) ∷ m) = omega (
  arith,
  callbacks-append id (fire_all_list qs) (fire_all m),
  fire_all_list-balance id qs,
  fire_all-balance id m,
)

pub live_list-without_self : (id : ℕ) (qs : List PendingQuery) → live_list id (without_id id qs) ≡ 0
unfolding live_list without_id
live_list-without_self id [] = refl
live_list-without_self id (q ∷ qs) = let rest = live_list-without_self id qs in ground arith

pub live_list-without_ne :
    (id j : ℕ) (qs : List PendingQuery)
    → (id == j) ≡ false
    → live_list j (without_id id qs) ≡ live_list j qs
unfolding live_list without_id
live_list-without_ne id j [] h = refl
live_list-without_ne id j (q ∷ qs) h = let rest = live_list-without_ne id j qs h in ground arith

pub find_id-live :
    (id : ℕ) (q : PendingQuery) (qs : List PendingQuery)
    → find_id id qs ≡ some q
    → q.fired ≡ false
    → 1 ≤ live_list id qs
unfolding live_list find_id
find_id-live id q [] e f = absurd (ground arith)
find_id-live id q (x ∷ qs) e f =
    let rest = find_id-live id q qs in
    elim (Bool-cases (x.id == id)) [
      | inl here ↦
          let same : some x ≡ some q =
            ap (λ (b : Bool). if b then some x else find_id id qs) (sym here) ∙ e in
          let idle : x.fired ≡ false = ground arith in rw (here, idle) (omega arith)
      | inr other ↦
          let later : find_id id qs ≡ some q =
            ap (λ (b : Bool). if b then some x else find_id id qs) (sym other) ∙ e in
          omega (arith, rest later f)
    ]

pub live-drop_self :
    (name : Bytes) (id : ℕ) (q : PendingQuery) (m : Pending)
    → find_query name id m ≡ some q
    → q.fired ≡ false
    → live id (drop_query name id m) + 1 ≤ live id m
unfolding live find_query drop_query
live-drop_self name id q [] e f = absurd (ground arith)
live-drop_self name id q ((n, qs) ∷ m) e f =
    let rest = live-drop_self name id q m in
    let here = find_id-live id q qs in
    elim (Bool-cases (bytes_eq n name)) [
      | inl same ↦ rw same (
          omega (
            arith,
            live-keep_list id n (without_id id qs) m,
            live_list-without_self id qs,
            here
                (ap (λ (b : Bool). if b then find_id id qs else find_query name id m) (sym same)
                  ∙ e)
                f,
          ))
      | inr other ↦ rw other (
          omega (
            arith,
            rest
                (ap (λ (b : Bool). if b then find_id id qs else find_query name id m) (sym other)
                  ∙ e)
                f,
          ))
    ]

pub live-drop_ne :
    (name : Bytes) (id j : ℕ) (m : Pending)
    → (id == j) ≡ false
    → live j (drop_query name id m) ≡ live j m
unfolding live drop_query
live-drop_ne name id j [] h = refl
live-drop_ne name id j ((n, qs) ∷ m) h = ground (
  arith,
  live-drop_ne name id j m h,
  live-keep_list j n (without_id id qs) m,
  live_list-without_ne id j qs h,
)
