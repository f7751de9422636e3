-- ===== src/Candidate/SignalSafety.antt =====
-- Memory safety of `deserialize_signal`.
use link_ice.Prelude.{
  ℕ, zero, suc, ◌+◌, ◌*◌, ◌%◌, ◌^◌, ◌≤◌, arith, List, [], ◌∷◌, Bytes, ◌||◌, not, Option, none, some,
  ltb, ◌==◌, length, drop, Outcome, value, fault, spent, read16, Returns, if-Returns, >>=-Returns,
}
use link_ice.Stun.Safety.{Done, read8-Done, read16-Done, read32-Done, read_bytes-Done, left_after}
use link_ice.Candidate.{Candidate, is_host_mdns, max_mdns_hostname_len}
use link_ice.Candidate.Wire.{from_wire}
use link_ice.Candidate.Signal.{
  SignalHeader, Named, read_candidates, count_host_mdns, read_hostnames, read_trailer,
  deserialize_signal, max_ice_candidates, cons_named,
}

from_wire-Done : (p : Bytes) → 24 ≤ length p → Returns (from_wire p) Done
unfolding from_wire
from_wire-Done p h = >>=-Returns Done Done _ _ (read8-Done p (omega arith)) λ a _.
    >>=-Returns Done Done _ _ (read8-Done (drop 1 p) (left_after 1 1 p (omega arith))) λ b _.
      >>=-Returns Done Done _ _ (read16-Done (drop 2 p) (left_after 2 2 p (omega arith))) λ c _.
        >>=-Returns Done Done _ _ (read32-Done (drop 4 p) (left_after 4 4 p (omega arith))) λ d _.
          >>=-Returns Done Done _ _
            (read_bytes-Done 16 (drop 8 p) (left_after 8 16 p (omega arith))) λ e _. tt

read_candidates-Done : (n : ℕ) (p : Bytes) → 24 * n ≤ length p → Returns (read_candidates n p) Done
unfolding read_candidates
read_candidates-Done zero p h = tt
read_candidates-Done (suc n) p h = >>=-Returns Done Done _ _ (from_wire-Done p (omega arith)) λ c _.
    >>=-Returns Done Done _ _
      (read_candidates-Done n (drop 24 p) (left_after 24 (24 * n) p (omega arith))) λ r _. tt

cons_named-Done :
    (c : Candidate) (k : ℕ) (m : Outcome (Option Named))
    → Returns m Done
    → Returns (cons_named c k m) Done
cons_named-Done c k (value none) h = tt
cons_named-Done c k (value (some r)) h = tt
cons_named-Done c k fault h = h
cons_named-Done c k spent h = h

read_hostnames-Done : (cs : List Candidate) (p : Bytes) → Returns (read_hostnames cs p) Done
unfolding read_hostnames read16
read_hostnames-Done [] p = tt
read_hostnames-Done (c ∷ cs) [] =
    if-Returns Done (not (is_host_mdns c.type)) _ _
      (λ _. cons_named-Done c 0 (read_hostnames cs []) (read_hostnames-Done cs [])) (λ _. tt)
read_hostnames-Done (c ∷ cs) (a ∷ []) =
    if-Returns Done (not (is_host_mdns c.type)) _ _
      (λ _. cons_named-Done c 0 (read_hostnames cs (a ∷ [])) (read_hostnames-Done cs (a ∷ [])))
      (λ _. tt)
read_hostnames-Done (c ∷ cs) (a ∷ b ∷ q) =
    let len = a * 2 ^ 8 + b in
    if-Returns Done (not (is_host_mdns c.type)) _ _
      (λ _.
        cons_named-Done c 0 (read_hostnames cs (a ∷ b ∷ q)) (read_hostnames-Done cs (a ∷ b ∷ q)))
      λ _.
        if-Returns Done (ltb (suc (suc (length q))) 2) _ _ (λ _. tt)
          λ _.
            if-Returns Done (len == 0 || ltb max_mdns_hostname_len len) _ _ (λ _. tt)
              λ _.
                if-Returns Done (ltb (length q) len) _ _ (λ _. tt)
                  λ fits. >>=-Returns Done Done _ _ (read_bytes-Done len q (ground arith)) λ name _.
                    cons_named-Done (record c { hostname = name }) 1
                      (read_hostnames cs (drop len q)) (read_hostnames-Done cs (drop len q))

read_trailer-Done :
    (header : SignalHeader) (cs : List Candidate) (flags : ℕ) (p : Bytes)
    → Returns (read_trailer header cs flags p) Done
unfolding read_trailer
read_trailer-Done header cs flags p =
    if-Returns Done (length p == 0) _ _ (λ _. tt)
      λ _.
        if-Returns Done (count_host_mdns cs == 0) _ _ (λ _. tt)
          λ _.
            if-Returns Done (ltb (length p) 4) _ _ (λ _. tt)
              λ long. >>=-Returns Done Done _ _ (read32-Done p (ground arith)) λ n _.
                if-Returns Done (not (n == count_host_mdns cs)) _ _ (λ _. tt)
                  λ _.
                    >>=-Returns Done Done (read_hostnames cs (drop 4 p)) _
                      (read_hostnames-Done cs (drop 4 p))
                      (elim [ none ↦ λ _. tt | some r ↦ λ _. tt ])

-- On every buffer, whatever its bytes and its announced counts, `deserialize_signal` reads only inside
-- the buffer and returns a signal or a rejection.
pub deserialize_signal-returns : (data_ : Bytes) → Returns (deserialize_signal data_) Done
unfolding deserialize_signal
deserialize_signal-returns data_ =
    if-Returns Done (ltb (length data_) 44) _ _ (λ _. tt)
      λ long. >>=-Returns Done Done _ _ (read_bytes-Done 8 data_ (ground arith)) λ ufrag _.
        >>=-Returns Done Done _ _
          (read_bytes-Done 32 (drop 8 data_) (left_after 8 32 data_ (ground arith)))
          λ pwd _.
            >>=-Returns Done Done _ _
              (read32-Done (drop 40 data_) (left_after 40 4 data_ (ground arith)))
              λ packed _.
                if-Returns Done (ltb max_ice_candidates (packed % 2 ^ 16)) _ _ (λ _. tt)
                  λ _.
                    if-Returns Done (ltb (length data_) (44 + packed % 2 ^ 16 * 24)) _ _ (λ _. tt)
                      λ fits.
                        >>=-Returns Done Done _ _
                          (read_candidates-Done (packed % 2 ^ 16) (drop 44 data_)
                            (left_after 44 (24 * (packed % 2 ^ 16)) data_ (ground arith)))
                          λ r _. read_trailer-Done _ r.0 _ r.1
