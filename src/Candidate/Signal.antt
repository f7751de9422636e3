-- ===== src/Candidate/Signal.antt =====
-- `serialize_signal` and `deserialize_signal` of candidate.hpp. What is left of the buffer behind the
-- offset is a list; `off + n > data.size()` says that it is shorter than `n`.
use link_ice.Prelude.{
  ℕ, zero, suc, ◌+◌, ◌-◌, ◌*◌, ◌/◌, ◌%◌, ◌^◌, List, [], ◌∷◌, ◌++◌, Bytes, Bool, ◌&&◌, ◌||◌, not,
  Option, none, some, if◌then◌else◌, ltb, ◌==◌, min, length, drop, take, replicate, Outcome, value,
  ◌>>=◌, read16, read32, read_bytes,
}
use link_ice.Stun.Endian.{write16, write32}
use link_ice.Candidate.{Candidate, is_host_mdns, max_mdns_hostname_len}
use link_ice.Candidate.Wire.{to_wire, from_wire}

abbrev pub max_ice_candidates : ℕ
max_ice_candidates = 256

-- `IceSignalData`, its count unpacked.
pub record SignalHeader : Type 0 where
  pub ufrag : Bytes
  pub pwd : Bytes
  pub candidate_count : ℕ

pub record Signal : Type 0 where
  pub header : SignalHeader
  pub candidates : List Candidate
  pub flags : ℕ

-- `memset` to zero and `memcpy` of at most `n` bytes.
unfoldable pub fixed_field : ℕ → Bytes → Bytes
fixed_field n s = take n s ++ replicate (n - length s) 0

abbrev pub has_hostname : Candidate → Bool
has_hostname c = is_host_mdns c.type && ltb 0 (length c.hostname)

unfoldable pub wires : List Candidate → Bytes
wires [] = []
wires (c ∷ cs) = to_wire c ++ wires cs

unfoldable pub mdns_count : List Candidate → ℕ
mdns_count [] = 0
mdns_count (c ∷ cs) = (if has_hostname c then 1 else 0) + mdns_count cs

unfoldable pub hostnames : List Candidate → Bytes
hostnames [] = []
hostnames (c ∷ cs) =
    (if has_hostname c
      then write16 (min (length c.hostname) max_mdns_hostname_len)
        ++ take (min (length c.hostname) max_mdns_hostname_len) c.hostname
      else [])
    ++ hostnames cs

-- `(flags & FLAG_MASK) | (size & COUNT_MASK)`
unfoldable pub pack_count : ℕ → ℕ → ℕ
pack_count flags size = flags / 2 ^ 16 % 2 ^ 16 * 2 ^ 16 + size % 2 ^ 16

unfoldable pub serialize_signal : Bytes → Bytes → List Candidate → ℕ → Bytes
serialize_signal ufrag pwd candidates flags =
    fixed_field 8 ufrag
    ++ (fixed_field 32 pwd
        ++ (write32 (pack_count flags (length candidates))
            ++ (wires candidates
                ++ (if ltb 0 (mdns_count candidates)
                    then write32 (mdns_count candidates) ++ hostnames candidates
                    else []))))

unfoldable pub read_candidates : ℕ → Bytes → Outcome (List Candidate × Bytes)
read_candidates zero p = value ([], p)
read_candidates (suc n) p = do
  c ← from_wire p
  (cs, rest) ← read_candidates n (drop 24 p)
  value (c ∷ cs, rest)

unfoldable pub count_host_mdns : List Candidate → ℕ
count_host_mdns [] = 0
count_host_mdns (c ∷ cs) = (if is_host_mdns c.type then 1 else 0) + count_host_mdns cs

-- The candidates with their hostnames, what is left, and the number of hostnames.
abbrev pub Named : Type 0
Named = List Candidate × Bytes × ℕ

abbrev pub cons_named : Candidate → ℕ → Outcome (Option Named) → Outcome (Option Named)
cons_named c k rest =
    rest >>= elim [ none ↦ value none | some (cs, p, n) ↦ value (some (c ∷ cs, p, k + n)) ]

-- Hostnames, in lock-step with the HostMdns candidates.
unfoldable pub read_hostnames : List Candidate → Bytes → Outcome (Option Named)
read_hostnames [] p = value (some ([], p, 0))
read_hostnames (c ∷ cs) p =
    let skip = cons_named c 0 (read_hostnames cs p) in
    let named = (do
      len ← read16 p
      let q = drop 2 p
      let rest = read_hostnames cs (drop len q)
      if len == 0 || ltb max_mdns_hostname_len len
          then value none
          else if ltb (length q) len
          then value none
          else (do name ← read_bytes len q; cons_named (record c { hostname = name }) 1 rest)) in
    if not (is_host_mdns c.type) then skip else if ltb (length p) 2 then value none else named

unfoldable pub read_trailer : SignalHeader → List Candidate → ℕ → Bytes → Outcome (Option Signal)
read_trailer header candidates flags p =
    if length p == 0
    then value (
        if count_host_mdns candidates == 0
        then some (record { header = header; candidates = candidates; flags = flags })
        else none)
    else if count_host_mdns candidates == 0
    then value none
    else if ltb (length p) 4
    then value none
    else (do
      trailer_count ← read32 p
      if not (trailer_count == count_host_mdns candidates)
          then value none
          else read_hostnames candidates (drop 4 p) >>= elim [
            | none ↦ value none
            | some (named, rest, n) ↦ value (
                if length rest == 0 && (n == trailer_count)
                then some (record { header = header; candidates = named; flags = flags })
                else none)
          ])

unfoldable pub deserialize_signal : Bytes → Outcome (Option Signal)
deserialize_signal data_ = if ltb (length data_) 44 then value none else (do
  ufrag ← read_bytes 8 data_
  pwd ← read_bytes 32 (drop 8 data_)
  packed ← read32 (drop 40 data_)
  let count = packed % 2 ^ 16
  if ltb max_ice_candidates count
      then value none
      else if ltb (length data_) (44 + count * 24)
      then value none
      else (do
        (candidates, p) ← read_candidates count (drop 44 data_)
        read_trailer (record { ufrag = ufrag; pwd = pwd; candidate_count = count }) candidates
            (packed / 2 ^ 16 * 2 ^ 16) p))
