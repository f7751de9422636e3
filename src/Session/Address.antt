-- ===== src/Session/Address.antt =====
-- `address_str` and `set_address` of a candidate (session.cpp).
use link_ice.Prelude.{
  ℕ, ◌+◌, ◌*◌, ◌^◌, Bytes, Bool, true, false, ◌&&◌, not, if◌then◌else◌, [], ◌∷◌, ◌++◌, drop, take,
  none, some,
}
use link_ice.Candidate.{Candidate, ipv4, ipv6, other_family, is_host_mdns}
use link_ice.Stun.Address.{Inet}
use link_ice.Stun.Endian.{write32}

abbrev pub is_empty : Bytes → Bool
is_empty [] = true
is_empty (x ∷ xs) = false

-- Four bytes in network order.
unfoldable pub address4 : Bytes → ℕ
address4 (a ∷ b ∷ c ∷ d ∷ _) = a * 2 ^ 24 + b * 2 ^ 16 + c * 2 ^ 8 + d
address4 _ = 0

module _ (inet : Inet) where
  unfoldable pub address_str : Candidate → Bytes
  address_str c =
      if is_host_mdns c.type && not (is_empty c.hostname) then c.hostname else elim c.family [
        | ipv4 ↦ inet.ntop4 (address4 c.addr)
        | ipv6 ↦ inet.ntop6 (take 16 c.addr)
        | other_family n ↦ inet.ntop6 (take 16 c.addr)
      ]

  -- An address that neither family reads leaves the candidate as it is.
  unfoldable pub set_address : Bytes → Candidate → Candidate
  set_address ip c = elim (inet.pton4 ip) [
    | some a ↦ record c { family = ipv4; addr = write32 a ++ drop 4 c.addr }
    | none ↦ elim (inet.pton6 ip) [ some a ↦ record c { family = ipv6; addr = a } | none ↦ c ]
  ]
