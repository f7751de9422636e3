-- ===== src/Mdns/LocalNames.antt =====
-- The names of host candidates that hide an address (mdns.cpp): `generate_uuid_v4` and `is_mdns_local_name`.
use link_ice.Prelude.{
  ℕ, suc, ◌+◌, ◌-◌, ◌/◌, ◌%◌, ◌≡◌, refl, ap, ◌∙◌, arith, ◌&&◌, ◌||◌, not, Bool, true, false,
  if◌then◌else◌, ltb, leb, ◌==◌, [], ◌∷◌, ◌++◌, drop, length, Bytes, bytes_eq,
}
use link_ice.Mdns.Names.{to_lower, tolower}
use link_ice.Candidate.{max_mdns_hostname_len}

-- `.local`
abbrev pub suffix : Bytes
suffix = 46 ∷ 108 ∷ 111 ∷ 99 ∷ 97 ∷ 108 ∷ []

abbrev pub hex : ℕ → ℕ
hex n = if ltb n 10 then 48 + n else 87 + n

-- Dashes stand in front of the bytes 4, 6, 8 and 10.
abbrev pub dash : ℕ → Bytes
dash i = if i == 4 || (i == 6 || (i == 8 || i == 10)) then 45 ∷ [] else []

-- The version in the byte 6 and the variant in the byte 8.
abbrev pub stamp : ℕ → ℕ → ℕ
stamp i x = if i == 6 then x % 16 + 0x40 else if i == 8 then x % 64 + 0x80 else x

unfoldable pub uuid_from : ℕ → Bytes → Bytes
uuid_from i [] = []
uuid_from i (x ∷ xs) =
    dash i ++ (hex (stamp i x / 16) ∷ hex (stamp i x % 16) ∷ uuid_from (suc i) xs)

-- The text of sixteen random bytes.
unfoldable pub generate_uuid_v4 : Bytes → Bytes
generate_uuid_v4 raw = uuid_from 0 raw

unfoldable pub no_nul : Bytes → Bool
no_nul [] = true
no_nul (x ∷ xs) = not (x == 0) && no_nul xs

unfoldable pub is_mdns_local_name : Bytes → Bool
is_mdns_local_name name =
    ltb (length suffix) (length name)
    && (leb (length name) max_mdns_hostname_len
        && (bytes_eq (to_lower (drop (length name - length suffix) name)) suffix && no_nul name))

no_nul-append : (xs ys : Bytes) → no_nul (xs ++ ys) ≡ (no_nul xs && no_nul ys)
unfolding no_nul
no_nul-append [] ys = refl
no_nul-append (x ∷ xs) ys = let rest = no_nul-append xs ys in ground arith

no_nul-uuid : (i : ℕ) (xs : Bytes) → no_nul (uuid_from i xs) ≡ true
unfolding no_nul uuid_from
no_nul-uuid i [] = refl
no_nul-uuid i (x ∷ xs) =
    let rest = no_nul-uuid (suc i) xs in
    let front =
      no_nul-append (dash i) (hex (stamp i x / 16) ∷ hex (stamp i x % 16) ∷ uuid_from (suc i) xs) in
    let dash_ : no_nul (dash i) ≡ true = ground arith in
    let high : (hex (stamp i x / 16) == 0) ≡ false = ground arith in
    let low : (hex (stamp i x % 16) == 0) ≡ false = ground arith in
    front ∙ rw (dash_, high, low, rest) refl

-- A name that the link makes for a host candidate is one that a peer takes for an mDNS name.
pub local_name_of_uuid :
    (a b c d e f g h i j k l m n o p : ℕ)
    → is_mdns_local_name (
        generate_uuid_v4 (a ∷ b ∷ c ∷ d ∷ e ∷ f ∷ g ∷ h ∷ i ∷ j ∷ k ∷ l ∷ m ∷ n ∷ o ∷ p ∷ [])
        ++ suffix)
      ≡ true
unfolding is_mdns_local_name generate_uuid_v4 uuid_from to_lower tolower no_nul
local_name_of_uuid a b c d e f g h i j k l m n o p =
    let raw = a ∷ b ∷ c ∷ d ∷ e ∷ f ∷ g ∷ h ∷ i ∷ j ∷ k ∷ l ∷ m ∷ n ∷ o ∷ p ∷ [] in
    no_nul-append (uuid_from 0 raw) suffix ∙ ap (λ (t : Bool). t && true) (no_nul-uuid 0 raw)
