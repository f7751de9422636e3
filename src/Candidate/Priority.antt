-- ===== src/Candidate/Priority.antt =====
-- `compute_priority`, `pair_priority` and `compute_foundation` of candidate.hpp.
use link_ice.Prelude.{
  decimal, ℕ, ◌+◌, ◌-◌, ◌*◌, ◌%◌, ◌^◌, ◌≤◌, ◌<◌, ◌≡◌, refl, ap, ◌∙◌, arith, [], ◌∷◌, Bytes, Bool,
  true, false, if◌then◌else◌, ltb, min, max, bit_or, bit_or-shift, bit_xor, not, ◌⊎◌,
}
use link_ice.Candidate.{
  CandidateType, TransportType, host, srflx, relay, prflx, host_mdns, other, type_code,
  transport_code,
}

-- An unnamed type falls through the `switch`.
unfoldable pub type_pref : CandidateType → ℕ
type_pref host = 126
type_pref host_mdns = 126
type_pref prflx = 110
type_pref srflx = 100
type_pref relay = 0
type_pref (other n) = 0

-- `component` is one byte, and `256 - component` is computed as an `int`.
unfoldable pub compute_priority : CandidateType → ℕ → ℕ → ℕ
compute_priority type local_pref component =
    bit_or (bit_or (type_pref type * 2 ^ 24) (local_pref * 2 ^ 8)) (256 - component)

-- All in 64 bits, which wrap.
unfoldable pub pair_priority : ℕ → ℕ → Bool → ℕ
pair_priority controlling_prio controlled_prio is_controlling =
    let g = if is_controlling then controlling_prio else controlled_prio in
    let d = if is_controlling then controlled_prio else controlling_prio in
    (min g d * 2 ^ 32 + 2 * max g d + (if ltb d g then 1 else 0)) % 2 ^ 64

-- For a component from 1 to 256 and a local preference of 16 bits the three fields are disjoint.
pub compute_priority-fields :
    (type : CandidateType) (local_pref component : ℕ)
    → local_pref < 2 ^ 16
    → 1 ≤ component
    → component ≤ 256
    → compute_priority type local_pref component
      ≡ type_pref type * 2 ^ 24 + local_pref * 2 ^ 8 + (256 - component)
unfolding compute_priority
compute_priority-fields type local_pref component hl lo hi =
    ap (λ t. bit_or t (256 - component)) outer
    ∙ (ap (λ t. bit_or t (256 - component)) shifted
        ∙ (bit_or-shift 8 (type_pref type * 2 ^ 16 + local_pref) (256 - component) (omega arith)
            ∙ omega arith))
  where
    outer :
        bit_or (type_pref type * 2 ^ 24) (local_pref * 2 ^ 8)
        ≡ type_pref type * 2 ^ 24 + local_pref * 2 ^ 8
    outer = bit_or-shift 24 (type_pref type) (local_pref * 2 ^ 8) (omega arith)

    shifted :
        type_pref type * 2 ^ 24 + local_pref * 2 ^ 8
        ≡ (type_pref type * 2 ^ 16 + local_pref) * 2 ^ 8
    shifted = omega arith

type_pref-le : (type : CandidateType) → type_pref type ≤ 126
unfolding type_pref
type_pref-le host = omega arith
type_pref-le srflx = omega arith
type_pref-le relay = omega arith
type_pref-le prflx = omega arith
type_pref-le host_mdns = omega arith
type_pref-le (other n) = omega arith

-- The type decides before a local preference of 16 bits and a component from 1 to 256, and the larger priority
-- is below 2 ^ 31.
pub compute_priority-lt_by_type :
    (t u : CandidateType) (p q c d : ℕ)
    → p < 2 ^ 16
    → q < 2 ^ 16
    → 1 ≤ c
    → c ≤ 256
    → 1 ≤ d
    → d ≤ 256
    → type_pref t < type_pref u
    → (compute_priority t p c < compute_priority u q d) × (compute_priority u q d < 2 ^ 31)
compute_priority-lt_by_type t u p q c d hp hq c1 c2 d1 d2 h = omega (
  arith,
  compute_priority-fields t p c hp c1 c2,
  compute_priority-fields u q d hq d1 d2,
  type_pref-le u,
)

-- The two agents, with opposite roles and each with its own candidate first, agree on a pair's
-- priority.
pub pair_priority-agrees :
    (mine theirs : ℕ) (controlling : Bool)
    → pair_priority mine theirs controlling ≡ pair_priority theirs mine (not controlling)
unfolding pair_priority
pair_priority-agrees mine theirs true = refl
pair_priority-agrees mine theirs false = refl

-- Below 2 ^ 31, where `compute_priority` stays, nothing wraps, and pairs are ordered by the smaller
-- priority first and by the larger one second, in either role.
pub pair_priority-lt :
    (a b c d : ℕ) (role : Bool)
    → a < 2 ^ 31
    → b < 2 ^ 31
    → c < 2 ^ 31
    → d < 2 ^ 31
    → (min a b < min c d) ⊎ ((min a b ≡ min c d) × (max a b < max c d))
    → pair_priority a b role < pair_priority c d role
unfolding pair_priority
pair_priority-lt a b c d true ha hb hc hd h = ground arith
pair_priority-lt a b c d false ha hb hc hd h = ground arith

-- One step of FNV-1a, in 64 bits.
unfoldable pub mix : ℕ → ℕ → ℕ
mix h b = bit_xor h b * 0x100000001b3 % 2 ^ 64

unfoldable pub mix_all : ℕ → Bytes → ℕ
mix_all h [] = h
mix_all h (b ∷ bs) = mix_all (mix h b) bs

-- The hash that `compute_foundation` prints.
unfoldable pub foundation_hash : CandidateType → Bytes → Bytes → TransportType → ℕ
foundation_hash type base_address server_address transport =
    mix
      (mix
        (mix_all
          (mix (mix_all (mix (mix 0xcbf29ce484222325 (type_code type)) 0xFF) base_address) 0xFF)
          server_address)
        0xFF)
      (transport_code transport)

-- `std::to_string` of the hash: a 64-bit number has at most twenty digits.
unfoldable pub compute_foundation : CandidateType → Bytes → Bytes → TransportType → Bytes
compute_foundation type base_address server_address transport =
    decimal 20 (foundation_hash type base_address server_address transport)
