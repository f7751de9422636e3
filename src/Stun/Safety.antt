-- ===== src/Stun/Safety.antt =====
-- Memory safety and termination of the parser.
use link_ice.Prelude.{
  ℕ, zero, suc, ◌+◌, ◌-◌, ◌≤◌, ◌<◌, arith, [], ◌∷◌, Bytes, Option, none, some, ltb, leb, ◌==◌, ◌&&◌,
  length, drop, length-drop, Outcome, value, ◌>>=◌, Returns, if-Returns, >>=-Returns, read8, read16,
  read32, read_bytes, leb→le, not,
}
use link_ice.Stun.Constants.{magic_cookie}
use link_ice.Stun.Endian.{read16-value, read32-value, read_bytes-value}
use link_ice.Stun.Address.{Inet, decode_xor_addr}
use link_ice.Stun.Parser.{
  StunMessage, new_message, align_loop, read64, read_error_code, handle_attr, parse_round,
  parse_loop, parse_stun,
}

abbrev pub Done {ℓ} : {A : Type ℓ} → A → Type 0
Done a = Unit {0}

pub read8-Done : (p : Bytes) → 1 ≤ length p → Returns (read8 p) Done
unfolding read8
read8-Done [] h = absurd (omega arith)
read8-Done (a ∷ p) h = tt

pub read16-Done : (p : Bytes) → 2 ≤ length p → Returns (read16 p) Done
read16-Done p h = rw ((read16-value p h).1) tt

pub read32-Done : (p : Bytes) → 4 ≤ length p → Returns (read32 p) Done
read32-Done p h = rw ((read32-value p h).1) tt

pub read_bytes-Done : (n : ℕ) (p : Bytes) → n ≤ length p → Returns (read_bytes n p) Done
read_bytes-Done n p h = rw (read_bytes-value n p h) tt

pub left_after : (k n : ℕ) (p : Bytes) → n + k ≤ length p → n ≤ length (drop k p)
left_after k n p h = omega (arith, length-drop k p)

read64-Done : (p : Bytes) → 8 ≤ length p → Returns (read64 p) Done
unfolding read64
read64-Done p h = >>=-Returns Done Done _ _ (read32-Done p (omega arith)) λ hi _.
    >>=-Returns Done Done _ _ (read32-Done (drop 4 p) (left_after 4 4 p (omega arith))) λ lo _. tt

read_error_code-Done : (p : Bytes) → 4 ≤ length p → Returns (read_error_code p) Done
unfolding read_error_code
read_error_code-Done p h =
    >>=-Returns Done Done _ _ (read8-Done (drop 2 p) (left_after 2 1 p (omega arith))) λ c _.
      >>=-Returns Done Done _ _ (read8-Done (drop 3 p) (left_after 3 1 p (omega arith))) λ n _. tt

decode-Done :
    (inet : Inet) (p : Bytes) (len : ℕ) (txn : Bytes)
    → len ≤ length p
    → Returns (decode_xor_addr inet p len txn) Done
unfolding decode_xor_addr
decode-Done inet p len txn h =
    if-Returns Done (ltb len 4) _ _ (λ _. tt)
      λ long.
        >>=-Returns Done Done _ _ (read8-Done (drop 1 p) (left_after 1 1 p (ground arith)))
          λ family _.
            >>=-Returns Done Done _ _ (read16-Done (drop 2 p) (left_after 2 2 p (ground arith)))
              λ xport _.
                if-Returns Done (family == 1 && leb 8 len) _ _
                  (λ t.
                    >>=-Returns Done Done _ _
                      (read32-Done (drop 4 p) (left_after 4 4 p (ground arith))) λ x _. tt)
                  λ _.
                    if-Returns Done (family == 2 && leb 20 len) _ _
                      (λ t.
                        >>=-Returns Done Done _ _
                          (read_bytes-Done 16 (drop 4 p) (left_after 4 16 p (ground arith)))
                          λ x _. tt)
                      λ _. tt

pub then_put-Done {ℓ κ} :
    {A : Type ℓ} {B : Type κ} (m : Outcome A) (put : A → B)
    → Returns m Done
    → Returns (m >>= λ a. value (put a)) Done
then_put-Done m put h = >>=-Returns Done Done m _ h (λ a _. tt)

module _ (inet : Inet) (p : Bytes) (len : ℕ) (msg : StunMessage) (fits : len ≤ length p) where
  -- Every case of the switch stays inside the attribute's value.
  handle_attr-Done : (type : ℕ) → Returns (handle_attr inet p len type msg) Done
  unfolding handle_attr
  handle_attr-Done type = ground (
    arith,
    decode-Done inet p len msg.txn_id,
    read32-Done p,
    read64-Done p,
    read_error_code-Done p,
    read_bytes-Done len p,
  )

pub le-align_loop : (fuel offset : ℕ) → offset ≤ align_loop fuel offset
unfolding align_loop
le-align_loop zero offset = omega arith
le-align_loop (suc fuel) offset = ground (arith, le-align_loop fuel (offset + 1))

-- A round that goes on had room for a header, and moves on by four bytes at least.
abbrev Advances : ℕ → ℕ → Option (ℕ × StunMessage) → Type 0
Advances limit offset none = Unit {0}
Advances limit offset (some (next, msg)) = (offset + 4 ≤ limit) × (offset + 4 ≤ next)

parse_round-Advances :
    (inet : Inet) (packet : Bytes) (limit offset : ℕ) (msg : StunMessage)
    → limit ≤ length packet
    → Returns (parse_round inet packet limit offset msg) (Advances limit offset)
unfolding parse_round
parse_round-Advances inet packet limit offset msg h =
    if-Returns (Advances limit offset) (leb (offset + 4) limit) _ _
      (λ room.
        let r : offset + 4 ≤ limit = leb→le _ _ room in
        >>=-Returns Done _ _ _ (read16-Done _ (left_after offset 2 packet (omega arith))) λ type _.
          >>=-Returns Done _ _ _ (read16-Done _ (left_after (offset + 2) 2 packet (omega arith)))
            λ len _.
              if-Returns (Advances limit offset) (ltb (length packet) (offset + 4 + len)) _ _
                (λ _. tt)
                λ inside.
                  >>=-Returns Done _ _ _
                    (handle_attr-Done inet (drop (offset + 4) packet) len msg
                      (left_after (offset + 4) len packet (ground arith)) type)
                    λ m _. (r, omega (arith, le-align_loop 3 (offset + 4 + len))))
      (λ _. tt)

pub parse_loop-Done :
    (inet : Inet) (packet : Bytes) (limit fuel offset : ℕ) (msg : StunMessage)
    → limit ≤ length packet
    → limit - offset < fuel
    → Returns (parse_loop inet packet limit fuel offset msg) Done
unfolding parse_loop
parse_loop-Done inet packet limit zero offset msg h enough = absurd (omega arith)
parse_loop-Done inet packet limit (suc fuel) offset msg h enough =
    >>=-Returns (Advances limit offset) Done _ _
      (parse_round-Advances inet packet limit offset msg h)
      (elim [
        | none ↦ λ _. tt
        | some (next, m) ↦ λ adv. parse_loop-Done inet packet limit fuel next m h (omega arith)
      ])

-- On every packet, whatever its bytes, the parser reads only inside the packet, its loop ends within
-- the fuel, and it returns a message or a rejection.
pub parse_stun-returns : (inet : Inet) (packet : Bytes) → Returns (parse_stun inet packet) Done
unfolding parse_stun
parse_stun-returns inet packet =
    if-Returns Done (ltb (length packet) 20) _ _ (λ _. tt)
      λ long. >>=-Returns Done Done _ _ (read16-Done packet (ground arith)) λ type _.
        >>=-Returns Done Done _ _
          (read16-Done (drop 2 packet) (left_after 2 2 packet (ground arith)))
          λ len _.
            >>=-Returns Done Done _ _
              (read32-Done (drop 4 packet) (left_after 4 4 packet (ground arith)))
              λ cookie _.
                if-Returns Done (not (cookie == magic_cookie)) _ _ (λ _. tt)
                  λ _.
                    if-Returns Done (ltb (length packet) (20 + len)) _ _ (λ _. tt)
                      λ fits.
                        >>=-Returns Done Done _ _
                          (read_bytes-Done 12 (drop 8 packet)
                            (left_after 8 12 packet (ground arith)))
                          λ txn _. then_put-Done _ some (
                            parse_loop-Done inet packet (20 + len) (20 + len) 20
                              (new_message type txn) (ground arith) (omega arith))
