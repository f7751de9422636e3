-- ===== src/Mdns/MessageSafety.antt =====
-- `parse_dns_message` on every packet.
use link_ice.Prelude.{
  ℕ, zero, suc, ◌+◌, ◌≤◌, arith, [], Bytes, Bool, true, false, Option, none, some, ltb, length,
  drop, Returns, if-Returns, >>=-Returns,
}
use link_ice.Stun.Address.{Inet}
use link_ice.Stun.Safety.{Done, read16-Done, read32-Done, read_bytes-Done, left_after}
use link_ice.Mdns.NameSafety.{Decoded, decode_name-returns}
use link_ice.Mdns.Messages.{parse_questions, parse_answers, parse_dns_message}

-- The offset behind the questions stays inside the packet.
Inside : Bytes → Option (ℕ × Bytes × ℕ) → Type 0
Inside bytes none = Unit
Inside bytes (some (off, q, t)) = off ≤ length bytes

parse_questions-returns :
    (bytes : Bytes) (n : ℕ) (first : Bool) (off : ℕ) (q : Bytes × ℕ)
    → off ≤ length bytes
    → Returns (parse_questions bytes n first off q) (Inside bytes)
unfolding parse_questions Inside Decoded
parse_questions-returns bytes zero first off q h = h
parse_questions-returns bytes (suc n) first off q h =
    >>=-Returns (Decoded bytes off) (Inside bytes) _ _ (decode_name-returns bytes off) (elim [
      | none ↦ λ _. tt
      | some (name, next) ↦ λ _.
          if-Returns (Inside bytes) (ltb (length bytes) (next + 4)) _ _ (λ _. tt)
            λ room.
              >>=-Returns Done (Inside bytes) _ _
                (read16-Done (drop next bytes) (left_after next 2 bytes (ground arith)))
                λ qtype _. parse_questions-returns bytes n false (next + 4) _ (ground arith)
    ])

parse_answers-returns :
    (inet : Inet) (bytes : Bytes) (n off : ℕ) → Returns (parse_answers inet bytes n off) Done
unfolding parse_answers
parse_answers-returns inet bytes zero off = tt
parse_answers-returns inet bytes (suc n) off =
    >>=-Returns (Decoded bytes off) Done _ _ (decode_name-returns bytes off) (elim [
      | none ↦ λ _. tt
      | some (name, next) ↦ λ _.
          if-Returns Done (ltb (length bytes) (next + 10)) _ _ (λ _. tt)
            λ room.
              >>=-Returns Done Done _ _
                (read16-Done (drop next bytes) (left_after next 2 bytes (ground arith)))
                λ rtype _.
                  >>=-Returns Done Done _ _
                    (read16-Done (drop (next + 2) bytes)
                      (left_after (next + 2) 2 bytes (ground arith)))
                    λ rclass _.
                      >>=-Returns Done Done _ _
                        (read32-Done (drop (next + 4) bytes)
                          (left_after (next + 4) 4 bytes (ground arith)))
                        λ ttl _.
                          >>=-Returns Done Done _ _
                            (read16-Done (drop (next + 8) bytes)
                              (left_after (next + 8) 2 bytes (ground arith)))
                            λ rdlen _.
                              if-Returns Done (ltb (length bytes) (next + 10 + rdlen)) _ _ (λ _. tt)
                                λ fits.
                                  >>=-Returns Done Done _ _
                                    (read_bytes-Done rdlen (drop (next + 10) bytes)
                                      (left_after (next + 10) rdlen bytes (ground arith)))
                                    λ rdata _.
                                      >>=-Returns Done Done _ _
                                        (parse_answers-returns inet bytes n (next + 10 + rdlen))
                                        λ rest _. tt
    ])

-- On every packet, whatever its bytes and its counts, the DNS parser reads only inside the packet, ends, and
-- returns a message or a rejection.
pub parse_dns_message-returns :
    (inet : Inet) (bytes : Bytes) → Returns (parse_dns_message inet bytes) Done
unfolding parse_dns_message Inside
parse_dns_message-returns inet bytes =
    if-Returns Done (ltb (length bytes) 12) _ _ (λ _. tt)
      λ long. >>=-Returns Done Done _ _ (read16-Done bytes (ground arith)) λ txn _.
        >>=-Returns Done Done _ _ (read16-Done (drop 2 bytes) (left_after 2 2 bytes (ground arith)))
          λ flags _.
            >>=-Returns Done Done _ _
              (read16-Done (drop 4 bytes) (left_after 4 2 bytes (ground arith)))
              λ qd _.
                >>=-Returns Done Done _ _
                  (read16-Done (drop 6 bytes) (left_after 6 2 bytes (ground arith)))
                  λ an _.
                    >>=-Returns (Inside bytes) Done _ _
                      (parse_questions-returns bytes qd true 12 ([], 0) (ground arith))
                      (elim [
                        | none ↦ λ _. tt
                        | some (off, q, t) ↦ λ _.
                            >>=-Returns Done Done _ _ (parse_answers-returns inet bytes an off)
                              λ answers _. tt
                      ])
