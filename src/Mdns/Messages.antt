-- ===== src/Mdns/Messages.antt =====
-- The DNS messages of mdns.cpp: queries, responses and the parser. `sscanf` of four octets is a
-- parameter, and so are `inet_pton` and `inet_ntop`.
use link_ice.Prelude.{
  ℕ, zero, suc, ◌+◌, ◌/◌, ◌%◌, ◌^◌, List, [], ◌∷◌, ◌++◌, Bytes, Bool, true, false, ◌&&◌, Option,
  none, some, if◌then◌else◌, ltb, ◌==◌, length, drop, Outcome, value, ◌>>=◌, read16, read32,
  read_bytes, decimal,
}
use link_ice.Stun.Endian.{write16, write32}
use link_ice.Stun.Address.{Inet}
use link_ice.Mdns.Names.{encode_name, decode_name, dot}

abbrev pub dns_type_a : ℕ
dns_type_a = 1

abbrev pub dns_type_aaaa : ℕ
dns_type_aaaa = 28

abbrev pub dns_class_in : ℕ
dns_class_in = 1

abbrev pub dns_ttl_seconds : ℕ
dns_ttl_seconds = 120

pub record Answer : Type 0 where
  pub name : Bytes
  pub ipv4 : Bytes
  pub ipv6 : Bytes

pub record DnsParsedMessage : Type 0 where
  pub is_response : Bool
  pub txn_id : ℕ
  pub question : Bytes
  pub qtype : ℕ
  pub answers : List Answer

-- The header: the transaction, the flags and the counts of questions and answers.
unfoldable pub dns_header : ℕ → ℕ → ℕ → ℕ → Bytes
dns_header txn_id flags qdcount ancount =
    write16 txn_id
    ++ (write16 flags ++ (write16 qdcount ++ (write16 ancount ++ (write16 0 ++ write16 0))))

unfoldable pub encode_dns_query : Bytes → ℕ → Bool → Bytes
encode_dns_query hostname txn_id want_aaaa =
    let (name, ok) = encode_name hostname in
    if ok
    then dns_header txn_id 0 1 0
      ++ (name
          ++ (write16 (if want_aaaa then dns_type_aaaa else dns_type_a) ++ write16 dns_class_in))
    else []

-- `emit_answer`: what it appends, the incomplete name included where the name is refused.
unfoldable pub emit_answer : Bytes → ℕ → Bytes → Bytes
emit_answer hostname qtype rdata =
    let (name, ok) = encode_name hostname in
    if ok
    then name
      ++ (write16 qtype
          ++ (write16 0x8001 ++ (write32 dns_ttl_seconds ++ (write16 (length rdata) ++ rdata))))
    else name

-- The loop over the addresses of one family: a text that `scan` does not read is skipped.
unfoldable pub emit_answers : (Bytes → Option Bytes) → Bytes → ℕ → List Bytes → Bytes
emit_answers scan hostname qtype [] = []
emit_answers scan hostname qtype (ip ∷ ips) =
    elim (scan ip) [ none ↦ [] | some rdata ↦ emit_answer hostname qtype rdata ]
    ++ emit_answers scan hostname qtype ips

unfoldable pub encode_dns_response :
    (Bytes → Option Bytes) → Inet → Bytes → ℕ → List Bytes → List Bytes → Bytes
encode_dns_response scan4 inet hostname txn_id ipv4 ipv6 =
    dns_header txn_id 0x8400 0 ((length ipv4 + length ipv6) % 2 ^ 16)
    ++ (emit_answers scan4 hostname dns_type_a ipv4
        ++ emit_answers inet.pton6 hostname dns_type_aaaa ipv6)

-- `"%u.%u.%u.%u"` of four octets.
unfoldable pub print4 : Bytes → Bytes
print4 (a ∷ b ∷ c ∷ d ∷ _) =
    decimal 3 a ++ (dot ∷ decimal 3 b) ++ (dot ∷ decimal 3 c) ++ (dot ∷ decimal 3 d)
print4 _ = []

-- The loop over the questions: the offset behind them, and the first one with its type.
unfoldable pub parse_questions : Bytes → ℕ → Bool → ℕ → Bytes × ℕ → Outcome (Option (ℕ × Bytes × ℕ))
parse_questions bytes zero first off q = value (some (off, q.0, q.1))
parse_questions bytes (suc n) first off q = decode_name bytes off >>= elim [
  | none ↦ value none
  | some (name, next) ↦ if ltb (length bytes) (next + 4) then value none else (do
    qtype ← read16 (drop next bytes)
    parse_questions bytes n false (next + 4) (if first then (name, qtype) else q))
]

-- What an answer record adds: the two types of address, or nothing.
unfoldable pub answer_of : Inet → Bytes → ℕ → ℕ → Bytes → Option Answer
answer_of inet name rtype rclass rdata =
    if rclass == dns_class_in && (rtype == dns_type_a && length rdata == 4)
    then some (record { name = name; ipv4 = print4 rdata; ipv6 = [] })
    else if rclass == dns_class_in && (rtype == dns_type_aaaa && length rdata == 16)
    then some (record { name = name; ipv4 = []; ipv6 = inet.ntop6 rdata })
    else none

abbrev pub add_answer : Option Answer → Option (List Answer) → Option (List Answer)
add_answer none answers = answers
add_answer (some a) none = none
add_answer (some a) (some answers) = some (a ∷ answers)

unfoldable pub parse_answers : Inet → Bytes → ℕ → ℕ → Outcome (Option (List Answer))
parse_answers inet bytes zero off = value (some [])
parse_answers inet bytes (suc n) off = decode_name bytes off >>= elim [
  | none ↦ value none
  | some (name, next) ↦ if ltb (length bytes) (next + 10) then value none else (do
    rtype ← read16 (drop next bytes)
    rclass ← read16 (drop (next + 2) bytes)
    ttl ← read32 (drop (next + 4) bytes)
    rdlen ← read16 (drop (next + 8) bytes)
    if ltb (length bytes) (next + 10 + rdlen) then value none else (do
      rdata ← read_bytes rdlen (drop (next + 10) bytes)
      rest ← parse_answers inet bytes n (next + 10 + rdlen)
      value (add_answer (answer_of inet name rtype (rclass % 2 ^ 15) rdata) rest)))
]

unfoldable pub parse_dns_message : Inet → Bytes → Outcome (Option DnsParsedMessage)
parse_dns_message inet bytes = if ltb (length bytes) 12 then value none else (do
  txn_id ← read16 bytes
  flags ← read16 (drop 2 bytes)
  qdcount ← read16 (drop 4 bytes)
  ancount ← read16 (drop 6 bytes)
  questions ← parse_questions bytes qdcount true 12 ([], 0)
  elim questions [
    | none ↦ value none
    | some (off, question, qtype) ↦ do
      answers ← parse_answers inet bytes ancount off
      value (elim answers [
        | none ↦ none
        | some records ↦ some (record {
          is_response = flags / 2 ^ 15 % 2 == 1;
          txn_id = txn_id;
          question = question;
          qtype = qtype;
          answers = records;
        })
      ])
  ])
