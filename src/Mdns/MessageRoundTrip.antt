-- ===== src/Mdns/MessageRoundTrip.antt =====
-- `parse_dns_message` against `encode_dns_query` and `encode_dns_response`.
use link_ice.Prelude.{
  ℕ, suc, ◌+◌, ◌-◌, ◌%◌, ◌^◌, ◌≤◌, ◌<◌, ◌≡◌, refl, sym, ap, ◌∙◌, arith, List, [], ◌∷◌, ◌++◌,
  append_assoc, append-nil, Bytes, Bool, true, false, Option, none, some, if◌then◌else◌, ◌==◌,
  length, drop, length-append, drop-append, drop_behind, Outcome, value, ◌>>=◌, >>=-value_then,
  le→ltb_false, Bool-cases, inl, inr,
}
use link_ice.Stun.Endian.{write16, length-write16, read16-write16}
use link_ice.Stun.Address.{Inet, InetLaws}
use link_ice.Mdns.Names.{encode_name, decode_name}
use link_ice.Mdns.NameRoundTrip.{canonical_name, decode-encode_name}
use link_ice.Mdns.Messages.{
  Answer, DnsParsedMessage, dns_header, encode_dns_query, emit_answers, encode_dns_response, print4,
  parse_questions, answer_of, parse_answers, parse_dns_message,
}
use link_ice.Mdns.Records.{
  length-dns_header, parse_body, parse-dns_header, answers_of, scanned, prepend, parse_answers_end,
  parse_answers-emit,
}

-- The one question of a query.
parse_questions-one :
    (header name : Bytes) (hostname : Bytes) (qtype class : ℕ)
    → length header ≡ 12
    → (encode_name hostname).1 ≡ true
    → qtype < 2 ^ 16
    → parse_questions
        (header ++ ((encode_name hostname).0 ++ (write16 qtype ++ write16 class)))
        1
        true
        12
        ([], 0)
      ≡ value (some (12 + length (encode_name hostname).0 + 4, canonical_name hostname, qtype))
unfolding parse_questions
parse_questions-one header name hostname qtype class l ok hq =
    let w = (encode_name hostname).0 in
    let tail = write16 qtype ++ write16 class in
    let bytes = header ++ (w ++ tail) in
    let named : decode_name bytes 12 ≡ value (some (canonical_name hostname, 12 + length w)) =
      ap (decode_name bytes) (sym l)
      ∙ decode-encode_name hostname header tail ok
      ∙ ap (λ (n : ℕ). value (some (canonical_name hostname, n + length w))) l in
    let size : length bytes ≡ 12 + length w + 4 = omega (
      arith,
      l,
      length-append header (w ++ tail),
      length-append w tail,
      length-append (write16 qtype) (write16 class),
      length-write16 qtype,
      length-write16 class,
    ) in
    let at : drop (12 + length w) bytes ≡ tail =
      drop_behind (12 + length w) 12 (length w) header (w ++ tail) l refl
      ∙ drop-append (length w) w tail refl in
    rw (
      parse_questions,
      named,
      le→ltb_false (length bytes) (12 + length w + 4) (omega (arith, size)),
      at,
      read16-write16 qtype (write16 class) hq,
    )

-- A query is parsed into its transaction, the name asked for in lower case, and the type of address.
-- The encoder accepts the name, and the transaction id has 16 bits.
pub parse-encode_dns_query :
    (inet : Inet) (hostname : Bytes) (txn : ℕ) (want_aaaa : Bool)
    → (encode_name hostname).1 ≡ true
    → txn < 2 ^ 16
    → parse_dns_message inet (encode_dns_query hostname txn want_aaaa)
      ≡ value (
          some (record {
            is_response = false;
            txn_id = txn;
            question = canonical_name hostname;
            qtype = if want_aaaa then 28 else 1;
            answers = [];
          }))
unfolding encode_dns_query parse_body parse_answers
parse-encode_dns_query inet hostname txn want ok ht =
    let qtype = if want then 28 else 1 in
    let hq : qtype < 2 ^ 16 = ground arith in
    let body = (encode_name hostname).0 ++ (write16 qtype ++ write16 1) in
    let header = dns_header txn 0 1 0 in
    rw (ok, parse-dns_header inet txn 0 1 0 body ht (omega arith) (omega arith) (omega arith))
      (rw (parse_questions-one header [] hostname qtype 1 (length-dns_header txn 0 1 0) ok hq) refl)

scanned-le : (scan : Bytes → Option Bytes) (ips : List Bytes) → scanned scan ips ≤ length ips
unfolding scanned
scanned-le scan [] = omega arith
scanned-le scan (ip ∷ ips) = ground (arith, scanned-le scan ips)

-- The records of a response.
module _ (scan4 : Bytes → Option Bytes)
    (scan4_length : (ip o : Bytes) → scan4 ip ≡ some o → length o ≡ 4) (inet : Inet)
    (laws : InetLaws inet) (hostname : Bytes) (ok : (encode_name hostname).1 ≡ true) where
  abbrev a_answer : Bytes → Answer
  a_answer o = record { name = canonical_name hostname; ipv4 = print4 o; ipv6 = [] }

  abbrev aaaa_answer : Bytes → Answer
  aaaa_answer o = record { name = canonical_name hostname; ipv4 = []; ipv6 = inet.ntop6 o }

  a_meant :
      (ip o : Bytes)
      → scan4 ip ≡ some o
      → answer_of inet (canonical_name hostname) 1 1 o ≡ some (a_answer o)
  unfolding answer_of
  a_meant ip o e = let four = scan4_length ip o e in ground arith

  aaaa_meant :
      (ip o : Bytes)
      → inet.pton6 ip ≡ some o
      → answer_of inet (canonical_name hostname) 28 1 o ≡ some (aaaa_answer o)
  unfolding answer_of
  aaaa_meant ip o e = let sixteen = laws.pton6-length ip o e in ground arith

  parse_answers-both :
      (ipv4 ipv6 : List Bytes) (n : ℕ) (front bytes : Bytes)
      → bytes
        ≡ front ++ (emit_answers scan4 hostname 1 ipv4 ++ emit_answers inet.pton6 hostname 28 ipv6)
      → parse_answers inet bytes (scanned scan4 ipv4 + (scanned inet.pton6 ipv6 + n)) (length front)
        ≡ (parse_answers inet bytes n (length bytes) >>= λ rest. value (
            prepend
              (answers_of scan4 a_answer ipv4)
              (prepend (answers_of inet.pton6 aaaa_answer ipv6) rest)))
  parse_answers-both ipv4 ipv6 n front bytes e =
      let v4 = emit_answers scan4 hostname 1 ipv4 in
      let v6 = emit_answers inet.pton6 hostname 28 ipv6 in
      let k = scanned inet.pton6 ipv6 + n in
      let four =
        parse_answers-emit inet hostname ok scan4 1 a_answer (omega arith)
          (λ ip o f. omega (arith, scan4_length ip o f)) a_meant ipv4 (scanned scan4 ipv4 + k) k
          front v6 bytes e refl in
      let behind : bytes ≡ (front ++ v4) ++ (v6 ++ []) =
        e
        ∙ sym (append_assoc front v4 v6)
        ∙ ap (λ (x : Bytes). (front ++ v4) ++ x) (sym (append-nil v6)) in
      let six =
        parse_answers-emit inet hostname ok inet.pton6 28 aaaa_answer (omega arith)
          (λ ip o f. omega (arith, laws.pton6-length ip o f)) aaaa_meant ipv6 k n (front ++ v4) []
          bytes behind refl in
      let all : length (front ++ v4) + length v6 ≡ length bytes = omega (
        arith,
        ap (λ (x : Bytes). length x) behind,
        length-append (front ++ v4) (v6 ++ []),
        length-append v6 [],
      ) in
      four
      ∙ ap
          (λ (o : ℕ). parse_answers inet bytes k o >>= λ r.
            value (prepend (answers_of scan4 a_answer ipv4) r))
          (sym (length-append front v4))
      ∙ ap
          (λ (x : Outcome (Option (List Answer))).
            x >>= λ r. value (prepend (answers_of scan4 a_answer ipv4) r))
          six
      ∙ >>=-value_then (parse_answers inet bytes n (length (front ++ v4) + length v6))
          (prepend (answers_of inet.pton6 aaaa_answer ipv6))
          (λ r. value (prepend (answers_of scan4 a_answer ipv4) r))
          (λ r. value (
            prepend (answers_of scan4 a_answer ipv4)
              (prepend (answers_of inet.pton6 aaaa_answer ipv6) r)))
          (λ r. refl)
      ∙ ap
          (λ (o : ℕ). parse_answers inet bytes n o >>= λ r. value (
            prepend (answers_of scan4 a_answer ipv4)
              (prepend (answers_of inet.pton6 aaaa_answer ipv6) r)))
          all

  answers_all :
      (ipv4 ipv6 : List Bytes) (total : ℕ) (front bytes : Bytes)
      → bytes
        ≡ front ++ (emit_answers scan4 hostname 1 ipv4 ++ emit_answers inet.pton6 hostname 28 ipv6)
      → scanned scan4 ipv4 + scanned inet.pton6 ipv6 ≡ total
      → parse_answers inet bytes total (length front)
        ≡ value (some (answers_of scan4 a_answer ipv4 ++ answers_of inet.pton6 aaaa_answer ipv6))
  unfolding parse_answers
  answers_all ipv4 ipv6 total front bytes e c =
      let count : total ≡ scanned scan4 ipv4 + (scanned inet.pton6 ipv6 + 0) = omega (arith, c) in
      ap (λ (n : ℕ). parse_answers inet bytes n (length front)) count
      ∙ parse_answers-both ipv4 ipv6 0 front bytes e
      ∙ ap (λ (x : List Answer). value (some (answers_of scan4 a_answer ipv4 ++ x)))
          (append-nil (answers_of inet.pton6 aaaa_answer ipv6))

  answers_missing :
      (ipv4 ipv6 : List Bytes) (total : ℕ) (front bytes : Bytes)
      → bytes
        ≡ front ++ (emit_answers scan4 hostname 1 ipv4 ++ emit_answers inet.pton6 hostname 28 ipv6)
      → scanned scan4 ipv4 + scanned inet.pton6 ipv6 < total
      → parse_answers inet bytes total (length front) ≡ value none
  answers_missing ipv4 ipv6 total front bytes e c =
      let m = total - (scanned scan4 ipv4 + scanned inet.pton6 ipv6) - 1 in
      let count : total ≡ scanned scan4 ipv4 + (scanned inet.pton6 ipv6 + suc m) =
        omega (arith, c) in
      ap (λ (n : ℕ). parse_answers inet bytes n (length front)) count
      ∙ parse_answers-both ipv4 ipv6 (suc m) front bytes e
      ∙ ap
          (λ (x : Outcome (Option (List Answer))). x >>= λ r. value (
            prepend (answers_of scan4 a_answer ipv4)
              (prepend (answers_of inet.pton6 aaaa_answer ipv6) r)))
          (parse_answers_end inet bytes m)

  -- The message that a response stands for.
  unfoldable pub response : ℕ → List Bytes → List Bytes → DnsParsedMessage
  response txn ipv4 ipv6 = record {
    is_response = true;
    txn_id = txn;
    question = [];
    qtype = 0;
    answers = answers_of scan4 a_answer ipv4 ++ answers_of inet.pton6 aaaa_answer ipv6;
  }

  -- A response is parsed into the name in lower case with every address, printed back, if all address texts
  -- are read. If one is not, the count in the header is too large and the peer rejects the whole response,
  -- the good addresses included. `sscanf` gives four octets, `inet_pton` sixteen bytes; the encoder accepts
  -- the name, the transaction id has 16 bits, and there are fewer than 65536 addresses.
  pub parse-encode_dns_response :
      (txn : ℕ) (ipv4 ipv6 : List Bytes)
      → txn < 2 ^ 16
      → length ipv4 + length ipv6 < 2 ^ 16
      → parse_dns_message inet (encode_dns_response scan4 inet hostname txn ipv4 ipv6)
        ≡ value (
            if scanned scan4 ipv4 + scanned inet.pton6 ipv6 == length ipv4 + length ipv6
            then some (response txn ipv4 ipv6)
            else none)
  unfolding encode_dns_response parse_body parse_questions response
  parse-encode_dns_response txn ipv4 ipv6 ht few =
      let total = length ipv4 + length ipv6 in
      let fits : total % 2 ^ 16 ≡ total = omega arith in
      let header = dns_header txn 0x8400 0 total in
      let body = emit_answers scan4 hostname 1 ipv4 ++ emit_answers inet.pton6 hostname 28 ipv6 in
      let bytes = header ++ body in
      let read = scanned scan4 ipv4 + scanned inet.pton6 ipv6 in
      let le4 = scanned-le scan4 ipv4 in
      let le6 = scanned-le inet.pton6 ipv6 in
      let start : 12 ≡ length header = sym (length-dns_header txn 0x8400 0 total) in
      rw
        (
          fits,
          parse-dns_header inet txn 0x8400 0 total body ht (omega arith) (omega arith) few,
          start,
        )
        (elim (Bool-cases (read == total)) [
          | inl all ↦ rw (all, answers_all ipv4 ipv6 total header bytes refl (ground arith)) refl
          | inr not_all ↦
              rw (not_all, answers_missing ipv4 ipv6 total header bytes refl (ground arith)) refl
        ])
