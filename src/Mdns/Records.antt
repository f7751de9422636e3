-- ===== src/Mdns/Records.antt =====
-- The parser's loop over the records that `encode_dns_response` writes.
use link_ice.Prelude.{
  ℕ, suc, ◌+◌, ◌/◌, ◌%◌, ◌^◌, ◌≤◌, ◌<◌, ◌≡◌, refl, sym, ap, ◌∙◌, arith, List, [], ◌∷◌, ◌++◌,
  append_assoc, Bytes, true, Option, none, some, Option-cases, ◌==◌, length, drop, length-append,
  drop_behind, Outcome, value, fault, spent, ◌>>=◌, read16, le→leb, le→ltb_false, inl, inr,
}
use link_ice.Stun.Endian.{write16, write32, read16-write16, read32-write32, read_bytes-append}
use link_ice.Stun.Address.{Inet}
use link_ice.Mdns.Names.{encode_name, decode_round, decode_loop, decode_name}
use link_ice.Mdns.NameRoundTrip.{canonical_name, decode-encode_name}
use link_ice.Mdns.Messages.{
  Answer, DnsParsedMessage, dns_header, emit_answer, emit_answers, parse_questions, answer_of,
  add_answer, parse_answers, parse_dns_message,
}

pub length-dns_header : (txn flags qd an : ℕ) → length (dns_header txn flags qd an) ≡ 12
unfolding dns_header write16
length-dns_header txn flags qd an = refl

-- The parser after the header.
unfoldable pub parse_body : Inet → Bytes → ℕ → ℕ → ℕ → ℕ → Outcome (Option DnsParsedMessage)
parse_body inet bytes txn flags qd an = parse_questions bytes qd true 12 ([], 0) >>= elim [
  | none ↦ value none
  | some (off, question, qtype) ↦ do
    answers ← parse_answers inet bytes an off
    value (elim answers [
      | none ↦ none
      | some records ↦ some (record {
        is_response = flags / 2 ^ 15 % 2 == 1;
        txn_id = txn;
        question = question;
        qtype = qtype;
        answers = records;
      })
    ])
]

pub parse-dns_header :
    (inet : Inet) (txn flags qd an : ℕ) (rest : Bytes)
    → txn < 2 ^ 16
    → flags < 2 ^ 16
    → qd < 2 ^ 16
    → an < 2 ^ 16
    → parse_dns_message inet (dns_header txn flags qd an ++ rest)
      ≡ parse_body inet (dns_header txn flags qd an ++ rest) txn flags qd an
unfolding parse_dns_message parse_body dns_header write16
parse-dns_header inet txn flags qd an rest ht hf hq ha =
    let packet = dns_header txn flags qd an ++ rest in
    let body = write16 0 ++ (write16 0 ++ rest) in
    let r0 : read16 packet ≡ value txn =
      read16-write16 txn (write16 flags ++ (write16 qd ++ (write16 an ++ body))) ht in
    let r2 : read16 (drop 2 packet) ≡ value flags =
      read16-write16 flags (write16 qd ++ (write16 an ++ body)) hf in
    let r4 : read16 (drop 4 packet) ≡ value qd = read16-write16 qd (write16 an ++ body) hq in
    let r6 : read16 (drop 6 packet) ≡ value an = read16-write16 an body ha in
    rw (le→ltb_false (length packet) 12 (omega arith), r0, r2, r4, r6)

-- The answers that a list of addresses asks for.
unfoldable pub answers_of : (Bytes → Option Bytes) → (Bytes → Answer) → List Bytes → List Answer
answers_of scan answer [] = []
answers_of scan answer (ip ∷ ips) =
    let rest = answers_of scan answer ips in
    elim (scan ip) [ none ↦ rest | some rdata ↦ answer rdata ∷ rest ]

-- How many of the addresses are read.
unfoldable pub scanned : (Bytes → Option Bytes) → List Bytes → ℕ
scanned scan [] = 0
scanned scan (ip ∷ ips) =
    let rest = scanned scan ips in elim (scan ip) [ none ↦ rest | some rdata ↦ suc rest ]

decode_name_end : (bytes : Bytes) → decode_name bytes (length bytes) ≡ value none
unfolding decode_name decode_loop decode_round
decode_name_end bytes = rw (decode_loop, le→leb (length bytes) (length bytes) (omega arith))

-- Behind the last record there is no name.
pub parse_answers_end :
    (inet : Inet) (bytes : Bytes) (n : ℕ)
    → parse_answers inet bytes (suc n) (length bytes) ≡ value none
unfolding parse_answers
parse_answers_end inet bytes n = rw (parse_answers, decode_name_end bytes)

abbrev pub prepend : List Answer → Option (List Answer) → Option (List Answer)
prepend records none = none
prepend records (some rest) = some (records ++ rest)

prepend-nil : (x : Outcome (Option (List Answer))) → (x >>= λ rest. value (prepend [] rest)) ≡ x
prepend-nil (value none) = refl
prepend-nil (value (some rest)) = refl
prepend-nil fault = refl
prepend-nil spent = refl

prepend-add :
    (a : Answer) (records : List Answer) (x : Outcome (Option (List Answer)))
    → ((x >>= λ rest. value (prepend records rest)) >>= λ rest. value (add_answer (some a) rest))
      ≡ (x >>= λ rest. value (prepend (a ∷ records) rest))
prepend-add a records (value none) = refl
prepend-add a records (value (some rest)) = refl
prepend-add a records fault = refl
prepend-add a records spent = refl

-- A record whose fields stand where the parser looks for them.
parse_answers-fields :
    (inet : Inet) (bytes : Bytes) (n off next qtype : ℕ)
    (name rdata tail tail2 tail3 tail4 back : Bytes)
    → decode_name bytes off ≡ value (some (name, next))
    → next + 10 + length rdata ≤ length bytes
    → qtype < 2 ^ 16
    → length rdata < 2 ^ 16
    → drop next bytes ≡ write16 qtype ++ tail
    → drop (next + 2) bytes ≡ write16 0x8001 ++ tail2
    → drop (next + 4) bytes ≡ write32 120 ++ tail3
    → drop (next + 8) bytes ≡ write16 (length rdata) ++ tail4
    → drop (next + 10) bytes ≡ rdata ++ back
    → parse_answers inet bytes (suc n) off ≡ (
        parse_answers inet bytes n (next + 10 + length rdata) >>= λ rest.
        value (add_answer (answer_of inet name qtype 1 rdata) rest))
unfolding parse_answers
parse_answers-fields inet bytes n off next qtype name rdata tail tail2 tail3 tail4 back named room
      hq hr at1 at2 at3 at4 at5 =
    rw (
      parse_answers,
      named,
      le→ltb_false (length bytes) (next + 10) (omega (arith, room)),
      at1,
      read16-write16 qtype tail hq,
      at2,
      read16-write16 0x8001 tail2 (omega arith),
      at3,
      read32-write32 120 tail3 (omega arith),
      at4,
      read16-write16 (length rdata) tail4 hr,
      le→ltb_false (length bytes) (next + 10 + length rdata) room,
      at5,
      read_bytes-append rdata back,
    )

-- The fields of a record behind its name.
fields : ℕ → Bytes → Bytes
fields qtype rdata =
    write16 qtype ++ (write16 0x8001 ++ (write32 120 ++ (write16 (length rdata) ++ rdata)))

length-fields : (qtype : ℕ) (rdata : Bytes) → length (fields qtype rdata) ≡ 10 + length rdata
unfolding fields write16 write32
length-fields qtype rdata = omega arith

drop-fields :
    (k qtype : ℕ) (rdata front w back : Bytes)
    → drop (length front + length w + k) (front ++ (w ++ (fields qtype rdata ++ back)))
      ≡ drop k (fields qtype rdata ++ back)
drop-fields k qtype rdata front w back =
    let tail = fields qtype rdata ++ back in
    drop_behind (length front + length w + k) (length front) (length w + k) front (w ++ tail) refl
      (omega arith)
    ∙ drop_behind (length w + k) (length w) k w tail refl refl

module _ (inet : Inet) (hostname : Bytes) (ok : (encode_name hostname).1 ≡ true) where
  emit_answer-ok :
      (qtype : ℕ) (rdata : Bytes)
      → emit_answer hostname qtype rdata ≡ (encode_name hostname).0 ++ fields qtype rdata
  unfolding emit_answer fields
  emit_answer-ok qtype rdata = rw (emit_answer, ok)

  -- One record.
  parse_answers-record :
      (qtype n : ℕ) (rdata front back bytes : Bytes)
      → qtype < 2 ^ 16
      → length rdata < 2 ^ 16
      → bytes ≡ front ++ (emit_answer hostname qtype rdata ++ back)
      → parse_answers inet bytes (suc n) (length front) ≡ (
          parse_answers inet bytes n (length front + length (emit_answer hostname qtype rdata))
          >>= λ rest.
              value (add_answer (answer_of inet (canonical_name hostname) qtype 1 rdata) rest))
  unfolding fields write16 write32
  parse_answers-record qtype n rdata front back bytes hq hr e =
      let w = (encode_name hostname).0 in
      let f = fields qtype rdata in
      let next = length front + length w in
      let tail4 = rdata ++ back in
      let tail3 = write16 (length rdata) ++ tail4 in
      let tail2 = write32 120 ++ tail3 in
      let tail1 = write16 0x8001 ++ tail2 in
      let whole : bytes ≡ front ++ (w ++ (f ++ back)) =
        e
        ∙ ap (λ (x : Bytes). front ++ (x ++ back)) (emit_answer-ok qtype rdata)
        ∙ ap (λ (x : Bytes). front ++ x) (append_assoc w f back) in
      let total : length front + length (emit_answer hostname qtype rdata)
          ≡ next + 10 + length rdata =
        omega (
          arith,
          ap (λ (x : Bytes). length x) (emit_answer-ok qtype rdata),
          length-append w f,
          length-fields qtype rdata,
        ) in
      let size : length bytes ≡ next + 10 + length rdata + length back = omega (
        arith,
        ap (λ (x : Bytes). length x) whole,
        length-append front (w ++ (f ++ back)),
        length-append w (f ++ back),
        length-append f back,
        length-fields qtype rdata,
      ) in
      let at : (k : ℕ) → drop (next + k) bytes ≡ drop k (f ++ back) =
        λ k. ap (drop (next + k)) whole ∙ drop-fields k qtype rdata front w back in
      let at0 : drop next bytes ≡ f ++ back =
        (let plus : next ≡ next + 0 = omega arith in ap (λ (k : ℕ). drop k bytes) plus) ∙ at 0 in
      let named = ap (λ (b : Bytes). decode_name b (length front)) whole in
      rw total (
        parse_answers-fields inet bytes n (length front) next qtype (canonical_name hostname) rdata
          tail1 tail2 tail3 tail4 back (named ∙ decode-encode_name hostname front (f ++ back) ok)
          (omega (arith, size)) hq hr at0 (at 2) (at 4) (at 8) (at 10))

  -- The records of one family, with the records behind them.
  module _ (scan : Bytes → Option Bytes) (qtype : ℕ) (answer : Bytes → Answer) (hq : qtype < 2 ^ 16)
      (short : (ip rdata : Bytes) → scan ip ≡ some rdata → length rdata < 2 ^ 16)
      (meant : (ip rdata : Bytes)
        → scan ip ≡ some rdata
        → answer_of inet (canonical_name hostname) qtype 1 rdata ≡ some (answer rdata)) where
    emit_answers-skip :
        (ip : Bytes) (ips : List Bytes)
        → scan ip ≡ none
        → (emit_answers scan hostname qtype (ip ∷ ips) ≡ emit_answers scan hostname qtype ips)
          × (answers_of scan answer (ip ∷ ips) ≡ answers_of scan answer ips)
          × (scanned scan (ip ∷ ips) ≡ scanned scan ips)
    unfolding emit_answers answers_of scanned
    emit_answers-skip ip ips e =
        (rw (emit_answers, e) refl, rw (answers_of, e) refl, rw (scanned, e) refl)

    emit_answers-read :
        (ip rdata : Bytes) (ips : List Bytes)
        → scan ip ≡ some rdata
        → (emit_answers scan hostname qtype (ip ∷ ips)
            ≡ emit_answer hostname qtype rdata ++ emit_answers scan hostname qtype ips)
          × (answers_of scan answer (ip ∷ ips) ≡ answer rdata ∷ answers_of scan answer ips)
          × (scanned scan (ip ∷ ips) ≡ suc (scanned scan ips))
    unfolding emit_answers answers_of scanned
    emit_answers-read ip rdata ips e =
        (rw (emit_answers, e) refl, rw (answers_of, e) refl, rw (scanned, e) refl)

    pub parse_answers-emit :
        (ips : List Bytes) (m n : ℕ) (front back bytes : Bytes)
        → bytes ≡ front ++ (emit_answers scan hostname qtype ips ++ back)
        → m ≡ scanned scan ips + n
        → parse_answers inet bytes m (length front) ≡ (
            parse_answers inet bytes n
              (length front + length (emit_answers scan hostname qtype ips))
            >>= λ rest. value (prepend (answers_of scan answer ips) rest))
    unfolding emit_answers answers_of scanned
    parse_answers-emit [] m n front back bytes e c =
        let same : m ≡ n = omega (arith, c) in
        let here : length front ≡ length front + 0 = omega arith in
        rw same (
          ap (parse_answers inet bytes n) here
          ∙ sym (prepend-nil (parse_answers inet bytes n (length front + 0))))
    parse_answers-emit (ip ∷ ips) m n front back bytes e c = elim (Option-cases (scan ip)) [
      | inl skip ↦
          let k = emit_answers-skip ip ips skip in
          rw (k.0, k.1)
            (parse_answers-emit ips m n front back bytes
              (e ∙ ap (λ (x : Bytes). front ++ (x ++ back)) k.0) (omega (arith, c, k.2)))
      | inr (rdata, found) ↦
          let k = emit_answers-read ip rdata ips found in
          let one = emit_answer hostname qtype rdata in
          let more = emit_answers scan hostname qtype ips in
          let m' = scanned scan ips + n in
          let front' = front ++ one in
          let count : m ≡ suc m' = omega (arith, c, k.2) in
          let split : bytes ≡ front ++ (one ++ (more ++ back)) =
            e
            ∙ ap (λ (x : Bytes). front ++ (x ++ back)) k.0
            ∙ ap (λ (x : Bytes). front ++ x) (append_assoc one more back) in
          let on : length front' ≡ length front + length one = length-append front one in
          let rest =
            parse_answers-emit ips m' n front' back bytes
              (split ∙ sym (append_assoc front one (more ++ back))) refl in
          let far : length front' + length more ≡ length front + length (one ++ more) =
            omega (arith, on, length-append one more) in
          rw (k.0, k.1, count)
            (parse_answers-record qtype m' rdata front (more ++ back) bytes hq
                (short ip rdata found) split
              ∙ ap
                  (λ (o : ℕ). parse_answers inet bytes m' o >>= λ r.
                    value (add_answer (answer_of inet (canonical_name hostname) qtype 1 rdata) r))
                  (sym on)
              ∙ ap
                  (λ (x : Outcome (Option (List Answer))). x >>= λ r.
                    value (add_answer (answer_of inet (canonical_name hostname) qtype 1 rdata) r))
                  rest
              ∙ ap
                  (λ (o : Option Answer).
                    (parse_answers inet bytes n (length front' + length more) >>= λ r.
                    value (prepend (answers_of scan answer ips) r))
                    >>= λ r. value (add_answer o r))
                  (meant ip rdata found)
              ∙ prepend-add (answer rdata) (answers_of scan answer ips)
                  (parse_answers inet bytes n (length front' + length more))
              ∙ ap
                  (λ (o : ℕ). parse_answers inet bytes n o >>= λ r.
                    value (prepend (answer rdata ∷ answers_of scan answer ips) r))
                  far)
    ]
