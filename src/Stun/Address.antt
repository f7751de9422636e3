-- ===== src/Stun/Address.antt =====
-- The XOR-MAPPED-ADDRESS family of stun.cpp: `encode_xor_addr` and `decode_xor_addr`. The C library's
-- `inet_pton` and `inet_ntop` are a parameter; a 32-bit address is in host order, an IPv6 address is
-- its sixteen bytes.
use link_ice.Prelude.{
  ℕ, suc, ◌+◌, ◌*◌, ◌/◌, ◌%◌, ◌^◌, ◌≤◌, ◌<◌, ◌≡◌, refl, ap, ◌∙◌, arith, [], ◌∷◌, ◌++◌, Bytes,
  Option, none, some, ◌&&◌, if◌then◌else◌, ltb, leb, ◌==◌, length, drop, Outcome, value, ◌>>=◌,
  read8, read16, read32, read_bytes, bit_xor, bit_xor-cancel, bit_xor-lt, length-append, subst,
  Option-cases, inl, inr,
}
use link_ice.Stun.Constants.{magic_cookie}
use link_ice.Stun.Endian.{write16, write32, read32-write32, length-write32, read_bytes-append}

-- stun.hpp: a parsed address.
pub record MappedAddress : Type 0 where
  pub ip : Bytes
  pub port : ℕ

-- `inet_pton` and `inet_ntop`.
pub record Inet : Type 0 where
  pub pton4 : Bytes → Option ℕ
  pub ntop4 : ℕ → Bytes
  pub pton6 : Bytes → Option Bytes
  pub ntop6 : Bytes → Bytes

-- What POSIX says of them: a parsed IPv4 address has 32 bits, a parsed IPv6 address has sixteen bytes.
pub record InetLaws (inet : Inet) : Type 0 where
  pub pton4-lt : (ip : Bytes) (a : ℕ) → inet.pton4 ip ≡ some a → a < 2 ^ 32
  pub pton6-length : (ip a : Bytes) → inet.pton6 ip ≡ some a → length a ≡ 16

unfoldable pub xor_bytes : Bytes → Bytes → Bytes
xor_bytes [] ks = []
xor_bytes (a ∷ bs) [] = []
xor_bytes (a ∷ bs) (k ∷ ks) = bit_xor a k ∷ xor_bytes bs ks

-- `xor_key`: the cookie, then the transaction id.
unfoldable pub xor_key : Bytes → Bytes
xor_key txn = write32 magic_cookie ++ txn

-- `port ^ static_cast<uint16_t>(STUN_MAGIC_COOKIE >> 16)`
unfoldable pub xor_port : ℕ → ℕ
xor_port port = bit_xor port (magic_cookie / 2 ^ 16 % 2 ^ 16)

module _ (inet : Inet) where
  open inet use {pton4, ntop4, pton6, ntop6}

  unfoldable pub encode_xor_addr : Bytes → ℕ → Bytes → Bytes
  encode_xor_addr ip port txn = elim (pton4 ip) [
    | some a ↦ 0 ∷ 0x01 ∷ write16 (xor_port port) ++ write32 (bit_xor a magic_cookie)
    | none ↦ elim (pton6 ip) [
      | some a ↦ 0 ∷ 0x02 ∷ write16 (xor_port port) ++ xor_bytes a (xor_key txn)
      | none ↦ 0 ∷ []
    ]
  ]

  unfoldable pub decode_xor_addr : Bytes → ℕ → Bytes → Outcome (Option MappedAddress)
  decode_xor_addr p len txn = if ltb len 4 then value none else (do
    family ← read8 (drop 1 p)
    xport ← read16 (drop 2 p)
    let port = xor_port xport
    if family == 0x01 && leb 8 len
        then (do
          xaddr ← read32 (drop 4 p)
          value (some (record { ip = ntop4 (bit_xor xaddr magic_cookie); port = port })))
        else if family == 0x02 && leb 20 len
        then (do
          xaddr ← read_bytes 16 (drop 4 p)
          value (some (record { ip = ntop6 (xor_bytes xaddr (xor_key txn)); port = port })))
        else value none)

length-xor_bytes : (xs ks : Bytes) → length xs ≤ length ks → length (xor_bytes xs ks) ≡ length xs
unfolding xor_bytes
length-xor_bytes [] ks h = refl
length-xor_bytes (x ∷ xs) [] h = absurd (omega arith)
length-xor_bytes (x ∷ xs) (k ∷ ks) h = ap suc (length-xor_bytes xs ks (omega arith))

xor_bytes-cancel : (xs ks : Bytes) → length xs ≤ length ks → xor_bytes (xor_bytes xs ks) ks ≡ xs
unfolding xor_bytes
xor_bytes-cancel [] ks h = refl
xor_bytes-cancel (x ∷ xs) [] h = absurd (omega arith)
xor_bytes-cancel (x ∷ xs) (k ∷ ks) h =
    rw (bit_xor-cancel x k) (ap (◌∷◌ x) (xor_bytes-cancel xs ks (omega arith)))

length-xor_key : (txn : Bytes) → length (xor_key txn) ≡ 4 + length txn
unfolding xor_key
length-xor_key txn = length-append (write32 magic_cookie) txn ∙ rw (length-write32 magic_cookie)

xor_port-lt : (port : ℕ) → port < 2 ^ 16 → xor_port port < 2 ^ 16
unfolding xor_port
xor_port-lt port h = bit_xor-lt 16 port _ h (omega arith)

xor_port_twice : (port : ℕ) → xor_port (xor_port port) ≡ port
unfolding xor_port
xor_port_twice port = bit_xor-cancel port _

module _ (inet : Inet) where
  -- The address that a text stands for, printed the library's way.
  unfoldable pub canonical : Bytes → Option Bytes
  canonical ip = elim (inet.pton4 ip) [
    | some a ↦ some (inet.ntop4 a)
    | none ↦ elim (inet.pton6 ip) [ some a ↦ some (inet.ntop6 a) | none ↦ none ]
  ]

  abbrev pub with_port : ℕ → Option Bytes → Option MappedAddress
  with_port port none = none
  with_port port (some ip) = some (record { ip = ip; port = port })

  decode_ipv4 :
      (a port : ℕ) (txn rest : Bytes)
      → a < 2 ^ 32
      → port < 2 ^ 16
      → decode_xor_addr inet
          (0 ∷ 1 ∷ write16 (xor_port port) ++ (write32 (bit_xor a magic_cookie) ++ rest))
          8
          txn
        ≡ value (some (record { ip = inet.ntop4 a; port = port }))
  unfolding decode_xor_addr read8 write16 read16
  decode_ipv4 a port txn rest h k =
      let wire : xor_port port < 2 ^ 16 = xor_port-lt port k in
      let low : (xor_port port) / 2 ^ 8 % 2 ^ 8 * 2 ^ 8 + (xor_port port) % 2 ^ 8 ≡ xor_port port =
        omega arith in
      rw (
        read32-write32 (bit_xor a magic_cookie) rest (bit_xor-lt 32 a _ h (omega arith)),
        low,
        bit_xor-cancel a magic_cookie,
        xor_port_twice port,
      )

  decode_ipv6 :
      (a : Bytes) (port n : ℕ) (txn rest : Bytes)
      → n ≡ 20
      → length a ≡ 16
      → length txn ≡ 12
      → port < 2 ^ 16
      → decode_xor_addr inet
          (0 ∷ 2 ∷ write16 (xor_port port) ++ (xor_bytes a (xor_key txn) ++ rest))
          n
          txn
        ≡ value (some (record { ip = inet.ntop6 a; port = port }))
  unfolding decode_xor_addr read8 write16 read16
  decode_ipv6 a port n txn rest en la lt k =
      let wire : xor_port port < 2 ^ 16 = xor_port-lt port k in
      let low : (xor_port port) / 2 ^ 8 % 2 ^ 8 * 2 ^ 8 + (xor_port port) % 2 ^ 8 ≡ xor_port port =
        omega arith in
      rw (en, xor_read, low, xor_bytes-cancel a (xor_key txn) room, xor_port_twice port)
    where
      room : length a ≤ length (xor_key txn)
      room = omega (arith, length-xor_key txn)

      xor_read :
          read_bytes 16 (xor_bytes a (xor_key txn) ++ rest) ≡ value (xor_bytes a (xor_key txn))
      xor_read =
          subst
            (λ n.
              read_bytes n (xor_bytes a (xor_key txn) ++ rest) ≡ value (xor_bytes a (xor_key txn)))
            (length-xor_bytes a (xor_key txn) room ∙ la) (read_bytes-append _ rest)

  -- Decoding what `encode_xor_addr` wrote, with any bytes behind it, gives the port and the address
  -- in the library's own spelling; a text that is no address gives none. The transaction id has twelve bytes,
  -- the port 16 bits, and the library's parsers give addresses of 32 bits and of sixteen bytes.
  pub decode-encode_xor_addr :
      InetLaws inet
      → (ip : Bytes) (port : ℕ) (txn rest : Bytes) → length txn ≡ 12
      → port < 2 ^ 16
      → decode_xor_addr inet
          (encode_xor_addr inet ip port txn ++ rest)
          (length (encode_xor_addr inet ip port txn))
          txn
        ≡ value (with_port port (canonical ip))
  unfolding encode_xor_addr canonical write16 write32
  decode-encode_xor_addr laws ip port txn rest lt k = elim (Option-cases (inet.pton4 ip)) [
    | inl no4 ↦ elim (Option-cases (inet.pton6 ip)) [
      | inl no6 ↦ rw (no4, no6, encode_xor_addr, canonical) (unfold decode_xor_addr in refl)
      | inr (a, e) ↦
          rw (no4, e, encode_xor_addr, canonical)
            (decode_ipv6 a port _ txn rest (sized a (laws.pton6-length ip a e))
              (laws.pton6-length ip a e) lt k)
    ]
    | inr (a, e) ↦
        rw (e, encode_xor_addr, canonical) (decode_ipv4 a port txn rest (laws.pton4-lt ip a e) k)
  ]
    where
      sized :
          (a : Bytes)
          → length a ≡ 16
          → length (◌++◌ {A = ℕ} (0 ∷ 2 ∷ write16 (xor_port port)) (xor_bytes a (xor_key txn))) ≡ 20
      sized a la = omega (
        arith,
        length-xor_key txn,
        length-xor_bytes a (xor_key txn) (omega (arith, length-xor_key txn)),
      )
