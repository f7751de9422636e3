-- ===== src/Stun/Header.antt =====
-- The twenty bytes that every STUN message begins with.
use link_ice.Prelude.{
  ℕ, ◌+◌, ◌^◌, ◌≤◌, ◌<◌, ◌≡◌, arith, ◌++◌, Bytes, some, length, drop, length-append, drop_behind,
  drop-append, le→ltb_false, value, ◌>>=◌, read16, read32, read_bytes, append_assoc, subst,
}
use link_ice.Stun.Constants.{magic_cookie}
use link_ice.Stun.Endian.{
  write16, write32, length-write16, length-write32, read16-write16, read32-write32,
  read_bytes-append,
}
use link_ice.Stun.Address.{Inet}
use link_ice.Stun.Parser.{new_message, parse_loop, parse_stun}

-- A header that announces `len` bytes.
unfoldable pub header : ℕ → ℕ → Bytes → Bytes
header type len txn = write16 type ++ (write16 len ++ (write32 magic_cookie ++ txn))

module _ (type len : ℕ) (txn : Bytes) (lt : length txn ≡ 12) where
  pub length-header : length (header type len txn) ≡ 20
  unfolding header write16 write32
  length-header = omega arith

  module _ (body : Bytes) where
    pub type-header : type < 2 ^ 16 → read16 (header type len txn ++ body) ≡ value type
    unfolding header
    type-header h =
        rw append_assoc
          (read16-write16 type ((write16 len ++ (write32 magic_cookie ++ txn)) ++ body) h)

    pub len-header : len < 2 ^ 16 → read16 (drop 2 (header type len txn ++ body)) ≡ value len
    unfolding header
    len-header h = rw (
      append_assoc,
      drop-append 2 (write16 type) ((write16 len ++ (write32 magic_cookie ++ txn)) ++ body)
          (length-write16 type),
      append_assoc,
      read16-write16 len ((write32 magic_cookie ++ txn) ++ body) h,
    )

    pub cookie-header : read32 (drop 4 (header type len txn ++ body)) ≡ value magic_cookie
    unfolding header
    cookie-header = rw (
      append_assoc,
      drop_behind 4 2 2 (write16 type) ((write16 len ++ (write32 magic_cookie ++ txn)) ++ body)
          (length-write16 type) (omega arith),
      append_assoc,
      drop-append 2 (write16 len) ((write32 magic_cookie ++ txn) ++ body) (length-write16 len),
      append_assoc,
      read32-write32 magic_cookie (txn ++ body) (omega arith),
    )

    pub txn-header : read_bytes 12 (drop 8 (header type len txn ++ body)) ≡ value txn
    unfolding header
    txn-header =
        rw
          (
            append_assoc,
            drop_behind 8 2 6 (write16 type)
                ((write16 len ++ (write32 magic_cookie ++ txn)) ++ body) (length-write16 type)
                (omega arith),
            append_assoc,
            drop_behind 6 2 4 (write16 len) ((write32 magic_cookie ++ txn) ++ body)
                (length-write16 len) (omega arith),
            append_assoc,
            drop-append 4 (write32 magic_cookie) (txn ++ body) (length-write32 magic_cookie),
          )
          (subst (λ n. read_bytes n (txn ++ body) ≡ value txn) lt (read_bytes-append txn body))

    -- A packet with such a header and at least the announced bytes is parsed by the loop alone.
    pub parse_stun-header :
        (inet : Inet)
        → type < 2 ^ 16
        → len < 2 ^ 16
        → len ≤ length body
        → parse_stun inet (header type len txn ++ body) ≡ (
            parse_loop inet
              (header type len txn ++ body)
              (20 + len)
              (20 + len)
              20
              (new_message type txn)
            >>= λ m. value (some m))
    unfolding parse_stun
    parse_stun-header inet ht hl fits = rw (
      le→ltb_false (length (header type len txn ++ body)) 20 (omega (arith, long)),
      type-header ht,
      len-header hl,
      cookie-header,
      le→ltb_false (length (header type len txn ++ body)) (20 + len) (omega (arith, long)),
      txn-header,
    )
      where
        long : length (header type len txn ++ body) ≡ 20 + length body
        long = omega (arith, length-append (header type len txn) body, length-header)
