-- ===== src/Candidate/Wire.antt =====
-- `to_wire` and `from_wire` of candidate.hpp. A `CandidateWire` is its 24 packed bytes; `htons` and
-- `htonl` leave the high byte first.
use link_ice.Prelude.{
  ℕ, ◌+◌, ◌*◌, ◌/◌, ◌%◌, ◌^◌, ◌<◌, ◌≡◌, refl, arith, [], ◌∷◌, ◌++◌, append_assoc, Bytes, length,
  drop, drop-append, Outcome, value, ◌>>=◌, read8, read16, read32, read_bytes, subst,
}
use link_ice.Stun.Endian.{write16, write32, length-write32, read32-write32, read_bytes-append}
use link_ice.Candidate.{
  CandidateType, TransportType, Candidate, udp, tcp_active, tcp_passive, tcp_simultaneous_open,
  type_code, type_of_code, family_code, family_of_code, transport_code, transport_of_code,
}

-- `(type & 0x1F) | ((transport & 0x03) << 5)`: the two fields do not overlap.
unfoldable pub type_byte : CandidateType → TransportType → ℕ
type_byte type transport = type_code type % 2 ^ 5 + transport_code transport % 2 ^ 2 * 2 ^ 5

unfoldable pub to_wire : Candidate → Bytes
to_wire c =
    type_byte c.type c.transport
    ∷ family_code c.family
    ∷ (write16 c.port ++ (write32 c.priority ++ c.addr))

unfoldable pub from_wire : Bytes → Outcome Candidate
from_wire w = do
  bits ← read8 w
  family ← read8 (drop 1 w)
  port ← read16 (drop 2 w)
  priority ← read32 (drop 4 w)
  addr ← read_bytes 16 (drop 8 w)
  value (record {
    type = type_of_code (bits % 2 ^ 5);
    family = family_of_code family;
    port = port;
    priority = priority;
    addr = addr;
    hostname = [];
    transport = transport_of_code (bits / 2 ^ 5 % 2 ^ 2);
    foundation = [];
  })

-- A candidate as the gatherers make them: named or below 32, and in range.
pub record IsWire (c : Candidate) : Type 0 where
  pub type_fits : type_code c.type < 32
  pub type_named : type_of_code (type_code c.type) ≡ c.type
  pub family_named : family_of_code (family_code c.family) ≡ c.family
  pub port_fits : c.port < 2 ^ 16
  pub priority_fits : c.priority < 2 ^ 32
  pub addr_length : length c.addr ≡ 16

-- What travels of a candidate: all but its hostname and its foundation.
abbrev pub on_wire : Candidate → Candidate
on_wire c = record c { hostname = []; foundation = [] }

transport_back : (t : TransportType) → transport_of_code (transport_code t) ≡ t
transport_back udp = refl
transport_back tcp_active = refl
transport_back tcp_passive = refl
transport_back tcp_simultaneous_open = refl

transport_code-lt : (t : TransportType) → transport_code t < 4
transport_code-lt udp = omega arith
transport_code-lt tcp_active = omega arith
transport_code-lt tcp_passive = omega arith
transport_code-lt tcp_simultaneous_open = omega arith

pub length-to_wire : (c : Candidate) → length c.addr ≡ 16 → length (to_wire c) ≡ 24
unfolding to_wire write16 write32
length-to_wire c h = omega arith

-- A candidate in range survives the trip over the wire, whatever follows it, but for its hostname and its
-- foundation, which do not travel.
pub from_wire-to_wire :
    (c : Candidate) (rest : Bytes) → IsWire c → from_wire (to_wire c ++ rest) ≡ value (on_wire c)
unfolding from_wire to_wire type_byte read8 write16 read16
from_wire-to_wire c rest w =
    let low : (type_code c.type % 2 ^ 5 + transport_code c.transport % 2 ^ 2 * 2 ^ 5) % 2 ^ 5
        ≡ type_code c.type =
      omega (arith, w.type_fits) in
    let high : (type_code c.type % 2 ^ 5 + transport_code c.transport % 2 ^ 2 * 2 ^ 5)
          / 2 ^ 5
          % 2 ^ 2
        ≡ transport_code c.transport =
      omega (arith, w.type_fits, transport_code-lt c.transport) in
    let port : c.port / 2 ^ 8 % 2 ^ 8 * 2 ^ 8 + c.port % 2 ^ 8 ≡ c.port =
      omega (arith, w.port_fits) in
    rw (
      append_assoc,
      read32-write32 c.priority (c.addr ++ rest) w.priority_fits,
      drop-append 4 (write32 c.priority) (c.addr ++ rest) (length-write32 c.priority),
      addr_read,
      low,
      high,
      port,
      w.type_named,
      w.family_named,
      transport_back c.transport,
    )
  where
    addr_read : read_bytes 16 (c.addr ++ rest) ≡ value c.addr
    addr_read =
        subst (λ n. read_bytes n (c.addr ++ rest) ≡ value c.addr) w.addr_length
          (read_bytes-append c.addr rest)
