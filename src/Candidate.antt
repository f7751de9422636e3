-- ===== src/Candidate.antt =====
-- candidate.hpp: the candidates, their priorities and the wire format of the signal envelope.
pub mod Wire
pub mod Priority
pub mod Signal
pub mod SignalSafety
pub mod SignalRoundTrip
mod Tests
use link_ice.Prelude.{ℕ, Bytes, Bool, true, false, if◌then◌else◌, ◌==◌}

-- An `enum class` over a byte holds any byte: `other` stands for the values without a name.
pub data CandidateType : Type 0 where
  host srflx relay prflx host_mdns : CandidateType
  other : ℕ → CandidateType

pub data AddressFamily : Type 0 where
  ipv4 ipv6 : AddressFamily
  other_family : ℕ → AddressFamily

pub data TransportType : Type 0 where
  udp tcp_active tcp_passive tcp_simultaneous_open : TransportType

unfoldable pub transport_is_tcp : TransportType → Bool
transport_is_tcp udp = false
transport_is_tcp tcp_active = true
transport_is_tcp tcp_passive = true
transport_is_tcp tcp_simultaneous_open = true

abbrev pub max_mdns_hostname_len : ℕ
max_mdns_hostname_len = 64

-- `addr` has sixteen bytes.
pub record Candidate : Type 0 where
  pub type : CandidateType
  pub family : AddressFamily
  pub port : ℕ
  pub priority : ℕ
  pub addr : Bytes
  pub hostname : Bytes
  pub transport : TransportType
  pub foundation : Bytes

-- `static_cast` to the underlying byte and back.
abbrev pub type_code : CandidateType → ℕ
type_code host = 0
type_code srflx = 1
type_code relay = 2
type_code prflx = 3
type_code host_mdns = 4
type_code (other n) = n

abbrev pub type_of_code : ℕ → CandidateType
type_of_code n =
    if n == 0
    then host
    else if n == 1
    then srflx
    else if n == 2
    then relay
    else if n == 3
    then prflx
    else if n == 4
    then host_mdns
    else other n

abbrev pub family_code : AddressFamily → ℕ
family_code ipv4 = 1
family_code ipv6 = 2
family_code (other_family n) = n

abbrev pub family_of_code : ℕ → AddressFamily
family_of_code n = if n == 1 then ipv4 else if n == 2 then ipv6 else other_family n

abbrev pub transport_code : TransportType → ℕ
transport_code udp = 0
transport_code tcp_active = 1
transport_code tcp_passive = 2
transport_code tcp_simultaneous_open = 3

-- Two bits have no other value.
abbrev pub transport_of_code : ℕ → TransportType
transport_of_code n =
    if n == 0
    then udp
    else if n == 1
    then tcp_active
    else if n == 2
    then tcp_passive
    else tcp_simultaneous_open

abbrev pub is_host_mdns : CandidateType → Bool
is_host_mdns host_mdns = true
is_host_mdns host = false
is_host_mdns srflx = false
is_host_mdns relay = false
is_host_mdns prflx = false
is_host_mdns (other n) = false
