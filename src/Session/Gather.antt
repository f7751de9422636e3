-- ===== src/Session/Gather.antt =====
-- The gathering of candidates (session.cpp): its state. Session/Gather/Probes has the STUN servers,
-- Session/Gather/Relays the TURN servers.
pub mod Probes
pub mod Relays
pub mod Slots
pub mod Stride
pub mod Hosts
pub mod Phase
pub mod Attempts
pub mod Walk
pub mod Fire
pub mod Stranded
pub mod Failover
mod Tests
use link_ice.Prelude.{
  ℕ, zero, ◌+◌, ◌-◌, ◌/◌, ◌%◌, ◌^◌, ◌&&◌, ◌||◌, not, Bool, true, false, if◌then◌else◌, ltb, ◌==◌,
  List, [], ◌∷◌, ◌++◌, replicate, Bytes, bytes_eq, Option, none, some,
}
use link_ice.Candidate.{
  CandidateType, host, srflx, relay, AddressFamily, ipv4, ipv6, other_family, TransportType, udp,
  tcp_active, transport_is_tcp, type_code, Candidate,
}
use link_ice.Candidate.Priority.{compute_priority}
use link_ice.CheckList.{contains}
use link_ice.Stun.Address.{Inet, MappedAddress}
use link_ice.Stun.Endian.{write32}
use link_ice.Stun.Constants.{binding_request}
use link_ice.Stun.Builder.{new_builder, build}
use link_ice.Stun.Parser.{StunMessage}
use link_ice.Turn.Client.{TurnConfig}
use link_ice.Session.{
  SessionState, new, gathering, waiting_remote, checking, connected, gave_up, IceConfig, Outside,
  Session, send_udp, send_tcp, on_gathered, emit,
}
use link_ice.Session.Address.{is_empty}
use link_ice.Session.Pairing.{build_check_list}
use link_ice.Session.Tick.{is_none, begin_checks}
use link_ice.Session.Consent.{frame_tcp_stun}
use link_ice.Session.Nominate.{no_candidate}

abbrev pub has_bit : ℕ → ℕ → Bool
has_bit k flags = flags / 2 ^ k % 2 == 1

-- The bits of the filter: no IPv4, no IPv6, relay only, host only.
unfoldable pub candidate_allowed : CandidateType → AddressFamily → ℕ → Bool
candidate_allowed type family flags =
    not (has_bit 0 flags && is_ipv4 family)
    && (not (has_bit 1 flags && is_ipv6 family)
        && (not (has_bit 2 flags && not (type_code type == type_code relay))
            && not (has_bit 3 flags && not (type_code type == type_code host))))
  where
    is_ipv4 : AddressFamily → Bool
    is_ipv4 ipv4 = true
    is_ipv4 ipv6 = false
    is_ipv4 (other_family n) = false

    is_ipv6 : AddressFamily → Bool
    is_ipv6 ipv4 = false
    is_ipv6 ipv6 = true
    is_ipv6 (other_family n) = false

-- The fields of `cfg_` that gathering reads.
pub record GatherConfig : Type 0 where
  pub ice : IceConfig
  pub stun_servers : List Bytes
  pub turn : TurnConfig
  pub turn_servers : List TurnConfig
  pub candidate_filter_flags : ℕ
  pub tcp_candidates_enabled : Bool
  pub prefer_turn_tcp : Bool
  pub turn_backup_interval_s : ℕ
  pub turn_failover_min_interval_s : ℕ

-- What gathering finds outside: what the handlers of the session find, the URI parser of the kit, which carriers
-- there are, whether there is a context for timers, and what a TCP or, if so asked, a TLS connect to a TURN server returns.
pub record Around : Type 0 where
  pub session : Outside
  pub parse_uri : Bytes → Option (Bytes × ℕ)
  pub carrier_tls : Bool
  pub timers : Bool
  pub connect_stream : Bool → TurnConfig → Option ℕ
  pub now_s : ℕ

-- The carrier of a TURN client.
pub data TurnCarrier : Type 0 where
  over_tls over_tcp over_udp : TurnCarrier

-- A TURN client as the session sees it: what it was built with, and what it tells.
pub record Relay : Type 0 where
  pub config : TurnConfig
  pub carrier : TurnCarrier
  pub server_cid : ℕ
  pub allocated : Bool
  pub healthy : Bool
  pub relayed : MappedAddress

-- What gathering does beside sending: the timers with the generation they are armed under, the posted retry,
-- and the calls of TURN clients.
pub data Step : Type 0 where
  arm_gather arm_fallback arm_allocate arm_backup : ℕ → Step
  attempt_again close_turn close_probe allocate_probe : Step
  allocate_turn : TurnConfig → Step
  create_permission : Bytes → Step

-- The members that gathering uses beside the session's.
pub record Gatherer : Type 0 where
  pub session : Session
  pub stun_gathered : Bool
  pub turn_gathering : Bool
  pub first_srflx_port : Option ℕ
  pub turn : Option Relay
  pub turn_attempt_idx : ℕ
  pub turn_backups : List TurnConfig
  pub turn_backup_probe : Option Relay
  pub turn_backup_probe_idx : ℕ
  pub turn_last_failover : Option ℕ
  pub gather_gen : ℕ
  pub turn_allocate_gen : ℕ
  pub turn_backup_gen : ℕ
  pub steps : List Step

abbrev pub step : Step → Gatherer → Gatherer
step a g = record g { steps = g.steps ++ (a ∷ []) }

abbrev pub is_gathering : SessionState → Bool
is_gathering new = false
is_gathering gathering = true
is_gathering waiting_remote = false
is_gathering checking = false
is_gathering connected = false
is_gathering gave_up = false

abbrev pub no_servers : List Bytes → Bool
no_servers [] = true
no_servers (x ∷ xs) = false

abbrev pub colon : ℕ
colon = 58

-- The erase of the first occurrence.
unfoldable pub erase_first : Bytes → List Bytes → List Bytes
erase_first x [] = []
erase_first x (y ∷ ys) = let rest = erase_first x ys in if bytes_eq y x then ys else y ∷ rest

-- The distance of two ports.
unfoldable pub port_stride : ℕ → ℕ → ℕ
port_stride a b = if ltb a b then b - a else a - b

-- Whether there is a server-reflexive candidate, over TCP or not, as asked.
unfoldable pub has_srflx : Bool → List Candidate → Bool
has_srflx tcp [] = false
has_srflx tcp (c ∷ cs) =
    type_code c.type == type_code srflx && same tcp (transport_is_tcp c.transport)
    || has_srflx tcp cs
  where
    same : Bool → Bool → Bool
    same true b = b
    same false b = not b
