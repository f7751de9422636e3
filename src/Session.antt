-- ===== src/Session.antt =====
-- The session of session.cpp and session.hpp: its state, its configuration and what its handlers take
-- from outside. The handlers run one at a time on the session's strand; each is a function from the
-- state before it to the state behind it.
pub mod Address
pub mod Pairing
pub mod Built
pub mod Tick
pub mod Role
pub mod Consent
pub mod PathProbe
pub mod Nominate
pub mod Requests
pub mod Receive
pub mod Authentic
pub mod Accepted
pub mod Found
pub mod Stranded
pub mod Verified
pub mod ConsentBound
pub mod Remote
pub mod Connections
pub mod Stream
pub mod Gather
pub mod AppData
mod Samples
mod Tests
use link_ice.Prelude.{ℕ, Bool, List, [], ◌∷◌, ◌++◌, Option, Bytes}
use link_ice.Candidate.{CandidateType, TransportType, Candidate}
use link_ice.CheckList.{CheckPair, CheckConfig}
use link_ice.PathMtu.{Probe}
use link_ice.PathMtu.Ladder.{ℤ}
use link_ice.Reorder.{Receiver}
use link_ice.Stun.Address.{Inet}

pub data SessionState : Type 0 where
  new gathering waiting_remote checking connected gave_up : SessionState

-- The fields of `cfg_` that the handlers read; a negative number of attempts counts as 0.
pub record IceConfig : Type 0 where
  pub checks : CheckConfig
  pub aggressive_nomination : Bool
  pub lite_mode : Bool
  pub ordered_delivery : Bool
  pub nomination_wait_ms : ℕ
  pub symmetric_port_prediction_enabled : Bool
  pub symmetric_port_prediction_attempts : ℕ
  pub consent_max_failures : ℕ
  pub consent_max_recovery : ℕ
  pub auto_restart_on_consent_loss : Bool
  pub auto_restart_max_attempts : ℕ
  pub auto_restart_backoff : ℕ
  pub pmtu_active_probing : Bool
  pub path_mtu : ℕ
  pub pmtu_search_steps : List ℤ

-- `EndpointInfo`
pub record EndpointInfo : Type 0 where
  pub ip : Bytes
  pub port : ℕ
  pub transport : TransportType

-- What a handler finds outside the session's own fields: the address library, HMAC-SHA1, the sort, the
-- clock at two readings, random ids and credentials, and the connections as the carriers and the relay left
-- them. `endpoint` looks a connection up (of the TCP map, if so asked), `cid_to` gives the connection
-- to an endpoint over a transport, through the relay if so asked; 0 is none.
pub record Outside : Type 0 where
  pub inet : Inet
  pub hmac_sha1 : Bytes → Bytes → Bytes
  pub sort : List CheckPair → List CheckPair
  pub now : ℕ
  pub later : ℕ
  pub txn_id : ℕ → Bytes
  pub ufrag : Bytes
  pub pwd : Bytes
  pub endpoint : Bool → ℕ → Option EndpointInfo
  pub is_relay_cid : ℕ → Bool
  pub is_turn_server : ℕ → Bool
  pub cid_to : Bool → TransportType → Bytes → ℕ → ℕ
  pub carrier : Bool
  pub carrier_tcp : Bool
  pub turn : Bool
  pub turn_allocated : Bool

-- The arguments of `on_nominated`; also what `pending_nom_*` and `nominated_*` hold.
pub record Nomination : Type 0 where
  pub ip : Bytes
  pub port : ℕ
  pub relay : Bool
  pub cid : ℕ
  pub transport : TransportType

-- What a handler does beside changing the state, in order.
pub data Action : Type 0 where
  send_udp send_tcp : ℕ → Bytes → Action
  send_indication : Bytes → ℕ → Bytes → Action
  turn_inbound : ℕ → Bytes → Action
  bind_channel : Bytes → ℕ → Action
  on_connected : Bytes → ℕ → Action
  on_failed gather on_gathered flush_pending_app_data resolve_remote_mdns_candidates : Action
  gather_response : Bytes → Action
  create_permission : Bytes → Action
  on_auto_restart : ℕ → Action
  on_data : Bytes → Action

-- The members with the trailing underscore; `drawn` counts the random ids, `out` collects the actions.
pub record Session : Type 0 where
  pub state : SessionState
  pub controlling : Bool
  pub tiebreaker : ℕ
  pub local_ufrag : Bytes
  pub local_pwd : Bytes
  pub remote_ufrag : Bytes
  pub remote_pwd : Bytes
  pub local_candidates : List Candidate
  pub remote_candidates : List Candidate
  pub remote_end_of_candidates : Bool
  pub check_list : List CheckPair
  pub nominee_selected : Bool
  pub nomination_wait_armed : Bool
  pub pending_nom : Nomination
  pub nominated : Nomination
  pub nominated_local_type : CandidateType
  pub nominated_remote_type : CandidateType
  pub rtt_ewma_us : ℕ
  pub consent_missed : ℕ
  pub consent_recovery_attempts : ℕ
  pub auto_restart_attempts : ℕ
  pub auto_restart_last : Option ℕ
  pub peer_symmetric : Bool
  pub symmetric_stride : ℕ
  pub pending_stun_probes : List Bytes
  pub pmtu_probe : Option Probe
  pub pmtu_inflight : Bool
  pub pmtu_inflight_txn : Bytes
  pub effective_mtu : ℕ
  pub receiver : Receiver
  pub last_activity : ℕ
  pub drawn : ℕ
  pub out : List Action

abbrev pub emit : Action → Session → Session
emit a s = record s { out = s.out ++ (a ∷ []) }
