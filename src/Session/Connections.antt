-- ===== src/Session/Connections.antt =====
-- The connection maps of the session (session.cpp): `ensure_remote_cid`, `relay_cid_for_endpoint`,
-- `ensure_remote_tcp_cid`, `on_tcp_connect_timeout` and `tear_down_cids`.
pub mod Routing
pub mod Relayed
mod Tests
use link_ice.Prelude.{
  ℕ, zero, suc, ◌+◌, ◌==◌, ◌&&◌, not, Bool, if◌then◌else◌, List, [], ◌∷◌, ◌++◌, Bytes, bytes_eq,
  Option, none, some, decimal, get_elem?, length,
}
use link_ice.Prelude.Assoc.{nat_key, bytes_key, lookup, put, remove}
use link_ice.Candidate.{udp, tcp_active, transport_is_tcp}
use link_ice.CheckList.{CheckPair, failed, in_progress, is_in_progress, set_at, unfreeze_siblings}
use link_ice.Stun.Address.{Inet}
use link_ice.Session.{EndpointInfo}
use link_ice.Session.Address.{address_str}

-- `ip:port`
unfoldable pub endpoint_key : Bytes → ℕ → Bytes
endpoint_key ip port = ip ++ (58 ∷ decimal 5 port)

-- `udp://ip:port` and `tcp://ip:port`
unfoldable pub endpoint_uri : Bytes → ℕ → Bytes
endpoint_uri ip port = (117 ∷ 100 ∷ 112 ∷ 58 ∷ 47 ∷ 47 ∷ []) ++ endpoint_key ip port

unfoldable pub endpoint_uri_tcp : Bytes → ℕ → Bytes
endpoint_uri_tcp ip port = (116 ∷ 99 ∷ 112 ∷ 58 ∷ 47 ∷ 47 ∷ []) ++ endpoint_key ip port

-- The two carriers, where there are any: what the n-th `connect` to a URI returns, nothing where it fails.
pub record Carriers : Type 0 where
  pub inet : Inet
  pub carrier : Bool
  pub carrier_tcp : Bool
  pub connect : Bytes → ℕ → Option ℕ
  pub connect_tcp : Bytes → ℕ → Option ℕ

-- What the carriers are asked for, in order.
pub data Request : Type 0 where
  subscribe unsubscribe disconnect subscribe_tcp unsubscribe_tcp disconnect_tcp : ℕ → Request

-- The maps, and the connections whose connect timer is armed; `opened` counts the connects, `out` collects
-- the requests.
pub record Connections : Type 0 where
  pub endpoint_to_cid : List (Bytes × ℕ)
  pub cid_to_endpoint_udp : List (ℕ × EndpointInfo)
  pub cid_to_endpoint_tcp : List (ℕ × EndpointInfo)
  pub relay_endpoint_to_cid : List (Bytes × ℕ)
  pub relay_cids : List ℕ
  pub next_relay_cid : ℕ
  pub tcp_rx_buffers : List (ℕ × Bytes)
  pub tcp_connect_timers : List ℕ
  pub opened : ℕ
  pub out : List Request

abbrev pub ask : List Request → Connections → Connections
ask rs c = record c { out = c.out ++ rs }

unfoldable pub without : ℕ → List ℕ → List ℕ
without n [] = []
without n (m ∷ ms) = let rest = without n ms in if m == n then rest else m ∷ rest

-- `tear_down_cids`: the requests for the entries of one map.
unfoldable pub leave : (ℕ → Request) → (ℕ → Request) → List (ℕ × EndpointInfo) → List Request
leave stop drop_ [] = []
leave stop drop_ ((cid, ep) ∷ m) = stop cid ∷ drop_ cid ∷ leave stop drop_ m

module _ (out : Carriers) where
  -- The connection to an endpoint, 0 where there is none; an endpoint is connected once.
  unfoldable pub ensure_remote_cid : Bytes → ℕ → Connections → Connections × ℕ
  ensure_remote_cid ip port c =
      let key = endpoint_key ip port in
      let d = record c { opened = c.opened + 1 } in
      if not out.carrier then (c, 0) else elim (lookup key c.endpoint_to_cid) [
        | some cid ↦ (c, cid)
        | none ↦ elim (out.connect (endpoint_uri ip port) c.opened) [
          | none ↦ (d, 0)
          | some cid ↦
              let info : EndpointInfo = record { ip = ip; port = port; transport = udp } in
              (
                ask (subscribe cid ∷ []) (record d {
                  endpoint_to_cid = put key cid c.endpoint_to_cid;
                  cid_to_endpoint_udp = put cid info c.cid_to_endpoint_udp;
                }),
                cid,
              )
        ]
      ]

  -- The made-up connection that stands for an endpoint behind the relay.
  unfoldable pub relay_cid_for_endpoint : Bytes → ℕ → Connections → Connections × ℕ
  relay_cid_for_endpoint ip port c =
      let key = endpoint_key ip port in
      elim (lookup key c.relay_endpoint_to_cid) [
        | some cid ↦ (c, cid)
        | none ↦
            let cid = c.next_relay_cid in
            let info : EndpointInfo = record { ip = ip; port = port; transport = udp } in
            (
              record c {
                next_relay_cid = cid + 1;
                relay_endpoint_to_cid = put key cid c.relay_endpoint_to_cid;
                relay_cids = cid ∷ c.relay_cids;
                cid_to_endpoint_udp = put cid info c.cid_to_endpoint_udp;
              },
              cid,
            )
      ]

  -- Each call opens a connection, with a timer.
  unfoldable pub ensure_remote_tcp_cid : Bytes → ℕ → Connections → Connections × ℕ
  ensure_remote_tcp_cid ip port c =
      let d = record c { opened = c.opened + 1 } in
      if not out.carrier_tcp
      then (c, 0)
      else elim (out.connect_tcp (endpoint_uri_tcp ip port) c.opened) [
        | none ↦ (d, 0)
        | some cid ↦
            let info : EndpointInfo = record { ip = ip; port = port; transport = tcp_active } in
            (
              ask (subscribe_tcp cid ∷ []) (record d {
                cid_to_endpoint_tcp = put cid info c.cid_to_endpoint_tcp;
                tcp_connect_timers = cid ∷ without cid c.tcp_connect_timers;
              }),
              cid,
            )
      ]

  -- The pair is in flight over TCP to this endpoint.
  unfoldable pub waits_for : EndpointInfo → CheckPair → Bool
  waits_for ep p =
      is_in_progress p.state
      && (transport_is_tcp p.transport_type
          && (bytes_eq (address_str out.inet p.remote) ep.ip && p.remote.port == ep.port))

  -- The loop over the pairs, `n` of them from the place `i` on.
  unfoldable pub fail_pairs : EndpointInfo → ℕ → ℕ → List CheckPair → List CheckPair
  fail_pairs ep zero i ps = ps
  fail_pairs ep (suc n) i ps = fail_pairs ep n (suc i) (fail_pair i (get_elem? ps i))
    where
      fail_pair : ℕ → Option CheckPair → List CheckPair
      fail_pair j none = ps
      fail_pair j (some p) =
          if waits_for ep p
          then unfreeze_siblings p.local.foundation p.remote.foundation
              (set_at j (record p { state = failed }) ps)
          else ps

  unfoldable pub on_tcp_connect_timeout :
      ℕ → Connections × List CheckPair → Connections × List CheckPair
  on_tcp_connect_timeout cid (c, ps) =
      let d = record c { tcp_connect_timers = without cid c.tcp_connect_timers } in
      elim (lookup cid c.cid_to_endpoint_tcp) [
        | none ↦ (d, ps)
        | some ep ↦ if not (transport_is_tcp ep.transport) then (d, ps) else (
          ask (if out.carrier_tcp then unsubscribe_tcp cid ∷ disconnect_tcp cid ∷ [] else [])
              (record d {
                cid_to_endpoint_tcp = remove cid c.cid_to_endpoint_tcp;
                tcp_rx_buffers = remove cid c.tcp_rx_buffers;
              }),
          fail_pairs ep (length ps) 0 ps,
        )
      ]

  -- The maps of the relay stay.
  unfoldable pub tear_down_cids : Connections → Connections
  tear_down_cids c =
      let udp_ = if out.carrier then leave unsubscribe disconnect c.cid_to_endpoint_udp else [] in
      let tcp_ =
        if out.carrier_tcp
        then leave unsubscribe_tcp disconnect_tcp c.cid_to_endpoint_tcp
        else [] in
      ask (udp_ ++ tcp_) (record c {
        tcp_connect_timers = [];
        endpoint_to_cid = [];
        cid_to_endpoint_udp = [];
        cid_to_endpoint_tcp = [];
        tcp_rx_buffers = [];
      })
