-- ===== src/Session/Connections/Relayed.antt =====
-- The connections through the relay over a restart (session.cpp).
use link_ice.Prelude.{
  ℕ, ◌+◌, ◌≡◌, refl, ◌∙◌, ap, ◌||◌, Bool, true, false, ◌==◌, ==_refl, List, [], ◌∷◌, Bytes, Option,
  none, some,
}
use link_ice.Prelude.Assoc.{nat_key, bytes_key, lookup, put, lookup-put_self}
use link_ice.Candidate.{udp}
use link_ice.Session.{IceConfig, Outside, EndpointInfo, Session}
use link_ice.Session.Requests.{reply}
use link_ice.Session.Connections.{
  endpoint_key, Carriers, Connections, relay_cid_for_endpoint, tear_down_cids,
}

-- `relay_cids_.contains`
unfoldable pub has : ℕ → List ℕ → Bool
has cid [] = false
has cid (n ∷ ns) = n == cid || has cid ns

unfoldable pub is_relayed : Connections → ℕ → Bool
is_relayed c cid = has cid c.relay_cids

-- What the maps have for a connection.
unfoldable pub endpoint_of : Connections → Bool → ℕ → Option EndpointInfo
endpoint_of c true cid = lookup cid c.cid_to_endpoint_tcp
endpoint_of c false cid = lookup cid c.cid_to_endpoint_udp

first : (cid : ℕ) (ns : List ℕ) → has cid (cid ∷ ns) ≡ true
unfolding has
first cid ns = rw (==_refl cid) refl

module _ (out : Carriers) where
  -- The maps after the first packet from an endpoint through the relay, a restart, and its next packet.
  unfoldable pub after_restart : Bytes → ℕ → Connections → Connections × ℕ
  after_restart ip port c =
      relay_cid_for_endpoint out ip port
        (tear_down_cids out (relay_cid_for_endpoint out ip port c).0)

  -- The maps with a new endpoint behind the relay.
  unfoldable pub with_relayed : Bytes → ℕ → Connections → Connections
  with_relayed ip port c =
      let cid = c.next_relay_cid in
      record c {
        next_relay_cid = cid + 1;
        relay_endpoint_to_cid = put (endpoint_key ip port) cid c.relay_endpoint_to_cid;
        relay_cids = cid ∷ c.relay_cids;
        cid_to_endpoint_udp =
            put cid (record { ip = ip; port = port; transport = udp }) c.cid_to_endpoint_udp;
      }

  relay_new :
      (ip : Bytes) (port : ℕ) (c : Connections)
      → lookup (endpoint_key ip port) c.relay_endpoint_to_cid ≡ none
      → relay_cid_for_endpoint out ip port c ≡ (with_relayed ip port c, c.next_relay_cid)
  unfolding relay_cid_for_endpoint with_relayed
  relay_new ip port c e = simp (relay_cid_for_endpoint, e) refl

  relay_known :
      (ip : Bytes) (port cid : ℕ) (c : Connections)
      → lookup (endpoint_key ip port) c.relay_endpoint_to_cid ≡ some cid
      → relay_cid_for_endpoint out ip port c ≡ (c, cid)
  unfolding relay_cid_for_endpoint
  relay_known ip port cid c e = simp (relay_cid_for_endpoint, e) refl

  after_restart-torn :
      (ip : Bytes) (port : ℕ) (c : Connections)
      → lookup (endpoint_key ip port) c.relay_endpoint_to_cid ≡ none
      → after_restart ip port c ≡ (tear_down_cids out (with_relayed ip port c), c.next_relay_cid)
  unfolding after_restart with_relayed tear_down_cids
  after_restart-torn ip port c e =
      ap (λ (r : Connections × ℕ). relay_cid_for_endpoint out ip port (tear_down_cids out r.0))
        (relay_new ip port c e)
      ∙ relay_known ip port c.next_relay_cid (tear_down_cids out (with_relayed ip port c))
          (lookup-put_self (endpoint_key ip port) c.next_relay_cid c.relay_endpoint_to_cid)

  -- After a restart the relayed path to an endpoint that was known before it is dead: its packets come in
  -- under the made-up connection from before, for which the maps have no endpoint any more, and no reply
  -- to a check that arrives on it is sent. The session has a relay and sees the connection maps.
  pub restart_silences_relay :
      (cfg : IceConfig) (ctx : Outside) (ip : Bytes) (port : ℕ) (c : Connections) (msg : Bytes)
      (s : Session)
      → lookup (endpoint_key ip port) c.relay_endpoint_to_cid ≡ none
      → ctx.turn ≡ true
      → ctx.endpoint ≡ endpoint_of (after_restart ip port c).0
      → ctx.is_relay_cid ≡ is_relayed (after_restart ip port c).0
      → reply cfg ctx (after_restart ip port c).1 false msg s ≡ s
  unfolding reply with_relayed tear_down_cids endpoint_of is_relayed
  restart_silences_relay cfg ctx ip port c msg s new_ relay maps members =
      let torn = after_restart-torn ip port c new_ in
      let cid = c.next_relay_cid in
      let t = tear_down_cids out (with_relayed ip port c) in
      let at : ctx.endpoint false cid ≡ none =
        ap (λ (f : Bool → ℕ → Option EndpointInfo). f false cid)
          (maps ∙ ap (λ (r : Connections × ℕ). endpoint_of r.0) torn) in
      let member : ctx.is_relay_cid cid ≡ true =
        ap (λ (f : ℕ → Bool). f cid) (members ∙ ap (λ (r : Connections × ℕ). is_relayed r.0) torn)
        ∙ first cid c.relay_cids in
      ap (λ (r : Connections × ℕ). reply cfg ctx r.1 false msg s) torn
      ∙ simp (reply, at, member, relay) refl
