-- ===== src/Session/Connections/Routing.antt =====
-- The connection that a check is sent on leads back to its endpoint (session.cpp).
use link_ice.Prelude.{
  false, ℕ, ◌+◌, ◌<◌, ◌≡◌, refl, sym, ap, ◌∙◌, arith, ◌==◌, List, Bytes, bytes_eq, bytes_eq_sound,
  none, some, ◌⊎◌, Option-cases, Bool-cases, inl, inr,
}
use link_ice.Prelude.Assoc.{nat_key, bytes_key, lookup, put, lookup-put_self, lookup-put_ne}
use link_ice.Candidate.{udp}
use link_ice.Session.{EndpointInfo}
use link_ice.Session.Connections.{
  endpoint_key, endpoint_uri, endpoint_uri_tcp, Carriers, Connections, ensure_remote_cid,
  relay_cid_for_endpoint, ensure_remote_tcp_cid,
}

-- The endpoint of a connection.
abbrev pub Reaches : List (ℕ × EndpointInfo) → ℕ → Bytes → Type 0
Reaches udp_ cid key =
    (ep : EndpointInfo) × (lookup cid udp_ ≡ some ep) × (endpoint_key ep.ip ep.port ≡ key)

abbrev pub Leads : List (ℕ × EndpointInfo) → List (Bytes × ℕ) → Type 0
Leads udp_ m = (key : Bytes) (cid : ℕ) → lookup key m ≡ some cid → Reaches udp_ cid key

-- The endpoints lead to connections that lead back to them, and the made-up connections that are to come
-- are above all.
pub record IsRouted (c : Connections) : Type 0 where
  pub direct : Leads c.cid_to_endpoint_udp c.endpoint_to_cid
  pub relayed : Leads c.cid_to_endpoint_udp c.relay_endpoint_to_cid
  pub below :
      (cid : ℕ) (ep : EndpointInfo)
      → lookup cid c.cid_to_endpoint_udp ≡ some ep
      → cid < c.next_relay_cid

-- What a carrier says of the connection that it opens next: its id is that of no other connection and below
-- the made-up ones.
pub record Fresh (out : Carriers) (c : Connections) : Type 0 where
  pub apart :
      (uri : Bytes) (cid : ℕ)
      → out.connect uri c.opened ≡ some cid
      → lookup cid c.cid_to_endpoint_udp ≡ none
  pub below : (uri : Bytes) (cid : ℕ) → out.connect uri c.opened ≡ some cid → cid < c.next_relay_cid

Leads-grow :
    (cid : ℕ) (info : EndpointInfo) (udp_ : List (ℕ × EndpointInfo)) (m : List (Bytes × ℕ))
    → lookup cid udp_ ≡ none
    → Leads udp_ m
    → Leads (put cid info udp_) m
Leads-grow cid info udp_ m fresh h key other e =
    let (ep, at, same) = h key other e in
    elim (Bool-cases (cid == other)) [
      | inl here ↦
          let equal : cid ≡ other = ground arith in
          absurd (ground (arith, ap (λ (x : ℕ). lookup x udp_) equal))
      | inr apart ↦ (ep, lookup-put_ne cid other info udp_ apart ∙ at, same)
    ]

Leads-put :
    (cid : ℕ) (info : EndpointInfo) (udp_ : List (ℕ × EndpointInfo)) (m : List (Bytes × ℕ))
    → lookup cid udp_ ≡ none
    → Leads udp_ m
    → Leads (put cid info udp_) (put (endpoint_key info.ip info.port) cid m)
Leads-put cid info udp_ m fresh h key other e =
    let own = endpoint_key info.ip info.port in
    elim (Bool-cases (bytes_eq own key)) [
      | inl here ↦
          let equal = bytes_eq_sound own key here in
          let self : some cid ≡ some other =
            sym (lookup-put_self own cid m)
            ∙ ap (λ (k : Bytes). lookup k (put own cid m)) equal
            ∙ e in
          let same : cid ≡ other = ground arith in
          (
            info,
            ap (λ (x : ℕ). lookup x (put cid info udp_)) (sym same) ∙ lookup-put_self cid info udp_,
            equal,
          )
      | inr apart ↦
          Leads-grow cid info udp_ m fresh h key other (sym (lookup-put_ne own key cid m apart) ∙ e)
    ]

put-below :
    (cid bound : ℕ) (info : EndpointInfo) (udp_ : List (ℕ × EndpointInfo))
    → cid < bound
    → ((x : ℕ) (ep : EndpointInfo) → lookup x udp_ ≡ some ep → x < bound)
    → (x : ℕ) (ep : EndpointInfo) → lookup x (put cid info udp_) ≡ some ep
    → x < bound
put-below cid bound info udp_ small h x ep e = elim (Bool-cases (cid == x)) [
  | inl here ↦ ground arith
  | inr apart ↦ h x ep (sym (lookup-put_ne cid x info udp_ apart) ∙ e)
]

module _ (out : Carriers) where
  -- A connection to the endpoint, unless there is no carrier or it refuses.
  abbrev pub Ensures : Bytes → ℕ → Connections → Connections × ℕ → Type 0
  Ensures ip port c r =
      (out.carrier ≡ false)
      ⊎ ((out.connect (endpoint_uri ip port) c.opened ≡ none)
          ⊎ Reaches r.0.cid_to_endpoint_udp r.1 (endpoint_key ip port))

  ensure_remote_cid-IsRouted :
      (ip : Bytes) (port : ℕ) (c : Connections)
      → IsRouted c
      → Fresh out c
      → let r = ensure_remote_cid out ip port c in IsRouted r.0 × Ensures ip port c r
  unfolding ensure_remote_cid
  ensure_remote_cid-IsRouted ip port c h f =
      let key = endpoint_key ip port in
      elim (Bool-cases out.carrier) [
        | inr nothing ↦ simp (ensure_remote_cid, nothing) (h, inl refl)
        | inl there ↦ elim (Option-cases (lookup key c.endpoint_to_cid)) [
          | inr (cid, e) ↦ simp (ensure_remote_cid, there, e) (h, inr (inr (h.direct key cid e)))
          | inl e ↦ elim (Option-cases (out.connect (endpoint_uri ip port) c.opened)) [
            | inl refused ↦
                simp (ensure_remote_cid, there, e, refused)
                  (
                    record { direct = h.direct; relayed = h.relayed; below = h.below },
                    inr (inl refl),
                  )
            | inr (cid, opens) ↦
                let info : EndpointInfo = record { ip = ip; port = port; transport = udp } in
                let fresh = f.apart (endpoint_uri ip port) cid opens in
                let small = f.below (endpoint_uri ip port) cid opens in
                let direct =
                  Leads-put cid info c.cid_to_endpoint_udp c.endpoint_to_cid fresh h.direct in
                let relayed =
                  Leads-grow cid info c.cid_to_endpoint_udp c.relay_endpoint_to_cid fresh
                    h.relayed in
                simp (ensure_remote_cid, there, e, opens)
                  (
                    record {
                      direct = direct;
                      relayed = relayed;
                      below =
                          put-below cid c.next_relay_cid info c.cid_to_endpoint_udp small h.below;
                    },
                    inr (inr (info, lookup-put_self cid info c.cid_to_endpoint_udp, refl)),
                  )
          ]
        ]
      ]

  relay_cid_for_endpoint-IsRouted :
      (ip : Bytes) (port : ℕ) (c : Connections)
      → IsRouted c
      → let r = relay_cid_for_endpoint out ip port c in
        IsRouted r.0 × Reaches r.0.cid_to_endpoint_udp r.1 (endpoint_key ip port)
  unfolding relay_cid_for_endpoint
  relay_cid_for_endpoint-IsRouted ip port c h =
      let key = endpoint_key ip port in
      elim (Option-cases (lookup key c.relay_endpoint_to_cid)) [
        | inr (cid, e) ↦ simp (relay_cid_for_endpoint, e) (h, h.relayed key cid e)
        | inl e ↦
            let cid = c.next_relay_cid in
            let info : EndpointInfo = record { ip = ip; port = port; transport = udp } in
            let fresh : lookup cid c.cid_to_endpoint_udp ≡ none =
              elim (Option-cases (lookup cid c.cid_to_endpoint_udp)) [
                | inl none_ ↦ none_
                | inr (ep, at) ↦ absurd (omega (arith, h.below cid ep at))
              ] in
            let direct =
              Leads-grow cid info c.cid_to_endpoint_udp c.endpoint_to_cid fresh h.direct in
            let relayed =
              Leads-put cid info c.cid_to_endpoint_udp c.relay_endpoint_to_cid fresh h.relayed in
            simp (relay_cid_for_endpoint, e)
              (
                record {
                  direct = direct;
                  relayed = relayed;
                  below =
                      put-below cid (cid + 1) info c.cid_to_endpoint_udp (omega arith)
                        (λ x ep at. let small = h.below x ep at in omega arith);
                },
                (info, lookup-put_self cid info c.cid_to_endpoint_udp, refl),
              )
      ]

  ensure_remote_tcp_cid-IsRouted :
      (ip : Bytes) (port : ℕ) (c : Connections)
      → IsRouted c
      → IsRouted (ensure_remote_tcp_cid out ip port c).0
  unfolding ensure_remote_tcp_cid
  ensure_remote_tcp_cid-IsRouted ip port c h = elim (Bool-cases out.carrier_tcp) [
    | inr nothing ↦ simp (ensure_remote_tcp_cid, nothing) h
    | inl there ↦ elim (Option-cases (out.connect_tcp (endpoint_uri_tcp ip port) c.opened)) [
      | inl refused ↦
          simp (ensure_remote_tcp_cid, there, refused)
            (record { direct = h.direct; relayed = h.relayed; below = h.below })
      | inr (cid, opens) ↦
          simp (ensure_remote_tcp_cid, there, opens)
            (record { direct = h.direct; relayed = h.relayed; below = h.below })
    ]
  ]

  -- The three ways to a connection keep the maps of the endpoints routed. The connection that relay_cid_for_endpoint
  -- returns, and that of ensure_remote_cid unless there is no UDP carrier or it refuses to connect, leads back to
  -- the endpoint that was asked for, so what arrives on it is taken for that endpoint's. The carrier opens
  -- connections with ids of their own.
  pub connections-IsRouted :
      (ip : Bytes) (port : ℕ) (c : Connections)
      → IsRouted c
      → Fresh out c
      → let direct = ensure_remote_cid out ip port c in
        let relayed = relay_cid_for_endpoint out ip port c in
        (IsRouted direct.0 × Ensures ip port c direct)
        × (IsRouted relayed.0
            × Reaches relayed.0.cid_to_endpoint_udp relayed.1 (endpoint_key ip port))
        × IsRouted (ensure_remote_tcp_cid out ip port c).0
  connections-IsRouted ip port c h f = (
    ensure_remote_cid-IsRouted ip port c h f,
    relay_cid_for_endpoint-IsRouted ip port c h,
    ensure_remote_tcp_cid-IsRouted ip port c h,
  )
