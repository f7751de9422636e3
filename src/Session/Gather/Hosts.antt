-- ===== src/Session/Gather/Hosts.antt =====
-- The host candidates (session.cpp): `gather_host_candidates` and `gather_tcp_host_candidates`.
use link_ice.Prelude.{
  ℕ, ◌+◌, ◌*◌, ◌/◌, ◌≡◌, refl, arith, ◌&&◌, ◌||◌, not, Bool, true, false, if◌then◌else◌, ◌==◌, List,
  [], ◌∷◌, ◌++◌, take, drop, get_or, Bytes, Option, none, some,
}
use link_ice.Candidate.{
  host, host_mdns, udp, tcp_active, tcp_passive, tcp_simultaneous_open, ipv4, ipv6, type_code,
  transport_code, transport_is_tcp, Candidate,
}
use link_ice.Candidate.Priority.{compute_priority}
use link_ice.Mdns.LocalNames.{suffix, generate_uuid_v4}
use link_ice.Session.{Session}
use link_ice.Session.Nominate.{no_candidate}
use link_ice.Session.Gather.{GatherConfig, Around, candidate_allowed}

-- An address of an interface, and a kind of address that is passed over.
pub data InterfaceAddress : Type 0 where
  inet inet6 : Bytes → InterfaceAddress
  other_address : InterfaceAddress

pub record Interface : Type 0 where
  pub address : InterfaceAddress
  pub loopback : Bool
  pub up : Bool

-- Where the host candidates come from: a name of sixteen random bytes that hides them, or what
-- getifaddrs returns.
pub data HostSource : Type 0 where
  obfuscated : Bytes → HostSource
  interfaces : Option (List Interface) → HostSource

-- A host candidate over UDP.
unfoldable pub is_udp_host : Candidate → Bool
is_udp_host c =
    type_code c.type == type_code host && transport_code c.transport == transport_code udp

-- The copies of one candidate.
unfoldable pub tcp_variants : Candidate → List Candidate
tcp_variants c =
    if is_udp_host c
    then record c { transport = tcp_active }
      ∷ record c { transport = tcp_passive }
      ∷ record c { transport = tcp_simultaneous_open }
      ∷ []
    else []

unfoldable pub all_variants : List Candidate → List Candidate
all_variants [] = []
all_variants (c ∷ cs) = tcp_variants c ++ all_variants cs

module _ (cfg : GatherConfig) (out : Around) where
  -- The candidates that were there are copied, the copies are not.
  unfoldable pub gather_tcp_host_candidates : ℕ → Session → Session
  gather_tcp_host_candidates local_port s =
      if cfg.tcp_candidates_enabled && (out.session.carrier_tcp && not (local_port == 0))
      then record s { local_candidates = s.local_candidates ++ all_variants s.local_candidates }
      else s

  -- One candidate, unless the filter drops it.
  unfoldable pub push_host : Candidate → Session → Session
  push_host c s =
      if candidate_allowed host c.family cfg.candidate_filter_flags
      then record s { local_candidates = s.local_candidates ++ (c ∷ []) }
      else s

  -- The candidate that stands for all the others.
  unfoldable pub hidden_host : ℕ → Bytes → Candidate
  hidden_host local_port raw = record no_candidate {
    type = host_mdns;
    family = ipv4;
    port = local_port;
    priority = compute_priority host_mdns 65535 1;
    hostname = generate_uuid_v4 raw ++ suffix;
  }

  -- The first ten bits of fe80::/10.
  abbrev pub is_link_local : Bytes → Bool
  is_link_local bs = get_or bs 0 0 == 0xFE && get_or bs 1 0 / 64 == 2

  unfoldable pub add_interface : ℕ → Interface → Session → Session
  add_interface local_port i s = if i.loopback || not i.up then s else push i.address
    where
      push : InterfaceAddress → Session
      push (inet bs) =
          push_host
            (record no_candidate {
              type = host;
              family = ipv4;
              port = local_port;
              addr = take 4 bs ++ drop 4 no_candidate.addr;
              priority = compute_priority host 65535 1;
            })
            s
      push (inet6 bs) =
          if is_link_local bs
          then s
          else push_host
              (record no_candidate {
                type = host;
                family = ipv6;
                port = local_port;
                addr = take 16 bs;
                priority = compute_priority host 65534 1;
              })
              s
      push other_address = s

  unfoldable pub add_interfaces : ℕ → List Interface → Session → Session
  add_interfaces local_port [] s = s
  add_interfaces local_port (i ∷ is) s = add_interfaces local_port is (add_interface local_port i s)

  -- The port is that of the carrier once it listens, 0 where there is none.
  unfoldable pub gather_host_candidates : ℕ → HostSource → Session → Session
  gather_host_candidates local_port from s = if local_port == 0 then s else collect from
    where
      collect : HostSource → Session
      collect (obfuscated raw) = push_host (hidden_host local_port raw) s
      collect (interfaces none) = s
      collect (interfaces (some is)) =
          gather_tcp_host_candidates local_port (add_interfaces local_port is s)

-- The copies for one transport of the candidates that were over UDP.
unfoldable pub over : (Candidate → Bool) → List Candidate → ℕ
over q [] = 0
over q (c ∷ cs) = (if q c then 1 else 0) + over q cs

over-append :
    (q : Candidate → Bool) (xs ys : List Candidate) → over q (xs ++ ys) ≡ over q xs + over q ys
unfolding over
over-append q [] ys = omega arith
over-append q (x ∷ xs) ys = omega (arith, over-append q xs ys)

all_variants-over :
    (cs : List Candidate)
    → over (λ c. transport_is_tcp c.transport) (all_variants cs) ≡ 3 * over is_udp_host cs
unfolding over all_variants tcp_variants transport_is_tcp
all_variants-over [] = refl
all_variants-over (c ∷ cs) =
    let rest = all_variants-over cs in
    let split =
      over-append (λ x. transport_is_tcp x.transport) (tcp_variants c) (all_variants cs) in
    ground arith

module _ (cfg : GatherConfig) (out : Around) where
  -- Every host candidate over UDP gets three over TCP.
  gather_tcp_host_candidates-over :
      (local_port : ℕ) (s : Session)
      → cfg.tcp_candidates_enabled ≡ true
      → out.session.carrier_tcp ≡ true
      → (local_port == 0) ≡ false
      → let tcp = over (λ c. transport_is_tcp c.transport) in
        tcp (gather_tcp_host_candidates cfg out local_port s).local_candidates
        ≡ tcp s.local_candidates + 3 * over is_udp_host s.local_candidates
  unfolding gather_tcp_host_candidates
  gather_tcp_host_candidates-over local_port s enabled carrier bound =
      simp (gather_tcp_host_candidates, enabled, carrier, bound)
        (omega (
          arith,
          over-append (λ c. transport_is_tcp c.transport) s.local_candidates
              (all_variants s.local_candidates),
          all_variants-over s.local_candidates,
        ))

  -- Where the hosts are hidden, no candidate with an address of an interface is added.
  gather_hidden-over :
      (local_port : ℕ) (raw : Bytes) (s : Session)
      → let named = over (λ c. type_code c.type == type_code host) in
        named (gather_host_candidates cfg out local_port (obfuscated raw) s).local_candidates
        ≡ named s.local_candidates
  unfolding gather_host_candidates push_host hidden_host over
  gather_hidden-over local_port raw s =
      let more =
        over-append (λ c. type_code c.type == type_code host) s.local_candidates
          (hidden_host cfg out local_port raw ∷ []) in
      ground arith
