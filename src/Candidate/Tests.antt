-- ===== src/Candidate/Tests.antt =====
-- Runs of the candidate codecs.
use link_ice.Prelude.{
  ◌<◌, ◌≡◌, refl, arith, [], ◌∷◌, map, replicate, true, not, inl, inr, some, value,
}
use link_ice.Candidate.{Candidate, relay, host_mdns, ipv4, ipv6, udp, tcp_active}
use link_ice.Candidate.Wire.{IsWire}
use link_ice.Candidate.Priority.{pair_priority, pair_priority-agrees, pair_priority-lt}
use link_ice.Candidate.Signal.{fixed_field, serialize_signal, deserialize_signal}
use link_ice.Candidate.SignalRoundTrip.{sent, deserialize-serialize}

abbrev relayed : Candidate
relayed = record {
  type = relay;
  family = ipv6;
  port = 3478;
  priority = 16777215;
  addr = replicate 16 9;
  hostname = [];
  transport = tcp_active;
  foundation = 49 ∷ [];
}

abbrev named : Candidate
named = record {
  type = host_mdns;
  family = ipv4;
  port = 80;
  priority = 1;
  addr = replicate 16 0;
  hostname = 97 ∷ 46 ∷ 108 ∷ [];
  transport = udp;
  foundation = [];
}

relayed-IsWire : IsWire relayed
relayed-IsWire = record {
  type_fits = omega arith;
  type_named = refl;
  family_named = refl;
  port_fits = omega arith;
  priority_fits = omega arith;
  addr_length = refl;
}

named-IsWire : IsWire named
named-IsWire = record {
  type_fits = omega arith;
  type_named = refl;
  family_named = refl;
  port_fits = omega arith;
  priority_fits = omega arith;
  addr_length = refl;
}

deserialize-serialize_example :
    deserialize_signal (serialize_signal (97 ∷ []) (98 ∷ []) (relayed ∷ named ∷ []) 0x10000)
    ≡ value (
        some (record {
          header = record {
            ufrag = fixed_field 8 (97 ∷ []);
            pwd = fixed_field 32 (98 ∷ []);
            candidate_count = 2;
          };
          candidates = map sent (relayed ∷ named ∷ []);
          flags = 0x10000;
        }))
deserialize-serialize_example =
    deserialize-serialize (97 ∷ []) (98 ∷ []) (relayed ∷ named ∷ []) 0x10000 (omega arith)
      (omega arith)
      (
        record { wire = relayed-IsWire; name = inr (refl, refl) },
        (record { wire = named-IsWire; name = inl (refl, omega arith, omega arith) }, tt),
      )
      (omega arith) (omega arith) (omega arith)

pair_priority-agrees_example : pair_priority 5 9 true ≡ pair_priority 9 5 (not true)
pair_priority-agrees_example = pair_priority-agrees 5 9 true

pair_priority-lt_example : pair_priority 5 9 true < pair_priority 6 7 true
pair_priority-lt_example =
    pair_priority-lt 5 9 6 7 true (omega arith) (omega arith) (omega arith) (omega arith)
      (inl (omega arith))
