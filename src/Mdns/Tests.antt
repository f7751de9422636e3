-- ===== src/Mdns/Tests.antt =====
-- Runs of the mDNS codec on small names and messages.
use link_ice.Prelude.{
  ◌≡◌, refl, arith, [], ◌∷◌, ◌++◌, Bytes, true, false, if◌then◌else◌, Option, none, some, replicate,
  bytes_eq, value, Returns,
}
use link_ice.Stun.Address.{Inet, InetLaws}
use link_ice.Mdns.Names.{label, behind_label, encode_labels, encode_name}
use link_ice.Mdns.Messages.{encode_dns_response, parse_dns_message}
use link_ice.Mdns.Records.{scanned}
use link_ice.Mdns.Manager.{Outside, MdnsManager, resolve}
use link_ice.Mdns.Counts.{callbacks, live}
use link_ice.Mdns.Once.{
  IsOnce, resolve-IsOnce, run, register, look_up, packet, timeout, end, run-IsOnce,
}
use link_ice.Mdns.MessageRoundTrip.{parse-encode_dns_response}

-- `A.b`
abbrev host : Bytes
host = 65 ∷ 46 ∷ 98 ∷ []

abbrev loopback : Bytes
loopback = replicate 15 0 ++ (1 ∷ [])

-- An address library that knows 127.0.0.1, as `l`, and ::1, as `m`.
abbrev scan : Bytes → Option Bytes
scan ip = if bytes_eq ip (108 ∷ []) then some (127 ∷ 0 ∷ 0 ∷ 1 ∷ []) else none

abbrev scan6 : Bytes → Option Bytes
scan6 ip = if bytes_eq ip (109 ∷ []) then some loopback else none

abbrev small_inet : Inet
small_inet = record {
  pton4 = λ ip. if bytes_eq ip (108 ∷ []) then some 0x7F000001 else none;
  ntop4 = λ a. 108 ∷ [];
  pton6 = scan6;
  ntop6 = λ a. 109 ∷ [];
}

small_inet-InetLaws : InetLaws small_inet
small_inet-InetLaws = record {
  pton4-lt = λ ip a e. ground arith;
  pton6-length = λ ip a e. ground arith;
}

-- Three addresses of which one is a text that the scan refuses.
parse-encode_dns_response_example :
    parse_dns_message small_inet
      (encode_dns_response scan small_inet host 7 ((108 ∷ []) ∷ (120 ∷ []) ∷ []) ((109 ∷ []) ∷ []))
    ≡ value none
unfolding encode_name encode_labels label behind_label scanned
parse-encode_dns_response_example =
    parse-encode_dns_response scan (λ ip o e. ground arith) small_inet small_inet-InetLaws host refl
      7 ((108 ∷ []) ∷ (120 ∷ []) ∷ []) ((109 ∷ []) ∷ []) (omega arith) (omega arith)

-- A manager without names that sends to both groups.
abbrev mdns_outside : Outside
mdns_outside = record {
  scan4 = scan;
  inet = small_inet;
  random = λ n. n;
  v4_open = true;
  v6_open = true;
}

abbrev fresh : MdnsManager
fresh = record {
  running = true;
  stopping = false;
  local_v4 = (108 ∷ []) ∷ [];
  local_v6 = [];
  names = [];
  pending = [];
  next_id = 0;
  out = [];
}

fresh-IsOnce : IsOnce fresh
unfolding IsOnce callbacks live
fresh-IsOnce id = ground arith

-- One call of `resolve` that waits.
abbrev waiting : MdnsManager
waiting = resolve mdns_outside host fresh

waiting-IsOnce : IsOnce waiting
waiting-IsOnce = resolve-IsOnce mdns_outside host fresh fresh-IsOnce

run-IsOnce_example :
    Returns
      (run mdns_outside
        (register host
          ∷ look_up host
          ∷ look_up (98 ∷ [])
          ∷ packet (1 ∷ []) false
          ∷ timeout (98 ∷ []) 1
          ∷ end
          ∷ [])
        fresh)
      IsOnce
run-IsOnce_example =
    run-IsOnce mdns_outside
      (register host
        ∷ look_up host
        ∷ look_up (98 ∷ [])
        ∷ packet (1 ∷ []) false
        ∷ timeout (98 ∷ []) 1
        ∷ end
        ∷ [])
      fresh fresh-IsOnce
