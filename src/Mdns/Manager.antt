-- ===== src/Mdns/Manager.antt =====
-- `MdnsManager` of mdns.cpp: the names it answers for and the queries that wait. The handlers run one at a
-- time on the manager's strand. Sockets are parameters: which of the two are open, and what arrives.
use link_ice.Prelude.{
  ℕ, ◌+◌, ◌%◌, ◌^◌, ◌&&◌, ◌||◌, not, Bool, true, false, if◌then◌else◌, ◌==◌, List, [], ◌∷◌, ◌++◌,
  Bytes, bytes_eq, Option, none, some, Outcome, value, ◌>>=◌,
}
use link_ice.Prelude.Assoc.{bytes_key, lookup, put, remove}
use link_ice.CheckList.{contains}
use link_ice.Stun.Address.{Inet}
use link_ice.Mdns.Names.{to_lower, is_empty}
use link_ice.Mdns.Messages.{
  dns_type_a, dns_type_aaaa, Answer, DnsParsedMessage, encode_dns_query, encode_dns_response,
  parse_dns_message,
}

pub record NameRecord : Type 0 where
  pub ipv4 : List Bytes
  pub ipv6 : List Bytes

pub record MdnsResolveResult : Type 0 where
  pub ipv4 : List Bytes
  pub ipv6 : List Bytes
  pub resolved : Bool

-- A query that waits; `id` tells the objects apart.
pub record PendingQuery : Type 0 where
  pub id : ℕ
  pub txn_id : ℕ
  pub accumulated : MdnsResolveResult
  pub fired : Bool

-- The callback of a query, and what leaves through a socket: to the multicast group of the family, or
-- back to the endpoint that asked.
pub data Action : Type 0 where
  callback : ℕ → MdnsResolveResult → Action
  multicast_v4 multicast_v6 unicast_v4 unicast_v6 : Bytes → Action

-- What the manager is given.
pub record Outside : Type 0 where
  pub scan4 : Bytes → Option Bytes
  pub inet : Inet
  pub random : ℕ → ℕ
  pub v4_open : Bool
  pub v6_open : Bool

-- `pending_`: the queries of each name, which the code keeps in an unordered map.
abbrev pub Pending : Type 0
Pending = List (Bytes × List PendingQuery)

-- The members; `next_id` counts the calls of `resolve`, `out` collects the actions.
pub record MdnsManager : Type 0 where
  pub running : Bool
  pub stopping : Bool
  pub local_v4 : List Bytes
  pub local_v6 : List Bytes
  pub names : List (Bytes × NameRecord)
  pub pending : Pending
  pub next_id : ℕ
  pub out : List Action

abbrev pub emit_all : List Action → MdnsManager → MdnsManager
emit_all as_ m = record m { out = m.out ++ as_ }

-- `pending_[name].push_back(q)`
unfoldable pub push : Bytes → PendingQuery → Pending → Pending
push name q [] = (name, q ∷ []) ∷ []
push name q ((n, qs) ∷ m) =
    let rest = push name q m in if bytes_eq n name then (n, qs ++ (q ∷ [])) ∷ m else (n, qs) ∷ rest

-- The query of this name and identity.
unfoldable pub find_id : ℕ → List PendingQuery → Option PendingQuery
find_id id [] = none
find_id id (q ∷ qs) = let rest = find_id id qs in if q.id == id then some q else rest

unfoldable pub find_query : Bytes → ℕ → Pending → Option PendingQuery
find_query name id [] = none
find_query name id ((n, qs) ∷ m) =
    let rest = find_query name id m in if bytes_eq n name then find_id id qs else rest

unfoldable pub without_id : ℕ → List PendingQuery → List PendingQuery
without_id id [] = []
without_id id (q ∷ qs) = let rest = without_id id qs in if q.id == id then rest else q ∷ rest

abbrev pub keep_list : Bytes → List PendingQuery → Pending → Pending
keep_list n [] m = m
keep_list n (q ∷ qs) m = (n, q ∷ qs) ∷ m

-- The removal of a query, and of its name with the last one.
unfoldable pub drop_query : Bytes → ℕ → Pending → Pending
drop_query name id [] = []
drop_query name id ((n, qs) ∷ m) =
    let rest = drop_query name id m in
    if bytes_eq n name then keep_list n (without_id id qs) m else (n, qs) ∷ rest

-- An address is added once.
abbrev pub add_address : Bytes → List Bytes → List Bytes
add_address ip ips = if is_empty ip || contains ip ips then ips else ips ++ (ip ∷ [])

abbrev pub is_new : Bytes → List Bytes → Bool
is_new ip ips = not (is_empty ip) && not (contains ip ips)

unfoldable pub absorb_one : Answer → PendingQuery → PendingQuery
absorb_one ans q =
    let r = q.accumulated in
    record q {
      accumulated = record {
        ipv4 = add_address ans.ipv4 r.ipv4;
        ipv6 = add_address ans.ipv6 r.ipv6;
        resolved = r.resolved || (is_new ans.ipv4 r.ipv4 || is_new ans.ipv6 r.ipv6);
      };
    }

unfoldable pub absorb_list : Answer → List PendingQuery → List PendingQuery
absorb_list ans [] = []
absorb_list ans (q ∷ qs) = absorb_one ans q ∷ absorb_list ans qs

unfoldable pub absorb : Answer → Pending → Pending
absorb ans [] = []
absorb ans ((n, qs) ∷ m) =
    let rest = absorb ans m in
    if bytes_eq n ans.name then (n, absorb_list ans qs) ∷ m else (n, qs) ∷ rest

unfoldable pub absorb_all : List Answer → Pending → Pending
absorb_all [] m = m
absorb_all (a ∷ as_) m = absorb_all as_ (absorb a m)

-- The queries of a name that have an answer, apart from the others.
unfoldable pub fire_list : List PendingQuery → List PendingQuery × List Action
fire_list [] = ([], [])
fire_list (q ∷ qs) =
    let (kept, calls) = fire_list qs in
    if q.accumulated.resolved && not q.fired
    then (kept, callback q.id q.accumulated ∷ calls)
    else (q ∷ kept, calls)

unfoldable pub fire_resolved : Pending → Pending × List Action
fire_resolved [] = ([], [])
fire_resolved ((n, qs) ∷ m) =
    let (kept, calls) = fire_list qs in
    let (rest, more) = fire_resolved m in (keep_list n kept rest, calls ++ more)

-- The callbacks that `stop` makes.
unfoldable pub fire_all_list : List PendingQuery → List Action
fire_all_list [] = []
fire_all_list (q ∷ qs) =
    let rest = fire_all_list qs in if q.fired then rest else callback q.id q.accumulated ∷ rest

unfoldable pub fire_all : Pending → List Action
fire_all [] = []
fire_all ((n, qs) ∷ m) = fire_all_list qs ++ fire_all m

abbrev pub no_address : List Bytes → Bool
no_address [] = true
no_address (ip ∷ ips) = false

module _ (out : Outside) where
  unfoldable pub register_name : Bytes → MdnsManager → MdnsManager
  register_name hostname m = record m {
    names = put (to_lower hostname) (record { ipv4 = m.local_v4; ipv6 = m.local_v6 }) m.names;
  }

  unfoldable pub unregister_name : Bytes → MdnsManager → MdnsManager
  unregister_name hostname m = record m { names = remove (to_lower hostname) m.names }

  abbrev pub unless_empty : Action → Bytes → List Action
  unless_empty a [] = []
  unless_empty a (b ∷ bs) = a ∷ []

  -- A query for A and one for AAAA, to the group of every open socket.
  unfoldable pub send_query : Bytes → ℕ → MdnsManager → List Action
  send_query hostname_lc txn_id m =
      let a = encode_dns_query hostname_lc txn_id false in
      let aaaa = encode_dns_query hostname_lc txn_id true in
      let v4 = unless_empty (multicast_v4 a) a ++ unless_empty (multicast_v4 aaaa) aaaa in
      let v6 = unless_empty (multicast_v6 a) a ++ unless_empty (multicast_v6 aaaa) aaaa in
      if m.stopping
      then []
      else (if out.v4_open then v4 else []) ++ (if out.v6_open then v6 else [])

  -- A name of the manager's own is answered at once; any other waits for an answer, the timeout or the end.
  unfoldable pub resolve : Bytes → MdnsManager → MdnsManager
  resolve hostname m =
      let name = to_lower hostname in
      let txn = out.random m.next_id % 2 ^ 16 in
      let q : PendingQuery = record {
        id = m.next_id;
        txn_id = txn;
        accumulated = record { ipv4 = []; ipv6 = []; resolved = false };
        fired = false;
      } in
      let t = record m { next_id = m.next_id + 1 } in
      elim (lookup name m.names) [
        | some rec ↦
            emit_all
              (callback m.next_id (record { ipv4 = rec.ipv4; ipv6 = rec.ipv6; resolved = true })
                ∷ [])
              t
        | none ↦ emit_all (send_query name txn m) (record t { pending = push name q m.pending })
      ]

  -- The timer of a query. The object of a query that has not fired is in `pending`, so it is looked up there.
  unfoldable pub on_timeout : Bytes → ℕ → MdnsManager → MdnsManager
  on_timeout name id m = elim (find_query name id m.pending) [
    | none ↦ m
    | some q ↦
        if q.fired
        then m
        else emit_all (callback id q.accumulated ∷ [])
            (record m { pending = drop_query name id m.pending })
  ]

  unfoldable pub stop : MdnsManager → MdnsManager
  stop m =
      if m.running
      then emit_all (fire_all m.pending)
          (record m { running = false; stopping = true; pending = [] })
      else m

  -- The answer to a query, in the family of the query's socket.
  unfoldable pub send_answer : Bytes → NameRecord → ℕ → ℕ → Bool → MdnsManager → List Action
  send_answer hostname rec txn_id qtype dst_is_v6 m =
      let v4 = if qtype == dns_type_aaaa then [] else rec.ipv4 in
      let v6 = if qtype == dns_type_a then [] else rec.ipv6 in
      let pkt = encode_dns_response out.scan4 out.inet hostname txn_id v4 v6 in
      if m.stopping
      then []
      else if no_address v4 && no_address v6
      then []
      else if dst_is_v6 && out.v6_open
      then multicast_v6 pkt ∷ unicast_v6 pkt ∷ []
      else if out.v4_open
      then multicast_v4 pkt ∷ unicast_v4 pkt ∷ []
      else []

  unfoldable pub on_query : DnsParsedMessage → Bool → MdnsManager → MdnsManager
  on_query msg from_v6 m = if is_empty msg.question then m else elim (lookup msg.question m.names) [
    | none ↦ m
    | some rec ↦ emit_all (send_answer msg.question rec msg.txn_id msg.qtype from_v6 m) m
  ]

  unfoldable pub on_response : DnsParsedMessage → MdnsManager → MdnsManager
  on_response msg m =
      let (pending, calls) = fire_resolved (absorb_all msg.answers m.pending) in
      emit_all calls (record m { pending = pending })

  unfoldable pub on_packet : Bytes → Bool → MdnsManager → Outcome MdnsManager
  on_packet bytes from_v6 m = do
    parsed ← parse_dns_message out.inet bytes
    value (elim parsed [
      | none ↦ m
      | some msg ↦ if msg.is_response then on_response msg m else on_query msg from_v6 m
    ])
