-- ===== src/Lib.antt =====
-- A verification library for the ICE link: the STUN and TURN wire formats, the candidates and their
-- signal envelope, the search for the path MTU, ordered delivery, the check list, the session's
-- handlers, its connections and gathering, the TURN client and the mDNS manager.
--
-- The parts and how they interact. A session (session.cpp) gathers candidates, exchanges them in a
-- signal envelope (candidate.hpp), pairs them into a check list, and sends STUN binding requests
-- (stun.cpp) over the pairs until one is nominated; application data then goes over that pair, with a
-- sequence number in front where ordered delivery is on. A TURN client (turn.cpp) carries data over a
-- relay, as STUN messages or as ChannelData, with a length prefix on a stream. A search
-- (path_mtu.cpp) finds how large the packets on the chosen path may be.
--
-- The files.
--   Prelude: the names that all share. Prelude/Memory has the result of code that reads through a
--     pointer: a value, a fault (a read outside the buffer), or fuel that is spent.
--   Stun: stun.hpp and stun.cpp. Endian, Address, Crc, Builder (StunBuilder), Parser (parse_stun),
--     Integrity (verify_integrity) and ChannelData hold the definitions under the source's names;
--     CheckRequest has the message of send_check in session.cpp. A pointer into a packet is the list
--     of the bytes from there on.
--   PathMtu: path_mtu.hpp and path_mtu.cpp; `Probe` is PathMtuProbe.
--   Candidate: candidate.hpp; Wire has the 24-byte record, Signal has the envelope.
--   Reorder: deliver_in_order and the framing of send_on_strand in session.cpp; the field `next` is
--     recv_data_seq_, the field `buffer` is recv_reorder_buf_.
--   CheckList: the pair states of session.cpp from assign_initial_pair_states to
--     unfreeze_stuck_pairs, begin_checks and run_next_check in a session that is Checking, and what
--     send_check does to the list. The clock is an argument.
--   Session: the state of IceSession and its handlers, from build_check_list to on_keepalive. A handler
--     is a function from the session before it to the session behind it; what it sends and calls is
--     appended to the field `out`. The connections that a check of the list opens are not followed:
--     what the connection maps hold when a handler runs is an argument (the record Outside). The timers
--     are not part of the state: what a timer runs is a function, and the generation counters that
--     cancel a timer have no field. last_activity_ is set from the clock of Outside; the stores of send and of
--     the relay's data callback, which hand the time to the reaper alone, are left out.
--   Session/Connections: the connection maps of IceSession (ensure_remote_cid, relay_cid_for_endpoint,
--     ensure_remote_tcp_cid, on_tcp_connect_timeout, tear_down_cids) as a state of their own. What connect
--     returns is an argument.
--   Session/Stream: on_tcp_carrier_data. The handlers it calls leave the buffers alone.
--   Session/AppData: send, send_on_strand and flush_pending_app_data.
--   Session/Gather: gathering on the state Gatherer, the session with the further members that gathering
--     uses. Probes has the STUN servers and on_gathering_complete, Relays the walk over the TURN servers and
--     the failover. Here a timer has the generation it was armed under, and does nothing once that is past.
--     gather_relay puts a lone cfg_.turn among the servers, and what runs later is given that configuration.
--     Fire has what the timers and posted retries run, Walk and Stranded what comes of it. Hosts has the host
--     candidates, Phase gather and set_remote; that a hidden host's name is also registered is left to Mdns.
--   Mdns: mdns.cpp; Names has encode_name and decode_name, Messages the queries, the responses and
--     their parser, Manager the tables of MdnsManager and its handlers, Once what is said of them,
--     LocalNames the names of the hidden hosts.
--   Turn: turn.cpp. Framing and Channels have the stream framing and the channels by themselves, Client the
--     TurnClient and its requests, DataConnections the TCP allocations, Dispatch on_inbound; Relay, Connect,
--     Retry and Health have the theorems. The mutex has no counterpart: the handlers run one at a time.
--   Prelude/Assoc: the maps, as association lists.
--
-- Parameters. inet_pton and inet_ntop (the record Inet), HMAC-SHA1, MD5, std::ranges::sort, sscanf of an
-- address, the URI parser, the random ids and credentials, the carriers, the factory of data connections
-- and the clock are arguments; what is asked of them are hypotheses of the theorems that need it.
--
-- Fuel. The parser's loops move on by four bytes or more, so the packet's length is enough; the
-- alignment loop takes at most three steps; the drain of the reorder buffer and the loop over stream
-- frames make what they work on shorter, so its length is enough; the digits of a port are five. A DNS name
-- takes at most 16 jumps and 255 bytes of labels, so 272 rounds are enough.
--
-- Numbers are natural numbers, with the wrap-around of a machine integer written out where the source
-- can reach it.
--
-- Not modelled: the port mapping, which gives further candidates; the listing of the system's interfaces; the
-- resolution of the peer's mDNS candidates in the session; the sockets of MdnsManager; the plugin glue, the
-- clients of other plugins, the interface watcher and the debug output, which are I/O.
pub mod Prelude
pub mod Stun
pub mod PathMtu
pub mod Candidate
pub mod Reorder
pub mod CheckList
pub mod Turn
pub mod Mdns
pub mod Session
