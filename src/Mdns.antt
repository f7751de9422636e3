-- ===== src/Mdns.antt =====
-- mdns.hpp and mdns.cpp: names on the wire, the DNS messages of the responder and the resolver, and the
-- manager's tables of names and pending queries.
pub mod Names
pub mod LocalNames
pub mod NameSafety
pub mod NameRoundTrip
pub mod Messages
pub mod MessageSafety
pub mod Records
pub mod MessageRoundTrip
pub mod Manager
pub mod Counts
pub mod Once
mod Tests
