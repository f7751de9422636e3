-- ===== src/Reorder.antt =====
-- session.cpp and session.hpp: the sequence number in front of outbound application data
-- (send_on_strand) and ordered delivery of inbound data (deliver_in_order).
pub mod Order
pub mod Complete
pub mod Overflow
mod Tests
use link_ice.Prelude.{
  ℕ, zero, suc, ◌+◌, ◌%◌, ◌^◌, Bool, true, false, if◌then◌else◌, ltb, leb, ◌==◌, Option, none, some,
  List, [], ◌∷◌, ◌++◌, length, drop, Bytes, Outcome, value, fault, spent, ◌>>=◌, read32,
}
use link_ice.Stun.Endian.{write32}

abbrev pub reorder_window : ℕ
reorder_window = 64

-- `std::map<uint32_t, vector<uint8_t>>`: the entries in the order of their keys.
abbrev pub Entry : Type 0
Entry = ℕ × Bytes

-- `recv_data_seq_` and `recv_reorder_buf_`.
pub record Receiver : Type 0 where
  pub next : ℕ
  pub buffer : List Entry

abbrev pub start : Receiver
start = record { next = 0; buffer = [] }

unfoldable pub find : ℕ → List Entry → Option Bytes
find k [] = none
find k ((n, d) ∷ m) = if n == k then some d else find k m

-- `erase` of the entry with this key.
unfoldable pub erase : ℕ → List Entry → List Entry
erase k [] = []
erase k ((n, d) ∷ m) = let rest = erase k m in if n == k then rest else (n, d) ∷ rest

-- `map[key] = data`
unfoldable pub assign : ℕ → Bytes → List Entry → List Entry
assign k d [] = (k, d) ∷ []
assign k d ((n, e) ∷ m) =
    let rest = assign k d m in
    if n == k then (k, d) ∷ m else if ltb k n then (k, d) ∷ (n, e) ∷ m else (n, e) ∷ rest

-- `begin()->first`
abbrev pub first_key : List Entry → ℕ → ℕ
first_key [] k = k
first_key ((n, d) ∷ m) k = n

abbrev pub next_seq : ℕ → ℕ
next_seq n = (n + 1) % 2 ^ 32

abbrev pub put_first : Bytes → Receiver × List Bytes → Receiver × List Bytes
put_first d (r, out) = (r, d ∷ out)

-- The loop behind a delivery: an iteration removes an entry, so the buffer's length is enough fuel.
unfoldable pub drain : ℕ → Receiver → Receiver × List Bytes
drain zero r = (r, [])
drain (suc fuel) r = elim (find r.next r.buffer) [
  | none ↦ (r, [])
  | some d ↦
      put_first d (drain fuel (record { next = next_seq r.next; buffer = erase r.next r.buffer }))
]

-- The state behind a frame and what `on_data` was called with.
unfoldable pub deliver : ℕ → Bytes → Receiver → Receiver × List Bytes
deliver seq data_ r =
    if ltb seq r.next
    then (r, [])
    else if seq == r.next
    then put_first data_ (drain (length r.buffer) (record r { next = next_seq r.next }))
    else (
      record {
        next = if leb reorder_window (length r.buffer) then first_key r.buffer r.next else r.next;
        buffer = assign seq data_ r.buffer;
      },
      [],
    )

unfoldable pub deliver_in_order : Bytes → Receiver → Outcome (Receiver × List Bytes)
deliver_in_order raw r =
    if ltb (length raw) 4
    then value (r, [])
    else (do seq ← read32 raw; value (deliver seq (drop 4 raw) r))

-- The sender: the frame with its number in front, and the counter behind it.
unfoldable pub send_framed : ℕ → Bytes → Bytes × ℕ
send_framed seq buf = (write32 seq ++ buf, next_seq seq)

-- All frames of a list, in the order of their arrival.
unfoldable pub receive : List Bytes → Receiver → Outcome (Receiver × List Bytes)
receive [] r = value (r, [])
receive (f ∷ fs) r = do
  (r', out) ← deliver_in_order f r
  (r'', more) ← receive fs r'
  value (r'', out ++ more)
