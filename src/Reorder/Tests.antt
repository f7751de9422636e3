-- ===== src/Reorder/Tests.antt =====
-- Runs of ordered delivery on a few frames.
use link_ice.Prelude.{
  ℕ, zero, suc, ◌≤◌, ◌<◌, ◌≡◌, refl, arith, List, [], ◌∷◌, map, length, Bytes, Returns, inl, inr,
}
use link_ice.Reorder.{Receiver, Entry, start, find, erase, assign, drain, deliver, receive}
use link_ice.Reorder.Order.{stream, frame, overflows, InRange}
use link_ice.Reorder.Complete.{Among, receive-in_order}
use link_ice.Reorder.Overflow.{Without, deliver_all, overflow-stalls}

abbrev payloads : ℕ → Bytes
payloads n = n ∷ n ∷ []

-- A duplicate and a gap, both closed in the end.
abbrev shuffled : List ℕ
shuffled = 1 ∷ 0 ∷ 1 ∷ 2 ∷ []

three-Among : (k : ℕ) → k < 3 → Among k shuffled
unfolding Among
three-Among zero h = inr (inl refl)
three-Among (suc zero) h = inl refl
three-Among (suc (suc zero)) h = inr (inr (inr (inl refl)))
three-Among (suc (suc (suc k))) h = absurd (omega arith)

receive-in_order_example :
    Returns
      (receive (map (frame payloads) shuffled) start)
      (λ x. (x.1 ≡ stream payloads 0 (length x.1)) × (3 ≤ length x.1))
unfolding InRange overflows deliver drain find erase assign
receive-in_order_example =
    receive-in_order payloads shuffled 3
      (omega arith, (omega arith, (omega arith, (omega arith, tt)))) refl three-Among

-- Frames 70 to 133 wait while frame 0 is expected.
abbrev waiting_from : ℕ → ℕ → List Entry
waiting_from zero n = []
waiting_from (suc m) n = (n, n ∷ []) ∷ waiting_from m (suc n)

abbrev full_receiver : Receiver
full_receiver = record { next = 0; buffer = waiting_from 64 70 }

overflow-stalls_example :
    ((deliver 200 (1 ∷ []) full_receiver).0.next ≡ 70)
    × ((deliver_all ((200, 1 ∷ []) ∷ (0, 2 ∷ []) ∷ (71, 3 ∷ []) ∷ []) full_receiver).1 ≡ [])
unfolding Without
overflow-stalls_example =
    overflow-stalls 70 200 (1 ∷ []) (70 ∷ []) (waiting_from 63 71) full_receiver
      ((0, 2 ∷ []) ∷ (71, 3 ∷ []) ∷ []) refl (omega arith) (omega arith) (omega arith)
      (λ e. absurd (omega (arith, e)), (λ e. absurd (omega (arith, e)), tt))
