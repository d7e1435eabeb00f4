-- ===== src/Experimental.antt =====
-- Session7/ExperimentalQueue.hpp: the ring in three versions, which differ in the memory orders and
-- fences alone. One thread sees no difference between the orders, so the model leaves them out. A
-- queue has the fields of `ConcurrentQueue`.
pub mod AnyMix
mod Examples
use advanced_cpp_p1g.Base.{
  ℕ, ◌+◌, ◌%◌, Bool, true, false, Option, none, some, List, [], ◌∷◌, ◌==◌, if◌then◌else◌,
}
use advanced_cpp_p1g.TradeQueue.{ConcurrentQueue, write}

module _ {ℓ} (capacity : ℕ) {T : Type ℓ} where
  unfoldable pub push_relaxed : ConcurrentQueue T → T → Bool × ConcurrentQueue T
  push_relaxed q item =
      let next_tail = (q.tail + 1) % capacity in
      if next_tail == q.head
      then (false, q)
      else (true, record q { buffer = write q.buffer q.tail item; tail = next_tail })

  -- The item that goes out through the reference; `none` stands for the result false.
  unfoldable pub pop_relaxed : ConcurrentQueue T → Option T × ConcurrentQueue T
  pop_relaxed q =
      if q.head == q.tail
      then (none, q)
      else (some (q.buffer q.head), record q { head = (q.head + 1) % capacity })

  unfoldable pub push_seq_cst : ConcurrentQueue T → T → Bool × ConcurrentQueue T
  push_seq_cst q item =
      let next_tail = (q.tail + 1) % capacity in
      if next_tail == q.head
      then (false, q)
      else (true, record q { buffer = write q.buffer q.tail item; tail = next_tail })

  unfoldable pub pop_seq_cst : ConcurrentQueue T → Option T × ConcurrentQueue T
  pop_seq_cst q =
      if q.head == q.tail
      then (none, q)
      else (some (q.buffer q.head), record q { head = (q.head + 1) % capacity })

  unfoldable pub push_fenced : ConcurrentQueue T → T → Bool × ConcurrentQueue T
  push_fenced q item =
      let next_tail = (q.tail + 1) % capacity in
      if next_tail == q.head
      then (false, q)
      else (true, record q { buffer = write q.buffer q.tail item; tail = next_tail })

  unfoldable pub pop_fenced : ConcurrentQueue T → Option T × ConcurrentQueue T
  pop_fenced q =
      if q.head == q.tail
      then (none, q)
      else (some (q.buffer q.head), record q { head = (q.head + 1) % capacity })
