-- ===== src/TradeQueue.antt =====
-- Session7/ConcurrentQueue.hpp, as one thread sees it. The array is a function of the index; the
-- invariant `IsValid` keeps every index that is used below the capacity. The interleavings of
-- threads are in the child modules.
pub mod Window
pub mod Refine
pub mod Threads
pub mod Spsc
pub mod Race
mod Examples
use advanced_cpp_p1g.Base.{
  ℕ, ◌+◌, ◌-◌, ◌%◌, Bool, true, false, Option, none, some, ltb, ◌==◌, if◌then◌else◌,
}

pub record ConcurrentQueue {ℓ} (T : Type ℓ) : Type ℓ where
  pub buffer : ℕ → T
  pub head : ℕ
  pub tail : ℕ

-- buffer[i] = item
abbrev pub write {ℓ} : {T : Type ℓ} → (ℕ → T) → ℕ → T → ℕ → T
write buffer i item j = if i == j then item else buffer j

module _ (capacity : ℕ) where
  -- (i + 1) % Capacity
  unfoldable pub next : ℕ → ℕ
  next i = (i + 1) % capacity

  unfoldable pub distance : ℕ → ℕ → ℕ
  distance h t = if ltb t h then capacity - h + t else t - h

module _ {ℓ} (capacity : ℕ) {T : Type ℓ} where
  unfoldable pub push : ConcurrentQueue T → T → Bool × ConcurrentQueue T
  push q item =
      if next capacity q.tail == q.head
      then (false, q)
      else (true, record q { buffer = write q.buffer q.tail item; tail = next capacity q.tail })

  -- The item that goes out through the reference; `none` stands for the result false.
  unfoldable pub pop : ConcurrentQueue T → Option T × ConcurrentQueue T
  pop q =
      if q.head == q.tail
      then (none, q)
      else (some (q.buffer q.head), record q { head = next capacity q.head })

  unfoldable pub empty : ConcurrentQueue T → Bool
  empty q = q.head == q.tail

  unfoldable pub full : ConcurrentQueue T → Bool
  full q = next capacity q.tail == q.head

  unfoldable pub size : ConcurrentQueue T → ℕ
  size q = distance capacity q.head q.tail
