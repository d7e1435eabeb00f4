-- ===== src/TradeQueue/Refine.antt =====
-- With one thread the ring is a bounded FIFO queue of Capacity - 1 items.
use advanced_cpp_p1g.Base.{
  ℕ, ◌+◌, ◌<◌, ◌≡◌, ◌≢◌, refl, ap, ap₂, ◌∙◌, inl, inr, Bool, true, false, Option, none, some, List,
  [], ◌∷◌, ◌++◌, ◌==◌, Bool-cases, if◌then◌else◌, length, arith,
}
use advanced_cpp_p1g.TradeQueue.{
  ConcurrentQueue, write, next, distance, push, pop, empty, full, size,
}
use advanced_cpp_p1g.TradeQueue.Window.{
  next_lem, next-lt, distance-pop, distance_self, distance-lt, window, length-window, window-write,
  window-advance_tail, write_self,
}

module _ (capacity : ℕ) where
  -- Full is: one place is left. Empty is: no item.
  full_iff :
      (h t : ℕ)
      → h < capacity
      → t < capacity
      → (next capacity t == h) ≡ (distance capacity h t + 1 == capacity)
  unfolding distance
  full_iff h t hh ht = ground (arith, next_lem capacity t ht)

  empty_iff : (h t : ℕ) → h < capacity → t < capacity → (h == t) ≡ (distance capacity h t == 0)
  unfolding distance
  empty_iff h t hh ht = ground arith

module _ {ℓ} (capacity : ℕ) {T : Type ℓ} where
  -- Both indices lie in the array.
  pub record IsValid (q : ConcurrentQueue T) : Type 0 where
    pub head_in : q.head < capacity
    pub tail_in : q.tail < capacity

  -- The items in the queue, oldest first.
  abbrev pub contents : ConcurrentQueue T → List T
  contents q = window capacity q.buffer q.head (distance capacity q.head q.tail)

  -- A FIFO queue of at most capacity - 1 items.
  abbrev pub offer : List T → T → Bool × List T
  offer xs x = if length xs + 1 == capacity then (false, xs) else (true, xs ++ (x ∷ []))

  abbrev pub poll : List T → Option T × List T
  poll [] = (none, [])
  poll (x ∷ xs) = (some x, xs)

  pushed :
      (q : ConcurrentQueue T) (item : T)
      → IsValid q
      → next capacity q.tail ≢ q.head
      → window capacity
          (write q.buffer q.tail item)
          q.head
          (distance capacity q.head (next capacity q.tail))
        ≡ contents q ++ (item ∷ [])
  pushed q item v ne =
      window-advance_tail capacity (write q.buffer q.tail item) q.head q.tail v.head_in v.tail_in ne
      ∙ ap₂ (λ l x. l ++ (x ∷ []))
          (window-write capacity q.buffer item _ q.head q.tail v.head_in v.tail_in refl)
          (write_self q.buffer q.tail item)

  none_left :
      (q : ConcurrentQueue T) → (q.head == q.tail) ≡ true → distance capacity q.head q.tail ≡ 0
  none_left q e = ground (arith, distance_self capacity q.head)

  -- `push` keeps the indices in the array, and returns and does what offering the item to the FIFO
  -- queue of its contents does: it refuses it exactly when capacity - 1 items are in the queue, and
  -- otherwise puts it behind all others.
  pub push_refines :
      (q : ConcurrentQueue T) (item : T)
      → IsValid q
      → let (done, r) = push capacity q item in
        IsValid r × ((done, contents r) ≡ offer (contents q) item)
  unfolding push
  push_refines q item v = elim (Bool-cases (next capacity q.tail == q.head)) [
    | inl e ↦ rw e (
      v,
      rw (
        length-window capacity q.buffer q.head (distance capacity q.head q.tail),
        ← full_iff capacity q.head q.tail v.head_in v.tail_in,
        e,
      ),
    )
    | inr e ↦ rw e (
      record { head_in = v.head_in; tail_in = next-lt capacity q.tail v.tail_in },
      ap (λ l. (true, l)) (pushed q item v (λ same. ground arith))
          ∙ rw (
            length-window capacity q.buffer q.head (distance capacity q.head q.tail),
            ← full_iff capacity q.head q.tail v.head_in v.tail_in,
            e,
          ),
    )
  ]

  -- `pop` keeps the indices in the array, and returns and does what polling the FIFO queue of its
  -- contents does: it fails exactly on the empty queue, and otherwise takes out the oldest item.
  pub pop_refines :
      (q : ConcurrentQueue T)
      → IsValid q
      → let (item, r) = pop capacity q in IsValid r × ((item, contents r) ≡ poll (contents q))
  unfolding pop
  pop_refines q v = elim (Bool-cases (q.head == q.tail)) [
    | inl e ↦ rw e (v, rw (none_left q e) refl)
    | inr e ↦ rw e (
      record { head_in = next-lt capacity q.head v.head_in; tail_in = v.tail_in },
      rw (distance-pop capacity q.head q.tail v.head_in v.tail_in (λ same. ground arith)) refl,
    )
  ]

  -- On a queue with both indices in the array, `push` and `pop` keep them there. `push` returns and
  -- does what offering the item to the FIFO queue of the contents does: it refuses it exactly when
  -- capacity - 1 items are in the queue, and otherwise puts it behind all others. `pop` returns and
  -- does what polling that queue does: it fails exactly when there is no item, and otherwise takes
  -- out the oldest one.
  pub calls_refine_fifo :
      (q : ConcurrentQueue T) (item : T)
      → IsValid q
      → (let (done, r) = push capacity q item in
          IsValid r × ((done, contents r) ≡ offer (contents q) item))
        × (let (popped, r) = pop capacity q in
            IsValid r × ((popped, contents r) ≡ poll (contents q)))
  calls_refine_fifo q item v = (push_refines q item v, pop_refines q v)

  -- `size` is the number of items, which is below the capacity; `empty` and `full` tell exactly
  -- whether there is no item and whether there is no room for one more.
  pub size-length :
      (q : ConcurrentQueue T)
      → IsValid q
      → (size capacity q ≡ length (contents q))
        × (size capacity q < capacity)
        × (empty capacity q ≡ (length (contents q) == 0))
        × (full capacity q ≡ (length (contents q) + 1 == capacity))
  unfolding size empty full
  size-length q v = rw (length-window capacity q.buffer q.head (distance capacity q.head q.tail)) (
    refl,
    distance-lt capacity q.head q.tail v.head_in v.tail_in,
    empty_iff capacity q.head q.tail v.head_in v.tail_in,
    full_iff capacity q.head q.tail v.head_in v.tail_in,
  )
