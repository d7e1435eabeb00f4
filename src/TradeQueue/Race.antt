-- ===== src/TradeQueue/Race.antt =====
-- With two producers, as in Session7/main.cpp, the queue loses items.
use advanced_cpp_p1g.Base.{ℕ, ◌<◌, ◌≡◌, ◌≢◌, refl, ap₂, ◌∙◌, List, [], ◌∷◌, ◌++◌, arith}
use advanced_cpp_p1g.TradeQueue.{write, next, distance}
use advanced_cpp_p1g.TradeQueue.Window.{window, window-write, window-advance_tail, write_self}
use advanced_cpp_p1g.TradeQueue.Threads.{
  Producer, idle, loaded, checked, written, System, push_load, push_room, push_write, push_store,
  Reach, here, later,
}

module _ (capacity n_producers n_consumers : ℕ) {T : Type 0} where
  -- What lies in the queue.
  abbrev pub queued : System T → List T
  queued s =
      window capacity s.queue.buffer s.queue.head (distance capacity s.queue.head s.queue.tail)

  -- The two producers, step by step in turn, from `push(x)` and `push(y)` to the end of both calls.
  abbrev both_push : (ℕ → Producer T) → T → T → ℕ → ℕ → Producer T
  both_push f x y t =
      write
        (write
          (write
            (write
              (write (write (write (write f 0 (loaded x t)) 1 (loaded y t)) 0 (checked x t)) 1
                (checked y t))
              0 (written x t))
            1 (written y t))
          0 idle)
        1 idle

  -- The state after two producers have written to the same place.
  abbrev raced : System T → T → T → System T
  raced s x y = record s {
    queue = record {
      buffer = write (write s.queue.buffer s.queue.tail x) s.queue.tail y;
      head = s.queue.head;
      tail = next capacity s.queue.tail;
    };
    producers = both_push s.producers x y s.queue.tail;
    pushed = (s.pushed ++ (x ∷ [])) ++ (y ∷ []);
  }

  Reach-raced :
      (s : System T) (x y : T)
      → 1 < n_producers
      → s.producers 0 ≡ idle
      → s.producers 1 ≡ idle
      → next capacity s.queue.tail ≢ s.queue.head
      → Reach capacity n_producers n_consumers s (raced s x y)
  Reach-raced s x y two e₀ e₁ room =
      later
        (later
          (later
            (later
              (later
                (later (later (later here (push_load 0 x (omega arith) e₀)) (push_load 1 y two e₁))
                  (push_room 0 x s.queue.tail (omega arith) refl room))
                (push_room 1 y s.queue.tail two refl room))
              (push_write 0 x s.queue.tail (omega arith) refl))
            (push_write 1 y s.queue.tail two refl))
          (push_store 0 x s.queue.tail (omega arith) refl))
        (push_store 1 y s.queue.tail two refl)

  -- Whenever two producers are outside of `push` and the queue has room, they can both push, and
  -- both get true, so that only the second item is in the queue afterwards: the first is lost.
  pub push_race :
      (s : System T) (x y : T)
      → 1 < n_producers
      → s.producers 0 ≡ idle
      → s.producers 1 ≡ idle
      → s.queue.head < capacity
      → s.queue.tail < capacity
      → next capacity s.queue.tail ≢ s.queue.head
      → (u : System T) × Reach capacity n_producers n_consumers s u
        × (u.pushed ≡ (s.pushed ++ (x ∷ [])) ++ (y ∷ []))
        × (u.popped ≡ s.popped)
        × (queued u ≡ queued s ++ (y ∷ []))
  push_race s x y two e₀ e₁ hh ht room = (
    raced s x y,
    Reach-raced s x y two e₀ e₁ room,
    refl,
    refl,
    window-advance_tail capacity (write (write s.queue.buffer s.queue.tail x) s.queue.tail y)
          s.queue.head s.queue.tail hh ht room
        ∙ ap₂ (λ l z. l ++ (z ∷ []))
            (window-write capacity (write s.queue.buffer s.queue.tail x) y _ s.queue.head
                s.queue.tail hh ht refl
              ∙ window-write capacity s.queue.buffer x _ s.queue.head s.queue.tail hh ht refl)
            (write_self (write s.queue.buffer s.queue.tail x) s.queue.tail y),
  )
