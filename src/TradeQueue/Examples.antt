-- ===== src/TradeQueue/Examples.antt =====
-- The theorems on the trade queue at a ring of four places.
use advanced_cpp_p1g.Base.{ℕ, ◌+◌, ◌<◌, ◌≡◌, ◌≢◌, refl, [], ◌∷◌, ◌++◌, arith}
use advanced_cpp_p1g.TradeQueue.{ConcurrentQueue, next, distance, push, pop}
use advanced_cpp_p1g.TradeQueue.Window.{window}
use advanced_cpp_p1g.TradeQueue.Refine.{IsValid, contents, offer, poll, calls_refine_fifo}
use advanced_cpp_p1g.TradeQueue.Threads.{
  System, push_load, push_room, push_write, push_store, Reach, here, later, start,
}
use advanced_cpp_p1g.TradeQueue.Spsc.{spsc_fifo}
use advanced_cpp_p1g.TradeQueue.Race.{queued, push_race}

-- Items 10, 11, ... in the array, of which those at 3 and 0 are in the queue.
abbrev wrapped : ConcurrentQueue ℕ
wrapped = record { buffer = λ i. 10 + i; head = 3; tail = 1 }

wrapped-IsValid : IsValid 4 wrapped
wrapped-IsValid = record { head_in = omega arith; tail_in = omega arith }

calls_refine_fifo_example :
    (let (done, r) = push 4 wrapped 99 in
      IsValid 4 r × ((done, contents 4 r) ≡ offer 4 (contents 4 wrapped) 99))
    × (let (popped, r) = pop 4 wrapped in
        IsValid 4 r × ((popped, contents 4 r) ≡ poll 4 (contents 4 wrapped)))
calls_refine_fifo_example = calls_refine_fifo 4 wrapped 99 wrapped-IsValid

abbrev first : System ℕ
first = start (λ i. 0)

room : next 4 0 ≢ 0
unfolding next
room = omega arith

-- One push of 5 from the empty queue, step by step.
abbrev one_pushed : (s : System ℕ) × Reach 4 1 1 first s
one_pushed = (
  _,
  later
      (later
        (later (later here (push_load 0 5 (omega arith) refl))
          (push_room 0 5 0 (omega arith) refl room))
        (push_write 0 5 0 (omega arith) refl))
      (push_store 0 5 0 (omega arith) refl),
)

spsc_fifo_example :
    (one_pushed.0.pushed
      ≡ one_pushed.0.popped
        ++ window 4 one_pushed.0.queue.buffer one_pushed.0.queue.head
            (distance 4 one_pushed.0.queue.head one_pushed.0.queue.tail))
    × (distance 4 one_pushed.0.queue.head one_pushed.0.queue.tail < 4)
spsc_fifo_example = spsc_fifo 4 (λ i. 0) (omega arith) one_pushed.1

push_race_example :
    (u : System ℕ) × Reach 4 5 2 first u
    × (u.pushed ≡ 5 ∷ 6 ∷ [])
    × (u.popped ≡ [])
    × (queued 4 5 2 u ≡ queued 4 5 2 first ++ (6 ∷ []))
push_race_example =
    push_race 4 5 2 first 5 6 (omega arith) refl refl (omega arith) (omega arith) room
