-- ===== src/TradeProcessing/Threads/Examples.antt =====
-- The theorems on the threads at a ring of eight places and the orders of a producer.
use advanced_cpp_p1g.Base.{ℕ, ◌+◌, ◌≡◌, true, List, [], ◌∷◌, replicate, arith}
use advanced_cpp_p1g.TradeQueue.Refine.{contents}
use advanced_cpp_p1g.TradeProcessing.{Order, produced, produced_order}
use advanced_cpp_p1g.TradeProcessing.Threads.{finished, Turn, no_orders, steps, begin}
use advanced_cpp_p1g.TradeProcessing.Threads.Lost.{orders_left_behind}

abbrev apple : ℕ → ℕ
apple i = 14623 + i

abbrev google : ℕ → ℕ
google i = 280050 + i

abbrev slots : ℕ → Order ℕ
slots i = produced_order apple google 0 0

abbrev three : List (Order ℕ)
three = produced apple google 1 3

orders_left_behind_example :
    (ts : List Turn) × let s = steps 8 (begin slots (three ∷ []) 4) ts in
      (no_orders s.producers ≡ true)
      × (s.consumers ≡ replicate 4 finished)
      × (s.shared.completed_orders ≡ [])
      × (contents 8 s.queue ≡ three)
unfolding produced
orders_left_behind_example = orders_left_behind 8 slots three 4 (omega arith)
