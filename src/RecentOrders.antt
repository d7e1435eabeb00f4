-- ===== src/RecentOrders.antt =====
-- Phase_5/src/OrderBook.cpp: `class OptimizedOrderBook`, a pool of at most `size` orders in which a
-- new order takes the place of the oldest. Orders are only moved, so they are of any type. The two
-- int counters stay at most `size`.
pub mod Contents
mod Examples
use advanced_cpp_p1g.Base.{
  ℕ, ◌+◌, Option, none, some, List, [], ◌∷◌, ◌++◌, ltb, ◌==◌, if◌then◌else◌, length, set,
}
use advanced_cpp_p1g.Base.Fault.{◌>>=◌}

pub record OptimizedOrderBook {ℓ} (T : Type ℓ) : Type ℓ where
  pub order_pool : List T
  pub order_counter : ℕ
  pub oldest_order : ℕ
  pub size : ℕ

module _ {ℓ} {T : Type ℓ} where
  -- The constructor; with size 0 also the default constructor.
  abbrev pub init : ℕ → OptimizedOrderBook T
  init size = record { order_pool = []; order_counter = 0; oldest_order = 0; size = size }

  -- orderPool[i] = o, undefined past the end
  abbrev store : List T → ℕ → T → Option (List T)
  store pool i o = if ltb i (length pool) then some (set pool i o) else none

  pub handle_order : OptimizedOrderBook T → T → Option (OptimizedOrderBook T)
  handle_order b o =
      if ltb b.order_counter b.size
      then some
          (record b { order_counter = b.order_counter + 1; order_pool = b.order_pool ++ (o ∷ []) })
      else (store b.order_pool b.oldest_order o >>= λ pool. some (record b {
        order_pool = pool;
        oldest_order = if b.oldest_order + 1 == b.size then 0 else b.oldest_order + 1;
      }))

  -- The loop takes two orders a round, and the last one alone.
  pub process_orders : OptimizedOrderBook T → List T → Option (OptimizedOrderBook T)
  process_orders b [] = some b
  process_orders b (o ∷ []) = handle_order b o
  process_orders b (o ∷ o' ∷ os) = do
    b₁ ← handle_order b o
    b₂ ← handle_order b₁ o'
    process_orders b₂ os
