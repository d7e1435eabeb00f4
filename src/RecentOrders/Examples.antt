-- ===== src/RecentOrders/Examples.antt =====
-- The theorems on the pool of recent orders at a pool of two.
use advanced_cpp_p1g.Base.{ℕ, ◌≡◌, some, [], ◌∷◌, arith}
use advanced_cpp_p1g.RecentOrders.{OptimizedOrderBook, init, process_orders}
use advanced_cpp_p1g.RecentOrders.Contents.{
  contents, slide_all, IsValid, init-IsValid, process_orders_lem,
}

two-IsValid : IsValid {T = ℕ} (init 2)
two-IsValid = init-IsValid 2 (omega arith)

process_orders_lem_example :
    (c : OptimizedOrderBook ℕ) × (process_orders (init 2) (5 ∷ 6 ∷ 7 ∷ []) ≡ some c)
    × IsValid c
    × (c.size ≡ 2)
    × (contents c ≡ slide_all 2 (contents {T = ℕ} (init 2)) (5 ∷ 6 ∷ 7 ∷ []))
process_orders_lem_example = process_orders_lem (init 2) (5 ∷ 6 ∷ 7 ∷ []) two-IsValid
