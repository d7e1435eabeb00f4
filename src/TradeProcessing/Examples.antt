-- ===== src/TradeProcessing/Examples.antt =====
-- The theorems on the processing of trades at the first orders of two producers.
use Prim.Native.String.{String}
use advanced_cpp_p1g.Base.{ℕ, ◌+◌, ◌≡◌, true, false, List, ◌++◌, length}
use advanced_cpp_p1g.Base.Int.{◌+ℤ◌}
use advanced_cpp_p1g.TradeProcessing.{Order, Shared, no_trades, process_in_turn, produced}
use advanced_cpp_p1g.TradeProcessing.Volumes.{volume, total, process_in_turn_lem}

-- Two orders of producer 1 and one of producer 2, at prices in cents.
abbrev orders : List (Order ℕ)
orders =
    produced (λ i. 14623 + i) (λ i. 280050 + i) 1 2
    ++ produced (λ i. 14623 + i) (λ i. 280050 + i) 2 1

abbrev before : Shared ℕ
before = no_trades

process_in_turn_lem_example :
    let r = process_in_turn before orders in
    ((symbol : String)
      → volume r symbol ≡ (
        (volume before symbol).0 +ℤ total true symbol orders,
        (volume before symbol).1 +ℤ total false symbol orders,
      ))
    × (r.completed_orders ≡ before.completed_orders ++ orders)
    × (r.orders_processed ≡ before.orders_processed + length orders)
process_in_turn_lem_example = process_in_turn_lem before orders
