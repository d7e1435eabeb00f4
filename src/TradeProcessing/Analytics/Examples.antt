-- ===== src/TradeProcessing/Analytics/Examples.antt =====
-- The theorem on the report at two orders, with latencies in microseconds and whole numbers in place
-- of doubles.
use Prim.Native.String.{String}
use advanced_cpp_p1g.Base.{ℕ, ◌+◌, ◌-◌, ◌*◌, ◌/◌, ◌≡◌, ltb, some, List, [], ◌∷◌, find, string_eq}
use advanced_cpp_p1g.TradeProcessing.{Order, no_trades, process_in_turn, produced_order}
use advanced_cpp_p1g.TradeProcessing.Analytics.{
  Doubles, Report, or_nought, count_buys, run_analytics,
}
use advanced_cpp_p1g.TradeProcessing.Analytics.Counts.{
  orders_for, count_sells, sum_counts, run_analytics-process_in_turn,
}

abbrev sum : List ℕ → ℕ
sum [] = 0
sum (n ∷ ns) = n + sum ns

abbrev whole : Doubles ℕ
whole = record {
  hundred = 100;
  of_count = λ n. n;
  sub = λ a b. a - b;
  mul = λ a b. a * b;
  div = λ a b. a / b;
  sqrt = λ a. a;
  lt = ltb;
  reduce = sum;
  nth_element = λ xs n. xs;
}

abbrev latency : Order ℕ → ℕ
latency o = 100 + o.order_id

abbrev bought : Order ℕ
bought = produced_order (λ i. 14623 + i) (λ i. 280050 + i) 1 0

abbrev sold : Order ℕ
sold = produced_order (λ i. 14623 + i) (λ i. 280050 + i) 1 1

run_analytics-process_in_turn_example :
    let s = process_in_turn no_trades (bought ∷ sold ∷ []) in
    (rep : Report ℕ) × (run_analytics whole latency s.completed_orders ≡ some rep)
    × (rep.total_orders ≡ s.orders_processed)
    × ((symbol : String)
        → or_nought (find symbol rep.symbol_counts) ≡ orders_for symbol (bought ∷ sold ∷ []))
    × (sum_counts rep.symbol_counts ≡ rep.total_orders)
    × (rep.buy_count ≡ count_buys (bought ∷ sold ∷ []))
    × (rep.sell_count ≡ count_sells (bought ∷ sold ∷ []))
run_analytics-process_in_turn_example =
    run_analytics-process_in_turn whole latency bought (sold ∷ [])
