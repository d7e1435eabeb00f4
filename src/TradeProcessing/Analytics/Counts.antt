-- ===== src/TradeProcessing/Analytics/Counts.antt =====
-- The counts in the report are those of the orders that were processed, and the median is a median.
use Prim.Native.String.{String}
use text.Mathlib.Text.{◌==◌ as str_eq}
use advanced_cpp_p1g.Base.{
  ℕ, suc, ◌+◌, ◌-◌, ◌≡◌, refl, ap, ◌∙◌, inl, inr, some, List, [], ◌∷◌, if◌then◌else◌, length, find,
  assign, string_eq, find-assign, arith, Bool-cases,
}
use advanced_cpp_p1g.TradeProcessing.{Order, no_trades, process_in_turn}
use advanced_cpp_p1g.TradeProcessing.Volumes.{process_in_turn_lem}
use advanced_cpp_p1g.TradeProcessing.Analytics.{
  Doubles, Report, or_nought, count_symbols, count_buys, report, run_analytics,
}

-- The sum of the counts of all symbols.
abbrev pub sum_counts : List (String × ℕ) → ℕ
sum_counts [] = 0
sum_counts ((symbol, n) ∷ counts) = n + sum_counts counts

sum_counts-assign :
    (symbol : String) (n : ℕ) (counts : List (String × ℕ))
    → sum_counts (assign symbol n counts) + or_nought (find symbol counts) ≡ sum_counts counts + n
unfolding find assign
sum_counts-assign symbol n [] = omega arith
sum_counts-assign symbol n ((k, m) ∷ counts) = elim (Bool-cases (str_eq k symbol)) [
  | inl e ↦ rw e (omega arith)
  | inr e ↦ rw e (omega (arith, sum_counts-assign symbol n counts))
]

module _ {ℓ} {D : Type ℓ} where
  -- The orders for a symbol, and the sell orders.
  abbrev pub orders_for : String → List (Order D) → ℕ
  orders_for symbol [] = 0
  orders_for symbol (o ∷ os) =
      let rest = orders_for symbol os in if str_eq o.symbol symbol then suc rest else rest

  abbrev pub count_sells : List (Order D) → ℕ
  count_sells [] = 0
  count_sells (o ∷ os) = let rest = count_sells os in if o.is_buy then rest else suc rest

  count_symbols_lem :
      (counts : List (String × ℕ)) (os : List (Order D)) (symbol : String)
      → or_nought (find symbol (count_symbols counts os))
        ≡ or_nought (find symbol counts) + orders_for symbol os
  unfolding count_symbols
  count_symbols_lem counts [] symbol = omega arith
  count_symbols_lem counts (o ∷ os) symbol =
      let counted = or_nought (find o.symbol counts) + 1 in
      count_symbols_lem (assign o.symbol counted counts) os symbol
      ∙ (ap (λ n. or_nought n + orders_for symbol os) (find-assign o.symbol symbol counted counts)
          ∙ (elim (Bool-cases (str_eq o.symbol symbol)) [
            | inl e ↦
                let same : o.symbol ≡ symbol = (string_eq.beq_iff o.symbol symbol).0 e in
                rw e (
                  ap (λ x. or_nought (find x counts) + 1 + orders_for symbol os) same ∙ omega arith)
            | inr e ↦ rw e refl
          ]))

  sum_counts_lem :
      (counts : List (String × ℕ)) (os : List (Order D))
      → sum_counts (count_symbols counts os) ≡ sum_counts counts + length os
  unfolding count_symbols
  sum_counts_lem counts [] = omega arith
  sum_counts_lem counts (o ∷ os) = omega (
    arith,
    sum_counts_lem (assign o.symbol (or_nought (find o.symbol counts) + 1) counts) os,
    sum_counts-assign o.symbol (or_nought (find o.symbol counts) + 1) counts,
  )

  buys_and_sells : (os : List (Order D)) → count_buys os + count_sells os ≡ length os
  buys_and_sells [] = omega arith
  buys_and_sells (o ∷ os) = ground (arith, buys_and_sells os)

  sells_left : (os : List (Order D)) → length os - count_buys os ≡ count_sells os
  sells_left os = omega (arith, buys_and_sells os)

module _ {ℓ κ} {D : Type ℓ} {R : Type κ} (r : Doubles R) (latency : Order D → R) where
  -- The report after any orders, of which there is at least one, were processed in any sequence: its
  -- total is the counter of processed orders; the count of each symbol is the number of its orders,
  -- and the counts add up to the total; the buy and the sell counts are the numbers of buy and of
  -- sell orders.
  pub run_analytics-process_in_turn :
      (o : Order D) (os : List (Order D))
      → let s = process_in_turn no_trades (o ∷ os) in
        (rep : Report R) × (run_analytics r latency s.completed_orders ≡ some rep)
        × (rep.total_orders ≡ s.orders_processed)
        × ((symbol : String)
            → or_nought (find symbol rep.symbol_counts) ≡ orders_for symbol (o ∷ os))
        × (sum_counts rep.symbol_counts ≡ rep.total_orders)
        × (rep.buy_count ≡ count_buys (o ∷ os))
        × (rep.sell_count ≡ count_sells (o ∷ os))
  unfolding run_analytics report find
  run_analytics-process_in_turn o os =
      let done = process_in_turn_lem no_trades (o ∷ os) in
      (
        report r latency (o ∷ os),
        rw done.1 refl,
        omega (arith, done.2),
        λ symbol. count_symbols_lem [] (o ∷ os) symbol ∙ omega arith,
        sum_counts_lem [] (o ∷ os) ∙ omega arith,
        refl,
        sells_left (o ∷ os),
      )
