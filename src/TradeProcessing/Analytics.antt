-- ===== src/TradeProcessing/Analytics.antt =====
-- Session7/Analytics.cpp: the report on the completed orders. The latency of an order is computed from
-- its two time stamps, which stay outside the model, as do the arithmetic on doubles, std::reduce and
-- std::nth_element: all are parameters. The report is returned where the code prints it.
pub mod Counts
mod Examples
use Prim.Native.String.{String}
use advanced_cpp_p1g.Base.{
  ℕ, zero, suc, ◌+◌, ◌-◌, ◌/◌, Bool, Option, none, some, List, [], ◌∷◌, if◌then◌else◌, length, map,
  get_elem?, find, assign, string_eq,
}
use advanced_cpp_p1g.TradeProcessing.{Order}

-- Doubles, and what the library makes of a list of them.
pub record Doubles {ℓ} (R : Type ℓ) : Type ℓ where
  pub hundred : R
  pub of_count : ℕ → R
  pub sub : R → R → R
  pub mul : R → R → R
  pub div : R → R → R
  pub sqrt : R → R
  pub lt : R → R → Bool
  pub reduce : List R → R
  pub nth_element : List R → ℕ → List R

pub record Report {ℓ} (R : Type ℓ) : Type ℓ where
  pub total_orders : ℕ
  pub avg_latency : R
  pub median : Option R
  pub min_max : Option (R × R)
  pub std_dev : R
  pub symbol_counts : List (String × ℕ)
  pub buy_count : ℕ
  pub buy_percentage : R
  pub sell_count : ℕ
  pub sell_percentage : R

abbrev pub or_nought : Option ℕ → ℕ
or_nought none = 0
or_nought (some n) = n

module _ {ℓ} {D : Type ℓ} where
  -- for (order : completedOrders) symbolCounts[order.symbol]++;
  unfoldable pub count_symbols : List (String × ℕ) → List (Order D) → List (String × ℕ)
  count_symbols counts [] = counts
  count_symbols counts (o ∷ os) =
      count_symbols (assign o.symbol (or_nought (find o.symbol counts) + 1) counts) os

  -- std::count_if over the orders
  abbrev pub count_buys : List (Order D) → ℕ
  count_buys [] = 0
  count_buys (o ∷ os) = let rest = count_buys os in if o.is_buy then suc rest else rest

module _ {κ} {R : Type κ} (r : Doubles R) where
  -- std::minmax_element: the first smallest and the last largest
  abbrev pub min_max_of : R × R → List R → R × R
  min_max_of (least, most) [] = (least, most)
  min_max_of (least, most) (x ∷ xs) =
      min_max_of (if r.lt x least then x else least, if r.lt x most then most else x) xs

  abbrev pub min_max_element : List R → Option (R × R)
  min_max_element [] = none
  min_max_element (x ∷ xs) = some (min_max_of (x, x) xs)

  -- The term of one latency in the sum for the variance.
  abbrev pub squared_distance : R → R → R
  squared_distance avg x = r.mul (r.sub x avg) (r.sub x avg)

module _ {ℓ κ} {D : Type ℓ} {R : Type κ} (r : Doubles R) where
  -- The report on completed orders, of which there is at least one.
  unfoldable pub report : (Order D → R) → List (Order D) → Report R
  report latency orders =
      let latencies = map latency orders in
      let size = r.of_count (length latencies) in
      let avg = r.div (r.reduce latencies) size in
      let n = length latencies / 2 in
      let buys = count_buys orders in
      let percentage = r.div (r.mul r.hundred (r.of_count buys)) (r.of_count (length orders)) in
      record {
        total_orders = length orders;
        avg_latency = avg;
        median = get_elem? (r.nth_element latencies n) n;
        min_max = min_max_element r latencies;
        std_dev = r.sqrt (r.div (r.reduce (map (squared_distance r avg) latencies)) size);
        symbol_counts = count_symbols [] orders;
        buy_count = buys;
        buy_percentage = percentage;
        sell_count = length orders - buys;
        sell_percentage = r.sub r.hundred percentage;
      }

  -- `none` stands for the message that there are no orders.
  unfoldable pub run_analytics : (Order D → R) → List (Order D) → Option (Report R)
  run_analytics latency [] = none
  run_analytics latency (o ∷ os) = some (report latency (o ∷ os))
