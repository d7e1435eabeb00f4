-- ===== src/Exchange/Examples.antt =====
-- The theorems on the exchange at concrete books, with prices in ticks.
use advanced_cpp_p1g.Base.{
  ℕ, ◌≡◌, refl, sym, subst, true, false, none, some, [], ◌∷◌, find, assign, nat_eq, arith, length,
}
use advanced_cpp_p1g.Base.Int.{pos, ◌<ℤ◌, ◌+ℤ◌}
use advanced_cpp_p1g.Price.{tick_order, PriceOrder}
use advanced_cpp_p1g.Exchange.Order.{Order, partially_filled, make, IsOpen}
use advanced_cpp_p1g.Exchange.Pool
use advanced_cpp_p1g.Exchange.Levels.{emplace}
use advanced_cpp_p1g.Exchange.Book.{
  OrderBook, init, get_best_bid, get_best_ask, remove_order, enter_order, add_order,
}
use advanced_cpp_p1g.Exchange.Book.Valid.{IsValid, init-IsValid}
use advanced_cpp_p1g.Exchange.Book.Priority.{Queued, add_order-Queued}
use advanced_cpp_p1g.Exchange.Book.Lookup.{
  Added, dropped, entered, Removed, add_order-Added, remove_order-Removed,
}
use advanced_cpp_p1g.Exchange.Matching.{Trade, traded, out_of_fuel, turn, match_orders}
use advanced_cpp_p1g.Exchange.Matching.Settle.{orders}
use advanced_cpp_p1g.Exchange.Matching.Progress.{TurnOf, turn-TurnOf}
use advanced_cpp_p1g.Exchange.Book.Update.{write, write-IsValid}
use advanced_cpp_p1g.Exchange.Matching.Run.{Finishes, match_orders-Finishes}
use advanced_cpp_p1g.Exchange.Matching.Limits.{IsStuck, Meet, turn_overfills, match_orders_stuck}

IsValid-after {ℓ κ} :
    {P : Type ℓ} ⦃p : PriceOrder P⦄ {Q : Order P → Type κ} {b : OrderBook P} {o : Order P}
    {c : OrderBook P}
    → Added Q b o c
    → IsValid Q b
    → IsValid Q c
IsValid-after {Q} (dropped full e) v = subst (IsValid Q) (sym e) v
IsValid-after (entered w reads) v = w

abbrev one : OrderBook ℕ
one = add_order (init 4) 1 "ACME" 100 (pos 10) true

-- A book whose two orders cross.
abbrev two : OrderBook ℕ
two = add_order one 2 "ACME" 99 (pos 5) false

add_order-Added_example : Added IsOpen (init 4) (make 1 "ACME" 100 (pos 10) true) one
unfolding init find
add_order-Added_example =
    add_order-Added (init 4) 1 "ACME" 100 (pos 10) true (init-IsValid 4) refl
      (omega arith, omega arith, omega arith, omega arith)

one-IsValid : IsValid IsOpen one
unfolding init find
one-IsValid =
    IsValid-after
      (add_order-Added (init 4) 1 "ACME" 100 (pos 10) true (init-IsValid 4) refl
        (omega arith, omega arith, omega arith, omega arith))
      (init-IsValid 4)

fresh : find 2 one.id_lookup ≡ none
unfolding init find assign add_order enter_order Pool.init Pool.allocate Pool.first_free Pool.place
fresh = refl

two-IsValid : IsValid IsOpen two
two-IsValid =
    IsValid-after
      (add_order-Added one 2 "ACME" 99 (pos 5) false one-IsValid fresh
        (omega arith, omega arith, omega arith, omega arith))
      one-IsValid

two_orders : orders two ≡ 2
unfolding init find assign add_order enter_order Pool.init Pool.allocate Pool.first_free Pool.place
    emplace
two_orders = refl

match_orders-Finishes_example : Finishes two [] (match_orders 3 two)
match_orders-Finishes_example = match_orders-Finishes 3 two (omega (arith, two_orders)) two-IsValid

turn-TurnOf_example : TurnOf two (turn two)
turn-TurnOf_example = turn-TurnOf two two-IsValid

remove_order-Removed_example :
    (c : OrderBook ℕ) × (remove_order two 1 ≡ some c) × Removed IsOpen two 1 c
remove_order-Removed_example = remove_order-Removed two 1 two-IsValid

free_slot : Pool.deref two.pool 2 ≡ none
unfolding init find assign add_order enter_order Pool.init Pool.allocate Pool.first_free Pool.place
    Pool.deref Pool.cell
free_slot = refl

slots : length two.pool.pool ≡ 4
unfolding init find assign add_order enter_order Pool.init Pool.allocate Pool.first_free Pool.place
slots = refl

add_order-Queued_example :
    Queued two (make 3 "ACME" 100 (pos 7) true) (add_order two 3 "ACME" 100 (pos 7) true)
add_order-Queued_example =
    add_order-Queued two 3 "ACME" 100 (pos 7) true 2 two-IsValid (omega (arith, slots)) free_slot

-- A buy order of 10 of which 4 are filled, and a sell order of 12.
abbrev partly : Order ℕ
partly = record (make 1 "ACME" 100 (pos 10) true) {
  filled_quantity = pos 4;
  status = partially_filled;
}

abbrev large : Order ℕ
large = make 2 "ACME" 99 (pos 12) false

-- The book that holds them, the buy order not filled yet.
abbrev unfilled : OrderBook ℕ
unfilled = add_order one 2 "ACME" 99 (pos 12) false

-- The book that holds them.
abbrev resting : OrderBook ℕ
resting = write unfilled 0 partly

unfilled-IsValid : IsValid IsOpen unfilled
unfilled-IsValid =
    IsValid-after
      (add_order-Added one 2 "ACME" 99 (pos 12) false one-IsValid fresh
        (omega arith, omega arith, omega arith, omega arith))
      one-IsValid

first_order : Pool.deref unfilled.pool 0 ≡ some (make 1 "ACME" 100 (pos 10) true)
unfolding init find assign add_order enter_order Pool.init Pool.allocate Pool.first_free Pool.place
    Pool.deref Pool.cell
first_order = refl

resting-IsValid : IsValid IsOpen resting
resting-IsValid =
    write-IsValid unfilled 0 (make 1 "ACME" 100 (pos 10) true) partly first_order refl refl refl
      (λ x h. h) (omega arith, omega arith, omega arith, omega arith) unfilled-IsValid

resting-Meet : Meet resting 0 1 partly large
unfolding init find assign add_order enter_order Pool.init Pool.allocate Pool.first_free Pool.place
    emplace get_best_bid get_best_ask Pool.store Pool.deref Pool.cell
resting-Meet = record {
  best_bid = refl;
  best_ask = refl;
  live_bid = refl;
  live_ask = refl;
  cross = refl;
}

turn_overfills_example :
    (x : Trade ℕ) × (c : OrderBook ℕ) × (turn resting ≡ some (traded x c))
    × (x.buy_order_id ≡ 1)
    × (pos 10 <ℤ pos 4 +ℤ x.quantity)
turn_overfills_example =
    turn_overfills resting 0 1 partly large resting-IsValid resting-Meet (omega arith) (omega arith)

-- A buy order of quantity 0 that reaches a sell order.
abbrev zero_order : OrderBook ℕ
zero_order = record {
  pool = record {
    pool = some (make 1 "ACME" 100 (pos 0) true) ∷ some large ∷ [];
    in_use = true ∷ true ∷ [];
  };
  buy_orders = (100, 0) ∷ [];
  sell_orders = (99, 1) ∷ [];
  id_lookup = (1, 0) ∷ (2, 1) ∷ [];
}

zero_order-IsStuck : IsStuck zero_order
unfolding get_best_bid get_best_ask Pool.deref Pool.cell
zero_order-IsStuck = record {
  s = 0;
  t = 1;
  bid = make 1 "ACME" 100 (pos 0) true;
  ask = large;
  best_bid = refl;
  best_ask = refl;
  apart = omega arith;
  live_bid = refl;
  live_ask = refl;
  cross = refl;
  nothing = refl;
  bid_unfilled = refl;
  ask_unfilled = refl;
}

match_orders_stuck_example : match_orders 1000 zero_order ≡ out_of_fuel
match_orders_stuck_example = match_orders_stuck 1000 zero_order zero_order-IsStuck
