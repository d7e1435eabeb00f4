-- ===== src/Exchange/Latency/Examples.antt =====
-- The theorem on the loop at a buy and a sell order that cross, with prices in ticks.
use advanced_cpp_p1g.Base.{ℕ, ◌≡◌, true, false, some, List, [], ◌∷◌, arith}
use advanced_cpp_p1g.Base.Int.{pos}
use advanced_cpp_p1g.Price.{tick_order}
use advanced_cpp_p1g.Exchange.Order.{Order, new, IsOpen}
use advanced_cpp_p1g.Exchange.Book.Valid.{IsValid}
use advanced_cpp_p1g.Exchange.Manager.Orders.{order_at}
use advanced_cpp_p1g.Exchange.Matching.Progress.Executed.{IsUncrossed}
use advanced_cpp_p1g.Exchange.Latency.{Tick, Desk, new_desk, on_ticks}
use advanced_cpp_p1g.Exchange.Latency.Sound.{on_ticks_lem}

abbrev crossing : List (Tick ℕ)
crossing =
    record { symbol = "AAPL"; bid_price = 101; quantity = pos 5; is_buy = true }
    ∷ record { symbol = "AAPL"; bid_price = 100; quantity = pos 3; is_buy = false }
    ∷ []

on_ticks_lem_example :
    (d : Desk ℕ) × (on_ticks (new_desk 4) 0 crossing ≡ some d)
    × IsValid IsOpen d.book
    × IsUncrossed d.book
    × ((j : ℕ) (o : Order ℕ)
        → order_at d.oms j ≡ some o
        → (o.status ≡ new) × (o.filled_quantity ≡ pos 0))
on_ticks_lem_example =
    on_ticks_lem 4 crossing ((omega arith, omega arith), ((omega arith, omega arith), tt))
