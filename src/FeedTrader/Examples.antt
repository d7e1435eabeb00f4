-- ===== src/FeedTrader/Examples.antt =====
-- The theorems on the strategy at small feeds, with prices in ticks.
use advanced_cpp_p1g.Base.{ℕ, List, [], ◌∷◌, nat_eq}
use advanced_cpp_p1g.Base.Int.{pos, negsuc}
use advanced_cpp_p1g.Price.{tick_order}
use advanced_cpp_p1g.FeedTrader.Feed.{FeedEvent, bid, execution}
use advanced_cpp_p1g.FeedTrader.Strategy.{start, run}
use advanced_cpp_p1g.FeedTrader.Strategy.Sales.{Sells, run-Sells}

abbrev feed : List (FeedEvent ℕ)
feed =
    record { type = bid; price = 101; quantity = pos 300; order_id = negsuc 0 }
    ∷ record { type = execution; price = 0; quantity = pos 20; order_id = pos 1 }
    ∷ record { type = bid; price = 102; quantity = pos 200; order_id = negsuc 0 }
    ∷ []

run-Sells_example : Sells 100 (run 100 (start 0) feed)
run-Sells_example = run-Sells 100 0 feed
