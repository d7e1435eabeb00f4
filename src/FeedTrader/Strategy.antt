-- ===== src/FeedTrader/Strategy.antt =====
-- Phase_3/main.cpp: the loop over the feed. The limit of 100.00 and the price -1.0 that stands for no
-- sale yet are parameters, and `!=` on doubles that are not NaN is: one is less than the other.
pub mod Sales
use advanced_cpp_p1g.Base.{
  Bool, true, false, Option, none, some, List, [], ◌∷◌, ◌||◌, if◌then◌else◌,
}
use advanced_cpp_p1g.Base.Int.{pos}
use advanced_cpp_p1g.Price.{PriceOrder}
use advanced_cpp_p1g.FeedTrader.Snapshot.{
  PriceLevel, MarketSnapshot, no_levels, get_best_bid, update_bid, update_ask,
}
use advanced_cpp_p1g.FeedTrader.Orders.{OrderManager, sell, no_orders, place_order, handle_fill}
use advanced_cpp_p1g.FeedTrader.Feed.{FeedType, FeedEvent, bid, ask, execution, unknown}

-- The variables of `main`.
pub record Trader {ℓ} (P : Type ℓ) : Type ℓ where
  pub snapshot : MarketSnapshot P
  pub om : OrderManager P
  pub last_sell_price : P

module _ {ℓ} {P : Type ℓ} ⦃p : PriceOrder P⦄ where
  open p use {lt}

  abbrev pub differ : P → P → Bool
  differ a b = lt a b || lt b a

  -- best_bid && best_bid->price > 100.00
  abbrev pub is_high : P → Option (PriceLevel P) → Bool
  is_high limit none = false
  is_high limit (some level) = lt limit level.price

  abbrev pub should_sell : P → MarketSnapshot P → Bool
  should_sell limit s = is_high limit (get_best_bid s)

  -- The chain of tests of the event's type.
  abbrev pub apply_typed : Trader P → FeedType → FeedEvent P → Trader P
  apply_typed t bid e = record t { snapshot = update_bid t.snapshot e.price e.quantity }
  apply_typed t ask e = record t { snapshot = update_ask t.snapshot e.price e.quantity }
  apply_typed t execution e = record t { om = handle_fill t.om e.order_id e.quantity }
  apply_typed t unknown e = t

  unfoldable pub apply_event : Trader P → FeedEvent P → Trader P
  apply_event t e = apply_typed t e.type e

  unfoldable pub sell_at : Trader P → Option (PriceLevel P) → Trader P
  sell_at t none = t
  sell_at t (some level) =
      if differ level.price t.last_sell_price
      then record t {
        om = (place_order t.om sell level.price (pos 50)).1;
        last_sell_price = level.price;
      }
      else t

  unfoldable pub sell_if_high : P → Trader P → Trader P
  sell_if_high limit t =
      let sold = sell_at t (get_best_bid t.snapshot) in
      if should_sell limit t.snapshot then sold else t

  abbrev pub start : P → Trader P
  start no_sale = record { snapshot = no_levels; om = no_orders; last_sell_price = no_sale }

  -- The loop over the events.
  unfoldable pub run : P → Trader P → List (FeedEvent P) → Trader P
  run limit t [] = t
  run limit t (e ∷ events) = run limit (sell_if_high limit (apply_event t e)) events
