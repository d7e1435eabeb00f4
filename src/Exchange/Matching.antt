-- ===== src/Exchange/Matching.antt =====
-- Phase_4/include/MatchingEngine.hpp and Phase_4/src/MatchingEngine.cpp.
pub mod Settle
pub mod Progress
pub mod Run
pub mod Limits
pub mod Ids
use advanced_cpp_p1g.Base.{
  ℕ, zero, suc, Bool, true, false, Option, none, some, List, [], ◌∷◌, ◌++◌, if◌then◌else◌,
}
use advanced_cpp_p1g.Base.Fault.{◌>>=◌}
use advanced_cpp_p1g.Base.Int.{ℤ, min_ℤ}
use advanced_cpp_p1g.Price.{PriceOrder}
use advanced_cpp_p1g.Exchange.Order.{Order, fill_fits, update_filled, is_filled}
use advanced_cpp_p1g.Exchange.Pool
use advanced_cpp_p1g.Exchange.Book.{OrderBook, get_best_bid, get_best_ask, remove_order}

pub record Trade {ℓ} (P : Type ℓ) : Type ℓ where
  pub buy_order_id : ℕ
  pub sell_order_id : ℕ
  pub price : P
  pub quantity : ℤ

-- One turn of the loop in `match_orders`: it breaks, or it trades.
pub data Turn {ℓ} (P : Type ℓ) : Type ℓ where
  stop : Turn P
  traded : Trade P → OrderBook P → Turn P

-- How a call of `match_orders` ends: with its trades and the book that it leaves, with undefined
-- behaviour, or not within the given number of turns.
pub data Outcome {ℓ} (P : Type ℓ) : Type ℓ where
  finished : List (Trade P) → OrderBook P → Outcome P
  undefined : Outcome P
  out_of_fuel : Outcome P

module _ {ℓ} {P : Type ℓ} where
  -- p->update_filled(quantity). `none`: the pointer dangles, or the sum overflows an int.
  pub fill : OrderBook P → ℕ → ℤ → Option (OrderBook P)
  fill b s quantity = do
    o ← Pool.deref b.pool s
    if fill_fits o quantity
        then some (record b { pool = Pool.store b.pool s (update_filled o quantity) })
        else none

  -- if (p->get_status() == OrderStatus::Filled) order_book_.remove_order(p->get_id());
  pub remove_if_filled : OrderBook P → ℕ → Option (OrderBook P)
  remove_if_filled b s = do
    o ← Pool.deref b.pool s
    if is_filled o.status then remove_order b o.order_id else some b

  -- The two fills and the two removals of a turn, by the pointers of the best bid and ask.
  pub execute : OrderBook P → ℕ → ℕ → ℤ → Option (OrderBook P)
  execute b best_bid best_ask quantity = do
    b₁ ← fill b best_bid quantity
    b₂ ← fill b₁ best_ask quantity
    b₃ ← remove_if_filled b₂ best_bid
    remove_if_filled b₃ best_ask

  abbrev pub trade_of : Order P → Order P → Trade P
  trade_of bid ask = record {
    buy_order_id = bid.order_id;
    sell_order_id = ask.order_id;
    price = ask.price;
    quantity = min_ℤ bid.quantity ask.quantity;
  }

module _ {ℓ} {P : Type ℓ} ⦃p : PriceOrder P⦄ where
  open p use {lt}

  turn_at : OrderBook P → Option ℕ → Option ℕ → Option (Turn P)
  turn_at b none best_ask = some stop
  turn_at b (some s) none = some stop
  turn_at b (some s) (some t) = do
    bid ← Pool.deref b.pool s
    ask ← Pool.deref b.pool t
    if lt bid.price ask.price
        then some stop
        else (execute b s t (min_ℤ bid.quantity ask.quantity) >>= λ c.
            some (traded (trade_of bid ask) c))

  pub turn : OrderBook P → Option (Turn P)
  unfolding turn_at
  turn b = turn_at b (get_best_bid b) (get_best_ask b)

  -- The loop, with the trades so far; `fuel` bounds its turns.
  match_loop : ℕ → OrderBook P → List (Trade P) → Outcome P
  match_loop zero b trades = out_of_fuel
  match_loop (suc fuel) b trades = elim (turn b) [
    | none ↦ undefined
    | some stop ↦ finished trades b
    | some (traded t c) ↦ match_loop fuel c (trades ++ (t ∷ []))
  ]

  pub match_orders : ℕ → OrderBook P → Outcome P
  unfolding match_loop
  match_orders fuel b = match_loop fuel b []
