-- ===== src/Exchange/Latency.antt =====
-- Phase_4/test/test_latency.cpp: the loop that takes ticks through the order manager, the book, the
-- engine and the logger. What the simulator and the generators draw are the ticks; the clock and the
-- statistics are left out. `none` stands for undefined behaviour, or for a call of `match_orders`
-- that takes more turns than it was given.
pub mod Sound
mod Examples
use Prim.Native.String.{String}
use advanced_cpp_p1g.Base.{ℕ, suc, Bool, Option, none, some, List, [], ◌∷◌, get_elem?}
use advanced_cpp_p1g.Base.Fault.{◌>>=◌}
use advanced_cpp_p1g.Base.Int.{ℤ}
use advanced_cpp_p1g.Price.{PriceOrder}
use advanced_cpp_p1g.Exchange.Order.{Order}
use advanced_cpp_p1g.Exchange.Book.{OrderBook, init, add_order}
use advanced_cpp_p1g.Exchange.Manager.{OrderManager, empty, create_order, get_order}
use advanced_cpp_p1g.Exchange.Matching.{
  Trade, Outcome, finished, undefined, out_of_fuel, match_orders,
}
use advanced_cpp_p1g.Exchange.Matching.Settle.{orders}
use advanced_cpp_p1g.Exchange.Logger.{TradeLogger, empty_log, log_all}

pub record Tick {ℓ} (P : Type ℓ) : Type ℓ where
  pub symbol : String
  pub bid_price : P
  pub quantity : ℤ
  pub is_buy : Bool

pub record Desk {ℓ} (P : Type ℓ) : Type ℓ where
  pub oms : OrderManager P
  pub book : OrderBook P
  pub logger : TradeLogger P

module _ {ℓ} {P : Type ℓ} where
  abbrev pub returned : Outcome P → Option (List (Trade P) × OrderBook P)
  returned (finished trades book) = some (trades, book)
  returned undefined = none
  returned out_of_fuel = none

  abbrev pub new_desk : ℕ → Desk P
  new_desk pool_size = record { oms = empty; book = init pool_size; logger = empty_log }

module _ {ℓ} {P : Type ℓ} ⦃p : PriceOrder P⦄ where
  -- The book with the order that the manager holds for tick `i`.
  unfoldable pub book_order : Desk P → OrderManager P → ℕ → Option (OrderBook P)
  book_order d oms i = do
    ptr ← get_order oms i
    o ← get_elem? oms.heap ptr
    some (add_order d.book o.order_id o.symbol o.price o.quantity o.is_buy)

  -- engine.match_orders(), and the trades to the log. A turn more than there are orders is enough.
  unfoldable pub match_and_log : Desk P → OrderManager P → OrderBook P → Option (Desk P)
  match_and_log d oms book = do
    (trades, left) ← returned (match_orders (suc (orders book)) book)
    some (record { oms = oms; book = left; logger = log_all d.logger trades })

  unfoldable pub on_tick : Desk P → ℕ → Tick P → Option (Desk P)
  on_tick d i t = do
    let oms = create_order d.oms i t.symbol t.bid_price t.quantity t.is_buy
    book ← book_order d oms i
    match_and_log d oms book

  -- The loop, from tick `i` on.
  unfoldable pub on_ticks : Desk P → ℕ → List (Tick P) → Option (Desk P)
  on_ticks d i [] = some d
  on_ticks d i (t ∷ ts) = do next_desk ← on_tick d i t; on_ticks next_desk (suc i) ts
