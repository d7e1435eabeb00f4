-- ===== src/TradeProcessing.antt =====
-- Session7/OrderTypes.hpp and Session7/OrderProcessing.cpp: the orders that a producer makes, and what
-- a consumer does with an order that it got from the queue. The locks make each update one step; the
-- shared variables are updated together, as no thread reads one against the other. Time stamps,
-- the semaphore and the latch are not modelled. Arithmetic on prices is a parameter.
pub mod Volumes
pub mod Analytics
pub mod Threads
mod Examples
use Prim.Native.String.{String}
use advanced_cpp_p1g.Base.{
  ℕ, zero, suc, ◌+◌, ◌*◌, ◌%◌, Bool, Option, none, some, List, [], ◌∷◌, ◌++◌, ◌==◌, if◌then◌else◌,
  find, assign, string_eq,
}
use advanced_cpp_p1g.Base.Int.{ℤ, pos, ◌+ℤ◌}

pub record Order {ℓ} (D : Type ℓ) : Type ℓ where
  pub order_id : ℕ
  pub symbol : String
  pub quantity : ℤ
  pub price : D
  pub is_buy : Bool

-- The shared variables: symbol → (buy volume, sell volume), the completed orders, and their number.
pub record Shared {ℓ} (D : Type ℓ) : Type ℓ where
  pub order_book : List (String × (ℤ × ℤ))
  pub completed_orders : List (Order D)
  pub orders_processed : ℕ

-- orderBook[symbol], which is (0, 0) for a symbol that was never used
abbrev pub or_zero : Option (ℤ × ℤ) → ℤ × ℤ
or_zero none = (pos 0, pos 0)
or_zero (some entry) = entry

module _ {ℓ} {D : Type ℓ} where
  abbrev pub no_trades : Shared D
  no_trades = record { order_book = []; completed_orders = []; orders_processed = 0 }

  abbrev pub add_volume : Order D → ℤ × ℤ → ℤ × ℤ
  add_volume o (bought, sold) =
      if o.is_buy then (bought +ℤ o.quantity, sold) else (bought, sold +ℤ o.quantity)

  -- A consumer's work on one order.
  unfoldable pub process : Shared D → Order D → Shared D
  process s o = record {
    order_book = assign o.symbol (add_volume o (or_zero (find o.symbol s.order_book))) s.order_book;
    completed_orders = s.completed_orders ++ (o ∷ []);
    orders_processed = s.orders_processed + 1;
  }

  -- Orders in the sequence in which the consumers get to them.
  unfoldable pub process_in_turn : Shared D → List (Order D) → Shared D
  process_in_turn s [] = s
  process_in_turn s (o ∷ os) = process_in_turn (process s o) os

module _ {ℓ} {D : Type ℓ} (apple_price google_price : ℕ → D) where
  -- The order that a producer makes in round `i`.
  abbrev pub produced_order : ℕ → ℕ → Order D
  produced_order producer_id i = record {
    order_id = producer_id * 1000 + i;
    symbol = if i % 2 == 0 then "APPL" else "GOOGL";
    quantity = pos (100 + i);
    price = if i % 2 == 0 then apple_price i else google_price i;
    is_buy = i % 2 == 0;
  }

  -- The first `n` orders of a producer, in order.
  unfoldable pub produced : ℕ → ℕ → List (Order D)
  produced producer_id zero = []
  produced producer_id (suc n) = produced producer_id n ++ (produced_order producer_id n ∷ [])
