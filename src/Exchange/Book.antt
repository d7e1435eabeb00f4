-- ===== src/Exchange/Book.antt =====
-- Phase_4/include/OrderBook.hpp and Phase_4/src/OrderBook.cpp. The raw pointers and iterators that
-- the book hands out are slots of its pool, so a change through a pointer is a change of the pool.
-- Printing is not modelled.
pub mod Valid
pub mod Enter
pub mod Priority
pub mod Lookup
pub mod Best
pub mod Update
pub mod Ids
use advanced_cpp_p1g.Base.{
  ℕ, ◌≡◌, Bool, Option, none, some, List, [], ◌∷◌, if◌then◌else◌, find, assign, erase, nat_eq,
}
use advanced_cpp_p1g.Base.Fault.{◌>>=◌}
use advanced_cpp_p1g.Base.Int.{ℤ}
use Prim.Native.String.{String}
use advanced_cpp_p1g.Price.{PriceOrder, greater}
use advanced_cpp_p1g.Exchange.Order.{Order, make}
use advanced_cpp_p1g.Exchange.Pool.{MemoryPool}
use advanced_cpp_p1g.Exchange.Pool
use advanced_cpp_p1g.Exchange.Levels.{emplace, erase_node}

pub record OrderBook {ℓ} (P : Type ℓ) : Type ℓ where
  pub pool : MemoryPool (Order P)
  pub buy_orders : List (P × ℕ)
  pub sell_orders : List (P × ℕ)
  pub id_lookup : List (ℕ × ℕ)

module _ {ℓ} {P : Type ℓ} where
  -- The constructor.
  unfoldable pub init : ℕ → OrderBook P
  init pool_size = record {
    pool = Pool.init pool_size;
    buy_orders = [];
    sell_orders = [];
    id_lookup = [];
  }

  -- begin() of one side
  abbrev pub front : List (P × ℕ) → Option ℕ
  front [] = none
  front ((k, s) ∷ m) = some s

  unfoldable pub get_best_bid : OrderBook P → Option ℕ
  get_best_bid b = front b.buy_orders

  unfoldable pub get_best_ask : OrderBook P → Option ℕ
  get_best_ask b = front b.sell_orders

  -- Erasing a node destroys its unique_ptr, whose deleter gives the slot back to the pool.
  unfoldable pub erase_order : OrderBook P → ℕ → ℕ → Order P → OrderBook P
  erase_order b id s o = record {
    pool = Pool.deallocate b.pool (some s);
    buy_orders = if o.is_buy then erase_node s b.buy_orders else b.buy_orders;
    sell_orders = if o.is_buy then b.sell_orders else erase_node s b.sell_orders;
    id_lookup = erase id b.id_lookup;
  }

  -- `none`: the iterator that is looked up leads to a freed order.
  remove_found : OrderBook P → ℕ → Option ℕ → Option (OrderBook P)
  remove_found b id none = some b
  remove_found b id (some s) = do o ← Pool.deref b.pool s; some (erase_order b id s o)

  pub remove_order : OrderBook P → ℕ → Option (OrderBook P)
  unfolding remove_found
  remove_order b id = remove_found b id (find id b.id_lookup)

module _ {ℓ} {P : Type ℓ} ⦃p : PriceOrder P⦄ where
  open p use {lt}

  -- The rest of `add_order` once the pool has answered: a null pointer means that the pool is
  -- exhausted, and the order is dropped.
  unfoldable pub enter_order :
      OrderBook P → ℕ → P → Bool → Option ℕ × MemoryPool (Order P) → OrderBook P
  enter_order b id price is_buy (none, pool) = b
  enter_order b id price is_buy (some s, pool) = record {
    pool = pool;
    buy_orders = if is_buy then emplace greater price s b.buy_orders else b.buy_orders;
    sell_orders = if is_buy then b.sell_orders else emplace lt price s b.sell_orders;
    id_lookup = assign id s b.id_lookup;
  }

  unfoldable pub add_order : OrderBook P → ℕ → String → P → ℤ → Bool → OrderBook P
  unfolding enter_order
  add_order b id symbol price quantity is_buy =
      enter_order b id price is_buy (Pool.allocate b.pool (make id symbol price quantity is_buy))
