-- ===== src/LevelBook.antt =====
-- Phase_5/src/OrderBook.cpp: `struct Order` and `class OrderBook`. Ids and prices are any types with
-- an equality: the code only looks them up as keys (the order of std::map is never used). A price
-- stands for a double that is not NaN, for which the key equivalence of std::map is equality.
pub mod Consistent
pub mod Stress
mod Examples
use advanced_cpp_p1g.Base.{Eq, Bool, true, false, Option, none, some, List, [], find, assign, erase}
use advanced_cpp_p1g.Base.Int.{ℤ, pos}

pub record Order {ℓ} (Key P : Type ℓ) : Type ℓ where
  pub id : Key
  pub price : P
  pub quantity : ℤ
  pub is_buy : Bool

pub record OrderBook {ℓ} (Key P : Type ℓ) : Type ℓ where
  pub order_levels : List (P × List (Key × Order Key P))
  pub order_lookup : List (Key × Order Key P)

module _ {ℓ} {Key P : Type ℓ} where
  abbrev pub empty : OrderBook Key P
  empty = record { order_levels = []; order_lookup = [] }

  -- Order order = {id, price, quantity, isBuy};
  abbrev pub make : Key → P → ℤ → Bool → Order Key P
  make id price quantity is_buy = record {
    id = id;
    price = price;
    quantity = quantity;
    is_buy = is_buy;
  }

  abbrev pub or_empty : Option (List (Key × Order Key P)) → List (Key × Order Key P)
  or_empty none = []
  or_empty (some level) = level

abbrev pub is_held {ℓ} : {A : Type ℓ} → Option A → Bool
is_held none = false
is_held (some a) = true

module _ {ℓ} {Key P : Type ℓ} ⦃i : Eq Key⦄ ⦃p : Eq P⦄ where
  -- orderLevels[price], which is empty for a price that was never used
  abbrev pub level : List (P × List (Key × Order Key P)) → P → List (Key × Order Key P)
  level levels price = or_empty (find price levels)

  -- orderLevels[price].erase(id)
  abbrev pub take_out :
      List (P × List (Key × Order Key P)) → P → Key → List (P × List (Key × Order Key P))
  take_out levels price id = assign price (erase id (level levels price)) levels

  unfoldable pub add_order : OrderBook Key P → Key → P → ℤ → Bool → OrderBook Key P
  add_order b id price quantity is_buy = record {
    order_levels =
        assign price (assign id (make id price quantity is_buy) (level b.order_levels price))
          b.order_levels;
    order_lookup = assign id (make id price quantity is_buy) b.order_lookup;
  }

  modify_found : OrderBook Key P → Key → P → ℤ → Option (Order Key P) → OrderBook Key P
  modify_found b id price quantity none = b
  modify_found b id price quantity (some old) =
      add_order (record b { order_levels = take_out b.order_levels old.price id }) id price quantity
        old.is_buy

  pub modify_order : OrderBook Key P → Key → P → ℤ → OrderBook Key P
  unfolding modify_found
  modify_order b id price quantity = modify_found b id price quantity (find id b.order_lookup)

  delete_found : OrderBook Key P → Key → Option (Order Key P) → OrderBook Key P
  delete_found b id none = b
  delete_found b id (some order) = record {
    order_levels = take_out b.order_levels order.price id;
    order_lookup = erase id b.order_lookup;
  }

  pub delete_order : OrderBook Key P → Key → OrderBook Key P
  unfolding delete_found
  delete_order b id = delete_found b id (find id b.order_lookup)

  -- Both add the order "ORD001" at 50.10, which are parameters.
  abbrev pub benchmark : Key → P → OrderBook Key P → OrderBook Key P
  benchmark ord001 price b = add_order b ord001 price (pos 100) true

  -- The assertion: the lookup holds the id.
  unfoldable pub test_add_order : Key → P → Bool
  test_add_order ord001 price =
      is_held (find ord001 (add_order empty ord001 price (pos 100) true).order_lookup)
