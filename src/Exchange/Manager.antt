-- ===== src/Exchange/Manager.antt =====
-- Phase_4/include/OrderManager.hpp and Phase_4/src/OrderManager.cpp. The orders are shared: a
-- std::shared_ptr is an index into the heap of the orders that were made, so that a caller who
-- holds one sees later changes. Printing is not modelled.
pub mod Orders
mod Examples
use advanced_cpp_p1g.Base.{
  ℕ, Bool, Option, none, some, List, [], ◌∷◌, ◌++◌, length, get_elem?, set, find, assign, nat_eq,
}
use advanced_cpp_p1g.Base.Int.{ℤ}
use Prim.Native.String.{String}
use advanced_cpp_p1g.Exchange.Order.{Order, make, update_filled, cancel}

pub record OrderManager {ℓ} (P : Type ℓ) : Type ℓ where
  pub heap : List (Order P)
  pub orders : List (ℕ × ℕ)

module _ {ℓ} {P : Type ℓ} where
  unfoldable pub empty : OrderManager P
  empty = record { heap = []; orders = [] }

  unfoldable pub create_order : OrderManager P → ℕ → String → P → ℤ → Bool → OrderManager P
  create_order m id symbol price quantity is_buy = record {
    heap = m.heap ++ (make id symbol price quantity is_buy ∷ []);
    orders = assign id (length m.heap) m.orders;
  }

  -- A change of the order behind a pointer.
  modify : (Order P → Order P) → List (Order P) → ℕ → List (Order P)
  modify f heap ptr = elim (get_elem? heap ptr) [ none ↦ heap | some o ↦ set heap ptr (f o) ]

  change : (Order P → Order P) → OrderManager P → ℕ → OrderManager P
  unfolding modify
  change f m id = elim (find id m.orders) [
    | none ↦ m
    | some ptr ↦ record m { heap = modify f m.heap ptr }
  ]

  -- For fills whose sum an int holds, as with `update_filled`.
  unfoldable pub fill_order : OrderManager P → ℕ → ℤ → OrderManager P
  unfolding change
  fill_order m id quantity = change (λ o. update_filled o quantity) m id

  unfoldable pub cancel_order : OrderManager P → ℕ → OrderManager P
  unfolding change
  cancel_order m id = change cancel m id

  -- The shared pointer of an order; null for an unknown id.
  unfoldable pub get_order : OrderManager P → ℕ → Option ℕ
  get_order m id = find id m.orders
