-- ===== src/FeedTrader/Orders.antt =====
-- Phase_3/order_manager.h and Phase_3/order_manager.cpp. Ids are given out from 1 on, so the keys are
-- unsigned numbers; a negative id, which a feed may name, is the id of no order. Printing is not
-- modelled.
use advanced_cpp_p1g.Base.{
  ℕ, ◌+◌, ◌<◌, ◌≡◌, refl, none, some, List, [], ◌==◌, if◌then◌else◌, find, assign, nat_eq,
  find-assign, arith, Option-cases, inl, inr,
}
use mathlib.Core.Option
use advanced_cpp_p1g.Base.Int.{ℤ, pos, negsuc, ◌+ℤ◌, geb_ℤ}

pub data Side : Type 0 where
  buy sell : Side

pub data OrderStatus : Type 0 where
  new filled partially_filled cancelled : OrderStatus

pub record MyOrder {ℓ} (P : Type ℓ) : Type ℓ where
  pub id : ℕ
  pub side : Side
  pub price : P
  pub quantity : ℤ
  pub filled_quantity : ℤ
  pub status : OrderStatus

pub record OrderManager {ℓ} (P : Type ℓ) : Type ℓ where
  pub orders : List (ℕ × MyOrder P)
  pub next_id : ℕ

module _ {ℓ} {P : Type ℓ} where
  abbrev pub no_orders : OrderManager P
  no_orders = record { orders = []; next_id = 1 }

  -- MyOrder(id, side, price, qty)
  abbrev pub my_order : ℕ → Side → P → ℤ → MyOrder P
  my_order id side price qty = record {
    id = id;
    side = side;
    price = price;
    quantity = qty;
    filled_quantity = pos 0;
    status = new;
  }

  -- The id that is returned, and the manager afterwards.
  unfoldable pub place_order : OrderManager P → Side → P → ℤ → ℕ × OrderManager P
  place_order m side price qty = (
    m.next_id,
    record {
      orders = assign m.next_id (my_order m.next_id side price qty) m.orders;
      next_id = m.next_id + 1;
    },
  )

  -- A change of the order that an iterator leads to.
  unfoldable pub change_at : (MyOrder P → MyOrder P) → OrderManager P → ℤ → OrderManager P
  change_at f m (negsuc i) = m
  change_at f m (pos i) = elim (find i m.orders) [
    | none ↦ m
    | some o ↦ record m { orders = assign i (f o) m.orders }
  ]

  abbrev pub mark_cancelled : MyOrder P → MyOrder P
  mark_cancelled o = record o { status = cancelled }

  unfoldable pub cancel : OrderManager P → ℤ → OrderManager P
  cancel m id = change_at mark_cancelled m id

  unfoldable pub add_fill : ℤ → MyOrder P → MyOrder P
  add_fill filled_qty o =
      let total = o.filled_quantity +ℤ filled_qty in
      record o {
        filled_quantity = total;
        status = if geb_ℤ total o.quantity then filled else partially_filled;
      }

  unfoldable pub handle_fill : OrderManager P → ℤ → ℤ → OrderManager P
  handle_fill m id filled_qty = change_at (add_fill filled_qty) m id

  -- Every order is held under its id, which was given out.
  pub record IsValid (m : OrderManager P) : Type ℓ where
    pub started : 0 < m.next_id
    pub given :
        (i : ℕ) (o : MyOrder P) → find i m.orders ≡ some o → (0 < i) × (i < m.next_id) × (o.id ≡ i)

  -- `place_order` on a valid manager returns an id that no order had, keeps the manager valid, holds
  -- the new order under that id, and changes no other.
  pub place_order_lem :
      (m : OrderManager P) (side : Side) (price : P) (qty : ℤ)
      → IsValid m
      → let (id, n) = place_order m side price qty in
        (find id m.orders ≡ none)
        × IsValid n
        × ((j : ℕ)
            → find j n.orders
              ≡ (if id == j then some (my_order id side price qty) else find j m.orders))
  unfolding place_order
  place_order_lem m side price qty v = (
    elim (Option-cases (find m.next_id m.orders)) [
      | inl e ↦ e
      | inr (o, e) ↦ absurd (omega (arith, (v.given m.next_id o e).1))
    ],
    record {
      started = omega arith;
      given = λ i o h. ground (
        arith,
        find-assign m.next_id i (my_order m.next_id side price qty) m.orders,
        v.given i o,
        v.started,
      );
    },
    λ j. find-assign m.next_id j (my_order m.next_id side price qty) m.orders,
  )

  -- Keeps the id.
  abbrev pub KeepsId : (MyOrder P → MyOrder P) → Type ℓ
  KeepsId f = (o : MyOrder P) → (f o).id ≡ o.id

  change_at_lem :
      (f : MyOrder P → MyOrder P) (m : OrderManager P) (i : ℕ)
      → KeepsId f
      → IsValid m
      → IsValid (change_at f m (pos i))
        × ((j : ℕ)
            → find j (change_at f m (pos i)).orders
              ≡ (if i == j then Option.map f (find j m.orders) else find j m.orders))
  unfolding change_at
  change_at_lem f m i k v = elim (Option-cases (find i m.orders)) [
    | inl e ↦ rw (e, change_at) (v, λ j. ground (arith, e))
    | inr (o, e) ↦
        rw (e, change_at)
          (
            record {
              started = v.started;
              given = λ j q h.
                  ground (arith, find-assign i j (f o) m.orders, v.given j q, v.given i o e, k o);
            },
            λ j. ground (arith, e, find-assign i j (f o) m.orders),
          )
  ]

  -- `handle_fill` and `cancel` on a valid manager keep it valid and change the order of the id, if
  -- there is one, and no other: the one adds the fill and marks the order as filled exactly from its
  -- quantity on, the other marks it as cancelled. A negative id changes nothing.
  pub fill_cancel_lem :
      (m : OrderManager P) (i : ℕ) (qty : ℤ)
      → IsValid m
      → (IsValid (handle_fill m (pos i) qty) × IsValid (cancel m (pos i)))
        × ((j : ℕ)
            → (find j (handle_fill m (pos i) qty).orders
                ≡ (if i == j then Option.map (add_fill qty) (find j m.orders) else find j m.orders))
              × (find j (cancel m (pos i)).orders ≡ (
                  if i == j then Option.map mark_cancelled (find j m.orders) else find j m.orders)))
        × (handle_fill m (negsuc i) qty ≡ m)
        × (cancel m (negsuc i) ≡ m)
  unfolding handle_fill cancel change_at add_fill
  fill_cancel_lem m i qty v =
      let f = change_at_lem (add_fill qty) m i (λ o. refl) v in
      let c = change_at_lem mark_cancelled m i (λ o. refl) v in
      ((f.0, c.0), (λ j. (f.1 j, c.1 j)), refl, refl)
