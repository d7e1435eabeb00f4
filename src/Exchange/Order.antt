-- ===== src/Exchange/Order.antt =====
-- Phase_4/include/Order.hpp. The order id is an unsigned number (OrderIdType is any integral
-- type), and the price is any ordered type. Quantities are int.
use Prim.Native.String.{String}
use advanced_cpp_p1g.Base.{ℕ, ◌^◌, ◌≡◌, refl, ◌≢◌, ◌⊎◌, Bool, true, false, arith, if◌then◌else◌}
use advanced_cpp_p1g.Base.Int.{ℤ, pos, ◌+ℤ◌, ◌≤ℤ◌, ◌<ℤ◌, geb_ℤ, eqb_ℤ, fits_int, +ℤ_parts}

pub data OrderStatus : Type 0 where
  new partially_filled filled cancelled : OrderStatus

abbrev pub is_filled : OrderStatus → Bool
is_filled filled = true
is_filled _ = false

pub record Order {ℓ} (P : Type ℓ) : Type ℓ where
  pub order_id : ℕ
  pub symbol : String
  pub price : P
  pub quantity : ℤ
  pub filled_quantity : ℤ
  pub is_buy : Bool
  pub status : OrderStatus

-- An order of at most this quantity can be filled once more than it asks for without an overflow.
abbrev pub max_quantity : ℤ
max_quantity = pos (2 ^ 30)

module _ {ℓ} {P : Type ℓ} where
  -- The constructor with arguments.
  abbrev pub make : ℕ → String → P → ℤ → Bool → Order P
  make id symbol price quantity is_buy = record {
    order_id = id;
    symbol = symbol;
    price = price;
    quantity = quantity;
    filled_quantity = pos 0;
    is_buy = is_buy;
    status = new;
  }

  -- `set` writes every field, as the constructor does.
  abbrev pub set_order : Order P → ℕ → String → P → ℤ → Bool → Order P
  set_order o id symbol price quantity is_buy = record o {
    order_id = id;
    symbol = symbol;
    price = price;
    quantity = quantity;
    filled_quantity = pos 0;
    is_buy = is_buy;
    status = new;
  }

  -- The sum of `update_filled` is one that an int holds. Where it is not, the call is undefined
  -- behaviour.
  unfoldable pub fill_fits : Order P → ℤ → Bool
  fill_fits o fill_quantity = fits_int (o.filled_quantity +ℤ fill_quantity)

  -- The result of the call, where the sum fits.
  unfoldable pub update_filled : Order P → ℤ → Order P
  update_filled o fill_quantity =
      let total = o.filled_quantity +ℤ fill_quantity in
      record o {
        filled_quantity = total;
        status =
            if eqb_ℤ total (pos 0)
            then new
            else if geb_ℤ total o.quantity
            then filled
            else partially_filled;
      }

  unfoldable pub cancel : Order P → Order P
  cancel o = record o { status = cancelled }

  -- What the status says of the two quantities, for an order that was not cancelled.
  abbrev pub StatusFits : Order P → Type 0
  StatusFits o =
      ((o.status ≡ new) × (o.filled_quantity ≡ pos 0))
      ⊎ ((o.status ≡ partially_filled)
          × (o.filled_quantity ≢ pos 0)
          × (o.filled_quantity <ℤ o.quantity))
      ⊎ ((o.status ≡ filled) × (o.filled_quantity ≢ pos 0) × (o.quantity ≤ℤ o.filled_quantity))

  -- `update_filled` adds the fill to the filled quantity, touches no other field but the status,
  -- and leaves a status that fits the quantities: new exactly at 0, otherwise filled exactly from
  -- the order's quantity on.
  pub update_filled_lem :
      (o : Order P) (n : ℤ)
      → let q = update_filled o n in
        StatusFits q
        × (q.filled_quantity ≡ o.filled_quantity +ℤ n)
        × (q ≡ record o { filled_quantity = q.filled_quantity; status = q.status })
  unfolding update_filled
  update_filled_lem o n = (ground arith, refl, refl)

  -- A resting order: something is asked for, at most 2^30 of it, and not all of it is filled.
  abbrev pub IsOpen : Order P → Type 0
  IsOpen o =
      (pos 0 <ℤ o.quantity)
      × (pos 0 ≤ℤ o.filled_quantity)
      × (o.filled_quantity <ℤ o.quantity)
      × (o.quantity ≤ℤ max_quantity)

  -- A positive fill of no more than its quantity fits an open order.
  pub fill_fits-IsOpen :
      (o : Order P) (n : ℤ) → IsOpen o → pos 0 <ℤ n → n ≤ℤ o.quantity → fill_fits o n ≡ true
  unfolding fill_fits
  fill_fits-IsOpen o n h k le = ground (arith, +ℤ_parts o.filled_quantity n)

  -- A positive fill that does not make an open order filled leaves it open.
  pub update_filled-IsOpen :
      (o : Order P) (n : ℤ)
      → IsOpen o
      → pos 0 <ℤ n
      → is_filled (update_filled o n).status ≡ false
      → IsOpen (update_filled o n)
  unfolding update_filled
  update_filled-IsOpen o n h k e = ground (arith, +ℤ_parts o.filled_quantity n)

  -- A fill of at least the order's quantity makes an open order filled.
  pub update_filled_full :
      (o : Order P) (n : ℤ)
      → IsOpen o
      → o.quantity ≤ℤ n
      → is_filled (update_filled o n).status ≡ true
  unfolding update_filled
  update_filled_full o n h k = ground (arith, +ℤ_parts o.filled_quantity n)
