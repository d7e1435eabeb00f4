-- ===== src/Exchange/Book/Ids.antt =====
-- Which operations enter no ids into the book.
use Prim.Native.String.{String}
use advanced_cpp_p1g.Base.{
  ℕ, ◌≡◌, ◌≢◌, inl, inr, Bool, Option, none, some, find, nat_eq, find-erase, find-assign, arith,
  Option-cases,
}
use advanced_cpp_p1g.Base.Fault.{◌>>=◌}
use advanced_cpp_p1g.Base.Int.{ℤ}
use advanced_cpp_p1g.Price.{PriceOrder}
use advanced_cpp_p1g.Exchange.Order.{Order}
use advanced_cpp_p1g.Exchange.Pool
use advanced_cpp_p1g.Exchange.Pool.{MemoryPool}
use advanced_cpp_p1g.Exchange.Book.{
  OrderBook, erase_order, remove_found, remove_order, enter_order, add_order,
}

-- An id that one book does not hold is not held by the other.
abbrev pub NoNewIds {ℓ} : {P : Type ℓ} → OrderBook P → OrderBook P → Type 0
NoNewIds b c = (j : ℕ) → find j b.id_lookup ≡ none → find j c.id_lookup ≡ none

abbrev pub NoNewIdsIn {ℓ} : {P : Type ℓ} → OrderBook P → Option (OrderBook P) → Type 0
NoNewIdsIn b none = Unit
NoNewIdsIn b (some c) = NoNewIds b c

module _ {ℓ} {P : Type ℓ} where
  weaken :
      (b c : OrderBook P) (o : Option (OrderBook P))
      → NoNewIds b c
      → NoNewIdsIn c o
      → NoNewIdsIn b o
  weaken b c none h k = tt
  weaken b c (some d) h k = λ j e. k j (h j e)

  pub bind-NoNewIds :
      (b : OrderBook P) (o : Option (OrderBook P)) (f : OrderBook P → Option (OrderBook P))
      → NoNewIdsIn b o
      → ((c : OrderBook P) → NoNewIdsIn c (f c))
      → NoNewIdsIn b (o >>= f)
  bind-NoNewIds b none f h k = tt
  bind-NoNewIds b (some c) f h k = weaken b c (f c) h (k c)

  pub remove_order-NoNewIds : (b : OrderBook P) (id : ℕ) → NoNewIdsIn b (remove_order b id)
  unfolding remove_order remove_found erase_order
  remove_order-NoNewIds b id = elim (Option-cases (find id b.id_lookup)) [
    | inl e ↦ rw (e, remove_found) (λ j h. h)
    | inr (s, e) ↦ elim (Option-cases (Pool.deref b.pool s)) [
      | inl k ↦ rw (e, remove_found, k) tt
      | inr (o, k) ↦ rw (e, remove_found, k) (λ j h. ground (arith, find-erase id j b.id_lookup, h))
    ]
  ]

  -- `add_order` enters no id but its own.
  enter_order-others :
      ⦃p : PriceOrder P⦄ (b : OrderBook P) (id : ℕ) (price : P) (is_buy : Bool)
      (r : Option ℕ × MemoryPool (Order P)) (j : ℕ)
      → id ≢ j
      → find j b.id_lookup ≡ none
      → find j (enter_order b id price is_buy r).id_lookup ≡ none
  unfolding enter_order
  enter_order-others b id price is_buy (none, pool) j ne h = h
  enter_order-others b id price is_buy (some s, pool) j ne h =
      ground (arith, find-assign id j s b.id_lookup, h)

  pub add_order-others :
      ⦃p : PriceOrder P⦄ (b : OrderBook P) (id : ℕ) (symbol : String) (price : P) (quantity : ℤ)
      (is_buy : Bool) (j : ℕ)
      → id ≢ j
      → find j b.id_lookup ≡ none
      → find j (add_order b id symbol price quantity is_buy).id_lookup ≡ none
  unfolding add_order
  add_order-others b id symbol price quantity is_buy j ne h =
      enter_order-others b id price is_buy _ j ne h
