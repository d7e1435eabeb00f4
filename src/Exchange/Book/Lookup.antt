-- ===== src/Exchange/Book/Lookup.antt =====
-- The order book seen as a map from ids to orders: what each operation does to that map.
use advanced_cpp_p1g.Base.{
  ℕ, ◌<◌, ◌≡◌, ◌≢◌, refl, inl, inr, Bool, Option, none, some, ◌==◌, if◌then◌else◌, find, nat_eq,
  find-assign, find-erase, arith, Option-cases, length,
}
use advanced_cpp_p1g.Base.Fault.{◌>>=◌}
use advanced_cpp_p1g.Base.Int.{ℤ}
use Prim.Native.String.{String}
use advanced_cpp_p1g.Price.{PriceOrder}
use advanced_cpp_p1g.Exchange.Order.{Order, make}
use advanced_cpp_p1g.Exchange.Pool.{MemoryPool}
use advanced_cpp_p1g.Exchange.Pool
use advanced_cpp_p1g.Exchange.Pool.Laws.{
  Allocates, exhausted, placed, allocate-Allocates, deref-deallocate,
}
use advanced_cpp_p1g.Exchange.Book.{
  OrderBook, erase_order, remove_found, remove_order, enter_order, add_order,
}
use advanced_cpp_p1g.Exchange.Book.Valid.{IsValid, erase_order-IsValid}
use advanced_cpp_p1g.Exchange.Book.Enter.{enter_order-IsValid}

-- The order that an id leads to.
abbrev pub order_of {ℓ} : {P : Type ℓ} → OrderBook P → ℕ → Option (Order P)
order_of b id = find id b.id_lookup >>= Pool.deref b.pool

module _ {ℓ κ} {P : Type ℓ} (Q : Order P → Type κ) ⦃p : PriceOrder P⦄ where
  -- What `remove_order` makes of a book.
  pub record Removed (b : OrderBook P) (id : ℕ) (c : OrderBook P) : Type (ℓ ⊔ κ) where
    pub valid : IsValid Q c
    pub orders : (j : ℕ) → order_of c j ≡ (if id == j then none else order_of b j)

  -- What `add_order` makes of a book.
  pub data Added (b : OrderBook P) (o : Order P) (c : OrderBook P) : Type (ℓ ⊔ κ) where
    dropped : ((j : ℕ) → j < length b.pool.pool → Pool.deref b.pool j ≢ none) → c ≡ b → Added b o c
    entered :
        IsValid Q c
        → ((j : ℕ) → order_of c j ≡ (if o.order_id == j then some o else order_of b j))
        → Added b o c

module _ {ℓ κ} {P : Type ℓ} {Q : Order P → Type κ} ⦃p : PriceOrder P⦄ where
  order_of-erase_order :
      (b : OrderBook P) (v : IsValid Q b) (id s : ℕ) (o : Order P)
      → find id b.id_lookup ≡ some s
      → Pool.deref b.pool s ≡ some o
      → o.order_id ≡ id
      → (j : ℕ) → order_of (erase_order b id s o) j ≡ (if id == j then none else order_of b j)
  unfolding erase_order
  order_of-erase_order b v id s o e d same j = elim (Option-cases (find j b.id_lookup)) [
    | inl n ↦ ground (arith, find-erase id j b.id_lookup)
    | inr (t, h) ↦
        ground (arith, find-erase id j b.id_lookup, deref-deallocate b.pool s t, v.leads j t h)
  ]

  remove_found-Removed :
      (b : OrderBook P) (id : ℕ) (r : Option ℕ)
      → find id b.id_lookup ≡ r
      → IsValid Q b
      → (c : OrderBook P) × (remove_found b id r ≡ some c) × Removed Q b id c
  unfolding remove_found
  remove_found-Removed b id none e v =
      (b, refl, record { valid = v; orders = λ j. ground (arith, e) })
  remove_found-Removed b id (some s) e v =
      let (o, d, same) = v.leads id s e in
      (
        erase_order b id s o,
        rw d,
        record {
          valid = erase_order-IsValid b v id s o e d same;
          orders = order_of-erase_order b v id s o e d same;
        },
      )

  -- On a valid book `remove_order` never reads a freed order: it succeeds for every id, leaves a
  -- valid book, and takes exactly the order of that id out of the map (none, if there is none).
  pub remove_order-Removed :
      (b : OrderBook P) (id : ℕ)
      → IsValid Q b
      → (c : OrderBook P) × (remove_order b id ≡ some c) × Removed Q b id c
  unfolding remove_order
  remove_order-Removed b id v = remove_found-Removed b id (find id b.id_lookup) refl v

  pub order_of-enter_order :
      (b : OrderBook P) (v : IsValid Q b) (id s : ℕ) (price : P) (o : Order P) (is_buy : Bool)
      (pool : MemoryPool (Order P))
      → Pool.deref b.pool s ≡ none
      → ((j : ℕ) → Pool.deref pool j ≡ (if s == j then some o else Pool.deref b.pool j))
      → (j : ℕ)
      → order_of (enter_order b id price is_buy (some s, pool)) j
        ≡ (if id == j then some o else order_of b j)
  unfolding enter_order
  order_of-enter_order b v id s price o is_buy pool free reads j =
      elim (Option-cases (find j b.id_lookup)) [
        | inl n ↦ ground (arith, find-assign id j s b.id_lookup, reads s)
        | inr (t, h) ↦
            ground (arith, find-assign id j s b.id_lookup, reads s, reads t, v.leads j t h, free)
      ]

  enter_order-Added :
      (b : OrderBook P) (id : ℕ) (symbol : String) (price : P) (quantity : ℤ) (is_buy : Bool)
      → IsValid Q b
      → find id b.id_lookup ≡ none
      → Q (make id symbol price quantity is_buy)
      → (r : Option ℕ × MemoryPool (Order P))
      → Allocates b.pool (make id symbol price quantity is_buy) r
      → Added Q b (make id symbol price quantity is_buy) (enter_order b id price is_buy r)
  unfolding enter_order
  enter_order-Added b id symbol price quantity is_buy v fresh holds r (exhausted full) =
      dropped full refl
  enter_order-Added b id symbol price quantity is_buy v fresh holds r
        (placed s pool first valid size reads) =
      entered
        (enter_order-IsValid b v id s price symbol quantity is_buy pool fresh holds first.free valid
          reads)
        (order_of-enter_order b v id s price _ is_buy pool first.free reads)

  -- Adding an order under an id that the book does not hold leaves the book as it was when every
  -- slot of the pool holds a live order; otherwise it leaves a valid book, in which the id leads to
  -- the new order and every other id to what it led to before, and each of these orders stands on
  -- its side of the book.
  pub add_order-Added :
      (b : OrderBook P) (id : ℕ) (symbol : String) (price : P) (quantity : ℤ) (is_buy : Bool)
      → IsValid Q b
      → find id b.id_lookup ≡ none
      → Q (make id symbol price quantity is_buy)
      → Added Q b
          (make id symbol price quantity is_buy)
          (add_order b id symbol price quantity is_buy)
  unfolding add_order
  add_order-Added b id symbol price quantity is_buy v fresh holds =
      enter_order-Added b id symbol price quantity is_buy v fresh holds _
        (allocate-Allocates b.pool (make id symbol price quantity is_buy) v.pool_valid)

-- The call, where the id leads to a live order.
pub remove_order_found {ℓ} :
    {P : Type ℓ} (b : OrderBook P) (id s : ℕ) (o : Order P)
    → find id b.id_lookup ≡ some s
    → Pool.deref b.pool s ≡ some o
    → remove_order b id ≡ some (erase_order b id s o)
unfolding remove_order remove_found
remove_order_found b id s o e d = rw (e, remove_found, d)
