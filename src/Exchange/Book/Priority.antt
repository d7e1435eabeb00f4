-- ===== src/Exchange/Book/Priority.antt =====
-- Where `add_order` puts an order: the price-time priority of the two sides.
use advanced_cpp_p1g.Base.{
  ℕ, ◌<◌, ◌≡◌, refl, Bool, true, false, Option, none, some, List, ◌∷◌, ◌++◌, if◌then◌else◌, find,
  find-assign, nat_eq, arith, All, length,
}
use advanced_cpp_p1g.Base.Int.{ℤ}
use Prim.Native.String.{String}
use advanced_cpp_p1g.Price.{PriceOrder, lt-IsComparator, greater-IsComparator}
use advanced_cpp_p1g.Exchange.Order.{Order, make}
use advanced_cpp_p1g.Exchange.Pool.{MemoryPool}
use advanced_cpp_p1g.Exchange.Pool
use advanced_cpp_p1g.Exchange.Pool.Laws.{Allocates, exhausted, placed, allocate-Allocates}
use advanced_cpp_p1g.Exchange.Levels.Order.{emplace_priority}
use advanced_cpp_p1g.Exchange.Book.{OrderBook, enter_order, add_order}
use advanced_cpp_p1g.Exchange.Book.Valid.{IsValid}

module _ {ℓ} {P : Type ℓ} where
  abbrev pub side : OrderBook P → Bool → List (P × ℕ)
  side b is_buy = if is_buy then b.buy_orders else b.sell_orders

  abbrev pub other_side : OrderBook P → Bool → List (P × ℕ)
  other_side b is_buy = if is_buy then b.sell_orders else b.buy_orders

module _ {ℓ} {P : Type ℓ} ⦃p : PriceOrder P⦄ where
  -- A price is better than another one for a buyer if it is higher, and for a seller if it is lower.
  abbrev pub is_better : Bool → P → P → Bool
  is_better is_buy price other = if is_buy then p.lt other price else p.lt price other

  -- The order `o` stands on its side of the book `c`, at its price, behind the orders that were there
  -- and that its price is not better than, and in front of those that its price is better than.
  pub record Queued (b : OrderBook P) (o : Order P) (c : OrderBook P) : Type ℓ where
    pub slot : ℕ
    pub earlier : List (P × ℕ)
    pub later : List (P × ℕ)
    pub found : find o.order_id c.id_lookup ≡ some slot
    pub order : Pool.deref c.pool slot ≡ some o
    pub was : side b o.is_buy ≡ earlier ++ later
    pub is : side c o.is_buy ≡ earlier ++ ((o.price, slot) ∷ later)
    pub other : other_side c o.is_buy ≡ other_side b o.is_buy
    pub not_better : All (λ f. is_better o.is_buy o.price f.0 ≡ false) earlier
    pub better : All (λ f. is_better o.is_buy o.price f.0 ≡ true) later

module _ {ℓ κ} {P : Type ℓ} {Q : Order P → Type κ} ⦃p : PriceOrder P⦄ where
  enter_order-Queued :
      (b : OrderBook P) (id : ℕ) (symbol : String) (price : P) (quantity : ℤ) (is_buy : Bool)
      (s : ℕ) (pool : MemoryPool (Order P))
      → IsValid Q b
      → Pool.deref pool s ≡ some (make id symbol price quantity is_buy)
      → Queued b
          (make id symbol price quantity is_buy)
          (enter_order b id price is_buy (some s, pool))
  unfolding enter_order
  enter_order-Queued b id symbol price quantity true s pool v live =
      let (xs, ys, was, is, lo, hi) =
        emplace_priority greater-IsComparator price s b.buy_orders v.buys_sorted in
      record {
        slot = s;
        earlier = xs;
        later = ys;
        found = ground (arith, find-assign id id s b.id_lookup);
        order = live;
        was = was;
        is = is;
        other = refl;
        not_better = lo;
        better = hi;
      }
  enter_order-Queued b id symbol price quantity false s pool v live =
      let (xs, ys, was, is, lo, hi) =
        emplace_priority lt-IsComparator price s b.sell_orders v.sells_sorted in
      record {
        slot = s;
        earlier = xs;
        later = ys;
        found = ground (arith, find-assign id id s b.id_lookup);
        order = live;
        was = was;
        is = is;
        other = refl;
        not_better = lo;
        better = hi;
      }

  allocated-Queued :
      (b : OrderBook P) (id : ℕ) (symbol : String) (price : P) (quantity : ℤ) (is_buy : Bool)
      (j : ℕ)
      → IsValid Q b
      → j < length b.pool.pool
      → Pool.deref b.pool j ≡ none
      → (r : Option ℕ × MemoryPool (Order P))
      → Allocates b.pool (make id symbol price quantity is_buy) r
      → Queued b (make id symbol price quantity is_buy) (enter_order b id price is_buy r)
  allocated-Queued b id symbol price quantity is_buy j v lt free r (exhausted full) =
      absurd (full j lt free)
  allocated-Queued b id symbol price quantity is_buy j v lt free r
        (placed s pool first valid size reads) =
      enter_order-Queued b id symbol price quantity is_buy s pool v (ground (arith, reads s))

  -- Price-time priority. On a valid book whose pool has a free slot, `add_order` puts the order on
  -- its own side, in a slot that its id leads to: behind every order of the side whose price is as
  -- good or better (for a buy order, not lower; for a sell order, not higher), those of the same
  -- price included, and in front of all others. The others keep their order, and the other side
  -- stays as it was.
  pub add_order-Queued :
      (b : OrderBook P) (id : ℕ) (symbol : String) (price : P) (quantity : ℤ) (is_buy : Bool)
      (j : ℕ)
      → IsValid Q b
      → j < length b.pool.pool
      → Pool.deref b.pool j ≡ none
      → Queued b
          (make id symbol price quantity is_buy)
          (add_order b id symbol price quantity is_buy)
  unfolding add_order
  add_order-Queued b id symbol price quantity is_buy j v lt free =
      allocated-Queued b id symbol price quantity is_buy j v lt free _
        (allocate-Allocates b.pool (make id symbol price quantity is_buy) v.pool_valid)
