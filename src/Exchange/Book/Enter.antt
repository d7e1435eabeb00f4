-- ===== src/Exchange/Book/Enter.antt =====
-- A new order keeps the representation invariant of the order book.
use advanced_cpp_p1g.Base.{
  ℕ, ◌≡◌, ◌≢◌, refl, inl, inr, Bool, true, false, none, some, ◌==◌, if◌then◌else◌, find, assign,
  nat_eq, find-assign, arith, All-map, Bool-cases,
}
use advanced_cpp_p1g.Base.Int.{ℤ}
use Prim.Native.String.{String}
use advanced_cpp_p1g.Price.{PriceOrder, greater, lt-IsComparator, greater-IsComparator}
use advanced_cpp_p1g.Exchange.Order.{Order, make}
use advanced_cpp_p1g.Exchange.Pool.{MemoryPool}
use advanced_cpp_p1g.Exchange.Pool
use advanced_cpp_p1g.Exchange.Pool.Laws.{
  allocate-Allocates, Allocates, deallocate-IsValid, deref-deallocate,
}
use advanced_cpp_p1g.Exchange.Pool.Laws
use advanced_cpp_p1g.Exchange.Levels.Order.{All-emplace, emplace-IsSorted, emplace-IsDistinct}
use advanced_cpp_p1g.Exchange.Levels.Slots.{has_slot-emplace}
use advanced_cpp_p1g.Exchange.Book.Valid.{IsValid, Resident, Resident-keep, LeadsToLive, Standing}
use advanced_cpp_p1g.Exchange.Book.{OrderBook, enter_order}

module _ {ℓ κ} {P : Type ℓ} {Q : Order P → Type κ} ⦃p : PriceOrder P⦄ where
  module _ (b : OrderBook P) (v : IsValid Q b) (id s : ℕ) (price : P) (symbol : String)
      (quantity : ℤ) (is_buy : Bool) (pool : MemoryPool (Order P))
      (fresh : find id b.id_lookup ≡ none) (holds : Q (make id symbol price quantity is_buy))
      (free : Pool.deref b.pool s ≡ none) (valid : Laws.IsValid pool)
      (reads : (j : ℕ)
        → Pool.deref pool j ≡ (
            if s == j
            then some (make id symbol price quantity is_buy)
            else Pool.deref b.pool j)) where
    abbrev entered : OrderBook P
    entered = enter_order b id price is_buy (some s, pool)

    newcomer : Resident Q pool (assign id s b.id_lookup) is_buy (price, s)
    newcomer = record {
      order = make id symbol price quantity is_buy;
      live = ground (arith, reads s);
      at_price = refl;
      on_side = refl;
      found = ground (arith, find-assign id id s b.id_lookup);
      holds = holds;
    }

    apart : (side : Bool) (f : P × ℕ) → Resident Q b.pool b.id_lookup side f → f.1 ≢ s
    apart side f r e = ground (arith, r.live, free)

    resident :
        (side : Bool) (f : P × ℕ)
        → Resident Q b.pool b.id_lookup side f
        → Resident Q pool (assign id s b.id_lookup) side f
    resident side f r =
        Resident-keep b.pool pool b.id_lookup (assign id s b.id_lookup) side f r
          (ground (arith, reads f.1, apart side f r))
          (ground (arith, find-assign id r.order.order_id s b.id_lookup, r.found, fresh))

    leads_enter : LeadsToLive entered
    unfolding enter_order
    leads_enter j t h = elim (Bool-cases (id == j)) [
      | inl e ↦ (
        make id symbol price quantity is_buy,
        ground (arith, find-assign id j s b.id_lookup, reads t),
        ground arith,
      )
      | inr e ↦
          let (o, live, e') = v.leads j t (ground (arith, find-assign id j s b.id_lookup)) in
          (o, ground (arith, reads t, live, free), e')
    ]

    stands_enter : Standing entered
    unfolding enter_order
    stands_enter j t x h live = elim (Bool-cases (id == j)) [
      | inl e ↦ ground (
        arith,
        find-assign id j s b.id_lookup,
        reads t,
        has_slot-emplace greater price s t b.buy_orders,
        has_slot-emplace p.lt price s t b.sell_orders,
      )
      | inr e ↦
          let (o, there, e') = v.leads j t (ground (arith, find-assign id j s b.id_lookup)) in
          ground (
            arith,
            find-assign id j s b.id_lookup,
            there,
            free,
            reads t,
            v.stands j t x,
            has_slot-emplace greater price s t b.buy_orders,
            has_slot-emplace p.lt price s t b.sell_orders,
          )
    ]

    -- A new order that the pool has taken leaves the book valid.
    pub enter_order-IsValid : IsValid Q entered
    unfolding enter_order
    enter_order-IsValid = elim (Bool-cases is_buy) [
      | inl buy ↦ record {
        pool_valid = valid;
        buys_sorted =
            rw buy (emplace-IsSorted greater-IsComparator price s b.buy_orders v.buys_sorted);
        sells_sorted = rw buy v.sells_sorted;
        buys_distinct = rw buy (
            emplace-IsDistinct greater price s b.buy_orders
              (All-map (apart true) b.buy_orders v.buys) v.buys_distinct);
        sells_distinct = rw buy v.sells_distinct;
        buys = rw buy (
            All-emplace greater _ price s b.buy_orders (rw buy at newcomer)
              (All-map (resident true) b.buy_orders v.buys));
        sells = rw buy (All-map (resident false) b.sell_orders v.sells);
        leads = leads_enter;
        stands = stands_enter;
      }
      | inr sell ↦ record {
        pool_valid = valid;
        buys_sorted = rw sell v.buys_sorted;
        sells_sorted =
            rw sell (emplace-IsSorted lt-IsComparator price s b.sell_orders v.sells_sorted);
        buys_distinct = rw sell v.buys_distinct;
        sells_distinct = rw sell (
            emplace-IsDistinct p.lt price s b.sell_orders
              (All-map (apart false) b.sell_orders v.sells) v.sells_distinct);
        buys = rw sell (All-map (resident true) b.buy_orders v.buys);
        sells = rw sell (
            All-emplace p.lt _ price s b.sell_orders (rw sell at newcomer)
              (All-map (resident false) b.sell_orders v.sells));
        leads = leads_enter;
        stands = stands_enter;
      }
    ]
