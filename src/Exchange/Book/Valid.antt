-- ===== src/Exchange/Book/Valid.antt =====
-- The representation invariant of the order book, and that erasing an order keeps it.
use advanced_cpp_p1g.Base.{
  ℕ, ◌≡◌, ◌≢◌, ◌∙◌, inl, inr, Bool, true, false, some, List, if◌then◌else◌, find, erase, nat_eq,
  find-erase, arith, All, All-map, All-map₂, Bool-cases,
}
use advanced_cpp_p1g.Price.{PriceOrder, greater}
use advanced_cpp_p1g.Exchange.Order.{Order}
use advanced_cpp_p1g.Exchange.Pool.{MemoryPool}
use advanced_cpp_p1g.Exchange.Pool
use advanced_cpp_p1g.Exchange.Pool.Laws.{
  allocate-Allocates, Allocates, deallocate-IsValid, deref-deallocate,
}
use advanced_cpp_p1g.Exchange.Pool.Laws
use advanced_cpp_p1g.Exchange.Levels.{erase_node}
use advanced_cpp_p1g.Exchange.Levels.Order.{
  IsSorted, IsDistinct, All-erase_node, erase_node-IsSorted, erase_node-IsDistinct, erase_node-gone,
}
use advanced_cpp_p1g.Exchange.Levels.Slots.{has_slot, has_slot-erase_node}
use advanced_cpp_p1g.Exchange.Book.{OrderBook, init, erase_order}

-- An id leads to a live order with that id.
abbrev pub LeadsToLive {ℓ} : {P : Type ℓ} → OrderBook P → Type ℓ
LeadsToLive {P} b =
    (id s : ℕ)
    → find id b.id_lookup ≡ some s
    → (o : Order P) × (Pool.deref b.pool s ≡ some o) × (o.order_id ≡ id)

-- The live order that an id leads to stands on its side of the book.
abbrev pub Standing {ℓ} : {P : Type ℓ} → OrderBook P → Type ℓ
Standing {P} b =
    (id s : ℕ) (o : Order P)
    → find id b.id_lookup ≡ some s
    → Pool.deref b.pool s ≡ some o
    → has_slot s (if o.is_buy then b.buy_orders else b.sell_orders) ≡ true

module _ {ℓ κ} {P : Type ℓ} (Q : Order P → Type κ) where
  -- A node of one side leads to a live order of its price and side that satisfies `Q`, and the
  -- order's id leads to the node.
  pub record Resident (pool : MemoryPool (Order P)) (lookup : List (ℕ × ℕ)) (side : Bool)
      (e : P × ℕ) : Type (ℓ ⊔ κ) where
    pub order : Order P
    pub live : Pool.deref pool e.1 ≡ some order
    pub at_price : order.price ≡ e.0
    pub on_side : order.is_buy ≡ side
    pub found : find order.order_id lookup ≡ some e.1
    pub holds : Q order

  pub record IsValid ⦃p : PriceOrder P⦄ (b : OrderBook P) : Type (ℓ ⊔ κ) where
    pub pool_valid : Laws.IsValid b.pool
    pub buys_sorted : IsSorted greater b.buy_orders
    pub sells_sorted : IsSorted p.lt b.sell_orders
    pub buys_distinct : IsDistinct b.buy_orders
    pub sells_distinct : IsDistinct b.sell_orders
    pub buys : All (Resident b.pool b.id_lookup true) b.buy_orders
    pub sells : All (Resident b.pool b.id_lookup false) b.sell_orders
    pub leads : LeadsToLive b
    pub stands : Standing b

-- A node survives a change of the pool and of the index that leaves its slot and its id alone.
pub Resident-keep {ℓ κ} :
    {P : Type ℓ} {Q : Order P → Type κ} (pool pool' : MemoryPool (Order P))
    (lookup lookup' : List (ℕ × ℕ)) (side : Bool) (e : P × ℕ)
    → (r : Resident Q pool lookup side e) → Pool.deref pool' e.1 ≡ Pool.deref pool e.1
    → find r.order.order_id lookup' ≡ find r.order.order_id lookup
    → Resident Q pool' lookup' side e
Resident-keep pool pool' lookup lookup' side e r h k = record {
  order = r.order;
  live = h ∙ r.live;
  at_price = r.at_price;
  on_side = r.on_side;
  found = k ∙ r.found;
  holds = r.holds;
}

module _ {ℓ κ} {P : Type ℓ} {Q : Order P → Type κ} ⦃p : PriceOrder P⦄ where
  -- A new book is valid.
  pub init-IsValid : (n : ℕ) → IsValid Q (init n)
  unfolding init find
  init-IsValid n = record {
    pool_valid = Laws.init-IsValid (Order P) n;
    buys_sorted = tt;
    sells_sorted = tt;
    buys_distinct = tt;
    sells_distinct = tt;
    buys = tt;
    sells = tt;
    leads = λ id s e. cc;
    stands = λ id s o e d. cc;
  }

  module _ (b : OrderBook P) (v : IsValid Q b) (id s : ℕ) (o : Order P)
      (e : find id b.id_lookup ≡ some s) (d : Pool.deref b.pool s ≡ some o)
      (same : o.order_id ≡ id) where
    Resident-erase :
        (side : Bool) (f : P × ℕ)
        → f.1 ≢ s
        → Resident Q b.pool b.id_lookup side f
        → Resident Q (Pool.deallocate b.pool (some s)) (erase id b.id_lookup) side f
    Resident-erase side f ne r =
        Resident-keep b.pool (Pool.deallocate b.pool (some s)) b.id_lookup (erase id b.id_lookup)
          side f r (ground (arith, deref-deallocate b.pool s f.1))
          (ground (arith, find-erase id r.order.order_id b.id_lookup, r.found))

    other_side :
        (side : Bool) (f : P × ℕ)
        → o.is_buy ≢ side
        → Resident Q b.pool b.id_lookup side f
        → Resident Q (Pool.deallocate b.pool (some s)) (erase id b.id_lookup) side f
    other_side side f ne r = Resident-erase side f (λ t. ne (ground arith)) r

    side_erase :
        (side : Bool) (m : List (P × ℕ))
        → IsDistinct m
        → All (Resident Q b.pool b.id_lookup side) m
        → All
            (Resident Q (Pool.deallocate b.pool (some s)) (erase id b.id_lookup) side)
            (erase_node s m)
    side_erase side m distinct all =
        All-map₂ (Resident-erase side) (erase_node s m) (erase_node-gone s m distinct)
          (All-erase_node (Resident Q b.pool b.id_lookup side) s m all)

    leads_erase : LeadsToLive (erase_order b id s o)
    unfolding erase_order
    leads_erase j t h =
        let (o', live, e') = v.leads j t (ground (arith, find-erase id j b.id_lookup)) in
        (o', ground (arith, deref-deallocate b.pool s t, find-erase id j b.id_lookup, live, e'), e')

    stands_erase : Standing (erase_order b id s o)
    unfolding erase_order
    stands_erase j t x h live = ground (
      arith,
      find-erase id j b.id_lookup,
      deref-deallocate b.pool s t,
      v.stands j t x,
      has_slot-erase_node s t b.buy_orders,
      has_slot-erase_node s t b.sell_orders,
    )

    -- Erasing a live order that its id leads to keeps the book valid.
    pub erase_order-IsValid : IsValid Q (erase_order b id s o)
    unfolding erase_order
    erase_order-IsValid = elim (Bool-cases o.is_buy) [
      | inl buy ↦ record {
        pool_valid = deallocate-IsValid b.pool s v.pool_valid;
        buys_sorted = rw buy (erase_node-IsSorted greater s b.buy_orders v.buys_sorted);
        sells_sorted = rw buy v.sells_sorted;
        buys_distinct = rw buy (erase_node-IsDistinct s b.buy_orders v.buys_distinct);
        sells_distinct = rw buy v.sells_distinct;
        buys = rw buy (side_erase true b.buy_orders v.buys_distinct v.buys);
        sells = rw buy (All-map (λ f. other_side false f (λ h. cc)) b.sell_orders v.sells);
        leads = leads_erase;
        stands = stands_erase;
      }
      | inr sell ↦ record {
        pool_valid = deallocate-IsValid b.pool s v.pool_valid;
        buys_sorted = rw sell v.buys_sorted;
        sells_sorted = rw sell (erase_node-IsSorted p.lt s b.sell_orders v.sells_sorted);
        buys_distinct = rw sell v.buys_distinct;
        sells_distinct = rw sell (erase_node-IsDistinct s b.sell_orders v.sells_distinct);
        buys = rw sell (All-map (λ f. other_side true f (λ h. cc)) b.buy_orders v.buys);
        sells = rw sell (side_erase false b.sell_orders v.sells_distinct v.sells);
        leads = leads_erase;
        stands = stands_erase;
      }
    ]
