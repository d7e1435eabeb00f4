-- ===== src/Exchange/Book/Update.antt =====
-- A write to an order through the pointer that the book handed out, and a stronger or weaker
-- property of the resting orders.
use advanced_cpp_p1g.Base.{
  ℕ, ◌≡◌, ◌∙◌, inl, inr, Bool, true, false, some, ◌==◌, find, nat_eq, arith, All-map, Bool-cases,
}
use advanced_cpp_p1g.Price.{PriceOrder}
use advanced_cpp_p1g.Exchange.Order.{Order}
use advanced_cpp_p1g.Exchange.Pool
use advanced_cpp_p1g.Exchange.Pool.Laws.{store-IsValid, deref-store}
use advanced_cpp_p1g.Exchange.Book.{OrderBook}
use advanced_cpp_p1g.Exchange.Book.Valid.{IsValid, Resident, LeadsToLive, Standing}

-- The book after the order at slot `s` has become `o`.
abbrev pub write {ℓ} : {P : Type ℓ} → OrderBook P → ℕ → Order P → OrderBook P
write b s o = record b { pool = Pool.store b.pool s o }

module _ {ℓ κ μ} {P : Type ℓ} {Q : Order P → Type κ} {R : Order P → Type μ} ⦃p : PriceOrder P⦄ where
  -- What holds of every resting order, by its validity and its place in the index.
  pub IsValid-map :
      (b : OrderBook P)
      → ((o : Order P) (s : ℕ)
          → find o.order_id b.id_lookup ≡ some s
          → Pool.deref b.pool s ≡ some o
          → Q o
          → R o)
      → IsValid Q b
      → IsValid R b
  IsValid-map b f v = record {
    pool_valid = v.pool_valid;
    buys_sorted = v.buys_sorted;
    sells_sorted = v.sells_sorted;
    buys_distinct = v.buys_distinct;
    sells_distinct = v.sells_distinct;
    buys = All-map (resident true) b.buy_orders v.buys;
    sells = All-map (resident false) b.sell_orders v.sells;
    leads = v.leads;
    stands = v.stands;
  }
    where
      resident :
          (side : Bool) (e : P × ℕ)
          → Resident Q b.pool b.id_lookup side e
          → Resident R b.pool b.id_lookup side e
      resident side e r = record {
        order = r.order;
        live = r.live;
        at_price = r.at_price;
        on_side = r.on_side;
        found = r.found;
        holds = f r.order e.1 r.found r.live r.holds;
      }

  module _ (b : OrderBook P) (s : ℕ) (o o' : Order P) (d : Pool.deref b.pool s ≡ some o)
      (same_id : o'.order_id ≡ o.order_id) (same_price : o'.price ≡ o.price)
      (same_side : o'.is_buy ≡ o.is_buy) (weaken : (x : Order P) → Q x → R x) (holds : R o') where
    Resident-write :
        (side : Bool) (e : P × ℕ)
        → Resident Q b.pool b.id_lookup side e
        → Resident R (Pool.store b.pool s o') b.id_lookup side e
    Resident-write side e r = elim (Bool-cases (s == e.1)) [
      | inl h ↦ record {
        order = o';
        live = ground (arith, deref-store b.pool s e.1 o' o d);
        at_price = same_price ∙ ground (arith, r.live, r.at_price);
        on_side = same_side ∙ ground (arith, r.live, r.on_side);
        found = ground (arith, r.live, r.found);
        holds = holds;
      }
      | inr h ↦ record {
        order = r.order;
        live = ground (arith, deref-store b.pool s e.1 o' o d, r.live);
        at_price = r.at_price;
        on_side = r.on_side;
        found = r.found;
        holds = weaken r.order r.holds;
      }
    ]

    leads_write : LeadsToLive b → LeadsToLive (write b s o')
    leads_write leads j t h =
        let (x, live, e) = leads j t h in
        elim (Bool-cases (s == t)) [
          | inl q ↦ (o', ground (arith, deref-store b.pool s t o' o d), ground arith)
          | inr q ↦ (x, ground (arith, deref-store b.pool s t o' o d), e)
        ]

    stands_write : Standing b → Standing (write b s o')
    stands_write stands j t x h live =
        ground (arith, deref-store b.pool s t o' o d, stands j t x h, stands j t o h, d, same_side)

    -- A write that keeps the id, the price and the side keeps the book valid.
    pub write-IsValid : IsValid Q b → IsValid R (write b s o')
    write-IsValid v = record {
      pool_valid = store-IsValid b.pool s o' o v.pool_valid d;
      buys_sorted = v.buys_sorted;
      sells_sorted = v.sells_sorted;
      buys_distinct = v.buys_distinct;
      sells_distinct = v.sells_distinct;
      buys = All-map (Resident-write true) b.buy_orders v.buys;
      sells = All-map (Resident-write false) b.sell_orders v.sells;
      leads = leads_write v.leads;
      stands = stands_write v.stands;
    }
