-- ===== src/Exchange/Latency/Sound.antt =====
-- Every tick of the loop is handled, and what holds after any number of them.
use advanced_cpp_p1g.Base.{
  ℕ, suc, ◌≤◌, ◌≡◌, refl, sym, subst, ap, ◌∙◌, inl, inr, Bool, true, false, Option, none, some,
  List, [], ◌∷◌, find, nat_eq, arith, All, Option-cases, ◌⊎◌, ◌==◌, ==_iff, if◌then◌else◌,
}
use advanced_cpp_p1g.Base.Int.{pos, ◌<ℤ◌, ◌≤ℤ◌}
use advanced_cpp_p1g.Price.{PriceOrder}
use advanced_cpp_p1g.Exchange.Order.{Order, make, new, max_quantity, IsOpen}
use advanced_cpp_p1g.Exchange.Book.{OrderBook, init, add_order}
use advanced_cpp_p1g.Exchange.Book.Valid.{IsValid, init-IsValid}
use advanced_cpp_p1g.Exchange.Book.Lookup.{Added, dropped, entered, add_order-Added}
use advanced_cpp_p1g.Exchange.Book.Ids.{add_order-others}
use advanced_cpp_p1g.Exchange.Manager.{OrderManager, empty, create_order, get_order}
use advanced_cpp_p1g.Exchange.Manager.Orders.{order_at, create_order_lem}
use advanced_cpp_p1g.Exchange.Manager.Orders
use advanced_cpp_p1g.Exchange.Matching.Ids.{Session-NoNewIds}
use advanced_cpp_p1g.Exchange.Matching.Progress.Executed.{IsUncrossed}
use advanced_cpp_p1g.Exchange.Matching.Run.{match_orders-Finishes}
use advanced_cpp_p1g.Exchange.Matching.Settle.{orders}
use advanced_cpp_p1g.Exchange.Logger.{log_all}
use advanced_cpp_p1g.Exchange.Latency.{
  Tick, Desk, new_desk, book_order, match_and_log, on_tick, on_ticks,
}

module _ {ℓ} {P : Type ℓ} ⦃p : PriceOrder P⦄ where
  -- A tick asks for a positive quantity of at most 2^30.
  abbrev pub IsOrdered : Tick P → Type 0
  IsOrdered t = (pos 0 <ℤ t.quantity) × (t.quantity ≤ℤ max_quantity)

  -- Before tick `i`: the book is valid, holds open orders and no id from `i` on, and no buy order
  -- reaches a sell order; the orders of the manager are all as they were created.
  record Ready (i : ℕ) (d : Desk P) : Type ℓ where
    valid : IsValid IsOpen d.book
    uncrossed : IsUncrossed d.book
    unused : (j : ℕ) → i ≤ j → find j d.book.id_lookup ≡ none
    oms_valid : Orders.IsValid d.oms
    untouched :
        (j : ℕ) (o : Order P)
        → order_at d.oms j ≡ some o
        → (o.status ≡ new) × (o.filled_quantity ≡ pos 0)

  Ready-new : (pool_size : ℕ) → Ready 0 (new_desk pool_size)
  unfolding init empty find get_order
  Ready-new pool_size = record {
    valid = init-IsValid pool_size;
    uncrossed = tt;
    unused = λ j h. refl;
    oms_valid = record { live = λ id ptr h. cc; unshared = λ j k ptr h e. cc };
    untouched = λ j o e. (cc, cc);
  }

  Added-IsValid :
      (b c : OrderBook P) (o : Order P) → IsValid IsOpen b → Added IsOpen b o c → IsValid IsOpen c
  Added-IsValid b c o v (dropped full e) = subst (IsValid IsOpen) (sym e) v
  Added-IsValid b c o v (entered w reads) = w

  -- The order that the manager holds goes to the book.
  book_order_lem :
      (d : Desk P) (oms : OrderManager P) (i : ℕ) (o : Order P)
      → order_at oms i ≡ some o
      → book_order d oms i ≡ some (add_order d.book o.order_id o.symbol o.price o.quantity o.is_buy)
  unfolding book_order
  book_order_lem d oms i o e = elim (Option-cases (get_order oms i)) [
    | inl n ↦ let never = rw n at e in cc
    | inr (ptr, n) ↦ let there = rw n at e in rw (n, there) refl
  ]

  created_or_old :
      (created : Bool) (o x : Order P) (old : Option (Order P))
      → (if created then some o else old) ≡ some x
      → (o ≡ x) ⊎ (old ≡ some x)
  created_or_old true o x old e = inl cc
  created_or_old false o x old e = inr e

  on_tick-Ready :
      (i : ℕ) (d : Desk P) (t : Tick P)
      → IsOrdered t
      → Ready i d
      → (c : Desk P) × (on_tick d i t ≡ some c) × Ready (suc i) c
  unfolding on_tick match_and_log
  on_tick-Ready i d t positive r =
      let o = make i t.symbol t.bid_price t.quantity t.is_buy in
      let oms = create_order d.oms i t.symbol t.bid_price t.quantity t.is_buy in
      let (oms_valid, held) =
        create_order_lem d.oms i t.symbol t.bid_price t.quantity t.is_buy r.oms_valid in
      let book = add_order d.book i t.symbol t.bid_price t.quantity t.is_buy in
      let open_order : IsOpen o = (positive.0, omega arith, positive.0, positive.1) in
      let valid = Added-IsValid d.book book o r.valid (
        add_order-Added d.book i t.symbol t.bid_price t.quantity t.is_buy r.valid
          (r.unused i (omega arith)) open_order) in
      let f = match_orders-Finishes (suc (orders book)) book (omega arith) valid in
      (
        record { oms = oms; book = f.left; logger = log_all d.logger f.ts },
        rw (book_order_lem d oms i o (held i ∙ rw ((==_iff i i).1 refl) refl), f.result) refl,
        record {
          valid = f.valid;
          uncrossed = f.uncrossed;
          unused = λ j h. Session-NoNewIds book f.left f.ts f.session j (
              add_order-others d.book i t.symbol t.bid_price t.quantity t.is_buy j
                (λ e. omega (arith, e)) (r.unused j (omega arith)));
          oms_valid = oms_valid;
          untouched = λ j x e.
              elim (created_or_old (i == j) o x (order_at d.oms j) (sym (held j) ∙ e)) [
                | inl same ↦ (ap (λ y. y.status) (sym same), ap (λ y. y.filled_quantity) (sym same))
                | inr old ↦ r.untouched j x old
              ];
        },
      )

  on_ticks-Ready :
      (i : ℕ) (d : Desk P) (ts : List (Tick P))
      → All IsOrdered ts
      → Ready i d
      → (k : ℕ) × (c : Desk P) × (on_ticks d i ts ≡ some c) × Ready k c
  unfolding on_ticks
  on_ticks-Ready i d [] positive r = (i, d, refl, r)
  on_ticks-Ready i d (t ∷ ts) positive r =
      let (c, e, w) = on_tick-Ready i d t positive.0 r in
      let (k, z, f, u) = on_ticks-Ready (suc i) c ts positive.1 w in (k, z, rw e f, u)

  -- The loop on a new desk, with any ticks whose quantities are positive and at most 2^30, runs to
  -- its end: nothing in it is undefined, no sum of filled quantities overflows an int, and no call
  -- of `match_orders` takes more turns than there are orders, and one. Then the book is valid, each
  -- order standing on its side, and holds open orders only, no buy order reaches a sell order, and
  -- the orders of the manager are all new, with nothing filled.
  pub on_ticks_lem :
      (pool_size : ℕ) (ts : List (Tick P))
      → All IsOrdered ts
      → (d : Desk P) × (on_ticks (new_desk pool_size) 0 ts ≡ some d)
        × IsValid IsOpen d.book
        × IsUncrossed d.book
        × ((j : ℕ) (o : Order P)
            → order_at d.oms j ≡ some o
            → (o.status ≡ new) × (o.filled_quantity ≡ pos 0))
  on_ticks_lem pool_size ts positive =
      let (k, d, e, r) = on_ticks-Ready 0 (new_desk pool_size) ts positive (Ready-new pool_size) in
      (d, e, r.valid, r.uncrossed, r.untouched)
