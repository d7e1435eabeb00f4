-- ===== src/FeedTrader/Strategy/Sales.antt =====
-- The orders that the strategy places.
use advanced_cpp_p1g.Base.{
  ℕ, ◌+◌, ◌<◌, ◌≡◌, refl, sym, ◌∙◌, ◌⊎◌, inl, inr, Bool, true, false, Option, none, some, List, [],
  ◌∷◌, ◌==◌, ==_iff, if◌then◌else◌, find, nat_eq, arith, Bool-cases, Option-cases,
}
use advanced_cpp_p1g.Base.Fault.{some-inj}
use advanced_cpp_p1g.Base.Int.{ℤ, pos, negsuc}
use advanced_cpp_p1g.Price.{PriceOrder}
use advanced_cpp_p1g.FeedTrader.Snapshot.{PriceLevel}
use advanced_cpp_p1g.FeedTrader.Orders.{
  MyOrder, OrderManager, sell, my_order, place_order, handle_fill, change_at, add_fill, IsValid,
  place_order_lem, fill_cancel_lem,
}
use advanced_cpp_p1g.FeedTrader.Feed.{FeedType, FeedEvent, bid, ask, execution, unknown}
use advanced_cpp_p1g.FeedTrader.Strategy.{
  Trader, differ, is_high, should_sell, apply_typed, apply_event, sell_at, sell_if_high, start, run,
}

module _ {ℓ} {P : Type ℓ} where
  -- Every order of the one manager has its side, price and quantity from the other.
  abbrev Traced : OrderManager P → OrderManager P → Type ℓ
  Traced m n =
      (j : ℕ) (o : MyOrder P)
      → find j n.orders ≡ some o
      → (q : MyOrder P) × (find j m.orders ≡ some q)
        × (o.side ≡ q.side)
        × (o.price ≡ q.price)
        × (o.quantity ≡ q.quantity)

  kept :
      (qty : ℤ) (b : Bool) (o q : MyOrder P)
      → some o ≡ (if b then some (add_fill qty q) else some q)
      → (o.side ≡ q.side) × (o.price ≡ q.price) × (o.quantity ≡ q.quantity)
  unfolding add_fill
  kept qty true o q h = rw (some-inj h) (refl, refl, refl)
  kept qty false o q h = rw (some-inj h) (refl, refl, refl)

  handle_fill-Traced :
      (m : OrderManager P) (id qty : ℤ)
      → IsValid m
      → IsValid (handle_fill m id qty)
        × ((handle_fill m id qty).next_id ≡ m.next_id)
        × Traced m (handle_fill m id qty)
  unfolding handle_fill change_at add_fill
  handle_fill-Traced m (negsuc i) qty v = (v, refl, λ j o h. (o, h, refl, refl, refl))
  handle_fill-Traced m (pos i) qty v =
      let f = fill_cancel_lem m i qty v in
      (
        f.0.0,
        (elim (Option-cases (find i m.orders)) [
          | inl e ↦ rw (e, change_at)
          | inr (o, e) ↦ rw (e, change_at)
        ]),
        λ j o h. elim (Option-cases (find j m.orders)) [
          | inl e ↦ ground (arith, (f.1 j).0, e)
          | inr (q, e) ↦
              let k = kept qty (i == j) o q (rw e at (sym h ∙ (f.1 j).0)) in (q, e, k.0, k.1, k.2)
        ],
      )

  -- An order is held under each id from 1 up to the last one given out.
  abbrev pub HasEvery : OrderManager P → Type ℓ
  HasEvery m = (i : ℕ) → 0 < i → i < m.next_id → (o : MyOrder P) × (find i m.orders ≡ some o)

  handle_fill-HasEvery :
      (m : OrderManager P) (id qty : ℤ) → IsValid m → HasEvery m → HasEvery (handle_fill m id qty)
  unfolding handle_fill change_at
  handle_fill-HasEvery m (negsuc i) qty v every = every
  handle_fill-HasEvery m (pos i) qty v every = λ j h lt.
      let (o, e) = every j h (omega (arith, (handle_fill-Traced m (pos i) qty v).1)) in
      (
        (if i == j then add_fill qty o else o),
        ground (arith, ((fill_cancel_lem m i qty v).1 j).0, e),
      )

module _ {ℓ} {P : Type ℓ} ⦃p : PriceOrder P⦄ where
  -- There is an order under each id from 1 up to the last one given out; every order is a sale of 50
  -- at a price above the limit; the prices of two orders in a row differ; and `last_sell_price` is
  -- the price of the last order.
  pub record Sells (limit : P) (t : Trader P) : Type ℓ where
    pub managed : IsValid t.om
    pub every : HasEvery t.om
    pub sales :
        (i : ℕ) (o : MyOrder P)
        → find i t.om.orders ≡ some o
        → (o.side ≡ sell) × (o.quantity ≡ pos 50) × (p.lt limit o.price ≡ true)
    pub moves :
        (i : ℕ) (o q : MyOrder P)
        → find i t.om.orders ≡ some o
        → find (i + 1) t.om.orders ≡ some q
        → differ q.price o.price ≡ true
    pub latest :
        (i : ℕ) (o : MyOrder P)
        → find i t.om.orders ≡ some o
        → i + 1 ≡ t.om.next_id
        → o.price ≡ t.last_sell_price

  Traced-Sells :
      (limit : P) (t : Trader P) (n : OrderManager P)
      → Sells limit t
      → IsValid n
      → n.next_id ≡ t.om.next_id
      → Traced t.om n
      → HasEvery n
      → Sells limit (record t { om = n })
  Traced-Sells limit t n s v same tr every = record {
    managed = v;
    every = every;
    sales = λ i o h.
        let (q, e, side, price, quantity) = tr i o h in
        let old = s.sales i q e in (side ∙ old.0, quantity ∙ old.1, rw price old.2);
    moves = λ i o q h k.
        let (o', e, side, price, quantity) = tr i o h in
        let (q', d, side', price', quantity') = tr (i + 1) q k in
        rw (price, price') (s.moves i o' q' e d);
    latest = λ i o h last.
        let (q, e, side, price, quantity) = tr i o h in price ∙ s.latest i q e (last ∙ same);
  }

  apply_typed-Sells :
      (limit : P) (t : Trader P) (type : FeedType) (e : FeedEvent P)
      → Sells limit t
      → Sells limit (apply_typed t type e)
  apply_typed-Sells limit t bid e s = record {
    managed = s.managed;
    every = s.every;
    sales = s.sales;
    moves = s.moves;
    latest = s.latest;
  }
  apply_typed-Sells limit t ask e s = record {
    managed = s.managed;
    every = s.every;
    sales = s.sales;
    moves = s.moves;
    latest = s.latest;
  }
  apply_typed-Sells limit t execution e s =
      let (v, same, tr) = handle_fill-Traced t.om e.order_id e.quantity s.managed in
      Traced-Sells limit t _ s v same tr
        (handle_fill-HasEvery t.om e.order_id e.quantity s.managed s.every)
  apply_typed-Sells limit t unknown e s = s

  apply_event-Sells :
      (limit : P) (t : Trader P) (e : FeedEvent P) → Sells limit t → Sells limit (apply_event t e)
  unfolding apply_event
  apply_event-Sells limit t e s = apply_typed-Sells limit t e.type e s

  -- An order after a sale is the new one or an old one.
  new_or_old :
      (m : OrderManager P) (price : P)
      → IsValid m
      → (i : ℕ) (o : MyOrder P) → find i (place_order m sell price (pos 50)).1.orders ≡ some o
      → ((m.next_id ≡ i) × (o ≡ my_order m.next_id sell price (pos 50)))
        ⊎ ((i < m.next_id) × (find i m.orders ≡ some o))
  unfolding place_order
  new_or_old m price v i o h =
      let at = (place_order_lem m sell price (pos 50) v).2 in
      elim (Bool-cases (m.next_id == i)) [
        | inl e ↦ inl ((==_iff m.next_id i).0 e, some-inj (sym h ∙ (at i ∙ rw e)))
        | inr e ↦ let old = sym (rw e at (sym h ∙ at i)) in inr ((v.given i o old).1, old)
      ]

  place_order-HasEvery :
      (m : OrderManager P) (price : P)
      → IsValid m
      → HasEvery m
      → HasEvery (place_order m sell price (pos 50)).1
  unfolding place_order
  place_order-HasEvery m price v every i h lt =
      let at = (place_order_lem m sell price (pos 50) v).2 i in
      elim (Bool-cases (m.next_id == i)) [
        | inl e ↦ (my_order m.next_id sell price (pos 50), at ∙ rw e)
        | inr e ↦ let (o, there) = every i h (ground arith) in (o, at ∙ rw e there)
      ]

  -- A sale at a new price above the limit.
  sold-Sells :
      (limit price : P) (t : Trader P)
      → p.lt limit price ≡ true
      → differ price t.last_sell_price ≡ true
      → Sells limit t
      → Sells limit
          (record t { om = (place_order t.om sell price (pos 50)).1; last_sell_price = price })
  unfolding place_order
  sold-Sells limit price t high moved s =
      let new_one = new_or_old t.om price s.managed in
      record {
        managed = (place_order_lem t.om sell price (pos 50) s.managed).1;
        every = place_order-HasEvery t.om price s.managed s.every;
        sales = λ i o h. elim (new_one i o h) [
          | inl (e, d) ↦ rw d (refl, refl, high)
          | inr (lt, old) ↦ s.sales i o old
        ];
        moves = λ i o q h k. elim (new_one i o h) [
          | inl (e, d) ↦ elim (new_one (i + 1) q k) [
            | inl (e', d') ↦ absurd (omega arith)
            | inr (lt', old') ↦ absurd (omega arith)
          ]
          | inr (lt, old) ↦ elim (new_one (i + 1) q k) [
            | inl (e', d') ↦ rw (d', s.latest i o old (sym e')) moved
            | inr (lt', old') ↦ s.moves i o q old old'
          ]
        ];
        latest = λ i o h last. elim (new_one i o h) [
          | inl (e, d) ↦ rw d
          | inr (lt, old) ↦ absurd (omega arith)
        ];
      }

  sell_at-Sells :
      (limit : P) (t : Trader P) (l : Option (PriceLevel P))
      → is_high limit l ≡ true
      → Sells limit t
      → Sells limit (sell_at t l)
  unfolding sell_at
  sell_at-Sells limit t none h s = s
  sell_at-Sells limit t (some l) h s = elim (Bool-cases (differ l.price t.last_sell_price)) [
    | inl e ↦ rw e (sold-Sells limit l.price t h e s)
    | inr e ↦ rw e s
  ]

  sell_if_high-Sells :
      (limit : P) (t : Trader P) → Sells limit t → Sells limit (sell_if_high limit t)
  unfolding sell_if_high
  sell_if_high-Sells limit t s = elim (Bool-cases (should_sell limit t.snapshot)) [
    | inl e ↦ rw e (sell_at-Sells limit t _ e s)
    | inr e ↦ rw e s
  ]

  run-keeps :
      (limit : P) (t : Trader P) (events : List (FeedEvent P))
      → Sells limit t
      → Sells limit (run limit t events)
  unfolding run
  run-keeps limit t [] s = s
  run-keeps limit t (e ∷ events) s =
      run-keeps limit (sell_if_high limit (apply_event t e)) events
        (sell_if_high-Sells limit (apply_event t e) (apply_event-Sells limit t e s))

  -- Whatever the feed: the strategy has an order under each id from 1 up to the last one given out and
  -- under no other, every order that it has placed is a sale of 50 at a price above the limit, no two
  -- orders in a row have the same price, and `last_sell_price` is the price of the last order.
  pub run-Sells :
      (limit no_sale : P) (events : List (FeedEvent P))
      → Sells limit (run limit (start no_sale) events)
  unfolding find
  run-Sells limit no_sale events = run-keeps limit (start no_sale) events (record {
    managed = record { started = omega arith; given = λ i o h. cc };
    every = λ i h lt. absurd (omega arith);
    sales = λ i o h. cc;
    moves = λ i o q h k. cc;
    latest = λ i o h e. cc;
  })
