-- ===== src/Exchange/Matching/Settle.antt =====
-- The removals of a turn: what `remove_if_filled` leaves of a book.
use advanced_cpp_p1g.Base.{
  ℕ, ◌+◌, ◌≤◌, ◌<◌, ◌≡◌, ◌≢◌, refl, sym, subst, ◌∙◌, inl, inr, true, false, some, List, [], ◌∷◌,
  ◌==◌, ==_iff, if◌then◌else◌, find, nat_eq, find-erase, arith, Bool-cases, length,
}
use advanced_cpp_p1g.Base.Fault.{some-inj}
use advanced_cpp_p1g.Price.{PriceOrder}
use advanced_cpp_p1g.Exchange.Order.{Order, is_filled}
use advanced_cpp_p1g.Exchange.Pool
use advanced_cpp_p1g.Exchange.Pool.Laws.{deref-deallocate}
use advanced_cpp_p1g.Exchange.Levels.{erase_node}
use advanced_cpp_p1g.Exchange.Book.{OrderBook, erase_order}
use advanced_cpp_p1g.Exchange.Book.Valid.{IsValid, erase_order-IsValid}
use advanced_cpp_p1g.Exchange.Book.Lookup.{remove_order_found}
use advanced_cpp_p1g.Exchange.Book.Update.{IsValid-map}
use advanced_cpp_p1g.Exchange.Matching.{remove_if_filled}

-- The book once the order `o` at slot `s` is taken out if it is filled.
pub settle {ℓ} : {P : Type ℓ} → OrderBook P → ℕ → Order P → OrderBook P
settle c s o = if is_filled o.status then erase_order c o.order_id s o else c

-- The number of resting orders.
abbrev pub orders {ℓ} : {P : Type ℓ} → OrderBook P → ℕ
orders b = length b.buy_orders + length b.sell_orders

length-erase_node-le {ℓ} :
    {P : Type ℓ} (s : ℕ) (m : List (P × ℕ)) → length (erase_node s m) ≤ length m
unfolding erase_node
length-erase_node-le s [] = omega arith
length-erase_node-le s ((j, t) ∷ m) = ground (arith, length-erase_node-le s m)

length-erase_node_front {ℓ} :
    {P : Type ℓ} (s : ℕ) (k : P) (m : List (P × ℕ)) → length (erase_node s ((k, s) ∷ m)) ≡ length m
unfolding erase_node
length-erase_node_front s k m = ground arith

module _ {ℓ} {P : Type ℓ} (c : OrderBook P) (s : ℕ) (o : Order P) where
  pub deref-settle : (t : ℕ) → s ≢ t → Pool.deref (settle c s o).pool t ≡ Pool.deref c.pool t
  unfolding settle erase_order
  deref-settle t ne = ground (arith, deref-deallocate c.pool s t)

  pub find-settle : (j : ℕ) → o.order_id ≢ j → find j (settle c s o).id_lookup ≡ find j c.id_lookup
  unfolding settle erase_order
  find-settle j ne = ground (arith, find-erase o.order_id j c.id_lookup)

  pub sells-settle : o.is_buy ≡ true → (settle c s o).sell_orders ≡ c.sell_orders
  unfolding settle erase_order
  sells-settle e = ground arith

  pub orders-settle-le : orders (settle c s o) ≤ orders c
  unfolding settle erase_order
  orders-settle-le =
      ground (arith, length-erase_node-le s c.buy_orders, length-erase_node-le s c.sell_orders)

  -- Taking out a filled order that is the first of its side leaves fewer orders.
  pub orders-settle_bid :
      (k : P) (m : List (P × ℕ))
      → is_filled o.status ≡ true
      → o.is_buy ≡ true
      → c.buy_orders ≡ (k, s) ∷ m
      → orders (settle c s o) < orders c
  unfolding settle erase_order
  orders-settle_bid k m f e h = rw (f, e, h) (omega (arith, length-erase_node_front s k m))

  pub orders-settle_ask :
      (k : P) (m : List (P × ℕ))
      → is_filled o.status ≡ true
      → o.is_buy ≡ false
      → c.sell_orders ≡ (k, s) ∷ m
      → orders (settle c s o) < orders c
  unfolding settle erase_order
  orders-settle_ask k m f e h = rw (f, e, h) (omega (arith, length-erase_node_front s k m))

  module _ (d : Pool.deref c.pool s ≡ some o) (e : find o.order_id c.id_lookup ≡ some s) where
    pub remove_if_filled_lem : remove_if_filled c s ≡ some (settle c s o)
    unfolding remove_if_filled settle
    remove_if_filled_lem = elim (Bool-cases (is_filled o.status)) [
      | inl f ↦ rw (d, f) (remove_order_found c o.order_id s o e d)
      | inr f ↦ rw (d, f)
    ]

-- If every other order satisfies `R`, and `o` does unless it is filled, then all orders that are
-- left do.
pub settle-IsValid {ℓ κ} :
    {P : Type ℓ} {R : Order P → Type κ} ⦃p : PriceOrder P⦄ (c : OrderBook P) (s : ℕ) (o : Order P)
    → Pool.deref c.pool s ≡ some o
    → find o.order_id c.id_lookup ≡ some s
    → (is_filled o.status ≡ false → R o)
    → IsValid (λ x. x.order_id ≢ o.order_id → R x) c
    → IsValid R (settle c s o)
unfolding settle erase_order
settle-IsValid {P = P} {R = R} c s o d e unfilled v = elim (Bool-cases (is_filled o.status)) [
  | inl f ↦ rw f (
      IsValid-map (erase_order c o.order_id s o) gone
        (erase_order-IsValid c v o.order_id s o e d refl))
  | inr f ↦ rw f (IsValid-map c (kept f) v)
]
  where
    gone :
        (x : Order P) (t : ℕ)
        → find x.order_id (erase_order c o.order_id s o).id_lookup ≡ some t
        → Pool.deref (erase_order c o.order_id s o).pool t ≡ some x
        → (x.order_id ≢ o.order_id → R x)
        → R x
    gone x t h l r = r (λ q. ground (arith, find-erase o.order_id x.order_id c.id_lookup))

    kept :
        is_filled o.status ≡ false
        → (x : Order P) (t : ℕ) → find x.order_id c.id_lookup ≡ some t
        → Pool.deref c.pool t ≡ some x
        → (x.order_id ≢ o.order_id → R x)
        → R x
    kept f x t h l r = elim (Bool-cases (x.order_id == o.order_id)) [
      | inl q ↦
          let same : s ≡ t = some-inj (sym e ∙ (rw ((==_iff x.order_id o.order_id).0 q) at h)) in
          subst R (some-inj (sym d ∙ rw same l)) (unfilled f)
      | inr q ↦ r (λ same. ground arith)
    ]
