-- ===== src/Exchange/Matching/Progress/Executed.antt =====
-- What the execution of a trade at the front of both sides leaves.
use advanced_cpp_p1g.Base.{
  ℕ, ◌<◌, ◌≡◌, ◌≢◌, refl, sym, subst, ◌∙◌, ◌⊎◌, inl, inr, true, false, some, List, ◌∷◌, find,
  nat_eq, arith, Bool-cases, All, All-map,
}
use advanced_cpp_p1g.Base.Int.{ℤ, pos, ◌<ℤ◌, ◌≤ℤ◌, min_ℤ}
use advanced_cpp_p1g.Price.{PriceOrder}
use advanced_cpp_p1g.Exchange.Order.{
  Order, fill_fits, update_filled, IsOpen, fill_fits-IsOpen, update_filled-IsOpen,
  update_filled_full,
}
use advanced_cpp_p1g.Exchange.Pool
use advanced_cpp_p1g.Exchange.Pool.Laws.{deref-store}
use advanced_cpp_p1g.Exchange.Book.{OrderBook}
use advanced_cpp_p1g.Exchange.Book.Valid.{IsValid}
use advanced_cpp_p1g.Exchange.Book.Lookup.{order_of}
use advanced_cpp_p1g.Exchange.Book.Update.{write, write-IsValid}
use advanced_cpp_p1g.Exchange.Matching.Settle.{
  settle, orders, deref-settle, find-settle, sells-settle, orders-settle-le, orders-settle_bid,
  orders-settle_ask, remove_if_filled_lem, settle-IsValid,
}
use advanced_cpp_p1g.Exchange.Matching.{Trade, fill, execute}

min_ℤ-le : (a b : ℤ) → (min_ℤ a b ≤ℤ a) × (min_ℤ a b ≤ℤ b)
min_ℤ-le a b = ground arith

pub min_pos : (a b : ℤ) → pos 0 <ℤ a → pos 0 <ℤ b → pos 0 <ℤ min_ℤ a b
min_pos a b h k = ground arith

-- One of the two quantities is the minimum.
min_reached : (a b : ℤ) → (a ≤ℤ min_ℤ a b) ⊎ (b ≤ℤ min_ℤ a b)
min_reached a b = ground arith

module _ {ℓ} {P : Type ℓ} ⦃p : PriceOrder P⦄ where
  -- No buy order reaches the price of a sell order.
  abbrev pub AreUncrossed : List (P × ℕ) → List (P × ℕ) → Type 0
  AreUncrossed buys sells = All (λ e. All (λ f. p.lt e.0 f.0 ≡ true) sells) buys

  abbrev pub IsUncrossed : OrderBook P → Type 0
  IsUncrossed b = AreUncrossed b.buy_orders b.sell_orders

  pub IsUncrossed-sides :
      (b : OrderBook P) (buys sells : List (P × ℕ))
      → b.buy_orders ≡ buys
      → b.sell_orders ≡ sells
      → AreUncrossed buys sells
      → IsUncrossed b
  IsUncrossed-sides b buys sells eb ea h =
      subst (λ l. AreUncrossed l b.sell_orders) (sym eb)
        (subst (λ l. AreUncrossed buys l) (sym ea) h)

  -- A trade between two open orders of the book: a buy order and a sell order that its ids lead to,
  -- at the sell order's price, which the buy order reaches, and of a positive quantity that is the
  -- smaller of the two orders' quantities.
  pub record IsTradeIn (b : OrderBook P) (x : Trade P) : Type ℓ where
    pub bid : Order P
    pub ask : Order P
    pub bid_found : order_of b x.buy_order_id ≡ some bid
    pub ask_found : order_of b x.sell_order_id ≡ some ask
    pub bid_buys : bid.is_buy ≡ true
    pub ask_sells : ask.is_buy ≡ false
    pub bid_open : IsOpen bid
    pub ask_open : IsOpen ask
    pub at_ask : x.price ≡ ask.price
    pub reached : p.lt bid.price ask.price ≡ false
    pub positive : pos 0 <ℤ x.quantity
    pub smaller : x.quantity ≡ min_ℤ bid.quantity ask.quantity

  pub uncrossed_below :
      (k j : P) (m n : List (P × ℕ))
      → p.lt k j ≡ true
      → All (λ e. p.lt k e.0 ≡ false) m
      → All (λ f. p.lt f.0 j ≡ false) n
      → All (λ e. All (λ f. p.lt e.0 f.0 ≡ true) n) m
  uncrossed_below k j m n h lo hi =
      All-map (λ e a. All-map (λ f c. below e.0 f.0 a c (Bool-cases (p.lt e.0 f.0))) n hi) m lo
    where
      below :
          (x y : P)
          → p.lt k x ≡ false
          → p.lt y j ≡ false
          → (p.lt x y ≡ true) ⊎ (p.lt x y ≡ false)
          → p.lt x y ≡ true
      below x y a c (inl r) = r
      below x y a c (inr r) = cc (p.neg_trans k y j (p.neg_trans k x y a r) c)

module _ {ℓ} {P : Type ℓ} ⦃p : PriceOrder P⦄ (b : OrderBook P) (v : IsValid IsOpen b) (k j : P)
    (s t : ℕ) (m n : List (P × ℕ)) (bid ask : Order P) (eb : b.buy_orders ≡ (k, s) ∷ m)
    (ea : b.sell_orders ≡ (j, t) ∷ n) (d₁ : Pool.deref b.pool s ≡ some bid)
    (d₂ : Pool.deref b.pool t ≡ some ask) (e₁ : find bid.order_id b.id_lookup ≡ some s)
    (e₂ : find ask.order_id b.id_lookup ≡ some t) (buys : bid.is_buy ≡ true)
    (sells : ask.is_buy ≡ false) (open₁ : IsOpen bid) (open₂ : IsOpen ask) where
  abbrev pub quantity : ℤ
  quantity = min_ℤ bid.quantity ask.quantity

  abbrev bid' : Order P
  bid' = update_filled bid quantity

  abbrev ask' : Order P
  ask' = update_filled ask quantity

  abbrev b₁ : OrderBook P
  b₁ = write b s bid'

  abbrev b₂ : OrderBook P
  b₂ = write b₁ t ask'

  abbrev b₃ : OrderBook P
  b₃ = settle b₂ s bid'

  abbrev b₄ : OrderBook P
  b₄ = settle b₃ t ask'

  two_slots : s ≢ t
  two_slots e = ground arith

  two_ids : bid.order_id ≢ ask.order_id
  two_ids e = two_slots (ground arith)

  live_ask : Pool.deref b₁.pool t ≡ some ask
  live_ask = ground (arith, deref-store b.pool s t bid' bid d₁, two_slots)

  live_bid' : Pool.deref b₂.pool s ≡ some bid'
  live_bid' = ground (
    arith,
    deref-store b₁.pool t s ask' ask live_ask,
    deref-store b.pool s s bid' bid d₁,
    two_slots,
  )

  live_ask' : Pool.deref b₃.pool t ≡ some ask'
  live_ask' =
      ground (arith, deref-settle b₂ s bid' t two_slots, deref-store b₁.pool t t ask' ask live_ask)

  found_bid' : find bid'.order_id b₂.id_lookup ≡ some s
  unfolding update_filled
  found_bid' = e₁

  found_ask' : find ask'.order_id b₃.id_lookup ≡ some t
  unfolding update_filled
  found_ask' = find-settle b₂ s bid' ask.order_id two_ids ∙ e₂

  quantity_pos : pos 0 <ℤ quantity
  quantity_pos = min_pos bid.quantity ask.quantity open₁.0 open₂.0

  bid_fits : fill_fits bid quantity ≡ true
  bid_fits = fill_fits-IsOpen bid quantity open₁ quantity_pos (min_ℤ-le bid.quantity ask.quantity).0

  ask_fits : fill_fits ask quantity ≡ true
  ask_fits = fill_fits-IsOpen ask quantity open₂ quantity_pos (min_ℤ-le bid.quantity ask.quantity).1

  pub execute_lem : execute b s t quantity ≡ some b₄
  unfolding execute fill
  execute_lem =
      rw (d₁, bid_fits, live_ask, ask_fits, remove_if_filled_lem b₂ s bid' live_bid' found_bid')
        (remove_if_filled_lem b₃ t ask' live_ask' found_ask')

  -- Every order but the two that trade is still open.
  abbrev OthersOpen : Order P → Type 0
  OthersOpen x = x.order_id ≢ bid'.order_id → x.order_id ≢ ask'.order_id → IsOpen x

  valid₂ : IsValid OthersOpen b₂
  unfolding update_filled
  valid₂ =
      write-IsValid b₁ t ask ask' live_ask refl refl refl (λ x h. h) (λ h k. absurd (k refl))
        (write-IsValid b s bid bid' d₁ refl refl refl (λ x h _ _. h) (λ h k. absurd (h refl)) v)

  valid₃ : IsValid (λ x. x.order_id ≢ ask'.order_id → IsOpen x) b₃
  valid₃ =
      settle-IsValid b₂ s bid' live_bid' found_bid'
        (λ e _. update_filled-IsOpen bid quantity open₁ quantity_pos e) valid₂

  pub valid₄ : IsValid IsOpen b₄
  valid₄ =
      settle-IsValid b₃ t ask' live_ask' found_ask'
        (update_filled-IsOpen ask quantity open₂ quantity_pos) valid₃

  pub fewer : orders b₄ < orders b
  unfolding update_filled
  fewer = elim (min_reached bid.quantity ask.quantity) [
    | inl h ↦ omega (
      arith,
      orders-settle_bid b₂ s bid' k m (update_filled_full bid quantity open₁ h) buys eb,
      orders-settle-le b₃ t ask',
    )
    | inr h ↦ omega (
      arith,
      orders-settle_ask b₃ t ask' j n (update_filled_full ask quantity open₂ h) sells
          (sells-settle b₂ s bid' buys ∙ ea),
      orders-settle-le b₂ s bid',
    )
  ]
