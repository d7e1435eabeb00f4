-- ===== src/Exchange/Book/Best.antt =====
-- The best bid and the best ask of a valid book.
use advanced_cpp_p1g.Base.{
  ℕ, ◌≡◌, refl, ◌⊎◌, inl, inr, Bool, true, false, none, some, List, [], ◌∷◌, All, All-map₂,
}
use advanced_cpp_p1g.Price.{PriceOrder, greater}
use advanced_cpp_p1g.Exchange.Order.{Order}
use advanced_cpp_p1g.Exchange.Pool.{MemoryPool}
use advanced_cpp_p1g.Exchange.Pool
use advanced_cpp_p1g.Exchange.Levels.Order.{IsSorted}
use advanced_cpp_p1g.Exchange.Book.{OrderBook, front, get_best_bid, get_best_ask}
use advanced_cpp_p1g.Exchange.Book.Valid.{IsValid, Resident}

-- The order at slot `s` is live, and its price stands in the relation `before` to no order of
-- the side that comes strictly earlier.
abbrev pub IsBestOf {ℓ} :
    {P : Type ℓ} → (P → P → Bool) → MemoryPool (Order P) → List (P × ℕ) → ℕ → Type ℓ
IsBestOf {P} before pool side s =
    (o : Order P) × (Pool.deref pool s ≡ some o)
    × All (λ e. (x : Order P) × (Pool.deref pool e.1 ≡ some x) × (before x.price o.price ≡ false))
        side

module _ {ℓ κ} {P : Type ℓ} ⦃p : PriceOrder P⦄ where
  front-IsBestOf :
      (Q : Order P → Type κ) (before : P → P → Bool) (pool : MemoryPool (Order P))
      (lookup : List (ℕ × ℕ)) (side : Bool) (refl_false : (a : P) → before a a ≡ false)
      (m : List (P × ℕ))
      → IsSorted before m
      → All (Resident Q pool lookup side) m
      → ((m ≡ []) × (front m ≡ none)) ⊎ ((s : ℕ) × (front m ≡ some s) × IsBestOf before pool m s)
  front-IsBestOf Q before pool lookup side rf [] h r = inl (refl, refl)
  front-IsBestOf Q before pool lookup side rf ((k, s) ∷ m) h r = inr (
    s,
    refl,
    (
      r.0.order,
      r.0.live,
      (
        (r.0.order, r.0.live, rf r.0.order.price),
        All-map₂
            (λ f (x : before f.0 k ≡ false) (y : Resident Q pool lookup side f).
              (y.order, y.live, rw (y.at_price, r.0.at_price) x))
            m h.0 r.1,
      ),
    ),
  )

  -- On a valid book `get_best_bid` is null exactly when there are no buy orders, and otherwise
  -- points to a live order whose price no buy order exceeds; `get_best_ask` likewise to a sell
  -- order whose price no sell order undercuts.
  pub best_prices :
      {Q : Order P → Type κ} (b : OrderBook P)
      → IsValid Q b
      → (((b.buy_orders ≡ []) × (get_best_bid b ≡ none))
          ⊎ ((s : ℕ) × (get_best_bid b ≡ some s) × IsBestOf greater b.pool b.buy_orders s))
        × (((b.sell_orders ≡ []) × (get_best_ask b ≡ none))
            ⊎ ((s : ℕ) × (get_best_ask b ≡ some s) × IsBestOf p.lt b.pool b.sell_orders s))
  unfolding get_best_bid get_best_ask
  best_prices {Q} b v = (
    front-IsBestOf Q greater b.pool b.id_lookup true p.irrefl b.buy_orders v.buys_sorted v.buys,
    front-IsBestOf Q p.lt b.pool b.id_lookup false p.irrefl b.sell_orders v.sells_sorted v.sells,
  )
