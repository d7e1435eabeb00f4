-- ===== src/Exchange/Matching/Ids.antt =====
-- Matching enters no ids into the book.
use advanced_cpp_p1g.Base.{
  ℕ, ◌≡◌, subst, inl, inr, Option, none, some, List, nat_eq, Bool-cases, Option-cases,
}
use advanced_cpp_p1g.Base.Fault.{◌>>=◌}
use advanced_cpp_p1g.Base.Int.{ℤ, min_ℤ}
use advanced_cpp_p1g.Price.{PriceOrder}
use advanced_cpp_p1g.Exchange.Order.{fill_fits, is_filled}
use advanced_cpp_p1g.Exchange.Pool
use advanced_cpp_p1g.Exchange.Pool.{MemoryPool}
use advanced_cpp_p1g.Exchange.Book.{OrderBook, get_best_bid, get_best_ask}
use advanced_cpp_p1g.Exchange.Matching.{
  Trade, Turn, stop, traded, fill, remove_if_filled, execute, turn_at, turn,
}
use advanced_cpp_p1g.Exchange.Matching.Run.{Session, over, then_trade}
use advanced_cpp_p1g.Exchange.Book.Ids.{NoNewIds, NoNewIdsIn, bind-NoNewIds, remove_order-NoNewIds}

module _ {ℓ} {P : Type ℓ} where
  fill-NoNewIds : (b : OrderBook P) (s : ℕ) (q : ℤ) → NoNewIdsIn b (fill b s q)
  unfolding fill
  fill-NoNewIds b s q = elim (Option-cases (Pool.deref b.pool s)) [
    | inl e ↦ rw e tt
    | inr (o, e) ↦ elim (Bool-cases (fill_fits o q)) [
      | inl k ↦ rw (e, k) (λ j h. h)
      | inr k ↦ rw (e, k) tt
    ]
  ]

  remove_if_filled-NoNewIds : (b : OrderBook P) (s : ℕ) → NoNewIdsIn b (remove_if_filled b s)
  unfolding remove_if_filled
  remove_if_filled-NoNewIds b s = elim (Option-cases (Pool.deref b.pool s)) [
    | inl e ↦ rw e tt
    | inr (o, e) ↦ elim (Bool-cases (is_filled o.status)) [
      | inl k ↦ rw (e, k) (remove_order-NoNewIds b o.order_id)
      | inr k ↦ rw (e, k) (λ j h. h)
    ]
  ]

  execute-NoNewIds : (b : OrderBook P) (s t : ℕ) (q : ℤ) → NoNewIdsIn b (execute b s t q)
  unfolding execute
  execute-NoNewIds b s t q = bind-NoNewIds b (fill b s q) _ (fill-NoNewIds b s q) (λ b₁.
      bind-NoNewIds b₁ (fill b₁ t q) _ (fill-NoNewIds b₁ t q) (λ b₂.
        bind-NoNewIds b₂ (remove_if_filled b₂ s) _ (remove_if_filled-NoNewIds b₂ s)
          (λ b₃. remove_if_filled-NoNewIds b₃ t)))

  -- Of a turn that trades.
  abbrev KeepsIds : OrderBook P → Option (Turn P) → Type 0
  KeepsIds b none = Unit
  KeepsIds b (some stop) = Unit
  KeepsIds b (some (traded x c)) = NoNewIds b c

  traded-KeepsIds :
      (b : OrderBook P) (x : Trade P) (o : Option (OrderBook P))
      → NoNewIdsIn b o
      → KeepsIds b (o >>= λ c. some (traded x c))
  traded-KeepsIds b x none h = tt
  traded-KeepsIds b x (some c) h = h

module _ {ℓ} {P : Type ℓ} ⦃p : PriceOrder P⦄ where
  turn_at-KeepsIds : (b : OrderBook P) (s t : Option ℕ) → KeepsIds b (turn_at b s t)
  unfolding turn_at
  turn_at-KeepsIds b none t = tt
  turn_at-KeepsIds b (some s) none = tt
  turn_at-KeepsIds b (some s) (some t) = elim (Option-cases (Pool.deref b.pool s)) [
    | inl e ↦ rw e tt
    | inr (bid, e) ↦ elim (Option-cases (Pool.deref b.pool t)) [
      | inl k ↦ rw (e, k) tt
      | inr (ask, k) ↦ elim (Bool-cases (p.lt bid.price ask.price)) [
        | inl h ↦ rw (e, k, h) tt
        | inr h ↦
            rw (e, k, h)
              (traded-KeepsIds b _ (execute b s t (min_ℤ bid.quantity ask.quantity))
                (execute-NoNewIds b s t (min_ℤ bid.quantity ask.quantity)))
      ]
    ]
  ]

  turn-NoNewIds : (b c : OrderBook P) (x : Trade P) → turn b ≡ some (traded x c) → NoNewIds b c
  unfolding turn
  turn-NoNewIds b c x e =
      subst (KeepsIds b) e (turn_at-KeepsIds b (get_best_bid b) (get_best_ask b))

  pub Session-NoNewIds : (b c : OrderBook P) (xs : List (Trade P)) → Session b xs c → NoNewIds b c
  Session-NoNewIds b c xs (over _) = λ j h. h
  Session-NoNewIds b c xs (then_trade _ d _ x ys e t rest) =
      λ j h. Session-NoNewIds d c ys rest j (turn-NoNewIds b d x e j h)
