-- ===== src/Exchange/Matching/Run.antt =====
-- A whole call of `match_orders`: it ends, and what it leaves.
use advanced_cpp_p1g.Base.{
  ℕ, zero, suc, ◌+◌, ◌≤◌, ◌<◌, ◌≡◌, refl, ap, ◌∙◌, ◌⊎◌, inl, inr, Option, some, List, [], ◌∷◌, ◌++◌,
  append-nil, append_assoc, arith, length,
}
use advanced_cpp_p1g.Price.{PriceOrder}
use advanced_cpp_p1g.Exchange.Order.{IsOpen}
use advanced_cpp_p1g.Exchange.Book.{OrderBook}
use advanced_cpp_p1g.Exchange.Book.Valid.{IsValid}
use advanced_cpp_p1g.Exchange.Matching.Settle.{orders}
use advanced_cpp_p1g.Exchange.Matching.Progress.{TurnOf, halts, trades, turn-TurnOf}
use advanced_cpp_p1g.Exchange.Matching.Progress.Executed.{IsUncrossed, IsTradeIn}
use advanced_cpp_p1g.Exchange.Matching.{
  Trade, Turn, stop, traded, Outcome, finished, turn, match_loop, match_orders,
}

module _ {ℓ} {P : Type ℓ} ⦃p : PriceOrder P⦄ where
  -- The trades of a run from one book to another, in order, each of them a trade in the book as it
  -- was then.
  pub data Session : OrderBook P → List (Trade P) → OrderBook P → Type ℓ where
    over : (b : OrderBook P) → Session b [] b
    then_trade :
        (b d c : OrderBook P) (x : Trade P) (xs : List (Trade P))
        → turn b ≡ some (traded x d)
        → IsTradeIn b x
        → Session d xs c
        → Session b (x ∷ xs) c

  -- A finished run from `b`, whose trades `ts` follow those of before.
  pub record Finishes (b : OrderBook P) (before : List (Trade P)) (r : Outcome P) : Type ℓ where
    pub ts : List (Trade P)
    pub left : OrderBook P
    pub result : r ≡ finished (before ++ ts) left
    pub session : Session b ts left
    pub valid : IsValid IsOpen left
    pub uncrossed : IsUncrossed left
    pub count : length ts + orders left ≤ orders b

  -- What a turn is known to do, as an equation.
  pub TurnOf-cases :
      (b : OrderBook P) {r : Option (Turn P)}
      → TurnOf b r
      → ((r ≡ some stop) × IsUncrossed b)
        ⊎ ((x : Trade P) × (c : OrderBook P) × (r ≡ some (traded x c))
            × IsTradeIn b x
            × IsValid IsOpen c
            × (orders c < orders b))
  TurnOf-cases b (halts u) = inl (refl, u)
  TurnOf-cases b (trades x c t v lt) = inr (x, c, refl, t, v, lt)

  match_loop-Finishes :
      (fuel : ℕ) (b : OrderBook P) (before : List (Trade P))
      → orders b < fuel
      → IsValid IsOpen b
      → Finishes b before (match_loop fuel b before)
  unfolding match_loop
  match_loop-Finishes zero b before h v = absurd (omega arith)
  match_loop-Finishes (suc fuel) b before h v = elim (TurnOf-cases b (turn-TurnOf b v)) [
    | inl (e, u) ↦ record {
      ts = [];
      left = b;
      result = rw (e, match_loop) (rw append-nil);
      session = over b;
      valid = v;
      uncrossed = u;
      count = omega arith;
    }
    | inr (x, c, e, t, w, lt) ↦
        let f = match_loop-Finishes fuel c (before ++ (x ∷ [])) (omega arith) w in
        record {
          ts = x ∷ f.ts;
          left = f.left;
          result =
              rw (e, match_loop)
                (f.result ∙ ap (λ l. finished l f.left) (append_assoc before (x ∷ []) f.ts));
          session = then_trade b c f.left x f.ts e t f.session;
          valid = f.valid;
          uncrossed = f.uncrossed;
          count = omega (arith, f.count);
        }
  ]

  -- On a valid book of open orders (each asks for at most 2^30) `match_orders` ends, without undefined
  -- behaviour, overflows of an int included, within one turn more than there are resting orders. It
  -- returns the trades in the order in which they were
  -- made, each between two orders of the book as it was then; it makes at most as many trades as
  -- orders leave the book; and the book that it leaves is valid, holds open orders only, and has no
  -- buy order that reaches the price of a sell order.
  pub match_orders-Finishes :
      (fuel : ℕ) (b : OrderBook P)
      → orders b < fuel
      → IsValid IsOpen b
      → Finishes b [] (match_orders fuel b)
  unfolding match_orders
  match_orders-Finishes fuel b h v = match_loop-Finishes fuel b [] h v
