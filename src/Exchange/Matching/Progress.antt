-- ===== src/Exchange/Matching/Progress.antt =====
-- One turn of the matching loop on a valid book of open orders.
pub mod Executed
use advanced_cpp_p1g.Base.{
  ℕ, ◌<◌, ◌≡◌, ◌≢◌, refl, sym, subst, ◌∙◌, ◌⊎◌, inl, inr, true, false, Option, some, List, [], ◌∷◌,
  find, nat_eq, arith, Bool-cases, All, All-map, All-of,
}
use advanced_cpp_p1g.Base.Int.{ℤ, pos, ◌<ℤ◌, ◌≤ℤ◌, min_ℤ}
use advanced_cpp_p1g.Price.{PriceOrder, greater}
use advanced_cpp_p1g.Exchange.Order.{
  Order, update_filled, IsOpen, update_filled-IsOpen, update_filled_full,
}
use advanced_cpp_p1g.Exchange.Pool
use advanced_cpp_p1g.Exchange.Pool.Laws.{deref-store}
use advanced_cpp_p1g.Exchange.Levels.Order.{IsSorted}
use advanced_cpp_p1g.Exchange.Book.{OrderBook, front, get_best_bid, get_best_ask}
use advanced_cpp_p1g.Exchange.Book.Valid.{IsValid, Resident}
use advanced_cpp_p1g.Exchange.Book.Lookup.{order_of}
use advanced_cpp_p1g.Exchange.Book.Update.{write, write-IsValid}
use advanced_cpp_p1g.Exchange.Matching.Settle.{
  settle, orders, deref-settle, find-settle, sells-settle, orders-settle-le, orders-settle_bid,
  orders-settle_ask, remove_if_filled_lem, settle-IsValid,
}
use advanced_cpp_p1g.Exchange.Matching.{
  Trade, Turn, stop, traded, fill, execute, trade_of, turn_at, turn,
}
use advanced_cpp_p1g.Exchange.Matching.Progress.Executed.{
  min_pos, AreUncrossed, IsUncrossed, IsUncrossed-sides, uncrossed_below, quantity, execute_lem,
  valid₄, fewer, IsTradeIn,
}

-- How a turn on a valid book of open orders ends.
pub data TurnOf {ℓ} {P : Type ℓ} ⦃p : PriceOrder P⦄ (b : OrderBook P)
    : Option (Turn P) → Type ℓ where
  halts : IsUncrossed b → TurnOf b (some stop)
  trades :
      (x : Trade P) (c : OrderBook P)
      → IsTradeIn b x
      → IsValid IsOpen c
      → orders c < orders b
      → TurnOf b (some (traded x c))

module _ {ℓ} {P : Type ℓ} ⦃p : PriceOrder P⦄ (b : OrderBook P) (v : IsValid IsOpen b) where
  turn_at-TurnOf :
      (buys sells : List (P × ℕ))
      → b.buy_orders ≡ buys
      → b.sell_orders ≡ sells
      → IsSorted greater buys
      → IsSorted p.lt sells
      → All (Resident IsOpen b.pool b.id_lookup true) buys
      → All (Resident IsOpen b.pool b.id_lookup false) sells
      → TurnOf b (turn_at b (front buys) (front sells))
  unfolding turn_at
  turn_at-TurnOf [] sells eb ea sb sa rb ra = halts (IsUncrossed-sides b _ _ eb ea tt)
  turn_at-TurnOf ((k, s) ∷ m) [] eb ea sb sa rb ra =
      halts (IsUncrossed-sides b _ _ eb ea (All-of (λ e. tt) ((k, s) ∷ m)))
  turn_at-TurnOf ((k, s) ∷ m) ((j, t) ∷ n) eb ea sb sa rb ra =
      elim (Bool-cases (p.lt bid.price ask.price)) [
        | inl e ↦ rw (rb.0.live, ra.0.live, e) (halts (IsUncrossed-sides b _ _ eb ea (apart e)))
        | inr e ↦
            rw
              (
                rb.0.live,
                ra.0.live,
                e,
                execute_lem b v k j s t m n bid ask eb ea rb.0.live ra.0.live rb.0.found ra.0.found
                    rb.0.on_side ra.0.on_side rb.0.holds ra.0.holds,
              )
              (trades (trade_of bid ask) _ (is_trade e)
                (valid₄ b v k j s t m n bid ask eb ea rb.0.live ra.0.live rb.0.found ra.0.found
                  rb.0.on_side ra.0.on_side rb.0.holds ra.0.holds)
                (fewer b v k j s t m n bid ask eb ea rb.0.live ra.0.live rb.0.found ra.0.found
                  rb.0.on_side ra.0.on_side rb.0.holds ra.0.holds))
      ]
    where
      bid : Order P
      bid = rb.0.order

      ask : Order P
      ask = ra.0.order

      apart : p.lt bid.price ask.price ≡ true → AreUncrossed ((k, s) ∷ m) ((j, t) ∷ n)
      apart e =
          uncrossed_below k j ((k, s) ∷ m) ((j, t) ∷ n) (rw (rb.0.at_price, ra.0.at_price) at e)
            (p.irrefl k, sb.0) (p.irrefl j, sa.0)

      is_trade : p.lt bid.price ask.price ≡ false → IsTradeIn b (trade_of bid ask)
      is_trade e = record {
        bid = bid;
        ask = ask;
        bid_found = rw rb.0.found rb.0.live;
        ask_found = rw ra.0.found ra.0.live;
        bid_buys = rb.0.on_side;
        ask_sells = ra.0.on_side;
        bid_open = rb.0.holds;
        ask_open = ra.0.holds;
        at_ask = refl;
        reached = e;
        positive = min_pos bid.quantity ask.quantity rb.0.holds.0 ra.0.holds.0;
        smaller = refl;
      }

  -- A turn of the matching loop on a valid book of open orders (each asks for at most 2^30) has no
  -- undefined behaviour, overflows of an int included. Either
  -- it stops, and then no buy order reaches the price of a sell order; or it makes a trade between
  -- two orders of the book at the sell order's price, and leaves a valid book of fewer orders, all
  -- of them open.
  pub turn-TurnOf : TurnOf b (turn b)
  unfolding turn get_best_bid get_best_ask
  turn-TurnOf =
      turn_at-TurnOf b.buy_orders b.sell_orders refl refl v.buys_sorted v.sells_sorted v.buys
        v.sells
