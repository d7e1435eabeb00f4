-- ===== src/Exchange/Matching/Limits.antt =====
-- Where the matching loop goes wrong: it trades whole quantities, not what remains of them, and it
-- makes no progress on an order of quantity 0.
use advanced_cpp_p1g.Base.{
  ℕ, zero, suc, ◌≡◌, ◌≢◌, refl, true, false, inl, inr, Option, none, some, List, [], ◌∷◌, ◌++◌,
  arith, nat_eq,
}
use advanced_cpp_p1g.Base.Fault.{◌>>=◌, some-inj}
use advanced_cpp_p1g.Base.Int.{ℤ, pos, ◌+ℤ◌, ◌<ℤ◌, ◌≤ℤ◌, min_ℤ, +ℤ_parts}
use advanced_cpp_p1g.Price.{PriceOrder}
use advanced_cpp_p1g.Exchange.Order.{Order, IsOpen, fill_fits, update_filled, is_filled}
use advanced_cpp_p1g.Exchange.Pool
use advanced_cpp_p1g.Exchange.Pool.Laws.{deref-store}
use advanced_cpp_p1g.Exchange.Book.{OrderBook, get_best_bid, get_best_ask}
use advanced_cpp_p1g.Exchange.Book.Update.{write}
use advanced_cpp_p1g.Exchange.Matching.Progress.{turn-TurnOf}
use advanced_cpp_p1g.Exchange.Matching.Run.{TurnOf-cases}
use advanced_cpp_p1g.Exchange.Book.Valid.{IsValid}
use advanced_cpp_p1g.Exchange.Matching.{
  Trade, Turn, stop, traded, out_of_fuel, fill, remove_if_filled, execute, turn_at, turn,
  match_loop, match_orders, trade_of,
}

overfills : (f q r : ℤ) → pos 0 <ℤ f → q ≤ℤ r → q <ℤ f +ℤ min_ℤ q r
overfills f q r h le = ground (arith, +ℤ_parts f (min_ℤ q r))

-- The best bid and the best ask of a book, of prices that cross.
pub record Meet {ℓ} {P : Type ℓ} ⦃p : PriceOrder P⦄ (b : OrderBook P) (s t : ℕ) (bid ask : Order P)
    : Type ℓ where
  pub best_bid : get_best_bid b ≡ some s
  pub best_ask : get_best_ask b ≡ some t
  pub live_bid : Pool.deref b.pool s ≡ some bid
  pub live_ask : Pool.deref b.pool t ≡ some ask
  pub cross : p.lt bid.price ask.price ≡ false

module _ {ℓ} {P : Type ℓ} ⦃p : PriceOrder P⦄ (b : OrderBook P) (s t : ℕ) (bid ask : Order P) where
  -- The trade of a turn that does not break, `x` where the turn is undefined.
  abbrev trade_or : Trade P → Option (Turn P) → Option (Trade P)
  trade_or x none = some x
  trade_or x (some stop) = none
  trade_or x (some (traded y c)) = some y

  trade_or-executed :
      (x : Trade P) (r : Option (OrderBook P)) → trade_or x (r >>= λ c. some (traded x c)) ≡ some x
  trade_or-executed x none = refl
  trade_or-executed x (some c) = refl

  trade_or-turn :
      Meet b s t bid ask → trade_or (trade_of bid ask) (turn b) ≡ some (trade_of bid ask)
  unfolding turn turn_at
  trade_or-turn m =
      rw (m.best_bid, m.best_ask, turn_at, m.live_bid, m.live_ask, m.cross)
        (trade_or-executed (trade_of bid ask) (execute b s t (min_ℤ bid.quantity ask.quantity)))

  -- On a valid book of open orders whose best bid and best ask cross, where the best bid was partly
  -- filled before and asks for no more than the best ask, a turn makes a trade for the best bid, of
  -- more than what remains of it: with what was filled before, the order gets more than its quantity.
  pub turn_overfills :
      IsValid IsOpen b
      → Meet b s t bid ask
      → pos 0 <ℤ bid.filled_quantity
      → bid.quantity ≤ℤ ask.quantity
      → (x : Trade P) × (c : OrderBook P) × (turn b ≡ some (traded x c))
        × (x.buy_order_id ≡ bid.order_id)
        × (bid.quantity <ℤ bid.filled_quantity +ℤ x.quantity)
  turn_overfills v m h le = elim (TurnOf-cases b (turn-TurnOf b v)) [
    | inl (e, u) ↦ let never = rw e at (trade_or-turn m) in cc
    | inr (x, c, e, d, w, lt) ↦
        let same : x ≡ trade_of bid ask = some-inj (rw e at (trade_or-turn m)) in
        (
          x,
          c,
          e,
          rw same refl,
          rw same (overfills bid.filled_quantity bid.quantity ask.quantity h le),
        )
  ]

-- Two orders at the front of a book that cross, of which one has quantity 0 and none is filled.
pub record IsStuck {ℓ} {P : Type ℓ} ⦃p : PriceOrder P⦄ (b : OrderBook P) : Type ℓ where
  pub s : ℕ
  pub t : ℕ
  pub bid : Order P
  pub ask : Order P
  pub best_bid : get_best_bid b ≡ some s
  pub best_ask : get_best_ask b ≡ some t
  pub apart : s ≢ t
  pub live_bid : Pool.deref b.pool s ≡ some bid
  pub live_ask : Pool.deref b.pool t ≡ some ask
  pub cross : p.lt bid.price ask.price ≡ false
  pub nothing : min_ℤ bid.quantity ask.quantity ≡ pos 0
  pub bid_unfilled : bid.filled_quantity ≡ pos 0
  pub ask_unfilled : ask.filled_quantity ≡ pos 0

module _ {ℓ} {P : Type ℓ} where
  zero_fill :
      (o : Order P)
      → o.filled_quantity ≡ pos 0
      → (is_filled (update_filled o (pos 0)).status ≡ false)
        × ((update_filled o (pos 0)).filled_quantity ≡ pos 0)
        × (fill_fits o (pos 0) ≡ true)
  unfolding update_filled fill_fits ◌+ℤ◌
  zero_fill o e = rw e (refl, refl, refl)

module _ {ℓ} {P : Type ℓ} ⦃p : PriceOrder P⦄ (b : OrderBook P) (k : IsStuck b) where
  abbrev after_bid : OrderBook P
  after_bid = write b k.s (update_filled k.bid (pos 0))

  abbrev after : OrderBook P
  after = write after_bid k.t (update_filled k.ask (pos 0))

  ask_there : Pool.deref after_bid.pool k.t ≡ some k.ask
  ask_there = ground (
    arith,
    deref-store b.pool k.s k.t (update_filled k.bid (pos 0)) k.bid k.live_bid,
    k.apart,
    k.live_ask,
  )

  bid_then : Pool.deref after.pool k.s ≡ some (update_filled k.bid (pos 0))
  bid_then = ground (
    arith,
    deref-store after_bid.pool k.t k.s (update_filled k.ask (pos 0)) k.ask ask_there,
    deref-store b.pool k.s k.s (update_filled k.bid (pos 0)) k.bid k.live_bid,
    k.apart,
  )

  ask_then : Pool.deref after.pool k.t ≡ some (update_filled k.ask (pos 0))
  ask_then =
      ground
        (arith, deref-store after_bid.pool k.t k.t (update_filled k.ask (pos 0)) k.ask ask_there)

  stuck_turn : turn b ≡ some (traded (trade_of k.bid k.ask) after)
  unfolding turn turn_at execute fill remove_if_filled
  stuck_turn = rw (
    k.best_bid,
    k.best_ask,
    turn_at,
    k.live_bid,
    k.live_ask,
    k.cross,
    k.nothing,
    (zero_fill k.bid k.bid_unfilled).2,
    ask_there,
    (zero_fill k.ask k.ask_unfilled).2,
    bid_then,
    (zero_fill k.bid k.bid_unfilled).0,
    ask_then,
    (zero_fill k.ask k.ask_unfilled).0,
  )

  IsStuck-again : IsStuck after
  unfolding update_filled get_best_bid get_best_ask
  IsStuck-again = record {
    s = k.s;
    t = k.t;
    bid = update_filled k.bid (pos 0);
    ask = update_filled k.ask (pos 0);
    best_bid = k.best_bid;
    best_ask = k.best_ask;
    apart = k.apart;
    live_bid = bid_then;
    live_ask = ask_then;
    cross = k.cross;
    nothing = k.nothing;
    bid_unfilled = (zero_fill k.bid k.bid_unfilled).1;
    ask_unfilled = (zero_fill k.ask k.ask_unfilled).1;
  }

module _ {ℓ} {P : Type ℓ} ⦃p : PriceOrder P⦄ where
  match_loop_stuck :
      (fuel : ℕ) (b : OrderBook P) (trades : List (Trade P))
      → IsStuck b
      → match_loop fuel b trades ≡ out_of_fuel
  unfolding match_loop
  match_loop_stuck zero b trades k = refl
  match_loop_stuck (suc fuel) b trades k =
      rw (stuck_turn b k, match_loop)
        (match_loop_stuck fuel (after b k) (trades ++ (trade_of k.bid k.ask ∷ []))
          (IsStuck-again b k))

  -- On a book whose best bid and best ask cross, are both unfilled, and trade the quantity 0 (one of
  -- them has quantity 0, and the other none below), `match_orders` does not end: no number of turns
  -- is enough for it.
  pub match_orders_stuck :
      (fuel : ℕ) (b : OrderBook P) → IsStuck b → match_orders fuel b ≡ out_of_fuel
  unfolding match_orders
  match_orders_stuck fuel b k = match_loop_stuck fuel b [] k
