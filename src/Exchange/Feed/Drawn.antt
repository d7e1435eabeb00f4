-- ===== src/Exchange/Feed/Drawn.antt =====
-- What a drawn tick can be.
use native.Mathlib.Nat.{mod-lt}
use advanced_cpp_p1g.Base.{
  ℕ, zero, suc, ◌%◌, ◌<◌, ◌≡◌, refl, Bool, true, some, List, [], ◌∷◌, get_elem?, length, arith,
}
use advanced_cpp_p1g.Exchange.Feed.{MarketData, generate_market_data}

get_elem?-some {ℓ} :
    {A : Type ℓ} (xs : List A) (i : ℕ) → i < length xs → (x : A) × (get_elem? xs i ≡ some x)
get_elem?-some [] i h = absurd (omega arith)
get_elem?-some (x ∷ xs) zero h = (x, refl)
get_elem?-some (x ∷ xs) (suc i) h = get_elem?-some xs i (omega arith)

module _ {ℓ κ} {S : Type ℓ} {D : Type κ} (add sub mul : D → D → D) (share nought : D)
    (le : D → D → Bool) (lowers : (x y : D) → le nought y ≡ true → le (sub x y) x ≡ true)
    (raises : (x y : D) → le nought y ≡ true → le x (add x y) ≡ true)
    (product : (x y : D)
      → le nought x ≡ true
      → le nought y ≡ true
      → le nought (mul x y) ≡ true) where
  -- With a symbol to choose from, and draws and a share that are not negative, a tick is made for the
  -- symbol at the place that was drawn, with a bid not above and an ask not below the middle price.
  pub generate_market_data-some :
      (first : S) (symbols : List S) (draw : ℕ) (mid down up : D)
      → le nought share ≡ true
      → le nought mid ≡ true
      → le nought down ≡ true
      → le nought up ≡ true
      → (md : MarketData S D) × (generate_market_data add sub mul share
            (first ∷ symbols)
            draw
            mid
            down
            up
          ≡ some md)
        × (get_elem? (first ∷ symbols) (draw % length (first ∷ symbols)) ≡ some md.symbol)
        × (le md.bid_price mid ≡ true)
        × (le mid md.ask_price ≡ true)
  unfolding generate_market_data
  generate_market_data-some first symbols draw mid down up s m d u =
      let n = length symbols in
      let (sym, e) =
        get_elem?-some (first ∷ symbols) (draw % suc n) (mod-lt draw {m = suc n} (omega arith)) in
      let part = product share mid s m in
      (
        record {
          symbol = sym;
          bid_price = sub mid (mul (mul share mid) down);
          ask_price = add mid (mul (mul share mid) up);
        },
        rw e refl,
        e,
        lowers mid (mul (mul share mid) down) (product (mul share mid) down part d),
        raises mid (mul (mul share mid) up) (product (mul share mid) up part u),
      )
