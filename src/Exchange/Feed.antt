-- ===== src/Exchange/Feed.antt =====
-- Phase_4/src/MarketDataFeedSimulator.cpp: the ticks of the feed. What is drawn at random is the input,
-- and the arithmetic of doubles a parameter; the time stamp is not modelled.
pub mod Drawn
use advanced_cpp_p1g.Base.{ℕ, zero, suc, ◌%◌, Option, none, some, List, [], ◌∷◌, get_elem?, length}
use advanced_cpp_p1g.Base.Fault.{◌>>=◌}

pub record MarketData {ℓ κ} (S : Type ℓ) (D : Type κ) : Type (ℓ ⊔ κ) where
  pub symbol : S
  pub bid_price : D
  pub ask_price : D

-- rng_() % symbols_.size(): there is no remainder by 0.
abbrev pub index_of : ℕ → ℕ → Option ℕ
index_of draw zero = none
index_of draw (suc n) = some (draw % suc n)

module _ {ℓ κ} {S : Type ℓ} {D : Type κ} (add sub mul : D → D → D) (share : D) where
  -- `share` is 0.15; `mid` comes from `price_dist_`, and `down` and `up` from `uniform_dist_`.
  unfoldable pub generate_market_data : List S → ℕ → D → D → D → Option (MarketData S D)
  generate_market_data symbols draw mid down up = do
    i ← index_of draw (length symbols)
    sym ← get_elem? symbols i
    some (record {
      symbol = sym;
      bid_price = sub mid (mul (mul share mid) down);
      ask_price = add mid (mul (mul share mid) up);
    })
