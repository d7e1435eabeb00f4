-- ===== src/FeedTrader/Snapshot.antt =====
-- Phase_3/market_snapshot.h and Phase_3/market_snapshot.cpp. A std::map is the list of its nodes in
-- iteration order; two keys are the same when neither comes before the other. Printing is not
-- modelled.
pub mod Levels
use advanced_cpp_p1g.Base.{Bool, Option, none, some, List, [], ◌∷◌, not, ◌&&◌, if◌then◌else◌}
use advanced_cpp_p1g.Base.Int.{ℤ, pos, eqb_ℤ}
use advanced_cpp_p1g.Price.{PriceOrder, greater}

pub record PriceLevel {ℓ} (P : Type ℓ) : Type ℓ where
  pub price : P
  pub quantity : ℤ

pub record MarketSnapshot {ℓ} (P : Type ℓ) : Type ℓ where
  pub bids : List (P × PriceLevel P)
  pub asks : List (P × PriceLevel P)

abbrev pub same_key {ℓ} : {P : Type ℓ} → (P → P → Bool) → P → P → Bool
same_key before k j = not (before k j) && not (before j k)

module _ {ℓ} {P V : Type ℓ} (before : P → P → Bool) where
  -- m[key] = value
  unfoldable pub put : P → V → List (P × V) → List (P × V)
  put k v [] = (k, v) ∷ []
  put k v ((j, w) ∷ m) =
      let rest = put k v m in
      if before k j then (k, v) ∷ (j, w) ∷ m else if before j k then (j, w) ∷ rest else (j, v) ∷ m

  -- m.erase(key)
  unfoldable pub drop_key : P → List (P × V) → List (P × V)
  drop_key k [] = []
  drop_key k ((j, w) ∷ m) =
      let rest = drop_key k m in if same_key before k j then m else (j, w) ∷ rest

module _ {ℓ} {P : Type ℓ} where
  -- The constructor.
  abbrev pub no_levels : MarketSnapshot P
  no_levels = record { bids = []; asks = [] }

  -- begin()->second.get(), null for an empty map
  abbrev pub first : List (P × PriceLevel P) → Option (PriceLevel P)
  first [] = none
  first ((k, v) ∷ m) = some v

  unfoldable pub get_best_bid : MarketSnapshot P → Option (PriceLevel P)
  get_best_bid s = first s.bids

  unfoldable pub get_best_ask : MarketSnapshot P → Option (PriceLevel P)
  get_best_ask s = first s.asks

module _ {ℓ} {P : Type ℓ} ⦃p : PriceOrder P⦄ where
  open p use {lt}

  abbrev pub update_side :
      (P → P → Bool) → P → ℤ → List (P × PriceLevel P) → List (P × PriceLevel P)
  update_side before price qty m =
      if eqb_ℤ qty (pos 0)
      then drop_key before price m
      else put before price (record { price = price; quantity = qty }) m

  unfoldable pub update_bid : MarketSnapshot P → P → ℤ → MarketSnapshot P
  update_bid s price qty = record s { bids = update_side greater price qty s.bids }

  unfoldable pub update_ask : MarketSnapshot P → P → ℤ → MarketSnapshot P
  update_ask s price qty = record s { asks = update_side lt price qty s.asks }
