-- ===== src/FeedTrader/Snapshot/Levels.antt =====
-- The snapshot as a map from prices to levels, and its best levels.
pub mod Keys
use advanced_cpp_p1g.Base.{
  ◌≡◌, refl, ◌⊎◌, inl, inr, Bool, true, false, Option, none, some, List, [], ◌∷◌, if◌then◌else◌,
  arith, All, All-map, All-map₂, Bool-cases,
}
use advanced_cpp_p1g.Base.Int.{ℤ, pos, eqb_ℤ}
use advanced_cpp_p1g.Price.{
  PriceOrder, IsComparator, greater, lt-IsComparator, greater-IsComparator,
}
use advanced_cpp_p1g.FeedTrader.Snapshot.{
  PriceLevel, MarketSnapshot, same_key, put, drop_key, first, get_best_bid, get_best_ask,
  update_side, update_bid, update_ask,
}
use advanced_cpp_p1g.FeedTrader.Snapshot.Levels.Keys.{
  IsAscending, value_at, not_before_self, same_refl, All-put, All-drop_key, put-IsAscending,
  value_at-put, drop_key-IsAscending, value_at-drop_key,
}

-- A node of one side: its level has the price of its key, and is not empty.
abbrev pub IsLevel {ℓ} : {P : Type ℓ} → (P → P → Bool) → P × PriceLevel P → Type 0
IsLevel before e = (same_key before e.1.price e.0 ≡ true) × (eqb_ℤ e.1.quantity (pos 0) ≡ false)

-- One side of a snapshot.
pub record IsSide {ℓ} {P : Type ℓ} (before : P → P → Bool) (m : List (P × PriceLevel P))
    : Type ℓ where
  pub ascending : IsAscending before m
  pub levels : All (IsLevel before) m

-- What an update makes of one side.
pub record SideUpdated {ℓ} {P : Type ℓ} (before : P → P → Bool) (price : P) (qty : ℤ)
    (m n : List (P × PriceLevel P)) : Type ℓ where
  pub valid : IsSide before n
  pub at :
      (q : P)
      → value_at before q n ≡ (
          if same_key before q price
          then (if eqb_ℤ qty (pos 0) then none else some (record { price = price; quantity = qty }))
          else value_at before q m)

module _ {ℓ} {P : Type ℓ} ⦃p : PriceOrder P⦄ where
  update_side-SideUpdated :
      {before : P → P → Bool} (c : IsComparator before) (price : P) (qty : ℤ)
      (m : List (P × PriceLevel P))
      → IsSide before m
      → SideUpdated before price qty m (update_side before price qty m)
  update_side-SideUpdated {before} c price qty m h = elim (Bool-cases (eqb_ℤ qty (pos 0))) [
    | inl e ↦ rw e (record {
      valid = record {
        ascending = drop_key-IsAscending c price m h.ascending;
        levels = All-drop_key c (IsLevel before) price m h.levels;
      };
      at = λ q. rw e (value_at-drop_key c q price m h.ascending);
    })
    | inr e ↦ rw e (record {
      valid = record {
        ascending = put-IsAscending c price _ m h.ascending;
        levels =
            All-put c (IsLevel before) price _ m (same_refl c price, e) (λ j w d l. (d, e))
              h.levels;
      };
      at = λ q. rw e (value_at-put c q price _ m);
    })
  ]

  -- Each side is in its order, with no two levels of one price and no empty level.
  pub record IsValid (s : MarketSnapshot P) : Type ℓ where
    pub bids_side : IsSide greater s.bids
    pub asks_side : IsSide p.lt s.asks

  -- `update_bid` on a valid snapshot keeps it valid, sets the bid level of the price, or takes it
  -- out where the quantity is 0, and changes no other bid level and no ask; `update_ask` likewise.
  pub update_lem :
      (s : MarketSnapshot P) (price : P) (qty : ℤ)
      → IsValid s
      → (IsValid (update_bid s price qty)
          × SideUpdated greater price qty s.bids (update_bid s price qty).bids
          × ((update_bid s price qty).asks ≡ s.asks))
        × (IsValid (update_ask s price qty)
            × SideUpdated p.lt price qty s.asks (update_ask s price qty).asks
            × ((update_ask s price qty).bids ≡ s.bids))
  unfolding update_bid update_ask
  update_lem s price qty v =
      let b = update_side-SideUpdated greater-IsComparator price qty s.bids v.bids_side in
      let a = update_side-SideUpdated lt-IsComparator price qty s.asks v.asks_side in
      (
        (record { bids_side = b.valid; asks_side = v.asks_side }, b, refl),
        (record { bids_side = v.bids_side; asks_side = a.valid }, a, refl),
      )

module _ {ℓ} {P : Type ℓ} {before : P → P → Bool} (c : IsComparator before) where
  open c use {asymm, neg_trans}

  later_price :
      (k i lp fp : P)
      → before k i ≡ true
      → same_key before lp k ≡ true
      → same_key before fp i ≡ true
      → before fp lp ≡ false
  later_price k i lp fp h e d = ground (arith, asymm k i, neg_trans fp i k, neg_trans fp k lp)

-- A level that is not empty, and that no level of the side comes before.
abbrev pub IsBest {ℓ} :
    {P : Type ℓ} → (P → P → Bool) → List (P × PriceLevel P) → PriceLevel P → Type 0
IsBest before m l =
    (eqb_ℤ l.quantity (pos 0) ≡ false) × All (λ e. before e.1.price l.price ≡ false) m

module _ {ℓ} {P : Type ℓ} {before : P → P → Bool} (c : IsComparator before) where
  first-IsBest :
      (m : List (P × PriceLevel P))
      → IsSide before m
      → ((m ≡ []) × (first m ≡ none))
        ⊎ ((l : PriceLevel P) × (first m ≡ some l) × IsBest before m l)
  first-IsBest [] h = inl (refl, refl)
  first-IsBest ((k, v) ∷ m) h = inr (
    v,
    refl,
    (
      h.levels.0.1,
      (
        not_before_self c v.price,
        All-map₂
            (λ e (d : before k e.0 ≡ true) (l : IsLevel before e).
              later_price c k e.0 v.price e.1.price d h.levels.0.0 l.0)
            m h.ascending.0 h.levels.1,
      ),
    ),
  )

module _ {ℓ} {P : Type ℓ} ⦃p : PriceOrder P⦄ where
  -- On a valid snapshot `get_best_bid` is null exactly when there are no bids, and otherwise a level
  -- with a quantity whose price no bid exceeds; `get_best_ask` likewise, with a price that no ask
  -- undercuts.
  pub top_levels :
      (s : MarketSnapshot P)
      → IsValid s
      → (((s.bids ≡ []) × (get_best_bid s ≡ none))
          ⊎ ((l : PriceLevel P) × (get_best_bid s ≡ some l) × IsBest greater s.bids l))
        × (((s.asks ≡ []) × (get_best_ask s ≡ none))
            ⊎ ((l : PriceLevel P) × (get_best_ask s ≡ some l) × IsBest p.lt s.asks l))
  unfolding get_best_bid get_best_ask
  top_levels s v = (
    first-IsBest greater-IsComparator s.bids v.bids_side,
    first-IsBest lt-IsComparator s.asks v.asks_side,
  )
