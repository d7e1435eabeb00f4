-- ===== src/Price.antt =====
-- Prices. The C++ code keeps them in a double and only compares them, in std::map keys and in the
-- matching test, so a price is any type with a strict weak order, the requirement of std::map on
-- its comparator. The comparison of doubles is one as long as no key is NaN.
use advanced_cpp_p1g.Base.{◌≡◌, Bool, true, false, ℕ, ltb, arith}

pub record PriceOrder {ℓ} (P : Type ℓ) : Type ℓ where
  pub lt : P → P → Bool
  pub irrefl : (a : P) → lt a a ≡ false
  pub trans : (a b c : P) → lt a b ≡ true → lt b c ≡ true → lt a c ≡ true
  pub neg_trans : (a b c : P) → lt a b ≡ false → lt b c ≡ false → lt a c ≡ false

pub ltb_irrefl : (a : ℕ) → ltb a a ≡ false
ltb_irrefl a = ground arith

pub ltb_trans : (a b c : ℕ) → ltb a b ≡ true → ltb b c ≡ true → ltb a c ≡ true
ltb_trans a b c h k = ground arith

pub ltb_neg_trans : (a b c : ℕ) → ltb a b ≡ false → ltb b c ≡ false → ltb a c ≡ false
ltb_neg_trans a b c h k = ground arith

-- Prices in whole ticks have such an order; the tests use it.
instance abbrev pub tick_order : PriceOrder ℕ
tick_order = record { lt = ltb; irrefl = ltb_irrefl; trans = ltb_trans; neg_trans = ltb_neg_trans }

module _ {ℓ} {P : Type ℓ} ⦃o : PriceOrder P⦄ where
  open o use {lt, irrefl, trans}

  pub lt-asymm : (a b : P) → lt a b ≡ true → lt b a ≡ false
  lt-asymm a b h = ground (arith, trans a b a, irrefl a)

-- What a std::multimap needs of its comparator.
pub record IsComparator {ℓ} {P : Type ℓ} (before : P → P → Bool) : Type ℓ where
  pub asymm : (a b : P) → before a b ≡ true → before b a ≡ false
  pub neg_trans : (a b c : P) → before a b ≡ false → before b c ≡ false → before a c ≡ false

module _ {ℓ} {P : Type ℓ} ⦃o : PriceOrder P⦄ where
  open o use {lt, neg_trans}

  -- std::greater, the comparator of the buy side
  abbrev pub greater : P → P → Bool
  greater a b = lt b a

  pub lt-IsComparator : IsComparator lt
  lt-IsComparator = record { asymm = lt-asymm; neg_trans = neg_trans }

  pub greater-IsComparator : IsComparator greater
  greater-IsComparator = record {
    asymm = λ a b. lt-asymm b a;
    neg_trans = λ a b c h k. neg_trans c b a k h;
  }
