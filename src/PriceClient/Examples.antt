-- ===== src/PriceClient/Examples.antt =====
-- A run of prices.
use advanced_cpp_p1g.Base.{ℕ, ◌≡◌, refl, List, [], ◌∷◌, ltb}
use advanced_cpp_p1g.Base.Int.{ℤ, pos}
use advanced_cpp_p1g.PriceClient.Trend.{wanted}

abbrev prices : List (ℤ × ℕ)
prices = (pos 0, 100) ∷ (pos 1, 103) ∷ (pos 2, 105) ∷ (pos 3, 101) ∷ (pos 4, 99) ∷ []

-- The run 100, 103, 105 rises, and 105, 101, 99 falls.
shown_prices : wanted ltb prices ≡ pos 2 ∷ pos 4 ∷ []
shown_prices = refl
