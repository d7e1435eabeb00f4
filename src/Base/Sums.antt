-- ===== src/Base/Sums.antt =====
-- Sums over lists.
use Prim.Native.Nat.{ℕ, zero, suc, ◌+◌}
use mathlib.Core.Path.{◌≡◌, refl, ap}
use mathlib.Core.List.{List, [], ◌∷◌, ◌++◌}
use mathlib.Core.Option.{some}
use native.Mathlib.Omega.{arith}
use advanced_cpp_p1g.Base.Lists.{get_elem?, set}

module _ {ℓ} {A : Type ℓ} where
  abbrev pub total : (A → ℕ) → List A → ℕ
  total g [] = 0
  total g (x ∷ xs) = g x + total g xs

  -- The sum over all elements of the lists.
  abbrev pub total2 : (A → ℕ) → List (List A) → ℕ
  total2 g [] = 0
  total2 g (xs ∷ xss) = total g xs + total2 g xss

  pub total2-append :
      (g : A → ℕ) (xss yss : List (List A)) → total2 g (xss ++ yss) ≡ total2 g xss + total2 g yss
  total2-append g [] yss = omega arith
  total2-append g (xs ∷ xss) yss = omega (arith, total2-append g xss yss)

  pub total2-set :
      (g : A → ℕ) (xss : List (List A)) (i : ℕ) (xs ys : List A)
      → get_elem? xss i ≡ some xs
      → total2 g (set xss i ys) + total g xs ≡ total2 g xss + total g ys
  total2-set g [] i xs ys e = cc
  total2-set g (zs ∷ xss) zero xs ys e = let same : zs ≡ xs = cc in omega (arith, ap (total g) same)
  total2-set g (zs ∷ xss) (suc i) xs ys e = omega (arith, total2-set g xss i xs ys e)

  pub total-append : (g : A → ℕ) (xs ys : List A) → total g (xs ++ ys) ≡ total g xs + total g ys
  total-append g [] ys = omega arith
  total-append g (x ∷ xs) ys = omega (arith, total-append g xs ys)

  pub total-set :
      (g : A → ℕ) (xs : List A) (i : ℕ) (x y : A)
      → get_elem? xs i ≡ some x
      → total g (set xs i y) + g x ≡ total g xs + g y
  total-set g [] i x y e = cc
  total-set g (z ∷ xs) zero x y e = let same : z ≡ x = cc in omega (arith, ap g same)
  total-set g (z ∷ xs) (suc i) x y e = omega (arith, total-set g xs i x y e)

  -- A list of no elements adds up to nothing.
  pub total_none : (g : A → ℕ) (xs : List A) → total (λ _. 1) xs ≡ 0 → total g xs ≡ 0
  total_none g [] e = refl
  total_none g (x ∷ xs) e = absurd (omega (arith, e))

  pub total2_none : (g : A → ℕ) (xss : List (List A)) → total2 (λ _. 1) xss ≡ 0 → total2 g xss ≡ 0
  total2_none g [] e = refl
  total2_none g (xs ∷ xss) e =
      omega (arith, total_none g xs (omega (arith, e)), total2_none g xss (omega (arith, e)))
