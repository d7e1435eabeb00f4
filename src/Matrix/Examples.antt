-- ===== src/Matrix/Examples.antt =====
-- The theorems on the matrix products at a matrix of two rows and three columns.
use advanced_cpp_p1g.Base.{
  ℕ, zero, suc, ◌≤◌, ◌<◌, leb, ◌+◌, ◌*◌, ◌/◌, ◌%◌, ◌≡◌, refl, some, arith, ltb, if◌then◌else◌,
}
use advanced_cpp_p1g.Base.Int.{ℤ, pos, negsuc, sub_ℕ, ◌+ℤ◌}
use advanced_cpp_p1g.Matrix.{
  Scalar, Array, accumulate, multiply_mv_row_major, multiply_mv_row_major_optimised,
  multiply_mv_col_major,
}
use advanced_cpp_p1g.Matrix.Vector.{row_major-eq-col_major}
use advanced_cpp_p1g.Matrix.Products.{
  multiply_mm_naive, multiply_mm_transposed_b, multiply_mm_transposed_b_inline,
}
use advanced_cpp_p1g.Matrix.Products.Transposed.{transposed_b-eq-naive}
use advanced_cpp_p1g.Matrix.Products.Cells.{multiply_mm_naive_at}
use advanced_cpp_p1g.Matrix.Unrolled.{size, IsExactTo, sum_to, row_major_optimised-eq-row_major}

instance abbrev natural : Scalar ℕ
natural = record { nought = 0; add = λ a b. a + b; mul = λ a b. a * b }

-- The matrix (1 1 1; 1 1 1), the same either way.
abbrev ones : Array ℕ
ones i = 1

abbrev vector : Array ℕ
vector i = 5 + i

row_major-eq-col_major_example :
    multiply_mv_col_major (some ones) (pos 2) (pos 3) (some vector) (some ones)
    ≡ multiply_mv_row_major (some ones) (pos 2) (pos 3) (some vector) (some ones)
row_major-eq-col_major_example =
    row_major-eq-col_major ones ones (pos 2) (pos 3) (some vector) (some ones) (λ i j h k. refl)

-- Integers whose sums are lost where they are above 1000.
abbrev times : ℤ → ℤ → ℤ
times (pos a) (pos b) = pos (a * b)
times (pos a) (negsuc b) = sub_ℕ 0 (a * (b + 1))
times (negsuc a) (pos b) = sub_ℕ 0 ((a + 1) * b)
times (negsuc a) (negsuc b) = pos ((a + 1) * (b + 1))

instance abbrev bounded : Scalar ℤ
bounded = record {
  nought = pos 0;
  add = λ a b. if leb (size a + size b) 1000 then a +ℤ b else pos 0;
  mul = times;
}

abbrev whole : ℤ → ℤ
whole z = z

bounded-IsExactTo : IsExactTo bounded whole 1000
bounded-IsExactTo = record { nought_of = refl; add_of = λ a b h. ground arith }

-- The cells -3, -2, -1, 0, 1, ..., and a vector of twos.
abbrev rising : Array ℤ
rising i = sub_ℕ i 3

abbrev twos : Array ℤ
twos i = pos 2

abbrev products : ℕ → ℕ → ℤ
products i j = times (rising (i * 7 + j)) (pos 2)

products-small : (i : ℕ) → i < 2 → sum_to (λ j. size (products i j)) 7 ≤ 1000
unfolding sum_to
products-small zero h = omega arith
products-small (suc zero) h = omega arith
products-small (suc (suc i)) h = absurd (omega arith)

row_major_optimised-eq-row_major_example :
    multiply_mv_row_major_optimised (some rising) (pos 2) (pos 7) (some twos) (some twos)
    ≡ multiply_mv_row_major (some rising) (pos 2) (pos 7) (some twos) (some twos)
row_major_optimised-eq-row_major_example =
    row_major_optimised-eq-row_major bounded-IsExactTo rising twos (pos 2) (pos 7) (some twos)
      products (λ i j h k. refl) products-small

transposed_b-eq-naive_example :
    (multiply_mm_transposed_b (some vector) (pos 2) (pos 3) (some ones) (pos 3) (pos 2) (some ones)
      ≡ multiply_mm_naive (some vector) (pos 2) (pos 3) (some ones) (pos 3) (pos 2) (some ones))
    × (multiply_mm_transposed_b_inline
          (some vector)
          (pos 2)
          (pos 3)
          (some ones)
          (pos 3)
          (pos 2)
          (some ones)
        ≡ multiply_mm_naive (some vector) (pos 2) (pos 3) (some ones) (pos 3) (pos 2) (some ones))
transposed_b-eq-naive_example =
    transposed_b-eq-naive (some vector) (pos 2) (pos 3) ones ones (pos 3) (pos 2) (some ones) refl
      (λ j k h g. refl)

multiply_mm_naive_at_example :
    (r : Array ℕ) × (multiply_mm_naive
        (some vector)
        (pos 2)
        (pos 3)
        (some ones)
        (pos 3)
        (pos 2)
        (some ones)
      ≡ some r)
    × ((p : ℕ)
        → r p ≡ (
            if ltb p (2 * 2)
            then accumulate (λ k. vector (3 * (p / 2) + k) * ones (2 * k + p % 2)) 3
            else ones p))
multiply_mm_naive_at_example =
    multiply_mm_naive_at 2 3 2 vector ones ones (omega arith) (omega arith) (omega arith)
