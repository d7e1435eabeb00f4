-- ===== src/Matrix/Products.antt =====
-- Phase 1/MatrixOps.cpp: the products of two matrices. `guarded` is the test for null pointers.
pub mod Transposed
pub mod Cells
use advanced_cpp_p1g.Base.{ℕ, zero, suc, ◌+◌, ◌*◌, Bool, Option, none, some, ◌&&◌}
use advanced_cpp_p1g.Base.Int.{ℤ, eqb_ℤ, pos_part}
use advanced_cpp_p1g.Matrix.{Scalar, Array, write, guarded, positive, accumulate}

module _ {ℓ} {D : Type ℓ} where
  -- for (col = 0; col < n; ++col) result[index(row, col)] = cell(row, col);
  abbrev pub fill_row : (ℕ → ℕ → ℕ) → (ℕ → ℕ → D) → ℕ → ℕ → Array D → Array D
  fill_row index cell row zero result = result
  fill_row index cell row (suc n) result =
      write (fill_row index cell row n result) (index row n) (cell row n)

  -- The loop over the rows around it.
  abbrev pub fill_rows : (ℕ → ℕ → ℕ) → (ℕ → ℕ → D) → ℕ → ℕ → Array D → Array D
  fill_rows index cell zero cols result = result
  fill_rows index cell (suc n) cols result =
      fill_row index cell n cols (fill_rows index cell n cols result)

abbrev pub all_positive : ℤ → ℤ → ℤ → ℤ → Bool
all_positive rows_a cols_a rows_b cols_b =
    (positive rows_a && positive cols_a) && (positive rows_b && positive cols_b)

module _ {ℓ} {D : Type ℓ} ⦃s : Scalar D⦄ where
  open s use {mul}

  abbrev pub naive : ℕ → ℕ → ℕ → Array D → Array D → Array D → Array D
  naive rows_a cols_a cols_b a b =
      fill_rows (λ i j. cols_b * i + j)
        (λ i j. accumulate (λ k. mul (a (cols_a * i + k)) (b (cols_b * k + j))) cols_a) rows_a
        cols_b

  unfoldable pub multiply_mm_naive :
      Option (Array D) → ℤ → ℤ → Option (Array D) → ℤ → ℤ → Option (Array D) → Option (Array D)
  multiply_mm_naive a rows_a cols_a b rows_b cols_b result =
      guarded a b result (all_positive rows_a cols_a rows_b cols_b && eqb_ℤ cols_a rows_b)
        (naive (pos_part rows_a) (pos_part cols_a) (pos_part cols_b))

  -- The guards are all there is.
  unfoldable pub multiply_mm_naive_inline :
      Option (Array D) → ℤ → ℤ → Option (Array D) → ℤ → ℤ → Option (Array D) → Option (Array D)
  multiply_mm_naive_inline a rows_a cols_a b rows_b cols_b result =
      guarded a b result (all_positive rows_a cols_a rows_b cols_b) (λ x y r. r)

  abbrev pub transposed_b : ℕ → ℕ → ℕ → ℕ → Array D → Array D → Array D → Array D
  transposed_b rows_a cols_a rows_b cols_b a b =
      fill_rows (λ i j. i * cols_b + j)
        (λ i j. accumulate (λ k. mul (a (i * cols_a + k)) (b (j * rows_b + k))) cols_a) rows_a
        cols_b

  unfoldable pub multiply_mm_transposed_b :
      Option (Array D) → ℤ → ℤ → Option (Array D) → ℤ → ℤ → Option (Array D) → Option (Array D)
  multiply_mm_transposed_b a rows_a cols_a b rows_b cols_b result =
      guarded a b result (all_positive rows_a cols_a rows_b cols_b)
        (transposed_b (pos_part rows_a) (pos_part cols_a) (pos_part rows_b) (pos_part cols_b))

  abbrev pub multiply_element : Array D → Array D → ℕ → ℕ → ℕ → ℕ → ℕ → D
  multiply_element a b i j k cols_a rows_b = mul (a (cols_a * i + k)) (b (rows_b * j + k))

  abbrev pub transposed_b_inline : ℕ → ℕ → ℕ → ℕ → Array D → Array D → Array D → Array D
  transposed_b_inline rows_a cols_a rows_b cols_b a b =
      fill_rows (λ i j. i * cols_b + j)
        (λ i j. accumulate (λ k. multiply_element a b i j k cols_a rows_b) cols_a) rows_a cols_b

  unfoldable pub multiply_mm_transposed_b_inline :
      Option (Array D) → ℤ → ℤ → Option (Array D) → ℤ → ℤ → Option (Array D) → Option (Array D)
  multiply_mm_transposed_b_inline a rows_a cols_a b rows_b cols_b result =
      guarded a b result (all_positive rows_a cols_a rows_b cols_b) (
        transposed_b_inline (pos_part rows_a) (pos_part cols_a) (pos_part rows_b) (pos_part cols_b))
