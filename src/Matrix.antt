-- ===== src/Matrix.antt =====
-- Phase 1/MatrixOps.h and Phase 1/MatrixOps.cpp. A pointer is null (`none`) or leads to an array,
-- which is a function of the index; a function returns what it leaves in `result`. The scalars are
-- any type with the three operations that the code uses, so what is proved with no laws holds of
-- doubles bit for bit. Each pointer leads to an array of its own: `result` does not overlap `matrix`
-- or `vector`, which the source does not test. Index arithmetic is taken not to overflow an int.
-- Messages are not modelled.
pub mod Vector
pub mod Unrolled
pub mod Products
mod Examples
use advanced_cpp_p1g.Base.{
  ℕ, zero, suc, ◌+◌, ◌*◌, ◌/◌, ◌%◌, Bool, true, false, Option, none, some, ◌&&◌, ◌==◌,
  if◌then◌else◌,
}
use advanced_cpp_p1g.Base.Int.{ℤ, pos, negsuc, ltb_ℤ, pos_part}

pub record Scalar {ℓ} (D : Type ℓ) : Type ℓ where
  pub nought : D
  pub add : D → D → D
  pub mul : D → D → D

abbrev pub Array {ℓ} : Type ℓ → Type ℓ
Array D = ℕ → D

module _ {ℓ} {D : Type ℓ} where
  abbrev pub write : Array D → ℕ → D → Array D
  write a i x j = if i == j then x else a j

  -- for (row = 0; row < n; ++row) result[row] = cell(row);
  pub fill : (ℕ → D) → ℕ → Array D → Array D
  fill cell zero result = result
  fill cell (suc n) result = write (fill cell n result) n (cell n)

  -- The guards that the functions share: no null pointer, and positive dimensions.
  abbrev pub guarded :
      Option (Array D)
      → Option (Array D)
      → Option (Array D)
      → Bool
      → (Array D → Array D → Array D → Array D)
      → Option (Array D)
  guarded none b result valid body = result
  guarded (some a) none result valid body = result
  guarded (some a) (some b) none valid body = none
  guarded (some a) (some b) (some result) valid body =
      some (if valid then body a b result else result)

abbrev pub positive : ℤ → Bool
positive n = ltb_ℤ (pos 0) n

module _ {ℓ} {D : Type ℓ} ⦃s : Scalar D⦄ where
  open s use {nought, add, mul}

  -- temp = 0.0; for (i = 0; i < n; ++i) temp += term(i);
  unfoldable pub accumulate : (ℕ → D) → ℕ → D
  accumulate term zero = nought
  accumulate term (suc n) = add (accumulate term n) (term n)

  row_major : ℕ → ℕ → Array D → Array D → Array D → Array D
  row_major rows cols matrix vector =
      fill (λ row. accumulate (λ col. mul (matrix (row * cols + col)) (vector col)) cols) rows

  pub multiply_mv_row_major :
      Option (Array D) → ℤ → ℤ → Option (Array D) → Option (Array D) → Option (Array D)
  unfolding row_major
  multiply_mv_row_major matrix rows cols vector result =
      guarded matrix vector result (positive rows && positive cols)
        (row_major (pos_part rows) (pos_part cols))

  -- The four partial sums after `n` rounds of the unrolled loop.
  pub partial_sum : ℕ → (ℕ → D) → ℕ → D
  partial_sum k term n = accumulate (λ round. term (4 * round + k)) n

  -- for (; i < cols; ++i) total += term(i);
  pub add_rest : (ℕ → D) → ℕ → ℕ → D → D
  add_rest term i zero total = total
  add_rest term i (suc n) total = add_rest term (i + 1) n (add total (term i))

  -- The loop `for (; i <= cols - 4; i += 4)` makes cols / 4 rounds, and cols % 4 terms are left.
  pub dot_product_unrolled_aligned : (ℕ → D) → (ℕ → D) → ℕ → D
  unfolding partial_sum add_rest
  dot_product_unrolled_aligned row vector cols =
      let term = λ (i : ℕ). mul (row i) (vector i) in
      let n = cols / 4 in
      add_rest term (4 * n) (cols % 4) (
        add (add (add (partial_sum 0 term n) (partial_sum 1 term n)) (partial_sum 2 term n))
          (partial_sum 3 term n))

  row_major_optimised : ℕ → ℕ → Array D → Array D → Array D → Array D
  row_major_optimised rows cols matrix vector =
      fill (λ row. dot_product_unrolled_aligned (λ i. matrix (row * cols + i)) vector cols) rows

  pub multiply_mv_row_major_optimised :
      Option (Array D) → ℤ → ℤ → Option (Array D) → Option (Array D) → Option (Array D)
  unfolding row_major_optimised
  multiply_mv_row_major_optimised matrix rows cols vector result =
      guarded matrix vector result (positive rows && positive cols)
        (row_major_optimised (pos_part rows) (pos_part cols))

  -- for (row = 0; row < n; ++row) result[row] += matrix[col * rows + row] * vector[col];
  add_column : ℕ → Array D → Array D → ℕ → ℕ → Array D → Array D
  add_column rows matrix vector col zero result = result
  add_column rows matrix vector col (suc n) result =
      let r = add_column rows matrix vector col n result in
      write r n (add (r n) (mul (matrix (col * rows + n)) (vector col)))

  -- The loop over the columns.
  add_columns : ℕ → Array D → Array D → ℕ → Array D → Array D
  unfolding add_column
  add_columns rows matrix vector zero result = result
  add_columns rows matrix vector (suc n) result =
      add_column rows matrix vector n rows (add_columns rows matrix vector n result)

  -- `result` is written while `vector` is read, so this is the code only where the two are apart.
  col_major : ℕ → ℕ → Array D → Array D → Array D → Array D
  unfolding add_columns
  col_major rows cols matrix vector result =
      add_columns rows matrix vector cols (fill (λ row. nought) rows result)

  pub multiply_mv_col_major :
      Option (Array D) → ℤ → ℤ → Option (Array D) → Option (Array D) → Option (Array D)
  unfolding col_major
  multiply_mv_col_major matrix rows cols vector result =
      guarded matrix vector result (positive rows && positive cols)
        (col_major (pos_part rows) (pos_part cols))

  -- The same code once more.
  unfoldable pub multiply_mv_col_major_inline :
      Option (Array D) → ℤ → ℤ → Option (Array D) → Option (Array D) → Option (Array D)
  unfolding col_major
  multiply_mv_col_major_inline matrix rows cols vector result =
      guarded matrix vector result (positive rows && positive cols)
        (col_major (pos_part rows) (pos_part cols))
