-- ===== src/Matrix/Vector.antt =====
-- The row-major and the column-major product of a matrix and a vector agree, operation by operation.
use advanced_cpp_p1g.Base.{
  ℕ, zero, suc, ◌+◌, ◌*◌, ◌<◌, ◌≡◌, refl, sym, ap, ap₂, ◌∙◌, inl, inr, true, false, Option, none,
  some, ◌&&◌, ltb, ltb→lt, lt→ltb, if◌then◌else◌, arith, Bool-cases, fun_ext,
}
use advanced_cpp_p1g.Base.Int.{ℤ, pos_part}
use advanced_cpp_p1g.Matrix.{
  Scalar, Array, fill, positive, accumulate, row_major, multiply_mv_row_major, add_column,
  add_columns, col_major, multiply_mv_col_major,
}

module _ {D : Type 0} where
  pub fill_at :
      (cell : ℕ → D) (n : ℕ) (result : Array D) (i : ℕ)
      → fill cell n result i ≡ (if ltb i n then cell i else result i)
  unfolding fill
  fill_at cell zero result i = ground arith
  fill_at cell (suc n) result i = ground (arith, fill_at cell n result i)

  fill_in :
      (cell : ℕ → D) (n : ℕ) (result : Array D) (i : ℕ)
      → ltb i n ≡ true
      → fill cell n result i ≡ cell i
  fill_in cell n result i e = fill_at cell n result i ∙ rw e

  fill_out :
      (cell : ℕ → D) (n : ℕ) (result : Array D) (i : ℕ)
      → ltb i n ≡ false
      → fill cell n result i ≡ result i
  fill_out cell n result i e = fill_at cell n result i ∙ rw e

module _ {D : Type 0} ⦃s : Scalar D⦄ where
  add_column_at :
      (rows : ℕ) (matrix vector : Array D) (col n : ℕ) (result : Array D) (i : ℕ)
      → add_column rows matrix vector col n result i ≡ (
          if ltb i n
          then s.add (result i) (s.mul (matrix (col * rows + i)) (vector col))
          else result i)
  unfolding add_column
  add_column_at rows matrix vector col zero result i = ground arith
  add_column_at rows matrix vector col (suc n) result i = ground (
    arith,
    add_column_at rows matrix vector col n result i,
    add_column_at rows matrix vector col n result n,
  )

  -- A cell of the result within the rows goes through the same additions as a row-major sum.
  add_columns_at :
      (rows : ℕ) (matrix vector : Array D) (cols : ℕ) (result : Array D) (i : ℕ)
      → i < rows
      → result i ≡ s.nought
      → add_columns rows matrix vector cols result i
        ≡ accumulate (λ col. s.mul (matrix (col * rows + i)) (vector col)) cols
  unfolding add_columns accumulate
  add_columns_at rows matrix vector zero result i h e = e
  add_columns_at rows matrix vector (suc n) result i h e =
      add_column_at rows matrix vector n rows (add_columns rows matrix vector n result) i
      ∙ (rw (lt→ltb i rows h) (
          ap (λ t. s.add t (s.mul (matrix (n * rows + i)) (vector n)))
            (add_columns_at rows matrix vector n result i h e)))

  -- Cells past the rows are left alone.
  add_columns_past :
      (rows : ℕ) (matrix vector : Array D) (cols : ℕ) (result : Array D) (i : ℕ)
      → ltb i rows ≡ false
      → add_columns rows matrix vector cols result i ≡ result i
  unfolding add_columns
  add_columns_past rows matrix vector zero result i h = refl
  add_columns_past rows matrix vector (suc n) result i h =
      add_column_at rows matrix vector n rows (add_columns rows matrix vector n result) i
      ∙ rw h (add_columns_past rows matrix vector n result i h)

  pub accumulate-cong :
      (f g : ℕ → D) (n : ℕ) → ((i : ℕ) → i < n → f i ≡ g i) → accumulate f n ≡ accumulate g n
  unfolding accumulate
  accumulate-cong f g zero h = refl
  accumulate-cong f g (suc n) h =
      ap₂ s.add (accumulate-cong f g n (λ i k. h i (omega arith))) (h n (omega arith))

  same_cells :
      (rows cols : ℕ) (matrix transposed vector result : Array D)
      → ((i j : ℕ) → i < rows → j < cols → transposed (j * rows + i) ≡ matrix (i * cols + j))
      → (i : ℕ)
      → col_major rows cols transposed vector result i ≡ row_major rows cols matrix vector result i
  unfolding col_major row_major
  same_cells rows cols matrix transposed vector result h i = elim (Bool-cases (ltb i rows)) [
    | inl e ↦
        let in_rows = ltb→lt i rows e in
        add_columns_at rows transposed vector cols (fill (λ row. s.nought) rows result) i in_rows
          (fill_in (λ row. s.nought) rows result i e)
        ∙ (accumulate-cong _ _ cols (λ j k. ap (λ t. s.mul t (vector j)) (h i j in_rows k))
            ∙ sym (fill_in _ rows result i e))
    | inr e ↦
        add_columns_past rows transposed vector cols (fill (λ row. s.nought) rows result) i e
        ∙ (fill_out (λ row. s.nought) rows result i e ∙ sym (fill_out _ rows result i e))
  ]

  -- For every dimension, valid or not, and with `vector` and `result` null or not, the column-major
  -- product of the transposed matrix leaves in `result` exactly what the row-major product leaves,
  -- where `result` is an array of its own, apart from the matrices and the vector. No law of
  -- the arithmetic is used: the two make the same additions and multiplications in the same order.
  pub row_major-eq-col_major :
      (matrix transposed : Array D) (rows cols : ℤ) (vector result : Option (Array D))
      → ((i j : ℕ)
          → i < pos_part rows
          → j < pos_part cols
          → transposed (j * pos_part rows + i) ≡ matrix (i * pos_part cols + j))
      → multiply_mv_col_major (some transposed) rows cols vector result
        ≡ multiply_mv_row_major (some matrix) rows cols vector result
  unfolding multiply_mv_col_major multiply_mv_row_major
  row_major-eq-col_major matrix transposed rows cols none result h = refl
  row_major-eq-col_major matrix transposed rows cols (some vector) none h = refl
  row_major-eq-col_major matrix transposed rows cols (some vector) (some result) h =
      ap (λ r. some (if positive rows && positive cols then r else result))
        (fun_ext (same_cells (pos_part rows) (pos_part cols) matrix transposed vector result h))

  -- What the row-major product leaves in `result`: with valid dimensions, in each of the rows the sum
  -- of the products in the order of the columns, and elsewhere what was there; with an invalid
  -- dimension, what was there.
  pub multiply_mv_row_major_at :
      (matrix vector result : Array D) (rows cols : ℤ)
      → (r : Array D) × (multiply_mv_row_major (some matrix) rows cols (some vector) (some result)
          ≡ some r)
        × ((i : ℕ)
            → r i ≡ (
                if (positive rows && positive cols) && ltb i (pos_part rows)
                then accumulate
                    (λ j. s.mul (matrix (i * pos_part cols + j)) (vector j))
                    (pos_part cols)
                else result i))
  unfolding multiply_mv_row_major row_major
  multiply_mv_row_major_at matrix vector result rows cols = (
    _,
    refl,
    λ i. elim (Bool-cases (positive rows && positive cols)) [
      | inl e ↦ rw e (fill_at _ (pos_part rows) result i)
      | inr e ↦ rw e
    ],
  )
