-- ===== src/Matrix/Products/Transposed.antt =====
-- The product by a transposed second matrix is the plain product.
use native.Mathlib.Nat.{mul_comm}
use advanced_cpp_p1g.Base.{
  ℕ, zero, suc, ◌+◌, ◌*◌, ◌<◌, ◌≡◌, refl, sym, ap, ap₂, ◌∙◌, Bool, true, false, Option, none, some,
  ◌&&◌, if◌then◌else◌, arith,
}
use advanced_cpp_p1g.Base.Int.{ℤ, eqb_ℤ, pos_part}
use advanced_cpp_p1g.Matrix.{Scalar, Array}
use advanced_cpp_p1g.Matrix.Vector.{accumulate-cong}
use advanced_cpp_p1g.Matrix.Products.{
  fill_row, fill_rows, all_positive, naive, multiply_mm_naive, transposed_b,
  multiply_mm_transposed_b, transposed_b_inline, multiply_mm_transposed_b_inline,
}

and_true : (b : Bool) → (b && true) ≡ b
and_true true = refl
and_true false = refl

eqb_self : (x : ℤ) → eqb_ℤ x x ≡ true
eqb_self x = ground arith

module _ {D : Type 0} where
  fill_row-cong :
      (index index' : ℕ → ℕ → ℕ) (cell cell' : ℕ → ℕ → D) (row n : ℕ) (r r' : Array D)
      → ((j : ℕ) → j < n → index row j ≡ index' row j)
      → ((j : ℕ) → j < n → cell row j ≡ cell' row j)
      → r ≡ r'
      → fill_row index cell row n r ≡ fill_row index' cell' row n r'
  fill_row-cong index index' cell cell' row zero r r' h g e = e
  fill_row-cong index index' cell cell' row (suc n) r r' h g e =
      let rest =
        fill_row-cong index index' cell cell' row n r r' (λ j k. h j (omega arith))
          (λ j k. g j (omega arith)) e in
      let at : index row n ≡ index' row n = h n (omega arith) in
      let same : cell row n ≡ cell' row n = g n (omega arith) in rw (rest, at, same)

  fill_rows-cong :
      (index index' : ℕ → ℕ → ℕ) (cell cell' : ℕ → ℕ → D) (n cols : ℕ) (r : Array D)
      → ((i j : ℕ) → i < n → j < cols → index i j ≡ index' i j)
      → ((i j : ℕ) → i < n → j < cols → cell i j ≡ cell' i j)
      → fill_rows index cell n cols r ≡ fill_rows index' cell' n cols r
  fill_rows-cong index index' cell cell' zero cols r h g = refl
  fill_rows-cong index index' cell cell' (suc n) cols r h g =
      fill_row-cong index index' cell cell' n cols _ _ (λ j k. h n j (omega arith) k)
        (λ j k. g n j (omega arith) k)
        (fill_rows-cong index index' cell cell' n cols r (λ i j l k. h i j (omega arith) k)
          (λ i j l k. g i j (omega arith) k))

module _ {D : Type 0} ⦃s : Scalar D⦄ where
  naive-transposed_b :
      (m n q : ℕ) (a b transposed r : Array D)
      → ((j k : ℕ) → j < q → k < n → transposed (j * n + k) ≡ b (q * k + j))
      → transposed_b m n n q a transposed r ≡ naive m n q a b r
  naive-transposed_b m n q a b transposed r h =
      fill_rows-cong (λ i j. i * q + j) (λ i j. q * i + j) _ _ m q r
        (λ i j l k. ap (λ x. x + j) (mul_comm i q))
        (λ i j l k.
          accumulate-cong _ _ n (λ x y. ap₂ s.mul (ap (λ z. a (z + x)) (mul_comm i n)) (h j x k y)))

  inline-transposed_b :
      (m n p q : ℕ) (a b r : Array D)
      → transposed_b_inline m n p q a b r ≡ transposed_b m n p q a b r
  inline-transposed_b m n p q a b r =
      fill_rows-cong _ _ _ _ m q r (λ i j l k. refl)
        (λ i j l k. accumulate-cong _ _ n (λ x y.
          ap₂ s.mul (ap (λ z. a (z + x)) (mul_comm n i)) (ap (λ z. b (z + x)) (mul_comm p j))))

  -- Where the columns of the first matrix are as many as the rows of the second, the product by the
  -- transposed second matrix, and its version with `multiply_element`, leave in `result` exactly
  -- what the plain product leaves, for every dimension, valid or not, and every pointer to the first
  -- matrix and the result, null or not. No law of the arithmetic is used.
  pub transposed_b-eq-naive :
      (a : Option (Array D)) (rows_a cols_a : ℤ) (b transposed : Array D) (rows_b cols_b : ℤ)
      (result : Option (Array D))
      → cols_a ≡ rows_b
      → ((j k : ℕ)
          → j < pos_part cols_b
          → k < pos_part rows_b
          → transposed (j * pos_part rows_b + k) ≡ b (pos_part cols_b * k + j))
      → (multiply_mm_transposed_b a rows_a cols_a (some transposed) rows_b cols_b result
          ≡ multiply_mm_naive a rows_a cols_a (some b) rows_b cols_b result)
        × (multiply_mm_transposed_b_inline a rows_a cols_a (some transposed) rows_b cols_b result
            ≡ multiply_mm_naive a rows_a cols_a (some b) rows_b cols_b result)
  unfolding multiply_mm_transposed_b multiply_mm_naive multiply_mm_transposed_b_inline
  transposed_b-eq-naive none rows_a cols_a b transposed rows_b cols_b result e h = (refl, refl)
  transposed_b-eq-naive (some a) rows_a cols_a b transposed rows_b cols_b none e h = (refl, refl)
  transposed_b-eq-naive (some a) rows_a cols_a b transposed rows_b cols_b (some r) e h =
      let test : (all_positive rows_a cols_a rows_b cols_b && eqb_ℤ cols_a rows_b)
          ≡ all_positive rows_a cols_a rows_b cols_b =
        ap (λ t. all_positive rows_a cols_a rows_b cols_b && t) (rw e (eqb_self rows_b))
        ∙ and_true _ in
      let m = pos_part rows_a in
      let q = pos_part cols_b in
      let same : transposed_b m (pos_part cols_a) (pos_part rows_b) q a transposed r
          ≡ naive m (pos_part cols_a) q a b r =
        rw e (naive-transposed_b m (pos_part rows_b) q a b transposed r h) in
      (
        ap₂ (λ t x. some (if t then x else r)) (sym test) same,
        ap₂ (λ t x. some (if t then x else r)) (sym test)
            (inline-transposed_b m (pos_part cols_a) (pos_part rows_b) q a transposed r ∙ same),
      )
