-- ===== src/Matrix/Products/Cells.antt =====
-- What the plain product of two matrices leaves in each cell.
use native.Mathlib.Nat.{mul-suc, mul_comm, div-add-mod, div-lt_iff_lt-mul}
use advanced_cpp_p1g.Base.{
  ℕ, zero, suc, ◌+◌, ◌-◌, ◌*◌, ◌/◌, ◌%◌, ◌<◌, ◌≤◌, ◌≡◌, refl, sym, ap, ap₂, ◌∙◌, inl, inr, true,
  some, ◌&&◌, if◌then◌else◌, ltb, leb, arith, Bool-cases,
}
use advanced_cpp_p1g.Base.Int.{pos, eqb_ℤ}
use advanced_cpp_p1g.Matrix.{Scalar, Array, accumulate}
use advanced_cpp_p1g.Matrix.Products.{fill_row, fill_rows, all_positive, naive, multiply_mm_naive}

-- A number is in row `n` of rows of `q` numbers.
row_of : (q n p : ℕ) → 0 < q → q * n ≤ p → p < q * n + q → (p / q ≡ n) × (p % q ≡ p - q * n)
row_of q n p h low high =
    let below : p / q < suc n =
      (div-lt_iff_lt-mul {k = q} {x = p} {y = suc n} h).1
        (omega (arith, high, mul_comm (suc n) q, mul-suc q n)) in
    let not_less : p / q < n → p < n * q = (div-lt_iff_lt-mul {k = q} {x = p} {y = n} h).0 in
    let here : p / q ≡ n = ground (arith, below, not_less, low, mul_comm n q) in
    (here, omega (arith, div-add-mod p q, ap (λ x. q * x) here))

module _ {D : Type 0} where
  fill_row_at :
      (q : ℕ) (cell : ℕ → ℕ → D) (row n : ℕ) (r : Array D) (p : ℕ)
      → fill_row (λ i j. q * i + j) cell row n r p
        ≡ (if leb (q * row) p && ltb p (q * row + n) then cell row (p - q * row) else r p)
  fill_row_at q cell row zero r p = ground arith
  fill_row_at q cell row (suc n) r p =
      let last : q * row + n - q * row ≡ n = omega arith in
      ground (arith, fill_row_at q cell row n r p, last)

  fill_rows_at :
      (q : ℕ) (cell : ℕ → ℕ → D) (rows : ℕ) (r : Array D) (p : ℕ)
      → 0 < q
      → fill_rows (λ i j. q * i + j) cell rows q r p
        ≡ (if ltb p (q * rows) then cell (p / q) (p % q) else r p)
  fill_rows_at q cell zero r p h = ground arith
  fill_rows_at q cell (suc n) r p h =
      let below = fill_rows (λ i j. q * i + j) cell n q r in
      elim (Bool-cases (leb (q * n) p && ltb p (q * n + q))) [
        | inl e ↦
            let (row, col) = row_of q n p h (ground (arith, e)) (ground (arith, e)) in
            let inside : ltb p (q * suc n) ≡ true = ground (arith, e, mul-suc q n) in
            fill_row_at q cell n q below p ∙ rw (e, inside) (sym (ap₂ cell row col))
        | inr e ↦
            fill_row_at q cell n q below p
            ∙ rw e (fill_rows_at q cell n r p h ∙ ground (arith, e, mul-suc q n))
      ]

module _ {D : Type 0} ⦃s : Scalar D⦄ where
  -- With positive dimensions that fit together, the product leaves in the cell of row `p / q` and
  -- column `p % q`, where `q` is the number of columns of the second matrix, the sum of the products
  -- in the order of the inner index; past the last row it leaves what was there. No law of the
  -- arithmetic is used.
  pub multiply_mm_naive_at :
      (m n q : ℕ) (a b result : Array D)
      → 0 < m
      → 0 < n
      → 0 < q
      → (r : Array D) × (multiply_mm_naive
            (some a)
            (pos m)
            (pos n)
            (some b)
            (pos n)
            (pos q)
            (some result)
          ≡ some r)
        × ((p : ℕ)
            → r p ≡ (
                if ltb p (q * m)
                then accumulate (λ k. s.mul (a (n * (p / q) + k)) (b (q * k + p % q))) n
                else result p))
  unfolding multiply_mm_naive
  multiply_mm_naive_at m n q a b result hm hn hq =
      let valid : (all_positive (pos m) (pos n) (pos n) (pos q) && eqb_ℤ (pos n) (pos n)) ≡ true =
        ground (arith, hm, hn, hq) in
      (naive m n q a b result, rw valid refl, λ p. fill_rows_at q _ m result p hq)
