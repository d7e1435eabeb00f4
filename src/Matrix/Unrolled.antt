-- ===== src/Matrix/Unrolled.antt =====
-- The unrolled product adds the same terms in another order, so it agrees with the plain one where
-- no sum is rounded.
use advanced_cpp_p1g.Base.{
  ℕ, zero, suc, ◌+◌, ◌*◌, ◌/◌, ◌%◌, ◌≤◌, ◌<◌, ◌≡◌, refl, sym, subst, ap, ap₂, ◌∙◌, Option, none,
  some, ◌&&◌, if◌then◌else◌, arith,
}
use advanced_cpp_p1g.Base.Int.{ℤ, pos, negsuc, ◌+ℤ◌, +ℤ_parts, eq_of_parts, pos_part, neg_part}
use advanced_cpp_p1g.Matrix.{
  Scalar, Array, fill, positive, accumulate, row_major, multiply_mv_row_major, partial_sum,
  add_rest, dot_product_unrolled_aligned, row_major_optimised, multiply_mv_row_major_optimised,
}

-- The absolute value.
abbrev pub size : ℤ → ℕ
size z = pos_part z + neg_part z

-- The integers as scalars, of which those up to `limit` are added without rounding. The doubles are
-- such scalars, with a limit of 2^53.
pub record IsExactTo {ℓ} {D : Type ℓ} (s : Scalar D) (of : ℤ → D) (limit : ℕ) : Type ℓ where
  pub nought_of : s.nought ≡ of (pos 0)
  pub add_of : (a b : ℤ) → size a + size b ≤ limit → s.add (of a) (of b) ≡ of (a +ℤ b)

unfoldable pub sum_to : (ℕ → ℕ) → ℕ → ℕ
sum_to f zero = 0
sum_to f (suc n) = sum_to f n + f n

sum_to_mono : (f : ℕ → ℕ) (i n : ℕ) → sum_to f i ≤ sum_to f (i + n)
unfolding sum_to
sum_to_mono f i zero = let e : i + zero ≡ i = omega arith in rw e (omega arith)
sum_to_mono f i (suc n) =
    let e : i + suc n ≡ suc (i + n) = omega arith in rw e (omega (arith, sum_to_mono f i n))

sum_to_add : (f g : ℕ → ℕ) (n : ℕ) → sum_to (λ i. f i + g i) n ≡ sum_to f n + sum_to g n
unfolding sum_to
sum_to_add f g zero = refl
sum_to_add f g (suc n) = omega (arith, sum_to_add f g n)

-- Every fourth term, from term `k` on.
abbrev strided : (ℕ → ℕ) → ℕ → ℕ → ℕ
strided f k n = sum_to (λ round. f (4 * round + k)) n

four_suc : (n : ℕ) → suc (suc (suc (suc (4 * n)))) ≡ 4 * suc n
four_suc n = omega arith

four_more :
    (f : ℕ → ℕ) (m : ℕ)
    → sum_to f m + f (m + 0) + f (m + 1) + f (m + 2) + f (m + 3)
      ≡ sum_to f (suc (suc (suc (suc m))))
unfolding sum_to
four_more f m =
    let e₀ : m + 0 ≡ m = omega arith in
    let e₁ : m + 1 ≡ suc m = omega arith in
    let e₂ : m + 2 ≡ suc (suc m) = omega arith in
    let e₃ : m + 3 ≡ suc (suc (suc m)) = omega arith in rw (e₀, e₁, e₂, e₃)

four_strided :
    (f : ℕ → ℕ) (n : ℕ)
    → strided f 0 n + strided f 1 n + strided f 2 n + strided f 3 n ≡ sum_to f (4 * n)
unfolding sum_to
four_strided f zero = refl
four_strided f (suc n) =
    omega (arith, four_strided f n, four_more f (4 * n), ap (sum_to f) (four_suc n))

module _ {ℓ} {D : Type ℓ} ⦃s : Scalar D⦄ {of : ℤ → D} {limit : ℕ} (x : IsExactTo s of limit) where
  open s use {nought, add, mul}

  -- The scalar is the integer p - q.
  abbrev Is : ℕ → ℕ → D → Type ℓ
  Is p q d = (z : ℤ) × (d ≡ of z) × (pos_part z + q ≡ neg_part z + p)

  Is-unique : (p q : ℕ) (d e : D) → Is p q d → Is p q e → d ≡ e
  Is-unique p q d e (z, a, h) (w, b, k) = a ∙ (ap of (eq_of_parts z w (omega arith)) ∙ sym b)

  size-le : (z : ℤ) (p q : ℕ) → pos_part z + q ≡ neg_part z + p → size z ≤ p + q
  size-le (pos n) p q h = omega arith
  size-le (negsuc n) p q h = omega arith

  add-Is :
      (p q p' q' : ℕ) (d e : D)
      → Is p q d
      → Is p' q' e
      → (p + q) + (p' + q') ≤ limit
      → Is (p + p') (q + q') (add d e)
  add-Is p q p' q' d e (z, a, h) (w, b, k) le = (
    z +ℤ w,
    ap₂ add a b ∙ x.add_of z w (omega (arith, size-le z p q h, size-le w p' q' k)),
    omega (arith, +ℤ_parts z w),
  )

  module _ (p q : ℕ → ℕ) (term : ℕ → D) where
    accumulate-Is :
        (n : ℕ)
        → ((i : ℕ) → i < n → Is (p i) (q i) (term i))
        → sum_to p n + sum_to q n ≤ limit
        → Is (sum_to p n) (sum_to q n) (accumulate term n)
    unfolding accumulate sum_to
    accumulate-Is zero are le = (pos 0, x.nought_of, refl)
    accumulate-Is (suc n) are le =
        add-Is (sum_to p n) (sum_to q n) (p n) (q n) (accumulate term n) (term n)
          (accumulate-Is n (λ i h. are i (omega arith)) (omega arith)) (are n (omega arith))
          (omega arith)

    add_rest-Is :
        (i n : ℕ) (d : D)
        → ((j : ℕ) → j < i + n → Is (p j) (q j) (term j))
        → sum_to p (i + n) + sum_to q (i + n) ≤ limit
        → Is (sum_to p i) (sum_to q i) d
        → Is (sum_to p (i + n)) (sum_to q (i + n)) (add_rest term i n d)
    unfolding add_rest sum_to
    add_rest-Is i zero d are le h = let e : i + zero ≡ i = omega arith in rw e h
    add_rest-Is i (suc n) d are le h =
        let e : i + suc n ≡ (i + 1) + n = omega arith in
        let e' : suc i ≡ i + 1 = omega arith in
        let e'' : i + suc n ≡ suc i + n = omega arith in
        let more : (sum_to p i + sum_to q i) + (p i + q i) ≤ limit =
          omega (arith, sum_to_mono p (suc i) n, sum_to_mono q (suc i) n, rw e'' at le) in
        let next =
          add-Is (sum_to p i) (sum_to q i) (p i) (q i) d (term i) h (are i (omega arith)) more in
        rw e (
          add_rest-Is (i + 1) n (add d (term i)) (λ j k. are j (omega arith)) (rw e at le)
            (subst (λ k. Is (sum_to p k) (sum_to q k) (add d (term i))) e' next))

  -- The sum as the unrolled loop makes it.
  unrolled-Is :
      (p q : ℕ → ℕ) (term : ℕ → D) (cols : ℕ)
      → ((i : ℕ) → i < cols → Is (p i) (q i) (term i))
      → sum_to p cols + sum_to q cols ≤ limit
      → Is (sum_to p cols) (sum_to q cols) (
          add_rest term (4 * (cols / 4)) (cols % 4) (
            add
              (add
                (add (partial_sum 0 term (cols / 4)) (partial_sum 1 term (cols / 4)))
                (partial_sum 2 term (cols / 4)))
              (partial_sum 3 term (cols / 4))))
  unfolding partial_sum
  unrolled-Is p q term cols are le =
      let n = cols / 4 in
      let e : 4 * n + cols % 4 ≡ cols = omega arith in
      let fp = four_strided p n in
      let fq = four_strided q n in
      let most : sum_to p (4 * n) + sum_to q (4 * n) ≤ limit = omega (
        arith,
        sum_to_mono p (4 * n) (cols % 4),
        sum_to_mono q (4 * n) (cols % 4),
        ap (sum_to p) e,
        ap (sum_to q) e,
      ) in
      let part = λ (k : ℕ) (h : k < 4) (le_k : strided p k n + strided q k n ≤ limit).
        accumulate-Is (λ r. p (4 * r + k)) (λ r. q (4 * r + k)) (λ r. term (4 * r + k)) n
          (λ i lt. are (4 * i + k) (omega arith)) le_k in
      let two =
        add-Is _ _ _ _ _ _ (part 0 (omega arith) (omega arith)) (part 1 (omega arith) (omega arith))
          (omega arith) in
      let three = add-Is _ _ _ _ _ _ two (part 2 (omega arith) (omega arith)) (omega arith) in
      let four = add-Is _ _ _ _ _ _ three (part 3 (omega arith) (omega arith)) (omega arith) in
      rw e at (
        add_rest-Is p q term (4 * n) (cols % 4) _ (λ j h. are j (omega arith)) (rw (← e) at le)
          (rw (fp, fq) at four))

  dot_product_lem :
      (row vector : ℕ → D) (cols : ℕ) (terms : ℕ → ℤ)
      → ((i : ℕ) → i < cols → mul (row i) (vector i) ≡ of (terms i))
      → sum_to (λ i. size (terms i)) cols ≤ limit
      → dot_product_unrolled_aligned row vector cols ≡ accumulate (λ i. mul (row i) (vector i)) cols
  unfolding dot_product_unrolled_aligned
  dot_product_lem row vector cols terms are le =
      let p = λ (i : ℕ). pos_part (terms i) in
      let q = λ (i : ℕ). neg_part (terms i) in
      let term = λ (i : ℕ). mul (row i) (vector i) in
      let is : (i : ℕ) → i < cols → Is (p i) (q i) (term i) =
        λ i h. (terms i, are i h, omega arith) in
      let small : sum_to p cols + sum_to q cols ≤ limit = omega (arith, sum_to_add p q cols) in
      Is-unique (sum_to p cols) (sum_to q cols) _ _ (unrolled-Is p q term cols is small)
        (accumulate-Is p q term cols is small)

  fill-cong :
      (f g : ℕ → D) (n : ℕ) (result : Array D)
      → ((i : ℕ) → i < n → f i ≡ g i)
      → fill f n result ≡ fill g n result
  unfolding fill
  fill-cong f g zero result h = refl
  fill-cong f g (suc n) result h =
      rw (fill-cong f g n result (λ i k. h i (omega arith)), h n (omega arith)) refl

  -- Where the products of the cells of each row with the vector are whole numbers, the absolute values
  -- of which add up to at most the limit of exact sums (2^53 for doubles), the unrolled product
  -- leaves in `result` (an array of its own, or null) what the plain product leaves: for every
  -- dimension, a multiple of four or not, valid or not.
  pub row_major_optimised-eq-row_major :
      (matrix vector : Array D) (rows cols : ℤ) (result : Option (Array D)) (terms : ℕ → ℕ → ℤ)
      → ((i j : ℕ)
          → i < pos_part rows
          → j < pos_part cols
          → mul (matrix (i * pos_part cols + j)) (vector j) ≡ of (terms i j))
      → ((i : ℕ) → i < pos_part rows → sum_to (λ j. size (terms i j)) (pos_part cols) ≤ limit)
      → multiply_mv_row_major_optimised (some matrix) rows cols (some vector) result
        ≡ multiply_mv_row_major (some matrix) rows cols (some vector) result
  unfolding multiply_mv_row_major_optimised multiply_mv_row_major row_major_optimised row_major
  row_major_optimised-eq-row_major matrix vector rows cols none terms are le = refl
  row_major_optimised-eq-row_major matrix vector rows cols (some result) terms are le =
      ap (λ r. some (if positive rows && positive cols then r else result))
        (fill-cong _ _ (pos_part rows) result (λ i h.
          dot_product_lem (λ j. matrix (i * pos_part cols + j)) vector (pos_part cols) (terms i)
            (λ j k. are i j h k) (le i h)))
