-- ===== src/LevelBook/Stress.antt =====
-- Phase_5/src/OrderBook.cpp: the two stress tests. The prices and quantities that they draw are a
-- list; "ORD" + std::to_string(i) is a parameter that gives different numbers different names.
use advanced_cpp_p1g.Base.{
  Eq, ℕ, zero, suc, ◌+◌, ◌-◌, ◌≤◌, ◌<◌, ◌≡◌, ◌≢◌, refl, sym, ap, ap₂, ◌∙◌, inl, inr, true, Option,
  none, some, List, [], ◌∷◌, ◌++◌, ltb, lt→ltb, ge→ltb, length, length-append, append-nil,
  append_assoc, ltb→lt, get_elem?, drop, find, find-assign, arith, Bool-cases,
}
use advanced_cpp_p1g.Base.Int.{ℤ}
use advanced_cpp_p1g.LevelBook.{Order, OrderBook, make, add_order}
use advanced_cpp_p1g.LevelBook.Consistent.{IsConsistent, add_order-IsConsistent}
use advanced_cpp_p1g.RecentOrders.{OptimizedOrderBook, init, process_orders}
use advanced_cpp_p1g.RecentOrders.Contents.{
  contents, tail, slide, slide_all, init-IsValid, process_orders_lem,
}

module _ {ℓ} {Key P : Type ℓ} (name : ℕ → Key) where
  -- The orders of the draws, from number `i` on.
  unfoldable pub drawn_orders : ℕ → List (P × ℤ) → List (Order Key P)
  drawn_orders i [] = []
  drawn_orders i ((price, quantity) ∷ draws) =
      make (name i) price quantity true ∷ drawn_orders (suc i) draws

  unfoldable pub stress_test_opt :
      OptimizedOrderBook (Order Key P) → List (P × ℤ) → Option (OptimizedOrderBook (Order Key P))
  stress_test_opt book draws = process_orders book (drawn_orders 0 draws)

module _ {ℓ} {Key P : Type ℓ} ⦃i : Eq Key⦄ ⦃p : Eq P⦄ (name : ℕ → Key) where
  -- The rest of the loop, from number `i` on.
  unfoldable pub stress_from : ℕ → OrderBook Key P → List (P × ℤ) → OrderBook Key P
  stress_from i book [] = book
  stress_from i book ((price, quantity) ∷ draws) =
      stress_from (suc i) (add_order book (name i) price quantity true) draws

  unfoldable pub stress_test_unopt : OrderBook Key P → List (P × ℤ) → OrderBook Key P
  stress_test_unopt book draws = stress_from 0 book draws

module _ {ℓ} {T : Type ℓ} where
  slide_room : (n : ℕ) (xs : List T) (o : T) → length xs < n → slide n xs o ≡ xs ++ (o ∷ [])
  slide_room n xs o h = rw (lt→ltb (length xs) n h) refl

  slide_full : (n : ℕ) (xs : List T) (o : T) → length xs ≡ n → slide n xs o ≡ tail xs ++ (o ∷ [])
  slide_full n xs o h = rw (ge→ltb (length xs) n (omega (arith, h))) refl

  regroup :
      (n : ℕ) (xs : List T) (o : T) (os : List T)
      → drop (length (xs ++ (o ∷ [])) + length os - n) ((xs ++ (o ∷ [])) ++ os)
        ≡ drop (length xs + length (o ∷ os) - n) (xs ++ (o ∷ os))
  regroup n xs o os =
      let same : length (xs ++ (o ∷ [])) + length os - n ≡ length xs + length (o ∷ os) - n =
        omega (arith, length-append xs (o ∷ [])) in
      ap₂ drop same (append_assoc xs (o ∷ []) os)

  -- The window ends up with the last `n` of all orders.
  slide_all-drop :
      (n : ℕ) (xs os : List T)
      → 0 < n
      → length xs ≤ n
      → slide_all n xs os ≡ drop (length xs + length os - n) (xs ++ os)
  slide_all-drop n xs [] pos h =
      let none_over : length xs + length {A = T} [] - n ≡ 0 = omega arith in
      sym (append-nil xs) ∙ ap (λ k. drop k (xs ++ [])) (sym none_over)
  slide_all-drop n [] (o ∷ os) pos h =
      ap (λ l. slide_all n l os) (slide_room n [] o pos)
      ∙ (slide_all-drop n (o ∷ []) os pos (omega arith) ∙ regroup n [] o os)
  slide_all-drop n (x ∷ xs) (o ∷ os) pos h = elim (Bool-cases (ltb (length (x ∷ xs)) n)) [
    | inl e ↦
        ap (λ l. slide_all n l os) (slide_room n (x ∷ xs) o (ltb→lt _ _ e))
        ∙ (slide_all-drop n ((x ∷ xs) ++ (o ∷ [])) os pos
              (omega (arith, length-append (x ∷ xs) (o ∷ []), ltb→lt _ _ e))
            ∙ regroup n (x ∷ xs) o os)
    | inr e ↦
        let exact : length (x ∷ xs) ≡ n = ground arith in
        let over : length xs + length (o ∷ os) - n ≡ length os = omega (arith, exact) in
        let over' : length (x ∷ xs) + length (o ∷ os) - n ≡ suc (length os) =
          omega (arith, exact) in
        ap (λ l. slide_all n l os) (slide_full n (x ∷ xs) o exact)
        ∙ (slide_all-drop n (xs ++ (o ∷ [])) os pos
              (omega (arith, length-append xs (o ∷ []), exact))
            ∙ (regroup n xs o os
                ∙ (ap (λ k. drop k (xs ++ (o ∷ os))) over
                    ∙ ap (λ k. drop k (x ∷ (xs ++ (o ∷ os)))) (sym over'))))
  ]

module _ {ℓ} {Key P : Type ℓ} (name : ℕ → Key) where
  length-drawn_orders :
      (i : ℕ) (draws : List (P × ℤ)) → length (drawn_orders name i draws) ≡ length draws
  unfolding drawn_orders
  length-drawn_orders i [] = refl
  length-drawn_orders i ((price, quantity) ∷ draws) = ap suc (length-drawn_orders (suc i) draws)

  -- `stressTestOpt` on a new pool of at least one place never writes outside the pool, and leaves in
  -- it, oldest first, the last orders that were drawn: as many as the pool has places, and all of
  -- them if there are no more.
  pub stress_test_opt_lem :
      (size : ℕ) (draws : List (P × ℤ))
      → 0 < size
      → (book : OptimizedOrderBook (Order Key P)) × (stress_test_opt name (init size) draws
          ≡ some book)
        × (contents book ≡ drop (length draws - size) (drawn_orders name 0 draws))
  unfolding stress_test_opt
  stress_test_opt_lem size draws pos =
      let os = drawn_orders name 0 draws in
      let (book, done, valid, same, slid) =
        process_orders_lem (init size) os (init-IsValid size pos) in
      let over : 0 + length os - size ≡ length draws - size =
        omega (arith, length-drawn_orders 0 draws) in
      (book, done, slid ∙ (slide_all-drop size [] os pos (omega arith) ∙ ap (λ k. drop k os) over))

module _ {ℓ} {Key P : Type ℓ} ⦃i : Eq Key⦄ ⦃p : Eq P⦄ (name : ℕ → Key) where
  -- What a draw becomes under its number.
  abbrev pub order_at : ℕ → Option (P × ℤ) → Option (Order Key P)
  order_at k none = none
  order_at k (some (price, quantity)) = some (make (name k) price quantity true)

  abbrev Fresh : ℕ → OrderBook Key P → Type ℓ
  Fresh n book = (k : ℕ) → n ≤ k → find (name k) book.order_lookup ≡ none

  module _ (names : (j k : ℕ) → name j ≡ name k → j ≡ k) where
    find-add_other :
        (n k : ℕ) (book : OrderBook Key P) (price : P) (quantity : ℤ)
        → n ≢ k
        → find (name k) (add_order book (name n) price quantity true).order_lookup
          ≡ find (name k) book.order_lookup
    unfolding add_order
    find-add_other n k book price quantity other =
        find-assign (name n) (name k) (make (name n) price quantity true) book.order_lookup
        ∙ (elim (Bool-cases (i.beq (name n) (name k))) [
          | inl e ↦ absurd (other (names n k ((i.beq_iff (name n) (name k)).0 e)))
          | inr e ↦ rw e refl
        ])

    find-add_same :
        (n : ℕ) (book : OrderBook Key P) (price : P) (quantity : ℤ)
        → find (name n) (add_order book (name n) price quantity true).order_lookup
          ≡ some (make (name n) price quantity true)
    unfolding add_order
    find-add_same n book price quantity =
        find-assign (name n) (name n) (make (name n) price quantity true) book.order_lookup
        ∙ rw ((i.beq_iff (name n) (name n)).1 refl) refl

    add_order-Fresh :
        (n : ℕ) (book : OrderBook Key P) (price : P) (quantity : ℤ)
        → Fresh n book
        → Fresh (suc n) (add_order book (name n) price quantity true)
    add_order-Fresh n book price quantity fresh k h =
        find-add_other n k book price quantity (λ e. omega (arith, e)) ∙ fresh k (omega arith)

    stress_from-old :
        (n k : ℕ) (book : OrderBook Key P) (draws : List (P × ℤ))
        → k < n
        → find (name k) (stress_from name n book draws).order_lookup
          ≡ find (name k) book.order_lookup
    unfolding stress_from
    stress_from-old n k book [] h = refl
    stress_from-old n k book ((price, quantity) ∷ draws) h =
        stress_from-old (suc n) k (add_order book (name n) price quantity true) draws (omega arith)
        ∙ find-add_other n k book price quantity (λ e. omega (arith, e))

    stress_from-new :
        (n k : ℕ) (book : OrderBook Key P) (draws : List (P × ℤ))
        → Fresh n book
        → find (name (n + k)) (stress_from name n book draws).order_lookup
          ≡ order_at (n + k) (get_elem? draws k)
    unfolding stress_from
    stress_from-new n k book [] fresh = fresh (n + k) (omega arith)
    stress_from-new n zero book ((price, quantity) ∷ draws) fresh =
        let e : n + zero ≡ n = omega arith in
        rw e (
          stress_from-old (suc n) n (add_order book (name n) price quantity true) draws
            (omega arith)
          ∙ find-add_same n book price quantity)
    stress_from-new n (suc k) book ((price, quantity) ∷ draws) fresh =
        let e : n + suc k ≡ suc n + k = omega arith in
        rw e (
          stress_from-new (suc n) k (add_order book (name n) price quantity true) draws
            (add_order-Fresh n book price quantity fresh))

    stress_from-IsConsistent :
        (n : ℕ) (book : OrderBook Key P) (draws : List (P × ℤ))
        → IsConsistent book
        → Fresh n book
        → IsConsistent (stress_from name n book draws)
    unfolding stress_from
    stress_from-IsConsistent n book [] c fresh = c
    stress_from-IsConsistent n book ((price, quantity) ∷ draws) c fresh =
        stress_from-IsConsistent (suc n) (add_order book (name n) price quantity true) draws
          (add_order-IsConsistent book (name n) price quantity true c (fresh n (omega arith)))
          (add_order-Fresh n book price quantity fresh)

    -- `stressTestUnopt` on a consistent book in which no name of the test is used: the two indexes of
    -- the book agree afterwards, and the lookup holds under the k-th name the order of the k-th draw,
    -- and nothing under the names behind the last draw.
    pub stress_test_unopt_lem :
        (book : OrderBook Key P) (draws : List (P × ℤ))
        → IsConsistent book
        → ((k : ℕ) → find (name k) book.order_lookup ≡ none)
        → let r = stress_test_unopt name book draws in
          IsConsistent r × ((k : ℕ) → find (name k) r.order_lookup ≡ order_at k (get_elem? draws k))
    unfolding stress_test_unopt
    stress_test_unopt_lem book draws c unused = (
      stress_from-IsConsistent 0 book draws c (λ k h. unused k),
      λ k.
          let e : 0 + k ≡ k = omega arith in
          ap (λ j. find (name j) (stress_from name 0 book draws).order_lookup) (sym e)
          ∙ (stress_from-new 0 k book draws (λ j h. unused j)
              ∙ ap (λ j. order_at j (get_elem? draws k)) e),
    )
