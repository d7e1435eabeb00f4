-- ===== src/RecentOrders/Contents.antt =====
-- The pool keeps the last `size` orders: a refinement of a sliding window.
use advanced_cpp_p1g.Base.{
  ℕ, zero, suc, ◌+◌, ◌≤◌, ◌<◌, ◌≡◌, refl, sym, ap, ap₂, ◌∙◌, inl, inr, some, List, [], ◌∷◌, ◌++◌,
  append-nil, append_assoc, ltb, lt→ltb, ltb→lt, ge→ltb, ◌==◌, if◌then◌else◌, length, length-append,
  length-set, set, take, drop, length-drop, length-take, arith, false, Bool-cases, ==_iff,
}
use native.Mathlib.Numerals.{add-one}
use advanced_cpp_p1g.RecentOrders.{OptimizedOrderBook, init, handle_order, process_orders}

module _ {ℓ} {T : Type ℓ} where
  -- The orders in the pool, oldest first.
  abbrev pub contents : OptimizedOrderBook T → List T
  contents b = drop b.oldest_order b.order_pool ++ take b.oldest_order b.order_pool

  -- A window of at most `size` orders that takes one more.
  abbrev pub tail : List T → List T
  tail [] = []
  tail (x ∷ xs) = xs

  abbrev pub slide : ℕ → List T → T → List T
  slide size xs o = if ltb (length xs) size then xs ++ (o ∷ []) else tail xs ++ (o ∷ [])

  pub record IsValid (b : OptimizedOrderBook T) : Type 0 where
    pub counted : b.order_counter ≡ length b.order_pool
    pub bounded : b.order_counter ≤ b.size
    pub in_pool : b.oldest_order < b.size
    pub growing : b.order_counter < b.size → b.oldest_order ≡ 0

  take-set :
      (xs : List T) (i : ℕ) (o : T)
      → i < length xs
      → take (suc i) (set xs i o) ≡ take i xs ++ (o ∷ [])
  take-set [] i o h = absurd (omega arith)
  take-set (x ∷ xs) zero o h = refl
  take-set (x ∷ xs) (suc i) o h = ap (λ l. x ∷ l) (take-set xs i o (omega arith))

  drop-set : (xs : List T) (i : ℕ) (o : T) → drop (suc i) (set xs i o) ≡ drop (suc i) xs
  drop-set [] i o = refl
  drop-set (x ∷ xs) zero o = refl
  drop-set (x ∷ xs) (suc i) o = drop-set xs i o

  tail-drop :
      (xs ys : List T) (i : ℕ) → i < length xs → tail (drop i xs ++ ys) ≡ drop (suc i) xs ++ ys
  tail-drop [] ys i h = absurd (omega arith)
  tail-drop (x ∷ xs) ys zero h = refl
  tail-drop (x ∷ xs) ys (suc i) h = tail-drop xs ys i (omega arith)

  -- Overwriting place `i` and going on behind it drops the oldest and appends the new order.
  rotate :
      (xs : List T) (i : ℕ) (o : T)
      → i < length xs
      → drop (suc i) (set xs i o) ++ take (suc i) (set xs i o)
        ≡ tail (drop i xs ++ take i xs) ++ (o ∷ [])
  rotate xs i o h =
      rw (take-set xs i o h, drop-set xs i o, tail-drop xs (take i xs) i h)
        (sym (append_assoc (drop (suc i) xs) (take i xs) (o ∷ [])))

  drop-all : (xs : List T) (i : ℕ) → length xs ≤ i → (drop i xs ≡ []) × (take i xs ≡ xs)
  drop-all [] zero h = (refl, refl)
  drop-all [] (suc i) h = (refl, refl)
  drop-all (x ∷ xs) zero h = absurd (omega arith)
  drop-all (x ∷ xs) (suc i) h = let e = drop-all xs i (omega arith) in (e.0, ap (λ l. x ∷ l) e.1)

  length-contents : (b : OptimizedOrderBook T) → length (contents b) ≡ length b.order_pool
  length-contents b = omega (
    arith,
    length-append (drop b.oldest_order b.order_pool) (take b.oldest_order b.order_pool),
    length-drop b.oldest_order b.order_pool,
    length-take b.oldest_order b.order_pool,
  )

  -- The new contents wherever the next place to overwrite is.
  wrap_place :
      (xs : List T) (i n : ℕ) (o : T)
      → i < length xs
      → length xs ≡ n
      → let j = if i + 1 == n then 0 else i + 1 in
        drop j (set xs i o) ++ take j (set xs i o) ≡ tail (drop i xs ++ take i xs) ++ (o ∷ [])
  wrap_place xs i n o h e = elim (Bool-cases (i + 1 == n)) [
    | inl q ↦
        let all =
          drop-all (set xs i o) (suc i)
            (omega (arith, length-set xs i o, (==_iff (i + 1) n).0 q)) in
        rw q (append-nil (set xs i o) ∙ (sym (ap₂ ◌++◌ all.0 all.1) ∙ rotate xs i o h))
    | inr q ↦ rw (q, add-one i) (rotate xs i o h)
  ]

  pub init-IsValid : (n : ℕ) → 0 < n → IsValid (init n)
  init-IsValid n h = record {
    counted = refl;
    bounded = omega arith;
    in_pool = h;
    growing = λ _. refl;
  }

  -- One more order in the pool, which slides the window.
  pub record Handled (b : OptimizedOrderBook T) (o : T) (c : OptimizedOrderBook T) : Type ℓ where
    pub valid : IsValid c
    pub same_size : c.size ≡ b.size
    pub slides : contents c ≡ slide b.size (contents b) o

  grown : (b : OptimizedOrderBook T) (o : T) → OptimizedOrderBook T
  grown b o = record b {
    order_counter = b.order_counter + 1;
    order_pool = b.order_pool ++ (o ∷ []);
  }

  replaced : (b : OptimizedOrderBook T) (o : T) → OptimizedOrderBook T
  replaced b o = record b {
    order_pool = set b.order_pool b.oldest_order o;
    oldest_order = if b.oldest_order + 1 == b.size then 0 else b.oldest_order + 1;
  }

  grown-Handled :
      (b : OptimizedOrderBook T) (o : T)
      → IsValid b
      → b.order_counter < b.size
      → Handled b o (grown b o)
  unfolding grown
  grown-Handled b o v h = record {
    valid = record {
      counted = omega (arith, v.counted, length-append b.order_pool (o ∷ []));
      bounded = omega arith;
      in_pool = v.in_pool;
      growing = λ _. v.growing h;
    };
    same_size = refl;
    slides = rw (
      v.growing h,
      append-nil (b.order_pool ++ (o ∷ [])),
      append-nil b.order_pool,
      lt→ltb (length b.order_pool) b.size (omega (arith, v.counted)),
    );
  }

  not_below :
      (b : OptimizedOrderBook T)
      → IsValid b
      → b.order_counter ≡ b.size
      → ltb (length (contents b)) b.size ≡ false
  not_below b v h =
      ge→ltb (length (contents b)) b.size (omega (arith, length-contents b, v.counted))

  replaced-Handled :
      (b : OptimizedOrderBook T) (o : T)
      → IsValid b
      → b.order_counter ≡ b.size
      → Handled b o (replaced b o)
  unfolding replaced
  replaced-Handled b o v h = record {
    valid = record {
      counted = omega (arith, v.counted, length-set b.order_pool b.oldest_order o);
      bounded = omega (arith, v.bounded);
      in_pool = ground (arith, v.in_pool);
      growing = λ k. absurd (omega arith);
    };
    same_size = refl;
    slides =
        wrap_place b.order_pool b.oldest_order b.size o (omega (arith, v.in_pool, v.counted))
          (omega (arith, v.counted))
        ∙ rw (not_below b v h);
  }

  -- `handleOrder` on a valid pool never writes outside the pool; it keeps the pool valid and its
  -- size, and the orders in it, oldest first, become those of the window with the new order: all of
  -- them while there is room, otherwise without the oldest.
  pub handle_order-Handled :
      (b : OptimizedOrderBook T) (o : T)
      → IsValid b
      → (c : OptimizedOrderBook T) × (handle_order b o ≡ some c) × Handled b o c
  unfolding handle_order grown replaced
  handle_order-Handled b o v = elim (Bool-cases (ltb b.order_counter b.size)) [
    | inl h ↦ (grown b o, rw h, grown-Handled b o v (ltb→lt _ _ h))
    | inr h ↦ (
      replaced b o,
      rw (
        h,
        lt→ltb b.oldest_order (length b.order_pool)
            (ground (arith, v.in_pool, v.counted, v.bounded)),
      ),
      replaced-Handled b o v (ground (arith, v.bounded)),
    )
  ]

  -- The window after a list of orders.
  abbrev pub slide_all : ℕ → List T → List T → List T
  slide_all size xs [] = xs
  slide_all size xs (o ∷ os) = slide_all size (slide size xs o) os

  -- `processOrders`, two orders a round, does what handling the orders one by one does: on a valid
  -- pool it succeeds for a list of any length, keeps the pool valid and its size, and slides the
  -- window over all the orders in turn.
  pub process_orders_lem :
      (b : OptimizedOrderBook T) (os : List T)
      → IsValid b
      → (c : OptimizedOrderBook T) × (process_orders b os ≡ some c)
        × IsValid c
        × (c.size ≡ b.size)
        × (contents c ≡ slide_all b.size (contents b) os)
  unfolding process_orders
  process_orders_lem b [] v = (b, refl, v, refl, refl)
  process_orders_lem b (o ∷ []) v =
      let (c, e, h) = handle_order-Handled b o v in (c, e, h.valid, h.same_size, h.slides)
  process_orders_lem b (o ∷ o' ∷ os) v =
      let (b₁, e₁, h₁) = handle_order-Handled b o v in
      let (b₂, e₂, h₂) = handle_order-Handled b₁ o' h₁.valid in
      let (c, e, w, z, k) = process_orders_lem b₂ os h₂.valid in
      (
        c,
        rw (e₁, e₂) e,
        w,
        z ∙ (h₂.same_size ∙ h₁.same_size),
        k
            ∙ ap₂ (λ n l. slide_all n l os) (h₂.same_size ∙ h₁.same_size)
                (h₂.slides ∙ ap₂ (λ n l. slide n l o') h₁.same_size h₁.slides),
      )
