-- ===== src/Exchange/Levels/Order.antt =====
-- A side of the book stays sorted, and a new order stands behind those of the same price.
use advanced_cpp_p1g.Base.{
  ℕ, suc, ◌≡◌, ◌≢◌, refl, sym, ap, ◌⊎◌, inl, inr, Bool, true, false, List, [], ◌∷◌, ◌++◌, arith,
  ◌==◌, if◌then◌else◌, All, All-map, length, Bool-cases, ==_iff,
}
use advanced_cpp_p1g.Price.{IsComparator}
use advanced_cpp_p1g.Exchange.Levels.{emplace, erase_node}

module _ {ℓ} {P : Type ℓ} where
  -- No node comes strictly before an earlier one.
  abbrev pub IsSorted : (P → P → Bool) → List (P × ℕ) → Type 0
  IsSorted before [] = Unit {0}
  IsSorted before (e ∷ m) = All (λ f. before f.0 e.0 ≡ false) m × IsSorted before m

  -- No two nodes hold the same slot.
  abbrev pub IsDistinct : List (P × ℕ) → Type 0
  IsDistinct [] = Unit {0}
  IsDistinct (e ∷ m) = All (λ f. f.1 ≢ e.1) m × IsDistinct m

  pub All-emplace {κ} :
      (before : P → P → Bool) (Q : P × ℕ → Type κ) (k : P) (s : ℕ) (m : List (P × ℕ))
      → Q (k, s)
      → All Q m
      → All Q (emplace before k s m)
  unfolding emplace
  All-emplace before Q k s [] q h = (q, tt)
  All-emplace before Q k s ((j, t) ∷ m) q h =
      elim (before k j)
        as (λ b. All Q (if b then (k, s) ∷ (j, t) ∷ m else (j, t) ∷ emplace before k s m)) [
          | true ↦ (q, h)
          | false ↦ (h.0, All-emplace before Q k s m q h.1)
        ]

  pub All-erase_node {κ} :
      (Q : P × ℕ → Type κ) (s : ℕ) (m : List (P × ℕ)) → All Q m → All Q (erase_node s m)
  unfolding erase_node
  All-erase_node Q s [] h = h
  All-erase_node Q s ((j, t) ∷ m) h =
      elim (t == s) as (λ b. All Q (if b then m else (j, t) ∷ erase_node s m)) [
        | true ↦ h.1
        | false ↦ (h.0, All-erase_node Q s m h.1)
      ]

  pub erase_node-IsSorted :
      (before : P → P → Bool) (s : ℕ) (m : List (P × ℕ))
      → IsSorted before m
      → IsSorted before (erase_node s m)
  unfolding erase_node
  erase_node-IsSorted before s [] h = h
  erase_node-IsSorted before s ((j, t) ∷ m) h =
      elim (t == s) as (λ b. IsSorted before (if b then m else (j, t) ∷ erase_node s m)) [
        | true ↦ h.1
        | false ↦ (All-erase_node _ s m h.0, erase_node-IsSorted before s m h.1)
      ]

  pub erase_node-IsDistinct :
      (s : ℕ) (m : List (P × ℕ)) → IsDistinct m → IsDistinct (erase_node s m)
  unfolding erase_node
  erase_node-IsDistinct s [] h = h
  erase_node-IsDistinct s ((j, t) ∷ m) h =
      elim (t == s) as (λ b. IsDistinct (if b then m else (j, t) ∷ erase_node s m)) [
        | true ↦ h.1
        | false ↦ (All-erase_node _ s m h.0, erase_node-IsDistinct s m h.1)
      ]

  -- Where no two nodes share a slot, erasing one takes that slot out of the map.
  pub erase_node-gone :
      (s : ℕ) (m : List (P × ℕ)) → IsDistinct m → All (λ f. f.1 ≢ s) (erase_node s m)
  unfolding erase_node
  erase_node-gone s [] h = tt
  erase_node-gone s ((j, t) ∷ m) h = elim (Bool-cases (t == s)) [
    | inl e ↦ rw e (All-map (λ f (ne : f.1 ≢ t). rw (← (==_iff t s).0 e) ne) m h.0)
    | inr e ↦ rw e (ground arith, erase_node-gone s m h.1)
  ]

  pub length-emplace :
      (before : P → P → Bool) (k : P) (s : ℕ) (m : List (P × ℕ))
      → length (emplace before k s m) ≡ suc (length m)
  unfolding emplace
  length-emplace before k s [] = refl
  length-emplace before k s ((j, t) ∷ m) = ground (arith, length-emplace before k s m)

  pub emplace-IsDistinct :
      (before : P → P → Bool) (k : P) (s : ℕ) (m : List (P × ℕ))
      → All (λ f. f.1 ≢ s) m
      → IsDistinct m
      → IsDistinct (emplace before k s m)
  unfolding emplace
  emplace-IsDistinct before k s [] ne h = (tt, tt)
  emplace-IsDistinct before k s ((j, t) ∷ m) ne h =
      elim (before k j)
        as (λ b. IsDistinct (if b then (k, s) ∷ (j, t) ∷ m else (j, t) ∷ emplace before k s m)) [
          | true ↦ (ne, h)
          | false ↦ (
            All-emplace before (λ f. f.1 ≢ t) k s m (λ e. ne.0 (sym e)) h.0,
            emplace-IsDistinct before k s m ne.1 h.1,
          )
        ]

  module _ {before : P → P → Bool} (c : IsComparator before) where
    open c use {asymm, neg_trans}

    after_all :
        (k j : P) (t : ℕ) (m : List (P × ℕ))
        → before j k ≡ false
        → All (λ f. before f.0 j ≡ false) m
        → All (λ f. before f.0 k ≡ false) ((j, t) ∷ m)
    after_all k j t m e h = (e, All-map (λ f p. neg_trans f.0 j k p e) m h)

    pub emplace-IsSorted :
        (k : P) (s : ℕ) (m : List (P × ℕ))
        → IsSorted before m
        → IsSorted before (emplace before k s m)
    unfolding emplace
    emplace-IsSorted k s [] h = (tt, tt)
    emplace-IsSorted k s ((j, t) ∷ m) h = elim (Bool-cases (before k j)) [
      | inl e ↦ rw e (after_all k j t m (asymm k j e) h.0, h)
      | inr e ↦
          rw e
            (All-emplace before (λ f. before f.0 j ≡ false) k s m e h.0, emplace-IsSorted k s m h.1)
    ]

    before_all :
        (k j : P) (m : List (P × ℕ))
        → before k j ≡ true
        → All (λ f. before f.0 j ≡ false) m
        → All (λ f. before k f.0 ≡ true) m
    before_all k j m e h = All-map (λ f p. earlier f.0 p (Bool-cases (before k f.0))) m h
      where
        earlier :
            (q : P)
            → before q j ≡ false
            → (before k q ≡ true) ⊎ (before k q ≡ false)
            → before k q ≡ true
        earlier q p (inl r) = r
        earlier q p (inr r) = cc (neg_trans k q j r p)

    -- Price-time priority. On a sorted side, a new order is put behind every order that its price
    -- does not come strictly before, those of the same price included, and in front of all others;
    -- the rest of the side keeps its order.
    pub emplace_priority :
        (k : P) (s : ℕ) (m : List (P × ℕ))
        → IsSorted before m
        → (xs : List (P × ℕ)) × (ys : List (P × ℕ)) × (m ≡ xs ++ ys)
          × (emplace before k s m ≡ xs ++ ((k, s) ∷ ys))
          × All (λ f. before k f.0 ≡ false) xs
          × All (λ f. before k f.0 ≡ true) ys
    unfolding emplace
    emplace_priority k s [] h = ([], [], refl, refl, tt, tt)
    emplace_priority k s ((j, t) ∷ m) h = elim (Bool-cases (before k j)) [
      | inl e ↦ ([], (j, t) ∷ m, refl, rw e, tt, (e, before_all k j m e h.0))
      | inr e ↦
          let (xs, ys, p, q, lo, hi) = emplace_priority k s m h.1 in
          ((j, t) ∷ xs, ys, ap (λ l. (j, t) ∷ l) p, rw e (ap (λ l. (j, t) ∷ l) q), (e, lo), hi)
    ]
