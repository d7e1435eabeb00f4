-- ===== src/BenchmarkResults/Bounds.antt =====
-- The smallest and the largest duration of a report.
use advanced_cpp_p1g.Base.{
  suc, ◌≡◌, refl, sym, subst, ◌⊎◌, inl, inr, Bool, true, false, some, List, [], ◌∷◌, length,
  Bool-cases, All,
}
use advanced_cpp_p1g.BenchmarkResults.{
  Arithmetic, Statistics, smallest_from, largest_from, statistics,
}

-- The comparison as std::minmax_element wants it: a strict weak order, which `<` is on doubles that
-- are numbers.
pub record IsOrder {ℓ} {D : Type ℓ} (lt : D → D → Bool) : Type ℓ where
  pub irreflexive : (x : D) → lt x x ≡ false
  pub asymmetric : (x y : D) → lt x y ≡ true → lt y x ≡ false
  pub transitive : (x y z : D) → lt x y ≡ false → lt y z ≡ false → lt x z ≡ false

-- It is the first value or one of the others.
abbrev pub IsOneOf {ℓ} : {D : Type ℓ} → D → D → List D → Type ℓ
IsOneOf x d [] = x ≡ d
IsOneOf x d (e ∷ es) = (x ≡ d) ⊎ IsOneOf x e es

one_more {ℓ} : {D : Type ℓ} (s x d : D) (ds : List D) → IsOneOf s x ds → IsOneOf s x (d ∷ ds)
one_more s x d [] h = inl h
one_more s x d (e ∷ es) (inl h) = inl h
one_more s x d (e ∷ es) (inr h) = inr (inr h)

module _ {ℓ} {D : Type ℓ} ⦃a : Arithmetic D⦄ where
  -- No value is below it, and it is one of them.
  abbrev IsLeast : D → D → List D → Type ℓ
  IsLeast s x ds = (a.lt x s ≡ false) × All (λ y. a.lt y s ≡ false) ds × IsOneOf s x ds

  abbrev IsGreatest : D → D → List D → Type ℓ
  IsGreatest s x ds = (a.lt s x ≡ false) × All (λ y. a.lt s y ≡ false) ds × IsOneOf s x ds

module _ {ℓ} {D : Type ℓ} ⦃a : Arithmetic D⦄ (order : IsOrder a.lt) where
  smallest_from-IsLeast : (x : D) (ds : List D) → IsLeast (smallest_from x ds) x ds
  unfolding smallest_from
  smallest_from-IsLeast x [] = (order.irreflexive x, tt, refl)
  smallest_from-IsLeast x (d ∷ ds) = elim (Bool-cases (a.lt d x)) [
    | inl e ↦
        let (below, all, one) = smallest_from-IsLeast d ds in
        let same : smallest_from x (d ∷ ds) ≡ smallest_from d ds = rw (smallest_from, e) refl in
        subst (λ s. IsLeast s x (d ∷ ds)) (sym same)
          (
            order.transitive x d (smallest_from d ds) (order.asymmetric d x e) below,
            (below, all),
            inr one,
          )
    | inr e ↦
        let (below, all, one) = smallest_from-IsLeast x ds in
        let same : smallest_from x (d ∷ ds) ≡ smallest_from x ds = rw (smallest_from, e) refl in
        subst (λ s. IsLeast s x (d ∷ ds)) (sym same)
          (
            below,
            (order.transitive d x (smallest_from x ds) e below, all),
            one_more (smallest_from x ds) x d ds one,
          )
  ]

  largest_from-IsGreatest : (x : D) (ds : List D) → IsGreatest (largest_from x ds) x ds
  unfolding largest_from
  largest_from-IsGreatest x [] = (order.irreflexive x, tt, refl)
  largest_from-IsGreatest x (d ∷ ds) = elim (Bool-cases (a.lt d x)) [
    | inl e ↦
        let (above, all, one) = largest_from-IsGreatest x ds in
        let same : largest_from x (d ∷ ds) ≡ largest_from x ds = rw (largest_from, e) refl in
        subst (λ s. IsGreatest s x (d ∷ ds)) (sym same)
          (
            above,
            (order.transitive (largest_from x ds) x d above (order.asymmetric d x e), all),
            one_more (largest_from x ds) x d ds one,
          )
    | inr e ↦
        let (above, all, one) = largest_from-IsGreatest d ds in
        let same : largest_from x (d ∷ ds) ≡ largest_from d ds = rw (largest_from, e) refl in
        subst (λ s. IsGreatest s x (d ∷ ds)) (sym same)
          (order.transitive (largest_from d ds) d x above e, (above, all), inr one)
  ]

  -- The statistics of any durations but none: as many runs as durations, a smallest one that no
  -- duration is below, and a largest one that is below no duration; both are among the durations.
  pub statistics-bounds :
      (d : D) (ds : List D)
      → (s : Statistics D) × (statistics (d ∷ ds) ≡ some s)
        × (s.runs ≡ suc (length ds))
        × All (λ y. a.lt y s.smallest ≡ false) (d ∷ ds)
        × All (λ y. a.lt s.largest y ≡ false) (d ∷ ds)
        × IsOneOf s.smallest d ds
        × IsOneOf s.largest d ds
  unfolding statistics
  statistics-bounds d ds =
      let (below, below_all, low) = smallest_from-IsLeast d ds in
      let (above, above_all, high) = largest_from-IsGreatest d ds in
      (_, refl, refl, (below, below_all), (above, above_all), low, high)
