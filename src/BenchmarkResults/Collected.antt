-- ===== src/BenchmarkResults/Collected.antt =====
-- The report names exactly what was added.
use advanced_cpp_p1g.Base.{
  ◌≡◌, refl, sym, ap, ◌∙◌, inl, inr, Option, none, some, List, [], ◌∷◌, ◌++◌, append_assoc,
  append-nil, find, find-assign, if◌then◌else◌, Bool-cases,
}
use advanced_cpp_p1g.Base.Text.{Bytes, same_bytes, same_bytes_iff, bytes_eq}
use advanced_cpp_p1g.BenchmarkResults.{
  Arithmetic, Statistics, durations_or_new, add_result, add_results, statistics, print_results,
}

module _ {ℓ} {D : Type ℓ} where
  -- The durations that were added under a name, in order.
  abbrev pub durations_of : Bytes → List (Bytes × D) → List D
  durations_of name [] = []
  durations_of name ((n, d) ∷ rs) =
      let rest = durations_of name rs in if same_bytes n name then d ∷ rest else rest

  -- What a map holds under a name that has these durations.
  abbrev pub held : List D → Option (List D)
  held [] = none
  held (d ∷ ds) = some (d ∷ ds)

  held_more :
      (x : Option (List D)) (d : D)
      → some (durations_or_new x ++ (d ∷ [])) ≡ held (durations_or_new x ++ (d ∷ []))
  held_more none d = refl
  held_more (some []) d = refl
  held_more (some (e ∷ es)) d = refl

  find-add_result :
      (results : List (Bytes × List D)) (n name : Bytes) (d : D)
      → find name (add_result results n d) ≡ (
          if same_bytes n name
          then some (durations_or_new (find n results) ++ (d ∷ []))
          else find name results)
  unfolding add_result
  find-add_result results n name d =
      find-assign n name (durations_or_new (find n results) ++ (d ∷ [])) results

  -- No name has an empty list.
  abbrev IsHeld : List (Bytes × List D) → Bytes → Type ℓ
  IsHeld results name = find name results ≡ held (durations_or_new (find name results))

  add_result-IsHeld :
      (results : List (Bytes × List D)) (n name : Bytes) (d : D)
      → IsHeld results name
      → IsHeld (add_result results n d) name
  add_result-IsHeld results n name d h = elim (Bool-cases (same_bytes n name)) [
    | inl e ↦
        let f = find-add_result results n name d ∙ rw e refl in
        f ∙ held_more (find n results) d ∙ ap (λ x. held (durations_or_new x)) (sym f)
    | inr e ↦
        let f = find-add_result results n name d ∙ rw e refl in
        f ∙ h ∙ ap (λ x. held (durations_or_new x)) (sym f)
  ]

  find-add_results :
      (results : List (Bytes × List D)) (rs : List (Bytes × D)) (name : Bytes)
      → IsHeld results name
      → find name (add_results results rs)
        ≡ held (durations_or_new (find name results) ++ durations_of name rs)
  unfolding add_results
  find-add_results results [] name h =
      h ∙ ap held (sym (append-nil (durations_or_new (find name results))))
  find-add_results results ((n, d) ∷ rs) name h =
      find-add_results (add_result results n d) rs name (add_result-IsHeld results n name d h)
      ∙ elim (Bool-cases (same_bytes n name)) [
        | inl e ↦
            rw (find-add_result results n name d, e, (same_bytes_iff n name).0 e)
              (ap held (
                append_assoc (durations_or_new (find name results)) (d ∷ [])
                  (durations_of name rs)))
        | inr e ↦ rw (find-add_result results n name d, e) refl
      ]

module _ {ℓ} {D : Type ℓ} ⦃a : Arithmetic D⦄ where
  statistics_at : Option (List D) → Option (Option (Statistics D))
  statistics_at none = none
  statistics_at (some ds) = some (statistics ds)

  find-print_results :
      (results : List (Bytes × List D)) (name : Bytes)
      → find name (print_results results) ≡ statistics_at (find name results)
  unfolding print_results find statistics_at
  find-print_results [] name = refl
  find-print_results ((n, ds) ∷ results) name = elim (Bool-cases (same_bytes n name)) [
    | inl e ↦ rw e refl
    | inr e ↦ rw e (find-print_results results name)
  ]

  -- Whatever the results that are added, in any order of names: the report names exactly those that
  -- have a result, each with the statistics of all of its durations in the order in which they were
  -- added; so "No data" is never printed.
  pub print_results-add_results :
      (rs : List (Bytes × D)) (name : Bytes)
      → find name (print_results (add_results [] rs))
        ≡ (elim (durations_of name rs) [ [] ↦ none | d ∷ ds ↦ some (statistics (d ∷ ds)) ])
  unfolding statistics_at find
  print_results-add_results rs name =
      find-print_results (add_results [] rs) name
      ∙ ap statistics_at (find-add_results [] rs name refl)
      ∙ reported (durations_of name rs)
    where
      reported :
          (ds : List D)
          → statistics_at (held ds) ≡ (elim ds [ [] ↦ none | d ∷ es ↦ some (statistics (d ∷ es)) ])
      reported [] = refl
      reported (d ∷ es) = refl
