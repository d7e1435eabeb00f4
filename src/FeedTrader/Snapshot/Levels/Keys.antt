-- ===== src/FeedTrader/Snapshot/Levels/Keys.antt =====
-- The keys of a side in the order of its map, and what is found at a key.
use advanced_cpp_p1g.Base.{
  ◌≡◌, refl, inl, inr, Bool, true, false, Option, none, some, List, [], ◌∷◌, if◌then◌else◌, arith,
  All, All-map, Bool-cases,
}
use advanced_cpp_p1g.Price.{IsComparator}
use advanced_cpp_p1g.FeedTrader.Snapshot.{same_key, put, drop_key}

module _ {ℓ} {P V : Type ℓ} (before : P → P → Bool) where
  -- The keys come strictly one after the other.
  abbrev pub IsAscending : List (P × V) → Type 0
  IsAscending [] = Unit {0}
  IsAscending (e ∷ m) = All (λ f. before e.0 f.0 ≡ true) m × IsAscending m

  abbrev pub value_at : P → List (P × V) → Option V
  value_at q [] = none
  value_at q ((j, w) ∷ m) = if same_key before q j then some w else value_at q m

module _ {ℓ} {P : Type ℓ} {before : P → P → Bool} (c : IsComparator before) where
  open c use {asymm, neg_trans}

  -- A key that comes before one comes before all that are the same or come later.
  before_trans : (i j k : P) → before i j ≡ true → before j k ≡ true → before i k ≡ true
  before_trans i j k h g = elim (Bool-cases (before i k)) [
    | inl e ↦ e
    | inr e ↦ cc (neg_trans i k j e (asymm j k g))
  ]

  apart : (q j k : P) → before j k ≡ true → same_key before q j ≡ true → same_key before q k ≡ false
  apart q j k h g = ground (arith, neg_trans j q k)

  same_trans : (q j k : P) → same_key before k j ≡ true → same_key before q j ≡ same_key before q k
  same_trans q j k h =
      ground (arith, neg_trans q j k, neg_trans k j q, neg_trans q k j, neg_trans j k q)

  same_link :
      (q j k : P)
      → same_key before q j ≡ true
      → same_key before q k ≡ true
      → same_key before k j ≡ true
  same_link q j k h g = ground (arith, neg_trans k q j, neg_trans j q k)

  pub not_before_self : (k : P) → before k k ≡ false
  not_before_self k = ground (arith, asymm k k)

  pub same_refl : (k : P) → same_key before k k ≡ true
  same_refl k = ground (arith, asymm k k)

module _ {ℓ} {P V : Type ℓ} {before : P → P → Bool} (c : IsComparator before) where
  pub All-put {κ} :
      (Q : P × V → Type κ) (k : P) (v : V) (m : List (P × V))
      → Q (k, v)
      → ((j : P) (w : V) → same_key before k j ≡ true → Q (j, w) → Q (j, v))
      → All Q m
      → All Q (put before k v m)
  unfolding put
  All-put Q k v [] h g a = (h, tt)
  All-put Q k v ((j, w) ∷ m) h g a = elim (Bool-cases (before k j)) [
    | inl e ↦ rw e (h, a)
    | inr e ↦ elim (Bool-cases (before j k)) [
      | inl d ↦ rw (e, d) (a.0, All-put Q k v m h g a.1)
      | inr d ↦ rw (e, d) (g j w (rw (e, d)) a.0, a.1)
    ]
  ]

  pub All-drop_key {κ} :
      (Q : P × V → Type κ) (k : P) (m : List (P × V)) → All Q m → All Q (drop_key before k m)
  unfolding drop_key
  All-drop_key Q k [] a = tt
  All-drop_key Q k ((j, w) ∷ m) a = elim (Bool-cases (same_key before k j)) [
    | inl e ↦ rw e a.1
    | inr e ↦ rw e (a.0, All-drop_key Q k m a.1)
  ]

  pub put-IsAscending :
      (k : P) (v : V) (m : List (P × V))
      → IsAscending before m
      → IsAscending before (put before k v m)
  unfolding put
  put-IsAscending k v [] h = (tt, tt)
  put-IsAscending k v ((j, w) ∷ m) h = elim (Bool-cases (before k j)) [
    | inl e ↦ rw e ((e, All-map (λ f. before_trans c k j f.0 e) m h.0), h)
    | inr e ↦ elim (Bool-cases (before j k)) [
      | inl g ↦
          rw (e, g)
            (
              All-put (λ f. before j f.0 ≡ true) k v m g (λ i w d q. q) h.0,
              put-IsAscending k v m h.1,
            )
      | inr g ↦ rw (e, g) h
    ]
  ]

  pub value_at-put :
      (q k : P) (v : V) (m : List (P × V))
      → value_at before q (put before k v m)
        ≡ (if same_key before q k then some v else value_at before q m)
  unfolding put
  value_at-put q k v [] = refl
  value_at-put q k v ((j, w) ∷ m) = elim (Bool-cases (before k j)) [
    | inl e ↦ rw e
    | inr e ↦ elim (Bool-cases (before j k)) [
      | inl g ↦ rw (e, g) (ground (arith, value_at-put q k v m, apart c q j k g))
      | inr g ↦ rw (e, g) (ground (arith, same_trans c q j k))
    ]
  ]

  pub drop_key-IsAscending :
      (k : P) (m : List (P × V)) → IsAscending before m → IsAscending before (drop_key before k m)
  unfolding drop_key
  drop_key-IsAscending k [] h = h
  drop_key-IsAscending k ((j, w) ∷ m) h = elim (Bool-cases (same_key before k j)) [
    | inl e ↦ rw e h.1
    | inr e ↦ rw e (All-drop_key (λ f. before j f.0 ≡ true) k m h.0, drop_key-IsAscending k m h.1)
  ]

  -- No later key is the same as a key that stands before all of them.
  value_at_past :
      (q j : P) (m : List (P × V))
      → same_key before q j ≡ true
      → All (λ f. before j f.0 ≡ true) m
      → value_at before q m ≡ none
  value_at_past q j [] e h = refl
  value_at_past q j ((i, w) ∷ m) e h = rw (apart c q j i h.0 e) (value_at_past q j m e h.1)

  pub value_at-drop_key :
      (q k : P) (m : List (P × V))
      → IsAscending before m
      → value_at before q (drop_key before k m)
        ≡ (if same_key before q k then none else value_at before q m)
  unfolding drop_key
  value_at-drop_key q k [] h = ground arith
  value_at-drop_key q k ((j, w) ∷ m) h = elim (Bool-cases (same_key before k j)) [
    | inl e ↦ rw e (ground (arith, same_trans c q j k e, value_at_past q j m))
    | inr e ↦ rw e (ground (arith, same_link c q j k, value_at-drop_key q k m h.1))
  ]
