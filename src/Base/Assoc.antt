-- ===== src/Base/Assoc.antt =====
-- Hash maps (std::unordered_map) as association lists with one entry for a key.
-- The laws have an `if` for each other key, so they hold with no side condition.
use Prim.Native.Nat.{ℕ}
use Prim.Native.String.{String}
use text.Mathlib.Text.{◌==◌ as str_eq}
use text.Mathlib.TextEquality.{eq_iff}
use mathlib.Core.Path.{◌≡◌, refl, ap, subst}
use mathlib.Core.Logic.{◌↔◌, ◌≢◌, inl, inr}
use mathlib.Core.Bool.{Bool, true}
use mathlib.Core.Option.{Option, none, some}
use mathlib.Core.List.{List, [], ◌∷◌, ◌++◌}
use native.Mathlib.Omega.{arith}
use advanced_cpp_p1g.Base.Preds.{All}
use advanced_cpp_p1g.Base.Tests.{◌==◌, ==_iff, if◌then◌else◌, Bool-cases}

-- operator== of a key type
pub record Eq {ℓ} (A : Type ℓ) : Type ℓ where
  pub beq : A → A → Bool
  pub beq_iff : (a b : A) → (beq a b ≡ true) ↔ (a ≡ b)

instance abbrev pub nat_eq : Eq ℕ
nat_eq = record { beq = ◌==◌; beq_iff = ==_iff }

instance abbrev pub string_eq : Eq String
string_eq = record { beq = str_eq; beq_iff = eq_iff }

module _ {ℓ κ} {K : Type ℓ} {V : Type κ} ⦃e : Eq K⦄ where
  open e use {beq, beq_iff}

  -- m.find(k), the value that the iterator leads to
  unfoldable pub find : K → List (K × V) → Option V
  find k [] = none
  find k ((j, v) ∷ m) = if beq j k then some v else find k m

  -- m[k] = v
  unfoldable pub assign : K → V → List (K × V) → List (K × V)
  assign k v [] = (k, v) ∷ []
  assign k v ((j, w) ∷ m) = if beq j k then (k, v) ∷ m else (j, w) ∷ assign k v m

  -- m.erase(k)
  unfoldable pub erase : K → List (K × V) → List (K × V)
  erase k [] = []
  erase k ((j, w) ∷ m) = let rest = erase k m in if beq j k then rest else (j, w) ∷ rest

  pub find-assign :
      (k j : K) (v : V) (m : List (K × V))
      → find j (assign k v m) ≡ (if beq k j then some v else find j m)
  unfolding find assign
  find-assign k j v [] = refl
  find-assign k j v ((i, w) ∷ m) =
      ground (arith, beq_iff k j, beq_iff i k, beq_iff i j, find-assign k j v m)

  pub find-erase :
      (k j : K) (m : List (K × V)) → find j (erase k m) ≡ (if beq k j then none else find j m)
  unfolding find erase
  find-erase k j [] = ground arith
  find-erase k j ((i, w) ∷ m) =
      ground (arith, beq_iff k j, beq_iff i k, beq_iff i j, find-erase k j m)

  -- What holds of all keys holds of a key that is found.
  pub find-All {ν} :
      (P : K → Type ν) (k : K) (m : List (K × V)) (v : V)
      → All (λ e. P e.0) m
      → find k m ≡ some v
      → P k
  unfolding find
  find-All P k [] v h f = cc
  find-All P k ((j, w) ∷ m) v h f = elim (Bool-cases (beq j k)) [
    | inl g ↦ subst P ((beq_iff j k).0 g) h.0
    | inr g ↦ find-All P k m v h.1 (ground (arith, g, f))
  ]

  -- All keys have what the keys of a map and the key that is assigned have.
  pub assign-All {ν} :
      (P : K → Type ν) (k : K) (v : V) (m : List (K × V))
      → P k
      → All (λ e. P e.0) m
      → All (λ e. P e.0) (assign k v m)
  unfolding assign
  assign-All P k v [] p h = (p, tt)
  assign-All P k v ((j, w) ∷ m) p h = elim (Bool-cases (beq j k)) [
    | inl g ↦ rw g (p, h.1)
    | inr g ↦ rw g (h.0, assign-All P k v m p h.1)
  ]

  -- The first entry of a key that is found.
  pub find-split :
      (k : K) (m : List (K × V)) (v : V)
      → find k m ≡ some v
      → (xs : List (K × V)) × (ys : List (K × V)) × (m ≡ xs ++ ((k, v) ∷ ys))
        × All (λ e. e.0 ≢ k) xs
  unfolding find
  find-split k [] v f = cc
  find-split k ((j, w) ∷ m) v f = elim (Bool-cases (beq j k)) [
    | inl g ↦ ([], m, first g, tt)
    | inr g ↦
        let (xs, ys, e, h) = find-split k m v (ground (arith, g, f)) in
        ((j, w) ∷ xs, ys, ap (λ t. (j, w) ∷ t) e, ((λ p. ground (arith, (beq_iff j k).1 p, g)), h))
  ]
    where
      first : beq j k ≡ true → (j, w) ∷ m ≡ (k, v) ∷ m
      first g = ground (arith, g, f, (beq_iff j k).0 g)
