-- ===== src/Exchange/Pool/Laws.antt =====
-- The laws of the memory pool: its flags tell which slots are live, and allocation takes the first
-- free one. `deref` is all that the order book knows of a pool.
use advanced_cpp_p1g.Base.{
  ℕ, zero, suc, ◌<◌, ◌≡◌, ◌≢◌, refl, sym, ap, ◌∙◌, ◌⊎◌, inl, inr, Bool, true, false, Option, none,
  some, List, [], ◌∷◌, map, arith, ◌==◌, if◌then◌else◌, set, replicate, length, length-set,
}
use mathlib.Core.Option
use advanced_cpp_p1g.Exchange.Pool.{
  MemoryPool, init, first_free, place, allocate, deallocate, cell, deref, store,
}

abbrev pub is_live {ℓ} : {T : Type ℓ} → Option T → Bool
is_live none = false
is_live (some v) = true

map-replicate {ℓ} :
    (T : Type ℓ) (n : ℕ) → replicate n false ≡ map is_live (replicate {A = Option T} n none)
map-replicate T zero = refl
map-replicate T (suc n) = ap (λ us. false ∷ us) (map-replicate T n)

module _ {ℓ} {T : Type ℓ} where
  -- A slot is marked as in use exactly when it holds a live object.
  abbrev pub IsValid : MemoryPool T → Type 0
  IsValid p = p.in_use ≡ map is_live p.pool

  map-set :
      (ps : List (Option T)) (i : ℕ) (c : Option T)
      → set (map is_live ps) i (is_live c) ≡ map is_live (set ps i c)
  map-set [] i c = refl
  map-set (p ∷ ps) zero c = refl
  map-set (p ∷ ps) (suc i) c = ap (λ us. is_live p ∷ us) (map-set ps i c)

  cell-set-none :
      (ps : List (Option T)) (i j : ℕ)
      → cell (set ps i none) j ≡ (if i == j then none else cell ps j)
  unfolding cell
  cell-set-none [] i j = ground arith
  cell-set-none (p ∷ ps) zero zero = refl
  cell-set-none (p ∷ ps) zero (suc j) = ground arith
  cell-set-none (p ∷ ps) (suc i) zero = ground arith
  cell-set-none (p ∷ ps) (suc i) (suc j) = ground (arith, cell-set-none ps i j)

  cell-set-some :
      (ps : List (Option T)) (i j : ℕ) (v : T)
      → i < length ps
      → cell (set ps i (some v)) j ≡ (if i == j then some v else cell ps j)
  unfolding cell
  cell-set-some [] i j v h = absurd (omega arith)
  cell-set-some (p ∷ ps) zero zero v h = refl
  cell-set-some (p ∷ ps) zero (suc j) v h = ground arith
  cell-set-some (p ∷ ps) (suc i) zero v h = ground arith
  cell-set-some (p ∷ ps) (suc i) (suc j) v h = ground (arith, cell-set-some ps i j v)

  lt_of_cell : (ps : List (Option T)) (i : ℕ) {v : T} → cell ps i ≡ some v → i < length ps
  unfolding cell
  lt_of_cell [] i e = cc
  lt_of_cell (p ∷ ps) zero e = omega arith
  lt_of_cell (p ∷ ps) (suc i) e = omega (arith, lt_of_cell ps i e)

  -- Slot `i` is free and all slots before it are live.
  pub record IsFirstFree (p : MemoryPool T) (i : ℕ) : Type ℓ where
    pub within : i < length p.pool
    pub free : deref p i ≡ none
    pub before : (j : ℕ) → j < i → deref p j ≢ none

  abbrev FreeAt : List (Option T) → ℕ → Type ℓ
  FreeAt ps i = (i < length ps) × (cell ps i ≡ none) × ((j : ℕ) → j < i → cell ps j ≢ none)

  first_free-cases :
      (ps : List (Option T))
      → ((first_free ps (map is_live ps) ≡ none) × ((j : ℕ) → j < length ps → cell ps j ≢ none))
        ⊎ ((i : ℕ) × (first_free ps (map is_live ps) ≡ some i) × FreeAt ps i)
  unfolding first_free cell
  first_free-cases [] = inl (refl, λ j h. absurd (omega arith))
  first_free-cases (none ∷ ps) = inr (0, refl, (omega arith, refl, λ j h. absurd (omega arith)))
  first_free-cases (some v ∷ ps) = elim (first_free-cases ps) [
    | inl (e, full) ↦ inl (
      ap (Option.map suc) e,
      λ j. elim j as (λ j. j < suc (length ps) → cell (some v ∷ ps) j ≢ none) [
        | zero ↦ λ h. cc
        | suc j ↦ λ h. full j (omega arith)
      ],
    )
    | inr (i, e, (lt, free, before)) ↦ inr (
      suc i,
      ap (Option.map suc) e,
      (
        omega arith,
        free,
        λ j. elim j as (λ j. j < suc i → cell (some v ∷ ps) j ≢ none) [
          | zero ↦ λ h. cc
          | suc j ↦ λ h. before j (omega arith)
        ],
      ),
    )
  ]

  -- What a call of `allocate` does.
  pub data Allocates (p : MemoryPool T) (v : T) : Option ℕ × MemoryPool T → Type ℓ where
    exhausted : ((j : ℕ) → j < length p.pool → deref p j ≢ none) → Allocates p v (none, p)
    placed :
        (i : ℕ) (q : MemoryPool T)
        → IsFirstFree p i
        → IsValid q
        → (length q.pool ≡ length p.pool)
        → ((j : ℕ) → deref q j ≡ (if i == j then some v else deref p j))
        → Allocates p v (some i, q)

  -- On a valid pool `allocate` returns null and changes nothing exactly when every slot is live;
  -- otherwise it puts the object into the first free slot, changes no other slot, and leaves a
  -- valid pool of the same size.
  pub allocate-Allocates : (p : MemoryPool T) (v : T) → IsValid p → Allocates p v (allocate p v)
  unfolding allocate deref
  allocate-Allocates p v valid = elim (first_free-cases p.pool) [
    | inl (e, full) ↦ rw (ap (first_free p.pool) valid ∙ e, place) (exhausted full)
    | inr (i, e, (lt, free, before)) ↦
        rw (ap (first_free p.pool) valid ∙ e, place)
          (placed i _ (record { within = lt; free = free; before = before })
            (ap (λ us. set us i true) valid ∙ map-set p.pool i (some v))
            (length-set p.pool i (some v)) (λ j. cell-set-some p.pool i j v lt))
  ]

  -- `deallocate` frees the slot that the pointer names and no other, and keeps the pool valid.
  pub deallocate-IsValid : (p : MemoryPool T) (i : ℕ) → IsValid p → IsValid (deallocate p (some i))
  unfolding deallocate
  deallocate-IsValid p i valid = rw valid (map-set p.pool i none)

  pub deref-deallocate :
      (p : MemoryPool T) (i j : ℕ)
      → deref (deallocate p (some i)) j ≡ (if i == j then none else deref p j)
  unfolding deallocate deref
  deref-deallocate p i j = cell-set-none p.pool i j

  pub deref-store :
      (p : MemoryPool T) (i j : ℕ) (v w : T)
      → deref p i ≡ some w
      → deref (store p i v) j ≡ (if i == j then some v else deref p j)
  unfolding store deref
  deref-store p i j v w e = cell-set-some p.pool i j v (lt_of_cell p.pool i e)

  live-set :
      (ps : List (Option T)) (i : ℕ) (v : T) {w : T}
      → cell ps i ≡ some w
      → map is_live (set ps i (some v)) ≡ map is_live ps
  unfolding cell
  live-set [] i v e = refl
  live-set (none ∷ ps) zero v e = cc
  live-set (some w ∷ ps) zero v e = refl
  live-set (p ∷ ps) (suc i) v e = ap (λ us. is_live p ∷ us) (live-set ps i v e)

  pub store-IsValid :
      (p : MemoryPool T) (i : ℕ) (v w : T) → IsValid p → deref p i ≡ some w → IsValid (store p i v)
  unfolding store deref
  store-IsValid p i v w valid e = valid ∙ sym (live-set p.pool i v e)

-- A new pool is valid: all its slots are free.
pub init-IsValid {ℓ} : (T : Type ℓ) (n : ℕ) → IsValid (init {T = T} n)
unfolding init
init-IsValid T n = map-replicate T n

-- In a new pool no pointer leads to an object.
pub deref-init {ℓ} : (T : Type ℓ) (n j : ℕ) → deref (init {T = T} n) j ≡ none
unfolding init deref cell
deref-init T zero j = refl
deref-init T (suc n) zero = refl
deref-init T (suc n) (suc j) = deref-init T n j
