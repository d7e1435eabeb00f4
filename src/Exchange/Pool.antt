-- ===== src/Exchange/Pool.antt =====
-- Phase_4/include/MemoryPool.h. A pointer into the pool is the index of its slot; a null pointer
-- is `none`. A slot holds raw bytes (`none`) or a live object.
pub mod Laws
use advanced_cpp_p1g.Base.{
  ℕ, zero, suc, Bool, true, false, Option, none, some, List, [], ◌∷◌, if◌then◌else◌, set, replicate,
}
use mathlib.Core.Option

pub record MemoryPool {ℓ} (T : Type ℓ) : Type ℓ where
  pub pool : List (Option T)
  pub in_use : List Bool

module _ {ℓ} {T : Type ℓ} where
  unfoldable pub init : ℕ → MemoryPool T
  init size = record { pool = replicate size none; in_use = replicate size false }

  -- The loop of `allocate` over the slots: the first that is not in use. (A read of `in_use` past
  -- its end, where the lists differ in length, finds nothing.)
  unfoldable pub first_free : List (Option T) → List Bool → Option ℕ
  first_free [] us = none
  first_free (p ∷ ps) [] = none
  first_free (p ∷ ps) (u ∷ us) = if u then Option.map suc (first_free ps us) else some 0

  unfoldable pub place : MemoryPool T → T → Option ℕ → Option ℕ × MemoryPool T
  place p v none = (none, p)
  place p v (some i) =
      (some i, record { pool = set p.pool i (some v); in_use = set p.in_use i true })

  unfoldable pub allocate : MemoryPool T → T → Option ℕ × MemoryPool T
  unfolding place first_free
  allocate p v = place p v (first_free p.pool p.in_use)

  pub deallocate : MemoryPool T → Option ℕ → MemoryPool T
  deallocate p none = p
  deallocate p (some i) = record { pool = set p.pool i none; in_use = set p.in_use i false }

  -- Reads and writes through a pointer; a read of a slot with no live object is undefined.
  unfoldable pub cell : List (Option T) → ℕ → Option T
  cell [] i = none
  cell (c ∷ cs) zero = c
  cell (c ∷ cs) (suc i) = cell cs i

  unfoldable pub deref : MemoryPool T → ℕ → Option T
  unfolding cell
  deref p i = cell p.pool i

  unfoldable pub store : MemoryPool T → ℕ → T → MemoryPool T
  store p i v = record p { pool = set p.pool i (some v) }
