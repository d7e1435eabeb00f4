-- ===== src/TradeQueue/Window.antt =====
-- The items between two indices of the ring.
use advanced_cpp_p1g.Base.{
  ℕ, zero, suc, ◌+◌, ◌%◌, ◌<◌, ◌≡◌, ◌≢◌, refl, ap, ap₂, ◌∙◌, List, [], ◌∷◌, ◌++◌, ◌==◌,
  if◌then◌else◌, length, arith, Bool-cases, ==_iff, inl, inr, false,
}
use native.Mathlib.Nat.{mod-eq_of_lt, mod_self}
use advanced_cpp_p1g.TradeQueue.{write, next, distance}

module _ (capacity : ℕ) where
  pub next_lem : (i : ℕ) → i < capacity → next capacity i ≡ (if i + 1 == capacity then 0 else i + 1)
  unfolding next
  next_lem i h = elim (Bool-cases (i + 1 == capacity)) [
    | inl e ↦ rw e (ap (λ n. n % capacity) ((==_iff (i + 1) capacity).0 e) ∙ mod_self capacity)
    | inr e ↦ rw e (mod-eq_of_lt (ground arith))
  ]

  pub next-lt : (i : ℕ) → i < capacity → next capacity i < capacity
  next-lt i h = ground (arith, next_lem i h)

  pub next-ne : (h t : ℕ) → h < capacity → t < capacity → h ≢ t → next capacity t ≢ next capacity h
  next-ne h t hh ht ne e = ground (arith, next_lem h hh, next_lem t ht)

  -- A push that is not refused makes the distance one longer, a pop one shorter.
  pub distance-push :
      (h t : ℕ)
      → h < capacity
      → t < capacity
      → next capacity t ≢ h
      → distance capacity h (next capacity t) ≡ suc (distance capacity h t)
  unfolding distance
  distance-push h t hh ht ne = ground (arith, next_lem t ht)

  pub distance-pop :
      (h t : ℕ)
      → h < capacity
      → t < capacity
      → h ≢ t
      → distance capacity h t ≡ suc (distance capacity (next capacity h) t)
  unfolding distance
  distance-pop h t hh ht ne = ground (arith, next_lem h hh)

  pub distance-zero : (h t : ℕ) → h < capacity → t < capacity → distance capacity h t ≡ 0 → h ≡ t
  unfolding distance
  distance-zero h t hh ht e = ground arith

  pub distance_self : (h : ℕ) → distance capacity h h ≡ 0
  unfolding distance
  distance_self h = ground arith

  pub distance-lt : (h t : ℕ) → h < capacity → t < capacity → distance capacity h t < capacity
  unfolding distance
  distance-lt h t hh ht = ground arith

  elsewhere : (h t : ℕ) {n : ℕ} → distance capacity h t ≡ suc n → (t == h) ≡ false
  elsewhere h t e = ground (arith, distance_self h)

pub write_self {ℓ} : {T : Type ℓ} (f : ℕ → T) (i : ℕ) (item : T) → write f i item i ≡ item
write_self f i item = ap (λ b. if b then item else f i) ((==_iff i i).1 refl)

module _ {ℓ} (capacity : ℕ) {T : Type ℓ} where
  -- The `n` items from index `h` on.
  abbrev pub window : (ℕ → T) → ℕ → ℕ → List T
  window f h zero = []
  window f h (suc n) = f h ∷ window f (next capacity h) n

  pub length-window : (f : ℕ → T) (h n : ℕ) → length (window f h n) ≡ n
  length-window f h zero = refl
  length-window f h (suc n) = ap suc (length-window f (next capacity h) n)

  -- A write at the far end of a window is outside of it.
  pub window-write :
      (f : ℕ → T) (item : T) (n h t : ℕ)
      → h < capacity
      → t < capacity
      → distance capacity h t ≡ n
      → window (write f t item) h n ≡ window f h n
  window-write f item zero h t hh ht e = refl
  window-write f item (suc n) h t hh ht e =
      ap₂ ◌∷◌ (ap (λ b. if b then item else f h) (elsewhere capacity h t e)) (
        window-write f item n (next capacity h) t (next-lt capacity h hh) ht
          (ground (arith, distance-pop capacity h t hh ht, distance_self capacity h)))

  -- One item more is the item at the far end.
  pub window-suc :
      (f : ℕ → T) (n h t : ℕ)
      → h < capacity
      → t < capacity
      → distance capacity h t ≡ n
      → window f h (suc n) ≡ window f h n ++ (f t ∷ [])
  window-suc f zero h t hh ht e = ap (λ i. f i ∷ []) (distance-zero capacity h t hh ht e)
  window-suc f (suc n) h t hh ht e =
      ap (λ l. f h ∷ l)
        (window-suc f n (next capacity h) t (next-lt capacity h hh) ht
          (ground (arith, distance-pop capacity h t hh ht, distance_self capacity h)))

  -- Advancing the tail past an item that is in its place appends the item.
  pub window-advance_tail :
      (f : ℕ → T) (h t : ℕ)
      → h < capacity
      → t < capacity
      → next capacity t ≢ h
      → window f h (distance capacity h (next capacity t))
        ≡ window f h (distance capacity h t) ++ (f t ∷ [])
  window-advance_tail f h t hh ht ne =
      ap (window f h) (distance-push capacity h t hh ht ne)
      ∙ window-suc f (distance capacity h t) h t hh ht refl

  -- Advancing the head drops the item there.
  pub window-advance_head :
      (f : ℕ → T) (h t : ℕ)
      → h < capacity
      → t < capacity
      → h ≢ t
      → window f h (distance capacity h t)
        ≡ f h ∷ window f (next capacity h) (distance capacity (next capacity h) t)
  window-advance_head f h t hh ht ne = ap (window f h) (distance-pop capacity h t hh ht ne)
