-- ===== src/Exchange/Levels/Slots.antt =====
-- Which slots stand on a side of the book.
use advanced_cpp_p1g.Base.{ℕ, ◌≡◌, ◌≢◌, refl, Bool, false, List, [], ◌∷◌, ◌||◌, ◌==◌, arith}
use advanced_cpp_p1g.Exchange.Levels.{emplace, erase_node}

module _ {ℓ} {P : Type ℓ} where
  -- A node of the side leads to the slot.
  unfoldable pub has_slot : ℕ → List (P × ℕ) → Bool
  has_slot s [] = false
  has_slot s ((k, t) ∷ m) = (t == s) || has_slot s m

  -- After `emplace` the new slot stands on the side, and so does every slot that stood there.
  pub has_slot-emplace :
      (before : P → P → Bool) (k : P) (s t : ℕ) (m : List (P × ℕ))
      → has_slot t (emplace before k s m) ≡ ((s == t) || has_slot t m)
  unfolding has_slot emplace
  has_slot-emplace before k s t [] = refl
  has_slot-emplace before k s t ((j, u) ∷ m) = ground (arith, has_slot-emplace before k s t m)

  pub has_slot-erase_node :
      (s t : ℕ) (m : List (P × ℕ)) → t ≢ s → has_slot t (erase_node s m) ≡ has_slot t m
  unfolding has_slot erase_node
  has_slot-erase_node s t [] ne = refl
  has_slot-erase_node s t ((j, u) ∷ m) ne = ground (arith, has_slot-erase_node s t m ne)
