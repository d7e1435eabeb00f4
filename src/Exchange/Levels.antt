-- ===== src/Exchange/Levels.antt =====
-- One side of the book, a std::multimap from prices to orders, as the list of its nodes in
-- iteration order. A node is its key and the pool slot of its order; each order stands in one
-- node, so an iterator is known by that slot. `before` is the map's comparator.
pub mod Order
pub mod Slots
use advanced_cpp_p1g.Base.{ℕ, Bool, List, [], ◌∷◌, ◌==◌, if◌then◌else◌}

module _ {ℓ} {P : Type ℓ} where
  -- emplace(key, value): behind the nodes that do not come after the key
  unfoldable pub emplace : (P → P → Bool) → P → ℕ → List (P × ℕ) → List (P × ℕ)
  emplace before k s [] = (k, s) ∷ []
  emplace before k s ((j, t) ∷ m) =
      let rest = emplace before k s m in if before k j then (k, s) ∷ (j, t) ∷ m else (j, t) ∷ rest

  -- erase(iterator)
  unfoldable pub erase_node : ℕ → List (P × ℕ) → List (P × ℕ)
  erase_node s [] = []
  erase_node s ((j, t) ∷ m) = let rest = erase_node s m in if t == s then m else (j, t) ∷ rest
