-- ===== src/TradeProcessing/Volumes.antt =====
-- The volumes in the order book are the sums over the orders that were processed.
use Prim.Native.String.{String}
use text.Mathlib.Text.{◌==◌ as str_eq}
use advanced_cpp_p1g.Base.{
  ◌+◌, ◌≡◌, sym, ap, ap₂, ◌∙◌, inl, inr, Bool, true, false, List, [], ◌∷◌, ◌++◌, if◌then◌else◌,
  find, string_eq, find-assign, length, append-nil, append_assoc, arith, Bool-cases,
}
use advanced_cpp_p1g.Base.Int.{ℤ, pos, ◌+ℤ◌, +ℤ_parts, eq_of_parts}
use advanced_cpp_p1g.TradeProcessing.{Order, Shared, or_zero, add_volume, process, process_in_turn}

+ℤ_assoc : (a b c : ℤ) → (a +ℤ b) +ℤ c ≡ a +ℤ (b +ℤ c)
+ℤ_assoc a b c =
    eq_of_parts _ _
      (omega (arith, +ℤ_parts a b, +ℤ_parts (a +ℤ b) c, +ℤ_parts b c, +ℤ_parts a (b +ℤ c)))

+ℤ_zero : (a : ℤ) → a +ℤ pos 0 ≡ a
+ℤ_zero a = eq_of_parts _ _ (omega (arith, +ℤ_parts a (pos 0)))

module _ {ℓ} {D : Type ℓ} where
  abbrev pub volume : Shared D → String → ℤ × ℤ
  volume s symbol = or_zero (find symbol s.order_book)

  -- What one order adds to the bought or sold volume of a symbol.
  abbrev pub share : Bool → String → Order D → ℤ
  share true symbol o =
      if str_eq o.symbol symbol then (if o.is_buy then o.quantity else pos 0) else pos 0
  share false symbol o =
      if str_eq o.symbol symbol then (if o.is_buy then pos 0 else o.quantity) else pos 0

  -- The quantities of the buy orders, or of the sell orders, for a symbol.
  abbrev pub total : Bool → String → List (Order D) → ℤ
  total side symbol [] = pos 0
  total side symbol (o ∷ os) = share side symbol o +ℤ total side symbol os

  process-volume :
      (s : Shared D) (o : Order D) (symbol : String)
      → volume (process s o) symbol
        ≡ ((volume s symbol).0 +ℤ share true symbol o, (volume s symbol).1 +ℤ share false symbol o)
  unfolding process
  process-volume s o symbol =
      let updated = add_volume o (or_zero (find o.symbol s.order_book)) in
      ap or_zero (find-assign o.symbol symbol updated s.order_book)
      ∙ (elim (Bool-cases (str_eq o.symbol symbol)) [
        | inl e ↦
            let same : o.symbol ≡ symbol = (string_eq.beq_iff o.symbol symbol).0 e in
            rw e (
              ap (λ x. add_volume o (volume s x)) same ∙ (elim (Bool-cases o.is_buy) [
                | inl b ↦ rw b (ap (λ y. ((volume s symbol).0 +ℤ o.quantity, y)) (sym (+ℤ_zero _)))
                | inr b ↦ rw b (ap (λ x. (x, (volume s symbol).1 +ℤ o.quantity)) (sym (+ℤ_zero _)))
              ]))
        | inr e ↦ rw e (ap₂ (λ x y. (x, y)) (sym (+ℤ_zero _)) (sym (+ℤ_zero _)))
      ])

  -- Whatever the sequence in which orders are processed: the volumes of each symbol grow by the
  -- quantities of its buy orders and of its sell orders, the completed orders are those of before
  -- and then these, and the counter grows by their number.
  pub process_in_turn_lem :
      (s : Shared D) (os : List (Order D))
      → let r = process_in_turn s os in
        ((symbol : String)
          → volume r symbol ≡ (
            (volume s symbol).0 +ℤ total true symbol os,
            (volume s symbol).1 +ℤ total false symbol os,
          ))
        × (r.completed_orders ≡ s.completed_orders ++ os)
        × (r.orders_processed ≡ s.orders_processed + length os)
  unfolding process_in_turn process
  process_in_turn_lem s [] = (
    (λ symbol. ap₂ (λ x y. (x, y)) (sym (+ℤ_zero _)) (sym (+ℤ_zero _))),
    sym (append-nil s.completed_orders),
    omega arith,
  )
  process_in_turn_lem s (o ∷ os) =
      let rest = process_in_turn_lem (process s o) os in
      (
        (λ symbol.
            rest.0 symbol
            ∙ (ap (λ v. (v.0 +ℤ total true symbol os, v.1 +ℤ total false symbol os))
                  (process-volume s o symbol)
                ∙ ap₂ (λ x y. (x, y)) (+ℤ_assoc _ _ _) (+ℤ_assoc _ _ _))),
        rest.1 ∙ append_assoc s.completed_orders (o ∷ []) os,
        omega (arith, rest.2),
      )
