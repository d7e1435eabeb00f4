-- ===== src/LevelBook/Consistent.antt =====
-- The two indexes of the book agree, as long as no id is added twice.
use advanced_cpp_p1g.Base.{
  Eq, ◌≡◌, ◌≢◌, refl, ap, ◌∙◌, inl, inr, Bool, true, false, Option, none, some, List, [],
  if◌then◌else◌, arith, find, assign, find-assign, find-erase, Bool-cases, Option-cases,
}
use mathlib.Core.Option
use advanced_cpp_p1g.Base.Int.{ℤ, pos}
use advanced_cpp_p1g.LevelBook.{
  Order, OrderBook, make, or_empty, level, take_out, add_order, modify_found, modify_order,
  delete_found, delete_order, is_held, test_add_order,
}

module _ {ℓ} {Key P : Type ℓ} ⦃i : Eq Key⦄ ⦃p : Eq P⦄ where
  -- The order of that id at that price level.
  abbrev pub in_level : OrderBook Key P → P → Key → Option (Order Key P)
  in_level b price id = find id (level b.order_levels price)

  -- An order seen from a price: it is there if that is its price.
  abbrev pub seen_at : P → Option (Order Key P) → Option (Order Key P)
  seen_at price none = none
  seen_at price (some o) = if p.beq o.price price then some o else none

  -- Each price level holds exactly the orders of the lookup that have that price.
  abbrev pub IsConsistent : OrderBook Key P → Type ℓ
  IsConsistent b =
      (price : P) (id : Key) → in_level b price id ≡ seen_at price (find id b.order_lookup)

  find-level-assign :
      (l : List (Key × Order Key P)) (levels : List (P × List (Key × Order Key P))) (price q : P)
      (j : Key)
      → find j (level (assign price l levels) q)
        ≡ (if p.beq price q then find j l else find j (level levels q))
  find-level-assign l levels price q j =
      ap (λ o. find j (or_empty o)) (find-assign price q l levels)
      ∙ (elim (p.beq price q)
          as (λ b.
            find j (or_empty (if b then some l else find q levels))
            ≡ (if b then find j l else find j (level levels q))) [ true ↦ refl | false ↦ refl ])

  level-same :
      (levels : List (P × List (Key × Order Key P))) (price q : P) (j : Key)
      → p.beq price q ≡ true
      → find j (level levels price) ≡ find j (level levels q)
  level-same levels price q j e = ap (λ x. find j (level levels x)) ((p.beq_iff price q).0 e)

  in_level-add :
      (b : OrderBook Key P) (id j : Key) (price q : P) (quantity : ℤ) (is_buy : Bool)
      → in_level (add_order b id price quantity is_buy) q j ≡ (
          if p.beq price q
          then (if i.beq id j then some (make id price quantity is_buy) else in_level b q j)
          else in_level b q j)
  unfolding add_order
  in_level-add b id j price q quantity is_buy = elim (Bool-cases (p.beq price q)) [
    | inl e ↦
        find-level-assign _ b.order_levels price q j
        ∙ rw (e, find-assign id j)
            (ap (λ o. if i.beq id j then some (make id price quantity is_buy) else o)
              (level-same b.order_levels price q j e))
    | inr e ↦ find-level-assign _ b.order_levels price q j ∙ rw e
  ]

  in_level-take_out :
      (levels : List (P × List (Key × Order Key P))) (price q : P) (id j : Key)
      → find j (level (take_out levels price id) q) ≡ (
          if p.beq price q
          then (if i.beq id j then none else find j (level levels q))
          else find j (level levels q))
  in_level-take_out levels price q id j = elim (Bool-cases (p.beq price q)) [
    | inl e ↦
        find-level-assign _ levels price q j
        ∙ rw (e, find-erase id j)
            (ap (λ o. if i.beq id j then none else o) (level-same levels price q j e))
    | inr e ↦ find-level-assign _ levels price q j ∙ rw e
  ]

  -- Adding an order under a new id keeps the two indexes in agreement.
  pub add_order-IsConsistent :
      (b : OrderBook Key P) (id : Key) (price : P) (quantity : ℤ) (is_buy : Bool)
      → IsConsistent b
      → find id b.order_lookup ≡ none
      → IsConsistent (add_order b id price quantity is_buy)
  unfolding add_order
  add_order-IsConsistent b id price quantity is_buy c fresh q j =
      in_level-add b id j price q quantity is_buy
      ∙ ground (
        arith,
        find-assign id j (make id price quantity is_buy) b.order_lookup,
        c q j,
        fresh,
        i.beq_iff id j,
      )

  -- Adding an order to a book with agreeing indexes, under an id that the book holds at another
  -- price, leaves the old order in its price level: the indexes disagree afterwards.
  pub add_order_ghost :
      (b : OrderBook Key P) (id : Key) (price : P) (quantity : ℤ) (is_buy : Bool)
      (old : Order Key P)
      → IsConsistent b
      → find id b.order_lookup ≡ some old
      → old.price ≢ price
      → (in_level (add_order b id price quantity is_buy) old.price id ≡ some old)
        × ¬ IsConsistent (add_order b id price quantity is_buy)
  unfolding add_order
  add_order_ghost b id price quantity is_buy old c held moved = (
    there,
    λ d. ground (
      arith,
      there,
      d old.price id,
      find-assign id id (make id price quantity is_buy) b.order_lookup,
      i.beq_iff id id,
      p.beq_iff price old.price,
    ),
  )
    where
      there : in_level (add_order b id price quantity is_buy) old.price id ≡ some old
      there =
          in_level-add b id id price old.price quantity is_buy
          ∙ ground (
            arith,
            c old.price id,
            held,
            p.beq_iff price old.price,
            p.beq_iff old.price old.price,
          )

  modify_found-IsConsistent :
      (b : OrderBook Key P) (id : Key) (price : P) (quantity : ℤ) (r : Option (Order Key P))
      → find id b.order_lookup ≡ r
      → IsConsistent b
      → IsConsistent (modify_found b id price quantity r)
  unfolding modify_found add_order
  modify_found-IsConsistent b id price quantity none e c q j = c q j
  modify_found-IsConsistent b id price quantity (some old) e c q j =
      in_level-add (record b { order_levels = take_out b.order_levels old.price id }) id j price q
        quantity old.is_buy
      ∙ ground (
        arith,
        in_level-take_out b.order_levels old.price q id j,
        find-assign id j (make id price quantity old.is_buy) b.order_lookup,
        c q j,
        e,
        i.beq_iff id j,
        p.beq_iff old.price q,
      )

  -- Modifying any id keeps the indexes in agreement.
  pub modify_order-IsConsistent :
      (b : OrderBook Key P) (id : Key) (price : P) (quantity : ℤ)
      → IsConsistent b
      → IsConsistent (modify_order b id price quantity)
  unfolding modify_order
  modify_order-IsConsistent b id price quantity c =
      modify_found-IsConsistent b id price quantity _ refl c

  delete_found-IsConsistent :
      (b : OrderBook Key P) (id : Key) (r : Option (Order Key P))
      → find id b.order_lookup ≡ r
      → IsConsistent b
      → IsConsistent (delete_found b id r)
  unfolding delete_found
  delete_found-IsConsistent b id none e c q j = c q j
  delete_found-IsConsistent b id (some old) e c q j =
      in_level-take_out b.order_levels old.price q id j
      ∙ ground
          (arith, find-erase id j b.order_lookup, c q j, e, i.beq_iff id j, p.beq_iff old.price q)

  -- Deleting any id keeps the indexes in agreement.
  pub delete_order-IsConsistent :
      (b : OrderBook Key P) (id : Key) → IsConsistent b → IsConsistent (delete_order b id)
  unfolding delete_order
  delete_order-IsConsistent b id c = delete_found-IsConsistent b id _ refl c

  -- `modifyOrder` gives the order of the id, if there is one, the new price and quantity and leaves
  -- its side, and changes the lookup at no other id; `deleteOrder` takes exactly that id out.
  pub order_lookup_lem :
      (b : OrderBook Key P) (id j : Key) (price : P) (quantity : ℤ)
      → (find j (modify_order b id price quantity).order_lookup ≡ (
          if i.beq id j
          then Option.map (λ o. make id price quantity o.is_buy) (find j b.order_lookup)
          else find j b.order_lookup))
        × (find j (delete_order b id).order_lookup
            ≡ (if i.beq id j then none else find j b.order_lookup))
  unfolding modify_order delete_order modify_found delete_found add_order
  order_lookup_lem b id j price quantity = elim (Option-cases (find id b.order_lookup)) [
    | inl e ↦ (
      rw (e, modify_found) (ground (arith, e, i.beq_iff id j)),
      rw (e, delete_found) (ground (arith, e, i.beq_iff id j)),
    )
    | inr (o, e) ↦ (
      rw (e, modify_found)
          (ground (
            arith,
            e,
            i.beq_iff id j,
            find-assign id j (make id price quantity o.is_buy) b.order_lookup,
          )),
      rw (e, delete_found) (find-erase id j b.order_lookup),
    )
  ]

  -- The assertion of `testAddOrder` holds whatever the id and the price.
  test_add_order_holds : (id : Key) (price : P) → test_add_order id price ≡ true
  unfolding test_add_order add_order
  test_add_order_holds id price =
      ap is_held (find-assign id id (make id price (pos 100) true) [])
      ∙ rw ((i.beq_iff id id).1 refl) refl
