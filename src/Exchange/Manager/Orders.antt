-- ===== src/Exchange/Manager/Orders.antt =====
-- The order manager as a map from ids to orders.
use advanced_cpp_p1g.Base.{
  ℕ, zero, suc, ◌<◌, ◌≡◌, ◌≢◌, refl, inl, inr, Bool, Option, some, List, [], ◌∷◌, ◌++◌, ◌==◌,
  if◌then◌else◌, length, length-append, length-set, get_elem?, get_elem?-set_self, get_elem?-set_ne,
  find, nat_eq, find-assign, arith, Bool-cases, Option-cases,
}
use mathlib.Core.Option
use advanced_cpp_p1g.Base.Fault.{◌>>=◌}
use advanced_cpp_p1g.Base.Int.{ℤ}
use Prim.Native.String.{String}
use advanced_cpp_p1g.Exchange.Order.{Order, make, update_filled, cancel, cancelled}
use advanced_cpp_p1g.Exchange.Manager.{
  OrderManager, create_order, modify, change, fill_order, cancel_order, get_order,
}

module _ {ℓ} {A : Type ℓ} where
  get_elem?-append_lt :
      (xs ys : List A) (i : ℕ) → i < length xs → get_elem? (xs ++ ys) i ≡ get_elem? xs i
  get_elem?-append_lt [] ys i h = absurd (omega arith)
  get_elem?-append_lt (x ∷ xs) ys zero h = refl
  get_elem?-append_lt (x ∷ xs) ys (suc i) h = get_elem?-append_lt xs ys i (omega arith)

  get_elem?-append_last : (xs : List A) (a : A) → get_elem? (xs ++ (a ∷ [])) (length xs) ≡ some a
  get_elem?-append_last [] a = refl
  get_elem?-append_last (x ∷ xs) a = get_elem?-append_last xs a

  get_elem?-lt : (xs : List A) (i : ℕ) → i < length xs → (a : A) × (get_elem? xs i ≡ some a)
  get_elem?-lt [] i h = absurd (omega arith)
  get_elem?-lt (x ∷ xs) zero h = (x, refl)
  get_elem?-lt (x ∷ xs) (suc i) h = get_elem?-lt xs i (omega arith)

module _ {ℓ} {P : Type ℓ} where
  -- Every pointer leads to an order, and no two ids share one.
  pub record IsValid (m : OrderManager P) : Type 0 where
    pub live : (id ptr : ℕ) → find id m.orders ≡ some ptr → ptr < length m.heap
    pub unshared : (i j ptr : ℕ) → find i m.orders ≡ some ptr → find j m.orders ≡ some ptr → i ≡ j

  -- The order of an id.
  abbrev pub order_at : OrderManager P → ℕ → Option (Order P)
  order_at m id = get_order m id >>= get_elem? m.heap

  create-IsValid :
      (m : OrderManager P) (id : ℕ) (symbol : String) (price : P) (quantity : ℤ) (is_buy : Bool)
      → IsValid m
      → IsValid (create_order m id symbol price quantity is_buy)
  unfolding create_order
  create-IsValid m id symbol price quantity is_buy v = record {
    live = λ i ptr h. ground (
      arith,
      find-assign id i (length m.heap) m.orders,
      v.live i ptr,
      length-append m.heap (make id symbol price quantity is_buy ∷ []),
    );
    unshared = λ i j ptr h k. ground (
      arith,
      find-assign id i (length m.heap) m.orders,
      find-assign id j (length m.heap) m.orders,
      v.live i ptr,
      v.live j ptr,
      v.unshared i j ptr,
    );
  }

  -- `create_order` keeps the manager valid; the id then has the new order, in place of any that it
  -- had before, and every other id has the order that it had.
  pub create_order_lem :
      (m : OrderManager P) (id : ℕ) (symbol : String) (price : P) (quantity : ℤ) (is_buy : Bool)
      → IsValid m
      → let c = create_order m id symbol price quantity is_buy in
        IsValid c
        × ((j : ℕ)
            → order_at c j
              ≡ (if id == j then some (make id symbol price quantity is_buy) else order_at m j))
  unfolding create_order get_order
  create_order_lem m id symbol price quantity is_buy v = (
    create-IsValid m id symbol price quantity is_buy v,
    λ j. elim (Option-cases (find j m.orders)) [
      | inl n ↦ ground (
        arith,
        find-assign id j (length m.heap) m.orders,
        get_elem?-append_last m.heap (make id symbol price quantity is_buy),
      )
      | inr (t, h) ↦ ground (
        arith,
        find-assign id j (length m.heap) m.orders,
        get_elem?-append_last m.heap (make id symbol price quantity is_buy),
        get_elem?-append_lt m.heap (make id symbol price quantity is_buy ∷ []) t,
        v.live j t h,
      )
    ],
  )

  length-modify :
      (f : Order P → Order P) (heap : List (Order P)) (ptr : ℕ)
      → length (modify f heap ptr) ≡ length heap
  unfolding modify
  length-modify f heap ptr = elim (Option-cases (get_elem? heap ptr)) [
    | inl e ↦ rw (e, modify)
    | inr (o, e) ↦ rw (e, modify) (length-set heap ptr (f o))
  ]

  get_elem?-modify :
      (f : Order P → Order P) (heap : List (Order P)) (ptr : ℕ) (i : ℕ)
      → ptr < length heap
      → get_elem? (modify f heap ptr) i
        ≡ (if ptr == i then Option.map f (get_elem? heap i) else get_elem? heap i)
  unfolding modify
  get_elem?-modify f heap ptr i h =
      let (o, e) = get_elem?-lt heap ptr h in
      elim (Bool-cases (ptr == i)) [
        | inl q ↦ ground (arith, e, get_elem?-set_self heap ptr (f o) h)
        | inr q ↦ rw (e, modify, q) (get_elem?-set_ne heap (f o) (λ same. ground arith))
      ]

  change-IsValid :
      (f : Order P → Order P) (m : OrderManager P) (id : ℕ) → IsValid m → IsValid (change f m id)
  unfolding change
  change-IsValid f m id v = elim (Option-cases (find id m.orders)) [
    | inl e ↦ rw (e, change) v
    | inr (ptr, e) ↦
        rw (e, change)
          (record {
            live = λ i q h. rw (length-modify f m.heap ptr) (v.live i q h);
            unshared = v.unshared;
          })
  ]

  order_at-change :
      (f : Order P → Order P) (m : OrderManager P) (id j : ℕ)
      → IsValid m
      → order_at (change f m id) j ≡ (if id == j then Option.map f (order_at m j) else order_at m j)
  unfolding change get_order
  order_at-change f m id j v = elim (Option-cases (find id m.orders)) [
    | inl e ↦ rw (e, change) (ground (arith, e))
    | inr (ptr, e) ↦
        rw (e, change)
          (elim (Option-cases (find j m.orders)) [
            | inl n ↦ ground (arith, e)
            | inr (q, h) ↦ rw h (
                ground (
                  arith,
                  e,
                  v.unshared id j ptr e,
                  get_elem?-modify f m.heap ptr q (v.live id ptr e),
                ))
          ])
  ]

  -- `fill_order` keeps the manager valid, and applies `update_filled` to the order of the id, if
  -- there is one, and to no other order.
  pub fill_order_lem :
      (m : OrderManager P) (id : ℕ) (quantity : ℤ)
      → IsValid m
      → IsValid (fill_order m id quantity)
        × ((j : ℕ)
            → order_at (fill_order m id quantity) j ≡ (
                if id == j
                then Option.map (λ o. update_filled o quantity) (order_at m j)
                else order_at m j))
  unfolding fill_order
  fill_order_lem m id quantity v = (
    change-IsValid (λ o. update_filled o quantity) m id v,
    λ j. order_at-change (λ o. update_filled o quantity) m id j v,
  )

  -- `cancel_order` keeps the manager valid, and marks the order of the id, if there is one, as
  -- cancelled, and no other order.
  pub cancel_order_lem :
      (m : OrderManager P) (id : ℕ)
      → IsValid m
      → IsValid (cancel_order m id)
        × ((j : ℕ)
            → order_at (cancel_order m id) j
              ≡ (if id == j then Option.map cancel (order_at m j) else order_at m j))
  unfolding cancel_order
  cancel_order_lem m id v = (change-IsValid cancel m id v, λ j. order_at-change cancel m id j v)

  -- A cancelled order does not stay cancelled: whatever its quantities, a fill for its id, of any
  -- quantity, takes the status back to one of a live or filled order.
  pub fill_revives_cancelled :
      (m : OrderManager P) (id : ℕ) (quantity : ℤ) (o : Order P)
      → IsValid m
      → order_at m id ≡ some o
      → (q : Order P) × (order_at (fill_order (cancel_order m id) id quantity) id ≡ some q)
        × (q.status ≢ cancelled)
  unfolding update_filled cancel
  fill_revives_cancelled m id quantity o v e = (
    update_filled (cancel o) quantity,
    ground (
      arith,
      (fill_order_lem (cancel_order m id) id quantity (cancel_order_lem m id v).0).1 id,
      (cancel_order_lem m id v).1 id,
    ),
    ground arith,
  )
