-- ===== src/Exchange/Simulation.antt =====
-- Phase_4/src/main.cpp: the loop that feeds the book. The price 150.0 + k is a parameter; the timer
-- and the statistics on the latencies are not modelled.
mod Examples
use advanced_cpp_p1g.Base.{
  ℕ, zero, suc, ◌+◌, ◌%◌, ◌≤◌, ◌<◌, ◌≡◌, ◌≢◌, refl, sym, ap, ◌∙◌, inl, inr, Bool, true, false,
  Option, none, some, List, ◌==◌, ==_iff, length-replicate, ◌&&◌, ltb, if◌then◌else◌, find, nat_eq,
  arith, Bool-cases, Option-cases, length, lt→ltb, ge→ltb, ltb→lt,
}
use advanced_cpp_p1g.Base.Int.{ℤ, pos}
use Prim.Native.String.{String}
use advanced_cpp_p1g.Price.{PriceOrder}
use advanced_cpp_p1g.Exchange.Order.{Order, make}
use advanced_cpp_p1g.Exchange.Pool.{MemoryPool}
use advanced_cpp_p1g.Exchange.Pool
use advanced_cpp_p1g.Exchange.Pool.Laws.{
  Allocates, exhausted, placed, allocate-Allocates, deref-init,
}
use advanced_cpp_p1g.Exchange.Book.{OrderBook, init, enter_order, add_order}
use advanced_cpp_p1g.Exchange.Book.Valid.{IsValid, init-IsValid}
use advanced_cpp_p1g.Exchange.Book.Enter.{enter_order-IsValid}
use advanced_cpp_p1g.Exchange.Book.Lookup.{order_of, order_of-enter_order}

abbrev pub num_ticks : ℕ
num_ticks = 10000

abbrev pub pool_size : ℕ
pool_size = 1024

module _ {ℓ} {P : Type ℓ} (price_at : ℕ → P) where
  -- The order of round `i`.
  abbrev pub order_no : ℕ → Order P
  order_no i = make i "AAPL" (price_at (i % 5)) (pos 100) (i % 2 == 0)

range_none : (j size : ℕ) → (ltb j zero && ltb j size) ≡ false
range_none j size = ground arith

range_main : (j : ℕ) → (ltb j num_ticks && ltb j pool_size) ≡ ltb j pool_size
range_main j = ground arith

range_over : (j n size : ℕ) → size ≤ n → (ltb j n && ltb j size) ≡ (ltb j (suc n) && ltb j size)
range_over j n size h = ground arith

range_old :
    (j n size : ℕ) → (n == j) ≡ false → (ltb j n && ltb j size) ≡ (ltb j (suc n) && ltb j size)
range_old j n size h = ground arith

range_new : (j n size : ℕ) → (n == j) ≡ true → n < size → (ltb j (suc n) && ltb j size) ≡ true
range_new j n size h k = ground arith

module _ {ℓ} {P : Type ℓ} ⦃p : PriceOrder P⦄ (price_at : ℕ → P) where
  abbrev pub tick : OrderBook P → ℕ → OrderBook P
  tick book i = add_order book i "AAPL" (price_at (i % 5)) (pos 100) (i % 2 == 0)

  -- The book after the first `n` rounds.
  unfoldable pub ticks : OrderBook P → ℕ → OrderBook P
  ticks book zero = book
  ticks book (suc n) = tick (ticks book n) n

  -- The book at the end of `main`.
  unfoldable pub final_book : OrderBook P
  final_book = ticks (init pool_size) num_ticks

  -- What `n` rounds make of a new book with a pool of `size` slots: the orders lie in the slots of
  -- their numbers.
  record After (size n : ℕ) (b : OrderBook P) : Type ℓ where
    valid : IsValid (λ _. Unit {0}) b
    slots : length b.pool.pool ≡ size
    taken : (j : ℕ) → j < n → j < size → Pool.deref b.pool j ≢ none
    free : (j : ℕ) → n ≤ j → Pool.deref b.pool j ≡ none
    orders :
        (j : ℕ)
        → order_of b j ≡ (if ltb j n && ltb j size then some (order_no price_at j) else none)

  fresh_id : (size n : ℕ) (b : OrderBook P) → After size n b → find n b.id_lookup ≡ none
  fresh_id size n b a = elim (Option-cases (find n b.id_lookup)) [
    | inl e ↦ e
    | inr (s, e) ↦ let (o, live, same) = a.valid.leads n s e in ground (arith, a.orders n, e, live)
  ]

  all_taken :
      (size n : ℕ) (b : OrderBook P)
      → After size n b
      → ((j : ℕ) → j < length b.pool.pool → Pool.deref b.pool j ≢ none)
      → size ≤ n
  all_taken size n b a full = elim (Bool-cases (ltb n size)) [
    | inl e ↦ absurd (full n (omega (arith, a.slots, ltb→lt _ _ e)) (a.free n (omega arith)))
    | inr e ↦ ground (arith, e)
  ]

  -- The first free slot is the one of the order's number.
  first_is_next :
      (size n : ℕ) (b : OrderBook P) (s : ℕ)
      → After size n b
      → Pool.Laws.IsFirstFree b.pool s
      → s ≡ n
  first_is_next size n b s a first = elim (Bool-cases (ltb s n)) [
    | inl e ↦ absurd (a.taken s (ltb→lt _ _ e) (omega (arith, a.slots, first.within)) first.free)
    | inr e ↦ elim (Bool-cases (ltb n s)) [
      | inl f ↦ absurd (first.before n (ltb→lt _ _ f) (a.free n (omega arith)))
      | inr f ↦ ground (arith, e, f)
    ]
  ]

  After-enter :
      (size n : ℕ) (b : OrderBook P) (r : Option ℕ × MemoryPool (Order P))
      → After size n b
      → Allocates b.pool (order_no price_at n) r
      → After size (suc n) (enter_order b n (price_at (n % 5)) (n % 2 == 0) r)
  unfolding enter_order
  After-enter size n b r a (exhausted full) = record {
    valid = a.valid;
    slots = a.slots;
    taken = λ j h k. full j (omega (arith, a.slots));
    free = λ j h. a.free j (omega arith);
    orders = λ j.
        a.orders j
        ∙ ap (λ (held : Bool). if held then some (order_no price_at j) else none)
            (range_over j n size (all_taken size n b a full));
  }
  After-enter size n b r a (placed s pool first fits size_kept reads) = record {
    valid =
        enter_order-IsValid b a.valid n s (price_at (n % 5)) "AAPL" (pos 100) (n % 2 == 0) pool
          (fresh_id size n b a) tt first.free fits reads;
    slots = size_kept ∙ a.slots;
    taken = λ j h k. ground (arith, reads j, a.taken j, first_is_next size n b s a first);
    free = λ j h. ground (arith, reads j, a.free j (omega arith), first_is_next size n b s a first);
    orders = λ j.
        order_of-enter_order b a.valid n s (price_at (n % 5)) (order_no price_at n) (n % 2 == 0)
          pool first.free reads j
        ∙ (elim (Bool-cases (n == j)) [
          | inl e ↦
              rw
                (
                  e,
                  range_new j n size e
                      (omega (arith, first_is_next size n b s a first, first.within, a.slots)),
                )
                (ap (λ k. some (order_no price_at k)) ((==_iff n j).0 e))
          | inr e ↦ rw e (
              a.orders j
              ∙ ap (λ (held : Bool). if held then some (order_no price_at j) else none)
                  (range_old j n size e))
        ]);
  }

  After-ticks : (size n : ℕ) → After size n (ticks (init size) n)
  unfolding ticks add_order init Pool.init find
  After-ticks size zero = record {
    valid = init-IsValid size;
    slots = length-replicate size none;
    taken = λ j h k. absurd (omega arith);
    free = λ j h. deref-init (Order P) size j;
    orders = λ j. rw (range_none j size) refl;
  }
  After-ticks size (suc n) =
      let b = ticks (init size) n in
      let a = After-ticks size n in
      After-enter size n b _ a (allocate-Allocates b.pool (order_no price_at n) a.valid.pool_valid)

  enter_full :
      (size n : ℕ) (b : OrderBook P) (r : Option ℕ × MemoryPool (Order P))
      → After size n b
      → size ≤ n
      → Allocates b.pool (order_no price_at n) r
      → enter_order b n (price_at (n % 5)) (n % 2 == 0) r ≡ b
  unfolding enter_order
  enter_full size n b r a h (exhausted full) = refl
  enter_full size n b r a h (placed s pool first fits size_kept reads) =
      absurd (omega (arith, first_is_next size n b s a first, first.within, a.slots))

  ticks_full : (size n : ℕ) → ticks (init size) (size + n) ≡ ticks (init size) size
  unfolding ticks add_order
  ticks_full size zero = let e : size + zero ≡ size = omega arith in ap (ticks (init size)) e
  ticks_full size (suc n) =
      let e : size + suc n ≡ suc (size + n) = omega arith in
      let b = ticks (init size) (size + n) in
      let a = After-ticks size (size + n) in
      ap (ticks (init size)) e
      ∙ (enter_full size (size + n) b _ a (omega arith)
            (allocate-Allocates b.pool (order_no price_at (size + n)) a.valid.pool_valid)
          ∙ ticks_full size n)

  -- After any number `n` of rounds on a new book with a pool of `size` slots, the book is valid,
  -- so that every order of its index stands on its side, and holds exactly the orders of the first
  -- `size` rounds; from there on rounds do not change it.
  pub ticks_lem :
      (size n : ℕ)
      → let b = ticks (init size) n in
        IsValid (λ _. Unit {0}) b
        × ((j : ℕ)
            → order_of b j ≡ (if ltb j n && ltb j size then some (order_no price_at j) else none))
        × (ticks (init size) (size + n) ≡ ticks (init size) size)
  ticks_lem size n = let a = After-ticks size n in (a.valid, a.orders, ticks_full size n)

  -- The 10000 rounds of `main` leave the orders 0 to 1023.
  final_book_lem :
      (j : ℕ)
      → order_of final_book j ≡ (if ltb j pool_size then some (order_no price_at j) else none)
  unfolding final_book
  final_book_lem j =
      (After-ticks pool_size num_ticks).orders j
      ∙ ap (λ (held : Bool). if held then some (order_no price_at j) else none) (range_main j)
