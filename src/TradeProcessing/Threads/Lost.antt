-- ===== src/TradeProcessing/Threads/Lost.antt =====
-- A consumer leaves its loop when `pop` failed and then producersDone is set, which does not say that
-- the queue is empty: orders may have been pushed in between.
use advanced_cpp_p1g.Base.{
  ℕ, zero, suc, ◌+◌, ◌<◌, ◌≡◌, refl, sym, ap, ap₂, ◌∙◌, inl, inr, true, false, none, some, List, [],
  ◌∷◌, ◌++◌, ◌==◌, get_elem?, set, length, length-append, append-nil, append_assoc, replicate,
  arith, Bool-cases,
}
use advanced_cpp_p1g.TradeQueue.{ConcurrentQueue, push, pop, distance}
use advanced_cpp_p1g.TradeQueue.Refine.{IsValid, contents, push_refines}
use advanced_cpp_p1g.TradeProcessing.{Order, no_trades}
use advanced_cpp_p1g.TradeProcessing.Threads.{
  Consumer, polling, failed, finished, System, Turn, producing, consuming, announcing, no_orders,
  consumer_turn, popped, step, steps, begin,
}

module _ {ℓ} {A : Type ℓ} where
  get_elem?-append :
      (before : List A) (x : A) (xs : List A)
      → get_elem? (before ++ (x ∷ xs)) (length before) ≡ some x
  get_elem?-append [] x xs = refl
  get_elem?-append (y ∷ before) x xs = get_elem?-append before x xs

  set-append :
      (before : List A) (x y : A) (xs : List A)
      → set (before ++ (x ∷ xs)) (length before) y ≡ before ++ (y ∷ xs)
  set-append [] x y xs = refl
  set-append (z ∷ before) x y xs = ap (λ l. z ∷ l) (set-append before x y xs)

-- One step of each consumer from number `k` on.
sweep : ℕ → ℕ → List Turn
sweep k zero = []
sweep k (suc n) = consuming k ∷ sweep (suc k) n

module _ {ℓ} (capacity : ℕ) {D : Type ℓ} where
  steps-append :
      (s : System D) (ts us : List Turn)
      → steps capacity s (ts ++ us) ≡ steps capacity (steps capacity s ts) us
  unfolding steps
  steps-append s [] us = refl
  steps-append s (t ∷ ts) us = steps-append (step capacity s t) ts us

  -- Consumers that all make the same step, which changes nothing else.
  module _ (s : System D) (c c' : Consumer D)
      (idle : consumer_turn capacity c s.producers_done s.queue s.shared
        ≡ (c', s.queue, s.shared)) where
    step-one :
        (before after : List (Consumer D))
        → step capacity (record s { consumers = before ++ (c ∷ after) }) (consuming (length before))
          ≡ record s { consumers = before ++ (c' ∷ after) }
    unfolding step
    step-one before after =
        rw (get_elem?-append before c after, idle, set-append before c c' after) refl

    steps-sweep :
        (before : List (Consumer D)) (n : ℕ)
        → steps capacity
            (record s { consumers = before ++ replicate n c })
            (sweep (length before) n)
          ≡ record s { consumers = before ++ replicate n c' }
    unfolding steps sweep
    steps-sweep before zero = refl
    steps-sweep before (suc n) =
        let one : length (before ++ (c' ∷ [])) ≡ suc (length before) =
          omega (arith, length-append before (c' ∷ [])) in
        ap (λ r. steps capacity r (sweep (suc (length before)) n)) (step-one before (replicate n c))
        ∙ (ap₂ (λ cs k. steps capacity (record s { consumers = cs }) (sweep k n))
              (sym (append_assoc before (c' ∷ []) (replicate n c))) (sym one)
            ∙ (steps-sweep (before ++ (c' ∷ [])) n
                ∙ ap (λ cs. record s { consumers = cs })
                    (append_assoc before (c' ∷ []) (replicate n c'))))

  -- A push where there is room.
  pushes :
      (q : ConcurrentQueue (Order D)) (o : Order D)
      → IsValid capacity q
      → length (contents capacity q) + 1 < capacity
      → (r : ConcurrentQueue (Order D)) × (push capacity q o ≡ (true, r))
        × IsValid capacity r
        × (contents capacity r ≡ contents capacity q ++ (o ∷ []))
  pushes q o v room = elim (Bool-cases (length (contents capacity q) + 1 == capacity)) [
    | inl e ↦ absurd (ground arith)
    | inr e ↦
        let (w, p) = push_refines capacity q o v in
        let told = rw e at p in
        (
          (push capacity q o).1,
          ap (λ b. (b, (push capacity q o).1)) (ap (λ x. x.0) told),
          w,
          ap (λ x. x.1) told,
        )
  ]

  push_one :
      (s : System D) (os : List (Order D)) (o : Order D) (q r : ConcurrentQueue (Order D))
      → push capacity q o ≡ (true, r)
      → step capacity (record s { queue = q; producers = (o ∷ os) ∷ [] }) (producing 0)
        ≡ record s { queue = r; producers = os ∷ [] }
  unfolding step
  push_one s os o q r p = rw p refl

  push_all :
      (s : System D) (os : List (Order D)) (q : ConcurrentQueue (Order D))
      → IsValid capacity q
      → length (contents capacity q) + length os < capacity
      → (r : ConcurrentQueue (Order D)) × (steps capacity
            (record s { queue = q; producers = os ∷ [] })
            (replicate (length os) (producing 0))
          ≡ record s { queue = r; producers = [] ∷ [] })
        × (contents capacity r ≡ contents capacity q ++ os)
  unfolding steps
  push_all s [] q v room = (q, refl, sym (append-nil (contents capacity q)))
  push_all s (o ∷ os) q v room =
      let (r, p, w, c) = pushes q o v (omega arith) in
      let (t, e, d) =
        push_all s os r w
          (omega (arith, ap length c, length-append (contents capacity q) (o ∷ []))) in
      (
        t,
        ap (λ x. steps capacity x (replicate (length os) (producing 0))) (push_one s os o q r p)
            ∙ e,
        d ∙ (ap (λ xs. xs ++ os) c ∙ append_assoc (contents capacity q) (o ∷ []) os),
      )

  pop_nothing :
      (slots : ℕ → Order D)
      → pop capacity (record { buffer = slots; head = 0; tail = 0 })
        ≡ (none, record { buffer = slots; head = 0; tail = 0 })
  unfolding pop
  pop_nothing slots = refl

  -- All consumers poll the empty queue, the producer pushes everything, `main` announces it, and all
  -- consumers leave.
  unlucky : List (Order D) → ℕ → List Turn
  unlucky os n = sweep 0 n ++ (replicate (length os) (producing 0) ++ (announcing ∷ sweep 0 n))

  abbrev left : ConcurrentQueue (Order D) → ℕ → System D
  left r n = record {
    queue = r;
    producers = [] ∷ [];
    producers_done = true;
    consumers = replicate n finished;
    shared = no_trades;
  }

  nothing_queued :
      (slots : ℕ → Order D) → contents capacity (record { buffer = slots; head = 0; tail = 0 }) ≡ []
  unfolding distance
  nothing_queued slots = refl

  announced :
      (r : ConcurrentQueue (Order D)) (n : ℕ)
      → steps capacity
          (record {
            queue = r;
            producers = [] ∷ [];
            producers_done = false;
            consumers = replicate n failed;
            shared = no_trades;
          })
          (announcing ∷ sweep 0 n)
        ≡ left r n
  unfolding steps step
  announced r n = steps-sweep (left r n) failed finished refl [] n

  after_unlucky :
      (slots : ℕ → Order D) (os : List (Order D)) (n : ℕ)
      → length os < capacity
      → (r : ConcurrentQueue (Order D)) × (contents capacity r ≡ os)
        × (steps capacity (begin slots (os ∷ []) n) (unlucky os n) ≡ left r n)
  unfolding unlucky
  after_unlucky slots os n room =
      let s = begin slots (os ∷ []) n in
      let valid : IsValid capacity s.queue = record {
        head_in = omega arith;
        tail_in = omega arith;
      } in
      let (r, pushed, c) =
        push_all (record s { consumers = replicate n failed }) os s.queue valid
          (omega (arith, ap length (nothing_queued slots))) in
      let polled = ap (λ p. (popped p.0, p.1, s.shared)) (pop_nothing slots) in
      (
        r,
        c ∙ ap (λ xs. xs ++ os) (nothing_queued slots),
        steps-append s (sweep 0 n) (replicate (length os) (producing 0) ++ (announcing ∷ sweep 0 n))
            ∙ (ap
                  (λ x.
                    steps capacity x
                      (replicate (length os) (producing 0) ++ (announcing ∷ sweep 0 n)))
                  (steps-sweep s polling failed polled [] n)
                ∙ (steps-append (record s { consumers = replicate n failed })
                      (replicate (length os) (producing 0)) (announcing ∷ sweep 0 n)
                    ∙ (ap (λ x. steps capacity x (announcing ∷ sweep 0 n)) pushed
                        ∙ announced r n))),
      )

  -- For any orders of a producer that fit the queue, and any number of consumers, there are steps
  -- after which the producer is done and all consumers have left, but no order is completed: all of
  -- them are still in the queue.
  pub orders_left_behind :
      (slots : ℕ → Order D) (os : List (Order D)) (n : ℕ)
      → length os < capacity
      → (ts : List Turn) × let s = steps capacity (begin slots (os ∷ []) n) ts in
          (no_orders s.producers ≡ true)
          × (s.consumers ≡ replicate n finished)
          × (s.shared.completed_orders ≡ [])
          × (contents capacity s.queue ≡ os)
  orders_left_behind slots os n room =
      let (r, c, e) = after_unlucky slots os n room in
      (
        unlucky os n,
        (
          ap (λ s. no_orders s.producers) e,
          ap (λ s. s.consumers) e,
          ap (λ s. s.shared.completed_orders) e,
          ap (λ s. contents capacity s.queue) e ∙ c,
        ),
      )
