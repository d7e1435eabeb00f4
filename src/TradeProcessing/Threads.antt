-- ===== src/TradeProcessing/Threads.antt =====
-- Session7/OrderProcessing.cpp and Session7/main.cpp: producers and consumers on the queue. A call of
-- the queue is one step, as is the work on an order: the runs are those of the code in which no two
-- calls of the queue overlap. They tell that something can happen, not that it always does, since
-- calls that overlap can do more (TradeQueue.Race). The semaphore bounds how many consumers work at a time,
-- which is one of the interleavings; the latch and the pauses are left out.
pub mod Lost
mod Examples
use advanced_cpp_p1g.Base.{
  ℕ, zero, suc, ◌+◌, Bool, true, false, Option, none, some, List, [], ◌∷◌, ◌++◌, ◌||◌,
  if◌then◌else◌, get_elem?, set, replicate,
}
use advanced_cpp_p1g.TradeQueue.{ConcurrentQueue, push, pop}
use advanced_cpp_p1g.TradeProcessing.{Order, Shared, no_trades, process, produced}

-- Where a consumer is in its loop: before `pop`, behind a `pop` that failed, with an order, or behind
-- the loop.
pub data Consumer {ℓ} (D : Type ℓ) : Type ℓ where
  polling : Consumer D
  failed : Consumer D
  working : Order D → Consumer D
  finished : Consumer D

-- A producer is the list of the orders that it has yet to push.
pub record System {ℓ} (D : Type ℓ) : Type ℓ where
  pub queue : ConcurrentQueue (Order D)
  pub producers : List (List (Order D))
  pub producers_done : Bool
  pub consumers : List (Consumer D)
  pub shared : Shared D

-- Whose step it is: a producer's, a consumer's, or that of `main` once the producers are joined.
pub data Turn : Type 0 where
  producing : ℕ → Turn
  consuming : ℕ → Turn
  announcing : Turn

abbrev pub no_orders {ℓ} : {A : Type ℓ} → List (List A) → Bool
no_orders [] = true
no_orders ([] ∷ xss) = no_orders xss
no_orders ((x ∷ xs) ∷ xss) = false

module _ {ℓ} {D : Type ℓ} where
  abbrev pub popped : Option (Order D) → Consumer D
  popped none = failed
  popped (some o) = working o

module _ {ℓ} (capacity : ℕ) {D : Type ℓ} where
  -- while (!orderQueue.push(order)), for a push that no other call of the queue overlaps: the order stays first where the queue is full.
  abbrev pub producer_turn :
      List (Order D) → ConcurrentQueue (Order D) → List (Order D) × ConcurrentQueue (Order D)
  producer_turn [] q = ([], q)
  producer_turn (o ∷ os) q = let (done, r) = push capacity q o in (if done then os else o ∷ os, r)

  -- A step of a consumer, for a pop that no other call of the queue overlaps, with what it makes of the queue and of the shared variables.
  abbrev pub consumer_turn :
      Consumer D
      → Bool
      → ConcurrentQueue (Order D)
      → Shared D
      → Consumer D × ConcurrentQueue (Order D) × Shared D
  consumer_turn polling done q s = let (item, r) = pop capacity q in (popped item, r, s)
  consumer_turn failed done q s = (if done then finished else polling, q, s)
  consumer_turn (working o) done q s = (polling, q, process s o)
  consumer_turn finished done q s = (finished, q, s)

  -- The step of producer or consumer number `i`, if there is one.
  abbrev pub produce_at : System D → ℕ → Option (List (Order D)) → System D
  produce_at s i none = s
  produce_at s i (some os) =
      let (rest, q) = producer_turn os s.queue in
      record s { producers = set s.producers i rest; queue = q }

  abbrev pub consume_at : System D → ℕ → Option (Consumer D) → System D
  consume_at s j none = s
  consume_at s j (some c) =
      let (next_c, q, shared) = consumer_turn c s.producers_done s.queue s.shared in
      record s { consumers = set s.consumers j next_c; queue = q; shared = shared }

  unfoldable pub step : System D → Turn → System D
  step s (producing i) = produce_at s i (get_elem? s.producers i)
  step s (consuming j) = consume_at s j (get_elem? s.consumers j)
  step s announcing = record s { producers_done = s.producers_done || no_orders s.producers }

  -- The steps of the threads, in the order in which they happen.
  unfoldable pub steps : System D → List Turn → System D
  steps s [] = s
  steps s (t ∷ ts) = steps (step s t) ts

module _ {ℓ} {D : Type ℓ} where
  -- An empty queue, with the threads before their first step.
  abbrev pub begin : (ℕ → Order D) → List (List (Order D)) → ℕ → System D
  begin slots producers n = record {
    queue = record { buffer = slots; head = 0; tail = 0 };
    producers = producers;
    producers_done = false;
    consumers = replicate n polling;
    shared = no_trades;
  }

-- The producers that `main` starts are numbered from 1.
module _ {ℓ} {D : Type ℓ} (apple_price google_price : ℕ → D) where
  unfoldable pub launched : ℕ → ℕ → List (List (Order D))
  launched zero orders_per_prod = []
  launched (suc n) orders_per_prod =
      launched n orders_per_prod ++ (produced apple_price google_price (n + 1) orders_per_prod ∷ [])

  -- numProducers, ordersPerProd and numConsumers
  abbrev pub main_system : (ℕ → Order D) → System D
  main_system slots = begin slots (launched 5 10) 4
