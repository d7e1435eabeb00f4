-- ===== src/TradeQueue/Spsc.antt =====
-- With one producer and one consumer the queue is correct under every interleaving.
use advanced_cpp_p1g.Base.{
  ℕ, zero, suc, ◌<◌, ◌≡◌, ◌≢◌, refl, sym, subst, ap, ap₂, ◌∙◌, [], ◌∷◌, ◌++◌, append_assoc, arith,
}
use advanced_cpp_p1g.TradeQueue.{ConcurrentQueue, write, next, distance}
use advanced_cpp_p1g.TradeQueue.Window.{
  next-ne, next-lt, distance_self, distance-lt, window, window-write, window-advance_tail,
  window-advance_head, write_self,
}
use advanced_cpp_p1g.TradeQueue.Threads.{
  Producer, idle, loaded, checked, written, Consumer, resting, looked, found, taken, System, Step,
  push_load, push_full, push_room, push_write, push_store, pop_load, pop_empty, pop_some, pop_read,
  pop_store, Reach, here, later, start,
}

-- Writing and reading the state of the only thread.
only {κ} : {A : Type κ} (f : ℕ → A) (i : ℕ) (a : A) → i < 1 → write f i a 0 ≡ a
only f zero a h = write_self f 0 a
only f (suc i) a h = absurd (omega arith)

the_only {κ} : {A : Type κ} (f : ℕ → A) (i : ℕ) {a : A} → i < 1 → f i ≡ a → f 0 ≡ a
the_only f zero h e = e
the_only f (suc i) h e = absurd (omega arith)

module _ (capacity : ℕ) {T : Type 0} where
  -- What a producer knows of the queue, where it stands.
  abbrev pub Knows : ConcurrentQueue T → Producer T → Type 0
  Knows q idle = Unit {0}
  Knows q (loaded item t) = t ≡ q.tail
  Knows q (checked item t) = (t ≡ q.tail) × (next capacity t ≢ q.head)
  Knows q (written item t) = (t ≡ q.tail) × (next capacity t ≢ q.head) × (q.buffer t ≡ item)

  abbrev pub Sees : ConcurrentQueue T → Consumer T → Type 0
  Sees q resting = Unit {0}
  Sees q (looked h) = h ≡ q.head
  Sees q (found h) = (h ≡ q.head) × (h ≢ q.tail)
  Sees q (taken h item) = (h ≡ q.head) × (h ≢ q.tail) × (item ≡ q.buffer h)

  pub record Inv (s : System T) : Type 0 where
    pub head_in : s.queue.head < capacity
    pub tail_in : s.queue.tail < capacity
    pub producer : Knows s.queue (s.producers 0)
    pub consumer : Sees s.queue (s.consumers 0)
    pub fifo :
        s.pushed
        ≡ s.popped
          ++ window capacity s.queue.buffer s.queue.head
              (distance capacity s.queue.head s.queue.tail)

  knows :
      (s : System T)
      → Inv s
      → (i : ℕ) {a : Producer T} → i < 1
      → s.producers i ≡ a
      → Knows s.queue a
  knows s v i h e = subst (Knows s.queue) (the_only s.producers i h e) v.producer

  sees :
      (s : System T) → Inv s → (i : ℕ) {a : Consumer T} → i < 1 → s.consumers i ≡ a → Sees s.queue a
  sees s v i h e = subst (Sees s.queue) (the_only s.consumers i h e) v.consumer

  set_producer :
      (s : System T) (i : ℕ) (a : Producer T)
      → i < 1
      → Inv s
      → Knows s.queue a
      → Inv (record s { producers = write s.producers i a })
  set_producer s i a h v k = record {
    head_in = v.head_in;
    tail_in = v.tail_in;
    producer = rw (only s.producers i a h) k;
    consumer = v.consumer;
    fifo = v.fifo;
  }

  set_consumer :
      (s : System T) (i : ℕ) (a : Consumer T)
      → i < 1
      → Inv s
      → Sees s.queue a
      → Inv (record s { consumers = write s.consumers i a })
  set_consumer s i a h v k = record {
    head_in = v.head_in;
    tail_in = v.tail_in;
    producer = v.producer;
    consumer = rw (only s.consumers i a h) k;
    fifo = v.fifo;
  }

  -- The consumer does not notice a write at the tail, nor that the tail moves on.
  Sees-write :
      (q : ConcurrentQueue T) (c : Consumer T) (item : T)
      → Sees q c
      → Sees (record q { buffer = write q.buffer q.tail item }) c
  Sees-write q resting item k = tt
  Sees-write q (looked h) item k = k
  Sees-write q (found h) item k = k
  Sees-write q (taken h x) item (e, ne, r) = (e, ne, ground arith)

  Sees-tail :
      (q : ConcurrentQueue T) (c : Consumer T)
      → next capacity q.tail ≢ q.head
      → Sees q c
      → Sees (record q { tail = next capacity q.tail }) c
  Sees-tail q resting ne k = tt
  Sees-tail q (looked h) ne k = k
  Sees-tail q (found h) ne k = (k.0, λ e. ne (sym e ∙ k.0))
  Sees-tail q (taken h x) ne k = (k.0, (λ e. ne (sym e ∙ k.0)), k.2)

  -- Nor does the producer notice that the head moves on.
  Knows-head :
      (q : ConcurrentQueue T) (p : Producer T)
      → q.head < capacity
      → q.tail < capacity
      → q.head ≢ q.tail
      → Knows q p
      → Knows (record q { head = next capacity q.head }) p
  Knows-head q idle hh ht ne k = tt
  Knows-head q (loaded x t) hh ht ne k = k
  Knows-head q (checked x t) hh ht ne k = (k.0, rw k.0 (next-ne capacity q.head q.tail hh ht ne))
  Knows-head q (written x t) hh ht ne k =
      (k.0, rw k.0 (next-ne capacity q.head q.tail hh ht ne), k.2)

  write_buffer :
      (s : System T) (item : T)
      → Inv s
      → next capacity s.queue.tail ≢ s.queue.head
      → Knows s.queue (checked item s.queue.tail)
      → (i : ℕ) → i < 1
      → Inv (record s {
        queue = record (s.queue) { buffer = write s.queue.buffer s.queue.tail item };
        producers = write s.producers i (written item s.queue.tail);
      })
  write_buffer s item v ne k i h = record {
    head_in = v.head_in;
    tail_in = v.tail_in;
    producer =
        rw (only s.producers i (written item s.queue.tail) h)
          (refl, k.1, write_self s.queue.buffer s.queue.tail item);
    consumer = Sees-write s.queue (s.consumers 0) item v.consumer;
    fifo =
        v.fifo
        ∙ ap (λ l. s.popped ++ l)
            (sym (
              window-write capacity s.queue.buffer item _ s.queue.head s.queue.tail v.head_in
                v.tail_in refl));
  }

  store_tail :
      (s : System T) (item : T)
      → Inv s
      → Knows s.queue (written item s.queue.tail)
      → (i : ℕ) → i < 1
      → Inv (record s {
        queue = record (s.queue) { tail = next capacity s.queue.tail };
        producers = write s.producers i idle;
        pushed = s.pushed ++ (item ∷ []);
      })
  store_tail s item v k i h = record {
    head_in = v.head_in;
    tail_in = next-lt capacity s.queue.tail v.tail_in;
    producer = rw (only s.producers i idle h) tt;
    consumer = Sees-tail s.queue (s.consumers 0) k.1 v.consumer;
    fifo =
        ap₂ (λ l x. l ++ (x ∷ [])) v.fifo (sym k.2)
        ∙ (append_assoc s.popped _ _
            ∙ ap (λ l. s.popped ++ l)
                (sym (
                  window-advance_tail capacity s.queue.buffer s.queue.head s.queue.tail v.head_in
                    v.tail_in k.1)));
  }

  store_head :
      (s : System T) (item : T)
      → Inv s
      → Sees s.queue (taken s.queue.head item)
      → (i : ℕ) → i < 1
      → Inv (record s {
        queue = record (s.queue) { head = next capacity s.queue.head };
        consumers = write s.consumers i resting;
        popped = s.popped ++ (item ∷ []);
      })
  store_head s item v k i h = record {
    head_in = next-lt capacity s.queue.head v.head_in;
    tail_in = v.tail_in;
    producer = Knows-head s.queue (s.producers 0) v.head_in v.tail_in k.1 v.producer;
    consumer = rw (only s.consumers i resting h) tt;
    fifo =
        v.fifo
        ∙ (ap (λ l. s.popped ++ l)
              (window-advance_head capacity s.queue.buffer s.queue.head s.queue.tail v.head_in
                v.tail_in k.1)
            ∙ (ap
                  (λ x.
                    s.popped
                    ++ (x
                        ∷ window capacity s.queue.buffer (next capacity s.queue.head)
                            (distance capacity (next capacity s.queue.head) s.queue.tail)))
                  (sym k.2)
                ∙ sym (append_assoc s.popped (item ∷ []) _)));
  }

  -- Every step of the one producer or the one consumer keeps the invariant.
  pub Step-Inv : {s u : System T} → Step capacity 1 1 s u → Inv s → Inv u
  Step-Inv {s} (push_load i item h e) v = set_producer s i (loaded item s.queue.tail) h v refl
  Step-Inv {s} (push_full i item t h e full) v = set_producer s i idle h v tt
  Step-Inv {s} (push_room i item t h e room) v =
      let k : t ≡ s.queue.tail = knows s v i h e in set_producer s i (checked item t) h v (k, room)
  Step-Inv {s} (push_write i item t h e) v =
      let k : Knows s.queue (checked item t) = knows s v i h e in
      rw k.0 (write_buffer s item v (rw (← k.0) k.1) (refl, rw (← k.0) k.1) i h)
  Step-Inv {s} (push_store i item t h e) v =
      let k : Knows s.queue (written item t) = knows s v i h e in
      rw k.0 (store_tail s item v (refl, rw (← k.0) k.1, rw (← k.0) k.2) i h)
  Step-Inv {s} (pop_load i h e) v = set_consumer s i (looked s.queue.head) h v refl
  Step-Inv {s} (pop_empty i x h e at) v = set_consumer s i resting h v tt
  Step-Inv {s} (pop_some i x h e ne) v =
      let k : x ≡ s.queue.head = sees s v i h e in set_consumer s i (found x) h v (k, ne)
  Step-Inv {s} (pop_read i x h e) v =
      let k : Sees s.queue (found x) = sees s v i h e in
      set_consumer s i (taken x (s.queue.buffer x)) h v (k.0, k.1, refl)
  Step-Inv {s} (pop_store i x item h e) v =
      let k : Sees s.queue (taken x item) = sees s v i h e in
      rw k.0 (store_head s item v (refl, rw (← k.0) k.1, rw (← k.0) k.2) i h)

  start-Inv : (buffer : ℕ → T) → 0 < capacity → Inv (start buffer)
  start-Inv buffer h = record {
    head_in = h;
    tail_in = h;
    producer = tt;
    consumer = tt;
    fifo = rw (distance_self capacity 0);
  }

  Reach-Inv : {s u : System T} → Inv s → Reach capacity 1 1 s u → Inv u
  Reach-Inv v here = v
  Reach-Inv v (later r st) = Step-Inv st (Reach-Inv v r)

  -- One producer and one consumer, whose steps interleave in any way, on a queue that was empty at
  -- first: the items that went in are, in order, those that came out and then those between the
  -- head and the tail, of which there are fewer than the capacity. So no item is lost, made up,
  -- given out twice or out of order.
  pub spsc_fifo :
      (buffer : ℕ → T) {s : System T}
      → 0 < capacity
      → Reach capacity 1 1 (start buffer) s
      → (s.pushed
          ≡ s.popped
            ++ window capacity s.queue.buffer s.queue.head
                (distance capacity s.queue.head s.queue.tail))
        × (distance capacity s.queue.head s.queue.tail < capacity)
  spsc_fifo buffer h r =
      let v = Reach-Inv (start-Inv buffer h) r in
      (v.fifo, distance-lt capacity _ _ v.head_in v.tail_in)
