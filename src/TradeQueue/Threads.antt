-- ===== src/TradeQueue/Threads.antt =====
-- Session7/ConcurrentQueue.hpp with threads: `push` and `pop` as sequences of atomic steps of
-- producers and consumers that interleave in any order. Each access of `head`, `tail` and `buffer`
-- is one step on one memory (sequential consistency); the fences add nothing to that.
use advanced_cpp_p1g.Base.{ℕ, ◌<◌, ◌≡◌, ◌≢◌, List, [], ◌∷◌, ◌++◌}
use advanced_cpp_p1g.TradeQueue.{ConcurrentQueue, write, next}

-- Where a producer stands in `push(item)`: outside, after the load of `tail`, after the test for a
-- full queue, after the write of the item.
pub data Producer (T : Type 0) : Type 0 where
  idle : Producer T
  loaded : T → ℕ → Producer T
  checked : T → ℕ → Producer T
  written : T → ℕ → Producer T

-- Where a consumer stands in `pop(item)`: outside, after the load of `head`, after the test for an
-- empty queue, after the read of the item.
pub data Consumer (T : Type 0) : Type 0 where
  resting : Consumer T
  looked : ℕ → Consumer T
  found : ℕ → Consumer T
  taken : ℕ → T → Consumer T

-- The shared queue, the threads, and two lists that no thread reads: the items whose `push` returned
-- true and those that a `pop` gave out, in the order of the stores that ended the calls.
pub record System (T : Type 0) : Type 0 where
  pub queue : ConcurrentQueue T
  pub producers : ℕ → Producer T
  pub consumers : ℕ → Consumer T
  pub pushed : List T
  pub popped : List T

module _ (capacity n_producers n_consumers : ℕ) {T : Type 0} where
  pub data Step (s : System T) : System T → Type 0 where
    push_load :
        (i : ℕ) (item : T)
        → i < n_producers
        → s.producers i ≡ idle
        → Step s (record s { producers = write s.producers i (loaded item s.queue.tail) })
    push_full :
        (i : ℕ) (item : T) (t : ℕ)
        → i < n_producers
        → s.producers i ≡ loaded item t
        → next capacity t ≡ s.queue.head
        → Step s (record s { producers = write s.producers i idle })
    push_room :
        (i : ℕ) (item : T) (t : ℕ)
        → i < n_producers
        → s.producers i ≡ loaded item t
        → next capacity t ≢ s.queue.head
        → Step s (record s { producers = write s.producers i (checked item t) })
    push_write :
        (i : ℕ) (item : T) (t : ℕ)
        → i < n_producers
        → s.producers i ≡ checked item t
        → Step s (record s {
          queue = record (s.queue) { buffer = write s.queue.buffer t item };
          producers = write s.producers i (written item t);
        })
    push_store :
        (i : ℕ) (item : T) (t : ℕ)
        → i < n_producers
        → s.producers i ≡ written item t
        → Step s (record s {
          queue = record (s.queue) { tail = next capacity t };
          producers = write s.producers i idle;
          pushed = s.pushed ++ (item ∷ []);
        })
    pop_load :
        (i : ℕ)
        → i < n_consumers
        → s.consumers i ≡ resting
        → Step s (record s { consumers = write s.consumers i (looked s.queue.head) })
    pop_empty :
        (i h : ℕ)
        → i < n_consumers
        → s.consumers i ≡ looked h
        → h ≡ s.queue.tail
        → Step s (record s { consumers = write s.consumers i resting })
    pop_some :
        (i h : ℕ)
        → i < n_consumers
        → s.consumers i ≡ looked h
        → h ≢ s.queue.tail
        → Step s (record s { consumers = write s.consumers i (found h) })
    pop_read :
        (i h : ℕ)
        → i < n_consumers
        → s.consumers i ≡ found h
        → Step s (record s { consumers = write s.consumers i (taken h (s.queue.buffer h)) })
    pop_store :
        (i h : ℕ) (item : T)
        → i < n_consumers
        → s.consumers i ≡ taken h item
        → Step s (record s {
          queue = record (s.queue) { head = next capacity h };
          consumers = write s.consumers i resting;
          popped = s.popped ++ (item ∷ []);
        })

  pub data Reach (s : System T) : System T → Type 0 where
    here : Reach s s
    later : {t u : System T} → Reach s t → Step t u → Reach s u

-- The queue of the constructor, on any array, with every thread outside.
abbrev pub start : {T : Type 0} → (ℕ → T) → System T
start buffer = record {
  queue = record { buffer = buffer; head = 0; tail = 0 };
  producers = λ i. idle;
  consumers = λ i. resting;
  pushed = [];
  popped = [];
}
