-- ===== src/Experimental/AnyMix.antt =====
-- Calls of the three versions in any mix behave as one FIFO queue.
use advanced_cpp_p1g.Base.{ℕ, ◌≡◌, refl, ap, ◌∙◌, Bool, Option, List, [], ◌∷◌}
use advanced_cpp_p1g.TradeQueue.{ConcurrentQueue, push, pop, next}
use advanced_cpp_p1g.TradeQueue.Refine.{IsValid, contents, offer, poll, push_refines, pop_refines}
use advanced_cpp_p1g.Experimental.{
  push_relaxed, pop_relaxed, push_seq_cst, pop_seq_cst, push_fenced, pop_fenced,
}

pub data Version : Type 0 where
  relaxed : Version
  seq_cst : Version
  fenced : Version

pub data Call {ℓ} (T : Type ℓ) : Type ℓ where
  pushing : Version → T → Call T
  popping : Version → Call T

-- What a call tells its caller.
pub data Answer {ℓ} (T : Type ℓ) : Type ℓ where
  pushed : Bool → Answer T
  popped : Option T → Answer T

module _ {ℓ} (capacity : ℕ) {T : Type ℓ} where
  abbrev pub push_of : Version → ConcurrentQueue T → T → Bool × ConcurrentQueue T
  push_of relaxed = push_relaxed capacity
  push_of seq_cst = push_seq_cst capacity
  push_of fenced = push_fenced capacity

  abbrev pub pop_of : Version → ConcurrentQueue T → Option T × ConcurrentQueue T
  pop_of relaxed = pop_relaxed capacity
  pop_of seq_cst = pop_seq_cst capacity
  pop_of fenced = pop_fenced capacity

  abbrev pub call : ConcurrentQueue T → Call T → Answer T × ConcurrentQueue T
  call q (pushing v item) = let (done, r) = push_of v q item in (pushed done, r)
  call q (popping v) = let (item, r) = pop_of v q in (popped item, r)

  -- The answers of the calls, one after the other, and the queue they leave.
  unfoldable pub calls : ConcurrentQueue T → List (Call T) → List (Answer T) × ConcurrentQueue T
  calls q [] = ([], q)
  calls q (c ∷ cs) =
      let (answer, r) = call q c in let (answers, last) = calls r cs in (answer ∷ answers, last)

  -- The same on a FIFO queue of at most capacity - 1 items, where the version makes no difference.
  abbrev pub fifo_call : List T → Call T → Answer T × List T
  fifo_call xs (pushing v item) = let (done, r) = offer capacity xs item in (pushed done, r)
  fifo_call xs (popping v) = let (item, r) = poll capacity xs in (popped item, r)

  unfoldable pub fifo_calls : List T → List (Call T) → List (Answer T) × List T
  fifo_calls xs [] = ([], xs)
  fifo_calls xs (c ∷ cs) =
      let (answer, r) = fifo_call xs c in
      let (answers, last) = fifo_calls r cs in (answer ∷ answers, last)

  pub push_of-eq-push :
      (v : Version) (q : ConcurrentQueue T) (item : T) → push_of v q item ≡ push capacity q item
  unfolding push_relaxed push_seq_cst push_fenced push next
  push_of-eq-push relaxed q item = refl
  push_of-eq-push seq_cst q item = refl
  push_of-eq-push fenced q item = refl

  pub pop_of-eq-pop : (v : Version) (q : ConcurrentQueue T) → pop_of v q ≡ pop capacity q
  unfolding pop_relaxed pop_seq_cst pop_fenced pop next
  pop_of-eq-pop relaxed q = refl
  pop_of-eq-pop seq_cst q = refl
  pop_of-eq-pop fenced q = refl

  call_refines :
      (q : ConcurrentQueue T) (c : Call T)
      → IsValid capacity q
      → let (answer, r) = call q c in
        IsValid capacity r × ((answer, contents capacity r) ≡ fifo_call (contents capacity q) c)
  call_refines q (pushing v item) valid = rw (push_of-eq-push v q item) (
    (push_refines capacity q item valid).0,
    ap (λ p. (pushed p.0, p.1)) (push_refines capacity q item valid).1,
  )
  call_refines q (popping v) valid = rw (pop_of-eq-pop v q) (
    (pop_refines capacity q valid).0,
    ap (λ p. (popped p.0, p.1)) (pop_refines capacity q valid).1,
  )

  -- Any sequence of pushes and pops, each in any of the three versions, on a queue with both indices
  -- in the array: the calls answer what a FIFO queue of at most capacity - 1 items answers, and leave
  -- the items that it holds, with both indices in the array.
  pub calls_refine :
      (q : ConcurrentQueue T) (cs : List (Call T))
      → IsValid capacity q
      → let (answers, r) = calls q cs in
        IsValid capacity r × ((answers, contents capacity r) ≡ fifo_calls (contents capacity q) cs)
  unfolding calls fifo_calls
  calls_refine q [] valid = (valid, refl)
  calls_refine q (c ∷ cs) valid =
      let one = call_refines q c valid in
      let rest = calls_refine (call q c).1 cs one.0 in
      (
        rest.0,
        ap (λ p. ((call q c).0 ∷ p.0, p.1)) rest.1
            ∙ ap (λ (f : Answer T × List T). let p = fifo_calls f.1 cs in (f.0 ∷ p.0, p.1)) one.1,
      )
