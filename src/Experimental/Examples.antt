-- ===== src/Experimental/Examples.antt =====
-- The theorem on the experimental queue at an array of two places.
use advanced_cpp_p1g.Base.{ℕ, ◌≡◌, refl, true, false, none, some, List, [], ◌∷◌, arith}
use advanced_cpp_p1g.TradeQueue.{ConcurrentQueue}
use advanced_cpp_p1g.TradeQueue.Refine.{IsValid, contents}
use advanced_cpp_p1g.Experimental.AnyMix.{
  Call, pushing, popping, pushed, popped, relaxed, seq_cst, fenced, calls, fifo_calls, calls_refine,
}

abbrev start : ConcurrentQueue ℕ
start = record { buffer = λ i. 0; head = 0; tail = 0 }

start-IsValid : IsValid 2 start
start-IsValid = record { head_in = omega arith; tail_in = omega arith }

abbrev mix : List (Call ℕ)
mix = pushing relaxed 5 ∷ pushing fenced 6 ∷ popping seq_cst ∷ popping relaxed ∷ []

test_answers :
    (calls 2 start mix).0 ≡ pushed true ∷ pushed false ∷ popped (some 5) ∷ popped none ∷ []
unfolding calls advanced_cpp_p1g.Experimental.push_relaxed advanced_cpp_p1g.Experimental.pop_relaxed
    advanced_cpp_p1g.Experimental.pop_seq_cst advanced_cpp_p1g.Experimental.push_fenced
test_answers = refl

calls_refine_example :
    let (answers, r) = calls 2 start mix in
    IsValid 2 r × ((answers, contents 2 r) ≡ fifo_calls 2 [] mix)
unfolding advanced_cpp_p1g.TradeQueue.distance
calls_refine_example = calls_refine 2 start mix start-IsValid
