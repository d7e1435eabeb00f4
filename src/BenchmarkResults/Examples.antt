-- ===== src/BenchmarkResults/Examples.antt =====
-- The theorem on the report at two benchmarks, with durations in whole milliseconds.
use advanced_cpp_p1g.Base.{ℕ, ◌+◌, ◌-◌, ◌*◌, ◌/◌, ◌≡◌, some, List, [], ◌∷◌, find, ltb}
use advanced_cpp_p1g.Base.Text.{Bytes, bytes_eq}
use advanced_cpp_p1g.BenchmarkResults.{Arithmetic, add_results, statistics, print_results}
use advanced_cpp_p1g.BenchmarkResults.Collected.{print_results-add_results}

instance abbrev whole : Arithmetic ℕ
whole = record {
  nought = 0;
  add = λ x y. x + y;
  sub = λ x y. x - y;
  mul = λ x y. x * y;
  div = λ x y. x / y;
  sqrt = λ x. x;
  of_size = λ n. n;
  lt = ltb;
}

abbrev push_name : Bytes
push_name = b'p' ∷ []

abbrev pop_name : Bytes
pop_name = b'q' ∷ []

abbrev added : List (Bytes × ℕ)
added = (push_name, 5) ∷ (pop_name, 9) ∷ (push_name, 7) ∷ []

print_results-add_results_example :
    find push_name (print_results (add_results [] added)) ≡ some (statistics (5 ∷ 7 ∷ []))
print_results-add_results_example = print_results-add_results added push_name
