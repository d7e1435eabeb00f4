-- ===== src/BenchmarkResults.antt =====
-- Session7/Benchmarks.hpp: the durations that are collected by name, and the statistics that are
-- printed of them. The arithmetic of doubles, std::sqrt included, is a parameter; the printing and the
-- timer are not modelled.
pub mod Collected
pub mod Bounds
mod Examples
use advanced_cpp_p1g.Base.{
  ℕ, Bool, Option, none, some, List, [], ◌∷◌, ◌++◌, find, assign, if◌then◌else◌, length,
}
use advanced_cpp_p1g.Base.Text.{Bytes, bytes_eq}

pub record Arithmetic {ℓ} (D : Type ℓ) : Type ℓ where
  pub nought : D
  pub add : D → D → D
  pub sub : D → D → D
  pub mul : D → D → D
  pub div : D → D → D
  pub sqrt : D → D
  pub of_size : ℕ → D
  pub lt : D → D → Bool

-- What is printed for a name that has data.
pub record Statistics {ℓ} (D : Type ℓ) : Type ℓ where
  pub runs : ℕ
  pub mean : D
  pub smallest : D
  pub largest : D
  pub std_dev : D

module _ {ℓ} {D : Type ℓ} where
  abbrev pub durations_or_new : Option (List D) → List D
  durations_or_new none = []
  durations_or_new (some ds) = ds

  -- results[name].push_back(durationMs)
  unfoldable pub add_result : List (Bytes × List D) → Bytes → D → List (Bytes × List D)
  add_result results name duration =
      assign name (durations_or_new (find name results) ++ (duration ∷ [])) results

  unfoldable pub add_results : List (Bytes × List D) → List (Bytes × D) → List (Bytes × List D)
  add_results results [] = results
  add_results results ((name, duration) ∷ rs) = add_results (add_result results name duration) rs

module _ {ℓ} {D : Type ℓ} ⦃a : Arithmetic D⦄ where
  open a use {nought, add, sub, mul, div, sqrt, of_size, lt}

  -- std::accumulate, from a sum on
  abbrev pub sum_from : D → List D → D
  sum_from sum [] = sum
  sum_from sum (d ∷ ds) = sum_from (add sum d) ds

  -- The loop that adds the squares.
  abbrev pub squares_from : D → D → List D → D
  squares_from mean variance [] = variance
  squares_from mean variance (d ∷ ds) =
      squares_from mean (add variance (mul (sub d mean) (sub d mean))) ds

  -- std::minmax_element: the first of the smallest, and the last of the largest.
  unfoldable pub smallest_from : D → List D → D
  smallest_from x [] = x
  smallest_from x (d ∷ ds) = smallest_from (if lt d x then d else x) ds

  unfoldable pub largest_from : D → List D → D
  largest_from x [] = x
  largest_from x (d ∷ ds) = largest_from (if lt d x then x else d) ds

  -- The body of the loop in `printResults`; `none` stands for "No data".
  unfoldable pub statistics : List D → Option (Statistics D)
  statistics [] = none
  statistics (d ∷ ds) =
      let n = length (d ∷ ds) in
      let mean = div (sum_from nought (d ∷ ds)) (of_size n) in
      some (record {
        runs = n;
        mean = mean;
        smallest = smallest_from d ds;
        largest = largest_from d ds;
        std_dev = sqrt (div (squares_from mean nought (d ∷ ds)) (of_size n));
      })

  unfoldable pub print_results : List (Bytes × List D) → List (Bytes × Option (Statistics D))
  print_results [] = []
  print_results ((name, ds) ∷ results) = (name, statistics ds) ∷ print_results results
