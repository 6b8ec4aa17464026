-- ===== src/Tests/Pipelines.antt =====
-- Whole jobs at concrete inputs.
use swarm_compute.Base.{
  ℕ, ◌≡◌, ◌+◌, ◌≤◌, ◌^◌, refl, String, List, [], ◌∷◌, true, length, ok, err, inr, arith,
}
use swarm_compute.Base.Int.{ℤ, ◌+ℤ◌, pos, negsuc}
use swarm_compute.Base.Value.{Fields, end, field, num}
use swarm_compute.Splitter.Rows.{split_matrix_mul}
use swarm_compute.Splitter.Samples.{split_pi_estimate}
use swarm_compute.Splitter.Charset.{index_ranges}
use swarm_compute.Splitter.CharsetLaws.{Partitions, index_ranges-Partitions}
use swarm_compute.Executor.GoLibrary.{Runtime}
use swarm_compute.Executor.Matrix.{execute_matrix_mul, matrix_value}
use swarm_compute.Executor.Pi.{execute_pi_estimate}
use swarm_compute.Aggregator.Matches.{aggregate_matrix_mul}
use swarm_compute.Aggregator.Totals.{aggregate_pi_estimate}
use swarm_compute.Pipeline.{map_reduce}
use swarm_compute.Pipeline.Matrix.{times, matrix_job_lem}
use swarm_compute.Pipeline.Pi.{no_share, few_samples_fail}
use swarm_compute.Base.Text.{split_lines}
use swarm_compute.Base.Value.{str}
use swarm_compute.Splitter.Lines.{split_grep}
use swarm_compute.Executor.Grep.{execute_grep, grep_output}
use swarm_compute.Aggregator.Matches.{aggregate_grep}
use swarm_compute.Pipeline.Grep.{hits, grep_job_lem}
use swarm_compute.Base.Value.{Value}
use swarm_compute.Base.Int.{pos_part}
use swarm_compute.Splitter.Ranges.{split_prime_count}
use swarm_compute.Executor.Prime.{is_prime, execute_prime_count}
use swarm_compute.Executor.PrimeCounts.{primes_below, after_last, HasCount}
use swarm_compute.Aggregator.Totals.{aggregate_prime_count}
use swarm_compute.Pipeline.Prime.{prime_job_lem}
use swarm_compute.Tests.Floats.{whole, whole_laws}

-- A Go library for the tests, in which every line matches.
abbrev pub simple : Runtime ℤ
simple = record {
  is_letter = λ c. true;
  is_digit = λ c. true;
  to_lower = λ s. s;
  trim_space = λ s. s;
  compile = λ s. inr (λ line. true);
  md5_hex = λ bs. "";
  string_of = λ bs. "";
  draw = λ i. pos 0;
}

abbrev left : List (List ℤ)
left = (pos 1 ∷ pos 2 ∷ []) ∷ (pos 3 ∷ pos 4 ∷ []) ∷ (pos 5 ∷ pos 6 ∷ []) ∷ []

abbrev right : List (List ℤ)
right = (pos 7 ∷ negsuc 7 ∷ []) ∷ (pos 9 ∷ pos 0 ∷ []) ∷ []

times_run :
    times left right 2
    ≡ (pos 25 ∷ negsuc 7 ∷ []) ∷ (pos 57 ∷ negsuc 23 ∷ []) ∷ (pos 89 ∷ negsuc 39 ∷ []) ∷ []
unfolding ◌+ℤ◌
times_run = refl

abbrev matrix_input : Fields ℤ
matrix_input = field "a" (matrix_value left) (field "b" (matrix_value right) end)

matrix_job_example :
    map_reduce split_matrix_mul execute_matrix_mul aggregate_matrix_mul matrix_input 2
    ≡ ok (matrix_value (times left right 2))
matrix_job_example =
    matrix_job_lem matrix_input left right 2 2 refl refl (omega arith) (refl, (refl, (refl, tt)))
      (refl, (refl, tt))

abbrev two_samples : Fields ℤ
two_samples = field "samples" (num (pos 2)) end

few_samples_example :
    map_reduce split_pi_estimate (execute_pi_estimate simple) aggregate_pi_estimate two_samples 3
    ≡ err no_share
few_samples_example =
    few_samples_fail whole_laws simple two_samples (pos 2) 2 3 refl refl (omega arith) (omega arith)

index_ranges_run : index_ranges 26 3 ≡ (0, 8) ∷ (8, 16) ∷ (16, 26) ∷ []
unfolding index_ranges
index_ranges_run = refl

index_ranges-Partitions_example :
    Partitions 0 26 (index_ranges 26 3) × (length (index_ranges 26 3) ≤ 3)
index_ranges-Partitions_example = index_ranges-Partitions 26 3 (omega arith) (omega arith)

abbrev poem : String
poem = "one\ntwo\nthree"

abbrev grep_input : Fields ℤ
grep_input = field "text" (str poem) (field "pattern" (str ".") end)

three_lines : length (split_lines poem) ≤ 2 ^ 53
unfolding split_lines
three_lines = omega arith

grep_job_example :
    map_reduce split_grep (execute_grep simple) aggregate_grep grep_input 2
    ≡ ok (grep_output (hits (λ line. true) 0 (split_lines poem)))
grep_job_example =
    grep_job_lem whole_laws (λ line. true) simple "." refl grep_input poem 2 refl refl three_lines

abbrev prime_input : Fields ℤ
prime_input = field "from" (num (negsuc 4)) (field "to" (num (pos 100)) end)

prime_job_example :
    (total : ℕ) × (out : Value ℤ) × (map_reduce split_prime_count execute_prime_count
        aggregate_prime_count prime_input 3
      ≡ ok out)
    × HasCount total out
    × (total + primes_below (pos_part (negsuc 4)) ≡ primes_below (after_last (pos 100)))
prime_job_example =
    prime_job_lem whole_laws prime_input (negsuc 4) (pos 100) (negsuc 4) (pos 100) 3 refl refl refl
      refl (omega arith, omega arith) (omega arith, omega arith) (omega arith) (omega arith)
      (omega arith)

primes_run : primes_below (after_last (pos 100)) ≡ 25
unfolding ◌+ℤ◌ is_prime
primes_run = refl
