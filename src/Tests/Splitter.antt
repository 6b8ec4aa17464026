-- ===== src/Tests/Splitter.antt =====
-- The splitters, the merge and the sort job at concrete inputs.
use swarm_compute.Base.{
  ℕ, ◌≤◌, ◌<◌, ◌≡◌, refl, ◌↔◌, List, [], ◌∷◌, map, true, length, concat, sum, All, max, Perm, ok,
  arith,
}
use swarm_compute.Base.Int.{ℤ, pos, negsuc}
use swarm_compute.Base.Value.{Fields, end, field, num}
use swarm_compute.Base.Sort.{IsSorted}
use swarm_compute.Splitter.Slices.{split_slice, chunks_from, slice}
use swarm_compute.Splitter.SliceLaws.{split_slice_lem}
use swarm_compute.Splitter.Samples.{split_pi_estimate}
use swarm_compute.Splitter.SampleLaws.{samples_of, split_pi_estimate_lem}
use swarm_compute.Splitter.Ranges.{ranges_from, range_step}
use swarm_compute.Splitter.RangeLaws.{Covers, IsStepped, equal_part, ranges-Covers}
use swarm_compute.Splitter.Rows.{split_sort}
use swarm_compute.Executor.Sort.{execute_sort}
use swarm_compute.Executor.Prime.{is_prime}
use swarm_compute.Executor.PrimeLaws.{IsPrime, is_prime_lem}
use swarm_compute.Aggregator.Merge.{aggregate_sort, merge_k_sorted}
use swarm_compute.Aggregator.MergeLaws.{merge_k_sorted_lem}
use swarm_compute.Pipeline.{map_reduce}
use swarm_compute.Pipeline.Sort.{num_array, sort_job_lem}
use swarm_compute.Tests.Floats.{whole, whole_laws}

abbrev five : List ℕ
five = 1 ∷ 2 ∷ 3 ∷ 4 ∷ 5 ∷ []

-- Five elements for four workers: three chunks.
split_slice_run : split_slice five 4 ≡ (1 ∷ 2 ∷ []) ∷ (3 ∷ 4 ∷ []) ∷ (5 ∷ []) ∷ []
unfolding split_slice chunks_from slice
split_slice_run = refl

is_prime_run : is_prime 1009 ≡ true
unfolding is_prime
is_prime_run = refl

split_slice_example :
    (concat (split_slice five 4) ≡ five)
    × All (λ c. 0 < length c) (split_slice five 4)
    × (length (split_slice five 4) ≤ max 4 1)
split_slice_example = split_slice_lem five 4

abbrev thousand : Fields ℤ
thousand = field "samples" (num (pos 1000)) end

split_pi_estimate_example :
    (parts : List (Fields ℤ)) × (split_pi_estimate thousand 3 ≡ ok parts)
    × (length parts ≡ 3)
    × (sum (map samples_of parts) ≡ 1000)
split_pi_estimate_example =
    split_pi_estimate_lem whole_laws thousand (pos 1000) 1000 3 refl refl (omega arith)
      (omega arith) (omega arith)

ranges-Covers_example :
    Covers
      (negsuc 4)
      (pos 100)
      (ranges_from 3 (pos 100) (range_step (negsuc 4) (pos 100) 3) 3 0 (negsuc 4))
    × (length (ranges_from 3 (pos 100) (range_step (negsuc 4) (pos 100) 3) 3 0 (negsuc 4)) ≤ 3)
    × IsStepped
        (equal_part (negsuc 4) (pos 100) 3)
        (ranges_from 3 (pos 100) (range_step (negsuc 4) (pos 100) 3) 3 0 (negsuc 4))
ranges-Covers_example =
    ranges-Covers (negsuc 4) (pos 100) 3 (omega arith) (omega arith) (omega arith) (omega arith)

abbrev two_arrays : List (List ℤ)
two_arrays = (pos 1 ∷ pos 4 ∷ []) ∷ (negsuc 2 ∷ pos 3 ∷ []) ∷ []

merge_k_sorted_example :
    Perm (merge_k_sorted two_arrays) (concat two_arrays)
    × (All IsSorted two_arrays → IsSorted (merge_k_sorted two_arrays))
merge_k_sorted_example = merge_k_sorted_lem whole_laws two_arrays

abbrev numbers : List ℤ
numbers = pos 5 ∷ pos 3 ∷ negsuc 0 ∷ pos 4 ∷ pos 2 ∷ []

abbrev sort_input : Fields ℤ
sort_input = field "data" (num_array numbers) end

sort_job_example :
    (zs : List ℤ) × (map_reduce split_sort execute_sort aggregate_sort sort_input 3
      ≡ ok (num_array zs))
    × Perm zs numbers
    × IsSorted zs
sort_job_example = sort_job_lem whole_laws sort_input numbers 3 refl (omega arith)

is_prime_example : (is_prime 91 ≡ true) ↔ IsPrime 91
is_prime_example = is_prime_lem 91
