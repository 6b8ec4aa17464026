-- ===== src/Pipeline/Sort.antt =====
-- The sort job: splitSort, executeSort and aggregateSort together.
use mathlib.Core.List.{map-map}
use mathlib.Core.List.Perm
use swarm_compute.Base.{
  ℕ, ◌+◌, ◌≤◌, ◌≡◌, refl, List, [], ◌∷◌, map, some, false, length, concat, All, Perm, Result, ok,
  map_m-map, arith, ltb, length-map,
}
use swarm_compute.Base.Value.{Value, Fields, num, array, get, elements-items}
use swarm_compute.Base.Float64.{Float64, FloatLaws}
use swarm_compute.Base.Sort.{IsSorted, sort_floats, sort_floats-IsSorted, sort_by-perm}
use swarm_compute.Splitter.Slices.{split_slice}
use swarm_compute.Splitter.SliceLaws.{split_slice_lem, split_slice-map, split_slice-short}
use swarm_compute.Splitter.Rows.{split_sort, sort_chunk}
use swarm_compute.Executor.Sort.{data_nums, execute_sort}
use swarm_compute.Aggregator.Merge.{sorted_nums, collect_arrays, aggregate_sort, merge_k_sorted}
use swarm_compute.Aggregator.MergeLaws.{merge_k_sorted_lem}
use swarm_compute.Pipeline.{map_reduce}

module _ {N : Type 0} where
  -- the array of some numbers, as it is sent
  abbrev pub num_array : List N → Value N
  num_array xs = array (map num xs)

  data_nums-num : (i : ℕ) (xs : List N) → data_nums i (map num xs) ≡ ok xs
  unfolding data_nums
  data_nums-num i [] = refl
  data_nums-num i (x ∷ xs) = rw (data_nums-num (i + 1) xs)

module _ {N : Type 0} ⦃fl : Float64 N⦄ where
  sorted_nums-num : (xs : List N) → sorted_nums (map num xs) ≡ ok xs
  unfolding sorted_nums
  sorted_nums-num [] = refl
  sorted_nums-num (x ∷ xs) = rw (sorted_nums-num xs)

  collect_arrays-num : (xss : List (List N)) → collect_arrays (map num_array xss) ≡ ok xss
  unfolding collect_arrays
  collect_arrays-num [] = refl
  collect_arrays-num (xs ∷ xss) =
      rw (elements-items (map num xs), sorted_nums-num xs, collect_arrays-num xss)

  execute_sort-chunk :
      (xs : List N)
      → length xs ≤ 10_000_000
      → execute_sort (sort_chunk (map num xs)) ≡ ok (num_array (sort_floats xs))
  unfolding execute_sort
  execute_sort-chunk xs h =
      let fits : ltb 10_000_000 (length xs) ≡ false = ground arith in
      rw (elements-items (map num xs), length-map num xs, fits, data_nums-num 0 xs)

  -- what an executor has to make of each chunk
  abbrev pub IsSorting : (Fields N → Result (Value N)) → List (List N) → Type 0
  IsSorting execute =
      All (λ xs. execute (sort_chunk (map num xs)) ≡ ok (num_array (sort_floats xs)))

  execute_sort-chunks :
      (xss : List (List N)) → All (λ xs. length xs ≤ 10_000_000) xss → IsSorting execute_sort xss
  execute_sort-chunks [] h = tt
  execute_sort-chunks (xs ∷ xss) h = (execute_sort-chunk xs h.0, execute_sort-chunks xss h.1)

  pub chunks-IsSorting :
      (xs : List N) (n : ℕ) → length xs ≤ 10_000_000 → IsSorting execute_sort (split_slice xs n)
  chunks-IsSorting xs n h =
      execute_sort-chunks (split_slice xs n) (split_slice-short xs n 10_000_000 h)

  split_sort-num :
      (input : Fields N) (xs : List N) (n : ℕ)
      → get "data" input ≡ some (num_array xs)
      → split_sort input n ≡ ok (map sort_chunk (map (map num) (split_slice xs n)))
  unfolding split_sort
  split_sort-num input xs n h =
      rw (h, split_sort, elements-items (map num xs), split_slice-map num xs n)

  -- The result of the job: the merge of the sorted chunks.
  sort_job_run :
      (execute : Fields N → Result (Value N)) (input : Fields N) (xs : List N) (n : ℕ)
      → get "data" input ≡ some (num_array xs)
      → IsSorting execute (split_slice xs n)
      → map_reduce split_sort execute aggregate_sort input n
        ≡ ok (num_array (merge_k_sorted (map sort_floats (split_slice xs n))))
  unfolding aggregate_sort
  sort_job_run execute input xs n h k =
      let chunks = split_slice xs n in
      rw (
        split_sort-num input xs n h,
        map-map sort_chunk (map num) chunks,
        map_m-map execute (λ ys. sort_chunk (map num ys)) (λ ys. num_array (sort_floats ys)) chunks
            k,
        ← map-map num_array sort_floats chunks,
        collect_arrays-num (map sort_floats chunks),
      )

  concat-sort_floats-perm : (xss : List (List N)) → Perm (concat (map sort_floats xss)) (concat xss)
  unfolding sort_floats
  concat-sort_floats-perm [] = Perm.refl []
  concat-sort_floats-perm (xs ∷ xss) = Perm.append (sort_by-perm _ xs) (concat-sort_floats-perm xss)

module _ {N : Type 0} ⦃fl : Float64 N⦄ (laws : FloatLaws N) where
  All-sort_floats : (xss : List (List N)) → All IsSorted (map sort_floats xss)
  All-sort_floats [] = tt
  All-sort_floats (xs ∷ xss) = (sort_floats-IsSorted laws xs, All-sort_floats xss)

  pub sorting_job :
      (execute : Fields N → Result (Value N)) (input : Fields N) (xs : List N) (n : ℕ)
      → get "data" input ≡ some (num_array xs)
      → IsSorting execute (split_slice xs n)
      → (zs : List N) × (map_reduce split_sort execute aggregate_sort input n ≡ ok (num_array zs))
        × Perm zs xs
        × IsSorted zs
  sorting_job execute input xs n h k =
      let parts = map sort_floats (split_slice xs n) in
      let (same, ordered) = merge_k_sorted_lem laws parts in
      (
        merge_k_sorted parts,
        sort_job_run execute input xs n h k,
        rw (split_slice_lem xs n).0 at
            (Perm.trans same (concat-sort_floats-perm (split_slice xs n))),
        ordered (All-sort_floats (split_slice xs n)),
      )

  -- For any number of workers, a sort job on at most ten million numbers, which is split, sorted
  -- in parts and merged, returns those numbers, each as often as it was given, in ascending order.
  -- The comparison of numbers is total and transitive.
  pub sort_job_lem :
      (input : Fields N) (xs : List N) (n : ℕ)
      → get "data" input ≡ some (num_array xs)
      → length xs ≤ 10_000_000
      → (zs : List N) × (map_reduce split_sort execute_sort aggregate_sort input n
          ≡ ok (num_array zs))
        × Perm zs xs
        × IsSorted zs
  sort_job_lem input xs n h k = sorting_job execute_sort input xs n h (chunks-IsSorting xs n k)
