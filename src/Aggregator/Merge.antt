-- ===== src/Aggregator/Merge.antt =====
-- aggregateSort, mergeKSorted and mergeTwo of center/server/aggregator.go.
use swarm_compute.Base.{
  ℕ, zero, suc, ◌/◌, List, [], ◌∷◌, map, none, some, true, false, length, take, drop, Result, ok,
  err, errorf, ◌>>=◌,
}
use swarm_compute.Base.Value.{Value, num, array, as_num, as_arr}
use swarm_compute.Base.Float64.{Float64}

module _ {N : Type 0} ⦃fl : Float64 N⦄ where
  -- The loop of mergeTwo, over a[i:] and b[j:].
  unfoldable pub merge_two : List N → List N → List N
  merge_two [] b = b
  merge_two (x ∷ a) [] = x ∷ a
  merge_two (x ∷ a) (y ∷ b) = elim (fl.le_f x y) [
    | true ↦ x ∷ merge_two a (y ∷ b)
    | false ↦ y ∷ merge_two (x ∷ a) b
  ]

  -- The recursion on the halves, to a depth of at most `fuel`.
  unfoldable pub merge_halves : ℕ → List (List N) → List N
  unfolding merge_two
  merge_halves fuel [] = []
  merge_halves fuel (a ∷ []) = a
  merge_halves zero (a ∷ b ∷ rest) = []
  merge_halves (suc fuel) (a ∷ b ∷ rest) =
      let arrays = a ∷ b ∷ rest in
      let mid = length arrays / 2 in
      merge_two (merge_halves fuel (take mid arrays)) (merge_halves fuel (drop mid arrays))

  -- The halves are shorter, so the number of arrays is enough depth.
  unfoldable pub merge_k_sorted : List (List N) → List N
  unfolding merge_halves
  merge_k_sorted arrays = merge_halves (length arrays) arrays

  -- the inner loop, over one output
  unfoldable pub sorted_nums : List (Value N) → Result (List N)
  sorted_nums [] = ok []
  sorted_nums (v ∷ vs) = elim (as_num (some v)) [
    | none ↦ err (errorf "non-numeric value in sorted output")
    | some n ↦ do ns ← sorted_nums vs; ok (n ∷ ns)
  ]

  -- the outer loop: an output that is no array is passed over
  unfoldable pub collect_arrays : List (Value N) → Result (List (List N))
  unfolding sorted_nums
  collect_arrays [] = ok []
  collect_arrays (out ∷ outs) = elim (as_arr (some out)) [
    | none ↦ collect_arrays outs
    | some arr ↦ do nums ← sorted_nums arr; rest ← collect_arrays outs; ok (nums ∷ rest)
  ]

  unfoldable pub aggregate_sort : List (Value N) → Result (Value N)
  unfolding collect_arrays merge_k_sorted
  aggregate_sort outputs = do
    arrays ← collect_arrays outputs
    ok (array (map num (merge_k_sorted arrays)))
