-- ===== src/Executor/Sort.antt =====
-- site/server/exec_sort.go.
use swarm_compute.Base.{
  ℕ, ◌+◌, List, [], ◌∷◌, map, none, some, length, Result, ok, err, errorf, errorf_int, ◌>>=◌, ltb,
  if◌then◌else◌,
}
use swarm_compute.Base.Value.{Value, num, Fields, array, get, as_num, as_arr}
use swarm_compute.Base.Float64.{Float64}
use swarm_compute.Base.Sort.{sort_floats}

module _ {N : Type 0} where
  -- the loop that copies the numbers, at index `i`
  unfoldable pub data_nums : ℕ → List (Value N) → Result (List N)
  data_nums i [] = ok []
  data_nums i (v ∷ vs) = elim (as_num (some v)) [
    | none ↦ err (errorf_int "input.data[%d] is not a number" (i ∷ []))
    | some n ↦ do ns ← data_nums (i + 1) vs; ok (n ∷ ns)
  ]

module _ {N : Type 0} ⦃fl : Float64 N⦄ where
  unfoldable pub execute_sort : Fields N → Result (Value N)
  unfolding data_nums sort_floats
  execute_sort input = elim (get "data" input) [
    | none ↦ err (errorf "input.data is required")
    | some raw ↦ elim (as_arr (some raw)) [
      | none ↦ err (errorf "input.data must be an array")
      | some arr ↦
          if ltb 10_000_000 (length arr)
          then err (errorf_int "array too large (%d elements, max 10M)" (length arr ∷ []))
          else do nums ← data_nums 0 arr; ok (array (map num (sort_floats nums)))
    ]
  ]
