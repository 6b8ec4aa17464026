-- ===== src/Splitter/Rows.antt =====
-- The splitters of center/server/splitter.go that cut an array: the numbers of a sort, the rows of
-- a matrix.
use swarm_compute.Base.{ℕ, List, map, none, some, Result, ok, err, errorf}
use swarm_compute.Base.Value.{Value, Fields, end, field, array, get, as_arr}
use swarm_compute.Splitter.Slices.{split_slice}

module _ {N : Type 0} where
  abbrev pub sort_chunk : List (Value N) → Fields N
  sort_chunk chunk = field "data" (array chunk) end

  unfoldable pub split_sort : Fields N → ℕ → Result (List (Fields N))
  split_sort input n = elim (get "data" input) [
    | none ↦ err (errorf "input.data is required")
    | some raw ↦ elim (as_arr (some raw)) [
      | none ↦ err (errorf "input.data must be an array")
      | some arr ↦ ok (map sort_chunk (split_slice arr n))
    ]
  ]

  abbrev pub row_chunk : Value N → List (Value N) → Fields N
  row_chunk b chunk = field "rows" (array chunk) (field "b" b end)

  unfoldable pub split_matrix_mul : Fields N → ℕ → Result (List (Fields N))
  split_matrix_mul input n = elim (get "a" input) [
    | none ↦ err (errorf "input.a is required")
    | some a_raw ↦ elim (get "b" input) [
      | none ↦ err (errorf "input.b is required")
      | some b_raw ↦ elim (as_arr (some a_raw)) [
        | none ↦ err (errorf "input.a must be a 2D array")
        | some a_arr ↦ ok (map (row_chunk b_raw) (split_slice a_arr n))
      ]
    ]
  ]
