-- ===== src/Executor/Matrix.antt =====
-- site/server/exec_matrix.go.
use swarm_compute.Base.{
  ℕ, zero, suc, ◌+◌, List, [], ◌∷◌, map, none, some, length, Result, ok, err, errorf, errorf_int,
  ◌>>=◌, map_m, wrap_error, index, ◌==◌, if◌then◌else◌,
}
use swarm_compute.Base.Value.{Value, num, obj, Fields, end, field, array, get, as_num, as_arr}
use swarm_compute.Base.Float64.{Float64, const_f}

module _ {N : Type 0} where
  -- the inner loop of toMatrix, at row `i` and column `j`
  unfoldable pub to_row : ℕ → ℕ → List (Value N) → Result (List N)
  to_row i j [] = ok []
  to_row i j (v ∷ vs) = elim (as_num (some v)) [
    | none ↦ err (errorf_int "[%d][%d] is not a number" (i ∷ j ∷ []))
    | some n ↦ do ns ← to_row i (j + 1) vs; ok (n ∷ ns)
  ]

  unfoldable pub to_rows : ℕ → List (Value N) → Result (List (List N))
  unfolding to_row
  to_rows i [] = ok []
  to_rows i (v ∷ vs) = elim (as_arr (some v)) [
    | none ↦ err (errorf_int "row %d is not an array" (i ∷ []))
    | some row_arr ↦ do row ← to_row i 0 row_arr; rows ← to_rows (i + 1) vs; ok (row ∷ rows)
  ]

  unfoldable pub to_matrix : Value N → Result (List (List N))
  unfolding to_rows
  to_matrix raw = elim (as_arr (some raw)) [
    | none ↦ err (errorf "expected 2D array")
    | some outer_arr ↦ to_rows 0 outer_arr
  ]

module _ {N : Type 0} ⦃fl : Float64 N⦄ where
  -- `for k := 0; k < colsA; k++ { sum += row[k] * b[k][j] }`, with `left` rounds to go
  unfoldable pub dot : ℕ → List N → List (List N) → ℕ → ℕ → N → Result N
  dot zero row b j k sum = ok sum
  dot (suc left) row b j k sum = do
    x ← index row k
    b_row ← index b k
    y ← index b_row j
    dot left row b j (k + 1) (fl.add_f sum (fl.mul_f x y))

  -- `for j := 0; j < colsB; j++`, with `left` rounds to go
  unfoldable pub row_product : ℕ → ℕ → List N → List (List N) → ℕ → Result (List N)
  unfolding dot
  row_product zero cols_a row b j = ok []
  row_product (suc left) cols_a row b j = do
    sum ← dot cols_a row b j 0 (const_f 0)
    sums ← row_product left cols_a row b (j + 1)
    ok (sum ∷ sums)

  abbrev pub matrix_value : List (List N) → Value N
  matrix_value rows = array (map (λ row. array (map num row)) rows)

  -- the product, past the decoding of the two matrices
  unfoldable pub multiply : List (List N) → List (List N) → Result (Value N)
  unfolding row_product
  multiply [] b = ok (obj (field "rows" (array []) end))
  multiply (row ∷ rows) [] = ok (obj (field "rows" (array []) end))
  multiply (row ∷ rows) (b_row ∷ b) =
      let all = row ∷ rows in
      let product =
        map_m (λ r. row_product (length b_row) (length row) r (b_row ∷ b) 0) all >>= λ result.
        ok (obj (field "rows" (matrix_value result) end)) in
      if length row == length (b_row ∷ b)
      then product
      else err (
          errorf_int "dimension mismatch: A cols=%d, B rows=%d"
            (length row ∷ length (b_row ∷ b) ∷ []))

  unfoldable pub execute_matrix_mul : Fields N → Result (Value N)
  unfolding to_matrix multiply
  execute_matrix_mul input = elim (get "rows" input) [
    | none ↦ err (errorf "input.rows is required")
    | some rows_raw ↦ elim (get "b" input) [
      | none ↦ err (errorf "input.b is required")
      | some b_raw ↦ do
        rows ← wrap_error "input.rows: " (to_matrix rows_raw)
        b ← wrap_error "input.b: " (to_matrix b_raw)
        multiply rows b
    ]
  ]
