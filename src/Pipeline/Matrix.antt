-- ===== src/Pipeline/Matrix.antt =====
-- The matrix-mul job: splitMatrixMul, executeMatrixMul and aggregateMatrixMul together.
use mathlib.Core.List.{map-map, map-append}
use swarm_compute.Base.{
  ℕ, zero, suc, ◌+◌, ◌≤◌, ◌<◌, ◌≡◌, refl, List, [], ◌∷◌, map, some, true, length, concat, All,
  All-++, ok, map_m, map_m-map, index, ◌>>=◌, >>=-ext, ◌==◌, arith,
}
use swarm_compute.Base.Value.{Value, Fields, num, obj, array, get, field, end, elements-items}
use swarm_compute.Base.Float64.{Float64, const_f}
use swarm_compute.Splitter.Slices.{split_slice}
use swarm_compute.Splitter.SliceLaws.{split_slice_lem, split_slice-map}
use swarm_compute.Splitter.Rows.{split_matrix_mul, row_chunk}
use swarm_compute.Executor.Matrix.{
  to_row, to_rows, to_matrix, dot, row_product, matrix_value, multiply, execute_matrix_mul,
}
use swarm_compute.Aggregator.Matches.{all_rows, aggregate_matrix_mul}
use swarm_compute.Pipeline.{map_reduce}

module _ {N : Type 0} ⦃fl : Float64 N⦄ where
  -- the entry at an index, 0 past the end
  abbrev pub entry : List N → ℕ → N
  entry [] j = const_f 0
  entry (x ∷ xs) zero = x
  entry (x ∷ xs) (suc j) = entry xs j

  abbrev pub column : List (List N) → ℕ → List N
  column b j = map (λ r. entry r j) b

  -- s + x1 y1 + x2 y2 + ...
  abbrev pub inner : N → List N → List N → N
  inner s (x ∷ xs) (y ∷ ys) = inner (fl.add_f s (fl.mul_f x y)) xs ys
  inner s _ _ = s

  -- The inner products of a row with `c` columns from `j` on.
  abbrev pub row_times : List N → List (List N) → ℕ → ℕ → List N
  row_times row b zero j = []
  row_times row b (suc c) j = inner (const_f 0) row (column b j) ∷ row_times row b c (j + 1)

  -- The product of a matrix and a matrix of `c` columns.
  abbrev pub times : List (List N) → List (List N) → ℕ → List (List N)
  times a b c = map (λ row. row_times row b c 0) a

  index_lem : (r : List N) (j : ℕ) → j < length r → index r j ≡ ok (entry r j)
  index_lem [] j h = absurd (omega arith)
  index_lem (x ∷ r) zero h = refl
  index_lem (x ∷ r) (suc j) h = index_lem r j (omega arith)

  dot_shift :
      (left : ℕ) (x : N) (row r : List N) (b : List (List N)) (j k : ℕ) (s : N)
      → dot left (x ∷ row) (r ∷ b) j (suc k) s ≡ dot left row b j k s
  unfolding dot
  dot_shift zero x row r b j k s = refl
  dot_shift (suc left) x row r b j k s =
      let same : suc k + 1 ≡ suc (k + 1) = omega arith in
      rw same (
        >>=-ext (index row k) (λ x'. >>=-ext (index b k) (λ b_row.
          >>=-ext (index b_row j)
            (λ y. dot_shift left x row r b j (k + 1) (fl.add_f s (fl.mul_f x' y))))))

  dot_lem :
      (row : List N) (b : List (List N)) (c j : ℕ) (s : N)
      → length row ≡ length b
      → All (λ r. length r ≡ c) b
      → j < c
      → dot (length row) row b j 0 s ≡ ok (inner s row (column b j))
  unfolding dot
  dot_lem [] b c j s e h l = refl
  dot_lem (x ∷ row) [] c j s e h l = absurd (omega arith)
  dot_lem (x ∷ row) (r ∷ b) c j s e h l =
      rw (index_lem r j (omega (arith, h.0)), dot_shift (length row) x row r b j 0)
        (dot_lem row b c j (fl.add_f s (fl.mul_f x (entry r j))) (omega arith) h.1 l)

  row_product_lem :
      (row : List N) (b : List (List N)) (c : ℕ) (left j : ℕ)
      → length row ≡ length b
      → All (λ r. length r ≡ c) b
      → j + left ≤ c
      → row_product left (length row) row b j ≡ ok (row_times row b left j)
  unfolding row_product
  row_product_lem row b c zero j e h l = refl
  row_product_lem row b c (suc left) j e h l = rw (
    dot_lem row b c j (const_f 0) e h (omega arith),
    row_product_lem row b c left (j + 1) e h (omega arith),
  )

  unfoldable row_value : List N → Value N
  row_value row = array (map num row)

  to_row-num : (i j : ℕ) (row : List N) → to_row i j (map num row) ≡ ok row
  unfolding to_row
  to_row-num i j [] = refl
  to_row-num i j (x ∷ row) = rw (to_row-num i (j + 1) row)

  to_rows-num : (i : ℕ) (rows : List (List N)) → to_rows i (map row_value rows) ≡ ok rows
  unfolding to_rows row_value
  to_rows-num i [] = refl
  to_rows-num i (row ∷ rows) =
      rw (elements-items (map num row), to_row-num i 0 row, to_rows-num (i + 1) rows)

  to_matrix-num : (rows : List (List N)) → to_matrix (array (map row_value rows)) ≡ ok rows
  unfolding to_matrix
  to_matrix-num rows = rw (elements-items (map row_value rows)) (to_rows-num 0 rows)

  rows_product :
      (rows b : List (List N)) (c : ℕ)
      → All (λ row. length row ≡ length b) rows
      → All (λ r. length r ≡ c) b
      → map_m (λ row. row_product c (length b) row b 0) rows ≡ ok (times rows b c)
  rows_product [] b c hs h = refl
  rows_product (row ∷ rows) b c hs h =
      rw (← hs.0, row_product_lem row b c c 0 hs.0 h (omega arith))
        (rw (rows_product rows b c hs.1 h))

  -- The executor takes the sizes from the first rows.
  rows_answer :
      (rows b : List (List N)) (c cols_b cols_a : ℕ) {result : List (List N)}
      → cols_b ≡ c
      → cols_a ≡ length b
      → map_m (λ row. row_product c (length b) row b 0) rows ≡ ok result
      → (map_m (λ row. row_product cols_b cols_a row b 0) rows >>= λ result.
          ok (obj (field "rows" (matrix_value result) end)))
        ≡ ok (obj (field "rows" (matrix_value result) end))
  rows_answer rows b c cols_b cols_a e e' run = rw (e, e', run)

  multiply_lem :
      (rows b : List (List N)) (c : ℕ)
      → 0 < length b
      → All (λ row. length row ≡ length b) rows
      → All (λ r. length r ≡ c) b
      → multiply rows b ≡ ok (obj (field "rows" (matrix_value (times rows b c)) end))
  unfolding multiply
  multiply_lem rows [] c some_rows hs h = absurd (omega arith)
  multiply_lem [] (r ∷ b) c some_rows hs h = refl
  multiply_lem (row ∷ rows) (r ∷ b) c some_rows hs h =
      let fits : (length row == length (r ∷ b)) ≡ true = ground (arith, hs.0) in
      rw fits (
        rows_answer (row ∷ rows) (r ∷ b) c (length r) (length row) h.0 hs.0
          (rows_product (row ∷ rows) (r ∷ b) c hs h))

  chunk_product :
      (b : List (List N)) (c : ℕ) (rows : List (List N))
      → 0 < length b
      → All (λ r. length r ≡ c) b
      → All (λ row. length row ≡ length b) rows
      → execute_matrix_mul (row_chunk (array (map row_value b)) (map row_value rows))
        ≡ ok (obj (field "rows" (matrix_value (times rows b c)) end))
  unfolding execute_matrix_mul
  chunk_product b c rows some_rows h hs =
      rw (to_matrix-num rows, to_matrix-num b) (multiply_lem rows b c some_rows hs h)

  chunk_products :
      (b : List (List N)) (c : ℕ) (chunks : List (List (List N)))
      → 0 < length b
      → All (λ r. length r ≡ c) b
      → All (λ row. length row ≡ length b) (concat chunks)
      → All
          (λ rows.
            execute_matrix_mul (row_chunk (array (map row_value b)) (map row_value rows))
            ≡ ok (obj (field "rows" (matrix_value (times rows b c)) end)))
          chunks
  chunk_products b c [] some_rows h hs = tt
  chunk_products b c (rows ∷ chunks) some_rows h hs =
      let (now, later) = All-++ _ rows (concat chunks) hs in
      (chunk_product b c rows some_rows h now, chunk_products b c chunks some_rows h later)

  all_rows-product :
      (b : List (List N)) (c : ℕ) (chunks : List (List (List N)))
      → all_rows (map (λ rows. obj (field "rows" (matrix_value (times rows b c)) end)) chunks)
        ≡ map row_value (times (concat chunks) b c)
  unfolding all_rows row_value
  all_rows-product b c [] = refl
  all_rows-product b c (rows ∷ chunks) = rw (
    elements-items (map row_value (times rows b c)),
    all_rows-product b c chunks,
    map-append,
    map-append,
  )

  split_matrix_mul-num :
      (input : Fields N) (a : List (List N)) (b_raw : Value N) (n : ℕ)
      → get "a" input ≡ some (matrix_value a)
      → get "b" input ≡ some b_raw
      → split_matrix_mul input n
        ≡ ok (map (row_chunk b_raw) (map (map row_value) (split_slice a n)))
  unfolding split_matrix_mul row_value
  split_matrix_mul-num input a b_raw n ha hb =
      rw (ha, hb, split_matrix_mul, elements-items (map row_value a), split_slice-map row_value a n)

  -- For any number of workers, a matrix-mul job on a first matrix whose rows are as long as the
  -- second one is high, and a second one with rows of the same length and at least one row,
  -- returns the product of the two, each entry summed up from the left.
  pub matrix_job_lem :
      (input : Fields N) (a b : List (List N)) (c n : ℕ)
      → get "a" input ≡ some (matrix_value a)
      → get "b" input ≡ some (matrix_value b)
      → 0 < length b
      → All (λ row. length row ≡ length b) a
      → All (λ row. length row ≡ c) b
      → map_reduce split_matrix_mul execute_matrix_mul aggregate_matrix_mul input n
        ≡ ok (matrix_value (times a b c))
  unfolding aggregate_matrix_mul row_value
  matrix_job_lem input a b c n ha hb some_rows hs h =
      let chunks = split_slice a n in
      let whole = (split_slice_lem a n).0 in
      let sized : All (λ row. length row ≡ length b) (concat chunks) = rw whole hs in
      rw (
        split_matrix_mul-num input a (matrix_value b) n ha hb,
        map-map (row_chunk (matrix_value b)) (map row_value) chunks,
        map_m-map execute_matrix_mul (λ rows. row_chunk (matrix_value b) (map row_value rows))
            (λ rows. obj (field "rows" (matrix_value (times rows b c)) end)) chunks
            (chunk_products b c chunks some_rows h sized),
        all_rows-product b c chunks,
        whole,
      )
