-- ===== src/Aggregator/Matches.antt =====
-- aggregateGrep and aggregateMatrixMul of center/server/aggregator.go.
use swarm_compute.Base.{List, [], ◌∷◌, ◌++◌, map, Bool, Option, none, some, Result, ok}
use swarm_compute.Base.Int.{ℤ, pos}
use swarm_compute.Base.Value.{
  Value, num, obj, Fields, end, field, array, get, as_num, as_arr, as_obj,
}
use swarm_compute.Base.Float64.{Float64, const_f, lt_f}
use swarm_compute.Base.Sort.{sort_by}
use swarm_compute.Aggregator.Totals.{add_int}

module _ {N : Type 0} ⦃fl : Float64 N⦄ where
  -- The maps of a list, other values passed over.
  abbrev pub maps : List (Value N) → List (Fields N)
  maps [] = []
  maps (obj m ∷ vs) = m ∷ maps vs
  maps (_ ∷ vs) = maps vs

  abbrev pub matches_of : Option (List (Value N)) → List (Fields N)
  matches_of none = []
  matches_of (some vs) = maps vs

  -- (allMatches, totalCount) after the loop
  unfoldable pub grep_totals : List (Value N) → List (Fields N) → ℤ → List (Fields N) × ℤ
  grep_totals [] matches count = (matches, count)
  grep_totals (out ∷ outs) matches count = elim (as_obj (some out)) [
    | none ↦ grep_totals outs matches count
    | some m ↦
        grep_totals outs (matches ++ matches_of (as_arr (get "matches" m)))
          (add_int count (as_num (get "count" m)))
  ]

  -- `li, _ := m["line"].(float64)`: 0 where it is no number
  abbrev pub line_or_zero : Option N → N
  line_or_zero none = const_f 0
  line_or_zero (some x) = x

  abbrev pub line_of : Fields N → N
  line_of m = line_or_zero (as_num (get "line" m))

  abbrev pub line_less : Fields N → Fields N → Bool
  line_less a b = lt_f (line_of a) (line_of b)

  unfoldable pub aggregate_grep : List (Value N) → Result (Value N)
  unfolding grep_totals sort_by
  aggregate_grep outputs =
      let (matches, count) = grep_totals outputs [] (pos 0) in
      ok (
        obj (
          field "matches" (array (map obj (sort_by line_less matches)))
            (field "count" (num (fl.of_int count)) end)))

  -- the rows of one output: none where it is no map, or its rows are no array
  abbrev pub rows_of : Option (Fields N) → List (Value N)
  rows_of none = []
  rows_of (some m) = elim (as_arr (get "rows" m)) [ none ↦ [] | some rows ↦ rows ]

  unfoldable pub all_rows : List (Value N) → List (Value N)
  all_rows [] = []
  all_rows (out ∷ outs) = rows_of (as_obj (some out)) ++ all_rows outs

  unfoldable pub aggregate_matrix_mul : List (Value N) → Result (Value N)
  unfolding all_rows
  aggregate_matrix_mul outputs = ok (array (all_rows outputs))
