-- ===== src/Aggregator/Counts.antt =====
-- aggregateWordCount of center/server/aggregator.go. A Go map is a list of its entries, each key
-- once; the loops over it take them in the order of the list.
use text.Mathlib.Text.{◌==◌ as str_eq}
use swarm_compute.Base.{String, List, [], ◌∷◌, Option, none, some, Result, ok, if◌then◌else◌}
use swarm_compute.Base.Value.{Value, num, obj, Fields, end, field, as_num, as_obj}
use swarm_compute.Base.Float64.{Float64, const_f}

module _ {N : Type 0} ⦃fl : Float64 N⦄ where
  -- `merged[k] += n`: a missing key counts as 0
  unfoldable pub add_count : String → N → List (String × N) → List (String × N)
  add_count k n [] = (k, fl.add_f (const_f 0) n) ∷ []
  add_count k n ((j, m) ∷ rest) =
      if str_eq j k then (j, fl.add_f m n) ∷ rest else (j, m) ∷ add_count k n rest

  -- an entry whose value is no number is passed over
  abbrev pub add_value : String → Option N → List (String × N) → List (String × N)
  add_value k none merged = merged
  add_value k (some n) merged = add_count k n merged

  -- `for k, v := range m`
  unfoldable pub add_entries : Fields N → List (String × N) → List (String × N)
  unfolding add_count
  add_entries end merged = merged
  add_entries (field k v m) merged = add_entries m (add_value k (as_num (some v)) merged)

  -- `for _, out := range outputs`: an output that is no map is passed over
  unfoldable pub merge_counts : List (Value N) → List (String × N) → List (String × N)
  unfolding add_entries
  merge_counts [] merged = merged
  merge_counts (out ∷ outs) merged = elim (as_obj (some out)) [
    | none ↦ merge_counts outs merged
    | some m ↦ merge_counts outs (add_entries m merged)
  ]

  -- `result[k] = int(v)` for each entry
  unfoldable pub int_counts : List (String × N) → Fields N
  int_counts [] = end
  int_counts ((k, v) ∷ merged) = field k (num (fl.of_int (fl.to_int v))) (int_counts merged)

  unfoldable pub aggregate_word_count : List (Value N) → Result (Value N)
  unfolding merge_counts int_counts
  aggregate_word_count outputs = ok (obj (int_counts (merge_counts outputs [])))
