-- ===== src/Aggregator.antt =====
-- center/server/aggregator.go: the registry of aggregate functions.
pub mod Merge
pub mod MergeLaws
pub mod Counts
pub mod Totals
pub mod Matches
use text.Mathlib.Text.{◌==◌ as str_eq}
use swarm_compute.Base.{String, List, Option, some, none, Result, if◌then◌else◌}
use swarm_compute.Base.Value.{Value}
use swarm_compute.Base.Float64.{Float64}
use swarm_compute.Aggregator.Merge.{aggregate_sort}
use swarm_compute.Aggregator.Counts.{aggregate_word_count}
use swarm_compute.Aggregator.Totals.{
  aggregate_pi_estimate, aggregate_prime_count, aggregate_hash_crack,
}
use swarm_compute.Aggregator.Matches.{aggregate_grep, aggregate_matrix_mul}

abbrev pub AggregateFunc : Type 0 → Type 0
AggregateFunc N = List (Value N) → Result (Value N)

module _ {N : Type 0} ⦃fl : Float64 N⦄ where
  -- `aggregators[typeID]`
  unfoldable pub aggregators : String → Option (AggregateFunc N)
  aggregators type_id =
      if str_eq type_id "word-count"
      then some aggregate_word_count
      else if str_eq type_id "sort"
      then some aggregate_sort
      else if str_eq type_id "matrix-mul"
      then some aggregate_matrix_mul
      else if str_eq type_id "pi-estimate"
      then some aggregate_pi_estimate
      else if str_eq type_id "grep"
      then some aggregate_grep
      else if str_eq type_id "prime-count"
      then some aggregate_prime_count
      else if str_eq type_id "hash-crack"
      then some aggregate_hash_crack
      else none
