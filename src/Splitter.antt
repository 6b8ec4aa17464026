-- ===== src/Splitter.antt =====
-- center/server/splitter.go: the registry of split functions. A split function cuts the input of a
-- job for `n` workers, and `n` is a length in every call.
pub mod Slices
pub mod SliceLaws
pub mod Lines
pub mod Rows
pub mod Samples
pub mod Ranges
pub mod Charset
pub mod CharsetLaws
pub mod SampleLaws
pub mod RangeLaws
use text.Mathlib.Text.{◌==◌ as str_eq}
use swarm_compute.Base.{String, ℕ, List, Option, some, none, Result, if◌then◌else◌}
use swarm_compute.Base.Value.{Fields}
use swarm_compute.Base.Float64.{Float64}
use swarm_compute.Splitter.Lines.{split_word_count, split_grep}
use swarm_compute.Splitter.Rows.{split_sort, split_matrix_mul}
use swarm_compute.Splitter.Samples.{split_pi_estimate}
use swarm_compute.Splitter.Ranges.{split_prime_count}
use swarm_compute.Splitter.Charset.{split_hash_crack}

abbrev pub SplitFunc : Type 0 → Type 0
SplitFunc N = Fields N → ℕ → Result (List (Fields N))

module _ {N : Type 0} ⦃fl : Float64 N⦄ where
  -- `splitters[typeID]`
  unfoldable pub splitters : String → Option (SplitFunc N)
  splitters type_id =
      if str_eq type_id "word-count"
      then some split_word_count
      else if str_eq type_id "sort"
      then some split_sort
      else if str_eq type_id "matrix-mul"
      then some split_matrix_mul
      else if str_eq type_id "pi-estimate"
      then some split_pi_estimate
      else if str_eq type_id "grep"
      then some split_grep
      else if str_eq type_id "prime-count"
      then some split_prime_count
      else if str_eq type_id "hash-crack"
      then some split_hash_crack
      else none
