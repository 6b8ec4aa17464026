-- ===== src/Executor.antt =====
-- site/server/executor.go and types_task.go: the registry of executors, and runTask.
pub mod GoLibrary
pub mod Sort
pub mod Prime
pub mod PrimeLaws
pub mod PrimeCounts
pub mod Matrix
pub mod Grep
pub mod WordCount
pub mod Pi
pub mod HashCrack
pub mod Server
use text.Mathlib.Text.{◌==◌ as str_eq}
use swarm_compute.Base.{
  ℕ, String, Option, none, some, Result, ok, err, panic, Error, errorf_str, if◌then◌else◌,
}
use swarm_compute.Base.Value.{Value, null, Fields}
use swarm_compute.Base.Float64.{Float64}
use swarm_compute.Executor.GoLibrary.{Runtime}
use swarm_compute.Executor.Sort.{execute_sort}
use swarm_compute.Executor.Prime.{execute_prime_count}
use swarm_compute.Executor.Matrix.{execute_matrix_mul}
use swarm_compute.Executor.Grep.{execute_grep}
use swarm_compute.Executor.WordCount.{execute_word_count}
use swarm_compute.Executor.Pi.{execute_pi_estimate}
use swarm_compute.Executor.HashCrack.{execute_hash_crack}

pub record TaskRequest (N : Type 0) : Type 0 where
  pub task_id : String
  pub type_id : String
  pub input : Fields N

-- The Status of a response, "done" or "error".
pub data TaskStatus : Type 0 where
  done error : TaskStatus

-- Error is the empty string where it is `none`, and Output the nil interface where it is null.
pub record TaskResponse (N : Type 0) : Type 0 where
  pub task_id : String
  pub instance_id : String
  pub status : TaskStatus
  pub output : Value N
  pub error : Option Error
  pub duration_ms : ℕ

module _ {N : Type 0} ⦃fl : Float64 N⦄ where
  -- `executors[typeID]`
  unfoldable pub executors : Runtime N → String → Option (Fields N → Result (Value N))
  executors rt type_id =
      if str_eq type_id "word-count"
      then some (execute_word_count rt)
      else if str_eq type_id "sort"
      then some execute_sort
      else if str_eq type_id "matrix-mul"
      then some execute_matrix_mul
      else if str_eq type_id "pi-estimate"
      then some (execute_pi_estimate rt)
      else if str_eq type_id "grep"
      then some (execute_grep rt)
      else if str_eq type_id "prime-count"
      then some execute_prime_count
      else if str_eq type_id "hash-crack"
      then some (execute_hash_crack rt)
      else none

  -- the response for what the executor returned after `dur` milliseconds
  abbrev pub respond : String → String → ℕ → Result (Value N) → Result (TaskResponse N)
  respond task_id instance_id dur panic = panic
  respond task_id instance_id dur (err e) = ok (record {
    task_id = task_id;
    instance_id = instance_id;
    status = TaskStatus.error;
    output = null;
    error = some e;
    duration_ms = dur;
  })
  respond task_id instance_id dur (ok output) = ok (record {
    task_id = task_id;
    instance_id = instance_id;
    status = done;
    output = output;
    error = none;
    duration_ms = dur;
  })

  -- `dur` is the time that the clock measures; a panic of the executor is a panic of runTask.
  unfoldable pub run_task : Runtime N → String → ℕ → TaskRequest N → Result (TaskResponse N)
  unfolding executors
  run_task rt instance_id dur req = elim (executors rt req.type_id) [
    | none ↦
        respond req.task_id instance_id 0 (err (errorf_str "unknown task type: %s" req.type_id))
    | some fn ↦ respond req.task_id instance_id dur (fn req.input)
  ]
