-- ===== src/Scheduler/Create.antt =====
-- CreateJob and validateInput of center/server/scheduler.go.
use text.Mathlib.Text.{◌==◌ as str_eq}
use swarm_compute.Base.{
  ℕ, ◌*◌, String, List, [], ◌∷◌, Option, none, some, false, ◌||◌, length, Result, ok, err, errorf,
  errorf_str, errorf_int, ◌>>=◌, wrap_error, ltb, if◌then◌else◌,
}
use swarm_compute.Base.Int.{ℤ, pos, pos_part, leb_ℤ}
use swarm_compute.Base.Map.{lookup, insert}
use swarm_compute.Base.Text.{bytes}
use swarm_compute.Base.Value.{Value, Fields, get, as_arr, as_str}
use swarm_compute.Scheduler.Types.{Job, JobStatus, JobSubmitRequest, Store}

abbrev pub max_sort_elements : ℕ
max_sort_elements = 10_000_000

abbrev pub max_matrix_dim : ℕ
max_matrix_dim = 1000

abbrev pub max_text_bytes : ℕ
max_text_bytes = 10 * 1024 * 1024

-- a value that is not positive gives the default
abbrev pub positive_or : ℕ → ℤ → ℕ
positive_or d x = if leb_ℤ x (pos 0) then d else pos_part x

abbrev pub check_text : Option String → Result (Unit {0})
check_text none = ok tt
check_text (some text) =
    if ltb max_text_bytes (length (bytes text))
    then err
        (errorf_int "text too large (%d bytes, max %d)" (length (bytes text) ∷ max_text_bytes ∷ []))
    else ok tt

module _ {N : Type 0} where
  -- `if xs, ok := ...; ok && len(xs) > limit { return error }`
  abbrev pub check_array : String → ℕ → Option (List (Value N)) → Result (Unit {0})
  check_array format limit none = ok tt
  check_array format limit (some xs) =
      if ltb limit (length xs) then err (errorf_int format (length xs ∷ limit ∷ [])) else ok tt

  unfoldable pub validate_input : String → Fields N → Result (Unit {0})
  validate_input type_id input =
      if str_eq type_id "sort"
      then check_array "sort: array too large (%d elements, max %d)" max_sort_elements
          (as_arr (get "data" input))
      else if str_eq type_id "matrix-mul"
      then check_array "matrix: too many rows (%d, max %d)" max_matrix_dim (as_arr (get "a" input))
      else if str_eq type_id "word-count" || str_eq type_id "grep"
      then check_text (as_str (get "text" input))
      else ok tt

  abbrev pub new_job : JobSubmitRequest N → String → ℕ → Job N
  new_job req id now = record {
    job_id = id;
    type_id = req.type_id;
    status = JobStatus.pending;
    input = req.input;
    result = none;
    tasks = [];
    error = none;
    created_at = now;
    finished_at = 0;
    max_retry = positive_or 2 req.max_retry;
    timeout_sec = positive_or 60 req.timeout_sec;
    cancel = false;
  }

  -- `id` is what newID returns, and `now` what the clock shows.
  unfoldable pub create_job : JobSubmitRequest N → String → ℕ → Store N → Result (Job N × Store N)
  create_job req id now s =
      let job = new_job req id now in
      if str_eq req.type_id ""
      then err (errorf "missing typeId")
      else elim (lookup req.type_id s.task_types) [
        | none ↦ err (errorf_str "unknown task type: %s" req.type_id)
        | some _ ↦ wrap_error "input validation: " (validate_input req.type_id req.input) >>= λ _.
            ok (job, record s { jobs = insert id job s.jobs })
      ]
