-- ===== src/Scheduler/Execute.antt =====
-- ExecuteJob, failJob and getHealthyWorkers of center/server/scheduler.go, and processJob of
-- runner.go: one run of a job, with what its surroundings do as a parameter. The handler that cancels
-- a job takes effect here while the tasks run; Lifecycle has it at every point.
use swarm_compute.Base.{
  ℕ, ◌+◌, ◌%◌, String, List, [], ◌∷◌, map, Option, none, some, Bool, true, length, Error, Result,
  ok, err, panic, errorf, errorf_str, errorf_wrap, errorf_and, ◌>>=◌, index, if◌then◌else◌,
}
use swarm_compute.Base.Map.{lookup, insert}
use swarm_compute.Base.Value.{Value, null, Fields}
use swarm_compute.Base.Float64.{Float64}
use swarm_compute.Splitter.{splitters}
use swarm_compute.Aggregator.{aggregators}
use swarm_compute.Scheduler.Types.{Worker, WorkerInfo, Task, TaskStatus, Job, JobStatus, Store}
use swarm_compute.Scheduler.Retry.{Attempts, execute_task_with_retry}

-- Which case of the `select` runs: all tasks have ended, or the context has.
pub data Wake : Type 0 where
  all_ended context_over : Wake

pub record Surroundings (N : Type 0) : Type 0 where
  pub arrivals : List WorkerInfo → List (WorkerInfo × Bool)  -- ping results, as they come in
  pub new_id : ℕ → String  -- newID("task") for the task at an index
  pub attempts : ℕ → Attempts N  -- of the task at an index
  pub dispatch_time : ℕ → ℕ
  pub cancel_time : Option ℕ  -- when the job is cancelled while its tasks run
  pub wake : Wake
  pub end_time : ℕ

-- The workers that answered their ping, in the order of the answers.
unfoldable pub healthy_of : List (WorkerInfo × Bool) → List WorkerInfo
healthy_of [] = []
healthy_of ((w, healthy) ∷ rest) = if healthy then w ∷ healthy_of rest else healthy_of rest

unfoldable pub get_healthy_workers :
    (List WorkerInfo → List (WorkerInfo × Bool)) → List Worker → List WorkerInfo
unfolding healthy_of
get_healthy_workers arrivals workers =
    healthy_of (arrivals (map (λ w. record { instance_id = w.id; addr = w.addr }) workers))

-- the empty string where there is no error
abbrev pub error_text : Option Error → Error
error_text none = errorf ""
error_text (some e) = e

module _ {N : Type 0} where
  unfoldable pub fail_job : ℕ → Error → Job N → Job N
  fail_job now e job = record job { status = JobStatus.failed; error = some e; finished_at = now }

  -- the pending task for the sub-input at an index
  abbrev pub new_task : Job N → String → Fields N → Task N
  new_task job id input = record {
    task_id = id;
    job_id = job.job_id;
    type_id = job.type_id;
    status = TaskStatus.pending;
    input = input;
    output = none;
    worker_id = "";
    worker_addr = "";
    retry_count = 0;
    error = none;
    started_at = 0;
    finished_at = 0;
    duration_ms = 0;
  }

  -- The task at index `i` goes to worker i % len(workers).
  unfoldable pub dispatch : List WorkerInfo → ℕ → ℕ → Task N → Result (Task N)
  dispatch workers i now t = index workers (i % length workers) >>= λ w. ok (record t {
    worker_id = w.instance_id;
    worker_addr = w.addr;
    status = TaskStatus.running;
    started_at = now;
  })

  -- The tasks from index `i` on: created, dispatched, and run to their ends.
  unfoldable pub run_tasks :
      Surroundings N → List WorkerInfo → Job N → ℕ → List (Fields N) → Result (List (Task N))
  unfolding dispatch
  run_tasks s workers job i [] = ok []
  run_tasks s workers job i (input ∷ inputs) =
      dispatch workers i (s.dispatch_time i) (new_task job (s.new_id i) input) >>= λ t.
      execute_task_with_retry (s.attempts i) workers job.max_retry t >>= λ t'.
      run_tasks s workers job (i + 1) inputs >>= λ ts. ok (t' ∷ ts)

  abbrev pub output_value : Option (Value N) → Value N
  output_value none = null
  output_value (some v) = v

  -- The failures of the tasks, `none` if all are done.
  unfoldable pub failed_tasks : List (Task N) → Option Error
  failed_tasks [] = none
  failed_tasks (t ∷ ts) =
      let rest = failed_tasks ts in
      elim t.status [
        | TaskStatus.done ↦ rest
        | _ ↦ some (errorf_and t.task_id (error_text t.error) (error_text rest))
      ]

  -- The outputs of the tasks that are done.
  unfoldable pub outputs_of : List (Task N) → List (Value N)
  outputs_of [] = []
  outputs_of (t ∷ ts) =
      let rest = outputs_of ts in
      elim t.status [ TaskStatus.done ↦ output_value t.output ∷ rest | _ ↦ rest ]

module _ {N : Type 0} ⦃fl : Float64 N⦄ where
  -- from "Aggregate" to the end
  unfoldable pub aggregate_job : ℕ → List (Value N) → Job N → Result (Job N)
  unfolding fail_job aggregators
  aggregate_job now outputs job =
      let job = record job { status = JobStatus.aggregating } in
      elim (aggregators job.type_id) [
        | none ↦ ok (fail_job now (errorf_str "no aggregator for type: %s" job.type_id) job)
        | some agg_fn ↦ elim (agg_fn outputs) [
          | ok result ↦
              ok (record job { result = some result; status = JobStatus.done; finished_at = now })
          | err e ↦ ok (fail_job now (errorf_wrap "aggregation error: " e) job)
          | panic ↦ panic
        ]
      ]

  -- from "Collect results" to the end
  unfoldable pub collect_job : ℕ → Job N → Result (Job N)
  unfolding aggregate_job failed_tasks outputs_of
  collect_job now job = elim (failed_tasks job.tasks) [
    | some e ↦ ok (fail_job now (errorf_wrap "tasks failed: " e) job)
    | none ↦ aggregate_job now (outputs_of job.tasks) job
  ]

  -- What the handler of a cancel does while the tasks run.
  abbrev pub cancel_running : Option ℕ → Job N → Job N
  cancel_running none job = job
  cancel_running (some now) job = record job { status = JobStatus.cancelled; finished_at = now }

  -- the `select`, and the check of the status behind it, at a job that is running or cancelled
  unfoldable pub wake_job : Wake → ℕ → Job N → Result (Job N)
  unfolding collect_job
  wake_job context_over now job = elim job.status [
    | JobStatus.running ↦ ok (fail_job now (errorf "timeout or cancelled") job)
    | _ ↦ ok job
  ]
  wake_job all_ended now job = elim job.status [
    | JobStatus.cancelled ↦ ok job
    | _ ↦ collect_job now job
  ]

  -- from "Create tasks" on
  unfoldable pub run_job :
      Surroundings N → List WorkerInfo → List (Fields N) → Job N → Result (Job N)
  unfolding run_tasks wake_job
  run_job s workers sub_inputs job = run_tasks s workers job 0 sub_inputs >>= λ tasks.
      let job = record job { tasks = tasks; status = JobStatus.running } in
      wake_job s.wake s.end_time (cancel_running s.cancel_time job)

  -- from "Split" on, with the healthy workers
  unfoldable pub split_job : Surroundings N → List WorkerInfo → Job N → Result (Job N)
  unfolding run_job splitters fail_job
  split_job s workers job =
      let job = record job { status = JobStatus.splitting } in
      elim (splitters job.type_id) [
        | none ↦ ok (fail_job s.end_time (errorf_str "no splitter for type: %s" job.type_id) job)
        | some split_fn ↦ elim (split_fn job.input (length workers)) [
          | ok sub_inputs ↦ run_job s workers sub_inputs job
          | err e ↦ ok (fail_job s.end_time (errorf_wrap "split error: " e) job)
          | panic ↦ panic
        ]
      ]

  unfoldable pub execute_job : Surroundings N → List Worker → Job N → Result (Job N)
  unfolding split_job get_healthy_workers
  execute_job s workers job =
      let job = record job { cancel = true } in
      elim (get_healthy_workers s.arrivals workers) [
        | [] ↦ ok (fail_job s.end_time (errorf "no available workers") job)
        | w ∷ ws ↦ split_job s (w ∷ ws) job
      ]

  -- processJob: an id that is not in the store is logged and passed over.
  unfoldable pub process_job : Surroundings N → String → Store N → Result (Store N)
  unfolding execute_job lookup insert
  process_job s job_id store = elim (lookup job_id store.jobs) [
    | none ↦ ok store
    | some job ↦ execute_job s store.workers job >>= λ job'.
        ok (record store { jobs = insert job_id job' store.jobs })
  ]
