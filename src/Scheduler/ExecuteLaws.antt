-- ===== src/Scheduler/ExecuteLaws.antt =====
-- A job whose tasks are answered runs to its end, with the result of split, execute and aggregate.
use swarm_compute.Base.{
  ℕ, ◌+◌, ◌%◌, ◌≤◌, ◌<◌, ◌≡◌, refl, sym, ap, ◌∙◌, String, List, [], ◌∷◌, Option, none, some, true,
  false, length, Result, ok, map_m, map_m-cons, >>=-eq-ok, arith,
}
use swarm_compute.Base.Value.{Value, Fields}
use swarm_compute.Base.Float64.{Float64}
use swarm_compute.Splitter.{SplitFunc, splitters}
use swarm_compute.Aggregator.{AggregateFunc, aggregators}
use swarm_compute.Executor.{TaskRequest}
use swarm_compute.Pipeline.{map_reduce}
use swarm_compute.Scheduler.Types.{Worker, WorkerInfo, Task, TaskStatus, Job, JobStatus}
use swarm_compute.Scheduler.Retry.{Attempts, execute_task_with_retry}
use swarm_compute.Scheduler.RetrySteps.{outcome, index_in_range}
use swarm_compute.Scheduler.RetryLaws.{task_done_lem}
use swarm_compute.Scheduler.Execute.{
  Surroundings, Wake, all_ended, context_over, cancel_running, get_healthy_workers, new_task,
  dispatch, run_tasks, failed_tasks, outputs_of, aggregate_job, collect_job, wake_job, run_job,
  split_job, execute_job,
}

module _ {N : Type 0} where
  -- One of the allowed attempts of a task of a type is answered with what `execute` returns on its
  -- input. The attempts before it fail, and the context is alive behind them.
  abbrev pub IsAnswered : String → (Fields N → Result (Value N)) → ℕ → Attempts N → Type 0
  IsAnswered type_id execute max_retry env =
      (k : ℕ) × (k ≤ max_retry)
      × ((j : ℕ) (addr : String) (req : TaskRequest N)
          → j < k
          → (outcome (env.reply j addr req) ≡ none) × (env.ctx_err j ≡ false))
      × ((addr : String) (req : TaskRequest N) (out : Value N)
          → req.type_id ≡ type_id
          → execute req.input ≡ ok out
          → outcome (env.reply k addr req) ≡ some out)

  dispatch_lem :
      (workers : List WorkerInfo) (i now : ℕ) (t : Task N)
      → 0 < length workers
      → (u : Task N) × (dispatch workers i now t ≡ ok u)
        × (u.input ≡ t.input)
        × (u.type_id ≡ t.type_id)
  unfolding dispatch
  dispatch_lem workers i now t h =
      let (w, found) = index_in_range workers (i % length workers) (omega arith) in
      (
        record t {
          worker_id = w.instance_id;
          worker_addr = w.addr;
          status = TaskStatus.running;
          started_at = now;
        },
        rw found,
        refl,
        refl,
      )

  failed_tasks-cons :
      (t : Task N) (ts : List (Task N))
      → t.status ≡ TaskStatus.done
      → failed_tasks (t ∷ ts) ≡ failed_tasks ts
  unfolding failed_tasks
  failed_tasks-cons t ts h = rw (h, failed_tasks)

  outputs_of-cons :
      (t : Task N) (ts : List (Task N)) (out : Value N)
      → t.status ≡ TaskStatus.done
      → t.output ≡ some out
      → outputs_of (t ∷ ts) ≡ out ∷ outputs_of ts
  unfolding outputs_of
  outputs_of-cons t ts out h k = rw (h, k, outputs_of)

  module _ (s : Surroundings N) (workers : List WorkerInfo) (job : Job N)
      (execute : Fields N → Result (Value N)) (some_worker : 0 < length workers)
      (answered : (i : ℕ) → IsAnswered job.type_id execute job.max_retry (s.attempts i)) where
    one_task_lem :
        (i : ℕ) (input : Fields N) (out : Value N) (t : Task N)
        → t.input ≡ input
        → t.type_id ≡ job.type_id
        → execute input ≡ ok out
        → (u : Task N) × (execute_task_with_retry (s.attempts i) workers job.max_retry t ≡ ok u)
          × (u.status ≡ TaskStatus.done)
          × (u.output ≡ some out)
    one_task_lem i input out t e typed h =
        let (k, within, earlier, now) = answered i in
        let r =
          task_done_lem (s.attempts i) workers t job.max_retry k out some_worker within
            (λ j below. earlier j _ _ below) (now _ _ out typed (rw e h)) in
        (r.0, r.1, r.2, r.3)

    run_tasks_lem :
        (inputs : List (Fields N)) (outs : List (Value N)) (i : ℕ)
        → map_m execute inputs ≡ ok outs
        → (ts : List (Task N)) × (run_tasks s workers job i inputs ≡ ok ts)
          × (failed_tasks ts ≡ none)
          × (outputs_of ts ≡ outs)
    unfolding run_tasks failed_tasks outputs_of
    run_tasks_lem [] outs i h = ([], refl, refl, cc)
    run_tasks_lem (input ∷ inputs) outs i h =
        let (out, rest, now, later, whole) = map_m-cons execute input inputs h in
        let (t, sent, same, typed) =
          dispatch_lem workers i (s.dispatch_time i) (new_task job (s.new_id i) input)
            some_worker in
        let (u, ended, done, output) = one_task_lem i input out t same typed now in
        let (us, ran, none_failed, outputs) = run_tasks_lem inputs rest (i + 1) later in
        (
          u ∷ us,
          rw (sent, ended, ran),
          failed_tasks-cons u us done ∙ none_failed,
          outputs_of-cons u us out done output ∙ ap (◌∷◌ out) outputs ∙ sym whole,
        )

module _ {N : Type 0} ⦃fl : Float64 N⦄ where
  aggregate_job_lem :
      (now : ℕ) (outputs : List (Value N)) (job : Job N) {agg : AggregateFunc N} (v : Value N)
      → aggregators job.type_id ≡ some agg
      → agg outputs ≡ ok v
      → (job' : Job N) × (aggregate_job now outputs job ≡ ok job')
        × (job'.status ≡ JobStatus.done)
        × (job'.result ≡ some v)
  unfolding aggregate_job
  aggregate_job_lem now outputs job v h k = (
    record job { result = some v; status = JobStatus.done; finished_at = now },
    rw (h, k, aggregate_job),
    refl,
    refl,
  )

  collect_job_lem :
      (now : ℕ) (job : Job N) (outs : List (Value N))
      → failed_tasks job.tasks ≡ none
      → outputs_of job.tasks ≡ outs
      → collect_job now job ≡ aggregate_job now outs job
  unfolding collect_job
  collect_job_lem now job outs h k = rw (h, ← k, collect_job)

  wake_job_lem :
      (wake : Wake) (cancel_time : Option ℕ) (now : ℕ) (job : Job N)
      → wake ≡ all_ended
      → cancel_time ≡ none
      → job.status ≡ JobStatus.running
      → wake_job wake now (cancel_running cancel_time job) ≡ collect_job now job
  unfolding wake_job
  wake_job_lem all_ended none now job w c h = rw (h, wake_job)
  wake_job_lem all_ended (some x) now job w c h = absurd (cc)
  wake_job_lem context_over c now job w d h = absurd (cc)

  -- A run of the tasks that nothing interrupts.
  abbrev pub IsUninterrupted : Surroundings N → Type 0
  IsUninterrupted s = (s.wake ≡ all_ended) × (s.cancel_time ≡ none)

  run_job_lem :
      (s : Surroundings N) (workers : List WorkerInfo) (job : Job N)
      (execute : Fields N → Result (Value N)) {agg : AggregateFunc N} (inputs : List (Fields N))
      (outs : List (Value N)) (v : Value N)
      → 0 < length workers
      → ((i : ℕ) → IsAnswered job.type_id execute job.max_retry (s.attempts i))
      → IsUninterrupted s
      → aggregators job.type_id ≡ some agg
      → map_m execute inputs ≡ ok outs
      → agg outs ≡ ok v
      → (job' : Job N) × (run_job s workers inputs job ≡ ok job')
        × (job'.status ≡ JobStatus.done)
        × (job'.result ≡ some v)
  unfolding run_job
  run_job_lem s workers job execute inputs outs v some_worker answered calm known ran result =
      let (ts, ended, none_failed, outputs) =
        run_tasks_lem s workers job execute some_worker answered inputs outs 0 ran in
      let running = record job { tasks = ts; status = JobStatus.running } in
      let (job', aggregated, done, value) =
        aggregate_job_lem s.end_time outs running v known result in
      (
        job',
        rw ended (
            wake_job_lem s.wake s.cancel_time s.end_time running calm.0 calm.1 refl
            ∙ collect_job_lem s.end_time running outs none_failed outputs
            ∙ aggregated),
        done,
        value,
      )

  split_job_lem :
      (s : Surroundings N) (workers : List WorkerInfo) (job : Job N)
      (execute : Fields N → Result (Value N)) {split : SplitFunc N} {agg : AggregateFunc N}
      (v : Value N)
      → splitters job.type_id ≡ some split
      → aggregators job.type_id ≡ some agg
      → 0 < length workers
      → ((i : ℕ) → IsAnswered job.type_id execute job.max_retry (s.attempts i))
      → IsUninterrupted s
      → map_reduce split execute agg job.input (length workers) ≡ ok v
      → (job' : Job N) × (split_job s workers job ≡ ok job')
        × (job'.status ≡ JobStatus.done)
        × (job'.result ≡ some v)
  unfolding split_job
  split_job_lem s workers job execute {split} {agg} v has_split has_agg some_worker answered calm
        run =
      let (parts, cut, run') = >>=-eq-ok (split job.input (length workers)) _ run in
      let (outs, ran, result) = >>=-eq-ok (map_m execute parts) _ run' in
      let (job', ended, done, value) =
        run_job_lem s workers (record job { status = JobStatus.splitting }) execute parts outs v
          some_worker answered calm has_agg ran result in
      (job', rw (has_split, cut, split_job) ended, done, value)

  some_healthy :
      (s : Surroundings N) (workers : List Worker) (job : Job N)
      → 0 < length (get_healthy_workers s.arrivals workers)
      → execute_job s workers job
        ≡ split_job s (get_healthy_workers s.arrivals workers) (record job { cancel = true })
  unfolding execute_job
  some_healthy s workers job h = go (get_healthy_workers s.arrivals workers) refl h
    where
      go :
          (ws : List WorkerInfo)
          → get_healthy_workers s.arrivals workers ≡ ws
          → 0 < length ws
          → execute_job s workers job ≡ split_job s ws (record job { cancel = true })
      go [] e h = absurd (omega arith)
      go (w ∷ ws) e h = rw (e, execute_job)

  -- A job with a splitter and an aggregator, run with at least one healthy worker, ends as done if
  -- nothing interrupts it and an allowed attempt of each task is answered with what `execute`
  -- returns on its input, with failed attempts and a live context before that attempt. Its result
  -- is what splitting its input for the healthy workers, executing the parts and aggregating the
  -- outputs returns.
  pub execute_job_done :
      (s : Surroundings N) (workers : List Worker) (job : Job N)
      (execute : Fields N → Result (Value N)) (split : SplitFunc N) (agg : AggregateFunc N)
      (v : Value N)
      → splitters job.type_id ≡ some split
      → aggregators job.type_id ≡ some agg
      → 0 < length (get_healthy_workers s.arrivals workers)
      → ((i : ℕ) → IsAnswered job.type_id execute job.max_retry (s.attempts i))
      → IsUninterrupted s
      → map_reduce split execute agg job.input (length (get_healthy_workers s.arrivals workers))
        ≡ ok v
      → (job' : Job N) × (execute_job s workers job ≡ ok job')
        × (job'.status ≡ JobStatus.done)
        × (job'.result ≡ some v)
  execute_job_done s workers job execute split agg v has_split has_agg some_worker answered calm
        run =
      let r =
        split_job_lem s (get_healthy_workers s.arrivals workers) (record job { cancel = true })
          execute v has_split has_agg some_worker answered calm run in
      (r.0, some_healthy s workers job some_worker ∙ r.1, r.2, r.3)
