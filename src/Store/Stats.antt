-- ===== src/Store/Stats.antt =====
-- ComputeStats of center/server/store.go. The maps are gone through in the order of their entries.
use text.Mathlib.Text.{◌==◌ as str_eq}
use swarm_compute.Base.{
  ℕ, ◌+◌, String, List, [], ◌∷◌, ◌++◌, Bool, true, false, ◌&&◌, not, length, ltb, if◌then◌else◌,
}
use swarm_compute.Base.Int.{ℤ, pos, ◌+ℤ◌, ◌-ℤ◌, int64}
use swarm_compute.Base.Float64.{Float64, const_f}
use swarm_compute.Executor.WordCount.{increment}
use swarm_compute.Scheduler.Types.{Job, Task, Store, JobStatus, TaskStatus}

pub record WorkerStat (N : Type 0) : Type 0 where
  pub id : String
  pub tasks_done : ℕ
  pub avg_ms : N

pub record SystemStats (N : Type 0) : Type 0 where
  pub total_jobs : ℕ
  pub jobs_by_status : List (String × ℕ)
  pub avg_duration_ms : N
  pub workers : List (WorkerStat N)

-- The strings that the code gives to Job.Status.
abbrev pub status_name : JobStatus → String
status_name JobStatus.pending = "pending"
status_name JobStatus.splitting = "splitting"
status_name JobStatus.running = "running"
status_name JobStatus.aggregating = "aggregating"
status_name JobStatus.done = "done"
status_name JobStatus.failed = "failed"
status_name JobStatus.cancelled = "cancelled"

abbrev pub job_done : JobStatus → Bool
job_done JobStatus.done = true
job_done _ = false

abbrev pub task_done : TaskStatus → Bool
task_done TaskStatus.done = true
task_done _ = false

-- `m[key] = append(m[key], d)`
unfoldable pub append_at : String → ℕ → List (String × List ℕ) → List (String × List ℕ)
append_at key d [] = (key, d ∷ []) ∷ []
append_at key d ((j, ds) ∷ rest) =
    let behind = append_at key d rest in
    if str_eq j key then (j, ds ++ (d ∷ [])) ∷ rest else (j, ds) ∷ behind

-- `var sum int64; for ... { sum += d }`
abbrev pub sum_from : ℤ → List ℕ → ℤ
sum_from total [] = total
sum_from total (d ∷ ds) = sum_from (int64 (total +ℤ pos d)) ds

module _ {N : Type 0} where
  -- `t.Status == "done" && t.WorkerID != ""`
  abbrev pub counts_for_worker : Task N → Bool
  counts_for_worker t = task_done t.status && not (str_eq t.worker_id "")

  -- the inner loop, over the tasks of a job
  unfoldable pub add_tasks : List (Task N) → List (String × List ℕ) → List (String × List ℕ)
  unfolding append_at
  add_tasks [] m = m
  add_tasks (t ∷ ts) m =
      add_tasks ts (if counts_for_worker t then append_at t.worker_id t.duration_ms m else m)

  -- `j.Status == "done" && j.FinishedAt > 0 && j.CreatedAt > 0`
  abbrev pub counts_for_average : Job N → Bool
  counts_for_average j = job_done j.status && ltb 0 j.finished_at && ltb 0 j.created_at

  -- the loop over the jobs, one variable at a time
  unfoldable pub by_status : List (String × Job N) → List (String × ℕ) → List (String × ℕ)
  unfolding increment
  by_status [] m = m
  by_status ((id, j) ∷ rest) m = by_status rest (increment (status_name j.status) m)

  unfoldable pub total_dur : List (String × Job N) → ℤ → ℤ
  unfolding ◌+ℤ◌ ◌-ℤ◌ int64
  total_dur [] total = total
  total_dur ((id, j) ∷ rest) total = total_dur rest (
      if counts_for_average j
      then int64 (total +ℤ int64 (pos j.finished_at -ℤ pos j.created_at))
      else total)

  abbrev pub done_count : List (String × Job N) → ℕ
  done_count [] = 0
  done_count ((id, j) ∷ rest) = (if counts_for_average j then 1 else 0) + done_count rest

  unfoldable pub worker_tasks :
      List (String × Job N) → List (String × List ℕ) → List (String × List ℕ)
  unfolding add_tasks
  worker_tasks [] m = m
  worker_tasks ((id, j) ∷ rest) m = worker_tasks rest (add_tasks j.tasks m)

module _ {N : Type 0} ⦃fl : Float64 N⦄ where
  -- `if n > 0 { float64(total) / float64(n) }`, and 0 before
  abbrev pub average : ℤ → ℕ → N
  average total n = if ltb 0 n then fl.div_f (fl.of_int total) (const_f n) else const_f 0

  -- the loop over workerTasks
  unfoldable pub worker_stats : List (String × List ℕ) → List (WorkerStat N)
  worker_stats [] = []
  worker_stats ((wid, durations) ∷ rest) =
      record {
        id = wid;
        tasks_done = length durations;
        avg_ms = average (sum_from (pos 0) durations) (length durations);
      }
      ∷ worker_stats rest

  unfoldable pub compute_stats : Store N → SystemStats N
  unfolding by_status total_dur worker_tasks worker_stats
  compute_stats s = record {
    total_jobs = length s.jobs;
    jobs_by_status = by_status s.jobs [];
    avg_duration_ms = average (total_dur s.jobs (pos 0)) (done_count s.jobs);
    workers = worker_stats (worker_tasks s.jobs []);
  }
