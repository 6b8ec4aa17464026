-- ===== src/Tests/Scheduler.antt =====
-- The life of a job and of a task at concrete inputs.
use swarm_compute.Base.{
  ℕ, ◌<◌, ◌≡◌, refl, List, [], ◌∷◌, none, some, true, false, ok, errorf, arith, ltb, if◌then◌else◌,
}
use swarm_compute.Base.Int.{ℤ, pos}
use swarm_compute.Base.Value.{num, end}
use swarm_compute.Scheduler.Types.{WorkerInfo, Task, TaskStatus, JobStatus}
use swarm_compute.Scheduler.Lifecycle.{
  Phase, Run, submitted, ◌⟶◌, ◌⟶*◌, here, next, start, begin_split, begin_tasks, tasks_end,
  not_cancelled, begin_merge, merge_ends, finish,
}
use swarm_compute.Scheduler.LifecycleLaws.{IsSound, reachable-IsSound, cancel_lost, done_not_final}
use swarm_compute.Scheduler.Retry.{Attempts, unreachable, answer, execute_task_with_retry}
use swarm_compute.Scheduler.RetrySteps.{addr_at}
use swarm_compute.Scheduler.RetryLaws.{task_done_lem, task_exhausted_lem, task_stopped_lem}
use swarm_compute.Scheduler.RetryWorker.{retry_same_worker}
use swarm_compute.Scheduler.Execute.{dispatch}
use swarm_compute.Tests.Floats.{whole}

abbrev merging_run : Run
merging_run = record {
  phase = Phase.merging;
  status = JobStatus.aggregating;
  has_cancel = true;
  over = false;
  stamped = false;
}

to_merging : submitted ⟶* merging_run
to_merging =
    next
      (next
        (next (next (next (next here (start refl)) (begin_split refl)) (begin_tasks refl))
          (tasks_end refl))
        (not_cancelled refl (λ e. cc)))
      (begin_merge refl)

to_done : submitted ⟶* finish merging_run
to_done = next to_merging (merge_ends refl)

reachable-IsSound_example : IsSound merging_run
reachable-IsSound_example = reachable-IsSound to_merging

cancel_lost_example :
    (s t : Run) × (merging_run ⟶ s)
    × (s.status ≡ JobStatus.cancelled)
    × (s ⟶ t)
    × (t.status ≡ JobStatus.done)
    × (t.phase ≡ Phase.returned)
cancel_lost_example = cancel_lost merging_run to_merging refl

done_not_final_example :
    (s : Run) × (finish merging_run ⟶ s)
    × (s.phase ≡ Phase.returned)
    × (s.status ≡ JobStatus.cancelled)
done_not_final_example = done_not_final (finish merging_run) to_done refl refl

abbrev second_worker : WorkerInfo
second_worker = record { instance_id = "worker-2"; addr = "http://worker-2:9000" }

abbrev pair : List WorkerInfo
pair = record { instance_id = "worker-1"; addr = "http://worker-1:9000" } ∷ second_worker ∷ []

abbrev first_task : Task ℤ
first_task = record {
  task_id = "task_1";
  job_id = "job_1";
  type_id = "sort";
  status = TaskStatus.running;
  input = end;
  output = none;
  worker_id = "worker-1";
  worker_addr = "http://worker-1:9000";
  retry_count = 0;
  error = none;
  started_at = 1;
  finished_at = 0;
  duration_ms = 0;
}

-- Attempts fail up to the one at `k`; the context is over from attempt `c` on.
abbrev flaky : ℕ → ℕ → Attempts ℤ
flaky k c = record {
  reply = λ j addr req.
      if ltb j k then unreachable (errorf "refused") else answer "done" (num (pos 7)) "" 3;
  ctx_err = λ j. if ltb j c then false else true;
  start_time = λ j. j;
  end_time = λ j. j;
}

task_done_example :
    (u : Task ℤ) × (execute_task_with_retry (flaky 1 9) pair 2 first_task ≡ ok u)
    × (u.status ≡ TaskStatus.done)
    × (u.output ≡ some (num (pos 7)))
    × (u.worker_addr ≡ addr_at pair first_task.worker_addr 1)
    × (0 < 1 → u.retry_count ≡ 1)
task_done_example =
    task_done_lem (flaky 1 9) pair first_task 2 1 (num (pos 7)) (omega arith) (omega arith)
      (λ i below. ground arith) refl

task_exhausted_example :
    (u : Task ℤ) × (execute_task_with_retry (flaky 9 9) pair 2 first_task ≡ ok u)
    × (u.status ≡ TaskStatus.failed)
task_exhausted_example =
    task_exhausted_lem (flaky 9 9) pair first_task 2 (omega arith) (λ i le. ground arith)

task_stopped_example :
    (u : Task ℤ) × (execute_task_with_retry (flaky 9 0) pair 2 first_task ≡ ok u)
    × (u.status ≡ TaskStatus.failed)
task_stopped_example =
    task_stopped_lem (flaky 9 0) pair first_task 2 0 (omega arith) (omega arith)
      (λ i below. absurd (omega arith)) refl refl

retry_same_worker_example :
    (sent ended : Task ℤ) × (dispatch pair 3 4 first_task ≡ ok sent)
    × (sent.worker_addr ≡ "http://worker-2:9000")
    × (execute_task_with_retry (flaky 1 9) pair 2 sent ≡ ok ended)
    × (ended.status ≡ TaskStatus.done)
    × (ended.output ≡ some (num (pos 7)))
    × (ended.worker_addr ≡ "http://worker-2:9000")
    × (ended.retry_count ≡ 1)
retry_same_worker_example =
    retry_same_worker (flaky 1 9) pair 3 4 first_task second_worker 2 (num (pos 7)) refl refl
      (omega arith) refl refl refl
