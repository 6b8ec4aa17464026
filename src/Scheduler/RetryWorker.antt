-- ===== src/Scheduler/RetryWorker.antt =====
-- Which worker the first retry of a task goes to.
use swarm_compute.Base.{
  ℕ, ◌%◌, ◌≤◌, ◌<◌, ◌≡◌, refl, ◌∙◌, List, [], ◌∷◌, none, some, false, length, ok, index, arith,
}
use swarm_compute.Base.Value.{Value}
use swarm_compute.Scheduler.Types.{WorkerInfo, Task, TaskStatus}
use swarm_compute.Scheduler.Retry.{Attempts, request_of, execute_task_with_retry}
use swarm_compute.Scheduler.RetrySteps.{outcome, addr_at}
use swarm_compute.Scheduler.RetryLaws.{task_done_lem}
use swarm_compute.Scheduler.Execute.{dispatch}

index-some {ℓ} : {A : Type ℓ} (xs : List A) (i : ℕ) (x : A) → index xs i ≡ ok x → 0 < length xs
index-some [] i x h = absurd (cc)
index-some (y ∷ ys) i x h = omega arith

module _ {N : Type 0} (env : Attempts N) (workers : List WorkerInfo) (i now : ℕ) (t : Task N)
    (w : WorkerInfo) where
  -- A task whose index leaves the same remainder as 1 on division by the number of workers is
  -- first sent to the worker with that remainder as its index. If this attempt fails with a live
  -- context, a retry is allowed, and the second call of the same worker succeeds, then the task
  -- ends as done with the output of that call, at that worker, with one retry.
  pub retry_same_worker :
      (max_retry : ℕ) (out : Value N)
      → index workers (i % length workers) ≡ ok w
      → i % length workers ≡ 1 % length workers
      → 1 ≤ max_retry
      → outcome (env.reply 0 w.addr (request_of t)) ≡ none
      → env.ctx_err 0 ≡ false
      → outcome (env.reply 1 w.addr (request_of t)) ≡ some out
      → (sent ended : Task N) × (dispatch workers i now t ≡ ok sent)
        × (sent.worker_addr ≡ w.addr)
        × (execute_task_with_retry env workers max_retry sent ≡ ok ended)
        × (ended.status ≡ TaskStatus.done)
        × (ended.output ≡ some out)
        × (ended.worker_addr ≡ w.addr)
        × (ended.retry_count ≡ 1)
  unfolding dispatch
  retry_same_worker max_retry out found same allowed fails alive retried =
      let sent = record t {
        worker_id = w.instance_id;
        worker_addr = w.addr;
        status = TaskStatus.running;
        started_at = now;
      } in
      let there : addr_at workers w.addr 1 ≡ w.addr = rw (← same, found) refl in
      let (ended, ran, done, output, at, count) =
        task_done_lem env workers sent max_retry 1 out (index-some workers _ w found) allowed
          (λ k below. let first : k ≡ 0 = omega arith in rw first (fails, alive))
          (rw there retried) in
      (sent, ended, rw found, refl, ran, done, output, at ∙ there, count (omega arith))
