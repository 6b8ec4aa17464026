-- ===== src/Scheduler/RetryLaws.antt =====
-- How a task ends: which attempt decides, and on which worker it ran.
use swarm_compute.Base.{
  ℕ, zero, suc, ◌+◌, ◌≤◌, ◌<◌, ◌≡◌, refl, ap, ◌∙◌, inl, inr, String, List, Option, none, some, true,
  false, Bool-cases, length, ok, arith, if◌then◌else◌,
}
use swarm_compute.Base.Value.{Value}
use swarm_compute.Executor.{TaskRequest}
use swarm_compute.Scheduler.Types.{Task, TaskStatus, WorkerInfo}
use swarm_compute.Scheduler.Retry.{
  Attempts, request_of, fail_task, retry_loop, execute_task_with_retry,
}
use swarm_compute.Scheduler.RetrySteps.{
  outcome, addr_at, call_worker_done, call_worker_failed, prepare_lem, same_request_lem,
}

module _ {N : Type 0} (env : Attempts N) (workers : List WorkerInfo) (first : String)
    (req : TaskRequest N) (some_worker : 0 < length workers) where
  -- what attempt `j` brings
  abbrev outcome_at : ℕ → Option (Value N)
  outcome_at j = outcome (env.reply j (addr_at workers first j) req)

  -- Attempt `j` fails, and the context is not over behind it.
  abbrev IsRetried : ℕ → Type 0
  IsRetried j = (outcome_at j ≡ none) × (env.ctx_err j ≡ false)

  IsAt : ℕ → Task N → Type 0
  IsAt j t = (request_of t ≡ req) × (j ≡ 0 → t.worker_addr ≡ first)

  -- An attempt that fails: the loop goes on, or the context is over.
  retry_step_failed :
      (left j : ℕ) (t : Task N)
      → IsAt j t
      → outcome_at j ≡ none
      → (u : Task N) × (retry_loop env workers (suc left) j t ≡ (
          if env.ctx_err j
          then ok (fail_task env workers (env.end_time j) u)
          else retry_loop env workers left (j + 1) u))
        × IsAt (j + 1) u
  unfolding retry_loop IsAt
  retry_step_failed left j t at h =
      let (t1, prepared, moved) =
        prepare_lem workers first j (env.start_time j) t some_worker at.1 in
      let same_request : request_of t1 ≡ req = same_request_lem t t1 moved.2 at.0 in
      let (e, failed) =
        call_worker_failed (env.reply j t1.worker_addr (request_of t1)) (env.end_time j) t1
          (rw (moved.0, same_request) h) in
      (
        record t1 { error = some e },
        rw (prepared, failed),
        (same_request, λ z. absurd (omega arith)),
      )

  -- An attempt that succeeds ends the loop.
  retry_step_done :
      (left j : ℕ) (t : Task N) (out : Value N)
      → IsAt j t
      → outcome_at j ≡ some out
      → (u : Task N) × (retry_loop env workers (suc left) j t ≡ ok u)
        × (u.status ≡ TaskStatus.done)
        × (u.output ≡ some out)
        × (u.worker_addr ≡ addr_at workers first j)
        × (0 < j → u.retry_count ≡ j)
  unfolding retry_loop IsAt
  retry_step_done left j t out at h =
      let (t1, prepared, moved) =
        prepare_lem workers first j (env.start_time j) t some_worker at.1 in
      let same_request : request_of t1 ≡ req = same_request_lem t t1 moved.2 at.0 in
      let (u, done, from) =
        call_worker_done (env.reply j t1.worker_addr (request_of t1)) (env.end_time j) t1 out
          (rw (moved.0, same_request) h) in
      (
        u,
        rw (prepared, done),
        from.0,
        from.1,
        from.3 ∙ moved.0,
        λ later. from.2 ∙ moved.1 ∙ ground arith,
      )

  -- `d` attempts fail, and the one behind them succeeds.
  retry_loop_done :
      (d left j : ℕ) (t : Task N) (out : Value N)
      → d < left
      → IsAt j t
      → ((i : ℕ) → j ≤ i → i < j + d → IsRetried i)
      → outcome_at (j + d) ≡ some out
      → (u : Task N) × (retry_loop env workers left j t ≡ ok u)
        × (u.status ≡ TaskStatus.done)
        × (u.output ≡ some out)
        × (u.worker_addr ≡ addr_at workers first (j + d))
        × (0 < j + d → u.retry_count ≡ j + d)
  retry_loop_done d zero j t out h at earlier now = absurd (omega arith)
  retry_loop_done zero (suc left) j t out h at earlier now =
      let same : j + 0 ≡ j = omega arith in
      rw same (retry_step_done left j t out at (rw same at now))
  retry_loop_done (suc d) (suc left) j t out h at earlier now =
      let (fails, alive) = earlier j (omega arith) (omega arith) in
      let (t', next, at') = retry_step_failed left j t at fails in
      let same : j + 1 + d ≡ j + suc d = omega arith in
      let r =
        retry_loop_done d left (j + 1) t' out (omega arith) at'
          (λ i above below. earlier i (omega arith) (omega arith)) (rw same now) in
      (
        r.0,
        next ∙ rw alive r.1,
        r.2,
        r.3,
        r.4 ∙ ap (addr_at workers first) same,
        λ later. r.5 (omega arith) ∙ same,
      )

  -- All attempts fail, or the context is over behind a failure.
  retry_loop_failed :
      (left j : ℕ) (t : Task N)
      → IsAt j t
      → ((i : ℕ) → j ≤ i → i < j + left → outcome_at i ≡ none)
      → (u : Task N) × (retry_loop env workers left j t ≡ ok u) × (u.status ≡ TaskStatus.failed)
  unfolding retry_loop
  retry_loop_failed zero j t at h = (fail_task env workers (env.end_time j) t, refl, refl)
  retry_loop_failed (suc left) j t at h =
      let (t', next, at') = retry_step_failed left j t at (h j (omega arith) (omega arith)) in
      elim (Bool-cases (env.ctx_err j)) [
        | inl over ↦ (fail_task env workers (env.end_time j) t', next ∙ rw over, refl)
        | inr alive ↦
            let r =
              retry_loop_failed left (j + 1) t' at'
                (λ i above below. h i (omega arith) (omega arith)) in
            (r.0, next ∙ rw alive r.1, r.2)
      ]

  -- The context is over behind the failure of attempt `j + d`.
  retry_loop_stopped :
      (d left j : ℕ) (t : Task N)
      → d < left
      → IsAt j t
      → ((i : ℕ) → j ≤ i → i < j + d → IsRetried i)
      → outcome_at (j + d) ≡ none
      → env.ctx_err (j + d) ≡ true
      → (u : Task N) × (retry_loop env workers left j t ≡ ok u) × (u.status ≡ TaskStatus.failed)
  retry_loop_stopped d zero j t h at earlier now over = absurd (omega arith)
  retry_loop_stopped zero (suc left) j t h at earlier now over =
      let same : j + 0 ≡ j = omega arith in
      let (t', next, at') = retry_step_failed left j t at (rw same at now) in
      (fail_task env workers (env.end_time j) t', next ∙ rw (rw same at over), refl)
  retry_loop_stopped (suc d) (suc left) j t h at earlier now over =
      let (fails, alive) = earlier j (omega arith) (omega arith) in
      let (t', next, at') = retry_step_failed left j t at fails in
      let same : j + 1 + d ≡ j + suc d = omega arith in
      let r =
        retry_loop_stopped d left (j + 1) t' (omega arith) at'
          (λ i above below. earlier i (omega arith) (omega arith)) (rw same now) (rw same over) in
      (r.0, next ∙ rw alive r.1, r.2)

module _ {N : Type 0} (env : Attempts N) (workers : List WorkerInfo) (t : Task N) where
  -- what attempt `j` of the task brings
  abbrev pub attempt_outcome : ℕ → Option (Value N)
  attempt_outcome j = outcome (env.reply j (addr_at workers t.worker_addr j) (request_of t))

  -- With at least one worker, the first attempt of a task that succeeds decides it, if it is an
  -- allowed one and the context is alive behind the failed ones: the task is done, with that
  -- attempt's output and worker, and its number as the count of retries where it is not the first.
  pub task_done_lem :
      (max_retry k : ℕ) (out : Value N)
      → 0 < length workers
      → k ≤ max_retry
      → ((i : ℕ) → i < k → (attempt_outcome i ≡ none) × (env.ctx_err i ≡ false))
      → attempt_outcome k ≡ some out
      → (u : Task N) × (execute_task_with_retry env workers max_retry t ≡ ok u)
        × (u.status ≡ TaskStatus.done)
        × (u.output ≡ some out)
        × (u.worker_addr ≡ addr_at workers t.worker_addr k)
        × (0 < k → u.retry_count ≡ k)
  unfolding execute_task_with_retry IsAt
  task_done_lem max_retry k out h le earlier now =
      let same : 0 + k ≡ k = omega arith in
      let r =
        retry_loop_done env workers t.worker_addr (request_of t) h k (max_retry + 1) 0 t out
          (omega arith) (refl, λ _. refl) (λ i _ below. earlier i (omega arith)) (rw same now) in
      (
        r.0,
        r.1,
        r.2,
        r.3,
        r.4 ∙ ap (addr_at workers t.worker_addr) same,
        λ p. r.5 (omega arith) ∙ same,
      )

  -- With at least one worker, a task whose every allowed attempt fails ends as failed.
  pub task_exhausted_lem :
      (max_retry : ℕ)
      → 0 < length workers
      → ((i : ℕ) → i ≤ max_retry → attempt_outcome i ≡ none)
      → (u : Task N) × (execute_task_with_retry env workers max_retry t ≡ ok u)
        × (u.status ≡ TaskStatus.failed)
  unfolding execute_task_with_retry IsAt
  task_exhausted_lem max_retry h all_fail =
      retry_loop_failed env workers t.worker_addr (request_of t) h (max_retry + 1) 0 t
        (refl, λ _. refl) (λ i _ below. all_fail i (omega arith))

  -- With at least one worker, a task ends as failed at a failed allowed attempt behind which the
  -- context is over, with failed attempts and a live context before it, whatever later attempts
  -- would bring.
  pub task_stopped_lem :
      (max_retry k : ℕ)
      → 0 < length workers
      → k ≤ max_retry
      → ((i : ℕ) → i < k → (attempt_outcome i ≡ none) × (env.ctx_err i ≡ false))
      → attempt_outcome k ≡ none
      → env.ctx_err k ≡ true
      → (u : Task N) × (execute_task_with_retry env workers max_retry t ≡ ok u)
        × (u.status ≡ TaskStatus.failed)
  unfolding execute_task_with_retry IsAt
  task_stopped_lem max_retry k h le earlier now over =
      let same : 0 + k ≡ k = omega arith in
      retry_loop_stopped env workers t.worker_addr (request_of t) h k (max_retry + 1) 0 t
        (omega arith) (refl, λ _. refl) (λ i _ below. earlier i (omega arith)) (rw same now)
        (rw same over)
