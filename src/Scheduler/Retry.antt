-- ===== src/Scheduler/Retry.antt =====
-- callWorker and executeTaskWithRetry of center/server/scheduler.go. The network and the clock are
-- parameters: what the worker at an address answers to a request, in each attempt.
use text.Mathlib.Text.{◌==◌ as str_eq}
use swarm_compute.Base.{
  ℕ, zero, suc, ◌+◌, ◌%◌, String, List, [], ◌∷◌, Option, none, some, Bool, length, Error, Result,
  ok, errorf_str, errorf_int, errorf_wrap, errorf_and, ◌>>=◌, index, ◌==◌, if◌then◌else◌,
}
use swarm_compute.Base.Value.{Value}
use swarm_compute.Executor.{TaskRequest}
use swarm_compute.Scheduler.Types.{Task, TaskStatus, WorkerInfo}

-- How the call of a worker ends: a request that cannot be encoded or made, or no answer, or a body that cannot be read or decoded, or an answer
-- with another status than 200, or a decoded body.
pub data Reply (N : Type 0) : Type 0 where
  unsent : Error → Reply N
  unreachable : Error → Reply N
  unreadable : Error → Reply N
  bad_status : ℕ → String → Reply N
  undecodable : Error → Reply N
  answer : (status : String) → (output : Value N) → (error : String) → (duration_ms : ℕ) → Reply N

-- What the surroundings do in each attempt.
pub record Attempts (N : Type 0) : Type 0 where
  pub reply : ℕ → String → TaskRequest N → Reply N  -- of the worker at an address
  pub ctx_err : ℕ → Bool  -- ctx.Err() != nil behind the attempt
  pub start_time : ℕ → ℕ
  pub end_time : ℕ → ℕ

module _ {N : Type 0} where
  abbrev pub request_of : Task N → TaskRequest N
  request_of t = record { task_id = t.task_id; type_id = t.type_id; input = t.input }

  -- callWorker: the task behind it, and the error
  unfoldable pub call_worker : Reply N → ℕ → Task N → Task N × Option Error
  call_worker (unsent e) now t = (t, some e)
  call_worker (unreachable e) now t = (t, some (errorf_wrap "worker call failed: " e))
  call_worker (unreadable e) now t = (t, some (errorf_wrap "read response failed: " e))
  call_worker (bad_status code body) now t = (
    t,
    some (errorf_and "%w: %w" (errorf_int "worker returned %d" (code ∷ [])) (errorf_str "%s" body)),
  )
  call_worker (undecodable e) now t = (t, some (errorf_wrap "decode response failed: " e))
  call_worker (answer status output error duration_ms) now t =
      if str_eq status "error" then (t, some (errorf_str "worker error: %s" error)) else (
        record t {
          status = TaskStatus.done;
          output = some output;
          duration_ms = duration_ms;
          finished_at = now;
        },
        none,
      )

  -- The task moves on to another worker; `workers[i]` panics out of range.
  unfoldable pub reassign : List WorkerInfo → ℕ → ℕ → Task N → Result (Task N)
  reassign workers attempt now t = index workers (attempt % length workers) >>= λ w. ok (record t {
    retry_count = attempt;
    worker_id = w.instance_id;
    worker_addr = w.addr;
    started_at = now;
  })

  abbrev pub prepare : List WorkerInfo → ℕ → ℕ → Task N → Result (Task N)
  prepare workers attempt now t = if attempt == 0 then ok t else reassign workers attempt now t

  module _ (env : Attempts N) (workers : List WorkerInfo) where
    -- one call, at the worker that the task names
    abbrev pub call : ℕ → Task N → Task N × Option Error
    call attempt t =
        call_worker (env.reply attempt t.worker_addr (request_of t)) (env.end_time attempt) t

    abbrev pub fail_task : ℕ → Task N → Task N
    fail_task now t = record t { status = TaskStatus.failed; finished_at = now }

    -- What follows a call: the end, or the next attempt unless the context is over.
    abbrev pub after_call : ℕ → Task N × Option Error → (Task N → Result (Task N)) → Result (Task N)
    after_call attempt (t, none) next = ok t
    after_call attempt (t, some e) next =
        let failed_once = record t { error = some e } in
        if env.ctx_err attempt
        then ok (fail_task (env.end_time attempt) failed_once)
        else next failed_once

    -- `for attempt := 0; attempt <= maxRetry; attempt++`, with `left` rounds to go. A call without an
    -- error has set the status to done.
    unfoldable pub retry_loop : ℕ → ℕ → Task N → Result (Task N)
    unfolding call_worker reassign
    retry_loop zero attempt t = ok (fail_task (env.end_time attempt) t)
    retry_loop (suc left) attempt t = prepare workers attempt (env.start_time attempt) t >>= λ t1.
        after_call attempt (call attempt t1) (retry_loop left (attempt + 1))

    unfoldable pub execute_task_with_retry : ℕ → Task N → Result (Task N)
    unfolding retry_loop
    execute_task_with_retry max_retry t = retry_loop (max_retry + 1) 0 t
