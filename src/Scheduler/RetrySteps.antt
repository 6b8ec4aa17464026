-- ===== src/Scheduler/RetrySteps.antt =====
-- One attempt: how a call changes the task, and which worker the attempt goes to.
use text.Mathlib.Text.{◌==◌ as str_eq}
use swarm_compute.Base.{
  ℕ, zero, suc, ◌%◌, ◌<◌, ◌≡◌, refl, ◌∙◌, inl, inr, String, List, [], ◌∷◌, Option, none, some, true,
  false, Bool-cases, length, Error, errorf_wrap, errorf_int, errorf_str, errorf_and, ok, index,
  arith, ◌==◌, if◌then◌else◌,
}
use swarm_compute.Base.Value.{Value}
use swarm_compute.Executor.{TaskRequest}
use swarm_compute.Scheduler.Types.{Task, TaskStatus, WorkerInfo}
use swarm_compute.Scheduler.Retry.{
  Reply, unsent, unreachable, unreadable, bad_status, undecodable, answer, call_worker, request_of,
  reassign, prepare,
}

pub index_in_range {ℓ} :
    {A : Type ℓ} (xs : List A) (i : ℕ) → i < length xs → (x : A) × (index xs i ≡ ok x)
index_in_range [] i h = absurd (omega arith)
index_in_range (x ∷ xs) zero h = (x, refl)
index_in_range (x ∷ xs) (suc i) h = index_in_range xs i (omega arith)

-- The address that attempt `j` calls: the first one, then workers[j % len(workers)].
abbrev pub addr_at : List WorkerInfo → String → ℕ → String
addr_at workers first j =
    if j == 0 then first else elim (index workers (j % length workers)) [ ok w ↦ w.addr | _ ↦ "" ]

module _ {N : Type 0} where
  -- The output that a reply brings, `none` where the call fails.
  abbrev pub outcome : Reply N → Option (Value N)
  outcome (answer status output error duration_ms) =
      if str_eq status "error" then none else some output
  outcome _ = none

  -- The parts of a task that its execution leaves alone.
  abbrev pub SameWork : Task N → Task N → Type 0
  SameWork t u =
      (t.task_id ≡ u.task_id)
      × (t.job_id ≡ u.job_id)
      × (t.type_id ≡ u.type_id)
      × (t.input ≡ u.input)

  -- A task that is done with an output, at the attempt and the worker that it was.
  abbrev pub IsDoneFrom : Task N → Value N → Task N → Type 0
  IsDoneFrom t out u =
      (u.status ≡ TaskStatus.done)
      × (u.output ≡ some out)
      × (u.retry_count ≡ t.retry_count)
      × (u.worker_addr ≡ t.worker_addr)
      × SameWork u t

  pub call_worker_done :
      (r : Reply N) (now : ℕ) (t : Task N) (out : Value N)
      → outcome r ≡ some out
      → (u : Task N) × (call_worker r now t ≡ (u, none)) × IsDoneFrom t out u
  unfolding call_worker
  call_worker_done (unsent e) now t out h = absurd (cc)
  call_worker_done (unreachable e) now t out h = absurd (cc)
  call_worker_done (unreadable e) now t out h = absurd (cc)
  call_worker_done (bad_status code body) now t out h = absurd (cc)
  call_worker_done (undecodable e) now t out h = absurd (cc)
  call_worker_done (answer status output error duration_ms) now t out h =
      elim (Bool-cases (str_eq status "error")) [
        | inl e ↦ absurd (no_output e)
        | inr e ↦ (
          record t {
            status = TaskStatus.done;
            output = some output;
            duration_ms = duration_ms;
            finished_at = now;
          },
          rw e,
          (refl, rw e at h, refl, refl, (refl, refl, refl, refl)),
        )
      ]
    where
      no_output : str_eq status "error" ≡ true → ⊥
      no_output e = ground arith

  pub call_worker_failed :
      (r : Reply N) (now : ℕ) (t : Task N)
      → outcome r ≡ none
      → (e : Error) × (call_worker r now t ≡ (t, some e))
  unfolding call_worker
  call_worker_failed (unsent e) now t h = (e, refl)
  call_worker_failed (unreachable e) now t h = (errorf_wrap "worker call failed: " e, refl)
  call_worker_failed (unreadable e) now t h = (errorf_wrap "read response failed: " e, refl)
  call_worker_failed (bad_status code body) now t h = (
    errorf_and "%w: %w" (errorf_int "worker returned %d" (code ∷ [])) (errorf_str "%s" body),
    refl,
  )
  call_worker_failed (undecodable e) now t h = (errorf_wrap "decode response failed: " e, refl)
  call_worker_failed (answer status output error duration_ms) now t h =
      (errorf_str "worker error: %s" error, ground arith)

  -- The task that attempt `j` calls for.
  abbrev pub IsPrepared : List WorkerInfo → String → ℕ → Task N → Task N → Type 0
  IsPrepared workers first j t u =
      (u.worker_addr ≡ addr_at workers first j)
      × (u.retry_count ≡ (if j == 0 then t.retry_count else j))
      × SameWork u t

  pub prepare_lem :
      (workers : List WorkerInfo) (first : String) (attempt now : ℕ) (t : Task N)
      → 0 < length workers
      → (attempt ≡ 0 → t.worker_addr ≡ first)
      → (u : Task N) × (prepare workers attempt now t ≡ ok u) × IsPrepared workers first attempt t u
  unfolding reassign
  prepare_lem workers first zero now t h k = (t, refl, (k refl, refl, (refl, refl, refl, refl)))
  prepare_lem workers first (suc j) now t h k =
      let later : (suc j == 0) ≡ false = ground arith in
      let (w, found) = index_in_range workers (suc j % length workers) (omega arith) in
      (
        record t {
          retry_count = suc j;
          worker_id = w.instance_id;
          worker_addr = w.addr;
          started_at = now;
        },
        rw (later, found),
        rw (later, found) (refl, refl, (refl, refl, refl, refl)),
      )

pub same_request_lem :
    {N : Type 0} {req : TaskRequest N} (t u : Task N)
    → SameWork u t
    → request_of t ≡ req
    → request_of u ≡ req
same_request_lem t u same h =
    (λ i. record { task_id = same.0 i; type_id = same.2 i; input = same.3 i }) ∙ h
