-- ===== src/Scheduler/Lifecycle.antt =====
-- The life of one job as ExecuteJob of center/server/scheduler.go runs it, with the handler that
-- cancels a job (jobDetailOrCancelHandler of center/server/main.go) at any point between two steps.
-- A step is one of the places where ExecuteJob writes or tests the job's status.
use swarm_compute.Base.{Bool, true, false, ◌≡◌, ◌≢◌}
use swarm_compute.Scheduler.Types.{
  JobStatus, pending, splitting, running, aggregating, done, failed, cancelled,
}

-- Where ExecuteJob stands: not called, before the first status, before the tasks, in the `select`,
-- before the check for a cancel, behind it, before the result, returned.
pub data Phase : Type 0 where
  queued pinging cutting waiting checking collecting merging returned : Phase

-- `has_cancel` is `job.cancel != nil`, `over` is `ctx.Err() != nil`, and `stamped` is
-- `job.FinishedAt > 0`.
pub record Run : Type 0 where
  pub phase : Phase
  pub status : JobStatus
  pub has_cancel : Bool
  pub over : Bool
  pub stamped : Bool

abbrev pub submitted : Run
submitted = record {
  phase = queued;
  status = pending;
  has_cancel = false;
  over = false;
  stamped = false;
}

-- failJob, and the return behind it
abbrev pub fail : Run → Run
fail r = record r { phase = returned; status = failed; stamped = true }

-- The branch of the `select` for the end of the context.
abbrev pub give_up : Run → JobStatus → Run
give_up r running = fail r
give_up r _ = record r { phase = returned }

abbrev pub finish : Run → Run
finish r = record r { phase = returned; status = done; stamped = true }

-- what the handler does to a job whose cancel function is set
abbrev pub cancel : Run → Run
cancel r = record r { status = cancelled; over = true; stamped = true }

infix 40 ◌⟶◌
pub data ◌⟶◌ (r : Run) : Run → Type 0 where
  start : r.phase ≡ queued → r ⟶ record r { phase = pinging; has_cancel = true }
  no_workers : r.phase ≡ pinging → r ⟶ fail r
  begin_split : r.phase ≡ pinging → r ⟶ record r { phase = cutting; status = splitting }
  split_fails : r.phase ≡ cutting → r ⟶ fail r
  begin_tasks : r.phase ≡ cutting → r ⟶ record r { phase = waiting; status = running }
  tasks_end : r.phase ≡ waiting → r ⟶ record r { phase = checking }
  context_ends : r.phase ≡ waiting → r.over ≡ true → r ⟶ give_up r r.status
  was_cancelled : r.phase ≡ checking → r.status ≡ cancelled → r ⟶ record r { phase = returned }
  not_cancelled : r.phase ≡ checking → r.status ≢ cancelled → r ⟶ record r { phase = collecting }
  tasks_fail : r.phase ≡ collecting → r ⟶ fail r
  begin_merge : r.phase ≡ collecting → r ⟶ record r { phase = merging; status = aggregating }
  merge_fails : r.phase ≡ merging → r ⟶ fail r
  merge_ends : r.phase ≡ merging → r ⟶ finish r
  times_out : r.has_cancel ≡ true → r ⟶ record r { over = true }
  cancels : r.has_cancel ≡ true → r ⟶ cancel r

infix 40 ◌⟶*◌
pub data ◌⟶*◌ (r : Run) : Run → Type 0 where
  here : r ⟶* r
  next : {s t : Run} → r ⟶* s → s ⟶ t → r ⟶* t
