-- ===== src/Scheduler/LifecycleLaws.antt =====
-- What holds of a job at every point of its life, whenever it is cancelled.
use swarm_compute.Base.{true, false, ◌≡◌, ◌≢◌, ◌⊎◌, refl, arith}
use swarm_compute.Scheduler.Types.{JobStatus, pending, running, done, failed, cancelled}
use swarm_compute.Scheduler.Lifecycle.{
  queued, waiting, checking, merging, returned, Run, submitted, finish, cancel, ◌⟶◌, start,
  no_workers, begin_split, split_fails, begin_tasks, tasks_end, context_ends, was_cancelled,
  not_cancelled, tasks_fail, begin_merge, merge_fails, merge_ends, times_out, cancels, ◌⟶*◌, here,
  next,
}

abbrev pub IsFinal : JobStatus → Type 0
IsFinal s = (s ≡ done) ⊎ (s ≡ failed) ⊎ (s ≡ cancelled)

-- A job that has returned is final, a final job has a finishing time, and a job can be cancelled
-- exactly when it has been started.
pub record IsSound (r : Run) : Type 0 where
  pub returned_final : r.phase ≡ returned → IsFinal r.status
  pub final_stamped : IsFinal r.status → r.stamped ≡ true
  pub started_cancel : r.phase ≢ queued → r.has_cancel ≡ true
  pub queued_cancel : r.phase ≡ queued → r.has_cancel ≡ false
  pub waiting_status :
      (r.phase ≡ waiting) ⊎ (r.phase ≡ checking) → (r.status ≡ running) ⊎ (r.status ≡ cancelled)
  pub queued_pending : r.phase ≡ queued → r.status ≡ pending

⟶-IsSound : {r s : Run} → r ⟶ s → IsSound r → IsSound s
⟶-IsSound (start p) h = ground arith
⟶-IsSound (no_workers p) h = ground arith
⟶-IsSound (begin_split p) h = ground arith
⟶-IsSound (split_fails p) h = ground arith
⟶-IsSound (begin_tasks p) h = ground arith
⟶-IsSound (tasks_end p) h = ground arith
⟶-IsSound (context_ends p o) h = ground arith
⟶-IsSound (was_cancelled p c) h = ground arith
⟶-IsSound (not_cancelled p c) h = ground arith
⟶-IsSound (tasks_fail p) h = ground arith
⟶-IsSound (begin_merge p) h = ground arith
⟶-IsSound (merge_fails p) h = ground arith
⟶-IsSound (merge_ends p) h = ground arith
⟶-IsSound (times_out c) h = ground arith
⟶-IsSound (cancels c) h = ground arith

submitted-IsSound : IsSound submitted
submitted-IsSound = ground arith

-- At every point of a job's life, with a cancel or a timeout at any earlier point where one is
-- possible: a job whose run has returned is done, failed or cancelled; a done, failed or cancelled
-- job has a finishing time; a job has a cancel function exactly when its run has begun; while its
-- tasks run, and at the check behind them, it is running or cancelled; and before its run it is
-- pending.
pub reachable-IsSound : {r : Run} → submitted ⟶* r → IsSound r
reachable-IsSound here = submitted-IsSound
reachable-IsSound (next path step) = ⟶-IsSound step (reachable-IsSound path)

-- A cancel is lost in the last phase of a run: from every reachable point before the result is
-- written, the handler can mark the job as cancelled, and the run can then end with the job done.
pub cancel_lost :
    (r : Run)
    → submitted ⟶* r
    → r.phase ≡ merging
    → (s t : Run) × (r ⟶ s)
      × (s.status ≡ cancelled)
      × (s ⟶ t)
      × (t.status ≡ done)
      × (t.phase ≡ returned)
cancel_lost r path p =
    let can_cancel : r.has_cancel ≡ true = (reachable-IsSound path).started_cancel (λ q. cc) in
    (cancel r, finish (cancel r), cancels can_cancel, refl, merge_ends p, refl, refl)

-- A reachable job that has returned as done can still be turned into a cancelled one.
pub done_not_final :
    (r : Run)
    → submitted ⟶* r
    → r.phase ≡ returned
    → r.status ≡ done
    → (s : Run) × (r ⟶ s) × (s.phase ≡ returned) × (s.status ≡ cancelled)
done_not_final r path p d =
    let can_cancel : r.has_cancel ≡ true = (reachable-IsSound path).started_cancel (λ q. cc) in
    (cancel r, cancels can_cancel, p, refl)
