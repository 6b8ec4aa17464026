-- ===== src/Scheduler/ExecuteEnds.antt =====
-- In which statuses a run of a job can end.
use swarm_compute.Base.{
  ℕ, ◌≡◌, ◌⊎◌, refl, inl, inr, List, [], ◌∷◌, Option, none, some, Option-cases, Error, Result, ok,
  err, panic, ◌>>=◌, length, true,
}
use swarm_compute.Base.Value.{Value, Fields}
use swarm_compute.Base.Float64.{Float64}
use swarm_compute.Splitter.{splitters}
use swarm_compute.Aggregator.{aggregators}
use swarm_compute.Scheduler.Types.{Worker, WorkerInfo, Job, JobStatus}
use swarm_compute.Scheduler.LifecycleLaws.{IsFinal}
use swarm_compute.Scheduler.Execute.{
  Surroundings, Wake, all_ended, context_over, cancel_running, get_healthy_workers, run_tasks,
  failed_tasks, outputs_of, aggregate_job, collect_job, wake_job, run_job, split_job, execute_job,
}

Result-cases {ℓ} :
    {A : Type ℓ} (r : Result A) → ((a : A) × (r ≡ ok a)) ⊎ ((e : Error) × (r ≡ err e)) ⊎ (r ≡ panic)
Result-cases (ok a) = inl (a, refl)
Result-cases (err e) = inr (inl (e, refl))
Result-cases panic = inr (inr refl)

module _ {N : Type 0} where
  -- a job that is returned has a final status
  abbrev pub Ends : Result (Job N) → Type 0
  Ends (ok job) = IsFinal job.status
  Ends _ = Unit

  Ends->>= {ℓ} :
      {A : Type ℓ} (first : Result A) (rest : A → Result (Job N))
      → ((a : A) → Ends (rest a))
      → Ends (first >>= rest)
  Ends->>= (ok a) rest h = h a
  Ends->>= (err e) rest h = tt
  Ends->>= panic rest h = tt

module _ {N : Type 0} ⦃fl : Float64 N⦄ where
  aggregate_job-Ends :
      (now : ℕ) (outputs : List (Value N)) (job : Job N) → Ends (aggregate_job now outputs job)
  unfolding aggregate_job
  aggregate_job-Ends now outputs job = elim (Option-cases (aggregators {N = N} job.type_id)) [
    | inl e ↦ rw (e, aggregate_job) (inr (inl refl))
    | inr (agg, e) ↦ elim (Result-cases (agg outputs)) [
      | inl (v, e') ↦ rw (e, e', aggregate_job) (inl refl)
      | inr (inl (x, e')) ↦ rw (e, e', aggregate_job) (inr (inl refl))
      | inr (inr e') ↦ rw (e, e', aggregate_job) tt
    ]
  ]

  collect_job-Ends : (now : ℕ) (job : Job N) → Ends (collect_job now job)
  unfolding collect_job
  collect_job-Ends now job = elim (Option-cases (failed_tasks job.tasks)) [
    | inl e ↦ rw (e, collect_job) (aggregate_job-Ends now (outputs_of job.tasks) job)
    | inr (x, e) ↦ rw (e, collect_job) (inr (inl refl))
  ]

  wake_job-Ends :
      (wake : Wake) (cancel_time : Option ℕ) (now : ℕ) (job : Job N)
      → job.status ≡ JobStatus.running
      → Ends (wake_job wake now (cancel_running cancel_time job))
  unfolding wake_job
  wake_job-Ends context_over none now job h = rw (h, wake_job) (inr (inl refl))
  wake_job-Ends context_over (some t) now job h = inr (inr refl)
  wake_job-Ends all_ended none now job h = rw (h, wake_job) (collect_job-Ends now job)
  wake_job-Ends all_ended (some t) now job h = inr (inr refl)

  run_job-Ends :
      (s : Surroundings N) (workers : List WorkerInfo) (inputs : List (Fields N)) (job : Job N)
      → Ends (run_job s workers inputs job)
  unfolding run_job
  run_job-Ends s workers inputs job = Ends->>= (run_tasks s workers job 0 inputs) _ (λ tasks.
      wake_job-Ends s.wake s.cancel_time s.end_time
        (record job { tasks = tasks; status = JobStatus.running }) refl)

  split_job-Ends :
      (s : Surroundings N) (workers : List WorkerInfo) (job : Job N)
      → Ends (split_job s workers job)
  unfolding split_job
  split_job-Ends s workers job = elim (Option-cases (splitters {N = N} job.type_id)) [
    | inl e ↦ rw (e, split_job) (inr (inl refl))
    | inr (split, e) ↦ elim (Result-cases (split job.input (length workers))) [
      | inl (inputs, e') ↦
          rw (e, e', split_job)
            (run_job-Ends s workers inputs (record job { status = JobStatus.splitting }))
      | inr (inl (x, e')) ↦ rw (e, e', split_job) (inr (inl refl))
      | inr (inr e') ↦ rw (e, e', split_job) tt
    ]
  ]

  execute_job-Ends :
      (s : Surroundings N) (workers : List Worker) (job : Job N) → Ends (execute_job s workers job)
  unfolding execute_job
  execute_job-Ends s workers job = go (get_healthy_workers s.arrivals workers) refl
    where
      go :
          (ws : List WorkerInfo)
          → get_healthy_workers s.arrivals workers ≡ ws
          → Ends (execute_job s workers job)
      go [] e = rw (e, execute_job) (inr (inl refl))
      go (w ∷ ws) e = rw (e, execute_job) (split_job-Ends s (w ∷ ws) (record job { cancel = true }))

  -- If a run of a job comes to its end, on any branch and with a cancel or the end of the context
  -- while the tasks run, the job is done, failed or cancelled.
  pub execute_job_ends :
      (s : Surroundings N) (workers : List Worker) (job job' : Job N)
      → execute_job s workers job ≡ ok job'
      → IsFinal job'.status
  execute_job_ends s workers job job' run = rw run at (execute_job-Ends s workers job)
