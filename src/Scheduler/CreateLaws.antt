-- ===== src/Scheduler/CreateLaws.antt =====
-- What createJob leaves in the store.
use text.Mathlib.Text.{◌==◌ as str_eq}
use text.Mathlib.TextPositions.{eq_refl}
use swarm_compute.Base.{
  ℕ, ◌<◌, ◌≡◌, refl, ◌∙◌, String, some, Option-cases, false, Bool-cases, Result, ok, err, panic,
  wrap_error, ◌>>=◌, inl, inr, arith,
}
use swarm_compute.Base.Int.{ℤ}
use swarm_compute.Base.Map.{lookup, insert, lookup-insert}
use swarm_compute.Scheduler.Types.{Job, JobStatus, JobSubmitRequest, Store, TaskType}
use swarm_compute.Scheduler.Create.{create_job, new_job, validate_input, positive_or}

positive_or-pos : (d : ℕ) (x : ℤ) → 0 < d → 0 < positive_or d x
positive_or-pos d x h = ground arith

checked {ℓ} :
    {A : Type ℓ} (m : Result (Unit {0})) (s : String) (f : Unit {0} → Result A) {a : A}
    → (wrap_error s m >>= f) ≡ ok a
    → m ≡ ok tt
checked (ok u) s f h = refl
checked (err e) s f h = cc
checked panic s f h = cc

module _ {N : Type 0} (req : JobSubmitRequest N) (id : String) (now : ℕ) (s : Store N) where
  -- The request names a registered type, and its input is valid.
  abbrev pub IsAcceptable : Type 0
  IsAcceptable =
      (str_eq req.type_id "" ≡ false)
      × ((type : TaskType) × (lookup req.type_id s.task_types ≡ some type))
      × (validate_input req.type_id req.input ≡ ok tt)

  -- the store with the new job
  abbrev pub with_job : Store N
  with_job = record s { jobs = insert id (new_job req id now) s.jobs }

  pub accepted : IsAcceptable → create_job req id now s ≡ ok (new_job req id now, with_job)
  unfolding create_job
  accepted (named, (type, known), valid) = rw (named, known, valid, create_job)

  acceptable : {out : Job N × Store N} → create_job req id now s ≡ ok out → IsAcceptable
  unfolding create_job
  acceptable h = elim (Bool-cases (str_eq req.type_id "")) [
    | inl unnamed ↦ let refused = rw (unnamed, create_job) at h in cc
    | inr named ↦ elim (Option-cases (lookup req.type_id s.task_types)) [
      | inl unknown ↦ let refused = rw (named, unknown, create_job) at h in cc
      | inr (type, known) ↦ (
        named,
        (type, known),
        checked (validate_input req.type_id req.input) _ _ (rw (named, known, create_job) at h),
      )
    ]
  ]

module _ {N : Type 0} (req : JobSubmitRequest N) (id : String) (now : ℕ) (s : Store N) where
  -- A request that names a registered type and has a valid input, and no other, is accepted. The
  -- answer is a pending job with positive numbers of retries and of seconds, the store holds that
  -- job under the new id, and the jobs under other ids, the workers and the task types are as
  -- before.
  pub create_job_lem :
      (IsAcceptable req id now s
        → (job : Job N) × (s' : Store N) × (create_job req id now s ≡ ok (job, s'))
          × (job.status ≡ JobStatus.pending)
          × (0 < job.max_retry)
          × (0 < job.timeout_sec)
          × (lookup id s'.jobs ≡ some job)
          × ((j : String) → str_eq id j ≡ false → lookup j s'.jobs ≡ lookup j s.jobs)
          × (s'.workers ≡ s.workers)
          × (s'.task_types ≡ s.task_types))
      × ((out : Job N × Store N) → create_job req id now s ≡ ok out → IsAcceptable req id now s)
  create_job_lem = (
    λ good. (
      new_job req id now,
      with_job req id now s,
      accepted req id now s good,
      refl,
      positive_or-pos 2 req.max_retry (omega arith),
      positive_or-pos 60 req.timeout_sec (omega arith),
      lookup-insert id id (new_job req id now) s.jobs ∙ rw (eq_refl id),
      λ j other. lookup-insert id j (new_job req id now) s.jobs ∙ rw other,
      refl,
      refl,
    ),
    λ out. acceptable req id now s,
  )
