-- ===== src/Center/JobLaws.antt =====
-- A submitted job, as the handler of /api/jobs/{id} and of its cancel finds it.
use Prim.Native.String.{◌++◌}
use text.Mathlib.Text.{◌==◌ as str_eq}
use text.Mathlib.TextPositions.{eq_refl}
use text.Mathlib.TextLemmas.{nil-append, cons-append, length-cons, length-append}
use swarm_compute.Base.Text.{str_eq-longer}
use swarm_compute.Base.{
  ◌≡◌, refl, ap, ◌∙◌, [], ◌∷◌, ◌++◌ as ◌⊕◌, String, none, some, true, false, Bool-cases, inl, inr,
  if◌then◌else◌, arith,
}
use swarm_compute.Base.Map.{lookup, lookup-insert}
use swarm_compute.Scheduler.Types.{Job, JobStatus, JobSubmitRequest}
use swarm_compute.Scheduler.Create.{new_job}
use swarm_compute.Center.Http.{
  Request, Decoder, Body, Server, Moment, write_json, cut_prefix, trim_prefix, cut_suffix,
}
use swarm_compute.Center.Handlers.{
  job_submit_handler, cancel_job, cancel_handler, detail_handler, job_detail_or_cancel_handler,
}
use swarm_compute.Center.SubmitLaws.{IsSubmission, job_submit_handler_lem}

cut_prefix-append : (p s : String) → cut_prefix p (p ++ s) ≡ some s
unfolding cut_prefix
cut_prefix-append String.[] s = rw nil-append refl
cut_prefix-append (String.◌∷◌ c p) s = rw (cons-append, cut_prefix-append p s) (ground arith)

pub trim_prefix-append : (p s : String) → trim_prefix (p ++ s) p ≡ s
unfolding trim_prefix
trim_prefix-append p s = rw (trim_prefix, cut_prefix-append p s) refl

cut_suffix-whole : (s : String) → cut_suffix s s ≡ some ""
unfolding cut_suffix
cut_suffix-whole String.[] = refl
cut_suffix-whole (String.◌∷◌ c s) = rw (eq_refl (String.◌∷◌ c s)) refl

cut_suffix-append : (suffix s : String) → cut_suffix suffix (s ++ suffix) ≡ some s
unfolding cut_suffix
cut_suffix-append suffix String.[] = rw nil-append (cut_suffix-whole suffix)
cut_suffix-append suffix (String.◌∷◌ c s) =
    let longer =
      str_eq-longer (String.◌∷◌ c (s ++ suffix)) suffix
        (omega (arith, length-cons c (s ++ suffix), length-append s suffix)) in
    rw (cons-append, longer, cut_suffix-append suffix s) refl

-- An id that the paths of a job carry: not empty, and without the suffix of a cancel.
abbrev pub IsPathId : String → Type 0
IsPathId id = (str_eq id "" ≡ false) × (cut_suffix "/cancel" id ≡ none)

module _ {N : Type 0} (id : String) (m : Moment) (r : Request) (s : Server N) where
  detail_found :
      (job : Job N)
      → str_eq id "" ≡ false
      → str_eq r.method "GET" ≡ true
      → lookup id s.store.jobs ≡ some job
      → detail_handler id m r s ≡ (write_json (Body.job job), s)
  unfolding detail_handler
  detail_found job named get found = rw (detail_handler, get, named, found) refl

  pub detail_answer :
      (job : Job N)
      → IsPathId id
      → str_eq r.method "GET" ≡ true
      → r.path ≡ "/api/jobs/" ++ id
      → lookup id s.store.jobs ≡ some job
      → job_detail_or_cancel_handler m r s ≡ (write_json (Body.job job), s)
  unfolding job_detail_or_cancel_handler
  detail_answer job (named, plain) get at found =
      let parsed : trim_prefix r.path "/api/jobs/" ≡ id =
        ap (λ p. trim_prefix p "/api/jobs/") at ∙ trim_prefix-append "/api/jobs/" id in
      rw (job_detail_or_cancel_handler, parsed, plain, parsed) (detail_found job named get found)

  cancel_answer :
      (job : Job N)
      → str_eq r.method "POST" ≡ true
      → r.path ≡ "/api/jobs/" ++ (id ++ "/cancel")
      → lookup id s.store.jobs ≡ some job
      → job_detail_or_cancel_handler m r s ≡ (write_json Body.done, cancel_job m id job s)
  unfolding job_detail_or_cancel_handler cancel_handler
  cancel_answer job post at found =
      rw
        (
          job_detail_or_cancel_handler,
          at,
          trim_prefix-append "/api/jobs/" (id ++ "/cancel"),
          cut_suffix-append "/cancel" id,
          cancel_handler,
          post,
          found,
        )
        refl

module _ {N : Type 0} (decoder : Decoder N) (m : Moment) (r : Request) (s : Server N) where
  pub submitted_found :
      (req : JobSubmitRequest N)
      → IsSubmission decoder m r s req
      → lookup m.new_id (job_submit_handler decoder m r s).1.store.jobs
        ≡ some (new_job req m.new_id m.now)
  submitted_found req good =
      let (answer, state) = (job_submit_handler_lem decoder m r s).0 req good in
      let stored =
        lookup-insert m.new_id m.new_id (new_job req m.new_id m.now) s.store.jobs
        ∙ rw (eq_refl m.new_id) refl in
      elim (Bool-cases m.published) [ inl e ↦ rw (state, e) stored | inr e ↦ rw (state, e) stored ]

  -- A GET request for a submitted job, right after its submission, is answered with the response
  -- of the submission, a pending job as the request describes it, and changes nothing. The new id
  -- is not empty and does not end in "/cancel".
  pub submit-detail :
      (req : JobSubmitRequest N) (m' : Moment) (r' : Request)
      → IsSubmission decoder m r s req
      → IsPathId m.new_id
      → str_eq r'.method "GET" ≡ true
      → r'.path ≡ "/api/jobs/" ++ m.new_id
      → let (answer, s') = job_submit_handler decoder m r s in
        (job_detail_or_cancel_handler m' r' s' ≡ (answer, s'))
        × (answer ≡ write_json (Body.job (new_job req m.new_id m.now)))
  submit-detail req m' r' good id get at =
      let (answer, state) = (job_submit_handler_lem decoder m r s).0 req good in
      (
        rw answer (
            detail_answer m.new_id m' r' (job_submit_handler decoder m r s).1
              (new_job req m.new_id m.now) id get at (submitted_found req good)),
        answer,
      )

  -- A cancel of a job that has just been submitted is answered as done and changes nothing: the
  -- job is pending as before, and its id stays in the queue if RabbitMQ has taken it.
  pub cancel_queued :
      (req : JobSubmitRequest N) (m' : Moment) (r' : Request)
      → IsSubmission decoder m r s req
      → str_eq r'.method "POST" ≡ true
      → r'.path ≡ "/api/jobs/" ++ (m.new_id ++ "/cancel")
      → let s' = (job_submit_handler decoder m r s).1 in
        (job_detail_or_cancel_handler m' r' s' ≡ (write_json Body.done, s'))
        × ((job : Job N) × (lookup m.new_id s'.store.jobs ≡ some job)
            × (job.status ≡ JobStatus.pending))
        × (s'.queue ≡ (if m.published then s.queue ⊕ (m.new_id ∷ []) else s.queue))
  cancel_queued req m' r' good post at =
      let (answer, state) = (job_submit_handler_lem decoder m r s).0 req good in
      (
        cancel_answer m.new_id m' r' (job_submit_handler decoder m r s).1
            (new_job req m.new_id m.now) post at (submitted_found req good),
        (new_job req m.new_id m.now, submitted_found req good, refl),
        elim (Bool-cases m.published) [ inl e ↦ rw (state, e) refl | inr e ↦ rw (state, e) refl ],
      )
