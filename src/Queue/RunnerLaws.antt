-- ===== src/Queue/RunnerLaws.antt =====
-- What holds at every point while the consumers run.
use text.Mathlib.Text.{◌==◌ as str_eq}
use text.Mathlib.TextEquality.{eq_iff}
use text.Mathlib.TextPositions.{eq_refl}
use swarm_compute.Base.{
  ℕ, ◌+◌, ◌≤◌, ◌≡◌, refl, sym, ap, ◌∙◌, subst, String, List, [], ◌∷◌, ◌++◌, Option-cases, none,
  some, false, Bool-cases, inl, inr, length, length-append, All, All-imp, ok, >>=-eq-ok, arith,
}
use swarm_compute.Base.Int.{ℤ}
use swarm_compute.Base.Float64.{Float64}
use swarm_compute.Base.Map.{lookup, insert, lookup-insert}
use swarm_compute.Scheduler.Types.{Job, JobStatus, JobSubmitRequest, Store}
use swarm_compute.Scheduler.Create.{create_job}
use swarm_compute.Scheduler.CreateLaws.{create_job_lem}
use swarm_compute.Scheduler.Execute.{Surroundings, process_job, execute_job}
use swarm_compute.Scheduler.ExecuteEnds.{execute_job_ends}
use swarm_compute.Scheduler.LifecycleLaws.{IsFinal}
use swarm_compute.Queue.Runner.{
  Consumers, runner_workers, start, occurrences, ◌⇒◌, submit, submit_only, deliver, receive, finish,
  stop, cancel, ◌⇒*◌, here, next,
}

occurrences-append :
    (id : String) (xs ys : List String)
    → occurrences id (xs ++ ys) ≡ occurrences id xs + occurrences id ys
unfolding occurrences
occurrences-append id [] ys = omega arith
occurrences-append id (x ∷ xs) ys = omega (arith, occurrences-append id xs ys)

-- Of ids that are all other than one.
All-apart {κ} :
    (P Q : String → Type κ) (id : String) (xs : List String)
    → occurrences id xs ≡ 0
    → ((x : String) → str_eq id x ≡ false → P x → Q x)
    → All P xs
    → All Q xs
unfolding occurrences
All-apart P Q id [] none_of f hs = tt
All-apart P Q id (x ∷ xs) none_of f hs =
    let apart : str_eq id x ≡ false = ground (eq_iff x id, eq_iff id x, arith) in
    let rest : occurrences id xs ≡ 0 = omega arith in
    (f x apart hs.0, All-apart P Q id xs rest f hs.1)

module _ {N : Type 0} where
  -- The job of an id, if there is one, has come to its end.
  abbrev pub IsEnded : Store N → String → Type 0
  IsEnded store id = (job : Job N) → lookup id store.jobs ≡ some job → IsFinal job.status

  insert-IsEnded :
      (store : Store N) (id other : String) (job : Job N)
      → IsFinal job.status
      → IsEnded store other
      → IsEnded (record store { jobs = insert id job store.jobs }) other
  insert-IsEnded store id other job final ended found_job found =
      elim (Bool-cases (str_eq id other)) [
        | inl e ↦
            let same : some job ≡ some found_job =
              sym (lookup-insert id other job store.jobs ∙ rw e refl) ∙ found in
            let at : job ≡ found_job = cc in subst (λ (j : Job N). IsFinal j.status) at final
        | inr e ↦ ended found_job (sym (lookup-insert id other job store.jobs ∙ rw e refl) ∙ found)
      ]

  inserted-IsEnded :
      (store : Store N) (id : String) (job : Job N)
      → IsFinal job.status
      → IsEnded (record store { jobs = insert id job store.jobs }) id
  inserted-IsEnded store id job final found_job found =
      let same : some job ≡ some found_job =
        sym (lookup-insert id id job store.jobs ∙ rw (eq_refl id) refl) ∙ found in
      let at : job ≡ found_job = cc in subst (λ (j : Job N). IsFinal j.status) at final

module _ {N : Type 0} ⦃fl : Float64 N⦄ where
  -- processJob ends the job that it takes, and changes no other.
  process_job-IsEnded :
      (env : Surroundings N) (id other : String) (store store' : Store N)
      → process_job env id store ≡ ok store'
      → IsEnded store' id × (IsEnded store other → IsEnded store' other)
  unfolding process_job
  process_job-IsEnded env id other store store' run = elim (Option-cases (lookup id store.jobs)) [
    | inl missing ↦
        let ran : ok store ≡ ok store' = rw (missing, process_job) at run in
        let same : store ≡ store' = cc in
        subst (λ (x : Store N). IsEnded x id × (IsEnded store other → IsEnded x other)) same
          (λ job found. let never : none ≡ some job = sym missing ∙ found in cc, λ ended. ended)
    | inr (job, found) ↦
        let (job', made, stored) =
          >>=-eq-ok (execute_job env store.workers job)
            (λ j. ok (record store { jobs = insert id j store.jobs }))
            (rw (found, process_job) at run) in
        let final = execute_job_ends env store.workers job job' made in
        let same : record store { jobs = insert id job' store.jobs } ≡ store' = cc in
        subst (λ (x : Store N). IsEnded x id × (IsEnded store other → IsEnded x other)) same
          (inserted-IsEnded store id job' final, insert-IsEnded store id other job' final)
  ]

  -- A submission leaves the jobs under other ids.
  create_job-IsEnded :
      (req : JobSubmitRequest N) (id other : String) (now : ℕ) (job : Job N)
      (store store' : Store N)
      → create_job req id now store ≡ ok (job, store')
      → str_eq id other ≡ false
      → IsEnded store other
      → IsEnded store' other
  create_job-IsEnded req id other now job store store' run apart ended found_job found =
      let good = (create_job_lem req id now store).1 (job, store') run in
      let (job'', stored, made, _, _, _, _, others, _, _) =
        (create_job_lem req id now store).0 good in
      let same : stored ≡ store' = cc in ended found_job (sym (others other apart) ∙ rw same found)

  -- What holds at every point: one message at most is out, as many goroutines as were started are at
  -- work, no published id is lost, and what is acknowledged has ended.
  pub record IsServed (workers : ℕ) (s : Consumers N) : Type 0 where
    pub one : length s.delivered + length s.running ≤ 1
    pub staffed : length s.running + s.idle ≤ workers
    pub kept :
        (id : String)
        → occurrences id s.published
          ≡ occurrences id s.queue
            + occurrences id s.delivered
            + occurrences id s.running
            + occurrences id s.acked
    pub ended : All (IsEnded s.store) s.acked

  start-IsServed :
      (workers : ℤ) (store : Store N) (queue : List String)
      → IsServed (runner_workers workers) (start workers store queue)
  unfolding occurrences
  start-IsServed workers store queue = record {
    one = omega arith;
    staffed = omega arith;
    kept = λ id. omega arith;
    ended = tt;
  }

  ⇒-IsServed : {n : ℕ} {s t : Consumers N} → s ⇒ t → IsServed n s → IsServed n t
  unfolding occurrences
  ⇒-IsServed {s = s} (submit req id now job store run fresh) h = record {
    one = h.one;
    staffed = h.staffed;
    kept = λ x. omega (arith, h.kept x, occurrences-append x s.queue (id ∷ []));
    ended =
        All-apart (IsEnded s.store) (IsEnded store) id s.acked (omega (arith, fresh, h.kept id))
          (λ x apart. create_job-IsEnded req id x now job s.store store run apart) h.ended;
  }
  ⇒-IsServed {s = s} (submit_only req id now job store run fresh) h = record {
    one = h.one;
    staffed = h.staffed;
    kept = h.kept;
    ended =
        All-apart (IsEnded s.store) (IsEnded store) id s.acked (omega (arith, fresh, h.kept id))
          (λ x apart. create_job-IsEnded req id x now job s.store store run apart) h.ended;
  }
  ⇒-IsServed {s = s} (deliver id rest q below) h = record {
    one = omega (arith, below, length-append s.delivered (id ∷ []));
    staffed = h.staffed;
    kept = λ x.
        let head = ap (occurrences x) q in
        omega (arith, head, h.kept x, occurrences-append x s.delivered (id ∷ []));
    ended = h.ended;
  }
  ⇒-IsServed (receive id rest k d i) h =
      let size = ap length d in
      record {
        one = omega (arith, size, h.one);
        staffed = omega (arith, i, h.staffed);
        kept = λ x. let head = ap (occurrences x) d in omega (arith, head, h.kept x);
        ended = h.ended;
      }
  ⇒-IsServed {s = s} (finish front id back env store r run) h =
      let size = ap length r in
      let whole = length-append front (id ∷ back) in
      let others = length-append front back in
      record {
        one = omega (arith, size, whole, others, h.one);
        staffed = omega (arith, size, whole, others, h.staffed);
        kept = λ x.
            let parts = ap (occurrences x) r in
            omega (
              arith,
              parts,
              h.kept x,
              occurrences-append x front (id ∷ back),
              occurrences-append x front back,
            );
        ended = (
          (process_job-IsEnded env id id s.store store run).0,
          All-imp (IsEnded s.store) (IsEnded store) s.acked
              (λ x. (process_job-IsEnded env id x s.store store run).1) h.ended,
        );
      }
  ⇒-IsServed (stop k i) h = record {
    one = h.one;
    staffed = omega (arith, i, h.staffed);
    kept = h.kept;
    ended = h.ended;
  }
  ⇒-IsServed {s = s} (cancel id job now found can apart) h = record {
    one = h.one;
    staffed = h.staffed;
    kept = h.kept;
    ended =
        All-imp (IsEnded s.store) _ s.acked
          (λ x.
            insert-IsEnded s.store id x
              (record job { status = JobStatus.cancelled; finished_at = now }) (inr (inr refl)))
          h.ended;
  }

  -- At every point while the connection lasts, whatever is submitted, delivered, run, cancelled
  -- and stopped: one message at most is delivered and not acknowledged; no more goroutines run or
  -- wait than were started; each published id is in the queue, delivered, running or acknowledged,
  -- as often as it was published; and a job whose id is acknowledged is done, failed or cancelled.
  -- A new id has not been published before, and a job is cancelled in a step of its run or while
  -- it does not run.
  pub reachable-IsServed :
      (workers : ℤ) (store : Store N) (queue : List String) {s : Consumers N}
      → start workers store queue ⇒* s
      → IsServed (runner_workers workers) s
  reachable-IsServed workers store queue here = start-IsServed workers store queue
  reachable-IsServed workers store queue (next path step) =
      ⇒-IsServed step (reachable-IsServed workers store queue path)
