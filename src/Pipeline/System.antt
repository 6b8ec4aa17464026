-- ===== src/Pipeline/System.antt =====
-- A job on its whole way: the request, the runner, the workers, and the request for its result.
use Prim.Native.String.{◌++◌}
use text.Mathlib.Text.{◌==◌ as str_eq}
use text.Mathlib.TextPositions.{eq_refl}
use swarm_compute.Base.{
  ℕ, ◌≤◌, ◌<◌, ◌≡◌, refl, ◌∙◌, String, List, some, true, Bool-cases, inl, inr, Result, ok, length,
  [], ◌∷◌, All, All-concat, Perm,
}
use swarm_compute.Base.Map.{lookup, insert, lookup-insert}
use swarm_compute.Base.Value.{Value, Fields, get}
use swarm_compute.Base.Float64.{Float64, FloatLaws, lt_f}
use swarm_compute.Base.Sort.{IsSorted, sort_floats, All-sort_by}
use swarm_compute.Splitter.Slices.{split_slice}
use swarm_compute.Splitter.SliceLaws.{split_slice_lem}
use swarm_compute.Splitter.{SplitFunc, splitters}
use swarm_compute.Aggregator.{AggregateFunc, aggregators}
use swarm_compute.Executor.{executors}
use swarm_compute.Executor.GoLibrary.{Runtime}
use swarm_compute.Scheduler.Types.{Job, JobStatus, JobSubmitRequest, Store}
use swarm_compute.Scheduler.Create.{new_job}
use swarm_compute.Scheduler.Execute.{Surroundings, get_healthy_workers, execute_job, process_job}
use swarm_compute.Scheduler.ExecuteLaws.{IsUninterrupted}
use swarm_compute.Center.Http.{Request, Decoder, Body, Server, Moment, write_json}
use swarm_compute.Center.Handlers.{job_submit_handler, job_detail_or_cancel_handler}
use swarm_compute.Center.SubmitLaws.{IsSubmission, job_submit_handler_lem}
use swarm_compute.Center.JobLaws.{IsPathId, submitted_found, detail_answer}
use swarm_compute.Splitter.Rows.{split_sort}
use swarm_compute.Executor.Sort.{execute_sort}
use swarm_compute.Aggregator.Merge.{aggregate_sort}
use swarm_compute.Pipeline.{map_reduce}
use swarm_compute.Pipeline.Sort.{num_array, IsSorting, chunks-IsSorting, sorting_job}
use swarm_compute.Pipeline.Cluster.{Transport, IsServedBy, encoded, cluster_job_done}

module _ {N : Type 0} ⦃fl : Float64 N⦄ where
  process_job_run :
      (env : Surroundings N) (id : String) (store : Store N) (job job' : Job N)
      → lookup id store.jobs ≡ some job
      → execute_job env store.workers job ≡ ok job'
      → process_job env id store ≡ ok (record store { jobs = insert id job' store.jobs })
  unfolding process_job
  process_job_run env id store job job' found run = rw (found, process_job, run) refl

  All-sort_floats :
      (net : Transport N) (xs : List N)
      → All (λ x. net.finite x ≡ true) xs
      → All (λ x. net.finite x ≡ true) (sort_floats xs)
  unfolding sort_floats
  All-sort_floats net xs h = All-sort_by lt_f _ xs h

  -- The sorted chunks of finite numbers can be encoded.
  encoded_chunks :
      (net : Transport N) (xs : List N) (n : ℕ)
      → length xs ≤ 10_000_000
      → All (λ x. net.finite x ≡ true) xs
      → IsSorting (encoded net execute_sort) (split_slice xs n)
  encoded_chunks net xs n small finite =
      go (split_slice xs n) (chunks-IsSorting xs n small)
        (All-concat _ (split_slice xs n) (rw (split_slice_lem xs n).0 finite))
    where
      go :
          (xss : List (List N))
          → IsSorting execute_sort xss
          → All (All (λ x. net.finite x ≡ true)) xss
          → IsSorting (encoded net execute_sort) xss
      go [] h k = tt
      go (ys ∷ yss) h k = (
        rw (h.0, net.finite_encoded (sort_floats ys) (All-sort_floats net ys k.0)) refl,
        go yss h.1 k.1,
      )

  -- A submission, a run by the runner in surroundings, and a request for the job.
  module _ (net : Transport N) (rt : Runtime N) (decoder : Decoder N) (m : Moment) (r : Request)
      (s : Server N) (req : JobSubmitRequest N) (good : IsSubmission decoder m r s req)
      (id : IsPathId m.new_id) (instance_at : String → String) (dur : ℕ → ℕ) (env : Surroundings N)
      (healthy : 0 < length (get_healthy_workers env.arrivals s.store.workers))
      (served : IsServedBy net rt instance_at dur env) (calm : IsUninterrupted env) (m' : Moment)
      (r' : Request) (asked : str_eq r'.method "GET" ≡ true)
      (at : r'.path ≡ "/api/jobs/" ++ m.new_id) where
    abbrev after_submit : Server N
    after_submit = (job_submit_handler decoder m r s).1

    same_workers : after_submit.store.workers ≡ s.store.workers
    same_workers =
        let (answer, state) = (job_submit_handler_lem decoder m r s).0 req good in
        elim (Bool-cases m.published) [ inl e ↦ rw (state, e) refl | inr e ↦ rw (state, e) refl ]

    -- A job of a type with a splitter, an aggregator and an executor, submitted by a POST request
    -- and then run by the runner while nothing interrupts it, with at least one healthy worker and
    -- workers that answer every call as their handler of /execute does, ends as done, if splitting
    -- its input for the healthy workers, executing the parts, encoding the outputs and aggregating
    -- them has a result. To a GET request for it, the handler gives the job, which has that
    -- result, to the encoder of the response. The new id is not empty and does not end in
    -- "/cancel".
    pub system_job_done :
        (execute : Fields N → Result (Value N)) (split : SplitFunc N) (agg : AggregateFunc N)
        (v : Value N)
        → splitters req.type_id ≡ some split
        → aggregators req.type_id ≡ some agg
        → executors rt req.type_id ≡ some execute
        → map_reduce split
            (encoded net execute)
            agg
            req.input
            (length (get_healthy_workers env.arrivals s.store.workers))
          ≡ ok v
        → (job : Job N) × (store : Store N) × (process_job env m.new_id after_submit.store
            ≡ ok store)
          × (let s' = record after_submit { store = store } in
              job_detail_or_cancel_handler m' r' s' ≡ (write_json (Body.job job), s'))
          × (job.status ≡ JobStatus.done)
          × (job.result ≡ some v)
    system_job_done execute split agg v has_split has_agg has_execute run =
        let job = new_job req m.new_id m.now in
        let (job', ended, done, value) =
          cluster_job_done net rt instance_at dur env s.store.workers job execute split agg v
            has_split has_agg has_execute healthy served calm run in
        let store = record after_submit.store {
          jobs = insert m.new_id job' after_submit.store.jobs;
        } in
        (
          job',
          store,
          process_job_run env m.new_id after_submit.store job job'
              (submitted_found decoder m r s req good) (rw same_workers ended),
          detail_answer m.new_id m' r' (record after_submit { store = store }) job' id asked at
              (lookup-insert m.new_id m.new_id job' after_submit.store.jobs
                ∙ rw (eq_refl m.new_id) refl),
          done,
          value,
        )

    -- A sort job on at most ten million finite numbers that a POST request submits, and that the
    -- runner then runs while nothing interrupts it, with at least one healthy worker and workers
    -- that answer every call as their handler of /execute does, ends as done. A GET request for it
    -- is answered with the job, whose result is its numbers in ascending order, each as often as
    -- it was given. The comparison of numbers is total and transitive, an array of finite numbers
    -- can be encoded, and the new id is not empty and does not end in "/cancel".
    pub system_sort_job :
        FloatLaws N
        → (xs : List N) → req.type_id ≡ "sort"
        → get "data" req.input ≡ some (num_array xs)
        → length xs ≤ 10_000_000
        → All (λ x. net.finite x ≡ true) xs
        → (job : Job N) × (zs : List N) × (store : Store N) × (process_job env m.new_id
              after_submit.store
            ≡ ok store)
          × (let s' = record after_submit { store = store } in
              job_detail_or_cancel_handler m' r' s' ≡ (write_json (Body.job job), s'))
          × (job.status ≡ JobStatus.done)
          × (job.result ≡ some (num_array zs))
          × Perm zs xs
          × IsSorted zs
    unfolding splitters aggregators executors
    system_sort_job laws xs typed given small finite =
        let n = length (get_healthy_workers env.arrivals s.store.workers) in
        let (zs, run, same, ordered) =
          sorting_job laws (encoded net execute_sort) req.input xs n given
            (encoded_chunks net xs n small finite) in
        let (job, store, ran, answer, done, value) =
          system_job_done execute_sort split_sort aggregate_sort (num_array zs) (rw typed refl)
            (rw typed refl) (rw typed refl) run in
        (job, zs, store, ran, answer, done, value, same, ordered)
