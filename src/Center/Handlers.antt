-- ===== src/Center/Handlers.antt =====
-- The handlers of center/server/main.go.
use text.Mathlib.Text.{◌==◌ as str_eq}
use swarm_compute.Base.{
  String, [], ◌∷◌, ◌++◌, none, some, length, map, Result, ok, err, panic, if◌then◌else◌,
}
use swarm_compute.Base.Map.{lookup, insert}
use swarm_compute.Base.Float64.{Float64}
use swarm_compute.Scheduler.Types.{Job, Store, JobStatus}
use swarm_compute.Scheduler.Create.{create_job}
use swarm_compute.Store.Stats.{compute_stats}
use swarm_compute.Center.Http.{
  Decoder, Body, Response, aborted, response, Server, Moment, Handler, http_error, write_json,
  trim_prefix, cut_suffix,
}

module _ {N : Type 0} where
  -- `if r.Method != method { http.Error(w, message, http.StatusMethodNotAllowed); return }`
  abbrev pub only : String → String → Handler N → Handler N
  only method message handler m r s =
      if str_eq r.method method then handler m r s else (http_error 405 message, s)

  unfoldable pub task_types_handler : Handler N
  task_types_handler =
      only "GET" "GET only"
        (λ m r s. (write_json (Body.task_types (map (λ entry. entry.1) s.store.task_types)), s))

  -- Enqueue: an error of Publish is logged.
  abbrev pub enqueue : Moment → String → Server N → Server N
  enqueue m id s = if m.published then record s { queue = s.queue ++ (id ∷ []) } else s

  -- from the end of CreateJob on
  abbrev pub answer_submit : Moment → Server N → Result (Job N × Store N) → Response N × Server N
  answer_submit m s (ok (job, store)) =
      (write_json (Body.job job), enqueue m job.job_id (record s { store = store }))
  answer_submit m s (err e) = (response 400 [] (Body.failure e), s)
  answer_submit m s panic = (aborted, s)

  unfoldable pub job_submit_handler : Decoder N → Handler N
  unfolding create_job
  job_submit_handler decoder = only "POST" "POST only" (λ m r s.
      elim (decoder.submit r.limit r.body) [
        | none ↦ (http_error 400 "bad json", s)
        | some req ↦ answer_submit m s (create_job req m.new_id m.now s.store)
      ])

  unfoldable pub jobs_list_handler : Handler N
  jobs_list_handler =
      only "GET" "GET only"
        (λ m r s. (write_json (Body.jobs (map (λ entry. entry.1) s.store.jobs)), s))

  -- `job.cancel(); job.Status = "cancelled"; job.FinishedAt = ...`, if there is a cancel function
  abbrev pub cancel_job : Moment → String → Job N → Server N → Server N
  cancel_job m id job s =
      if job.cancel
      then record s {
        store = record s.store {
          jobs =
              insert id (record job { status = JobStatus.cancelled; finished_at = m.now })
                s.store.jobs;
        };
        stopped = id ∷ s.stopped;
      }
      else s

  -- POST /api/jobs/{id}/cancel
  unfoldable pub cancel_handler : String → Handler N
  unfolding lookup insert
  cancel_handler id = only "POST" "POST only" (λ m r s. elim (lookup id s.store.jobs) [
    | none ↦ (http_error 404 "job not found", s)
    | some job ↦ (write_json Body.done, cancel_job m id job s)
  ])

  -- GET /api/jobs/{id}
  unfoldable pub detail_handler : String → Handler N
  unfolding lookup
  detail_handler id = only "GET" "GET only" (λ m r s.
      if str_eq id "" then (http_error 400 "missing jobId", s) else elim (lookup id s.store.jobs) [
        | none ↦ (http_error 404 "job not found", s)
        | some job ↦ (write_json (Body.job job), s)
      ])

  unfoldable pub job_detail_or_cancel_handler : Handler N
  job_detail_or_cancel_handler m r s =
      let path = trim_prefix r.path "/api/jobs/" in
      elim (cut_suffix "/cancel" path) [
        | some id ↦ cancel_handler id m r s
        | none ↦ detail_handler path m r s
      ]

  unfoldable pub workers_handler : Decoder N → Handler N
  workers_handler decoder m r s =
      if str_eq r.method "GET"
      then (write_json (Body.workers s.store.workers), s)
      else if str_eq r.method "PUT"
      then elim (decoder.workers r.limit r.body) [
        | none ↦ (http_error 400 "bad json", s)
        | some ws ↦ (
          write_json (Body.done_count (length ws)),
          record s { store = record s.store { workers = ws } },
        )
      ]
      else (http_error 405 "GET or PUT", s)

module _ {N : Type 0} ⦃fl : Float64 N⦄ where
  unfoldable pub stats_handler : Handler N
  unfolding compute_stats
  stats_handler =
      only "GET" "GET only" (λ m r s. (write_json (Body.stats (compute_stats s.store)), s))
