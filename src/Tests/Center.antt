-- ===== src/Tests/Center.antt =====
-- The handlers on a small server.
use text.Mathlib.Text.{◌==◌ as str_eq}
use swarm_compute.Base.{
  ◌+◌, ◌≤◌, ◌≡◌, ◌⊎◌, refl, String, List, [], ◌∷◌, ◌++◌ as ◌⊕◌, none, some, true, false, map,
  length, All, ok, if◌then◌else◌,
}
use swarm_compute.Base.Int.{ℤ}
use swarm_compute.Base.Map.{lookup, insert}
use swarm_compute.Store.Disk.{save, write_out}
use swarm_compute.Store.DiskLaws.{without_cancel}
use swarm_compute.Center.Boot.{boot, shut_down}
use swarm_compute.Center.BootLaws.{boot-shut_down}
use swarm_compute.Tests.Store.{small_store, read_back, one_store, undisturbed}
use swarm_compute.Scheduler.Types.{TaskType, Job, JobStatus, JobSubmitRequest, Store}
use swarm_compute.Scheduler.Create.{create_job, new_job, validate_input}
use swarm_compute.Scheduler.CreateLaws.{with_job}
use swarm_compute.Center.Init.{
  init_builtin_task_types, add_types, init_workers, workers_at, split_on, trim_space, trim_left,
  trim_right,
}
use swarm_compute.Center.InitLaws.{IsSupported, accepted-IsSupported}
use swarm_compute.Center.Http.{
  Request, Decoder, Body, response, Server, Moment, write_json, cut_suffix,
}
use swarm_compute.Center.Handlers.{
  enqueue, job_submit_handler, job_detail_or_cancel_handler, stats_handler,
}
use swarm_compute.Center.Routes.{
  cors_headers, new_server, routes, with_cors, with_rate_limit, general,
}
use swarm_compute.Center.SubmitLaws.{IsSubmission, IsRefused, job_submit_handler_lem}
use swarm_compute.Center.JobLaws.{IsPathId, submit-detail, cancel_queued}
use swarm_compute.Center.RouteLaws.{IsKept, routes_lem}
use swarm_compute.Center.BurstLaws.{submit_all, submissions_burst}
use swarm_compute.Tests.Floats.{whole, whole_laws, whole_arith, seconds, seconds-IsClock}
use swarm_compute.Tests.Jobs.{sort_request, sort_store, acceptable_run}
use swarm_compute.Tests.Pipelines.{simple}

abbrev pub server : Server ℤ
server = new_server sort_store

-- Every body is the request to sort.
abbrev pub sort_only : Decoder ℤ
sort_only = record { submit = λ limit body. some sort_request; workers = λ limit body. none }

abbrev pub moment : Moment
moment = record { now = 5; now_ns = 7; new_id = "job_1"; published = true }

abbrev pub request : String → String → Request
request method path = record {
  method = method;
  path = path;
  forwarded = "";
  remote_host = "10.0.0.1";
  body = "{...}";
  limit = none;
}

abbrev pub submit_request : Request
submit_request = request "POST" "/api/jobs/submit"

pub good-IsSubmission : IsSubmission sort_only moment submit_request server sort_request
good-IsSubmission = (refl, refl, acceptable_run)

job_submit_handler_example :
    let (answer, s') = job_submit_handler sort_only moment submit_request server in
    ((req : JobSubmitRequest ℤ)
      → IsSubmission sort_only moment submit_request server req
      → (answer ≡ write_json (Body.job (new_job req "job_1" 5)))
        × (s'
            ≡ enqueue moment "job_1" (record server { store = with_job req "job_1" 5 sort_store })))
    × (((req : JobSubmitRequest ℤ) × IsSubmission sort_only moment submit_request server req)
        ⊎ IsRefused sort_only moment submit_request server (answer, s'))
job_submit_handler_example = job_submit_handler_lem sort_only moment submit_request server

pub job_1-IsPathId : IsPathId "job_1"
unfolding cut_suffix
job_1-IsPathId = (refl, refl)

submit-detail_example :
    let (answer, s') = job_submit_handler sort_only moment submit_request server in
    (job_detail_or_cancel_handler moment (request "GET" "/api/jobs/job_1") s' ≡ (answer, s'))
    × (answer ≡ write_json (Body.job (new_job sort_request "job_1" 5)))
submit-detail_example =
    submit-detail sort_only moment submit_request server sort_request moment
      (request "GET" "/api/jobs/job_1") good-IsSubmission job_1-IsPathId refl refl

cancel_queued_example :
    let s' = (job_submit_handler sort_only moment submit_request server).1 in
    (job_detail_or_cancel_handler moment (request "POST" "/api/jobs/job_1/cancel") s'
      ≡ (write_json Body.done, s'))
    × ((job : Job ℤ) × (lookup "job_1" s'.store.jobs ≡ some job) × (job.status ≡ JobStatus.pending))
    × (s'.queue ≡ (if true then server.queue ⊕ ("job_1" ∷ []) else server.queue))
cancel_queued_example =
    cancel_queued sort_only moment submit_request server sort_request moment
      (request "POST" "/api/jobs/job_1/cancel") good-IsSubmission refl refl

routes_example :
    (str_eq "GET" "GET" ≡ true
      → IsKept server
          (with_cors
            (with_rate_limit seconds general stats_handler)
            moment
            (request "GET" "/api/stats")
            server).1)
    × (str_eq "GET" "OPTIONS" ≡ true
        → with_cors
            (with_rate_limit seconds general stats_handler)
            moment
            (request "GET" "/api/stats")
            server
          ≡ (response 204 cors_headers Body.empty, server))
unfolding routes
routes_example =
    routes_lem seconds sort_only "/api/stats"
      (with_cors (with_rate_limit seconds general stats_handler)) moment
      (request "GET" "/api/stats") server refl

abbrev twice : List (Moment × Request)
twice = (moment, submit_request) ∷ (record moment { new_id = "job_2" }, submit_request) ∷ []

submissions_burst_example :
    let s' = submit_all seconds sort_only twice server in
    (length s'.store.jobs ≤ length server.store.jobs + 20)
    × (length s'.queue ≤ length server.queue + 20)
unfolding lookup
submissions_burst_example =
    submissions_burst whole_laws whole_arith seconds seconds-IsClock sort_only "10.0.0.1" 7 twice
      server refl refl refl ((refl, refl, refl), ((refl, refl, refl), tt))

abbrev empty_types : Store ℤ
empty_types = record sort_store { task_types = [] }

accepted_run :
    create_job sort_request "job_1" 5 (init_builtin_task_types empty_types)
    ≡ ok (
      new_job sort_request "job_1" 5,
      with_job sort_request "job_1" 5 (init_builtin_task_types empty_types),
    )
unfolding create_job init_builtin_task_types add_types lookup insert validate_input
accepted_run = refl

accepted-IsSupported_example :
    IsSupported simple "sort"
    × All (λ entry. IsSupported simple entry.0) (init_builtin_task_types empty_types).task_types
accepted-IsSupported_example =
    accepted-IsSupported simple empty_types sort_request "job_1" 5 (new_job sort_request "job_1" 5)
      (with_job sort_request "job_1" 5 (init_builtin_task_types empty_types)) tt accepted_run

saved_run :
    (shut_down one_store "/data/store.json" undisturbed (new_server small_store) []).0 ≡ true
unfolding save write_out
saved_run = refl

boot-shut_down_example :
    let s' =
      boot one_store "/data/store.json"
        (λ c. false)
        ""
        none
        (shut_down one_store "/data/store.json" undisturbed (new_server small_store) []).1 in
    (s'.store.jobs ≡ map without_cancel small_store.jobs)
    × ((type_id : String) (t : TaskType)
        → lookup type_id small_store.task_types ≡ some t
        → lookup type_id s'.store.task_types ≡ some t)
    × (s'.store.workers ≡ (init_workers (λ c. false) "" small_store).workers)
boot-shut_down_example =
    boot-shut_down one_store "/data/store.json" (λ c. false) "" undisturbed (new_server small_store)
      [] "{...}" read_back refl refl (refl, refl, refl) saved_run

-- The five workers of the default addresses.
default_run :
    map (λ w. w.addr) (init_workers (λ c. false) "" small_store).workers
    ≡ "http://worker-1:9000" ∷ "http://worker-2:9000" ∷ "http://worker-3:9000"
      ∷ "http://worker-4:9000" ∷ "http://worker-5:9000" ∷ []
unfolding init_workers workers_at split_on trim_space trim_left trim_right
default_run = refl
