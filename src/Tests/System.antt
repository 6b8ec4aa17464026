-- ===== src/Tests/System.antt =====
-- The job to sort three numbers, from its submission to its result, with workers that answer.
use swarm_compute.Base.{
  ◌≡◌, refl, List, [], ◌∷◌, some, none, true, false, Error, errorf, errorf_str, errorf_wrap, ok,
  err, panic, Result, Perm, arith,
}
use swarm_compute.Base.Int.{ℤ, pos}
use swarm_compute.Base.Value.{Value, Fields}
use swarm_compute.Base.Sort.{IsSorted}
use swarm_compute.Executor.{executors}
use swarm_compute.Executor.Sort.{execute_sort}
use swarm_compute.Splitter.Rows.{split_sort}
use swarm_compute.Splitter.Slices.{split_slice, chunks_from, slice}
use swarm_compute.Aggregator.Merge.{aggregate_sort}
use swarm_compute.Scheduler.Types.{Task, TaskStatus, Job, JobStatus, Store}
use swarm_compute.Scheduler.Retry.{Attempts}
use swarm_compute.Scheduler.Execute.{Surroundings, process_job, new_task, get_healthy_workers}
use swarm_compute.Center.Http.{Body, Server, write_json}
use swarm_compute.Center.Handlers.{job_submit_handler, job_detail_or_cancel_handler}
use swarm_compute.Pipeline.Sort.{num_array}
use swarm_compute.Pipeline.Cluster.{Transport, worker_reply, called, call_worker-executor}
use swarm_compute.Pipeline.System.{system_job_done, system_sort_job}
use swarm_compute.Tests.Floats.{whole, whole_laws}
use swarm_compute.Tests.Jobs.{
  sort_job, quiet, two_healthy, sort_run, sort_split, sort_aggregate, three_sorted,
}
use swarm_compute.Tests.Center.{
  server, sort_only, moment, request, submit_request, good-IsSubmission, job_1-IsPathId,
}
use swarm_compute.Tests.Jobs.{sort_request}
use swarm_compute.Tests.Pipelines.{simple}

abbrev net : Transport ℤ
net = record {
  closed = errorf "EOF";
  bytes_of = λ body. "bad request";
  no_task = errorf "no task";
  render = λ e. "error";
  finite = λ x. true;
  encode_error = λ out. none;
  null_encoded = refl;
  finite_encoded = λ zs h. refl;
}

abbrev answered : Attempts ℤ
answered = record {
  reply = λ j addr req. worker_reply net simple addr 2 req;
  ctx_err = λ j. false;
  start_time = λ j. j;
  end_time = λ j. j;
}

abbrev served : Surroundings ℤ
served = record quiet { attempts = λ i. answered }

abbrev submitted_server : Server ℤ
submitted_server = (job_submit_handler sort_only moment submit_request server).1

sort_executor : executors simple "sort" ≡ some execute_sort
unfolding executors
sort_executor = refl

system_job_done_example :
    (job : Job ℤ) × (store : Store ℤ) × (process_job served "job_1" submitted_server.store
      ≡ ok store)
    × (let s' = record submitted_server { store = store } in
        job_detail_or_cancel_handler moment (request "GET" "/api/jobs/job_1") s'
        ≡ (write_json (Body.job job), s'))
    × (job.status ≡ JobStatus.done)
    × (job.result ≡ some three_sorted)
unfolding execute_sort split_sort split_slice get_healthy_workers chunks_from slice
system_job_done_example =
    system_job_done net simple sort_only moment submit_request server sort_request good-IsSubmission
      job_1-IsPathId (λ addr. addr) (λ j. 2) served two_healthy (λ i j addr req. refl) (refl, refl)
      moment (request "GET" "/api/jobs/job_1") refl refl execute_sort split_sort aggregate_sort
      three_sorted sort_split sort_aggregate sort_executor sort_run

system_sort_job_example :
    (job : Job ℤ) × (zs : List ℤ) × (store : Store ℤ) × (process_job served "job_1"
        submitted_server.store
      ≡ ok store)
    × (let s' = record submitted_server { store = store } in
        job_detail_or_cancel_handler moment (request "GET" "/api/jobs/job_1") s'
        ≡ (write_json (Body.job job), s'))
    × (job.status ≡ JobStatus.done)
    × (job.result ≡ some (num_array zs))
    × Perm zs (pos 9 ∷ pos 7 ∷ pos 8 ∷ [])
    × IsSorted zs
system_sort_job_example =
    system_sort_job net simple sort_only moment submit_request server sort_request good-IsSubmission
      job_1-IsPathId (λ addr. addr) (λ j. 2) served two_healthy (λ i j addr req. refl) (refl, refl)
      moment (request "GET" "/api/jobs/job_1") refl refl whole_laws (pos 9 ∷ pos 7 ∷ pos 8 ∷ [])
      refl refl (omega arith) (refl, (refl, (refl, tt)))

abbrev sort_task : Task ℤ
sort_task = new_task sort_job "task_1" sort_job.input

call_worker-executor_example :
    ((fn : Fields ℤ → Result (Value ℤ)) (out : Value ℤ)
      → executors simple "sort" ≡ some fn
      → fn sort_task.input ≡ ok out
      → net.encode_error out ≡ none
      → ((called net simple "worker-1" 2 5 sort_task).0.status ≡ TaskStatus.done)
        × ((called net simple "worker-1" 2 5 sort_task).0.output ≡ some out)
        × ((called net simple "worker-1" 2 5 sort_task).1 ≡ none))
    × ((fn : Fields ℤ → Result (Value ℤ)) (out : Value ℤ) (e : Error)
        → executors simple "sort" ≡ some fn
        → fn sort_task.input ≡ ok out
        → net.encode_error out ≡ some e
        → called net simple "worker-1" 2 5 sort_task
          ≡ (sort_task, some (errorf_wrap "decode response failed: " (errorf "no task"))))
    × ((fn : Fields ℤ → Result (Value ℤ)) (e : Error)
        → executors simple "sort" ≡ some fn
        → fn sort_task.input ≡ err e
        → called net simple "worker-1" 2 5 sort_task
          ≡ (sort_task, some (errorf_str "worker error: %s" "error")))
    × ((fn : Fields ℤ → Result (Value ℤ))
        → executors simple "sort" ≡ some fn
        → fn sort_task.input ≡ panic
        → called net simple "worker-1" 2 5 sort_task
          ≡ (sort_task, some (errorf_wrap "worker call failed: " (errorf "EOF"))))
    × (executors simple "sort" ≡ none
        → called net simple "worker-1" 2 5 sort_task
          ≡ (sort_task, some (errorf_str "worker error: %s" "error")))
call_worker-executor_example = call_worker-executor net simple "worker-1" 2 5 sort_task
