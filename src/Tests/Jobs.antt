-- ===== src/Tests/Jobs.antt =====
-- The submission of a sort job, and its run on two workers.
use text.Mathlib.Text.{◌==◌ as str_eq}
use swarm_compute.Base.{
  errorf, ◌<◌, ◌≡◌, refl, String, List, [], ◌∷◌, map, none, some, true, false, length, ok, err,
  panic, arith,
}
use swarm_compute.Base.Map.{lookup}
use swarm_compute.Base.Int.{ℤ, pos}
use swarm_compute.Base.Value.{Value, end, field, null}
use swarm_compute.Splitter.{splitters}
use swarm_compute.Splitter.Rows.{split_sort}
use swarm_compute.Executor.{TaskRequest}
use swarm_compute.Executor.Sort.{execute_sort, data_nums}
use swarm_compute.Aggregator.{aggregators}
use swarm_compute.Aggregator.Merge.{aggregate_sort, collect_arrays, sorted_nums, merge_k_sorted}
use swarm_compute.Pipeline.{map_reduce}
use swarm_compute.Splitter.Slices.{split_slice, chunks_from, slice}
use swarm_compute.Base.Sort.{sort_floats}
use swarm_compute.Scheduler.RetrySteps.{outcome}
use swarm_compute.Pipeline.Sort.{num_array}
use swarm_compute.Scheduler.Types.{Worker, TaskType, Job, JobStatus, JobSubmitRequest, Store}
use swarm_compute.Scheduler.Create.{create_job, validate_input, new_job}
use swarm_compute.Scheduler.CreateLaws.{IsAcceptable, create_job_lem}
use swarm_compute.Scheduler.Retry.{Attempts, Reply, answer}
use swarm_compute.Scheduler.Execute.{
  Surroundings, all_ended, execute_job, get_healthy_workers, healthy_of, fail_job,
}
use swarm_compute.Scheduler.ExecuteEnds.{execute_job_ends}
use swarm_compute.Scheduler.LifecycleLaws.{IsFinal}
use swarm_compute.Scheduler.ExecuteLaws.{execute_job_done}
use swarm_compute.Tests.Floats.{whole}

abbrev pub sort_request : JobSubmitRequest ℤ
sort_request = record {
  type_id = "sort";
  input = field "data" (num_array (pos 9 ∷ pos 7 ∷ pos 8 ∷ [])) end;
  max_retry = pos 0;
  timeout_sec = pos 30;
}

abbrev pub sort_type : TaskType
sort_type = record { type_id = "sort"; name = "Sort"; description = "" }

abbrev two_workers : List Worker
two_workers =
    record { id = "worker-1"; addr = "http://worker-1:9000" }
    ∷ record { id = "worker-2"; addr = "http://worker-2:9000" }
    ∷ []

abbrev pub sort_store : Store ℤ
sort_store = record { workers = two_workers; task_types = ("sort", sort_type) ∷ []; jobs = [] }

pub acceptable_run : IsAcceptable sort_request "job_1" 5 sort_store
unfolding lookup validate_input
acceptable_run = (refl, (sort_type, refl), refl)

create_job_example :
    (IsAcceptable sort_request "job_1" 5 sort_store
      → (job : Job ℤ) × (s' : Store ℤ) × (create_job sort_request "job_1" 5 sort_store
          ≡ ok (job, s'))
        × (job.status ≡ JobStatus.pending)
        × (0 < job.max_retry)
        × (0 < job.timeout_sec)
        × (lookup "job_1" s'.jobs ≡ some job)
        × ((j : String) → str_eq "job_1" j ≡ false → lookup j s'.jobs ≡ lookup j sort_store.jobs)
        × (s'.workers ≡ sort_store.workers)
        × (s'.task_types ≡ sort_store.task_types))
    × ((out : Job ℤ × Store ℤ)
        → create_job sort_request "job_1" 5 sort_store ≡ ok out
        → IsAcceptable sort_request "job_1" 5 sort_store)
create_job_example = create_job_lem sort_request "job_1" 5 sort_store

-- A worker that runs the executor of sort.
abbrev sorting_worker : TaskRequest ℤ → Reply ℤ
sorting_worker req = elim (execute_sort req.input) [
  | ok out ↦ answer "done" out "" 2
  | err e ↦ answer "error" null "error" 2
  | panic ↦ answer "error" null "panic" 2
]

abbrev pub sorting : Attempts ℤ
sorting = record {
  reply = λ j addr req. sorting_worker req;
  ctx_err = λ j. false;
  start_time = λ j. j;
  end_time = λ j. j;
}

abbrev pub quiet : Surroundings ℤ
quiet = record {
  arrivals = map (λ w. (w, true));
  new_id = λ i. "task";
  attempts = λ i. sorting;
  dispatch_time = λ i. i;
  cancel_time = none;
  wake = all_ended;
  end_time = 9;
}

abbrev pub sort_job : Job ℤ
sort_job = new_job sort_request "job_1" 5

pub two_healthy : 0 < length (get_healthy_workers quiet.arrivals two_workers)
unfolding get_healthy_workers healthy_of
two_healthy = omega arith

abbrev pub three_sorted : Value ℤ
three_sorted = num_array (pos 7 ∷ pos 8 ∷ pos 9 ∷ [])

pub sort_split : splitters {N = ℤ} "sort" ≡ some split_sort
unfolding splitters
sort_split = refl

pub sort_aggregate : aggregators {N = ℤ} "sort" ≡ some aggregate_sort
unfolding aggregators
sort_aggregate = refl

pub sort_run :
    map_reduce split_sort execute_sort aggregate_sort sort_job.input
      (length (get_healthy_workers quiet.arrivals two_workers))
    ≡ ok three_sorted
unfolding get_healthy_workers healthy_of split_sort split_slice chunks_from slice execute_sort
    data_nums sort_floats aggregate_sort collect_arrays sorted_nums merge_k_sorted
sort_run = refl

sorting_answers :
    (req : TaskRequest ℤ) (out : Value ℤ)
    → execute_sort req.input ≡ ok out
    → outcome (sorting_worker req) ≡ some out
sorting_answers req out h = rw (h, outcome)

execute_job_done_example :
    (job' : Job ℤ) × (execute_job quiet two_workers sort_job ≡ ok job')
    × (job'.status ≡ JobStatus.done)
    × (job'.result ≡ some three_sorted)
execute_job_done_example =
    execute_job_done quiet two_workers sort_job execute_sort split_sort aggregate_sort three_sorted
      sort_split sort_aggregate two_healthy
      (λ i. (
        0,
        omega arith,
        λ j addr req below. absurd (omega arith),
        λ addr req out same. sorting_answers req out,
      ))
      (refl, refl) sort_run

-- No worker answers.
abbrev pub no_answers : Surroundings ℤ
no_answers = record quiet { arrivals = map (λ w. (w, false)) }

abbrev pub refused_job : Job ℤ
refused_job = record sort_job {
  cancel = true;
  status = JobStatus.failed;
  error = some (errorf "no available workers");
  finished_at = 9;
}

refused_run : execute_job no_answers two_workers sort_job ≡ ok refused_job
unfolding execute_job get_healthy_workers healthy_of fail_job
refused_run = refl

execute_job_ends_example : IsFinal JobStatus.failed
execute_job_ends_example = execute_job_ends no_answers two_workers sort_job refused_job refused_run
