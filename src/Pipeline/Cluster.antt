-- ===== src/Pipeline/Cluster.antt =====
-- The center and its workers together: what callWorker makes of the answers of a worker's /execute, and
-- a job whose workers answer.
use swarm_compute.Base.{
  ℕ, ◌<◌, ◌≡◌, refl, ap, ◌∙◌, String, List, Option, none, some, Option-cases, inl, inr, >>=-eq-ok,
  Bool, Error, errorf_str, errorf_wrap, Result, ok, err, panic, ◌>>=◌, All, true, length, ◌==◌,
  if◌then◌else◌, arith,
}
use swarm_compute.Base.Value.{Value, null, Fields}
use swarm_compute.Base.Float64.{Float64}
use swarm_compute.Splitter.{SplitFunc, splitters}
use swarm_compute.Aggregator.{AggregateFunc, aggregators}
use swarm_compute.Executor.{TaskRequest, TaskResponse, TaskStatus, executors, respond, run_task}
use swarm_compute.Executor.GoLibrary.{Runtime}
use swarm_compute.Executor.Server.{
  WorkerBody, WorkerResponse, execute_handler, encoded_body, task_answer,
}
use swarm_compute.Scheduler.Types.{Worker, Task, Job, JobStatus, TaskStatus as CenterStatus}
use swarm_compute.Scheduler.Retry.{
  Reply, unreachable, bad_status, undecodable, answer, request_of, call_worker,
}
use swarm_compute.Scheduler.RetrySteps.{outcome}
use swarm_compute.Scheduler.Execute.{Surroundings, get_healthy_workers, execute_job}
use swarm_compute.Scheduler.ExecuteLaws.{IsUninterrupted, execute_job_done}
use swarm_compute.Pipeline.{map_reduce}
use swarm_compute.Pipeline.Sort.{num_array}

-- What HTTP and encoding/json do with a response between the two: the error of a connection that is
-- closed, the bytes of a body, the error of decoding what is no task response, the text of an error,
-- and the error of encoding a response with an output. encoding/json encodes the nil interface and every
-- array of finite numbers; what it decodes of an encoded response is the response.
pub record Transport (N : Type 0) : Type 0 where
  pub closed : Error
  pub bytes_of : WorkerBody N → String
  pub no_task : Error
  pub render : Error → String
  pub finite : N → Bool
  pub encode_error : Value N → Option Error
  pub null_encoded : encode_error null ≡ none
  pub finite_encoded :
      (zs : List N) → All (λ z. finite z ≡ true) zs → encode_error (num_array zs) ≡ none

abbrev pub status_text : TaskStatus → String
status_text TaskStatus.done = "done"
status_text TaskStatus.error = "error"

module _ {N : Type 0} (net : Transport N) where
  -- an empty string where there is no error
  abbrev pub error_field : Option Error → String
  error_field none = ""
  error_field (some e) = net.render e

  abbrev pub decoded : WorkerBody N → Reply N
  decoded (WorkerBody.task resp) =
      answer (status_text resp.status) resp.output (error_field resp.error) resp.duration_ms
  decoded _ = undecodable net.no_task

  -- The response of a worker as callWorker takes it.
  abbrev pub reply_of : WorkerResponse N → Reply N
  reply_of WorkerResponse.aborted = unreachable net.closed
  reply_of (WorkerResponse.response status headers body) =
      if status == 200 then decoded body else bad_status status (net.bytes_of body)

  -- The executor, with an error where its output cannot be encoded.
  abbrev pub encoded : (Fields N → Result (Value N)) → Fields N → Result (Value N)
  encoded execute input =
      execute input >>= λ out. elim (net.encode_error out) [ none ↦ ok out | some e ↦ err e ]

  whole_body :
      (resp : TaskResponse N)
      → net.encode_error resp.output ≡ none
      → encoded_body net.encode_error resp ≡ WorkerBody.task resp
  whole_body resp fits = rw (encoded_body, fits) refl

  encoded-ok :
      (fn : Fields N → Result (Value N)) (input : Fields N) (out : Value N)
      → encoded fn input ≡ ok out
      → (fn input ≡ ok out) × (net.encode_error out ≡ none)
  encoded-ok fn input out h =
      let (sent, ran, rest) = >>=-eq-ok (fn input) _ h in
      elim (Option-cases (net.encode_error sent)) [
        | inl fits ↦
            let done : Result.ok sent ≡ ok out = rw fits at rest in
            let same : sent ≡ out = cc in (rw same at ran, rw same at fits)
        | inr (e, bad) ↦ let failed : Result.err e ≡ ok out = rw bad at rest in absurd (cc)
      ]

module _ {N : Type 0} ⦃fl : Float64 N⦄ (net : Transport N) (rt : Runtime N) where
  -- what a worker answers to a request of callWorker
  abbrev pub worker_reply : String → ℕ → TaskRequest N → Reply N
  worker_reply instance_id dur req =
      reply_of net (execute_handler rt net.encode_error instance_id dur "POST" (some req))

  module _ (instance_id : String) (dur now : ℕ) (t : Task N) where
    abbrev pub called : Task N × Option Error
    called = call_worker (worker_reply instance_id dur (request_of t)) now t

    called_run :
        (r : Result (TaskResponse N))
        → run_task rt instance_id dur (request_of t) ≡ r
        → called ≡ call_worker (reply_of net (task_answer net.encode_error r)) now t
    unfolding execute_handler
    called_run r h = rw (h, execute_handler) refl

    executed :
        (fn : Fields N → Result (Value N))
        → executors rt t.type_id ≡ some fn
        → called
          ≡ call_worker
              (reply_of net
                (task_answer net.encode_error (respond t.task_id instance_id dur (fn t.input))))
              now
              t
    unfolding run_task
    executed fn known =
        called_run (respond t.task_id instance_id dur (fn t.input)) (rw (known, run_task) refl)

    -- What a call of a worker makes of a task, by what the executor of its type does with its
    -- input: an output that can be encoded makes the task done with that output; an output that
    -- cannot be encoded, an error, a panic or a missing executor leaves the task as it is, with
    -- the error of decoding an empty body, the error that the worker reports, or, for a panic,
    -- that of a closed connection. The nil interface can be encoded.
    pub call_worker-executor :
        ((fn : Fields N → Result (Value N)) (out : Value N)
          → executors rt t.type_id ≡ some fn
          → fn t.input ≡ ok out
          → net.encode_error out ≡ none
          → (called.0.status ≡ CenterStatus.done)
            × (called.0.output ≡ some out)
            × (called.1 ≡ none))
        × ((fn : Fields N → Result (Value N)) (out : Value N) (e : Error)
            → executors rt t.type_id ≡ some fn
            → fn t.input ≡ ok out
            → net.encode_error out ≡ some e
            → called ≡ (t, some (errorf_wrap "decode response failed: " net.no_task)))
        × ((fn : Fields N → Result (Value N)) (e : Error)
            → executors rt t.type_id ≡ some fn
            → fn t.input ≡ err e
            → called ≡ (t, some (errorf_str "worker error: %s" (net.render e))))
        × ((fn : Fields N → Result (Value N))
            → executors rt t.type_id ≡ some fn
            → fn t.input ≡ panic
            → called ≡ (t, some (errorf_wrap "worker call failed: " net.closed)))
        × (executors rt t.type_id ≡ none
            → called ≡ (
              t,
              some (
                  errorf_str "worker error: %s"
                    (net.render (errorf_str "unknown task type: %s" t.type_id))),
            ))
    unfolding run_task call_worker
    call_worker-executor = (
      λ fn out known ran fits. rw (executed fn known, ran, fits, call_worker) (refl, refl, refl),
      λ fn out e known ran bad. executed fn known ∙ rw (ran, bad, call_worker) refl,
      λ fn e known ran. executed fn known ∙ rw (ran, net.null_encoded, call_worker) refl,
      λ fn known ran. executed fn known ∙ rw (ran, call_worker) refl,
      λ unknown.
          called_run
            (respond t.task_id instance_id 0 (err (errorf_str "unknown task type: %s" t.type_id)))
            (rw (unknown, run_task) refl)
          ∙ rw (net.null_encoded, call_worker) refl,
    )

  -- the response to a task with an output
  abbrev answer_of : String → String → ℕ → Value N → TaskResponse N
  answer_of task_id instance_id dur out = record {
    task_id = task_id;
    instance_id = instance_id;
    status = TaskStatus.done;
    output = out;
    error = none;
    duration_ms = dur;
  }

  outcome-executor :
      (instance_id : String) (dur : ℕ) (req : TaskRequest N) (fn : Fields N → Result (Value N))
      (out : Value N)
      → executors rt req.type_id ≡ some fn
      → encoded net fn req.input ≡ ok out
      → outcome (worker_reply instance_id dur req) ≡ some out
  unfolding run_task execute_handler
  outcome-executor instance_id dur req fn out known ran =
      let (same, fits) = encoded-ok net fn req.input out ran in
      let run : run_task rt instance_id dur req ≡ respond req.task_id instance_id dur (ok out) =
        rw (known, same, run_task) refl in
      rw (execute_handler, run)
        (ap (λ body. outcome (decoded net body))
          (whole_body net (answer_of req.task_id instance_id dur out) fits))

  -- Every attempt of every task is answered by a worker, after `dur` milliseconds.
  abbrev pub IsServedBy : (String → String) → (ℕ → ℕ) → Surroundings N → Type 0
  IsServedBy instance_at dur s =
      (i j : ℕ) (addr : String) (req : TaskRequest N)
      → (s.attempts i).reply j addr req ≡ worker_reply (instance_at addr) (dur j) req

  -- A run of a job with workers that answer, while nothing interrupts it, ends with what splitting,
  -- executing, encoding and aggregating its input returns.
  pub cluster_job_done :
      (instance_at : String → String) (dur : ℕ → ℕ) (s : Surroundings N) (workers : List Worker)
      (job : Job N) (execute : Fields N → Result (Value N)) (split : SplitFunc N)
      (agg : AggregateFunc N) (v : Value N)
      → splitters job.type_id ≡ some split
      → aggregators job.type_id ≡ some agg
      → executors rt job.type_id ≡ some execute
      → 0 < length (get_healthy_workers s.arrivals workers)
      → IsServedBy instance_at dur s
      → IsUninterrupted s
      → map_reduce split
          (encoded net execute)
          agg
          job.input
          (length (get_healthy_workers s.arrivals workers))
        ≡ ok v
      → (job' : Job N) × (execute_job s workers job ≡ ok job')
        × (job'.status ≡ JobStatus.done)
        × (job'.result ≡ some v)
  cluster_job_done instance_at dur s workers job execute split agg v has_split has_agg has_execute
        healthy served calm run =
      execute_job_done s workers job (encoded net execute) split agg v has_split has_agg healthy
        (λ i. (
          0,
          omega arith,
          λ j addr req below. absurd (omega arith),
          λ addr req out same ran. rw (served i 0 addr req) (
              outcome-executor (instance_at addr) (dur 0) req execute out
                (ap (executors rt) same ∙ has_execute) ran),
        ))
        calm run
