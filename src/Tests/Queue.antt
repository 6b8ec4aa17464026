-- ===== src/Tests/Queue.antt =====
-- The connection and the consumers at concrete inputs.
use swarm_compute.Base.{
  ℕ, ◌+◌, ◌≤◌, ◌<◌, ◌≡◌, ◌⊎◌, refl, [], ◌∷◌, none, some, Error, errorf, ok, ltb, if◌then◌else◌,
  arith,
}
use swarm_compute.Base.Int.{ℤ, pos}
use swarm_compute.Scheduler.Create.{create_job, new_job, validate_input}
use swarm_compute.Base.Map.{lookup, insert}
use swarm_compute.Scheduler.CreateLaws.{with_job}
use swarm_compute.Scheduler.Execute.{
  process_job, execute_job, get_healthy_workers, healthy_of, fail_job,
}
use swarm_compute.Queue.Connect.{Calls, connect_mq}
use swarm_compute.Queue.ConnectLaws.{IsReady, IsClosed, connect_mq_lem}
use swarm_compute.Queue.Runner.{
  Consumers, runner_workers, start, occurrences, submit, deliver, receive, finish, ◌⇒*◌, here, next,
}
use swarm_compute.Queue.RunnerLaws.{IsServed, reachable-IsServed}
use swarm_compute.Tests.Floats.{whole}
use swarm_compute.Tests.Jobs.{sort_request, sort_store, no_answers, refused_job}

-- RabbitMQ takes three dials to come up.
abbrev slow : Calls
slow = record {
  dial = λ k. if ltb k 2 then some (errorf "connection refused") else none;
  channel = none;
  queue_declare = none;
  qos = none;
}

connect_mq_example :
    let c = connect_mq slow in
    (1 ≤ c.dials)
    × (c.dials ≤ 30)
    × ((k : ℕ) → k + 1 < c.dials → (e : Error) × (slow.dial k ≡ some e))
    × (IsReady slow c ⊎ IsClosed slow c)
connect_mq_example = connect_mq_lem slow

-- One job is submitted, delivered, run without workers, and acknowledged.
abbrev before : Consumers ℤ
before = start (pos 8) sort_store []

abbrev queued_one : Consumers ℤ
queued_one = record before {
  store = with_job sort_request "job_1" 5 sort_store;
  queue = "job_1" ∷ [];
  published = "job_1" ∷ [];
}

abbrev running_one : Consumers ℤ
running_one = record queued_one { queue = []; running = "job_1" ∷ []; idle = 7 }

abbrev acked_one : Consumers ℤ
acked_one = record queued_one {
  store = record sort_store { jobs = ("job_1", refused_job) ∷ [] };
  queue = [];
  acked = "job_1" ∷ [];
}

submitted_run :
    create_job sort_request "job_1" 5 sort_store
    ≡ ok (new_job sort_request "job_1" 5, with_job sort_request "job_1" 5 sort_store)
unfolding create_job lookup insert validate_input
submitted_run = refl

finished_run :
    process_job no_answers "job_1" (with_job sort_request "job_1" 5 sort_store)
    ≡ ok (record sort_store { jobs = ("job_1", refused_job) ∷ [] })
unfolding process_job lookup insert execute_job get_healthy_workers healthy_of fail_job
finished_run = refl

to_queued : before ⇒* queued_one
unfolding occurrences
to_queued = next here (
    submit sort_request "job_1" 5 (new_job sort_request "job_1" 5)
      (with_job sort_request "job_1" 5 sort_store) submitted_run refl)

to_running : before ⇒* running_one
to_running =
    next (next to_queued (deliver "job_1" [] refl (omega arith))) (receive "job_1" [] 7 refl refl)

to_acked : before ⇒* acked_one
to_acked = next to_running (
    finish [] "job_1" [] no_answers (record sort_store { jobs = ("job_1", refused_job) ∷ [] }) refl
      finished_run)

reachable-IsServed_example : IsServed (runner_workers (pos 8)) acked_one
reachable-IsServed_example = reachable-IsServed (pos 8) sort_store [] to_acked
