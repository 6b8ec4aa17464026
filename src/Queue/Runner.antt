-- ===== src/Queue/Runner.antt =====
-- The consumers of center/server/runner.go, as steps of the broker, of the goroutines that Start begins
-- and of the handlers, while the connection lasts. The broker delivers in order, and holds back what
-- exceeds the prefetch count of the one consumer: that is what RabbitMQ does behind Qos.
use text.Mathlib.Text.{◌==◌ as str_eq}
use swarm_compute.Base.{
  ℕ, suc, ◌+◌, ◌<◌, ◌≡◌, String, List, [], ◌∷◌, ◌++◌, some, true, length, ok, if◌then◌else◌,
}
use swarm_compute.Base.Int.{ℤ, pos, pos_part, leb_ℤ}
use swarm_compute.Base.Map.{lookup, insert}
use swarm_compute.Base.Float64.{Float64}
use swarm_compute.Scheduler.Types.{Job, JobStatus, JobSubmitRequest, Store}
use swarm_compute.Scheduler.Create.{create_job}
use swarm_compute.Scheduler.Execute.{Surroundings, process_job}

-- ch.Qos(1, 0, false)
abbrev pub prefetch : ℕ
prefetch = 1

-- The ids that wait in the queue, those delivered into the channel that Consume returns, those that a
-- goroutine processes, and those acknowledged; the goroutines that wait for a message; and all ids that
-- have ever been published.
pub record Consumers (N : Type 0) : Type 0 where
  pub store : Store N
  pub queue : List String
  pub delivered : List String
  pub running : List String
  pub acked : List String
  pub idle : ℕ
  pub published : List String

-- NewJobRunner
abbrev pub runner_workers : ℤ → ℕ
runner_workers workers = if leb_ℤ workers (pos 0) then 4 else pos_part workers

-- Start, with what the queue holds
abbrev pub start : {N : Type 0} → ℤ → Store N → List String → Consumers N
start workers store queue = record {
  store = store;
  queue = queue;
  delivered = [];
  running = [];
  acked = [];
  idle = runner_workers workers;
  published = queue;
}

-- how often an id stands in a list
unfoldable pub occurrences : String → List String → ℕ
occurrences id [] = 0
occurrences id (x ∷ xs) = (if str_eq x id then 1 else 0) + occurrences id xs

module _ {N : Type 0} ⦃fl : Float64 N⦄ where
  infix 40 ◌⇒◌
  pub data ◌⇒◌ (s : Consumers N) : Consumers N → Type 0 where
    -- jobSubmitHandler, with an id that is new
    submit :
        (req : JobSubmitRequest N) (id : String) (now : ℕ) (job : Job N) (store : Store N)
        → create_job req id now s.store ≡ ok (job, store)
        → occurrences id s.published ≡ 0
        → s ⇒ record s { store = store; queue = s.queue ++ (id ∷ []); published = id ∷ s.published }
    -- the same, where Publish fails
    submit_only :
        (req : JobSubmitRequest N) (id : String) (now : ℕ) (job : Job N) (store : Store N)
        → create_job req id now s.store ≡ ok (job, store)
        → occurrences id s.published ≡ 0
        → s ⇒ record s { store = store }
    -- the broker delivers
    deliver :
        (id : String) (rest : List String)
        → s.queue ≡ id ∷ rest
        → length s.delivered + length s.running < prefetch
        → s ⇒ record s { queue = rest; delivered = s.delivered ++ (id ∷ []) }
    -- `case msg, ok := <-msgs` of one of the goroutines
    receive :
        (id : String) (rest : List String) (n : ℕ)
        → s.delivered ≡ id ∷ rest
        → s.idle ≡ suc n
        → s ⇒ record s { delivered = rest; running = id ∷ s.running; idle = n }
    -- processJob returns, and the message is acknowledged
    finish :
        (front : List String) (id : String) (back : List String) (env : Surroundings N)
        (store : Store N)
        → s.running ≡ front ++ (id ∷ back)
        → process_job env id s.store ≡ ok store
        → s ⇒ record s {
          store = store;
          running = front ++ back;
          acked = id ∷ s.acked;
          idle = suc s.idle;
        }
    -- `case <-ctx.Done()` of one of the goroutines
    stop : (n : ℕ) → s.idle ≡ suc n → s ⇒ record s { idle = n }
    -- the handler of a cancel, on a job that is not running
    cancel :
        (id : String) (job : Job N) (now : ℕ)
        → lookup id s.store.jobs ≡ some job
        → job.cancel ≡ true
        → occurrences id s.running ≡ 0
        → s ⇒ record s {
          store = record s.store {
            jobs =
                insert id
                  (record job { status = JobStatus.cancelled; finished_at = now })
                  s.store.jobs;
          };
        }

  infix 40 ◌⇒*◌
  pub data ◌⇒*◌ (s : Consumers N) : Consumers N → Type 0 where
    here : s ⇒* s
    next : {t u : Consumers N} → s ⇒* t → t ⇒ u → s ⇒* u
