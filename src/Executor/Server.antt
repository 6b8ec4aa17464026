-- ===== src/Executor/Server.antt =====
-- The handlers of a worker, site/server/main.go. A handler that panics leaves no response. The error of
-- encoding a response with an output is a parameter, as `none` where it can be encoded: a response is
-- otherwise of texts and whole numbers, which always can.
use text.Mathlib.Text.{◌==◌ as str_eq}
use swarm_compute.Base.{
  ℕ, String, List, [], ◌∷◌, ◌++◌, Option, none, some, Error, Result, ok, if◌then◌else◌,
}
use swarm_compute.Base.Value.{Value}
use swarm_compute.Base.Float64.{Float64}
use swarm_compute.Executor.{TaskRequest, TaskResponse, run_task}
use swarm_compute.Executor.GoLibrary.{Runtime}

-- What is written as a body: nothing, the message of http.Error, or a value that is encoded as JSON.
pub data WorkerBody (N : Type 0) : Type 0 where
  empty : WorkerBody N
  message : String → WorkerBody N
  pong : (id : String) → (ts : ℕ) → WorkerBody N
  task : TaskResponse N → WorkerBody N

pub data WorkerResponse (N : Type 0) : Type 0 where
  aborted : WorkerResponse N
  response : (status : ℕ) → (headers : List (String × String)) → WorkerBody N → WorkerResponse N

abbrev pub enable_cors : List (String × String)
enable_cors =
    ("Access-Control-Allow-Origin", "*")
    ∷ ("Access-Control-Allow-Methods", "GET,POST,OPTIONS")
    ∷ ("Access-Control-Allow-Headers", "Content-Type")
    ∷ []

abbrev pub json_headers : List (String × String)
json_headers = enable_cors ++ (("Content-Type", "application/json") ∷ [])

module _ {N : Type 0} where
  unfoldable pub ping_handler : String → ℕ → String → WorkerResponse N
  ping_handler instance_id now method =
      if str_eq method "OPTIONS"
      then response 204 enable_cors empty
      else response 200 json_headers (pong instance_id now)

  -- The encoder writes nothing where it fails, and its error is dropped.
  abbrev pub encoded_body : (Value N → Option Error) → TaskResponse N → WorkerBody N
  encoded_body encode_error resp = elim (encode_error resp.output) [
    | none ↦ task resp
    | some e ↦ empty
  ]

  abbrev pub task_answer : (Value N → Option Error) → Result (TaskResponse N) → WorkerResponse N
  task_answer encode_error (ok resp) = response 200 json_headers (encoded_body encode_error resp)
  task_answer encode_error _ = aborted

module _ {N : Type 0} ⦃fl : Float64 N⦄ where
  -- `request` is what Decode makes of the body, and `dur` the time that runTask takes.
  unfoldable pub execute_handler :
      Runtime N
      → (Value N → Option Error)
      → String
      → ℕ
      → String
      → Option (TaskRequest N)
      → WorkerResponse N
  execute_handler rt encode_error instance_id dur method request =
      if str_eq method "OPTIONS"
      then response 204 enable_cors empty
      else if str_eq method "POST"
      then elim request [
        | none ↦ response 400 enable_cors (message "bad json")
        | some req ↦ task_answer encode_error (run_task rt instance_id dur req)
      ]
      else response 405 enable_cors (message "POST only")
