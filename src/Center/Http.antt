-- ===== src/Center/Http.antt =====
-- Requests, responses and paths, as the handlers of center/server/main.go use them, with writeJSON and
-- http.Error.
use Prim.Native.Char.{Char, code}
use text.Mathlib.Text.{◌==◌ as str_eq}
use swarm_compute.Base.{
  ℕ, String, List, [], ◌∷◌, ◌++◌, Option, none, some, Bool, Error, ◌==◌, if◌then◌else◌,
}
use swarm_compute.Limiter.{RateLimiter}
use swarm_compute.Scheduler.Types.{Worker, TaskType, Job, Store, JobSubmitRequest}
use swarm_compute.Store.Stats.{SystemStats}

-- `forwarded` is the header X-Forwarded-For, and `remote_host` the host that net.SplitHostPort finds in
-- RemoteAddr. `limit` is that of http.MaxBytesReader.
pub record Request : Type 0 where
  pub method : String
  pub path : String
  pub forwarded : String
  pub remote_host : String
  pub body : String
  pub limit : Option ℕ

-- json.NewDecoder(r.Body).Decode, with the limit of the body; `none` is an error
pub record Decoder (N : Type 0) : Type 0 where
  pub submit : Option ℕ → String → Option (JobSubmitRequest N)
  pub workers : Option ℕ → String → Option (List Worker)

-- What is written as a body: nothing, the message of http.Error, or the value that is given to the
-- JSON encoder. The error of the encoder is dropped: a value that it cannot encode leaves no body.
pub data Body (N : Type 0) : Type 0 where
  empty : Body N
  message : String → Body N
  failure : Error → Body N
  task_types : List TaskType → Body N
  job : Job N → Body N
  jobs : List (Job N) → Body N
  workers : List Worker → Body N
  stats : SystemStats N → Body N
  done : Body N
  done_count : ℕ → Body N

-- The headers are those that the code sets. A handler that panics leaves no response: net/http closes
-- the connection.
pub data Response (N : Type 0) : Type 0 where
  aborted : Response N
  response : (status : ℕ) → (headers : List (String × String)) → Body N → Response N

-- What the handlers share, and the ids whose job has been told to stop by its cancel function.
pub record Server (N : Type 0) : Type 0 where
  pub store : Store N
  pub queue : List String
  pub stopped : List String
  pub general_rl : RateLimiter N
  pub job_rl : RateLimiter N

-- What a request finds: the clock, in milliseconds and as time.Now compares it, the next id, and
-- whether RabbitMQ takes a message.
pub record Moment : Type 0 where
  pub now : ℕ
  pub now_ns : ℕ
  pub new_id : String
  pub published : Bool

abbrev pub Handler : Type 0 → Type 0
Handler N = Moment → Request → Server N → Response N × Server N

module _ {N : Type 0} where
  -- `http.Error(w, message, status)`
  abbrev pub http_error : ℕ → String → Response N
  http_error status text = response status [] (message text)

  -- the response that writeJSON leaves
  abbrev pub write_json : Body N → Response N
  write_json body = response 200 (("Content-Type", "application/json") ∷ []) body

  abbrev pub status_of : Response N → Option ℕ
  status_of aborted = none
  status_of (response status headers body) = some status

  -- Headers that are set before.
  abbrev pub add_headers : List (String × String) → Response N → Response N
  add_headers hs aborted = aborted
  add_headers hs (response status headers body) = response status (hs ++ headers) body

-- the rest of a string behind a prefix
unfoldable pub cut_prefix : String → String → Option String
cut_prefix String.[] s = some s
cut_prefix (String.◌∷◌ p prefix) String.[] = none
cut_prefix (String.◌∷◌ p prefix) (String.◌∷◌ c s) =
    let rest = cut_prefix prefix s in if code p == code c then rest else none

-- `strings.TrimPrefix(s, prefix)`
unfoldable pub trim_prefix : String → String → String
unfolding cut_prefix
trim_prefix s prefix = elim (cut_prefix prefix s) [ none ↦ s | some rest ↦ rest ]

abbrev pub prepend : Char → Option String → Option String
prepend c none = none
prepend c (some s) = some (String.◌∷◌ c s)

-- What stands before a suffix: `strings.HasSuffix` and `strings.TrimSuffix`.
unfoldable pub cut_suffix : String → String → Option String
cut_suffix suffix String.[] = if str_eq suffix "" then some "" else none
cut_suffix suffix (String.◌∷◌ c s) =
    let rest = cut_suffix suffix s in
    if str_eq (String.◌∷◌ c s) suffix then some "" else prepend c rest
