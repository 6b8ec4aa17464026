-- ===== src/Center/Routes.antt =====
-- The guards of center/server/middleware.go and main.go around the handlers, and the routes.
use text.Mathlib.Text.{◌==◌ as str_eq}
use swarm_compute.Base.{ℕ, ◌*◌, String, List, [], ◌∷◌, Option, none, some, if◌then◌else◌}
use swarm_compute.Base.Int.{ℤ}
use swarm_compute.Base.Float64.{Float64, const_f}
use swarm_compute.Limiter.{RateLimiter, new_rate_limiter, allow}
use swarm_compute.Scheduler.Types.{Store}
use swarm_compute.Center.Http.{
  Request, Decoder, Body, response, Server, Handler, http_error, add_headers,
}
use swarm_compute.Center.Handlers.{
  task_types_handler, job_submit_handler, jobs_list_handler, job_detail_or_cancel_handler,
  workers_handler, stats_handler,
}

abbrev pub max_body_job : ℕ
max_body_job = 10 * 1024 * 1024

abbrev pub cors_headers : List (String × String)
cors_headers =
    ("Access-Control-Allow-Origin", "*")
    ∷ ("Access-Control-Allow-Methods", "GET,POST,DELETE,OPTIONS")
    ∷ ("Access-Control-Allow-Headers", "Content-Type")
    ∷ []

abbrev pub client_ip : Request → String
client_ip r = if str_eq r.forwarded "" then r.remote_host else r.forwarded

-- Which of the two limiters a route has.
pub data Limit : Type 0 where
  general submissions : Limit

module _ {N : Type 0} where
  abbrev pub limiter_of : Limit → Server N → RateLimiter N
  limiter_of general s = s.general_rl
  limiter_of submissions s = s.job_rl

  abbrev pub set_limiter : Limit → RateLimiter N → Server N → Server N
  set_limiter general rl s = record s { general_rl = rl }
  set_limiter submissions rl s = record s { job_rl = rl }

  unfoldable pub with_cors : Handler N → Handler N
  with_cors handler m r s =
      if str_eq r.method "OPTIONS"
      then (response 204 cors_headers Body.empty, s)
      else (let (answer, s') = handler m r s in (add_headers cors_headers answer, s'))

  unfoldable pub with_max_body : ℕ → Handler N → Handler N
  with_max_body limit next m r s = next m (record r { limit = some limit }) s

module _ {N : Type 0} ⦃fl : Float64 N⦄ (seconds : ℤ → N) where
  unfoldable pub with_rate_limit : Limit → Handler N → Handler N
  with_rate_limit which next m r s =
      let (granted, rl) = allow seconds (client_ip r) m.now_ns (limiter_of which s) in
      let s' = set_limiter which rl s in
      let passed = next m r s' in
      if granted then passed else (http_error 429 "rate limit exceeded", s')

  unfoldable pub submit_route : Decoder N → Handler N
  submit_route decoder =
      with_cors
        (with_rate_limit submissions (with_max_body max_body_job (job_submit_handler decoder)))

  -- the handler that main registers for a pattern
  unfoldable pub routes : Decoder N → String → Option (Handler N)
  routes decoder pattern =
      if str_eq pattern "/api/task-types"
      then some (with_cors (with_rate_limit general task_types_handler))
      else if str_eq pattern "/api/jobs/submit"
      then some (submit_route decoder)
      else if str_eq pattern "/api/jobs"
      then some (with_cors (with_rate_limit general jobs_list_handler))
      else if str_eq pattern "/api/jobs/"
      then some (with_cors (with_rate_limit general job_detail_or_cancel_handler))
      else if str_eq pattern "/api/workers"
      then some (with_cors (with_rate_limit general (workers_handler decoder)))
      else if str_eq pattern "/api/stats"
      then some (with_cors (with_rate_limit general stats_handler))
      else none

module _ {N : Type 0} ⦃fl : Float64 N⦄ where
  -- the variables of main, with no message in the queue
  abbrev pub new_server : Store N → Server N
  new_server store = record {
    store = store;
    queue = [];
    stopped = [];
    general_rl = new_rate_limiter (const_f 50) (const_f 100);
    job_rl = new_rate_limiter (const_f 10) (const_f 20);
  }
