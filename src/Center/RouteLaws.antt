-- ===== src/Center/RouteLaws.antt =====
-- What holds of every route, and of the submissions of one client at one instant.
use text.Mathlib.Text.{◌==◌ as str_eq}
use text.Mathlib.TextEquality.{eq_iff}
use swarm_compute.Base.{
  ◌≡◌, refl, ◌∙◌, subst, String, Option, none, some, Option-cases, Bool, true, false, Bool-cases,
  inl, inr, ◌⊎◌, if◌then◌else◌, arith,
}
use swarm_compute.Base.Int.{ℤ}
use swarm_compute.Base.Map.{lookup}
use swarm_compute.Base.Float64.{Float64}
use swarm_compute.Limiter.{RateLimiter, allow}
use swarm_compute.Center.Http.{
  Request, Decoder, Body, response, Server, Moment, Handler, trim_prefix, cut_suffix,
}
use swarm_compute.Center.Handlers.{
  only, task_types_handler, job_submit_handler, jobs_list_handler, cancel_handler, detail_handler,
  job_detail_or_cancel_handler, workers_handler, stats_handler,
}
use swarm_compute.Center.Routes.{
  Limit, general, submissions, limiter_of, set_limiter, client_ip, cors_headers, with_cors,
  with_rate_limit, with_max_body, max_body_job, submit_route, routes,
}

module _ {N : Type 0} where
  -- The store, the queue and the jobs that are told to stop are as before.
  abbrev pub IsKept : Server N → Server N → Type 0
  IsKept s s' = (s'.store ≡ s.store) × (s'.queue ≡ s.queue) × (s'.stopped ≡ s.stopped)

  -- A GET request reads only, and a method that the handler does not know changes nothing.
  abbrev IsReader : Handler N → Type 0
  IsReader h =
      (m : Moment) (r : Request) (s : Server N)
      → str_eq r.method "GET" ≡ true
      → IsKept s (h m r s).1

  only-IsReader :
      (method text : String) (h : Handler N)
      → ((m : Moment) (r : Request) (s : Server N)
          → str_eq r.method method ≡ true
          → IsKept s (h m r s).1)
        ⊎ (str_eq "GET" method ≡ false)
      → IsReader (only method text h)
  only-IsReader method text h safe m r s get = elim (Bool-cases (str_eq r.method method)) [
    | inr other ↦ rw other (refl, refl, refl)
    | inl same ↦ elim safe [
      | inl reads ↦ rw same (reads m r s same)
      | inr differs ↦
          absurd
            (ground (eq_iff r.method method, eq_iff r.method "GET", eq_iff "GET" method, arith))
    ]
  ]

  cors-IsReader : (h : Handler N) → IsReader h → IsReader (with_cors h)
  unfolding with_cors
  cors-IsReader h reads m r s get =
      let is_get : r.method ≡ "GET" = ground (eq_iff r.method "GET", arith) in
      let real : str_eq r.method "OPTIONS" ≡ false = rw is_get refl in
      rw (real, with_cors) (reads m r s get)

  task_types-IsReader : IsReader task_types_handler
  unfolding task_types_handler
  task_types-IsReader = only-IsReader "GET" "GET only" _ (inl (λ m r s get. (refl, refl, refl)))

  job_submit-IsReader : (decoder : Decoder N) → IsReader (job_submit_handler decoder)
  unfolding job_submit_handler
  job_submit-IsReader decoder = only-IsReader "POST" "POST only" _ (inr refl)

  jobs_list-IsReader : IsReader jobs_list_handler
  unfolding jobs_list_handler
  jobs_list-IsReader = only-IsReader "GET" "GET only" _ (inl (λ m r s get. (refl, refl, refl)))

  cancel-IsReader : (id : String) → IsReader (cancel_handler id)
  unfolding cancel_handler
  cancel-IsReader id = only-IsReader "POST" "POST only" _ (inr refl)

  detail-IsReader : (id : String) → IsReader (detail_handler id)
  unfolding detail_handler
  detail-IsReader id = only-IsReader "GET" "GET only" _ (
      inl (λ m r s get. elim (Bool-cases (str_eq id "")) [
        | inl e ↦ rw e (refl, refl, refl)
        | inr e ↦ elim (Option-cases (lookup id s.store.jobs)) [
          | inl missing ↦ rw (e, missing) (refl, refl, refl)
          | inr (job, found) ↦ rw (e, found) (refl, refl, refl)
        ]
      ]))

  job_detail_or_cancel-IsReader : IsReader job_detail_or_cancel_handler
  unfolding job_detail_or_cancel_handler
  job_detail_or_cancel-IsReader m r s get =
      let path = trim_prefix r.path "/api/jobs/" in
      elim (Option-cases (cut_suffix "/cancel" path)) [
        | inl e ↦ rw (e, job_detail_or_cancel_handler) (detail-IsReader path m r s get)
        | inr (id, e) ↦ rw (e, job_detail_or_cancel_handler) (cancel-IsReader id m r s get)
      ]

  workers-IsReader : (decoder : Decoder N) → IsReader (workers_handler decoder)
  unfolding workers_handler
  workers-IsReader decoder m r s get = rw (get, workers_handler) (refl, refl, refl)

module _ {N : Type 0} ⦃fl : Float64 N⦄ (seconds : ℤ → N) where
  stats-IsReader : IsReader {N = N} stats_handler
  unfolding stats_handler
  stats-IsReader = only-IsReader "GET" "GET only" _ (inl (λ m r s get. (refl, refl, refl)))

  set_limiter-IsKept :
      (which : Limit) (rl : RateLimiter N) (s : Server N) → IsKept s (set_limiter which rl s)
  set_limiter-IsKept general rl s = (refl, refl, refl)
  set_limiter-IsKept submissions rl s = (refl, refl, refl)

  limited-IsReader :
      (which : Limit) (h : Handler N) → IsReader h → IsReader (with_rate_limit seconds which h)
  unfolding with_rate_limit
  limited-IsReader which h reads m r s get =
      let (granted, rl) = allow seconds (client_ip r) m.now_ns (limiter_of which s) in
      let (store, queue, stopped) = set_limiter-IsKept which rl s in
      let (store', queue', stopped') = reads m r (set_limiter which rl s) get in
      elim (Bool-cases granted) [
        | inl e ↦ rw (e, with_rate_limit) (store' ∙ store, queue' ∙ queue, stopped' ∙ stopped)
        | inr e ↦ rw (e, with_rate_limit) (store, queue, stopped)
      ]

  -- A preflight request is answered without the handler.
  abbrev IsPreflighted : Handler N → Type 0
  IsPreflighted h =
      (m : Moment) (r : Request) (s : Server N)
      → str_eq r.method "OPTIONS" ≡ true
      → h m r s ≡ (response 204 cors_headers Body.empty, s)

  abbrev IsRoute : Option (Handler N) → Type 0
  IsRoute none = Unit
  IsRoute (some h) = IsReader h × IsPreflighted h

  if-IsRoute :
      (b : Bool) (x y : Option (Handler N)) → IsRoute x → IsRoute y → IsRoute (if b then x else y)
  if-IsRoute true x y h k = h
  if-IsRoute false x y h k = k

  limited-IsRoute :
      (which : Limit) (h : Handler N)
      → IsReader h
      → IsRoute (some (with_cors (with_rate_limit seconds which h)))
  unfolding with_cors
  limited-IsRoute which h reads = (
    cors-IsReader (with_rate_limit seconds which h) (limited-IsReader which h reads),
    λ m r s options. rw (options, with_cors) refl,
  )

  submit_route-IsRoute : (decoder : Decoder N) → IsRoute (some (submit_route seconds decoder))
  unfolding submit_route with_max_body
  submit_route-IsRoute decoder =
      limited-IsRoute submissions (with_max_body max_body_job (job_submit_handler decoder))
        (λ m r s get. job_submit-IsReader decoder m (record r { limit = some max_body_job }) s get)

  routes-IsRoute :
      (decoder : Decoder N) (pattern : String) → IsRoute (routes seconds decoder pattern)
  unfolding routes
  routes-IsRoute decoder pattern =
      if-IsRoute (str_eq pattern "/api/task-types") _ _
        (limited-IsRoute general task_types_handler task_types-IsReader)
        (if-IsRoute (str_eq pattern "/api/jobs/submit") _ _ (submit_route-IsRoute decoder) (
          if-IsRoute (str_eq pattern "/api/jobs") _ _
            (limited-IsRoute general jobs_list_handler jobs_list-IsReader)
            (if-IsRoute (str_eq pattern "/api/jobs/") _ _
              (limited-IsRoute general job_detail_or_cancel_handler job_detail_or_cancel-IsReader)
              (if-IsRoute (str_eq pattern "/api/workers") _ _
                (limited-IsRoute general (workers_handler decoder) (workers-IsReader decoder))
                (if-IsRoute (str_eq pattern "/api/stats") _ _
                  (limited-IsRoute general stats_handler stats-IsReader) tt)))))

  -- On every route of the center, a GET request changes neither the store nor the queue nor tells
  -- a job to stop, and an OPTIONS request is answered with 204 and the CORS headers and changes
  -- nothing at all, not even a bucket of the rate limiters.
  pub routes_lem :
      (decoder : Decoder N) (pattern : String) (h : Handler N) (m : Moment) (r : Request)
      (s : Server N)
      → routes seconds decoder pattern ≡ some h
      → (str_eq r.method "GET" ≡ true → IsKept s (h m r s).1)
        × (str_eq r.method "OPTIONS" ≡ true → h m r s ≡ (response 204 cors_headers Body.empty, s))
  routes_lem decoder pattern h m r s e =
      let (reads, preflight) = subst IsRoute e (routes-IsRoute decoder pattern) in
      (reads m r s, preflight m r s)
