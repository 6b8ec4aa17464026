-- ===== src/Center/SubmitLaws.antt =====
-- What a submission does, on every branch.
use text.Mathlib.Text.{◌==◌ as str_eq}
use swarm_compute.Base.{
  ℕ, ◌≤◌, ◌≡◌, ◌≢◌, refl, String, List, Option, none, some, Error, Option-cases, Bool, true, false,
  ◌||◌, Bool-cases, inl, inr, ◌⊎◌, Result, ok, err, panic, wrap_error, ◌>>=◌, if◌then◌else◌, arith,
}
use swarm_compute.Base.Map.{lookup}
use swarm_compute.Base.Value.{Value, Fields, get, as_arr, as_str}
use swarm_compute.Scheduler.Types.{Job, Store, JobSubmitRequest}
use swarm_compute.Scheduler.Create.{
  create_job, new_job, validate_input, check_array, check_text, max_sort_elements, max_matrix_dim,
}
use swarm_compute.Scheduler.CreateLaws.{IsAcceptable, with_job, accepted, create_job_lem}
use swarm_compute.Center.Http.{
  Request, Decoder, Body, Response, Server, Moment, write_json, status_of,
}
use swarm_compute.Center.Handlers.{enqueue, answer_submit, job_submit_handler}

abbrev IsTotal {ℓ} : {A : Type ℓ} → Result A → Type ℓ
IsTotal m = m ≢ panic

ok-IsTotal {ℓ} : {A : Type ℓ} (x : A) → IsTotal (ok x)
ok-IsTotal x h = cc

err-IsTotal {ℓ} : {A : Type ℓ} (e : Error) → IsTotal {A = A} (err e)
err-IsTotal e h = cc

if-IsTotal {ℓ} :
    {A : Type ℓ} (b : Bool) (x y : Result A) → IsTotal x → IsTotal y → IsTotal (if b then x else y)
if-IsTotal true x y h k = h
if-IsTotal false x y h k = k

check_text-IsTotal : (t : Option String) → IsTotal (check_text t)
check_text-IsTotal none = ok-IsTotal tt
check_text-IsTotal (some t) = if-IsTotal _ _ _ (err-IsTotal _) (ok-IsTotal tt)

checked-IsTotal {ℓ} :
    {A : Type ℓ} (format : String) (m : Result (Unit {0})) (x : A)
    → IsTotal m
    → IsTotal (wrap_error format m >>= λ _. ok x)
checked-IsTotal format (ok u) x h = λ k. cc
checked-IsTotal format (err e) x h = λ k. cc
checked-IsTotal format panic x h = λ k. h refl

module _ {N : Type 0} where
  check_array-IsTotal :
      (format : String) (limit : ℕ) (xs : Option (List (Value N)))
      → IsTotal (check_array format limit xs)
  check_array-IsTotal format limit none = ok-IsTotal tt
  check_array-IsTotal format limit (some xs) = if-IsTotal _ _ _ (err-IsTotal _) (ok-IsTotal tt)

  validate_input-IsTotal :
      (type_id : String) (input : Fields N) → IsTotal (validate_input type_id input)
  unfolding validate_input
  validate_input-IsTotal type_id input =
      if-IsTotal (str_eq type_id "sort") _ _
        (check_array-IsTotal "sort: array too large (%d elements, max %d)" max_sort_elements
          (as_arr (get "data" input)))
        (if-IsTotal (str_eq type_id "matrix-mul") _ _
          (check_array-IsTotal "matrix: too many rows (%d, max %d)" max_matrix_dim
            (as_arr (get "a" input)))
          (if-IsTotal (str_eq type_id "word-count" || str_eq type_id "grep") _ _
            (check_text-IsTotal (as_str (get "text" input))) (ok-IsTotal tt)))

  create_job-IsTotal :
      (req : JobSubmitRequest N) (id : String) (now : ℕ) (s : Store N)
      → IsTotal (create_job req id now s)
  unfolding create_job
  create_job-IsTotal req id now s = elim (Bool-cases (str_eq req.type_id "")) [
    | inl unnamed ↦ rw (unnamed, create_job) (err-IsTotal _)
    | inr named ↦ elim (Option-cases (lookup req.type_id s.task_types)) [
      | inl unknown ↦ rw (named, unknown, create_job) (err-IsTotal _)
      | inr (t, known) ↦
          rw (named, known, create_job)
            (checked-IsTotal "input validation: " (validate_input req.type_id req.input)
              (new_job req id now, with_job req id now s)
              (validate_input-IsTotal req.type_id req.input))
    ]
  ]

module _ {N : Type 0} (decoder : Decoder N) (m : Moment) (r : Request) (s : Server N) where
  -- A POST request with a body that can be decoded, for a job that is accepted.
  abbrev pub IsSubmission : JobSubmitRequest N → Type 0
  IsSubmission req =
      (str_eq r.method "POST" ≡ true)
      × (decoder.submit r.limit r.body ≡ some req)
      × IsAcceptable req m.new_id m.now s.store

  submission_answer :
      (req : JobSubmitRequest N)
      → IsSubmission req
      → (job_submit_handler decoder m r s).0 ≡ write_json (Body.job (new_job req m.new_id m.now))
        × (job_submit_handler decoder m r s).1
          ≡ enqueue m m.new_id (record s { store = with_job req m.new_id m.now s.store })
  unfolding job_submit_handler
  submission_answer req (post, decoded, good) =
      rw (post, decoded, accepted req m.new_id m.now s.store good, job_submit_handler) (refl, refl)

  -- The status of an error, and nothing has changed.
  abbrev pub IsRefused : Response N × Server N → Type 0
  IsRefused (answer, s') =
      (status : ℕ) × (status_of answer ≡ some status) × (400 ≤ status) × (s' ≡ s)

  submitted-cases :
      (made : Result (Job N × Store N))
      → IsTotal made
      → ((out : Job N × Store N) × (made ≡ ok out)) ⊎ IsRefused (answer_submit m s made)
  submitted-cases panic h = absurd (h refl)
  submitted-cases (err e) h = inr (400, refl, omega arith, refl)
  submitted-cases (ok out) h = inl (out, refl)

  IsSubmission-cases :
      ((req : JobSubmitRequest N) × IsSubmission req) ⊎ IsRefused (job_submit_handler decoder m r s)
  unfolding job_submit_handler
  IsSubmission-cases = elim (Bool-cases (str_eq r.method "POST")) [
    | inr other ↦ inr (rw (other, job_submit_handler) (405, refl, omega arith, refl))
    | inl post ↦ elim (Option-cases (decoder.submit r.limit r.body)) [
      | inl bad ↦ inr (rw (post, bad, job_submit_handler) (400, refl, omega arith, refl))
      | inr (req, decoded) ↦
          elim (submitted-cases (create_job req m.new_id m.now s.store)
            (create_job-IsTotal req m.new_id m.now s.store)) [
              | inl (out, made) ↦
                  inl (req, (post, decoded, (create_job_lem req m.new_id m.now s.store).1 out made))
              | inr denied ↦ inr (rw (post, decoded, job_submit_handler) denied)
            ]
    ]
  ]

  -- A POST request whose body can be decoded, for a job that is accepted, is answered with the new
  -- job, which is then in the store, and its id in the queue if RabbitMQ takes it. Every other
  -- request to the handler is answered with a status of 400 or more and changes nothing.
  pub job_submit_handler_lem :
      let (answer, s') = job_submit_handler decoder m r s in
      ((req : JobSubmitRequest N)
        → IsSubmission req
        → (answer ≡ write_json (Body.job (new_job req m.new_id m.now)))
          × (s' ≡ enqueue m m.new_id (record s { store = with_job req m.new_id m.now s.store })))
      × (((req : JobSubmitRequest N) × IsSubmission req) ⊎ IsRefused (answer, s'))
  job_submit_handler_lem = (submission_answer, IsSubmission-cases)
