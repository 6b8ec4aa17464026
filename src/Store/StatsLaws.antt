-- ===== src/Store/StatsLaws.antt =====
-- What the statistics count.
use text.Mathlib.Text.{◌==◌ as str_eq}
use text.Mathlib.TextEquality.{eq_iff}
use swarm_compute.Base.{
  ℕ, suc, ◌+◌, ◌≡◌, refl, sym, ap, ◌∙◌, String, List, [], ◌∷◌, ◌++◌, append_assoc, append-nil,
  Option, none, some, Bool-cases, inl, inr, ◌&&◌, map, sum, length, length-append, All, All-imp,
  if◌then◌else◌, arith,
}
use swarm_compute.Base.Int.{pos}
use swarm_compute.Base.Map.{
  lookup, insert, lookup-insert, lookup-nil, lookup_same, lookup_other, insert-nil, insert_same,
  insert_other, All-found, IsUnique, insert-IsUnique,
}
use swarm_compute.Base.Float64.{Float64}
use swarm_compute.Executor.WordCount.{increment}
use swarm_compute.Scheduler.Types.{Job, Task, Store}
use swarm_compute.Store.Stats.{
  WorkerStat, status_name, append_at, sum_from, counts_for_worker, add_tasks, by_status,
  worker_tasks, average, worker_stats, compute_stats,
}

-- an entry of a map, with the zero value where there is none
abbrev pub count_or_zero : Option ℕ → ℕ
count_or_zero none = 0
count_or_zero (some n) = n

abbrev pub list_or_nil : Option (List ℕ) → List ℕ
list_or_nil none = []
list_or_nil (some ds) = ds

increment-insert :
    (key : String) (m : List (String × ℕ))
    → increment key m ≡ insert key (count_or_zero (lookup key m) + 1) m
unfolding increment
increment-insert key [] = rw (lookup-nil {V = ℕ} key, insert-nil {V = ℕ} key (0 + 1)) refl
increment-insert key (entry ∷ rest) = elim (Bool-cases (str_eq entry.0 key)) [
  | inl e ↦
      let same : entry.0 ≡ key = ground (eq_iff entry.0 key, arith) in
      rw (lookup_same key entry rest e, insert_same key (entry.1 + 1) entry rest e, e)
        (ap (λ (k : String). (k, entry.1 + 1) ∷ rest) same)
  | inr e ↦
      rw
        (
          lookup_other key entry rest e,
          insert_other key (count_or_zero (lookup key rest) + 1) entry rest e,
          e,
          increment-insert key rest,
        )
        refl
]

append_at-insert :
    (key : String) (d : ℕ) (m : List (String × List ℕ))
    → append_at key d m ≡ insert key (list_or_nil (lookup key m) ++ (d ∷ [])) m
unfolding append_at
append_at-insert key d [] = rw (lookup-nil {V = List ℕ} key, insert-nil key (d ∷ [])) refl
append_at-insert key d (entry ∷ rest) = elim (Bool-cases (str_eq entry.0 key)) [
  | inl e ↦
      let same : entry.0 ≡ key = ground (eq_iff entry.0 key, arith) in
      rw (lookup_same key entry rest e, insert_same key (entry.1 ++ (d ∷ [])) entry rest e, e)
        (ap (λ (k : String). (k, entry.1 ++ (d ∷ [])) ∷ rest) same)
  | inr e ↦
      rw
        (
          lookup_other key entry rest e,
          insert_other key (list_or_nil (lookup key rest) ++ (d ∷ [])) entry rest e,
          e,
          append_at-insert key d rest,
        )
        refl
]

sum-increment :
    (key : String) (m : List (String × ℕ))
    → sum (map (λ entry. entry.1) (increment key m)) ≡ suc (sum (map (λ entry. entry.1) m))
unfolding increment
sum-increment key [] = refl
sum-increment key (entry ∷ rest) = elim (Bool-cases (str_eq entry.0 key)) [
  | inl e ↦ rw e (omega arith)
  | inr e ↦ rw e (omega (arith, sum-increment key rest))
]

sum-append_at :
    (key : String) (d : ℕ) (m : List (String × List ℕ))
    → sum (map (λ entry. length entry.1) (append_at key d m))
      ≡ suc (sum (map (λ entry. length entry.1) m))
unfolding append_at
sum-append_at key d [] = refl
sum-append_at key d (entry ∷ rest) = elim (Bool-cases (str_eq entry.0 key)) [
  | inl e ↦ rw e (omega (arith, length-append entry.1 (d ∷ [])))
  | inr e ↦ rw e (omega (arith, sum-append_at key d rest))
]

module _ {N : Type 0} where
  -- the jobs whose status has a name
  abbrev pub jobs_with : String → List (String × Job N) → ℕ
  jobs_with name [] = 0
  jobs_with name ((id, j) ∷ rest) =
      (if str_eq (status_name j.status) name then 1 else 0) + jobs_with name rest

  -- the durations of the finished tasks of a worker, in order
  abbrev pub task_durations : String → List (Task N) → List ℕ
  task_durations wid [] = []
  task_durations wid (t ∷ ts) =
      (if counts_for_worker t && str_eq t.worker_id wid then t.duration_ms ∷ [] else [])
      ++ task_durations wid ts

  abbrev pub durations_of : String → List (String × Job N) → List ℕ
  durations_of wid [] = []
  durations_of wid ((id, j) ∷ rest) = task_durations wid j.tasks ++ durations_of wid rest

  by_status-count :
      (name : String) (jobs : List (String × Job N)) (m : List (String × ℕ))
      → count_or_zero (lookup name (by_status jobs m))
        ≡ count_or_zero (lookup name m) + jobs_with name jobs
  unfolding by_status
  by_status-count name [] m = omega arith
  by_status-count name ((id, j) ∷ rest) m =
      let key = status_name j.status in
      by_status-count name rest (increment key m)
      ∙ rw (increment-insert key m, lookup-insert key name (count_or_zero (lookup key m) + 1) m)
          (elim (Bool-cases (str_eq key name)) [
            | inl e ↦
                let same : key ≡ name = ground (eq_iff key name, arith) in
                rw (e, same) (omega arith)
            | inr e ↦ rw e (omega arith)
          ])

  by_status-sum :
      (jobs : List (String × Job N)) (m : List (String × ℕ))
      → sum (map (λ entry. entry.1) (by_status jobs m))
        ≡ sum (map (λ entry. entry.1) m) + length jobs
  unfolding by_status
  by_status-sum [] m = omega arith
  by_status-sum ((id, j) ∷ rest) m =
      let key = status_name j.status in
      omega (arith, by_status-sum rest (increment key m), sum-increment key m)

  add_tasks-durations :
      (wid : String) (ts : List (Task N)) (m : List (String × List ℕ))
      → list_or_nil (lookup wid (add_tasks ts m))
        ≡ list_or_nil (lookup wid m) ++ task_durations wid ts
  unfolding add_tasks
  add_tasks-durations wid [] m = sym (append-nil (list_or_nil (lookup wid m)))
  add_tasks-durations wid (t ∷ ts) m = elim (Bool-cases (counts_for_worker t)) [
    | inl counts ↦ rw counts (
        add_tasks-durations wid ts (append_at t.worker_id t.duration_ms m)
        ∙ rw
            (
              append_at-insert t.worker_id t.duration_ms m,
              lookup-insert t.worker_id wid
                  (list_or_nil (lookup t.worker_id m) ++ (t.duration_ms ∷ [])) m,
            )
            (elim (Bool-cases (str_eq t.worker_id wid)) [
              | inl e ↦
                  let same : t.worker_id ≡ wid = ground (eq_iff t.worker_id wid, arith) in
                  rw (e, same)
                    (append_assoc (list_or_nil (lookup wid m)) (t.duration_ms ∷ [])
                      (task_durations wid ts))
              | inr e ↦ rw e refl
            ]))
    | inr not_counted ↦ rw not_counted (add_tasks-durations wid ts m)
  ]

  worker_tasks-durations :
      (wid : String) (jobs : List (String × Job N)) (m : List (String × List ℕ))
      → list_or_nil (lookup wid (worker_tasks jobs m))
        ≡ list_or_nil (lookup wid m) ++ durations_of wid jobs
  unfolding worker_tasks
  worker_tasks-durations wid [] m = sym (append-nil (list_or_nil (lookup wid m)))
  worker_tasks-durations wid ((id, j) ∷ rest) m =
      worker_tasks-durations wid rest (add_tasks j.tasks m)
      ∙ rw (add_tasks-durations wid j.tasks m) (
          append_assoc (list_or_nil (lookup wid m)) (task_durations wid j.tasks)
            (durations_of wid rest))

  add_tasks-IsUnique :
      (ts : List (Task N)) (m : List (String × List ℕ)) → IsUnique m → IsUnique (add_tasks ts m)
  unfolding add_tasks
  add_tasks-IsUnique [] m u = u
  add_tasks-IsUnique (t ∷ ts) m u = elim (Bool-cases (counts_for_worker t)) [
    | inl e ↦
        let appended : IsUnique (append_at t.worker_id t.duration_ms m) =
          rw (append_at-insert t.worker_id t.duration_ms m) (
            insert-IsUnique t.worker_id (list_or_nil (lookup t.worker_id m) ++ (t.duration_ms ∷ []))
              m u) in
        rw e (add_tasks-IsUnique ts (append_at t.worker_id t.duration_ms m) appended)
    | inr e ↦ rw e (add_tasks-IsUnique ts m u)
  ]

  worker_tasks-IsUnique :
      (jobs : List (String × Job N)) (m : List (String × List ℕ))
      → IsUnique m
      → IsUnique (worker_tasks jobs m)
  unfolding worker_tasks
  worker_tasks-IsUnique [] m u = u
  worker_tasks-IsUnique ((id, j) ∷ rest) m u =
      worker_tasks-IsUnique rest (add_tasks j.tasks m) (add_tasks-IsUnique j.tasks m u)

  -- the finished tasks that have a worker
  abbrev pub counted_tasks : List (Task N) → ℕ
  counted_tasks [] = 0
  counted_tasks (t ∷ ts) = (if counts_for_worker t then 1 else 0) + counted_tasks ts

  abbrev pub all_counted : List (String × Job N) → ℕ
  all_counted [] = 0
  all_counted ((id, j) ∷ rest) = counted_tasks j.tasks + all_counted rest

  add_tasks-sum :
      (ts : List (Task N)) (m : List (String × List ℕ))
      → sum (map (λ entry. length entry.1) (add_tasks ts m))
        ≡ sum (map (λ entry. length entry.1) m) + counted_tasks ts
  unfolding add_tasks
  add_tasks-sum [] m = omega arith
  add_tasks-sum (t ∷ ts) m = elim (Bool-cases (counts_for_worker t)) [
    | inl e ↦ rw e (
        omega (
          arith,
          add_tasks-sum ts (append_at t.worker_id t.duration_ms m),
          sum-append_at t.worker_id t.duration_ms m,
        ))
    | inr e ↦ rw e (omega (arith, add_tasks-sum ts m))
  ]

  worker_tasks-sum :
      (jobs : List (String × Job N)) (m : List (String × List ℕ))
      → sum (map (λ entry. length entry.1) (worker_tasks jobs m))
        ≡ sum (map (λ entry. length entry.1) m) + all_counted jobs
  unfolding worker_tasks
  worker_tasks-sum [] m = omega arith
  worker_tasks-sum ((id, j) ∷ rest) m =
      omega (arith, worker_tasks-sum rest (add_tasks j.tasks m), add_tasks-sum j.tasks m)

worker_stats-sum :
    (N : Type 0) ⦃fl : Float64 N⦄ (m : List (String × List ℕ))
    → sum (map (λ (w : WorkerStat N). w.tasks_done) (worker_stats {N = N} m))
      ≡ sum (map (λ entry. length entry.1) m)
unfolding worker_stats
worker_stats-sum N [] = refl
worker_stats-sum N (entry ∷ rest) = omega (arith, worker_stats-sum N rest)

module _ {N : Type 0} ⦃fl : Float64 N⦄ where
  -- a worker's statistics, from the jobs
  abbrev pub IsTallied : List (String × Job N) → WorkerStat N → Type 0
  IsTallied jobs w =
      (w.tasks_done ≡ length (durations_of w.id jobs))
      × (w.avg_ms
          ≡ average (sum_from (pos 0) (durations_of w.id jobs)) (length (durations_of w.id jobs)))

  worker_stats-IsTallied :
      (jobs : List (String × Job N)) (m : List (String × List ℕ))
      → All (λ entry. entry.1 ≡ durations_of entry.0 jobs) m
      → All (IsTallied jobs) (worker_stats {N = N} m)
  unfolding worker_stats
  worker_stats-IsTallied jobs [] h = tt
  worker_stats-IsTallied jobs (entry ∷ rest) h =
      ((ap length h.0, rw h.0 refl), worker_stats-IsTallied jobs rest h.1)

  -- The statistics count, for each status, the jobs that have it, and all of them together are the
  -- number of jobs. Each worker that is listed has as many tasks as it has finished in all jobs,
  -- with the average of their durations in order, and the numbers of the workers add up to the
  -- finished tasks that have a worker.
  pub compute_stats_lem :
      (s : Store N)
      → let stats = compute_stats s in
        ((name : String) → count_or_zero (lookup name stats.jobs_by_status) ≡ jobs_with name s.jobs)
        × (sum (map (λ entry. entry.1) stats.jobs_by_status) ≡ stats.total_jobs)
        × All (IsTallied s.jobs) stats.workers
        × (sum (map (λ w. w.tasks_done) stats.workers) ≡ all_counted s.jobs)
  unfolding compute_stats
  compute_stats_lem s =
      let tasks = worker_tasks s.jobs [] in
      (
        λ name. by_status-count name s.jobs [] ∙ rw (lookup-nil {V = ℕ} name) (omega arith),
        by_status-sum s.jobs [] ∙ omega arith,
        worker_stats-IsTallied s.jobs tasks (
            All-imp (λ entry. lookup entry.0 tasks ≡ some entry.1)
              (λ entry. entry.1 ≡ durations_of entry.0 s.jobs) tasks
              (λ entry found.
                rw (found, lookup-nil {V = List ℕ} entry.0) at
                  (worker_tasks-durations entry.0 s.jobs []))
              (All-found tasks (worker_tasks-IsUnique s.jobs [] tt))),
        worker_stats-sum N tasks ∙ worker_tasks-sum s.jobs [] ∙ omega arith,
      )
