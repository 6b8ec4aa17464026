-- ===== src/Center/InitLaws.antt =====
-- The task types that a center knows have a splitter, an aggregator and an executor.
use text.Mathlib.Text.{◌==◌ as str_eq}
use text.Mathlib.TextEquality.{eq_iff}
use swarm_compute.Base.{
  ℕ, ◌≡◌, refl, subst, String, List, [], ◌∷◌, Option, none, some, Option-cases, Bool, true, false,
  Bool-cases, inl, inr, ok, All, arith,
}
use swarm_compute.Base.Map.{lookup, insert, All-insert}
use swarm_compute.Base.Float64.{Float64}
use swarm_compute.Splitter.{splitters}
use swarm_compute.Aggregator.{aggregators}
use swarm_compute.Executor.{executors}
use swarm_compute.Executor.GoLibrary.{Runtime}
use swarm_compute.Scheduler.Types.{TaskType, Job, JobSubmitRequest, Store}
use swarm_compute.Scheduler.Create.{create_job}
use swarm_compute.Scheduler.CreateLaws.{create_job_lem}
use swarm_compute.Center.Init.{builtins, add_types, init_builtin_task_types}

abbrev pub is_some {ℓ} : {A : Type ℓ} → Option A → Bool
is_some none = false
is_some (some _) = true

module _ {N : Type 0} ⦃fl : Float64 N⦄ (rt : Runtime N) where
  -- The center has a splitter and an aggregator for the type, and a worker has an executor.
  abbrev pub IsSupported : String → Type 0
  IsSupported type_id =
      (is_some (splitters {N = N} type_id) ≡ true)
      × (is_some (aggregators {N = N} type_id) ≡ true)
      × (is_some (executors rt type_id) ≡ true)

  builtins-IsSupported : All (λ t. IsSupported t.type_id) builtins
  unfolding splitters aggregators executors
  builtins-IsSupported = (
    (refl, refl, refl),
    (
      (refl, refl, refl),
      (
        (refl, refl, refl),
        ((refl, refl, refl), ((refl, refl, refl), ((refl, refl, refl), ((refl, refl, refl), tt)))),
      ),
    ),
  )

  add_types-IsSupported :
      (ts : List TaskType) (m : List (String × TaskType))
      → All (λ t. IsSupported t.type_id) ts
      → All (λ entry. IsSupported entry.0) m
      → All (λ entry. IsSupported entry.0) (add_types ts m)
  unfolding add_types
  add_types-IsSupported [] m h hs = hs
  add_types-IsSupported (t ∷ ts) m h hs = elim (Option-cases (lookup t.type_id m)) [
    | inl e ↦
        rw (e, add_types)
          (add_types-IsSupported ts (insert t.type_id t m) h.1
            (All-insert (λ (entry : String × TaskType). IsSupported entry.0) t.type_id t m h.0 hs))
    | inr (old, e) ↦ rw (e, add_types) (add_types-IsSupported ts m h.1 hs)
  ]

  lookup-IsSupported :
      (key : String) (m : List (String × TaskType)) (t : TaskType)
      → All (λ entry. IsSupported entry.0) m
      → lookup key m ≡ some t
      → IsSupported key
  unfolding lookup
  lookup-IsSupported key [] t hs e = cc
  lookup-IsSupported key (entry ∷ rest) t hs e = elim (Bool-cases (str_eq entry.0 key)) [
    | inl same ↦
        let found : entry.0 ≡ key = ground (eq_iff entry.0 key, arith) in
        subst IsSupported found hs.0
    | inr other ↦ lookup-IsSupported key rest t hs.1 (rw other at e)
  ]

  -- If every task type on disk has a splitter, an aggregator and an executor of the workers, then
  -- so has the type of every job that is accepted after the built-in types have been added, and
  -- every type of the store that this leaves.
  pub accepted-IsSupported :
      (s : Store N) (req : JobSubmitRequest N) (id : String) (now : ℕ) (job : Job N) (s' : Store N)
      → All (λ entry. IsSupported entry.0) s.task_types
      → create_job req id now (init_builtin_task_types s) ≡ ok (job, s')
      → IsSupported req.type_id × All (λ entry. IsSupported entry.0) s'.task_types
  unfolding init_builtin_task_types
  accepted-IsSupported s req id now job s' hs accepted =
      let types = (init_builtin_task_types s).task_types in
      let all_types : All (λ entry. IsSupported entry.0) types =
        add_types-IsSupported builtins s.task_types builtins-IsSupported hs in
      let good = (create_job_lem req id now (init_builtin_task_types s)).1 (job, s') accepted in
      let (named, (type, known), valid) = good in
      let (job', stored, run, _, _, _, _, _, _, same) =
        (create_job_lem req id now (init_builtin_task_types s)).0 good in
      let final : stored ≡ s' = cc in
      (
        lookup-IsSupported req.type_id types type all_types known,
        subst (λ (x : Store N). All (λ entry. IsSupported entry.0) x.task_types) final
            (rw same all_types),
      )
