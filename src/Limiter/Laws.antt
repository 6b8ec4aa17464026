-- ===== src/Limiter/Laws.antt =====
-- What holds of every bucket of a rate limiter.
use text.Mathlib.Text.{◌==◌ as str_eq}
use text.Mathlib.TextEquality.{eq_iff}
use swarm_compute.Base.{
  ℕ, ◌-◌, ◌≤◌, ◌≡◌, refl, ◌∙◌, String, List, [], ◌∷◌, Option, none, some, true, Bool-cases, inl,
  inr, if◌then◌else◌, All, arith, subst,
}
use swarm_compute.Base.Int.{ℤ, pos, ◌-ℤ◌, eq_of_parts, int_laws}
use swarm_compute.Base.Map.{lookup, IsUnique}
use swarm_compute.Base.Float64.{Float64, const_f}
use swarm_compute.Limiter.{RateBucket, RateLimiter, drop_stale, is_stale, stale_after}

-- Duration.Seconds does not fall, and is exact at nothing and at ten minutes.
pub record IsClock (N : Type 0) ⦃fl : Float64 N⦄ (seconds : ℤ → N) : Type 0 where
  pub none_passed : seconds (pos 0) ≡ const_f 0
  pub ten_minutes : seconds (pos stale_after) ≡ const_f 600
  pub grows : (a b : ℕ) → a ≤ b → fl.le_f (seconds (pos a)) (seconds (pos b)) ≡ true

pub elapsed_lem : (now last : ℕ) → last ≤ now → pos now -ℤ pos last ≡ pos (now - last)
elapsed_lem now last h = eq_of_parts _ _ (omega int_laws)

module _ {N : Type 0} ⦃fl : Float64 N⦄ where
  -- A bucket has no debt and at most its burst, the limiter's settings, and a time that has been.
  abbrev pub IsFilled : RateLimiter N → ℕ → RateBucket N → Type 0
  IsFilled rl now b =
      (fl.le_f (const_f 0) b.tokens ≡ true)
      × (fl.le_f b.tokens b.burst ≡ true)
      × (b.rate_per_sec ≡ rl.rate)
      × (b.burst ≡ rl.burst)
      × (b.last_time ≤ now)

  -- The settings make sense, every bucket is filled within them, and no client has two.
  abbrev pub IsSteady : ℕ → RateLimiter N → Type 0
  IsSteady now rl =
      (fl.le_f (const_f 0) rl.rate ≡ true)
      × (fl.le_f (const_f 1) rl.burst ≡ true)
      × All (λ entry. IsFilled rl now entry.1) rl.buckets
      × IsUnique rl.buckets

pub All-lookup {ℓ κ} :
    {V : Type ℓ} (P : V → Type κ) (key : String) (m : List (String × V)) (v : V)
    → All (λ entry. P entry.1) m
    → lookup key m ≡ some v
    → P v
unfolding lookup
All-lookup P key [] v hs e = cc
All-lookup P key (entry ∷ rest) v hs e = elim (Bool-cases (str_eq entry.0 key)) [
  | inl same ↦ let found : entry.1 ≡ v = ground arith in subst P found hs.0
  | inr other ↦ All-lookup P key rest v hs.1 (ground arith)
]

module _ {N : Type 0} (P : RateBucket N → Type 0) where
  pub All-drop_stale :
      (now : ℕ) (m : List (String × RateBucket N))
      → All (λ entry. P entry.1) m
      → All (λ entry. P entry.1) (drop_stale now m)
  unfolding drop_stale
  All-drop_stale now [] hs = tt
  All-drop_stale now (entry ∷ rest) hs = elim (Bool-cases (is_stale now entry.1)) [
    | inl e ↦ rw e (All-drop_stale now rest hs.1)
    | inr e ↦ rw e (hs.0, All-drop_stale now rest hs.1)
  ]

-- What cleanup leaves of a client's bucket.
abbrev pub kept : {N : Type 0} → ℕ → Option (RateBucket N) → Option (RateBucket N)
kept now none = none
kept now (some b) = if is_stale now b then none else some b

module _ {N : Type 0} where
  pub lookup-drop_stale :
      (ip : String) (now : ℕ) (m : List (String × RateBucket N))
      → IsUnique m
      → lookup ip (drop_stale now m) ≡ kept now (lookup ip m)
  unfolding drop_stale lookup
  lookup-drop_stale ip now [] u = refl
  lookup-drop_stale ip now (entry ∷ rest) u = elim (Bool-cases (is_stale now entry.1)) [
    | inl gone ↦ elim (Bool-cases (str_eq entry.0 ip)) [
      | inl same ↦
          let key : entry.0 ≡ ip = ground (eq_iff entry.0 ip, arith) in
          let behind : lookup ip rest ≡ none = subst (λ k. lookup k rest ≡ none) key u.0 in
          rw (gone, same, gone, lookup-drop_stale ip now rest u.1, behind) refl
      | inr other ↦ rw (gone, other) (lookup-drop_stale ip now rest u.1)
    ]
    | inr stays ↦ elim (Bool-cases (str_eq entry.0 ip)) [
      | inl same ↦ rw (stays, same, stays) refl
      | inr other ↦ rw (stays, other) (lookup-drop_stale ip now rest u.1)
    ]
  ]

  pub drop_stale-IsUnique :
      (now : ℕ) (m : List (String × RateBucket N)) → IsUnique m → IsUnique (drop_stale now m)
  unfolding drop_stale
  drop_stale-IsUnique now [] u = tt
  drop_stale-IsUnique now (entry ∷ rest) u = elim (Bool-cases (is_stale now entry.1)) [
    | inl e ↦ rw e (drop_stale-IsUnique now rest u.1)
    | inr e ↦
        rw e
          (lookup-drop_stale entry.0 now rest u.1 ∙ rw u.0 refl, drop_stale-IsUnique now rest u.1)
  ]
