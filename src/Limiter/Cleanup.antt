-- ===== src/Limiter/Cleanup.antt =====
-- What cleanup changes for the clients: a bucket that it drops is full again by then.
use text.Mathlib.Text.{◌==◌ as str_eq}
use text.Mathlib.TextEquality.{eq_iff}
use swarm_compute.Base.{
  ℕ, ◌-◌, ◌≤◌, ◌≡◌, refl, sym, ◌∙◌, String, List, [], ◌∷◌, none, some, Option-cases, Bool, true,
  false, Bool-cases, inl, inr, ◌⊎◌, arith,
}
use swarm_compute.Base.Int.{ℤ, pos, ◌-ℤ◌}
use swarm_compute.Base.Map.{lookup}
use swarm_compute.Base.Float64.{Float64, FloatLaws, FloatArith, const_f, lt_f}
use swarm_compute.Limiter.{
  RateBucket, RateLimiter, is_stale, stale_after, cleanup, new_bucket, refill, take_token, allow,
}
use swarm_compute.Limiter.Laws.{
  IsClock, IsFilled, IsSteady, elapsed_lem, All-lookup, lookup-drop_stale,
}
use swarm_compute.Limiter.Steady.{le_refl, le_of_not_lt, const-le, later-IsSteady, allow-IsSteady}
use swarm_compute.Limiter.Clients.{served, allow-served}

-- Requests at times that do not fall, from a time on.
abbrev pub IsInOrder : ℕ → List (String × ℕ) → Type 0
IsInOrder now [] = Unit
IsInOrder now ((ip, later) ∷ rest) = (now ≤ later) × IsInOrder later rest

module _ {N : Type 0} ⦃fl : Float64 N⦄ (seconds : ℤ → N) where
  -- the answers to requests in turn
  unfoldable pub answers : List (String × ℕ) → RateLimiter N → List Bool
  answers [] rl = []
  answers ((ip, now) ∷ rest) rl =
      let (granted, rl') = allow seconds ip now rl in granted ∷ answers rest rl'

-- What is left of a limiter when stale buckets are dropped.
abbrev pub IsTrimmed : {N : Type 0} → ℕ → RateLimiter N → RateLimiter N → Type 0
IsTrimmed {N = N} cut rl rl' =
    (rl'.rate ≡ rl.rate)
    × (rl'.burst ≡ rl.burst)
    × ((ip : String)
        → (lookup ip rl'.buckets ≡ lookup ip rl.buckets)
          ⊎ ((lookup ip rl'.buckets ≡ none)
              × ((b : RateBucket N) × (lookup ip rl.buckets ≡ some b) × (is_stale cut b ≡ true))))

module _ {N : Type 0} ⦃fl : Float64 N⦄ (laws : FloatLaws N) (arith_laws : FloatArith N)
    (seconds : ℤ → N) (clock : IsClock N seconds) where
  stale-full :
      (rl : RateLimiter N) (cut later : ℕ) (b : RateBucket N)
      → cut ≤ later
      → is_stale cut b ≡ true
      → fl.le_f (const_f 0) rl.rate ≡ true
      → fl.le_f (const_f 1) rl.burst ≡ true
      → fl.le_f rl.burst (fl.mul_f (const_f 600) rl.rate) ≡ true
      → IsFilled rl later b
      → fl.le_f rl.burst
          (fl.add_f b.tokens (fl.mul_f (seconds (pos later -ℤ pos b.last_time)) rl.rate))
        ≡ true
  stale-full rl cut later b h stale rate_pos burst_pos fills (debt, room, rate, burst, past) =
      let elapsed = seconds (pos later -ℤ pos b.last_time) in
      let long : fl.le_f (const_f 600) elapsed ≡ true =
        rw (elapsed_lem later b.last_time past) (
          rw clock.ten_minutes at (clock.grows stale_after (later - b.last_time) (ground arith))) in
      let gain : fl.le_f (fl.mul_f (const_f 600) rl.rate) (fl.mul_f elapsed rl.rate) ≡ true =
        arith_laws.mul_mono (const_f 600) elapsed rl.rate rl.rate
          (const-le laws arith_laws 0 600 (omega arith) (omega arith)) long rate_pos
          (le_refl laws arith_laws rl.rate) in
      let enough = laws.trans rl.burst _ _ fills gain in
      let above =
        arith_laws.add_mono (const_f 0) b.tokens (fl.mul_f elapsed rl.rate)
          (fl.mul_f elapsed rl.rate) debt (le_refl laws arith_laws (fl.mul_f elapsed rl.rate)) in
      laws.trans rl.burst _ _ enough (
        rw
          (arith_laws.zero_add (fl.mul_f elapsed rl.rate)
            (laws.trans (const_f 1) _ _ burst_pos enough))
          at above)

  -- A request that finds a stale bucket is served as one that finds none.
  stale-served :
      (rl : RateLimiter N) (cut later : ℕ) (b : RateBucket N)
      → cut ≤ later
      → is_stale cut b ≡ true
      → fl.le_f (const_f 0) rl.rate ≡ true
      → fl.le_f (const_f 1) rl.burst ≡ true
      → fl.le_f rl.burst (fl.mul_f (const_f 600) rl.rate) ≡ true
      → IsFilled rl later b
      → take_token (refill seconds later b) ≡ (true, new_bucket later rl)
  unfolding take_token refill
  stale-served rl cut later b h stale rate_pos burst_pos fills filled =
      let (debt, room, rate, burst, past) = filled in
      let tokens = fl.add_f b.tokens (fl.mul_f (seconds (pos later -ℤ pos b.last_time)) rl.rate) in
      let full = stale-full rl cut later b h stale rate_pos burst_pos fills filled in
      let has_token : lt_f rl.burst (const_f 1) ≡ false = ground arith in
      elim (Bool-cases (lt_f rl.burst tokens)) [
        | inl over ↦ rw (take_token, refill, rate, burst, over, has_token) refl
        | inr fits ↦
            let exact : tokens ≡ rl.burst = sym (
              arith_laws.antisym rl.burst tokens burst_pos full
                (le_of_not_lt laws arith_laws rl.burst tokens fits)) in
            rw (take_token, refill, rate, burst, fits, exact, has_token) refl
      ]

  served-IsTrimmed :
      (ip : String) (cut later : ℕ) (rl rl' : RateLimiter N)
      → cut ≤ later
      → fl.le_f rl.burst (fl.mul_f (const_f 600) rl.rate) ≡ true
      → IsSteady later rl
      → IsTrimmed cut rl rl'
      → served seconds later rl' (lookup ip rl'.buckets)
        ≡ served seconds later rl (lookup ip rl.buckets)
  unfolding served
  served-IsTrimmed ip cut later rl rl' h fills (rate_pos, burst_pos, filled, once)
        (rate, burst, left) =
      elim (left ip) [
        | inl same ↦ elim (Option-cases (lookup ip rl.buckets)) [
          | inl e ↦ rw (same, e, served, rate, burst) refl
          | inr (b, e) ↦ rw (same, e, served) refl
        ]
        | inr (gone, (b, e, stale)) ↦
            rw (gone, e, served, rate, burst)
              (sym (
                stale-served rl cut later b h stale rate_pos burst_pos fills
                  (All-lookup (IsFilled rl later) ip rl.buckets b filled e)))
      ]

  allow-IsTrimmed :
      (ip : String) (cut later : ℕ) (rl rl' : RateLimiter N)
      → cut ≤ later
      → fl.le_f rl.burst (fl.mul_f (const_f 600) rl.rate) ≡ true
      → IsSteady later rl
      → IsTrimmed cut rl rl'
      → ((allow seconds ip later rl').0 ≡ (allow seconds ip later rl).0)
        × IsTrimmed cut (allow seconds ip later rl).1 (allow seconds ip later rl').1
  allow-IsTrimmed ip cut later rl rl' h fills steady trimmed =
      let same = served-IsTrimmed ip cut later rl rl' h fills steady trimmed in
      let (answer, found, others, rate, burst) = allow-served seconds ip later rl in
      let (answer', found', others', rate', burst') = allow-served seconds ip later rl' in
      (
        answer' ∙ rw same (sym answer),
        (
          rate' ∙ trimmed.0 ∙ sym rate,
          burst' ∙ trimmed.1 ∙ sym burst,
          λ other. elim (Bool-cases (str_eq ip other)) [
            | inl e ↦
                let key : ip ≡ other = ground (eq_iff ip other, arith) in
                inl (rw (sym key, found, found', same) refl)
            | inr e ↦ rw (others other e, others' other e) (trimmed.2 other)
          ],
        ),
      )

  answers-IsTrimmed :
      (reqs : List (String × ℕ)) (cut now : ℕ) (rl rl' : RateLimiter N)
      → cut ≤ now
      → fl.le_f rl.burst (fl.mul_f (const_f 600) rl.rate) ≡ true
      → IsInOrder now reqs
      → IsSteady now rl
      → IsTrimmed cut rl rl'
      → answers seconds reqs rl' ≡ answers seconds reqs rl
  unfolding answers
  answers-IsTrimmed [] cut now rl rl' h fills order steady trimmed = refl
  answers-IsTrimmed ((ip, later) ∷ rest) cut now rl rl' h fills (h', order) steady trimmed =
      let steady' = later-IsSteady laws arith_laws seconds clock rl now later h' steady in
      let (same, trimmed') =
        allow-IsTrimmed ip cut later rl rl' (omega arith) fills steady' trimmed in
      let (answer, found, others, rate, burst) = allow-served seconds ip later rl in
      rw
        (
          same,
          answers-IsTrimmed rest cut later (allow seconds ip later rl).1
              (allow seconds ip later rl').1 (omega arith) (rw (rate, burst) fills) order
              (allow-IsSteady laws arith_laws seconds clock ip now later rl h' steady).0 trimmed',
        )
        refl

  cleanup-IsTrimmed :
      (now : ℕ) (rl : RateLimiter N) → IsSteady now rl → IsTrimmed now rl (cleanup now rl)
  unfolding cleanup
  cleanup-IsTrimmed now rl (rate_pos, burst_pos, filled, once) = (
    refl,
    refl,
    λ ip. elim (Option-cases (lookup ip rl.buckets)) [
      | inl e ↦ inl (lookup-drop_stale ip now rl.buckets once ∙ rw e refl)
      | inr (b, e) ↦ elim (Bool-cases (is_stale now b)) [
        | inl stale ↦
            inr (lookup-drop_stale ip now rl.buckets once ∙ rw (e, stale) refl, (b, e, stale))
        | inr fresh ↦ inl (lookup-drop_stale ip now rl.buckets once ∙ rw (e, fresh) refl)
      ]
    ],
  )

  -- A cleanup changes no answer: to any requests at times that do not fall, from the time of the
  -- cleanup on, the limiter answers with the cleanup what it answers without it. No bucket has a
  -- debt, more than its burst, other settings than the limiter, or a time to come; the burst is at
  -- least 1, and ten minutes give it back; float64 rounds monotonically, and Duration.Seconds does
  -- not fall and is exact at ten minutes.
  pub answers-cleanup :
      (now : ℕ) (rl : RateLimiter N) (reqs : List (String × ℕ))
      → IsSteady now rl
      → fl.le_f rl.burst (fl.mul_f (const_f 600) rl.rate) ≡ true
      → IsInOrder now reqs
      → answers seconds reqs (cleanup now rl) ≡ answers seconds reqs rl
  answers-cleanup now rl reqs steady fills order =
      answers-IsTrimmed reqs now now rl (cleanup now rl) (omega arith) fills order steady
        (cleanup-IsTrimmed now rl steady)
