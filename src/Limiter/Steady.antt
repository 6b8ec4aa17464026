-- ===== src/Limiter/Steady.antt =====
-- A rate limiter keeps its buckets between nothing and the burst.
use swarm_compute.Base.{
  ℕ, ◌^◌, ◌-◌, ◌≤◌, ◌≡◌, refl, ◌∙◌, String, List, [], ◌∷◌, Option-cases, true, false, Bool-cases,
  inl, inr, All, arith,
}
use swarm_compute.Base.Int.{ℤ, pos, ◌-ℤ◌, ◌+ℤ◌}
use swarm_compute.Base.Map.{lookup, insert-IsUnique, All-insert}
use swarm_compute.Base.Float64.{Float64, FloatLaws, FloatArith, const_f, lt_f}
use swarm_compute.Limiter.{RateBucket, RateLimiter, cleanup, new_bucket, refill, take_token, allow}
use swarm_compute.Limiter.Laws.{
  IsClock, IsFilled, IsSteady, elapsed_lem, All-lookup, All-drop_stale, drop_stale-IsUnique,
}

module _ {N : Type 0} ⦃fl : Float64 N⦄ (laws : FloatLaws N) (arith_laws : FloatArith N) where
  pub le_refl : (x : N) → fl.le_f x x ≡ true
  le_refl x = elim (Bool-cases (fl.le_f x x)) [ inl e ↦ e | inr e ↦ laws.total x x e ]

  pub le_of_not_lt : (x y : N) → lt_f x y ≡ false → fl.le_f y x ≡ true
  le_of_not_lt x y h = ground arith

  pub le_of_lt : (x y : N) → lt_f x y ≡ true → fl.le_f x y ≡ true
  le_of_lt x y h = laws.total y x (ground arith)

  -- A whole number below 2^53 is below another as a number.
  pub const-le : (a b : ℕ) → a ≤ b → b ≤ 2 ^ 53 → fl.le_f (const_f a) (const_f b) ≡ true
  const-le a b h k =
      laws.le_exact (pos a) (pos b) (omega arith, omega arith) (omega arith, omega arith)
      ∙ ground arith

  zero_sum : fl.add_f (const_f 0) (const_f 0) ≡ const_f 0
  unfolding ◌+ℤ◌
  zero_sum =
      laws.add_exact (pos 0) (pos 0) (omega arith, omega arith) (omega arith, omega arith)
        (omega arith, omega arith)

  -- What comes back in some time is not negative.
  gain_le :
      (x y : N)
      → fl.le_f (const_f 0) x ≡ true
      → fl.le_f (const_f 0) y ≡ true
      → fl.le_f (const_f 0) (fl.mul_f x y) ≡ true
  gain_le x y h k = rw (arith_laws.mul_whole 0 0 (omega arith) (omega arith) (omega arith)) at (
      arith_laws.mul_mono (const_f 0) x (const_f 0) y (le_refl (const_f 0)) h (le_refl (const_f 0))
        k)

  sum_le :
      (x y : N)
      → fl.le_f (const_f 0) x ≡ true
      → fl.le_f (const_f 0) y ≡ true
      → fl.le_f (const_f 0) (fl.add_f x y) ≡ true
  sum_le x y h k = rw zero_sum at (arith_laws.add_mono (const_f 0) x (const_f 0) y h k)

  -- Taking a token away.
  spent_le : (x : N) → fl.le_f (fl.sub_f x (const_f 1)) x ≡ true
  spent_le x = rw (arith_laws.sub_zero x) at (
      arith_laws.sub_mono x x (const_f 1) (const_f 0) (le_refl x)
        (const-le 0 1 (omega arith) (omega arith)))

  spent_pos :
      (x : N) → fl.le_f (const_f 1) x ≡ true → fl.le_f (const_f 0) (fl.sub_f x (const_f 1)) ≡ true
  spent_pos x h =
      rw (arith_laws.sub_whole 1 1 (omega arith) (omega arith)) at
        (arith_laws.sub_mono (const_f 1) x (const_f 1) (const_f 1) h (le_refl (const_f 1)))

module _ {N : Type 0} ⦃fl : Float64 N⦄ (laws : FloatLaws N) (arith_laws : FloatArith N)
    (seconds : ℤ → N) (clock : IsClock N seconds) (rl : RateLimiter N)
    (rate_pos : fl.le_f (const_f 0) rl.rate ≡ true)
    (burst_pos : fl.le_f (const_f 1) rl.burst ≡ true) where
  IsFilled-later :
      (now later : ℕ) (b : RateBucket N) → now ≤ later → IsFilled rl now b → IsFilled rl later b
  IsFilled-later now later b h (debt, room, rate, burst, past) =
      (debt, room, rate, burst, omega arith)

  elapsed_pos :
      (now last : ℕ) → last ≤ now → fl.le_f (const_f 0) (seconds (pos now -ℤ pos last)) ≡ true
  elapsed_pos now last h =
      rw (elapsed_lem now last h)
        (rw clock.none_passed at (clock.grows 0 (now - last) (omega arith)))

  pub refill-IsFilled :
      (now later : ℕ) (b : RateBucket N)
      → now ≤ later
      → IsFilled rl now b
      → IsFilled rl later (refill seconds later b)
  unfolding refill
  refill-IsFilled now later b h (debt, room, rate, burst, past) =
      let elapsed = seconds (pos later -ℤ pos b.last_time) in
      let tokens = fl.add_f b.tokens (fl.mul_f elapsed b.rate_per_sec) in
      let gained : fl.le_f (const_f 0) (fl.mul_f elapsed b.rate_per_sec) ≡ true =
        gain_le laws arith_laws elapsed b.rate_per_sec (elapsed_pos later b.last_time (omega arith))
          (rw rate rate_pos) in
      elim (Bool-cases (lt_f b.burst tokens)) [
        | inl full ↦ rw full (
          laws.trans (const_f 0) b.tokens b.burst debt room,
          le_refl laws arith_laws b.burst,
          rate,
          burst,
          omega arith,
        )
        | inr fits ↦ rw fits (
          sum_le laws arith_laws b.tokens (fl.mul_f elapsed b.rate_per_sec) debt gained,
          le_of_not_lt laws arith_laws b.burst tokens fits,
          rate,
          burst,
          omega arith,
        )
      ]

  take_token-IsFilled :
      (now : ℕ) (b : RateBucket N) → IsFilled rl now b → IsFilled rl now (take_token b).1
  unfolding take_token
  take_token-IsFilled now b (debt, room, rate, burst, past) =
      elim (Bool-cases (lt_f b.tokens (const_f 1))) [
        | inl empty ↦ rw empty (debt, room, rate, burst, past)
        | inr left ↦ rw left (
          spent_pos laws arith_laws b.tokens
              (le_of_not_lt laws arith_laws b.tokens (const_f 1) left),
          laws.trans (fl.sub_f b.tokens (const_f 1)) b.tokens b.burst
              (spent_le laws arith_laws b.tokens) room,
          rate,
          burst,
          past,
        )
      ]

  new_bucket-IsFilled : (now : ℕ) → IsFilled rl now (new_bucket now rl)
  new_bucket-IsFilled now = (
    spent_pos laws arith_laws rl.burst burst_pos,
    spent_le laws arith_laws rl.burst,
    refl,
    refl,
    omega arith,
  )

module _ {N : Type 0} ⦃fl : Float64 N⦄ (laws : FloatLaws N) (arith_laws : FloatArith N)
    (seconds : ℤ → N) (clock : IsClock N seconds) where
  later-All :
      (rl : RateLimiter N) (now later : ℕ) (m : List (String × RateBucket N))
      → now ≤ later
      → All (λ entry. IsFilled rl now entry.1) m
      → All (λ entry. IsFilled rl later entry.1) m
  later-All rl now later [] h hs = tt
  later-All rl now later (entry ∷ rest) h ((debt, room, rate, burst, past), hs) =
      ((debt, room, rate, burst, omega arith), later-All rl now later rest h hs)

  pub later-IsSteady :
      (rl : RateLimiter N) (now later : ℕ) → now ≤ later → IsSteady now rl → IsSteady later rl
  later-IsSteady rl now later h (rate_pos, burst_pos, filled, once) =
      (rate_pos, burst_pos, later-All rl now later rl.buckets h filled, once)

  -- A request and a cleanup at a later or the same time keep every bucket without a debt, at most
  -- at its burst, with the settings of the limiter and no time to come, and each client with one
  -- bucket at most. The rate is not negative, the burst is at least 1, float64 rounds
  -- monotonically, and Duration.Seconds does not fall.
  pub allow-IsSteady :
      (ip : String) (now later : ℕ) (rl : RateLimiter N)
      → now ≤ later
      → IsSteady now rl
      → IsSteady later (allow seconds ip later rl).1 × IsSteady later (cleanup later rl)
  unfolding allow cleanup
  allow-IsSteady ip now later rl h (rate_pos, burst_pos, filled, once) =
      let filled' = later-All rl now later rl.buckets h filled in
      let filled_entry = λ (entry : String × RateBucket N). IsFilled rl later entry.1 in
      (
        elim (Option-cases (lookup ip rl.buckets)) [
          | inl e ↦
              rw (e, allow)
                (
                  rate_pos,
                  burst_pos,
                  All-insert filled_entry ip (new_bucket later rl) rl.buckets
                      (new_bucket-IsFilled laws arith_laws seconds clock rl rate_pos burst_pos
                        later)
                      filled',
                  insert-IsUnique ip (new_bucket later rl) rl.buckets once,
                )
          | inr (b, e) ↦
              let was : IsFilled rl now b = All-lookup (IsFilled rl now) ip rl.buckets b filled e in
              let refilled =
                refill-IsFilled laws arith_laws seconds clock rl rate_pos burst_pos now later b h
                  was in
              rw (e, allow)
                (
                  rate_pos,
                  burst_pos,
                  All-insert filled_entry ip (take_token (refill seconds later b)).1 rl.buckets
                      (take_token-IsFilled laws arith_laws seconds clock rl rate_pos burst_pos later
                        (refill seconds later b) refilled)
                      filled',
                  insert-IsUnique ip (take_token (refill seconds later b)).1 rl.buckets once,
                )
        ],
        (
          rate_pos,
          burst_pos,
          All-drop_stale (IsFilled rl later) later rl.buckets filled',
          drop_stale-IsUnique later rl.buckets once,
        ),
      )
