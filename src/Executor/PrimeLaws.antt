-- ===== src/Executor/PrimeLaws.antt =====
-- isPrime decides primality.
use Prim.Native.Nat.{◌∣◌}
use Prim.Native.Nat.mul
use native.Mathlib.Decide.{dec_le, ℕ_discrete}
use native.Mathlib.Nat.{
  dvd_trans, dvd_of_mod-eq-zero, mod-eq-zero_of_dvd, dvd-mul_right, div-mul_cancel,
}
use swarm_compute.Base.{
  ℕ, zero, suc, ◌+◌, ◌-◌, ◌*◌, ◌/◌, ◌%◌, ◌≤◌, ◌<◌, ◌≡◌, ◌≢◌, ◌↔◌, ◌⊎◌, inl, inr, refl, subst, true,
  Bool-cases, ltb, leb, arith,
}
use swarm_compute.Executor.Prime.{isqrt, trial, is_prime}

-- at least 2, and no divisor but 1 and itself
abbrev pub IsPrime : ℕ → Type 0
IsPrime n = (2 ≤ n) × ((d : ℕ) → 2 ≤ d → d < n → n % d ≢ 0)

-- isqrt rounds the square root down
isqrt_lem : (n : ℕ) → (isqrt n * isqrt n ≤ n) × (n < (isqrt n + 1) * (isqrt n + 1))
unfolding isqrt
isqrt_lem zero = omega arith
isqrt_lem (suc n) = elim (Bool-cases (leb ((isqrt n + 1) * (isqrt n + 1)) (suc n))) [
  | inl e ↦ rw e (ground (arith, isqrt_lem n))
  | inr e ↦ rw e (ground (arith, isqrt_lem n))
]

-- what the loop has tested when it passes
trial_passed :
    (fuel limit n i k : ℕ)
    → trial fuel limit n i ≡ true
    → limit < i + 6 * fuel
    → i + 6 * k ≤ limit
    → (n % (i + 6 * k) ≢ 0) × (n % (i + 6 * k + 2) ≢ 0)
unfolding trial
trial_passed zero limit n i k h f le = absurd (omega arith)
trial_passed (suc fuel) limit n i zero h f le =
    let same : i + 6 * 0 ≡ i = omega arith in rw same (ground arith, ground arith)
trial_passed (suc fuel) limit n i (suc k) h f le =
    let same : i + 6 + 6 * k ≡ i + 6 * suc k = omega arith in
    rw (← same) (trial_passed fuel limit n (i + 6) k (ground arith) (omega arith) (omega arith))

-- the loop passes where no tested number divides
trial_passes :
    (fuel limit n i : ℕ)
    → 2 ≤ i
    → limit + 2 < n
    → ((d : ℕ) → 2 ≤ d → d < n → n % d ≢ 0)
    → trial fuel limit n i ≡ true
unfolding trial
trial_passes zero limit n i h l p = refl
trial_passes (suc fuel) limit n i h l p =
    ground (arith, trial_passes fuel limit n (i + 6) (omega arith) l p, p i, p (i + 2))

not-mod_of_dvd : (p d n : ℕ) → n % p ≢ 0 → n % d ≡ 0 → d % p ≢ 0
not-mod_of_dvd p d n h k e =
    h (mod-eq-zero_of_dvd p (dvd_trans p (dvd_of_mod-eq-zero p e) (dvd_of_mod-eq-zero d k)))

residue :
    (d : ℕ)
    → 2 ≤ d
    → d % 2 ≢ 0
    → d % 3 ≢ 0
    → ((k : ℕ) × (d ≡ 5 + 6 * k)) ⊎ ((k : ℕ) × (d ≡ 5 + 6 * k + 2))
residue d h o t = elim (ℕ_discrete (d % 6) 5) [
  | yes p ↦ inl ((d - 5) / 6, omega arith)
  | no q ↦ inr ((d - 7) / 6, omega arith)
]

-- Two numbers above the root have a product above n.
product_above : (n r a b : ℕ) → n < (r + 1) * (r + 1) → r < a → r < b → n < a * b
product_above n r a b h p q = grind arith

cofactor_ge : (n q d : ℕ) → q * d ≡ n → 0 < n → d < n → 2 ≤ q
cofactor_ge n zero d e h lt = absurd (omega (arith, mul.zero d))
cofactor_ge n (suc zero) d e h lt = absurd (omega (arith, mul.suc 0 d, mul.zero d))
cofactor_ge n (suc (suc q)) d e h lt = omega arith

module _ (n : ℕ) (odd : n % 2 ≢ 0) (no_three : n % 3 ≢ 0)
    (passed : trial (isqrt n) (isqrt n) n 5 ≡ true) where
  -- no number from 2 to the root divides: it is 5 or 7 above a multiple of 6, if it is no multiple of
  -- 2 or 3, and has been tested then
  no_small : (d : ℕ) → 2 ≤ d → d ≤ isqrt n → n % d ≢ 0
  no_small d h le e =
      let d_odd = not-mod_of_dvd 2 d n odd e in
      let d_no_three = not-mod_of_dvd 3 d n no_three e in
      elim (residue d h d_odd d_no_three) [
        | inl (k, five) ↦
            (trial_passed (isqrt n) (isqrt n) n 5 k passed (omega arith) (omega arith)).0
              (rw (← five) e)
        | inr (k, seven) ↦
            (trial_passed (isqrt n) (isqrt n) n 5 k passed (omega arith) (omega arith)).1
              (rw (← seven) e)
      ]

  -- of a divisor and its cofactor one is at most the root
  no_divisor : (d : ℕ) → 2 ≤ d → d < n → n % d ≢ 0
  no_divisor d h lt e = elim (dec_le d (isqrt n)) [
    | yes small ↦ no_small d h small e
    | no large ↦
        let whole : n / d * d ≡ n = div-mul_cancel d (dvd_of_mod-eq-zero d e) in
        let divides : n % (n / d) ≡ 0 =
          mod-eq-zero_of_dvd (n / d) (subst (λ m. n / d ∣ m) whole (dvd-mul_right (n / d) d)) in
        elim (dec_le (n / d) (isqrt n)) [
          | yes small ↦
              no_small (n / d) (cofactor_ge n (n / d) d whole (omega arith) lt) small divides
          | no large' ↦ absurd (
              omega (
                arith,
                product_above n (isqrt n) (n / d) d (isqrt_lem n).1 (omega arith) (omega arith),
              ))
        ]
  ]

small-IsPrime : (n : ℕ) → 2 ≤ n → n < 4 → IsPrime n
small-IsPrime n h l = (h, λ d two below e. two_not_three n d two below l e)
  where
    two_not_three : (n d : ℕ) → 2 ≤ d → d < n → n < 4 → n % d ≡ 0 → ⊥
    two_not_three n d two below l e =
        let is_two : d ≡ 2 = omega arith in let odd : n % 2 ≡ 0 = rw is_two at e in omega arith

root_below : (n r : ℕ) → r * r ≤ n → 5 ≤ n → r + 2 < n
root_below n zero h l = omega arith
root_below n (suc zero) h l = omega arith
root_below n (suc (suc zero)) h l = omega arith
root_below n (suc (suc (suc r))) h l = grind arith

is_prime-IsPrime : (n : ℕ) → is_prime n ≡ true → IsPrime n
unfolding is_prime
is_prime-IsPrime n h = elim (Bool-cases (ltb n 4)) [
  | inl low ↦ small-IsPrime n (ground arith) (ground arith)
  | inr high ↦ (ground arith, no_divisor n (ground arith) (ground arith) (ground arith))
]

IsPrime-is_prime : (n : ℕ) → IsPrime n → is_prime n ≡ true
unfolding is_prime
IsPrime-is_prime n (two, no_div) = elim (Bool-cases (ltb n 4)) [
  | inl low ↦ ground arith
  | inr high ↦
      let odd : n % 2 ≢ 0 = no_div 2 (omega arith) (ground arith) in
      let no_three : n % 3 ≢ 0 = no_div 3 (omega arith) (ground arith) in
      let five : 5 ≤ n = ground arith in
      let passes =
        trial_passes (isqrt n) (isqrt n) n 5 (omega arith)
          (root_below n (isqrt n) (isqrt_lem n).0 five) no_div in
      ground arith
]

-- isPrime holds of the prime numbers and of no other natural numbers.
pub is_prime_lem : (n : ℕ) → (is_prime n ≡ true) ↔ IsPrime n
is_prime_lem n = (is_prime-IsPrime n, IsPrime-is_prime n)
