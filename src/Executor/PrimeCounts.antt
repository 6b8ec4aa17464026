-- ===== src/Executor/PrimeCounts.antt =====
-- The numbers of primes that the executor of prime-count returns.
use swarm_compute.Base.{
  ℕ, zero, suc, ◌+◌, ◌-◌, ◌^◌, ◌≤◌, ◌≡◌, refl, sym, ap, ◌∙◌, List, [], map, some, true, false,
  Bool-cases, inl, inr, Result, ok, ltb, if◌then◌else◌, max, arith,
}
use swarm_compute.Base.Int.{ℤ, pos, negsuc, pos_part, neg_part, ◌+ℤ◌, ◌-ℤ◌, ◌≤ℤ◌, ltb_ℤ, IsExact}
use swarm_compute.Base.Value.{Value, Fields, num, obj, field, end, array, get, as_num}
use swarm_compute.Base.Float64.{Float64, const_f}
use swarm_compute.Executor.Prime.{is_prime, keep_last, prime_loop, num_of, count_range}

-- The number of primes below a number.
abbrev pub primes_below : ℕ → ℕ
primes_below zero = 0
primes_below (suc k) = if is_prime k then primes_below k + 1 else primes_below k

primes_below-add : (k j : ℕ) → primes_below (k + j) ≤ primes_below k + j
primes_below-add k zero = let same : k + 0 ≡ k = omega arith in rw same (omega arith)
primes_below-add k (suc j) =
    let same : k + suc j ≡ suc (k + j) = omega arith in
    elim (Bool-cases (is_prime (k + j))) [
      | inl e ↦ rw (same, e) (omega (arith, primes_below-add k j))
      | inr e ↦ rw (same, e) (omega (arith, primes_below-add k j))
    ]

primes_below_two : (k : ℕ) → k ≤ 2 → primes_below k ≡ 0
unfolding is_prime
primes_below_two zero h = refl
primes_below_two (suc zero) h = refl
primes_below_two (suc (suc zero)) h = refl
primes_below_two (suc (suc (suc k))) h = absurd (omega arith)

prime_loop_lem :
    (left n count : ℕ) (primes : List ℕ)
    → (prime_loop left n count primes).0 + primes_below n ≡ count + primes_below (n + left)
unfolding prime_loop
prime_loop_lem zero n count primes = let same : n + 0 ≡ n = omega arith in rw same
prime_loop_lem (suc left) n count primes =
    let same : n + suc left ≡ n + 1 + left = omega arith in
    let one : n + 1 ≡ suc n = omega arith in
    elim (Bool-cases (is_prime n)) [
      | inl e ↦
          let rest = prime_loop_lem left (n + 1) (count + 1) (keep_last primes n) in
          let below : primes_below (n + 1) ≡ primes_below n + 1 = rw (one, e) in
          rw (e, prime_loop, same) (omega (arith, rest, below))
      | inr e ↦
          let rest = prime_loop_lem left (n + 1) count primes in
          let below : primes_below (n + 1) ≡ primes_below n = rw (one, e) in
          rw (e, prime_loop, same) (omega (arith, rest, below))
    ]

-- the number after a last one, 0 if that is negative
abbrev pub after_last : ℤ → ℕ
after_last to = pos_part (to +ℤ pos 1)

-- the first number that the executor tests
abbrev clamp : ℤ → ℤ
clamp from = if ltb_ℤ from (pos 2) then pos 2 else from

after_last_empty : (b : ℤ) (f : ℕ) → ltb_ℤ b (pos f) ≡ true → max f (after_last b) ≡ f
unfolding ◌+ℤ◌
after_last_empty (pos k) f h = ground arith
after_last_empty (negsuc k) f h = ground arith

after_last_some :
    (b : ℤ) (f : ℕ) → ltb_ℤ b (pos f) ≡ false → max f (after_last b) ≡ f + (pos_part b + 1 - f)
unfolding ◌+ℤ◌
after_last_some (pos k) f h = ground arith
after_last_some (negsuc k) f h = ground arith

after_last_above : (b : ℤ) (k : ℕ) → pos k ≤ℤ b → max k (after_last b) ≡ after_last b
unfolding ◌+ℤ◌
after_last_above (pos j) k h = ground arith
after_last_above (negsuc j) k h = absurd (omega arith)

pub after_last_le : (b : ℤ) → IsExact b → after_last b ≤ 2 ^ 53 + 1
unfolding ◌+ℤ◌
after_last_le (pos j) h = ground arith
after_last_le (negsuc j) h = ground arith

pub IsExact-between : (lo hi x : ℤ) → IsExact lo → IsExact hi → lo ≤ℤ x → x ≤ℤ hi → IsExact x
IsExact-between lo hi (pos k) l h below above = (omega arith, omega arith)
IsExact-between lo hi (negsuc k) l h below above = (omega arith, omega arith)

in_limit :
    (b : ℤ) (f : ℕ) → b ≤ℤ pos (f + 100_000_000) → ltb_ℤ (pos 100_000_000) (b -ℤ pos f) ≡ false
unfolding ◌-ℤ◌
in_limit (pos k) f h = ground arith
in_limit (negsuc k) f h = ground arith

module _ {N : Type 0} ⦃fl : Float64 N⦄ where
  -- the count that an output has
  abbrev pub HasCount : ℕ → Value N → Type 0
  HasCount c out = (m : Fields N) × (out ≡ obj m) × (as_num (get "count" m) ≡ some (const_f c))

  count_range_pos :
      (f : ℕ) (b : ℤ)
      → 2 ≤ f
      → b ≤ℤ pos (f + 100_000_000)
      → (c : ℕ) × (out : Value N) × (count_range (pos f) b ≡ ok out)
        × HasCount c out
        × (c + primes_below f ≡ primes_below (max f (after_last b)))
  unfolding count_range
  count_range_pos f b two short =
      let same : ltb_ℤ (pos f) (pos 2) ≡ false = ground arith in
      elim (Bool-cases (ltb_ℤ b (pos f))) [
        | inl empty ↦
            let last : max f (after_last b) ≡ f = after_last_empty b f empty in
            (
              0,
              obj (field "count" (num_of 0) (field "primes" (array []) end)),
              rw (same, empty),
              (field "count" (num_of 0) (field "primes" (array []) end), refl, refl),
              rw last (omega arith),
            )
        | inr some_numbers ↦
            let fits : ltb_ℤ (pos 100_000_000) (b -ℤ pos f) ≡ false = in_limit b f short in
            let last : max f (after_last b) ≡ f + (pos_part b + 1 - f) =
              after_last_some b f some_numbers in
            let (count, primes) = prime_loop (pos_part b + 1 - f) f 0 [] in
            let m = field "count" (num_of count) (
              field "from" (num (fl.of_int (pos f))) (
                field "to" (num (fl.of_int b)) (field "sample" (array (map num_of primes)) end))) in
            (
              count,
              obj m,
              rw (same, some_numbers, fits),
              (m, refl, refl),
              rw last (prime_loop_lem (pos_part b + 1 - f) f 0 [] ∙ omega arith),
            )
      ]

  count_range-clamp :
      (a b : ℤ) (f : ℕ) → clamp a ≡ pos f → 2 ≤ f → count_range {N = N} a b ≡ count_range (pos f) b
  unfolding count_range
  count_range-clamp a b f e two = let same : clamp (pos f) ≡ pos f = ground arith in rw (e, same)

max_two : (x : ℕ) → primes_below (max 2 x) ≡ primes_below x
max_two x = elim (Bool-cases (ltb 2 x)) [
  | inl more ↦ let same : max 2 x ≡ x = ground arith in rw same
  | inr few ↦
      let same : max 2 x ≡ 2 = ground arith in
      rw same (primes_below_two 2 (omega arith) ∙ sym (primes_below_two x (ground arith)))
]

pub primes_below_le : (x : ℕ) → primes_below x ≤ x - 2
primes_below_le x = elim (Bool-cases (ltb 2 x)) [
  | inl more ↦
      let same : 2 + (x - 2) ≡ x = ground arith in
      omega (arith, rw same at (primes_below-add 2 (x - 2)), primes_below_two 2 (omega arith))
  | inr few ↦ omega (arith, primes_below_two x (ground arith))
]

-- `b` is at most `a` + 100,000,000.
abbrev pub IsWithin : ℤ → ℤ → Type 0
IsWithin a b = pos_part b + neg_part a ≤ pos_part a + neg_part b + 100_000_000

module _ {N : Type 0} ⦃fl : Float64 N⦄ where
  -- What a part from `a` to `b` brings.
  abbrev pub IsCounted : ℤ → ℤ → Result (Value N) → Type 0
  IsCounted a b result =
      (c : ℕ) × (out : Value N) × (result ≡ ok out)
      × HasCount c out
      × (c + primes_below (pos_part a) ≡ primes_below (after_last b))

  count_low :
      (a b : ℤ)
      → clamp a ≡ pos 2
      → pos_part a ≤ 2
      → IsWithin (pos 2) b
      → IsCounted a b (count_range a b)
  count_low a b e low short =
      let (c, out, run, says, sum) = count_range_pos {N = N} 2 b (omega arith) (omega arith) in
      (
        c,
        out,
        count_range-clamp a b 2 e (omega arith) ∙ run,
        says,
        omega (
          arith,
          sum,
          max_two (after_last b),
          primes_below_two 2 (omega arith),
          primes_below_two (pos_part a) low,
        ),
      )

  pub count_range_lem : (a b : ℤ) → a ≤ℤ b → IsWithin a b → IsCounted a b (count_range a b)
  count_range_lem (negsuc k) b le short =
      count_low (negsuc k) b (ground arith) (omega arith) (omega arith)
  count_range_lem (pos k) b le short = elim (Bool-cases (ltb k 2)) [
    | inl low ↦ count_low (pos k) b (ground arith) (ground arith) (ground arith)
    | inr high ↦
        let (c, out, run, says, sum) = count_range_pos {N = N} k b (ground arith) (omega arith) in
        let after : max k (after_last b) ≡ after_last b = after_last_above b k le in
        (c, out, run, says, sum ∙ ap primes_below after)
  ]
