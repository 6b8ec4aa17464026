-- ===== src/Executor/Prime.antt =====
-- site/server/exec_prime.go. Past the clamp to 2 the loop runs on non-negative ints.
use swarm_compute.Base.{
  ℕ, zero, suc, ◌+◌, ◌-◌, ◌*◌, ◌%◌, List, [], ◌∷◌, ◌++◌, map, none, some, Bool, true, false, ◌||◌,
  length, drop, Result, ok, err, errorf, ◌>>=◌, ltb, leb, ◌==◌, if◌then◌else◌,
}
use swarm_compute.Base.Int.{ℤ, pos, ◌-ℤ◌, pos_part, ltb_ℤ}
use swarm_compute.Base.Value.{Value, num, obj, Fields, end, field, array, get, must_num}
use swarm_compute.Base.Float64.{Float64, const_f}

-- `int(math.Sqrt(float64(n)))`: the root rounded down, exact for n below 2^52
unfoldable pub isqrt : ℕ → ℕ
isqrt zero = 0
isqrt (suc n) = let r = isqrt n in if leb ((r + 1) * (r + 1)) (suc n) then r + 1 else r

-- `for i := 5; i <= limit; i += 6`; `limit` rounds are enough
unfoldable pub trial : ℕ → ℕ → ℕ → ℕ → Bool
trial zero limit n i = true
trial (suc fuel) limit n i =
    let rest = trial fuel limit n (i + 6) in
    if ltb limit i then true else if (n % i == 0) || (n % (i + 2) == 0) then false else rest

unfoldable pub is_prime : ℕ → Bool
unfolding isqrt trial
is_prime n =
    if ltb n 2
    then false
    else if ltb n 4
    then true
    else if (n % 2 == 0) || (n % 3 == 0)
    then false
    else trial (isqrt n) (isqrt n) n 5

-- the last 10 primes
abbrev pub keep_last : List ℕ → ℕ → List ℕ
keep_last primes n = if ltb (length primes) 10 then primes ++ n ∷ [] else drop 1 primes ++ n ∷ []

-- `for n := from; n <= to; n++`, with `left` rounds to go: (count, lastPrimes) after it
unfoldable pub prime_loop : ℕ → ℕ → ℕ → List ℕ → ℕ × List ℕ
unfolding is_prime
prime_loop zero n count primes = (count, primes)
prime_loop (suc left) n count primes =
    let p = is_prime n in
    prime_loop left (n + 1) (if p then count + 1 else count)
      (if p then keep_last primes n else primes)

module _ {N : Type 0} ⦃fl : Float64 N⦄ where
  abbrev pub num_of : ℕ → Value N
  num_of n = num (const_f n)

  -- the body past the decoding of the two ints
  unfoldable pub count_range : ℤ → ℤ → Result (Value N)
  unfolding prime_loop ◌-ℤ◌
  count_range from to =
      let from = if ltb_ℤ from (pos 2) then pos 2 else from in
      let (count, primes) = prime_loop (pos_part to + 1 - pos_part from) (pos_part from) 0 [] in
      if ltb_ℤ to from
      then ok (obj (field "count" (num_of 0) (field "primes" (array []) end)))
      else if ltb_ℤ (pos 100_000_000) (to -ℤ from)
      then err (errorf "range too large (max 100M)")
      else ok (
          obj (
            field "count" (num_of count) (
              field "from" (num (fl.of_int from)) (
                field "to" (num (fl.of_int to)) (field "sample" (array (map num_of primes)) end)))))

  unfoldable pub execute_prime_count : Fields N → Result (Value N)
  unfolding count_range
  execute_prime_count input = elim (get "from" input) [
    | none ↦ err (errorf "input.from is required")
    | some from_raw ↦ elim (get "to" input) [
      | none ↦ err (errorf "input.to is required")
      | some to_raw ↦ do
        from ← must_num from_raw
        to ← must_num to_raw
        count_range (fl.to_int from) (fl.to_int to)
    ]
  ]
