-- ===== src/Pipeline/Prime.antt =====
-- The prime-count job: splitPrimeCount, executePrimeCount and aggregatePrimeCount together.
use swarm_compute.Base.{
  ℕ, ◌+◌, ◌^◌, ◌≤◌, ◌<◌, ◌≡◌, refl, ap, ◌∙◌, List, [], ◌∷◌, map, some, false, ok, map_m, ◌==◌,
  arith,
}
use swarm_compute.Base.Int.{
  ℤ, pos, pos_part, ◌+ℤ◌, ◌≤ℤ◌, ltb_ℤ, int64-small, int_laws, eq_of_parts, IsExact,
}
use swarm_compute.Base.Value.{Value, Fields, num, obj, field, end, array, get, as_num}
use swarm_compute.Base.Float64.{Float64, FloatLaws, const_f}
use swarm_compute.Splitter.Ranges.{split_prime_count, range_chunk, ranges_from, range_step}
use swarm_compute.Splitter.RangeLaws.{Covers, ranges-Covers}
use swarm_compute.Executor.Prime.{execute_prime_count}
use swarm_compute.Aggregator.Totals.{
  PrimeTotals, no_primes, last_n, prime_totals, prime_step, aggregate_prime_count,
}
use swarm_compute.Base.Sort.{sort_floats}
use swarm_compute.Pipeline.{map_reduce}
use swarm_compute.Executor.PrimeCounts.{
  primes_below, after_last, HasCount, IsCounted, IsWithin, primes_below_le, after_last_le,
  IsExact-between, count_range_lem,
}

module _ {N : Type 0} ⦃fl : Float64 N⦄ (laws : FloatLaws N) where
  execute_prime_count-chunk :
      (a b : ℤ)
      → IsExact a
      → IsExact b
      → a ≤ℤ b
      → IsWithin a b
      → IsCounted {N = N} a b (execute_prime_count (range_chunk (a, b)))
  unfolding execute_prime_count
  execute_prime_count-chunk a b ea eb le short =
      rw (laws.int_exact a ea, laws.int_exact b eb) (count_range_lem a b le short)

  -- One more output in the totals.
  add_output :
      (k c : ℕ) (s : PrimeTotals N) (m : Fields N)
      → s.total_count ≡ pos k
      → k + c ≤ 2 ^ 55
      → c ≤ 2 ^ 53
      → as_num (get "count" m) ≡ some (const_f c)
      → (prime_step s m).total_count ≡ pos (k + c)
  unfolding prime_step
  add_output k c s m e small exact h =
      rw (e, h, laws.int_exact (pos c) (omega arith, omega arith))
        (int64-small (pos k +ℤ pos c) (omega int_laws, omega int_laws)
          ∙ eq_of_parts _ _ (omega int_laws))

  -- The parts of a range from `cur` on, executed and added up.
  ranges_lem :
      (from to : ℤ) (ranges : List (ℤ × ℤ)) (cur : ℤ)
      → IsExact from
      → IsExact to
      → IsWithin from to
      → from ≤ℤ cur
      → Covers cur to ranges
      → (outs : List (Value N)) × (map_m execute_prime_count (map range_chunk ranges) ≡ ok outs)
        × ((k : ℕ) (s : PrimeTotals N)
            → s.total_count ≡ pos k
            → k + primes_below (after_last to) ≤ primes_below (pos_part cur) + 2 ^ 54
            → (total : ℕ) × ((prime_totals outs s).total_count ≡ pos total)
              × (total + primes_below (pos_part cur) ≡ k + primes_below (after_last to)))
  unfolding prime_totals
  ranges_lem from to [] cur ef et short le covers =
      ([], refl, λ k s e room. (k, e, ap (λ (x : ℤ). k + primes_below (pos_part x)) covers))
  ranges_lem from to ((a, b) ∷ rest) cur ef et short le (same, up, within, covers) =
      let low : from ≤ℤ a = rw same le in
      let ea = IsExact-between from to a ef et low (omega arith) in
      let eb = IsExact-between from to b ef et (omega arith) within in
      let (c, out, run, (m, shape, count), sum) =
        execute_prime_count-chunk a b ea eb up (omega arith) in
      let balance : c + primes_below (pos_part cur) ≡ primes_below (after_last b) =
        rw same at sum in
      let (outs, ran, adds) =
        ranges_lem from to rest (b +ℤ pos 1) ef et short (omega int_laws) covers in
      let few : primes_below (after_last b) ≤ 2 ^ 53 =
        omega (arith, primes_below_le (after_last b), after_last_le b eb) in
      let first : primes_below (pos_part cur) ≤ 2 ^ 53 = omega arith in
      (
        out ∷ outs,
        rw (run, ran),
        λ k s e room.
            let step = add_output k c s m e (omega arith) (omega arith) count in
            let (total, sums, rest_sum) = adds (k + c) (prime_step s m) step (omega arith) in
            (total, rw shape sums, omega arith),
      )

  aggregate_lem :
      (outs : List (Value N)) (total : ℕ)
      → (prime_totals outs no_primes).total_count ≡ pos total
      → (out : Value N) × (aggregate_prime_count outs ≡ ok out) × HasCount total out
  unfolding aggregate_prime_count
  aggregate_lem outs total sums =
      let s = prime_totals outs no_primes in
      let m = field "count" (num (fl.of_int s.total_count)) (
        field "from" (num (fl.of_int (fl.to_int s.min_from))) (
          field "to" (num (fl.of_int (fl.to_int s.max_to)))
            (field "sample" (array (map num (last_n 20 (sort_floats s.all_samples)))) end))) in
      (obj m, refl, (m, refl, rw sums))

  -- For at least one worker, a prime-count job on a range that is not empty, spans at most
  -- 100,000,000, and has bounds of at most 2^53 in size, returns a count that, with the primes
  -- below the first number, makes up the number of primes up to the last one, where isPrime says
  -- what is prime. Whole numbers up to 2^53 are exact as float64.
  pub prime_job_lem :
      (input : Fields N) (x y : N) (from to : ℤ) (n : ℕ)
      → get "from" input ≡ some (num x)
      → get "to" input ≡ some (num y)
      → fl.to_int x ≡ from
      → fl.to_int y ≡ to
      → IsExact from
      → IsExact to
      → from ≤ℤ to
      → IsWithin from to
      → 0 < n
      → (total : ℕ) × (out : Value N) × (map_reduce split_prime_count execute_prime_count
            aggregate_prime_count input n
          ≡ ok out)
        × HasCount total out
        × (total + primes_below (pos_part from) ≡ primes_below (after_last to))
  unfolding split_prime_count
  prime_job_lem input x y from to n hx hy ex ey ef et le short some_worker =
      let ranges = ranges_from n to (range_step from to n) n 0 from in
      let covers = (ranges-Covers from to n ef et le some_worker).0 in
      let (outs, ran, adds) = ranges_lem from to ranges from ef et short (omega arith) covers in
      let few = primes_below_le (after_last to) in
      let (total, sums, balance) =
        adds 0 no_primes refl (omega (arith, few, after_last_le to et)) in
      let ordered : ltb_ℤ to from ≡ false = ground arith in
      let not_none : (n == 0) ≡ false = ground arith in
      let (out, answer, says) = aggregate_lem outs total sums in
      (
        total,
        out,
        rw (hx, hy, split_prime_count, ex, ey, ordered, not_none, ran) answer,
        says,
        omega arith,
      )
