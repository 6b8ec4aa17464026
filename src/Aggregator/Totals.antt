-- ===== src/Aggregator/Totals.antt =====
-- aggregatePiEstimate, aggregatePrimeCount and aggregateHashCrack of center/server/aggregator.go.
use swarm_compute.Base.{
  ℕ, ◌-◌, List, [], ◌∷◌, ◌++◌, map, Option, none, some, Bool, true, false, ◌||◌, ◌&&◌, length, drop,
  Result, ok, err, errorf, ltb, if◌then◌else◌,
}
use swarm_compute.Base.Int.{ℤ, pos, ◌+ℤ◌, int64}
use swarm_compute.Base.Value.{
  Value, null, bool, num, str, obj, Fields, end, field, array, get, as_num, as_bool, as_arr, as_obj,
}
use swarm_compute.Base.Float64.{Float64, const_f, lt_f}
use swarm_compute.Base.Sort.{sort_floats}

module _ {N : Type 0} ⦃fl : Float64 N⦄ where
  abbrev pub add_some : N → Option N → N
  add_some x none = x
  add_some x (some v) = fl.add_f x v

  -- (totalInside, totalSamples) after the loop
  unfoldable pub pi_totals : List (Value N) → N → N → N × N
  pi_totals [] inside samples = (inside, samples)
  pi_totals (out ∷ outs) inside samples = elim (as_obj (some out)) [
    | none ↦ pi_totals outs inside samples
    | some m ↦
        pi_totals outs (add_some inside (as_num (get "inside" m)))
          (add_some samples (as_num (get "total" m)))
  ]

  -- x == 0, with no NaN
  abbrev is_zero_f : N → Bool
  is_zero_f x = fl.le_f x (const_f 0) && fl.le_f (const_f 0) x

  unfoldable pub aggregate_pi_estimate : List (Value N) → Result (Value N)
  unfolding pi_totals
  aggregate_pi_estimate outputs =
      let (total_inside, total_samples) = pi_totals outputs (const_f 0) (const_f 0) in
      let pi = fl.div_f (fl.mul_f (const_f 4) total_inside) total_samples in
      if is_zero_f total_samples
      then err (errorf "no samples")
      else ok (
          obj (
            field "pi" (num pi) (
              field "totalInside" (num (fl.of_int (fl.to_int total_inside))) (
                field "totalSamples" (num (fl.of_int (fl.to_int total_samples)))
                  (field "error" (str (fl.sprintf_10f (fl.sub_f fl.pi_f pi))) end)))))

  -- `if c, ok := m[k].(float64); ok { total += int(c) }`
  abbrev pub add_int : ℤ → Option N → ℤ
  add_int total none = total
  add_int total (some c) = int64 (total +ℤ fl.to_int c)

  -- The numbers of a list, other values passed over.
  abbrev pub numbers : List (Value N) → List N
  numbers [] = []
  numbers (num n ∷ vs) = n ∷ numbers vs
  numbers (_ ∷ vs) = numbers vs

-- `found, ok := m["found"].(bool); ok && found`
abbrev pub is_found : Option Bool → Bool
is_found none = false
is_found (some found) = found

-- The variables of the loop of aggregatePrimeCount.
pub record PrimeTotals (N : Type 0) : Type 0 where
  pub total_count : ℤ
  pub all_samples : List N
  pub min_from : N
  pub max_to : N
  pub first : Bool

module _ {N : Type 0} ⦃fl : Float64 N⦄ where
  abbrev pub new_min : Bool → N → Option N → N
  new_min first min_from none = min_from
  new_min first min_from (some f) = if first || lt_f f min_from then f else min_from

  abbrev pub new_max : Bool → N → Option N → N
  new_max first max_to none = max_to
  new_max first max_to (some t) = if first || lt_f max_to t then t else max_to

  abbrev pub samples_of : Option (List (Value N)) → List N
  samples_of none = []
  samples_of (some vs) = numbers vs

  -- the body of the loop, for an output that is a map
  unfoldable pub prime_step : PrimeTotals N → Fields N → PrimeTotals N
  prime_step s m = record {
    total_count = add_int s.total_count (as_num (get "count" m));
    all_samples = s.all_samples ++ samples_of (as_arr (get "sample" m));
    min_from = new_min s.first s.min_from (as_num (get "from" m));
    max_to = new_max s.first s.max_to (as_num (get "to" m));
    first = false;
  }

  unfoldable pub prime_totals : List (Value N) → PrimeTotals N → PrimeTotals N
  unfolding prime_step
  prime_totals [] s = s
  prime_totals (out ∷ outs) s = elim (as_obj (some out)) [
    | none ↦ prime_totals outs s
    | some m ↦ prime_totals outs (prime_step s m)
  ]

  abbrev pub no_primes : PrimeTotals N
  no_primes = record {
    total_count = pos 0;
    all_samples = [];
    min_from = const_f 0;
    max_to = const_f 0;
    first = true;
  }

  -- `xs[len(xs)-n:]` if there are more than `n`
  abbrev pub last_n : ℕ → List N → List N
  last_n n xs = if ltb n (length xs) then drop (length xs - n) xs else xs

  unfoldable pub aggregate_prime_count : List (Value N) → Result (Value N)
  unfolding prime_totals sort_floats
  aggregate_prime_count outputs =
      let s = prime_totals outputs no_primes in
      ok (
        obj (
          field "count" (num (fl.of_int s.total_count)) (
            field "from" (num (fl.of_int (fl.to_int s.min_from))) (
              field "to" (num (fl.of_int (fl.to_int s.max_to)))
                (field "sample" (array (map num (last_n 20 (sort_floats s.all_samples)))) end)))))

  -- a nil interface is sent as null
  abbrev pub or_null : Option (Value N) → Value N
  or_null none = null
  or_null (some v) = v

  -- The loop of aggregateHashCrack, with `totalTried`; it returns at the first success.
  unfoldable pub crack_loop : List (Value N) → ℤ → Value N
  crack_loop [] tried =
      obj (field "found" (bool false) (field "totalTried" (num (fl.of_int tried)) end))
  crack_loop (out ∷ outs) tried = elim (as_obj (some out)) [
    | none ↦ crack_loop outs tried
    | some m ↦
        let tried = add_int tried (as_num (get "tried" m)) in
        let rest = crack_loop outs tried in
        if is_found (as_bool (get "found" m))
        then obj (
            field "found" (bool true) (
              field "value" (or_null (get "value" m))
                (field "totalTried" (num (fl.of_int tried)) end)))
        else rest
  ]

  unfoldable pub aggregate_hash_crack : List (Value N) → Result (Value N)
  unfolding crack_loop
  aggregate_hash_crack outputs = ok (crack_loop outputs (pos 0))
