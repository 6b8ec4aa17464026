-- ===== src/Splitter/Ranges.antt =====
-- splitPrimeCount of center/server/splitter.go, with the wrap-around of `int`.
use swarm_compute.Base.{
  ℕ, zero, suc, ◌+◌, ◌-◌, List, [], ◌∷◌, map, none, some, Result, ok, err, panic, errorf, ◌>>=◌,
  ◌==◌, ◌||◌, if◌then◌else◌,
}
use swarm_compute.Base.Int.{ℤ, pos, ◌+ℤ◌, ◌-ℤ◌, leb_ℤ, ltb_ℤ, quot, int64}
use swarm_compute.Base.Value.{num, Fields, end, field, get, must_num}
use swarm_compute.Base.Float64.{Float64}

-- The end of a sub-range: `to` in the last round, and never past `to`.
unfoldable pub range_end : ℕ → ℤ → ℤ → ℕ → ℤ → ℤ
unfolding ◌+ℤ◌ ◌-ℤ◌ int64
range_end n to per_worker i cur =
    let end = int64 (cur +ℤ per_worker -ℤ pos 1) in if i == n - 1 || ltb_ℤ to end then to else end

-- `for i := 0; i < n && cur <= to; i++`, with `left` rounds to go
unfoldable pub ranges_from : ℕ → ℤ → ℤ → ℕ → ℕ → ℤ → List (ℤ × ℤ)
unfolding range_end
ranges_from n to per_worker zero i cur = []
ranges_from n to per_worker (suc left) i cur =
    let end = range_end n to per_worker i cur in
    let rest = ranges_from n to per_worker left (i + 1) (int64 (end +ℤ pos 1)) in
    if leb_ℤ cur to then (cur, end) ∷ rest else []

-- The size of a sub-range, at least 1.
unfoldable pub range_step : ℤ → ℤ → ℕ → ℤ
unfolding ◌+ℤ◌ ◌-ℤ◌ int64 quot
range_step from to n =
    let per_worker = quot (int64 (to -ℤ from +ℤ pos 1)) n in
    if ltb_ℤ per_worker (pos 1) then pos 1 else per_worker

module _ {N : Type 0} ⦃fl : Float64 N⦄ where
  abbrev pub range_chunk : ℤ × ℤ → Fields N
  range_chunk (from, to) = field "from" (num (fl.of_int from)) (field "to" (num (fl.of_int to)) end)

  unfoldable pub split_prime_count : Fields N → ℕ → Result (List (Fields N))
  unfolding ranges_from range_step
  split_prime_count input n = elim (get "from" input) [
    | none ↦ err (errorf "input.from is required")
    | some from_raw ↦ elim (get "to" input) [
      | none ↦ err (errorf "input.to is required")
      | some to_raw ↦ do
        from_f ← must_num from_raw
        to_f ← must_num to_raw
        let from = fl.to_int from_f
        let to = fl.to_int to_f
        if ltb_ℤ to from
            then err (errorf "from must be <= to")
            else if n == 0
            then panic
            else ok (map range_chunk (ranges_from n to (range_step from to n) n 0 from))
    ]
  ]
