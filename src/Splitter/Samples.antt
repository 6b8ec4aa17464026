-- ===== src/Splitter/Samples.antt =====
-- splitPiEstimate of center/server/splitter.go.
use swarm_compute.Base.{
  ℕ, zero, suc, ◌+◌, ◌-◌, ◌*◌, ◌/◌, List, [], ◌∷◌, map, none, some, Result, ok, err, panic, errorf,
  ◌>>=◌, ◌==◌, if◌then◌else◌,
}
use swarm_compute.Base.Int.{pos, pos_part, ltb_ℤ}
use swarm_compute.Base.Value.{num, Fields, end, field, get, must_num}
use swarm_compute.Base.Float64.{Float64, const_f}

-- The share of worker `i` of `n`: the last one gets the remainder.
abbrev pub share : ℕ → ℕ → ℕ → ℕ
share total n i =
    let per_worker = total / n in if i == n - 1 then total - per_worker * (n - 1) else per_worker

-- `for i := 0; i < n; i++`, with `left` rounds to go
unfoldable pub shares_from : ℕ → ℕ → ℕ → ℕ → List ℕ
shares_from total n zero i = []
shares_from total n (suc left) i = share total n i ∷ shares_from total n left (i + 1)

module _ {N : Type 0} ⦃fl : Float64 N⦄ where
  abbrev pub sample_chunk : ℕ → Fields N
  sample_chunk s = field "samples" (num (const_f s)) end

  -- `total / n` panics at n = 0. Past the guard `total` is positive.
  unfoldable pub split_pi_estimate : Fields N → ℕ → Result (List (Fields N))
  split_pi_estimate input n = elim (get "samples" input) [
    | none ↦ err (errorf "input.samples is required")
    | some samples_raw ↦ do
      samples ← must_num samples_raw
      let total = fl.to_int samples
      if ltb_ℤ total (pos 1)
          then err (errorf "input.samples must be positive")
          else if n == 0
          then panic
          else ok (map sample_chunk (shares_from (pos_part total) n n 0))
  ]
