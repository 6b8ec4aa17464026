-- ===== src/Executor/Pi.antt =====
-- site/server/exec_pi.go.
use swarm_compute.Base.{ℕ, zero, suc, ◌+◌, ◌*◌, none, some, Result, ok, err, errorf, if◌then◌else◌}
use swarm_compute.Base.Int.{pos_part}
use swarm_compute.Base.Value.{Value, num, obj, Fields, end, field, get, as_num}
use swarm_compute.Base.Float64.{Float64, const_f, lt_f}
use swarm_compute.Executor.GoLibrary.{Runtime}

module _ {N : Type 0} ⦃fl : Float64 N⦄ where
  -- `for i := 0; i < n; i++`, with `left` rounds to go: round `i` takes draws 2 i and 2 i + 1
  unfoldable pub inside_loop : Runtime N → ℕ → ℕ → ℕ → ℕ
  inside_loop rt zero i inside = inside
  inside_loop rt (suc left) i inside =
      let x = rt.draw (2 * i) in
      let y = rt.draw (2 * i + 1) in
      inside_loop rt left (i + 1) (
        if fl.le_f (fl.add_f (fl.mul_f x x) (fl.mul_f y y)) (const_f 1) then inside + 1 else inside)

  -- Past the guards `int(samples)` is positive.
  unfoldable pub execute_pi_estimate : Runtime N → Fields N → Result (Value N)
  unfolding inside_loop
  execute_pi_estimate rt input = elim (get "samples" input) [
    | none ↦ err (errorf "input.samples is required")
    | some samples_raw ↦ elim (as_num (some samples_raw)) [
      | none ↦ err (errorf "input.samples must be a positive number")
      | some samples ↦
          let n = pos_part (fl.to_int samples) in
          if lt_f samples (const_f 1)
          then err (errorf "input.samples must be a positive number")
          else if lt_f (const_f 1_000_000_000) samples
          then err (errorf "input.samples too large (max 1e9)")
          else ok (
              obj (
                field "inside" (num (const_f (inside_loop rt n 0 0)))
                  (field "total" (num (const_f n)) end)))
    ]
  ]
