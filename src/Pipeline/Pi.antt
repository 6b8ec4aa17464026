-- ===== src/Pipeline/Pi.antt =====
-- The pi-estimate job: splitPiEstimate, executePiEstimate and aggregatePiEstimate together.
use native.Mathlib.Nat.{div-eq_of_lt}
use swarm_compute.Base.{
  ℕ, zero, suc, ◌-◌, ◌≤◌, ◌<◌, ◌≡◌, some, false, Error, err, errorf, ◌==◌, arith,
}
use swarm_compute.Base.Int.{pos, ltb_ℤ}
use swarm_compute.Base.Value.{Fields, num, get}
use swarm_compute.Base.Float64.{Float64, FloatLaws, const_f}
use swarm_compute.Splitter.Samples.{split_pi_estimate, sample_chunk, shares_from, share}
use swarm_compute.Executor.GoLibrary.{Runtime}
use swarm_compute.Executor.Pi.{execute_pi_estimate}
use swarm_compute.Aggregator.Totals.{aggregate_pi_estimate}
use swarm_compute.Pipeline.{map_reduce}

abbrev pub no_share : Error
no_share = errorf "input.samples must be a positive number"

-- With fewer samples than workers the first worker gets none.
few_shares : (t l : ℕ) → t < suc (suc l) → share t (suc (suc l)) 0 ≡ 0
few_shares t l h =
    let first : (0 == suc (suc l) - 1) ≡ false = ground arith in rw first (div-eq_of_lt h)

module _ {N : Type 0} ⦃fl : Float64 N⦄ (laws : FloatLaws N) (rt : Runtime N) where
  execute_no_samples : execute_pi_estimate rt (sample_chunk 0) ≡ err no_share
  unfolding execute_pi_estimate
  execute_no_samples =
      let below : fl.le_f (const_f 1) (const_f 0) ≡ false =
        laws.le_exact (pos 1) (pos 0) (omega arith, omega arith) (omega arith, omega arith) in
      rw below

  -- A pi-estimate job on at least one sample and fewer samples than workers always fails with the
  -- error of a worker that gets no samples. Whole numbers up to 2^53 are compared exactly as
  -- float64.
  pub few_samples_fail :
      (input : Fields N) (x : N) (t n : ℕ)
      → get "samples" input ≡ some (num x)
      → fl.to_int x ≡ pos t
      → 1 ≤ t
      → t < n
      → map_reduce split_pi_estimate (execute_pi_estimate rt) aggregate_pi_estimate input n
        ≡ err no_share
  unfolding split_pi_estimate shares_from
  few_samples_fail input x t zero e h k l = absurd (omega arith)
  few_samples_fail input x t (suc zero) e h k l = absurd (omega arith)
  few_samples_fail input x t (suc (suc n)) e h k l =
      let enough : ltb_ℤ (pos t) (pos 1) ≡ false = ground arith in
      let some_worker : (suc (suc n) == 0) ≡ false = ground arith in
      rw (e, split_pi_estimate, h, enough, some_worker, few_shares t n l, execute_no_samples)
