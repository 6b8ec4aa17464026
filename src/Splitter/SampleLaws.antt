-- ===== src/Splitter/SampleLaws.antt =====
-- The shares of a pi-estimate job.
use Prim.Native.Nat.mul
use native.Mathlib.Nat.{mul_comm, mul-div-le}
use swarm_compute.Base.{
  ℕ, zero, suc, ◌+◌, ◌-◌, ◌*◌, ◌/◌, ◌≤◌, ◌<◌, ◌≡◌, refl, ◌∙◌, List, map, some, true, false, length,
  sum, ok, arith, ◌==◌, [], ◌∷◌, ◌^◌, ap, length-map,
}
use swarm_compute.Base.Int.{pos, pos_part, ltb_ℤ}
use swarm_compute.Base.Value.{Fields, num, get}
use swarm_compute.Base.Float64.{Float64, FloatLaws, const_f}
use swarm_compute.Splitter.Samples.{shares_from, sample_chunk, split_pi_estimate}

module _ (total n : ℕ) where
  shares_from-sum :
      (left i : ℕ)
      → i + suc left ≡ n
      → sum (shares_from total n (suc left) i) ≡ total - total / n * (n - 1) + left * (total / n)
  unfolding shares_from
  shares_from-sum zero i h =
      let last : (i == n - 1) ≡ true = ground arith in rw last (omega (arith, mul.zero (total / n)))
  shares_from-sum (suc left) i h =
      let early : (i == n - 1) ≡ false = ground arith in
      rw early (omega (arith, shares_from-sum left (i + 1) (omega arith), mul.suc left (total / n)))

  shares_from-length : (left i : ℕ) → length (shares_from total n left i) ≡ left
  unfolding shares_from
  shares_from-length zero i = refl
  shares_from-length (suc left) i = omega (arith, shares_from-length left (i + 1))

add_back : (total q l : ℕ) → suc l * q ≤ total → total - q * (suc l - 1) + l * q ≡ total
add_back total q l h =
    let last : suc l - 1 ≡ l = omega arith in rw last (omega (arith, mul_comm q l, mul.suc l q))

shares-sum : (total n : ℕ) → 0 < n → sum (shares_from total n n 0) ≡ total
shares-sum total zero h = absurd (omega arith)
shares-sum total (suc l) h =
    shares_from-sum total (suc l) l 0 (omega arith)
    ∙ add_back total (total / suc l) l (mul-div-le total (suc l))

module _ {N : Type 0} ⦃fl : Float64 N⦄ where
  -- the samples of a part, as a worker reads them
  abbrev pub samples_of : Fields N → ℕ
  samples_of part = elim (get "samples" part) [ some (num x) ↦ pos_part (fl.to_int x) | _ ↦ 0 ]

  samples_of-chunks :
      (laws : FloatLaws N) (shares : List ℕ)
      → sum shares ≤ 2 ^ 53
      → sum (map samples_of (map sample_chunk shares)) ≡ sum shares
  samples_of-chunks laws [] h = refl
  samples_of-chunks laws (s ∷ shares) h =
      let exact : pos_part (fl.to_int (const_f s)) ≡ s =
        ap pos_part (laws.int_exact (pos s) (omega arith, omega arith)) in
      rw (exact, samples_of-chunks laws shares (omega arith)) refl

  -- A pi-estimate job on at least one sample and at most 2^53 is cut into one part for each
  -- worker, of which there is at least one, and the samples that the workers read from the parts,
  -- as float64, add up to those of the job. float64 is exact on the whole numbers up to 2^53.
  pub split_pi_estimate_lem :
      (laws : FloatLaws N) (input : Fields N) (x : N) (t n : ℕ)
      → get "samples" input ≡ some (num x)
      → fl.to_int x ≡ pos t
      → 1 ≤ t
      → t ≤ 2 ^ 53
      → 0 < n
      → (parts : List (Fields N)) × (split_pi_estimate input n ≡ ok parts)
        × (length parts ≡ n)
        × (sum (map samples_of parts) ≡ t)
  unfolding split_pi_estimate
  split_pi_estimate_lem laws input x t n e h k small l =
      let shares = shares_from t n n 0 in
      let whole : sum shares ≡ t = shares-sum t n l in
      let enough : ltb_ℤ (pos t) (pos 1) ≡ false = ground arith in
      let some_worker : (n == 0) ≡ false = ground arith in
      (
        map sample_chunk shares,
        rw (e, split_pi_estimate, h, enough, some_worker),
        length-map sample_chunk shares ∙ shares_from-length t n n 0,
        samples_of-chunks laws shares (omega (arith, whole)) ∙ whole,
      )
