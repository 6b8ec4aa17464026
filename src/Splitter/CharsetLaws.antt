-- ===== src/Splitter/CharsetLaws.antt =====
-- The index ranges of a hash-crack job.
use native.Mathlib.Nat.{le-div_iff_mul-le, mul-div-le}
use swarm_compute.Base.{
  ℕ, zero, suc, ◌+◌, ◌-◌, ◌*◌, ◌/◌, ◌≤◌, ◌<◌, ◌≡◌, refl, sym, subst, ap, List, [], ◌∷◌, true, false,
  length, arith, ltb, ◌==◌, if◌then◌else◌,
}
use swarm_compute.Splitter.Charset.{index_ranges_from, index_ranges}

-- The ranges follow one another without a gap, none of them empty, from `lo` up to but not with `hi`.
abbrev pub Partitions : ℕ → ℕ → List (ℕ × ℕ) → Type 0
Partitions lo hi [] = lo ≡ hi
Partitions lo hi ((a, b) ∷ rest) = (a ≡ lo) × (a < b) × Partitions b hi rest

step_below : (i p : ℕ) → 0 < p → i * p < (i + 1) * p
step_below i p h = grind arith

module _ (c n : ℕ) (some_worker : 0 < n) (enough : n ≤ c) where
  per_pos : 0 < c / n
  per_pos = (le-div_iff_mul-le {x = 1} some_worker).1 (omega arith)

  per_fits : n * (c / n) ≤ c
  per_fits = mul-div-le c n

  ranges_from-Partitions :
      (left i : ℕ)
      → i + suc left ≡ n
      → Partitions (i * (c / n)) c (index_ranges_from c n (suc left) i)
  unfolding index_ranges_from
  ranges_from-Partitions zero i e =
      let last : (i == n - 1) ≡ true = ground arith in
      let fits : (i + 1) * (c / n) ≤ c = subst (λ (m : ℕ). m * (c / n) ≤ c) (sym e) per_fits in
      rw last (refl, omega (arith, step_below i (c / n) per_pos), refl)
  ranges_from-Partitions (suc left) i e =
      let not_last : (i == n - 1) ≡ false = ground arith in
      rw not_last
        (refl, step_below i (c / n) per_pos, ranges_from-Partitions left (i + 1) (omega arith))

length-index_ranges_from : (c n left i : ℕ) → length (index_ranges_from c n left i) ≡ left
unfolding index_ranges_from
length-index_ranges_from c n zero i = refl
length-index_ranges_from c n (suc left) i = ap suc (length-index_ranges_from c n left (i + 1))

clipped-Partitions :
    (c m n : ℕ)
    → 0 < m
    → m ≤ c
    → m ≤ n
    → Partitions 0 c (index_ranges_from c m m 0) × (length (index_ranges_from c m m 0) ≤ n)
clipped-Partitions c zero n h k l = absurd (omega arith)
clipped-Partitions c (suc m) n h k l =
    let start : 0 * (c / suc m) ≡ 0 = grind arith in
    (
      rw start at (ranges_from-Partitions c (suc m) h k m 0 (omega arith)),
      omega (arith, length-index_ranges_from c (suc m) (suc m) 0),
    )

-- The index ranges of a hash-crack job with a charset that is not empty and at least one worker
-- follow one another without a gap from 0 to the size of the charset, none of them empty, and
-- there are at most as many as workers.
pub index_ranges-Partitions :
    (c n : ℕ) → 0 < c → 0 < n → Partitions 0 c (index_ranges c n) × (length (index_ranges c n) ≤ n)
unfolding index_ranges
index_ranges-Partitions c n h k =
    let m : ℕ = if ltb c n then c else n in
    clipped-Partitions c m n (ground arith) (ground arith) (ground arith)
