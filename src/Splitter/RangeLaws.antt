-- ===== src/Splitter/RangeLaws.antt =====
-- The sub-ranges of a prime-count job.
use native.Mathlib.Nat.{div-le_self}
use swarm_compute.Base.{
  ℕ, zero, suc, ◌+◌, ◌-◌, ◌≤◌, ◌<◌, ◌^◌, ◌≡◌, refl, ap, subst, List, [], ◌∷◌, inl, inr, ◌⊎◌, ◌∙◌,
  true, false, Bool, Bool-cases, length, arith, ◌==◌, ◌||◌, if◌then◌else◌,
}
use swarm_compute.Base.Int.{
  ℤ, pos, negsuc, ◌+ℤ◌, ◌-ℤ◌, ◌≤ℤ◌, leb_ℤ, ltb_ℤ, quot, int64, int64-small, IsSmall, IsExact,
  int_laws, eq_of_parts, leb_ℤ→le, leb_ℤ→lt, pos_part, neg_part,
}
use swarm_compute.Splitter.Ranges.{range_end, ranges_from, range_step}

-- The ranges follow one another without a gap, none of them empty, from `cur` up to `to`.
abbrev pub Covers : ℤ → ℤ → List (ℤ × ℤ) → Type 0
Covers cur to [] = cur ≡ to +ℤ pos 1
Covers cur to ((a, b) ∷ rest) = (a ≡ cur) × (a ≤ℤ b) × (b ≤ℤ to) × Covers (b +ℤ pos 1) to rest

-- The end of a sub-range: `e`, and `to` in the last round and past it.
abbrev clip : ℤ → Bool → ℤ → ℤ
clip to last e = if last || ltb_ℤ to e then to else e

clip_lem :
    (to : ℤ) (last : Bool) (e cur : ℤ)
    → cur ≤ℤ to
    → cur ≤ℤ e
    → (cur ≤ℤ clip to last e) × (clip to last e ≤ℤ to) × (last ≡ true → clip to last e ≡ to)
clip_lem to true e cur h k = (h, omega arith, λ _. refl)
clip_lem to false e cur h k = elim (Bool-cases (ltb_ℤ to e)) [
  | inl past ↦ rw past (h, omega arith, λ _. refl)
  | inr fits ↦ rw fits (k, ground arith, λ bad. cc)
]

clip-cases : (to : ℤ) (last : Bool) (e : ℤ) → (clip to last e ≡ to) ⊎ (clip to last e ≡ e)
clip-cases to true e = inl refl
clip-cases to false e = elim (Bool-cases (ltb_ℤ to e)) [
  | inl past ↦ rw past (inl refl)
  | inr fits ↦ rw fits (inr refl)
]

-- All ranges but the last hold `per` numbers.
abbrev pub IsStepped : ℤ → List (ℤ × ℤ) → Type 0
IsStepped per [] = Unit
IsStepped per ((a, b) ∷ rest) = ((rest ≡ []) ⊎ (b ≡ a +ℤ per -ℤ pos 1)) × IsStepped per rest

-- The numbers of a range divided by the workers, rounded down, and at least 1.
abbrev pub equal_part : ℤ → ℤ → ℕ → ℤ
equal_part from to n =
    let part = quot (to -ℤ from +ℤ pos 1) n in if ltb_ℤ part (pos 1) then pos 1 else part

-- At least -2^53.
abbrev IsLow : ℤ → Type 0
IsLow a = neg_part a ≤ pos_part a + 2 ^ 53

module _ (n : ℕ) (to per : ℤ) (per_pos : pos 1 ≤ℤ per) (per_small : per ≤ℤ pos (2 ^ 54 + 1))
    (to_exact : IsExact to) where
  past_end : (cur : ℤ) → cur ≤ℤ to → IsLow cur → IsSmall (cur +ℤ per -ℤ pos 1)
  past_end cur h k = (omega int_laws, omega int_laws)

  next-IsSmall : (cur end : ℤ) → end ≤ℤ to → cur ≤ℤ end → IsLow cur → IsSmall (end +ℤ pos 1)
  next-IsSmall cur end h k l = (omega int_laws, omega int_laws)

  range_end_lem :
      (i : ℕ) (cur : ℤ)
      → cur ≤ℤ to
      → IsLow cur
      → (cur ≤ℤ range_end n to per i cur)
        × (range_end n to per i cur ≤ℤ to)
        × (i ≡ n - 1 → range_end n to per i cur ≡ to)
  unfolding range_end
  range_end_lem i cur h k =
      let (above, below, last) =
        clip_lem to (i == n - 1) (cur +ℤ per -ℤ pos 1) cur h (omega int_laws) in
      rw (int64-small (cur +ℤ per -ℤ pos 1) (past_end cur h k))
        (above, below, λ e. last (ground arith))

  -- The start is `to` + 1, or less while rounds are left.
  ranges_from-Covers :
      (left i : ℕ) (cur : ℤ)
      → i + left ≡ n
      → cur ≤ℤ to +ℤ pos 1
      → (left ≡ 0 → cur ≡ to +ℤ pos 1)
      → IsLow cur
      → Covers cur to (ranges_from n to per left i cur)
  unfolding ranges_from
  ranges_from-Covers zero i cur e le done low = done refl
  ranges_from-Covers (suc left) i cur e le done low = elim (Bool-cases (leb_ℤ cur to)) [
    | inl more ↦
        let (above, below, last) = range_end_lem i cur (leb_ℤ→le cur to more) low in
        let end = range_end n to per i cur in
        rw (more, int64-small (end +ℤ pos 1) (next-IsSmall cur end below above low))
          (
            refl,
            above,
            below,
            ranges_from-Covers left (i + 1) (end +ℤ pos 1) (omega arith) (omega int_laws)
                (λ z. ap (λ x. x +ℤ pos 1) (last (omega arith))) (omega int_laws),
          )
    | inr over ↦ rw over (eq_of_parts cur (to +ℤ pos 1) (omega (int_laws, leb_ℤ→lt cur to over)))
  ]

  range_end-cases :
      (i : ℕ) (cur : ℤ)
      → cur ≤ℤ to
      → IsLow cur
      → (range_end n to per i cur ≡ to) ⊎ (range_end n to per i cur ≡ cur +ℤ per -ℤ pos 1)
  unfolding range_end
  range_end-cases i cur h k =
      rw (int64-small (cur +ℤ per -ℤ pos 1) (past_end cur h k))
        (clip-cases to (i == n - 1) (cur +ℤ per -ℤ pos 1))

  ranges_from_past : (left i : ℕ) → ranges_from n to per left i (to +ℤ pos 1) ≡ []
  unfolding ranges_from
  ranges_from_past zero i = refl
  ranges_from_past (suc left) i = elim (Bool-cases (leb_ℤ (to +ℤ pos 1) to)) [
    | inl e ↦ absurd (omega (int_laws, leb_ℤ→le (to +ℤ pos 1) to e))
    | inr over ↦ rw over refl
  ]

  ranges_from-IsStepped :
      (left i : ℕ) (cur : ℤ) → IsLow cur → IsStepped per (ranges_from n to per left i cur)
  unfolding ranges_from
  ranges_from-IsStepped zero i cur low = tt
  ranges_from-IsStepped (suc left) i cur low = elim (Bool-cases (leb_ℤ cur to)) [
    | inl more ↦
        let (above, below, last) = range_end_lem i cur (leb_ℤ→le cur to more) low in
        let end = range_end n to per i cur in
        rw (more, int64-small (end +ℤ pos 1) (next-IsSmall cur end below above low))
          (
            elim (range_end-cases i cur (leb_ℤ→le cur to more) low) [
              | inl e ↦ inl (
                  ap (λ (x : ℤ). ranges_from n to per left (i + 1) (x +ℤ pos 1)) e
                  ∙ ranges_from_past left (i + 1))
              | inr e ↦ inr e
            ],
            ranges_from-IsStepped left (i + 1) (end +ℤ pos 1) (omega int_laws),
          )
    | inr over ↦ rw over tt
  ]

  ranges_from-length : (left i : ℕ) (cur : ℤ) → length (ranges_from n to per left i cur) ≤ left
  unfolding ranges_from
  ranges_from-length zero i cur = omega arith
  ranges_from-length (suc left) i cur = elim (Bool-cases (leb_ℤ cur to)) [
    | inl more ↦
        rw more (
          omega
            (arith, ranges_from-length left (i + 1) (int64 (range_end n to per i cur +ℤ pos 1))))
    | inr over ↦ rw over (omega arith)
  ]

quot-le : (d : ℤ) (n bound : ℕ) → pos 1 ≤ℤ d → d ≤ℤ pos bound → quot d n ≤ℤ pos bound
unfolding quot
quot-le (pos a) n bound h k = omega (arith, div-le_self a n)
quot-le (negsuc a) n bound h k = absurd (omega arith)

at_least_one :
    (q : ℤ) (bound : ℕ)
    → 1 ≤ bound
    → q ≤ℤ pos bound
    → (pos 1 ≤ℤ (if ltb_ℤ q (pos 1) then pos 1 else q))
      × ((if ltb_ℤ q (pos 1) then pos 1 else q) ≤ℤ pos bound)
at_least_one q bound h k = elim (Bool-cases (ltb_ℤ q (pos 1))) [
  | inl e ↦ rw e (omega arith)
  | inr e ↦ rw e (ground arith, omega arith)
]

-- The step is at least 1, and no more than the size of the range.
range_step_lem :
    (from to : ℤ) (n : ℕ)
    → IsExact from
    → IsExact to
    → from ≤ℤ to
    → (pos 1 ≤ℤ range_step from to n) × (range_step from to n ≤ℤ pos (2 ^ 54 + 1))
unfolding range_step
range_step_lem from to n f t h =
    let size = to -ℤ from +ℤ pos 1 in
    rw (int64-small size (omega int_laws, omega int_laws)) (
      at_least_one (quot size n) (2 ^ 54 + 1) (omega arith)
        (quot-le size n (2 ^ 54 + 1) (omega int_laws) (omega int_laws)))

range_step-equal_part :
    (from to : ℤ) (n : ℕ)
    → IsExact from
    → IsExact to
    → from ≤ℤ to
    → range_step from to n ≡ equal_part from to n
unfolding range_step
range_step-equal_part from to n f t h =
    rw (int64-small (to -ℤ from +ℤ pos 1) (omega int_laws, omega int_laws)) refl

-- The sub-ranges of a prime-count job on a range that is not empty, with bounds of at most 2^53 in
-- size and at least one worker, follow one another without a gap from the first number to the
-- last, none of them empty, and there are at most as many as workers. All but the last have the
-- same size: that of the range divided by the number of workers, rounded down, or 1 where that is
-- nothing.
pub ranges-Covers :
    (from to : ℤ) (n : ℕ)
    → IsExact from
    → IsExact to
    → from ≤ℤ to
    → 0 < n
    → Covers from to (ranges_from n to (range_step from to n) n 0 from)
      × (length (ranges_from n to (range_step from to n) n 0 from) ≤ n)
      × IsStepped (equal_part from to n) (ranges_from n to (range_step from to n) n 0 from)
ranges-Covers from to n f t h k =
    let (least, most) = range_step_lem from to n f t h in
    (
      ranges_from-Covers n to (range_step from to n) least most t n 0 from (omega arith)
          (omega int_laws) (λ z. absurd (omega arith)) (omega arith),
      ranges_from-length n to (range_step from to n) least most t n 0 from,
      subst (λ (per : ℤ). IsStepped per (ranges_from n to (range_step from to n) n 0 from))
          (range_step-equal_part from to n f t h)
          (ranges_from-IsStepped n to (range_step from to n) least most t n 0 from (omega arith)),
    )
