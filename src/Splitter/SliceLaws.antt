-- ===== src/Splitter/SliceLaws.antt =====
-- What the chunks of a slice are: a partition into at most `n` non-empty pieces.
use Prim.Native.Nat.mul
use native.Mathlib.Decide.{dec_le}
use native.Mathlib.Nat.{le_trans, le-div_iff_mul-le}
use swarm_compute.Base.{
  ℕ, zero, suc, ◌+◌, ◌-◌, ◌*◌, ◌≤◌, ◌<◌, max, List, [], ◌∷◌, ◌++◌, ◌≡◌, refl, sym, ap,
  length-append, inl, inr, length, drop, concat, All, ltb, leb, ◌==◌, if◌then◌else◌, Bool-cases,
  arith, take-append-drop, take_all, drop_all, drop-drop, append-nil, map, length-map, take-map,
  drop-map, length-take, length-drop, false,
}
use swarm_compute.Splitter.Slices.{ceil_div, slice, chunks_from, split_slice}

count_step :
    (k size i len : ℕ)
    → i < len
    → k * size < len - (i + size) + size
    → suc k * size < len - i + size
count_step zero size i len h ih = omega (arith, mul.suc 0 size, mul.zero size)
count_step (suc k) size i len h ih = omega (arith, mul.suc (suc k) size, mul.suc k size)

module _ {ℓ} {A : Type ℓ} (s : List A) (size : ℕ) (size_pos : 0 < size) where
  -- the end of a round's slice
  abbrev slice_end : ℕ → ℕ
  slice_end i = if ltb (length s) (i + size) then length s else i + size

  slice-append-drop : (i : ℕ) → slice s i (slice_end i) ++ drop (i + size) s ≡ drop i s
  unfolding slice
  slice-append-drop i = elim (Bool-cases (ltb (length s) (i + size))) [
    | inl e ↦
        rw (e, drop_all (i + size) s (ground arith), append-nil)
          (take_all (length s - i) (drop i s) (omega (arith, length-drop i s)))
    | inr e ↦
        let same : i + size - i ≡ size = omega arith in
        rw (e, same, ← drop-drop size i s) (take-append-drop size (drop i s))
  ]

  chunks_from-concat :
      (fuel i : ℕ) → length s ≤ i + fuel → concat (chunks_from fuel size i s) ≡ drop i s
  unfolding chunks_from
  chunks_from-concat zero i h = sym (drop_all i s (omega arith))
  chunks_from-concat (suc fuel) i h = elim (Bool-cases (ltb i (length s))) [
    | inl e ↦ rw (e, chunks_from-concat fuel (i + size) (omega arith)) (slice-append-drop i)
    | inr e ↦ rw e (sym (drop_all i s (ground arith)))
  ]

  chunks_from-pieces : (fuel i : ℕ) → All (λ c. 0 < length c) (chunks_from fuel size i s)
  unfolding chunks_from slice
  chunks_from-pieces zero i = tt
  chunks_from-pieces (suc fuel) i = elim (Bool-cases (ltb i (length s))) [
    | inl e ↦ rw e (
      ground (arith, length-take (slice_end i - i) (drop i s), length-drop i s),
      chunks_from-pieces fuel (i + size),
    )
    | inr e ↦ rw e tt
  ]

  length-chunks_from :
      (fuel i : ℕ) → length (chunks_from fuel size i s) * size < length s - i + size
  unfolding chunks_from
  length-chunks_from zero i = omega arith
  length-chunks_from (suc fuel) i = elim (Bool-cases (ltb i (length s))) [
    | inl e ↦ rw e (
        count_step (length (chunks_from fuel size (i + size) s)) size i (length s) (ground arith)
          (length-chunks_from fuel (i + size)))
    | inr e ↦ rw e (omega arith)
  ]

-- The quotient rounded up covers the whole.
ceil_div-covers : (a b : ℕ) → 0 < b → a ≤ ceil_div a b * b
ceil_div-covers a b h = omega arith

ceil_div_pos : (a b : ℕ) → 0 < b → 0 < a → 0 < ceil_div a b
ceil_div_pos a b h k = (le-div_iff_mul-le {x = 1} h).1 (omega arith)

le_of_mul : (a n size len : ℕ) → a * size < len + size → len ≤ size * n → a ≤ n
le_of_mul a n size len h k = elim (dec_le a n) [ yes p ↦ p | no p ↦ absurd (grind arith) ]

-- What is shown of the chunks of `s` for at most `bound` workers.
abbrev IsSplit {ℓ} : {A : Type ℓ} → List A → ℕ → List (List A) → Type ℓ
IsSplit s bound cs = (concat cs ≡ s) × All (λ c. 0 < length c) cs × (length cs ≤ bound)

module _ {ℓ} {A : Type ℓ} (s : List A) where
  chunks_from-IsSplit :
      (m : ℕ)
      → 0 < m
      → 0 < length s
      → IsSplit s m (chunks_from (length s) (ceil_div (length s) m) 0 s)
  chunks_from-IsSplit m h k =
      let size = ceil_div (length s) m in
      let pos : 0 < size = ceil_div_pos (length s) m h k in
      (
        chunks_from-concat s size pos (length s) 0 (omega arith),
        chunks_from-pieces s size pos (length s) 0,
        le_of_mul _ m size (length s) (omega (arith, length-chunks_from s size pos (length s) 0))
            (ceil_div-covers (length s) m h),
      )

  guarded-IsSplit :
      (m : ℕ)
      → (m ≡ 0 → s ≡ [])
      → (0 < m → 0 < length s)
      → IsSplit s m (if m == 0 then [] else chunks_from (length s) (ceil_div (length s) m) 0 s)
  guarded-IsSplit zero h k = (sym (h refl), tt, omega arith)
  guarded-IsSplit (suc m) h k =
      let some_workers : (suc m == 0) ≡ false = ground arith in
      rw some_workers (chunks_from-IsSplit (suc m) (omega arith) (k (omega arith)))

nil_of_length {ℓ} : {A : Type ℓ} (s : List A) → length s ≤ 0 → s ≡ []
nil_of_length [] h = refl
nil_of_length (x ∷ s) h = absurd (omega arith)

-- The chunks of a slice follow one another in order and make up the whole slice, none of them is
-- empty, and there are at most as many as asked for, with one asked for in place of none.
pub split_slice_lem {ℓ} :
    {A : Type ℓ} (s : List A) (n : ℕ)
    → (concat (split_slice s n) ≡ s)
      × All (λ c. 0 < length c) (split_slice s n)
      × (length (split_slice s n) ≤ max n 1)
unfolding split_slice
split_slice_lem s n =
    let n' : ℕ = if leb n 0 then 1 else n in
    let m : ℕ = if ltb (length s) n' then length s else n' in
    let le : m ≤ max n 1 = ground arith in
    let (whole, pieces, few) =
      guarded-IsSplit s m (λ e. nil_of_length s (ground arith)) (λ h. ground arith) in
    (whole, pieces, le_trans few le)

module _ {ℓ κ} {A : Type ℓ} {B : Type κ} (f : A → B) (s : List A) where
  chunks_from-map :
      (fuel size i : ℕ)
      → chunks_from fuel size i (map f s) ≡ map (map f) (chunks_from fuel size i s)
  unfolding chunks_from slice
  chunks_from-map zero size i = refl
  chunks_from-map (suc fuel) size i = elim (Bool-cases (ltb i (length s))) [
    | inl e ↦
        rw (length-map f s, e, chunks_from-map fuel size (i + size), drop-map f i s, take-map f)
    | inr e ↦ rw (length-map f s, e)
  ]

  -- the positions of the cuts do not depend on the elements
  pub split_slice-map : (n : ℕ) → split_slice (map f s) n ≡ map (map f) (split_slice s n)
  unfolding split_slice
  split_slice-map n =
      let n' : ℕ = if leb n 0 then 1 else n in
      let m : ℕ = if ltb (length s) n' then length s else n' in
      elim (Bool-cases (m == 0)) [
        | inl e ↦ rw (length-map f s, e)
        | inr e ↦ rw (length-map f s, e) (chunks_from-map (length s) (ceil_div (length s) m) 0)
      ]

concat-short {ℓ} :
    {A : Type ℓ} (cs : List (List A)) (limit : ℕ)
    → length (concat cs) ≤ limit
    → All (λ c. length c ≤ limit) cs
concat-short [] limit h = tt
concat-short (c ∷ cs) limit h = (
  omega (arith, length-append c (concat cs)),
  concat-short cs limit (omega (arith, length-append c (concat cs))),
)

-- no chunk is longer than the whole
pub split_slice-short {ℓ} :
    {A : Type ℓ} (s : List A) (n limit : ℕ)
    → length s ≤ limit
    → All (λ c. length c ≤ limit) (split_slice s n)
split_slice-short s n limit h =
    concat-short (split_slice s n) limit (omega (arith, ap length (split_slice_lem s n).0))
