-- ===== src/Aggregator/MergeLaws.antt =====
-- Merging keeps all elements and the order.
use mathlib.Core.List.{perm_middle}
use mathlib.Core.List.Perm
use swarm_compute.Base.{
  ℕ, zero, suc, ◌/◌, ◌≤◌, ◌≡◌, ◌∙◌, sym, ap, List, [], ◌∷◌, ◌++◌, inl, inr, true, length, take,
  drop, concat, All, All-take, All-drop, Bool-cases, arith, Perm, take-append-drop, concat-append,
  length-take, length-drop, append-nil,
}
use swarm_compute.Base.Float64.{Float64, FloatLaws}
use swarm_compute.Base.Sort.{IsSorted, IsBelow, IsBelow-trans}
use swarm_compute.Aggregator.Merge.{merge_two, merge_halves, merge_k_sorted}

take-drop_shorter :
    {B : Type 0} (fuel : ℕ) (l : List B)
    → length l ≤ suc fuel
    → 2 ≤ length l
    → (length (take (length l / 2) l) ≤ fuel) × (length (drop (length l / 2) l) ≤ fuel)
take-drop_shorter fuel l h k =
    omega (arith, length-take (length l / 2) l, length-drop (length l / 2) l)

module _ {N : Type 0} ⦃fl : Float64 N⦄ where
  merge_two-perm : (a b : List N) → Perm (merge_two a b) (a ++ b)
  unfolding merge_two
  merge_two-perm [] b = Perm.refl b
  merge_two-perm (x ∷ a) [] = rw append-nil (Perm.refl (x ∷ a))
  merge_two-perm (x ∷ a) (y ∷ b) = elim (Bool-cases (fl.le_f x y)) [
    | inl e ↦ rw (e, merge_two) (Perm.cons x (merge_two-perm a (y ∷ b)))
    | inr e ↦
        rw (e, merge_two)
          (Perm.trans (Perm.cons y (merge_two-perm (x ∷ a) b)) (Perm.symm (perm_middle (x ∷ a) b)))
  ]

  merge_halves-perm :
      (fuel : ℕ) (arrays : List (List N))
      → length arrays ≤ fuel
      → Perm (merge_halves fuel arrays) (concat arrays)
  unfolding merge_halves
  merge_halves-perm fuel [] h = Perm.refl []
  merge_halves-perm fuel (a ∷ []) h = rw append-nil (Perm.refl a)
  merge_halves-perm zero (a ∷ b ∷ rest) h = absurd (omega arith)
  merge_halves-perm (suc fuel) (a ∷ b ∷ rest) h =
      let arrays = a ∷ b ∷ rest in
      let mid = length arrays / 2 in
      let (short_l, short_r) = take-drop_shorter fuel arrays h (omega arith) in
      let left = merge_halves-perm fuel (take mid arrays) short_l in
      let right = merge_halves-perm fuel (drop mid arrays) short_r in
      let whole : concat (take mid arrays) ++ concat (drop mid arrays) ≡ concat arrays =
        sym (concat-append (take mid arrays) (drop mid arrays))
        ∙ ap concat (take-append-drop mid arrays) in
      rw whole at (
        Perm.trans
          (merge_two-perm (merge_halves fuel (take mid arrays))
            (merge_halves fuel (drop mid arrays)))
          (Perm.append left right))

module _ {N : Type 0} ⦃fl : Float64 N⦄ (laws : FloatLaws N) where
  IsBelow-merge_two : (w : N) (a b : List N) → IsBelow w a → IsBelow w b → IsBelow w (merge_two a b)
  unfolding merge_two
  IsBelow-merge_two w [] b h k = k
  IsBelow-merge_two w (x ∷ a) [] h k = h
  IsBelow-merge_two w (x ∷ a) (y ∷ b) h k = elim (Bool-cases (fl.le_f x y)) [
    | inl e ↦ rw (e, merge_two) (h.0, IsBelow-merge_two w a (y ∷ b) h.1 k)
    | inr e ↦ rw (e, merge_two) (k.0, IsBelow-merge_two w (x ∷ a) b h k.1)
  ]

  merge_two-IsSorted : (a b : List N) → IsSorted a → IsSorted b → IsSorted (merge_two a b)
  unfolding merge_two
  merge_two-IsSorted [] b h k = k
  merge_two-IsSorted (x ∷ a) [] h k = h
  merge_two-IsSorted (x ∷ a) (y ∷ b) h k = elim (Bool-cases (fl.le_f x y)) [
    | inl e ↦
        rw (e, merge_two)
          (
            IsBelow-merge_two x a (y ∷ b) h.0 (e, IsBelow-trans laws x y b e k.0),
            merge_two-IsSorted a (y ∷ b) h.1 k,
          )
    | inr e ↦
        let le : fl.le_f y x ≡ true = laws.total x y e in
        rw (e, merge_two)
          (
            IsBelow-merge_two y (x ∷ a) b (le, IsBelow-trans laws y x a le h.0) k.0,
            merge_two-IsSorted (x ∷ a) b h k.1,
          )
  ]

  merge_halves-IsSorted :
      (fuel : ℕ) (arrays : List (List N))
      → All IsSorted arrays
      → IsSorted (merge_halves fuel arrays)
  unfolding merge_halves
  merge_halves-IsSorted fuel [] h = tt
  merge_halves-IsSorted fuel (a ∷ []) h = h.0
  merge_halves-IsSorted zero (a ∷ b ∷ rest) h = tt
  merge_halves-IsSorted (suc fuel) (a ∷ b ∷ rest) h =
      let arrays = a ∷ b ∷ rest in
      let mid = length arrays / 2 in
      merge_two-IsSorted (merge_halves fuel (take mid arrays)) (merge_halves fuel (drop mid arrays))
        (merge_halves-IsSorted fuel (take mid arrays) (All-take IsSorted mid arrays h))
        (merge_halves-IsSorted fuel (drop mid arrays) (All-drop IsSorted mid arrays h))

module _ {N : Type 0} ⦃fl : Float64 N⦄ (laws : FloatLaws N) where
  -- mergeKSorted keeps every number, each as often as it occurs in the arrays, and its result is
  -- in order if each array is, where the comparison of numbers is total and transitive.
  pub merge_k_sorted_lem :
      (arrays : List (List N))
      → Perm (merge_k_sorted arrays) (concat arrays)
        × (All IsSorted arrays → IsSorted (merge_k_sorted arrays))
  unfolding merge_k_sorted
  merge_k_sorted_lem arrays = (
    merge_halves-perm (length arrays) arrays (omega arith),
    merge_halves-IsSorted laws (length arrays) arrays,
  )
