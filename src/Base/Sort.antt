-- ===== src/Base/Sort.antt =====
-- Package sort: a stable sort by a test `less`, and the lists that it leaves in order. sort.Slice
-- and sort.Float64s fix their results only up to the order of equal elements.
use mathlib.Core.Path.{◌≡◌}
use mathlib.Core.Logic.{inl, inr}
use mathlib.Core.Bool.{Bool, true}
use mathlib.Core.List.{List, [], ◌∷◌, Perm}
use mathlib.Core.List.Perm
use native.Mathlib.Omega.{arith}
use swarm_compute.Base.Tests.{if◌then◌else◌, Bool-cases}
use swarm_compute.Base.Lists.{All}
use swarm_compute.Base.Float64.{Float64, FloatLaws, lt_f}

module _ {ℓ} {A : Type ℓ} (less : A → A → Bool) where
  -- in front of the first element that is not less
  unfoldable pub insert_by : A → List A → List A
  insert_by x [] = x ∷ []
  insert_by x (y ∷ ys) = if less y x then y ∷ insert_by x ys else x ∷ y ∷ ys

  unfoldable pub sort_by : List A → List A
  unfolding insert_by
  sort_by [] = []
  sort_by (x ∷ xs) = insert_by x (sort_by xs)

  insert_by-perm : (x : A) (ys : List A) → Perm (insert_by x ys) (x ∷ ys)
  unfolding insert_by
  insert_by-perm x [] = Perm.refl (x ∷ [])
  insert_by-perm x (y ∷ ys) = elim (Bool-cases (less y x)) [
    | inl e ↦ rw e (Perm.trans (Perm.cons y (insert_by-perm x ys)) (Perm.swap x y ys))
    | inr e ↦ rw e (Perm.refl (x ∷ y ∷ ys))
  ]

  All-insert_by {κ} :
      (P : A → Type κ) (x : A) (ys : List A) → P x → All P ys → All P (insert_by x ys)
  unfolding insert_by
  All-insert_by P x [] h k = (h, tt)
  All-insert_by P x (y ∷ ys) h k = elim (Bool-cases (less y x)) [
    | inl e ↦ rw e (k.0, All-insert_by P x ys h k.1)
    | inr e ↦ rw e (h, k)
  ]

  pub All-sort_by {κ} : (P : A → Type κ) (xs : List A) → All P xs → All P (sort_by xs)
  unfolding sort_by
  All-sort_by P [] h = tt
  All-sort_by P (x ∷ xs) h = All-insert_by P x (sort_by xs) h.0 (All-sort_by P xs h.1)

  pub sort_by-perm : (xs : List A) → Perm (sort_by xs) xs
  unfolding sort_by
  sort_by-perm [] = Perm.refl []
  sort_by-perm (x ∷ xs) = Perm.trans (insert_by-perm x (sort_by xs)) (Perm.cons x (sort_by-perm xs))

module _ {N : Type 0} ⦃fl : Float64 N⦄ where
  -- `sort.Float64s`
  unfoldable pub sort_floats : List N → List N
  unfolding sort_by
  sort_floats = sort_by lt_f

  abbrev pub IsBelow : N → List N → Type 0
  IsBelow x = All (λ y. fl.le_f x y ≡ true)

  -- Every element is `<=` each later one.
  abbrev pub IsSorted : List N → Type 0
  IsSorted [] = Unit
  IsSorted (x ∷ xs) = IsBelow x xs × IsSorted xs

module _ {N : Type 0} ⦃fl : Float64 N⦄ (laws : FloatLaws N) where
  pub IsBelow-trans : (x y : N) (zs : List N) → fl.le_f x y ≡ true → IsBelow y zs → IsBelow x zs
  IsBelow-trans x y [] h k = tt
  IsBelow-trans x y (z ∷ zs) h k = (laws.trans x y z h k.0, IsBelow-trans x y zs h k.1)

  IsBelow-insert_by :
      (w x : N) (ys : List N) → fl.le_f w x ≡ true → IsBelow w ys → IsBelow w (insert_by lt_f x ys)
  unfolding insert_by
  IsBelow-insert_by w x [] h k = (h, tt)
  IsBelow-insert_by w x (y ∷ ys) h k = elim (Bool-cases (lt_f y x)) [
    | inl e ↦ rw e (k.0, IsBelow-insert_by w x ys h k.1)
    | inr e ↦ rw e (h, k)
  ]

  insert_by-IsSorted : (x : N) (ys : List N) → IsSorted ys → IsSorted (insert_by lt_f x ys)
  unfolding insert_by
  insert_by-IsSorted x [] s = (tt, tt)
  insert_by-IsSorted x (y ∷ ys) s = elim (Bool-cases (lt_f y x)) [
    | inl e ↦
        rw e (
          IsBelow-insert_by y x ys (laws.total x y (ground arith)) s.0,
          insert_by-IsSorted x ys s.1,
        )
    | inr e ↦
        let le : fl.le_f x y ≡ true = ground arith in rw e ((le, IsBelow-trans x y ys le s.0), s)
  ]

  pub sort_floats-IsSorted : (xs : List N) → IsSorted (sort_floats xs)
  unfolding sort_floats
  sort_floats-IsSorted [] = tt
  sort_floats-IsSorted (x ∷ xs) = insert_by-IsSorted x (sort_floats xs) (sort_floats-IsSorted xs)
