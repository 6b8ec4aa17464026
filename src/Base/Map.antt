-- ===== src/Base/Map.antt =====
-- Go maps with string keys, as lists of entries: lookup and assignment.
use text.Mathlib.Text.{◌==◌ as str_eq}
use text.Mathlib.TextEquality.{eq_iff}
use text.Mathlib.TextPositions.{eq_refl}
use Prim.Native.String.{String}
use mathlib.Core.Path.{◌≡◌, refl, subst, ◌∙◌}
use mathlib.Core.Option.{Option, none, some}
use mathlib.Core.List.{List, [], ◌∷◌}
use native.Mathlib.Omega.{arith}
use mathlib.Core.Logic.{inl, inr}
use mathlib.Core.Bool.{true, false}
use swarm_compute.Base.Lists.{All, All-imp, length}
use Prim.Native.Nat.{suc, ◌≤◌}
use swarm_compute.Base.Tests.{if◌then◌else◌, Bool-cases}

module _ {ℓ} {V : Type ℓ} where
  -- `m[key] = v`; a new key comes last
  unfoldable pub insert : String → V → List (String × V) → List (String × V)
  insert key v [] = (key, v) ∷ []
  insert key v (entry ∷ rest) =
      let same = str_eq entry.0 key in
      let behind = insert key v rest in if same then (key, v) ∷ rest else entry ∷ behind

  -- `v, ok := m[key]`
  unfoldable pub lookup : String → List (String × V) → Option V
  lookup key [] = none
  lookup key (entry ∷ rest) =
      let behind = lookup key rest in if str_eq entry.0 key then some entry.1 else behind

  pub lookup-nil : (key : String) → lookup key [] ≡ none
  unfolding lookup
  lookup-nil key = refl

  pub lookup_same :
      (key : String) (entry : String × V) (rest : List (String × V))
      → str_eq entry.0 key ≡ true
      → lookup key (entry ∷ rest) ≡ some entry.1
  unfolding lookup
  lookup_same key entry rest e = rw e refl

  pub lookup_other :
      (key : String) (entry : String × V) (rest : List (String × V))
      → str_eq entry.0 key ≡ false
      → lookup key (entry ∷ rest) ≡ lookup key rest
  unfolding lookup
  lookup_other key entry rest e = rw e refl

  pub insert-nil : (key : String) (v : V) → insert key v [] ≡ (key, v) ∷ []
  unfolding insert
  insert-nil key v = refl

  pub insert_same :
      (key : String) (v : V) (entry : String × V) (rest : List (String × V))
      → str_eq entry.0 key ≡ true
      → insert key v (entry ∷ rest) ≡ (key, v) ∷ rest
  unfolding insert
  insert_same key v entry rest e = rw e refl

  pub insert_other :
      (key : String) (v : V) (entry : String × V) (rest : List (String × V))
      → str_eq entry.0 key ≡ false
      → insert key v (entry ∷ rest) ≡ entry ∷ insert key v rest
  unfolding insert
  insert_other key v entry rest e = rw e refl

  module _ (key other : String) (v : V) where
    pub lookup-insert :
        (m : List (String × V))
        → lookup other (insert key v m) ≡ (if str_eq key other then some v else lookup other m)
    unfolding insert lookup
    lookup-insert [] = refl
    lookup-insert (entry ∷ rest) =
        ground
          (lookup-insert rest, eq_iff entry.0 other, eq_iff entry.0 key, eq_iff key other, arith)

module _ {ℓ} {V : Type ℓ} where
  -- A list of entries that has each key at most once.
  abbrev pub IsUnique : List (String × V) → Type ℓ
  IsUnique [] = Unit
  IsUnique (entry ∷ rest) = (lookup entry.0 rest ≡ none) × IsUnique rest

  pub insert-IsUnique :
      (key : String) (v : V) (m : List (String × V)) → IsUnique m → IsUnique (insert key v m)
  unfolding insert lookup
  insert-IsUnique key v [] u = (refl, tt)
  insert-IsUnique key v (entry ∷ rest) u = elim (Bool-cases (str_eq entry.0 key)) [
    | inl e ↦ rw e (ground (u.0, eq_iff entry.0 key, arith), u.1)
    | inr e ↦ rw e (
      ground (u.0, lookup-insert key entry.0 v rest, eq_iff entry.0 key, eq_iff key entry.0, arith),
      insert-IsUnique key v rest u.1,
    )
  ]

  -- A map with each key once finds each of its entries.
  pub All-found :
      (m : List (String × V)) → IsUnique m → All (λ entry. lookup entry.0 m ≡ some entry.1) m
  All-found [] u = tt
  All-found (entry ∷ rest) u = (
    lookup_same entry.0 entry rest (eq_refl entry.0),
    All-imp (λ e. lookup e.0 rest ≡ some e.1) (λ e. lookup e.0 (entry ∷ rest) ≡ some e.1) rest
        (λ e found. elim (Bool-cases (str_eq entry.0 e.0)) [
          | inl same ↦
              let key : entry.0 ≡ e.0 = ground (eq_iff entry.0 e.0, arith) in
              let missing : lookup e.0 rest ≡ none = subst (λ k. lookup k rest ≡ none) key u.0 in cc
          | inr apart ↦ lookup_other e.0 entry rest apart ∙ found
        ])
        (All-found rest u.1),
  )

module _ {ℓ κ} {V : Type ℓ} (P : String × V → Type κ) where
  pub All-insert :
      (key : String) (v : V) (m : List (String × V)) → P (key, v) → All P m → All P (insert key v m)
  unfolding insert
  All-insert key v [] h hs = (h, tt)
  All-insert key v (entry ∷ rest) h hs = elim (Bool-cases (str_eq entry.0 key)) [
    | inl e ↦ rw e (h, hs.1)
    | inr e ↦ rw e (hs.0, All-insert key v rest h hs.1)
  ]

module _ {ℓ} {V : Type ℓ} (key : String) (v : V) where
  pub length-insert : (m : List (String × V)) → length (insert key v m) ≤ suc (length m)
  unfolding insert
  length-insert [] = omega arith
  length-insert (entry ∷ rest) = ground (arith, length-insert rest)
