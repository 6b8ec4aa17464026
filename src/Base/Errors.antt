-- ===== src/Base/Errors.antt =====
-- What a Go function that returns `(T, error)` ends in: a value, an error, or a panic.
use Prim.Native.Nat.{ℕ, zero, suc}
use Prim.Native.String.{String}
use mathlib.Core.List.{List, [], ◌∷◌, map}
use mathlib.Core.Path.{◌≡◌, refl}
use swarm_compute.Base.Lists.{All}

-- An error keeps its format string and its arguments: package fmt renders it.
pub data Error : Type 0 where
  errorf : String → Error
  errorf_str : String → String → Error
  errorf_int : String → List ℕ → Error
  errorf_wrap : String → Error → Error
  errorf_and : String → Error → Error → Error

-- `panic` also stands for what Go's runtime raises: an index out of range, a failed assertion.
pub data Result {ℓ} (A : Type ℓ) : Type ℓ where
  panic : Result A
  err : Error → Result A
  ok : A → Result A

module _ {ℓ κ} {A : Type ℓ} {B : Type κ} where
  infixl 5 ◌>>=◌
  abbrev pub ◌>>=◌ : Result A → (A → Result B) → Result B
  panic >>= rest = panic
  err e >>= rest = err e
  ok value >>= rest = rest value

-- A loop that runs `f` on each element in turn, and stops at the first error or panic.
abbrev pub map_m {ℓ κ} : {A : Type ℓ} {B : Type κ} → (A → Result B) → List A → Result (List B)
map_m f [] = ok []
map_m f (x ∷ xs) = do y ← f x; ys ← map_m f xs; ok (y ∷ ys)

-- `return nil, fmt.Errorf(format + "%w", err)` around a failing call.
abbrev pub wrap_error {ℓ} : {A : Type ℓ} → String → Result A → Result A
wrap_error s (ok a) = ok a
wrap_error s (err e) = err (errorf_wrap s e)
wrap_error s panic = panic

-- `xs[i]`: out of range panics
abbrev pub index {ℓ} : {A : Type ℓ} → List A → ℕ → Result A
index [] i = panic
index (x ∷ xs) zero = ok x
index (x ∷ xs) (suc i) = index xs i

-- A loop whose every call succeeds collects the results.
pub map_m-map {ℓ κ μ} :
    {A : Type ℓ} {B : Type κ} {C : Type μ} (f : A → Result B) (c : C → A) (g : C → B) (xs : List C)
    → All (λ x. f (c x) ≡ ok (g x)) xs
    → map_m f (map c xs) ≡ ok (map g xs)
map_m-map f c g [] h = refl
map_m-map f c g (x ∷ xs) h = rw (h.0, map_m-map f c g xs h.1)

-- A sequence of two calls that succeeds, and a loop that succeeds, call by call.
pub >>=-eq-ok {ℓ κ} :
    {A : Type ℓ} {B : Type κ} (first : Result A) (rest : A → Result B) {out : B}
    → (first >>= rest) ≡ ok out
    → (value : A) × (first ≡ ok value) × (rest value ≡ ok out)
>>=-eq-ok panic rest bad = cc
>>=-eq-ok (err _) rest bad = cc
>>=-eq-ok (ok value) rest run = (value, refl, run)

pub >>=-ext {ℓ κ} :
    {A : Type ℓ} {B : Type κ} (first : Result A) {f g : A → Result B}
    → ((a : A) → f a ≡ g a)
    → (first >>= f) ≡ (first >>= g)
>>=-ext panic same = refl
>>=-ext (err _) same = refl
>>=-ext (ok value) same = same value

pub map_m-cons {ℓ κ} :
    {A : Type ℓ} {B : Type κ} (f : A → Result B) (x : A) (xs : List A) {out : List B}
    → map_m f (x ∷ xs) ≡ ok out
    → (y : B) × (ys : List B) × (f x ≡ ok y) × (map_m f xs ≡ ok ys) × (out ≡ y ∷ ys)
map_m-cons f x xs h =
    let (y, e, h') = >>=-eq-ok (f x) (λ y. map_m f xs >>= λ ys. ok (y ∷ ys)) h in
    let (ys, e', h'') = >>=-eq-ok (map_m f xs) (λ ys. ok (y ∷ ys)) h' in (y, ys, e, e', cc)
