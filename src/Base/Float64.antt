-- ===== src/Base/Float64.antt =====
-- The float64 operations that the code uses, and what theorems assume of them. The operations are
-- an interface; the laws hold of float64 without NaN and the infinities, which encoding/json cannot
-- carry.
use Prim.Native.Nat.{ℕ, ◌-◌, ◌*◌, ◌^◌, ◌≤◌}
use Prim.Native.String.{String}
use mathlib.Core.Path.{◌≡◌}
use mathlib.Core.Bool.{Bool, true, false, not}
use swarm_compute.Base.Int.{ℤ, pos, IsExact, leb_ℤ, ◌+ℤ◌}

pub record Float64 (N : Type 0) : Type 0 where
  pub of_int : ℤ → N  -- float64(i)
  pub to_int : N → ℤ  -- int(x)
  pub le_f : N → N → Bool  -- x <= y
  pub add_f : N → N → N  -- x + y
  pub sub_f : N → N → N  -- x - y
  pub mul_f : N → N → N  -- x * y
  pub div_f : N → N → N  -- x / y
  pub pi_f : N  -- 3.14159265358979323846
  pub sprintf_10f : N → String  -- fmt.Sprintf("%.10f", x)

module _ {N : Type 0} ⦃fl : Float64 N⦄ where
  -- x < y, with no NaN
  abbrev pub lt_f : N → N → Bool
  lt_f x y = not (fl.le_f y x)

  -- a constant of the source that is a whole number
  abbrev pub const_f : ℕ → N
  const_f n = fl.of_int (pos n)

-- `<=` is a total preorder (-0 and 0 are below each other), and an int up to 2^53 survives the
-- conversion to float64 and back.
pub record FloatLaws (N : Type 0) ⦃fl : Float64 N⦄ : Type 0 where
  pub total : (x y : N) → fl.le_f x y ≡ false → fl.le_f y x ≡ true
  pub trans : (x y z : N) → fl.le_f x y ≡ true → fl.le_f y z ≡ true → fl.le_f x z ≡ true
  pub int_exact : (i : ℤ) → IsExact i → fl.to_int (fl.of_int i) ≡ i
  pub add_exact :
      (i j : ℤ)
      → IsExact i
      → IsExact j
      → IsExact (i +ℤ j)
      → fl.add_f (fl.of_int i) (fl.of_int j) ≡ fl.of_int (i +ℤ j)
  pub le_exact : (i j : ℤ) → IsExact i → IsExact j → fl.le_f (fl.of_int i) (fl.of_int j) ≡ leb_ℤ i j

-- Arithmetic rounds monotonically, is exact on the whole numbers up to 2^53, and two numbers from 1 on
-- that are below each other are the same.
pub record FloatArith (N : Type 0) ⦃fl : Float64 N⦄ : Type 0 where
  pub add_mono :
      (x y z w : N)
      → fl.le_f x y ≡ true
      → fl.le_f z w ≡ true
      → fl.le_f (fl.add_f x z) (fl.add_f y w) ≡ true
  pub zero_add : (x : N) → fl.le_f (const_f 1) x ≡ true → fl.add_f (const_f 0) x ≡ x
  pub sub_mono :
      (x y z w : N)
      → fl.le_f x y ≡ true
      → fl.le_f w z ≡ true
      → fl.le_f (fl.sub_f x z) (fl.sub_f y w) ≡ true
  pub sub_zero : (x : N) → fl.sub_f x (const_f 0) ≡ x
  pub mul_mono :
      (x y z w : N)
      → fl.le_f (const_f 0) x ≡ true
      → fl.le_f x y ≡ true
      → fl.le_f (const_f 0) z ≡ true
      → fl.le_f z w ≡ true
      → fl.le_f (fl.mul_f x z) (fl.mul_f y w) ≡ true
  pub sub_whole :
      (a b : ℕ) → b ≤ a → a ≤ 2 ^ 53 → fl.sub_f (const_f a) (const_f b) ≡ const_f (a - b)
  pub mul_whole :
      (a b : ℕ)
      → a ≤ 2 ^ 53
      → b ≤ 2 ^ 53
      → a * b ≤ 2 ^ 53
      → fl.mul_f (const_f a) (const_f b) ≡ const_f (a * b)
  pub antisym :
      (x y : N) → fl.le_f (const_f 1) x ≡ true → fl.le_f x y ≡ true → fl.le_f y x ≡ true → x ≡ y
