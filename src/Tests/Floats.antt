-- ===== src/Tests/Floats.antt =====
-- A concrete number type for the tests: the whole numbers, as exact floats.
use native.Mathlib.Nat.{mul-le-mul}
use swarm_compute.Base.{ℕ, ◌+◌, ◌-◌, ◌*◌, ◌/◌, ◌^◌, ◌≤◌, ◌≡◌, refl, true, false, arith}
use swarm_compute.Base.Int.{
  ℤ, pos, eq_of_parts, int_laws, pos_part, neg_part, sub_ℕ, ◌+ℤ◌, ◌-ℤ◌, leb_ℤ, quot,
}
use swarm_compute.Base.Float64.{Float64, FloatLaws, FloatArith}
use swarm_compute.Limiter.Laws.{IsClock}

abbrev mul_ℤ : ℤ → ℤ → ℤ
mul_ℤ a b =
    sub_ℕ (pos_part a * pos_part b + neg_part a * neg_part b)
      (pos_part a * neg_part b + neg_part a * pos_part b)

instance abbrev pub whole : Float64 ℤ
whole = record {
  of_int = λ i. i;
  to_int = λ x. x;
  le_f = leb_ℤ;
  add_f = ◌+ℤ◌;
  sub_f = ◌-ℤ◌;
  mul_f = mul_ℤ;
  div_f = λ a b. quot a (pos_part b);
  pi_f = pos 3;
  sprintf_10f = λ x. "";
}

whole_total : (x y : ℤ) → leb_ℤ x y ≡ false → leb_ℤ y x ≡ true
whole_total x y h = ground arith

whole_trans : (x y z : ℤ) → leb_ℤ x y ≡ true → leb_ℤ y z ≡ true → leb_ℤ x z ≡ true
whole_trans x y z h k = ground arith

pub whole_laws : FloatLaws ℤ
whole_laws = record {
  total = whole_total;
  trans = whole_trans;
  int_exact = λ i h. refl;
  add_exact = λ i j h k l. refl;
  le_exact = λ i j h k. refl;
}

whole_add_mono :
    (x y z w : ℤ) → leb_ℤ x y ≡ true → leb_ℤ z w ≡ true → leb_ℤ (x +ℤ z) (y +ℤ w) ≡ true
unfolding ◌+ℤ◌
whole_add_mono x y z w h k = ground arith

whole_sub_mono :
    (x y z w : ℤ) → leb_ℤ x y ≡ true → leb_ℤ w z ≡ true → leb_ℤ (x -ℤ z) (y -ℤ w) ≡ true
unfolding ◌-ℤ◌
whole_sub_mono x y z w h k = ground arith

whole_mul_mono :
    (x y z w : ℤ)
    → leb_ℤ (pos 0) x ≡ true
    → leb_ℤ x y ≡ true
    → leb_ℤ (pos 0) z ≡ true
    → leb_ℤ z w ≡ true
    → leb_ℤ (mul_ℤ x z) (mul_ℤ y w) ≡ true
whole_mul_mono (pos a) (pos b) (pos c) (pos d) p h q k =
    let first : a ≤ b = ground arith in
    let second : c ≤ d = ground arith in let product = mul-le-mul first second in ground arith
whole_mul_mono _ _ _ _ p h q k = absurd (ground arith)

whole_antisym : (x y : ℤ) → leb_ℤ (pos 1) x ≡ true → leb_ℤ x y ≡ true → leb_ℤ y x ≡ true → x ≡ y
whole_antisym x y p h k = ground arith

whole_sub : (a b : ℕ) → b ≤ a → a ≤ 2 ^ 53 → pos a -ℤ pos b ≡ pos (a - b)
unfolding ◌-ℤ◌
whole_sub a b h k = ground arith

whole_mul :
    (a b : ℕ) → a ≤ 2 ^ 53 → b ≤ 2 ^ 53 → a * b ≤ 2 ^ 53 → mul_ℤ (pos a) (pos b) ≡ pos (a * b)
whole_mul a b h k l = ground arith

whole_add_zero : (x : ℤ) → leb_ℤ (pos 1) x ≡ true → pos 0 +ℤ x ≡ x
whole_add_zero x h = eq_of_parts (pos 0 +ℤ x) x (omega int_laws)

whole_sub_zero : (x : ℤ) → x -ℤ pos 0 ≡ x
whole_sub_zero x = eq_of_parts (x -ℤ pos 0) x (omega int_laws)

pub whole_arith : FloatArith ℤ
whole_arith = record {
  add_mono = whole_add_mono;
  zero_add = whole_add_zero;
  sub_mono = whole_sub_mono;
  sub_zero = whole_sub_zero;
  mul_mono = whole_mul_mono;
  sub_whole = whole_sub;
  mul_whole = whole_mul;
  antisym = whole_antisym;
}

-- whole seconds
abbrev pub seconds : ℤ → ℤ
seconds d = pos (pos_part d / 1_000_000_000)

seconds_grows : (a b : ℕ) → a ≤ b → leb_ℤ (seconds (pos a)) (seconds (pos b)) ≡ true
seconds_grows a b h = ground arith

pub seconds-IsClock : IsClock ℤ seconds
seconds-IsClock = record { none_passed = refl; ten_minutes = refl; grows = seconds_grows }
