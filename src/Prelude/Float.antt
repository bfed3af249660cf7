-- ===== src/Prelude/Float.antt =====
-- What the code does with a Python `float`. The type and its operations are a parameter: values that
-- Python's `==` identifies (0.0 and -0.0) are one, and no law is assumed but those of `IsOrdered`.
use intelligent_multi_camera.Prelude.Tests.{if◌then◌else◌}
use intelligent_multi_camera.Prelude.Int.{ℤ, pos, ◌+ℤ◌, ◌-ℤ◌, ◌*ℤ◌, div_ℤ, ltb_ℤ, leb_ℤ}
use Prim.Native.Nat.{ℕ, ◌*◌, ◌/◌}
use mathlib.Core.Path.{◌≡◌}
use mathlib.Core.Logic.{◌⊎◌}
use mathlib.Core.Bool.{Bool, true, not}
use native.Mathlib.Omega.{arith}

pub record Float (F : Type 0) : Type 0 where
  -- the literal `p / q`, as in 0.75
  pub ratio : ℕ → ℕ → F
  pub neg : F → F
  pub add : F → F → F
  pub sub : F → F → F
  pub mul : F → F → F
  pub div : F → F → F
  -- `int(x)`, rounding towards zero
  pub trunc : F → ℤ
  -- `<` and `<=`
  pub lt : F → F → Bool
  pub le : F → F → Bool

module _ {F : Type 0} ⦃f : Float F⦄ where
  abbrev pub float : ℕ → F
  float n = f.ratio n 1

  infixl 65 ◌⊕◌ ◌⊖◌
  infixl 70 ◌⊗◌ ◌⊘◌
  infix 50 ◌<?◌ ◌≤?◌
  abbrev pub ◌⊕◌ : F → F → F
  x ⊕ y = f.add x y

  abbrev pub ◌⊖◌ : F → F → F
  x ⊖ y = f.sub x y

  abbrev pub ◌⊗◌ : F → F → F
  x ⊗ y = f.mul x y

  abbrev pub ◌⊘◌ : F → F → F
  x ⊘ y = f.div x y

  abbrev pub ◌<?◌ : F → F → Bool
  x <? y = f.lt x y

  abbrev pub ◌≤?◌ : F → F → Bool
  x ≤? y = f.le x y

  -- Python's `max` and `min` of two: the first, unless the second is strictly better.
  abbrev pub max : F → F → F
  max x y = if x <? y then y else x

  abbrev pub min : F → F → F
  min x y = if y <? x then y else x

  -- NaN is the value that is not `<=` itself.
  abbrev pub IsNumber : F → Type 0
  IsNumber x = (x ≤? x) ≡ true

-- The order of IEEE 754: total away from NaN, and false at NaN.
pub record IsOrdered (F : Type 0) ⦃f : Float F⦄ : Type 0 where
  pub le_trans : (x y z : F) → (x ≤? y) ≡ true → (y ≤? z) ≡ true → (x ≤? z) ≡ true
  pub le_total : (x y : F) → IsNumber x → IsNumber y → ((x ≤? y) ≡ true) ⊎ ((y ≤? x) ≡ true)
  pub le_antisymm : (x y : F) → (x ≤? y) ≡ true → (y ≤? x) ≡ true → x ≡ y
  pub number_of_le : (x y : F) → (x ≤? y) ≡ true → IsNumber x × IsNumber y
  pub number_of_lt : (x y : F) → (x <? y) ≡ true → IsNumber x × IsNumber y
  pub lt-eq-not-le : (x y : F) → IsNumber x → IsNumber y → (x <? y) ≡ not (y ≤? x)

module _ {F : Type 0} ⦃fl : Float F⦄ (ord : IsOrdered F) where
  pub lt-le_trans : (x y z : F) → (x <? y) ≡ true → (y ≤? z) ≡ true → (x <? z) ≡ true
  lt-le_trans x y z h k =
      let (nx, ny) = ord.number_of_lt x y h in
      let nz = (ord.number_of_le y z k).1 in
      ground (arith, ord.lt-eq-not-le x y nx ny, ord.lt-eq-not-le x z nx nz, ord.le_trans y z x k)

  pub le-lt_trans : (x y z : F) → (x ≤? y) ≡ true → (y <? z) ≡ true → (x <? z) ≡ true
  le-lt_trans x y z h k =
      let (ny, nz) = ord.number_of_lt y z k in
      let nx = (ord.number_of_le x y h).0 in
      ground (arith, ord.lt-eq-not-le y z ny nz, ord.lt-eq-not-le x z nx nz, ord.le_trans z x y)

  pub le_of_lt : (x y : F) → (x <? y) ≡ true → (x ≤? y) ≡ true
  le_of_lt x y h =
      let (nx, ny) = ord.number_of_lt x y h in
      ground (arith, ord.lt-eq-not-le x y nx ny, ord.le_total x y nx ny)

-- Whole hundredths, an instance on which the definitions run.
instance abbrev pub hundredths : Float ℤ
hundredths = record {
  ratio = λ p q. pos (p * 100 / q);
  neg = λ x. pos 0 -ℤ x;
  add = ◌+ℤ◌;
  sub = ◌-ℤ◌;
  mul = λ x y. div_ℤ (x *ℤ y) (pos 100);
  div = λ x y. div_ℤ (x *ℤ pos 100) y;
  trunc = λ x. div_ℤ x (pos 100);
  lt = ltb_ℤ;
  le = leb_ℤ;
}

pub ℤ-IsOrdered : IsOrdered ℤ
ℤ-IsOrdered = record {
  le_trans = λ x y z h k. ground arith;
  le_total = λ x y h k. ground arith;
  le_antisymm = λ x y h k. ground arith;
  number_of_le = λ x y h. ground arith;
  number_of_lt = λ x y h. ground arith;
  lt-eq-not-le = λ x y h k. ground arith;
}
