-- ===== src/Numeric/Quantity/Tests.antt =====
-- The theorems of Quantity at kilohertz, milliseconds and kilometres.
use concept.Numeric.Quantity.Units.{quantity_from_unit, standard_quantity_units}
use native.Mathlib.Nat.{dvd-mul_left}
use Prim.Native.Nat.{◌∣◌}
use concept.Numeric.Quantity.Gcd.{quantity_gcd_greatest}
use concept.Numeric.Quantity.Power.{pow_loop_total}
use concept.Base.{
  refl, some, none, ◌⊎◌, true, [], ◌∷◌, Option, ◌+ℤ◌, ◌^◌, ◌<◌, ◌≡◌, pos, List, arith, ◌↔◌, negsuc,
  ◌-ℤ◌, ℤ, ◌*◌, ◌≤◌,
}
use concept.Numeric.Quantity.{
  quantity_gcd, gcd_loop, or_one, normalized, cancelled_product, max_int, QuantityDimension,
  scale_ratio_to_checked, quantity_scale_multiply, multiply_checked, divide_checked, pow_checked,
  pow_loop, equal,
}
use concept.Numeric.Quantity.Overflow.{multiply_checked-none}
use concept.Numeric.Quantity.Normal.{Reduced, equal_iff, normalized-Reduced}
use concept.Numeric.Quantity.Scale.{multiply_checked-IsProduct, divide_checked-exact, IsProduct}
use concept.Numeric.Quantity.Power.{pow_checked-HasScale, HasScale}

abbrev no_exponents : List ℤ
no_exponents = pos 0 ∷ pos 0 ∷ pos 0 ∷ pos 0 ∷ pos 0 ∷ []

abbrev kilohertz : QuantityDimension
kilohertz = record {
  exponents = pos 0 ∷ pos 0 ∷ negsuc 0 ∷ no_exponents;
  scale_numerator = 1000;
  scale_denominator = 1;
}

abbrev milliseconds : QuantityDimension
milliseconds = record {
  exponents = pos 0 ∷ pos 0 ∷ pos 1 ∷ no_exponents;
  scale_numerator = 1;
  scale_denominator = 1000;
}

abbrev millihertz : QuantityDimension
millihertz = record kilohertz { scale_numerator = 1; scale_denominator = 1000 }

quantity_gcd_greatest_example :
    (0 < quantity_gcd 18 12)
    × (quantity_gcd 18 12 ∣ 18)
    × (quantity_gcd 18 12 ∣ 12)
    × (3 ∣ quantity_gcd 18 12)
quantity_gcd_greatest_example =
    quantity_gcd_greatest 18 12 3 (omega arith) (dvd-mul_left 3 6) (dvd-mul_left 3 4)

gcd_of_18_12 : quantity_gcd 18 12 ≡ 6
unfolding quantity_gcd gcd_loop
gcd_of_18_12 = refl

equal_iff_example : (equal kilohertz millihertz ≡ true) ↔ (
    (kilohertz.exponents ≡ millihertz.exponents)
    × (or_one kilohertz.scale_numerator * or_one millihertz.scale_denominator
        ≡ or_one millihertz.scale_numerator * or_one kilohertz.scale_denominator))
equal_iff_example = equal_iff kilohertz millihertz

normalized-Reduced_example :
    Reduced (normalized kilohertz).scale_numerator (normalized kilohertz).scale_denominator
    × ((normalized kilohertz).scale_numerator * or_one kilohertz.scale_denominator
        ≡ or_one kilohertz.scale_numerator * (normalized kilohertz).scale_denominator)
normalized-Reduced_example = normalized-Reduced kilohertz

kilohertz_ratio : scale_ratio_to_checked kilohertz millihertz ≡ some (1000000, 1)
unfolding scale_ratio_to_checked normalized cancelled_product quantity_gcd gcd_loop
kilohertz_ratio = refl

abbrev pure_number : QuantityDimension
pure_number = record {
  exponents = pos 0 ∷ pos 0 ∷ pos 0 ∷ no_exponents;
  scale_numerator = 1;
  scale_denominator = 1;
}

kilohertz_times_milliseconds : multiply_checked kilohertz milliseconds ≡ some pure_number
unfolding multiply_checked quantity_scale_multiply normalized cancelled_product quantity_gcd
    gcd_loop ◌+ℤ◌
kilohertz_times_milliseconds = refl

multiply_checked-IsProduct_example : IsProduct kilohertz milliseconds pure_number
multiply_checked-IsProduct_example =
    multiply_checked-IsProduct kilohertz milliseconds pure_number kilohertz_times_milliseconds

abbrev per_millisecond : QuantityDimension
per_millisecond = record kilohertz { scale_numerator = 1000 }

pure_over_milliseconds : divide_checked pure_number milliseconds ≡ some per_millisecond
unfolding divide_checked multiply_checked quantity_scale_multiply normalized cancelled_product
    quantity_gcd gcd_loop ◌+ℤ◌ ◌-ℤ◌
pure_over_milliseconds = refl

divide_checked-exact_example :
    Reduced 1000 1 × (1000 ≤ max_int) × (1 ≤ max_int) × (1000 * (1 * 1) ≡ 1 * (1 * 1000))
divide_checked-exact_example =
    divide_checked-exact pure_number milliseconds per_millisecond pure_over_milliseconds

abbrev cubed : QuantityDimension
cubed = record {
  exponents = pos 0 ∷ pos 0 ∷ negsuc 2 ∷ no_exponents;
  scale_numerator = 1000000000;
  scale_denominator = 1;
}

kilohertz-cubed : pow_checked kilohertz (pos 3) ≡ some cubed
unfolding pow_checked pow_loop multiply_checked quantity_scale_multiply normalized cancelled_product
    quantity_gcd gcd_loop ◌+ℤ◌
kilohertz-cubed = refl

pow_checked-HasScale_example : HasScale cubed (1000 ^ 3) (1 ^ 3)
pow_checked-HasScale_example = pow_checked-HasScale kilohertz cubed 3 kilohertz-cubed

pow_loop_total_example :
    (r : Option QuantityDimension) × (pow_loop 3 pure_number kilohertz 3 ≡ some r)
pow_loop_total_example =
    pow_loop_total 3 pure_number kilohertz 3 1 1 1000 1 (omega arith)
      (omega arith, omega arith, refl) (omega arith, omega arith, refl)

kilohertz_inverse : pow_checked milliseconds (negsuc 0) ≡ some per_millisecond
unfolding pow_checked pow_loop multiply_checked quantity_scale_multiply normalized cancelled_product
    quantity_gcd gcd_loop ◌+ℤ◌ ◌-ℤ◌
kilohertz_inverse = refl

abbrev found_unit : QuantityDimension
found_unit = record kilohertz { scale_numerator = 1000 }

kilohertz_found : quantity_from_unit "kHz" ≡ some found_unit
unfolding quantity_from_unit standard_quantity_units
kilohertz_found = refl

abbrev huge : QuantityDimension
huge = record pure_number { scale_numerator = max_int }

abbrev pair : QuantityDimension
pair = record pure_number { scale_numerator = 2 }

huge_times_pair : multiply_checked huge pair ≡ none
unfolding multiply_checked quantity_scale_multiply normalized cancelled_product quantity_gcd
    gcd_loop ◌+ℤ◌
huge_times_pair = refl

multiply_checked-none_example : (max_int < 18446744073709551614) ⊎ (max_int < 1)
multiply_checked-none_example =
    multiply_checked-none huge pair 18446744073709551614 1 huge_times_pair (omega arith)
      (omega arith) refl
