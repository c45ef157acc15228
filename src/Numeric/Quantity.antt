-- ===== src/Numeric/Quantity.antt =====
-- Units of measure: internal/concept/quantity.go. No unit of its table has a negative scale and no
-- operation makes one, so a scale is a natural number here, and the source's tests for negative
-- ones in `quantityGCD` have no counterpart.
pub mod Gcd
pub mod Normal
pub mod Scale
pub mod Overflow
pub mod Power
pub mod Units
mod Tests
use concept.Base.{
  none, some, false, true, ◌/◌, Option, map, ℕ, ℤ, List, Bool, ◌&&◌, if◌then◌else◌, pos, ◌∷◌, ◌==ℤ◌,
  ◌%◌, ◌==◌, ltb, ◌+ℤ◌, ◌-ℤ◌, suc, leb, ◌||◌, sub_ℕ, ◌*◌, negsuc, ◌-◌, [], zero, pos_part,
}

-- `math.MaxInt`
abbrev pub max_int : ℕ
max_int = 9223372036854775807

pub record QuantityDimension : Type 0 where
  pub exponents : List ℤ
  pub scale_numerator : ℕ
  pub scale_denominator : ℕ

-- `for b != 0 { a, b = b, a%b }`; `none` is a loop that has not ended within the fuel.
unfoldable pub gcd_loop : (fuel a b : ℕ) → Option ℕ
gcd_loop zero a b = if b == 0 then some a else none
gcd_loop (suc n) a b = let rest = gcd_loop n b (a % b) in if b == 0 then some a else rest

abbrev pub or_one : ℕ → ℕ
or_one n = if n == 0 then 1 else n

-- The loop ends within `b` turns.
unfoldable pub quantity_gcd : ℕ → ℕ → ℕ
quantity_gcd a b = elim (gcd_loop b a b) [ none ↦ 1 | some g ↦ or_one g ]

unfoldable pub normalized : QuantityDimension → QuantityDimension
normalized d =
    let n = or_one d.scale_numerator in
    let m = or_one d.scale_denominator in
    let g = quantity_gcd n m in record d { scale_numerator = n / g; scale_denominator = m / g }

abbrev pub same_exponents : List ℤ → List ℤ → Bool
same_exponents [] [] = true
same_exponents (x ∷ xs) (y ∷ ys) = x ==ℤ y && same_exponents xs ys
same_exponents [] (y ∷ ys) = false
same_exponents (x ∷ xs) [] = false

-- `IsDimensionless`
unfoldable pub is_dimensionless : List ℤ → Bool
is_dimensionless [] = true
is_dimensionless (x ∷ xs) = x ==ℤ pos 0 && is_dimensionless xs

abbrev pub same_dimension : QuantityDimension → QuantityDimension → Bool
same_dimension d other = same_exponents d.exponents other.exponents

-- `Equal`
unfoldable pub equal : QuantityDimension → QuantityDimension → Bool
equal d other =
    let a = normalized d in
    let b = normalized other in
    same_exponents a.exponents b.exponents
    && (a.scale_numerator == b.scale_numerator && a.scale_denominator == b.scale_denominator)

-- n/den times x/y, with n and y, and x and den, cancelled before the product.
unfoldable pub cancelled_product : (n den x y : ℕ) → Option (ℕ × ℕ)
cancelled_product n den x y =
    let g = quantity_gcd n y in
    let h = quantity_gcd x den in
    if ltb (max_int / (x / h)) (n / g) || ltb (max_int / (y / g)) (den / h)
    then none
    else some (n / g * (x / h), den / h * (y / g))

unfoldable pub scale_ratio_to_checked : QuantityDimension → QuantityDimension → Option (ℕ × ℕ)
scale_ratio_to_checked d other =
    let a = normalized d in
    let b = normalized other in
    cancelled_product a.scale_numerator a.scale_denominator b.scale_denominator b.scale_numerator

unfoldable pub quantity_scale_multiply : QuantityDimension → QuantityDimension → Option (ℕ × ℕ)
quantity_scale_multiply d other =
    let a = normalized d in
    let b = normalized other in
    cancelled_product a.scale_numerator a.scale_denominator b.scale_numerator b.scale_denominator

-- A 64-bit `int` keeps an integer modulo 2^64.
abbrev pub wrap_int64 : ℤ → ℤ
wrap_int64 (pos n) =
    let r = n % 18446744073709551616 in
    if leb r max_int then pos r else sub_ℕ r 18446744073709551616
wrap_int64 (negsuc n) =
    let r = n % 18446744073709551616 in
    if leb r max_int then negsuc r else pos (18446744073709551615 - r)

abbrev pub add_exponents : List ℤ → List ℤ → List ℤ
add_exponents (x ∷ xs) (y ∷ ys) = wrap_int64 (x +ℤ y) ∷ add_exponents xs ys
add_exponents [] ys = []
add_exponents (x ∷ xs) [] = []

abbrev pub scaled : List ℤ → Option (ℕ × ℕ) → Option QuantityDimension
scaled e none = none
scaled e (some (n, m)) =
    some (normalized (record { exponents = e; scale_numerator = n; scale_denominator = m }))

unfoldable pub multiply_checked : QuantityDimension → QuantityDimension → Option QuantityDimension
multiply_checked d other =
    scaled (add_exponents d.exponents other.exponents) (quantity_scale_multiply d other)

abbrev pub inverse : QuantityDimension → QuantityDimension
inverse d = record {
  exponents = map (λ x. wrap_int64 (pos 0 -ℤ x)) d.exponents;
  scale_numerator = d.scale_denominator;
  scale_denominator = d.scale_numerator;
}

unfoldable pub divide_checked : QuantityDimension → QuantityDimension → Option QuantityDimension
divide_checked d other = multiply_checked d (inverse (normalized other))

-- `exponent & 1 != 0`
abbrev pub times_base : ℕ → QuantityDimension → QuantityDimension → Option QuantityDimension
times_base e out base = elim (e % 2 == 0) [ true ↦ some out | false ↦ multiply_checked out base ]

-- One turn of the loop of `PowChecked`: no exponent left, the product, no exponent left after it,
-- the square.
abbrev pub turn :
    Bool
    → Option QuantityDimension
    → Bool
    → Option QuantityDimension
    → QuantityDimension
    → (QuantityDimension → QuantityDimension → Option (Option QuantityDimension))
    → Option (Option QuantityDimension)
turn true product last square out next = some (some out)
turn false none last square out next = some none
turn false (some product) true square out next = some (some product)
turn false (some product) false none out next = some none
turn false (some product) false (some square) out next = next product square

-- The loop of `PowChecked`; the outer `none` is a loop that has not ended within the fuel.
unfoldable pub pow_loop :
    (fuel : ℕ) (out base : QuantityDimension) (exponent : ℕ) → Option (Option QuantityDimension)
pow_loop zero out base e = if e == 0 then some (some out) else none
pow_loop (suc n) out base e =
    turn (e == 0) (times_base e out base) (e / 2 == 0) (multiply_checked base base) out
      (λ product square. pow_loop n product square (e / 2))

abbrev pub dimensionless_quantity : QuantityDimension
dimensionless_quantity = record {
  exponents = pos 0 ∷ pos 0 ∷ pos 0 ∷ pos 0 ∷ pos 0 ∷ pos 0 ∷ pos 0 ∷ pos 0 ∷ [];
  scale_numerator = 1;
  scale_denominator = 1;
}

-- `exponent = -exponent`, which leaves the least `int` as it is, and then no turn of the loop runs.
abbrev pub pow_base : ℤ → QuantityDimension → QuantityDimension
pow_base (pos e) d = normalized d
pow_base (negsuc e) d = inverse (normalized d)

abbrev pub turns : ℤ → ℕ
turns (pos e) = e
turns (negsuc e) = pos_part (wrap_int64 (pos 0 -ℤ negsuc e))

abbrev pub ended : Option (Option QuantityDimension) → Option QuantityDimension
ended none = none
ended (some r) = r

unfoldable pub pow_checked : QuantityDimension → ℤ → Option QuantityDimension
pow_checked d exponent =
    ended (pow_loop (turns exponent) dimensionless_quantity (pow_base exponent d) (turns exponent))
