-- ===== src/Numeric/Quantity/Units.antt =====
-- The table of units and its lookup: lines 31 to 90 of internal/concept/quantity.go.
use concept.Base.{
  none, some, true, [], ◌∷◌, length, Bool, List, String, ◌≡◌, ℤ, ◌≤◌, pos, Option, &&-true, ℕ,
  negsuc, Bool-cases, str_eq, inl, subst, some_inj, sym, if_true, ◌∙◌, inr, if_false, ◌==◌, refl,
  ◌&&◌, if◌then◌else◌, ltb, leb, ==_iff, ltb→lt, leb→le,
}
use concept.Numeric.Quantity.{QuantityDimension, quantity_gcd, gcd_loop, max_int}
use concept.Numeric.Quantity.Normal.{Reduced}

pub record StandardUnit : Type 0 where
  pub name : String
  pub dimension : QuantityDimension

abbrev pub unit : String → List ℤ → ℕ → ℕ → StandardUnit
unit n e numerator denominator = record {
  name = n;
  dimension = record {
    exponents = e;
    scale_numerator = numerator;
    scale_denominator = denominator;
  };
}

unfoldable pub standard_quantity_units : List StandardUnit
standard_quantity_units =
    unit "nm" (pos 1 ∷ pos 0 ∷ pos 0 ∷ pos 0 ∷ pos 0 ∷ pos 0 ∷ pos 0 ∷ pos 0 ∷ []) 1 1000000000
    ∷ unit "um" (pos 1 ∷ pos 0 ∷ pos 0 ∷ pos 0 ∷ pos 0 ∷ pos 0 ∷ pos 0 ∷ pos 0 ∷ []) 1 1000000
    ∷ unit "mm" (pos 1 ∷ pos 0 ∷ pos 0 ∷ pos 0 ∷ pos 0 ∷ pos 0 ∷ pos 0 ∷ pos 0 ∷ []) 1 1000
    ∷ unit "cm" (pos 1 ∷ pos 0 ∷ pos 0 ∷ pos 0 ∷ pos 0 ∷ pos 0 ∷ pos 0 ∷ pos 0 ∷ []) 1 100
    ∷ unit "m" (pos 1 ∷ pos 0 ∷ pos 0 ∷ pos 0 ∷ pos 0 ∷ pos 0 ∷ pos 0 ∷ pos 0 ∷ []) 1 1
    ∷ unit "km" (pos 1 ∷ pos 0 ∷ pos 0 ∷ pos 0 ∷ pos 0 ∷ pos 0 ∷ pos 0 ∷ pos 0 ∷ []) 1000 1
    ∷ unit "mg" (pos 0 ∷ pos 1 ∷ pos 0 ∷ pos 0 ∷ pos 0 ∷ pos 0 ∷ pos 0 ∷ pos 0 ∷ []) 1 1000000
    ∷ unit "g" (pos 0 ∷ pos 1 ∷ pos 0 ∷ pos 0 ∷ pos 0 ∷ pos 0 ∷ pos 0 ∷ pos 0 ∷ []) 1 1000
    ∷ unit "kg" (pos 0 ∷ pos 1 ∷ pos 0 ∷ pos 0 ∷ pos 0 ∷ pos 0 ∷ pos 0 ∷ pos 0 ∷ []) 1 1
    ∷ unit "ns" (pos 0 ∷ pos 0 ∷ pos 1 ∷ pos 0 ∷ pos 0 ∷ pos 0 ∷ pos 0 ∷ pos 0 ∷ []) 1 1000000000
    ∷ unit "us" (pos 0 ∷ pos 0 ∷ pos 1 ∷ pos 0 ∷ pos 0 ∷ pos 0 ∷ pos 0 ∷ pos 0 ∷ []) 1 1000000
    ∷ unit "ms" (pos 0 ∷ pos 0 ∷ pos 1 ∷ pos 0 ∷ pos 0 ∷ pos 0 ∷ pos 0 ∷ pos 0 ∷ []) 1 1000
    ∷ unit "s" (pos 0 ∷ pos 0 ∷ pos 1 ∷ pos 0 ∷ pos 0 ∷ pos 0 ∷ pos 0 ∷ pos 0 ∷ []) 1 1
    ∷ unit "A" (pos 0 ∷ pos 0 ∷ pos 0 ∷ pos 1 ∷ pos 0 ∷ pos 0 ∷ pos 0 ∷ pos 0 ∷ []) 1 1
    ∷ unit "mA" (pos 0 ∷ pos 0 ∷ pos 0 ∷ pos 1 ∷ pos 0 ∷ pos 0 ∷ pos 0 ∷ pos 0 ∷ []) 1 1000
    ∷ unit "K" (pos 0 ∷ pos 0 ∷ pos 0 ∷ pos 0 ∷ pos 1 ∷ pos 0 ∷ pos 0 ∷ pos 0 ∷ []) 1 1
    ∷ unit "mol" (pos 0 ∷ pos 0 ∷ pos 0 ∷ pos 0 ∷ pos 0 ∷ pos 1 ∷ pos 0 ∷ pos 0 ∷ []) 1 1
    ∷ unit "cd" (pos 0 ∷ pos 0 ∷ pos 0 ∷ pos 0 ∷ pos 0 ∷ pos 0 ∷ pos 1 ∷ pos 0 ∷ []) 1 1
    ∷ unit "bit" (pos 0 ∷ pos 0 ∷ pos 0 ∷ pos 0 ∷ pos 0 ∷ pos 0 ∷ pos 0 ∷ pos 1 ∷ []) 1 1
    ∷ unit "byte" (pos 0 ∷ pos 0 ∷ pos 0 ∷ pos 0 ∷ pos 0 ∷ pos 0 ∷ pos 0 ∷ pos 1 ∷ []) 8 1
    ∷ unit "Hz" (pos 0 ∷ pos 0 ∷ negsuc 0 ∷ pos 0 ∷ pos 0 ∷ pos 0 ∷ pos 0 ∷ pos 0 ∷ []) 1 1
    ∷ unit "kHz" (pos 0 ∷ pos 0 ∷ negsuc 0 ∷ pos 0 ∷ pos 0 ∷ pos 0 ∷ pos 0 ∷ pos 0 ∷ []) 1000 1
    ∷ unit "MHz" (pos 0 ∷ pos 0 ∷ negsuc 0 ∷ pos 0 ∷ pos 0 ∷ pos 0 ∷ pos 0 ∷ pos 0 ∷ []) 1000000 1
    ∷ unit "GHz" (pos 0 ∷ pos 0 ∷ negsuc 0 ∷ pos 0 ∷ pos 0 ∷ pos 0 ∷ pos 0 ∷ pos 0 ∷ []) 1000000000
        1
    ∷ unit "N" (pos 1 ∷ pos 1 ∷ negsuc 1 ∷ pos 0 ∷ pos 0 ∷ pos 0 ∷ pos 0 ∷ pos 0 ∷ []) 1 1
    ∷ unit "mN" (pos 1 ∷ pos 1 ∷ negsuc 1 ∷ pos 0 ∷ pos 0 ∷ pos 0 ∷ pos 0 ∷ pos 0 ∷ []) 1 1000
    ∷ unit "kN" (pos 1 ∷ pos 1 ∷ negsuc 1 ∷ pos 0 ∷ pos 0 ∷ pos 0 ∷ pos 0 ∷ pos 0 ∷ []) 1000 1
    ∷ unit "Pa" (negsuc 0 ∷ pos 1 ∷ negsuc 1 ∷ pos 0 ∷ pos 0 ∷ pos 0 ∷ pos 0 ∷ pos 0 ∷ []) 1 1
    ∷ unit "kPa" (negsuc 0 ∷ pos 1 ∷ negsuc 1 ∷ pos 0 ∷ pos 0 ∷ pos 0 ∷ pos 0 ∷ pos 0 ∷ []) 1000 1
    ∷ unit "MPa" (negsuc 0 ∷ pos 1 ∷ negsuc 1 ∷ pos 0 ∷ pos 0 ∷ pos 0 ∷ pos 0 ∷ pos 0 ∷ []) 1000000
        1
    ∷ unit "GPa" (negsuc 0 ∷ pos 1 ∷ negsuc 1 ∷ pos 0 ∷ pos 0 ∷ pos 0 ∷ pos 0 ∷ pos 0 ∷ [])
        1000000000 1
    ∷ unit "W" (pos 2 ∷ pos 1 ∷ negsuc 2 ∷ pos 0 ∷ pos 0 ∷ pos 0 ∷ pos 0 ∷ pos 0 ∷ []) 1 1
    ∷ unit "mW" (pos 2 ∷ pos 1 ∷ negsuc 2 ∷ pos 0 ∷ pos 0 ∷ pos 0 ∷ pos 0 ∷ pos 0 ∷ []) 1 1000
    ∷ unit "kW" (pos 2 ∷ pos 1 ∷ negsuc 2 ∷ pos 0 ∷ pos 0 ∷ pos 0 ∷ pos 0 ∷ pos 0 ∷ []) 1000 1
    ∷ unit "MW" (pos 2 ∷ pos 1 ∷ negsuc 2 ∷ pos 0 ∷ pos 0 ∷ pos 0 ∷ pos 0 ∷ pos 0 ∷ []) 1000000 1
    ∷ unit "V" (pos 2 ∷ pos 1 ∷ negsuc 2 ∷ negsuc 0 ∷ pos 0 ∷ pos 0 ∷ pos 0 ∷ pos 0 ∷ []) 1 1
    ∷ unit "mV" (pos 2 ∷ pos 1 ∷ negsuc 2 ∷ negsuc 0 ∷ pos 0 ∷ pos 0 ∷ pos 0 ∷ pos 0 ∷ []) 1 1000
    ∷ unit "kV" (pos 2 ∷ pos 1 ∷ negsuc 2 ∷ negsuc 0 ∷ pos 0 ∷ pos 0 ∷ pos 0 ∷ pos 0 ∷ []) 1000 1
    ∷ []

abbrev pub unit_named : String → List StandardUnit → Option QuantityDimension
unit_named n [] = none
unit_named n (u ∷ us) = if str_eq n u.name then some u.dimension else unit_named n us

unfoldable pub quantity_from_unit : String → Option QuantityDimension
quantity_from_unit n = unit_named n standard_quantity_units

abbrev good_unit : QuantityDimension → Bool
good_unit q =
    (length q.exponents == 8)
    && (ltb 0 q.scale_numerator
        && (ltb 0 q.scale_denominator
            && (quantity_gcd q.scale_numerator q.scale_denominator == 1
                && (leb q.scale_numerator max_int && leb q.scale_denominator max_int))))

abbrev all_good : List StandardUnit → Bool
all_good [] = true
all_good (u ∷ us) = good_unit u.dimension && all_good us

table_good : all_good standard_quantity_units ≡ true
unfolding standard_quantity_units quantity_gcd gcd_loop
table_good = refl

good_unit_lem :
    (q : QuantityDimension)
    → good_unit q ≡ true
    → (length q.exponents ≡ 8)
      × Reduced q.scale_numerator q.scale_denominator
      × (q.scale_numerator ≤ max_int)
      × (q.scale_denominator ≤ max_int)
good_unit_lem q h =
    let (a, h₁) = &&-true (length q.exponents == 8) _ h in
    let (b, h₂) = &&-true (ltb 0 q.scale_numerator) _ h₁ in
    let (c, h₃) = &&-true (ltb 0 q.scale_denominator) _ h₂ in
    let (d, h₄) = &&-true (quantity_gcd q.scale_numerator q.scale_denominator == 1) _ h₃ in
    let (x, y) = &&-true (leb q.scale_numerator max_int) _ h₄ in
    (
      (==_iff (length q.exponents) 8).0 a,
      (
        ltb→lt 0 q.scale_numerator b,
        ltb→lt 0 q.scale_denominator c,
        (==_iff (quantity_gcd q.scale_numerator q.scale_denominator) 1).0 d,
      ),
      leb→le q.scale_numerator max_int x,
      leb→le q.scale_denominator max_int y,
    )

unit_named-good :
    (n : String) (us : List StandardUnit) (q : QuantityDimension)
    → all_good us ≡ true
    → unit_named n us ≡ some q
    → good_unit q ≡ true
unit_named-good n [] q h e = cc
unit_named-good n (u ∷ us) q h e =
    let (a, b) = &&-true (good_unit u.dimension) (all_good us) h in
    elim (Bool-cases (str_eq n u.name)) [
      | inl t ↦
          subst (λ z. good_unit z ≡ true)
            (some_inj (sym (if_true (str_eq n u.name) (some u.dimension) (unit_named n us) t) ∙ e))
            a
      | inr f ↦
          unit_named-good n us q b
            (sym (if_false (str_eq n u.name) (some u.dimension) (unit_named n us) f) ∙ e)
    ]

-- Every unit that `quantityFromUnit` finds has eight exponents and a scale that is a reduced
-- fraction of positive `int`s.
pub quantity_from_unit-Reduced :
    (n : String) (q : QuantityDimension)
    → quantity_from_unit n ≡ some q
    → (length q.exponents ≡ 8)
      × Reduced q.scale_numerator q.scale_denominator
      × (q.scale_numerator ≤ max_int)
      × (q.scale_denominator ≤ max_int)
unfolding quantity_from_unit
quantity_from_unit-Reduced n q e =
    good_unit_lem q (unit_named-good n standard_quantity_units q table_good e)
