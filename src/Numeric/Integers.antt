-- ===== src/Numeric/Integers.antt =====
-- Integer types, their literals and exact conversions: internal/concept/integer_literals.go, the
-- formats of internal/concept/float_representation.go and `evt1ExactConversionFact` of
-- internal/concept/numeric_cast.go.
pub mod Range
pub mod Literals
pub mod Exact
use concept.Base.{
  ℕ, true, Option, false, String, Bool, Check, ℤ, if◌then◌else◌, suc, some, ltb, str_eq, not, ◌||◌,
  none, ◌==◌, negsuc, sub_ℕ, pos, ◌>>=◌, or_fail, ◌>>◌, reject, ◌&&◌, any, ◌-◌, leb, ◌∷◌, ◌+◌, [],
  zero,
}

-- The results of `evt1IntegerTypeRange`.
pub record IntegerRange : Type 0 where
  pub signed : Bool
  pub max_magnitude : ℕ
  pub min_magnitude : ℕ
  pub width : ℕ

abbrev pub signed_range : ℕ → ℕ → IntegerRange
signed_range limit width = record {
  signed = true;
  max_magnitude = limit;
  min_magnitude = suc limit;
  width = width;
}

abbrev pub unsigned_range : ℕ → ℕ → IntegerRange
unsigned_range limit width = record {
  signed = false;
  max_magnitude = limit;
  min_magnitude = 0;
  width = width;
}

unfoldable pub integer_type_range : String → Option IntegerRange
integer_type_range name =
    if str_eq name "int"
    then some (signed_range 2147483647 32)
    else if str_eq name "uint"
    then some (unsigned_range 4294967295 32)
    else if str_eq name "uint8" || str_eq name "byte"
    then some (unsigned_range 255 8)
    else if str_eq name "uint16"
    then some (unsigned_range 65535 16)
    else if str_eq name "uint32"
    then some (unsigned_range 4294967295 32)
    else if str_eq name "uint64" || str_eq name "usize"
    then some (unsigned_range 18446744073709551615 64)
    else if str_eq name "isize"
    then some (signed_range 9223372036854775807 64)
    else none

-- A literal's `uint64` magnitude, its sign and its suffix.
pub record IntLiteral : Type 0 where
  pub magnitude : ℕ
  pub negative : Bool
  pub is_unsigned : Bool

abbrev pub limit_of : IntegerRange → Bool → ℕ
limit_of r true = r.min_magnitude
limit_of r false = r.max_magnitude

unfoldable pub resolve_integer_literal : IntLiteral → String → Check
resolve_integer_literal l name = do
  r ← or_fail (integer_type_range name) "CV4644"
  reject (l.is_unsigned && r.signed) "CV4644"
  reject (l.negative && not r.signed) "CV4644"
  reject (ltb (limit_of r l.negative) l.magnitude) "CV4644"

abbrev pub negated : ℕ → ℤ
negated zero = pos 0
negated (suc n) = negsuc n

unfoldable pub signed64_of : Bool → ℕ → Option ℤ
signed64_of true n =
    if ltb 9223372036854775808 n
    then none
    else if n == 9223372036854775808
    then some (negsuc 9223372036854775807)
    else some (negated n)
signed64_of false n = if ltb 9223372036854775807 n then none else some (pos n)

-- The `int64` that the literal denotes.
unfoldable pub signed64 : IntLiteral → Option ℤ
unfolding signed64_of
signed64 l = signed64_of l.negative l.magnitude

-- The fields of `Type` that a numeric type has; `quantity` is an identity of its unit.
pub record NumericType : Type 0 where
  pub name : String
  pub kind : String
  pub representation : String
  pub ownership : String
  pub const : Bool
  pub scoped : Bool
  pub imported : Bool
  pub is_unsafe : Bool
  pub quantity : Option ℕ

pub record FloatRepresentationInfo : Type 0 where
  pub representation : String
  pub bits : ℕ
  pub exponent_bits : ℕ
  pub mantissa_bits : ℕ

abbrev pub float_format : String → ℕ → ℕ → ℕ → Option FloatRepresentationInfo
float_format n b e m =
    some (record { representation = n; bits = b; exponent_bits = e; mantissa_bits = m })

unfoldable pub implied_representation : NumericType → String
implied_representation t =
    if not (str_eq t.representation "")
    then t.representation
    else if str_eq t.name "half" || str_eq t.name "float16"
    then "binary16"
    else if str_eq t.name "float" || str_eq t.name "float32"
    then "binary32"
    else if str_eq t.name "double" || str_eq t.name "float64"
    then "binary64"
    else ""

unfoldable pub format_of : String → Option FloatRepresentationInfo
format_of r =
    if str_eq r "binary16"
    then float_format r 16 5 10
    else if str_eq r "binary32"
    then float_format r 32 8 23
    else if str_eq r "binary64"
    then float_format r 64 11 52
    else if str_eq r "bfloat16"
    then float_format r 16 8 7
    else if str_eq r "float8e4m3"
    then float_format r 8 4 3
    else if str_eq r "float8e5m2"
    then float_format r 8 5 2
    else none

unfoldable pub float_representation_info : NumericType → Option FloatRepresentationInfo
unfolding implied_representation format_of
float_representation_info t =
    if str_eq t.kind "builtin" then format_of (implied_representation t) else none

unfoldable pub numeric_representation : NumericType → Bool
numeric_representation t =
    any (str_eq t.name) (
      "int" ∷ "uint" ∷ "uint8" ∷ "uint16" ∷ "uint32" ∷ "byte" ∷ "uint64" ∷ "usize" ∷ "isize"
      ∷ "half" ∷ "float" ∷ "double" ∷ [])
    && str_eq t.kind "builtin"

abbrev pub same_quantity : Option ℕ → Option ℕ → Bool
same_quantity none none = true
same_quantity (some q) (some r) = q == r
same_quantity none (some r) = false
same_quantity (some q) none = false

abbrev pub same_format : Option FloatRepresentationInfo → Option FloatRepresentationInfo → Bool
same_format none none = true
same_format (some f) (some g) = str_eq f.representation g.representation
same_format none (some g) = false
same_format (some f) none = false

abbrev pub same_flag : Bool → Bool → Bool
same_flag true b = b
same_flag false b = not b

-- `Type.Equal` between built-in numeric types, whose other fields are empty.
unfoldable pub numeric_equal : NumericType → NumericType → Bool
numeric_equal s t =
    same_format (float_representation_info s) (float_representation_info t)
    && (str_eq s.name t.name
        && (str_eq s.kind t.kind
            && str_eq s.ownership t.ownership
            && same_flag s.const t.const
            && same_flag s.scoped t.scoped
            && same_flag s.imported t.imported
            && same_flag s.is_unsafe t.is_unsafe
            && same_quantity s.quantity t.quantity))

pub data FactOutcome : Type 0 where
  disproven proven unknown : FactOutcome

abbrev pub proven_if : Bool → FactOutcome
proven_if true = proven
proven_if false = disproven

-- Where the range is unknown the source reads zeros.
abbrev pub range_or_zero : Option IntegerRange → IntegerRange
range_or_zero none = unsigned_range 0 0
range_or_zero (some r) = r

-- The bits that a magnitude below the largest needs.
abbrev pub needed_bits : IntegerRange → ℕ
needed_bits r = if r.signed then r.width - 1 else r.width

unfoldable pub fits_format : FloatRepresentationInfo → IntegerRange → Bool
fits_format g r =
    leb (needed_bits r) (g.mantissa_bits + 1) && (not (g.bits == 16) || leb (needed_bits r) 15)

unfoldable pub contains_range : IntegerRange → IntegerRange → Bool
contains_range r s =
    (not s.signed || r.signed)
    && (leb s.max_magnitude r.max_magnitude
        && (not s.signed || leb s.min_magnitude r.min_magnitude))

-- Between types that are not equal.
unfoldable pub exact_between :
    Option FloatRepresentationInfo
    → Option FloatRepresentationInfo
    → Option IntegerRange
    → Option IntegerRange
    → FactOutcome
exact_between (some f) (some g) s r =
    proven_if (leb f.mantissa_bits g.mantissa_bits && leb f.exponent_bits g.exponent_bits)
exact_between (some f) none s r = disproven
exact_between none (some g) s r = proven_if (fits_format g (range_or_zero s))
exact_between none none s none = disproven
exact_between none none s (some r) = proven_if (contains_range r (range_or_zero s))

unfoldable pub exact_conversion_fact : NumericType → NumericType → FactOutcome
exact_conversion_fact s t =
    if not (numeric_representation s) || not (numeric_representation t)
    then disproven
    else if not (same_quantity s.quantity t.quantity)
    then disproven
    else if numeric_equal s t
    then proven
    else exact_between (float_representation_info s) (float_representation_info t)
        (integer_type_range s.name) (integer_type_range t.name)
