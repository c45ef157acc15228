-- ===== src/Numeric/Tests.antt =====
-- The theorems of Numeric at the least int64 and at a conversion from int to double.
use concept.Numeric.Integers.{
  IntLiteral, resolve_integer_literal, exact_conversion_fact, float_representation_info,
  integer_type_range, numeric_representation, numeric_equal, exact_between, fits_format,
  NumericType, signed_range,
}
use concept.Base.{◌≡◌, ok, ◌↔◌, true, String, false, pos, none, arith, refl}
use concept.Numeric.Integers.Exact.{Exact, exact_conversion_fact-Exact}
use concept.Numeric.Integers.Literals.{Resolves, resolve_integer_literal_iff}

abbrev least : IntLiteral
least = record { magnitude = 9223372036854775808; negative = true; is_unsigned = false }

resolve_integer_literal_iff_example :
    (resolve_integer_literal least "isize" ≡ ok tt) ↔ Resolves least "isize"
resolve_integer_literal_iff_example = resolve_integer_literal_iff least "isize"

abbrev plain_number : String → NumericType
plain_number n = record {
  name = n;
  kind = "builtin";
  representation = "";
  ownership = "";
  const = false;
  scoped = false;
  imported = false;
  is_unsafe = false;
  quantity = none;
}

exact_conversion_fact-Exact_example :
    Exact
      (float_representation_info (plain_number "double"))
      (integer_type_range "double")
      (pos 2147483647)
unfolding exact_conversion_fact float_representation_info integer_type_range numeric_representation
    numeric_equal exact_between fits_format
exact_conversion_fact-Exact_example =
    exact_conversion_fact-Exact (plain_number "int") (plain_number "double")
      (signed_range 2147483647 32) (pos 2147483647) refl refl (omega arith) refl
