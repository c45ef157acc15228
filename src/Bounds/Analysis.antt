-- ===== src/Bounds/Analysis.antt =====
-- `value`, `constantBool`, `assume` and `expr`: lines 133 to 181 and 252 to 475 of
-- internal/concept/local_bounds.go and lines 218 to 249 of internal/concept/local_bounds_calls.go.
-- The calls that `constantCall` folds, and the forms whose children `expr` only visits, stand under
-- `opaque`, of which nothing is known.
use concept.Bounds.Domain.{
  LocalValue, BinaryOp, LocalBoundsState, LocalInterval, local_arithmetic, at_least, minus, greater,
  at_most, local_integer, less, unequal, equal_to, other_op, plus, no_value, max_ℤ, get, assign,
  min_ℤ, int32_min, int32_max, and_op, times, or_op,
}
use concept.Bounds.Syntax.{
  Expr, UnaryOp, int_literal, len_call, paren, unary, comptime_int, name_expr, binary, bool_literal,
  cast, index, if_expr, opaque, not_op, negate, other_unary,
}
use concept.Base.{
  ℤ, ℕ, String, Bool, not, pos, Option, false, some, if◌then◌else◌, ltb_ℤ, ◌&&◌, str_eq, leb_ℤ, leb,
  ◌-ℤ◌, ◌+ℤ◌, none, ◌==ℤ◌, true,
}

abbrev pub signed_magnitude : ℕ → Bool → ℤ
signed_magnitude magnitude negative = if negative then pos 0 -ℤ pos magnitude else pos magnitude

abbrev pub literal_value : ℕ → Bool → LocalValue
literal_value magnitude negative =
    if leb magnitude 2147483647
    then local_integer (signed_magnitude magnitude negative)
    else no_value

abbrev pub comptime_value : ℤ → LocalValue
comptime_value n = if leb_ℤ int32_min n && leb_ℤ n int32_max then local_integer n else no_value

abbrev pub constant : LocalValue → Option ℤ
constant v = if v.int_known && v.integer.lo ==ℤ v.integer.hi then some v.integer.lo else none

-- The comparisons on two constants.
unfoldable pub compare_constants : BinaryOp → ℤ → ℤ → Option Bool
compare_constants less a b = some (ltb_ℤ a b)
compare_constants at_most a b = some (leb_ℤ a b)
compare_constants greater a b = some (ltb_ℤ b a)
compare_constants at_least a b = some (leb_ℤ b a)
compare_constants equal_to a b = some (a ==ℤ b)
compare_constants unequal a b = some (not (a ==ℤ b))
compare_constants plus a b = none
compare_constants minus a b = none
compare_constants times a b = none
compare_constants and_op a b = none
compare_constants or_op a b = none
compare_constants other_op a b = none

abbrev pub both_constant : BinaryOp → Option ℤ → Option ℤ → Option Bool
both_constant op (some a) (some b) = compare_constants op a b
both_constant op none b = none
both_constant op (some a) none = none

abbrev pub int_only : String → LocalValue → LocalValue
int_only resolved v = if str_eq resolved "int" then v else no_value

abbrev pub cast_value : String → LocalValue → LocalValue
cast_value target v = if str_eq target "int" && v.int_known then v else no_value

abbrev pub chosen : Option Bool → LocalValue → LocalValue → LocalValue
chosen none x y = no_value
chosen (some true) x y = x
chosen (some false) x y = y

abbrev pub negated_value : UnaryOp → LocalValue → LocalValue
negated_value negate v = local_arithmetic minus (local_integer (pos 0)) v
negated_value not_op v = no_value
negated_value other_unary v = no_value

unfoldable mutual
  pub value : (String → Bool) → LocalBoundsState → Expr → LocalValue
  value exposed s (int_literal m n) = literal_value m n
  value exposed s (comptime_int v) = comptime_value v
  value exposed s (bool_literal b) = no_value
  value exposed s (name_expr x) = get exposed s x
  value exposed s (paren e) = value exposed s e
  value exposed s (cast t e) = cast_value t (value exposed s e)
  value exposed s (unary op e) = negated_value op (value exposed s e)
  value exposed s (binary op r k x y) =
      int_only r (local_arithmetic op (value exposed s x) (value exposed s y))
  value exposed s (index b i k p) = no_value
  value exposed s (len_call v) = no_value
  value exposed s (if_expr c x y) =
      chosen (constant_bool exposed s c) (value exposed s x) (value exposed s y)
  value exposed s (opaque n) = no_value

  pub constant_bool : (String → Bool) → LocalBoundsState → Expr → Option Bool
  constant_bool exposed s (bool_literal b) = some b
  constant_bool exposed s (paren e) = constant_bool exposed s e
  constant_bool exposed s (binary op r k x y) =
      both_constant op (constant (value exposed s x)) (constant (value exposed s y))
  constant_bool exposed s (int_literal m n) = none
  constant_bool exposed s (comptime_int v) = none
  constant_bool exposed s (name_expr x) = none
  constant_bool exposed s (cast t e) = none
  constant_bool exposed s (unary op e) = none
  constant_bool exposed s (index b i k p) = none
  constant_bool exposed s (len_call v) = none
  constant_bool exposed s (if_expr c x y) = none
  constant_bool exposed s (opaque n) = none

-- The operator that holds where `op` does not.
unfoldable pub opposite : BinaryOp → BinaryOp
opposite less = at_least
opposite at_most = greater
opposite greater = at_most
opposite at_least = less
opposite equal_to = unequal
opposite unequal = equal_to
opposite plus = other_op
opposite minus = other_op
opposite times = other_op
opposite and_op = other_op
opposite or_op = other_op
opposite other_op = other_op

abbrev pub assumed_op : BinaryOp → Bool → BinaryOp
assumed_op op truth = if truth then op else opposite op

-- The least length under which `Len(view) op n` holds, where the analysis uses it.
unfoldable pub length_bound : BinaryOp → ℤ → Option ℤ
length_bound at_least n = some n
length_bound equal_to n = some n
length_bound greater n = some (n +ℤ pos 1)
length_bound less n = none
length_bound at_most n = none
length_bound unequal n = none
length_bound plus n = none
length_bound minus n = none
length_bound times n = none
length_bound and_op n = none
length_bound or_op n = none
length_bound other_op n = none

abbrev pub raise_length : LocalBoundsState → String → LocalValue → Option ℤ → LocalBoundsState
raise_length s view v none = s
raise_length s view v (some n) =
    if v.length_held then assign s view (record v { length_min = max_ℤ v.length_min n }) else s

unfoldable pub narrow : BinaryOp → ℤ → LocalInterval → LocalInterval
narrow at_least n i = record i { lo = max_ℤ i.lo n }
narrow greater n i = record i { lo = max_ℤ i.lo (n +ℤ pos 1) }
narrow at_most n i = record i { hi = min_ℤ i.hi n }
narrow less n i = record i { hi = min_ℤ i.hi (n -ℤ pos 1) }
narrow equal_to n i = record { lo = max_ℤ i.lo n; hi = min_ℤ i.hi n }
narrow unequal n i = i
narrow plus n i = i
narrow minus n i = i
narrow times n i = i
narrow and_op n i = i
narrow or_op n i = i
narrow other_op n i = i

-- An empty interval is given up.
abbrev pub narrowed : LocalValue → LocalInterval → LocalValue
narrowed v i = record v { integer = i; int_known = not (ltb_ℤ i.hi i.lo) }

-- The refinement by `left op n`.
unfoldable pub refine : (String → Bool) → BinaryOp → Expr → ℤ → LocalBoundsState → LocalBoundsState
refine exposed op (len_call view) n s = raise_length s view (get exposed s view) (length_bound op n)
refine exposed op (name_expr x) n s =
    let v = get exposed s x in
    if v.int_known then assign s x (narrowed v (narrow op n v.integer)) else s
refine exposed op (int_literal m b) n s = s
refine exposed op (comptime_int v) n s = s
refine exposed op (bool_literal b) n s = s
refine exposed op (paren e) n s = s
refine exposed op (cast t e) n s = s
refine exposed op (unary o e) n s = s
refine exposed op (binary o r k x y) n s = s
refine exposed op (index b i k p) n s = s
refine exposed op (if_expr c x y) n s = s
refine exposed op (opaque k) n s = s

abbrev pub refine_by :
    (String → Bool) → BinaryOp → Expr → Option ℤ → LocalBoundsState → LocalBoundsState
refine_by exposed op left none s = s
refine_by exposed op left (some n) s = refine exposed op left n s

-- Whether both operands are assumed.
unfoldable pub splits : BinaryOp → Bool → Bool
splits and_op truth = truth
splits or_op truth = not truth
splits plus truth = false
splits minus truth = false
splits times truth = false
splits less truth = false
splits at_most truth = false
splits greater truth = false
splits at_least truth = false
splits equal_to truth = false
splits unequal truth = false
splits other_op truth = false

unfoldable pub assume : (String → Bool) → Expr → Bool → LocalBoundsState → LocalBoundsState
assume exposed (paren e) truth s = assume exposed e truth s
assume exposed (unary not_op e) truth s = assume exposed e (not truth) s
assume exposed (unary negate e) truth s = s
assume exposed (unary other_unary e) truth s = s
assume exposed (binary op r k x y) truth s =
    let both = assume exposed y truth (assume exposed x truth s) in
    if splits op truth
    then both
    else refine_by exposed (assumed_op op truth) x (constant (value exposed s y)) s
assume exposed (int_literal m b) truth s = s
assume exposed (comptime_int v) truth s = s
assume exposed (bool_literal b) truth s = s
assume exposed (name_expr x) truth s = s
assume exposed (cast t e) truth s = s
assume exposed (index b i k p) truth s = s
assume exposed (len_call v) truth s = s
assume exposed (if_expr c x y) truth s = s
assume exposed (opaque k) truth s = s
