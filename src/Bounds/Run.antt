-- ===== src/Bounds/Run.antt =====
-- What the expressions of Bounds.Syntax compute: an independent description, against which the
-- analysis is proved. What the rest of the language does is the record `Machine`.
use concept.Bounds.Syntax.{
  Expr, UnaryOp, int_literal, LocalBoundsProof, comptime_int, bool_literal, name_expr, paren, cast,
  unary, binary, index, len_call, if_expr, opaque,
}
use concept.Bounds.Analysis.{signed_magnitude}
use concept.Base.{
  pos, Bool, String, ℤ, Option, if◌then◌else◌, ◌-ℤ◌, ℕ, some, str_eq, ◌+ℤ◌, false, leb_ℤ, ◌*ℤ◌,
  true, not, ◌&&◌, ltb_ℤ, ◌==ℤ◌, none,
}
use concept.Bounds.Domain.{
  BinaryOp, int32_min, int32_max, and_op, plus, or_op, minus, times, less, at_most, greater,
  at_least, equal_to, unequal, other_op,
}
use concept.Numeric.Integers.{same_flag}

-- A span is a view of some elements, with its length.
pub data Val : Type 0 where
  int_val : ℤ → Val
  bool_val : Bool → Val
  span_val : (view : ℕ) (length : ℤ) → Val
  other_val : ℕ → Val

-- An access without a check that leaves the span is `undefined`.
pub data Outcome : Type 0 where
  done : Val → Outcome
  trapped : Outcome
  undefined : Outcome

abbrev pub Store : Type 0
Store = String → Val

-- What is outside the analysis; `none` is a trap.
pub record Machine : Type 0 where
  -- The result of `int` arithmetic outside 32 bits.
  pub overflow : ℤ → Option Val
  pub element : ℕ → ℤ → Val
  pub convert : String → Val → Option Val
  pub apply : UnaryOp → Val → Option Val
  pub operate : BinaryOp → String → Bool → Val → Val → Option Val
  pub unknown : Store → ℕ → Option Val

abbrev pub or_trapped : Option Val → Outcome
or_trapped none = trapped
or_trapped (some v) = done v

unfoldable pub and_then : Outcome → (Val → Outcome) → Outcome
and_then (done v) f = f v
and_then trapped f = trapped
and_then undefined f = undefined

abbrev pub is_int32 : ℤ → Bool
is_int32 n = leb_ℤ int32_min n && leb_ℤ n int32_max

-- Checked `int` arithmetic.
abbrev pub int_result : Machine → ℤ → Outcome
int_result m n = if is_int32 n then done (int_val n) else or_trapped (m.overflow n)

unfoldable pub run_cast : Machine → String → Val → Outcome
run_cast m t (int_val n) =
    if str_eq t "int" && is_int32 n then done (int_val n) else or_trapped (m.convert t (int_val n))
run_cast m t (bool_val b) = or_trapped (m.convert t (bool_val b))
run_cast m t (span_val i n) = or_trapped (m.convert t (span_val i n))
run_cast m t (other_val i) = or_trapped (m.convert t (other_val i))

unfoldable pub run_unary : Machine → UnaryOp → Val → Outcome
run_unary m UnaryOp.negate (int_val n) = int_result m (pos 0 -ℤ n)
run_unary m UnaryOp.negate (bool_val b) = or_trapped (m.apply UnaryOp.negate (bool_val b))
run_unary m UnaryOp.negate (span_val i n) = or_trapped (m.apply UnaryOp.negate (span_val i n))
run_unary m UnaryOp.negate (other_val i) = or_trapped (m.apply UnaryOp.negate (other_val i))
run_unary m UnaryOp.not_op (bool_val b) = done (bool_val (not b))
run_unary m UnaryOp.not_op (int_val n) = trapped
run_unary m UnaryOp.not_op (span_val i n) = trapped
run_unary m UnaryOp.not_op (other_val i) = trapped
run_unary m UnaryOp.other_unary v = or_trapped (m.apply UnaryOp.other_unary v)

-- Arithmetic on `int`s whose units need no scale.
abbrev pub run_arithmetic : Machine → BinaryOp → ℤ → String → Bool → ℤ → ℤ → Outcome
run_arithmetic m op exact resolved scaled a b =
    if str_eq resolved "int" && not scaled
    then int_result m exact
    else or_trapped (m.operate op resolved scaled (int_val a) (int_val b))

unfoldable pub run_ints : Machine → BinaryOp → String → Bool → ℤ → ℤ → Outcome
run_ints m plus r k a b = run_arithmetic m plus (a +ℤ b) r k a b
run_ints m minus r k a b = run_arithmetic m minus (a -ℤ b) r k a b
run_ints m times r k a b = run_arithmetic m times (a *ℤ b) r k a b
run_ints m less r k a b = done (bool_val (ltb_ℤ a b))
run_ints m at_most r k a b = done (bool_val (leb_ℤ a b))
run_ints m greater r k a b = done (bool_val (ltb_ℤ b a))
run_ints m at_least r k a b = done (bool_val (leb_ℤ b a))
run_ints m equal_to r k a b = done (bool_val (a ==ℤ b))
run_ints m unequal r k a b = done (bool_val (not (a ==ℤ b)))
run_ints m and_op r k a b = or_trapped (m.operate and_op r k (int_val a) (int_val b))
run_ints m or_op r k a b = or_trapped (m.operate or_op r k (int_val a) (int_val b))
run_ints m other_op r k a b = or_trapped (m.operate other_op r k (int_val a) (int_val b))

unfoldable pub run_binary : Machine → BinaryOp → String → Bool → Val → Val → Outcome
run_binary m op r k (int_val a) (int_val b) = run_ints m op r k a b
run_binary m op r k v w = or_trapped (m.operate op r k v w)

-- Where the first operand decides, the second is not run.
abbrev pub short_circuit : Bool → Val → Outcome → Outcome
short_circuit stops (bool_val b) rest = elim (same_flag stops b) [
  | true ↦ done (bool_val b)
  | false ↦ rest
]
short_circuit stops (int_val n) rest = trapped
short_circuit stops (span_val i n) rest = trapped
short_circuit stops (other_val i) rest = trapped

unfoldable pub run_operands : Machine → BinaryOp → String → Bool → Outcome → Outcome → Outcome
run_operands m and_op r k x y = and_then x (λ v. short_circuit false v y)
run_operands m or_op r k x y = and_then x (λ v. short_circuit true v y)
run_operands m op r k x y = and_then x (λ v. and_then y (run_binary m op r k v))

abbrev pub in_span : ℤ → ℤ → Bool
in_span n length = leb_ℤ (pos 0) n && ltb_ℤ n length

-- With a proof the access is not checked.
unfoldable pub access : Machine → Option LocalBoundsProof → Val → Val → Outcome
access m proof (span_val i length) (int_val n) =
    if in_span n length
    then done (m.element i n)
    else elim proof [ none ↦ trapped | some p ↦ undefined ]
access m proof v w = trapped

abbrev pub length_of : Val → Outcome
length_of (span_val i n) = done (int_val n)
length_of (int_val n) = trapped
length_of (bool_val b) = trapped
length_of (other_val i) = trapped

abbrev pub branch_on : Machine → Val → Outcome → Outcome → Outcome
branch_on m (bool_val b) x y = if b then x else y
branch_on m (int_val n) x y = trapped
branch_on m (span_val i n) x y = trapped
branch_on m (other_val i) x y = trapped

unfoldable pub run : Machine → Store → Expr → Outcome
run m σ (int_literal n b) = done (int_val (signed_magnitude n b))
run m σ (comptime_int v) = done (int_val v)
run m σ (bool_literal b) = done (bool_val b)
run m σ (name_expr x) = done (σ x)
run m σ (paren e) = run m σ e
run m σ (cast t e) = and_then (run m σ e) (run_cast m t)
run m σ (unary op e) = and_then (run m σ e) (run_unary m op)
run m σ (binary op r k x y) = run_operands m op r k (run m σ x) (run m σ y)
run m σ (index b i k p) = and_then (run m σ b) (λ v. and_then (run m σ i) (access m p v))
run m σ (len_call view) = length_of (σ view)
run m σ (if_expr c x y) = and_then (run m σ c) (λ v. branch_on m v (run m σ x) (run m σ y))
run m σ (opaque k) = or_trapped (m.unknown σ k)
