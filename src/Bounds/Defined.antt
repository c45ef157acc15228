-- ===== src/Bounds/Defined.antt =====
-- The accesses of an annotated expression stay in their spans.
use concept.Base.{
  none, false, true, Bool, String, Option, ◌≡◌, ℤ, some, if◌then◌else◌, str_eq, ◌+ℤ◌, pos, ◌-ℤ◌,
  ◌&&◌, ◌*ℤ◌, not, subst, sym, ◌∙◌,
}
use concept.Bounds.Run.{
  undefined, trapped, and_then, run_cast, run_unary, run_operands, run_binary, run_ints,
  short_circuit, access, in_span, is_int32, or_trapped, length_of, branch_on, int_result, Outcome,
  Machine, Val, run, done, bool_val, Store, int_val, span_val, other_val, run_arithmetic,
}
use concept.Bounds.Domain.{
  and_op, or_op, other_op, plus, minus, times, less, at_most, greater, at_least, equal_to, unequal,
  BinaryOp, LocalBoundsState,
}
use concept.Bounds.Syntax.{
  UnaryOp, not_op, other_unary, Expr, paren, cast, unary, binary, index, if_expr, int_literal,
  comptime_int, bool_literal, name_expr, len_call, opaque,
}
use concept.Bounds.Visit.{visit}
use concept.Bounds.Checks.{visit-run}
use concept.Bounds.Sound.{Snapshots, Abstracts, Unscaled}

-- No access of the expression has a proof yet.
abbrev pub Unproved : Expr → Type 0
Unproved (paren e) = Unproved e
Unproved (cast t e) = Unproved e
Unproved (unary op e) = Unproved e
Unproved (binary op r k x y) = Unproved x × Unproved y
Unproved (index b i k p) = (p ≡ none) × Unproved b × Unproved i
Unproved (if_expr c x y) = Unproved c × Unproved x × Unproved y
Unproved (int_literal n b) = Unit
Unproved (comptime_int v) = Unit
Unproved (bool_literal b) = Unit
Unproved (name_expr x) = Unit
Unproved (len_call v) = Unit
Unproved (opaque k) = Unit

abbrev Defined : Outcome → Type 0
Defined o = o ≡ undefined → ⊥

and_then-Defined :
    (o : Outcome) (f : Val → Outcome)
    → Defined o
    → ((v : Val) → Defined (f v))
    → Defined (and_then o f)
unfolding and_then
and_then-Defined (done v) f h g = g v
and_then-Defined trapped f h g = λ e. cc
and_then-Defined undefined f h g = h

or_trapped-Defined : (o : Option Val) → Defined (or_trapped o)
or_trapped-Defined none e = cc
or_trapped-Defined (some v) e = cc

if-Defined : (b : Bool) (x y : Outcome) → Defined x → Defined y → Defined (if b then x else y)
if-Defined true x y h k = h
if-Defined false x y h k = k

done-Defined : (v : Val) → Defined (done v)
done-Defined v e = cc

int_result-Defined : (m : Machine) (n : ℤ) → Defined (int_result m n)
int_result-Defined m n =
    if-Defined (is_int32 n) _ _ (done-Defined (int_val n)) (or_trapped-Defined (m.overflow n))

run_cast-Defined : (m : Machine) (t : String) (v : Val) → Defined (run_cast m t v)
unfolding run_cast
run_cast-Defined m t (int_val n) =
    if-Defined (str_eq t "int" && is_int32 n) _ _ (done-Defined (int_val n))
      (or_trapped-Defined (m.convert t (int_val n)))
run_cast-Defined m t (bool_val b) = or_trapped-Defined (m.convert t (bool_val b))
run_cast-Defined m t (span_val i n) = or_trapped-Defined (m.convert t (span_val i n))
run_cast-Defined m t (other_val i) = or_trapped-Defined (m.convert t (other_val i))

run_unary-Defined : (m : Machine) (op : UnaryOp) (v : Val) → Defined (run_unary m op v)
unfolding run_unary
run_unary-Defined m UnaryOp.negate (int_val n) = int_result-Defined m (pos 0 -ℤ n)
run_unary-Defined m UnaryOp.negate (bool_val b) =
    or_trapped-Defined (m.apply UnaryOp.negate (bool_val b))
run_unary-Defined m UnaryOp.negate (span_val i n) =
    or_trapped-Defined (m.apply UnaryOp.negate (span_val i n))
run_unary-Defined m UnaryOp.negate (other_val i) =
    or_trapped-Defined (m.apply UnaryOp.negate (other_val i))
run_unary-Defined m not_op (bool_val b) = done-Defined (bool_val (not b))
run_unary-Defined m not_op (int_val n) = λ e. cc
run_unary-Defined m not_op (span_val i n) = λ e. cc
run_unary-Defined m not_op (other_val i) = λ e. cc
run_unary-Defined m other_unary v = or_trapped-Defined (m.apply other_unary v)

arithmetic-Defined :
    (m : Machine) (op : BinaryOp) (n : ℤ) (r : String) (k : Bool) (a b : ℤ)
    → Defined (run_arithmetic m op n r k a b)
arithmetic-Defined m op n r k a b =
    if-Defined (str_eq r "int" && not k) _ _ (int_result-Defined m n)
      (or_trapped-Defined (m.operate op r k (int_val a) (int_val b)))

run_ints-Defined :
    (m : Machine) (op : BinaryOp) (r : String) (k : Bool) (a b : ℤ)
    → Defined (run_ints m op r k a b)
unfolding run_ints
run_ints-Defined m plus r k a b = arithmetic-Defined m plus (a +ℤ b) r k a b
run_ints-Defined m minus r k a b = arithmetic-Defined m minus (a -ℤ b) r k a b
run_ints-Defined m times r k a b = arithmetic-Defined m times (a *ℤ b) r k a b
run_ints-Defined m less r k a b = λ e. cc
run_ints-Defined m at_most r k a b = λ e. cc
run_ints-Defined m greater r k a b = λ e. cc
run_ints-Defined m at_least r k a b = λ e. cc
run_ints-Defined m equal_to r k a b = λ e. cc
run_ints-Defined m unequal r k a b = λ e. cc
run_ints-Defined m and_op r k a b =
    or_trapped-Defined (m.operate and_op r k (int_val a) (int_val b))
run_ints-Defined m or_op r k a b = or_trapped-Defined (m.operate or_op r k (int_val a) (int_val b))
run_ints-Defined m other_op r k a b =
    or_trapped-Defined (m.operate other_op r k (int_val a) (int_val b))

run_binary-Defined :
    (m : Machine) (op : BinaryOp) (r : String) (k : Bool) (v w : Val)
    → Defined (run_binary m op r k v w)
unfolding run_binary
run_binary-Defined m op r k (int_val a) (int_val b) = run_ints-Defined m op r k a b
run_binary-Defined m op r k v w = or_trapped-Defined (m.operate op r k v w)

short_circuit-Defined :
    (stops : Bool) (v : Val) (o : Outcome) → Defined o → Defined (short_circuit stops v o)
short_circuit-Defined true (bool_val true) o h = λ e. cc
short_circuit-Defined true (bool_val false) o h = h
short_circuit-Defined false (bool_val true) o h = h
short_circuit-Defined false (bool_val false) o h = λ e. cc
short_circuit-Defined stops (int_val n) o h = λ e. cc
short_circuit-Defined stops (span_val i n) o h = λ e. cc
short_circuit-Defined stops (other_val i) o h = λ e. cc

plain-Defined :
    (m : Machine) (op : BinaryOp) (r : String) (k : Bool) (x y : Outcome)
    → Defined x
    → Defined y
    → Defined (and_then x (λ v. and_then y (run_binary m op r k v)))
plain-Defined m op r k x y h g =
    and_then-Defined x _ h (λ v. and_then-Defined y _ g (run_binary-Defined m op r k v))

run_operands-Defined :
    (m : Machine) (op : BinaryOp) (r : String) (k : Bool) (x y : Outcome)
    → Defined x
    → Defined y
    → Defined (run_operands m op r k x y)
unfolding run_operands
run_operands-Defined m and_op r k x y h g =
    and_then-Defined x _ h (λ v. short_circuit-Defined false v y g)
run_operands-Defined m or_op r k x y h g =
    and_then-Defined x _ h (λ v. short_circuit-Defined true v y g)
run_operands-Defined m plus r k x y h g = plain-Defined m plus r k x y h g
run_operands-Defined m minus r k x y h g = plain-Defined m minus r k x y h g
run_operands-Defined m times r k x y h g = plain-Defined m times r k x y h g
run_operands-Defined m less r k x y h g = plain-Defined m less r k x y h g
run_operands-Defined m at_most r k x y h g = plain-Defined m at_most r k x y h g
run_operands-Defined m greater r k x y h g = plain-Defined m greater r k x y h g
run_operands-Defined m at_least r k x y h g = plain-Defined m at_least r k x y h g
run_operands-Defined m equal_to r k x y h g = plain-Defined m equal_to r k x y h g
run_operands-Defined m unequal r k x y h g = plain-Defined m unequal r k x y h g
run_operands-Defined m other_op r k x y h g = plain-Defined m other_op r k x y h g

access-Defined : (m : Machine) (v w : Val) → Defined (access m none v w)
unfolding access
access-Defined m (span_val i l) (int_val n) =
    if-Defined (in_span n l) _ _ (done-Defined (m.element i n)) (λ e. cc)
access-Defined m (span_val i l) (bool_val b) = λ e. cc
access-Defined m (span_val i l) (span_val j n) = λ e. cc
access-Defined m (span_val i l) (other_val j) = λ e. cc
access-Defined m (int_val n) w = λ e. cc
access-Defined m (bool_val b) w = λ e. cc
access-Defined m (other_val j) w = λ e. cc

length_of-Defined : (v : Val) → Defined (length_of v)
length_of-Defined (span_val i n) e = cc
length_of-Defined (int_val n) e = cc
length_of-Defined (bool_val b) e = cc
length_of-Defined (other_val i) e = cc

branch_on-Defined :
    (m : Machine) (v : Val) (x y : Outcome) → Defined x → Defined y → Defined (branch_on m v x y)
branch_on-Defined m (bool_val b) x y h g = if-Defined b x y h g
branch_on-Defined m (int_val n) x y h g = λ e. cc
branch_on-Defined m (span_val i n) x y h g = λ e. cc
branch_on-Defined m (other_val i) x y h g = λ e. cc

Unproved-Defined : (m : Machine) (σ : Store) (e : Expr) → Unproved e → Defined (run m σ e)
unfolding run
Unproved-Defined m σ (paren e) h = Unproved-Defined m σ e h
Unproved-Defined m σ (cast t e) h =
    and_then-Defined (run m σ e) _ (Unproved-Defined m σ e h) (run_cast-Defined m t)
Unproved-Defined m σ (unary op e) h =
    and_then-Defined (run m σ e) _ (Unproved-Defined m σ e h) (run_unary-Defined m op)
Unproved-Defined m σ (binary op r k x y) (h, g) =
    run_operands-Defined m op r k (run m σ x) (run m σ y) (Unproved-Defined m σ x h)
      (Unproved-Defined m σ y g)
Unproved-Defined m σ (index b i k p) (e, h, g) =
    and_then-Defined (run m σ b) _ (Unproved-Defined m σ b h) (λ v.
      and_then-Defined (run m σ i) _ (Unproved-Defined m σ i g)
        (λ w. subst (λ z. Defined (access m z v w)) (sym e) (access-Defined m v w)))
Unproved-Defined m σ (if_expr c x y) (h, f, g) =
    and_then-Defined (run m σ c) _ (Unproved-Defined m σ c h) (λ v.
      branch_on-Defined m v (run m σ x) (run m σ y) (Unproved-Defined m σ x f)
        (Unproved-Defined m σ y g))
Unproved-Defined m σ (int_literal n b) h = λ e. cc
Unproved-Defined m σ (comptime_int v) h = λ e. cc
Unproved-Defined m σ (bool_literal b) h = λ e. cc
Unproved-Defined m σ (name_expr x) h = λ e. cc
Unproved-Defined m σ (len_call v) h = length_of-Defined (σ v)
Unproved-Defined m σ (opaque k) h = or_trapped-Defined (m.unknown σ k)

-- An expression that has no proofs yet and no scaled arithmetic, annotated from a state that is true
-- of the store, never does an access out of bounds without a check.
pub visit-run_defined :
    (exposed : String → Bool) (γ : Snapshots) (m : Machine) (σ : Store) (e : Expr)
    (s : LocalBoundsState)
    → Abstracts exposed γ s σ
    → Unscaled e
    → Unproved e
    → ¬ (run m σ (visit exposed e s).annotated ≡ undefined)
visit-run_defined exposed γ m σ e s a u p h =
    Unproved-Defined m σ e p (sym (visit-run exposed γ m σ e s a u) ∙ h)
