-- ===== src/Bounds/Visit.antt =====
-- `expr`: lines 254 to 386 of internal/concept/local_bounds.go, which leaves its proofs in the tree
-- and what an evaluation shows in the state. The calls, the accesses with several indices and the
-- forms whose children `expr` only visits stand under `opaque`; the ranges that `expr` leaves on
-- arithmetic are not part of `Expr`.
use concept.Base.{
  true, false, String, Option, Bool, if◌then◌else◌, ◌&&◌, ◌+ℤ◌, some, ltb_ℤ, leb_ℤ, str_eq, pos,
  none, not,
}
use concept.Bounds.Domain.{
  and_op, or_op, within_int32, hull, LocalValue, BinaryOp, max_ℤ, LocalBoundsState, known_interval,
  no_value, assign, update_all, local_join, local_arithmetic, get, plus, minus, times, less,
  at_most, greater, at_least, equal_to, unequal, other_op,
}
use concept.Bounds.Syntax.{
  checked_flow, counted_range, Expr, LocalBoundsProof, name_expr, binary, index, int_literal,
  comptime_int, bool_literal, paren, cast, unary, len_call, if_expr, opaque,
}
use concept.Bounds.Analysis.{assume, literal_value, comptime_value, int_only, negated_value}

-- The tree with its proofs, the value, and the state afterwards.
pub record Visited : Type 0 where
  pub annotated : Expr
  pub found : LocalValue
  pub after : LocalBoundsState

unfoldable pub name_of : Expr → Option String
name_of (name_expr x) = some x
name_of (int_literal n b) = none
name_of (comptime_int v) = none
name_of (bool_literal b) = none
name_of (paren e) = none
name_of (cast t e) = none
name_of (unary op e) = none
name_of (binary op r k x y) = none
name_of (index b i k p) = none
name_of (len_call v) = none
name_of (if_expr c x y) = none
name_of (opaque k) = none

abbrev pub narrow_cast : String → LocalValue → LocalValue
narrow_cast target v =
    if str_eq target "int" && (v.int_known && within_int32 v.integer) then v else no_value

-- The state in which the right operand is visited.
unfoldable pub right_state : (String → Bool) → BinaryOp → Expr → LocalBoundsState → LocalBoundsState
right_state exposed and_op left s = assume exposed left true s
right_state exposed or_op left s = assume exposed left false s
right_state exposed plus left s = s
right_state exposed minus left s = s
right_state exposed times left s = s
right_state exposed less left s = s
right_state exposed at_most left s = s
right_state exposed greater left s = s
right_state exposed at_least left s = s
right_state exposed equal_to left s = s
right_state exposed unequal left s = s
right_state exposed other_op left s = s

abbrev pub is_short : BinaryOp → Bool
is_short and_op = true
is_short or_op = true
is_short op = false

unfoldable pub visit_binary : BinaryOp → String → Bool → Visited → Visited → Visited
visit_binary op r k x y =
    let e = binary op r k x.annotated y.annotated in
    if is_short op
    then record {
      annotated = e;
      found = no_value;
      after = update_all x.after (local_join x.after y.after);
    }
    else record {
      annotated = e;
      found = int_only r (local_arithmetic op x.found y.found);
      after = y.after;
    }

abbrev pub counted :
    String → String → Option String → Option LocalBoundsProof → Option LocalBoundsProof
counted view snapshot none old = old
counted view snapshot (some counter) old = some (counted_range view counter snapshot)

unfoldable pub index_proof :
    (view : String) (base i : LocalValue) (counter : Option String)
    → Option LocalBoundsProof
    → Option LocalBoundsProof
index_proof view base i counter old =
    if ltb_ℤ i.integer.hi base.length_min
    then some (checked_flow i.integer.lo i.integer.hi base.length_min)
    else if not (str_eq base.length_id "") && str_eq i.below_length base.length_id
    then counted view base.length_id counter old
    else old

abbrev pub checkable : Bool → LocalValue → LocalValue → Bool
checkable span_index base i =
    (span_index && base.length_held) && (i.int_known && leb_ℤ (pos 0) i.integer.lo)

-- A successful access shows that the length is more than the lower endpoint.
abbrev pub reached : LocalValue → LocalValue → LocalValue
reached base i = record base { length_min = max_ℤ base.length_min (i.integer.lo +ℤ pos 1) }

unfoldable pub visit_index :
    (view counter : Option String) (span_index : Bool) (old : Option LocalBoundsProof)
    → Visited
    → Visited
    → Visited
visit_index none counter k old b i = record {
  annotated = index b.annotated i.annotated k old;
  found = no_value;
  after = i.after;
}
visit_index (some view) counter k old b i =
    if checkable k b.found i.found
    then record {
      annotated = index b.annotated i.annotated k (index_proof view b.found i.found counter old);
      found = no_value;
      after = assign i.after view (reached b.found i.found);
    }
    else record {
      annotated = index b.annotated i.annotated k old;
      found = no_value;
      after = i.after;
    }

abbrev pub hull_value : LocalValue → LocalValue → LocalValue
hull_value l r =
    if l.int_known && r.int_known then known_interval (hull l.integer r.integer) else no_value

abbrev pub visit_if : Visited → Visited → Visited → Visited
visit_if condition l r = record {
  annotated = if_expr condition.annotated l.annotated r.annotated;
  found = hull_value l.found r.found;
  after = update_all condition.after (local_join l.after r.after);
}

-- `expr`
unfoldable pub visit : (String → Bool) → Expr → LocalBoundsState → Visited
visit exposed (int_literal n b) s = record {
  annotated = int_literal n b;
  found = literal_value n b;
  after = s;
}
visit exposed (comptime_int v) s = record {
  annotated = comptime_int v;
  found = comptime_value v;
  after = s;
}
visit exposed (bool_literal b) s = record {
  annotated = bool_literal b;
  found = no_value;
  after = s;
}
visit exposed (name_expr x) s = record {
  annotated = name_expr x;
  found = get exposed s x;
  after = s;
}
visit exposed (paren e) s = let v = visit exposed e s in record v { annotated = paren v.annotated }
visit exposed (cast t e) s =
    let v = visit exposed e s in
    record { annotated = cast t v.annotated; found = narrow_cast t v.found; after = v.after }
visit exposed (unary op e) s =
    let v = visit exposed e s in
    record { annotated = unary op v.annotated; found = negated_value op v.found; after = v.after }
visit exposed (binary op r k x y) s =
    let left = visit exposed x s in
    visit_binary op r k left (visit exposed y (right_state exposed op x left.after))
visit exposed (index b i k p) s =
    let base = visit exposed b s in
    visit_index (name_of b) (name_of i) k p base (visit exposed i base.after)
visit exposed (len_call v) s = record { annotated = len_call v; found = no_value; after = s }
visit exposed (if_expr c x y) s =
    let condition = visit exposed c s in
    let l = visit exposed x (assume exposed c true condition.after) in
    let r = visit exposed y (assume exposed c false condition.after) in visit_if condition l r
visit exposed (opaque k) s = record { annotated = opaque k; found = no_value; after = s }
