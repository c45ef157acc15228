-- ===== src/Bounds/Syntax.antt =====
-- The expressions and statements that the analysis looks into: the syntax trees of
-- internal/concept/types.go. The operators are strings there.
use concept.Base.{ℤ, String, ℕ, Bool, Option}
use concept.Bounds.Domain.{BinaryOp}

pub data UnaryOp : Type 0 where
  negate not_op other_unary : UnaryOp

-- A proof that an index is in bounds, by its interval or by a counted range.
pub data LocalBoundsProof : Type 0 where
  checked_flow : (index_min index_max length_min : ℤ) → LocalBoundsProof
  counted_range : (view counter snapshot : String) → LocalBoundsProof

-- `index` is an access with one index. Its third argument is `SpanIndex`; the last one is the proof that the
-- analysis leaves in the tree. `scaled` says that `UnitScaleDenominator` is not 0.
pub data Expr : Type 0 where
  int_literal : (magnitude : ℕ) (negative : Bool) → Expr
  comptime_int : (value : ℤ) → Expr
  bool_literal : Bool → Expr
  name_expr : String → Expr
  paren : Expr → Expr
  cast : (target : String) → Expr → Expr
  unary : UnaryOp → Expr → Expr
  binary : BinaryOp → (resolved : String) (scaled : Bool) → Expr → Expr → Expr
  index : Expr → Expr → (span_index : Bool) → Option LocalBoundsProof → Expr
  len_call : (view : String) → Expr
  if_expr : Expr → Expr → Expr → Expr
  opaque : (site : ℕ) → Expr
