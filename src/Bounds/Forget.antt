-- ===== src/Bounds/Forget.antt =====
-- `localForgetWrites`: lines 454 to 483 of internal/concept/local_bounds.go, which gives up what a
-- loop's body writes before the body is analysed. `other_stmt` is any statement that the source
-- does not name; `quiet_stmt` a declaration, a return, an expression or an assertion. What a
-- statement evaluates beside its target is not looked at.
use concept.Base.{true, false, none, some, Option, Bool, String, ◌&&◌, str_eq, ◌||◌}
use concept.Bounds.Visit.{name_of}
use concept.Bounds.Domain.{forgotten, value_or_zero, assign, LocalBoundsState, LocalValue}
use concept.Bounds.Syntax.{Expr}

mutual
  pub data Block : Type 0 where
    end_block : Block
    stmt_then : Stmt → Block → Block

  pub data Stmt : Type 0 where
    assign_stmt : (target : Expr) → Stmt
    if_stmt : Block → OptionalBlock → Stmt
    foreach_stmt : (body : Block) → Stmt
    while_stmt : (body : Block) → (otherwise : OptionalBlock) → Stmt
    nested : Block → Stmt
    quiet_stmt other_stmt : Stmt

  pub data OptionalBlock : Type 0 where
    no_block : OptionalBlock
    one_block : Block → OptionalBlock

abbrev pub forget_name : Option String → LocalBoundsState → LocalBoundsState
forget_name none s = s
forget_name (some x) s = assign s x (forgotten (value_or_zero (s x)))

abbrev pub forget_option : Option LocalValue → Option LocalValue
forget_option none = none
forget_option (some v) = some (forgotten v)

unfoldable mutual
  pub forget_writes : Block → LocalBoundsState → LocalBoundsState
  forget_writes end_block s = s
  forget_writes (stmt_then st rest) s = forget_writes rest (forget_stmt st s)

  pub forget_stmt : Stmt → LocalBoundsState → LocalBoundsState
  forget_stmt (assign_stmt target) s = forget_name (name_of target) s
  forget_stmt (if_stmt x y) s = forget_optional y (forget_writes x s)
  forget_stmt (foreach_stmt body) s = forget_writes body s
  forget_stmt (while_stmt body otherwise) s = forget_writes body s
  forget_stmt (nested b) s = forget_writes b s
  forget_stmt quiet_stmt s = s
  forget_stmt other_stmt s = λ n. forget_option (s n)

  pub forget_optional : OptionalBlock → LocalBoundsState → LocalBoundsState
  forget_optional no_block s = s
  forget_optional (one_block b) s = forget_writes b s

abbrev pub names : Option String → String → Bool
names none x = false
names (some y) x = str_eq x y

-- Whether a block may write the name, at any depth.
unfoldable mutual
  pub writes : Block → String → Bool
  writes end_block x = false
  writes (stmt_then st rest) x = writes_stmt st x || writes rest x

  pub writes_stmt : Stmt → String → Bool
  writes_stmt (assign_stmt target) x = names (name_of target) x
  writes_stmt (if_stmt b o) x = writes b x || writes_optional o x
  writes_stmt (foreach_stmt body) x = writes body x
  writes_stmt (while_stmt body otherwise) x = writes body x || writes_optional otherwise x
  writes_stmt (nested b) x = writes b x
  writes_stmt quiet_stmt x = false
  writes_stmt other_stmt x = true

  pub writes_optional : OptionalBlock → String → Bool
  writes_optional no_block x = false
  writes_optional (one_block b) x = writes b x

-- No `while` of the block has an `else`.
unfoldable mutual
  pub no_while_else : Block → Bool
  no_while_else end_block = true
  no_while_else (stmt_then st rest) = no_while_else_stmt st && no_while_else rest

  pub no_while_else_stmt : Stmt → Bool
  no_while_else_stmt (assign_stmt target) = true
  no_while_else_stmt (if_stmt b o) = no_while_else b && no_while_else_optional o
  no_while_else_stmt (foreach_stmt body) = no_while_else body
  no_while_else_stmt (while_stmt body no_block) = no_while_else body
  no_while_else_stmt (while_stmt body (one_block b)) = false
  no_while_else_stmt (nested b) = no_while_else b
  no_while_else_stmt quiet_stmt = true
  no_while_else_stmt other_stmt = true

  pub no_while_else_optional : OptionalBlock → Bool
  no_while_else_optional no_block = true
  no_while_else_optional (one_block b) = no_while_else b
