-- ===== src/Lir/Borrow.antt =====
-- `verifyLIRBorrowFunction` of internal/concept/lir_borrow.go, lines 217 to 378, and the functions
-- it calls: `lirReferenceDefinitions`, `borrowScopeContains`, `lirReferenceType` and
-- `lirAddressTarget`. Verify has the checks of references and of their uses. An error is its code word.
-- A Go map that a loop fills is a list of entries, the latest first. The layouts of aggregates are
-- an argument. The missing type "" is `no_type`. The walk up the scopes has as fuel one more than
-- the number of scopes.
pub mod Verify
pub mod Scopes
pub mod Definitions
pub mod Places
pub mod Accepted
pub mod Uses
mod Tests
use text.Mathlib.Text.{starts_with}
use concept.Base.{
  ℕ, zero, suc, ◌+◌, ℤ, pos, pos_part, List, [], ◌∷◌, Bool, true, false, ◌&&◌, ◌||◌, not, Option,
  none, some, if◌then◌else◌, ◌==◌, ◌==ℤ◌, ltb, leb_ℤ, ltb_ℤ, is_neg, minus_one, in_range, length,
  get_elem?, get_at?, str_eq, String, Check, ok, err, reject, or_fail, ◌>>=◌, ◌>>◌, for_each,
}
use concept.Base.Bits.{bit}
use concept.Lir.Types.{LirType, ref, named, void, type_eq, lir_address_target, lir_reference_type}
use concept.Lir.Function.{
  Span, LirValue, LirSlot, LirInstruction, LirBlock, LirBorrowScope, LirBorrowReference,
  LirBorrowContract, LirFunction, LirAggregateField, LirAggregateLayout,
}
use concept.Lir.Dominators.{Rows, row, lir_successors, lir_dominators}

abbrev pub no_type : LirType
no_type = named ""

abbrev pub type_or_none : Option LirType → LirType
type_or_none none = no_type
type_or_none (some t) = t

-- `lirAddressTarget`, with "" where the type is no address.
unfoldable pub address_target : LirType → LirType
address_target t = type_or_none (lir_address_target t)

-- `strings.HasPrefix(t, "ref<")`
unfoldable pub mutable_reference : LirType → Bool
mutable_reference (ref t) = true
mutable_reference (named s) = starts_with s "ref<"
mutable_reference _ = false

-- `map[int]V`
abbrev pub Entries : Type 0 → Type 0
Entries V = List (ℤ × V)

unfoldable pub find : {V : Type 0} → ℤ → Entries V → Option V
find k [] = none
find k ((j, v) ∷ m) = if j ==ℤ k then some v else find k m

abbrev pub Definition : Type 0
Definition = LirType × ℤ

unfoldable pub define_params : List LirValue → Entries Definition → Entries Definition
define_params [] m = m
define_params (p ∷ ps) m = define_params ps ((p.id, (p.typ, minus_one)) ∷ m)

unfoldable pub define_results : ℤ → List LirInstruction → Entries Definition → Entries Definition
define_results block [] m = m
define_results block (i ∷ is) m =
    define_results block is (if is_neg i.result then m else (i.result, (i.typ, block)) ∷ m)

unfoldable pub define_blocks : List LirBlock → Entries Definition → Entries Definition
define_blocks [] m = m
define_blocks (b ∷ bs) m = define_blocks bs (define_results b.id b.instructions m)

-- The type of each value, and the block that defines it, or -1 for a parameter.
unfoldable pub lir_reference_definitions : LirFunction → Entries Definition
lir_reference_definitions f = define_blocks f.blocks (define_params f.params [])

unfoldable pub type_of : Entries Definition → ℤ → LirType
type_of m v = elim (find v m) [ none ↦ no_type | some d ↦ d.0 ]

unfoldable pub block_of : Entries Definition → ℤ → ℤ
block_of m v = elim (find v m) [ none ↦ pos 0 | some d ↦ d.1 ]

unfoldable pub result_operations :
    List LirInstruction → Entries LirInstruction → Entries LirInstruction
result_operations [] m = m
result_operations (i ∷ is) m =
    result_operations is (if is_neg i.result then m else (i.result, i) ∷ m)

-- `ops`: the instruction that defines each value.
unfoldable pub operations : List LirBlock → Entries LirInstruction → Entries LirInstruction
operations [] m = m
operations (b ∷ bs) m = operations bs (result_operations b.instructions m)

abbrev pub no_instruction : LirInstruction
no_instruction = record {
  scope = pos 0;
  op = "";
  result = pos 0;
  typ = no_type;
  args = [];
  callee = "";
  call_target = "";
  call_abi = "";
  arg_types = [];
  slot = pos 0;
  literal = "";
  extent = pos 0;
  stride = pos 0;
  frame_field = pos 0;
  frame_offset = pos 0;
  aggregate = no_type;
  member = pos 0;
  members = [];
  source = record { line = pos 0; column = pos 0 };
  facts = [];
}

-- `ops[v]`, with Go's zero value where there is none.
abbrev pub operation_or_zero : Option LirInstruction → LirInstruction
operation_or_zero none = no_instruction
operation_or_zero (some i) = i

unfoldable pub scope_contains_within : ℕ → List LirBorrowScope → ℤ → ℤ → Bool
scope_contains_within zero scopes parent child = false
scope_contains_within (suc fuel) scopes parent child = elim (get_at? scopes child) [
  | none ↦ false
  | some s ↦
      let rest = scope_contains_within fuel scopes parent s.parent in
      if parent ==ℤ child then true else rest
]

unfoldable pub borrow_scope_contains : LirBorrowContract → ℤ → ℤ → Bool
borrow_scope_contains c parent child =
    scope_contains_within (suc (length c.scopes)) c.scopes parent child

unfoldable pub span_eq : Span → Span → Bool
span_eq a b = a.line ==ℤ b.line && a.column ==ℤ b.column

abbrev pub bool_eq : Bool → Bool → Bool
bool_eq true b = b
bool_eq false b = not b

-- `x <= 0`
abbrev pub not_positive : ℤ → Bool
not_positive x = leb_ℤ x (pos 0)

unfoldable pub all_in_range : List ℤ → ℕ → Bool
all_in_range [] n = true
all_in_range (t ∷ ts) n = in_range t n && all_in_range ts n

unfoldable pub check_block : ℕ → ℕ → LirBlock → Check
check_block n i b = do
  reject (not (b.id ==ℤ pos i)) "LIR_REFERENCE_CONTROL_FLOW"
  reject (not (all_in_range (lir_successors b) n)) "LIR_REFERENCE_CONTROL_FLOW"

-- The parent of a scope stands before it; exactly the first has none.
unfoldable pub bad_scope : ℕ → LirBorrowScope → Bool
bad_scope i s =
    not (s.id ==ℤ pos i)
    || leb_ℤ (pos i) s.parent
    || ltb_ℤ s.parent minus_one
    || not_positive s.source.line
    || not_positive s.source.column
    || not (bool_eq (i == 0) (s.parent ==ℤ minus_one))

unfoldable pub check_scope : ℕ → LirBorrowScope → Check
check_scope i s = reject (bad_scope i s) "LIR_REFERENCE_LIFETIME"
