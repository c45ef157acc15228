-- ===== src/Lir/Borrow/Tests.antt =====
-- The theorems of Lir.Dominators and Lir.Borrow at a function with a branch, in which a reference to
-- a slot is taken in the first block and used after the branch.
use concept.Base.{
  ℤ, pos, List, [], ◌∷◌, true, false, Option, none, some, ◌≡◌, refl, ok, String, for_each,
  minus_one, ◌↔◌,
}
use concept.Lir.Types.{LirType, i32, ptr, void, type_eq, lir_address_target, lir_reference_type}
use concept.Lir.Function.{
  Span, LirInstruction, LirTerminator, LirBlock, LirBorrowReference, LirBorrowContract, LirFunction,
  LirAggregateLayout,
}
use concept.Lir.Dominators.{
  Rows, lir_successors, mark, mark_all, mark_round, reach_loop, start_row, start_rows, meet_targets,
  meet, new_row, improve_row, improve_round, dominator_loop, lir_dominators,
}
use concept.Lir.Dominators.Exact.{AreDominators, lir_dominators-AreDominators}
use concept.Lir.Borrow.{
  no_type, address_target, find, define_params, define_results, define_blocks,
  lir_reference_definitions, type_of, block_of, result_operations, operations,
  scope_contains_within, borrow_scope_contains, span_eq, all_in_range, check_block, bad_scope,
  check_scope, mutable_reference,
}
use concept.Lir.Borrow.Verify.{
  object_digest, check_identity, check_root, check_origin, check_authority, check_instruction_of,
  check_reference, check_references, reaches, check_reference_use, check_argument, check_result,
  check_instruction, check_uses, check_slot_scope, verify_contract, verify_lir_borrow_function,
}
use concept.Lir.Borrow.Scopes.{Encloses, borrow_scope_contains_iff}
use concept.Lir.Borrow.Uses.{
  IsUse, Available, LocalUse, verify_lir_borrow_function-Available,
  verify_lir_borrow_function-LocalUse,
}

abbrev at : Span
at = record { line = pos 1; column = pos 1 }

abbrev address : LirInstruction
address = record {
  scope = pos 0;
  op = "slot_address";
  result = pos 0;
  typ = ptr i32;
  args = [];
  callee = "";
  call_target = "";
  call_abi = "";
  arg_types = [];
  slot = pos 0;
  literal = "";
  extent = pos 0;
  stride = pos 0;
  frame_field = minus_one;
  frame_offset = pos 0;
  aggregate = no_type;
  member = pos 0;
  members = [];
  source = at;
  facts = [];
}

-- `store` through the reference, in the inner scope.
abbrev store : LirInstruction
store = record {
  scope = pos 1;
  op = "store";
  result = minus_one;
  typ = i32;
  args = pos 0 ∷ pos 1 ∷ [];
  callee = "";
  call_target = "";
  call_abi = "";
  arg_types = [];
  slot = minus_one;
  literal = "";
  extent = pos 0;
  stride = pos 0;
  frame_field = minus_one;
  frame_offset = pos 0;
  aggregate = no_type;
  member = pos 0;
  members = [];
  source = at;
  facts = [];
}

abbrev ends : String → ℤ → ℤ → LirTerminator
ends o t e = record { op = o; value = pos 1; on_true = t; on_false = e; reason = "" }

abbrev diamond : List LirBlock
diamond =
    record {
      id = pos 0;
      label = "";
      instructions = address ∷ [];
      term = ends "branch" (pos 1) (pos 2);
    }
    ∷ record { id = pos 1; label = ""; instructions = []; term = ends "jump" (pos 3) (pos 0) }
    ∷ record { id = pos 2; label = ""; instructions = []; term = ends "jump" (pos 3) (pos 0) }
    ∷ record {
      id = pos 3;
      label = "";
      instructions = store ∷ [];
      term = ends "return" (pos 0) (pos 0);
    }
    ∷ []

abbrev reference : LirBorrowReference
reference = record {
  value = pos 0;
  target = i32;
  semantic_target = "00112233445566778899aabbccddeeff00112233445566778899aabbccddeeff";
  root_kind = "local";
  root = pos 0;
  parent = minus_one;
  lifetime = pos 0;
  mutable = true;
  evidence = "checked_place";
  provenance = "f|slot:0";
  source = at;
}

abbrev contract : LirBorrowContract
contract = record {
  scopes =
      record { id = pos 0; parent = minus_one; source = at }
      ∷ record { id = pos 1; parent = pos 0; source = at }
      ∷ [];
  slot_scopes = pos 0 ∷ [];
  references = reference ∷ [];
}

abbrev diamond_function : LirFunction
diamond_function = record {
  identity = "f";
  name = "f";
  params = record { id = pos 1; typ = i32 } ∷ [];
  result = void;
  slots =
      record {
        id = pos 0;
        typ = i32;
        element = no_type;
        extent = pos 0;
        param_value = minus_one;
        readonly = false;
        facts = [];
      }
      ∷ [];
  blocks = diamond;
  facts = [];
  has_patterns = false;
  machine = none;
  activation = none;
  borrow = some contract;
}

abbrev no_layouts : LirType → Option LirAggregateLayout
no_layouts t = none

dominators_diamond :
    lir_dominators diamond
    ≡ some (
        (true ∷ false ∷ false ∷ false ∷ [])
        ∷ (true ∷ true ∷ false ∷ false ∷ [])
        ∷ (true ∷ false ∷ true ∷ false ∷ [])
        ∷ (true ∷ false ∷ false ∷ true ∷ [])
        ∷ [])
unfolding lir_dominators lir_successors mark mark_all mark_round reach_loop start_row start_rows
    meet_targets meet new_row improve_row improve_round dominator_loop
dominators_diamond = refl

diamond_function_ok : verify_lir_borrow_function diamond_function no_layouts ≡ ok tt
unfolding verify_lir_borrow_function verify_contract for_each check_block all_in_range check_scope
    bad_scope check_slot_scope check_references check_reference check_identity address_target
    lir_address_target lir_reference_type type_of find lir_reference_definitions define_blocks
    define_params define_results type_eq object_digest check_root borrow_scope_contains
    scope_contains_within check_authority check_origin operations result_operations
    check_instruction_of span_eq lir_dominators lir_successors mark mark_all mark_round reach_loop
    start_row start_rows meet_targets meet new_row improve_row improve_round dominator_loop
    check_uses check_instruction check_result check_argument check_reference_use reaches block_of
    mutable_reference
diamond_function_ok = refl

store-IsUse : IsUse diamond_function 3 store 0 (pos 0)
store-IsUse = record {
  block = record {
    id = pos 3;
    label = "";
    instructions = store ∷ [];
    term = ends "return" (pos 0) (pos 0);
  };
  is_block = refl;
  instruction = (0, refl);
  argument = refl;
}

verify_lir_borrow_function-Available_example : Available diamond_function 3 (pos 0)
verify_lir_borrow_function-Available_example =
    verify_lir_borrow_function-Available diamond_function no_layouts contract refl
      diamond_function_ok reference (0, refl) 3 store 0 store-IsUse

verify_lir_borrow_function-LocalUse_example : LocalUse diamond_function contract (pos 0) store 0
verify_lir_borrow_function-LocalUse_example =
    verify_lir_borrow_function-LocalUse diamond_function no_layouts contract refl
      diamond_function_ok reference (0, refl) 3 store 0 store-IsUse refl

lir_dominators-AreDominators_example :
    (d : Rows) × (lir_dominators diamond ≡ some d) × AreDominators diamond d
lir_dominators-AreDominators_example = lir_dominators-AreDominators diamond

borrow_scope_contains_iff_example :
    (borrow_scope_contains contract (pos 0) (pos 1) ≡ true)
    ↔ Encloses contract.scopes (pos 0) (pos 1)
unfolding for_each check_scope bad_scope
borrow_scope_contains_iff_example = borrow_scope_contains_iff contract (pos 0) (pos 1) refl
