-- ===== src/Lir/Body/Tests.antt =====
-- The theorems of Lir.Body at a function that adds an element of an array to a checked index.
use concept.Base.{
  ℕ, ℤ, pos, List, [], ◌∷◌, Bool, false, Option, none, ◌≡◌, refl, ok, String, for_each, minus_one,
}
use concept.Lir.Types.{
  LirType, i32, ptr, array, void, type_eq, lir_address_target, lir_reference_type, lir_integer,
  lir_width,
}
use concept.Lir.Function.{LirInstruction, LirBlock, LirFunction, LirAggregateLayout, LirTaggedEnum}
use concept.Lir.Borrow.{no_type, find, address_target, check_block, all_in_range}
use concept.Lir.Borrow.Verify.{verify_lir_borrow_function}
use concept.Lir.Body.{Env, Body, op_of, index_address, find_slot}
use concept.Lir.Body.Operation.{check_index_guard, check_index_address}
use concept.Lir.Body.Cases.{check_operation}
use concept.Lir.Body.Blocks.{
  declare_params, known_facts, declare_slots, entry_values, known_arguments, define, add_guard,
  check_instruction, check_instructions, check_terminator, check_blocks, verify_body,
}
use concept.Lir.Body.Guards.{IndexUse, verify_body-IndexUse}
use concept.Lir.Body.Values.{verify_body-values_inj}
use concept.Lir.Body.Available.{IsAvailable, verify_body-IsAvailable}
use concept.Lir.Body.Typed.{IsTyped, verify_body-IsTyped}

abbrev step : String → ℤ → LirType → List ℤ → LirInstruction
step o r t vs = record {
  scope = pos 0;
  op = o;
  result = r;
  typ = t;
  args = vs;
  callee = "";
  call_target = "";
  call_abi = "";
  arg_types = [];
  slot = minus_one;
  literal = "";
  extent = pos 0;
  stride = pos 0;
  frame_field = minus_one;
  frame_offset = pos 0;
  aggregate = no_type;
  member = pos 0;
  members = [];
  source = record { line = pos 1; column = pos 1 };
  facts = [];
}

abbrev guard : LirInstruction
guard = record (step "check_index" minus_one void (pos 0 ∷ [])) { extent = pos 4 }

abbrev address : LirInstruction
address = record (step "index_address" (pos 1) (ptr i32) (pos 0 ∷ [])) {
  slot = pos 0;
  extent = pos 4;
  stride = pos 4;
}

abbrev sum : LirInstruction
sum = step "add" (pos 3) i32 (pos 2 ∷ pos 0 ∷ [])

abbrev block : LirBlock
block = record {
  id = pos 0;
  label = "";
  instructions = guard ∷ address ∷ step "load" (pos 2) i32 (pos 1 ∷ []) ∷ sum ∷ [];
  term = record { op = "return"; value = pos 3; on_true = pos 0; on_false = pos 0; reason = "" };
}

abbrev element_function : LirFunction
element_function = record {
  identity = "f";
  name = "f";
  params = record { id = pos 0; typ = i32 } ∷ [];
  result = i32;
  slots =
      record {
        id = pos 0;
        typ = array 4 i32;
        element = i32;
        extent = pos 4;
        param_value = minus_one;
        readonly = false;
        facts = [];
      }
      ∷ [];
  blocks = block ∷ [];
  facts = [];
  has_patterns = false;
  machine = none;
  activation = none;
  borrow = none;
}

abbrev no_layouts : LirType → Option LirAggregateLayout
no_layouts t = none

abbrev no_tagged : LirType → Option LirTaggedEnum
no_tagged t = none

abbrev no_functions : String → Option LirFunction
no_functions s = none

abbrev no_facts : String → Bool
no_facts s = false

abbrev env : Env
env = record {
  facts = no_facts;
  functions = no_functions;
  layouts = no_layouts;
  tagged = no_tagged;
  enums = [];
}

element_function-body : verify_body env false element_function ≡ ok tt
unfolding verify_body declare_params known_facts declare_slots entry_values known_arguments define
    add_guard check_instruction check_instructions check_terminator check_blocks
    concept.Lir.Body.Blocks.check_block op_of find_slot check_operation check_index_guard
    check_index_address find type_eq lir_integer lir_width address_target lir_address_target
element_function-body = refl

element_function-borrow : verify_lir_borrow_function element_function no_layouts ≡ ok tt
unfolding verify_lir_borrow_function for_each check_block all_in_range lir_reference_type
element_function-borrow = refl

verify_body-IndexUse_example : IndexUse block.instructions 1 address
unfolding op_of
verify_body-IndexUse_example =
    verify_body-IndexUse env false element_function 0 block 1 address element_function-body refl
      refl refl

verify_body-values_inj_example : ◌≡◌ {A = ℕ} 3 3
verify_body-values_inj_example =
    verify_body-values_inj env false element_function 3 3 {v = pos 3} element_function-body refl
      refl

verify_body-IsAvailable_example : IsAvailable element_function block 0 3 (pos 2)
verify_body-IsAvailable_example =
    verify_body-IsAvailable element_function block 0 env false 3 sum 0 (pos 2)
      element_function-borrow element_function-body refl refl refl

verify_body-IsTyped_example : IsTyped element_function (op_of "add") sum
verify_body-IsTyped_example =
    verify_body-IsTyped element_function block 0 env false (0, refl) 3 sum element_function-borrow
      element_function-body refl refl
