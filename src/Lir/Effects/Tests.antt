-- ===== src/Lir/Effects/Tests.antt =====
-- The theorems of Lir.Effects at the Init and Step functions of a machine with one state.
use concept.Base.{ℤ, pos, List, [], ◌∷◌, false, none, some, minus_one, ok, ◌≡◌, refl, String, arith}
use concept.Lir.Types.{LirType, u32, bool, void, machine_step_result}
use concept.Lir.Frame.{LirMachineFunction}
use concept.Lir.Function.{LirInstruction, LirTerminator, LirBlock, LirFunction}
use concept.Machine.Immediate.{parse_int}
use concept.Lir.Borrow.{no_type, find}
use concept.Lir.Body.{op_of}
use concept.Lir.Effects.{
  bad_state, store_field, store_to, store_effect, effect_of, block_effects, check_return,
  check_step_block, next_flow, check_block_effects, all_effects, all_initialized, all_dispatched,
  check_flow, machine_effects, verify_lir_machine_effects,
}
use concept.Lir.Effects.Blocks.{FieldStored}
use concept.Lir.Effects.Init.{StartStored, verify_lir_machine_effects-FieldStored}
use concept.Lir.Effects.Resume.{Returned, verify_lir_machine_effects-Returned}

abbrev does : String → ℤ → ℤ → String → List ℤ → LirInstruction
does o r field c vs = record {
  scope = pos 0;
  op = o;
  result = r;
  typ = no_type;
  args = vs;
  callee = "";
  call_target = "";
  call_abi = "";
  arg_types = [];
  slot = minus_one;
  literal = c;
  extent = pos 0;
  stride = pos 0;
  frame_field = field;
  frame_offset = pos 0;
  aggregate = no_type;
  member = pos 0;
  members = [];
  source = record { line = pos 1; column = pos 1 };
  facts = [];
}

-- A constant is stored to the field.
abbrev sets : ℤ → ℤ → ℤ → String → List LirInstruction → List LirInstruction
sets field a v c rest =
    does "frame_field_address" a field "" (pos 0 ∷ [])
    ∷ does "const" v (pos 0) c []
    ∷ does "store" minus_one (pos 0) "" (a ∷ v ∷ [])
    ∷ rest

abbrev ends : String → ℤ → ℤ → ℤ → String → LirTerminator
ends o v t e r = record { op = o; value = v; on_true = t; on_false = e; reason = r }

abbrev machine : String → ℤ → LirMachineFunction
machine r b = record {
  identity = "m";
  role = r;
  size = pos 8;
  alignment = pos 4;
  fields =
      record {
        id = pos 0;
        name = "current_state";
        typ = u32;
        offset = pos 0;
        size = pos 4;
        alignment = pos 4;
      }
      ∷ record {
        id = pos 1;
        name = "completed";
        typ = bool;
        offset = pos 4;
        size = pos 1;
        alignment = pos 1;
      }
      ∷ [];
  states = record { id = pos 0; name = "idle"; block = b } ∷ [];
}

abbrev of_machine : LirMachineFunction → LirType → List LirBlock → LirFunction
of_machine m t bs = record {
  identity = "m";
  name = "m";
  params = [];
  result = t;
  slots = [];
  blocks = bs;
  facts = [];
  has_patterns = false;
  machine = some m;
  activation = none;
  borrow = none;
}

abbrev init_function : LirFunction
init_function = of_machine (machine "init" minus_one) void (
    record {
      id = pos 0;
      label = "entry";
      instructions = sets (pos 0) (pos 1) (pos 2) "0" (sets (pos 1) (pos 3) (pos 4) "false" []);
      term = ends "return" (pos 0) (pos 0) (pos 0) "";
    }
    ∷ [])

abbrev idle : LirBlock
idle = record {
  id = pos 2;
  label = "state.idle";
  instructions =
      sets (pos 0) (pos 1) (pos 2) "0" (does "machine_result" (pos 3) (pos 0) "Yielded" [] ∷ []);
  term = ends "return" (pos 3) (pos 0) (pos 0) "";
}

abbrev step_function : LirFunction
step_function = of_machine (machine "step" (pos 2)) machine_step_result (
    record {
      id = pos 0;
      label = "dispatch.idle";
      instructions = [];
      term = ends "branch" (pos 0) (pos 2) (pos 3) "";
    }
    ∷ record {
      id = pos 1;
      label = "already-completed";
      instructions = does "machine_result" (pos 4) (pos 0) "Completed" [] ∷ [];
      term = ends "return" (pos 4) (pos 0) (pos 0) "";
    }
    ∷ idle
    ∷ record {
      id = pos 3;
      label = "invalid";
      instructions = [];
      term = ends "trap" (pos 0) (pos 0) (pos 0) "invalid_machine_state";
    }
    ∷ [])

init_function_ok : verify_lir_machine_effects init_function ≡ ok tt
unfolding verify_lir_machine_effects machine_effects check_flow all_dispatched all_initialized
    all_effects check_block_effects next_flow check_step_block check_return block_effects effect_of
    store_effect store_to store_field bad_state parse_int op_of find
init_function_ok = refl

step_function_ok : verify_lir_machine_effects step_function ≡ ok tt
unfolding verify_lir_machine_effects machine_effects check_flow all_dispatched all_initialized
    all_effects check_block_effects next_flow check_step_block check_return block_effects effect_of
    store_effect store_to store_field bad_state parse_int op_of find
step_function_ok = refl

verify_lir_machine_effects-FieldStored_example :
    FieldStored init_function.blocks (pos 1) × StartStored init_function.blocks
verify_lir_machine_effects-FieldStored_example =
    verify_lir_machine_effects-FieldStored (machine "init" minus_one) refl init_function 1 refl
      init_function_ok (omega arith)

verify_lir_machine_effects-Returned_example :
    Returned (machine "step" (pos 2)) step_function.blocks idle
verify_lir_machine_effects-Returned_example =
    verify_lir_machine_effects-Returned (machine "step" (pos 2)) refl step_function 2 idle refl
      step_function_ok refl refl
