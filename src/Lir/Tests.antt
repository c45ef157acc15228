-- ===== src/Lir/Tests.antt =====
-- The theorems of Lir at a Step function with one state.
use concept.Lir.Frame.{
  LirMachineField, LirFunction, LirMachineState, LirMachineFunction, verify_lir_machine_function,
  LirBlock, verify_optional_machine, verify_lir_machine, verify_fields, bad_field, has_remainder,
  add_int, status_fields, verify_state,
}
use concept.Base.{
  ℤ, pos, ◌+ℤ◌, get_at?, some, List, for_each, ◌∷◌, ◌≡◌, String, [], ◌-ℤ◌, arith, ok, refl,
}
use concept.Lir.Types.{machine_step_result, u32, type_eq, LirType, bool, lir_width, u64}
use concept.Lir.Frame.Fields.{
  FieldsInOrder, verify_lir_machine_function-block, verify_lir_machine_function-FieldsInOrder,
}

abbrev status : ℤ → String → LirType → ℤ → ℤ → ℤ → LirMachineField
status i n t o s a = record { id = i; name = n; typ = t; offset = o; size = s; alignment = a }

abbrev frame_fields : List LirMachineField
frame_fields =
    status (pos 0) "current_state" u32 (pos 0) (pos 4) (pos 4)
    ∷ status (pos 1) "completed" bool (pos 4) (pos 1) (pos 1)
    ∷ status (pos 2) "count" u64 (pos 8) (pos 8) (pos 8)
    ∷ []

abbrev idle : LirMachineState
idle = record { id = pos 0; name = "idle"; block = pos 0 }

abbrev frame_machine : LirMachineFunction
frame_machine = record {
  identity = "Counter";
  role = "step";
  size = pos 16;
  alignment = pos 8;
  fields = frame_fields;
  states = idle ∷ [];
}

abbrev step_function : LirFunction
step_function = record {
  first_param_frame = some "Counter";
  result = machine_step_result;
  blocks = record { label = "state.idle"; term_op = "return" } ∷ [];
  machine = some frame_machine;
}

step_function_ok : verify_lir_machine_function step_function ≡ ok tt
unfolding verify_lir_machine_function verify_optional_machine verify_lir_machine verify_fields
    bad_field has_remainder add_int status_fields verify_state for_each type_eq lir_width ◌+ℤ◌ ◌-ℤ◌
step_function_ok = refl

verify_lir_machine_function-FieldsInOrder_example : FieldsInOrder (pos 0) (pos 16) frame_fields
unfolding ◌+ℤ◌
verify_lir_machine_function-FieldsInOrder_example =
    verify_lir_machine_function-FieldsInOrder step_function frame_machine refl step_function_ok
      (omega arith, (omega arith, (omega arith, tt)))

verify_lir_machine_function-block_example :
    (b : LirBlock) × (get_at? step_function.blocks (pos 0) ≡ some b) × (b.label ≡ "state.idle")
verify_lir_machine_function-block_example =
    verify_lir_machine_function-block step_function frame_machine 0 idle refl step_function_ok refl
      refl
