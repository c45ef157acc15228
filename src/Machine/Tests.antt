-- ===== src/Machine/Tests.antt =====
-- A small function, and the theorems of Machine at it.
use concept.Base.{
  ℤ, pos, minus_one, false, true, [], ◌∷◌, ◌≡◌, ok, String, List, refl, for_each, ℕ, Check, ◌%◌,
  ◌+◌, ◌≤◌, ◌<◌, arith, get_elem?, some,
}
use concept.Lir.Types.{
  i32, machine_abi_width, machine_scalar_width, lir_width, lir_floating, type_eq,
}
use concept.Machine.Registers.{
  MachineArg, win64_argument, rax, rcx, rdx, win64_return, machine_width_valid, reg_valid,
  win64_call_frame_bytes, frame_at, int_of,
}
use concept.Machine.Ir.{
  MachineFunction, Span, mv, mp, Opcode, MachineVReg, MachineInstruction, MachineBlock, mov, setcc,
  MachineOperand, cmp, ret, MachineTerminator, jcc, no_operand, MachineCall, call,
}
use concept.Machine.Verify.{
  verify_machine_function, verify_blocks, verify_block, verify_instructions, verify_instruction,
  verify_dst, verify_flags_def, verify_flags_use, count_definition, verify_terminator, bump,
}
use concept.Machine.Parts.{
  verify_vreg, verify_slot, verify_frame, verify_arg, machine_opcode_effects, condition_valid,
  call_value_type,
}
use concept.Machine.Operands.{verify_operand}
use concept.Machine.Shapes.{verify_shape, verify_call, verify_call_argument, verify_call_result}
use concept.Machine.Verify.Flags.{
  EndsWell, Reaches, verify_machine_function-Reaches, verify_machine_function-EndsWell,
}
use concept.Machine.Registers.Convention.{call_frame_bytes_least, win64_argument-location_inj}
use concept.Machine.Verify.Definitions.{block_definitions, verify_machine_function-definitions}
use concept.Machine.Module.{
  verify_machine_ir, distinct_identities, verify_function_calls, verify_block_calls,
  verify_instruction_call, verify_call_target, verify_call_types, find_function,
}
use concept.Machine.Module.Closed.{Agrees, verify_machine_ir-Agrees}

abbrev here : Span
here = record { line = pos 1; column = pos 1 }

abbrev plain : Opcode → MachineOperand → List MachineOperand → ℤ → MachineInstruction
plain o dst src w = record {
  op = o;
  dst = dst;
  src = src;
  width = w;
  flags_def = minus_one;
  flags_use = minus_one;
  cond = "";
  lir_block = pos 0;
  lir_instruction = minus_one;
  source = here;
  decision = "";
  facts = [];
  calls = [];
}

abbrev ends : Opcode → ℤ → ℤ → String → ℤ → MachineTerminator
ends o t e c fl = record {
  op = o;
  on_true = t;
  on_false = e;
  cond = c;
  flags_use = fl;
  source = here;
}

abbrev compares : MachineInstruction
compares = record (plain cmp no_operand (mv (pos 0) (pos 4) ∷ mv (pos 1) (pos 4) ∷ []) (pos 4)) {
  flags_def = pos 0;
}

abbrev sets_less : MachineInstruction
sets_less = record (plain setcc (mv (pos 2) (pos 1)) [] (pos 1)) { flags_use = pos 0; cond = "L" }

-- `max(a, b int32)`: compare, keep the flag, branch.
abbrev entry : MachineBlock
entry = record {
  id = pos 0;
  lir_block = pos 0;
  instructions =
      plain mov (mv (pos 0) (pos 4)) (mp rcx (pos 4) ∷ []) (pos 4)
      ∷ plain mov (mv (pos 1) (pos 4)) (mp rdx (pos 4) ∷ []) (pos 4)
      ∷ compares
      ∷ sets_less
      ∷ [];
  term = ends jcc (pos 1) (pos 2) "L" (pos 0);
}

abbrev returns : ℤ → ℤ → MachineBlock
returns k v = record {
  id = k;
  lir_block = k;
  instructions = plain mov (mp rax (pos 4)) (mv v (pos 4) ∷ []) (pos 4) ∷ [];
  term = ends ret (pos 0) (pos 0) "" minus_one;
}

abbrev argument : ℤ → ℤ → MachineArg
argument i r = record {
  index = i;
  typ = i32;
  width = pos 4;
  indirect = false;
  register = r;
  stack_offset = pos 0;
  on_stack = false;
  vreg = i;
}

abbrev register : ℤ → ℤ → MachineVReg
register i w = record { id = i; width = w; address = false }

abbrev maximum : MachineFunction
maximum = record {
  identity = "max|max(int,int)";
  name = "max";
  target = "amd64-windows";
  abi = "win64";
  result = i32;
  args = argument (pos 0) rcx ∷ argument (pos 1) rdx ∷ [];
  vregs = register (pos 0) (pos 4) ∷ register (pos 1) (pos 4) ∷ register (pos 2) (pos 1) ∷ [];
  slots = [];
  frame = record {
    local_size = pos 0;
    alignment = pos 16;
    shadow_space = pos 0;
    has_calls = false;
  };
  blocks = entry ∷ returns (pos 1) (pos 1) ∷ returns (pos 2) (pos 0) ∷ [];
  facts = [];
  decisions = [];
  source = here;
}

-- The verifier with all its parts open, so that it runs.
verifies : MachineFunction → Check
unfolding verify_machine_function verify_vreg verify_slot verify_frame verify_arg win64_argument
    win64_return verify_blocks verify_block verify_instructions verify_instruction verify_dst
    verify_operand verify_flags_def verify_flags_use verify_shape count_definition verify_terminator
    machine_opcode_effects condition_valid machine_abi_width machine_scalar_width lir_width
    lir_floating machine_width_valid reg_valid type_eq for_each bump
verifies f = verify_machine_function f

maximum_ok : verify_machine_function maximum ≡ ok tt
unfolding verifies
maximum_ok = refl

call_frame_bytes_least_example :
    (n : ℕ) × (pos 40 ≡ pos n) × (n % 16 ≡ 8) × (3 + 32 ≤ n) × (n < 3 + 32 + 16)
unfolding win64_call_frame_bytes frame_at int_of
call_frame_bytes_least_example = call_frame_bytes_least 3 (pos 40) (omega arith) refl

win64_argument-location_inj_example : ◌≡◌ {A = ℕ} 5 5
unfolding win64_argument machine_abi_width machine_scalar_width lir_width lir_floating
win64_argument-location_inj_example =
    win64_argument-location_inj 5 5 i32 i32 _ _ (omega arith) (omega arith) refl refl refl

verify_machine_function-definitions_example : block_definitions 2 maximum.blocks ≡ 1
verify_machine_function-definitions_example =
    verify_machine_function-definitions maximum 2 maximum_ok (omega arith)

verify_machine_function-EndsWell_example : (entry.id ≡ pos 0) × EndsWell maximum entry
verify_machine_function-EndsWell_example =
    verify_machine_function-EndsWell maximum 0 entry maximum_ok refl

verify_machine_function-Reaches_example :
    Reaches
      (plain mov (mv (pos 0) (pos 4)) (mp rcx (pos 4) ∷ []) (pos 4)
        ∷ plain mov (mv (pos 1) (pos 4)) (mp rdx (pos 4) ∷ []) (pos 4)
        ∷ compares
        ∷ [])
      (pos 0)
unfolding machine_opcode_effects
verify_machine_function-Reaches_example =
    verify_machine_function-Reaches maximum 0 entry
      (plain mov (mv (pos 0) (pos 4)) (mp rcx (pos 4) ∷ []) (pos 4)
        ∷ plain mov (mv (pos 1) (pos 4)) (mp rdx (pos 4) ∷ []) (pos 4)
        ∷ compares
        ∷ [])
      [] sets_less maximum_ok refl refl refl

abbrev calls_maximum : MachineCall
calls_maximum = record {
  kind = "direct";
  target = "max|max(int,int)";
  convention = "win64";
  arguments = record { value = pos 0; typ = i32 } ∷ record { value = pos 0; typ = i32 } ∷ [];
  result = i32;
}

abbrev call_maximum : MachineInstruction
call_maximum = record (plain call (mv (pos 1) (pos 4)) [] (pos 4)) {
  lir_instruction = pos 0;
  calls = calls_maximum ∷ [];
}

abbrev calling_block : MachineBlock
calling_block = record {
  id = pos 0;
  lir_block = pos 0;
  instructions =
      plain mov (mv (pos 0) (pos 4)) (mp rcx (pos 4) ∷ []) (pos 4)
      ∷ call_maximum
      ∷ plain mov (mp rax (pos 4)) (mv (pos 1) (pos 4) ∷ []) (pos 4)
      ∷ [];
  term = ends ret (pos 0) (pos 0) "" minus_one;
}

-- `twice(a int32) { return max(a, a) }`
abbrev twice : MachineFunction
twice = record maximum {
  identity = "twice|twice(int)";
  name = "twice";
  args = argument (pos 0) rcx ∷ [];
  vregs = register (pos 0) (pos 4) ∷ register (pos 1) (pos 4) ∷ [];
  frame = record {
    local_size = pos 0;
    alignment = pos 16;
    shadow_space = pos 32;
    has_calls = true;
  };
  blocks = calling_block ∷ [];
}

-- The module verifier with its parts open.
verifies_module : List MachineFunction → Check
unfolding verify_machine_ir distinct_identities verify_function_calls verify_block_calls
    verify_instruction_call verify_call_target verify_call_types find_function verify_call
    verify_call_argument verify_call_result call_value_type verifies
verifies_module = verify_machine_ir

twice_ok : verify_machine_ir (maximum ∷ twice ∷ []) ≡ ok tt
unfolding verifies_module
twice_ok = refl

verify_machine_ir-Agrees_example :
    (c : MachineCall) × (get_elem? (calls_maximum ∷ []) 0 ≡ some c)
    × Agrees (maximum ∷ twice ∷ []) c
verify_machine_ir-Agrees_example =
    verify_machine_ir-Agrees (maximum ∷ twice ∷ []) 1 0 1 twice calling_block call_maximum twice_ok
      refl refl refl refl
