-- ===== src/Machine/Shapes.antt =====
-- The shape of each opcode: lines 260 to 328 of internal/concept/machineir_verify.go.
use concept.Base.{
  ℕ, ℤ, pos, is_neg, in_range, ltb_ℤ, ◌==ℤ◌, Bool, true, false, not, ◌&&◌, ◌||◌, str_eq, List, [],
  ◌∷◌, length, any, ok, ◌>>◌, Check, reject, for_each, if◌then◌else◌, ◌==◌,
}
use concept.Lir.Types.{LirType, void, type_eq, machine_scalar_width}
use concept.Machine.Ir.{
  MachineOperand, Opcode, mov, lea, load, store, add, sub, imul, umul, cmp, test, setcc, trap, call,
  MachineCallArgument, MachineCall, MachineInstruction, MachineFunction,
}
use concept.Machine.Immediate.{codes}
use concept.Machine.Parts.{call_value_type, vreg_address, vreg_width_is}
use concept.Machine.Operands.{is_vreg, is_slot, is_mem, is_absent, is_preg}

-- The width of the single source operand is the instruction's.
abbrev pub one_source : List MachineOperand → ℤ → Bool
one_source (s ∷ []) w = s.width ==ℤ w
one_source _ w = false

abbrev pub one_memory_source : List MachineOperand → Bool
one_memory_source (s ∷ []) = is_slot s.kind || is_mem s.kind
one_memory_source _ = false

abbrev pub one_mem_source : List MachineOperand → Bool
one_mem_source (s ∷ []) = is_mem s.kind
one_mem_source _ = false

abbrev pub two_sources : List MachineOperand → ℤ → Bool
two_sources (s ∷ t ∷ []) w = s.width ==ℤ w && t.width ==ℤ w
two_sources _ w = false

abbrev pub no_source : List MachineOperand → Bool
no_source [] = true
no_source (_ ∷ _) = false

abbrev pub width_of : LirType → ℤ
width_of t = pos (machine_scalar_width t)

unfoldable pub verify_call_argument : MachineFunction → ℕ → MachineCallArgument → Check
verify_call_argument f i a = do
  reject (not (call_value_type a.typ) || type_eq a.typ void) "MIR_CALL_ARGUMENT_CLASS"
  reject (not (in_range a.value (length f.vregs))) "MIR_CALL_ARGUMENT_VALUE"
  reject (not (vreg_width_is f.vregs a.value (width_of a.typ)) || vreg_address f.vregs a.value)
      "MIR_CALL_ARGUMENT_TYPE"

unfoldable pub verify_call_result : MachineFunction → MachineInstruction → LirType → Check
verify_call_result f i t =
    if type_eq t void
    then reject (not (is_absent i.dst.kind) || not (i.width ==ℤ pos 0)) "MIR_CALL_VOID_RESULT"
    else reject
        (not (is_vreg i.dst.kind)
          || not (i.width ==ℤ width_of t)
          || not (i.dst.width ==ℤ i.width)
          || vreg_address f.vregs i.dst.id)
        "MIR_CALL_SCALAR_RESULT"

unfoldable pub verify_call : MachineFunction → MachineInstruction → MachineCall → Check
unfolding verify_call_argument verify_call_result
verify_call f i c = do
  reject (not (str_eq c.kind "direct")) "MIR_CALL_KIND"
  reject (not (str_eq c.convention "win64")) "MIR_CALL_CONVENTION"
  reject (str_eq c.target "" || not (any (λ x. x == b'|') (codes c.target))) "MIR_CALL_TARGET"
  reject (not (call_value_type c.result)) "MIR_CALL_RESULT_CLASS"
  verify_call_result f i c.result
  for_each (verify_call_argument f) 0 c.arguments

abbrev pub single_call : List MachineCall → Bool
single_call (c ∷ []) = true
single_call _ = false

abbrev pub call_check : MachineFunction → MachineInstruction → List MachineCall → Check
unfolding verify_call
call_check f i (c ∷ []) = verify_call f i c
call_check f i _ = ok tt

abbrev pub no_call : List MachineCall → Bool
no_call [] = true
no_call (_ ∷ _) = false

unfoldable pub verify_arithmetic : MachineInstruction → Check
verify_arithmetic i =
    reject
      (not (one_source i.src i.width) || not (is_vreg i.dst.kind) || not (i.width ==ℤ i.dst.width))
      "MIR_BAD_ARITHMETIC"

-- The `switch` on the opcode, inside a block lowered from `lir_block`.
unfoldable pub verify_shape : Opcode → MachineFunction → ℤ → MachineInstruction → Check
unfolding verify_call verify_arithmetic
verify_shape call f lir_block i = do
  reject
      (not (single_call i.calls)
        || not (no_source i.src)
        || not (str_eq i.cond "")
        || not (i.lir_block ==ℤ lir_block)
        || is_neg i.lir_instruction
        || not (ltb_ℤ (pos 0) i.source.line)
        || not (ltb_ℤ (pos 0) i.source.column))
      "MIR_BAD_CALL_SHAPE"
  call_check f i i.calls
verify_shape mov f lir_block i =
    reject
      (not (one_source i.src i.width)
        || not (is_vreg i.dst.kind) && not (is_preg i.dst.kind)
        || not (i.width ==ℤ i.dst.width))
      "MIR_BAD_MOV"
verify_shape load f lir_block i =
    reject
      (not (one_memory_source i.src)
        || not (is_vreg i.dst.kind)
        || not (i.width ==ℤ i.dst.width)
        || not (one_source i.src i.width))
      "MIR_BAD_LOAD"
verify_shape store f lir_block i =
    reject
      (not (one_source i.src i.width)
        || not (is_slot i.dst.kind) && not (is_mem i.dst.kind)
        || not (i.width ==ℤ i.dst.width))
      "MIR_BAD_STORE"
verify_shape lea f lir_block i =
    reject
      (not (one_mem_source i.src)
        || not (is_vreg i.dst.kind)
        || not (i.width ==ℤ pos 8)
        || not (vreg_address f.vregs i.dst.id))
      "MIR_BAD_LEA"
verify_shape cmp f lir_block i =
    reject (not (two_sources i.src i.width) || not (is_absent i.dst.kind)) "MIR_BAD_COMPARE"
verify_shape test f lir_block i =
    reject (not (two_sources i.src i.width) || not (is_absent i.dst.kind)) "MIR_BAD_COMPARE"
verify_shape setcc f lir_block i =
    reject
      (not (no_source i.src)
        || not (is_vreg i.dst.kind)
        || not (i.width ==ℤ pos 1)
        || not (i.dst.width ==ℤ pos 1))
      "MIR_BAD_SETCC"
verify_shape trap f lir_block i =
    reject (not (is_absent i.dst.kind) || not (no_source i.src) || not (i.width ==ℤ pos 0))
      "MIR_BAD_TRAP"
verify_shape add f lir_block i = verify_arithmetic i
verify_shape sub f lir_block i = verify_arithmetic i
verify_shape imul f lir_block i = verify_arithmetic i
verify_shape umul f lir_block i = verify_arithmetic i
verify_shape _ f lir_block i = ok tt
