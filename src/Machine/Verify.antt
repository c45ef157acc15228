-- ===== src/Machine/Verify.antt =====
-- `VerifyMachineFunction` and `VerifyMachineIR` over CMIRAMD3 functions: lines 96 to 379 of
-- internal/concept/machineir_verify.go.
pub mod Steps
pub mod Arguments
pub mod Flags
pub mod Definitions
pub mod Blocks
use concept.Base.{
  ℕ, zero, suc, ◌+◌, ◌-◌, ◌<◌, ℤ, pos, negsuc, minus_one, is_neg, in_range, get_at?, ltb_ℤ, ◌==ℤ◌,
  Bool, true, false, not, ◌&&◌, ◌||◌, String, str_eq, List, [], ◌∷◌, length, get_elem?, any, Option,
  none, some, Result, ok, err, ◌>>=◌, ◌>>◌, Check, reject, or_fail, for_each, if◌then◌else◌, ltb,
  ◌==◌,
}
use concept.Lir.Types.{LirType, void, type_eq, machine_scalar_width}
use concept.Machine.Registers.{MachineArg, reg_valid, rax, machine_width_valid, win64_return}
use concept.Machine.Ir.{
  Span, MachineVReg, MachineStackSlot, OperandKind, absent, vreg, preg, imm, slot, mem, block,
  MachineOperand, Opcode, mov, lea, load, store, add, sub, imul, umul, cmp, test, setcc, trap, call,
  jmp, jcc, ret, MachineCallArgument, MachineCall, MachineInstruction, MachineTerminator,
  MachineBlock, MachineFunction, machine_immediate,
}
use concept.Machine.Immediate.{codes}
use concept.Machine.Parts.{
  MachineEffects, machine_opcode_effects, condition_valid, call_value_type, vreg_address,
  vreg_width_is, contains, verify_vreg, verify_slot, verify_frame, verify_arg,
}
use concept.Machine.Shapes.{verify_shape, no_call}
use concept.Machine.Operands.{is_preg, is_absent, is_vreg, verify_operand, is_call}

-- What the loop over instructions carries: how often each register was defined, the FLAGS values
-- defined in the function, and the FLAGS value that is live in the block, or -1.
pub record VerifyState : Type 0 where
  pub initial_defs : List ℕ
  pub flag_defs : List ℤ
  pub flag : ℤ

abbrev pub member_ℤ : ℤ → List ℤ → Bool
member_ℤ x = any (λ y. y ==ℤ x)

-- An operand that may be missing.
unfoldable pub verify_dst : MachineFunction → MachineOperand → Check
verify_dst f o = if is_absent o.kind then ok tt else verify_operand f o

unfoldable pub verify_flags_def :
    MachineEffects → MachineInstruction → VerifyState → Result VerifyState
verify_flags_def e i s =
    if e.sets_flags
    then (do
      reject (is_neg i.flags_def || member_ℤ i.flags_def s.flag_defs) "MIR_BAD_FLAGS_DEF"
      ok (record s { flag_defs = i.flags_def ∷ s.flag_defs; flag = i.flags_def }))
    else (do reject (not (is_neg i.flags_def)) "MIR_UNEXPECTED_FLAGS_DEF"; ok s)

unfoldable pub verify_flags_use : MachineEffects → MachineInstruction → VerifyState → Check
verify_flags_use e i s =
    if e.reads_flags
    then reject (is_neg s.flag || not (i.flags_use ==ℤ s.flag) || not (condition_valid i.cond))
        "MIR_BAD_FLAGS_USE"
    else reject (not (is_neg i.flags_use)) "MIR_UNEXPECTED_FLAGS_USE"

-- An instruction whose destination is the first definition of its register. The two-address
-- operations update the register that an earlier MOV defined.
abbrev pub is_definition : Opcode → Bool
is_definition mov = true
is_definition load = true
is_definition lea = true
is_definition setcc = true
is_definition call = true
is_definition _ = false

-- `xs[i]++`
unfoldable pub bump : List ℕ → ℕ → List ℕ
bump [] i = []
bump (x ∷ xs) zero = suc x ∷ xs
bump (x ∷ xs) (suc i) = x ∷ bump xs i

unfoldable pub bump_at : List ℕ → ℤ → List ℕ
unfolding bump
bump_at xs (pos i) = bump xs i
bump_at xs (negsuc i) = xs

unfoldable pub count_definition : MachineInstruction → VerifyState → VerifyState
unfolding bump_at
count_definition i s =
    if is_vreg i.dst.kind && is_definition i.op
    then record s { initial_defs = bump_at s.initial_defs i.dst.id }
    else s

-- One round of the loop over a block's instructions.
unfoldable pub verify_instruction :
    MachineFunction → ℤ → MachineInstruction → VerifyState → Result VerifyState
verify_instruction f lir_block i s = do
  e ← or_fail (machine_opcode_effects i.op) "MIR_BAD_OPCODE"
  reject e.terminates "MIR_BAD_OPCODE"
  reject (not (is_call i.op) && not (no_call i.calls)) "MIR_UNEXPECTED_CALL_CONTRACT"
  let killed = record s { flag = if e.kills_flags then minus_one else s.flag }
  verify_dst f i.dst
  for_each (λ _. verify_operand f) 0 i.src
  reject (not (i.width ==ℤ pos 0) && not (machine_width_valid i.width)) "MIR_BAD_WIDTH"
  defined ← verify_flags_def e i killed
  verify_flags_use e i defined
  verify_shape i.op f lir_block i
  ok (count_definition i defined)

unfoldable pub verify_instructions :
    MachineFunction → ℤ → List MachineInstruction → VerifyState → Result VerifyState
verify_instructions f lir_block [] s = ok s
verify_instructions f lir_block (i ∷ is) s =
    verify_instruction f lir_block i s >>= verify_instructions f lir_block is

abbrev pub is_return_move : Opcode → Bool
is_return_move mov = true
is_return_move _ = false

abbrev pub is_trap : Opcode → Bool
is_trap trap = true
is_trap _ = false

abbrev pub last? : List MachineInstruction → Option MachineInstruction
last? [] = none
last? (i ∷ []) = some i
last? (i ∷ j ∷ is) = last? (j ∷ is)

-- The last instruction moves the result into RAX at its width.
abbrev pub returns_in_rax : Option MachineInstruction → ℕ → Bool
returns_in_rax none w = false
returns_in_rax (some i) w =
    is_return_move i.op && is_preg i.dst.kind && i.dst.id ==ℤ rax && i.dst.width ==ℤ pos w

abbrev pub traps_last : Option MachineInstruction → Bool
traps_last none = false
traps_last (some i) = is_trap i.op

unfoldable pub verify_return : MachineFunction → MachineBlock → Check
verify_return f b = do
  reject (not (is_neg b.term.flags_use)) "MIR_BAD_RET"
  if type_eq f.result void
      then ok tt
      else (win64_return f.result >>= λ rw.
          reject (not (returns_in_rax (last? b.instructions) rw.1)) "MIR_RETURN_REGISTER")

-- The `switch` on the terminator; `flag` is the FLAGS value live at the end of the block.
unfoldable pub verify_terminator : Opcode → MachineFunction → ℤ → MachineBlock → Check
unfolding verify_return
verify_terminator jmp f flag b =
    reject (not (in_range b.term.on_true (length f.blocks)) || not (is_neg b.term.flags_use))
      "MIR_BAD_JUMP"
verify_terminator jcc f flag b =
    reject
      (not (in_range b.term.on_true (length f.blocks))
        || not (in_range b.term.on_false (length f.blocks))
        || not (condition_valid b.term.cond)
        || is_neg flag
        || not (b.term.flags_use ==ℤ flag))
      "MIR_BAD_JCC"
verify_terminator ret f flag b = verify_return f b
verify_terminator trap f flag b =
    reject (not (traps_last (last? b.instructions))) "MIR_BAD_TRAP_TERM"
verify_terminator _ f flag b = err "MIR_MISSING_TERMINATOR"

unfoldable pub verify_block : MachineFunction → ℕ → MachineBlock → VerifyState → Result VerifyState
verify_block f i b s = do
  reject (not (b.id ==ℤ pos i) || is_neg b.lir_block) "MIR_BAD_BLOCK"
  s' ← verify_instructions f b.lir_block b.instructions (record s { flag = minus_one })
  verify_terminator b.term.op f s'.flag b
  ok s'

unfoldable pub verify_blocks :
    MachineFunction → ℕ → List MachineBlock → VerifyState → Result VerifyState
verify_blocks f i [] s = ok s
verify_blocks f i (b ∷ bs) s = verify_block f i b s >>= verify_blocks f (suc i) bs

-- `make([]int, len(f.VRegs))`
abbrev pub no_definitions : List MachineVReg → List ℕ
no_definitions [] = []
no_definitions (v ∷ vs) = 0 ∷ no_definitions vs

abbrev pub is_empty {ℓ} : {A : Type ℓ} → List A → Bool
is_empty [] = true
is_empty (_ ∷ _) = false

abbrev pub start : MachineFunction → VerifyState
start f = record { initial_defs = no_definitions f.vregs; flag_defs = []; flag = minus_one }

unfoldable pub defined_once : ℕ → ℕ → Check
defined_once i count = reject (not (count == 1)) "MIR_VREG_DEFINITION"

unfoldable pub verify_machine_function : MachineFunction → Check
unfolding defined_once
verify_machine_function f = do
  reject
      (str_eq f.identity ""
        || not (str_eq f.target "amd64-windows")
        || not (str_eq f.abi "win64")
        || is_empty f.blocks)
      "MIR_BAD_FUNCTION"
  for_each verify_vreg 0 f.vregs
  for_each (verify_slot f.vregs) 0 f.slots
  verify_frame f.frame
  for_each (verify_arg f.vregs) 0 f.args
  s ← verify_blocks f 0 f.blocks (start f)
  for_each defined_once 0 s.initial_defs
