-- ===== src/Machine/Operands.antt =====
-- Operands: the closure `check`, lines 163 to 212 of internal/concept/machineir_verify.go.
use concept.Base.{
  ℤ, pos, minus_one, is_neg, in_range, get_at?, ltb_ℤ, ◌==ℤ◌, Bool, true, false, not, ◌&&◌, ◌||◌,
  str_eq, List, length, none, some, ok, err, ◌>>=◌, ◌>>◌, Check, reject, if◌then◌else◌,
}
use concept.Machine.Registers.{reg_valid, machine_width_valid}
use concept.Machine.Ir.{
  MachineStackSlot, OperandKind, absent, vreg, preg, imm, slot, mem, block, MachineOperand, Opcode,
  call, MachineFunction, machine_immediate,
}
use concept.Machine.Parts.{vreg_address, vreg_width_is}

abbrev pub is_absent : OperandKind → Bool
is_absent absent = true
is_absent _ = false

abbrev pub is_vreg : OperandKind → Bool
is_vreg vreg = true
is_vreg _ = false

abbrev pub is_preg : OperandKind → Bool
is_preg preg = true
is_preg _ = false

abbrev pub is_mem : OperandKind → Bool
is_mem mem = true
is_mem _ = false

abbrev pub is_slot : OperandKind → Bool
is_slot slot = true
is_slot _ = false

abbrev pub is_call : Opcode → Bool
is_call call = true
is_call _ = false

-- `f.Slots[id]` holds a value of width `w` and is no incoming pointer.
abbrev pub slot_holds : List MachineStackSlot → ℤ → ℤ → Bool
slot_holds slots id w = elim (get_at? slots id) [
  | none ↦ false
  | some s ↦ not (ltb_ℤ s.size w) && not s.incoming_indirect
]

unfoldable pub scale_valid : ℤ → Bool
scale_valid s = s ==ℤ pos 1 || s ==ℤ pos 2 || s ==ℤ pos 4 || s ==ℤ pos 8

unfoldable pub verify_memory_base : MachineFunction → MachineOperand → Check
verify_memory_base f o =
    if is_neg o.base_slot
    then reject (not (in_range o.base (length f.vregs)) || not (vreg_address f.vregs o.base))
        "MIR_BAD_MEMORY_BASE"
    else reject (not (in_range o.base_slot (length f.slots))) "MIR_BAD_MEMORY_SLOT"

unfoldable pub verify_memory_region : MachineFunction → MachineOperand → Check
unfolding verify_memory_base
verify_memory_region f o =
    if str_eq o.region "incoming-arg"
    then reject
        (not (o.base ==ℤ minus_one)
          || not (o.base_slot ==ℤ minus_one)
          || not (o.index ==ℤ minus_one)
          || ltb_ℤ o.disp (pos 40))
        "MIR_BAD_INCOMING_MEMORY"
    else (verify_memory_base f o
        >> reject
            (not (is_neg o.index)
              && (not (in_range o.index (length f.vregs)) || vreg_address f.vregs o.index))
            "MIR_BAD_MEMORY_INDEX")

unfoldable pub verify_memory : MachineFunction → MachineOperand → Check
unfolding scale_valid verify_memory_region
verify_memory f o = do
  reject (not (machine_width_valid o.width) || not (scale_valid o.scale)) "MIR_BAD_MEMORY_SCALE"
  verify_memory_region f o

unfoldable pub verify_operand_kind : OperandKind → MachineFunction → MachineOperand → Check
unfolding verify_memory
verify_operand_kind vreg f o =
    reject (not (in_range o.id (length f.vregs)) || not (vreg_width_is f.vregs o.id o.width))
      "MIR_BAD_VREG_OPERAND"
verify_operand_kind preg f o =
    reject (not (reg_valid o.id) || not (machine_width_valid o.width)) "MIR_BAD_PREG"
verify_operand_kind imm f o = do
  reject (not (machine_width_valid o.width) || str_eq o.literal "") "MIR_BAD_IMMEDIATE"
  i ← machine_immediate o.literal o.width o.signed
  ok tt
verify_operand_kind slot f o =
    reject
      (not (in_range o.id (length f.slots))
        || not (machine_width_valid o.width)
        || not (slot_holds f.slots o.id o.width))
      "MIR_BAD_SLOT_OPERAND"
verify_operand_kind mem f o = verify_memory f o
verify_operand_kind block f o = reject (not (in_range o.id (length f.blocks))) "MIR_BAD_TARGET"
verify_operand_kind absent f o = err "MIR_BAD_OPERAND_KIND"
verify_operand_kind (OperandKind.other s) f o = err "MIR_BAD_OPERAND_KIND"

-- The closure `check` of the source.
unfoldable pub verify_operand : MachineFunction → MachineOperand → Check
unfolding verify_operand_kind
verify_operand f o = verify_operand_kind o.kind f o
