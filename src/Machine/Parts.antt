-- ===== src/Machine/Parts.antt =====
-- The checks of a function's registers, slots, frame and arguments, and the effects of an opcode:
-- lines 8 to 52 and 136 to 162 of internal/concept/machineir_verify.go.
use Prim.Native.Nat.{bit_and}
use concept.Base.{
  ℕ, ◌-◌, ℤ, pos, negsuc, is_neg, in_range, get_at?, ltb_ℤ, ◌==ℤ◌, Bool, true, false, not, ◌&&◌,
  ◌||◌, String, str_eq, List, [], ◌∷◌, length, any, Option, none, some, ◌>>=◌, Check, reject,
  if◌then◌else◌, ◌==◌,
}
use concept.Lir.Types.{LirType, ptr, void, bool, i8, u8, i16, u16, i32, u32, i64, u64}
use concept.Machine.Registers.{MachineArg, machine_width_valid, win64_argument}
use concept.Machine.Ir.{
  MachineVReg, MachineStackSlot, MachineFrame, OperandKind, slot, mem, MachineOperand, Opcode, mov,
  lea, load, store, add, sub, imul, umul, cmp, test, setcc, trap, call, jmp, jcc, ret,
  MachineInstruction,
}

pub record MachineEffects : Type 0 where
  pub reads_memory : Bool
  pub writes_memory : Bool
  pub sets_flags : Bool
  pub reads_flags : Bool
  pub terminates : Bool
  pub may_trap : Bool
  pub kills_flags : Bool

abbrev pub no_effects : MachineEffects
no_effects = record {
  reads_memory = false;
  writes_memory = false;
  sets_flags = false;
  reads_flags = false;
  terminates = false;
  may_trap = false;
  kills_flags = false;
}

-- `none` where the opcode is unknown.
unfoldable pub machine_opcode_effects : Opcode → Option MachineEffects
machine_opcode_effects mov = some no_effects
machine_opcode_effects lea = some no_effects
machine_opcode_effects load = some (record no_effects { reads_memory = true })
machine_opcode_effects store = some (record no_effects { writes_memory = true })
machine_opcode_effects add = some (record no_effects { sets_flags = true })
machine_opcode_effects sub = some (record no_effects { sets_flags = true })
machine_opcode_effects imul = some (record no_effects { sets_flags = true })
machine_opcode_effects umul = some (record no_effects { sets_flags = true })
machine_opcode_effects cmp = some (record no_effects { sets_flags = true })
machine_opcode_effects test = some (record no_effects { sets_flags = true })
machine_opcode_effects setcc = some (record no_effects { reads_flags = true })
machine_opcode_effects trap = some (record no_effects { may_trap = true })
machine_opcode_effects call = some (record no_effects {
  reads_memory = true;
  writes_memory = true;
  may_trap = true;
  kills_flags = true;
})
machine_opcode_effects jmp = some (record no_effects { terminates = true })
machine_opcode_effects jcc = some (record no_effects { terminates = true; reads_flags = true })
machine_opcode_effects ret = some (record no_effects { terminates = true })
machine_opcode_effects (Opcode.other s) = none

abbrev pub is_memory : OperandKind → Bool
is_memory mem = true
is_memory slot = true
is_memory _ = false

abbrev pub is_lea : Opcode → Bool
is_lea lea = true
is_lea _ = false

abbrev pub effects_or_none : Option MachineEffects → MachineEffects
effects_or_none none = no_effects
effects_or_none (some e) = e

-- The effects of an instruction: its opcode's, and those of its memory operands.
unfoldable pub instruction_effects : MachineInstruction → MachineEffects
unfolding machine_opcode_effects
instruction_effects i =
    let e = effects_or_none (machine_opcode_effects i.op) in
    if is_lea i.op then e else record e {
      reads_memory = e.reads_memory || any (λ (s : MachineOperand). is_memory s.kind) i.src;
      writes_memory = e.writes_memory || is_memory i.dst.kind;
    }

abbrev pub contains : List String → String → Bool
contains names s = any (λ x. str_eq x s) names

-- The tags of the bridge schema after `Condition::None`.
unfoldable pub condition_valid : String → Bool
condition_valid =
    contains ("E" ∷ "NE" ∷ "L" ∷ "LE" ∷ "G" ∷ "GE" ∷ "B" ∷ "BE" ∷ "A" ∷ "AE" ∷ "O" ∷ "C" ∷ [])

-- The tags of `bridgeTagsCallValueType`.
unfoldable pub call_value_type : LirType → Bool
call_value_type void = true
call_value_type bool = true
call_value_type i8 = true
call_value_type u8 = true
call_value_type i16 = true
call_value_type u16 = true
call_value_type i32 = true
call_value_type u32 = true
call_value_type i64 = true
call_value_type u64 = true
call_value_type _ = false

abbrev pub is_pointer : LirType → Bool
is_pointer (ptr t) = true
is_pointer _ = false

-- `f.VRegs[id].Address`, with false where there is no such register.
abbrev pub vreg_address : List MachineVReg → ℤ → Bool
vreg_address vregs id = elim (get_at? vregs id) [ none ↦ false | some v ↦ v.address ]

-- `f.VRegs[id].Width == w`
abbrev pub vreg_width_is : List MachineVReg → ℤ → ℤ → Bool
vreg_width_is vregs id w = elim (get_at? vregs id) [ none ↦ false | some v ↦ v.width ==ℤ w ]

unfoldable pub verify_vreg : ℕ → MachineVReg → Check
verify_vreg i v =
    reject
      (not (v.id ==ℤ pos i)
        || not (machine_width_valid v.width)
        || v.address && not (v.width ==ℤ pos 8))
      "MIR_BAD_VREG"

-- `n & (n - 1) != 0`, asked of a positive number only
abbrev pub not_power_of_two : ℤ → Bool
not_power_of_two (pos n) = not (bit_and n (n - 1) == 0)
not_power_of_two (negsuc n) = false

unfoldable pub verify_slot : List MachineVReg → ℕ → MachineStackSlot → Check
verify_slot vregs i s =
    reject
      (not (s.id ==ℤ pos i)
        || not (ltb_ℤ (pos 0) s.size)
        || not (ltb_ℤ (pos 0) s.align)
        || not_power_of_two s.align
        || s.incoming_indirect
          && (not (in_range s.base_vreg (length vregs)) || not (vreg_address vregs s.base_vreg)))
      "MIR_BAD_SLOT"

unfoldable pub verify_frame : MachineFrame → Check
verify_frame f =
    reject
      (not (f.alignment ==ℤ pos 16)
        || is_neg f.local_size
        || not (f.shadow_space ==ℤ pos 0) && not f.has_calls
        || f.has_calls && ltb_ℤ f.shadow_space (pos 32))
      "MIR_BAD_FRAME"

abbrev pub bool_eq : Bool → Bool → Bool
bool_eq true b = b
bool_eq false b = not b

unfoldable pub verify_arg : List MachineVReg → ℕ → MachineArg → Check
unfolding win64_argument
verify_arg vregs i a = do
  expect ← win64_argument (pos i) a.typ
  let address = a.indirect || is_pointer a.typ
  reject
      (not (a.index ==ℤ pos i)
        || not (a.width ==ℤ expect.width)
        || not (bool_eq a.indirect expect.indirect)
        || not (bool_eq a.on_stack expect.on_stack)
        || not (a.register ==ℤ expect.register)
        || not (a.stack_offset ==ℤ expect.stack_offset)
        || not (in_range a.vreg (length vregs))
        || not (vreg_width_is vregs a.vreg a.width)
        || not (bool_eq (vreg_address vregs a.vreg) address))
      "MIR_BAD_ABI_ARG"
