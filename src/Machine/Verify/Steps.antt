-- ===== src/Machine/Verify/Steps.antt =====
-- What an accepted instruction satisfied, as one record: the inversion of `verify_instruction`.
use concept.Base.{
  ◌≡◌, minus_one, ok, arith, if◌then◌else◌, ◌∷◌, some, false, for_each, >>=-eq-ok, or_fail,
  >>-eq-ok, reject, not, ◌&&◌, or_fail-eq-ok, reject-eq-ok, sym, ok_inj, ◌∙◌, ap,
}
use concept.Machine.Ir.{MachineFunction, MachineInstruction}
use concept.Machine.Parts.{MachineEffects, machine_opcode_effects}
use concept.Machine.Operands.{verify_operand, is_call}
use concept.Machine.Shapes.{verify_shape, no_call}
use concept.Machine.Verify.{
  VerifyState, verify_dst, verify_flags_def, verify_flags_use, count_definition, verify_instruction,
}
use mathlib.Core.Path.{subst}
use concept.Base.{ℤ}

-- The state after the instruction's FLAGS effects.
unfoldable pub flags_after : MachineEffects → MachineInstruction → VerifyState → VerifyState
flags_after e i s =
    let killed = record s { flag = if e.kills_flags then minus_one else s.flag } in
    if e.sets_flags
    then record killed { flag_defs = i.flags_def ∷ s.flag_defs; flag = i.flags_def }
    else killed

pub record Accepted (f : MachineFunction) (lir_block : ℤ) (i : MachineInstruction)
    (s s' : VerifyState) : Type 0 where
  pub effects : MachineEffects
  pub known : machine_opcode_effects i.op ≡ some effects
  pub continues : effects.terminates ≡ false
  pub dst_checked : verify_dst f i.dst ≡ ok tt
  pub src_checked : for_each (λ _. verify_operand f) 0 i.src ≡ ok tt
  pub flags_checked : verify_flags_use effects i (flags_after effects i s) ≡ ok tt
  pub shape_checked : verify_shape i.op f lir_block i ≡ ok tt
  pub counted : s' ≡ count_definition i (flags_after effects i s)

verify_flags_def_lem :
    (e : MachineEffects) (i : MachineInstruction) (s : VerifyState) {d : VerifyState}
    → verify_flags_def e i (record s { flag = if e.kills_flags then minus_one else s.flag }) ≡ ok d
    → d ≡ flags_after e i s
unfolding verify_flags_def flags_after
verify_flags_def_lem e i s h = ground arith

-- What an accepted instruction passed.
pub verify_instruction-Accepted :
    (f : MachineFunction) (lir_block : ℤ) (i : MachineInstruction) (s s' : VerifyState)
    → verify_instruction f lir_block i s ≡ ok s'
    → Accepted f lir_block i s s'
unfolding verify_instruction
verify_instruction-Accepted f lir_block i s s' h =
    let (e, known, h₀) = >>=-eq-ok (or_fail (machine_opcode_effects i.op) _) _ h in
    let (continues, h₁) = >>-eq-ok (reject e.terminates _) _ h₀ in
    let (_, h₂) = >>-eq-ok (reject (not (is_call i.op) && not (no_call i.calls)) _) _ h₁ in
    let (dst, h₃) = >>-eq-ok (verify_dst f i.dst) _ h₂ in
    let (src, h₄) = >>-eq-ok (for_each (λ _. verify_operand f) 0 i.src) _ h₃ in
    let (_, h₅) = >>-eq-ok (reject _ "MIR_BAD_WIDTH") _ h₄ in
    let (d, def, h₆) = >>=-eq-ok (verify_flags_def e i _) _ h₅ in
    let (used, h₇) = >>-eq-ok (verify_flags_use e i d) _ h₆ in
    let (shape, h₈) = >>-eq-ok (verify_shape i.op f lir_block i) _ h₇ in
    let after : d ≡ flags_after e i s = verify_flags_def_lem e i s def in
    record {
      effects = e;
      known = or_fail-eq-ok _ _ known;
      continues = reject-eq-ok _ _ continues;
      dst_checked = dst;
      src_checked = src;
      flags_checked = subst (λ x. verify_flags_use e i x ≡ ok tt) after used;
      shape_checked = shape;
      counted = sym (ok_inj h₈) ∙ ap (count_definition i) after;
    }
