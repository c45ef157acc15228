-- ===== src/Machine/Verify/Blocks.antt =====
-- What an accepted block and an accepted function passed: the inversions of `verify_block`,
-- `verify_blocks` and `verify_machine_function`.
use concept.Machine.Verify.Steps.{Accepted, verify_instruction-Accepted}
use concept.Machine.Ir.{MachineFunction, MachineBlock, MachineInstruction}
use concept.Machine.Verify.{
  VerifyState, verify_instruction, verify_instructions, verify_terminator, verify_block,
  verify_blocks, verify_machine_function, start, defined_once,
}
use concept.Base.{
  ◌≡◌, ◌++◌, ok, pos, false, minus_one, >>-eq-ok, get_elem?, ==ℤ_iff, arith, some, reject, is_neg,
  >>=-eq-ok, ok_inj, reject-eq-ok, ◌∙◌, ◌∷◌, ◌+◌, ◌>>=◌, some_inj, add-zero, subst, suc, add-suc,
  suc-add, [], zero, refl, ℤ, for_each, ℕ, Bool, List, not, ◌==ℤ◌, ◌||◌,
}
use concept.Machine.Parts.{verify_arg, verify_vreg, verify_slot, verify_frame}

pub record AcceptedBlock (f : MachineFunction) (k : ℕ) (b : MachineBlock) (s s' : VerifyState)
    : Type 0 where
  pub numbered : b.id ≡ pos k
  pub instructions_checked :
      verify_instructions f b.lir_block b.instructions (record s { flag = minus_one }) ≡ ok s'
  pub terminator_checked : verify_terminator b.term.op f s'.flag b ≡ ok tt

numbered_lem : (a b : ℤ) (c : Bool) → (not (a ==ℤ b) || c) ≡ false → a ≡ b
numbered_lem a b c h = (==ℤ_iff a b).0 (ground arith)

pub verify_block-AcceptedBlock :
    (f : MachineFunction) (k : ℕ) (b : MachineBlock) (s s' : VerifyState)
    → verify_block f k b s ≡ ok s'
    → AcceptedBlock f k b s s'
unfolding verify_block
verify_block-AcceptedBlock f k b s s' h =
    let (n, h₀) = >>-eq-ok (reject (not (b.id ==ℤ pos k) || is_neg b.lir_block) _) _ h in
    let (t, ht, h₁) = >>=-eq-ok (verify_instructions f b.lir_block b.instructions _) _ h₀ in
    let (term, h₂) = >>-eq-ok (verify_terminator b.term.op f t.flag b) _ h₁ in
    let e : t ≡ s' = ok_inj h₂ in
    record {
      numbered = numbered_lem b.id (pos k) _ (reject-eq-ok _ _ n);
      instructions_checked = ht ∙ h₂;
      terminator_checked = subst (λ x. verify_terminator b.term.op f x.flag b ≡ ok tt) e term;
    }

-- A loop over the blocks that finishes has accepted each of them, from some state.
pub verify_blocks-get :
    (f : MachineFunction) (k : ℕ) (bs : List MachineBlock) (n : ℕ) (b : MachineBlock)
    (s s' : VerifyState)
    → verify_blocks f k bs s ≡ ok s'
    → get_elem? bs n ≡ some b
    → (t : VerifyState) × (t' : VerifyState) × AcceptedBlock f (k + n) b t t'
unfolding verify_blocks
verify_blocks-get f k [] n b s s' h e = cc
verify_blocks-get f k (c ∷ bs) zero b s s' h e =
    let (t, p, _) = >>=-eq-ok (verify_block f k c s) _ h in
    let q : c ≡ b = some_inj e in
    (
      s,
      t,
      rw add-zero
          (verify_block-AcceptedBlock f k b s t (subst (λ x. verify_block f k x s ≡ ok t) q p)),
    )
verify_blocks-get f k (c ∷ bs) (suc n) b s s' h e =
    let (t, _, p) = >>=-eq-ok (verify_block f k c s) _ h in
    rw (add-suc, ← suc-add) (verify_blocks-get f (suc k) bs n b t s' p e)

pub record AcceptedFunction (f : MachineFunction) : Type 0 where
  pub final : VerifyState
  pub args_checked : for_each (verify_arg f.vregs) 0 f.args ≡ ok tt
  pub vregs_checked : for_each verify_vreg 0 f.vregs ≡ ok tt
  pub blocks_checked : verify_blocks f 0 f.blocks (start f) ≡ ok final
  pub defined_checked : for_each defined_once 0 final.initial_defs ≡ ok tt

pub verify_machine_function-AcceptedFunction :
    (f : MachineFunction) → verify_machine_function f ≡ ok tt → AcceptedFunction f
unfolding verify_machine_function
verify_machine_function-AcceptedFunction f h =
    let (_, h₀) = >>-eq-ok (reject _ "MIR_BAD_FUNCTION") _ h in
    let (v, h₁) = >>-eq-ok (for_each verify_vreg 0 f.vregs) _ h₀ in
    let (_, h₂) = >>-eq-ok (for_each (verify_slot f.vregs) 0 f.slots) _ h₁ in
    let (_, h₃) = >>-eq-ok (verify_frame f.frame) _ h₂ in
    let (a, h₄) = >>-eq-ok (for_each (verify_arg f.vregs) 0 f.args) _ h₃ in
    let (s, b, h₅) = >>=-eq-ok (verify_blocks f 0 f.blocks (start f)) _ h₄ in
    record {
      final = s;
      args_checked = a;
      vregs_checked = v;
      blocks_checked = b;
      defined_checked = h₅;
    }

-- Every instruction of an accepted list was accepted, from the state that those before it left.
pub verify_instructions-split :
    (f : MachineFunction) (lir_block : ℤ) (pre : List MachineInstruction) (i : MachineInstruction)
    (post : List MachineInstruction) (s s' : VerifyState)
    → verify_instructions f lir_block (pre ++ i ∷ post) s ≡ ok s'
    → (t : VerifyState) × (t' : VerifyState) × (verify_instructions f lir_block pre s ≡ ok t)
      × Accepted f lir_block i t t'
unfolding verify_instructions
verify_instructions-split f l [] i post s s' h =
    let (t, p, _) = >>=-eq-ok (verify_instruction f l i s) _ h in
    (s, t, refl, verify_instruction-Accepted f l i s t p)
verify_instructions-split f l (j ∷ pre) i post s s' h =
    let (t, p, q) = >>=-eq-ok (verify_instruction f l j s) _ h in
    let (u, u', r, a) = verify_instructions-split f l pre i post t s' q in
    (u, u', rw (p, ◌>>=◌) r, a)
