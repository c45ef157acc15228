-- ===== src/Lir/Effects/Init.antt =====
-- What an Init function that `verifyLIRMachineEffects` of internal/concept/lir.go accepts stores.
use concept.Base.{
  ℕ, zero, suc, ◌<◌, ℤ, pos, List, [], ◌∷◌, Bool, true, false, ◌||◌, not, some, String, str_eq,
  length, if_true, ok, reject, ◌≡◌, refl, sym, ap, ◌∙◌, subst, ◌⊎◌, inl, inr, >>-eq-ok,
  reject-eq-ok, ||-false, arith,
}
use text.Mathlib.TextEquality.{eq_iff}
use concept.Base.Bits.{bit, length-replicate, bit-replicate-false}
use concept.Lir.Frame.{LirMachineFunction}
use concept.Lir.Function.{LirBlock, LirFunction}
use concept.Lir.Borrow.{find}
use concept.Lir.Borrow.Definitions.{Has}
use concept.Lir.Effects.{
  Flow, Effects, has_role, next_flow, stored_in, check_flow, start_flow, all_initialized,
  verify_lir_machine_effects,
}
use concept.Lir.Effects.Writes.{ConstantStored, text_of-some}
use concept.Lir.Effects.Blocks.{
  BlockFlow, FlowRun, stop, go, machine_effects-FlowRun, block-written, FieldStored,
  FlowRun-initialized, length-initialized,
}

-- A block stores 0 as the state and false as the completion flag.
pub record StartStored (bs : List LirBlock) : Type 0 where
  pub block : LirBlock
  pub is_block : Has block bs
  pub state : ConstantStored block.instructions (length block.instructions) (pos 0) "0"
  pub completed : ConstantStored block.instructions (length block.instructions) (pos 1) "false"

all_initialized-bit :
    (bits : List Bool) (q : ℕ) → all_initialized bits ≡ ok tt → q < length bits → bit bits q ≡ true
unfolding all_initialized
all_initialized-bit [] q h l = absurd (omega arith)
all_initialized-bit (true ∷ bits) zero h l = refl
all_initialized-bit (true ∷ bits) (suc q) h l = all_initialized-bit bits q h (omega arith)
all_initialized-bit (false ∷ bits) q h l = cc

module _ (m : LirMachineFunction) (init : m.role ≡ "init") where
  init_role : has_role m "init" ≡ true
  init_role = (eq_iff m.role "init").1 init

  next-state :
      (s : Flow) (b : LirBlock) (e : Effects)
      → ((next_flow m b s e).init_state ≡ stored_in e (pos 0))
        × ((next_flow m b s e).init_completed ≡ stored_in e (pos 1))
  unfolding next_flow
  next-state s b e = (
    if_true (has_role m "init") (stored_in e (pos 0)) s.init_state init_role,
    if_true (has_role m "init") (stored_in e (pos 1)) s.init_completed init_role,
  )

  stored_constant :
      (s : Flow) (b : LirBlock) (t : Flow) (r : BlockFlow m s b t) (field : ℤ) (c : String)
      → stored_in r.effects field ≡ c
      → str_eq c "" ≡ false
      → ConstantStored b.instructions (length b.instructions) field c
  stored_constant s b t r field c is n =
      ((block-written m s b t r).stored field c
        (text_of-some (find field r.effects.stored) (subst (λ y. str_eq y "" ≡ false) (sym is) n)
          ∙ ap some is)
        n).0

  -- The texts at the end are those that the last block stores.
  last-stored :
      (s : Flow) (bs : List LirBlock) (u : Flow)
      → FlowRun m s bs u
      → u.init_state ≡ "0"
      → u.init_completed ≡ "false"
      → ((s.init_state ≡ "0") × (s.init_completed ≡ "false")) ⊎ StartStored bs
  last-stored s _ u stop p q = inl (p, q)
  last-stored s _ u (go {t = t} {b = b} {bs = bs} r rest) p q = elim (last-stored t bs u rest p q) [
    | inr w ↦ inr (record {
      block = w.block;
      is_block = (suc w.is_block.0, w.is_block.1);
      state = w.state;
      completed = w.completed;
    })
    | inl (p', q') ↦
        (let (state, completed) = next-state s b r.effects in
          inr (record {
            block = b;
            is_block = (0, refl);
            state =
                stored_constant s b t r (pos 0) "0"
                  (sym state ∙ ap (λ (y : Flow). y.init_state) r.next ∙ p') refl;
            completed =
                stored_constant s b t r (pos 1) "false"
                  (sym completed ∙ ap (λ (y : Flow). y.init_completed) r.next ∙ q') refl;
          }))
  ]

  check_flow-init :
      (u : Flow)
      → check_flow m u ≡ ok tt
      → (all_initialized u.initialized ≡ ok tt)
        × (u.init_state ≡ "0")
        × (u.init_completed ≡ "false")
  unfolding check_flow
  check_flow-init u h =
      let (all, final) =
        >>-eq-ok (all_initialized u.initialized)
          (reject (not (str_eq u.init_state "0") || not (str_eq u.init_completed "false"))
            "LIR_BAD_MACHINE_INITIAL_STATE")
          (sym (if_true (has_role m "init") _ _ init_role) ∙ h) in
      let (a, b) = ||-false (not (str_eq u.init_state "0")) _ (reject-eq-ok _ _ final) in
      (
        all,
        (eq_iff u.init_state "0").0 (passed _ a),
        (eq_iff u.init_completed "false").0 (passed _ b),
      )
    where
      passed : (b : Bool) → not b ≡ false → b ≡ true
      passed b h = ground arith

  -- An accepted Init function stores to every field of its frame, at an address of the field that the
  -- same block computes before; one of its blocks stores 0 as the state and false as the completion
  -- flag.
  pub verify_lir_machine_effects-FieldStored :
      (f : LirFunction) (q : ℕ)
      → f.machine ≡ some m
      → verify_lir_machine_effects f ≡ ok tt
      → q < length m.fields
      → FieldStored f.blocks (pos q) × StartStored f.blocks
  verify_lir_machine_effects-FieldStored f q is h l =
      let (u, run, final) = machine_effects-FlowRun m f is h in
      let (all, state, completed) = check_flow-init u final in
      let size =
        length-initialized m (start_flow m) f.blocks u run
        ∙ length-replicate (length m.fields) false in
      let marked = all_initialized-bit u.initialized q all (subst (λ n. q < n) (sym size) l) in
      (
        elim (FlowRun-initialized m (start_flow m) f.blocks u q run marked) [
          | inl p ↦ absurd (cc (sym (bit-replicate-false (length m.fields) q) ∙ p))
          | inr w ↦ w
        ],
        elim (last-stored (start_flow m) f.blocks u run state completed) [
          | inl p ↦ absurd (cc p.0)
          | inr w ↦ w
        ],
      )
