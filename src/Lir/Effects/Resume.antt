-- ===== src/Lir/Effects/Resume.antt =====
-- What a block of a Step function that `verifyLIRMachineEffects` of internal/concept/lir.go accepts
-- has done where it returns.
use concept.Base.{
  ℕ, zero, suc, ◌<◌, ℤ, pos, negsuc, List, [], ◌∷◌, Bool, true, false, ◌&&◌, ◌||◌, not, some,
  String, str_eq, length, in_range, get_elem?, if◌then◌else◌, if_true, if_false, ok, reject, ◌≡◌,
  refl, sym, ap, ◌∙◌, subst, ◌⊎◌, inl, inr, >>-eq-ok, reject-eq-ok, Option-cases, some_inj, arith,
}
use text.Mathlib.TextEquality.{eq_iff}
use concept.Machine.Immediate.{codes, parse_int}
use concept.Lir.Frame.{LirMachineState, LirMachineFunction}
use concept.Lir.Function.{LirBlock, LirFunction}
use concept.Lir.Borrow.{find}
use concept.Lir.Body.{machine_result}
use concept.Lir.Body.Blocks.{has_value}
use concept.Lir.Effects.{
  Flow, Effects, has_role, stored_in, returned, already_completed, bad_state, check_return,
  check_step_block, check_flow, start_flow, all_dispatched, verify_lir_machine_effects,
}
use concept.Lir.Effects.Writes.{LiteralBefore, ConstantStored, text_of-some}
use concept.Lir.Effects.Blocks.{
  machine_effects-FlowRun, block-written, Dispatched, FlowRun-targets, FlowRun-at,
}

-- The block stores the number of a state, and some block with a label of the form `dispatch.` has
-- that state's block as its true target.
pub record Resumable (m : LirMachineFunction) (bs : List LirBlock) (b : LirBlock) : Type 0 where
  pub literal : String
  pub stores : ConstantStored b.instructions (length b.instructions) (pos 0) literal
  pub number : ℕ
  pub is_number : parse_int (codes literal) 64 ≡ some (pos number)
  pub state : LirMachineState
  pub is_state : get_elem? m.states number ≡ some state
  pub dispatched : Dispatched bs (LirMachineState.block state)

abbrev pub yields : String → Bool
yields tag = str_eq tag "Yielded" || str_eq tag "Active"

-- What the block returns, and what it has stored before.
pub record Returned (m : LirMachineFunction) (bs : List LirBlock) (b : LirBlock) : Type 0 where
  pub tag : String
  pub result : LiteralBefore b.instructions (length b.instructions) machine_result b.term.value tag
  pub resumes : (yields tag ≡ false) ⊎ Resumable m bs b
  pub completes :
      (str_eq tag "Completed" ≡ false)
      ⊎ (already_completed b ≡ true)
      ⊎ ConstantStored b.instructions (length b.instructions) (pos 1) "true"

good_state :
    (states : List LirMachineState) (c : String)
    → str_eq c "" ≡ false
    → bad_state states c ≡ false
    → (n : ℕ) × (s : LirMachineState) × (parse_int (codes c) 64 ≡ some (pos n))
      × (get_elem? states n ≡ some s)
unfolding bad_state
good_state states c n h = elim (Option-cases (parse_int (codes c) 64)) [
  | inl e ↦ absurd (cc (rw (n, e) at h))
  | inr (v, e) ↦ number v e (rw (n, e) at h)
]
  where
    inside :
        (xs : List LirMachineState) (k : ℕ)
        → k < length xs
        → (s : LirMachineState) × (get_elem? xs k ≡ some s)
    inside [] k h = absurd (omega arith)
    inside (x ∷ xs) zero h = (x, refl)
    inside (x ∷ xs) (suc k) h = inside xs k (omega arith)

    number :
        (v : ℤ)
        → parse_int (codes c) 64 ≡ some v
        → not (in_range v (length states)) ≡ false
        → (n : ℕ) × (s : LirMachineState) × (parse_int (codes c) 64 ≡ some (pos n))
          × (get_elem? states n ≡ some s)
    number (pos k) e h = let (s, q) = inside states k (ground arith) in (k, s, e, q)
    number (negsuc k) e h = cc

passed : (b : Bool) → not b ≡ false → b ≡ true
passed b h = ground arith

all_dispatched-get :
    (targets : List ℤ) (ss : List LirMachineState) (k : ℕ) (s : LirMachineState)
    → all_dispatched targets ss ≡ ok tt
    → get_elem? ss k ≡ some s
    → has_value targets (LirMachineState.block s) ≡ true
unfolding all_dispatched
all_dispatched-get targets [] k s h e = cc
all_dispatched-get targets (x ∷ ss) zero s h e =
    let (a, _) = >>-eq-ok (reject (not (has_value targets (LirMachineState.block x))) _) _ h in
    subst (λ (y : LirMachineState). has_value targets (LirMachineState.block y) ≡ true) (some_inj e)
      (passed _ (reject-eq-ok _ _ a))
all_dispatched-get targets (x ∷ ss) (suc k) s h e =
    let (_, b) = >>-eq-ok (reject (not (has_value targets (LirMachineState.block x))) _) _ h in
    all_dispatched-get targets ss k s b e

-- What a returning block that is not refused satisfies.
check_return-facts :
    (b : LirBlock) (e : Effects)
    → check_return b e ≡ ok tt
    → (str_eq (returned b e) "" ≡ false)
      × ((yields (returned b e) ≡ false) ⊎ (str_eq (stored_in e (pos 0)) "" ≡ false))
      × ((str_eq (returned b e) "Completed" ≡ false)
          ⊎ (already_completed b ≡ true)
          ⊎ (str_eq (stored_in e (pos 1)) "true" ≡ true))
unfolding check_return
check_return-facts b e h =
    let (a, h₁) = >>-eq-ok (reject (str_eq (returned b e) "") _) _ h in
    let (r, c) = >>-eq-ok (reject _ "LIR_MISSING_MACHINE_RESUME_STATE") _ h₁ in
    (
      reject-eq-ok _ _ a,
      either (yields (returned b e)) _ (reject-eq-ok _ _ r),
      three (str_eq (returned b e) "Completed") (already_completed b) _ (reject-eq-ok _ _ c),
    )
  where
    either : (p q : Bool) → (p && q) ≡ false → (p ≡ false) ⊎ (q ≡ false)
    either p q h = ground arith

    three : (p q r : Bool) → (p && not q && not r) ≡ false → (p ≡ false) ⊎ (q ≡ true) ⊎ (r ≡ true)
    three p q r h = ground arith

module _ (m : LirMachineFunction) (step : m.role ≡ "step") where
  step_role : has_role m "step" ≡ true
  step_role = (eq_iff m.role "step").1 step

  -- The block has passed the check of a block that returns.
  returns :
      (b : LirBlock) (e : Effects)
      → (if has_role m "step" then check_step_block b e else ok tt) ≡ ok tt
      → b.term.op ≡ "return"
      → check_return b e ≡ ok tt
  unfolding check_step_block
  returns b e h op =
      let (_, h₁) =
        >>-eq-ok (reject _ "LIR_BAD_MACHINE_COMPLETED_PATH") _
          (sym (if_true (has_role m "step") (check_step_block b e) (ok tt) step_role) ∙ h) in
      sym (
        if_true (str_eq b.term.op "return") (check_return b e) (ok tt)
          ((eq_iff b.term.op "return").1 op))
      ∙ h₁

  check_flow-step :
      (u : Flow) → check_flow m u ≡ ok tt → all_dispatched u.state_targets m.states ≡ ok tt
  unfolding check_flow
  check_flow-step u h =
      (>>-eq-ok (all_dispatched u.state_targets m.states)
        (reject (not u.invalid_trap) "LIR_MISSING_MACHINE_INVALID_STATE")
        (sym (if_false (has_role m "init") _ _ (other m.role step)) ∙ h)).0
    where
      other : (r : String) → r ≡ "step" → str_eq r "init" ≡ false
      other r e = rw e refl

  -- In an accepted Step function a state of the machine has a block with a label of the form
  -- `dispatch.` that has the state's block as its true target.
  state-Dispatched :
      (f : LirFunction) (k : ℕ) (s : LirMachineState)
      → f.machine ≡ some m
      → verify_lir_machine_effects f ≡ ok tt
      → get_elem? m.states k ≡ some s
      → Dispatched f.blocks (LirMachineState.block s)
  state-Dispatched f k s is h e =
      let (u, run, final) = machine_effects-FlowRun m f is h in
      elim (FlowRun-targets m (start_flow m) f.blocks u (LirMachineState.block s) run
        (all_dispatched-get u.state_targets m.states k s (check_flow-step u final) e)) [
          | inl p ↦ absurd (cc p)
          | inr w ↦ w
        ]

  -- A block of an accepted Step function that returns gives the result of a `machine_result`. Where
  -- this is `Yielded` or `Active` the block stores the number of a state, and the function has a
  -- block with a label of the form `dispatch.` whose true target is that state's block; where it is
  -- `Completed` the block stores the completion flag or is the one for a machine that has completed
  -- already.
  pub verify_lir_machine_effects-Returned :
      (f : LirFunction) (k : ℕ) (b : LirBlock)
      → f.machine ≡ some m
      → verify_lir_machine_effects f ≡ ok tt
      → get_elem? f.blocks k ≡ some b
      → b.term.op ≡ "return"
      → Returned m f.blocks b
  verify_lir_machine_effects-Returned f k b is h eb op =
      let (u, run, _) = machine_effects-FlowRun m f is h in
      let (s, t, r) = FlowRun-at m (start_flow m) f.blocks u k b run eb in
      let (a, resumes, completes) =
        check_return-facts b r.effects (returns b r.effects r.checked op) in
      let written = block-written m s b t r in
      record {
        tag = returned b r.effects;
        result =
            written.results b.term.value (returned b r.effects)
              (text_of-some (find b.term.value r.effects.results) a);
        resumes = elim resumes [
          | inl p ↦ inl p
          | inr n ↦
              (let c = stored_in r.effects (pos 0) in
                let (stores, good) =
                  written.stored (pos 0) c (text_of-some (find (pos 0) r.effects.stored) n) n in
                let (j, state, number, at) = good_state m.states c n (good refl) in
                inr (record {
                  literal = c;
                  stores = stores;
                  number = j;
                  is_number = number;
                  state = state;
                  is_state = at;
                  dispatched = state-Dispatched f j state is h at;
                }))
        ];
        completes = elim completes [
          | inl p ↦ inl p
          | inr (inl p) ↦ inr (inl p)
          | inr (inr p) ↦
              (let same = (eq_iff (stored_in r.effects (pos 1)) "true").0 p in
                inr (
                  inr (
                    (written.stored (pos 1) "true"
                      (text_of-some (find (pos 1) r.effects.stored)
                          (subst (λ y. str_eq y "" ≡ false) (sym same) refl)
                        ∙ ap some same)
                      refl).0)))
        ];
      }
