-- ===== src/Lir/Effects/Blocks.antt =====
-- The loop over the blocks in `verifyLIRMachineEffects` of internal/concept/lir.go.
use concept.Base.{
  ℕ, zero, suc, ℤ, pos, List, [], ◌∷◌, true, ◌&&◌, ◌==ℤ◌, ==ℤ_iff, some, get_elem?, length,
  if◌then◌else◌, ok, ◌≡◌, refl, sym, ap, ◌∙◌, subst, ◌⊎◌, inl, inr, Bool-cases, >>-eq-ok, >>=-eq-ok,
  ok_inj, some_inj, &&-true,
}
use concept.Base.Bits.{bit}
use concept.Lir.Frame.{LirMachineFunction}
use concept.Lir.Function.{LirBlock, LirFunction}
use concept.Lir.Borrow.Definitions.{Has}
use concept.Lir.Body.Blocks.{has_value}
use concept.Lir.Effects.{
  Effects, Flow, empty_effects, block_effects, check_step_block, has_role, is_dispatch, next_flow,
  check_block_effects, all_effects, check_flow, start_flow, machine_effects,
  verify_lir_machine_effects,
}
use concept.Lir.Effects.Writes.{Written, StoreBefore, block-Written}

-- A block of the function stores to the field.
pub record FieldStored (bs : List LirBlock) (field : ℤ) : Type 0 where
  pub block : LirBlock
  pub is_block : Has block bs
  pub value : ℤ
  pub stores : StoreBefore block.instructions (length block.instructions) field value

-- A block of the function has a label of the form `dispatch.` and the target as its true target.
pub record Dispatched (bs : List LirBlock) (target : ℤ) : Type 0 where
  pub block : LirBlock
  pub is_block : Has block bs
  pub dispatches : is_dispatch block ≡ true
  pub goes : block.term.on_true ≡ target

module _ (m : LirMachineFunction) where
  -- What the check of a block has done.
  pub record BlockFlow (s : Flow) (b : LirBlock) (t : Flow) : Type 0 where
    pub effects : Effects
    pub computed : block_effects m.states (empty_effects s.initialized) b.instructions ≡ ok effects
    pub checked : (if has_role m "step" then check_step_block b effects else ok tt) ≡ ok tt
    pub next : next_flow m b s effects ≡ t

  -- The states of the loop.
  pub data FlowRun : Flow → List LirBlock → Flow → Type 0 where
    stop : {s : Flow} → FlowRun s [] s
    go :
        {s t u : Flow} {b : LirBlock} {bs : List LirBlock}
        → BlockFlow s b t
        → FlowRun t bs u
        → FlowRun s (b ∷ bs) u

  all_effects-FlowRun :
      (s : Flow) (bs : List LirBlock) (u : Flow) → all_effects m s bs ≡ ok u → FlowRun s bs u
  unfolding all_effects check_block_effects
  all_effects-FlowRun s [] u h = subst (FlowRun s []) (ok_inj h) stop
  all_effects-FlowRun s (b ∷ bs) u h =
      let (t, now, later) = >>=-eq-ok (check_block_effects m s b) _ h in
      let (e, computed, h₁) =
        >>=-eq-ok (block_effects m.states (empty_effects s.initialized) b.instructions) _ now in
      let (checked, h₂) =
        >>-eq-ok (if has_role m "step" then check_step_block b e else ok tt) _ h₁ in
      go (record { effects = e; computed = computed; checked = checked; next = ok_inj h₂ })
        (all_effects-FlowRun t bs u later)

  pub machine_effects-FlowRun :
      (f : LirFunction)
      → f.machine ≡ some m
      → verify_lir_machine_effects f ≡ ok tt
      → (u : Flow) × FlowRun (start_flow m) f.blocks u × (check_flow m u ≡ ok tt)
  unfolding verify_lir_machine_effects machine_effects
  machine_effects-FlowRun f is h =
      let (u, all, final) =
        >>=-eq-ok (all_effects m (start_flow m) f.blocks) _
          (subst (λ o. machine_effects f.blocks o ≡ ok tt) is h) in
      (u, all_effects-FlowRun (start_flow m) f.blocks u all, final)

  next-targets :
      (s : Flow) (b : LirBlock) (e : Effects) (v : ℤ)
      → has_value (next_flow m b s e).state_targets v ≡ true
      → ((is_dispatch b ≡ true) × (b.term.on_true ≡ v)) ⊎ (has_value s.state_targets v ≡ true)
  unfolding next_flow
  next-targets s b e v h = elim (Bool-cases (has_role m "step" && is_dispatch b)) [
    | inr q ↦ inr (rw q at h)
    | inl q ↦ elim (Bool-cases (b.term.on_true ==ℤ v)) [
      | inl r ↦ inl ((&&-true (has_role m "step") _ q).1, (==ℤ_iff b.term.on_true v).0 r)
      | inr r ↦ inr (rw (q, r) at h)
    ]
  ]

  FieldStored-there :
      {b : LirBlock} {bs : List LirBlock} {q : ℤ} → FieldStored bs q → FieldStored (b ∷ bs) q
  FieldStored-there w = record {
    block = w.block;
    is_block = (suc w.is_block.0, w.is_block.1);
    value = w.value;
    stores = w.stores;
  }

  pub block-written :
      (s : Flow) (b : LirBlock) (t : Flow) (r : BlockFlow s b t)
      → Written m.states b.instructions s.initialized (length b.instructions) r.effects
  block-written s b t r = block-Written m.states b.instructions s.initialized r.effects r.computed

  -- A field that is marked at the end was marked at the start, or is stored to.
  pub FlowRun-initialized :
      (s : Flow) (bs : List LirBlock) (u : Flow) (q : ℕ)
      → FlowRun s bs u
      → bit u.initialized q ≡ true
      → (bit s.initialized q ≡ true) ⊎ FieldStored bs (pos q)
  unfolding next_flow
  FlowRun-initialized s _ u q stop h = inl h
  FlowRun-initialized s _ u q (go {t = t} {b = b} {bs = bs} r rest) h =
      elim (FlowRun-initialized t bs u q rest h) [
        | inr w ↦ inr (FieldStored-there w)
        | inl p ↦
            elim ((block-written s b t r).initialized q
              (subst (λ (y : Flow). bit y.initialized q ≡ true) (sym r.next) p)) [
                | inl w ↦ inl w
                | inr (v, w) ↦
                    inr (record { block = b; is_block = (0, refl); value = v; stores = w })
              ]
      ]

  pub length-initialized :
      (s : Flow) (bs : List LirBlock) (u : Flow)
      → FlowRun s bs u
      → length u.initialized ≡ length s.initialized
  unfolding next_flow
  length-initialized s _ u stop = refl
  length-initialized s _ u (go {t = t} {b = b} {bs = bs} r rest) =
      length-initialized t bs u rest
      ∙ ap (λ (y : Flow). length y.initialized) (sym r.next)
      ∙ (block-written s b t r).size

  pub FlowRun-targets :
      (s : Flow) (bs : List LirBlock) (u : Flow) (v : ℤ)
      → FlowRun s bs u
      → has_value u.state_targets v ≡ true
      → (has_value s.state_targets v ≡ true) ⊎ Dispatched bs v
  FlowRun-targets s _ u v stop h = inl h
  FlowRun-targets s _ u v (go {t = t} {b = b} {bs = bs} r rest) h =
      elim (FlowRun-targets t bs u v rest h) [
        | inr w ↦ inr (record {
          block = w.block;
          is_block = (suc w.is_block.0, w.is_block.1);
          dispatches = w.dispatches;
          goes = w.goes;
        })
        | inl p ↦
            elim (next-targets s b r.effects v
              (subst (λ (y : Flow). has_value y.state_targets v ≡ true) (sym r.next) p)) [
                | inl (d, g) ↦
                    inr (record { block = b; is_block = (0, refl); dispatches = d; goes = g })
                | inr w ↦ inl w
              ]
      ]

  -- Each block has passed its check, with entries that its instructions make.
  pub FlowRun-at :
      (s : Flow) (bs : List LirBlock) (u : Flow) (k : ℕ) (b : LirBlock)
      → FlowRun s bs u
      → get_elem? bs k ≡ some b
      → (v : Flow) × (t : Flow) × BlockFlow v b t
  FlowRun-at s _ u k b stop e = cc
  FlowRun-at s _ u zero b (go {t = t} r rest) e =
      (s, t, subst (λ y. BlockFlow s y t) (some_inj e) r)
  FlowRun-at s _ u (suc k) b (go {t = t} {bs = bs} r rest) e = FlowRun-at t bs u k b rest e
