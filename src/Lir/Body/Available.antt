-- ===== src/Lir/Body/Available.antt =====
-- The arguments of instructions in a function whose references and body `VerifyLIR` of
-- internal/concept/lir.go accepts.
use concept.Base.{
  ℕ, zero, suc, ◌<◌, ℤ, pos, pos_part, List, [], ◌∷◌, Bool, true, false, not, some, none,
  if◌then◌else◌, ◌==ℤ◌, is_neg, minus_one, any, length, get_elem?, get_elem?-lt, ◌≡◌, refl, sym, ap,
  ◌∙◌, subst, ◌⊎◌, inl, inr, Bool-cases, Option-cases, arith, some_inj, All, ok, ok_inj, reject,
  >>-eq-ok, >>=-eq-ok, or_fail, or_fail-eq-ok, zero-add,
}
use concept.Base.Bits.{bit}
use concept.Lir.Types.{LirType}
use concept.Lir.Function.{
  LirValue, LirInstruction, LirBlock, LirFunction, LirBorrowContract, LirBorrowReference,
}
use concept.Lir.Dominators.{Rows, row, lir_dominators}
use concept.Lir.Dominators.Exact.{Dominates, AreDominators, lir_dominators-AreDominators}
use concept.Lir.Borrow.{Entries, Definition, find, block_of, type_of, lir_reference_definitions}
use concept.Lir.Borrow.Verify.{verify_lir_borrow_function}
use concept.Lir.Borrow.Definitions.{Has, IsParam, Defines, find-All, definitions-Origin}
use concept.Lir.Borrow.Places.{IsPlaced}
use concept.Lir.Borrow.Accepted.{Accepted, verify_contract-Accepted, reference-IsPlaced, block-id}
use concept.Lir.Body.{LirOp, check_index, Env, Body, op_of, is_known}
use concept.Lir.Body.Blocks.{
  declare_params, is_dominating, dominating_references, entry_values, known_arguments, define,
  add_guard, verify_body,
}
use concept.Lir.Body.Steps.{Step, Run-at, Runs-at, verify_body-Run}

-- Before instruction k of block bi the value is defined: it is a parameter, the result of an earlier
-- instruction of the block, or defined in a block that is on every walk to block bi.
pub data IsAvailable (f : LirFunction) (b : LirBlock) (bi k : ℕ) (v : ℤ) : Type 0 where
  parameter : IsParam f v → IsAvailable f b bi k v
  earlier :
      (j : ℕ) (y : LirInstruction)
      → j < k
      → get_elem? b.instructions j ≡ some y
      → y.result ≡ v
      → IsAvailable f b bi k v
  dominating : (n : ℕ) → Defines f n v → Dominates f.blocks n bi → IsAvailable f b bi k v

module _ (f : LirFunction) where
  declare_params-IsParam :
      (ps : List LirValue) (params params' : Entries LirType) (all all' : List ℤ)
      → ((j : ℕ) (p : LirValue) → get_elem? ps j ≡ some p → Has p f.params)
      → All (λ e. IsParam f e.0) params
      → declare_params ps params all ≡ ok (params', all')
      → All (λ e. IsParam f e.0) params'
  unfolding declare_params
  declare_params-IsParam [] params params' all all' w are h =
      subst (All (λ e. IsParam f e.0)) (ap (λ (d : Entries LirType × List ℤ). d.0) (ok_inj h)) are
  declare_params-IsParam (p ∷ ps) params params' all all' w are h =
      let (_, rest) = >>-eq-ok (reject (any (λ x. x ==ℤ p.id) all) "LIR_DUPLICATE_VALUE") _ h in
      declare_params-IsParam ps ((p.id, p.typ) ∷ params) params' (p.id ∷ all) all'
        (λ j q e. w (suc j) q e) ((p, w 0 p refl, refl), are) rest

module _ (f : LirFunction) (b : LirBlock) (bi : ℕ) where
  -- Every value that is known is available.
  abbrev AreAvailable : ℕ → Entries LirType → Type 0
  AreAvailable k known = All (λ e. IsAvailable f b bi k e.0) known

  params-AreAvailable :
      (known : Entries LirType) → All (λ e. IsParam f e.0) known → AreAvailable 0 known
  params-AreAvailable [] h = tt
  params-AreAvailable (e ∷ known) h = (parameter h.0, params-AreAvailable known h.1)

  module _ (env : Env) (c : LirBorrowContract) (a : Accepted f env.layouts c)
      (l : bi < length f.blocks) where
    reference-IsAvailable :
        (dom : Rows) (r : LirBorrowReference)
        → AreDominators f.blocks dom
        → Has r c.references
        → is_neg (block_of (lir_reference_definitions f) r.value) ≡ false
        → bit (row dom bi) (pos_part (block_of (lir_reference_definitions f) r.value)) ≡ true
        → IsAvailable f b bi 0 r.value
    reference-IsAvailable dom r exact listed n h =
        let (d, e) = IsPlaced.defined (reference-IsPlaced f env.layouts c a r listed) in
        by_origin d (found d e) (definitions-Origin f r.value (block-id f env.layouts c a) e)
      where
        found :
            (d : Definition)
            → find r.value (lir_reference_definitions f) ≡ some d
            → block_of (lir_reference_definitions f) r.value ≡ d.1
        found d e = unfold block_of in rw (block_of, e)

        by_origin :
            (d : Definition)
            → block_of (lir_reference_definitions f) r.value ≡ d.1
            → (IsParam f r.value × (d.1 ≡ minus_one))
              ⊎ ((k : ℕ) × (d.1 ≡ pos k) × Defines f k r.value)
            → IsAvailable f b bi 0 r.value
        by_origin d same (inl p) = parameter p.0
        by_origin d same (inr (k, q, defines)) =
            dominating k defines
              ((exact bi k l).0 (subst (λ z. bit (row dom bi) (pos_part z) ≡ true) (same ∙ q) h))

    dominating_references-AreAvailable :
        (dom : Rows) (rs : List LirBorrowReference) (known : Entries LirType)
        → AreDominators f.blocks dom
        → ((j : ℕ) (r : LirBorrowReference) → get_elem? rs j ≡ some r → Has r c.references)
        → AreAvailable 0 known
        → AreAvailable 0 (dominating_references f dom bi rs known)
    unfolding dominating_references
    dominating_references-AreAvailable dom [] known exact w are = are
    dominating_references-AreAvailable dom (r ∷ rs) known exact w are =
        dominating_references-AreAvailable dom rs
          (if is_dominating f dom bi r
            then (r.value, type_of (lir_reference_definitions f) r.value) ∷ known
            else known)
          exact (λ j q e. w (suc j) q e)
          (elim (Bool-cases (is_dominating f dom bi r)) [
            | inl q ↦
                rw q (
                  reference-IsAvailable dom r exact (w 0 r refl) (ground arith) (ground arith),
                  are,
                )
            | inr q ↦ rw q are
          ])

  pub entry_none :
      (params known : Entries LirType)
      → f.borrow ≡ none
      → entry_values f bi params ≡ ok known
      → params ≡ known
  unfolding entry_values
  entry_none params known n h = ok_inj (rw (entry_values, n) at h)

  pub entry_some :
      (params known : Entries LirType) (c : LirBorrowContract)
      → f.borrow ≡ some c
      → entry_values f bi params ≡ ok known
      → (dom : Rows) × (lir_dominators f.blocks ≡ some dom)
        × (dominating_references f dom bi c.references params ≡ known)
  unfolding entry_values
  entry_some params known c n h =
      let (dom, e, rest) =
        >>=-eq-ok (or_fail (lir_dominators f.blocks) "out of fuel") _ (rw (entry_values, n) at h) in
      (dom, or_fail-eq-ok (lir_dominators f.blocks) "out of fuel" e, ok_inj rest)

  pub accepted :
      (env : Env) (c : LirBorrowContract)
      → f.borrow ≡ some c
      → verify_lir_borrow_function f env.layouts ≡ ok tt
      → Accepted f env.layouts c
  unfolding verify_lir_borrow_function
  accepted env c n h =
      verify_contract-Accepted f env.layouts c (rw (verify_lir_borrow_function, n) at h)

  entry-AreAvailable :
      (env : Env) (params known : Entries LirType)
      → verify_lir_borrow_function f env.layouts ≡ ok tt
      → bi < length f.blocks
      → All (λ e. IsParam f e.0) params
      → entry_values f bi params ≡ ok known
      → AreAvailable 0 known
  entry-AreAvailable env params known v l are h = elim (Option-cases f.borrow) [
    | inl n ↦ subst (AreAvailable 0) (entry_none params known n h) (params-AreAvailable params are)
    | inr (c, n) ↦
        let (dom, e, same) = entry_some params known c n h in
        let (d, e', exact) = lir_dominators-AreDominators f.blocks in
        subst (AreAvailable 0) same (
          dominating_references-AreAvailable env c (accepted env c n v) l dom c.references params
            (subst (AreDominators f.blocks) (some_inj (sym e' ∙ e)) exact) (λ j r q. (j, q))
            (params-AreAvailable params are))
  ]

  weaken : (k : ℕ) (v : ℤ) → IsAvailable f b bi k v → IsAvailable f b bi (suc k) v
  weaken k v (parameter p) = parameter p
  weaken k v (earlier j y l e r) = earlier j y (omega arith) e r
  weaken k v (dominating n d w) = dominating n d w

  weaken_all : (k : ℕ) (known : Entries LirType) → AreAvailable k known → AreAvailable (suc k) known
  weaken_all k [] h = tt
  weaken_all k ((v, t) ∷ known) h = (weaken k v h.0, weaken_all k known h.1)

  pub define-known :
      (s : Body) (i : LirInstruction) (t : Body)
      → define s i ≡ ok t
      → (t.known ≡ s.known) ⊎ (t.known ≡ (i.result, i.typ) ∷ s.known)
  unfolding define
  define-known s i t h = elim (Bool-cases (is_neg i.result)) [
    | inl n ↦ inl (ground arith)
    | inr n ↦ inr (ground arith)
  ]

  pub add_guard-known :
      (op : LirOp) (i : LirInstruction) (t : Body) → (add_guard op i t).known ≡ t.known
  unfolding add_guard
  add_guard-known check_index i t = ground arith
  add_guard-known _ i t = refl

  pub known_arguments-get :
      (s : Body) (xs : List ℤ) (j : ℕ) (v : ℤ)
      → known_arguments s xs ≡ ok tt
      → get_elem? xs j ≡ some v
      → is_known s v ≡ true
  unfolding known_arguments
  known_arguments-get s [] j v h e = cc
  known_arguments-get s (x ∷ xs) zero v h e =
      subst (λ y. is_known s y ≡ true) (some_inj e) (ground arith)
  known_arguments-get s (x ∷ xs) (suc j) v h e =
      known_arguments-get s xs j v
        (>>-eq-ok (reject (not (is_known s x)) "LIR_UNDEFINED_VALUE") _ h).1 e

  known-IsAvailable :
      (k : ℕ) (s : Body) (v : ℤ)
      → AreAvailable k s.known
      → is_known s v ≡ true
      → IsAvailable f b bi k v
  known-IsAvailable k s v are h = elim (Option-cases (find v s.known)) [
    | inl e ↦ absurd (ground arith)
    | inr (t, e) ↦ find-All (λ x _. IsAvailable f b bi k x) s.known v are e
  ]

  module _ (env : Env) (has : Bool) where
    Step-AreAvailable :
        (k : ℕ) (s : Body) (i : LirInstruction) (t : Body)
        → AreAvailable k s.known
        → get_elem? b.instructions k ≡ some i
        → Step env has f s i t
        → AreAvailable (suc k) t.known
    Step-AreAvailable k s i t are e step =
        subst (AreAvailable (suc k))
          (sym (add_guard-known (op_of i.op) i step.middle)
            ∙ ap (λ (x : Body). x.known) step.result)
          (elim (define-known s i step.middle step.defined) [
            | inl q ↦ rw q (weaken_all k s.known are)
            | inr q ↦ rw q (earlier k i (omega arith) e refl, weaken_all k s.known are)
          ])

    -- In a function whose references and body are accepted, each argument of an instruction is
    -- defined before it: it is a parameter, the result of an earlier instruction of the same block,
    -- or defined in a block that is on every walk from the entry to the instruction's block.
    pub verify_body-IsAvailable :
        (ii : ℕ) (x : LirInstruction) (ai : ℕ) (v : ℤ)
        → verify_lir_borrow_function f env.layouts ≡ ok tt
        → verify_body env has f ≡ ok tt
        → get_elem? f.blocks bi ≡ some b
        → get_elem? b.instructions ii ≡ some x
        → get_elem? x.args ai ≡ some v
        → IsAvailable f b bi ii v
    verify_body-IsAvailable ii x ai v hb h eb ei ea =
        let body = verify_body-Run env has f h in
        let (before, u, block) =
          Runs-at env has f body.params body.all 0 f.blocks bi b body.runs eb in
        let params =
          declare_params-IsParam f f.params [] body.params [] body.all (λ j p q. (j, q)) tt
            body.declared in
        let known =
          entry-AreAvailable env body.params block.known hb (get_elem?-lt f.blocks bi eb) params (
            subst (λ z. entry_values f z body.params ≡ ok block.known) (zero-add bi) block.entry) in
        let (t, t', are, step) =
          Run-at env has f (λ k s. AreAvailable k s.known) b.instructions Step-AreAvailable 0
            (record { known = block.known; guards = []; all = before }) b.instructions u block.run
            (λ j y q. rw zero-add q) known ii x ei in
        known-IsAvailable ii t v (subst (λ k. AreAvailable k t.known) (zero-add ii) are)
          (known_arguments-get t x.args ai v step.arguments ea)
