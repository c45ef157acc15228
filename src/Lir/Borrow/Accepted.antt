-- ===== src/Lir/Borrow/Accepted.antt =====
-- What `verifyLIRBorrowFunction` of internal/concept/lir_borrow.go has checked where it accepts a
-- contract: the scopes, the block numbers, the references, and each use of one.
use concept.Base.{
  ℕ, zero, suc, ◌+◌, ℤ, pos, List, [], ◌∷◌, true, false, ◌||◌, not, Option, some, ◌==◌, ==ℤ_iff,
  leb_ℤ, ltb, minus_one, length, get_elem?, ◌≡◌, refl, sym, ap, ◌∙◌, subst, arith, some_inj, All,
  All-get, ok, ok_inj, Result, reject, or_fail, or_fail-eq-ok, >>-eq-ok, >>=-eq-ok, reject-eq-ok,
  for_each, for_each-get, zero-add,
}
use concept.Lir.Types.{LirType}
use concept.Lir.Function.{
  LirInstruction, LirBlock, LirBorrowReference, LirBorrowContract, LirFunction, LirAggregateLayout,
}
use concept.Lir.Dominators.{Rows, lir_dominators}
use concept.Lir.Borrow.{find, check_block, check_scope}
use concept.Lir.Borrow.Verify.{
  References, check_reference, check_references, check_identity, check_reference_use,
  check_argument, check_result, check_instruction, check_uses, check_slot_scope, verify_contract,
}
use concept.Lir.Borrow.Scopes.{AreScopes}
use concept.Lir.Borrow.Definitions.{Has, find_here, find_there}
use concept.Lir.Borrow.Places.{IsPlaced, check_reference-IsPlaced}

module _ (f : LirFunction) (layouts : LirType → Option LirAggregateLayout)
    (c : LirBorrowContract) where
  check_identity-above :
      (previous : ℤ) (refs : References) (r : LirBorrowReference)
      → check_identity f layouts c previous refs r ≡ ok tt
      → leb_ℤ r.value previous ≡ false
  unfolding check_identity
  check_identity-above previous refs r h =
      reject-eq-ok (leb_ℤ r.value previous) "LIR_REFERENCE_IDENTITY"
        (>>-eq-ok (reject (leb_ℤ r.value previous) "LIR_REFERENCE_IDENTITY") _ h).0

  check_reference-above :
      (previous : ℤ) (refs : References) (r : LirBorrowReference)
      → check_reference f layouts c previous refs r ≡ ok tt
      → leb_ℤ r.value previous ≡ false
  unfolding check_reference
  check_reference-above previous refs r h =
      check_identity-above previous refs r
        (>>-eq-ok (check_identity f layouts c previous refs r) _ h).0

  abbrev after : ℤ → References → LirBorrowReference → List LirBorrowReference → Result References
  after previous refs r rs = check_references f layouts c r.value ((r.value, r) ∷ refs) rs

  check_references-cons :
      (previous : ℤ) (refs refs' : References) (r : LirBorrowReference)
      (rs : List LirBorrowReference)
      → check_references f layouts c previous refs (r ∷ rs) ≡ ok refs'
      → (check_reference f layouts c previous refs r ≡ ok tt)
        × (after previous refs r rs ≡ ok refs')
  unfolding check_references
  check_references-cons previous refs refs' r rs h =
      >>-eq-ok (check_reference f layouts c previous refs r) _ h

  check_references-nil :
      (previous : ℤ) (refs refs' : References)
      → check_references f layouts c previous refs [] ≡ ok refs'
      → refs ≡ refs'
  unfolding check_references
  check_references-nil previous refs refs' h = ok_inj h

  -- Every reference of the list refers to a place.
  check_references-IsPlaced :
      (previous : ℤ) (refs refs' : References) (rs : List LirBorrowReference)
      → All (λ e. IsPlaced f c e.1) refs
      → check_references f layouts c previous refs rs ≡ ok refs'
      → All (IsPlaced f c) rs
  check_references-IsPlaced previous refs refs' [] placed h = tt
  check_references-IsPlaced previous refs refs' (r ∷ rs) placed h =
      let (now, later) = check_references-cons previous refs refs' r rs h in
      let here = check_reference-IsPlaced f layouts c r previous refs placed now in
      (here, check_references-IsPlaced r.value ((r.value, r) ∷ refs) refs' rs (here, placed) later)

  find-kept :
      (previous : ℤ) (refs refs' : References) (rs : List LirBorrowReference) (v : ℤ)
      {x : LirBorrowReference}
      → check_references f layouts c previous refs rs ≡ ok refs'
      → find v refs ≡ some x
      → leb_ℤ v previous ≡ true
      → find v refs' ≡ some x
  find-kept previous refs refs' [] v h e l =
      ap (find v) (sym (check_references-nil previous refs refs' h)) ∙ e
  find-kept previous refs refs' (r ∷ rs) v h e l =
      let (now, later) = check_references-cons previous refs refs' r rs h in
      let above = check_reference-above previous refs r now in
      find-kept r.value ((r.value, r) ∷ refs) refs' rs v later
        (find_there v r.value r refs (ground arith) ∙ e) (ground arith)

  -- A listed reference is the one that is found under its value.
  find-listed :
      (previous : ℤ) (refs refs' : References) (rs : List LirBorrowReference) (j : ℕ)
      {r : LirBorrowReference}
      → check_references f layouts c previous refs rs ≡ ok refs'
      → get_elem? rs j ≡ some r
      → find r.value refs' ≡ some r
  find-listed previous refs refs' [] j h e = cc
  find-listed previous refs refs' (r ∷ rs) zero h e =
      let (now, later) = check_references-cons previous refs refs' r rs h in
      subst (λ (y : LirBorrowReference). find y.value refs' ≡ some y) (some_inj e)
        (find-kept r.value ((r.value, r) ∷ refs) refs' rs r.value later
          (find_here r.value r.value r refs ((==ℤ_iff r.value r.value).1 refl)) (ground arith))
  find-listed previous refs refs' (r ∷ rs) (suc j) h e =
      let (now, later) = check_references-cons previous refs refs' r rs h in
      find-listed r.value ((r.value, r) ∷ refs) refs' rs j later e

  pub record Accepted : Type 0 where
    pub refs : References
    pub dom : Rows
    pub ids : for_each (check_block (length f.blocks)) 0 f.blocks ≡ ok tt
    pub scopes : AreScopes c.scopes
    pub listed : check_references f layouts c minus_one [] c.references ≡ ok refs
    pub dominators : lir_dominators f.blocks ≡ some dom
    pub uses : for_each (check_uses f layouts c refs dom) 0 f.blocks ≡ ok tt

  pub verify_contract-Accepted : verify_contract f layouts c ≡ ok tt → Accepted
  unfolding verify_contract
  verify_contract-Accepted h =
      let (_, h₁) =
        >>-eq-ok
          (reject (length f.blocks == 0 || ltb 128 (length f.blocks)) "LIR_REFERENCE_CAPACITY") _
          h in
      let (ids, h₂) = >>-eq-ok (for_each (check_block (length f.blocks)) 0 f.blocks) _ h₁ in
      let (_, h₃) =
        >>-eq-ok
          (reject
            (length c.scopes == 0
              || ltb 128 (length c.scopes)
              || ltb 512 (length c.references)
              || not (length c.slot_scopes == length f.slots))
            "LIR_REFERENCE_CAPACITY")
          _ h₂ in
      let (scopes, h₄) = >>-eq-ok (for_each check_scope 0 c.scopes) _ h₃ in
      let (_, h₅) = >>-eq-ok (for_each (check_slot_scope f layouts c) 0 c.slot_scopes) _ h₄ in
      let (refs, listed, h₆) =
        >>=-eq-ok (check_references f layouts c minus_one [] c.references) _ h₅ in
      let (dom, dominators, uses) =
        >>=-eq-ok (or_fail (lir_dominators f.blocks) "out of fuel") _ h₆ in
      record {
        refs = refs;
        dom = dom;
        ids = ids;
        scopes = scopes;
        listed = listed;
        dominators = or_fail-eq-ok (lir_dominators f.blocks) "out of fuel" dominators;
        uses = uses;
      }

  module _ (a : Accepted) where
    pub reference-IsPlaced : (r : LirBorrowReference) → Has r c.references → IsPlaced f c r
    reference-IsPlaced r (j, e) =
        All-get (IsPlaced f c) c.references j
          (check_references-IsPlaced minus_one [] a.refs c.references tt a.listed) e

    check_block-id :
        (i : ℕ) (b : LirBlock) → check_block (length f.blocks) i b ≡ ok tt → b.id ≡ pos i
    unfolding check_block
    check_block-id i b h = (==ℤ_iff b.id (pos i)).0 (ground arith)

    pub block-id : (k : ℕ) (b : LirBlock) → get_elem? f.blocks k ≡ some b → b.id ≡ pos k
    block-id k b e =
        check_block-id k b
          (rw zero-add at (for_each-get (check_block (length f.blocks)) 0 f.blocks k a.ids e))

    uses-instruction :
        (bi : ℕ) (b : LirBlock) (ii : ℕ) (x : LirInstruction)
        → check_uses f layouts c a.refs a.dom bi b ≡ ok tt
        → get_elem? b.instructions ii ≡ some x
        → check_instruction f layouts c a.refs a.dom b (0 + ii) x ≡ ok tt
    unfolding check_uses
    uses-instruction bi b ii x h e =
        for_each-get (check_instruction f layouts c a.refs a.dom b) 0 b.instructions ii
          (>>-eq-ok (for_each (check_instruction f layouts c a.refs a.dom b) 0 b.instructions) _
            h).0
          e

    arguments :
        (b : LirBlock) (ii : ℕ) (x : LirInstruction)
        → check_instruction f layouts c a.refs a.dom b ii x ≡ ok tt
        → for_each (check_argument f layouts c a.refs a.dom b x) 0 x.args ≡ ok tt
    unfolding check_instruction
    arguments b ii x h = (>>-eq-ok (check_result f layouts c a.refs x) _ h).1

    argument-use :
        (b : LirBlock) (x : LirInstruction) (ai : ℕ) (id : ℤ) (r : LirBorrowReference)
        → check_argument f layouts c a.refs a.dom b x ai id ≡ ok tt
        → find id a.refs ≡ some r
        → check_reference_use f layouts c a.dom b x ai id r ≡ ok tt
    unfolding check_argument
    argument-use b x ai id r h e = rw (check_argument, e) at h

    -- The check of a use has passed for each use of a listed reference.
    pub reference-use :
        (r : LirBorrowReference) (bi : ℕ) (b : LirBlock) (ii : ℕ) (x : LirInstruction) (ai : ℕ)
        → Has r c.references
        → get_elem? f.blocks bi ≡ some b
        → get_elem? b.instructions ii ≡ some x
        → get_elem? x.args ai ≡ some r.value
        → check_reference_use f layouts c a.dom b x ai r.value r ≡ ok tt
    reference-use r bi b ii x ai (j, m) eb ei ea =
        let used = for_each-get (check_uses f layouts c a.refs a.dom) 0 f.blocks bi a.uses eb in
        let instruction = uses-instruction (0 + bi) b ii x used ei in
        let argument =
          for_each-get (check_argument f layouts c a.refs a.dom b x) 0 x.args ai
            (arguments b (0 + ii) x instruction) ea in
        argument-use b x ai r.value r (rw zero-add at argument)
          (find-listed minus_one [] a.refs c.references j a.listed m)
