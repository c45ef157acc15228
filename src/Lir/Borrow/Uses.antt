-- ===== src/Lir/Borrow/Uses.antt =====
-- The uses of references in a function that `verifyLIRBorrowFunction` of
-- internal/concept/lir_borrow.go accepts.
use concept.Base.{
  ℕ, ℤ, pos, true, false, Option, some, ◌==◌, ==_iff, minus_one, get_elem?, get_elem?-lt, get_at?,
  ◌≡◌, sym, ◌∙◌, subst, ◌⊎◌, inl, inr, Bool-cases, arith, some_inj, ok, eq_iff, str_eq,
}
use concept.Lir.Types.{LirType}
use concept.Lir.Function.{
  LirSlot, LirInstruction, LirBlock, LirBorrowReference, LirBorrowContract, LirFunction,
  LirAggregateLayout,
}
use concept.Lir.Dominators.Exact.{Dominates, AreDominators, lir_dominators-AreDominators}
use concept.Lir.Borrow.{
  Definition, find, block_of, borrow_scope_contains, lir_reference_definitions,
}
use concept.Lir.Borrow.Verify.{
  check_reference_use, reaches, verify_contract, verify_lir_borrow_function,
}
use concept.Lir.Borrow.Scopes.{Encloses, Encloses-trans, borrow_scope_contains-Encloses}
use concept.Lir.Borrow.Definitions.{Has, IsParam, Defines, definitions-Origin}
use concept.Lir.Borrow.Places.{IsPlaced, LocalRoot, ParameterRoot}
use concept.Lir.Borrow.Accepted.{
  Accepted, verify_contract-Accepted, reference-IsPlaced, reference-use, block-id,
}

-- Instruction ii of block bi of the function is x, in block b, and its argument ai is the value.
pub record IsUse (f : LirFunction) (bi : ℕ) (x : LirInstruction) (ai : ℕ) (v : ℤ) : Type 0 where
  pub block : LirBlock
  pub is_block : get_elem? f.blocks bi ≡ some block
  pub instruction : Has x block.instructions
  pub argument : get_elem? x.args ai ≡ some v

-- The value is a parameter, or is defined in the block itself or in one that dominates it.
abbrev pub Available : LirFunction → ℕ → ℤ → Type 0
Available f bi v = IsParam f v ⊎ ((k : ℕ) × Defines f k v × ((k ≡ bi) ⊎ Dominates f.blocks k bi))

-- A reference to a local slot is used in the scope of the slot, and a store through it writes a
-- slot that is not read-only.
pub record LocalUse (f : LirFunction) (c : LirBorrowContract) (root : ℤ) (x : LirInstruction)
    (ai : ℕ) : Type 0 where
  pub slot : LirSlot
  pub is_slot : get_at? f.slots root ≡ some slot
  pub scope : ℤ
  pub is_scope : get_at? c.slot_scopes root ≡ some scope
  pub inside : Encloses c.scopes scope x.scope
  pub written : x.op ≡ "store" → ai ≡ 0 → slot.readonly ≡ false

module _ (f : LirFunction) (layouts : LirType → Option LirAggregateLayout) (c : LirBorrowContract)
    (has : f.borrow ≡ some c) (h : verify_lir_borrow_function f layouts ≡ ok tt) where
  accepted : Accepted f layouts c
  accepted = verify_contract-Accepted f layouts c (contract h)
    where
      contract : verify_lir_borrow_function f layouts ≡ ok tt → verify_contract f layouts c ≡ ok tt
      contract p = unfold verify_lir_borrow_function in rw (verify_lir_borrow_function, has) at p

  AreDominators-dom : AreDominators f.blocks accepted.dom
  AreDominators-dom =
      let (d, e, exact) = lir_dominators-AreDominators f.blocks in
      subst (AreDominators f.blocks) (some_inj (sym e ∙ accepted.dominators)) exact

  module _ (r : LirBorrowReference) (listed : Has r c.references) (bi : ℕ) (x : LirInstruction)
      (ai : ℕ) (use_of : IsUse f bi x ai r.value) where
    checked : check_reference_use f layouts c accepted.dom use_of.block x ai r.value r ≡ ok tt
    checked =
        reference-use f layouts c accepted r bi use_of.block use_of.instruction.0 x ai listed
          use_of.is_block use_of.instruction.1 use_of.argument

    -- What the check of a use says.
    record Facts : Type 0 where
      inside : borrow_scope_contains c r.lifetime x.scope ≡ true
      reached :
          reaches f layouts c accepted.dom use_of.block.id
            (block_of (lir_reference_definitions f) r.value)
          ≡ true
      mutable : str_eq x.op "store" ≡ true → (ai == 0) ≡ true → r.mutable ≡ true

    facts : Facts
    unfolding check_reference_use
    facts =
        let q = checked in
        record { inside = ground arith; reached = ground arith; mutable = λ s z. ground arith }

    placed : IsPlaced f c r
    placed = reference-IsPlaced f layouts c accepted r listed

    block_of-found :
        (d : Definition)
        → find r.value (lir_reference_definitions f) ≡ some d
        → block_of (lir_reference_definitions f) r.value ≡ d.1
    unfolding block_of
    block_of-found d e = rw (block_of, e)

    in_block :
        (k : ℕ)
        → reaches f layouts c accepted.dom (pos bi) (pos k) ≡ true
        → (k ≡ bi) ⊎ Dominates f.blocks k bi
    unfolding reaches
    in_block k q = elim (Bool-cases (k == bi)) [
      | inl e ↦ inl ((==_iff k bi).0 e)
      | inr e ↦
          inr ((AreDominators-dom bi k (get_elem?-lt f.blocks bi use_of.is_block)).0 (ground arith))
    ]

    -- In an accepted function an instruction that uses a reference finds it defined: it is a
    -- parameter, or it is defined in the same block, or in a block that is on every walk from the
    -- entry to the block of the instruction.
    pub verify_lir_borrow_function-Available : Available f bi r.value
    verify_lir_borrow_function-Available =
        let (d, e) = placed.defined in
        by_origin d (block_of-found d e)
          (definitions-Origin f r.value (block-id f layouts c accepted) e)
      where
        by_origin :
            (d : Definition)
            → block_of (lir_reference_definitions f) r.value ≡ d.1
            → (IsParam f r.value × (d.1 ≡ minus_one))
              ⊎ ((k : ℕ) × (d.1 ≡ pos k) × Defines f k r.value)
            → Available f bi r.value
        by_origin d at (inl p) = inl p.0
        by_origin d at (inr (k, q, defined)) =
            let same = block-id f layouts c accepted bi use_of.block use_of.is_block in
            inr (
              k,
              defined,
              in_block k (
                  subst (λ z. reaches f layouts c accepted.dom z (pos k) ≡ true) same
                    (subst (λ z. reaches f layouts c accepted.dom use_of.block.id z ≡ true) (at ∙ q)
                      facts.reached)),
            )

    -- In an accepted function an instruction that uses a reference to a local slot lies in the
    -- scope of the slot or in a scope within it, and where it stores through the reference, the
    -- slot is not read-only.
    pub verify_lir_borrow_function-LocalUse : r.root_kind ≡ "local" → LocalUse f c r.root x ai
    verify_lir_borrow_function-LocalUse local = elim placed.rooted [
      | inl p ↦ absurd (cc (sym (ParameterRoot.kind p) ∙ local))
      | inr l ↦ record {
        slot = LocalRoot.slot l;
        is_slot = LocalRoot.is_slot l;
        scope = LocalRoot.scope l;
        is_scope = LocalRoot.is_scope l;
        inside =
            Encloses-trans c.scopes (LocalRoot.scope l) r.lifetime x.scope (LocalRoot.inside l)
              (borrow_scope_contains-Encloses c r.lifetime x.scope facts.inside);
        written = λ store first.
            (placed.writable
                (facts.mutable ((eq_iff x.op "store").1 store) ((==_iff ai 0).1 first))).1
              local (LocalRoot.slot l) (LocalRoot.is_slot l);
      }
    ]
