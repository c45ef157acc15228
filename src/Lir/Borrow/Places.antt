-- ===== src/Lir/Borrow/Places.antt =====
-- What the checks of one reference in `verifyLIRBorrowFunction` of internal/concept/lir_borrow.go,
-- lines 270 to 343, establish: the place that it refers to, and its authority to write there.
use concept.Base.{
  zero, suc, ℤ, pos, List, [], ◌∷◌, Bool, true, false, ◌&&◌, ◌||◌, not, Option, none, some, ◌==ℤ◌,
  ==ℤ_iff, is_neg, length, get_at?, in_range, ◌≡◌, refl, sym, ap, ◌∙◌, subst, ◌⊎◌, inl, inr,
  Bool-cases, Option-cases, arith, some_inj, All, ok, >>-eq-ok, reject-eq-ok, str_eq, eq_iff,
  String, &&-true,
}
use concept.Lir.Types.{LirType, lir_reference_type}
use concept.Lir.Function.{
  LirValue, LirSlot, LirInstruction, LirBorrowReference, LirBorrowContract, LirFunction,
  LirAggregateLayout,
}
use concept.Lir.Borrow.{
  Definition, find, type_of, mutable_reference, borrow_scope_contains, bool_eq, operation_or_zero,
  lir_reference_definitions,
}
use concept.Lir.Borrow.Verify.{
  References, operation, check_root, check_origin, check_parent, check_derived, check_authority,
  check_identity, check_reference, param_is, slot_readonly_is, first_arg_is,
}
use concept.Lir.Borrow.Scopes.{Encloses, borrow_scope_contains-Encloses}
use concept.Lir.Borrow.Definitions.{Has, find-All, operation-definition, parameter-definition}

module _ (f : LirFunction) (c : LirBorrowContract) where
  -- The root is a parameter that is a reference, or a slot in whose scope the lifetime lies.
  pub record ParameterRoot (r : LirBorrowReference) : Type 0 where
    pub kind : r.root_kind ≡ "parameter"
    pub param : LirValue
    pub is_param : get_at? f.params r.root ≡ some param
    pub reference : lir_reference_type param.typ ≡ true

  pub record LocalRoot (r : LirBorrowReference) : Type 0 where
    pub kind : r.root_kind ≡ "local"
    pub slot : LirSlot
    pub is_slot : get_at? f.slots r.root ≡ some slot
    pub scope : ℤ
    pub is_scope : get_at? c.slot_scopes r.root ≡ some scope
    pub inside : Encloses c.scopes scope r.lifetime

  -- The root may be written: a parameter of a mutable reference type, or a slot that is not read-only.
  abbrev pub Writable : String → ℤ → Type 0
  Writable kind root =
      (kind ≡ "parameter"
        → (p : LirValue) → get_at? f.params root ≡ some p
        → mutable_reference (type_of (lir_reference_definitions f) p.id) ≡ true)
      × (kind ≡ "local" → (s : LirSlot) → get_at? f.slots root ≡ some s → s.readonly ≡ false)

  pub record IsPlaced (r : LirBorrowReference) : Type 0 where
    pub rooted : ParameterRoot r ⊎ LocalRoot r
    pub writable : r.mutable ≡ true → Writable r.root_kind r.root
    pub defined : (d : Definition) × (find r.value (lir_reference_definitions f) ≡ some d)

in_range-get :
    {A : Type 0} (xs : List A) (i : ℤ)
    → in_range i (length xs) ≡ true
    → (x : A) × (get_at? xs i ≡ some x)
in_range-get xs (ℤ.negsuc i) h = cc
in_range-get [] (pos i) h = absurd (ground arith)
in_range-get (x ∷ xs) (pos zero) h = (x, refl)
in_range-get (x ∷ xs) (pos (suc i)) h = in_range-get xs (pos i) (ground arith)

module _ (f : LirFunction) (layouts : LirType → Option LirAggregateLayout) (c : LirBorrowContract)
    (r : LirBorrowReference) where
  check_root-rooted : check_root f layouts c r ≡ ok tt → ParameterRoot f c r ⊎ LocalRoot f c r
  unfolding check_root
  check_root-rooted h = elim (Bool-cases (str_eq r.root_kind "parameter")) [
    | inl p ↦ inl (parameter ((eq_iff r.root_kind "parameter").0 p) (reject-eq-ok _ _ (rw p at h)))
    | inr np ↦ elim (Bool-cases (str_eq r.root_kind "local")) [
      | inl l ↦ inr (local ((eq_iff r.root_kind "local").0 l) (reject-eq-ok _ _ (rw (np, l) at h)))
      | inr nl ↦ cc (rw (np, nl) at h)
    ]
  ]
    where
      parameter :
          r.root_kind ≡ "parameter"
          → elim (get_at? f.params r.root) as (λ _. Bool) [
            | none ↦ true
            | some p ↦ not (lir_reference_type p.typ)
          ]
            ≡ false
          → ParameterRoot f c r
      parameter k e = elim (Option-cases (get_at? f.params r.root)) [
        | inl n ↦ absurd (ground arith)
        | inr (p, q) ↦ record { kind = k; param = p; is_param = q; reference = ground arith }
      ]

      local :
          r.root_kind ≡ "local"
          → (not (in_range r.root (length f.slots))
              || elim (get_at? c.slot_scopes r.root) as (λ _. Bool) [
                | none ↦ true
                | some scope ↦ not (borrow_scope_contains c scope r.lifetime)
              ])
            ≡ false
          → LocalRoot f c r
      local k e = elim (Option-cases (get_at? c.slot_scopes r.root)) [
        | inl n ↦ absurd (ground arith)
        | inr (scope, q) ↦
            let (s, z) = in_range-get f.slots r.root (ground arith) in
            record {
              kind = k;
              slot = s;
              is_slot = z;
              scope = scope;
              is_scope = q;
              inside = borrow_scope_contains-Encloses c scope r.lifetime (ground arith);
            }
      ]

  -- A parameter.
  abbrev origin_parameter : Bool
  origin_parameter =
      str_eq r.root_kind "parameter"
      && (param_is f r.root r.value
          && bool_eq r.mutable (mutable_reference (type_of (lir_reference_definitions f) r.value)))

  -- The address of a slot.
  abbrev origin_slot : Bool
  origin_slot =
      str_eq r.root_kind "local"
      && (not (slot_readonly_is f r.root r.mutable)
          && str_eq (operation_or_zero (operation f layouts c r.value)).op "slot_address")

  check_origin-cases :
      check_origin f layouts c r ≡ ok tt → (origin_parameter ≡ true) ⊎ (origin_slot ≡ true)
  unfolding check_origin
  check_origin-cases h = elim (Bool-cases (str_eq r.evidence "checked_parameter")) [
    | inl p ↦ inl (let e = reject-eq-ok _ _ (rw p at h) in ground arith)
    | inr p ↦ inr (let e = reject-eq-ok _ _ (rw p at h) in ground arith)
  ]

  kinds_differ : {A : Type 0} → r.root_kind ≡ "parameter" → r.root_kind ≡ "local" → A
  kinds_differ p l = cc (sym p ∙ l)

  root_param :
      param_is f r.root r.value ≡ true
      → (p : LirValue) × (get_at? f.params r.root ≡ some p) × (p.id ≡ r.value)
  root_param h = elim (Option-cases (get_at? f.params r.root)) [
    | inl n ↦ absurd (ground arith)
    | inr (p, q) ↦ (p, q, (==ℤ_iff p.id r.value).0 (ground arith))
  ]

  check_origin-Writable :
      check_origin f layouts c r ≡ ok tt → r.mutable ≡ true → Writable f c r.root_kind r.root
  check_origin-Writable h m = elim (check_origin-cases h) [
    | inl o ↦
        let k = (eq_iff r.root_kind "parameter").0 (&&-true _ _ o).0 in
        let (p, q, v) = root_param (ground arith) in
        (
          λ _ p' q'.
              subst (λ x. mutable_reference (type_of (lir_reference_definitions f) x) ≡ true)
                (sym v ∙ ap (λ (x : LirValue). x.id) (some_inj (sym q ∙ q'))) (ground arith),
          λ l. kinds_differ k l,
        )
    | inr o ↦
        let k = (eq_iff r.root_kind "local").0 (&&-true _ _ o).0 in
        (λ p. kinds_differ p k, λ _ s q. ground arith)
  ]

  operation-defined :
      (w : String)
      → str_eq (operation_or_zero (operation f layouts c r.value)).op w ≡ true
      → str_eq "" w ≡ false
      → (d : Definition) × (find r.value (lir_reference_definitions f) ≡ some d)
  operation-defined w h ne = elim (Option-cases (operation f layouts c r.value)) [
    | inl n ↦ absurd (ground arith)
    | inr (x, q) ↦ operation-definition f r.value q
  ]

  check_origin-defined :
      check_origin f layouts c r ≡ ok tt
      → (d : Definition) × (find r.value (lir_reference_definitions f) ≡ some d)
  check_origin-defined h = elim (check_origin-cases h) [
    | inl o ↦
        let (p, q, v) = root_param (ground arith) in
        let (d, e) = param_defined p (get_at?-get r.root q) in
        (d, ap (λ x. find x (lir_reference_definitions f)) (sym v) ∙ e)
    | inr o ↦ operation-defined "slot_address" (ground arith) refl
  ]
    where
      get_at?-get : {p : LirValue} (i : ℤ) → get_at? f.params i ≡ some p → Has p f.params
      get_at?-get (pos j) q = (j, q)
      get_at?-get (ℤ.negsuc j) q = cc

      param_defined :
          (p : LirValue)
          → Has p f.params
          → (d : Definition) × (find p.id (lir_reference_definitions f) ≡ some d)
      param_defined p (j, q) = parameter-definition f j p q

  module _ (i : LirInstruction) (p : LirBorrowReference) where
    abbrev same_root : Bool
    same_root =
        first_arg_is i r.parent
        && (str_eq p.root_kind r.root_kind
            && (p.root ==ℤ r.root && not (r.mutable && not p.mutable)))

    check_parent-same : check_parent f layouts c i p r ≡ ok tt → same_root ≡ true
    unfolding check_parent
    check_parent-same h = ground arith

    check_derived-same : check_derived f layouts c i p r ≡ ok tt → same_root ≡ true
    unfolding check_derived
    check_derived-same h = check_parent-same (>>-eq-ok (check_parent f layouts c i p r) _ h).0

    check_derived-Writable :
        check_derived f layouts c i p r ≡ ok tt
        → IsPlaced f c p
        → r.mutable ≡ true
        → Writable f c r.root_kind r.root
    check_derived-Writable h placed m =
        let same = check_derived-same h in
        let kind = (eq_iff p.root_kind r.root_kind).0 (ground arith) in
        let root = (==ℤ_iff p.root r.root).0 (ground arith) in
        subst (λ k. Writable f c k r.root) kind
          (subst (Writable f c p.root_kind) root (placed.writable (ground arith)))

  check_authority-Writable :
      (refs : References)
      → All (λ e. IsPlaced f c e.1) refs
      → check_authority f layouts c refs r ≡ ok tt
      → r.mutable ≡ true
      → Writable f c r.root_kind r.root
  unfolding check_authority
  check_authority-Writable refs placed h m = elim (Bool-cases (is_neg r.parent)) [
    | inl n ↦ check_origin-Writable (rw n at h) m
    | inr n ↦ elim (Option-cases (find r.parent refs)) [
      | inl e ↦ absurd (cc (rw (n, e) at h))
      | inr (p, e) ↦
          check_derived-Writable (operation_or_zero (operation f layouts c r.value)) p
            (rw (n, e) at h) (find-All (λ _ x. IsPlaced f c x) refs r.parent placed e) m
    ]
  ]

  check_authority-defined :
      (refs : References)
      → check_authority f layouts c refs r ≡ ok tt
      → (d : Definition) × (find r.value (lir_reference_definitions f) ≡ some d)
  unfolding check_authority
  check_authority-defined refs h = elim (Bool-cases (is_neg r.parent)) [
    | inl n ↦ check_origin-defined (rw n at h)
    | inr n ↦ elim (Option-cases (find r.parent refs)) [
      | inl e ↦ absurd (cc (rw (n, e) at h))
      | inr (p, e) ↦ derived p (
          check_derived-same (operation_or_zero (operation f layouts c r.value)) p (rw (n, e) at h))
    ]
  ]
    where
      derived :
          (p : LirBorrowReference)
          → same_root (operation_or_zero (operation f layouts c r.value)) p ≡ true
          → (d : Definition) × (find r.value (lir_reference_definitions f) ≡ some d)
      derived p same = elim (Option-cases (operation f layouts c r.value)) [
        | inl e ↦ absurd (ground arith)
        | inr (x, e) ↦ operation-definition f r.value e
      ]

  pub check_reference-IsPlaced :
      (previous : ℤ) (refs : References)
      → All (λ e. IsPlaced f c e.1) refs
      → check_reference f layouts c previous refs r ≡ ok tt
      → IsPlaced f c r
  unfolding check_reference
  check_reference-IsPlaced previous refs placed h =
      let (_, h₁) = >>-eq-ok (check_identity f layouts c previous refs r) _ h in
      let (root, h₂) = >>-eq-ok (check_root f layouts c r) _ h₁ in
      let (authority, _) = >>-eq-ok (check_authority f layouts c refs r) _ h₂ in
      record {
        rooted = check_root-rooted root;
        writable = check_authority-Writable refs placed authority;
        defined = check_authority-defined refs authority;
      }
