-- ===== src/Lir/Body/Typed.antt =====
-- The types of operands in a function whose references and body `VerifyLIR` of
-- internal/concept/lir.go accepts.
use concept.Base.{
  ℕ, zero, suc, ◌+◌, ◌<◌, ℤ, List, [], ◌∷◌, Bool, true, false, Option, none, some, ◌==◌, ==_iff,
  ◌==ℤ◌, is_neg, any, length, get_elem?, ◌≡◌, refl, sym, ap, ◌∙◌, subst, ◌⊎◌, inl, inr, Bool-cases,
  Option-cases, arith, All, ok, ok_inj, reject, >>-eq-ok, zero-add,
}
use concept.Lir.Types.{
  LirType, lir_address_target, bool, type_eq, type_eq→≡, lir_integer, lir_floating,
}
use concept.Lir.Function.{
  LirValue, LirInstruction, LirBlock, LirFunction, LirBorrowContract, LirBorrowReference,
  LirAggregateLayout,
}
use concept.Lir.Dominators.{Rows}
use concept.Lir.Borrow.{
  Entries, Definition, find, type_of, lir_reference_definitions, address_target, no_type,
  type_or_none,
}
use concept.Lir.Borrow.Verify.{verify_lir_borrow_function}
use concept.Lir.Borrow.Definitions.{Has, find-All, find_here, find_there, definitions-get}
use concept.Lir.Borrow.Places.{IsPlaced}
use concept.Lir.Borrow.Accepted.{Accepted, reference-IsPlaced}
use concept.Lir.Body.{
  LirOp, arithmetic, float_arithmetic, float_negation, compare_equal, compare_order, field_address,
  load, store, Env, Body, op_of, is_known, arg_type,
}
use concept.Lir.Body.Cases.{check_operation, check_compare, check_field_address}
use concept.Lir.Body.Blocks.{
  declare_params, is_dominating, dominating_references, entry_values, define, verify_body,
}
use concept.Lir.Body.Steps.{Step, Run-at, Runs-at, verify_body-Run}
use concept.Lir.Body.Available.{
  accepted, entry_none, entry_some, define-known, add_guard-known, known_arguments-get,
}

-- The value is defined with the type: as a parameter, or as the result of an instruction.
abbrev pub HasType : LirFunction → ℤ → LirType → Type 0
HasType f v t =
    ((p : LirValue) × Has p f.params × (p.id ≡ v) × (p.typ ≡ t))
    ⊎ ((b : LirBlock) × (x : LirInstruction) × Has b f.blocks
        × Has x b.instructions
        × (x.result ≡ v)
        × (x.typ ≡ t))

-- Operand k of the instruction is a value of the type.
abbrev pub Operand : LirFunction → LirInstruction → ℕ → LirType → Type 0
Operand f x k t = (v : ℤ) × (get_elem? x.args k ≡ some v) × HasType f v t

-- The operands have the same type, and the result is a `bool`.
abbrev pub Compared : LirFunction → LirInstruction → Type 0
Compared f x = (t : LirType) × Operand f x 0 t × Operand f x 1 t × (x.typ ≡ bool)

-- The type is an address type that points to the target; nothing is said where the target is the
-- missing type "", which any type that is no address has as its target too.
abbrev pub PointsTo : LirType → LirType → Type 0
PointsTo t target = (lir_address_target t ≡ some target) ⊎ (target ≡ no_type)

-- What the operation asks of its operands: those of arithmetic have the type of the instruction, those
-- of a comparison have one type, and the address of a load, a store or a field points to the type
-- that is loaded, stored or has the field.
abbrev pub IsTyped : LirFunction → LirOp → LirInstruction → Type 0
IsTyped f arithmetic x = Operand f x 0 x.typ × Operand f x 1 x.typ × (lir_integer x.typ ≡ true)
IsTyped f float_arithmetic x =
    Operand f x 0 x.typ × Operand f x 1 x.typ × (lir_floating x.typ ≡ true)
IsTyped f load x = (t : LirType) × Operand f x 0 t × (lir_address_target t ≡ some x.typ)
IsTyped f store x = (t : LirType) × Operand f x 0 t × PointsTo t x.typ × Operand f x 1 x.typ
IsTyped f float_negation x = Operand f x 0 x.typ × (lir_floating x.typ ≡ true)
IsTyped f compare_equal x = Compared f x
IsTyped f compare_order x = Compared f x
IsTyped f field_address x = (t : LirType) × Operand f x 0 t × PointsTo t x.aggregate
IsTyped f _ x = Unit {0}

PointsTo-of : (t u : LirType) → type_eq (address_target t) u ≡ true → PointsTo t u
unfolding address_target
PointsTo-of t u h = elim (Option-cases (lir_address_target t)) [
  | inl e ↦ inr (sym (type_eq→≡ (address_target t) u h) ∙ ap type_or_none e)
  | inr (y, e) ↦ inl (e ∙ ap some (ap type_or_none (sym e) ∙ type_eq→≡ (address_target t) u h))
]

-- The result of an accepted instruction has a type.
define-HasType :
    (s : Body) (i : LirInstruction) (t : Body)
    → define s i ≡ ok t
    → is_neg i.result ≡ false
    → ¬ (i.typ ≡ no_type)
unfolding define type_eq
define-HasType s i t h r e = untyped i.typ e (ground arith)
  where
    untyped : (y : LirType) → y ≡ no_type → ¬ (type_eq y no_type ≡ false)
    untyped y e n = cc (subst (λ x. type_eq x no_type ≡ false) e n)

module _ (f : LirFunction) where
  abbrev AreTyped : Entries LirType → Type 0
  AreTyped = All (λ e. HasType f e.0 e.1)

  declare_params-AreTyped :
      (ps : List LirValue) (params params' : Entries LirType) (all all' : List ℤ)
      → ((j : ℕ) (p : LirValue) → get_elem? ps j ≡ some p → Has p f.params)
      → AreTyped params
      → declare_params ps params all ≡ ok (params', all')
      → AreTyped params'
  unfolding declare_params
  declare_params-AreTyped [] params params' all all' w are h =
      subst AreTyped (ap (λ (d : Entries LirType × List ℤ). d.0) (ok_inj h)) are
  declare_params-AreTyped (p ∷ ps) params params' all all' w are h =
      let (_, rest) = >>-eq-ok (reject (any (λ x. x ==ℤ p.id) all) "LIR_DUPLICATE_VALUE") _ h in
      declare_params-AreTyped ps ((p.id, p.typ) ∷ params) params' (p.id ∷ all) all'
        (λ j q e. w (suc j) q e) (inl (p, w 0 p refl, refl, refl), are) rest

  type_of-HasType :
      (v : ℤ) (d : Definition)
      → find v (lir_reference_definitions f) ≡ some d
      → HasType f v (type_of (lir_reference_definitions f) v)
  unfolding type_of
  type_of-HasType v d e =
      rw (type_of, e)
        (definitions-get f (λ w z. HasType f w z.0) (λ p h. inl (p, h, refl, refl))
          (λ b x i h. inr (b, x, i, h, refl, refl)) v e)

  dominating_references-AreTyped :
      (env : Env) (c : LirBorrowContract) (a : Accepted f env.layouts c) (bi : ℕ) (dom : Rows)
      (rs : List LirBorrowReference) (known : Entries LirType)
      → ((j : ℕ) (r : LirBorrowReference) → get_elem? rs j ≡ some r → Has r c.references)
      → AreTyped known
      → AreTyped (dominating_references f dom bi rs known)
  unfolding dominating_references
  dominating_references-AreTyped env c a bi dom [] known w are = are
  dominating_references-AreTyped env c a bi dom (r ∷ rs) known w are =
      let (d, e) = IsPlaced.defined (reference-IsPlaced f env.layouts c a r (w 0 r refl)) in
      dominating_references-AreTyped env c a bi dom rs _ (λ j q h. w (suc j) q h)
        (elim (Bool-cases (is_dominating f dom bi r)) [
          | inl q ↦ rw q (type_of-HasType r.value d e, are)
          | inr q ↦ rw q are
        ])

  entry-AreTyped :
      (b : LirBlock) (bi : ℕ) (env : Env) (params known : Entries LirType)
      → verify_lir_borrow_function f env.layouts ≡ ok tt
      → AreTyped params
      → entry_values f bi params ≡ ok known
      → AreTyped known
  entry-AreTyped b bi env params known v are h = elim (Option-cases f.borrow) [
    | inl n ↦ subst AreTyped (entry_none f b bi params known n h) are
    | inr (c, n) ↦
        let (dom, e, same) = entry_some f b bi params known c n h in
        subst AreTyped same (
          dominating_references-AreTyped env c (accepted f b bi env c n v) bi dom c.references
            params (λ j r q. (j, q)) are)
  ]

  module _ (b : LirBlock) (bi : ℕ) (env : Env) (has : Bool) (hb : Has b f.blocks) where
    middle-AreTyped :
        (s : Body) (i : LirInstruction) (t : Body)
        → Has i b.instructions
        → AreTyped s.known
        → define s i ≡ ok t
        → AreTyped t.known
    middle-AreTyped s i t hi are d = elim (define-known f b bi s i t d) [
      | inl q ↦ rw q are
      | inr q ↦ rw q (inr (b, i, hb, hi, refl, refl), are)
    ]

    Step-AreTyped :
        (k : ℕ) (s : Body) (i : LirInstruction) (t : Body)
        → AreTyped s.known
        → get_elem? b.instructions k ≡ some i
        → Step env has f s i t
        → AreTyped t.known
    Step-AreTyped k s i t are e step =
        subst AreTyped
          (sym (add_guard-known f b bi (op_of i.op) i step.middle)
            ∙ ap (λ (x : Body). x.known) step.result)
          (middle-AreTyped s i step.middle (k, e) are step.defined)

    find-define :
        (s : Body) (i : LirInstruction) (t : Body) (v : ℤ)
        → define s i ≡ ok t
        → is_known s v ≡ true
        → (y : LirType) × (find v t.known ≡ some y)
    find-define s i t v d h = elim (Option-cases (find v s.known)) [
      | inl e ↦ absurd (ground arith)
      | inr (y, e) ↦ elim (define-known f b bi s i t d) [
        | inl q ↦ (y, ap (find v) q ∙ e)
        | inr q ↦ elim (Bool-cases (i.result ==ℤ v)) [
          | inl r ↦ (i.typ, ap (find v) q ∙ find_here v i.result i.typ s.known r)
          | inr r ↦ (y, ap (find v) q ∙ find_there v i.result i.typ s.known r ∙ e)
        ]
      ]
    ]

    module _ (s : Body) (x : LirInstruction) (t : Body) (hx : Has x b.instructions)
        (are : AreTyped s.known) (step : Step env has f s x t) where
      -- An operand that there is has the type that the check reads for it.
      operand :
          (k : ℕ) (v : ℤ) → get_elem? x.args k ≡ some v → HasType f v (arg_type step.middle x k)
      operand k v e =
          let known = known_arguments-get f b bi s x.args k v step.arguments e in
          let (y, q) = find-define s x step.middle v step.defined known in
          let typed =
            find-All (HasType f) step.middle.known v
              (middle-AreTyped s x step.middle hx are step.defined) q in
          subst (HasType f v) (reads v y e q) typed
        where
          reads :
              (v : ℤ) (y : LirType)
              → get_elem? x.args k ≡ some v
              → find v step.middle.known ≡ some y
              → y ≡ arg_type step.middle x k
          reads v y e q = ground arith

      argument : (k n : ℕ) → length x.args ≡ n → k < n → (v : ℤ) × (get_elem? x.args k ≡ some v)
      argument k n l m = inside x.args k (omega arith)
        where
          inside : (xs : List ℤ) (k : ℕ) → k < length xs → (v : ℤ) × (get_elem? xs k ≡ some v)
          inside [] k h = absurd (omega arith)
          inside (a ∷ rest) zero h = (a, refl)
          inside (a ∷ rest) (suc k) h = inside rest k (omega arith)

      an_operand :
          (k n : ℕ) → (length x.args == n) ≡ true → k < n → Operand f x k (arg_type step.middle x k)
      an_operand k n l m =
          let (v, e) = argument k n ((==_iff (length x.args) n).0 l) m in (v, e, operand k v e)

      the_operand :
          (k n : ℕ) (y : LirType)
          → (length x.args == n) ≡ true
          → k < n
          → type_eq (arg_type step.middle x k) y ≡ true
          → Operand f x k y
      the_operand k n y l m h =
          subst (Operand f x k) (type_eq→≡ (arg_type step.middle x k) y h) (an_operand k n l m)

      compared :
          (equality : Bool) → check_compare env f equality step.middle x ≡ ok tt → Compared f x
      unfolding check_compare
      compared equality h = (
        arg_type step.middle x 0,
        an_operand 0 2 (ground arith) (omega arith),
        subst (Operand f x 1)
            (sym (type_eq→≡ (arg_type step.middle x 0) (arg_type step.middle x 1) (ground arith)))
            (an_operand 1 2 (ground arith) (omega arith)),
        type_eq→≡ x.typ bool (ground arith),
      )

      field_of :
          (layout : Option LirAggregateLayout)
          → check_field_address env f step.middle x layout ≡ ok tt
          → IsTyped f field_address x
      unfolding check_field_address
      field_of none h = cc
      field_of (some l) h = (
        arg_type step.middle x 0,
        an_operand 0 1 (ground arith) (omega arith),
        PointsTo-of (arg_type step.middle x 0) x.aggregate (ground arith),
      )

      loaded :
          (t : LirType)
          → PointsTo t x.typ
          → is_neg x.result ≡ false
          → lir_address_target t ≡ some x.typ
      loaded t (inl e) r = e
      loaded t (inr e) r = absurd (define-HasType s x step.middle step.defined r e)

      checked-IsTyped :
          (op : LirOp) → check_operation env f op has step.middle x ≡ ok tt → IsTyped f op x
      unfolding check_operation
      checked-IsTyped arithmetic h = (
        the_operand 0 2 x.typ (ground arith) (omega arith) (ground arith),
        the_operand 1 2 x.typ (ground arith) (omega arith) (ground arith),
        ground arith,
      )
      checked-IsTyped float_arithmetic h = (
        the_operand 0 2 x.typ (ground arith) (omega arith) (ground arith),
        the_operand 1 2 x.typ (ground arith) (omega arith) (ground arith),
        ground arith,
      )
      checked-IsTyped load h = (
        arg_type step.middle x 0,
        an_operand 0 1 (ground arith) (omega arith),
        loaded (arg_type step.middle x 0)
            (PointsTo-of (arg_type step.middle x 0) x.typ (ground arith)) (ground arith),
      )
      checked-IsTyped store h = (
        arg_type step.middle x 0,
        an_operand 0 2 (ground arith) (omega arith),
        PointsTo-of (arg_type step.middle x 0) x.typ (ground arith),
        the_operand 1 2 x.typ (ground arith) (omega arith) (ground arith),
      )
      checked-IsTyped float_negation h =
          (the_operand 0 1 x.typ (ground arith) (omega arith) (ground arith), ground arith)
      checked-IsTyped compare_equal h = compared true h
      checked-IsTyped compare_order h = compared false h
      checked-IsTyped field_address h = field_of (env.layouts x.aggregate) h
      checked-IsTyped _ h = tt

    -- In a function whose references and body are accepted, the operands of an integer or a
    -- floating operation are defined with its type, which is an integer or a floating type; those
    -- of a comparison are defined with one type, and its own type is `bool`; the operand of a
    -- load is defined with an address type that points to the type of the load; the second
    -- operand of a store is defined with the type of the store, and the first, where that type is
    -- not "", with an address type that points to it; the operand of a `field_address` is
    -- defined, where its aggregate is not "", with an address type that points to that aggregate.
    pub verify_body-IsTyped :
        (ii : ℕ) (x : LirInstruction)
        → verify_lir_borrow_function f env.layouts ≡ ok tt
        → verify_body env has f ≡ ok tt
        → get_elem? f.blocks bi ≡ some b
        → get_elem? b.instructions ii ≡ some x
        → IsTyped f (op_of x.op) x
    verify_body-IsTyped ii x hv h eb ei =
        let body = verify_body-Run env has f h in
        let (before, u, block) =
          Runs-at env has f body.params body.all 0 f.blocks bi b body.runs eb in
        let params =
          declare_params-AreTyped f.params [] body.params [] body.all (λ j p q. (j, q)) tt
            body.declared in
        let (t, t', are, step) =
          Run-at env has f (λ k s. AreTyped s.known) b.instructions Step-AreTyped 0
            (record { known = block.known; guards = []; all = before }) b.instructions u block.run
            (λ j y q. rw zero-add q)
            (entry-AreTyped b (0 + bi) env body.params block.known hv params block.entry) ii x ei in
        checked-IsTyped t x t' (ii, ei) are step (op_of x.op) step.checked
