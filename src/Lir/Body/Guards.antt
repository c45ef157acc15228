-- ===== src/Lir/Body/Guards.antt =====
-- The addresses of elements in a function body that `VerifyLIR` of internal/concept/lir.go accepts.
use concept.Base.{
  ℕ, suc, ◌+◌, ◌-◌, ◌*◌, ◌/◌, ◌≤◌, ◌<◌, ℤ, pos_part, List, [], ◌∷◌, Bool, true, false, ◌&&◌, Option,
  some, if◌then◌else◌, ◌==◌, ◌==ℤ◌, ==ℤ_iff, ltb, length, get_elem?, ◌≡◌, refl, sym, ap, ◌∙◌, subst,
  ◌⊎◌, inl, inr, Bool-cases, Option-cases, &&-true, arith, ok, zero-add,
}
use concept.Lir.Function.{LirInstruction, LirBlock, LirFunction, LirSlot}
use concept.Lir.Body.{LirOp, check_index, index_address, Env, Body, op_of, guarded, find_slot}
use concept.Lir.Body.Operation.{no_slot, out_of_reach, check_index_guard, check_index_address}
use concept.Lir.Body.Cases.{check_operation}
use concept.Lir.Body.Blocks.{define, add_guard, verify_body}
use concept.Lir.Body.Steps.{Step, Run-at, Runs-at, verify_body-Run}

-- An instruction before instruction k compares the index with the extent.
pub record Guard (is : List LirInstruction) (k : ℕ) (index extent : ℤ) : Type 0 where
  pub at : ℕ
  pub before : at < k
  pub check : LirInstruction
  pub is_check : get_elem? is at ≡ some check
  pub is_check_index : op_of check.op ≡ check_index
  pub compares : check.args ≡ index ∷ []
  pub with_extent : check.extent ≡ extent

-- The address of an element of at most `extent`, whose index is checked before in the block; no
-- element starts more than 2147483647 bytes behind the base.
pub record IndexUse (is : List LirInstruction) (k : ℕ) (x : LirInstruction) : Type 0 where
  pub index : ℤ
  pub is_index : get_elem? x.args (if no_slot x then 1 else 0) ≡ some index
  pub guard : Guard is k index x.extent
  pub elements : 0 < pos_part x.extent
  pub stride : 0 < pos_part x.stride
  pub reach : (pos_part x.extent - 1) * pos_part x.stride + pos_part x.frame_offset ≤ 2147483647

times-le : (s d q : ℕ) → 0 < d → s ≤ q / d → d * s ≤ q
times-le s d q p h = grind arith

reach_pos :
    (e s o : ℕ)
    → 0 < e
    → o ≤ 2147483647
    → (ltb 1 e && ltb ((2147483647 - o) / (e - 1)) s) ≡ false
    → (e - 1) * s + o ≤ 2147483647
reach_pos e s o p l h = elim (Bool-cases (ltb 1 e)) [
  | inl more ↦
      let part = times-le s (e - 1) (2147483647 - o) (ground arith) (ground arith) in omega arith
  | inr one ↦ let z : e - 1 ≡ 0 = ground arith in rw z (omega arith)
]

reach_lem :
    (x : LirInstruction)
    → out_of_reach x ≡ false
    → (0 < pos_part x.extent)
      × (0 < pos_part x.stride)
      × ((pos_part x.extent - 1) * pos_part x.stride + pos_part x.frame_offset ≤ 2147483647)
reach_lem x h =
    let e : 0 < pos_part x.extent = ground arith in
    let s : 0 < pos_part x.stride = ground arith in
    let o : pos_part x.frame_offset ≤ 2147483647 = ground arith in
    (
      e,
      s,
      reach_pos (pos_part x.extent) (pos_part x.stride) (pos_part x.frame_offset) e o
          (ground arith),
    )

one_arg : (xs : List ℤ) → (length xs == 1) ≡ true → (a : ℤ) × (xs ≡ a ∷ [])
one_arg [] h = absurd (ground arith)
one_arg (a ∷ []) h = (a, refl)
one_arg (a ∷ b ∷ rest) h = absurd (ground arith)

module _ (env : Env) (has : Bool) (f : LirFunction) where
  define-guards :
      (s : Body) (i : LirInstruction) (t : Body) → define s i ≡ ok t → t.guards ≡ s.guards
  unfolding define
  define-guards s i t h = ground arith

  check_index-args :
      (s : Body) (i : LirInstruction)
      → check_operation env f check_index has s i ≡ ok tt
      → (a : ℤ) × (i.args ≡ a ∷ [])
  unfolding check_operation
  check_index-args s i h = one_arg i.args (ground arith)

  add_guard-cases :
      (op : LirOp) (i : LirInstruction) (t : Body)
      → (op ≡ check_index) ⊎ ((add_guard op i t).guards ≡ t.guards)
  unfolding add_guard
  add_guard-cases check_index i t = inl refl
  add_guard-cases _ i t = inr refl

  add_guard-check :
      (i : LirInstruction) (t : Body) (a : ℤ)
      → i.args ≡ a ∷ []
      → (add_guard check_index i t).guards ≡ (a, i.extent) ∷ t.guards
  unfolding add_guard
  add_guard-check i t a e = ground arith

  -- Each guard comes from an instruction before.
  abbrev GuardsFrom : List LirInstruction → ℕ → Body → Type 0
  GuardsFrom is k s = (v n : ℤ) → guarded s.guards v n ≡ true → Guard is k v n

  weaken : {is : List LirInstruction} {k : ℕ} {v n : ℤ} → Guard is k v n → Guard is (suc k) v n
  weaken g = record {
    at = g.at;
    before = omega (arith, g.before);
    check = g.check;
    is_check = g.is_check;
    is_check_index = g.is_check_index;
    compares = g.compares;
    with_extent = g.with_extent;
  }

  Step-GuardsFrom :
      (is : List LirInstruction) (k : ℕ) (s : Body) (i : LirInstruction) (t : Body)
      → GuardsFrom is k s
      → get_elem? is k ≡ some i
      → Step env has f s i t
      → GuardsFrom is (suc k) t
  Step-GuardsFrom is k s i t from e step v n h = by_op (add_guard-cases (op_of i.op) i step.middle)
    where
      same : step.middle.guards ≡ s.guards
      same = define-guards s i step.middle step.defined

      h' : guarded (add_guard (op_of i.op) i step.middle).guards v n ≡ true
      h' = subst (λ (x : Body). guarded x.guards v n ≡ true) (sym step.result) h

      new : op_of i.op ≡ check_index → (a : ℤ) × (i.args ≡ a ∷ []) → Guard is (suc k) v n
      new op (a, args) =
          let gs : (add_guard (op_of i.op) i step.middle).guards ≡ (a, i.extent) ∷ s.guards =
            ap (λ o. (add_guard o i step.middle).guards) op
            ∙ add_guard-check i step.middle a args
            ∙ ap (◌∷◌ (a, i.extent)) same in
          let g : guarded ((a, i.extent) ∷ s.guards) v n ≡ true =
            subst (λ x. guarded x v n ≡ true) gs h' in
          elim (Bool-cases (a ==ℤ v && i.extent ==ℤ n)) [
            | inl q ↦ record {
              at = k;
              before = omega arith;
              check = i;
              is_check = e;
              is_check_index = op;
              compares = args ∙ ap (λ x. x ∷ []) ((==ℤ_iff a v).0 (&&-true (a ==ℤ v) _ q).0);
              with_extent = (==ℤ_iff i.extent n).0 (&&-true (a ==ℤ v) _ q).1;
            }
            | inr q ↦ weaken (from v n (rw q at g))
          ]

      by_op :
          (op_of i.op ≡ check_index)
            ⊎ ((add_guard (op_of i.op) i step.middle).guards ≡ step.middle.guards)
          → Guard is (suc k) v n
      by_op (inl op) = new op (
          check_index-args step.middle i
            (subst (λ o. check_operation env f o has step.middle i ≡ ok tt) op step.checked))
      by_op (inr unchanged) =
          weaken (from v n (subst (λ x. guarded x v n ≡ true) (unchanged ∙ same) h'))

  check_index_guard-guarded :
      (s : Body) (x : LirInstruction) (k : ℕ)
      → check_index_guard s x k ≡ ok tt
      → (v : ℤ) × (get_elem? x.args k ≡ some v) × (guarded s.guards v x.extent ≡ true)
  unfolding check_index_guard
  check_index_guard-guarded s x k h = elim (Option-cases (get_elem? x.args k)) [
    | inl e ↦ absurd (ground arith)
    | inr (v, e) ↦ (v, e, ground arith)
  ]

  check_index_address-facts :
      (s : Body) (x : LirInstruction) (slot : Option LirSlot)
      → check_index_address s x slot ≡ ok tt
      → (out_of_reach x ≡ false) × (check_index_guard s x (if no_slot x then 1 else 0) ≡ ok tt)
  unfolding check_index_address
  check_index_address-facts s x slot h = ground arith

  index_address-facts :
      (s : Body) (x : LirInstruction)
      → check_operation env f index_address has s x ≡ ok tt
      → (out_of_reach x ≡ false) × (check_index_guard s x (if no_slot x then 1 else 0) ≡ ok tt)
  unfolding check_operation
  index_address-facts s x h = check_index_address-facts s x (find_slot x.slot f.slots) h

  -- In an accepted body every `index_address` has an index that an earlier `check_index` of the same
  -- block compares with the same extent; the extent and the stride are positive, and no element
  -- below the extent starts more than 2147483647 bytes behind the base.
  pub verify_body-IndexUse :
      (bi : ℕ) (b : LirBlock) (ii : ℕ) (x : LirInstruction)
      → verify_body env has f ≡ ok tt
      → get_elem? f.blocks bi ≡ some b
      → get_elem? b.instructions ii ≡ some x
      → op_of x.op ≡ index_address
      → IndexUse b.instructions ii x
  verify_body-IndexUse bi b ii x h eb ei op =
      let body = verify_body-Run env has f h in
      let (before, u, block) =
        Runs-at env has f body.params body.all 0 f.blocks bi b body.runs eb in
      let (t, t', from, step) =
        Run-at env has f (GuardsFrom b.instructions) b.instructions (Step-GuardsFrom b.instructions)
          0 (record { known = block.known; guards = []; all = before }) b.instructions u block.run
          (λ j y q. rw zero-add q) (λ v n q. cc) ii x ei in
      at t t' (subst (λ k. GuardsFrom b.instructions k t) (zero-add ii) from) step
    where
      at :
          (t t' : Body)
          → GuardsFrom b.instructions ii t
          → Step env has f t x t'
          → IndexUse b.instructions ii x
      at t t' from step =
          let (reach, guard) =
            index_address-facts step.middle x
              (subst (λ o. check_operation env f o has step.middle x ≡ ok tt) op step.checked) in
          let (v, e, g) =
            check_index_guard-guarded step.middle x (if no_slot x then 1 else 0) guard in
          let bounds = reach_lem x reach in
          record {
            index = v;
            is_index = e;
            guard = from v x.extent (
                subst (λ gs. guarded gs v x.extent ≡ true)
                  (define-guards t x step.middle step.defined) g);
            elements = bounds.0;
            stride = bounds.1;
            reach = bounds.2;
          }
