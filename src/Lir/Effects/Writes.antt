-- ===== src/Lir/Effects/Writes.antt =====
-- Where the entries that the loop over the instructions of a block makes in
-- `verifyLIRMachineEffects` of internal/concept/lir.go come from.
use concept.Base.{
  ℕ, suc, ◌+◌, ◌<◌, ℤ, pos, negsuc, List, [], ◌∷◌, Bool, true, false, ◌&&◌, Option, none, some,
  ◌==◌, ◌==ℤ◌, ==ℤ_iff, str_eq, String, get_elem?, length, ok, reject, ◌≡◌, refl, sym, ◌∙◌, subst,
  ◌⊎◌, inl, inr, Bool-cases, Option-cases, >>-eq-ok, >>=-eq-ok, reject-eq-ok, ok_inj, some_inj,
  arith, zero-add, add-zero, add-suc, suc-add,
}
use concept.Base.Bits.{bit, get_or-set, length-set}
use concept.Lir.Frame.{LirMachineState}
use concept.Lir.Function.{LirInstruction}
use concept.Lir.Borrow.{Entries, find}
use concept.Lir.Borrow.Definitions.{find_here, find_there}
use concept.Lir.Body.{LirOp, frame_field_address, const, machine_result, store, op_of}
use concept.Lir.Effects.{
  Effects, text_of, mark_field, bad_state, store_field, store_to, store_effect, effect_of,
  empty_effects, block_effects,
}

-- An instruction before instruction k computes the address of the field.
pub record AddressBefore (is : List LirInstruction) (k : ℕ) (a field : ℤ) : Type 0 where
  pub at : ℕ
  pub before : at < k
  pub instruction : LirInstruction
  pub is_at : get_elem? is at ≡ some instruction
  pub is_address : op_of instruction.op ≡ frame_field_address
  pub is_result : instruction.result ≡ a
  pub is_field : instruction.frame_field ≡ field

-- An instruction before instruction k, of the operation, gives the value the literal.
pub record LiteralBefore (is : List LirInstruction) (k : ℕ) (op : LirOp) (v : ℤ) (c : String)
    : Type 0 where
  pub at : ℕ
  pub before : at < k
  pub instruction : LirInstruction
  pub is_at : get_elem? is at ≡ some instruction
  pub is_op : op_of instruction.op ≡ op
  pub is_result : instruction.result ≡ v
  pub is_literal : instruction.literal ≡ c

-- An instruction before instruction k stores the value at an address of the field that was computed
-- before it.
pub record StoreBefore (is : List LirInstruction) (k : ℕ) (field value : ℤ) : Type 0 where
  pub at : ℕ
  pub before : at < k
  pub instruction : LirInstruction
  pub is_at : get_elem? is at ≡ some instruction
  pub is_store : op_of instruction.op ≡ store
  pub address : ℤ
  pub arguments : instruction.args ≡ address ∷ value ∷ []
  pub computed : AddressBefore is at address field

-- The store is of a constant.
pub record ConstantStored (is : List LirInstruction) (k : ℕ) (field : ℤ) (c : String) : Type 0 where
  pub value : ℤ
  pub stores : StoreBefore is k field value
  pub constant : LiteralBefore is k const value c

module _ {is : List LirInstruction} {k : ℕ} where
  address-suc : {a field : ℤ} → AddressBefore is k a field → AddressBefore is (suc k) a field
  address-suc w = record {
    at = w.at;
    before = omega (arith, w.before);
    instruction = w.instruction;
    is_at = w.is_at;
    is_address = w.is_address;
    is_result = w.is_result;
    is_field = w.is_field;
  }

  literal-suc :
      {op : LirOp} {v : ℤ} {c : String}
      → LiteralBefore is k op v c
      → LiteralBefore is (suc k) op v c
  literal-suc w = record {
    at = w.at;
    before = omega (arith, w.before);
    instruction = w.instruction;
    is_at = w.is_at;
    is_op = w.is_op;
    is_result = w.is_result;
    is_literal = w.is_literal;
  }

  store-suc : {f v : ℤ} → StoreBefore is k f v → StoreBefore is (suc k) f v
  store-suc w = record {
    at = w.at;
    before = omega (arith, w.before);
    instruction = w.instruction;
    is_at = w.is_at;
    is_store = w.is_store;
    address = w.address;
    arguments = w.arguments;
    computed = w.computed;
  }

  stored-suc : {f : ℤ} {c : String} → ConstantStored is k f c → ConstantStored is (suc k) f c
  stored-suc w = record {
    value = w.value;
    stores = store-suc w.stores;
    constant = literal-suc w.constant;
  }

pub text_of-some : (o : Option String) → str_eq (text_of o) "" ≡ false → o ≡ some (text_of o)
text_of-some none h = cc
text_of-some (some c) h = refl

module _ (states : List LirMachineState) (is : List LirInstruction) (start : List Bool) where
  -- The entries after k instructions.
  pub record Written (k : ℕ) (e : Effects) : Type 0 where
    pub size : length e.initialized ≡ length start
    pub addresses : (a field : ℤ) → find a e.addresses ≡ some field → AddressBefore is k a field
    pub constants :
        (v : ℤ) (c : String) → find v e.constants ≡ some c → LiteralBefore is k const v c
    pub results :
        (v : ℤ) (c : String) → find v e.results ≡ some c → LiteralBefore is k machine_result v c
    pub stored :
        (field : ℤ) (c : String)
        → find field e.stored ≡ some c
        → str_eq c "" ≡ false
        → ConstantStored is k field c × (field ≡ pos 0 → bad_state states c ≡ false)
    pub initialized :
        (q : ℕ)
        → bit e.initialized q ≡ true
        → (bit start q ≡ true) ⊎ ((v : ℤ) × StoreBefore is k (pos q) v)

  -- A new entry, or one that was there.
  find-cases :
      {V : Type 0} (k v : ℤ) (x y : V) (m : Entries V)
      → find v ((k, x) ∷ m) ≡ some y
      → ((k ≡ v) × (x ≡ y)) ⊎ (find v m ≡ some y)
  find-cases k v x y m e = elim (Bool-cases (k ==ℤ v)) [
    | inl q ↦ inl ((==ℤ_iff k v).0 q, some_inj (sym (find_here v k x m q) ∙ e))
    | inr q ↦ inr (sym (find_there v k x m q) ∙ e)
  ]

  Written-suc : (k : ℕ) (e : Effects) → Written k e → Written (suc k) e
  Written-suc k e w = record {
    size = w.size;
    addresses = λ a f h. address-suc (w.addresses a f h);
    constants = λ v c h. literal-suc (w.constants v c h);
    results = λ v c h. literal-suc (w.results v c h);
    stored = λ f c h n. (stored-suc (w.stored f c h n).0, (w.stored f c h n).1);
    initialized =
        λ q h. elim (w.initialized q h) [ inl p ↦ inl p | inr (v, s) ↦ inr (v, store-suc s) ];
  }

  mark_field-bit :
      (xs : List Bool) (field : ℤ) (q : ℕ)
      → bit (mark_field xs field) q ≡ true
      → (bit xs q ≡ true) ⊎ (field ≡ pos q)
  mark_field-bit xs (negsuc j) q h = inl h
  mark_field-bit xs (pos j) q h = elim (Bool-cases (q == j)) [
    | inl r ↦ inr (ground arith)
    | inr r ↦ inl (ground (arith, get_or-set xs j q true false))
  ]

  length-mark_field : (xs : List Bool) (field : ℤ) → length (mark_field xs field) ≡ length xs
  length-mark_field xs (negsuc j) = refl
  length-mark_field xs (pos j) = length-set xs j true

  store_effect-cases :
      (e : Effects) (args : List ℤ) (e' : Effects)
      → store_effect states e args ≡ ok e'
      → (e ≡ e')
        ⊎ ((a : ℤ) × (v : ℤ) × (args ≡ a ∷ v ∷ [])
            × (store_to states e v (find a e.addresses) ≡ ok e'))
  unfolding store_effect
  store_effect-cases e [] e' h = inl (ok_inj h)
  store_effect-cases e (a ∷ []) e' h = inl (ok_inj h)
  store_effect-cases e (a ∷ v ∷ []) e' h = inr (a, v, refl, h)
  store_effect-cases e (a ∷ v ∷ b ∷ rest) e' h = inl (ok_inj h)

  module _ (k : ℕ) (e : Effects) (x : LirInstruction) (written : Written k e)
      (here : get_elem? is k ≡ some x) where
    later : Written (suc k) e
    later = Written-suc k e written

    literal :
        (op : LirOp) (v : ℤ) (c : String)
        → op_of x.op ≡ op
        → (x.result ≡ v) × (x.literal ≡ c)
        → LiteralBefore is (suc k) op v c
    literal op v c o (r, l) = record {
      at = k;
      before = omega arith;
      instruction = x;
      is_at = here;
      is_op = o;
      is_result = r;
      is_literal = l;
    }

    after_store :
        (a v field : ℤ) (e' : Effects)
        → op_of x.op ≡ store
        → x.args ≡ a ∷ v ∷ []
        → find a e.addresses ≡ some field
        → store_field states e field (text_of (find v e.constants)) ≡ ok e'
        → Written (suc k) e'
    unfolding store_field
    after_store a v field e' op args is_address h =
        let c = text_of (find v e.constants) in
        let (good, same) = >>-eq-ok (reject (field ==ℤ pos 0 && bad_state states c) _) _ h in
        subst (Written (suc k)) (ok_inj same) (record {
          size = length-mark_field e.initialized field ∙ later.size;
          addresses = later.addresses;
          constants = later.constants;
          results = later.results;
          stored = λ g d q n. elim (find-cases field g c d e.stored q) [
            | inl (p, r) ↦
                subst
                  (λ y. ConstantStored is (suc k) y d × (y ≡ pos 0 → bad_state states d ≡ false)) p
                  (subst
                    (λ y.
                      ConstantStored is (suc k) field y
                      × (field ≡ pos 0 → bad_state states y ≡ false))
                    r
                    (
                      record {
                        value = v;
                        stores = this;
                        constant = later.constants v c (
                            text_of-some (find v e.constants)
                              (subst (λ y. str_eq y "" ≡ false) (sym r) n));
                      },
                      λ z. state z c (reject-eq-ok _ _ good),
                    ))
            | inr q' ↦ later.stored g d q' n
          ];
          initialized = λ q b. elim (mark_field-bit e.initialized field q b) [
            | inl p ↦ later.initialized q p
            | inr p ↦ inr (v, subst (λ y. StoreBefore is (suc k) y v) p this)
          ];
        })
      where
        this : StoreBefore is (suc k) field v
        this = record {
          at = k;
          before = omega arith;
          instruction = x;
          is_at = here;
          is_store = op;
          address = a;
          arguments = args;
          computed = written.addresses a field is_address;
        }

        state :
            field ≡ pos 0
            → (d : String) → (field ==ℤ pos 0 && bad_state states d) ≡ false
            → bad_state states d ≡ false
        state z d h = ground (arith, ==ℤ_iff field (pos 0))

    after :
        (e' : Effects) (op : LirOp)
        → op_of x.op ≡ op
        → effect_of states op e x ≡ ok e'
        → Written (suc k) e'
    unfolding effect_of store_to
    after e' frame_field_address op h = subst (Written (suc k)) (ok_inj h) (record {
      size = later.size;
      addresses = λ a f q. elim (find-cases x.result a x.frame_field f e.addresses q) [
        | inl (p, r) ↦ record {
          at = k;
          before = omega arith;
          instruction = x;
          is_at = here;
          is_address = op;
          is_result = p;
          is_field = r;
        }
        | inr q' ↦ later.addresses a f q'
      ];
      constants = later.constants;
      results = later.results;
      stored = later.stored;
      initialized = later.initialized;
    })
    after e' const op h = subst (Written (suc k)) (ok_inj h) (record {
      size = later.size;
      addresses = later.addresses;
      constants = λ v c q. elim (find-cases x.result v x.literal c e.constants q) [
        | inl p ↦ literal const v c op p
        | inr q' ↦ later.constants v c q'
      ];
      results = later.results;
      stored = later.stored;
      initialized = later.initialized;
    })
    after e' machine_result op h = subst (Written (suc k)) (ok_inj h) (record {
      size = later.size;
      addresses = later.addresses;
      constants = later.constants;
      results = λ v c q. elim (find-cases x.result v x.literal c e.results q) [
        | inl p ↦ literal machine_result v c op p
        | inr q' ↦ later.results v c q'
      ];
      stored = later.stored;
      initialized = later.initialized;
    })
    after e' store op h = elim (store_effect-cases e x.args e' h) [
      | inl same ↦ subst (Written (suc k)) same later
      | inr (a, v, args, to) ↦ elim (Option-cases (find a e.addresses)) [
        | inl q ↦
            subst (Written (suc k)) (ok_inj (subst (λ o. store_to states e v o ≡ ok e') q to)) later
        | inr (field, q) ↦
            after_store a v field e' op args q (subst (λ o. store_to states e v o ≡ ok e') q to)
      ]
    ]
    after e' _ op h = subst (Written (suc k)) (ok_inj h) later

  -- The entries at the end of a block.
  pub block_effects-Written :
      (k : ℕ) (e : Effects) (rest : List LirInstruction) (u : Effects)
      → Written k e
      → ((j : ℕ) (x : LirInstruction) → get_elem? rest j ≡ some x → get_elem? is (k + j) ≡ some x)
      → block_effects states e rest ≡ ok u
      → Written (k + length rest) u
  unfolding block_effects
  block_effects-Written k e [] u w tail h = rw add-zero (subst (Written k) (ok_inj h) w)
  block_effects-Written k e (x ∷ rest) u w tail h =
      let (t, now, then_) = >>=-eq-ok (effect_of states (op_of x.op) e x) _ h in
      rw (add-suc, ← suc-add)
        (block_effects-Written (suc k) t rest u
          (after k e x w (rw add-zero at (tail 0 x refl)) t (op_of x.op) refl now)
          (λ j y q. rw (suc-add, ← add-suc) (tail (suc j) y q)) then_)

module _ (states : List LirMachineState) (is : List LirInstruction) (bits : List Bool) where
  start-Written : Written states is bits 0 (empty_effects bits)
  unfolding find
  start-Written = record {
    size = refl;
    addresses = λ a f h. cc;
    constants = λ v c h. cc;
    results = λ v c h. cc;
    stored = λ f c h n. cc;
    initialized = λ q h. inl h;
  }

  -- The entries of a block.
  pub block-Written :
      (e : Effects)
      → block_effects states (empty_effects bits) is ≡ ok e
      → Written states is bits (length is) e
  block-Written e h =
      subst (λ n. Written states is bits n e) (zero-add (length is))
        (block_effects-Written states is bits 0 (empty_effects bits) is e start-Written
          (λ j x q. rw zero-add q) h)
