-- ===== src/Machine/Module/Closed.antt =====
-- The calls of a module that `verify_machine_ir` accepted.
use concept.Machine.Module.{
  verify_machine_ir, verify_function_calls, verify_block_calls, verify_call_target,
  verify_call_types, find_function, verify_instruction_call, distinct_identities,
}
use concept.Base.{
  ℕ, List, not, String, ◌≡◌, some, ok, false, get_elem?, Bool, length, ◌∷◌, for_each, arith, true,
  >>=-eq-ok, >>-eq-ok, Bool-cases, for_each-get, reject, str_eq, or_fail, [], or_fail-eq-ok, inl,
  ap, ==_iff, some_inj, sym, ◌∙◌, reject-eq-ok, zero, suc, subst, eq_iff, inr,
}
use concept.Lir.Types.{LirType, type_eq, type_eq→≡}
use concept.Machine.Ir.{
  MachineFunction, MachineCallArgument, MachineCall, MachineBlock, MachineInstruction,
}
use concept.Machine.Registers.{MachineArg}
use concept.Machine.Verify.{verify_machine_function}
use concept.Machine.Operands.{is_call}

-- A call that agrees with the function it names.
pub record Agrees (fs : List MachineFunction) (c : MachineCall) : Type 0 where
  pub callee : MachineFunction
  pub found : find_function fs c.target ≡ some callee
  pub named : callee.identity ≡ c.target
  pub verified : verify_machine_function callee ≡ ok tt
  pub arity : length c.arguments ≡ length callee.args
  pub result_type : c.result ≡ callee.result
  pub argument_type :
      (a : ℕ) (x : MachineCallArgument) (p : MachineArg)
      → get_elem? c.arguments a ≡ some x
      → get_elem? callee.args a ≡ some p
      → x.typ ≡ p.typ

find_function-get :
    (fs : List MachineFunction) (id : String) (f : MachineFunction)
    → find_function fs id ≡ some f
    → (k : ℕ) × (get_elem? fs k ≡ some f) × (f.identity ≡ id)
unfolding find_function
find_function-get [] id f h = cc
find_function-get (g ∷ gs) id f h = elim (Bool-cases (str_eq g.identity id)) [
  | inl e ↦
      let q : g ≡ f = some_inj (ground arith) in
      (zero, ap some q, subst (λ x. x.identity ≡ id) q ((eq_iff g.identity id).0 e))
  | inr n ↦ let (k, p, q) = find_function-get gs id f (ground arith) in (suc k, p, q)
]

equal_types : (t u : LirType) → not (type_eq t u) ≡ false → t ≡ u
equal_types t u h = type_eq→≡ t u (ground arith)

verify_call_types-get :
    (i : ℕ) (xs : List MachineCallArgument) (ps : List MachineArg)
    → verify_call_types i xs ps ≡ ok tt
    → (a : ℕ) (x : MachineCallArgument) (p : MachineArg) → get_elem? xs a ≡ some x
    → get_elem? ps a ≡ some p
    → x.typ ≡ p.typ
unfolding verify_call_types
verify_call_types-get i [] ps h a x p ex ep = cc
verify_call_types-get i (y ∷ xs) [] h a x p ex ep = cc
verify_call_types-get i (y ∷ xs) (q ∷ ps) h zero x p ex ep =
    let (t, _) = >>-eq-ok (reject (not (type_eq y.typ q.typ)) _) _ h in
    ap (λ z. z.typ) (sym (some_inj ex))
    ∙ equal_types y.typ q.typ (reject-eq-ok _ _ t)
    ∙ ap (λ z. z.typ) (some_inj ep)
verify_call_types-get i (y ∷ xs) (q ∷ ps) h (suc a) x p ex ep =
    let (_, t) = >>-eq-ok (reject (not (type_eq y.typ q.typ)) _) _ h in
    verify_call_types-get (suc i) xs ps t a x p ex ep

verify_function_calls-ok :
    (fs : List MachineFunction) (k : ℕ) (f : MachineFunction)
    → verify_machine_ir fs ≡ ok tt
    → get_elem? fs k ≡ some f
    → (verify_machine_function f ≡ ok tt) × (for_each (verify_block_calls fs) 0 f.blocks ≡ ok tt)
unfolding verify_machine_ir verify_function_calls
verify_function_calls-ok fs k f h e =
    let (_, t) = >>-eq-ok (distinct_identities [] fs) _ h in
    >>-eq-ok (verify_machine_function f) _ (for_each-get (verify_function_calls fs) 0 fs k t e)

verify_call_target-Agrees :
    (fs : List MachineFunction) (c : MachineCall)
    → verify_machine_ir fs ≡ ok tt
    → verify_call_target fs c ≡ ok tt
    → Agrees fs c
unfolding verify_call_target
verify_call_target-Agrees fs c all h =
    let (t, ht, h₀) = >>=-eq-ok (or_fail (find_function fs c.target) _) _ h in
    let (_, h₁) = >>-eq-ok (reject _ "MIR_CALL_TARGET") _ h₀ in
    let (n, h₂) = >>-eq-ok (reject _ "MIR_CALL_ARGUMENT_COUNT") _ h₁ in
    let (r, h₃) = >>-eq-ok (reject _ "MIR_CALL_RESULT_TYPE") _ h₂ in
    let found = or_fail-eq-ok _ _ ht in
    let (k, e, named) = find_function-get fs c.target t found in
    record {
      callee = t;
      found = found;
      named = named;
      verified = (verify_function_calls-ok fs k t all e).0;
      arity = (==_iff (length c.arguments) (length t.args)).0 (not-false (reject-eq-ok _ _ n));
      result_type = equal_types c.result t.result (reject-eq-ok _ _ r);
      argument_type = verify_call_types-get 0 c.arguments t.args h₃;
    }
  where
    not-false : {b : Bool} → not b ≡ false → b ≡ true
    not-false h = ground arith

-- Every CALL of an accepted module names a function of the module, which is itself accepted and
-- has the number of arguments, the argument types and the result type that the call states.
pub verify_machine_ir-Agrees :
    (fs : List MachineFunction) (k n j : ℕ) (f : MachineFunction) (b : MachineBlock)
    (i : MachineInstruction)
    → verify_machine_ir fs ≡ ok tt
    → get_elem? fs k ≡ some f
    → get_elem? f.blocks n ≡ some b
    → get_elem? b.instructions j ≡ some i
    → is_call i.op ≡ true
    → (c : MachineCall) × (get_elem? i.calls 0 ≡ some c) × Agrees fs c
unfolding verify_block_calls verify_instruction_call
verify_machine_ir-Agrees fs k n j f b i h ef eb ei o =
    let (_, p) = verify_function_calls-ok fs k f h ef in
    let q = for_each-get (verify_block_calls fs) 0 f.blocks n p eb in
    let r = for_each-get (verify_instruction_call fs) 0 b.instructions j q ei in
    let (c, hc, t) =
      >>=-eq-ok (or_fail (get_elem? i.calls 0) "index out of range") (verify_call_target fs)
        (rw o at r) in
    (c, or_fail-eq-ok _ _ hc, verify_call_target-Agrees fs c h t)
