-- ===== src/Machine/Module.antt =====
-- `VerifyMachineIR` over a module of CMIRAMD3 functions: lines 96 to 135 of
-- internal/concept/machineir_verify.go. The dispatch to the later contracts is not modelled.
pub mod Closed
use Prim.Native.String.{◌++◌ as str_append}
use text.Mathlib.Text.{starts_with}
use concept.Base.{
  ℕ, zero, suc, ◌≡◌, ◌==◌, Bool, true, false, not, ◌||◌, String, str_eq, List, [], ◌∷◌, length, any,
  Option, none, some, Result, ok, err, ◌>>=◌, ◌>>◌, Check, reject, or_fail, for_each, get_elem?,
  if◌then◌else◌,
}
use concept.Lir.Types.{LirType, type_eq}
use concept.Machine.Registers.{MachineArg}
use concept.Machine.Immediate.{codes}
use concept.Machine.Ir.{
  MachineFunction, MachineBlock, MachineInstruction, MachineCall, MachineCallArgument, call,
}
use concept.Machine.Verify.{verify_machine_function}
use concept.Machine.Operands.{is_call}

-- The map from identity to function.
unfoldable pub find_function : List MachineFunction → String → Option MachineFunction
find_function [] id = none
find_function (f ∷ fs) id = if str_eq f.identity id then some f else find_function fs id

abbrev pub ends_with : ℕ → List ℕ → Bool
ends_with c [] = false
ends_with c (x ∷ []) = x == c
ends_with c (x ∷ y ∷ xs) = ends_with c (y ∷ xs)

unfoldable pub verify_call_types : ℕ → List MachineCallArgument → List MachineArg → Check
verify_call_types i [] params = ok tt
verify_call_types i (a ∷ as') [] = err "index out of range"
verify_call_types i (a ∷ as') (p ∷ params) = do
  reject (not (type_eq a.typ p.typ)) "MIR_CALL_ARGUMENT_TYPE"
  verify_call_types (suc i) as' params

-- A call against the declaration that it names.
unfoldable pub verify_call_target : List MachineFunction → MachineCall → Check
verify_call_target functions c = do
  target ← or_fail (find_function functions c.target) "MIR_CALL_TARGET"
  reject
      (not (
          starts_with c.target
            (str_append target.name (str_append "|" (str_append target.name "("))))
        || not (ends_with b')' (codes c.target)))
      "MIR_CALL_TARGET"
  reject (not (length c.arguments == length target.args)) "MIR_CALL_ARGUMENT_COUNT"
  reject (not (type_eq c.result target.result)) "MIR_CALL_RESULT_TYPE"
  verify_call_types 0 c.arguments target.args

unfoldable pub verify_instruction_call : List MachineFunction → ℕ → MachineInstruction → Check
verify_instruction_call functions k i =
    if is_call i.op
    then or_fail (get_elem? i.calls 0) "index out of range" >>= verify_call_target functions
    else ok tt

unfoldable pub verify_block_calls : List MachineFunction → ℕ → MachineBlock → Check
verify_block_calls functions k b = for_each (verify_instruction_call functions) 0 b.instructions

unfoldable pub verify_function_calls : List MachineFunction → ℕ → MachineFunction → Check
verify_function_calls functions k f = do
  verify_machine_function f
  for_each (verify_block_calls functions) 0 f.blocks

abbrev pub has_identity : String → MachineFunction → Bool
has_identity id f = str_eq f.identity id

-- The map is filled in order; an identity that is in it already is refused.
unfoldable pub distinct_identities : List MachineFunction → List MachineFunction → Check
distinct_identities seen [] = ok tt
distinct_identities seen (f ∷ fs) = do
  reject (any (has_identity f.identity) seen) "MIR_DUPLICATE_FUNCTION"
  distinct_identities (f ∷ seen) fs

unfoldable pub verify_machine_ir : List MachineFunction → Check
verify_machine_ir fs = do distinct_identities [] fs; for_each (verify_function_calls fs) 0 fs
