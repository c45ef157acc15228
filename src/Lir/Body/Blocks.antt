-- ===== src/Lir/Body/Blocks.antt =====
-- The loops of `VerifyLIR` over the parameters, slots, blocks and instructions of one function, lines
-- 346 to 427 and 618 to 645 of internal/concept/lir.go. An error is its code word.
use concept.Base.{
  ℕ, suc, ℤ, pos, pos_part, List, [], ◌∷◌, Bool, true, ◌&&◌, ◌||◌, not, none, some, if◌then◌else◌,
  ◌==◌, ◌==ℤ◌, ltb_ℤ, is_neg, in_range, length, any, str_eq, String, Check, Result, ok, err, reject,
  or_fail, ◌>>◌, ◌>>=◌,
}
use concept.Base.Bits.{bit}
use concept.Lir.Types.{LirType, bool, void, type_eq}
use concept.Lir.Function.{
  LirValue, LirSlot, LirInstruction, LirTerminator, LirBlock, LirFunction, LirBorrowReference,
}
use concept.Lir.Dominators.{Rows, row, lir_dominators}
use concept.Lir.Borrow.{no_type, Entries, find, type_of, block_of, lir_reference_definitions}
use concept.Lir.Body.{
  LirOp, check_index, Env, Body, is_known, known_type, find_slot, is_some, op_of, one_of,
}
use concept.Lir.Body.Cases.{check_operation}

abbrev pub has_value : List ℤ → ℤ → Bool
has_value all v = any (λ x. x ==ℤ v) all

-- `params`, and `all` after the parameters.
unfoldable pub declare_params :
    List LirValue → Entries LirType → List ℤ → Result (Entries LirType × List ℤ)
declare_params [] params all = ok (params, all)
declare_params (p ∷ ps) params all = do
  reject (has_value all p.id) "LIR_DUPLICATE_VALUE"
  declare_params ps ((p.id, p.typ) ∷ params) (p.id ∷ all)

unfoldable pub known_facts : Env → List String → Check
known_facts env [] = ok tt
known_facts env (id ∷ ids) = do reject (not (env.facts id)) "LIR_UNKNOWN_FACT"; known_facts env ids

-- `params[v]`
abbrev pub param_type : Entries LirType → ℤ → LirType
param_type params v = elim (find v params) [ none ↦ no_type | some t ↦ t ]

-- `slots` are the slots before.
unfoldable pub declare_slots : Env → Entries LirType → List LirSlot → List LirSlot → Check
declare_slots env params slots [] = ok tt
declare_slots env params slots (s ∷ ss) = do
  known_facts env s.facts
  reject (is_some (find_slot s.id slots)) "LIR_DUPLICATE_SLOT"
  reject (not (is_neg s.param_value) && not (type_eq (param_type params s.param_value) s.typ))
      "LIR_BAD_PARAMETER_SLOT"
  reject (is_neg s.extent || ltb_ℤ (pos 0) s.extent && type_eq s.element no_type) "LIR_BAD_ARRAY"
  declare_slots env params (s ∷ slots) ss

-- Another block defines the reference, and dominates block bi.
abbrev pub is_dominating : LirFunction → Rows → ℕ → LirBorrowReference → Bool
is_dominating f dom bi r =
    let db = block_of (lir_reference_definitions f) r.value in
    not (is_neg db) && not (db ==ℤ pos bi) && bit (row dom bi) (pos_part db)

-- The references that another block defines and that are available in block bi.
unfoldable pub dominating_references :
    LirFunction → Rows → ℕ → List LirBorrowReference → Entries LirType → Entries LirType
dominating_references f dom bi [] known = known
dominating_references f dom bi (r ∷ rs) known = dominating_references f dom bi rs (
    if is_dominating f dom bi r
    then (r.value, type_of (lir_reference_definitions f) r.value) ∷ known
    else known)

unfoldable pub entry_values : LirFunction → ℕ → Entries LirType → Result (Entries LirType)
entry_values f bi params = elim f.borrow [
  | none ↦ ok params
  | some c ↦ do
    dom ← or_fail (lir_dominators f.blocks) "out of fuel"
    ok (dominating_references f dom bi c.references params)
]

unfoldable pub known_arguments : Body → List ℤ → Check
known_arguments s [] = ok tt
known_arguments s (a ∷ rest) = do
  reject (not (is_known s a)) "LIR_UNDEFINED_VALUE"
  known_arguments s rest

-- The result becomes known.
unfoldable pub define : Body → LirInstruction → Result Body
define s i = if is_neg i.result then ok s else (do
  reject (has_value s.all i.result) "LIR_DUPLICATE_VALUE"
  reject (type_eq i.typ no_type) "LIR_MISSING_TYPE"
  ok (record s { known = (i.result, i.typ) ∷ s.known; all = i.result ∷ s.all }))

-- `guards[[2]int{in.Args[0], in.Extent}] = true`
unfoldable pub add_guard : LirOp → LirInstruction → Body → Body
add_guard check_index i s = elim i.args [
  | [] ↦ s
  | a ∷ rest ↦ record s { guards = (a, i.extent) ∷ s.guards }
]
add_guard _ i s = s

module _ (env : Env) (has_layouts : Bool) (f : LirFunction) where
  unfoldable pub check_instruction : Body → LirInstruction → Result Body
  check_instruction s i = do
    known_facts env i.facts
    known_arguments s i.args
    t ← define s i
    check_operation env f (op_of i.op) has_layouts t i
    ok (add_guard (op_of i.op) i t)

  unfoldable pub check_instructions : Body → List LirInstruction → Result Body
  check_instructions s [] = ok s
  check_instructions s (i ∷ is) = do t ← check_instruction s i; check_instructions t is

  abbrev pub trap_reasons : List String
  trap_reasons = "invalid_machine_state" ∷ "invalid_machine_tag" ∷ "invalid_machine_depth" ∷ []

  unfoldable pub check_terminator : Body → LirTerminator → Check
  check_terminator s t =
      if str_eq t.op "return"
      then reject (not (type_eq f.result void) && not (type_eq (known_type s t.value) f.result))
          "LIR_BAD_RETURN"
      else if str_eq t.op "jump"
      then reject (not (in_range t.on_true (length f.blocks))) "LIR_BAD_TARGET"
      else if str_eq t.op "branch"
      then reject
          (not (type_eq (known_type s t.value) bool)
            || not (in_range t.on_true (length f.blocks))
            || not (in_range t.on_false (length f.blocks)))
          "LIR_BAD_BRANCH"
      else if str_eq t.op "trap"
      then reject
          ((not (is_some f.machine) || not (str_eq t.reason "invalid_machine_state"))
            && (elim f.activation [ none ↦ true | some a ↦ not (str_eq a.role "step") ]
                || not (one_of t.reason trap_reasons)))
          "LIR_BAD_TRAP"
      else err "LIR_MISSING_TERMINATOR"

  unfoldable pub check_block : Entries LirType → List ℤ → ℕ → LirBlock → Result Body
  check_block params all bi b = do
    reject (not (b.id ==ℤ pos bi)) "LIR_BLOCK_ORDER"
    known ← entry_values f bi params
    s ← check_instructions (record { known = known; guards = []; all = all }) b.instructions
    check_terminator s b.term
    ok s

  -- `all` passes from block to block.
  unfoldable pub check_blocks : Entries LirType → List ℤ → ℕ → List LirBlock → Check
  check_blocks params all bi [] = ok tt
  check_blocks params all bi (b ∷ bs) = do
    s ← check_block params all bi b
    check_blocks params s.all (suc bi) bs

  unfoldable pub verify_body : Check
  verify_body = do
    known_facts env f.facts
    reject (str_eq f.identity "" || length f.blocks == 0) "LIR_INVALID_FUNCTION"
    declared ← declare_params f.params [] []
    declare_slots env declared.0 [] f.slots
    check_blocks declared.0 declared.1 0 f.blocks
