-- ===== src/Lir/Effects.antt =====
-- What the Init and Step functions of a state machine do to its frame: `verifyLIRMachineEffects`,
-- lines 696 to 780 of internal/concept/lir.go. A Go map that a loop fills is a list of entries, the
-- latest first, and a missing text reads as "". A field number is one that the check of the body
-- has found in range. An error is its code word.
pub mod Writes
pub mod Blocks
pub mod Init
pub mod Resume
mod Tests
use text.Mathlib.Text.{starts_with}
use concept.Base.{
  ℕ, suc, ◌+◌, ℤ, pos, negsuc, List, [], ◌∷◌, Bool, true, false, ◌&&◌, ◌||◌, not, Option, none,
  some, if◌then◌else◌, ◌==◌, ◌==ℤ◌, any, length, in_range, str_eq, String, Check, Result, ok, err,
  reject, ◌>>◌, ◌>>=◌,
}
use concept.Base.Bits.{set, replicate}
use concept.Machine.Immediate.{codes, parse_int}
use concept.Lir.Frame.{LirMachineField, LirMachineState, LirMachineFunction}
use concept.Lir.Function.{LirInstruction, LirTerminator, LirBlock, LirFunction}
use concept.Lir.Borrow.{Entries, find}
use concept.Lir.Body.{LirOp, frame_field_address, const, machine_result, store, op_of}
use concept.Lir.Body.Blocks.{has_value}

-- The maps of one block, and `initialized`.
pub record Effects : Type 0 where
  pub addresses : Entries ℤ
  pub constants : Entries String
  pub stored : Entries String
  pub results : Entries String
  pub initialized : List Bool

abbrev pub text_of : Option String → String
text_of none = ""
text_of (some s) = s

-- `initialized[field] = true`
abbrev pub mark_field : List Bool → ℤ → List Bool
mark_field xs (pos k) = set xs k true
mark_field xs (negsuc k) = xs

-- The text is no number of a state; `strconv.Atoi` is `ParseInt` at 64 bits.
unfoldable pub bad_state : List LirMachineState → String → Bool
bad_state states c =
    not (str_eq c "")
    && elim (parse_int (codes c) 64) [ none ↦ true | some n ↦ not (in_range n (length states)) ]

unfoldable pub store_field : List LirMachineState → Effects → ℤ → String → Result Effects
store_field states e field c = do
  reject (field ==ℤ pos 0 && bad_state states c) "LIR_BAD_MACHINE_STATE_STORE"
  ok (record e { stored = (field, c) ∷ e.stored; initialized = mark_field e.initialized field })

unfoldable pub store_to : List LirMachineState → Effects → ℤ → Option ℤ → Result Effects
store_to states e v none = ok e
store_to states e v (some field) = store_field states e field (text_of (find v e.constants))

unfoldable pub store_effect : List LirMachineState → Effects → List ℤ → Result Effects
store_effect states e (a ∷ v ∷ []) = store_to states e v (find a e.addresses)
store_effect states e _ = ok e

unfoldable pub effect_of : List LirMachineState → LirOp → Effects → LirInstruction → Result Effects
effect_of states frame_field_address e i =
    ok (record e { addresses = (i.result, i.frame_field) ∷ e.addresses })
effect_of states const e i = ok (record e { constants = (i.result, i.literal) ∷ e.constants })
effect_of states machine_result e i = ok (record e { results = (i.result, i.literal) ∷ e.results })
effect_of states store e i = store_effect states e i.args
effect_of states _ e i = ok e

unfoldable pub block_effects : List LirMachineState → Effects → List LirInstruction → Result Effects
block_effects states e [] = ok e
block_effects states e (i ∷ is) = do
  t ← effect_of states (op_of i.op) e i
  block_effects states t is

-- `already-completed` only returns `Completed`.
abbrev pub only_completes : List LirInstruction → Bool
only_completes (i ∷ []) = str_eq i.op "machine_result" && str_eq i.literal "Completed"
only_completes _ = false

abbrev pub already_completed : LirBlock → Bool
already_completed b = str_eq b.label "already-completed"

abbrev pub stored_in : Effects → ℤ → String
stored_in e field = text_of (find field e.stored)

-- `tag`
abbrev pub returned : LirBlock → Effects → String
returned b e = text_of (find b.term.value e.results)

unfoldable pub check_return : LirBlock → Effects → Check
check_return b e = do
  reject (str_eq (returned b e) "") "LIR_BAD_MACHINE_RETURN"
  reject
      ((str_eq (returned b e) "Yielded" || str_eq (returned b e) "Active")
        && str_eq (stored_in e (pos 0)) "")
      "LIR_MISSING_MACHINE_RESUME_STATE"
  reject
      (str_eq (returned b e) "Completed"
        && not (already_completed b)
        && not (str_eq (stored_in e (pos 1)) "true"))
      "LIR_MISSING_MACHINE_COMPLETION"

unfoldable pub check_step_block : LirBlock → Effects → Check
check_step_block b e = do
  reject
      (already_completed b
        && (not (b.id ==ℤ pos 1)
            || not (only_completes b.instructions)
            || not (str_eq b.term.op "return")))
      "LIR_BAD_MACHINE_COMPLETED_PATH"
  (if str_eq b.term.op "return" then check_return b e else ok tt)

-- What the loop over the blocks keeps.
pub record Flow : Type 0 where
  pub initialized : List Bool
  pub init_state : String
  pub init_completed : String
  pub state_targets : List ℤ
  pub invalid_trap : Bool

abbrev pub is_dispatch : LirBlock → Bool
is_dispatch b = str_eq b.term.op "branch" && starts_with b.label "dispatch."

abbrev pub is_invalid_trap : LirBlock → Bool
is_invalid_trap b = str_eq b.term.op "trap" && str_eq b.term.reason "invalid_machine_state"

abbrev pub has_role : LirMachineFunction → String → Bool
has_role m r = str_eq m.role r

unfoldable pub next_flow : LirMachineFunction → LirBlock → Flow → Effects → Flow
next_flow m b s e = record {
  initialized = e.initialized;
  init_state = if has_role m "init" then stored_in e (pos 0) else s.init_state;
  init_completed = if has_role m "init" then stored_in e (pos 1) else s.init_completed;
  state_targets =
      if has_role m "step" && is_dispatch b
      then b.term.on_true ∷ s.state_targets
      else s.state_targets;
  invalid_trap = s.invalid_trap || (has_role m "step" && is_invalid_trap b);
}

abbrev pub empty_effects : List Bool → Effects
empty_effects bits = record {
  addresses = [];
  constants = [];
  stored = [];
  results = [];
  initialized = bits;
}

unfoldable pub check_block_effects : LirMachineFunction → Flow → LirBlock → Result Flow
check_block_effects m s b = do
  e ← block_effects m.states (empty_effects s.initialized) b.instructions
  (if has_role m "step" then check_step_block b e else ok tt)
  ok (next_flow m b s e)

unfoldable pub all_effects : LirMachineFunction → Flow → List LirBlock → Result Flow
all_effects m s [] = ok s
all_effects m s (b ∷ bs) = do t ← check_block_effects m s b; all_effects m t bs

unfoldable pub all_initialized : List Bool → Check
all_initialized [] = ok tt
all_initialized (true ∷ bits) = all_initialized bits
all_initialized (false ∷ bits) = err "LIR_MISSING_MACHINE_INIT"

unfoldable pub all_dispatched : List ℤ → List LirMachineState → Check
all_dispatched targets [] = ok tt
all_dispatched targets (s ∷ ss) = do
  reject (not (has_value targets s.block)) "LIR_MISSING_MACHINE_DISPATCH"
  all_dispatched targets ss

unfoldable pub check_flow : LirMachineFunction → Flow → Check
check_flow m s =
    if has_role m "init"
    then (do
      all_initialized s.initialized
      reject (not (str_eq s.init_state "0") || not (str_eq s.init_completed "false"))
          "LIR_BAD_MACHINE_INITIAL_STATE")
    else (do
      all_dispatched s.state_targets m.states
      reject (not s.invalid_trap) "LIR_MISSING_MACHINE_INVALID_STATE")

abbrev pub start_flow : LirMachineFunction → Flow
start_flow m = record {
  initialized = replicate (length m.fields) false;
  init_state = "";
  init_completed = "";
  state_targets = [];
  invalid_trap = false;
}

unfoldable pub machine_effects : List LirBlock → Option LirMachineFunction → Check
machine_effects blocks none = ok tt
machine_effects blocks (some m) = do s ← all_effects m (start_flow m) blocks; check_flow m s

unfoldable pub verify_lir_machine_effects : LirFunction → Check
verify_lir_machine_effects f = machine_effects f.blocks f.machine
