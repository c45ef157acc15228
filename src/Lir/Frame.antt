-- ===== src/Lir/Frame.antt =====
-- The caller-owned frame of a state machine: `verifyLIRMachineFunction`, lines 656 to 692 of
-- internal/concept/lir.go, and the records it reads. A function keeps the fields that the check
-- reads: the type of a frame pointer is given by the frame's identity.
pub mod Fields
use Prim.Native.String.{◌++◌ as str_append}
use concept.Lir.Types.{LirType, lir_width, type_eq, u32, bool, void, machine_step_result}
use concept.Base.{
  String, Option, ℕ, ℤ, List, Check, reject, Bool, ◌+ℤ◌, ok, ◌∷◌, not, false, leb_ℤ, if◌then◌else◌,
  str_eq, ◌==ℤ◌, pos, ltb_ℤ, pos_part, some, ◌||◌, ◌+◌, ◌-ℤ◌, ◌&&◌, neg_part, get_at?, negsuc, ◌%◌,
  minus_one, ◌==◌, none, ◌>>◌, ltb, suc, length, for_each, [],
}

pub record LirMachineField : Type 0 where
  pub id : ℤ
  pub name : String
  pub typ : LirType
  pub offset : ℤ
  pub size : ℤ
  pub alignment : ℤ

pub record LirMachineState : Type 0 where
  pub id : ℤ
  pub name : String
  pub block : ℤ

pub record LirMachineFunction : Type 0 where
  pub identity : String
  pub role : String
  pub size : ℤ
  pub alignment : ℤ
  pub fields : List LirMachineField
  pub states : List LirMachineState

pub record LirBlock : Type 0 where
  pub label : String
  pub term_op : String

pub record LirFunction : Type 0 where
  -- The identity of the frame that the first parameter points to, if it points to one.
  pub first_param_frame : Option String
  pub result : LirType
  pub blocks : List LirBlock
  pub machine : Option LirMachineFunction

-- The sum of two `int`s, as an `int`.
unfoldable pub add_int : ℤ → ℤ → ℤ
add_int a b =
    let s = a +ℤ b in
    if ltb_ℤ (pos 9223372036854775807) s
    then s -ℤ pos 18446744073709551616
    else if ltb_ℤ s (negsuc 9223372036854775807)
    then s +ℤ pos 18446744073709551616
    else s

-- `a % n != 0` for a positive n
unfoldable pub has_remainder : ℤ → ℤ → Bool
has_remainder a n = not ((pos_part a + neg_part a) % pos_part n == 0)

-- `x <= 0`
abbrev pub not_positive : ℤ → Bool
not_positive x = leb_ℤ x (pos 0)

unfoldable pub bad_field : ℕ → ℤ → ℤ → LirMachineField → Bool
bad_field i end size f =
    not (f.id ==ℤ pos i)
    || str_eq f.name ""
    || not_positive f.size
    || not_positive f.alignment
    || (ltb_ℤ f.offset end
        || (has_remainder f.offset f.alignment
            || (ltb_ℤ size (add_int f.offset f.size)
                || not (type_eq f.typ bool) && not (pos (lir_width f.typ) ==ℤ f.size))))

-- The loop over the fields; `end` is where the field before ends.
unfoldable pub verify_fields : ℕ → ℤ → ℤ → List LirMachineField → Check
verify_fields i end size [] = ok tt
verify_fields i end size (f ∷ fs) = do
  reject (bad_field i end size f) "LIR_BAD_MACHINE_FIELD"
  verify_fields (suc i) (add_int f.offset f.size) size fs

-- The first two fields hold the state and the completion flag.
unfoldable pub status_fields : List LirMachineField → Bool
status_fields (f ∷ g ∷ fs) =
    str_eq f.name "current_state"
    && type_eq f.typ u32
    && f.offset ==ℤ pos 0
    && str_eq g.name "completed"
    && type_eq g.typ bool
status_fields _ = false

abbrev pub label_is : Option LirBlock → String → Bool
label_is none l = false
label_is (some b) l = str_eq b.label l

unfoldable pub verify_state : LirFunction → String → ℕ → LirMachineState → Check
verify_state f role i s =
    reject
      (not (s.id ==ℤ pos i)
        || str_eq s.name ""
        || (str_eq role "step"
              && not (label_is (get_at? f.blocks s.block) (str_append "state." s.name))
            || str_eq role "init" && not (s.block ==ℤ minus_one)))
      "LIR_BAD_MACHINE_STATE"

abbrev pub one_return : List LirBlock → Bool
one_return (b ∷ []) = str_eq b.term_op "return"
one_return _ = false

abbrev pub points_to : Option String → String → Bool
points_to none identity = false
points_to (some i) identity = str_eq i identity

unfoldable pub verify_lir_machine : LirFunction → LirMachineFunction → Check
verify_lir_machine f m = do
  reject
      (str_eq m.identity ""
        || not (str_eq m.role "init") && not (str_eq m.role "step")
        || not (points_to f.first_param_frame m.identity)
        || not_positive m.size
        || not_positive m.alignment
        || ltb (length m.fields) 2)
      "LIR_BAD_MACHINE_FRAME"
  reject
      (str_eq m.role "init" && not (type_eq f.result void)
        || str_eq m.role "step" && not (type_eq f.result machine_step_result))
      "LIR_BAD_MACHINE_RESULT_TYPE"
  reject (str_eq m.role "init" && not (one_return f.blocks)) "LIR_BAD_MACHINE_INIT_CFG"
  verify_fields 0 (pos 0) m.size m.fields
  reject (not (status_fields m.fields)) "LIR_BAD_MACHINE_STATUS"
  reject (has_remainder m.size m.alignment) "LIR_BAD_MACHINE_FRAME"
  reject (length m.states == 0) "LIR_MISSING_MACHINE_STATES"
  for_each (verify_state f m.role) 0 m.states

unfoldable pub verify_optional_machine : LirFunction → Option LirMachineFunction → Check
verify_optional_machine f none = ok tt
verify_optional_machine f (some m) = verify_lir_machine f m

unfoldable pub verify_lir_machine_function : LirFunction → Check
verify_lir_machine_function f = verify_optional_machine f f.machine
