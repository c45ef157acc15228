-- ===== src/Lir/Activation.antt =====
-- The storage plan of an automata graph: `planActivationStack`, `activationMachineFrame` and
-- `activationScalarType` of internal/concept/lir_activation_layout.go, up to the slots of the stack.
-- The shared fields and the offsets after them are not modelled. A state keeps the machines that its
-- controls of kind push_machine name.
pub mod Slots
mod Tests
use Prim.Native.String.{◌++◌ as str_append}
use concept.Base.{
  none, some, true, false, [], ◌∷◌, ok, err, any, ℤ, String, ℕ, List, Result, if◌then◌else◌, pos,
  pos_part, Bool, Check, Option, ◌%◌, reject, ◌+ℤ◌, ltb, ltb_ℤ, str_eq, ◌&&◌, not, ◌>>◌, ◌==ℤ◌,
  is_neg, ◌||◌, ◌==◌, ◌>>=◌, suc, map, or_fail, minus_one,
}
use concept.Lir.Types.{LirType, i32, u32, bool}
use concept.Lir.Frame.{LirMachineField, LirMachineState}
use concept.Layout.Geometry.{
  value_type, Env, Ty, named, array, GeometryQuery, new_query, type_geometry_within, type_geometry,
  is_borrow_like, is_owned,
}
use concept.Layout.Fields.{struct_field_offsets, Laid, Geometry}
use concept.Layout.Align.{align_up}

pub record MirField : Type 0 where
  pub name : String
  pub typ : Ty

pub record MirState : Type 0 where
  pub name : String
  pub runtime_ordinal : ℤ
  pub pushed : List String

pub record MirMachine : Type 0 where
  pub name : String
  pub runtime_ordinal : ℤ
  pub reachable : Bool
  pub fields : List MirField
  pub states : List MirState

pub record MirAutomata : Type 0 where
  pub graph_identity : String
  pub root_machine : String
  pub has_machine_stack : Bool
  pub has_state_environment : Bool
  pub capacity : ℤ
  pub storage : String
  pub machines : List MirMachine

pub record ActivationMachineLayout : Type 0 where
  pub tag : ℕ
  pub identity : String
  pub name : String
  pub size : ℤ
  pub alignment : ℕ
  pub fields : List LirMachineField
  pub states : List LirMachineState

-- The types that are allowed, as `lirType` gives them.
abbrev pub scalar_named : String → Result LirType
scalar_named n =
    if str_eq n "int"
    then ok i32
    else if str_eq n "uint"
    then ok u32
    else if str_eq n "bool"
    then ok bool
    else err "EVT2_UNSUPPORTED_ACTIVATION_FIELD_TYPE"

-- A reference is refused by `lirType`.
unfoldable pub activation_scalar_type : MirField → Result LirType
activation_scalar_type f = elim f.typ [
  | named h n ↦
      if is_owned h
      then err "EVT2_UNSUPPORTED_ACTIVATION_FIELD_TYPE"
      else scalar_named n >>= λ t.
          if is_borrow_like h then err "EVT2_UNSUPPORTED_OBJECT_AUTHORITY" else ok t
  | array h e n shape k ↦ err "EVT2_UNSUPPORTED_ACTIVATION_FIELD_TYPE"
]

-- A field of the frame and its type.
abbrev pub FrameField : Type 0
FrameField = MirField × LirType

abbrev pub current_state : FrameField
current_state = (
  record {
    name = "current_state";
    typ = named (record { ownership = ""; pointer_to = false; dyn = false }) "uint32";
  },
  u32,
)

abbrev pub scalar_fields : List MirField → Result (List FrameField)
scalar_fields [] = ok []
scalar_fields (f ∷ fs) = do
  t ← activation_scalar_type f
  rest ← scalar_fields fs
  ok ((record f { name = str_append "machine." f.name }, t) ∷ rest)

abbrev pub frame_fields : Env → ℕ → List FrameField → List ℤ → Result (List LirMachineField)
frame_fields env i (f ∷ fs) (offset ∷ offsets) = do
  g ← type_geometry env f.0.typ
  rest ← frame_fields env (suc i) fs offsets
  ok (
      record {
        id = pos i;
        name = f.0.name;
        typ = f.1;
        offset = offset;
        size = pos g.0;
        alignment = pos g.1;
      }
      ∷ rest)
frame_fields env i [] offsets = ok []
frame_fields env i (f ∷ fs) [] = ok []

abbrev pub frame_states : ℕ → List MirState → Result (List LirMachineState)
frame_states i [] = ok []
frame_states i (s ∷ ss) = do
  reject (not (s.runtime_ordinal ==ℤ pos i)) "EVT2_ACTIVATION_STATE_ORDINAL"
  rest ← frame_states (suc i) ss
  ok (record { id = pos i; name = s.name; block = minus_one } ∷ rest)

-- `uint32(machine.RuntimeOrdinal)`
abbrev pub tag_of : MirMachine → ℕ
tag_of m = pos_part m.runtime_ordinal % 4294967296

unfoldable pub activation_machine_frame : Env → String → MirMachine → Result ActivationMachineLayout
activation_machine_frame env graph m = do
  scalars ← scalar_fields m.fields
  laid ←
      struct_field_offsets (λ t. type_geometry_within 32 env (value_type t))
        (map (λ f. f.0.typ) (current_state ∷ scalars)) new_query
  fields ← frame_fields env 0 (current_state ∷ scalars) laid.offsets
  states ← frame_states 0 m.states
  ok (record {
    tag = tag_of m;
    identity = str_append graph (str_append ":" m.name);
    name = m.name;
    size = laid.end;
    alignment = laid.alignment;
    fields = fields;
    states = states;
  })

-- What the loop over the machines has found.
pub record Scan : Type 0 where
  pub machines : List ActivationMachineLayout
  pub root_tag : Option ℕ
  pub max_frame_size : ℤ
  pub max_frame_align : ℕ
  pub names : List String

abbrev pub larger : ℤ → ℤ → ℤ
larger a b = if ltb_ℤ a b then b else a

abbrev pub later : ℕ → ℕ → ℕ
later a b = if ltb a b then b else a

unfoldable pub scan_machines :
    Env
    → MirAutomata
    → (tags : List ℕ) (names : List String) (root : Option ℕ) (size : ℤ) (align : ℕ)
    → List MirMachine
    → Result Scan
scan_machines env a tags names root size align [] = ok (record {
  machines = [];
  root_tag = root;
  max_frame_size = size;
  max_frame_align = align;
  names = names;
})
scan_machines env a tags names root size align (m ∷ ms) = elim m.reachable [
  | false ↦ scan_machines env a tags names root size align ms
  | true ↦ do
    reject
        (is_neg m.runtime_ordinal
          || any (λ t. t == tag_of m) tags
          || any (λ n. str_eq n m.name) names)
        "EVT2_ACTIVATION_TAG_INVALID"
    frame ← activation_machine_frame env a.graph_identity m
    rest ←
        scan_machines env a (tag_of m ∷ tags) (m.name ∷ names)
          (if str_eq m.name a.root_machine then some (tag_of m) else root) (larger size frame.size)
          (later align frame.alignment) ms
    ok (record rest { machines = frame ∷ rest.machines })
]

-- Every machine that a reachable machine pushes is reachable.
unfoldable pub check_targets : List String → List MirMachine → Check
check_targets names [] = ok tt
check_targets names (m ∷ ms) =
    reject
      (m.reachable && any (λ s. any (λ t. not (any (λ n. str_eq n t) names)) s.pushed) m.states)
      "EVT2_ACTIVATION_TARGET_MISSING"
    >> check_targets names ms

pub record SlotPlan : Type 0 where
  pub machines : List ActivationMachineLayout
  pub root_tag : ℕ
  pub max_frame_size : ℤ
  pub max_frame_align : ℕ
  pub slot_align : ℕ
  pub slot_data_offset : ℤ
  pub slot_size : ℤ

abbrev pub slots_of : ℕ → Scan → SlotPlan
slots_of root s =
    let slot_align = later 4 s.max_frame_align in
    let data_offset = align_up (pos 4) s.max_frame_align in
    record {
      machines = s.machines;
      root_tag = root;
      max_frame_size = s.max_frame_size;
      max_frame_align = s.max_frame_align;
      slot_align = slot_align;
      slot_data_offset = data_offset;
      slot_size = align_up (data_offset +ℤ s.max_frame_size) slot_align;
    }

unfoldable pub plan_slots : Env → MirAutomata → Result SlotPlan
plan_slots env a = do
  reject
      (not a.has_machine_stack
        || not a.has_state_environment
        || str_eq a.graph_identity ""
        || str_eq a.root_machine "")
      "EVT2_ACTIVATION_GRAPH_INCOMPLETE"
  reject (not (a.capacity ==ℤ pos 8) || not (str_eq a.storage "InlineBoundedSpecializedFrames"))
      "EVT2_ACTIVATION_BOUND_INVALID"
  scan ← scan_machines env a [] [] none (pos 0) 1 a.machines
  root ← or_fail scan.root_tag "EVT2_ACTIVATION_ROOT_MISSING"
  check_targets scan.names a.machines
  ok (slots_of root scan)
