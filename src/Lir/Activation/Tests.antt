-- ===== src/Lir/Activation/Tests.antt =====
-- The theorems of Activation at a graph of one machine with one field.
use concept.Base.{
  none, true, false, [], ◌∷◌, ok, refl, String, pos, ◌+ℤ◌, ◌-ℤ◌, ◌≡◌, ◌≤◌, minus_one,
}
use concept.Lir.Types.{i32, u32}
use concept.Layout.Geometry.{
  Env, Ty, named, type_geometry_within, type_geometry, within, resolved_geometry, named_geometry,
  scalar_geometry, recall, declared_geometry, struct_geometry, value_type, array,
}
use concept.Layout.Fields.{struct_field_offsets, field_offsets, place}
use concept.Layout.Align.{align_up}
use concept.Lir.Activation.{
  scan_machines, activation_machine_frame, plan_slots, SlotPlan, MirMachine, MirAutomata,
  check_targets, activation_scalar_type, ActivationMachineLayout,
}
use concept.Lir.Activation.Slots.{EachFits, TagsApart, plan_slots-EachFits}

abbrev plain_type : String → Ty
plain_type = named (record { ownership = ""; pointer_to = false; dyn = false })

abbrev spelled : Ty → String
spelled (named h n) = n
spelled (array h e n shape k) = ""

abbrev env : Env
env = record {
  resolve = λ t. ok t;
  spelling = spelled;
  is_handle = λ t. false;
  enums = λ n. none;
  structs = λ n. none;
}

abbrev counter : MirMachine
counter = record {
  name = "Counter";
  runtime_ordinal = pos 0;
  reachable = true;
  fields = record { name = "n"; typ = plain_type "int" } ∷ [];
  states = record { name = "Start"; runtime_ordinal = pos 0; pushed = "Counter" ∷ [] } ∷ [];
}

abbrev graph : MirAutomata
graph = record {
  graph_identity = "g";
  root_machine = "Counter";
  has_machine_stack = true;
  has_state_environment = true;
  capacity = pos 8;
  storage = "InlineBoundedSpecializedFrames";
  machines = counter ∷ [];
}

abbrev frame : ActivationMachineLayout
frame = record {
  tag = 0;
  identity = "g:Counter";
  name = "Counter";
  size = pos 8;
  alignment = 4;
  fields =
      record {
        id = pos 0;
        name = "current_state";
        typ = u32;
        offset = pos 0;
        size = pos 4;
        alignment = pos 4;
      }
      ∷ record {
        id = pos 1;
        name = "machine.n";
        typ = i32;
        offset = pos 4;
        size = pos 4;
        alignment = pos 4;
      }
      ∷ [];
  states = record { id = pos 0; name = "Start"; block = minus_one } ∷ [];
}

abbrev plan : SlotPlan
plan = record {
  machines = frame ∷ [];
  root_tag = 0;
  max_frame_size = pos 8;
  max_frame_align = 4;
  slot_align = 4;
  slot_data_offset = pos 4;
  slot_size = pos 12;
}

graph_planned : plan_slots env graph ≡ ok plan
unfolding plan_slots scan_machines activation_machine_frame activation_scalar_type check_targets
    struct_field_offsets field_offsets place align_up type_geometry type_geometry_within within
    resolved_geometry named_geometry scalar_geometry recall declared_geometry struct_geometry
    value_type ◌+ℤ◌ ◌-ℤ◌
graph_planned = refl

plan_slots-EachFits_example :
    EachFits plan.machines (pos 8) 4 × TagsApart plan.machines [] × (1 ≤ 4)
plan_slots-EachFits_example = plan_slots-EachFits env graph plan graph_planned
