-- ===== src/Lir/Aggregate/Tests.antt =====
-- The theorems of Lir.Aggregate at a record of two numbers and a record that holds one of those.
use concept.Base.{
  ℤ, pos, List, [], ◌∷◌, Bool, false, Option, none, some, minus_one, ok, ◌≡◌, refl, String, ◌+ℤ◌,
  ◌-ℤ◌,
}
use concept.Lir.Types.{
  LirType, i32, bool, named, ptr, type_eq, lir_width, lir_call_scalar, lir_integer,
}
use concept.Lir.Function.{
  LirAggregateField, LirAggregateLayout, LirInstruction, LirBlock, LirFunction, LirTaggedEnum,
}
use concept.Lir.Frame.{has_remainder}
use concept.Lir.Borrow.{no_type}
use concept.Lir.Body.{lir_array_value, Env}
use concept.Lir.Aggregate.{
  Layouts, find_layout, find_alias, array_geometry, scalar_geometry, geometry_from,
  lir_aggregate_geometry, depth_of, unwrap_arrays, bad_aggregate_field, geometry_or, field_geometry,
  is_geometry, check_aggregate_array, verify_aggregate_fields, is_stored, bad_aggregate_layout,
  lir_aggregate_identity, stale_aggregate_layout, verify_aggregate_layout, verify_each_layout,
  verify_lir_aggregate_layouts,
}
use concept.Lir.Aggregate.Ordered.{IsOrdered, verify_lir_aggregate_layouts-IsOrdered}
use concept.Lir.Aggregate.Stored.{verify_lir_aggregate_layouts-find_layout}

abbrev field : String → LirType → ℤ → ℤ → ℤ → LirAggregateField
field n t o s a = record {
  name = n;
  typ = t;
  type_identity = n;
  offset = o;
  size = s;
  alignment = a;
  readonly = false;
  declaration_identity = n;
  element_type = no_type;
  extent = pos 0;
  stride = pos 0;
  element_alignment = pos 0;
}

abbrev layout : String → LirType → ℤ → List LirAggregateField → LirAggregateLayout
layout n t s fs = record {
  typ = t;
  identity = n;
  name = n;
  kind = "record";
  representation = "native";
  size = s;
  alignment = pos 4;
  fields = fs;
  copy_eligibility = "checked_value";
}

abbrev by_name : LirAggregateLayout → String
by_name l = l.name

abbrev point : LirAggregateLayout
point =
    layout "Point" (named "aggregate:Point") (pos 8)
      (field "x" i32 (pos 0) (pos 4) (pos 4) ∷ field "y" i32 (pos 4) (pos 4) (pos 4) ∷ [])

abbrev inner : LirAggregateField
inner = field "at" (named "aggregate:Point") (pos 4) (pos 8) (pos 4)

abbrev marked : LirAggregateLayout
marked =
    layout "Marked" (named "aggregate:Marked") (pos 12)
      (field "mark" bool (pos 0) (pos 1) (pos 1) ∷ inner ∷ [])

abbrev both : Layouts
both = point ∷ marked ∷ []

both_ok : verify_lir_aggregate_layouts by_name both [] ≡ ok (marked ∷ point ∷ [])
unfolding verify_lir_aggregate_layouts verify_each_layout verify_aggregate_layout
    stale_aggregate_layout lir_aggregate_identity bad_aggregate_layout is_stored
    verify_aggregate_fields check_aggregate_array is_geometry field_geometry geometry_or
    bad_aggregate_field unwrap_arrays depth_of lir_aggregate_geometry geometry_from scalar_geometry
    array_geometry find_alias find_layout type_eq has_remainder lir_array_value lir_width
    lir_call_scalar lir_integer ◌+ℤ◌ ◌-ℤ◌
both_ok = refl

verify_lir_aggregate_layouts-IsOrdered_example : IsOrdered marked
verify_lir_aggregate_layouts-IsOrdered_example =
    verify_lir_aggregate_layouts-IsOrdered by_name [] both (marked ∷ point ∷ []) marked both_ok
      (1, refl)

verify_lir_aggregate_layouts-find_layout_example :
    (find_layout marked.typ (marked ∷ point ∷ []) ≡ some marked)
    × (field_geometry [] (marked ∷ point ∷ []) inner.typ ≡ ok (pos 8, pos 4))
verify_lir_aggregate_layouts-find_layout_example =
    verify_lir_aggregate_layouts-find_layout by_name [] both (marked ∷ point ∷ []) marked inner
      both_ok (1, refl) (1, refl)

-- The address of the point in a marked one.
abbrev address : LirInstruction
address = record {
  scope = pos 0;
  op = "field_address";
  result = pos 1;
  typ = ptr point.typ;
  args = pos 0 ∷ [];
  callee = "";
  call_target = "";
  call_abi = "";
  arg_types = [];
  slot = minus_one;
  literal = "";
  extent = pos 0;
  stride = pos 0;
  frame_field = minus_one;
  frame_offset = pos 4;
  aggregate = marked.typ;
  member = pos 1;
  members = [];
  source = record { line = pos 1; column = pos 1 };
  facts = [];
}

abbrev block : LirBlock
block = record {
  id = pos 0;
  label = "";
  instructions = address ∷ [];
  term = record { op = "return"; value = pos 1; on_true = pos 0; on_false = pos 0; reason = "" };
}

abbrev point_of : LirFunction
point_of = record {
  identity = "point_of";
  name = "point_of";
  params = record { id = pos 0; typ = ptr marked.typ } ∷ [];
  result = ptr point.typ;
  slots = [];
  blocks = block ∷ [];
  facts = [];
  has_patterns = false;
  machine = none;
  activation = none;
  borrow = none;
}

abbrev no_facts : String → Bool
no_facts s = false

abbrev no_functions : String → Option LirFunction
no_functions s = none

abbrev no_tagged : LirType → Option LirTaggedEnum
no_tagged t = none

abbrev env : Env
env = record {
  facts = no_facts;
  functions = no_functions;
  layouts = λ t. find_layout t (marked ∷ point ∷ []);
  tagged = no_tagged;
  enums = [];
}
