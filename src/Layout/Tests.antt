-- ===== src/Layout/Tests.antt =====
-- The theorems of Layout at a struct of a byte and an int, and a layout of two regions.
use concept.Layout.Geometry.{
  Env, Ty, type_geometry, GeometryQuery, recall, declared_geometry, struct_geometry, named, array,
  type_geometry_within, value_type, new_query, within, resolved_geometry, named_geometry,
  scalar_geometry,
}
use concept.Layout.Regions.Apart.{Separate, analyze_layout-Separate}
use concept.Layout.Regions.{
  LayoutDecl, analyze_layout, place_regions, place_region, LayoutRegion, effective_alignment,
  misaligned, overlaps, end_of,
}
use concept.Base.{
  Result, ◌≡◌, String, ok, List, [], ◌∷◌, ℤ, pos, false, arith, none, if◌then◌else◌, str_eq, some,
  ◌-ℤ◌, ◌+ℤ◌, refl, Option,
}
use concept.Layout.Fields.{struct_field_offsets, Laid, Geometry, field_offsets, place}
use concept.Layout.Geometry.Good.{Good}
use concept.Layout.Fields.Placement.{LaidOut, struct_field_offsets-LaidOut}
use concept.Layout.Geometry.Measured.{GoodQuery, type_geometry-Good, type_geometry_within-Good}
use concept.Layout.Align.{align_up}
use concept.Layout.Streams.{
  analyze_stream, StreamChannel, StreamDecl, resolve_channels, resolve_channel, mapped_region,
  layout_region,
}
use concept.Layout.Streams.Channels.{analyze_stream-lookup}

abbrev plain_type : String → Ty
plain_type = named (record { ownership = ""; pointer_to = false; dyn = false })

abbrev pair_fields : List Ty
pair_fields = plain_type "byte" ∷ plain_type "int" ∷ []

-- One struct, types that are resolved already.
abbrev pair_env : Env
pair_env = record {
  resolve = λ t. ok t;
  spelling = λ t. elim t [ named h n ↦ n | array h (e → r) n s k ↦ "array" ];
  is_handle = λ t. false;
  enums = λ n. none;
  structs = λ n. if str_eq n "Pair" then some pair_fields else none;
}

abbrev field_geometry : Ty → GeometryQuery → Result (Geometry × GeometryQuery)
field_geometry t = type_geometry_within 31 pair_env (value_type t)

abbrev pair_laid : Laid GeometryQuery
pair_laid = record {
  offsets = pos 0 ∷ pos 4 ∷ [];
  end = pos 8;
  alignment = 4;
  query = record { visiting = []; known = ("int", (4, 4)) ∷ ("byte", (1, 1)) ∷ []; accesses = 2 };
}

pair_laid_ok : struct_field_offsets field_geometry pair_fields new_query ≡ ok pair_laid
unfolding struct_field_offsets field_offsets place align_up type_geometry_within within recall
    resolved_geometry named_geometry scalar_geometry value_type ◌-ℤ◌ ◌+ℤ◌
pair_laid_ok = refl

struct_field_offsets-LaidOut_example :
    LaidOut field_geometry GoodQuery pair_fields new_query pair_laid
unfolding recall
struct_field_offsets-LaidOut_example =
    struct_field_offsets-LaidOut field_geometry GoodQuery
      (λ t q r g e.
        let (a, b) = type_geometry_within-Good 31 pair_env (value_type t) q r g e in
        (a.alignment_pos, b))
      pair_fields new_query pair_laid (λ key g e. cc) pair_laid_ok

pair_ok : type_geometry pair_env (plain_type "Pair") ≡ ok (8, 4)
unfolding type_geometry pair_laid_ok declared_geometry struct_geometry
pair_ok = refl

type_geometry-Good_example : Good (8, 4)
type_geometry-Good_example = type_geometry-Good pair_env (plain_type "Pair") (8, 4) pair_ok

abbrev region : String → String → ℤ → LayoutRegion
region n t a = record {
  id = "";
  name = n;
  typ = plain_type t;
  requested_align = a;
  explicit_offset = none;
  offset = pos 0;
  byte_extent = 0;
  alignment = 0;
}

abbrev device : LayoutDecl
device = record {
  name = "Device";
  regions = region "status" "byte" (pos 0) ∷ region "pair" "Pair" (pos 16) ∷ [];
  size = pos 0;
  alignment = 0;
}

abbrev device_placed : LayoutDecl
device_placed = record {
  name = "Device";
  regions =
      record (region "status" "byte" (pos 0)) {
        id = "Device.status";
        byte_extent = 1;
        alignment = 1;
      }
      ∷ record (region "pair" "Pair" (pos 16)) {
        id = "Device.pair";
        offset = pos 16;
        byte_extent = 8;
        alignment = 16;
      }
      ∷ [];
  size = pos 32;
  alignment = 16;
}

device_ok : analyze_layout pair_env device ≡ ok device_placed
unfolding analyze_layout place_regions place_region effective_alignment misaligned overlaps end_of
    pair_ok
device_ok = refl

analyze_layout-Separate_example : Separate pair_env [] device_placed.regions
analyze_layout-Separate_example =
    analyze_layout-Separate pair_env device device_placed device_ok (omega arith, (omega arith, tt))

abbrev state_channel : StreamChannel
state_channel = record { name = "state"; region_name = "status"; region_id = ""; typ = none }

abbrev state_resolved : StreamChannel
state_resolved = record state_channel {
  region_id = "Device.status";
  typ = some (plain_type "byte");
}

abbrev states : StreamDecl
states = record { name = "States"; layout_name = "Device"; channels = state_channel ∷ [] }

abbrev states_resolved : StreamDecl
states_resolved = record states { channels = state_resolved ∷ [] }

abbrev the_layouts : String → Option LayoutDecl
the_layouts n = if str_eq n "Device" then some device_placed else none

abbrev the_streams : String → Option StreamDecl
the_streams n = if str_eq n "States" then some states_resolved else none

analyze_stream-lookup_example :
    (r : LayoutRegion) × (layout_region the_streams the_layouts "States" "state" ≡ some r)
    × (state_resolved.region_id ≡ r.id)
    × (state_resolved.typ ≡ some r.typ)
unfolding analyze_stream resolve_channels resolve_channel mapped_region
analyze_stream-lookup_example =
    analyze_stream-lookup pair_env the_layouts the_streams device device_placed states
      states_resolved 0 state_resolved device_ok refl refl refl refl
