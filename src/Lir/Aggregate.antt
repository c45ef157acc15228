-- ===== src/Lir/Aggregate.antt =====
-- The layouts of the aggregates of a module: `verifyLIRAggregateLayouts` and `lirAggregateGeometry`,
-- lines 203 to 295 of internal/concept/lir_aggregate.go. The digest of a layout, which is of its JSON
-- text and made by packages of Go, is an argument. A Go map from types is a list, the latest entry
-- first. An error is its code word.
pub mod Ordered
pub mod Geometry
pub mod Stored
pub mod Addresses
mod Tests
use Prim.Native.String.{◌++◌ as str_append}
use concept.Base.{
  ℕ, zero, suc, ◌+◌, ◌/◌, ℤ, pos, pos_part, ◌+ℤ◌, ◌-ℤ◌, ◌*ℤ◌, List, [], ◌∷◌, Bool, true, false,
  ◌&&◌, ◌||◌, not, Option, none, some, if◌then◌else◌, ◌==◌, ◌==ℤ◌, ltb, leb_ℤ, ltb_ℤ, length, any,
  str_eq, String, Check, Result, ok, err, reject, ◌>>◌, ◌>>=◌,
}
use concept.Lir.Types.{LirType, bool, named, array, type_eq, lir_call_scalar, lir_width}
use concept.Lir.Function.{LirAggregateField, LirAggregateLayout, LirEnum}
use concept.Lir.Frame.{has_remainder, not_positive}
use concept.Machine.Parts.{not_power_of_two}
use concept.Lir.Borrow.{no_type}
use concept.Lir.Body.{lir_array_value}

abbrev pub Layouts : Type 0
Layouts = List LirAggregateLayout

-- `layouts[t]`: a layout is stored under its own type.
unfoldable pub find_layout : LirType → Layouts → Option LirAggregateLayout
find_layout t [] = none
find_layout t (l ∷ ls) = if type_eq l.typ t then some l else find_layout t ls

-- `aliases[t]`: the last domain of the type.
unfoldable pub find_alias : LirType → Option LirEnum → List LirEnum → Option LirEnum
find_alias t found [] = found
find_alias t found (e ∷ es) = find_alias t (if type_eq e.typ t then some e else found) es

-- The maximal nesting, number of elements, and size.
abbrev pub lir_aggregate_max_depth : ℕ
lir_aggregate_max_depth = 16

abbrev pub lir_aggregate_max_elements : ℕ
lir_aggregate_max_elements = 256

abbrev pub lir_aggregate_max_size : ℕ
lir_aggregate_max_size = 1048576

abbrev pub lir_aggregate_max_fields : ℕ
lir_aggregate_max_fields = 64

abbrev pub lir_aggregate_max_layouts : ℕ
lir_aggregate_max_layouts = 128

-- The geometry of an array of n elements; the quotient is read where n is positive.
unfoldable pub array_geometry : ℕ → Result (ℤ × ℤ) → Result (ℤ × ℤ)
array_geometry n (err e) = err "LIR_BAD_OBJECT_ARRAY"
array_geometry n (ok (size, align)) =
    if ltb lir_aggregate_max_elements n || ltb_ℤ (pos (lir_aggregate_max_size / n)) size
    then err "LIR_BAD_OBJECT_ARRAY"
    else ok (size *ℤ pos n, align)

unfoldable pub scalar_geometry : LirType → Result (ℤ × ℤ)
scalar_geometry t =
    if type_eq t bool
    then ok (pos 1, pos 1)
    else if ltb 0 (lir_width t) && lir_call_scalar t
    then ok (pos (lir_width t), pos (lir_width t))
    else err "LIR_UNKNOWN_OBJECT_TYPE"

-- The type is stored, or an array of elements whose geometry `element` tells, or a scalar.
unfoldable pub geometry_from :
    Option LirAggregateLayout
    → Option (LirType × ℕ)
    → (LirType → Result (ℤ × ℤ))
    → LirType
    → Result (ℤ × ℤ)
geometry_from (some l) v element t = ok (l.size, l.alignment)
geometry_from none (some v) element t = array_geometry v.1 (element v.0)
geometry_from none none element t = scalar_geometry t

-- `left` is the maximal depth less the depth.
unfoldable pub lir_aggregate_geometry : ℕ → Layouts → LirType → Result (ℤ × ℤ)
lir_aggregate_geometry zero layouts t = err "LIR_AGGREGATE_DEPTH_EXCEEDED"
lir_aggregate_geometry (suc left) layouts t =
    geometry_from (find_layout t layouts) (lir_array_value t) (lir_aggregate_geometry left layouts)
      t

-- What the loop over the layouts keeps.
pub record Verified : Type 0 where
  pub layouts : Layouts
  pub depths : List (LirType × ℕ)
  pub identities : List String

unfoldable pub depth_of : LirType → List (LirType × ℕ) → ℕ
depth_of t [] = 0
depth_of t (d ∷ ds) = if type_eq d.0 t then d.1 else depth_of t ds

-- The number of arrays around the innermost element, and its type.
unfoldable pub unwrap_arrays : ℕ → LirType → ℕ × LirType
unwrap_arrays k (array n t) =
    let inner = unwrap_arrays (suc k) t in
    if n == 0 || type_eq t no_type then (k, array n t) else inner
unwrap_arrays k t = (k, t)

abbrev pub field_depth : List (LirType × ℕ) → LirType → ℕ
field_depth depths t = let inner = unwrap_arrays 0 t in 1 + inner.0 + depth_of inner.1 depths

abbrev pub seen : List String → String → Bool
seen names s = any (λ x. str_eq x s) names

unfoldable pub bad_aggregate_field : LirAggregateLayout → ℤ → List String → LirAggregateField → Bool
bad_aggregate_field l end names f =
    (str_eq f.name "" || str_eq f.type_identity "" || seen names f.name)
    || (not_positive f.size
        || ltb_ℤ l.size f.size
        || not_positive f.alignment
        || ltb_ℤ l.alignment f.alignment)
    || not_power_of_two f.alignment
    || (ltb_ℤ f.offset end
        || ltb_ℤ (l.size -ℤ f.size) f.offset
        || has_remainder f.offset f.alignment)

-- The domain of an enum has its own geometry.
unfoldable pub geometry_or : Option LirEnum → Result (ℤ × ℤ) → Result (ℤ × ℤ)
geometry_or none g = g
geometry_or (some e) g = ok (e.size, e.alignment)

unfoldable pub field_geometry : List LirEnum → Layouts → LirType → Result (ℤ × ℤ)
field_geometry enums layouts t =
    geometry_or (find_alias t none enums) (lir_aggregate_geometry lir_aggregate_max_depth layouts t)

unfoldable pub is_geometry : ℤ → ℤ → Result (ℤ × ℤ) → Bool
is_geometry size align (err e) = false
is_geometry size align (ok g) = g.0 ==ℤ size && g.1 ==ℤ align

unfoldable pub check_aggregate_array : Layouts → LirAggregateField → Option (LirType × ℕ) → Check
check_aggregate_array layouts f none = ok tt
check_aggregate_array layouts f (some (element, extent)) =
    reject
      (not (type_eq f.element_type element)
        || not (f.extent ==ℤ pos extent)
        || not (
            is_geometry f.stride f.element_alignment
              (lir_aggregate_geometry lir_aggregate_max_depth layouts element)))
      "LIR_BAD_AGGREGATE_ARRAY"

-- `end` is where the field before ends, and `names` the names before; the result is the depth.
unfoldable pub verify_aggregate_fields :
    List LirEnum
    → Verified
    → LirAggregateLayout
    → ℤ
    → ℕ
    → List String
    → List LirAggregateField
    → Result ℕ
verify_aggregate_fields enums v l end depth names [] = ok depth
verify_aggregate_fields enums v l end depth names (f ∷ fs) = do
  reject (bad_aggregate_field l end names f) "LIR_BAD_AGGREGATE_FIELD"
  reject (not (is_geometry f.size f.alignment (field_geometry enums v.layouts f.typ)))
      "LIR_BAD_AGGREGATE_FIELD_TYPE"
  check_aggregate_array v.layouts f (lir_array_value f.typ)
  verify_aggregate_fields enums v l (f.offset +ℤ f.size)
      (if ltb depth (field_depth v.depths f.typ) then field_depth v.depths f.typ else depth)
      (f.name ∷ names) fs

abbrev pub has_type : Option LirAggregateLayout → Bool
has_type none = false
has_type (some l) = not (type_eq l.typ no_type)

-- `layouts[t].Type != ""`
unfoldable pub is_stored : LirType → Layouts → Bool
is_stored t layouts = has_type (find_layout t layouts)

unfoldable pub bad_aggregate_layout : LirAggregateLayout → Bool
bad_aggregate_layout l =
    (not (str_eq l.representation "native") && not (str_eq l.representation "C")
      || not (str_eq l.kind "record") && not (str_eq l.kind "struct"))
    || (not_positive l.size
        || ltb_ℤ (pos lir_aggregate_max_size) l.size
        || not_positive l.alignment)
    || (ltb_ℤ (pos 16) l.alignment || not_power_of_two l.alignment)
    || has_remainder l.size l.alignment
    || (length l.fields == 0 || ltb lir_aggregate_max_fields (length l.fields))

module _ (digest : LirAggregateLayout → String) where
  unfoldable pub lir_aggregate_identity : LirAggregateLayout → LirType
  lir_aggregate_identity l = named (str_append "aggregate:" (digest (record l { typ = no_type })))

  unfoldable pub stale_aggregate_layout : Verified → LirAggregateLayout → Bool
  stale_aggregate_layout v l =
      not (type_eq l.typ (lir_aggregate_identity l))
      || is_stored l.typ v.layouts
      || (seen v.identities l.identity || str_eq l.identity "" || str_eq l.name "")

  unfoldable pub verify_aggregate_layout :
      List LirEnum → Verified → LirAggregateLayout → Result Verified
  verify_aggregate_layout enums v l = do
    reject (stale_aggregate_layout v l) "LIR_STALE_AGGREGATE_LAYOUT"
    reject (not (str_eq l.copy_eligibility "checked_value")) "LIR_AGGREGATE_COPY_ELIGIBILITY"
    reject (bad_aggregate_layout l) "LIR_BAD_AGGREGATE_LAYOUT"
    depth ← verify_aggregate_fields enums v l (pos 0) 1 [] l.fields
    reject (ltb lir_aggregate_max_depth depth) "LIR_AGGREGATE_DEPTH_EXCEEDED"
    ok (record {
      layouts = l ∷ v.layouts;
      depths = (l.typ, depth) ∷ v.depths;
      identities = l.identity ∷ v.identities;
    })

  unfoldable pub verify_each_layout : List LirEnum → Verified → Layouts → Result Verified
  verify_each_layout enums v [] = ok v
  verify_each_layout enums v (l ∷ ls) = do
    w ← verify_aggregate_layout enums v l
    verify_each_layout enums w ls

  unfoldable pub verify_lir_aggregate_layouts : Layouts → List LirEnum → Result Layouts
  verify_lir_aggregate_layouts list enums = do
    reject (ltb lir_aggregate_max_layouts (length list)) "LIR_AGGREGATE_LAYOUT_CAPACITY"
    v ← verify_each_layout enums (record { layouts = []; depths = []; identities = [] }) list
    ok v.layouts
