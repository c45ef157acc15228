-- ===== src/Layout/Geometry.antt =====
-- The size and alignment of a type: `evt1TypeGeometryWithin`, lines 84 to 188 of
-- internal/concept/layout.go. Type resolution, a type's spelling and the declarations in scope are
-- the fields of `Env`.
pub mod Good
pub mod Measured
use concept.Layout.Align.{align_up, max_geometry}
use concept.Base.{
  ℤ, List, String, Result, [], Bool, ℕ, ◌>>=◌, if◌then◌else◌, ◌∷◌, some, ok, Option, str_eq, err,
  any, ltb, none, pos, ◌||◌, negsuc, suc, pos_part, zero, ◌>>◌, reject, ltb_ℤ, not, ◌-ℤ◌, ◌==◌,
  ◌+ℤ◌, ◌&&◌, ◌/◌, ◌+◌, ◌*◌, true, false,
}
use concept.Layout.Fields.{Geometry, struct_field_offsets}

pub data StorageKind : Type 0 where
  raw_storage sparse_storage other_storage : StorageKind

pub record StorageDimension : Type 0 where
  pub extent : ℤ
  pub runtime : Bool

-- What `valueType` strips and `isBorrowLike` asks about.
pub record TypeHead : Type 0 where
  pub ownership : String
  pub pointer_to : Bool
  pub dyn : Bool

-- A type with an element type, or one that has a name.
pub data Ty : Type 0 where
  named : TypeHead → String → Ty
  array : TypeHead → Ty → ℤ → List StorageDimension → StorageKind → Ty

abbrev head_of : Ty → TypeHead
head_of (named h n) = h
head_of (array h e n shape k) = h

unfoldable pub value_type : Ty → Ty
value_type (named h n) = named (record h { ownership = "" }) n
value_type (array h e n shape k) = array (record h { ownership = "" }) (value_type e) n shape k

abbrev pub is_borrow_like : TypeHead → Bool
is_borrow_like h = str_eq h.ownership "borrow" || str_eq h.ownership "ref" || h.pointer_to || h.dyn

abbrev pub is_owned : TypeHead → Bool
is_owned h = str_eq h.ownership "owned"

abbrev pub has_runtime_shape : List StorageDimension → Bool
has_runtime_shape = any (λ d. d.runtime)

-- The declarations that the query reads, and the type resolution of the validator.
pub record Env : Type 0 where
  pub resolve : Ty → Result Ty
  pub spelling : Ty → String
  pub is_handle : Ty → Bool
  -- The number of payload fields of each variant.
  pub enums : String → Option (List ℕ)
  pub structs : String → Option (List Ty)

-- The query's scratch state.
pub record GeometryQuery : Type 0 where
  pub visiting : List String
  pub known : List (String × Geometry)
  pub accesses : ℕ

abbrev pub new_query : GeometryQuery
new_query = record { visiting = []; known = []; accesses = 0 }

unfoldable pub extent_product : ℕ → List StorageDimension → Result ℤ
extent_product count [] = ok (pos count)
extent_product count (d ∷ ds) = elim d.extent [
  | negsuc e ↦ err "CV4573"
  | pos e ↦ do
    reject (not (e == 0) && ltb (max_geometry / e) count) "CV4573"
    extent_product (count * e) ds
]

unfoldable pub element_count : ℤ → List StorageDimension → Result ℤ
element_count n [] = ok n
element_count n (d ∷ ds) = extent_product 1 (d ∷ ds)

-- `count` elements of `size` bytes, by storage kind. The tests keep `align_up` from passing the
-- largest `int`, so what `pos_part` reads is not negative.
unfoldable pub storage_geometry : StorageKind → ℕ → ℕ → ℕ → Result Geometry
storage_geometry raw_storage bytes count alignment = do
  let aligned = if ltb alignment 4 then 4 else alignment
  reject (ltb_ℤ (pos max_geometry -ℤ pos 7 -ℤ (pos aligned -ℤ pos 1)) (pos bytes)) "CV4573"
  ok (pos_part (align_up (align_up (pos bytes) 4 +ℤ pos 4) aligned), aligned)
storage_geometry sparse_storage bytes count alignment = do
  reject (ltb_ℤ (pos max_geometry -ℤ pos count -ℤ (pos alignment -ℤ pos 1)) (pos bytes)) "CV4573"
  ok (pos_part (align_up (pos (bytes + count)) alignment), alignment)
storage_geometry other_storage bytes count alignment = ok (bytes, alignment)

unfoldable pub array_geometry : Geometry → ℤ → List StorageDimension → StorageKind → Result Geometry
array_geometry g n shape k = element_count n shape >>= λ count. elim count [
  | negsuc c ↦ err "CV4573"
  | pos c ↦ do
    reject (not (c == 0) && ltb (max_geometry / c) g.0) "CV4573"
    storage_geometry k (g.0 * c) c g.1
]

unfoldable pub scalar_geometry : String → Option Geometry
scalar_geometry n =
    if str_eq n "byte" || str_eq n "uint8" || str_eq n "bool"
    then some (1, 1)
    else if str_eq n "uint16" || str_eq n "half"
    then some (2, 2)
    else if str_eq n "int" || str_eq n "uint" || str_eq n "uint32" || str_eq n "float"
    then some (4, 4)
    else if str_eq n "double" || str_eq n "uint64" || str_eq n "usize" || str_eq n "isize"
    then some (8, 8)
    else none

-- A struct, or no type at all.
unfoldable pub struct_geometry :
    (Ty → GeometryQuery → Result (Geometry × GeometryQuery))
    → Option (List Ty)
    → GeometryQuery
    → Result (Geometry × GeometryQuery)
struct_geometry geometry none q = err "CV4573"
struct_geometry geometry (some []) q = ok ((0, 1), q)
struct_geometry geometry (some (f ∷ fs)) q = do
  laid ← struct_field_offsets (λ t. geometry (value_type t)) (f ∷ fs) q
  ok ((pos_part laid.end, laid.alignment), laid.query)

-- An enum without payloads has a 32-bit tag.
unfoldable pub declared_geometry :
    (Ty → GeometryQuery → Result (Geometry × GeometryQuery))
    → Option (List ℕ)
    → Option (List Ty)
    → GeometryQuery
    → Result (Geometry × GeometryQuery)
declared_geometry geometry (some variants) fields q = do
  reject (any (λ k. not (k == 0)) variants) "CV4573"
  ok ((4, 4), q)
declared_geometry geometry none fields q = struct_geometry geometry fields q

-- The `switch` on the name, the test for a handle, the lookups after it.
unfoldable pub named_geometry :
    (Ty → GeometryQuery → Result (Geometry × GeometryQuery))
    → Option Geometry
    → Bool
    → Option (List ℕ)
    → Option (List Ty)
    → GeometryQuery
    → Result (Geometry × GeometryQuery)
named_geometry geometry (some g) handle variants fields q = ok (g, q)
named_geometry geometry none true variants fields q = ok ((8, 8), q)
named_geometry geometry none false variants fields q = declared_geometry geometry variants fields q

unfoldable pub resolved_geometry :
    Env
    → (Ty → GeometryQuery → Result (Geometry × GeometryQuery))
    → Ty
    → GeometryQuery
    → Result (Geometry × GeometryQuery)
resolved_geometry env geometry (named h n) q = do
  reject (is_borrow_like h || is_owned h) "CV4573"
  named_geometry geometry (scalar_geometry n) (env.is_handle (named h n)) (env.enums n)
      (env.structs n) q
resolved_geometry env geometry (array h e n shape k) q = do
  reject (is_borrow_like h || is_owned h) "CV4573"
  reject (has_runtime_shape shape) "CV4573"
  measured ← geometry e q
  g ← array_geometry measured.0 n shape k
  ok (g, measured.1)

unfoldable pub recall : List (String × Geometry) → String → Option Geometry
recall [] key = none
recall ((k, g) ∷ rest) key = if str_eq k key then some g else recall rest key

abbrev pub delete : String → List String → List String
delete key [] = []
delete key (k ∷ ks) = if str_eq k key then delete key ks else k ∷ delete key ks

-- The query around the measurement of a resolved type: the budget, the cache, the types that are
-- being visited.
unfoldable pub within :
    Env
    → (Ty → GeometryQuery → Result (Geometry × GeometryQuery))
    → Ty
    → GeometryQuery
    → Result (Geometry × GeometryQuery)
within env measure t q = do
  reject (ltb 4096 (suc q.accesses)) "CV4573"
  resolved ← env.resolve t
  let key = env.spelling resolved
  let counted = record q { accesses = suc q.accesses }
  elim (recall q.known key) [
    | some g ↦ ok (g, counted)
    | none ↦ do
      reject (any (λ k. str_eq k key) q.visiting) "CV4573"
      measured ← measure resolved (record counted { visiting = key ∷ q.visiting })
      ok (
        measured.0,
        record measured.1 {
          visiting = delete key measured.1.visiting;
          known = (key, measured.0) ∷ measured.1.known;
        },
      )
  ]

-- The number counts how many more types may be visited: `evt1ComptimeMaxCallDepth` less the length of
-- `visiting`. At 0 the source refuses a type that is not known.
unfoldable pub type_geometry_within :
    ℕ → Env → Ty → GeometryQuery → Result (Geometry × GeometryQuery)
unfolding within
type_geometry_within zero env t q = within env (λ r s. err "CV4573") t q
type_geometry_within (suc n) env t q =
    within env (resolved_geometry env (type_geometry_within n env)) t q

unfoldable pub type_geometry : Env → Ty → Result Geometry
type_geometry env t = type_geometry_within 32 env t new_query >>= λ r. ok r.0
