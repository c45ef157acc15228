-- ===== src/Lir/Types.antt =====
-- `LIRType` of internal/concept/lir.go, and the tests on it there and in machineir.go.
-- The Go type is a string. Here it is the syntax that the code reads out of the string: each
-- constructor is one spelling, and `named s` is any other text.
use concept.Base.{
  ℕ, ◌*◌, ◌%◌, Bool, true, false, ◌||◌, ◌&&◌, String, ltb, ◌==◌, if◌then◌else◌, Result, ok, err,
  ◌≡◌, Option, none, some, refl, ap, ==_iff, &&-true,
}
use mathlib.Core.Path.{ap₂}
use text.Mathlib.Text.{starts_with}
use text.Mathlib.TextEquality.{eq_iff}
use concept.Base.{str_eq}

pub data LirType : Type 0 where
  i8 u8 i16 u16 i32 u32 i64 u64 : LirType
  bool void float32 float64 machine_step_result : LirType
  ptr ref ref_const : LirType → LirType  -- "ptr<T>", "ref<T>", "ref_const<T>"
  enum : String → LirType  -- "enum:" and a digest
  array : ℕ → LirType → LirType  -- "[n]T"
  named : String → LirType

-- Equality of the strings.
unfoldable pub type_eq : LirType → LirType → Bool
type_eq i8 i8 = true
type_eq u8 u8 = true
type_eq i16 i16 = true
type_eq u16 u16 = true
type_eq i32 i32 = true
type_eq u32 u32 = true
type_eq i64 i64 = true
type_eq u64 u64 = true
type_eq bool bool = true
type_eq void void = true
type_eq float32 float32 = true
type_eq float64 float64 = true
type_eq machine_step_result machine_step_result = true
type_eq (ptr t) (ptr u) = type_eq t u
type_eq (ref t) (ref u) = type_eq t u
type_eq (ref_const t) (ref_const u) = type_eq t u
type_eq (enum s) (enum r) = str_eq s r
type_eq (array n t) (array m u) = n == m && type_eq t u
type_eq (named s) (named r) = str_eq s r
type_eq _ _ = false

unfoldable pub lir_integer : LirType → Bool
lir_integer i8 = true
lir_integer u8 = true
lir_integer i16 = true
lir_integer u16 = true
lir_integer i32 = true
lir_integer u32 = true
lir_integer i64 = true
lir_integer u64 = true
lir_integer _ = false

unfoldable pub lir_floating : LirType → Bool
lir_floating float32 = true
lir_floating float64 = true
lir_floating _ = false

unfoldable pub lir_enum_type : LirType → Bool
lir_enum_type (enum s) = true
lir_enum_type _ = false

unfoldable pub lir_call_scalar : LirType → Bool
unfolding lir_integer lir_floating lir_enum_type
lir_call_scalar bool = true
lir_call_scalar t = lir_integer t || lir_floating t || lir_enum_type t

unfoldable pub lir_reference_type : LirType → Bool
lir_reference_type (ref t) = true
lir_reference_type (ref_const t) = true
lir_reference_type _ = false

-- `""` where the type is no address.
unfoldable pub lir_address_target : LirType → Option LirType
lir_address_target (ptr t) = some t
lir_address_target (ref t) = some t
lir_address_target (ref_const t) = some t
lir_address_target _ = none

unfoldable pub lir_width : LirType → ℕ
lir_width i8 = 1
lir_width u8 = 1
lir_width i16 = 2
lir_width u16 = 2
lir_width i32 = 4
lir_width u32 = 4
lir_width float32 = 4
lir_width machine_step_result = 4
lir_width i64 = 8
lir_width u64 = 8
lir_width float64 = 8
lir_width _ = 0

-- A floating type has no general-register class.
unfoldable pub machine_scalar_width : LirType → ℕ
unfolding lir_width lir_floating
machine_scalar_width (ptr t) = 8
machine_scalar_width bool = 1
machine_scalar_width t = if lir_floating t then 0 else lir_width t

-- `strings.HasPrefix(t, "i")`
unfoldable pub machine_signed : LirType → Bool
machine_signed i8 = true
machine_signed i16 = true
machine_signed i32 = true
machine_signed i64 = true
machine_signed (named s) = starts_with s "i"
machine_signed _ = false

-- The width of an argument in bytes, and whether it is passed by pointer. The size of an array is an
-- `int`, which is compared with positive numbers only.
unfoldable pub machine_abi_width : LirType → Result (ℕ × Bool)
unfolding machine_scalar_width
machine_abi_width (array count elem) =
    let size = count * machine_scalar_width elem % 18446744073709551616 in
    if ltb 0 count && ltb count 9223372036854775808 && ltb 0 (machine_scalar_width elem)
    then (if size == 1 || size == 2 || size == 4 || size == 8
        then ok (size, false)
        else ok (8, true))
    else err "MIR_UNSUPPORTED_ABI_TYPE"
machine_abi_width t =
    let w = machine_scalar_width t in
    if w == 0 then err "MIR_UNSUPPORTED_ABI_TYPE" else ok (w, false)

pub type_eq→≡ : (t u : LirType) → type_eq t u ≡ true → t ≡ u
unfolding type_eq
type_eq→≡ i8 i8 h = refl
type_eq→≡ u8 u8 h = refl
type_eq→≡ i16 i16 h = refl
type_eq→≡ u16 u16 h = refl
type_eq→≡ i32 i32 h = refl
type_eq→≡ u32 u32 h = refl
type_eq→≡ i64 i64 h = refl
type_eq→≡ u64 u64 h = refl
type_eq→≡ bool bool h = refl
type_eq→≡ void void h = refl
type_eq→≡ float32 float32 h = refl
type_eq→≡ float64 float64 h = refl
type_eq→≡ machine_step_result machine_step_result h = refl
type_eq→≡ (ptr t) (ptr u) h = ap ptr (type_eq→≡ t u h)
type_eq→≡ (ref t) (ref u) h = ap ref (type_eq→≡ t u h)
type_eq→≡ (ref_const t) (ref_const u) h = ap ref_const (type_eq→≡ t u h)
type_eq→≡ (enum s) (enum r) h = ap enum ((eq_iff s r).0 h)
type_eq→≡ (array n t) (array m u) h =
    ap₂ array ((==_iff n m).0 (&&-true (n == m) _ h).0) (type_eq→≡ t u (&&-true (n == m) _ h).1)
type_eq→≡ (named s) (named r) h = ap named ((eq_iff s r).0 h)
type_eq→≡ _ _ h = cc
