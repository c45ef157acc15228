-- ===== src/Lir/Body.antt =====
-- The operations of the LIR and what the check of a function body keeps while it runs: the switch of
-- `VerifyLIR` in internal/concept/lir.go, lines 421 to 617, by its cases, and the tests on types of
-- lir.go, lir_aggregate.go, lir_tagged.go and lir_match.go that it calls. A Go map that a loop fills
-- is a list of entries, the latest first. A type string is read as in Lir/Types, so an array type is
-- one that is spelled with its decimal length.
pub mod Operation
pub mod Cases
pub mod Blocks
pub mod Steps
pub mod Guards
pub mod Values
pub mod Available
pub mod Typed
mod Tests
use text.Mathlib.Text.{starts_with}
use concept.Machine.Immediate.{codes}
use concept.Base.{
  ℕ, ◌+◌, ℤ, pos, List, [], ◌∷◌, Bool, true, false, ◌&&◌, ◌||◌, not, Option, none, some,
  if◌then◌else◌, ◌==◌, ◌==ℤ◌, any, length, get_elem?, str_eq, String,
}
use concept.Lir.Types.{
  LirType, ptr, named, array, float64, type_eq, lir_call_scalar, lir_reference_type,
}
use concept.Lir.Function.{
  LirSlot, LirInstruction, LirFunction, LirBorrowReference, LirAggregateLayout, LirTaggedEnum,
  LirEnum,
}
use concept.Lir.Borrow.{no_type, Entries, find, type_or_none}
use concept.Lir.Borrow.Verify.{hex_digits}

pub data LirOp : Type 0 where
  test_variant require_variant checked_payload make_tagged borrow copy_value : LirOp
  replace_member record_with make_aggregate make_array slot_address field_address : LirOp
  call const machine_result frame_field_address activation_address : LirOp
  load_slot initialize_slot store_slot : LirOp
  arithmetic float_arithmetic float_negation compare_equal compare_order : LirOp
  check_index index_address load store other : LirOp

abbrev pub one_of : String → List String → Bool
one_of s names = any (str_eq s) names

-- The case of the switch that an operation selects; the comparisons are one case in the source, and
-- two here, since it also asks whether the operation is `eq` or `ne`.
unfoldable pub op_of : String → LirOp
op_of s =
    if str_eq s "test_variant"
    then test_variant
    else if str_eq s "require_variant"
    then require_variant
    else if str_eq s "checked_payload"
    then checked_payload
    else if str_eq s "make_tagged"
    then make_tagged
    else if str_eq s "borrow"
    then borrow
    else if str_eq s "copy_value"
    then copy_value
    else if str_eq s "replace_member"
    then replace_member
    else if str_eq s "record_with"
    then record_with
    else if str_eq s "make_aggregate"
    then make_aggregate
    else if str_eq s "make_array"
    then make_array
    else if str_eq s "slot_address"
    then slot_address
    else if str_eq s "field_address"
    then field_address
    else if str_eq s "call"
    then call
    else if str_eq s "const"
    then const
    else if str_eq s "machine_result"
    then machine_result
    else if str_eq s "frame_field_address"
    then frame_field_address
    else if str_eq s "activation_address"
    then activation_address
    else if str_eq s "load_slot"
    then load_slot
    else if str_eq s "initialize_slot"
    then initialize_slot
    else if str_eq s "store_slot"
    then store_slot
    else if one_of s ("checked_add" ∷ "checked_sub" ∷ "checked_mul" ∷ "add" ∷ "sub" ∷ "mul" ∷ [])
    then arithmetic
    else if one_of s ("fadd" ∷ "fsub" ∷ "fmul" ∷ "fdiv" ∷ [])
    then float_arithmetic
    else if str_eq s "fneg"
    then float_negation
    else if one_of s ("eq" ∷ "ne" ∷ [])
    then compare_equal
    else if one_of s ("lt" ∷ "le" ∷ "gt" ∷ "ge" ∷ [])
    then compare_order
    else if str_eq s "check_index"
    then check_index
    else if str_eq s "index_address"
    then index_address
    else if str_eq s "load"
    then load
    else if str_eq s "store"
    then store
    else other

-- What the check of a module has established before the bodies of its functions are checked: the
-- fact identities, the functions by identity, and the layouts by type.
pub record Env : Type 0 where
  pub facts : String → Bool
  pub functions : String → Option LirFunction
  pub layouts : LirType → Option LirAggregateLayout
  pub tagged : LirType → Option LirTaggedEnum
  pub enums : List LirEnum

-- `known`, `guards` and `all`.
pub record Body : Type 0 where
  pub known : Entries LirType
  pub guards : List (ℤ × ℤ)
  pub all : List ℤ

abbrev pub is_known : Body → ℤ → Bool
is_known s v = elim (find v s.known) [ none ↦ false | some t ↦ true ]

-- `known[v]`, and `argType(i)`
abbrev pub known_type : Body → ℤ → LirType
known_type s v = type_or_none (find v s.known)

abbrev pub arg_type : Body → LirInstruction → ℕ → LirType
arg_type s i k = elim (get_elem? i.args k) [ none ↦ no_type | some v ↦ known_type s v ]

-- `guards[[2]int{v, n}]`
abbrev pub guarded : List (ℤ × ℤ) → ℤ → ℤ → Bool
guarded gs v n = any (λ g. g.0 ==ℤ v && g.1 ==ℤ n) gs

unfoldable pub find_slot : ℤ → List LirSlot → Option LirSlot
find_slot k [] = none
find_slot k (s ∷ ss) = if s.id ==ℤ k then some s else find_slot k ss

unfoldable pub is_pointer : LirType → Bool
is_pointer (ptr t) = true
is_pointer (named s) = starts_with s "ptr<"
is_pointer _ = false

unfoldable pub lir_tagged_type : LirType → Bool
lir_tagged_type (named s) = starts_with s "tagged:"
lir_tagged_type _ = false

unfoldable pub lir_aggregate_type : LirType → Bool
unfolding lir_tagged_type
lir_aggregate_type (named s) = starts_with s "aggregate:" || starts_with s "tagged:"
lir_aggregate_type _ = false

-- The element type and the extent.
unfoldable pub lir_array_value : LirType → Option (LirType × ℕ)
lir_array_value (array n t) = if n == 0 || type_eq t no_type then none else some (t, n)
lir_array_value _ = none

abbrev pub is_some {ℓ} : {A : Type ℓ} → Option A → Bool
is_some none = false
is_some (some a) = true

unfoldable pub lir_call_value : (LirType → Option LirAggregateLayout) → LirType → Bool
lir_call_value layouts t = lir_call_scalar t || is_some (layouts t) || lir_reference_type t

abbrev pub hex_literal : List ℕ → Bool
hex_literal (z ∷ x ∷ digits) = z == b'0' && x == b'x' && hex_digits digits
hex_literal _ = false

unfoldable pub lir_float_literal_valid : LirType → String → Bool
lir_float_literal_valid t literal =
    length (codes literal) == (if type_eq t float64 then 16 else 8) + 2
    && hex_literal (codes literal)

unfoldable pub find_reference : ℤ → List LirBorrowReference → Option LirBorrowReference
find_reference v [] = none
find_reference v (r ∷ rs) = if r.value ==ℤ v then some r else find_reference v rs

-- `lirBorrowReference`
unfoldable pub lir_borrow_reference : LirFunction → ℤ → Option LirBorrowReference
lir_borrow_reference f v = elim f.borrow [ none ↦ none | some c ↦ find_reference v c.references ]
