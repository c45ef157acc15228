-- ===== src/Lir/Borrow/Verify.antt =====
-- The checks of references and of their uses in `verifyLIRBorrowFunction`, lines 270 to 378 of
-- internal/concept/lir_borrow.go, and `objectDigest`, lines 343 to 353 of
-- machineir_object_verify.go.
use Prim.Native.String.{String}
use concept.Machine.Immediate.{codes}
use concept.Base.{
  ℕ, ℤ, pos, pos_part, List, [], ◌∷◌, Bool, true, false, ◌&&◌, ◌||◌, not, Option, none, some,
  if◌then◌else◌, ◌==◌, ◌==ℤ◌, ltb, leb, leb_ℤ, is_neg, minus_one, in_range, length, get_at?, str_eq,
  Check, Result, ok, err, reject, or_fail, ◌>>=◌, ◌>>◌, for_each,
}
use concept.Base.Bits.{bit}
use concept.Lir.Types.{LirType, void, type_eq, lir_reference_type}
use concept.Lir.Function.{
  LirInstruction, LirBlock, LirBorrowReference, LirBorrowContract, LirFunction, LirAggregateLayout,
}
use concept.Lir.Dominators.{Rows, row, lir_dominators}
use concept.Lir.Borrow.{
  Entries, Definition, find, type_of, block_of, address_target, no_type, mutable_reference,
  borrow_scope_contains, span_eq, bool_eq, not_positive, operation_or_zero, operations,
  lir_reference_definitions, check_block, check_scope,
}

unfoldable pub hex_digit : ℕ → Bool
hex_digit c = leb b'0' c && leb c b'9' || leb b'a' c && leb c b'f'

unfoldable pub hex_digits : List ℕ → Bool
unfolding hex_digit
hex_digits [] = true
hex_digits (c ∷ cs) = hex_digit c && hex_digits cs

-- 64 bytes, all of them lowercase hexadecimal digits.
unfoldable pub object_digest : String → Bool
unfolding hex_digits
object_digest s = length (codes s) == 64 && hex_digits (codes s)

abbrev pub References : Type 0
References = Entries LirBorrowReference

abbrev pub first_arg_is : LirInstruction → ℤ → Bool
first_arg_is i v = elim i.args [ [] ↦ false | a ∷ rest ↦ a ==ℤ v ]

-- `params[root].ID == value`
abbrev pub param_is : LirFunction → ℤ → ℤ → Bool
param_is f root value = elim (get_at? f.params root) [ none ↦ false | some p ↦ p.id ==ℤ value ]

-- `mutable == slots[root].Readonly`
abbrev pub slot_readonly_is : LirFunction → ℤ → Bool → Bool
slot_readonly_is f root b = elim (get_at? f.slots root) [
  | none ↦ true
  | some s ↦ bool_eq b s.readonly
]

-- A member of a place is mutable where the place is, and neither the aggregate nor the member is
-- read-only.
unfoldable pub member_authority :
    Option LirAggregateLayout → ℤ → LirBorrowReference → LirBorrowReference → Bool
member_authority none member r p = false
member_authority (some l) member r p = elim (get_at? l.fields member) [
  | none ↦ false
  | some field ↦ bool_eq r.mutable (p.mutable && not (str_eq l.kind "record") && not field.readonly)
]

module _ (f : LirFunction) (layouts : LirType → Option LirAggregateLayout)
    (c : LirBorrowContract) where
  abbrev pub types : Entries Definition
  types = lir_reference_definitions f

  abbrev pub operation : ℤ → Option LirInstruction
  operation v = find v (operations f.blocks [])

  unfoldable pub check_identity : ℤ → References → LirBorrowReference → Check
  check_identity previous refs r = do
    reject (leb_ℤ r.value previous) "LIR_REFERENCE_IDENTITY"
    reject
        (elim (find r.value refs) [ none ↦ false | some q ↦ true ]
          || not (type_eq (address_target (type_of types r.value)) r.target)
          || str_eq r.provenance ""
          || not (object_digest r.semantic_target)
          || not_positive r.source.line
          || not (in_range r.lifetime (length c.scopes)))
        "LIR_REFERENCE_IDENTITY"

  unfoldable pub check_root : LirBorrowReference → Check
  check_root r =
      if str_eq r.root_kind "parameter"
      then reject
          (elim (get_at? f.params r.root) [ none ↦ true | some p ↦ not (lir_reference_type p.typ) ])
          "LIR_REFERENCE_PARAMETER"
      else if str_eq r.root_kind "local"
      then reject
          (not (in_range r.root (length f.slots)) || elim (get_at? c.slot_scopes r.root) [
            | none ↦ true
            | some scope ↦ not (borrow_scope_contains c scope r.lifetime)
          ])
          "LIR_REFERENCE_LIFETIME"
      else err "LIR_REFERENCE_PROVENANCE"

  -- A reference without a parent: a parameter, or the address of a slot.
  unfoldable pub check_origin : LirBorrowReference → Check
  check_origin r =
      if str_eq r.evidence "checked_parameter"
      then reject
          (not (str_eq r.root_kind "parameter")
            || not (param_is f r.root r.value)
            || not (r.lifetime ==ℤ pos 0)
            || not (bool_eq r.mutable (mutable_reference (type_of types r.value))))
          "LIR_REFERENCE_PARAMETER"
      else (let i = operation_or_zero (operation r.value) in
          reject
            (not (str_eq i.op "slot_address")
              || not (str_eq r.root_kind "local")
              || not (i.slot ==ℤ r.root)
              || slot_readonly_is f r.root r.mutable
              || not (str_eq r.evidence "checked_place"))
            "LIR_REFERENCE_PROVENANCE")

  -- A reference has no more authority than its parent p.
  unfoldable pub check_parent : LirInstruction → LirBorrowReference → LirBorrowReference → Check
  check_parent i p r =
      reject
        (not (first_arg_is i r.parent)
          || not (str_eq p.root_kind r.root_kind)
          || not (p.root ==ℤ r.root)
          || not (str_eq p.provenance r.provenance)
          || not (borrow_scope_contains c p.lifetime r.lifetime)
          || r.mutable && not p.mutable)
        "LIR_REFERENCE_AUTHORITY"

  -- A reference that the instruction i derives from the reference p.
  unfoldable pub check_derived : LirInstruction → LirBorrowReference → LirBorrowReference → Check
  check_derived i p r = do
    check_parent i p r
    (if str_eq i.op "borrow"
        then reject
            (not (str_eq r.evidence "checked_borrow")
              || not (type_eq r.target p.target)
              || not (str_eq r.semantic_target p.semantic_target)
              || not (bool_eq r.mutable (mutable_reference i.typ)))
            "LIR_REFERENCE_AUTHORITY"
        else reject
            (not (str_eq r.evidence "checked_place")
              || not (str_eq i.op "field_address") && not (str_eq i.op "index_address"))
            "LIR_REFERENCE_PROVENANCE")
    reject
        (str_eq i.op "field_address" && not (member_authority (layouts i.aggregate) i.member r p))
        "LIR_REFERENCE_AUTHORITY"
    reject (str_eq i.op "index_address" && not (bool_eq r.mutable p.mutable))
        "LIR_REFERENCE_AUTHORITY"

  unfoldable pub check_authority : References → LirBorrowReference → Check
  check_authority refs r = if is_neg r.parent then check_origin r else elim (find r.parent refs) [
    | none ↦ err "LIR_REFERENCE_AUTHORITY"
    | some p ↦ check_derived (operation_or_zero (operation r.value)) p r
  ]

  unfoldable pub check_instruction_of : Option LirInstruction → LirBorrowReference → Check
  check_instruction_of none r = ok tt
  check_instruction_of (some i) r =
      reject (not (span_eq i.source r.source) || not (i.scope ==ℤ r.lifetime))
        "LIR_REFERENCE_PROVENANCE"

  unfoldable pub check_reference : ℤ → References → LirBorrowReference → Check
  check_reference previous refs r = do
    check_identity previous refs r
    check_root r
    check_authority refs r
    check_instruction_of (operation r.value) r

  -- The loop over the references; the result is `refs`.
  unfoldable pub check_references : ℤ → References → List LirBorrowReference → Result References
  check_references previous refs [] = ok refs
  check_references previous refs (r ∷ rs) = do
    check_reference previous refs r
    check_references r.value ((r.value, r) ∷ refs) rs

  -- The definition in block `db` reaches block `b`.
  unfoldable pub reaches : Rows → ℤ → ℤ → Bool
  reaches dom b db = is_neg db || db ==ℤ b || bit (row dom (pos_part b)) (pos_part db)

  unfoldable pub check_reference_use :
      Rows → LirBlock → LirInstruction → ℕ → ℤ → LirBorrowReference → Check
  check_reference_use dom b i ai id r = do
    reject (not (borrow_scope_contains c r.lifetime i.scope)) "LIR_REFERENCE_OUTSIDE_LIFETIME"
    reject (not (reaches dom b.id (block_of types id))) "LIR_REFERENCE_DOMINANCE"
    reject (str_eq i.op "store" && ai == 0 && not r.mutable) "LIR_REFERENCE_CONST_STORE"
    reject
        (str_eq i.op "call" && not (lir_reference_type (type_of types id))
          || str_eq i.op "store_slot"
          || str_eq i.op "initialize_slot"
          || str_eq i.op "store" && ai == 1)
        "LIR_REFERENCE_ESCAPE"

  unfoldable pub check_argument : References → Rows → LirBlock → LirInstruction → ℕ → ℤ → Check
  check_argument refs dom b i ai id = elim (find id refs) [
    | none ↦ ok tt
    | some r ↦ check_reference_use dom b i ai id r
  ]

  -- The instruction lies in a scope, and an address that it computes is a reference.
  unfoldable pub check_result : References → LirInstruction → Check
  check_result refs i = do
    reject (not (in_range i.scope (length c.scopes))) "LIR_REFERENCE_LIFETIME"
    reject
        (not (type_eq (address_target i.typ) no_type)
          && not (is_neg i.result)
          && elim (find i.result refs) [ none ↦ true | some r ↦ false ])
        "LIR_REFERENCE_MISSING_AUTHORITY"

  unfoldable pub check_instruction : References → Rows → LirBlock → ℕ → LirInstruction → Check
  check_instruction refs dom b ii i = do
    check_result refs i
    for_each (check_argument refs dom b i) 0 i.args

  unfoldable pub check_uses : References → Rows → ℕ → LirBlock → Check
  check_uses refs dom bi b = do
    for_each (check_instruction refs dom b) 0 b.instructions
    reject
        (str_eq b.term.op "return"
          && elim (find b.term.value refs) [ none ↦ false | some r ↦ true ]
          && not (type_eq f.result void))
        "LIR_REFERENCE_RETURN_UNSUPPORTED"

  unfoldable pub check_slot_scope : ℕ → ℤ → Check
  check_slot_scope i s = reject (not (in_range s (length c.scopes))) "LIR_REFERENCE_LIFETIME"

  unfoldable pub verify_contract : Check
  verify_contract = do
    reject (length f.blocks == 0 || ltb 128 (length f.blocks)) "LIR_REFERENCE_CAPACITY"
    for_each (check_block (length f.blocks)) 0 f.blocks
    reject
        (length c.scopes == 0
          || ltb 128 (length c.scopes)
          || ltb 512 (length c.references)
          || not (length c.slot_scopes == length f.slots))
        "LIR_REFERENCE_CAPACITY"
    for_each check_scope 0 c.scopes
    for_each check_slot_scope 0 c.slot_scopes
    refs ← check_references minus_one [] c.references
    dom ← or_fail (lir_dominators f.blocks) "out of fuel"
    for_each (check_uses refs dom) 0 f.blocks

unfoldable pub verify_lir_borrow_function :
    LirFunction → (LirType → Option LirAggregateLayout) → Check
verify_lir_borrow_function f layouts = elim f.borrow [
  | none ↦ ok tt
  | some c ↦ verify_contract f layouts c
]
