-- ===== src/Lir/Body/Cases.antt =====
-- The switch of `VerifyLIR`, lines 428 to 617 of internal/concept/lir.go: the check of one
-- instruction by its operation, with its slot, if it names one of the function's.
use concept.Base.{
  ℕ, ◌+◌, pos, List, [], ◌∷◌, Bool, true, false, ◌&&◌, ◌||◌, not, Option, none, some, ◌==ℤ◌, ltb,
  leb_ℤ, ltb_ℤ, is_neg, in_range, length, str_eq, String, Check, err, reject, ◌>>◌,
}
use concept.Lir.Types.{
  LirType, ptr, bool, void, machine_step_result, type_eq, lir_integer, lir_floating, lir_enum_type,
  lir_call_scalar, lir_reference_type,
}
use concept.Lir.Frame.{LirMachineFunction}
use concept.Lir.Function.{
  LirSlot, LirInstruction, LirFunction, LirAggregateField, LirAggregateLayout, LirTaggedEnum,
  LirActivationFunction,
}
use concept.Lir.Borrow.{address_target}
use concept.Lir.Body.{
  LirOp, test_variant, require_variant, checked_payload, make_tagged, borrow, copy_value,
  replace_member, record_with, make_aggregate, make_array, slot_address, field_address, call, const,
  machine_result, frame_field_address, activation_address, load_slot, initialize_slot, store_slot,
  arithmetic, float_arithmetic, float_negation, compare_equal, compare_order, check_index,
  index_address, load, store, other, Env, Body, arg_type, find_slot, lir_tagged_type,
  lir_aggregate_type, lir_array_value, is_some, lir_float_literal_valid, one_of,
}
use concept.Lir.Body.Operation.{
  has_result, no_slot, args_are, variant_fields, field_type, field_offset,
  verify_lir_variant_operation, match_fields, match_elements, match_members, check_call, is_step,
  check_frame_address, check_index_address,
}

abbrev pub layout_fields : Option LirAggregateLayout → List LirAggregateField
layout_fields none = []
layout_fields (some l) = l.fields

abbrev pub is_record : Option LirAggregateLayout → Bool
is_record none = false
is_record (some l) = str_eq l.kind "record"

-- A slot that holds a scalar or an aggregate, and one that holds an array.
abbrev pub is_array_slot : LirSlot → Bool
is_array_slot l = ltb_ℤ (pos 0) l.extent

abbrev pub operands_are : Body → LirInstruction → LirType → Bool
operands_are s i t = type_eq (arg_type s i 0) t && type_eq (arg_type s i 1) t

module _ (env : Env) (f : LirFunction) where
  unfoldable pub check_tagged : LirOp → Body → LirInstruction → LirTaggedEnum → Check
  check_tagged checked_payload s i d = do
    reject
        (is_neg i.result
          || not (no_slot i)
          || not (args_are i 1)
          || not (type_eq (arg_type s i 0) d.typ)
          || not (in_range i.member (length d.variants))
          || not (in_range i.extent (length (variant_fields d i.member)))
          || not (i.frame_offset ==ℤ pos 0)
          || not (i.stride ==ℤ pos 0)
          || not (str_eq i.literal ""))
        "LIR_TAGGED_ACCESS_AUTHORITY"
    reject (not (type_eq i.typ (field_type (variant_fields d i.member) i.extent)))
        "LIR_TAGGED_ACCESS_TYPE"
  check_tagged _ s i d = do
    reject
        (is_neg i.result
          || not (no_slot i)
          || not (in_range i.member (length d.variants))
          || not (args_are i (length (variant_fields d i.member))))
        "LIR_TAGGED_CONSTRUCTOR"
    match_fields s i "LIR_TAGGED_CONSTRUCTOR_TYPE" 0 (variant_fields d i.member)

  unfoldable pub check_array : Body → LirInstruction → Option (LirType × ℕ) → Check
  check_array s i none = err "LIR_BAD_ARRAY_INIT"
  check_array s i (some (element, extent)) = do
    reject (is_neg i.result || not (no_slot i) || ltb 256 extent || not (args_are i extent))
        "LIR_BAD_ARRAY_INIT"
    match_elements s i element 0 i.args

  unfoldable pub check_slot : LirOp → Body → LirInstruction → LirSlot → Check
  check_slot slot_address s i l =
      reject
        (not (l.extent ==ℤ pos 0) && not f.has_patterns
          || not (lir_aggregate_type l.typ)
            && not (lir_call_scalar l.typ)
            && not (f.has_patterns && is_array_slot l)
          || is_neg i.result
          || not (args_are i 0)
          || not (type_eq i.typ (ptr l.typ)))
        "LIR_BAD_OBJECT_ADDRESS"
  check_slot load_slot s i l =
      reject
        (is_array_slot l && not f.has_patterns
          || not (type_eq i.typ l.typ)
          || not (args_are i 0)
          || is_neg i.result)
        "LIR_BAD_SLOT_LOAD"
  check_slot _ s i l = do
    reject
        (is_array_slot l && not f.has_patterns
          || has_result i
          || not (args_are i 1)
          || not (type_eq (arg_type s i 0) l.typ))
        "LIR_BAD_SLOT_STORE"
    reject ((lir_tagged_type l.typ || lir_tagged_type i.typ) && not (type_eq i.typ l.typ))
        "LIR_TAGGED_SLOT_TYPE"

  -- With any layout at all a slot of a scalar type may be initialized.
  unfoldable pub check_initialize : Bool → LirSlot → Check
  check_initialize has_layouts l =
      reject
        (not (lir_aggregate_type l.typ)
          && (not has_layouts || not (lir_call_scalar l.typ))
          && not
              (f.has_patterns && (lir_enum_type l.typ || lir_call_scalar l.typ || is_array_slot l)))
        "LIR_BAD_OBJECT_INIT"

  unfoldable pub check_compare : Bool → Body → LirInstruction → Check
  check_compare equality s i =
      let t = arg_type s i 0 in
      reject
        (is_neg i.result
          || not (args_are i 2)
          || not (type_eq t (arg_type s i 1))
          || not (lir_integer t)
            && not (lir_floating t)
            && not (type_eq t bool)
            && not (lir_enum_type t && equality)
          || not (type_eq i.typ bool))
        "LIR_BAD_COMPARE"

  unfoldable pub check_field_address : Body → LirInstruction → Option LirAggregateLayout → Check
  check_field_address s i none = err "LIR_BAD_FIELD_ADDRESS"
  check_field_address s i (some l) = do
    reject
        (not (in_range i.member (length l.fields))
          || is_neg i.result
          || not (no_slot i)
          || not (args_are i 1)
          || not (type_eq (address_target (arg_type s i 0)) i.aggregate))
        "LIR_BAD_FIELD_ADDRESS"
    reject
        (not (type_eq i.typ (ptr (field_type l.fields i.member)))
          || not (i.frame_offset ==ℤ field_offset l.fields i.member))
        "LIR_BAD_FIELD_OFFSET"

  abbrev pub with {ℓ} : {A : Type ℓ} → Option A → String → (A → Check) → Check
  with o code g = elim o [ none ↦ err code | some a ↦ g a ]

  unfoldable pub check_operation : LirOp → Bool → Body → LirInstruction → Check
  check_operation test_variant has s i = verify_lir_variant_operation env i (arg_type s i 0)
  check_operation require_variant has s i = verify_lir_variant_operation env i (arg_type s i 0)
  check_operation checked_payload has s i =
      with (env.tagged i.aggregate) "LIR_TAGGED_ACCESS_AUTHORITY" (check_tagged checked_payload s i)
  check_operation make_tagged has s i =
      with (env.tagged i.typ) "LIR_TAGGED_CONSTRUCTOR" (check_tagged make_tagged s i)
  check_operation borrow has s i =
      reject
        (not (lir_reference_type i.typ)
          || is_neg i.result
          || not (args_are i 1)
          || not (type_eq (address_target (arg_type s i 0)) (address_target i.typ))
          || not (no_slot i))
        "LIR_REFERENCE_TARGET"
  check_operation copy_value has s i =
      reject
        (not (is_some (env.layouts i.typ)) && not (is_some (lir_array_value i.typ))
          || is_neg i.result
          || not (args_are i 1)
          || not (type_eq (arg_type s i 0) i.typ)
          || not (no_slot i))
        "LIR_BAD_AGGREGATE_COPY"
  check_operation replace_member has s i =
      let fields = layout_fields (env.layouts i.typ) in
      reject
        (not (is_some (env.layouts i.typ))
          || is_neg i.result
          || not (in_range i.member (length fields))
          || not (args_are i 2)
          || not (type_eq (arg_type s i 0) i.typ)
          || not (type_eq (arg_type s i 1) (field_type fields i.member))
          || not (no_slot i))
        "LIR_BAD_AGGREGATE_REPLACEMENT"
  check_operation record_with has s i = do
    reject
        (not (is_record (env.layouts i.typ))
          || is_neg i.result
          || not (no_slot i)
          || not (args_are i (length i.members + 1))
          || not (type_eq (arg_type s i 0) i.typ))
        "LIR_BAD_RECORD_WITH"
    match_members s i (layout_fields (env.layouts i.typ)) [] 0 i.members
  check_operation make_aggregate has s i = do
    reject
        (not (is_some (env.layouts i.typ))
          || lir_tagged_type i.typ
          || is_neg i.result
          || not (no_slot i)
          || not (args_are i (length (layout_fields (env.layouts i.typ)))))
        "LIR_BAD_RECORD_INIT"
    match_fields s i "LIR_BAD_RECORD_MEMBER" 0 (layout_fields (env.layouts i.typ))
  check_operation make_array has s i = check_array s i (lir_array_value i.typ)
  check_operation slot_address has s i =
      with (find_slot i.slot f.slots) "LIR_BAD_OBJECT_ADDRESS" (check_slot slot_address s i)
  check_operation field_address has s i = check_field_address s i (env.layouts i.aggregate)
  check_operation call has s i =
      with (env.functions i.call_target) "LIR_BAD_CALL" (check_call env f s i)
  check_operation const has s i = do
    reject
        (is_neg i.result
          || not (args_are i 0)
          || str_eq i.literal ""
          || not (lir_call_scalar i.typ))
        "LIR_BAD_CONST"
    reject (lir_floating i.typ && not (lir_float_literal_valid i.typ i.literal))
        "LIR_BAD_FLOAT_CONST"
  check_operation machine_result has s i =
      reject
        (not (is_step f)
          || is_neg i.result
          || not (type_eq i.typ machine_step_result)
          || not (args_are i 0)
          || not (one_of i.literal ("Active" ∷ "Yielded" ∷ "Completed" ∷ [])))
        "LIR_BAD_MACHINE_RESULT"
  check_operation frame_field_address has s i = with f.machine "LIR_BAD_FRAME_ADDRESS" (λ m.
      check_frame_address f i (LirMachineFunction.fields m) "LIR_BAD_FRAME_ADDRESS"
        "LIR_BAD_FRAME_OFFSET")
  check_operation activation_address has s i = with f.activation "LIR_BAD_ACTIVATION_ADDRESS" (λ a.
      check_frame_address f i (LirActivationFunction.init_fields a) "LIR_BAD_ACTIVATION_ADDRESS"
        "LIR_BAD_ACTIVATION_OFFSET")
  check_operation load_slot has s i =
      with (find_slot i.slot f.slots) "LIR_BAD_SLOT_LOAD" (check_slot load_slot s i)
  check_operation initialize_slot has s i =
      with (find_slot i.slot f.slots) "LIR_BAD_SLOT_STORE"
        (λ l. check_slot initialize_slot s i l >> check_initialize has l)
  check_operation store_slot has s i =
      with (find_slot i.slot f.slots) "LIR_BAD_SLOT_STORE" (check_slot store_slot s i)
  check_operation arithmetic has s i =
      reject
        (is_neg i.result
          || not (args_are i 2)
          || not (operands_are s i i.typ)
          || not (lir_integer i.typ))
        "LIR_BAD_ARITHMETIC"
  check_operation float_arithmetic has s i =
      reject
        (is_neg i.result
          || not (args_are i 2)
          || not (operands_are s i i.typ)
          || not (lir_floating i.typ))
        "LIR_BAD_FLOAT_ARITHMETIC"
  check_operation float_negation has s i =
      reject
        (is_neg i.result
          || not (args_are i 1)
          || not (type_eq (arg_type s i 0) i.typ)
          || not (lir_floating i.typ))
        "LIR_BAD_FLOAT_NEGATION"
  check_operation compare_equal has s i = check_compare true s i
  check_operation compare_order has s i = check_compare false s i
  check_operation check_index has s i =
      reject
        (has_result i
          || not (args_are i 1)
          || not (lir_integer (arg_type s i 0))
          || leb_ℤ i.extent (pos 0)
          || not (type_eq i.typ void))
        "LIR_BAD_INDEX_CHECK"
  check_operation index_address has s i = check_index_address s i (find_slot i.slot f.slots)
  check_operation load has s i =
      reject
        (is_neg i.result
          || not (args_are i 1)
          || not (type_eq (address_target (arg_type s i 0)) i.typ))
        "LIR_BAD_LOAD"
  check_operation store has s i =
      reject
        (has_result i
          || not (args_are i 2)
          || not (type_eq (address_target (arg_type s i 0)) i.typ)
          || not (type_eq (arg_type s i 1) i.typ))
        "LIR_BAD_STORE"
  check_operation other has s i = err "LIR_UNSUPPORTED_OP"
