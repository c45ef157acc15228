-- ===== src/Lir/Body/Operation.antt =====
-- The cases of the switch of `VerifyLIR`, lines 421 to 617 of internal/concept/lir.go, and
-- `verifyLIRVariantOperation` of lir_match.go, lines 233 to 250. An error is its code word.
use concept.Base.{
  ℕ, suc, ◌-◌, ◌/◌, ℤ, pos, pos_part, List, [], ◌∷◌, Bool, true, false, ◌&&◌, ◌||◌, not, Option,
  none, some, if◌then◌else◌, ◌==◌, ◌==ℤ◌, ltb, leb_ℤ, ltb_ℤ, is_neg, minus_one, in_range, length,
  any, get_elem?, get_at?, str_eq, String, Check, ok, err, reject, ◌>>◌,
}
use concept.Lir.Types.{
  LirType, ptr, bool, void, type_eq, lir_integer, lir_reference_type, lir_width,
}
use concept.Lir.Frame.{LirMachineField}
use concept.Lir.Function.{
  LirValue, LirSlot, LirInstruction, LirFunction, LirAggregateField, LirTaggedEnum, LirEnum,
}
use concept.Lir.Borrow.{no_type}
use concept.Lir.Body.{
  Env, Body, known_type, arg_type, guarded, is_pointer, lir_call_value, lir_borrow_reference,
}

abbrev pub has_result : LirInstruction → Bool
has_result i = not (is_neg i.result)

abbrev pub no_slot : LirInstruction → Bool
no_slot i = i.slot ==ℤ minus_one

abbrev pub args_are : LirInstruction → ℕ → Bool
args_are i n = length i.args == n

abbrev pub variant_fields : LirTaggedEnum → ℤ → List LirAggregateField
variant_fields d member = elim (get_at? d.variants member) [ none ↦ [] | some v ↦ v.fields ]

abbrev pub field_type : List LirAggregateField → ℤ → LirType
field_type fields k = elim (get_at? fields k) [ none ↦ no_type | some m ↦ m.typ ]

abbrev pub field_offset : List LirAggregateField → ℤ → ℤ
field_offset fields k = elim (get_at? fields k) [ none ↦ pos 0 | some m ↦ m.offset ]

-- The enums of the type; the last one counts.
unfoldable pub enum_count : LirType → List LirEnum → ℕ → ℕ
enum_count t [] n = n
enum_count t (e ∷ es) n = enum_count t es (if type_eq e.typ t then length e.variants else n)

unfoldable pub variant_count : Env → LirType → ℕ
variant_count env t =
    enum_count t env.enums (elim (env.tagged t) [ none ↦ 0 | some d ↦ length d.variants ])

unfoldable pub verify_lir_variant_operation : Env → LirInstruction → LirType → Check
verify_lir_variant_operation env i arg = do
  reject
      (variant_count env arg == 0
        || not (type_eq i.aggregate arg)
        || not (args_are i 1)
        || not (in_range i.member (variant_count env arg))
        || not (no_slot i)
        || not (i.extent ==ℤ pos 0)
        || not (i.stride ==ℤ pos 0)
        || not (i.frame_offset ==ℤ pos 0)
        || not (str_eq i.literal ""))
      "LIR_PATTERN_VARIANT"
  reject
      (str_eq i.op "test_variant" && (not (type_eq i.typ bool) || is_neg i.result)
        || str_eq i.op "require_variant"
          && (not (type_eq i.typ void) || not (i.result ==ℤ minus_one)))
      "LIR_PATTERN_VARIANT"

-- `for i, field := range fields { if argType(i) != field.Type { ... } }`
unfoldable pub match_fields : Body → LirInstruction → String → ℕ → List LirAggregateField → Check
match_fields s i code k [] = ok tt
match_fields s i code k (m ∷ ms) = do
  reject (not (type_eq (arg_type s i k) m.typ)) code
  match_fields s i code (suc k) ms

unfoldable pub match_elements : Body → LirInstruction → LirType → ℕ → List ℤ → Check
match_elements s i element k [] = ok tt
match_elements s i element k (a ∷ rest) = do
  reject (not (type_eq (arg_type s i k) element)) "LIR_BAD_ARRAY_ELEMENT"
  match_elements s i element (suc k) rest

-- The members of `record_with`; `seen` are the ones before.
unfoldable pub match_members :
    Body → LirInstruction → List LirAggregateField → List ℤ → ℕ → List ℤ → Check
match_members s i fields seen k [] = ok tt
match_members s i fields seen k (m ∷ ms) = do
  reject
      (not (in_range m (length fields))
        || any (λ x. x ==ℤ m) seen
        || not (type_eq (arg_type s i (suc k)) (field_type fields m)))
      "LIR_BAD_RECORD_WITH_MEMBER"
  match_members s i fields (m ∷ seen) (suc k) ms

unfoldable pub check_call_reference : LirFunction → LirFunction → ℤ → ℤ → Check
check_call_reference f target arg param = elim (lir_borrow_reference f arg) [
  | none ↦ err "LIR_REFERENCE_CALL_TARGET"
  | some supplied ↦ elim (lir_borrow_reference target param) [
    | none ↦ err "LIR_REFERENCE_CALL_TARGET"
    | some required ↦
        reject (not (str_eq supplied.semantic_target required.semantic_target))
          "LIR_REFERENCE_CALL_TARGET"
  ]
]

-- The lists have the same length where this is reached.
unfoldable pub check_call_arguments :
    Env → LirFunction → LirFunction → Body → List ℤ → List LirType → List LirValue → Check
check_call_arguments env f target s (a ∷ rest) (t ∷ ts) (p ∷ ps) = do
  reject
      (not (lir_call_value env.layouts t)
        || not (type_eq t (known_type s a))
        || not (type_eq t p.typ))
      "LIR_BAD_CALL_ARGUMENT"
  (if lir_reference_type t then check_call_reference f target a p.id else ok tt)
  check_call_arguments env f target s rest ts ps
check_call_arguments env f target s _ _ _ = ok tt

unfoldable pub check_call : Env → LirFunction → Body → LirInstruction → LirFunction → Check
check_call env f s i target = do
  reject
      (not (str_eq target.name i.callee)
        || not (str_eq i.call_abi "win64")
        || not (no_slot i)
        || not (args_are i (length target.params))
        || not (length i.arg_types == length i.args)
        || not (type_eq i.typ target.result))
      "LIR_BAD_CALL"
  reject
      (if type_eq i.typ void
        then has_result i
        else is_neg i.result || not (lir_call_value env.layouts i.typ))
      "LIR_BAD_CALL_RESULT"
  check_call_arguments env f target s i.args i.arg_types target.params

-- `in.Literal` names a result of a Step function.
abbrev pub is_step : LirFunction → Bool
is_step f =
    elim f.machine [ none ↦ false | some m ↦ str_eq m.role "step" ]
    || elim f.activation [ none ↦ false | some a ↦ str_eq a.role "step" ]

-- The address of a field of the frame that the first parameter points to.
unfoldable pub check_frame_address :
    LirFunction → LirInstruction → List LirMachineField → String → String → Check
check_frame_address f i fields no_address bad_offset = do
  reject
      (not (in_range i.frame_field (length fields))
        || is_neg i.result
        || not (args_are i 1)
        || not (elim f.params [
          | [] ↦ false
          | p ∷ ps ↦ elim i.args [ [] ↦ false | a ∷ rest ↦ a ==ℤ p.id ]
        ]))
      no_address
  elim (get_at? fields i.frame_field) [
    | none ↦ err no_address
    | some m ↦
        reject (not (i.frame_offset ==ℤ m.offset) || not (type_eq i.typ (ptr m.typ))) bad_offset
  ]

-- The last element starts more than 2147483647 bytes behind the base. The quotient is read
-- only where the numbers are positive.
abbrev pub out_of_reach : LirInstruction → Bool
out_of_reach i =
    leb_ℤ i.extent (pos 0)
    || leb_ℤ i.stride (pos 0)
    || ltb_ℤ (pos 2147483647) i.stride
    || ltb_ℤ (pos 2147483647) i.frame_offset
    || ltb_ℤ (pos 1) i.extent
      && ltb ((2147483647 - pos_part i.frame_offset) / (pos_part i.extent - 1)) (pos_part i.stride)

-- `in.Args[indexArg]` has been compared with the extent in this block.
unfoldable pub check_index_guard : Body → LirInstruction → ℕ → Check
check_index_guard s i k = elim (get_elem? i.args k) [
  | none ↦ err "LIR_MISSING_INDEX_GUARD"
  | some v ↦ reject (not (guarded s.guards v i.extent)) "LIR_MISSING_INDEX_GUARD"
]

unfoldable pub check_index_address : Body → LirInstruction → Option LirSlot → Check
check_index_address s i slot = do
  reject
      (if no_slot i
        then not (args_are i 2)
          || not (is_pointer (arg_type s i 0))
          || not (is_pointer i.typ)
          || is_neg i.frame_offset
        else elim slot [
          | none ↦ true
          | some l ↦
              leb_ℤ l.extent (pos 0)
              || not (l.extent ==ℤ i.extent)
              || not (i.stride ==ℤ pos (lir_width l.element))
              || not (args_are i 1)
              || not (type_eq i.typ (ptr l.element))
              || not (i.frame_offset ==ℤ pos 0)
        ])
      "LIR_BAD_INDEX_ADDRESS"
  reject
      (is_neg i.result
        || not (lir_integer (arg_type s i (if no_slot i then 1 else 0)))
        || out_of_reach i)
      "LIR_BAD_INDEX_ADDRESS"
  check_index_guard s i (if no_slot i then 1 else 0)
