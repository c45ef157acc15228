-- ===== src/Lir/Frame/Fields.antt =====
-- The fields of an accepted machine frame.
use Prim.Native.String.{◌++◌ as str_append}
use concept.Lir.Frame.{
  LirMachineField, add_int, has_remainder, verify_lir_machine_function, bad_field, verify_state,
  not_positive, LirFunction, verify_fields, LirBlock, verify_lir_machine, LirMachineFunction,
  LirMachineState, label_is, verify_optional_machine,
}
use concept.Base.{
  ℤ, ◌+ℤ◌, ◌≤ℤ◌, pos, List, ◌∷◌, ◌≡◌, negsuc, false, arith, [], ltb_ℤ, Option, Bool, if_false,
  +ℤ_parts, ℕ, String, ok, some, All, get_elem?, >>-eq-ok, for_each, reject, get_at?, true, eq_iff,
  for_each-get, reject-eq-ok, subst, not, suc, ◌||◌, ◌==ℤ◌, ◌-ℤ◌, none, ◌∙◌, str_eq, ||-false, refl,
  ◌&&◌, zero-add,
}

-- The field ends at or below the largest `int`.
abbrev pub FieldFits : LirMachineField → Type 0
FieldFits f = f.offset +ℤ f.size ≤ℤ pos 9223372036854775807

-- The fields follow one another from `from` without overlap, end at or below `size`, and each is at
-- a multiple of its alignment.
abbrev pub FieldsInOrder : ℤ → ℤ → List LirMachineField → Type 0
FieldsInOrder from size [] = Unit
FieldsInOrder from size (f ∷ fs) =
    (from ≤ℤ f.offset)
    × (f.offset +ℤ f.size ≤ℤ size)
    × (has_remainder f.offset f.alignment ≡ false)
    × FieldsInOrder (f.offset +ℤ f.size) size fs

not_above : (s : ℤ) → s ≤ℤ pos 9223372036854775807 → ltb_ℤ (pos 9223372036854775807) s ≡ false
not_above s h = ground arith

not_below : (s : ℤ) → pos 0 ≤ℤ s → ltb_ℤ s (negsuc 9223372036854775807) ≡ false
not_below s h = ground arith

add_int-fits :
    (a b : ℤ) → pos 0 ≤ℤ a +ℤ b → a +ℤ b ≤ℤ pos 9223372036854775807 → add_int a b ≡ a +ℤ b
unfolding add_int
add_int-fits a b h l =
    let s = a +ℤ b in
    if_false (ltb_ℤ (pos 9223372036854775807) s) (s -ℤ pos 18446744073709551616) _ (not_above s l)
    ∙ if_false (ltb_ℤ s (negsuc 9223372036854775807)) (s +ℤ pos 18446744073709551616) s
        (not_below s h)

sum_pos : (from a b : ℤ) → pos 0 ≤ℤ from → from ≤ℤ a → not_positive b ≡ false → pos 0 ≤ℤ a +ℤ b
sum_pos from a b f h k = ground (arith, +ℤ_parts a b)

not_ltb : (a b : ℤ) → ltb_ℤ a b ≡ false → b ≤ℤ a
not_ltb a b h = ground arith

-- What a field that is not refused satisfies.
accepted_field :
    (i : ℕ) (end size : ℤ) (f : LirMachineField)
    → bad_field i end size f ≡ false
    → (not_positive f.size ≡ false)
      × (end ≤ℤ f.offset)
      × (has_remainder f.offset f.alignment ≡ false)
      × (add_int f.offset f.size ≤ℤ size)
unfolding bad_field
accepted_field i end size f h =
    let (a, h₁) =
      ||-false
        (not (f.id ==ℤ pos i)
          || str_eq f.name ""
          || not_positive f.size
          || not_positive f.alignment)
        _ h in
    let (b, h₂) = ||-false (ltb_ℤ f.offset end) _ h₁ in
    let (c, h₃) = ||-false (has_remainder f.offset f.alignment) _ h₂ in
    let (d, _) = ||-false (ltb_ℤ size (add_int f.offset f.size)) _ h₃ in
    (
      third (not (f.id ==ℤ pos i)) (str_eq f.name "") (not_positive f.size)
          (not_positive f.alignment) a,
      not_ltb f.offset end b,
      c,
      not_ltb size (add_int f.offset f.size) d,
    )
  where
    third : (p q r s : Bool) → (p || q || r || s) ≡ false → r ≡ false
    third p q r s h = ground arith

verify_fields-FieldsInOrder :
    (i : ℕ) (end size : ℤ) (fs : List LirMachineField)
    → pos 0 ≤ℤ end
    → verify_fields i end size fs ≡ ok tt
    → All FieldFits fs
    → FieldsInOrder end size fs
unfolding verify_fields
verify_fields-FieldsInOrder i end size [] e h f = tt
verify_fields-FieldsInOrder i end size (x ∷ fs) e h (f, rest) =
    let (t, h₁) = >>-eq-ok (reject (bad_field i end size x) "LIR_BAD_MACHINE_FIELD") _ h in
    let (p, lo, m, hi) = accepted_field i end size x (reject-eq-ok _ _ t) in
    let s = sum_pos end x.offset x.size e lo p in
    let q = add_int-fits x.offset x.size s f in
    (
      lo,
      subst (λ y. y ≤ℤ size) q hi,
      m,
      verify_fields-FieldsInOrder (suc i) (x.offset +ℤ x.size) size fs s
          (subst (λ y. verify_fields (suc i) y size fs ≡ ok tt) q h₁) rest,
    )

-- What `verify_lir_machine` passed.
pub record AcceptedMachine (f : LirFunction) (m : LirMachineFunction) : Type 0 where
  pub fields_checked : verify_fields 0 (pos 0) m.size m.fields ≡ ok tt
  pub padded : has_remainder m.size m.alignment ≡ false
  pub states_checked : for_each (verify_state f m.role) 0 m.states ≡ ok tt

pub verify_lir_machine-AcceptedMachine :
    (f : LirFunction) (m : LirMachineFunction)
    → f.machine ≡ some m
    → verify_lir_machine_function f ≡ ok tt
    → AcceptedMachine f m
unfolding verify_lir_machine_function verify_optional_machine verify_lir_machine
verify_lir_machine-AcceptedMachine f m e h =
    let h₀ : verify_lir_machine f m ≡ ok tt =
      subst (λ x. verify_optional_machine f x ≡ ok tt) e h in
    let (_, h₁) = >>-eq-ok (reject _ "LIR_BAD_MACHINE_FRAME") _ h₀ in
    let (_, h₂) = >>-eq-ok (reject _ "LIR_BAD_MACHINE_RESULT_TYPE") _ h₁ in
    let (_, h₃) = >>-eq-ok (reject _ "LIR_BAD_MACHINE_INIT_CFG") _ h₂ in
    let (fields, h₄) = >>-eq-ok (verify_fields 0 (pos 0) m.size m.fields) _ h₃ in
    let (_, h₅) = >>-eq-ok (reject _ "LIR_BAD_MACHINE_STATUS") _ h₄ in
    let (size, h₆) =
      >>-eq-ok (reject (has_remainder m.size m.alignment) "LIR_BAD_MACHINE_FRAME") _ h₅ in
    let (_, states) = >>-eq-ok (reject _ "LIR_MISSING_MACHINE_STATES") _ h₆ in
    record { fields_checked = fields; padded = reject-eq-ok _ _ size; states_checked = states }

-- In an accepted frame whose fields all end at or below the largest `int`, the fields follow one
-- another without overlap, each at a multiple of its alignment, and end within the frame's size.
pub verify_lir_machine_function-FieldsInOrder :
    (f : LirFunction) (m : LirMachineFunction)
    → f.machine ≡ some m
    → verify_lir_machine_function f ≡ ok tt
    → All FieldFits m.fields
    → FieldsInOrder (pos 0) m.size m.fields
verify_lir_machine_function-FieldsInOrder f m e h fits =
    verify_fields-FieldsInOrder 0 (pos 0) m.size m.fields (omega arith)
      (verify_lir_machine-AcceptedMachine f m e h).fields_checked fits

label_block :
    (o : Option LirBlock) (l : String)
    → label_is o l ≡ true
    → (b : LirBlock) × (o ≡ some b) × (b.label ≡ l)
label_block none l h = cc
label_block (some b) l h = (b, refl, (eq_iff b.label l).0 h)

state_labelled : (p q r s : Bool) → (p || q || (true && not r || s)) ≡ false → r ≡ true
state_labelled p q r s h = ground arith

-- Every state of an accepted Step function names a block of the function, which carries the label
-- of the state.
pub verify_lir_machine_function-block :
    (f : LirFunction) (m : LirMachineFunction) (i : ℕ) (s : LirMachineState)
    → f.machine ≡ some m
    → verify_lir_machine_function f ≡ ok tt
    → m.role ≡ "step"
    → get_elem? m.states i ≡ some s
    → (b : LirBlock) × (get_at? f.blocks s.block ≡ some b) × (b.label ≡ str_append "state." s.name)
unfolding verify_state
verify_lir_machine_function-block f m i s e h r g =
    let a = verify_lir_machine-AcceptedMachine f m e h in
    let c : verify_state f m.role i s ≡ ok tt =
      subst (λ k. verify_state f m.role k s ≡ ok tt) (zero-add i)
        (for_each-get (verify_state f m.role) 0 m.states i a.states_checked g) in
    let c' : verify_state f "step" i s ≡ ok tt = subst (λ x. verify_state f x i s ≡ ok tt) r c in
    label_block (get_at? f.blocks s.block) (str_append "state." s.name) (
      state_labelled (not (s.id ==ℤ pos i)) (str_eq s.name "")
        (label_is (get_at? f.blocks s.block) (str_append "state." s.name)) _ (reject-eq-ok _ _ c'))
