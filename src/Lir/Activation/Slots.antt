-- ===== src/Lir/Activation/Slots.antt =====
-- The slots of an activation stack hold every reachable machine's frame, under a tag of its own.
use concept.Base.{
  or_fail, none, true, false, [], ◌∷◌, ok, any, >>=-eq-ok, >>-eq-ok, reject-eq-ok, ◌≡◌, Bool, List,
  ℤ, String, ℕ, Result, ◌≤ℤ◌, ◌≤◌, Option, subst, pos, map, arith, ◌⊎◌, inl, sym, ap, inr, ◌||◌,
  ◌==◌, ||-false, is_neg, ◌+◌, ◌+ℤ◌, ◌*◌, ◌∙◌, refl,
}
use concept.Lir.Activation.{
  scan_machines, activation_machine_frame, plan_slots, SlotPlan, slots_of, Scan, larger, later,
  tag_of, ActivationMachineLayout, MirMachine, MirAutomata, check_targets, frame_states,
  frame_fields, scalar_fields, current_state,
}
use concept.Layout.Align.{align_up_lem, Multiple, max_geometry, align_up}
use concept.Layout.Geometry.{value_type, Env, type_geometry_within, new_query}
use concept.Layout.Fields.{struct_field_offsets}

-- Each frame fits in a size and an alignment.
abbrev pub EachFits : List ActivationMachineLayout → ℤ → ℕ → Type 0
EachFits [] size align = Unit
EachFits (f ∷ fs) size align = (f.size ≤ℤ size) × (f.alignment ≤ align) × EachFits fs size align

-- No frame has a tag of the list or of an earlier frame.
abbrev pub TagsApart : List ActivationMachineLayout → List ℕ → Type 0
TagsApart [] tags = Unit
TagsApart (f ∷ fs) tags = (any (λ t. t == f.tag) tags ≡ false) × TagsApart fs (f.tag ∷ tags)

abbrev Scanned : List ℕ → ℤ → ℕ → Scan → Type 0
Scanned tags size align r =
    (size ≤ℤ r.max_frame_size)
    × (align ≤ r.max_frame_align)
    × EachFits r.machines r.max_frame_size r.max_frame_align
    × TagsApart r.machines tags

branch-cases :
    (b : Bool) (x y : Result Scan) (r : Scan)
    → elim b [ false ↦ x | true ↦ y ] ≡ ok r
    → (x ≡ ok r) ⊎ (y ≡ ok r)
branch-cases false x y r h = inl h
branch-cases true x y r h = inr h

frame-tag :
    (env : Env) (g : String) (m : MirMachine) (f : ActivationMachineLayout)
    → activation_machine_frame env g m ≡ ok f
    → f.tag ≡ tag_of m
unfolding activation_machine_frame
frame-tag env g m f h =
    let (scalars, h₁, e₁) = >>=-eq-ok (scalar_fields m.fields) _ h in
    let (laid, h₂, e₂) =
      >>=-eq-ok
        (struct_field_offsets (λ t. type_geometry_within 32 env (value_type t))
          (map (λ f. f.0.typ) (current_state ∷ scalars)) new_query)
        _ e₁ in
    let (fields, h₃, e₃) =
      >>=-eq-ok (frame_fields env 0 (current_state ∷ scalars) laid.offsets) _ e₂ in
    let (states, h₄, e₄) = >>=-eq-ok (frame_states 0 m.states) _ e₃ in
    sym (ap (λ z. z.tag) (ok_inj e₄))
  where
    ok_inj : {x y : ActivationMachineLayout} → ok x ≡ ok y → x ≡ y
    ok_inj p = cc

below_larger : (a b c : ℤ) → larger a b ≤ℤ c → (a ≤ℤ c) × (b ≤ℤ c)
below_larger a b c h = (ground arith, ground arith)

below_later : (a b c : ℕ) → later a b ≤ c → (a ≤ c) × (b ≤ c)
below_later a b c h = (ground arith, ground arith)

scan_machines-Scanned :
    (env : Env) (a : MirAutomata) (tags : List ℕ) (names : List String) (root : Option ℕ) (size : ℤ)
    (align : ℕ) (ms : List MirMachine) (r : Scan)
    → scan_machines env a tags names root size align ms ≡ ok r
    → Scanned tags size align r
unfolding scan_machines
scan_machines-Scanned env a tags names root size align [] r h =
    subst (Scanned tags size align) (ok_inj h) (omega arith, omega arith, tt, tt)
  where
    ok_inj : {x y : Scan} → ok x ≡ ok y → x ≡ y
    ok_inj p = cc
scan_machines-Scanned env a tags names root size align (m ∷ ms) r h =
    elim (branch-cases m.reachable _ _ r h) [
      | inl s ↦ scan_machines-Scanned env a tags names root size align ms r s
      | inr s ↦
          let (checked, s₁) = >>-eq-ok _ _ s in
          let (frame, f, s₂) = >>=-eq-ok (activation_machine_frame env a.graph_identity m) _ s₁ in
          let (rest, g, s₃) = >>=-eq-ok _ _ s₂ in
          let (ls, la, fits, apart) =
            scan_machines-Scanned env a (tag_of m ∷ tags) (m.name ∷ names) _
              (larger size frame.size) (later align frame.alignment) ms rest g in
          let same = frame-tag env a.graph_identity m frame f in
          let (not_negative, untaken) =
            ||-false (is_neg m.runtime_ordinal) _
              (or_regroup (is_neg m.runtime_ordinal) _ _ (reject-eq-ok _ _ checked)) in
          let (fresh, unnamed) = ||-false (any (λ t. t == tag_of m) tags) _ untaken in
          let (ss, fs) = below_larger size frame.size rest.max_frame_size ls in
          let (sa, fa) = below_later align frame.alignment rest.max_frame_align la in
          subst (Scanned tags size align) (ok_inj s₃) (
            ss,
            sa,
            (fs, fa, fits),
            (
              subst (λ k. any (λ t. t == k) tags ≡ false) (sym same) fresh,
              subst (λ k. TagsApart rest.machines (k ∷ tags)) (sym same) apart,
            ),
          )
    ]
  where
    ok_inj : {x y : Scan} → ok x ≡ ok y → x ≡ y
    ok_inj p = cc

    or_regroup : (x y z : Bool) → (x || y || z) ≡ false → (x || (y || z)) ≡ false
    or_regroup x y z p = ground arith

-- In a plan, every frame is no larger and no more aligned than the plan's maxima, the tags of the
-- frames are pairwise different, and the largest alignment is positive.
pub plan_slots-EachFits :
    (env : Env) (a : MirAutomata) (p : SlotPlan)
    → plan_slots env a ≡ ok p
    → EachFits p.machines p.max_frame_size p.max_frame_align
      × TagsApart p.machines []
      × (1 ≤ p.max_frame_align)
unfolding plan_slots
plan_slots-EachFits env a p h =
    let (c₁, h₁) = >>-eq-ok _ _ h in
    let (c₂, h₂) = >>-eq-ok _ _ h₁ in
    let (scan, s, h₃) = >>=-eq-ok (scan_machines env a [] [] none (pos 0) 1 a.machines) _ h₂ in
    let (root, t, h₄) = >>=-eq-ok (or_fail scan.root_tag "EVT2_ACTIVATION_ROOT_MISSING") _ h₃ in
    let (c₃, h₅) = >>-eq-ok (check_targets scan.names a.machines) (ok (slots_of root scan)) h₄ in
    let (ls, la, fits, apart) =
      scan_machines-Scanned env a [] [] none (pos 0) 1 a.machines scan s in
    subst
      (λ q.
        EachFits q.machines q.max_frame_size q.max_frame_align
        × TagsApart q.machines []
        × (1 ≤ q.max_frame_align))
      {x = slots_of root scan} (ok_inj h₅) (fits, apart, la)
  where
    ok_inj : {x y : SlotPlan} → ok x ≡ ok y → x ≡ y
    ok_inj q = cc

IsSlots : SlotPlan → Type 0
IsSlots p =
    (p.slot_data_offset ≡ align_up (pos 4) p.max_frame_align)
    × (p.slot_size ≡ align_up (p.slot_data_offset +ℤ p.max_frame_size) p.slot_align)
    × (p.slot_align ≡ later 4 p.max_frame_align)

plan_slots-IsSlots :
    (env : Env) (a : MirAutomata) (p : SlotPlan) → plan_slots env a ≡ ok p → IsSlots p
unfolding plan_slots IsSlots
plan_slots-IsSlots env a p h =
    let (c₁, h₁) = >>-eq-ok _ _ h in
    let (c₂, h₂) = >>-eq-ok _ _ h₁ in
    let (scan, s, h₃) = >>=-eq-ok (scan_machines env a [] [] none (pos 0) 1 a.machines) _ h₂ in
    let (root, t, h₄) = >>=-eq-ok (or_fail scan.root_tag "EVT2_ACTIVATION_ROOT_MISSING") _ h₃ in
    let (c₃, h₅) = >>-eq-ok (check_targets scan.names a.machines) (ok (slots_of root scan)) h₄ in
    subst IsSlots {x = slots_of root scan} (ok_inj h₅) (refl, refl, refl)
  where
    ok_inj : {x y : SlotPlan} → ok x ≡ ok y → x ≡ y
    ok_inj q = cc

at_least_four : (a : ℕ) → 4 ≤ later 4 a
at_least_four a = ground arith

at_most_sum : (a : ℕ) → later 4 a ≤ a + 4
at_most_sum a = ground arith

-- In a plan whose frames are of at most n bytes, where n and twice the largest alignment stay below
-- the largest `int`, the frame storage of a slot starts at a multiple of the largest alignment
-- behind the four bytes of the tag, and the slot holds n bytes there; its size is a multiple of the
-- slot alignment, which is at least 4.
pub plan_slots-Multiple :
    (env : Env) (a : MirAutomata) (p : SlotPlan) (n : ℕ)
    → plan_slots env a ≡ ok p
    → p.max_frame_size ≡ pos n
    → n + 2 * p.max_frame_align + 8 ≤ max_geometry
    → (d t : ℕ) × (p.slot_data_offset ≡ pos d)
      × (p.slot_size ≡ pos t)
      × Multiple d p.max_frame_align
      × (4 ≤ d)
      × (d + n ≤ t)
      × Multiple t p.slot_align
      × (4 ≤ p.slot_align)
unfolding IsSlots ◌+ℤ◌
plan_slots-Multiple env a p n h size room =
    let (fits, apart, positive) = plan_slots-EachFits env a p h in
    let (begin, total, align) = plan_slots-IsSlots env a p h in
    let (d, ed, md, low, high) = align_up_lem 4 p.max_frame_align positive (omega arith) in
    let bound = at_most_sum p.max_frame_align in
    let four : 4 ≤ p.slot_align =
      subst (λ z. 4 ≤ z) (sym align) (at_least_four p.max_frame_align) in
    let small : p.slot_align ≤ p.max_frame_align + 4 =
      subst (λ z. z ≤ p.max_frame_align + 4) (sym align) bound in
    let start : p.slot_data_offset ≡ pos d = begin ∙ ed in
    let (t, et, mt, fit, most) =
      align_up_lem (d + n) p.slot_align (omega (arith, four)) (omega (arith, high, room, small)) in
    (
      d,
      t,
      start,
      total
          ∙ ap (λ z. align_up z p.slot_align)
              (ap (λ z. z +ℤ p.max_frame_size) start ∙ ap (λ z. pos d +ℤ z) size ∙ sum d n)
          ∙ et,
      md,
      low,
      fit,
      mt,
      four,
    )
  where
    sum : (d n : ℕ) → pos d +ℤ pos n ≡ pos (d + n)
    sum d n = ground arith
