-- ===== src/Lir/Aggregate/Ordered.antt =====
-- The fields of the layouts that `verifyLIRAggregateLayouts` of internal/concept/lir_aggregate.go
-- accepts.
use concept.Base.{
  ℕ, zero, suc, ℤ, pos, ◌+ℤ◌, ◌-ℤ◌, ◌≤ℤ◌, List, [], ◌∷◌, Bool, false, ◌||◌, length, ltb, ltb_ℤ,
  get_elem?, String, ok, reject, some, ◌≡◌, sym, subst, ap, >>-eq-ok, >>=-eq-ok, reject-eq-ok,
  ok_inj, ||-false, -ℤ_parts, +ℤ_parts, arith, some_inj,
}
use concept.Lir.Function.{LirAggregateField, LirAggregateLayout, LirEnum}
use concept.Lir.Frame.{has_remainder, not_positive}
use concept.Lir.Aggregate.{
  Verified, Layouts, lir_aggregate_max_size, lir_aggregate_max_layouts, bad_aggregate_field,
  bad_aggregate_layout, check_aggregate_array, verify_aggregate_fields, verify_aggregate_layout,
  verify_each_layout, verify_lir_aggregate_layouts, stale_aggregate_layout,
}
use concept.Lir.Body.{lir_array_value}
use concept.Lir.Borrow.Definitions.{Has}

-- The fields follow one another from `from` without overlap and end within the layout; each is at a
-- multiple of its alignment, which is at most that of the layout.
abbrev pub AreOrdered : LirAggregateLayout → ℤ → List LirAggregateField → Type 0
AreOrdered l from [] = Unit
AreOrdered l from (f ∷ fs) =
    (from ≤ℤ f.offset)
    × (pos 1 ≤ℤ f.size)
    × (f.offset +ℤ f.size ≤ℤ l.size)
    × (pos 1 ≤ℤ f.alignment)
    × (f.alignment ≤ℤ l.alignment)
    × (has_remainder f.offset f.alignment ≡ false)
    × AreOrdered l (f.offset +ℤ f.size) fs

-- The size is a multiple of the alignment, and the fields are in order from the start.
abbrev pub IsOrdered : LirAggregateLayout → Type 0
IsOrdered l =
    (l.size ≤ℤ pos 1048576)
    × (pos 1 ≤ℤ l.alignment)
    × (l.alignment ≤ℤ pos 16)
    × (has_remainder l.size l.alignment ≡ false)
    × AreOrdered l (pos 0) l.fields

at_least_one : (x : ℤ) → not_positive x ≡ false → pos 1 ≤ℤ x
at_least_one x h = ground arith

at_most : (a b : ℤ) → ltb_ℤ a b ≡ false → b ≤ℤ a
at_most a b h = ground arith

within : (o s t : ℤ) → o ≤ℤ t -ℤ s → o +ℤ s ≤ℤ t
within o s t h = ground (arith, -ℤ_parts t s, +ℤ_parts o s)

three : (p q r : Bool) → (p || q || r) ≡ false → (p ≡ false) × (q ≡ false) × (r ≡ false)
three p q r h = ground arith

four : (p q r s : Bool) → (p || q || r || s) ≡ false → (p ≡ false) × (r ≡ false) × (s ≡ false)
four p q r s h = ground arith

-- What a field that is not refused satisfies.
field-ok :
    (l : LirAggregateLayout) (end : ℤ) (names : List String) (f : LirAggregateField)
    → bad_aggregate_field l end names f ≡ false
    → (end ≤ℤ f.offset)
      × (pos 1 ≤ℤ f.size)
      × (f.offset +ℤ f.size ≤ℤ l.size)
      × (pos 1 ≤ℤ f.alignment)
      × (f.alignment ≤ℤ l.alignment)
      × (has_remainder f.offset f.alignment ≡ false)
unfolding bad_aggregate_field
field-ok l end names f h =
    let (h₁, place) =
      ||-false _ (ltb_ℤ f.offset end || _ || has_remainder f.offset f.alignment) h in
    let (h₂, _) = ||-false _ _ h₁ in
    let (_, sizes) =
      ||-false _ (not_positive f.size || ltb_ℤ l.size f.size || not_positive f.alignment || _) h₂ in
    let (s, a, b) =
      four (not_positive f.size) (ltb_ℤ l.size f.size) (not_positive f.alignment) _ sizes in
    let (o, e, r) = three (ltb_ℤ f.offset end) (ltb_ℤ (l.size -ℤ f.size) f.offset) _ place in
    (
      at_most f.offset end o,
      at_least_one f.size s,
      within f.offset f.size l.size (at_most (l.size -ℤ f.size) f.offset e),
      at_least_one f.alignment a,
      at_most l.alignment f.alignment b,
      r,
    )

fields-AreOrdered :
    (enums : List LirEnum) (v : Verified) (l : LirAggregateLayout) (end : ℤ) (depth : ℕ)
    → (names : List String) (fs : List LirAggregateField) {d : ℕ}
    → verify_aggregate_fields enums v l end depth names fs ≡ ok d
    → AreOrdered l end fs
unfolding verify_aggregate_fields
fields-AreOrdered enums v l end depth names [] h = tt
fields-AreOrdered enums v l end depth names (f ∷ fs) h =
    let (t, h₁) = >>-eq-ok (reject (bad_aggregate_field l end names f) _) _ h in
    let (_, h₂) = >>-eq-ok (reject _ "LIR_BAD_AGGREGATE_FIELD_TYPE") _ h₁ in
    let (_, h₃) = >>-eq-ok (check_aggregate_array v.layouts f (lir_array_value f.typ)) _ h₂ in
    let (a, b, c, d, e, g) = field-ok l end names f (reject-eq-ok _ _ t) in
    (a, b, c, d, e, g, fields-AreOrdered enums v l (f.offset +ℤ f.size) _ (f.name ∷ names) fs h₃)

layout-ok :
    (l : LirAggregateLayout)
    → bad_aggregate_layout l ≡ false
    → (l.size ≤ℤ pos 1048576)
      × (pos 1 ≤ℤ l.alignment)
      × (l.alignment ≤ℤ pos 16)
      × (has_remainder l.size l.alignment ≡ false)
unfolding bad_aggregate_layout
layout-ok l h =
    let (h₁, _) = ||-false _ _ h in
    let (h₂, r) = ||-false _ (has_remainder l.size l.alignment) h₁ in
    let (h₃, b) = ||-false _ (ltb_ℤ (pos 16) l.alignment || _) h₂ in
    let (_, c) = ||-false _ (not_positive l.size || _ || not_positive l.alignment) h₃ in
    let (_, most, align) =
      three (not_positive l.size) (ltb_ℤ (pos lir_aggregate_max_size) l.size) _ c in
    (
      at_most (pos 1048576) l.size most,
      at_least_one l.alignment align,
      at_most (pos 16) l.alignment (||-false (ltb_ℤ (pos 16) l.alignment) _ b).0,
      r,
    )

abbrev pub no_layouts : Verified
no_layouts = record { layouts = []; depths = []; identities = [] }

module _ (digest : LirAggregateLayout → String) (enums : List LirEnum) where
  -- What a layout that is accepted has passed.
  pub record Accepted (v : Verified) (l : LirAggregateLayout) (w : Verified) : Type 0 where
    pub fresh : stale_aggregate_layout digest v l ≡ false
    pub good : bad_aggregate_layout l ≡ false
    pub depth : ℕ
    pub fields : verify_aggregate_fields enums v l (pos 0) 1 [] l.fields ≡ ok depth
    pub stored : w.layouts ≡ l ∷ v.layouts

  verify_aggregate_layout-Accepted :
      (v : Verified) (l : LirAggregateLayout) (w : Verified)
      → verify_aggregate_layout digest enums v l ≡ ok w
      → Accepted v l w
  unfolding verify_aggregate_layout
  verify_aggregate_layout-Accepted v l w h =
      let (a, h₁) = >>-eq-ok (reject (stale_aggregate_layout digest v l) _) _ h in
      let (_, h₂) = >>-eq-ok (reject _ "LIR_AGGREGATE_COPY_ELIGIBILITY") _ h₁ in
      let (b, h₃) = >>-eq-ok (reject (bad_aggregate_layout l) _) _ h₂ in
      let (d, c, h₄) = >>=-eq-ok (verify_aggregate_fields enums v l (pos 0) 1 [] l.fields) _ h₃ in
      let (_, h₅) = >>-eq-ok (reject _ "LIR_AGGREGATE_DEPTH_EXCEEDED") _ h₄ in
      record {
        fresh = reject-eq-ok _ _ a;
        good = reject-eq-ok _ _ b;
        depth = d;
        fields = c;
        stored = sym (ap (λ (x : Verified). x.layouts) (ok_inj h₅));
      }

  -- The layouts are accepted one after another.
  pub data Chain : Verified → Layouts → Verified → Type 0 where
    stop : {v : Verified} → Chain v [] v
    go :
        {v : Verified} {l : LirAggregateLayout} {w : Verified} {ls : Layouts} {u : Verified}
        → Accepted v l w
        → Chain w ls u
        → Chain v (l ∷ ls) u

  verify_each_layout-Chain :
      (v : Verified) (ls : Layouts) (u : Verified)
      → verify_each_layout digest enums v ls ≡ ok u
      → Chain v ls u
  unfolding verify_each_layout
  verify_each_layout-Chain v [] u h = subst (Chain v []) (ok_inj h) stop
  verify_each_layout-Chain v (l ∷ ls) u h =
      let (w, now, later) = >>=-eq-ok (verify_aggregate_layout digest enums v l) _ h in
      go (verify_aggregate_layout-Accepted v l w now) (verify_each_layout-Chain w ls u later)

  pub verify_lir_aggregate_layouts-Chain :
      (list out : Layouts)
      → verify_lir_aggregate_layouts digest list enums ≡ ok out
      → (u : Verified) × Chain no_layouts list u × (u.layouts ≡ out)
  unfolding verify_lir_aggregate_layouts
  verify_lir_aggregate_layouts-Chain list out h =
      let (_, h₁) = >>-eq-ok (reject (ltb lir_aggregate_max_layouts (length list)) _) _ h in
      let (u, each, h₂) = >>=-eq-ok (verify_each_layout digest enums no_layouts list) _ h₁ in
      (u, verify_each_layout-Chain no_layouts list u each, ok_inj h₂)

  Chain-IsOrdered :
      (v : Verified) (ls : Layouts) (u : Verified) (l : LirAggregateLayout) (k : ℕ)
      → Chain v ls u
      → get_elem? ls k ≡ some l
      → IsOrdered l
  Chain-IsOrdered v _ u l k stop e = cc
  Chain-IsOrdered v _ u l zero (go {l = m} {ls = ls} a c) e = subst IsOrdered (some_inj e) (
      let (size, align, most, r) = layout-ok m a.good in
      (size, align, most, r, fields-AreOrdered enums v m (pos 0) 1 [] m.fields a.fields))
  Chain-IsOrdered v _ u l (suc k) (go {w = w} {ls = ls} a c) e = Chain-IsOrdered w ls u l k c e

  -- In every layout of an accepted list the fields follow one another without overlap and end within
  -- the layout, which has at most 1048576 bytes, each at a multiple of its alignment; the layout's
  -- alignment is at least theirs and at most 16, and its size is a multiple of it.
  pub verify_lir_aggregate_layouts-IsOrdered :
      (list out : Layouts) (l : LirAggregateLayout)
      → verify_lir_aggregate_layouts digest list enums ≡ ok out
      → Has l list
      → IsOrdered l
  verify_lir_aggregate_layouts-IsOrdered list out l h (k, e) =
      let (u, chain, _) = verify_lir_aggregate_layouts-Chain list out h in
      Chain-IsOrdered no_layouts list u l k chain e
