-- ===== src/Layout/Fields/Placement.antt =====
-- Where `struct_field_offsets` puts the fields.
use concept.Layout.Fields.{place, Geometry, field_offsets, Laid, struct_field_offsets}
use concept.Base.{
  ℕ, ◌-ℤ◌, List, ◌+ℤ◌, ◌≤◌, ◌∷◌, ℤ, pos, ◌+◌, ◌≡◌, ok, >>-eq-ok, reject, suc, arith, [], map,
  Result, ap, sym, ok_inj, >>=-eq-ok, max, ◌∙◌, subst, ◌<◌, refl, ltb_ℤ,
}
use concept.Layout.Align.{Multiple, max_geometry, align_up_lem, align_up}

-- A field's place in memory.
pub record Cell : Type 0 where
  pub offset : ℕ
  pub geometry : Geometry

-- The cells follow one another from `from` up to `to`, each at a multiple of its alignment.
abbrev pub InOrder : ℕ → List Cell → ℕ → Type 0
InOrder from [] to = from ≤ to
InOrder from (c ∷ cs) to =
    (from ≤ c.offset) × Multiple c.offset c.geometry.1 × InOrder (c.offset + c.geometry.0) cs to

tail_fits :
    (end : ℤ) (to alignment : ℕ)
    → 1 ≤ alignment
    → end ≡ pos to
    → reject (ltb_ℤ (pos max_geometry -ℤ (pos alignment -ℤ pos 1)) end) "CV4573" ≡ ok tt
    → to + alignment ≤ suc max_geometry
unfolding ◌-ℤ◌
tail_fits end to alignment h e t = ground arith

room_left :
    (m size : ℕ)
    → reject (ltb_ℤ (pos max_geometry -ℤ pos size) (pos m)) "CV4573" ≡ ok tt
    → m + size ≤ max_geometry
unfolding ◌-ℤ◌
room_left m size t = ground arith

pub add_pos : (m n : ℕ) → pos m +ℤ pos n ≡ pos (m + n)
unfolding ◌+ℤ◌
add_pos m n = ground arith

place_lem :
    (end size alignment : ℕ) (r : ℤ × ℤ)
    → 1 ≤ alignment
    → end ≤ max_geometry
    → place (pos end) (size, alignment) ≡ ok r
    → (o : ℕ) × (r ≡ (pos o, pos (o + size)))
      × Multiple o alignment
      × (end ≤ o)
      × (o + size ≤ max_geometry)
unfolding place
place_lem end size alignment r h e p =
    let (t, p₁) =
      >>-eq-ok (reject (ltb_ℤ (pos max_geometry -ℤ (pos alignment -ℤ pos 1)) (pos end)) "CV4573") _
        p in
    let (u, p₂) =
      >>-eq-ok
        (reject (ltb_ℤ (pos max_geometry -ℤ pos size) (align_up (pos end) alignment)) "CV4573") _
        p₁ in
    let (m, q, k, lo, hi) =
      align_up_lem end alignment h (tail_fits (pos end) end alignment h refl t) in
    (m, sym (ok_inj p₂) ∙ rw (q, add_pos) refl, k, lo, room_left m size (rw q at u))

abbrev pub offsets_of : List Cell → List ℤ
offsets_of = map (λ c. pos c.offset)

-- The query keeps an invariant, under which alignments are positive.
module _ {F Q : Type 0} (geometry : F → Q → Result (Geometry × Q)) (Inv : Q → Type 0) where
  -- The cells have the sizes and alignments of the fields, in order.
  abbrev pub Measured : List F → Q → List Cell → Q → Type 0
  Measured [] q [] q' = q ≡ q'
  Measured [] q (c ∷ cs) q' = ⊥
  Measured (f ∷ fs) q [] q' = ⊥
  Measured (f ∷ fs) q (c ∷ cs) q' =
      (next : Q) × (geometry f q ≡ ok (c.geometry, next)) × Measured fs next cs q'

  abbrev pub PositiveAlignment : Type 0
  PositiveAlignment =
      (f : F) (q : Q) (r : Geometry × Q) → Inv q → geometry f q ≡ ok r → (1 ≤ r.0.1) × Inv r.1

  -- What the loop leaves.
  pub record Arranged (fs : List F) (q : Q) (from least : ℕ) (r : Laid Q) : Type 0 where
    pub cells : List Cell
    pub to : ℕ
    pub offsets_eq : r.offsets ≡ offsets_of cells
    pub measured : Measured fs q cells r.query
    pub end_eq : r.end ≡ pos to
    pub in_order : InOrder from cells to
    pub bounded : to ≤ max_geometry
    pub alignment_le : least ≤ r.alignment
    pub query_inv : Inv r.query

  Arranged-cons :
      (f : F) (fs : List F) (q next : Q) (g : Geometry) (o end least : ℕ) (at : ℤ) (rest r : Laid Q)
      → geometry f q ≡ ok (g, next)
      → at ≡ pos o
      → Multiple o g.1
      → end ≤ o
      → record rest { offsets = at ∷ rest.offsets } ≡ r
      → Arranged fs next (o + g.0) (max g.1 least) rest
      → Arranged (f ∷ fs) q end least r
  Arranged-cons f fs q next g o end least at rest r hm ha k lo e there = record {
    cells = record { offset = o; geometry = g } ∷ there.cells;
    to = there.to;
    offsets_eq = ap (λ x. x.offsets) (sym e) ∙ rw (ha, there.offsets_eq) refl;
    measured = (next, hm, subst (λ x. Measured fs next there.cells x.query) e there.measured);
    end_eq = ap (λ x. x.end) (sym e) ∙ there.end_eq;
    in_order = (lo, k, there.in_order);
    bounded = there.bounded;
    alignment_le = subst (λ x. least ≤ x.alignment) e (omega (arith, there.alignment_le));
    query_inv = subst (λ x. Inv x.query) e there.query_inv;
  }

  field_offsets-Arranged :
      PositiveAlignment
      → (fs : List F) (end least : ℕ) (q : Q) (r : Laid Q) → end ≤ max_geometry
      → Inv q
      → field_offsets geometry fs (pos end) least q ≡ ok r
      → Arranged fs q end least r
  unfolding field_offsets
  field_offsets-Arranged positive [] end least q r e iq h = record {
    cells = [];
    to = end;
    offsets_eq = ap (λ x. x.offsets) (sym (ok_inj h));
    measured = ap (λ x. x.query) (ok_inj h);
    end_eq = ap (λ x. x.end) (sym (ok_inj h));
    in_order = omega arith;
    bounded = e;
    alignment_le = rw (← ok_inj h) (omega arith);
    query_inv = subst (λ x. Inv x.query) (ok_inj h) iq;
  }
  field_offsets-Arranged positive (f ∷ fs) end least q r e iq h =
      let (((size, alignment), next), hm, h₀) = >>=-eq-ok (geometry f q) _ h in
      let (placed, hp, h₁) = >>=-eq-ok (place (pos end) (size, alignment)) _ h₀ in
      let (rest, hr, h₂) =
        >>=-eq-ok (field_offsets geometry fs placed.1 (max alignment least) next) _ h₁ in
      let (o, pe, k, lo, hi) =
        place_lem end size alignment placed ((positive f q _ iq hm).0) e hp in
      Arranged-cons f fs q next (size, alignment) o end least placed.0 rest r hm (ap (λ x. x.0) pe)
        k lo (ok_inj h₂)
        (field_offsets-Arranged positive fs (o + size) (max alignment least) next rest hi
          ((positive f q _ iq hm).1)
          (subst (λ x. field_offsets geometry fs x.1 (max alignment least) next ≡ ok rest) pe hr))

  -- Fields one after another without overlap, each at a multiple of its alignment, up to `to`; the
  -- size is the least multiple of the struct's alignment from there, and an `int`.
  pub record LaidOut (fs : List F) (q : Q) (r : Laid Q) : Type 0 where
    pub cells : List Cell
    pub to : ℕ
    pub size : ℕ
    pub offsets_eq : r.offsets ≡ offsets_of cells
    pub measured : Measured fs q cells r.query
    pub in_order : InOrder 0 cells to
    pub size_eq : r.end ≡ pos size
    pub padded : Multiple size r.alignment
    pub to_le : to ≤ size
    pub size_lt : size < to + r.alignment
    pub bounded : size ≤ max_geometry
    pub alignment_pos : 1 ≤ r.alignment
    pub query_inv : Inv r.query

  -- Where the query returns positive alignments and keeps its invariant, the fields of a struct that
  -- is given a layout have the sizes and alignments that the query returned, in order; they lie one
  -- after another without overlap, each at a multiple of its alignment; the size is the least
  -- multiple of the struct's alignment at or above their end, and an `int`.
  pub struct_field_offsets-LaidOut :
      PositiveAlignment
      → (fs : List F) (q : Q) (r : Laid Q) → Inv q
      → struct_field_offsets geometry fs q ≡ ok r
      → LaidOut fs q r
  unfolding struct_field_offsets
  struct_field_offsets-LaidOut positive [] q r iq h = cc
  struct_field_offsets-LaidOut positive (f ∷ fs) q r iq h =
      let (laid, hl, h₀) = >>=-eq-ok (field_offsets geometry (f ∷ fs) (pos 0) 1 q) _ h in
      let (t, h₁) = >>-eq-ok (reject _ "CV4573") _ h₀ in
      let a = field_offsets-Arranged positive (f ∷ fs) 0 1 q laid (omega arith) iq hl in
      let fits = tail_fits laid.end a.to laid.alignment a.alignment_le a.end_eq t in
      let (m, e, k, lo, hi) = align_up_lem a.to laid.alignment a.alignment_le fits in
      subst (LaidOut (f ∷ fs) q) (ok_inj h₁) (record {
        cells = a.cells;
        to = a.to;
        size = m;
        offsets_eq = a.offsets_eq;
        measured = a.measured;
        in_order = a.in_order;
        size_eq = ap (λ x. align_up x laid.alignment) a.end_eq ∙ e;
        padded = k;
        to_le = lo;
        size_lt = hi;
        bounded = omega (arith, hi, fits);
        alignment_pos = a.alignment_le;
        query_inv = a.query_inv;
      })
