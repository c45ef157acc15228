-- ===== src/Lir/Aggregate/Geometry.antt =====
-- Storing one more layout keeps what `lirAggregateGeometry` of internal/concept/lir_aggregate.go
-- answers.
use text.Mathlib.Text.{starts_with}
use text.Mathlib.TextPositions.{eq_refl}
use text.Mathlib.TextEquality.{eq_iff}
use concept.Base.{
  ℕ, zero, suc, ℤ, List, [], ◌∷◌, Bool, true, false, not, Option, none, some, String, str_eq,
  Result, ok, err, ◌≡◌, refl, sym, subst, ap, ◌∙◌, inl, inr, Bool-cases, Option-cases, arith,
  some_inj,
}
use concept.Lir.Types.{LirType, named, type_eq, type_eq→≡, lir_width}
use concept.Lir.Function.{LirAggregateLayout, LirEnum}
use concept.Lir.Borrow.{no_type}
use concept.Lir.Body.{lir_array_value}
use concept.Lir.Aggregate.{
  Layouts, find_layout, find_alias, has_type, geometry_or, geometry_from, scalar_geometry,
  is_stored, array_geometry, lir_aggregate_geometry, lir_aggregate_max_depth, field_geometry,
}

-- A type with the prefix of `lirAggregateIdentity`.
abbrev pub IsAggregate : LirType → Type 0
IsAggregate t = (s : String) × (t ≡ named s) × (starts_with s "aggregate:" ≡ true)

-- The layout may be stored.
abbrev pub IsFresh : LirAggregateLayout → Layouts → Type 0
IsFresh m layouts = IsAggregate m.typ × (is_stored m.typ layouts ≡ false)

IsAggregate-no_type : (t : LirType) → IsAggregate t → type_eq t no_type ≡ false
unfolding type_eq
IsAggregate-no_type t (s, e, p) = rw e (elim (Bool-cases (str_eq s "")) [
  | inl q ↦ absurd (cc (subst (λ x. starts_with x "aggregate:" ≡ true) ((eq_iff s "").0 q) p))
  | inr q ↦ q
])

pub IsAggregate-refl : (t : LirType) → IsAggregate t → type_eq t t ≡ true
unfolding type_eq
IsAggregate-refl t (s, e, p) = rw e (eq_refl s)

pub find_here :
    (t : LirType) (m : LirAggregateLayout) (layouts : Layouts)
    → type_eq m.typ t ≡ true
    → find_layout t (m ∷ layouts) ≡ some m
unfolding find_layout
find_here t m layouts h = rw h

pub find_there :
    (t : LirType) (m : LirAggregateLayout) (layouts : Layouts)
    → type_eq m.typ t ≡ false
    → find_layout t (m ∷ layouts) ≡ find_layout t layouts
unfolding find_layout
find_there t m layouts h = rw h

find_layout-typ :
    (t : LirType) (layouts : Layouts) (l : LirAggregateLayout)
    → find_layout t layouts ≡ some l
    → l.typ ≡ t
unfolding find_layout
find_layout-typ t [] l e = cc
find_layout-typ t (m ∷ layouts) l e = elim (Bool-cases (type_eq m.typ t)) [
  | inl q ↦ type_eq→≡ l.typ t (
      subst (λ (x : LirAggregateLayout). type_eq x.typ t ≡ true)
        (some_inj (sym (find_here t m layouts q) ∙ e)) q)
  | inr q ↦ find_layout-typ t layouts l (sym (find_there t m layouts q) ∙ e)
]

stored :
    (t : LirType) (layouts : Layouts) (l : LirAggregateLayout)
    → find_layout t layouts ≡ some l
    → is_stored t layouts ≡ not (type_eq l.typ no_type)
unfolding is_stored
stored t layouts l e = ap has_type e

-- Storing a fresh layout keeps what is found.
pub find_layout-stored :
    (t : LirType) (m : LirAggregateLayout) (layouts : Layouts) (l : LirAggregateLayout)
    → IsFresh m layouts
    → find_layout t layouts ≡ some l
    → find_layout t (m ∷ layouts) ≡ some l
find_layout-stored t m layouts l (agg, fresh) e = elim (Bool-cases (type_eq m.typ t)) [
  | inl q ↦
      (let same = type_eq→≡ m.typ t q in
        let l_is = find_layout-typ t layouts l e in
        let no = IsAggregate-no_type l.typ (subst IsAggregate (same ∙ sym l_is) agg) in
        let yes =
          stored m.typ layouts l (subst (λ x. find_layout x layouts ≡ some l) (sym same) e) in
        absurd (contradiction (type_eq l.typ no_type) no (sym yes ∙ fresh)))
  | inr q ↦ find_there t m layouts q ∙ e
]
  where
    contradiction : (b : Bool) → b ≡ false → not b ≡ false → ⊥
    contradiction b p q = ground arith

array_geometry-ok :
    (n : ℕ) (r : Result (ℤ × ℤ)) {g : ℤ × ℤ} → array_geometry n r ≡ ok g → (e : ℤ × ℤ) × (r ≡ ok e)
unfolding array_geometry
array_geometry-ok n (err c) h = cc
array_geometry-ok n (ok e) h = (e, refl)

-- The geometry of a type that is no stored layout, by its form.
geometry_from-stored :
    (v : Option (LirType × ℕ)) (p q : LirType → Result (ℤ × ℤ)) (t : LirType) {g : ℤ × ℤ}
    → ((u : LirType) (e : ℤ × ℤ) → p u ≡ ok e → q u ≡ ok e)
    → geometry_from none v p t ≡ ok g
    → geometry_from none v q t ≡ ok g
unfolding geometry_from
geometry_from-stored none p q t keep h = h
geometry_from-stored (some v) p q t keep h =
    let (e, pe) = array_geometry-ok v.1 (p v.0) h in
    ap (array_geometry v.1) (keep v.0 e pe ∙ sym pe) ∙ h

-- An aggregate that is not stored has no geometry.
missing :
    (t : LirType) (p : LirType → Result (ℤ × ℤ)) {g : ℤ × ℤ}
    → IsAggregate t
    → geometry_from none (lir_array_value t) p t ≡ ok g
    → ⊥
unfolding geometry_from lir_array_value scalar_geometry type_eq lir_width
missing t p {g} (s, e, _) h =
    cc (subst (λ x. geometry_from none (lir_array_value x) p x ≡ ok g) e h)

-- Storing a fresh layout keeps the geometry of a type.
lir_aggregate_geometry-stored :
    (m : LirAggregateLayout) (layouts : Layouts)
    → IsFresh m layouts
    → (k : ℕ) (t : LirType) (g : ℤ × ℤ) → lir_aggregate_geometry k layouts t ≡ ok g
    → lir_aggregate_geometry k (m ∷ layouts) t ≡ ok g
unfolding lir_aggregate_geometry geometry_from
lir_aggregate_geometry-stored m layouts fresh zero t g h = cc
lir_aggregate_geometry-stored m layouts fresh (suc k) t g h =
    elim (Option-cases (find_layout t layouts)) [
      | inr (l, e) ↦
          ap (λ o. geometry_from o (lir_array_value t) (lir_aggregate_geometry k (m ∷ layouts)) t)
            (find_layout-stored t m layouts l fresh e)
          ∙ sym
              (ap (λ o. geometry_from o (lir_array_value t) (lir_aggregate_geometry k layouts) t) e)
          ∙ h
      | inl e ↦
          (let h' : geometry_from none (lir_array_value t) (lir_aggregate_geometry k layouts) t
                ≡ ok g =
              sym (
                ap (λ o. geometry_from o (lir_array_value t) (lir_aggregate_geometry k layouts) t)
                  e)
              ∙ h in
            elim (Bool-cases (type_eq m.typ t)) [
              | inl q ↦ absurd (
                  missing t (lir_aggregate_geometry k layouts)
                    (subst IsAggregate (type_eq→≡ m.typ t q) fresh.0) h')
              | inr q ↦
                  ap
                    (λ o.
                      geometry_from o (lir_array_value t) (lir_aggregate_geometry k (m ∷ layouts))
                        t)
                    (find_there t m layouts q ∙ e)
                  ∙ geometry_from-stored (lir_array_value t) (lir_aggregate_geometry k layouts)
                      (lir_aggregate_geometry k (m ∷ layouts)) t
                      (lir_aggregate_geometry-stored m layouts fresh k) h'
            ])
    ]

geometry_or-keeps :
    (o : Option LirEnum) (p q : Result (ℤ × ℤ)) (g : ℤ × ℤ)
    → (p ≡ ok g → q ≡ ok g)
    → geometry_or o p ≡ ok g
    → geometry_or o q ≡ ok g
unfolding geometry_or
geometry_or-keeps none p q g keep h = keep h
geometry_or-keeps (some e) p q g keep h = h

pub field_geometry-stored :
    (enums : List LirEnum) (m : LirAggregateLayout) (layouts : Layouts) (t : LirType) (g : ℤ × ℤ)
    → IsFresh m layouts
    → field_geometry enums layouts t ≡ ok g
    → field_geometry enums (m ∷ layouts) t ≡ ok g
unfolding field_geometry
field_geometry-stored enums m layouts t g fresh h =
    geometry_or-keeps (find_alias t none enums) _ _ g
      (lir_aggregate_geometry-stored m layouts fresh lir_aggregate_max_depth t g) h
