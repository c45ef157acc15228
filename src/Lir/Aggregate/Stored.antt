-- ===== src/Lir/Aggregate/Stored.antt =====
-- The map that `verifyLIRAggregateLayouts` of internal/concept/lir_aggregate.go returns.
use Prim.Native.String.{◌++◌ as str_append}
use text.Mathlib.TextPositions.{starts_with-append}
use concept.Base.{
  ℕ, zero, suc, ℤ, pos, ◌+ℤ◌, List, [], ◌∷◌, Bool, true, false, ◌||◌, not, ◌==ℤ◌, ==ℤ_iff, some,
  get_elem?, String, Result, ok, err, reject, ◌≡◌, refl, sym, subst, >>-eq-ok, reject-eq-ok,
  ||-false, &&-true, arith, some_inj,
}
use concept.Lir.Types.{type_eq, type_eq→≡}
use concept.Lir.Function.{LirAggregateField, LirAggregateLayout, LirEnum}
use concept.Lir.Borrow.{no_type}
use concept.Lir.Borrow.Definitions.{Has}
use concept.Lir.Body.{lir_array_value}
use concept.Lir.Aggregate.{
  Verified, Layouts, find_layout, is_stored, lir_aggregate_identity, bad_aggregate_field,
  field_geometry, is_geometry, check_aggregate_array, verify_aggregate_fields,
  verify_lir_aggregate_layouts, stale_aggregate_layout,
}
use concept.Lir.Aggregate.Ordered.{
  Accepted, Chain, stop, go, no_layouts, verify_lir_aggregate_layouts-Chain,
}
use concept.Lir.Aggregate.Geometry.{
  IsFresh, find_here, find_layout-stored, field_geometry-stored, IsAggregate-refl,
}

is_geometry-eq :
    (size align : ℤ) (r : Result (ℤ × ℤ)) → is_geometry size align r ≡ true → r ≡ ok (size, align)
unfolding is_geometry
is_geometry-eq size align (err e) h = cc
is_geometry-eq size align (ok (s, a)) h =
    let (p, q) = &&-true (s ==ℤ size) _ h in rw ((==ℤ_iff s size).0 p, (==ℤ_iff a align).0 q) refl

passed : (b : Bool) → not b ≡ false → b ≡ true
passed b h = ground arith

fields-measured :
    (enums : List LirEnum) (v : Verified) (l : LirAggregateLayout) (end : ℤ) (depth : ℕ)
    → (names : List String) (fs : List LirAggregateField) (k : ℕ) (f : LirAggregateField) {d : ℕ}
    → verify_aggregate_fields enums v l end depth names fs ≡ ok d
    → get_elem? fs k ≡ some f
    → field_geometry enums v.layouts f.typ ≡ ok (f.size, f.alignment)
unfolding verify_aggregate_fields
fields-measured enums v l end depth names [] k f h e = cc
fields-measured enums v l end depth names (x ∷ fs) zero f h e =
    let (_, h₁) = >>-eq-ok (reject (bad_aggregate_field l end names x) _) _ h in
    let (t, _) = >>-eq-ok (reject _ "LIR_BAD_AGGREGATE_FIELD_TYPE") _ h₁ in
    subst
      (λ (y : LirAggregateField). field_geometry enums v.layouts y.typ ≡ ok (y.size, y.alignment))
      (some_inj e) (is_geometry-eq x.size x.alignment _ (passed _ (reject-eq-ok _ _ t)))
fields-measured enums v l end depth names (x ∷ fs) (suc k) f h e =
    let (_, h₁) = >>-eq-ok (reject (bad_aggregate_field l end names x) _) _ h in
    let (_, h₂) = >>-eq-ok (reject _ "LIR_BAD_AGGREGATE_FIELD_TYPE") _ h₁ in
    let (_, h₃) = >>-eq-ok (check_aggregate_array v.layouts x (lir_array_value x.typ)) _ h₂ in
    fields-measured enums v l (x.offset +ℤ x.size) _ (x.name ∷ names) fs k f h₃ e

module _ (digest : LirAggregateLayout → String) (enums : List LirEnum) where
  Accepted-IsFresh :
      {v : Verified} {l : LirAggregateLayout} {w : Verified}
      → Accepted digest enums v l w
      → IsFresh l v.layouts
  unfolding stale_aggregate_layout lir_aggregate_identity
  Accepted-IsFresh {v} {l} a =
      let (h, _) =
        ||-false
          (not (type_eq l.typ (lir_aggregate_identity digest l)) || is_stored l.typ v.layouts) _
          a.fresh in
      let (t, fresh) = ||-false (not (type_eq l.typ (lir_aggregate_identity digest l))) _ h in
      (
        (
          str_append "aggregate:" (digest (record l { typ = no_type })),
          type_eq→≡ l.typ _ (passed _ t),
          starts_with-append "aggregate:" (digest (record l { typ = no_type })),
        ),
        fresh,
      )

  -- What holds of the layouts stored so far holds at the end.
  Chain-keeps :
      (P : Layouts → Type 0) (v : Verified) (ls : Layouts) (u : Verified)
      → ((m : LirAggregateLayout) (layouts : Layouts)
          → IsFresh m layouts
          → P layouts
          → P (m ∷ layouts))
      → Chain digest enums v ls u
      → P v.layouts
      → P u.layouts
  Chain-keeps P v _ u step stop p = p
  Chain-keeps P v _ u step (go {l = m} {w = w} {ls = ls} a c) p =
      Chain-keeps P w ls u step c (subst P (sym a.stored) (step m v.layouts (Accepted-IsFresh a) p))

  Chain-found :
      (v : Verified) (ls : Layouts) (u : Verified) (l : LirAggregateLayout) (k : ℕ)
      → Chain digest enums v ls u
      → get_elem? ls k ≡ some l
      → find_layout l.typ u.layouts ≡ some l
  Chain-found v _ u l k stop e = cc
  Chain-found v _ u l zero (go {l = m} {w = w} {ls = ls} a c) e =
      let fresh = Accepted-IsFresh a in
      subst (λ (x : LirAggregateLayout). find_layout x.typ u.layouts ≡ some x) (some_inj e)
        (Chain-keeps (λ y. find_layout m.typ y ≡ some m) w ls u
          (λ x y. find_layout-stored m.typ x y m) c
          (subst (λ y. find_layout m.typ y ≡ some m) (sym a.stored)
            (find_here m.typ m v.layouts (IsAggregate-refl m.typ fresh.0))))
  Chain-found v _ u l (suc k) (go {w = w} {ls = ls} a c) e = Chain-found w ls u l k c e

  Chain-measured :
      (v : Verified) (ls : Layouts) (u : Verified) (l : LirAggregateLayout) (k : ℕ)
      → (f : LirAggregateField) → Chain digest enums v ls u
      → get_elem? ls k ≡ some l
      → Has f l.fields
      → field_geometry enums u.layouts f.typ ≡ ok (f.size, f.alignment)
  Chain-measured v _ u l k f stop e has = cc
  Chain-measured v _ u l zero f (go {l = m} {w = w} {ls = ls} a c) e has =
      let (j, is) = subst (λ (x : LirAggregateLayout). Has f x.fields) (sym (some_inj e)) has in
      Chain-keeps (λ y. field_geometry enums y f.typ ≡ ok (f.size, f.alignment)) w ls u
        (λ x y. field_geometry-stored enums x y f.typ (f.size, f.alignment)) c
        (subst (λ y. field_geometry enums y f.typ ≡ ok (f.size, f.alignment)) (sym a.stored)
          (field_geometry-stored enums m v.layouts f.typ (f.size, f.alignment) (Accepted-IsFresh a)
            (fields-measured enums v m (pos 0) 1 [] m.fields j f a.fields is)))
  Chain-measured v _ u l (suc k) f (go {w = w} {ls = ls} a c) e has =
      Chain-measured w ls u l k f c e has

  -- The map that is returned finds every layout of an accepted list under the layout's type, and
  -- gives the type of each of its fields the size and the alignment of the field.
  pub verify_lir_aggregate_layouts-find_layout :
      (list out : Layouts) (l : LirAggregateLayout) (f : LirAggregateField)
      → verify_lir_aggregate_layouts digest list enums ≡ ok out
      → Has l list
      → Has f l.fields
      → (find_layout l.typ out ≡ some l)
        × (field_geometry enums out f.typ ≡ ok (f.size, f.alignment))
  verify_lir_aggregate_layouts-find_layout list out l f h (k, e) has =
      let (u, chain, same) = verify_lir_aggregate_layouts-Chain digest enums list out h in
      (
        subst (λ y. find_layout l.typ y ≡ some l) same (Chain-found no_layouts list u l k chain e),
        subst (λ y. field_geometry enums y f.typ ≡ ok (f.size, f.alignment)) same
            (Chain-measured no_layouts list u l k f chain e has),
      )
