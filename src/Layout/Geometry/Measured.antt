-- ===== src/Layout/Geometry/Measured.antt =====
-- The measurement of a type keeps the query's cache good and returns a good geometry.
use concept.Layout.Geometry.Good.{Good, scalar_geometry-Good, array_geometry-Good, size_one}
use concept.Layout.Geometry.{
  type_geometry, type_geometry_within, Env, Ty, within, GeometryQuery, recall, resolved_geometry,
  named_geometry, struct_geometry, named, new_query, is_borrow_like, scalar_geometry, value_type,
  is_owned, array, has_runtime_shape, array_geometry, declared_geometry,
}
use concept.Base.{
  List, Result, String, ℕ, >>-eq-ok, ◌≡◌, err, some, reject, ok, Option, suc, Option-cases, subst,
  ltb, ok_inj, >>=-eq-ok, inr, arith, ◌∷◌, inl, any, Bool-cases, str_eq, not, some_inj, ◌==◌, zero,
  ◌||◌, none, [], refl, Bool, true, false,
}
use concept.Layout.Fields.{Geometry, struct_field_offsets}
use concept.Layout.Fields.Placement.{struct_field_offsets-LaidOut}

-- The query's cache holds good geometries only.
abbrev pub GoodQuery : GeometryQuery → Type 0
GoodQuery q = (key : String) (g : Geometry) → recall q.known key ≡ some g → Good g

-- A measurement that keeps the cache good and returns a good geometry.
abbrev pub GoodMeasure : (Ty → GeometryQuery → Result (Geometry × GeometryQuery)) → Type 0
GoodMeasure measure =
    (t : Ty) (q : GeometryQuery) (r : Geometry × GeometryQuery)
    → GoodQuery q
    → measure t q ≡ ok r
    → Good r.0 × GoodQuery r.1

module _ (env : Env) (measure : Ty → GeometryQuery → Result (Geometry × GeometryQuery)) where
  struct_geometry-Good :
      GoodMeasure measure
      → (fields : Option (List Ty)) (q : GeometryQuery) (r : Geometry × GeometryQuery) → GoodQuery q
      → struct_geometry measure fields q ≡ ok r
      → Good r.0 × GoodQuery r.1
  unfolding struct_geometry
  struct_geometry-Good good none q r gq h = cc
  struct_geometry-Good good (some []) q r gq h =
      subst (λ x. Good x.0 × GoodQuery x.1) (ok_inj h)
        (
          record {
            alignment_pos = omega arith;
            size_multiple = (0, refl);
            size_bounded = omega arith;
          },
          gq,
        )
  struct_geometry-Good good (some (f ∷ fs)) q r gq h =
      let field : Ty → GeometryQuery → Result (Geometry × GeometryQuery) =
        λ t. measure (value_type t) in
      let (laid, hl, h₁) = >>=-eq-ok (struct_field_offsets field (f ∷ fs) q) _ h in
      let l =
        struct_field_offsets-LaidOut field GoodQuery
          (λ t s x gs e. let (gx, gx') = good (value_type t) s x gs e in (gx.alignment_pos, gx'))
          (f ∷ fs) q laid gq hl in
      subst (λ x. Good x.0 × GoodQuery x.1) (ok_inj h₁)
        (
          record {
            alignment_pos = l.alignment_pos;
            size_multiple = rw (l.size_eq) (l.padded);
            size_bounded = rw (l.size_eq) (l.bounded);
          },
          l.query_inv,
        )

  named_geometry-Good :
      GoodMeasure measure
      → (o : Option Geometry) (handle : Bool) (variants : Option (List ℕ))
        (fields : Option (List Ty)) (q : GeometryQuery) (r : Geometry × GeometryQuery)
      → ((g : Geometry) → o ≡ some g → Good g)
      → GoodQuery q
      → named_geometry measure o handle variants fields q ≡ ok r
      → Good r.0 × GoodQuery r.1
  unfolding named_geometry declared_geometry
  named_geometry-Good good (some g) handle variants fields q r go gq h =
      subst (λ x. Good x.0 × GoodQuery x.1) (ok_inj h) (go g refl, gq)
  named_geometry-Good good none true variants fields q r go gq h =
      subst (λ x. Good x.0 × GoodQuery x.1) (ok_inj h) (size_one 8 (omega arith) (omega arith), gq)
  named_geometry-Good good none false none fields q r go gq h =
      struct_geometry-Good good fields q r gq h
  named_geometry-Good good none false (some vs) fields q r go gq h =
      let (_, h₁) = >>-eq-ok (reject (any (λ k. not (k == 0)) vs) "CV4573") _ h in
      subst (λ x. Good x.0 × GoodQuery x.1) (ok_inj h₁) (size_one 4 (omega arith) (omega arith), gq)

  resolved_geometry-Good : GoodMeasure measure → GoodMeasure (resolved_geometry env measure)
  unfolding resolved_geometry
  resolved_geometry-Good good (named h n) q r gq e =
      let (_, e₁) = >>-eq-ok (reject (is_borrow_like h || is_owned h) "CV4573") _ e in
      named_geometry-Good good (scalar_geometry n) (env.is_handle (named h n)) (env.enums n)
        (env.structs n) q r (scalar_geometry-Good n) gq e₁
  resolved_geometry-Good good (array h t n shape k) q r gq e =
      let (_, e₁) = >>-eq-ok (reject (is_borrow_like h || is_owned h) "CV4573") _ e in
      let (_, e₂) = >>-eq-ok (reject (has_runtime_shape shape) "CV4573") _ e₁ in
      let (m, hm, e₃) = >>=-eq-ok (measure t q) _ e₂ in
      let (g, hg, e₄) = >>=-eq-ok (array_geometry m.0 n shape k) _ e₃ in
      let (gm, gq') = good t q m gq hm in
      subst (λ x. Good x.0 × GoodQuery x.1) (ok_inj e₄)
        (array_geometry-Good m.0 n shape k g gm hg, gq')

remembered :
    (known : List (String × Geometry)) (k : String) (g : Geometry)
    → Good g
    → ((key : String) (x : Geometry) → recall known key ≡ some x → Good x)
    → (key : String) (x : Geometry) → recall ((k, g) ∷ known) key ≡ some x
    → Good x
unfolding recall
remembered known k g good all key x h = elim (Bool-cases (str_eq k key)) [
  | inl e ↦ subst Good (some_inj (rw e at h)) good
  | inr e ↦ all key x (rw e at h)
]

within-Good :
    (env : Env) (measure : Ty → GeometryQuery → Result (Geometry × GeometryQuery))
    → GoodMeasure measure
    → GoodMeasure (within env measure)
unfolding within
within-Good env measure good t q r gq h =
    let (_, h₁) = >>-eq-ok (reject (ltb 4096 (suc q.accesses)) "CV4573") _ h in
    let (s, _, h₂) = >>=-eq-ok (env.resolve t) _ h₁ in
    let key = env.spelling s in
    elim (Option-cases (recall q.known key)) [
      | inr c ↦
          let (g, e) = c in
          subst (λ x. Good x.0 × GoodQuery x.1) (ok_inj (rw e at h₂)) (gq key g e, gq)
      | inl e ↦
          let (_, h₃) =
            >>-eq-ok (reject (any (λ k. str_eq k key) q.visiting) "CV4573") _ (rw e at h₂) in
          let (m, hm, h₄) =
            >>=-eq-ok
              (measure s (record q { accesses = suc q.accesses; visiting = key ∷ q.visiting })) _
              h₃ in
          let (gm, gq') = good s _ m gq hm in
          subst (λ x. Good x.0 × GoodQuery x.1) (ok_inj h₄)
            (gm, remembered m.1.known key m.0 gm gq')
    ]

pub type_geometry_within-Good : (n : ℕ) (env : Env) → GoodMeasure (type_geometry_within n env)
unfolding type_geometry_within
type_geometry_within-Good zero env =
    within-Good env (λ r s. err "CV4573") (λ t q r gq h. no_measure h)
  where
    no_measure : {r : Geometry × GeometryQuery} → err "CV4573" ≡ ok r → Good r.0 × GoodQuery r.1
    no_measure h = cc
type_geometry_within-Good (suc n) env =
    within-Good env _ (resolved_geometry-Good env _ (type_geometry_within-Good n env))

-- A type that has a fixed geometry has a positive alignment and a size that is a multiple of the
-- alignment and an `int`.
pub type_geometry-Good : (env : Env) (t : Ty) (g : Geometry) → type_geometry env t ≡ ok g → Good g
unfolding type_geometry recall
type_geometry-Good env t g h =
    let (r, e, p) = >>=-eq-ok (type_geometry_within 32 env t new_query) _ h in
    subst Good (ok_inj p) ((type_geometry_within-Good 32 env t new_query r no_cache e).0)
  where
    no_cache : GoodQuery new_query
    no_cache key x h = cc
