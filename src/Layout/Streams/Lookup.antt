-- ===== src/Layout/Streams/Lookup.antt =====
-- Looking up the regions of an accepted layout, directly and through a stream.
use concept.Layout.Streams.{first_region}
use concept.Layout.Regions.{
  LayoutRegion, LayoutDecl, place_regions, place_region, analyze_layout, advance,
  effective_alignment, end_of, chosen_offset, misaligned, overlaps,
}
use concept.Base.{
  List, String, ℕ, Bool, ◌∷◌, get_elem?, str_eq, any, ◌≡◌, false, some, subst, some_inj, suc,
  ||-false, [], if◌then◌else◌, ℤ, eq_iff, ok, >>-eq-ok, ok_inj, reject, >>=-eq-ok, max, zero, pos,
  reject-eq-ok, refl, true, if_true, if_false, ◌∙◌,
}
use concept.Layout.Geometry.{Env, type_geometry}
use concept.Machine.Verify.{is_empty}
use concept.Layout.Align.{align_up}

abbrev same_name : String → LayoutRegion → Bool
same_name n p = str_eq p.name n

-- No region has the name of one before it.
abbrev pub Fresh : List LayoutRegion → List LayoutRegion → Type 0
Fresh prior [] = Unit
Fresh prior (r ∷ rs) = (any (same_name r.name) prior ≡ false) × Fresh (r ∷ prior) rs

place_region-unseen :
    (env : Env) (layout : String) (prior : List LayoutRegion) (cursor : ℤ) (region r : LayoutRegion)
    → place_region env layout prior cursor region ≡ ok r
    → any (same_name r.name) prior ≡ false
unfolding place_region
place_region-unseen env layout prior cursor region r h =
    let (n, h₁) = >>-eq-ok (reject (any (λ p. str_eq p.name region.name) prior) "CV4571") _ h in
    let (t, ht, h₂) = >>=-eq-ok (env.resolve region.typ) _ h₁ in
    let (g, hg, h₃) = >>=-eq-ok (type_geometry env t) _ h₂ in
    let (a, ha, h₄) = >>=-eq-ok (effective_alignment region.requested_align g.1) _ h₃ in
    let offset = chosen_offset region.explicit_offset (align_up cursor a) in
    let (_, h₅) = >>-eq-ok (reject (misaligned offset a) "CV4574") _ h₄ in
    let (_, h₆) =
      >>-eq-ok (reject (any (overlaps offset (end_of offset g.0)) prior) "CV4576") _ h₅ in
    subst (λ x. any (same_name x.name) prior ≡ false) (ok_inj h₆) (reject-eq-ok _ _ n)

pub place_regions-Fresh :
    (env : Env) (layout : String) (prior : List LayoutRegion) (cursor : ℤ) (alignment : ℕ)
    (regions : List LayoutRegion) (out : List LayoutRegion × ℤ × ℕ)
    → place_regions env layout prior cursor alignment regions ≡ ok out
    → Fresh prior out.0
unfolding place_regions
place_regions-Fresh env layout prior cursor alignment [] out h =
    subst (λ x. Fresh prior x.0) (ok_inj h) tt
place_regions-Fresh env layout prior cursor alignment (region ∷ rest) out h =
    let (r, hr, h₁) = >>=-eq-ok (place_region env layout prior cursor region) _ h in
    let next = advance cursor (end_of r.offset r.byte_extent) in
    let (placed, hp, h₂) =
      >>=-eq-ok (place_regions env layout (r ∷ prior) next (max r.alignment alignment) rest) _ h₁ in
    subst (λ x. Fresh prior x.0) (ok_inj h₂)
      (
        place_region-unseen env layout prior cursor region r hr,
        place_regions-Fresh env layout (r ∷ prior) next (max r.alignment alignment) rest placed hp,
      )

Fresh-get :
    (prior rs : List LayoutRegion) (i : ℕ) (r : LayoutRegion)
    → Fresh prior rs
    → get_elem? rs i ≡ some r
    → any (same_name r.name) prior ≡ false
Fresh-get prior [] i r f e = cc
Fresh-get prior (x ∷ rs) zero r (n, f) e =
    subst (λ y. any (same_name y.name) prior ≡ false) (some_inj e) n
Fresh-get prior (x ∷ rs) (suc i) r (n, f) e = (||-false _ _ (Fresh-get (x ∷ prior) rs i r f e)).1

pub first_region-get :
    (prior rs : List LayoutRegion) (i : ℕ) (r : LayoutRegion)
    → Fresh prior rs
    → get_elem? rs i ≡ some r
    → first_region rs r.name ≡ some r
unfolding first_region
first_region-get prior [] i r f e = cc
first_region-get prior (x ∷ rs) zero r (n, f) e =
    subst (λ y. (if str_eq x.name y.name then some x else first_region rs y.name) ≡ some y)
      (some_inj e) (if_true (str_eq x.name x.name) (some x) (first_region rs x.name) (same x.name))
  where
    same : (n : String) → str_eq n n ≡ true
    same n = (eq_iff n n).1 refl
first_region-get prior (x ∷ rs) (suc i) r (n, f) e =
    if_false (str_eq x.name r.name) (some x) (first_region rs r.name)
      ((||-false (str_eq x.name r.name) _ (Fresh-get (x ∷ prior) rs i r f e)).0)
    ∙ first_region-get (x ∷ prior) rs i r f e

pub analyze_layout-Fresh :
    (env : Env) (decl out : LayoutDecl) → analyze_layout env decl ≡ ok out → Fresh [] out.regions
unfolding analyze_layout
analyze_layout-Fresh env decl out h =
    let (_, h₁) = >>-eq-ok (reject (is_empty decl.regions) "CV4573") _ h in
    let (placed, hp, h₂) = >>=-eq-ok (place_regions env decl.name [] (pos 0) 1 decl.regions) _ h₁ in
    subst (λ x. Fresh [] x.regions) (ok_inj h₂)
      (place_regions-Fresh env decl.name [] (pos 0) 1 decl.regions placed hp)

-- Every region of an accepted layout is what the lookup of its name finds.
pub analyze_layout-lookup :
    (env : Env) (decl out : LayoutDecl) (i : ℕ) (r : LayoutRegion)
    → analyze_layout env decl ≡ ok out
    → get_elem? out.regions i ≡ some r
    → first_region out.regions r.name ≡ some r
analyze_layout-lookup env decl out i r h e =
    first_region-get [] out.regions i r (analyze_layout-Fresh env decl out h) e
