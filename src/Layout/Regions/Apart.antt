-- ===== src/Layout/Regions/Apart.antt =====
-- The places of the regions of an accepted layout.
use concept.Layout.Regions.{
  LayoutRegion, place_regions, effective_alignment, misaligned, place_region, overlaps, end_of,
  chosen_offset, alignment_powers, analyze_layout, LayoutDecl, advance,
}
use concept.Base.{
  pos_part, ℕ, List, String, ℤ, ◌≡◌, any, ok, pos, false, ◌≤◌, >>-eq-ok, reject, negsuc, str_eq,
  arith, ok_inj, >>=-eq-ok, suc, not, reject-eq-ok, subst, ◌==◌, ◌+◌, ◌%◌, ◌⊎◌, refl, zero, All,
  ltb_ℤ, ◌∷◌, ||-false, max, [], sym, ◌&&◌,
}
use concept.Layout.Geometry.{Env, type_geometry}
use concept.Layout.Align.{align_up, max_geometry}
use concept.Machine.Verify.{is_empty}

-- The region ends at or below the largest `int`.
abbrev pub Fits : LayoutRegion → Type 0
Fits r = pos_part r.offset + r.byte_extent ≤ max_geometry

-- One of two regions ends before the other starts.
abbrev pub Apart : LayoutRegion → LayoutRegion → Type 0
Apart r p =
    (pos_part r.offset + r.byte_extent ≤ pos_part p.offset)
    ⊎ (pos_part p.offset + p.byte_extent ≤ pos_part r.offset)

-- The offset is not negative, and a multiple of the alignment; the size is that of the type.
pub record Placed (env : Env) (r : LayoutRegion) : Type 0 where
  pub at : ℕ
  pub offset_eq : r.offset ≡ pos at
  pub aligned : at % r.alignment ≡ 0
  pub natural : ℕ
  pub geometry : type_geometry env r.typ ≡ ok (r.byte_extent, natural)
  pub natural_le : natural ≤ r.alignment

effective_alignment-le :
    (requested : ℤ) (natural a : ℕ) → effective_alignment requested natural ≡ ok a → natural ≤ a
unfolding effective_alignment
effective_alignment-le (negsuc n) natural a h = ground arith
effective_alignment-le (pos zero) natural a h = omega (arith, ok_inj h)
effective_alignment-le (pos (suc n)) natural a h =
    let (_, h₁) = >>-eq-ok (reject (not (any (λ p. p == suc n) alignment_powers)) "CV4572") _ h in
    omega (arith, ok_inj h₁)

misaligned_lem : (o : ℤ) (a : ℕ) → misaligned o a ≡ false → (n : ℕ) × (o ≡ pos n) × (n % a ≡ 0)
unfolding misaligned
misaligned_lem (pos n) a h = (n, refl, ground arith)
misaligned_lem (negsuc n) a h = cc

-- What one round passed.
pub record Round (env : Env) (prior : List LayoutRegion) (r : LayoutRegion) : Type 0 where
  pub placed : Placed env r
  pub clear : any (overlaps r.offset (end_of r.offset r.byte_extent)) prior ≡ false

place_region-Round :
    (env : Env) (layout : String) (prior : List LayoutRegion) (cursor : ℤ) (region r : LayoutRegion)
    → place_region env layout prior cursor region ≡ ok r
    → Round env prior r
unfolding place_region
place_region-Round env layout prior cursor region r h =
    let (_, h₁) = >>-eq-ok (reject (any (λ p. str_eq p.name region.name) prior) "CV4571") _ h in
    let (t, ht, h₂) = >>=-eq-ok (env.resolve region.typ) _ h₁ in
    let (g, hg, h₃) = >>=-eq-ok (type_geometry env t) _ h₂ in
    let (a, ha, h₄) = >>=-eq-ok (effective_alignment region.requested_align g.1) _ h₃ in
    let offset = chosen_offset region.explicit_offset (align_up cursor a) in
    let (m, h₅) = >>-eq-ok (reject (misaligned offset a) "CV4574") _ h₄ in
    let (c, h₆) =
      >>-eq-ok (reject (any (overlaps offset (end_of offset g.0)) prior) "CV4576") _ h₅ in
    let (n, e, d) = misaligned_lem offset a (reject-eq-ok _ _ m) in
    subst (Round env prior) (ok_inj h₆) (record {
      placed = record {
        at = n;
        offset_eq = e;
        aligned = d;
        natural = g.1;
        geometry = hg;
        natural_le = effective_alignment-le region.requested_align g.1 a ha;
      };
      clear = reject-eq-ok _ _ c;
    })

apart_numbers :
    (n m x y : ℕ)
    → n + x ≤ max_geometry
    → m + y ≤ max_geometry
    → (ltb_ℤ (pos n) (end_of (pos m) y) && ltb_ℤ (pos m) (end_of (pos n) x)) ≡ false
    → (n + x ≤ m) ⊎ (m + y ≤ n)
unfolding end_of
apart_numbers n m x y fx fy h = ground arith

overlaps-Apart :
    (r p : LayoutRegion) (n m : ℕ)
    → r.offset ≡ pos n
    → p.offset ≡ pos m
    → Fits r
    → Fits p
    → overlaps r.offset (end_of r.offset r.byte_extent) p ≡ false
    → Apart r p
unfolding overlaps
overlaps-Apart r p n m hn hm fr fp h =
    rw (hn, hm)
      (apart_numbers n m r.byte_extent p.byte_extent (rw hn at fr) (rw hm at fp) (rw (hn, hm) at h))

All-Apart :
    (env : Env) (r : LayoutRegion) (prior : List LayoutRegion)
    → Placed env r
    → Fits r
    → All (Placed env) prior
    → All Fits prior
    → any (overlaps r.offset (end_of r.offset r.byte_extent)) prior ≡ false
    → All (Apart r) prior
All-Apart env r [] pr fr ps fs h = tt
All-Apart env r (p ∷ prior) pr fr (pp, ps) (fp, fs) h =
    let (a, b) = ||-false _ _ h in
    (
      overlaps-Apart r p pr.at pp.at pr.offset_eq pp.offset_eq fr fp a,
      All-Apart env r prior pr fr ps fs b,
    )

-- Every region is placed, and apart from those before it and those in `prior`.
abbrev pub Separate : Env → List LayoutRegion → List LayoutRegion → Type 0
Separate env prior [] = Unit
Separate env prior (r ∷ rs) = Placed env r × All (Apart r) prior × Separate env (r ∷ prior) rs

place_regions-Separate :
    (env : Env) (layout : String) (prior : List LayoutRegion) (cursor : ℤ) (alignment : ℕ)
    (regions : List LayoutRegion) (out : List LayoutRegion × ℤ × ℕ)
    → All (Placed env) prior
    → All Fits prior
    → place_regions env layout prior cursor alignment regions ≡ ok out
    → All Fits out.0
    → Separate env prior out.0
unfolding place_regions
place_regions-Separate env layout prior cursor alignment [] out ps fs h f =
    subst (λ x. Separate env prior x.0) (ok_inj h) tt
place_regions-Separate env layout prior cursor alignment (region ∷ rest) out ps fs h f =
    let (r, hr, h₁) = >>=-eq-ok (place_region env layout prior cursor region) _ h in
    let next = advance cursor (end_of r.offset r.byte_extent) in
    let (placed, hp, h₂) =
      >>=-eq-ok (place_regions env layout (r ∷ prior) next (max r.alignment alignment) rest) _ h₁ in
    let (fr, frs) : All Fits (r ∷ placed.0) = subst (λ x. All Fits x.0) (sym (ok_inj h₂)) f in
    let round = place_region-Round env layout prior cursor region r hr in
    subst (λ x. Separate env prior x.0) (ok_inj h₂)
      (
        round.placed,
        All-Apart env r prior round.placed fr ps fs round.clear,
        place_regions-Separate env layout (r ∷ prior) next (max r.alignment alignment) rest placed
            (round.placed, ps) (fr, fs) hp frs,
      )

-- In an accepted layout whose regions all end at or below the largest `int`, every region starts at
-- a multiple of its alignment, which is at least that of its type, has the size of its type, and
-- overlaps no other region.
pub analyze_layout-Separate :
    (env : Env) (decl out : LayoutDecl)
    → analyze_layout env decl ≡ ok out
    → All Fits out.regions
    → Separate env [] out.regions
unfolding analyze_layout
analyze_layout-Separate env decl out h f =
    let (_, h₁) = >>-eq-ok (reject (is_empty decl.regions) "CV4573") _ h in
    let (placed, hp, h₂) = >>=-eq-ok (place_regions env decl.name [] (pos 0) 1 decl.regions) _ h₁ in
    subst (λ x. Separate env [] x.regions) (ok_inj h₂)
      (place_regions-Separate env decl.name [] (pos 0) 1 decl.regions placed tt tt hp
        (subst (λ x. All Fits x.regions) (sym (ok_inj h₂)) f))
