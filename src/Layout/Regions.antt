-- ===== src/Layout/Regions.antt =====
-- Layout declarations: `evt1AnalyzeLayouts`, lines 190 to 254 of internal/concept/layout.go, for one
-- declaration, and the region lookup of lines 293 to 312.
pub mod Apart
use Prim.Native.String.{◌++◌ as str_append}
use concept.Layout.Align.{align_up, wrap_int}
use concept.Layout.Geometry.{Env, Ty, type_geometry}
use concept.Base.{
  String, List, Option, ℤ, ℕ, Bool, some, Result, if◌then◌else◌, pos_part, ◌∷◌, ltb_ℤ, ok, negsuc,
  ◌&&◌, true, err, [], ◌+◌, pos, not, suc, ◌%◌, ◌==◌, none, ◌>>◌, ◌>>=◌, reject, max, any, str_eq,
  zero,
}
use concept.Machine.Verify.{is_empty}

-- The fields of a region that the analysis reads and sets.
pub record LayoutRegion : Type 0 where
  pub id : String
  pub name : String
  pub typ : Ty
  pub requested_align : ℤ
  pub explicit_offset : Option ℤ
  pub offset : ℤ
  pub byte_extent : ℕ
  pub alignment : ℕ

pub record LayoutDecl : Type 0 where
  pub name : String
  pub regions : List LayoutRegion
  pub size : ℤ
  pub alignment : ℕ

-- The powers of two from 1 through 4096.
abbrev pub alignment_powers : List ℕ
alignment_powers = 1 ∷ 2 ∷ 4 ∷ 8 ∷ 16 ∷ 32 ∷ 64 ∷ 128 ∷ 256 ∷ 512 ∷ 1024 ∷ 2048 ∷ 4096 ∷ []

-- 0 requests nothing, and the least `int` passes the test for a power of two as well.
unfoldable pub effective_alignment : ℤ → ℕ → Result ℕ
effective_alignment (negsuc n) natural =
    if n == 9223372036854775807 then ok natural else err "CV4572"
effective_alignment (pos zero) natural = ok natural
effective_alignment (pos (suc n)) natural = do
  reject (not (any (λ p. p == suc n) alignment_powers)) "CV4572"
  ok (max (suc n) natural)

-- The sum of an offset that is not negative and a size, as an `int`.
unfoldable pub end_of : ℤ → ℕ → ℤ
end_of offset size = wrap_int (pos_part offset + size)

unfoldable pub overlaps : ℤ → ℤ → LayoutRegion → Bool
unfolding end_of
overlaps offset end prior =
    ltb_ℤ offset (end_of prior.offset prior.byte_extent) && ltb_ℤ prior.offset end

abbrev pub chosen_offset : Option ℤ → ℤ → ℤ
chosen_offset none next = next
chosen_offset (some o) next = o

-- Whether an offset is negative or not a multiple of the alignment.
unfoldable pub misaligned : ℤ → ℕ → Bool
misaligned (negsuc o) alignment = true
misaligned (pos o) alignment = not (o % alignment == 0)

-- One round of the loop, after the regions `prior`.
unfoldable pub place_region :
    Env → String → List LayoutRegion → ℤ → LayoutRegion → Result LayoutRegion
unfolding end_of
place_region env layout prior cursor region = do
  reject (any (λ p. str_eq p.name region.name) prior) "CV4571"
  resolved ← env.resolve region.typ
  g ← type_geometry env resolved
  alignment ← effective_alignment region.requested_align g.1
  let offset = chosen_offset region.explicit_offset (align_up cursor alignment)
  reject (misaligned offset alignment) "CV4574"
  reject (any (overlaps offset (end_of offset g.0)) prior) "CV4576"
  ok (record region {
    typ = resolved;
    id = str_append layout (str_append "." region.name);
    offset = offset;
    byte_extent = g.0;
    alignment = alignment;
  })

-- `if end > cursor { cursor = end }`
abbrev pub advance : ℤ → ℤ → ℤ
advance cursor end = if ltb_ℤ cursor end then end else cursor

-- The loop: the regions with their places, the cursor, the largest alignment.
unfoldable pub place_regions :
    Env
    → String
    → List LayoutRegion
    → ℤ
    → ℕ
    → List LayoutRegion
    → Result (List LayoutRegion × ℤ × ℕ)
unfolding end_of
place_regions env layout prior cursor alignment [] = ok ([], cursor, alignment)
place_regions env layout prior cursor alignment (region ∷ rest) = do
  r ← place_region env layout prior cursor region
  placed ←
      place_regions env layout (r ∷ prior) (advance cursor (end_of r.offset r.byte_extent))
        (max r.alignment alignment) rest
  ok (r ∷ placed.0, placed.1, placed.2)

unfoldable pub analyze_layout : Env → LayoutDecl → Result LayoutDecl
analyze_layout env decl = do
  reject (is_empty decl.regions) "CV4573"
  placed ← place_regions env decl.name [] (pos 0) 1 decl.regions
  ok (record decl { regions = placed.0; alignment = placed.2; size = align_up placed.1 placed.2 })
