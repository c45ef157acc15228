-- ===== src/Layout/Fields.antt =====
-- The offsets of a struct's fields: `evt1StructFieldOffsetsWithin`, lines 46 to 78 of
-- internal/concept/layout.go. The geometry of a field's type is a parameter here; Layout.Geometry
-- passes the query of the same file. A size is a natural number, so its test for a negative one has
-- no counterpart.
pub mod Placement
use concept.Layout.Align.{align_up, max_geometry}
use concept.Base.{
  ℕ, Result, ℤ, List, ok, err, ◌∷◌, ◌>>=◌, ◌>>◌, pos, max, reject, ltb_ℤ, ◌-ℤ◌, ◌+ℤ◌, [],
}

-- Size and alignment.
abbrev pub Geometry : Type 0
Geometry = ℕ × ℕ

-- What the loop carries: offsets of the fields it has seen, the end, the largest alignment, the query.
pub record Laid (Q : Type 0) : Type 0 where
  pub offsets : List ℤ
  pub end : ℤ
  pub alignment : ℕ
  pub query : Q

-- One round of the loop: the field's offset and the new end.
unfoldable pub place : ℤ → Geometry → Result (ℤ × ℤ)
place end g = do
  reject (ltb_ℤ (pos max_geometry -ℤ (pos g.1 -ℤ pos 1)) end) "CV4573"
  let offset = align_up end g.1
  reject (ltb_ℤ (pos max_geometry -ℤ pos g.0) offset) "CV4573"
  ok (offset, offset +ℤ pos g.0)

module _ {F Q : Type 0} (geometry : F → Q → Result (Geometry × Q)) where
  -- The loop over the fields.
  unfoldable pub field_offsets : List F → ℤ → ℕ → Q → Result (Laid Q)
  field_offsets [] end alignment q =
      ok (record { offsets = []; end = end; alignment = alignment; query = q })
  field_offsets (f ∷ fs) end alignment q = do
    measured ← geometry f q
    placed ← place end measured.0
    rest ← field_offsets fs placed.1 (max measured.0.1 alignment) measured.1
    ok (record rest { offsets = placed.0 ∷ rest.offsets })

  unfoldable pub struct_field_offsets : List F → Q → Result (Laid Q)
  struct_field_offsets [] q = err "C_ABI_LAYOUT_INVALID"
  struct_field_offsets (f ∷ fs) q = do
    laid ← field_offsets (f ∷ fs) (pos 0) 1 q
    reject (ltb_ℤ (pos max_geometry -ℤ (pos laid.alignment -ℤ pos 1)) laid.end) "CV4573"
    ok (record laid { end = align_up laid.end laid.alignment })
