-- ===== src/Lir/Aggregate/Addresses.antt =====
-- The addresses of fields in a function body that `VerifyLIR` of internal/concept/lir.go accepts with
-- layouts that `verifyLIRAggregateLayouts` of lir_aggregate.go accepts.
use concept.Base.{pos, ◌+ℤ◌, ◌≤ℤ◌, false, Option, some, get_at?, ◌≡◌}
use concept.Lir.Types.{ptr}
use concept.Lir.Function.{LirAggregateField, LirAggregateLayout, LirInstruction}
use concept.Lir.Frame.{has_remainder}
use concept.Lir.Borrow.Definitions.{Has}
use concept.Lir.Body.{Body}
use concept.Lir.Aggregate.{Layouts}

-- The instruction computes the address of a field of a layout of the list, which lies within the
-- layout at a multiple of the field's alignment.
pub record FieldAddress (list : Layouts) (x : LirInstruction) : Type 0 where
  pub layout : LirAggregateLayout
  pub is_layout : Has layout list
  pub field : LirAggregateField
  pub is_field : get_at? layout.fields x.member ≡ some field
  pub points : x.typ ≡ ptr field.typ
  pub starts : pos 0 ≤ℤ x.frame_offset
  pub ends : x.frame_offset +ℤ field.size ≤ℤ layout.size
  pub aligned : has_remainder x.frame_offset field.alignment ≡ false

-- A field of a layout in order lies within it.
abbrev IsWithin : LirAggregateLayout → LirAggregateField → Type 0
IsWithin l m =
    (pos 0 ≤ℤ m.offset)
    × (m.offset +ℤ m.size ≤ℤ l.size)
    × (has_remainder m.offset m.alignment ≡ false)

-- What a `field_address` that is not refused satisfies.
record Facts (layouts : Option LirAggregateLayout) (x : LirInstruction) : Type 0 where
  layout : LirAggregateLayout
  is_layout : layouts ≡ some layout
  field : LirAggregateField
  is_field : get_at? layout.fields x.member ≡ some field
  points : x.typ ≡ ptr field.typ
  offset : x.frame_offset ≡ field.offset
