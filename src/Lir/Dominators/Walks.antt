-- ===== src/Lir/Dominators/Walks.antt =====
-- What dominance means for `lirDominators` of internal/concept/lir_borrow.go: walks in the graph of
-- the blocks, and the blocks that a walk visits.
use concept.Base.{ℕ, ◌<◌, ◌≡◌, ◌⊎◌, List, Bool, true, some, length, get_elem?, any, pos, ◌==ℤ◌}
use concept.Lir.Function.{LirBlock}
use concept.Lir.Dominators.{lir_successors}

-- The block ends in a jump or a branch to block s.
abbrev pub leads_to : LirBlock → ℕ → Bool
leads_to b s = any (λ t. t ==ℤ pos s) (lir_successors b)

abbrev pub Edge : List LirBlock → ℕ → ℕ → Type 0
Edge blocks p s =
    (b : LirBlock) × (get_elem? blocks p ≡ some b) × (leads_to b s ≡ true) × (s < length blocks)

-- A walk from the entry, block 0, to a block.
pub data Walk (blocks : List LirBlock) : ℕ → Type 0 where
  entry : Walk blocks 0
  step : {p s : ℕ} → Walk blocks p → Edge blocks p s → Walk blocks s

-- The walk visits block j.
abbrev pub Visits : {blocks : List LirBlock} {i : ℕ} → Walk blocks i → ℕ → Type 0
Visits entry j = j ≡ 0
Visits (step {s = s} w e) j = (j ≡ s) ⊎ Visits w j
