-- ===== src/Lir/Dominators/Improve.antt =====
-- The invariant of the second loop of `lirDominators` of internal/concept/lir_borrow.go, and that
-- an update of one row preserves it.
use concept.Base.{
  ℕ, [], get_elem?-lt, ◌+◌, ◌<◌, List, Bool, true, false, ◌==◌, ==_iff, length, ◌≡◌, sym, ap, ◌∙◌,
  inl, inr, Bool-cases, arith, some, zero-add, subst, get_elem?,
}
use concept.Base.Bits.{bit, set, length-set, get_or-set}
use concept.Lir.Function.{LirBlock}
use concept.Lir.Dominators.{Rows, row, new_row}
use concept.Lir.Dominators.Walks.{Walk, Visits, step, leads_to}
use concept.Lir.Dominators.Meet.{in_all-miss, in_all_mono, bit-new_row, length-new_row}

module _ (blocks : List LirBlock) (reachable : List Bool) where
  -- The rows have n entries; the entry's is final, and those of unmarked blocks are empty; a marked
  -- block has a walk that avoids each block whose entry in its row is false; no entry that an
  -- update would make true is false.
  pub record IsUpper (d : Rows) : Type 0 where
    pub len : length d ≡ length blocks
    pub width : (q : ℕ) → q < length blocks → length (row d q) ≡ length blocks
    pub start : (j : ℕ) → j < length blocks → bit (row d 0) j ≡ (j == 0)
    pub unreached : (q j : ℕ) → bit reachable q ≡ false → bit (row d q) j ≡ false
    pub avoids :
        (q j : ℕ)
        → q < length blocks
        → j < length blocks
        → bit reachable q ≡ true
        → bit (row d q) j ≡ false
        → (w : Walk blocks q) × (Visits w j → ⊥)
    pub upper :
        (q j : ℕ)
        → 0 < q
        → q < length blocks
        → j < length blocks
        → bit reachable q ≡ true
        → bit (new_row blocks reachable d q) j ≡ true
        → bit (row d q) j ≡ true

  module _ (d : Rows) (inv : IsUpper d) (i : ℕ) (pos_i : 0 < i) (l : i < length blocks) where
    abbrev v : List Bool
    v = new_row blocks reachable d i

    abbrev d' : Rows
    d' = set d i v

    at_i : row d' i ≡ v
    at_i = ground (arith, get_or-set d i i v [], inv.len)

    at_other : (q : ℕ) → (q == i) ≡ false → row d' q ≡ row d q
    at_other q h = ground (arith, get_or-set d i q v [])

    -- Whether a row is the updated one.
    by_row :
        (P : List Bool → Type 0) (q : ℕ)
        → (q ≡ i → P v)
        → ((q == i) ≡ false → P (row d q))
        → P (row d' q)
    by_row P q new old = elim (Bool-cases (q == i)) [
      | inl e ↦ let e' = (==_iff q i).0 e in subst P (sym (ap (row d') e' ∙ at_i)) (new e')
      | inr e ↦ subst P (sym (at_other q e)) (old e)
    ]

    module _ (m : bit reachable i ≡ true) where
      below : (q j : ℕ) → j < length blocks → bit (row d' q) j ≡ true → bit (row d q) j ≡ true
      below q j k =
          by_row (λ r. bit r j ≡ true → bit (row d q) j ≡ true) q
            (λ e h. subst (λ x. bit (row d x) j ≡ true) (sym e) (inv.upper i j pos_i l k m h))
            (λ e h. h)

      new-avoids :
          (j : ℕ) → j < length blocks → bit v j ≡ false → (w : Walk blocks i) × (Visits w j → ⊥)
      new-avoids j k h =
          let bits = bit-new_row blocks reachable d i j inv.width l k in
          miss (in_all-miss reachable i j d 0 blocks (ground arith)) (ground arith)
        where
          miss :
              (p : ℕ) × (b : LirBlock) × (get_elem? blocks p ≡ some b)
                × (bit reachable (0 + p) ≡ true)
                × (leads_to b i ≡ true)
                × (bit (row d (0 + p)) j ≡ false)
              → (j == i) ≡ false
              → (w : Walk blocks i) × (Visits w j → ⊥)
          miss (p, b, e, r, to, f) ne =
              extend p b e to
                (inv.avoids p j (get_elem?-lt blocks p e) k (rw zero-add at r) (rw zero-add at f))
                ne
            where
              extend :
                  (p : ℕ) (b : LirBlock)
                  → get_elem? blocks p ≡ some b
                  → leads_to b i ≡ true
                  → (w : Walk blocks p) × (Visits w j → ⊥)
                  → (j == i) ≡ false
                  → (w : Walk blocks i) × (Visits w j → ⊥)
              extend p b e to (w, avoid) ne =
                  (step w (b, e, to, l), elim [ inl q ↦ ground arith | inr q ↦ avoid q ])

      set-width : (q : ℕ) → q < length blocks → length (row d' q) ≡ length blocks
      set-width q k =
          by_row (λ r. length r ≡ length blocks) q
            (λ e. length-new_row blocks reachable d i inv.width) (λ e. inv.width q k)

      new_row_mono :
          (q j : ℕ)
          → q < length blocks
          → j < length blocks
          → bit (new_row blocks reachable d' q) j ≡ true
          → bit (new_row blocks reachable d q) j ≡ true
      new_row_mono q j lq lj h = ground (
        arith,
        bit-new_row blocks reachable d' q j set-width lq lj,
        bit-new_row blocks reachable d q j inv.width lq lj,
        in_all_mono reachable q j d d' 0 blocks (λ x. below x j lj),
      )

      set-upper :
          (q j : ℕ)
          → 0 < q
          → q < length blocks
          → j < length blocks
          → bit reachable q ≡ true
          → bit (new_row blocks reachable d' q) j ≡ true
          → bit (row d' q) j ≡ true
      set-upper q j p lq lj r h =
          let before = new_row_mono q j lq lj h in
          by_row (λ x. bit x j ≡ true) q
            (λ e. subst (λ x. bit (new_row blocks reachable d x) j ≡ true) e before)
            (λ e. inv.upper q j p lq lj r before)

      pub set-IsUpper : IsUpper d'
      set-IsUpper = record {
        len = length-set d i v ∙ inv.len;
        width = set-width;
        start = λ j k.
            by_row (λ r. bit r j ≡ (j == 0)) 0 (λ e. absurd (omega arith)) (λ e. inv.start j k);
        unreached =
            λ q j u. by_row (λ r. bit r j ≡ false) q (λ e. absurd (cc)) (λ e. inv.unreached q j u);
        avoids = λ q j lq lj r.
            by_row (λ x. bit x j ≡ false → (w : Walk blocks q) × (Visits w j → ⊥)) q
              (λ e h.
                subst (λ x. (w : Walk blocks x) × (Visits w j → ⊥)) (sym e) (new-avoids j lj h))
              (λ e h. inv.avoids q j lq lj r h);
        upper = set-upper;
      }
