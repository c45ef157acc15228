-- ===== src/Lir/Dominators/Exact.antt =====
-- The result of `lirDominators` of internal/concept/lir_borrow.go.
use concept.Base.{
  ℕ, zero, suc, ◌*◌, ◌<◌, List, [], ◌∷◌, Bool, true, false, some, ◌==◌, ==_iff, length, ◌≡◌, refl,
  ap, ◌∙◌, ◌↔◌, inl, inr, Bool-cases, arith, get_elem?-lt, zero-add,
}
use concept.Base.Bits.{
  bit, set, replicate, length-set, length-replicate, bit-replicate-false, bit-lt,
}
use concept.Lir.Function.{LirBlock}
use concept.Lir.Dominators.{Rows, row, reach_loop, start_rows, lir_dominators}
use concept.Lir.Dominators.Walks.{Walk, Visits, entry, step}
use concept.Lir.Dominators.Marked.{IsReached, reach_loop_total}
use concept.Lir.Dominators.Meet.{in_all, in_all-get, bit-new_row}
use concept.Lir.Dominators.Start.{start_rows-IsUpper, Visits-Walk}
use concept.Lir.Dominators.Rounds.{IsFixed, dominator_loop-total, total-le}

-- Block j is on every walk to block i, and there is one.
abbrev pub Dominates : List LirBlock → ℕ → ℕ → Type 0
Dominates blocks j i = Walk blocks i × ((w : Walk blocks i) → Visits w j)

-- What the rows say.
abbrev pub AreDominators : List LirBlock → Rows → Type 0
AreDominators blocks d =
    (i j : ℕ) → i < length blocks → (bit (row d i) j ≡ true) ↔ Dominates blocks j i

module _ (blocks : List LirBlock) (r : List Bool) (reached : IsReached blocks r) (d : Rows)
    (fix : IsFixed blocks r d) where
  -- An entry of a fixed point that is true is on every walk.
  visited :
      (i j : ℕ)
      → i < length blocks
      → j < length blocks
      → bit (row d i) j ≡ true
      → (w : Walk blocks i) → Visits w j
  visited _ j li lj h entry = ground (arith, fix.bounds.start j lj)
  visited _ j li lj h (step {p = p} {s = s} w (b, e, to, l)) = elim (Bool-cases (j == s)) [
    | inl q ↦ inl ((==_iff j s).0 q)
    | inr q ↦ elim (Bool-cases (s == 0)) [
      | inl z ↦
          let z' = (==_iff s 0).0 z in
          absurd (ground (arith, fix.bounds.start j lj, ap (λ x. bit (row d x) j) z'))
      | inr z ↦
          let m = reached.marked s (step w (b, e, to, l)) in
          let same = fix.fixed s (ground arith) l m in
          let bits = bit-new_row blocks r d s j fix.bounds.width l lj in
          let all : in_all r s j d 0 blocks ≡ true = ground (arith, ap (λ x. bit x j) same) in
          inr (
            visited p j (get_elem?-lt blocks p e) lj
              (rw zero-add at
                (in_all-get r s j d 0 blocks p b all e (rw zero-add (reached.marked p w)) to))
              w)
    ]
  ]

  Walk-lt : (i : ℕ) → 0 < length blocks → Walk blocks i → i < length blocks
  Walk-lt _ n entry = n
  Walk-lt _ n (step w (b, e, to, l)) = l

  exact : AreDominators blocks d
  exact i j li = (
    λ h. (marked h, visited i j li (below h) h),
    λ (w, all). elim (Bool-cases (bit (row d i) j)) [
      | inl h ↦ h
      | inr h ↦
          let lj = Walk-lt j (omega arith) (Visits-Walk blocks i w j (all w)) in
          let (u, avoid) = fix.bounds.avoids i j li lj (reached.marked i w) h in
          absurd (avoid (all u))
    ],
  )
    where
      below : bit (row d i) j ≡ true → j < length blocks
      below h = omega (arith, bit-lt (row d i) j h, fix.bounds.width i li)

      marked : bit (row d i) j ≡ true → Walk blocks i
      marked h = elim (Bool-cases (bit r i)) [
        | inl m ↦ reached.walk i m
        | inr m ↦ absurd (cc (fix.bounds.unreached i j m))
      ]

module _ (b : LirBlock) (bs : List LirBlock) where
  abbrev blocks : List LirBlock
  blocks = b ∷ bs

  abbrev first : List Bool
  first = set (replicate (length blocks) false) 0 true

  first-IsSound : (i : ℕ) → bit first i ≡ true → Walk blocks i
  first-IsSound zero h = entry
  first-IsSound (suc i) h = absurd (cc (bit-replicate-false (length bs) i))

  reached :
      (r : List Bool) × (reach_loop (length blocks) blocks first ≡ some r) × IsReached blocks r
  reached =
      reach_loop_total blocks (length blocks) first
        (length-set (replicate (length blocks) false) 0 true
          ∙ length-replicate (length blocks) false)
        refl first-IsSound (omega arith)

  -- Both loops end within their fuel, and an entry is true exactly where dominance holds.
  pub lir_dominators-cons : (d : Rows) × (lir_dominators blocks ≡ some d) × AreDominators blocks d
  unfolding lir_dominators
  lir_dominators-cons =
      let (r, e, is) = reached in
      let start = start_rows-IsUpper blocks r is (omega arith) in
      let bound =
        total-le (start_rows r 0 r) (length blocks)
          (λ q l. start.width q (omega (arith, start.len))) in
      let (d, f, fix) =
        dominator_loop-total blocks r (suc (length blocks * length blocks)) (start_rows r 0 r) start
          (omega arith) (grind (arith, start.len)) in
      (d, rw e f, exact blocks r is d fix)

-- `lirDominators` ends, and its entry for blocks i and j is true exactly where some walk from the
-- entry leads to block i and every such walk visits block j.
pub lir_dominators-AreDominators :
    (blocks : List LirBlock)
    → (d : Rows) × (lir_dominators blocks ≡ some d) × AreDominators blocks d
unfolding lir_dominators
lir_dominators-AreDominators [] = ([], refl, λ i j l. absurd (omega arith))
lir_dominators-AreDominators (b ∷ bs) = lir_dominators-cons b bs
