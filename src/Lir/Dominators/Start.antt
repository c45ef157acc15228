-- ===== src/Lir/Dominators/Start.antt =====
-- The rows with which the second loop of `lirDominators` of internal/concept/lir_borrow.go begins.
use concept.Base.{
  ℕ, zero, suc, ◌+◌, ◌<◌, List, [], ◌∷◌, Bool, true, false, ◌&&◌, if◌then◌else◌, ◌==◌, ==_iff,
  length, map, ◌≡◌, refl, sym, ap, ◌∙◌, ◌⊎◌, inl, inr, Bool-cases, arith, subst, zero-add, add-zero,
  add-suc, suc-add, ltb,
}
use concept.Base.Bits.{
  bit, replicate, bit-replicate-false, length-replicate, length-set, get_or-set,
}
use concept.Lir.Function.{LirBlock}
use concept.Lir.Dominators.{Rows, row, new_row, start_row, start_rows}
use concept.Lir.Dominators.Walks.{Walk, Visits, entry, step, Edge}
use concept.Lir.Dominators.Marked.{IsReached}
use concept.Lir.Dominators.Meet.{in_all, in_all-get, bit-new_row}
use concept.Lir.Dominators.Improve.{IsUpper}

bit-map : (r : Bool) (xs : List Bool) (j : ℕ) → bit (map (λ x. r && x) xs) j ≡ (r && bit xs j)
bit-map r [] j = ground arith
bit-map r (x ∷ xs) zero = refl
bit-map r (x ∷ xs) (suc j) = bit-map r xs j

length-map : (r : Bool) (xs : List Bool) → length (map (λ x. r && x) xs) ≡ length xs
length-map r [] = refl
length-map r (x ∷ xs) = ap suc (length-map r xs)

bit-start_row :
    (reachable : List Bool) (i : ℕ) (r : Bool) (j : ℕ)
    → 0 < length reachable
    → bit (start_row reachable i r) j ≡ (if i == 0 then j == 0 else r && bit reachable j)
unfolding start_row
bit-start_row reachable i r j l = elim (Bool-cases (i == 0)) [
  | inl e ↦ rw e (
      ground (
        arith,
        get_or-set (replicate (length reachable) false) 0 j true false,
        length-replicate (length reachable) false,
        bit-replicate-false (length reachable) j,
      ))
  | inr e ↦ rw e (bit-map r reachable j)
]

length-start_row :
    (reachable : List Bool) (i : ℕ) (r : Bool) → length (start_row reachable i r) ≡ length reachable
unfolding start_row
length-start_row reachable i r = elim (Bool-cases (i == 0)) [
  | inl e ↦ rw e (
      length-set (replicate (length reachable) false) 0 true
      ∙ length-replicate (length reachable) false)
  | inr e ↦ rw e (length-map r reachable)
]

row-start_rows :
    (reachable : List Bool) (i : ℕ) (rs : List Bool) (q : ℕ)
    → q < length rs
    → row (start_rows reachable i rs) q ≡ start_row reachable (i + q) (bit rs q)
unfolding start_rows
row-start_rows reachable i [] q l = absurd (omega arith)
row-start_rows reachable i (r ∷ rs) zero l = rw add-zero
row-start_rows reachable i (r ∷ rs) (suc q) l =
    rw (add-suc, ← suc-add) (row-start_rows reachable (suc i) rs q (omega arith))

row-start_rows_out :
    (reachable : List Bool) (i : ℕ) (rs : List Bool) (q : ℕ)
    → (ltb q (length rs)) ≡ false
    → row (start_rows reachable i rs) q ≡ []
unfolding start_rows
row-start_rows_out reachable i [] q l = refl
row-start_rows_out reachable i (r ∷ rs) zero l = absurd (ground arith)
row-start_rows_out reachable i (r ∷ rs) (suc q) l =
    row-start_rows_out reachable (suc i) rs q (ground arith)

length-start_rows :
    (reachable : List Bool) (i : ℕ) (rs : List Bool)
    → length (start_rows reachable i rs) ≡ length rs
unfolding start_rows
length-start_rows reachable i [] = refl
length-start_rows reachable i (r ∷ rs) = ap suc (length-start_rows reachable (suc i) rs)

-- A visited block is one to which a walk leads.
pub Visits-Walk :
    (blocks : List LirBlock) (i : ℕ) (w : Walk blocks i) (j : ℕ) → Visits w j → Walk blocks j
Visits-Walk blocks _ entry j h = subst (Walk blocks) (sym h) entry
Visits-Walk blocks _ (step {p = p} {s = s} w e) j h = elim h [
  | inl q ↦ subst (Walk blocks) (sym q) (step w e)
  | inr v ↦ Visits-Walk blocks p w j v
]

pub Walk-cases :
    (blocks : List LirBlock) (i : ℕ)
    → Walk blocks i
    → (i ≡ 0) ⊎ ((p : ℕ) × Walk blocks p × Edge blocks p i)
Walk-cases blocks _ entry = inl refl
Walk-cases blocks _ (step {p = p} w e) = inr (p, w, e)

module _ (blocks : List LirBlock) (r : List Bool) (reached : IsReached blocks r)
    (some_block : 0 < length blocks) where
  abbrev d : Rows
  d = start_rows r 0 r

  bit-start : (q j : ℕ) → bit (row d q) j ≡ true → bit r j ≡ true
  bit-start q j h = elim (Bool-cases (ltb q (length r))) [
    | inr e ↦ absurd (cc (row-start_rows_out r 0 r q e))
    | inl e ↦
        let b = bit-start_row r q (bit r q) j (omega (arith, reached.len)) in
        let at : bit (start_row r q (bit r q)) j ≡ true =
          rw (row-start_rows r 0 r q (ground arith), zero-add q) at h in
        let first = reached.marked 0 entry in ground (arith, ==_iff j 0)
  ]

  row-start : (q : ℕ) → q < length blocks → row d q ≡ start_row r q (bit r q)
  row-start q l = rw (row-start_rows r 0 r q (omega (arith, reached.len)), zero-add)

  bit-row_start :
      (q j : ℕ)
      → q < length blocks
      → bit (row d q) j ≡ (if q == 0 then j == 0 else bit r q && bit r j)
  bit-row_start q j l =
      rw (row-start q l) (bit-start_row r q (bit r q) j (omega (arith, reached.len)))

  start-width : (q : ℕ) → q < length blocks → length (row d q) ≡ length blocks
  start-width q l = rw (row-start q l) (length-start_row r q (bit r q) ∙ reached.len)

  start-upper :
      (q j : ℕ)
      → 0 < q
      → q < length blocks
      → j < length blocks
      → bit r q ≡ true
      → bit (new_row blocks r d q) j ≡ true
      → bit (row d q) j ≡ true
  start-upper q j p lq lj m h =
      let bits = bit-new_row blocks r d q j start-width lq lj in
      let goal = bit-row_start q j lq in
      elim (Bool-cases (j == q)) [
        | inl e ↦ ground (arith, ap (bit r) ((==_iff j q).0 e))
        | inr e ↦
            let all : in_all r q j d 0 blocks ≡ true = ground arith in
            let marked = by_walk all (Walk-cases blocks q (reached.walk q m)) in ground arith
      ]
    where
      by_walk :
          in_all r q j d 0 blocks ≡ true
          → (q ≡ 0) ⊎ ((x : ℕ) × Walk blocks x × Edge blocks x q)
          → bit r j ≡ true
      by_walk all (inl e) = absurd (omega arith)
      by_walk all (inr (x, w, (b, e, to, l))) = bit-start x j (
          rw zero-add at
            (in_all-get r q j d 0 blocks x b all e (rw zero-add (reached.marked x w)) to))

  start-avoids :
      (q j : ℕ)
      → q < length blocks
      → j < length blocks
      → bit r q ≡ true
      → bit (row d q) j ≡ false
      → (w : Walk blocks q) × (Visits w j → ⊥)
  start-avoids q j lq lj m h = elim (Bool-cases (q == 0)) [
    | inl e ↦
        let e' = (==_iff q 0).0 e in
        subst (λ x. (w : Walk blocks x) × (Visits w j → ⊥)) (sym e')
          (entry, λ z. absurd (ground (arith, bit-row_start q j lq)))
    | inr e ↦ (
      reached.walk q m,
      λ z.
          let mj = reached.marked j (Visits-Walk blocks q (reached.walk q m) j z) in
          absurd (ground (arith, bit-row_start q j lq)),
    )
  ]

  pub start_rows-IsUpper : IsUpper blocks r (start_rows r 0 r)
  start_rows-IsUpper = record {
    len = length-start_rows r 0 r ∙ reached.len;
    width = start-width;
    start = λ j l. bit-row_start 0 j some_block;
    unreached = λ q j u. unreached q j u;
    avoids = start-avoids;
    upper = start-upper;
  }
    where
      unreached : (q j : ℕ) → bit r q ≡ false → bit (row d q) j ≡ false
      unreached q j u = elim (Bool-cases (ltb q (length r))) [
        | inr e ↦ rw (row-start_rows_out r 0 r q e)
        | inl e ↦ ground (
          arith,
          bit-row_start q j (ground (arith, reached.len)),
          reached.marked 0 entry,
          ==_iff q 0,
          ap (bit r) {x = q} {y = 0},
        )
      ]
