-- ===== src/Lir/Dominators/Rounds.antt =====
-- The rounds of the second loop of `lirDominators` of internal/concept/lir_borrow.go: each round
-- that reports a change makes an entry false, so the loop ends, where no update changes a row.
use concept.Base.{
  ℕ, zero, suc, ◌+◌, ◌-◌, ◌*◌, ◌≤◌, ◌<◌, List, [], ◌∷◌, Bool, true, false, ◌||◌, some, ◌==◌, ==_iff,
  length, ◌≡◌, refl, sym, ap, ◌∙◌, ◌⊎◌, inl, inr, Bool-cases, arith, subst, ||-false,
}
use concept.Base.Bits.{bit, set, count, differ, differ→≡, count-lt, count-le-length, bit-lt}
use concept.Lir.Function.{LirBlock}
use concept.Lir.Dominators.{
  Rows, row, new_row, Improved, improve_row, improve_round, dominator_loop,
}
use concept.Lir.Dominators.Meet.{length-new_row}
use concept.Lir.Dominators.Improve.{IsUpper, set-IsUpper}

-- The number of true entries.
abbrev pub total : Rows → ℕ
total [] = 0
total (r ∷ rs) = count r + total rs

total-set :
    (d : Rows) (i : ℕ) (v : List Bool)
    → i < length d
    → total (set d i v) + count (row d i) ≡ total d + count v
total-set [] i v l = absurd (omega arith)
total-set (r ∷ rs) zero v l = omega arith
total-set (r ∷ rs) (suc i) v l = omega (arith, total-set rs i v (omega arith))

set-row : (d : Rows) (i : ℕ) → set d i (row d i) ≡ d
set-row [] i = refl
set-row (r ∷ rs) zero = refl
set-row (r ∷ rs) (suc i) = ap (◌∷◌ r) (set-row rs i)

pub total-le :
    (d : Rows) (n : ℕ) → ((q : ℕ) → q < length d → length (row d q) ≡ n) → total d ≤ length d * n
total-le [] n w = omega arith
total-le (r ∷ rs) n w =
    let rest = total-le rs n (λ q l. w (suc q) (omega arith)) in
    grind (arith, count-le-length r, w 0 (omega arith))

-- Entries only become false, and a step that reports no change makes none.
record Shrinks (s s' : Improved) : Type 0 where
  less : total s'.0 ≤ total s.0
  busy : s'.1 ≡ true → (s.1 ≡ true) ⊎ (total s'.0 < total s.0)
  quiet : s'.1 ≡ false → s' ≡ s

Shrinks-refl : (s : Improved) → Shrinks s s
Shrinks-refl s = record { less = omega arith; busy = inl; quiet = λ h. refl }

Shrinks-trans : {s t u : Improved} → Shrinks s t → Shrinks t u → Shrinks s u
Shrinks-trans {s} {t} {u} a b = record {
  less = omega (arith, a.less, b.less);
  busy = λ h. busy (b.busy h);
  quiet = λ h. let e = b.quiet h in e ∙ a.quiet (sym (ap (λ (m : Improved). m.1) e) ∙ h);
}
  where
    busy : (t.1 ≡ true) ⊎ (total u.0 < total t.0) → (s.1 ≡ true) ⊎ (total u.0 < total s.0)
    busy (inl h) = elim (a.busy h) [ inl e ↦ inl e | inr l ↦ inr (omega (arith, b.less)) ]
    busy (inr l) = inr (omega (arith, a.less))

module _ (blocks : List LirBlock) (reachable : List Bool) where
  abbrev update : ℕ → Improved → Improved
  update i s = let v = new_row blocks reachable s.0 i in (set s.0 i v, s.1 || differ v (row s.0 i))

  improve_row_marked :
      (i : ℕ) (s : Improved)
      → bit reachable i ≡ true
      → improve_row blocks reachable i s ≡ update i s
  unfolding improve_row
  improve_row_marked i s h = rw h

  improve_row_unmarked :
      (i : ℕ) (s : Improved) → bit reachable i ≡ false → improve_row blocks reachable i s ≡ s
  unfolding improve_row
  improve_row_unmarked i s h = rw h

  new_row-below :
      (d : Rows) (i j : ℕ)
      → IsUpper blocks reachable d
      → 0 < i
      → i < length blocks
      → bit reachable i ≡ true
      → bit (new_row blocks reachable d i) j ≡ true
      → bit (row d i) j ≡ true
  new_row-below d i j inv p l m h =
      inv.upper i j p l
        (omega (
          arith,
          bit-lt (new_row blocks reachable d i) j h,
          length-new_row blocks reachable d i inv.width,
        ))
        m h

  update-Shrinks :
      (i : ℕ) (s : Improved)
      → IsUpper blocks reachable s.0
      → 0 < i
      → i < length blocks
      → bit reachable i ≡ true
      → Shrinks s (update i s)
  update-Shrinks i s inv p l m =
      let v = new_row blocks reachable s.0 i in
      let old = row s.0 i in
      let counts =
        count-lt v old (length-new_row blocks reachable s.0 i inv.width ∙ sym (inv.width i l))
          (λ j. new_row-below s.0 i j inv p l m) in
      let sum = total-set s.0 i v (omega (arith, inv.len)) in
      record {
        less = omega (arith, counts.0, sum);
        busy = λ h. elim (Bool-cases s.1) [
          | inl e ↦ inl e
          | inr e ↦ inr (omega (arith, counts.1 (ground arith), sum))
        ];
        quiet = λ h.
            let parts = ||-false s.1 (differ v old) h in
            let rows = ap (set s.0 i) (differ→≡ v old parts.1) ∙ set-row s.0 i in
            let flag = h ∙ sym parts.0 in λ k. (rows k, flag k);
      }

  -- What a step of a round keeps.
  record Kept (s s' : Improved) : Type 0 where
    shrinks : Shrinks s s'
    inv : IsUpper blocks reachable s'.0

  improve_row-Kept :
      (i : ℕ) (s : Improved)
      → IsUpper blocks reachable s.0
      → 0 < i
      → i < length blocks
      → Kept s (improve_row blocks reachable i s)
  improve_row-Kept i s inv p l = elim (Bool-cases (bit reachable i)) [
    | inl m ↦ rw (improve_row_marked i s m) (record {
      shrinks = update-Shrinks i s inv p l m;
      inv = set-IsUpper blocks reachable s.0 inv i p l m;
    })
    | inr m ↦ rw (improve_row_unmarked i s m) (record { shrinks = Shrinks-refl s; inv = inv })
  ]

  improve_round-Kept :
      (k i : ℕ) (s : Improved)
      → IsUpper blocks reachable s.0
      → 0 < i
      → i + k ≡ length blocks
      → Kept s (improve_round blocks reachable k i s)
  unfolding improve_round
  improve_round-Kept zero i s inv p e = record { shrinks = Shrinks-refl s; inv = inv }
  improve_round-Kept (suc k) i s inv p e =
      let first = improve_row-Kept i s inv p (omega arith) in
      let rest =
        improve_round-Kept k (suc i) (improve_row blocks reachable i s) first.inv (omega arith)
          (omega arith) in
      record { shrinks = Shrinks-trans first.shrinks rest.shrinks; inv = rest.inv }

  row-quiet :
      (i : ℕ) (s : Improved)
      → bit reachable i ≡ true
      → i < length s.0
      → improve_row blocks reachable i s ≡ s
      → s.1 ≡ false
      → new_row blocks reachable s.0 i ≡ row s.0 i
  row-quiet i s m l still q =
      let same = sym (improve_row_marked i s m) ∙ still in
      differ→≡ (new_row blocks reachable s.0 i) (row s.0 i)
        (||-false s.1 _ (ap (λ (x : Improved). x.1) same ∙ q)).1

  -- After a quiet round no update changes a row.
  improve_round-quiet :
      (k i : ℕ) (s : Improved) (q : ℕ)
      → IsUpper blocks reachable s.0
      → 0 < i
      → i + k ≡ length blocks
      → (improve_round blocks reachable k i s).1 ≡ false
      → i ≤ q
      → q < length blocks
      → bit reachable q ≡ true
      → new_row blocks reachable s.0 q ≡ row s.0 q
  unfolding improve_round
  improve_round-quiet zero i s q inv p e quiet a b m = absurd (omega arith)
  improve_round-quiet (suc k) i s q inv p e quiet a b m =
      let s' = improve_row blocks reachable i s in
      let first = improve_row-Kept i s inv p (omega arith) in
      let rest = improve_round-Kept k (suc i) s' first.inv (omega arith) (omega arith) in
      let quiet' = ap (λ (x : Improved). x.1) (sym (rest.shrinks.quiet quiet)) ∙ quiet in
      let still = first.shrinks.quiet quiet' in
      let quiet_s = ap (λ (x : Improved). x.1) (sym still) ∙ quiet' in
      elim (Bool-cases (q == i)) [
        | inl h ↦
            let same = (==_iff q i).0 h in
            row-quiet q s m (omega (arith, inv.len))
              (subst (λ x. improve_row blocks reachable x s ≡ s) (sym same) still) quiet_s
        | inr h ↦
            improve_round-quiet k (suc i) s q inv (omega arith) (omega arith)
              (subst (λ x. (improve_round blocks reachable k (suc i) x).1 ≡ false) still quiet)
              (ground arith) b m
      ]

  -- Where the loop ends: no update changes a row.
  pub record IsFixed (d : Rows) : Type 0 where
    pub bounds : IsUpper blocks reachable d
    pub fixed :
        (q : ℕ)
        → 0 < q
        → q < length blocks
        → bit reachable q ≡ true
        → new_row blocks reachable d q ≡ row d q

  abbrev round : Rows → Improved
  round d = improve_round blocks reachable (length blocks - 1) 1 (d, false)

  pub dominator_loop-total :
      (fuel : ℕ) (d : Rows)
      → IsUpper blocks reachable d
      → 0 < length blocks
      → total d < fuel
      → (d' : Rows) × (dominator_loop fuel blocks reachable d ≡ some d') × IsFixed d'
  unfolding dominator_loop
  dominator_loop-total zero d inv n h = absurd (omega arith)
  dominator_loop-total (suc fuel) d inv n h = elim (Bool-cases (round d).1) [
    | inl more ↦
        rw more
          (dominator_loop-total fuel (round d).0 kept.inv n (progress (kept.shrinks.busy more)))
    | inr q ↦ ((round d).0, rw q, done q)
  ]
    where
      kept : Kept (d, false) (round d)
      kept = improve_round-Kept (length blocks - 1) 1 (d, false) inv (omega arith) (omega arith)

      progress : (false ≡ true) ⊎ (total (round d).0 < total d) → total (round d).0 < fuel
      progress (inl e) = cc
      progress (inr l) = omega arith

      done : (round d).1 ≡ false → IsFixed (round d).0
      done q =
          let same = kept.shrinks.quiet q in
          subst (λ (x : Improved). IsFixed x.0) (sym same)
            (record {
              bounds = inv;
              fixed = λ i p l m.
                  improve_round-quiet (length blocks - 1) 1 (d, false) i inv (omega arith)
                    (omega arith) q (omega arith) l m;
            })
