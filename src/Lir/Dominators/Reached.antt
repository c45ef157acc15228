-- ===== src/Lir/Dominators/Reached.antt =====
-- The first loop of `lirDominators` of internal/concept/lir_borrow.go: it marks the blocks to which
-- a walk leads.
use concept.Base.{
  ℕ, suc, ◌≤◌, ◌<◌, ℤ, pos, pos_part, List, [], ◌∷◌, Bool, true, false, ◌&&◌, not, if◌then◌else◌,
  ◌==ℤ◌, ==ℤ_iff, in_range, length, any, ◌≡◌, refl, sym, ap, ◌∙◌, subst, ◌⊎◌, inl, inr, Bool-cases,
  &&-true, arith, ltb→lt,
}
use concept.Base.Bits.{bit, set, count, length-set, get_or-set, count-set}
use concept.Lir.Function.{LirBlock}
use concept.Lir.Dominators.{Marks, mark, mark_all, mark_round, lir_successors}

-- Marks are only added, and a round that reports no change changes nothing.
pub record Extends (s s' : Marks) : Type 0 where
  pub len : length s'.0 ≡ length s.0
  pub grows : count s.0 ≤ count s'.0
  pub kept : (i : ℕ) → bit s.0 i ≡ true → bit s'.0 i ≡ true
  pub busy : s'.1 ≡ true → (s.1 ≡ true) ⊎ (count s.0 < count s'.0)
  pub quiet : s'.1 ≡ false → s' ≡ s

Extends-refl : (s : Marks) → Extends s s
Extends-refl s = record {
  len = refl;
  grows = omega arith;
  kept = λ i h. h;
  busy = inl;
  quiet = λ h. refl;
}

Extends-trans : {s t u : Marks} → Extends s t → Extends t u → Extends s u
Extends-trans {s} {t} {u} a b = record {
  len = b.len ∙ a.len;
  grows = omega (arith, a.grows, b.grows);
  kept = λ i h. b.kept i (a.kept i h);
  busy = λ h. busy (b.busy h);
  quiet = λ h. let e = b.quiet h in e ∙ a.quiet (sym (ap (λ (m : Marks). m.1) e) ∙ h);
}
  where
    busy : (t.1 ≡ true) ⊎ (count t.0 < count u.0) → (s.1 ≡ true) ⊎ (count s.0 < count u.0)
    busy (inl h) = elim (a.busy h) [ inl e ↦ inl e | inr l ↦ inr (omega (arith, b.grows)) ]
    busy (inr l) = inr (omega (arith, a.grows))

abbrev pub fresh : ℕ → ℤ → Marks → Bool
fresh n t s = in_range t n && not (bit s.0 (pos_part t))

pub mark_fresh :
    (n : ℕ) (t : ℤ) (s : Marks)
    → fresh n t s ≡ true
    → mark n t s ≡ (set s.0 (pos_part t) true, true)
unfolding mark
mark_fresh n t s h = rw h

pub mark_stale : (n : ℕ) (t : ℤ) (s : Marks) → fresh n t s ≡ false → mark n t s ≡ s
unfolding mark
mark_stale n t s h = rw h

pub in_range-lt : (t : ℤ) (n : ℕ) → in_range t n ≡ true → pos_part t < n
in_range-lt (pos i) n h = ltb→lt i n h
in_range-lt (ℤ.negsuc i) n h = cc

pub mark-Extends : (n : ℕ) (t : ℤ) (s : Marks) → length s.0 ≡ n → Extends s (mark n t s)
mark-Extends n t s len = elim (Bool-cases (fresh n t s)) [
  | inr stale ↦ rw (mark_stale n t s stale) (Extends-refl s)
  | inl h ↦ rw (mark_fresh n t s h) (new h)
]
  where
    k : ℕ
    k = pos_part t

    new : fresh n t s ≡ true → Extends s (set s.0 (pos_part t) true, true)
    new h =
        let below = in_range-lt t n (&&-true (in_range t n) _ h).0 in
        let more =
          count-set s.0 (pos_part t) (omega arith)
            (ground (arith, (&&-true (in_range t n) _ h).1)) in
        record {
          len = length-set s.0 (pos_part t) true;
          grows = omega (arith, more);
          kept = λ i b. ground (arith, get_or-set s.0 (pos_part t) i true false);
          busy = λ e. inr (omega (arith, more));
          quiet = λ e. cc;
        }

pub mark_all-Extends :
    (n : ℕ) (ts : List ℤ) (s : Marks) → length s.0 ≡ n → Extends s (mark_all n ts s)
unfolding mark_all
mark_all-Extends n [] s len = Extends-refl s
mark_all-Extends n (t ∷ ts) s len =
    let first = mark-Extends n t s len in
    Extends-trans first (mark_all-Extends n ts (mark n t s) (first.len ∙ len))

abbrev pub visit_block : ℕ → ℕ → LirBlock → Marks → Marks
visit_block n i b s = if bit s.0 i then mark_all n (lir_successors b) s else s

pub visit_block-Extends :
    (n i : ℕ) (b : LirBlock) (s : Marks) → length s.0 ≡ n → Extends s (visit_block n i b s)
visit_block-Extends n i b s len = elim (Bool-cases (bit s.0 i)) [
  | inl h ↦ rw h (mark_all-Extends n (lir_successors b) s len)
  | inr h ↦ rw h (Extends-refl s)
]

pub mark_round-Extends :
    (n i : ℕ) (bs : List LirBlock) (s : Marks) → length s.0 ≡ n → Extends s (mark_round n i bs s)
unfolding mark_round
mark_round-Extends n i [] s len = Extends-refl s
mark_round-Extends n i (b ∷ bs) s len =
    let first = visit_block-Extends n i b s len in
    Extends-trans first (mark_round-Extends n (suc i) bs (visit_block n i b s) (first.len ∙ len))

-- In a quiet round every target in range is marked already.
mark-quiet :
    (n : ℕ) (t : ℤ) (s : Marks) (k : ℕ)
    → mark n t s ≡ s
    → s.1 ≡ false
    → (t ==ℤ pos k) ≡ true
    → k < n
    → bit s.0 k ≡ true
mark-quiet n t s k same q e l = elim (Bool-cases (fresh n t s)) [
  | inl h ↦ absurd (cc (mark_fresh n t s h))
  | inr h ↦ stale t h ((==ℤ_iff t (pos k)).0 e)
]
  where
    stale : (t : ℤ) → fresh n t s ≡ false → t ≡ pos k → bit s.0 k ≡ true
    stale t h p = ground (arith, subst (λ t. fresh n t s ≡ false) p h)

pub mark_all-quiet :
    (n : ℕ) (ts : List ℤ) (s : Marks) (k : ℕ)
    → length s.0 ≡ n
    → (mark_all n ts s).1 ≡ false
    → any (λ t. t ==ℤ pos k) ts ≡ true
    → k < n
    → bit s.0 k ≡ true
unfolding mark_all
mark_all-quiet n [] s k len q h l = cc
mark_all-quiet n (t ∷ ts) s k len q h l =
    let first = mark-Extends n t s len in
    let rest = mark_all-Extends n ts (mark n t s) (first.len ∙ len) in
    let still = first.quiet (ap (λ (m : Marks). m.1) (sym (rest.quiet q)) ∙ q) in
    elim (Bool-cases (t ==ℤ pos k)) [
      | inl e ↦
          mark-quiet n t s k still (ap (λ (m : Marks). m.1) (sym (rest.quiet q ∙ still)) ∙ q) e l
      | inr e ↦
          mark_all-quiet n ts s k len (subst (λ m. (mark_all n ts m).1 ≡ false) still q) (rw e at h)
            l
    ]
