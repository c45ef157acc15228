-- ===== src/Lir/Dominators/Marked.antt =====
-- The result of the first loop of `lirDominators` of internal/concept/lir_borrow.go: exactly the
-- blocks to which a walk leads are marked, and the loop ends.
use concept.Base.{
  ℕ, zero, suc, ◌+◌, ◌<◌, ℤ, pos, pos_part, List, [], ◌∷◌, Bool, true, false, some, ◌==◌, ◌==ℤ◌,
  ==ℤ_iff, ==_iff, in_range, length, any, get_elem?, ◌≡◌, refl, sym, ap, ◌∙◌, subst, ◌⊎◌, inl, inr,
  Bool-cases, &&-true, arith, zero-add, add-zero, add-suc, suc-add, some_inj,
}
use concept.Base.Bits.{bit, set, count, get_or-set, count-le-length}
use concept.Lir.Function.{LirBlock}
use concept.Lir.Dominators.{Marks, mark, mark_all, mark_round, reach_loop, lir_successors}
use concept.Lir.Dominators.Walks.{Walk, entry, step, leads_to}
use concept.Lir.Dominators.Reached.{
  Extends, mark_round-Extends, visit_block, visit_block-Extends, mark_all-quiet, mark_fresh,
  mark_stale, fresh, in_range-lt,
}

-- The list is the part of the blocks from block i on.
abbrev pub IsTail : List LirBlock → ℕ → List LirBlock → Type 0
IsTail blocks i bs =
    (k : ℕ) (b : LirBlock) → get_elem? bs k ≡ some b → get_elem? blocks (i + k) ≡ some b

pub IsTail-whole : (blocks : List LirBlock) → IsTail blocks 0 blocks
IsTail-whole blocks k b h = rw zero-add h

pub IsTail-rest :
    (blocks : List LirBlock) (i : ℕ) (b : LirBlock) (bs : List LirBlock)
    → IsTail blocks i (b ∷ bs)
    → IsTail blocks (suc i) bs
IsTail-rest blocks i b bs h k c e = rw (suc-add, ← add-suc) (h (suc k) c e)

pub IsTail-head :
    (blocks : List LirBlock) (i : ℕ) (b : LirBlock) (bs : List LirBlock)
    → IsTail blocks i (b ∷ bs)
    → get_elem? blocks i ≡ some b
IsTail-head blocks i b bs h = rw add-zero at (h 0 b refl)

-- A walk leads to every marked block.
abbrev IsSound : List LirBlock → List Bool → Type 0
IsSound blocks r = (i : ℕ) → bit r i ≡ true → Walk blocks i

module _ (blocks : List LirBlock) where
  mark-IsSound :
      (t : ℤ) (s : Marks)
      → (pos_part t < length blocks → t ≡ pos (pos_part t) → Walk blocks (pos_part t))
      → IsSound blocks s.0
      → IsSound blocks (mark (length blocks) t s).0
  mark-IsSound t s w sound i h = elim (Bool-cases (fresh (length blocks) t s)) [
    | inr e ↦ sound i (rw (mark_stale (length blocks) t s e) at h)
    | inl e ↦ new e (rw (mark_fresh (length blocks) t s e) at h)
  ]
    where
      k : ℕ
      k = pos_part t

      is_pos : (t : ℤ) → in_range t (length blocks) ≡ true → t ≡ pos (pos_part t)
      is_pos (pos a) e = refl
      is_pos (ℤ.negsuc a) e = cc

      new :
          fresh (length blocks) t s ≡ true
          → bit (set s.0 (pos_part t) true) i ≡ true
          → Walk blocks i
      new e b =
          let inside = (&&-true (in_range t (length blocks)) _ e).0 in
          elim (Bool-cases (i == pos_part t)) [
            | inl q ↦
                subst (Walk blocks) (sym ((==_iff i (pos_part t)).0 q))
                  (w (in_range-lt t (length blocks) inside) (is_pos t inside))
            | inr q ↦ sound i (ground (arith, get_or-set s.0 (pos_part t) i true false))
          ]

  abbrev Leads : ℕ → List ℤ → Type 0
  Leads p [] = Unit
  Leads p (t ∷ ts) =
      (pos_part t < length blocks → t ≡ pos (pos_part t) → Walk blocks (pos_part t)) × Leads p ts

  mark_all-IsSound :
      (p : ℕ) (ts : List ℤ) (s : Marks)
      → Leads p ts
      → IsSound blocks s.0
      → IsSound blocks (mark_all (length blocks) ts s).0
  unfolding mark_all
  mark_all-IsSound p [] s w sound = sound
  mark_all-IsSound p (t ∷ ts) s w sound =
      mark_all-IsSound p ts (mark (length blocks) t s) w.1 (mark-IsSound t s w.0 sound)

  -- The targets of a block to which a walk leads.
  targets-Leads :
      (p : ℕ) (b : LirBlock) (ts : List ℤ)
      → Walk blocks p
      → get_elem? blocks p ≡ some b
      → ((k : ℕ) → any (λ t. t ==ℤ pos k) ts ≡ true → leads_to b k ≡ true)
      → Leads p ts
  targets-Leads p b [] w e within = tt
  targets-Leads p b (t ∷ ts) w e within = (
    λ l q.
        step w (b, e, within (pos_part t) (ground (arith, (==ℤ_iff t (pos (pos_part t))).1 q)), l),
    targets-Leads p b ts w e (λ k h. within k (ground arith)),
  )

  visit_block-IsSound :
      (i : ℕ) (b : LirBlock) (s : Marks)
      → get_elem? blocks i ≡ some b
      → IsSound blocks s.0
      → IsSound blocks (visit_block (length blocks) i b s).0
  visit_block-IsSound i b s e sound = elim (Bool-cases (bit s.0 i)) [
    | inl h ↦ rw h (
        mark_all-IsSound i (lir_successors b) s
          (targets-Leads i b (lir_successors b) (sound i h) e (λ k q. q)) sound)
    | inr h ↦ rw h sound
  ]

  mark_round-IsSound :
      (i : ℕ) (bs : List LirBlock) (s : Marks)
      → IsTail blocks i bs
      → IsSound blocks s.0
      → IsSound blocks (mark_round (length blocks) i bs s).0
  unfolding mark_round
  mark_round-IsSound i [] s tail sound = sound
  mark_round-IsSound i (b ∷ bs) s tail sound =
      mark_round-IsSound (suc i) bs (visit_block (length blocks) i b s)
        (IsTail-rest blocks i b bs tail)
        (visit_block-IsSound i b s (IsTail-head blocks i b bs tail) sound)

  visit_block-quiet :
      (i : ℕ) (c : LirBlock) (bs : List LirBlock) (s : Marks)
      → length s.0 ≡ length blocks
      → (mark_round (length blocks) (suc i) bs (visit_block (length blocks) i c s)).1 ≡ false
      → visit_block (length blocks) i c s ≡ s
  visit_block-quiet i c bs s len q =
      let s' = visit_block (length blocks) i c s in
      let first = visit_block-Extends (length blocks) i c s len in
      let rest = mark_round-Extends (length blocks) (suc i) bs s' (first.len ∙ len) in
      first.quiet (ap (λ (x : Marks). x.1) (sym (rest.quiet q)) ∙ q)

  mark_round-still :
      (i : ℕ) (bs : List LirBlock) (s : Marks)
      → length s.0 ≡ length blocks
      → (mark_round (length blocks) i bs s).1 ≡ false
      → s.1 ≡ false
  mark_round-still i bs s len q =
      ap (λ (x : Marks). x.1) (sym ((mark_round-Extends (length blocks) i bs s len).quiet q)) ∙ q

  -- After a quiet round the marks are closed under the successors of the list's blocks.
  mark_round-quiet :
      (i : ℕ) (bs : List LirBlock) (s : Marks) (k j : ℕ) (b : LirBlock)
      → length s.0 ≡ length blocks
      → (mark_round (length blocks) i bs s).1 ≡ false
      → get_elem? bs k ≡ some b
      → bit s.0 (i + k) ≡ true
      → leads_to b j ≡ true
      → j < length blocks
      → bit s.0 j ≡ true
  unfolding mark_round
  mark_round-quiet i [] s k j b len q e m h l = cc
  mark_round-quiet i (c ∷ bs) s zero j b len q e m h l =
      let here : bit s.0 i ≡ true = rw add-zero at m in
      let still = visit_block-quiet i c bs s len q in
      let same : visit_block (length blocks) i c s ≡ mark_all (length blocks) (lir_successors c) s =
        rw here in
      let unchanged = mark_round-still i (c ∷ bs) s len q in
      mark_all-quiet (length blocks) (lir_successors c) s j len
        (ap (λ (x : Marks). x.1) (sym same ∙ still) ∙ unchanged) (rw (some_inj e) h) l
  mark_round-quiet i (c ∷ bs) s (suc k) j b len q e m h l =
      mark_round-quiet (suc i) bs s k j b len
        (subst (λ x. (mark_round (length blocks) (suc i) bs x).1 ≡ false)
          (visit_block-quiet i c bs s len q) q)
        e (rw (suc-add, ← add-suc) m) h l

  pub record IsReached (r : List Bool) : Type 0 where
    pub len : length r ≡ length blocks
    pub walk : IsSound blocks r
    pub marked : (i : ℕ) → Walk blocks i → bit r i ≡ true

  abbrev round : List Bool → Marks
  round r = mark_round (length blocks) 0 blocks (r, false)

  round-IsReached :
      (r : List Bool)
      → length r ≡ length blocks
      → bit r 0 ≡ true
      → IsSound blocks r
      → (round r).1 ≡ false
      → IsReached (round r).0
  round-IsReached r len start sound q =
      let same : round r ≡ (r, false) =
        (mark_round-Extends (length blocks) 0 blocks (r, false) len).quiet q in
      rw same (record { len = len; walk = sound; marked = marked })
    where
      marked : (i : ℕ) → Walk blocks i → bit r i ≡ true
      marked _ entry = start
      marked _ (step {p = p} {s = s} w (b, e, h, l)) =
          mark_round-quiet 0 blocks (r, false) p s b len q e (rw zero-add (marked p w)) h l

  -- The loop ends with the marks that are meant.
  pub reach_loop_total :
      (fuel : ℕ) (r : List Bool)
      → length r ≡ length blocks
      → bit r 0 ≡ true
      → IsSound blocks r
      → length blocks < fuel + count r
      → (r' : List Bool) × (reach_loop fuel blocks r ≡ some r') × IsReached r'
  unfolding reach_loop
  reach_loop_total zero r len start sound h = absurd (omega (arith, count-le-length r))
  reach_loop_total (suc fuel) r len start sound h = elim (Bool-cases (round r).1) [
    | inr q ↦ ((round r).0, rw q, round-IsReached r len start sound q)
    | inl more ↦ rw more (
        reach_loop_total fuel (round r).0 (grown.len ∙ len) (grown.kept 0 start)
          (mark_round-IsSound 0 blocks (r, false) (IsTail-whole blocks) sound)
          (progress (grown.busy more)))
  ]
    where
      grown : Extends (r, false) (round r)
      grown = mark_round-Extends (length blocks) 0 blocks (r, false) len

      progress :
          (false ≡ true) ⊎ (count r < count (round r).0) → length blocks < fuel + count (round r).0
      progress (inl e) = cc
      progress (inr l) = omega arith
