-- ===== src/Lir/Dominators/Meet.antt =====
-- The new row of a block in the second loop of `lirDominators` of internal/concept/lir_borrow.go:
-- an entry is true where it is the block's own, or true in the rows of all marked predecessors.
use concept.Base.{
  ℕ, zero, suc, ◌+◌, ◌<◌, ℤ, pos, List, [], ◌∷◌, Bool, true, false, ◌&&◌, ◌||◌, not, some, ◌==◌,
  ◌==ℤ◌, length, any, get_elem?, ◌≡◌, refl, sym, ◌∙◌, Bool-cases, &&-true, arith, add-zero, add-suc,
  suc-add, some_inj, inl, inr,
}
use concept.Base.Bits.{
  bit, replicate, and_bits, bit-and_bits, length-and_bits, bit-replicate, length-replicate,
  length-set, get_or-set,
}
use concept.Lir.Function.{LirBlock}
use concept.Lir.Dominators.{Rows, row, meet_targets, meet, new_row, lir_successors}
use concept.Lir.Dominators.Walks.{leads_to}

bit-meet_targets :
    (i : ℕ) (reached : Bool) (d_p : List Bool) (ts : List ℤ) (v : List Bool) (j : ℕ)
    → bit (meet_targets i reached d_p ts v) j
      ≡ (bit v j && (not (reached && any (λ t. t ==ℤ pos i) ts) || bit d_p j))
unfolding meet_targets
bit-meet_targets i reached d_p [] v j = ground arith
bit-meet_targets i reached d_p (t ∷ ts) v j = elim (Bool-cases (t ==ℤ pos i && reached)) [
  | inl e ↦
      rw e (
        bit-meet_targets i reached d_p ts (and_bits v d_p) j ∙ ground (arith, bit-and_bits v d_p j))
  | inr e ↦ rw e (bit-meet_targets i reached d_p ts v j ∙ ground arith)
]

length-meet_targets :
    (i : ℕ) (reached : Bool) (d_p : List Bool) (ts : List ℤ) (v : List Bool)
    → length d_p ≡ length v
    → length (meet_targets i reached d_p ts v) ≡ length v
unfolding meet_targets
length-meet_targets i reached d_p [] v h = refl
length-meet_targets i reached d_p (t ∷ ts) v h = elim (Bool-cases (t ==ℤ pos i && reached)) [
  | inl e ↦ rw e (
      length-meet_targets i reached d_p ts (and_bits v d_p) (h ∙ sym (length-and_bits v d_p h))
      ∙ length-and_bits v d_p h)
  | inr e ↦ rw e (length-meet_targets i reached d_p ts v h)
]

module _ (reachable : List Bool) (d : Rows) (i : ℕ) where
  length-meet :
      (p : ℕ) (bs : List LirBlock) (v : List Bool)
      → ((q : ℕ) → q < p + length bs → length (row d q) ≡ length v)
      → length (meet reachable d i p bs v) ≡ length v
  unfolding meet
  length-meet p [] v h = refl
  length-meet p (b ∷ bs) v h =
      let one =
        length-meet_targets i (bit reachable p) (row d p) (lir_successors b) v
          (h p (omega arith)) in
      length-meet (suc p) bs (meet_targets i (bit reachable p) (row d p) (lir_successors b) v)
        (λ q l. h q (omega arith) ∙ sym one)
      ∙ one

module _ (reachable : List Bool) (i j : ℕ) where
  -- Entry j is true in the rows of the marked predecessors among the blocks from block p on.
  pub in_all : Rows → ℕ → List LirBlock → Bool
  in_all d p [] = true
  in_all d p (b ∷ bs) =
      (not (bit reachable p && leads_to b i) || bit (row d p) j) && in_all d (suc p) bs

  bit-meet :
      (d : Rows) (p : ℕ) (bs : List LirBlock) (v : List Bool)
      → bit (meet reachable d i p bs v) j ≡ (bit v j && in_all d p bs)
  unfolding meet in_all
  bit-meet d p [] v = ground arith
  bit-meet d p (b ∷ bs) v =
      bit-meet d (suc p) bs (meet_targets i (bit reachable p) (row d p) (lir_successors b) v)
      ∙ ground (arith, bit-meet_targets i (bit reachable p) (row d p) (lir_successors b) v j)

  pub in_all-get :
      (d : Rows) (p : ℕ) (bs : List LirBlock) (k : ℕ) (b : LirBlock)
      → in_all d p bs ≡ true
      → get_elem? bs k ≡ some b
      → bit reachable (p + k) ≡ true
      → leads_to b i ≡ true
      → bit (row d (p + k)) j ≡ true
  unfolding in_all
  in_all-get d p [] k b h e m l = cc
  in_all-get d p (c ∷ bs) zero b h e m l =
      let m' : bit reachable p ≡ true = rw add-zero at m in
      let l' : leads_to c i ≡ true = rw (some_inj e) l in rw add-zero (ground arith)
  in_all-get d p (c ∷ bs) (suc k) b h e m l =
      rw (add-suc, ← suc-add)
        (in_all-get d (suc p) bs k b (&&-true _ (in_all d (suc p) bs) h).1 e
          (rw (suc-add, ← add-suc) m) l)

  -- A marked predecessor whose row has a false entry.
  pub in_all-miss :
      (d : Rows) (p : ℕ) (bs : List LirBlock)
      → in_all d p bs ≡ false
      → (k : ℕ) × (b : LirBlock) × (get_elem? bs k ≡ some b)
        × (bit reachable (p + k) ≡ true)
        × (leads_to b i ≡ true)
        × (bit (row d (p + k)) j ≡ false)
  unfolding in_all
  in_all-miss d p [] h = cc
  in_all-miss d p (b ∷ bs) h =
      elim (Bool-cases (not (bit reachable p && leads_to b i) || bit (row d p) j)) [
        | inl e ↦ later (in_all-miss d (suc p) bs (rw e at h))
        | inr e ↦ (0, b, refl, rw add-zero (ground arith), ground arith, rw add-zero (ground arith))
      ]
    where
      later :
          (k : ℕ) × (c : LirBlock) × (get_elem? bs k ≡ some c)
            × (bit reachable (suc p + k) ≡ true)
            × (leads_to c i ≡ true)
            × (bit (row d (suc p + k)) j ≡ false)
          → (k : ℕ) × (c : LirBlock) × (get_elem? (b ∷ bs) k ≡ some c)
            × (bit reachable (p + k) ≡ true)
            × (leads_to c i ≡ true)
            × (bit (row d (p + k)) j ≡ false)
      later (k, c, e, m, l, f) =
          (suc k, c, e, rw (add-suc, ← suc-add) m, l, rw (add-suc, ← suc-add) f)

  pub in_all_mono :
      (d d' : Rows) (p : ℕ) (bs : List LirBlock)
      → ((q : ℕ) → bit (row d' q) j ≡ true → bit (row d q) j ≡ true)
      → in_all d' p bs ≡ true
      → in_all d p bs ≡ true
  unfolding in_all
  in_all_mono d d' p [] sub h = refl
  in_all_mono d d' p (b ∷ bs) sub h =
      ground (arith, sub p, in_all_mono d d' (suc p) bs sub (&&-true _ (in_all d' (suc p) bs) h).1)

module _ (blocks : List LirBlock) (reachable : List Bool) (d : Rows) (i : ℕ) where
  pub bit-new_row :
      (j : ℕ)
      → ((q : ℕ) → q < length blocks → length (row d q) ≡ length blocks)
      → i < length blocks
      → j < length blocks
      → bit (new_row blocks reachable d i) j ≡ (j == i || in_all reachable i j d 0 blocks)
  unfolding new_row
  bit-new_row j width l m =
      let ones = replicate (length blocks) true in
      let len =
        length-meet reachable d i 0 blocks ones
          (λ q k. width q (omega arith) ∙ sym (length-replicate (length blocks) true)) in
      ground (
        arith,
        get_or-set (meet reachable d i 0 blocks ones) i j true false,
        len,
        length-replicate (length blocks) true,
        bit-meet reachable i j d 0 blocks ones,
        bit-replicate (length blocks) j,
      )

  pub length-new_row :
      ((q : ℕ) → q < length blocks → length (row d q) ≡ length blocks)
      → length (new_row blocks reachable d i) ≡ length blocks
  unfolding new_row
  length-new_row width =
      let ones = replicate (length blocks) true in
      length-set (meet reachable d i 0 blocks ones) i true
      ∙ length-meet reachable d i 0 blocks ones
          (λ q k. width q (omega arith) ∙ sym (length-replicate (length blocks) true))
      ∙ length-replicate (length blocks) true
