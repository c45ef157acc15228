-- ===== src/Machine/Verify/Definitions.antt =====
-- Single definition: the counters of `VerifyMachineFunction` count what they are meant to count.
use concept.Machine.Ir.{MachineFunction, MachineBlock, MachineInstruction, MachineVReg}
use concept.Machine.Verify.Steps.{Accepted, flags_after, verify_instruction-Accepted}
use concept.Machine.Verify.Blocks.{
  verify_machine_function-AcceptedFunction, verify_block-AcceptedBlock,
}
use concept.Machine.Verify.{
  VerifyState, bump, bump_at, count_definition, verify_instructions, verify_blocks, no_definitions,
  verify_machine_function, is_definition, defined_once, start, verify_block, verify_instruction,
}
use concept.Base.{
  ◌≡◌, true, [], ap, arith, negsuc, zero, false, refl, ◌==◌, get_elem?, ok, subst, sym, some,
  ok_inj, >>=-eq-ok, for_each-get, Bool, ℕ, List, ℤ, length, ◌∷◌, ◌<◌, suc, ◌+◌, ◌&&◌, ◌==ℤ◌, pos,
}
use concept.Machine.Operands.{is_vreg}
use concept.Machine.Parts.{MachineEffects}

-- The instruction is the first definition of register `v`.
abbrev pub defines : ℕ → MachineInstruction → Bool
defines v i = is_vreg i.dst.kind && is_definition i.op && i.dst.id ==ℤ pos v

abbrev pub one_if : Bool → ℕ
one_if true = 1
one_if false = 0

pub definitions : ℕ → List MachineInstruction → ℕ
definitions v [] = 0
definitions v (i ∷ is) = one_if (defines v i) + definitions v is

-- How many instructions of the blocks define register `v`.
pub block_definitions : ℕ → List MachineBlock → ℕ
block_definitions v [] = 0
block_definitions v (b ∷ bs) = definitions v b.instructions + block_definitions v bs

count_at : List ℕ → ℕ → ℕ
count_at [] v = 0
count_at (x ∷ xs) zero = x
count_at (x ∷ xs) (suc v) = count_at xs v

length-bump : (xs : List ℕ) (i : ℕ) → length (bump xs i) ≡ length xs
unfolding bump
length-bump [] i = refl
length-bump (x ∷ xs) zero = refl
length-bump (x ∷ xs) (suc i) = ap suc (length-bump xs i)

count_at-bump :
    (xs : List ℕ) (i v : ℕ)
    → v < length xs
    → count_at (bump xs i) v ≡ one_if (i == v) + count_at xs v
unfolding bump count_at
count_at-bump [] i v h = elim h [ ]
count_at-bump (x ∷ xs) zero zero h = omega arith
count_at-bump (x ∷ xs) zero (suc v) h = ground arith
count_at-bump (x ∷ xs) (suc i) zero h = ground arith
count_at-bump (x ∷ xs) (suc i) (suc v) h = ground (arith, count_at-bump xs i v)

count_at-bump_at :
    (xs : List ℕ) (i : ℤ) (v : ℕ)
    → v < length xs
    → (length (bump_at xs i) ≡ length xs)
      × (count_at (bump_at xs i) v ≡ one_if (i ==ℤ pos v) + count_at xs v)
unfolding bump_at
count_at-bump_at xs (pos i) v h = (length-bump xs i, ground (arith, count_at-bump xs i v))
count_at-bump_at xs (negsuc i) v h = ground arith

-- The counter of `v` grew by `n`, and no counter was lost.
record Grows (v n : ℕ) (xs ys : List ℕ) : Type 0 where
  kept : length ys ≡ length xs
  grown : count_at ys v ≡ n + count_at xs v

flags_after-initial_defs :
    (e : MachineEffects) (i : MachineInstruction) (s : VerifyState)
    → (flags_after e i s).initial_defs ≡ s.initial_defs
unfolding flags_after
flags_after-initial_defs e i s = ground arith

count_definition-Grows :
    (i : MachineInstruction) (s : VerifyState) (v : ℕ)
    → v < length s.initial_defs
    → Grows v (one_if (defines v i)) s.initial_defs (count_definition i s).initial_defs
unfolding count_definition
count_definition-Grows i s v h = ground (arith, count_at-bump_at s.initial_defs i.dst.id v h)

Accepted-Grows :
    {f : MachineFunction} {l : ℤ} {i : MachineInstruction} {s s' : VerifyState} (v : ℕ)
    → v < length s.initial_defs
    → Accepted f l i s s'
    → Grows v (one_if (defines v i)) s.initial_defs s'.initial_defs
Accepted-Grows {i} {s} v h a =
    let t = flags_after a.effects i s in
    let same : t.initial_defs ≡ s.initial_defs = flags_after-initial_defs a.effects i s in
    let g = count_definition-Grows i t v (rw same h) in
    subst (λ x. Grows v (one_if (defines v i)) s.initial_defs x)
      (ap (λ (x : VerifyState). x.initial_defs) (sym a.counted))
      (subst (λ x. Grows v (one_if (defines v i)) x (count_definition i t).initial_defs) same g)

Grows-trans :
    (v n m : ℕ) (xs ys zs : List ℕ) → Grows v n xs ys → Grows v m ys zs → Grows v (n + m) xs zs
Grows-trans v n m xs ys zs g h = omega arith

verify_instructions-Grows :
    (f : MachineFunction) (l : ℤ) (is : List MachineInstruction) (s s' : VerifyState) (v : ℕ)
    → v < length s.initial_defs
    → verify_instructions f l is s ≡ ok s'
    → Grows v (definitions v is) s.initial_defs s'.initial_defs
unfolding verify_instructions definitions
verify_instructions-Grows f l [] s s' v h e =
    subst (λ x. Grows v 0 s.initial_defs x.initial_defs) (ok_inj e) (omega arith)
verify_instructions-Grows f l (i ∷ is) s s' v h e =
    let (t, p, q) = >>=-eq-ok (verify_instruction f l i s) _ e in
    let g = Accepted-Grows v h (verify_instruction-Accepted f l i s t p) in
    Grows-trans v _ _ _ _ _ g (verify_instructions-Grows f l is t s' v (rw g.kept h) q)

verify_blocks-Grows :
    (f : MachineFunction) (k : ℕ) (bs : List MachineBlock) (s s' : VerifyState) (v : ℕ)
    → v < length s.initial_defs
    → verify_blocks f k bs s ≡ ok s'
    → Grows v (block_definitions v bs) s.initial_defs s'.initial_defs
unfolding verify_blocks block_definitions
verify_blocks-Grows f k [] s s' v h e =
    subst (λ x. Grows v 0 s.initial_defs x.initial_defs) (ok_inj e) (omega arith)
verify_blocks-Grows f k (b ∷ bs) s s' v h e =
    let (t, p, q) = >>=-eq-ok (verify_block f k b s) _ e in
    let a = verify_block-AcceptedBlock f k b s t p in
    let g = verify_instructions-Grows f b.lir_block b.instructions _ t v h a.instructions_checked in
    Grows-trans v _ _ _ _ _ g (verify_blocks-Grows f (suc k) bs t s' v (rw g.kept h) q)

no_definitions_lem :
    (vs : List MachineVReg) (v : ℕ)
    → (length (no_definitions vs) ≡ length vs) × (count_at (no_definitions vs) v ≡ 0)
unfolding count_at
no_definitions_lem [] v = omega arith
no_definitions_lem (x ∷ vs) zero = omega (arith, no_definitions_lem vs zero)
no_definitions_lem (x ∷ vs) (suc v) = omega (arith, no_definitions_lem vs v)

get_elem?-count_at : (xs : List ℕ) (v : ℕ) → v < length xs → get_elem? xs v ≡ some (count_at xs v)
unfolding count_at
get_elem?-count_at [] v h = elim h [ ]
get_elem?-count_at (x ∷ xs) zero h = refl
get_elem?-count_at (x ∷ xs) (suc v) h = get_elem?-count_at xs v (omega arith)

defined_once_lem : (i n : ℕ) → defined_once i n ≡ ok tt → n ≡ 1
unfolding defined_once
defined_once_lem i n h = ground arith

-- In an accepted function every virtual register is the destination of exactly one MOV, LOAD, LEA,
-- SETCC or CALL, counted over all blocks.
pub verify_machine_function-definitions :
    (f : MachineFunction) (v : ℕ)
    → verify_machine_function f ≡ ok tt
    → v < length f.vregs
    → block_definitions v f.blocks ≡ 1
verify_machine_function-definitions f v h lt =
    let a = verify_machine_function-AcceptedFunction f h in
    let z = no_definitions_lem f.vregs v in
    let g = verify_blocks-Grows f 0 f.blocks (start f) a.final v (omega arith) a.blocks_checked in
    let last =
      for_each-get defined_once 0 a.final.initial_defs v a.defined_checked
        (get_elem?-count_at a.final.initial_defs v (omega arith)) in
    omega (arith, defined_once_lem _ _ last)
