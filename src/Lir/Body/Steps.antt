-- ===== src/Lir/Body/Steps.antt =====
-- Each instruction of a function body that `VerifyLIR` of internal/concept/lir.go accepts has passed
-- its check, in a state that what is before it in its block has established.
use concept.Base.{
  ℕ, zero, suc, ◌+◌, ℤ, pos, List, [], ◌∷◌, Bool, not, some, ◌==◌, ◌==ℤ◌, length, get_elem?, ◌≡◌,
  refl, ap, ◌∙◌, subst, some_inj, ok, ok_inj, reject, >>-eq-ok, >>=-eq-ok, add-zero, add-suc,
  suc-add, str_eq, ◌||◌,
}
use concept.Lir.Types.{LirType}
use concept.Lir.Function.{LirInstruction, LirBlock, LirFunction}
use concept.Lir.Borrow.{Entries}
use concept.Lir.Body.{Env, Body, op_of}
use concept.Lir.Body.Cases.{check_operation}
use concept.Lir.Body.Blocks.{
  declare_params, known_facts, declare_slots, entry_values, known_arguments, define, add_guard,
  check_instruction, check_instructions, check_terminator, check_block, check_blocks, verify_body,
}

module _ (env : Env) (has : Bool) (f : LirFunction) where
  -- What the check of an instruction has done.
  pub record Step (s : Body) (i : LirInstruction) (s' : Body) : Type 0 where
    pub arguments : known_arguments s i.args ≡ ok tt
    pub middle : Body
    pub defined : define s i ≡ ok middle
    pub checked : check_operation env f (op_of i.op) has middle i ≡ ok tt
    pub result : add_guard (op_of i.op) i middle ≡ s'

  check_instruction-Step :
      (s : Body) (i : LirInstruction) (s' : Body)
      → check_instruction env has f s i ≡ ok s'
      → Step s i s'
  unfolding check_instruction
  check_instruction-Step s i s' h =
      let (_, h₁) = >>-eq-ok (known_facts env i.facts) _ h in
      let (arguments, h₂) = >>-eq-ok (known_arguments s i.args) _ h₁ in
      let (middle, defined, h₃) = >>=-eq-ok (define s i) _ h₂ in
      let (checked, h₄) = >>-eq-ok (check_operation env f (op_of i.op) has middle i) _ h₃ in
      record {
        arguments = arguments;
        middle = middle;
        defined = defined;
        checked = checked;
        result = ok_inj h₄;
      }

  -- The states of the check, from instruction k on.
  pub data Run : Body → List LirInstruction → Body → Type 0 where
    stop : {s : Body} → Run s [] s
    go :
        {s t u : Body} {i : LirInstruction} {is : List LirInstruction}
        → Step s i t
        → Run t is u
        → Run s (i ∷ is) u

  check_instructions-Run :
      (s : Body) (is : List LirInstruction) {u : Body}
      → check_instructions env has f s is ≡ ok u
      → Run s is u
  unfolding check_instructions
  check_instructions-Run s [] h = subst (Run s []) (ok_inj h) stop
  check_instructions-Run s (i ∷ is) h =
      let (t, now, later) = >>=-eq-ok (check_instruction env has f s i) _ h in
      go (check_instruction-Step s i t now) (check_instructions-Run t is later)

  -- At an instruction the invariant holds that the steps before it keep.
  pub Run-at :
      (P : ℕ → Body → Type 0) (whole : List LirInstruction)
      → ((k : ℕ) (s : Body) (i : LirInstruction) (t : Body)
          → P k s
          → get_elem? whole k ≡ some i
          → Step s i t
          → P (suc k) t)
      → (k : ℕ) (s : Body) (is : List LirInstruction) (u : Body) → Run s is u
      → ((j : ℕ) (x : LirInstruction) → get_elem? is j ≡ some x → get_elem? whole (k + j) ≡ some x)
      → P k s
      → (j : ℕ) (x : LirInstruction) → get_elem? is j ≡ some x
      → (t : Body) × (t' : Body) × P (k + j) t × Step t x t'
  Run-at P whole keep k s _ u stop tail p j x e = cc
  Run-at P whole keep k s _ u (go {t = t} {i = i} step run) tail p zero x e =
      (s, t, rw add-zero p, subst (λ y. Step s y t) (some_inj e) step)
  Run-at P whole keep k s _ u (go {t = t} {i = i} {is = is} step run) tail p (suc j) x e =
      rw (add-suc, ← suc-add)
        (Run-at P whole keep (suc k) t is u run
          (λ m y q. rw (suc-add, ← add-suc) (tail (suc m) y q))
          (keep k s i t p (rw add-zero at (tail 0 i refl)) step) j x e)

  -- The check of a block.
  pub record BlockRun (params : Entries LirType) (all : List ℤ) (bi : ℕ) (b : LirBlock) (u : Body)
      : Type 0 where
    pub known : Entries LirType
    pub entry : entry_values f bi params ≡ ok known
    pub run : Run (record { known = known; guards = []; all = all }) b.instructions u

  check_block-Run :
      (params : Entries LirType) (all : List ℤ) (bi : ℕ) (b : LirBlock) (u : Body)
      → check_block env has f params all bi b ≡ ok u
      → BlockRun params all bi b u
  unfolding check_block
  check_block-Run params all bi b u h =
      let (_, h₁) = >>-eq-ok (reject (not (b.id ==ℤ pos bi)) "LIR_BLOCK_ORDER") _ h in
      let (known, entry, h₂) = >>=-eq-ok (entry_values f bi params) _ h₁ in
      let (s, run, h₃) =
        >>=-eq-ok
          (check_instructions env has f (record { known = known; guards = []; all = all })
            b.instructions)
          _ h₂ in
      let (_, h₄) = >>-eq-ok (check_terminator env has f s b.term) _ h₃ in
      record {
        known = known;
        entry = entry;
        run = check_instructions-Run _ b.instructions (run ∙ ap ok (ok_inj h₄));
      }

  -- The runs of the blocks, with the values that are defined before.
  pub data Runs (params : Entries LirType) : List ℤ → ℕ → List LirBlock → Type 0 where
    stop : {all : List ℤ} {bi : ℕ} → Runs params all bi []
    go :
        {all : List ℤ} {bi : ℕ} {b : LirBlock} {bs : List LirBlock} {u : Body}
        → BlockRun params all bi b u
        → Runs params u.all (suc bi) bs
        → Runs params all bi (b ∷ bs)

  check_blocks-Runs :
      (params : Entries LirType) (all : List ℤ) (bi : ℕ) (bs : List LirBlock)
      → check_blocks env has f params all bi bs ≡ ok tt
      → Runs params all bi bs
  unfolding check_blocks
  check_blocks-Runs params all bi [] h = stop
  check_blocks-Runs params all bi (b ∷ bs) h =
      let (u, now, later) = >>=-eq-ok (check_block env has f params all bi b) _ h in
      go (check_block-Run params all bi b u now) (check_blocks-Runs params u.all (suc bi) bs later)

  pub Runs-at :
      (params : Entries LirType) (all : List ℤ) (bi : ℕ) (bs : List LirBlock) (k : ℕ) (b : LirBlock)
      → Runs params all bi bs
      → get_elem? bs k ≡ some b
      → (before : List ℤ) × (u : Body) × BlockRun params before (bi + k) b u
  Runs-at params all bi _ k b stop e = cc
  Runs-at params all bi _ zero b (go {u = u} r rs) e =
      (all, u, rw add-zero (subst (λ c. BlockRun params all bi c u) (some_inj e) r))
  Runs-at params all bi _ (suc k) b (go {bs = bs} {u = u} r rs) e =
      rw (add-suc, ← suc-add) (Runs-at params u.all (suc bi) bs k b rs e)

  -- The check of a body.
  pub record BodyRun : Type 0 where
    pub params : Entries LirType
    pub all : List ℤ
    pub declared : declare_params f.params [] [] ≡ ok (params, all)
    pub runs : Runs params all 0 f.blocks

  pub verify_body-Run : verify_body env has f ≡ ok tt → BodyRun
  unfolding verify_body
  verify_body-Run h =
      let (_, h₁) = >>-eq-ok (known_facts env f.facts) _ h in
      let (_, h₂) =
        >>-eq-ok (reject (str_eq f.identity "" || length f.blocks == 0) "LIR_INVALID_FUNCTION") _
          h₁ in
      let (declared, is, h₃) = >>=-eq-ok (declare_params f.params [] []) _ h₂ in
      let (_, h₄) = >>-eq-ok (declare_slots env declared.0 [] f.slots) _ h₃ in
      record {
        params = declared.0;
        all = declared.1;
        declared = is;
        runs = check_blocks-Runs declared.0 declared.1 0 f.blocks h₄;
      }
