-- ===== src/Lir/Body/Values.antt =====
-- The values of a function body that `VerifyLIR` of internal/concept/lir.go accepts.
use concept.Base.{
  ℕ, zero, suc, ℤ, List, [], ◌∷◌, ◌++◌, Bool, true, false, some, if◌then◌else◌, ◌==ℤ◌, ==ℤ_iff,
  is_neg, get_elem?, ◌≡◌, refl, sym, ap, ◌∙◌, subst, inl, inr, Bool-cases, arith, some_inj, ok,
  ok_inj, reject, >>-eq-ok, ||-false,
}
use concept.Lir.Types.{LirType}
use concept.Lir.Function.{LirValue, LirInstruction, LirBlock, LirFunction}
use concept.Lir.Borrow.{Entries}
use concept.Lir.Body.{LirOp, check_index, Env, Body, op_of}
use concept.Lir.Body.Blocks.{has_value, declare_params, define, add_guard, verify_body}
use concept.Lir.Body.Steps.{Step, Run, Runs, stop, go, verify_body-Run}

-- The values that instructions define, in order.
abbrev pub results : List LirInstruction → List ℤ
results [] = []
results (i ∷ is) = let rest = results is in if is_neg i.result then rest else i.result ∷ rest

abbrev pub block_results : List LirBlock → List ℤ
block_results [] = []
block_results (b ∷ bs) = results b.instructions ++ block_results bs

abbrev pub param_ids : List LirValue → List ℤ
param_ids [] = []
param_ids (p ∷ ps) = p.id ∷ param_ids ps

-- The values that a function defines: its parameters, and the results of its instructions.
abbrev pub body_values : LirFunction → List ℤ
body_values f = param_ids f.params ++ block_results f.blocks

-- No value is among the ones before, or in the list that is given.
abbrev IsFresh : List ℤ → List ℤ → Type 0
IsFresh all [] = Unit {0}
IsFresh all (x ∷ xs) = (has_value all x ≡ false) × IsFresh (x ∷ all) xs

abbrev push : List ℤ → List ℤ → List ℤ
push all [] = all
push all (x ∷ xs) = push (x ∷ all) xs

IsFresh-append :
    (all xs ys : List ℤ) → IsFresh all xs → IsFresh (push all xs) ys → IsFresh all (xs ++ ys)
IsFresh-append all [] ys h k = k
IsFresh-append all (x ∷ xs) ys h k = (h.0, IsFresh-append (x ∷ all) xs ys h.1 k)

IsFresh-new :
    (all xs : List ℤ) (i : ℕ) {v : ℤ}
    → IsFresh all xs
    → get_elem? xs i ≡ some v
    → has_value all v ≡ false
IsFresh-new all [] i h e = cc
IsFresh-new all (x ∷ xs) zero h e = subst (λ y. has_value all y ≡ false) (some_inj e) h.0
IsFresh-new all (x ∷ xs) (suc i) {v} h e =
    (||-false (x ==ℤ v) _ (IsFresh-new (x ∷ all) xs i h.1 e)).1

not-again :
    (all xs : List ℤ) (x v : ℤ) (i : ℕ) {A : Type 0}
    → IsFresh (x ∷ all) xs
    → some x ≡ some v
    → get_elem? xs i ≡ some v
    → A
not-again all xs x v i fresh e h =
    let no = (||-false (x ==ℤ v) _ (IsFresh-new (x ∷ all) xs i fresh h)).0 in
    absurd (cc ((==ℤ_iff x v).1 (some_inj e)))

IsFresh-inj :
    (all xs : List ℤ) (i j : ℕ) {v : ℤ}
    → IsFresh all xs
    → get_elem? xs i ≡ some v
    → get_elem? xs j ≡ some v
    → i ≡ j
IsFresh-inj all [] i j h p q = cc
IsFresh-inj all (x ∷ xs) zero zero h p q = refl
IsFresh-inj all (x ∷ xs) zero (suc j) {v} h p q = not-again all xs x v j h.1 p q
IsFresh-inj all (x ∷ xs) (suc i) zero {v} h p q = not-again all xs x v i h.1 q p
IsFresh-inj all (x ∷ xs) (suc i) (suc j) h p q = ap suc (IsFresh-inj (x ∷ all) xs i j h.1 p q)

-- Values are added to `all` behind those that are there.
record Adds (all xs all' : List ℤ) : Type 0 where
  fresh : IsFresh all xs
  pushed : all' ≡ push all xs

Adds-nil : {all : List ℤ} → Adds all [] all
Adds-nil = record { fresh = tt; pushed = refl }

Adds-cons :
    (all : List ℤ) (x : ℤ) {xs all' : List ℤ}
    → has_value all x ≡ false
    → Adds (x ∷ all) xs all'
    → Adds all (x ∷ xs) all'
Adds-cons all x h a = record { fresh = (h, a.fresh); pushed = a.pushed }

Adds-append :
    (all xs all' ys : List ℤ) → Adds all xs all' → IsFresh all' ys → IsFresh all (xs ++ ys)
Adds-append all xs all' ys a h =
    IsFresh-append all xs ys a.fresh (subst (λ z. IsFresh z ys) a.pushed h)

declare_params-Adds :
    (ps : List LirValue) (params params' : Entries LirType) (all all' : List ℤ)
    → declare_params ps params all ≡ ok (params', all')
    → Adds all (param_ids ps) all'
unfolding declare_params
declare_params-Adds [] params params' all all' h =
    subst (Adds all []) (ap (λ (d : Entries LirType × List ℤ). d.1) (ok_inj h)) Adds-nil
declare_params-Adds (p ∷ ps) params params' all all' h =
    let (new, rest) = >>-eq-ok (reject (has_value all p.id) "LIR_DUPLICATE_VALUE") _ h in
    Adds-cons all p.id (ground arith)
      (declare_params-Adds ps ((p.id, p.typ) ∷ params) params' (p.id ∷ all) all' rest)

module _ (env : Env) (has : Bool) (f : LirFunction) where
  define_result :
      (s : Body) (i : LirInstruction) (t : Body)
      → define s i ≡ ok t
      → is_neg i.result ≡ false
      → (has_value s.all i.result ≡ false) × (t.all ≡ i.result ∷ s.all)
  unfolding define
  define_result s i t h n = ground arith

  define_no_result :
      (s : Body) (i : LirInstruction) (t : Body)
      → define s i ≡ ok t
      → is_neg i.result ≡ true
      → t.all ≡ s.all
  unfolding define
  define_no_result s i t h n = ground arith

  add_guard-all : (op : LirOp) (i : LirInstruction) (t : Body) → (add_guard op i t).all ≡ t.all
  unfolding add_guard
  add_guard-all check_index i t = ground arith
  add_guard-all _ i t = refl

  Step-Adds :
      (s : Body) (i : LirInstruction) (t : Body) (xs all' : List ℤ)
      → Step env has f s i t
      → Adds t.all xs all'
      → Adds s.all (if is_neg i.result then xs else i.result ∷ xs) all'
  Step-Adds s i t xs all' step a = elim (Bool-cases (is_neg i.result)) [
    | inl n ↦
        rw n
          (subst (λ z. Adds z xs all') (same ∙ define_no_result s i step.middle step.defined n) a)
    | inr n ↦ rw n (
        let (new, is) = define_result s i step.middle step.defined n in
        Adds-cons s.all i.result new (subst (λ z. Adds z xs all') (same ∙ is) a))
  ]
    where
      same : t.all ≡ step.middle.all
      same = ap (λ (x : Body). x.all) (sym step.result) ∙ add_guard-all (op_of i.op) i step.middle

  Run-Adds :
      (s : Body) (is : List LirInstruction) (u : Body)
      → Run env has f s is u
      → Adds s.all (results is) u.all
  Run-Adds s _ u stop = Adds-nil
  Run-Adds s _ u (go {t = t} {i = i} {is = is} step run) =
      Step-Adds s i t (results is) u.all step (Run-Adds t is u run)

  Runs-IsFresh :
      (params : Entries LirType) (all : List ℤ) (bi : ℕ) (bs : List LirBlock)
      → Runs env has f params all bi bs
      → IsFresh all (block_results bs)
  Runs-IsFresh params all bi _ stop = tt
  Runs-IsFresh params all bi _ (go {b = b} {bs = bs} {u = u} block runs) =
      Adds-append all (results b.instructions) u.all (block_results bs)
        (Run-Adds (record { known = block.known; guards = []; all = all }) b.instructions u
          block.run)
        (Runs-IsFresh params u.all (suc bi) bs runs)

  -- In an accepted body no value is defined twice: the parameters and the results of the
  -- instructions of all blocks are different from one another.
  pub verify_body-values_inj :
      (i j : ℕ) {v : ℤ}
      → verify_body env has f ≡ ok tt
      → get_elem? (body_values f) i ≡ some v
      → get_elem? (body_values f) j ≡ some v
      → i ≡ j
  verify_body-values_inj i j h p q =
      let body = verify_body-Run env has f h in
      IsFresh-inj [] (body_values f) i j
        (Adds-append [] (param_ids f.params) body.all (block_results f.blocks)
          (declare_params-Adds f.params [] body.params [] body.all body.declared)
          (Runs-IsFresh body.params body.all 0 f.blocks body.runs))
        p q
