-- ===== src/Lir/Borrow/Definitions.antt =====
-- `lirReferenceDefinitions` and the map `ops` of `verifyLIRBorrowFunction` in
-- internal/concept/lir_borrow.go: where a value that they hold is defined.
use concept.Base.{
  ℕ, zero, suc, ℤ, pos, List, [], ◌∷◌, true, false, none, some, if◌then◌else◌, ◌==ℤ◌, ==ℤ_iff,
  is_neg, minus_one, get_elem?, ◌≡◌, refl, sym, ap, ◌∙◌, subst, ◌⊎◌, inl, inr, Bool-cases, All,
  some_inj,
}
use concept.Lir.Function.{LirValue, LirInstruction, LirBlock, LirFunction}
use concept.Lir.Borrow.{
  Entries, Definition, find, define_params, define_results, define_blocks,
  lir_reference_definitions, result_operations, operations,
}

abbrev pub Has : {A : Type 0} → A → List A → Type 0
Has x xs = (j : ℕ) × (get_elem? xs j ≡ some x)

-- The value is a parameter.
abbrev pub IsParam : LirFunction → ℤ → Type 0
IsParam f v = (p : LirValue) × Has p f.params × (p.id ≡ v)

-- An instruction of block k has the value as its result.
abbrev pub Defines : LirFunction → ℕ → ℤ → Type 0
Defines f k v =
    (b : LirBlock) × (x : LirInstruction) × (get_elem? f.blocks k ≡ some b)
    × Has x b.instructions
    × (x.result ≡ v)

abbrev pub Origin : LirFunction → ℤ → Definition → Type 0
Origin f v d = (IsParam f v × (d.1 ≡ minus_one)) ⊎ ((k : ℕ) × (d.1 ≡ pos k) × Defines f k v)

pub find_here :
    {V : Type 0} (k j : ℤ) (v : V) (m : Entries V) → (j ==ℤ k) ≡ true → find k ((j, v) ∷ m) ≡ some v
unfolding find
find_here k j v m h = rw h

pub find_there :
    {V : Type 0} (k j : ℤ) (v : V) (m : Entries V)
    → (j ==ℤ k) ≡ false
    → find k ((j, v) ∷ m) ≡ find k m
unfolding find
find_there k j v m h = rw h

find-none : {V : Type 0} (k : ℤ) → find {V = V} k [] ≡ none
unfolding find
find-none k = refl

-- What holds of every entry holds of the one that is found.
pub find-All :
    {V : Type 0} (P : ℤ → V → Type 0) (m : Entries V) (k : ℤ) {v : V}
    → All (λ e. P e.0 e.1) m
    → find k m ≡ some v
    → P k v
find-All {V} P [] k h e = cc (find-none {V = V} k)
find-All P ((j, w) ∷ m) k {v} h e = elim (Bool-cases (j ==ℤ k)) [
  | inl q ↦
      let same = some_inj (sym (find_here k j w m q) ∙ e) in
      let key = (==ℤ_iff j k).0 q in subst (λ x. P x v) key (subst (P j) same h.0)
  | inr q ↦ find-All P m k h.1 (sym (find_there k j w m q) ∙ e)
]

-- What holds of the parameters and of the results of instructions holds of all definitions.
module _ (f : LirFunction) (P : ℤ → Definition → Type 0)
    (of_param : (p : LirValue) → Has p f.params → P p.id (p.typ, minus_one))
    (of_result : (b : LirBlock) (x : LirInstruction)
      → Has b f.blocks
      → Has x b.instructions
      → P x.result (x.typ, b.id)) where
  abbrev Good : Entries Definition → Type 0
  Good = All (λ e. P e.0 e.1)

  define_params-Good :
      (ps : List LirValue) (m : Entries Definition)
      → ((j : ℕ) (p : LirValue) → get_elem? ps j ≡ some p → Has p f.params)
      → Good m
      → Good (define_params ps m)
  unfolding define_params
  define_params-Good [] m w g = g
  define_params-Good (p ∷ ps) m w g =
      define_params-Good ps ((p.id, (p.typ, minus_one)) ∷ m) (λ j q e. w (suc j) q e)
        (of_param p (w 0 p refl), g)

  define_results-Good :
      (b : LirBlock) (is : List LirInstruction) (m : Entries Definition)
      → Has b f.blocks
      → ((j : ℕ) (x : LirInstruction) → get_elem? is j ≡ some x → Has x b.instructions)
      → Good m
      → Good (define_results b.id is m)
  unfolding define_results
  define_results-Good b [] m i w g = g
  define_results-Good b (x ∷ is) m i w g =
      define_results-Good b is (if is_neg x.result then m else (x.result, (x.typ, b.id)) ∷ m) i
        (λ j y h. w (suc j) y h)
        (elim (Bool-cases (is_neg x.result)) [
          | inl n ↦ rw n g
          | inr n ↦ rw n (of_result b x i (w 0 x refl), g)
        ])

  define_blocks-Good :
      (bs : List LirBlock) (m : Entries Definition)
      → ((j : ℕ) (b : LirBlock) → get_elem? bs j ≡ some b → Has b f.blocks)
      → Good m
      → Good (define_blocks bs m)
  unfolding define_blocks
  define_blocks-Good [] m w g = g
  define_blocks-Good (b ∷ bs) m w g =
      define_blocks-Good bs (define_results b.id b.instructions m) (λ j c h. w (suc j) c h)
        (define_results-Good b b.instructions m (w 0 b refl) (λ j x h. (j, h)) g)

  pub definitions-get :
      (v : ℤ) {d : Definition} → find v (lir_reference_definitions f) ≡ some d → P v d
  unfolding lir_reference_definitions
  definitions-get v e =
      find-All P (define_blocks f.blocks (define_params f.params [])) v
        (define_blocks-Good f.blocks (define_params f.params []) (λ j b h. (j, h))
          (define_params-Good f.params [] (λ j p h. (j, h)) tt))
        e

-- A value that is found is a parameter or is defined in the block that is found.
pub definitions-Origin :
    (f : LirFunction) (v : ℤ) {d : Definition}
    → ((k : ℕ) (b : LirBlock) → get_elem? f.blocks k ≡ some b → b.id ≡ pos k)
    → find v (lir_reference_definitions f) ≡ some d
    → Origin f v d
definitions-Origin f v ids e =
    definitions-get f (Origin f) (λ p h. inl ((p, h, refl), refl))
      (λ b x (k, e) h. inr (k, ids k b e, (b, x, e, h, refl))) v e

-- Each value of one map is a value of the other.
abbrev Covers : {V W : Type 0} → Entries V → Entries W → Type 0
Covers {V} {W} m n = (v : ℤ) (x : V) → find v m ≡ some x → (y : W) × (find v n ≡ some y)

Covers-cons :
    {V W : Type 0} (k : ℤ) (x : V) (y : W) (m : Entries V) (n : Entries W)
    → Covers m n
    → Covers ((k, x) ∷ m) ((k, y) ∷ n)
Covers-cons k x y m n c v z e = elim (Bool-cases (k ==ℤ v)) [
  | inl q ↦ (y, find_here v k y n q)
  | inr q ↦ let (z', h) = c v z (sym (find_there v k x m q) ∙ e) in (z', find_there v k y n q ∙ h)
]

results-Covers :
    (block : ℤ) (is : List LirInstruction) (m : Entries LirInstruction) (n : Entries Definition)
    → Covers m n
    → Covers (result_operations is m) (define_results block is n)
unfolding result_operations define_results
results-Covers block [] m n c = c
results-Covers block (x ∷ is) m n c = elim (Bool-cases (is_neg x.result)) [
  | inl q ↦ rw q (results-Covers block is m n c)
  | inr q ↦ rw q (
      results-Covers block is ((x.result, x) ∷ m) ((x.result, (x.typ, block)) ∷ n)
        (Covers-cons x.result x (x.typ, block) m n c))
]

blocks-Covers :
    (bs : List LirBlock) (m : Entries LirInstruction) (n : Entries Definition)
    → Covers m n
    → Covers (operations bs m) (define_blocks bs n)
unfolding operations define_blocks
blocks-Covers [] m n c = c
blocks-Covers (b ∷ bs) m n c =
    blocks-Covers bs (result_operations b.instructions m) (define_results b.id b.instructions n)
      (results-Covers b.id b.instructions m n c)

-- A value with an operation has a definition.
pub operation-definition :
    (f : LirFunction) (v : ℤ) {x : LirInstruction}
    → find v (operations f.blocks []) ≡ some x
    → (d : Definition) × (find v (lir_reference_definitions f) ≡ some d)
unfolding lir_reference_definitions
operation-definition f v {x} e =
    blocks-Covers f.blocks [] (define_params f.params [])
      (λ k y h. absurd (cc (find-none {V = LirInstruction} k))) v x e

module _ {V : Type 0} where
  Covers-skip :
      (k : ℤ) (y : Definition) (m : Entries V) (n : Entries Definition)
      → Covers m n
      → Covers m ((k, y) ∷ n)
  Covers-skip k y m n c v z e = elim (Bool-cases (k ==ℤ v)) [
    | inl q ↦ (y, find_here v k y n q)
    | inr q ↦ let (z', h) = c v z e in (z', find_there v k y n q ∙ h)
  ]

  params-keep :
      (ps : List LirValue) (m : Entries V) (n : Entries Definition)
      → Covers m n
      → Covers m (define_params ps n)
  unfolding define_params
  params-keep [] m n c = c
  params-keep (p ∷ ps) m n c =
      params-keep ps m ((p.id, (p.typ, minus_one)) ∷ n) (Covers-skip p.id (p.typ, minus_one) m n c)

  results-keep :
      (block : ℤ) (is : List LirInstruction) (m : Entries V) (n : Entries Definition)
      → Covers m n
      → Covers m (define_results block is n)
  unfolding define_results
  results-keep block [] m n c = c
  results-keep block (x ∷ is) m n c = elim (Bool-cases (is_neg x.result)) [
    | inl q ↦ rw q (results-keep block is m n c)
    | inr q ↦ rw q (
        results-keep block is m ((x.result, (x.typ, block)) ∷ n)
          (Covers-skip x.result (x.typ, block) m n c))
  ]

  blocks-keep :
      (bs : List LirBlock) (m : Entries V) (n : Entries Definition)
      → Covers m n
      → Covers m (define_blocks bs n)
  unfolding define_blocks
  blocks-keep [] m n c = c
  blocks-keep (b ∷ bs) m n c =
      blocks-keep bs m (define_results b.id b.instructions n)
        (results-keep b.id b.instructions m n c)

params-define :
    (ps : List LirValue) (m : Entries Definition) (j : ℕ) (p : LirValue)
    → get_elem? ps j ≡ some p
    → (d : Definition) × (find p.id (define_params ps m) ≡ some d)
unfolding define_params
params-define [] m j p e = cc
params-define (q ∷ ps) m (suc j) p e = params-define ps ((q.id, (q.typ, minus_one)) ∷ m) j p e
params-define (q ∷ ps) m zero p e =
    let n : Entries Definition = (q.id, (q.typ, minus_one)) ∷ m in
    let self = find_here q.id q.id (q.typ, minus_one) m ((==ℤ_iff q.id q.id).1 refl) in
    let (d, h) = params-keep ps n n (λ v x e. (x, e)) q.id (q.typ, minus_one) self in
    (d, ap (λ (x : LirValue). find x.id (define_params ps n)) (sym (some_inj e)) ∙ h)

-- A parameter has a definition.
pub parameter-definition :
    (f : LirFunction) (j : ℕ) (p : LirValue)
    → get_elem? f.params j ≡ some p
    → (d : Definition) × (find p.id (lir_reference_definitions f) ≡ some d)
unfolding lir_reference_definitions
parameter-definition f j p e =
    let m = define_params f.params [] in
    let (d, h) = params-define f.params [] j p e in
    blocks-keep f.blocks m m (λ v x q. (x, q)) p.id d h
