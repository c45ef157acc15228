-- ===== src/Bounds/Writes.antt =====
-- What a body may write is unknown after `forget_writes`, and the rest is kept.
use concept.Base.{
  refl, true, false, none, some, Option, String, Bool, ◌≡◌, Bool-cases, ◌||◌, if◌then◌else◌, ◌∙◌,
  arith, str_eq, inl, ap, if_true, sym, eq_iff, inr, if_false, subst, &&-true,
}
use concept.Bounds.Sound.{Abstracts, Holds, Snapshots, Holds-unknown}
use concept.Bounds.Domain.{forgotten, value_or_zero, assign, LocalBoundsState, LocalValue}
use concept.Bounds.Forget.{
  end_block, stmt_then, no_block, one_block, if_stmt, while_stmt, foreach_stmt, nested, quiet_stmt,
  other_stmt, assign_stmt, writes_optional, writes_stmt, forget_optional, forget_stmt,
  no_while_else_stmt, no_while_else_optional, names, forget_name, Block, forget_writes, writes,
  no_while_else, forget_option, Stmt, OptionalBlock,
}
use concept.Bounds.Run.{Store}
use concept.Bounds.Join.{Abstracts-of, Abstracts-at}
use concept.Bounds.Visit.{name_of}

abbrev forgotten_if : Bool → LocalValue → LocalValue
forgotten_if b v = if b then forgotten v else v

forgotten_twice :
    (b c : Bool) (v : LocalValue) → forgotten_if c (forgotten_if b v) ≡ forgotten_if (b || c) v
forgotten_twice true true v = refl
forgotten_twice true false v = refl
forgotten_twice false true v = refl
forgotten_twice false false v = refl

map-forgotten :
    (o : Option LocalValue) → value_or_zero (forget_option o) ≡ forgotten (value_or_zero o)
map-forgotten none = refl
map-forgotten (some v) = refl

forget_name-value :
    (o : Option String) (s : LocalBoundsState) (x : String)
    → value_or_zero (forget_name o s x) ≡ forgotten_if (names o x) (value_or_zero (s x))
unfolding assign
forget_name-value none s x = refl
forget_name-value (some y) s x = elim (Bool-cases (str_eq x y)) [
  | inl e ↦
      ap value_or_zero (if_true (str_eq x y) (some (forgotten (value_or_zero (s y)))) (s x) e)
      ∙ ap (λ z. forgotten (value_or_zero (s z))) (sym ((eq_iff x y).0 e))
      ∙ sym (if_true (str_eq x y) (forgotten (value_or_zero (s x))) _ e)
  | inr e ↦
      ap value_or_zero (if_false (str_eq x y) (some (forgotten (value_or_zero (s y)))) (s x) e)
      ∙ sym (if_false (str_eq x y) (forgotten (value_or_zero (s x))) _ e)
]

compose :
    (b c : Bool) (u v w : LocalValue)
    → w ≡ forgotten_if c v
    → v ≡ forgotten_if b u
    → w ≡ forgotten_if (b || c) u
compose b c u v w p q = p ∙ ap (forgotten_if c) q ∙ forgotten_twice b c u

or_false : (b : Bool) → b ≡ (b || false)
or_false b = ground arith

mutual
  unfolding forget_writes writes no_while_else

  value_after :
      (b : Block) (s : LocalBoundsState) (x : String)
      → no_while_else b ≡ true
      → value_or_zero (forget_writes b s x) ≡ forgotten_if (writes b x) (value_or_zero (s x))
  value_after end_block s x h = refl
  value_after (stmt_then st rest) s x h =
      let (p, q) = &&-true (no_while_else_stmt st) (no_while_else rest) h in
      compose (writes_stmt st x) (writes rest x) (value_or_zero (s x))
        (value_or_zero (forget_stmt st s x)) _ (value_after rest (forget_stmt st s) x q)
        (stmt_value_after st s x p)

  stmt_value_after :
      (st : Stmt) (s : LocalBoundsState) (x : String)
      → no_while_else_stmt st ≡ true
      → value_or_zero (forget_stmt st s x) ≡ forgotten_if (writes_stmt st x) (value_or_zero (s x))
  stmt_value_after (assign_stmt target) s x h = forget_name-value (name_of target) s x
  stmt_value_after (if_stmt b o) s x h =
      let (p, q) = &&-true (no_while_else b) (no_while_else_optional o) h in
      compose (writes b x) (writes_optional o x) (value_or_zero (s x))
        (value_or_zero (forget_writes b s x)) _ (optional_value_after o (forget_writes b s) x q)
        (value_after b s x p)
  stmt_value_after (foreach_stmt body) s x h = value_after body s x h
  stmt_value_after (while_stmt body no_block) s x h =
      value_after body s x h
      ∙ ap (λ c. forgotten_if c (value_or_zero (s x))) (or_false (writes body x))
  stmt_value_after (while_stmt body (one_block b)) s x h = cc
  stmt_value_after (nested b) s x h = value_after b s x h
  stmt_value_after quiet_stmt s x h = refl
  stmt_value_after other_stmt s x h = map-forgotten (s x)

  optional_value_after :
      (o : OptionalBlock) (s : LocalBoundsState) (x : String)
      → no_while_else_optional o ≡ true
      → value_or_zero (forget_optional o s x)
        ≡ forgotten_if (writes_optional o x) (value_or_zero (s x))
  optional_value_after no_block s x h = refl
  optional_value_after (one_block b) s x h = value_after b s x h

-- In a block without an `else` of a `while`, exactly the names that the block may write, at any
-- depth, lose what is known of them; the value kept for any other name stays the same.
pub forget_writes-value :
    (b : Block) (s : LocalBoundsState) (x : String)
    → no_while_else b ≡ true
    → value_or_zero (forget_writes b s x)
      ≡ (if writes b x then forgotten (value_or_zero (s x)) else value_or_zero (s x))
forget_writes-value b s x h = value_after b s x h

-- Two stores agree on every name that is not exposed and that a body, without an `else` of a `while`,
-- does not assign, at any depth. Where the first is as the state says, the second is as the state
-- says after `forget_writes`; the exposed names may differ.
pub forget_writes-Abstracts :
    (exposed : String → Bool) (γ : Snapshots) (b : Block) (s : LocalBoundsState) (σ τ : Store)
    → no_while_else b ≡ true
    → Abstracts exposed γ s σ
    → ((x : String) → exposed x ≡ false → writes b x ≡ false → τ x ≡ σ x)
    → Abstracts exposed γ (forget_writes b s) τ
forget_writes-Abstracts exposed γ b s σ τ h a same =
    Abstracts-of exposed γ (forget_writes b s) τ (λ x e.
      subst (λ v. Holds γ v (τ x)) (sym (forget_writes-value b s x h))
        (elim (Bool-cases (writes b x)) [
          | inl w ↦
              subst (λ v. Holds γ v (τ x))
                (sym (if_true (writes b x) (forgotten (value_or_zero (s x))) _ w))
                (Holds-unknown γ (forgotten (value_or_zero (s x))) (τ x) refl refl)
          | inr w ↦
              subst (λ v. Holds γ v (τ x))
                (sym (if_false (writes b x) (forgotten (value_or_zero (s x))) _ w))
                (subst (Holds γ (value_or_zero (s x))) (sym (same x e w))
                  (Abstracts-at exposed γ s σ x a e))
        ]))
