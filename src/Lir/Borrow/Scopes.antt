-- ===== src/Lir/Borrow/Scopes.antt =====
-- `borrowScopeContains` of internal/concept/lir_borrow.go, lines 232 to 240, over scopes that the
-- verifier accepts: it decides whether one scope encloses another.
use concept.Base.{
  ℕ, zero, suc, ◌<◌, ℤ, pos, List, true, false, none, some, if◌then◌else◌, ◌==ℤ◌, ==ℤ_iff, leb_ℤ,
  length, get_elem?, get_elem?-lt, get_at?, ◌≡◌, refl, sym, ap, ◌∙◌, subst, ◌↔◌, inl, inr,
  Bool-cases, Option-cases, arith, ok, for_each, for_each-get, zero-add,
}
use concept.Lir.Function.{LirBorrowScope, LirBorrowContract}
use concept.Lir.Borrow.{scope_contains_within, borrow_scope_contains, check_scope, bad_scope}

-- Scope `outer` is `inner`, or the parent of `inner`, or the parent of that, and so on.
pub data Encloses (scopes : List LirBorrowScope) (outer : ℤ) : ℤ → Type 0 where
  here : {s : LirBorrowScope} → get_at? scopes outer ≡ some s → Encloses scopes outer outer
  up :
      {inner : ℤ} {s : LirBorrowScope}
      → get_at? scopes inner ≡ some s
      → Encloses scopes outer s.parent
      → Encloses scopes outer inner

pub Encloses-trans :
    (scopes : List LirBorrowScope) (a b c : ℤ)
    → Encloses scopes a b
    → Encloses scopes b c
    → Encloses scopes a c
Encloses-trans scopes a b _ h (here e) = h
Encloses-trans scopes a b _ h (up {s = s} e k) = up e (Encloses-trans scopes a b s.parent h k)

-- The scopes have passed the verifier's check.
abbrev pub AreScopes : List LirBorrowScope → Type 0
AreScopes scopes = for_each check_scope 0 scopes ≡ ok tt

within_scope :
    (fuel : ℕ) (scopes : List LirBorrowScope) (a b : ℤ) {s : LirBorrowScope}
    → get_at? scopes b ≡ some s
    → scope_contains_within (suc fuel) scopes a b
      ≡ (if a ==ℤ b then true else scope_contains_within fuel scopes a s.parent)
unfolding scope_contains_within
within_scope fuel scopes a b e = rw (scope_contains_within, e)

within_no_scope :
    (fuel : ℕ) (scopes : List LirBorrowScope) (a b : ℤ)
    → get_at? scopes b ≡ none
    → scope_contains_within (suc fuel) scopes a b ≡ false
unfolding scope_contains_within
within_no_scope fuel scopes a b e = rw (scope_contains_within, e)

within_no_fuel :
    (scopes : List LirBorrowScope) (a b : ℤ) → scope_contains_within zero scopes a b ≡ false
unfolding scope_contains_within
within_no_fuel scopes a b = refl

within-Encloses :
    (fuel : ℕ) (scopes : List LirBorrowScope) (a b : ℤ)
    → scope_contains_within fuel scopes a b ≡ true
    → Encloses scopes a b
within-Encloses zero scopes a b h = cc (within_no_fuel scopes a b)
within-Encloses (suc fuel) scopes a b h = elim (Option-cases (get_at? scopes b)) [
  | inl e ↦ cc (within_no_scope fuel scopes a b e)
  | inr (s, e) ↦
      let h' = sym (within_scope fuel scopes a b e) ∙ h in
      elim (Bool-cases (a ==ℤ b)) [
        | inl q ↦
            let same = (==ℤ_iff a b).0 q in
            subst (Encloses scopes a) same (here (ap (get_at? scopes) same ∙ e))
        | inr q ↦ up e (within-Encloses fuel scopes a s.parent (rw q at h'))
      ]
]

pub borrow_scope_contains-Encloses :
    (c : LirBorrowContract) (a b : ℤ) → borrow_scope_contains c a b ≡ true → Encloses c.scopes a b
unfolding borrow_scope_contains
borrow_scope_contains-Encloses c a b h = within-Encloses (suc (length c.scopes)) c.scopes a b h

-- The parent of an accepted scope stands before it.
parent-before :
    (scopes : List LirBorrowScope) (i : ℕ) (s : LirBorrowScope)
    → AreScopes scopes
    → get_elem? scopes i ≡ some s
    → leb_ℤ (pos i) s.parent ≡ false
unfolding check_scope bad_scope
parent-before scopes i s ok_scopes e =
    let passed = for_each-get check_scope 0 scopes i ok_scopes e in ground (arith, zero-add i)

Encloses-pos :
    (scopes : List LirBorrowScope) (a b : ℤ) → Encloses scopes a b → (k : ℕ) × (b ≡ pos k)
Encloses-pos scopes (pos k) _ (here e) = (k, refl)
Encloses-pos scopes (ℤ.negsuc k) _ (here e) = cc
Encloses-pos scopes a _ (up {inner = pos k} e h) = (k, refl)
Encloses-pos scopes a _ (up {inner = ℤ.negsuc k} e h) = cc

Encloses-within :
    (fuel : ℕ) (scopes : List LirBorrowScope) (a b : ℤ) (k : ℕ)
    → AreScopes scopes
    → Encloses scopes a b
    → b ≡ pos k
    → k < fuel
    → scope_contains_within fuel scopes a b ≡ true
Encloses-within zero scopes a b k w h q l = absurd (omega arith)
Encloses-within (suc fuel) scopes a _ k w (here e) q l =
    within_scope fuel scopes a a e ∙ ground (arith, ==ℤ_iff a a)
Encloses-within (suc fuel) scopes a _ k w (up {inner = b} {s = s} e h) q l =
    let (m, p) = Encloses-pos scopes a s.parent h in
    let before = parent-before scopes k s w (subst (λ x. get_at? scopes x ≡ some s) q e) in
    let rest =
      Encloses-within fuel scopes a s.parent m w h p
        (ground (arith, subst (λ x. leb_ℤ (pos k) x ≡ false) p before)) in
    within_scope fuel scopes a b e ∙ ground arith

-- Over scopes that the verifier accepts `borrowScopeContains` is true exactly where its first scope
-- is its second or one of the scopes around it.
pub borrow_scope_contains_iff :
    (c : LirBorrowContract) (a b : ℤ)
    → AreScopes c.scopes
    → (borrow_scope_contains c a b ≡ true) ↔ Encloses c.scopes a b
borrow_scope_contains_iff c a b w = (borrow_scope_contains-Encloses c a b, complete)
  where
    inside : (k : ℕ) → Encloses c.scopes a (pos k) → k < length c.scopes
    inside k h = in_list k (first (pos k) h)
      where
        first :
            (b : ℤ) → Encloses c.scopes a b → (s : LirBorrowScope) × (get_at? c.scopes b ≡ some s)
        first _ (here {s = s} e) = (s, e)
        first _ (up {s = s} e h) = (s, e)

        in_list :
            (k : ℕ) → (s : LirBorrowScope) × (get_elem? c.scopes k ≡ some s) → k < length c.scopes
        in_list k (s, e) = get_elem?-lt c.scopes k e

    complete : Encloses c.scopes a b → borrow_scope_contains c a b ≡ true
    complete h =
        let (k, q) = Encloses-pos c.scopes a b h in
        let l = inside k (subst (Encloses c.scopes a) q h) in
        unfold borrow_scope_contains in
        Encloses-within (suc (length c.scopes)) c.scopes a b k w h q (omega arith)
