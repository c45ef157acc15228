-- ===== src/Bounds/Branches.antt =====
-- Visiting keeps the runs of conditional expressions, and its states and values are true of them.
use concept.Base.{
  true, false, String, Bool, ◌≡◌, ap, ◌⊎◌, inl, ◌∙◌, inr, refl, ◌&&◌, subst, arith, sym, Bool-cases,
  str_eq, if_false, &&-true, if_true,
}
use concept.Bounds.Domain.{
  within_int32, hull, LocalValue, known_interval, update_all, local_join, no_value,
}
use concept.Bounds.Syntax.{Expr, if_expr}
use concept.Bounds.Run.{
  trapped, undefined, branch_on, Machine, and_then, run, Val, Outcome, bool_val, done, int_val,
  span_val, other_val, Store,
}
use concept.Bounds.Visit.{hull_value, narrow_cast, Visited}
use concept.Bounds.Analysis.{assume, cast_value}
use concept.Bounds.Sound.{
  Snapshots, Holds, Abstracts, Unscaled, Holds-interval, Holds-no_value, and_then-done,
}
use concept.Bounds.Join.{hull-In, update_all-Abstracts}
use concept.Bounds.Condition.{assume-Abstracts}

-- The annotated tree runs as the tree does; where it has a value, `found` and `after` are true.
abbrev pub Correct : (String → Bool) → Snapshots → Machine → Store → Expr → Visited → Type 0
Correct exposed γ m σ e v =
    (run m σ v.annotated ≡ run m σ e)
    × ((w : Val) → run m σ e ≡ done w → Holds γ v.found w × Abstracts exposed γ v.after σ)

pub and_then-ap :
    (o q : Outcome) (f g : Val → Outcome)
    → o ≡ q
    → ((v : Val) → q ≡ done v → f v ≡ g v)
    → and_then o f ≡ and_then q g
unfolding and_then
and_then-ap o (done v) f g e h = ap (λ z. and_then z f) e ∙ h v refl
and_then-ap o trapped f g e h = ap (λ z. and_then z f) e
and_then-ap o undefined f g e h = ap (λ z. and_then z f) e

pub narrow_cast-Holds :
    (γ : Snapshots) (t : String) (v : LocalValue) (w : Val)
    → Holds γ (cast_value t v) w
    → Holds γ (narrow_cast t v) w
narrow_cast-Holds γ t v w h =
    elim (Bool-cases (str_eq t "int" && (v.int_known && within_int32 v.integer))) [
      | inr e ↦
          subst (λ z. Holds γ z w)
            (sym
              (if_false (str_eq t "int" && (v.int_known && within_int32 v.integer)) v no_value e))
            (Holds-no_value γ w)
      | inl e ↦
          let (a, b) = &&-true (str_eq t "int") _ e in
          let (c, d) = &&-true v.int_known _ b in
          subst (λ z. Holds γ z w)
            (if_true (str_eq t "int" && v.int_known) v no_value (conj a c)
              ∙ sym (
                  if_true (str_eq t "int" && (v.int_known && within_int32 v.integer)) v no_value e))
            h
    ]
  where
    conj : {a b : Bool} → a ≡ true → b ≡ true → (a && b) ≡ true
    conj p q = ground arith

hull_value-Holds :
    (γ : Snapshots) (l r : LocalValue) (w : Val)
    → Holds γ l w ⊎ Holds γ r w
    → Holds γ (hull_value l r) w
hull_value-Holds γ l r w o = elim (Bool-cases (l.int_known && r.int_known)) [
  | inr e ↦
      subst (λ z. Holds γ z w) (sym (if_false (l.int_known && r.int_known) _ no_value e))
        (Holds-no_value γ w)
  | inl e ↦
      let (a, b) = &&-true l.int_known r.int_known e in
      subst (λ z. Holds γ z w)
        (sym (
          if_true (l.int_known && r.int_known) (known_interval (hull l.integer r.integer)) no_value
            e))
        (either a b o)
]
  where
    either :
        l.int_known ≡ true
        → r.int_known ≡ true
        → Holds γ l w ⊎ Holds γ r w
        → Holds γ (known_interval (hull l.integer r.integer)) w
    either a b (inl h) =
        let p = h.known_int a in
        subst (Holds γ (known_interval (hull l.integer r.integer))) (sym p.is_number) (
          Holds-interval γ (hull l.integer r.integer) p.number
            (hull-In l.integer r.integer p.number (inl p.in_interval)) p.in_int32)
    either a b (inr h) =
        let p = h.known_int b in
        subst (Holds γ (known_interval (hull l.integer r.integer))) (sym p.is_number) (
          Holds-interval γ (hull l.integer r.integer) p.number
            (hull-In l.integer r.integer p.number (inr p.in_interval)) p.in_int32)

branch-ap :
    (m : Machine) (v : Val) (x x' y y' : Outcome)
    → (v ≡ bool_val true → x ≡ x')
    → (v ≡ bool_val false → y ≡ y')
    → branch_on m v x y ≡ branch_on m v x' y'
branch-ap m (bool_val true) x x' y y' f g = f refl
branch-ap m (bool_val false) x x' y y' f g = g refl
branch-ap m (int_val n) x x' y y' f g = refl
branch-ap m (span_val i n) x x' y y' f g = refl
branch-ap m (other_val i) x x' y y' f g = refl

branch-done :
    (m : Machine) (v w : Val) (x y : Outcome)
    → branch_on m v x y ≡ done w
    → ((v ≡ bool_val true) × (x ≡ done w)) ⊎ ((v ≡ bool_val false) × (y ≡ done w))
branch-done m (bool_val true) w x y h = inl (refl, h)
branch-done m (bool_val false) w x y h = inr (refl, h)
branch-done m (int_val n) w x y h = cc
branch-done m (span_val i n) w x y h = cc
branch-done m (other_val i) w x y h = cc

pub if_expr-Correct :
    (exposed : String → Bool) (γ : Snapshots) (m : Machine) (σ : Store) (c x y : Expr)
    (v l r : Visited)
    → Unscaled c
    → Correct exposed γ m σ c v
    → (Abstracts exposed γ (assume exposed c true v.after) σ → Correct exposed γ m σ x l)
    → (Abstracts exposed γ (assume exposed c false v.after) σ → Correct exposed γ m σ y r)
    → Correct exposed γ m σ (if_expr c x y) (record {
      annotated = if_expr v.annotated l.annotated r.annotated;
      found = hull_value l.found r.found;
      after = update_all v.after (local_join l.after r.after);
    })
unfolding run
if_expr-Correct exposed γ m σ c x y v l r u (hc, pc) hx hy = (
  and_then-ap (run m σ v.annotated) (run m σ c) _ _ hc (λ b e.
      branch-ap m b (run m σ l.annotated) (run m σ x) (run m σ r.annotated) (run m σ y)
        (λ q. (hx (assumed true b e q)).0) (λ q. (hy (assumed false b e q)).0)),
  λ w h.
      let (b, e, k) = and_then-done (run m σ c) _ w h in
      elim (branch-done m b w (run m σ x) (run m σ y) k) [
        | inl (q, d) ↦
            let p = (hx (assumed true b e q)).1 w d in
            (
              hull_value-Holds γ l.found r.found w (inl p.0),
              update_all-Abstracts exposed γ v.after l.after r.after σ (pc b e).1 (inl p.1),
            )
        | inr (q, d) ↦
            let p = (hy (assumed false b e q)).1 w d in
            (
              hull_value-Holds γ l.found r.found w (inr p.0),
              update_all-Abstracts exposed γ v.after l.after r.after σ (pc b e).1 (inr p.1),
            )
      ],
)
  where
    assumed :
        (t : Bool) (b : Val)
        → run m σ c ≡ done b
        → b ≡ bool_val t
        → Abstracts exposed γ (assume exposed c t v.after) σ
    assumed t b e q = assume-Abstracts exposed γ m σ c t v.after (pc b e).1 u (e ∙ ap done q)
