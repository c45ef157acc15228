-- ===== src/Bounds/Operands.antt =====
-- Visiting keeps the runs of operators, and its states and values are true of them.
use concept.Base.{
  true, false, String, Bool, ◌≡◌, not, subst, sym, if_false, ◌∙◌, refl, ap, if_true, inl,
}
use concept.Bounds.Domain.{
  and_op, or_op, other_op, plus, minus, times, less, at_most, greater, at_least, equal_to, unequal,
  BinaryOp,
}
use concept.Bounds.Run.{
  short_circuit, run_operands, run, Machine, Store, Outcome, and_then, run_binary, Val, done,
  bool_val, int_val, span_val, other_val,
}
use concept.Bounds.Visit.{visit_binary, right_state, is_short, Visited}
use concept.Bounds.Analysis.{assume}
use concept.Bounds.Branches.{Correct, and_then-ap}
use concept.Bounds.Sound.{Snapshots, Unscaled, Abstracts, and_then-done, Holds-no_value}
use concept.Bounds.Syntax.{Expr, binary}
use concept.Bounds.Condition.{assume-Abstracts}
use concept.Bounds.Truth.{binary-Sound}
use concept.Bounds.Join.{update_all-Abstracts}

plain-Correct :
    (exposed : String → Bool) (γ : Snapshots) (m : Machine) (σ : Store) (op : BinaryOp) (r : String)
    (k : Bool) (x y : Expr) (l v : Visited)
    → is_short op ≡ false
    → ((p q : Outcome)
        → run_operands m op r k p q ≡ and_then p (λ u. and_then q (run_binary m op r k u)))
    → k ≡ false
    → Correct exposed γ m σ x l
    → (Abstracts exposed γ l.after σ → Correct exposed γ m σ y v)
    → Correct exposed γ m σ (binary op r k x y) (visit_binary op r k l v)
unfolding visit_binary run
plain-Correct exposed γ m σ op r k x y l v short operands unscaled (hx, px) hy =
    subst (Correct exposed γ m σ (binary op r k x y)) (sym (if_false (is_short op) _ _ short)) (
      operands (run m σ l.annotated) (run m σ v.annotated)
          ∙ and_then-ap (run m σ l.annotated) (run m σ x) _ _ hx (λ u e.
            and_then-ap (run m σ v.annotated) (run m σ y) _ _ (hy (px u e).1).0 (λ w d. refl))
          ∙ sym (operands (run m σ x) (run m σ y)),
      λ w h.
          let (u, e, d) =
            and_then-done (run m σ x) _ w (sym (operands (run m σ x) (run m σ y)) ∙ h) in
          let (t, f, g) = and_then-done (run m σ y) _ w d in
          let right = (hy (px u e).1).1 in
          (
            binary-Sound γ m op r l.found v.found (run m σ x) (run m σ y) (λ z q. (px z q).0)
                (λ z q. (right z q).0) w
                (subst (λ z. run_operands m op r z (run m σ x) (run m σ y) ≡ done w) unscaled h),
            (right t f).1,
          ),
    )

-- The second operand runs only after a first one that decides nothing.
short-Correct :
    (exposed : String → Bool) (γ : Snapshots) (m : Machine) (σ : Store) (op : BinaryOp) (r : String)
    (k t : Bool) (x y : Expr) (l v : Visited)
    → is_short op ≡ true
    → ((p q : Outcome) → run_operands m op r k p q ≡ and_then p (λ u. short_circuit (not t) u q))
    → right_state exposed op x l.after ≡ assume exposed x t l.after
    → Unscaled x
    → Correct exposed γ m σ x l
    → (Abstracts exposed γ (right_state exposed op x l.after) σ → Correct exposed γ m σ y v)
    → Correct exposed γ m σ (binary op r k x y) (visit_binary op r k l v)
unfolding visit_binary run
short-Correct exposed γ m σ op r k t x y l v short operands assumed unscaled (hx, px) hy =
    subst (Correct exposed γ m σ (binary op r k x y)) (sym (if_true (is_short op) _ _ short)) (
      operands (run m σ l.annotated) (run m σ v.annotated)
          ∙ and_then-ap (run m σ l.annotated) (run m σ x) _ _ hx (λ u e. rest t u (reach u e))
          ∙ sym (operands (run m σ x) (run m σ y)),
      λ w h.
          let (u, e, d) =
            and_then-done (run m σ x) _ w (sym (operands (run m σ x) (run m σ y)) ∙ h) in
          (
            Holds-no_value γ w,
            update_all-Abstracts exposed γ l.after l.after v.after σ (px u e).1 (inl (px u e).1),
          ),
    )
  where
    reach : (u : Val) → run m σ x ≡ done u → u ≡ bool_val t → run m σ v.annotated ≡ run m σ y
    reach u e q =
        (hy (
          subst (λ s. Abstracts exposed γ s σ) (sym assumed)
            (assume-Abstracts exposed γ m σ x t l.after (px u e).1 unscaled (e ∙ ap done q)))).0

    rest :
        (b : Bool) (u : Val)
        → (u ≡ bool_val b → run m σ v.annotated ≡ run m σ y)
        → short_circuit (not b) u (run m σ v.annotated) ≡ short_circuit (not b) u (run m σ y)
    rest true (bool_val true) f = f refl
    rest true (bool_val false) f = refl
    rest false (bool_val true) f = refl
    rest false (bool_val false) f = f refl
    rest b (int_val n) f = refl
    rest b (span_val i n) f = refl
    rest b (other_val i) f = refl

pub binary-Correct :
    (exposed : String → Bool) (γ : Snapshots) (m : Machine) (σ : Store) (op : BinaryOp) (r : String)
    (k : Bool) (x y : Expr) (l v : Visited)
    → Unscaled x
    → k ≡ false
    → Correct exposed γ m σ x l
    → (Abstracts exposed γ (right_state exposed op x l.after) σ → Correct exposed γ m σ y v)
    → Correct exposed γ m σ (binary op r k x y) (visit_binary op r k l v)
unfolding right_state run_operands
binary-Correct exposed γ m σ and_op r k x y l v u s hx hy =
    short-Correct exposed γ m σ and_op r k true x y l v refl (λ p q. refl) refl u hx hy
binary-Correct exposed γ m σ or_op r k x y l v u s hx hy =
    short-Correct exposed γ m σ or_op r k false x y l v refl (λ p q. refl) refl u hx hy
binary-Correct exposed γ m σ plus r k x y l v u s hx hy =
    plain-Correct exposed γ m σ plus r k x y l v refl (λ p q. refl) s hx hy
binary-Correct exposed γ m σ minus r k x y l v u s hx hy =
    plain-Correct exposed γ m σ minus r k x y l v refl (λ p q. refl) s hx hy
binary-Correct exposed γ m σ times r k x y l v u s hx hy =
    plain-Correct exposed γ m σ times r k x y l v refl (λ p q. refl) s hx hy
binary-Correct exposed γ m σ less r k x y l v u s hx hy =
    plain-Correct exposed γ m σ less r k x y l v refl (λ p q. refl) s hx hy
binary-Correct exposed γ m σ at_most r k x y l v u s hx hy =
    plain-Correct exposed γ m σ at_most r k x y l v refl (λ p q. refl) s hx hy
binary-Correct exposed γ m σ greater r k x y l v u s hx hy =
    plain-Correct exposed γ m σ greater r k x y l v refl (λ p q. refl) s hx hy
binary-Correct exposed γ m σ at_least r k x y l v u s hx hy =
    plain-Correct exposed γ m σ at_least r k x y l v refl (λ p q. refl) s hx hy
binary-Correct exposed γ m σ equal_to r k x y l v u s hx hy =
    plain-Correct exposed γ m σ equal_to r k x y l v refl (λ p q. refl) s hx hy
binary-Correct exposed γ m σ unequal r k x y l v u s hx hy =
    plain-Correct exposed γ m σ unequal r k x y l v refl (λ p q. refl) s hx hy
binary-Correct exposed γ m σ other_op r k x y l v u s hx hy =
    plain-Correct exposed γ m σ other_op r k x y l v refl (λ p q. refl) s hx hy
