-- ===== src/Bounds/Condition.antt =====
-- A condition that held refines the state truly: `assume`.
use concept.Bounds.Analysis.{
  value, assume, splits, constant, assumed_op, refine_by, compare_constants,
}
use concept.Bounds.Run.{
  Val, run, trapped, undefined, and_then, run_unary, Outcome, run_operands, Machine, short_circuit,
  Store, done, bool_val, int_val, span_val, other_val, run_binary,
}
use concept.Bounds.Sound.{Abstracts, Snapshots, Unscaled, and_then-done, done_inj}
use concept.Bounds.Assume.{refine-Abstracts}
use concept.Base.{
  String, true, false, Bool, ◌≡◌, ℤ, refl, Option, not, some, ◌∙◌, ap, Option-cases, inl, inr, sym,
  none, subst, Bool-cases, if_true, if_false,
}
use concept.Bounds.Domain.{
  BinaryOp, LocalBoundsState, LocalValue, plus, minus, times, less, at_most, greater, at_least,
  equal_to, unequal, or_op, and_op, other_op,
}
use concept.Bounds.Syntax.{
  UnaryOp, Expr, not_op, paren, unary, binary, int_literal, comptime_int, bool_literal, name_expr,
  cast, index, len_call, if_expr, opaque, other_unary,
}
use concept.Bounds.Truth.{Sound}
use concept.Bounds.Meets.{Meets, Meets-none, compare-Meets}
use concept.Bounds.Value.{run_operands-compare, constant-Holds, compare_run, value-Sound}

split_and :
    (x y : Outcome)
    → and_then x (λ v. short_circuit false v y) ≡ done (bool_val true)
    → (x ≡ done (bool_val true)) × (y ≡ done (bool_val true))
unfolding and_then
split_and (done (bool_val true)) y h = (refl, h)
split_and (done (bool_val false)) y h = cc
split_and (done (int_val n)) y h = cc
split_and (done (span_val i n)) y h = cc
split_and (done (other_val i)) y h = cc
split_and trapped y h = cc
split_and undefined y h = cc

split_or :
    (x y : Outcome)
    → and_then x (λ v. short_circuit true v y) ≡ done (bool_val false)
    → (x ≡ done (bool_val false)) × (y ≡ done (bool_val false))
unfolding and_then
split_or (done (bool_val false)) y h = (refl, h)
split_or (done (bool_val true)) y h = cc
split_or (done (int_val n)) y h = cc
split_or (done (span_val i n)) y h = cc
split_or (done (other_val i)) y h = cc
split_or trapped y h = cc
split_or undefined y h = cc

-- Where both operands are assumed, both had the truth value.
split_operands :
    (m : Machine) (op : BinaryOp) (r : String) (k t : Bool) (x y : Outcome)
    → splits op t ≡ true
    → run_operands m op r k x y ≡ done (bool_val t)
    → (x ≡ done (bool_val t)) × (y ≡ done (bool_val t))
unfolding splits run_operands
split_operands m and_op r k true x y h e = split_and x y e
split_operands m or_op r k false x y h e = split_or x y e
split_operands m and_op r k false x y h e = cc
split_operands m or_op r k true x y h e = cc
split_operands m plus r k t x y h e = cc
split_operands m minus r k t x y h e = cc
split_operands m times r k t x y h e = cc
split_operands m less r k t x y h e = cc
split_operands m at_most r k t x y h e = cc
split_operands m greater r k t x y h e = cc
split_operands m at_least r k t x y h e = cc
split_operands m equal_to r k t x y h e = cc
split_operands m unequal r k t x y h e = cc
split_operands m other_op r k t x y h e = cc

operands-Meets :
    (γ : Snapshots) (m : Machine) (op : BinaryOp) (r : String) (k t : Bool) (v : LocalValue)
    (x y : Outcome) (a n : ℤ)
    → Sound γ v y
    → constant v ≡ some n
    → run_operands m op r k x y ≡ done (bool_val t)
    → x ≡ done (int_val a)
    → Meets (assumed_op op t) a n
operands-Meets γ m op r k t v x y a n s c h e = elim (Option-cases (compare_constants op a n)) [
  | inl z ↦ Meets-none op a n t z
  | inr z ↦
      let (b, q) = z in
      let (p, hp, hq) =
        and_then-done x _ (bool_val t) (sym (run_operands-compare m op r k x y a n b q) ∙ h) in
      let (u, hu, last) = and_then-done y (run_binary m op r k p) (bool_val t) hq in
      let ep : p ≡ int_val a = done_inj (sym hp ∙ e) in
      let eu : u ≡ int_val n = constant-Holds γ v u n (s u hu) c in
      let same : done (bool_val b) ≡ done (bool_val t) =
        sym (compare_run m op r k a n b q)
        ∙ subst (λ z. run_binary m op r k z (int_val n) ≡ done (bool_val t)) ep
            (subst (λ z. run_binary m op r k p z ≡ done (bool_val t)) eu last) in
      compare-Meets op a n t (q ∙ ap some (bool_inj (done_inj same)))
]
  where
    bool_inj : {b c : Bool} → bool_val b ≡ bool_val c → b ≡ c
    bool_inj w = cc

refine_by-Abstracts :
    (exposed : String → Bool) (γ : Snapshots) (m : Machine) (s : LocalBoundsState) (σ : Store)
    (op : BinaryOp) (left : Expr) (o : Option ℤ)
    → Abstracts exposed γ s σ
    → ((a n : ℤ) → o ≡ some n → run m σ left ≡ done (int_val a) → Meets op a n)
    → Abstracts exposed γ (refine_by exposed op left o s) σ
refine_by-Abstracts exposed γ m s σ op left none a h = a
refine_by-Abstracts exposed γ m s σ op left (some n) a h =
    refine-Abstracts exposed γ m s σ op left n a (λ k e. h k n refl e)

run_not :
    (m : Machine) (v : Val) (t : Bool)
    → run_unary m not_op v ≡ done (bool_val t)
    → v ≡ bool_val (not t)
unfolding run_unary
run_not m (bool_val true) true h = cc
run_not m (bool_val true) false h = refl
run_not m (bool_val false) true h = refl
run_not m (bool_val false) false h = cc
run_not m (int_val n) t h = cc
run_not m (span_val i n) t h = cc
run_not m (other_val i) t h = cc

-- In a store that is as the state says, a condition that computes a truth value, without scaled
-- arithmetic, refines the state to one that the store is as well.
pub assume-Abstracts :
    (exposed : String → Bool) (γ : Snapshots) (m : Machine) (σ : Store) (e : Expr) (truth : Bool)
    (s : LocalBoundsState)
    → Abstracts exposed γ s σ
    → Unscaled e
    → run m σ e ≡ done (bool_val truth)
    → Abstracts exposed γ (assume exposed e truth s) σ
unfolding assume run
assume-Abstracts exposed γ m σ (paren e) t s a u h = assume-Abstracts exposed γ m σ e t s a u h
assume-Abstracts exposed γ m σ (unary not_op e) t s a u h =
    let (v, hv, hu) = and_then-done (run m σ e) (run_unary m not_op) (bool_val t) h in
    assume-Abstracts exposed γ m σ e (not t) s a u (hv ∙ ap done (run_not m v t hu))
assume-Abstracts exposed γ m σ (unary UnaryOp.negate e) t s a u h = a
assume-Abstracts exposed γ m σ (unary other_unary e) t s a u h = a
assume-Abstracts exposed γ m σ (binary op r k x y) t s a (uk, ux, uy) h =
    elim (Bool-cases (splits op t)) [
      | inl e ↦
          let (hx, hy) = split_operands m op r k t (run m σ x) (run m σ y) e h in
          subst (λ z. Abstracts exposed γ z σ) (sym (if_true (splits op t) _ _ e))
            (assume-Abstracts exposed γ m σ y t (assume exposed x t s)
              (assume-Abstracts exposed γ m σ x t s a ux hx) uy hy)
      | inr e ↦
          subst (λ z. Abstracts exposed γ z σ) (sym (if_false (splits op t) _ _ e))
            (refine_by-Abstracts exposed γ m s σ (assumed_op op t) x (constant (value exposed s y))
              a
              (λ b n c q.
                operands-Meets γ m op r k t (value exposed s y) (run m σ x) (run m σ y) b n
                  (value-Sound exposed γ m s σ y a uy) c h q))
    ]
assume-Abstracts exposed γ m σ (int_literal n b) t s a u h = a
assume-Abstracts exposed γ m σ (comptime_int v) t s a u h = a
assume-Abstracts exposed γ m σ (bool_literal b) t s a u h = a
assume-Abstracts exposed γ m σ (name_expr x) t s a u h = a
assume-Abstracts exposed γ m σ (cast c e) t s a u h = a
assume-Abstracts exposed γ m σ (index b i k p) t s a u h = a
assume-Abstracts exposed γ m σ (len_call v) t s a u h = a
assume-Abstracts exposed γ m σ (if_expr c x y) t s a u h = a
assume-Abstracts exposed γ m σ (opaque k) t s a u h = a
