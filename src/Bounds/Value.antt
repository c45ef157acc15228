-- ===== src/Bounds/Value.antt =====
-- `value` is true of what an expression without scaled arithmetic computes, and `constant_bool` of
-- a condition.
use concept.Bounds.Analysis.{
  value, constant, compare_constants, both_constant, cast_value, signed_magnitude, negated_value,
  chosen, literal_value, comptime_value, constant_bool,
}
use concept.Bounds.Run.{
  Val, run, run_unary, run_cast, run_operands, run_binary, Machine, run_ints, Outcome, done,
  is_int32, int_val, and_then, bool_val, int_result, Store, branch_on,
}
use concept.Bounds.Sound.{
  Holds, Snapshots, and_then-done, Holds-interval, done_inj, Holds-no_value, local_arithmetic-Holds,
  int_inj, Abstracts, Unscaled,
}
use concept.Bounds.Truth.{
  Sound, binary-Sound, Holds-if_known, local_arithmetic-unheld, int_result-done,
}
use concept.Bounds.Domain.{
  LocalValue, BinaryOp, local_integer, no_value, less, minus, at_most, greater, at_least, equal_to,
  unequal, plus, times, and_op, or_op, other_op, LocalBoundsState, get,
}
use concept.Bounds.Arithmetic.{exact_result, In}
use concept.Base.{
  ℤ, Bool, ◌-ℤ◌, String, ◌≡◌, Option, ◌==ℤ◌, ℕ, leb, true, arith, some, ◌≤ℤ◌, none, ◌&&◌,
  eq_of_parts, if◌then◌else◌, Bool-cases, ap, some_inj, inr, str_eq, sym, subst, ◌∙◌, if_false, inl,
  &&-true, if_true, false, refl, pos,
}
use concept.Bounds.Syntax.{
  UnaryOp, not_op, other_unary, Expr, int_literal, comptime_int, bool_literal, name_expr, paren,
  cast, unary, binary, index, len_call, if_expr, opaque,
}

squeeze : (lo n hi : ℤ) → (lo ==ℤ hi) ≡ true → lo ≤ℤ n → n ≤ℤ hi → lo ≡ n
squeeze lo n hi e h k = eq_of_parts lo n (ground arith)

-- A constant is the number itself.
pub constant-Holds :
    (γ : Snapshots) (v : LocalValue) (w : Val) (n : ℤ)
    → Holds γ v w
    → constant v ≡ some n
    → w ≡ int_val n
constant-Holds γ v w n h e = elim (Bool-cases (v.int_known && v.integer.lo ==ℤ v.integer.hi)) [
  | inr f ↦ absurd (
      no_constant (
        sym (if_false (v.int_known && v.integer.lo ==ℤ v.integer.hi) (some v.integer.lo) none f)
        ∙ e))
  | inl t ↦
      let (k, s) = &&-true v.int_known _ t in
      let p = h.known_int k in
      let lo : v.integer.lo ≡ n = some_inj (
        sym (if_true (v.int_known && v.integer.lo ==ℤ v.integer.hi) (some v.integer.lo) none t)
        ∙ e) in
      p.is_number
      ∙ ap int_val
          (sym (squeeze v.integer.lo p.number v.integer.hi s p.in_interval.0 p.in_interval.1) ∙ lo)
]
  where
    no_constant : ◌≡◌ {A = Option ℤ} none (some n) → ⊥
    no_constant p = cc

pub compare_run :
    (m : Machine) (op : BinaryOp) (r : String) (k : Bool) (a b : ℤ) (t : Bool)
    → compare_constants op a b ≡ some t
    → run_binary m op r k (int_val a) (int_val b) ≡ done (bool_val t)
unfolding compare_constants run_binary run_ints
compare_run m less r k a b t e = ap (λ x. done (bool_val x)) (some_inj e)
compare_run m at_most r k a b t e = ap (λ x. done (bool_val x)) (some_inj e)
compare_run m greater r k a b t e = ap (λ x. done (bool_val x)) (some_inj e)
compare_run m at_least r k a b t e = ap (λ x. done (bool_val x)) (some_inj e)
compare_run m equal_to r k a b t e = ap (λ x. done (bool_val x)) (some_inj e)
compare_run m unequal r k a b t e = ap (λ x. done (bool_val x)) (some_inj e)
compare_run m plus r k a b t e = cc
compare_run m minus r k a b t e = cc
compare_run m times r k a b t e = cc
compare_run m and_op r k a b t e = cc
compare_run m or_op r k a b t e = cc
compare_run m other_op r k a b t e = cc

pub run_operands-compare :
    (m : Machine) (op : BinaryOp) (r : String) (k : Bool) (x y : Outcome) (a b : ℤ) (t : Bool)
    → compare_constants op a b ≡ some t
    → run_operands m op r k x y ≡ and_then x (λ v. and_then y (run_binary m op r k v))
unfolding compare_constants run_operands
run_operands-compare m less r k x y a b t e = refl
run_operands-compare m at_most r k x y a b t e = refl
run_operands-compare m greater r k x y a b t e = refl
run_operands-compare m at_least r k x y a b t e = refl
run_operands-compare m equal_to r k x y a b t e = refl
run_operands-compare m unequal r k x y a b t e = refl
run_operands-compare m plus r k x y a b t e = cc
run_operands-compare m minus r k x y a b t e = cc
run_operands-compare m times r k x y a b t e = cc
run_operands-compare m and_op r k x y a b t e = cc
run_operands-compare m or_op r k x y a b t e = cc
run_operands-compare m other_op r k x y a b t e = cc

both_constant_lem :
    (op : BinaryOp) (p q : Option ℤ) (t : Bool)
    → both_constant op p q ≡ some t
    → (a b : ℤ) × (p ≡ some a) × (q ≡ some b) × (compare_constants op a b ≡ some t)
both_constant_lem op (some a) (some b) t h = (a, b, refl, refl, h)
both_constant_lem op none q t h = cc
both_constant_lem op (some a) none t h = cc

compare-Sound :
    (γ : Snapshots) (m : Machine) (op : BinaryOp) (r : String) (k : Bool) (x y : LocalValue)
    (o q : Outcome) (t : Bool) (w : Val)
    → Sound γ x o
    → Sound γ y q
    → both_constant op (constant x) (constant y) ≡ some t
    → run_operands m op r k o q ≡ done w
    → w ≡ bool_val t
compare-Sound γ m op r k x y o q t w sx sy c h =
    let (a, b, ca, cb, e) = both_constant_lem op (constant x) (constant y) t c in
    let (v, ho, hv) = and_then-done o _ w (sym (run_operands-compare m op r k o q a b t e) ∙ h) in
    let (u, hq, hu) = and_then-done q (run_binary m op r k v) w hv in
    let ea = constant-Holds γ x v a (sx v ho) ca in
    let eb = constant-Holds γ y u b (sy u hq) cb in
    done_inj (
      sym (
        subst (λ z. run_binary m op r k z (int_val b) ≡ done w) ea
          (subst (λ z. run_binary m op r k v z ≡ done w) eb hu))
      ∙ compare_run m op r k a b t e)

signed-int32 : (n : ℕ) (b : Bool) → leb n 2147483647 ≡ true → is_int32 (signed_magnitude n b) ≡ true
unfolding ◌-ℤ◌
signed-int32 n true h = ground arith
signed-int32 n false h = ground arith

self_In : (n : ℤ) → In (record { lo = n; hi = n }) n
self_In n = (omega arith, omega arith)

constant-known :
    (γ : Snapshots) (b : Bool) (n : ℤ)
    → (b ≡ true → is_int32 n ≡ true)
    → Holds γ (if b then local_integer n else no_value) (int_val n)
constant-known γ true n h = Holds-interval γ (record { lo = n; hi = n }) n (self_In n) (h refl)
constant-known γ false n h = Holds-no_value γ (int_val n)

pub cast-Sound :
    (γ : Snapshots) (m : Machine) (t : String) (v : LocalValue) (o : Outcome)
    → Sound γ v o
    → Sound γ (cast_value t v) (and_then o (run_cast m t))
unfolding run_cast
cast-Sound γ m t v o s w h = elim (Bool-cases (str_eq t "int" && v.int_known)) [
  | inr f ↦
      subst (λ z. Holds γ z w) (sym (if_false (str_eq t "int" && v.int_known) v no_value f))
        (Holds-no_value γ w)
  | inl e ↦
      let (et, ek) = &&-true (str_eq t "int") _ e in
      let (u, ho, hu) = and_then-done o (run_cast m t) w h in
      let p = (s u ho).known_int ek in
      let here : run_cast m t (int_val p.number) ≡ done (int_val p.number) =
        if_true (str_eq t "int" && is_int32 p.number) (done (int_val p.number)) _
          (conj et p.in_int32) in
      let same : u ≡ w =
        p.is_number ∙ done_inj (sym here ∙ subst (λ z. run_cast m t z ≡ done w) p.is_number hu) in
      subst (λ z. Holds γ z w) (sym (if_true (str_eq t "int" && v.int_known) v no_value e))
        (subst (Holds γ v) same (s u ho))
]
  where
    conj : {a b : Bool} → a ≡ true → b ≡ true → (a && b) ≡ true
    conj p q = ground arith

pub unary-Sound :
    (γ : Snapshots) (m : Machine) (op : UnaryOp) (v : LocalValue) (o : Outcome)
    → Sound γ v o
    → Sound γ (negated_value op v) (and_then o (run_unary m op))
unfolding run_unary exact_result
unary-Sound γ m not_op v o s w h = Holds-no_value γ w
unary-Sound γ m other_unary v o s w h = Holds-no_value γ w
unary-Sound γ m UnaryOp.negate v o s w h =
    Holds-if_known γ _ w (local_arithmetic-unheld minus (local_integer (pos 0)) v) (λ k.
      let (u, ho, hu) = and_then-done o (run_unary m UnaryOp.negate) w h in
      let (a, b, n, ea, eb, en, k32, holds) =
        local_arithmetic-Holds γ minus (local_integer (pos 0)) v (int_val (pos 0)) u
          (Holds-interval γ (record { lo = pos 0; hi = pos 0 }) (pos 0) (self_In (pos 0)) refl)
          (s u ho) k in
      let zero_eq : pos 0 ≡ a = int_inj ea in
      let exact : pos 0 -ℤ b ≡ n = ap (λ z. z -ℤ b) zero_eq ∙ some_inj en in
      let e : done (int_val n) ≡ done w =
        sym (int_result-done m n k32)
        ∙ ap (int_result m) (sym exact)
        ∙ subst (λ z. run_unary m UnaryOp.negate z ≡ done w) eb hu in
      subst (Holds γ _) (done_inj e) holds)

branch-Sound :
    (γ : Snapshots) (m : Machine) (c : Option Bool) (x y : LocalValue) (o p q : Outcome)
    → ((w : Val) (b : Bool) → c ≡ some b → o ≡ done w → w ≡ bool_val b)
    → Sound γ x p
    → Sound γ y q
    → Sound γ (chosen c x y) (and_then o (λ v. branch_on m v p q))
branch-Sound γ m none x y o p q sc sx sy w h = Holds-no_value γ w
branch-Sound γ m (some true) x y o p q sc sx sy w h =
    let (v, ho, hv) = and_then-done o (λ v. branch_on m v p q) w h in
    sx w (subst (λ z. branch_on m z p q ≡ done w) (sc v true refl ho) hv)
branch-Sound γ m (some false) x y o p q sc sx sy w h =
    let (v, ho, hv) = and_then-done o (λ v. branch_on m v p q) w h in
    sy w (subst (λ z. branch_on m z p q ≡ done w) (sc v false refl ho) hv)

mutual
  unfolding value run

  -- `value` is true of an expression without scaled arithmetic, in every store that is as the state
  -- says: where the expression has a value, the abstract value holds of it.
  pub value-Sound :
      (exposed : String → Bool) (γ : Snapshots) (m : Machine) (s : LocalBoundsState) (σ : Store)
      (e : Expr)
      → Abstracts exposed γ s σ
      → Unscaled e
      → Sound γ (value exposed s e) (run m σ e)
  value-Sound exposed γ m s σ (int_literal n b) a u w h =
      subst (Holds γ (literal_value n b)) (done_inj h)
        (constant-known γ (leb n 2147483647) (signed_magnitude n b) (signed-int32 n b))
  value-Sound exposed γ m s σ (comptime_int v) a u w h =
      subst (Holds γ (comptime_value v)) (done_inj h) (constant-known γ (is_int32 v) v (λ e. e))
  value-Sound exposed γ m s σ (bool_literal b) a u w h = Holds-no_value γ w
  value-Sound exposed γ m s σ (name_expr x) a u w h =
      subst (Holds γ (get exposed s x)) (done_inj h) (a x)
  value-Sound exposed γ m s σ (paren e) a u w h = value-Sound exposed γ m s σ e a u w h
  value-Sound exposed γ m s σ (cast t e) a u w h =
      cast-Sound γ m t (value exposed s e) (run m σ e) (value-Sound exposed γ m s σ e a u) w h
  value-Sound exposed γ m s σ (unary op e) a u w h =
      unary-Sound γ m op (value exposed s e) (run m σ e) (value-Sound exposed γ m s σ e a u) w h
  value-Sound exposed γ m s σ (binary op r k x y) a (uk, ux, uy) w h =
      binary-Sound γ m op r (value exposed s x) (value exposed s y) (run m σ x) (run m σ y)
        (value-Sound exposed γ m s σ x a ux) (value-Sound exposed γ m s σ y a uy) w
        (subst (λ z. run_operands m op r z (run m σ x) (run m σ y) ≡ done w) uk h)
  value-Sound exposed γ m s σ (index b i k p) a u w h = Holds-no_value γ w
  value-Sound exposed γ m s σ (len_call v) a u w h = Holds-no_value γ w
  value-Sound exposed γ m s σ (if_expr c x y) a (uc, ux, uy) v g =
      branch-Sound γ m (constant_bool exposed s c) (value exposed s x) (value exposed s y)
        (run m σ c) (run m σ x) (run m σ y)
        (λ w b e h. constant_bool_true exposed γ m s σ c a uc b w e h)
        (value-Sound exposed γ m s σ x a ux) (value-Sound exposed γ m s σ y a uy) v g
  value-Sound exposed γ m s σ (opaque k) a u w h = Holds-no_value γ w

  constant_bool_true :
      (exposed : String → Bool) (γ : Snapshots) (m : Machine) (s : LocalBoundsState) (σ : Store)
      (e : Expr)
      → Abstracts exposed γ s σ
      → Unscaled e
      → (b : Bool) (w : Val) → constant_bool exposed s e ≡ some b
      → run m σ e ≡ done w
      → w ≡ bool_val b
  constant_bool_true exposed γ m s σ (bool_literal b) a u t w e h =
      sym (done_inj h) ∙ ap bool_val (some_inj e)
  constant_bool_true exposed γ m s σ (paren x) a u t w e h =
      constant_bool_true exposed γ m s σ x a u t w e h
  constant_bool_true exposed γ m s σ (binary op r k x y) a (uk, ux, uy) t w e h =
      compare-Sound γ m op r k (value exposed s x) (value exposed s y) (run m σ x) (run m σ y) t w
        (value-Sound exposed γ m s σ x a ux) (value-Sound exposed γ m s σ y a uy) e h
  constant_bool_true exposed γ m s σ (int_literal n b) a u t w e h = cc
  constant_bool_true exposed γ m s σ (comptime_int v) a u t w e h = cc
  constant_bool_true exposed γ m s σ (name_expr x) a u t w e h = cc
  constant_bool_true exposed γ m s σ (cast c x) a u t w e h = cc
  constant_bool_true exposed γ m s σ (unary op x) a u t w e h = cc
  constant_bool_true exposed γ m s σ (index b i k p) a u t w e h = cc
  constant_bool_true exposed γ m s σ (len_call v) a u t w e h = cc
  constant_bool_true exposed γ m s σ (if_expr c x y) a u t w e h = cc
  constant_bool_true exposed γ m s σ (opaque k) a u t w e h = cc

-- In a store that is as the state says, the interval, the lengths and the names that `value` gives
-- for an expression without scaled arithmetic are true of what the expression computes.
pub value_true :
    (exposed : String → Bool) (γ : Snapshots) (m : Machine) (s : LocalBoundsState) (σ : Store)
    (e : Expr)
    → Abstracts exposed γ s σ
    → Unscaled e
    → (w : Val) → run m σ e ≡ done w
    → Holds γ (value exposed s e) w
value_true exposed γ m s σ e a u w h = value-Sound exposed γ m s σ e a u w h
