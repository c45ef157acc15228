-- ===== src/Bounds/Truth.antt =====
-- `value` and `constant_bool` are true of what an expression without scaled arithmetic computes.
use concept.Bounds.Analysis.{int_only}
use concept.Bounds.Run.{
  Val, Machine, Outcome, is_int32, run_operands, run_binary, run_ints, done, int_result,
  run_arithmetic, int_val, and_then, or_trapped,
}
use concept.Bounds.Sound.{
  Holds, Snapshots, Holds-no_value, local_arithmetic-known, and_then-done, local_arithmetic-Holds,
  done_inj,
}
use concept.Bounds.Domain.{
  BinaryOp, local_arithmetic, LocalValue, no_value, LocalInterval, if_int32, within_int32,
  interval_of, plus, minus, times, less, at_most, greater, at_least, equal_to, unequal, and_op,
  or_op, other_op,
}
use concept.Bounds.Arithmetic.{exact_result}
use concept.Base.{
  ℤ, String, ◌≡◌, true, some, false, str_eq, Bool, Bool-cases, subst, inr, if◌then◌else◌, ◌&&◌,
  if_true, sym, arith, some_inj, Option, ◌∙◌, if_false, inl, not, ◌||◌, refl, none,
}

-- An abstract value is true of the outcome.
abbrev pub Sound : Snapshots → LocalValue → Outcome → Type 0
Sound γ v o = (w : Val) → o ≡ done w → Holds γ v w

run_operands-arithmetic :
    (m : Machine) (op : BinaryOp) (r : String) (x y : Outcome) (a b n : LocalInterval)
    → interval_of op a b ≡ some n
    → run_operands m op r false x y ≡ and_then x (λ v. and_then y (run_binary m op r false v))
unfolding interval_of run_operands
run_operands-arithmetic m plus r x y a b n e = refl
run_operands-arithmetic m minus r x y a b n e = refl
run_operands-arithmetic m times r x y a b n e = refl
run_operands-arithmetic m less r x y a b n e = cc
run_operands-arithmetic m at_most r x y a b n e = cc
run_operands-arithmetic m greater r x y a b n e = cc
run_operands-arithmetic m at_least r x y a b n e = cc
run_operands-arithmetic m equal_to r x y a b n e = cc
run_operands-arithmetic m unequal r x y a b n e = cc
run_operands-arithmetic m and_op r x y a b n e = cc
run_operands-arithmetic m or_op r x y a b n e = cc
run_operands-arithmetic m other_op r x y a b n e = cc

pub int_result-done : (m : Machine) (n : ℤ) → is_int32 n ≡ true → int_result m n ≡ done (int_val n)
int_result-done m n h = if_true (is_int32 n) (done (int_val n)) (or_trapped (m.overflow n)) h

run_arithmetic-done :
    (m : Machine) (op : BinaryOp) (r : String) (a b n : ℤ)
    → str_eq r "int" ≡ true
    → is_int32 n ≡ true
    → run_arithmetic m op n r false a b ≡ done (int_val n)
run_arithmetic-done m op r a b n e h =
    if_true (str_eq r "int" && true) (int_result m n) _ (both e) ∙ int_result-done m n h
  where
    both : {p : Bool} → p ≡ true → (p && true) ≡ true
    both q = ground arith

run_binary-arithmetic :
    (m : Machine) (op : BinaryOp) (r : String) (a b n : ℤ)
    → str_eq r "int" ≡ true
    → exact_result op a b ≡ some n
    → is_int32 n ≡ true
    → run_binary m op r false (int_val a) (int_val b) ≡ done (int_val n)
unfolding exact_result run_binary run_ints
run_binary-arithmetic m plus r a b n e x h =
    subst (λ z. run_arithmetic m plus z r false a b ≡ done (int_val n)) (sym (some_inj x))
      (run_arithmetic-done m plus r a b n e h)
run_binary-arithmetic m minus r a b n e x h =
    subst (λ z. run_arithmetic m minus z r false a b ≡ done (int_val n)) (sym (some_inj x))
      (run_arithmetic-done m minus r a b n e h)
run_binary-arithmetic m times r a b n e x h =
    subst (λ z. run_arithmetic m times z r false a b ≡ done (int_val n)) (sym (some_inj x))
      (run_arithmetic-done m times r a b n e h)
run_binary-arithmetic m less r a b n e x h = cc
run_binary-arithmetic m at_most r a b n e x h = cc
run_binary-arithmetic m greater r a b n e x h = cc
run_binary-arithmetic m at_least r a b n e x h = cc
run_binary-arithmetic m equal_to r a b n e x h = cc
run_binary-arithmetic m unequal r a b n e x h = cc
run_binary-arithmetic m and_op r a b n e x h = cc
run_binary-arithmetic m or_op r a b n e x h = cc
run_binary-arithmetic m other_op r a b n e x h = cc

pub local_arithmetic-unheld :
    (op : BinaryOp) (x y : LocalValue) → (local_arithmetic op x y).length_held ≡ false
unfolding local_arithmetic
local_arithmetic-unheld op x y = unheld (not x.int_known || not y.int_known) _ (
    unheld (not (within_int32 x.integer) || not (within_int32 y.integer)) _
      (last (interval_of op x.integer y.integer)))
  where
    unheld :
        (b : Bool) (v : LocalValue)
        → v.length_held ≡ false
        → (if b then no_value else v).length_held ≡ false
    unheld true v h = refl
    unheld false v h = h

    last : (o : Option LocalInterval) → (if_int32 o).length_held ≡ false
    last none = refl
    last (some i) = elim (Bool-cases (within_int32 i)) [ inl e ↦ rw e refl | inr e ↦ rw e refl ]

-- An abstract value that holds where it is a known number, and is no span.
pub Holds-if_known :
    (γ : Snapshots) (v : LocalValue) (w : Val)
    → v.length_held ≡ false
    → (v.int_known ≡ true → Holds γ v w)
    → Holds γ v w
Holds-if_known γ v w u h = record { known_int = λ e. (h e).known_int e; known_length = λ e. cc }

pub binary-Sound :
    (γ : Snapshots) (m : Machine) (op : BinaryOp) (r : String) (x y : LocalValue) (o q : Outcome)
    → Sound γ x o
    → Sound γ y q
    → Sound γ (int_only r (local_arithmetic op x y)) (run_operands m op r false o q)
binary-Sound γ m op r x y o q sx sy w h = elim (Bool-cases (str_eq r "int")) [
  | inr n ↦
      subst (λ z. Holds γ z w) (sym (if_false (str_eq r "int") _ no_value n)) (Holds-no_value γ w)
  | inl i ↦
      subst (λ z. Holds γ z w) (sym (if_true (str_eq r "int") _ no_value i))
        (Holds-if_known γ _ w (local_arithmetic-unheld op x y) (λ k. known i k))
]
  where
    known :
        str_eq r "int" ≡ true
        → (local_arithmetic op x y).int_known ≡ true
        → Holds γ (local_arithmetic op x y) w
    known i k =
        let (t, _, _, it, _, _) = local_arithmetic-known op x y k in
        let (v, ho, hv) =
          and_then-done o _ w
            (sym (run_operands-arithmetic m op r o q x.integer y.integer t it) ∙ h) in
        let (u, hq, hu) = and_then-done q (run_binary m op r false v) w hv in
        let (a, b, n, ea, eb, en, k32, holds) =
          local_arithmetic-Holds γ op x y v u (sx v ho) (sy u hq) k in
        let e : done (int_val n) ≡ done w =
          sym (run_binary-arithmetic m op r a b n i en k32)
          ∙ subst (λ z. run_binary m op r false z (int_val b) ≡ done w) ea
              (subst (λ z. run_binary m op r false v z ≡ done w) eb hu) in
        subst (Holds γ (local_arithmetic op x y)) (done_inj e) holds
