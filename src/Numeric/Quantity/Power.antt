-- ===== src/Numeric/Quantity/Power.antt =====
-- `PowChecked`: the loop ends, at the exact power of the scale.
use native.Mathlib.Nat.{mod-eq_of_lt, mul_comm}
use concept.Numeric.Quantity.{turn, wrap_int64}
use concept.Base.{
  sub_ℕ, pos_part, leb, none, some, false, true, ℕ, ◌≡◌, ◌+◌, ◌<◌, ◌%◌, ◌*◌, ap, ◌^◌, arith, sym,
  ◌∙◌, suc, ◌==◌, zero, ◌/◌, Bool-cases, inl, subst, some_inj, ==_iff, inr, Bool, pos, ◌≤◌, Option,
  if_true, refl, negsuc, ◌-ℤ◌, if◌then◌else◌,
}
use concept.Numeric.Quantity.{
  or_one, normalized, max_int, QuantityDimension, multiply_checked, inverse, pow_loop, pow_checked,
  turns, ended, times_base, dimensionless_quantity,
}
use concept.Numeric.Quantity.Normal.{normalized-Reduced}
use concept.Numeric.Quantity.Scale.{multiply_checked-IsProduct, through, or_one_same}
use native.Mathlib.Nat.{pow-zero, pow-suc, div-add-mod, mod-lt, div-lt_self, mul_comm}

-- The scale is the ratio n/m, of positive numbers.
abbrev pub HasScale : QuantityDimension → ℕ → ℕ → Type 0
HasScale q n m =
    (0 < q.scale_numerator)
    × (0 < q.scale_denominator)
    × (q.scale_numerator * m ≡ q.scale_denominator * n)

square-pow : (x k : ℕ) → (x * x) ^ k ≡ x ^ (k + k)
square-pow x zero = pow-zero (x * x) ∙ sym (pow-zero x)
square-pow x (suc k) =
    pow-suc (x * x) k
    ∙ ap (λ z. z * (x * x)) (square-pow x k)
    ∙ regroup (x ^ (k + k)) x
    ∙ sym (pow-suc x (suc (k + k)) ∙ ap (λ z. z * x) (pow-suc x (k + k)))
    ∙ ap (λ z. x ^ z) twice
  where
    regroup : (p x : ℕ) → p * (x * x) ≡ p * x * x
    regroup p x = omega arith

    twice : suc (suc (k + k)) ≡ suc k + suc k
    twice = omega arith

zero_plus : (n : ℕ) → 0 + n ≡ n
zero_plus n = omega arith

half_even : (e : ℕ) → e % 2 ≡ 0 → e / 2 + e / 2 ≡ e
half_even e h = omega (arith, div-add-mod e 2, h)

half_odd : (e : ℕ) → (e % 2 == 0) ≡ false → 1 + (e / 2 + e / 2) ≡ e
half_odd e h = omega (arith, div-add-mod e 2, odd (e % 2) h (mod-lt e {m = 2} (omega arith)))
  where
    odd : (r : ℕ) → (r == 0) ≡ false → r < 2 → r ≡ 1
    odd r h l = ground arith

multiply_checked-HasScale :
    (a b r : QuantityDimension) (n m n' m' : ℕ)
    → HasScale a n m
    → HasScale b n' m'
    → multiply_checked a b ≡ some r
    → HasScale r (n * n') (m * m')
multiply_checked-HasScale a b r n m n' m' (an, ad, ea) (bn, bd, eb) e =
    let (exps, (rn, rd, one), ln, ld, exact) = multiply_checked-IsProduct a b r e in
    (
      rn,
      rd,
      through r.scale_numerator r.scale_denominator a.scale_numerator a.scale_denominator
          b.scale_numerator b.scale_denominator n m n' m' ad bd
          (ap (λ z. r.scale_numerator * z)
              (sym (
                ap (λ z. z * or_one b.scale_denominator) (or_one_same a.scale_denominator ad)
                ∙ ap (λ z. a.scale_denominator * z) (or_one_same b.scale_denominator bd)))
            ∙ exact
            ∙ ap (λ z. r.scale_denominator * z)
                (ap (λ z. z * or_one b.scale_numerator) (or_one_same a.scale_numerator an)
                  ∙ ap (λ z. a.scale_numerator * z) (or_one_same b.scale_numerator bn))
            ∙ mul_comm r.scale_denominator (a.scale_numerator * b.scale_numerator))
          (ea ∙ mul_comm a.scale_denominator n) (eb ∙ mul_comm b.scale_denominator n'),
    )

-- What one bit of the exponent contributes.
times_base-HasScale :
    (e : ℕ) (out base product : QuantityDimension) (n m x y : ℕ)
    → HasScale out n m
    → HasScale base x y
    → times_base e out base ≡ some product
    → (b : ℕ) × HasScale product (n * x ^ b) (m * y ^ b) × (b + (e / 2 + e / 2) ≡ e)
times_base-HasScale e out base product n m x y ho hb h = elim (Bool-cases (e % 2 == 0)) [
  | inl z ↦ (
    0,
    subst (λ q. HasScale q (n * x ^ 0) (m * y ^ 0))
        (some_inj
          (sym (ap (λ t. elim t [ true ↦ some out | false ↦ multiply_checked out base ]) z) ∙ h))
        (subst (λ p. HasScale out p (m * y ^ 0)) (to_one n x)
          (subst (λ p. HasScale out n p) (to_one m y) ho)),
    zero_plus (e / 2 + e / 2) ∙ half_even e ((==_iff (e % 2) 0).0 z),
  )
  | inr z ↦ (
    1,
    subst (λ p. HasScale product (n * p) (m * y ^ 1)) (power_one x)
        (subst (λ p. HasScale product (n * x) (m * p)) (power_one y)
          (multiply_checked-HasScale out base product n m x y ho hb (
            sym (ap (λ t. elim t [ true ↦ some out | false ↦ multiply_checked out base ]) z) ∙ h))),
    half_odd e z,
  )
]
  where
    to_one : (n x : ℕ) → n ≡ n * x ^ 0
    to_one n x = times n ∙ ap (λ z. n * z) (sym (pow-zero x))
      where
        times : (n : ℕ) → n ≡ n * 1
        times n = omega arith

    power_one : (x : ℕ) → x ≡ x ^ 1
    power_one x = sym (pow-suc x 0 ∙ ap (λ z. z * x) (pow-zero x) ∙ times x)
      where
        times : (x : ℕ) → 1 * x ≡ x
        times x = omega arith

pow_add : (x b c : ℕ) → x ^ (b + c) ≡ x ^ b * x ^ c
pow_add x zero c =
    ap (λ z. x ^ z) (zero_plus c) ∙ one (x ^ c) ∙ ap (λ z. z * x ^ c) (sym (pow-zero x))
  where
    one : (p : ℕ) → p ≡ 1 * p
    one p = omega arith
pow_add x (suc b) c =
    ap (λ z. x ^ z) (next b c)
    ∙ pow-suc x (b + c)
    ∙ ap (λ z. z * x) (pow_add x b c)
    ∙ swap (x ^ b) (x ^ c) x
    ∙ ap (λ z. z * x ^ c) (sym (pow-suc x b))
  where
    next : (b c : ℕ) → suc b + c ≡ suc (b + c)
    next b c = omega arith

    swap : (p q x : ℕ) → p * q * x ≡ p * x * q
    swap p q x = omega arith

collect : (n x b k e : ℕ) → b + (k + k) ≡ e → n * x ^ b * (x * x) ^ k ≡ n * x ^ e
collect n x b k e h =
    ap (λ z. n * x ^ b * z) (square-pow x k)
    ∙ regroup n (x ^ b) (x ^ (k + k))
    ∙ ap (λ z. n * z) (sym (pow_add x b (k + k)))
    ∙ ap (λ z. n * x ^ z) h
  where
    regroup : (n p q : ℕ) → n * p * q ≡ n * (p * q)
    regroup n p q = omega arith

turn_ends :
    (z : Bool) (o : Option QuantityDimension) (t : Bool) (s : Option QuantityDimension)
    (out : QuantityDimension)
    (next : QuantityDimension → QuantityDimension → Option (Option QuantityDimension))
    (Goal : QuantityDimension → Type 0)
    → (z ≡ true → Goal out)
    → ((p : QuantityDimension) → z ≡ false → o ≡ some p → t ≡ true → Goal p)
    → ((p q : QuantityDimension)
        → z ≡ false
        → o ≡ some p
        → s ≡ some q
        → (r : Option QuantityDimension) × (next p q ≡ some r)
          × ((v : QuantityDimension) → r ≡ some v → Goal v))
    → (r : Option QuantityDimension) × (turn z o t s out next ≡ some r)
      × ((v : QuantityDimension) → r ≡ some v → Goal v)
turn_ends true o t s out next Goal f g h = (some out, refl, λ v e. subst Goal (some_inj e) (f refl))
turn_ends false none t s out next Goal f g h = (none, refl, λ v e. cc)
turn_ends false (some p) true s out next Goal f g h =
    (some p, refl, λ v e. subst Goal (some_inj e) (g p refl refl refl))
turn_ends false (some p) false none out next Goal f g h = (none, refl, λ v e. cc)
turn_ends false (some p) false (some q) out next Goal f g h = h p q refl refl refl

half_less : (n e : ℕ) → (e == 0) ≡ false → e ≤ suc n → e / 2 ≤ n
half_less n e h le = omega (arith, div-lt_self (not_zero e h) (one_two), le)
  where
    not_zero : (e : ℕ) → (e == 0) ≡ false → 0 < e
    not_zero e h = ground arith

    one_two : 1 < 2
    one_two = omega arith

exponent_zero :
    (out : QuantityDimension) (n m x y e : ℕ)
    → e ≡ 0
    → HasScale out n m
    → HasScale out (n * x ^ e) (m * y ^ e)
exponent_zero out n m x y e z h =
    subst (λ k. HasScale out (n * x ^ k) (m * y ^ k)) (sym z)
      (subst (λ p. HasScale out p (m * y ^ 0)) (to_one n x)
        (subst (λ p. HasScale out n p) (to_one m y) h))
  where
    to_one : (n x : ℕ) → n ≡ n * x ^ 0
    to_one n x = times n ∙ ap (λ z. n * z) (sym (pow-zero x))
      where
        times : (n : ℕ) → n ≡ n * 1
        times n = omega arith

-- With the exponent as its fuel the loop of `PowChecked` ends; a power that it returns has the exact
-- scale, the one of `out` times the power of the one of `base`.
pub pow_loop_ends :
    (fuel : ℕ) (out base : QuantityDimension) (e n m x y : ℕ)
    → e ≤ fuel
    → HasScale out n m
    → HasScale base x y
    → (r : Option QuantityDimension) × (pow_loop fuel out base e ≡ some r)
      × ((v : QuantityDimension) → r ≡ some v → HasScale v (n * x ^ e) (m * y ^ e))
unfolding pow_loop
pow_loop_ends zero out base e n m x y le ho hb =
    let z : e ≡ 0 = omega arith in
    (
      some out,
      if_true (e == 0) (some (some out)) none ((==_iff e 0).1 z),
      λ v q.
          subst (λ w. HasScale w (n * x ^ e) (m * y ^ e)) (some_inj q)
            (exponent_zero out n m x y e z ho),
    )
pow_loop_ends (suc k) out base e n m x y le ho hb =
    turn_ends (e == 0) (times_base e out base) (e / 2 == 0) (multiply_checked base base) out
      (λ product square. pow_loop k product square (e / 2))
      (λ v. HasScale v (n * x ^ e) (m * y ^ e))
      (λ z. exponent_zero out n m x y e ((==_iff e 0).0 z) ho)
      (λ p z o t.
        let (b, h, total) = times_base-HasScale e out base p n m x y ho hb o in
        let last : b ≡ e =
          sym (plus_zero b) ∙ ap (λ q. b + (q + q)) (sym ((==_iff (e / 2) 0).0 t)) ∙ total in
        subst (λ q. HasScale p (n * x ^ q) (m * y ^ q)) last h)
      (λ p q z o s.
        let (b, h, total) = times_base-HasScale e out base p n m x y ho hb o in
        let (r, run, good) =
          pow_loop_ends k p q (e / 2) (n * x ^ b) (m * y ^ b) (x * x) (y * y) (half_less k e z le) h
            (multiply_checked-HasScale base base q x y x y hb hb s) in
        (
          r,
          run,
          λ v w.
              subst (λ c. HasScale v c (m * y ^ e)) (collect n x b (e / 2) e total)
                (subst (λ c. HasScale v (n * x ^ b * (x * x) ^ (e / 2)) c)
                  (collect m y b (e / 2) e total) (good v w)),
        ))
  where
    plus_zero : (b : ℕ) → b + (0 + 0) ≡ b
    plus_zero b = omega arith

power_of :
    (base r : QuantityDimension) (e x y : ℕ)
    → HasScale base x y
    → ended (pow_loop e dimensionless_quantity base e) ≡ some r
    → HasScale r (x ^ e) (y ^ e)
power_of base r e x y hb h =
    let (o, run, good) =
      pow_loop_ends e dimensionless_quantity base e 1 1 x y (omega arith)
        (omega arith, omega arith, refl) hb in
    subst (λ p. HasScale r p (y ^ e)) (times_one (x ^ e))
      (subst (λ p. HasScale r (1 * x ^ e) p) (times_one (y ^ e)) (good r (ap ended (sym run) ∙ h)))
  where
    times_one : (p : ℕ) → 1 * p ≡ p
    times_one p = omega arith

-- A power that `PowChecked` returns for an exponent that is not negative has the exact power of the
-- scale; a number of the scale that is 0 counts as 1.
pub pow_checked-HasScale :
    (d r : QuantityDimension) (e : ℕ)
    → pow_checked d (pos e) ≡ some r
    → HasScale r (or_one d.scale_numerator ^ e) (or_one d.scale_denominator ^ e)
unfolding pow_checked
pow_checked-HasScale d r e h =
    let ((a, b, c), ratio) = normalized-Reduced d in
    power_of (normalized d) r e (or_one d.scale_numerator) (or_one d.scale_denominator)
      (a, b, ratio ∙ mul_comm (or_one d.scale_numerator) (normalized d).scale_denominator) h

turns_negative : (e : ℕ) → suc e ≤ max_int → turns (negsuc e) ≡ suc e
unfolding ◌-ℤ◌
turns_negative e h =
    ap (λ z. pos_part (wrap_int64 z)) (negated e)
    ∙ ap (λ k. pos_part (if leb k max_int then pos k else sub_ℕ k 18446744073709551616))
        (mod-eq_of_lt (below (suc e) h))
    ∙ ap pos_part (if_true (leb (suc e) max_int) (pos (suc e)) _ (fits_int (suc e) h))
  where
    negated : (e : ℕ) → pos 0 -ℤ negsuc e ≡ pos (suc e)
    negated e = ground arith

    below : (n : ℕ) → n ≤ max_int → n < 18446744073709551616
    below n h = omega arith

    fits_int : (n : ℕ) → n ≤ max_int → leb n max_int ≡ true
    fits_int n h = ground arith

-- A power that `PowChecked` returns for the exponent -(e + 1), where e + 1 is an `int`, has the
-- inverse of the exact power of the scale; a number of the scale that is 0 counts as 1.
pub pow_checked-HasScale_negative :
    (d r : QuantityDimension) (e : ℕ)
    → suc e ≤ max_int
    → pow_checked d (negsuc e) ≡ some r
    → HasScale r (or_one d.scale_denominator ^ suc e) (or_one d.scale_numerator ^ suc e)
unfolding pow_checked
pow_checked-HasScale_negative d r e le h =
    let ((a, b, c), ratio) = normalized-Reduced d in
    power_of (inverse (normalized d)) r (suc e) (or_one d.scale_denominator)
      (or_one d.scale_numerator)
      (b, a, mul_comm (normalized d).scale_denominator (or_one d.scale_numerator) ∙ sym ratio)
      (subst (λ k. ended (pow_loop k dimensionless_quantity (inverse (normalized d)) k) ≡ some r)
        (turns_negative e le) h)

-- With the exponent as its fuel, or more, the loop of `PowChecked` ends, with a power or with the
-- report that a scale does not fit, where the scales it starts from are ratios of positive numbers.
pub pow_loop_total :
    (fuel : ℕ) (out base : QuantityDimension) (e n m x y : ℕ)
    → e ≤ fuel
    → HasScale out n m
    → HasScale base x y
    → (r : Option QuantityDimension) × (pow_loop fuel out base e ≡ some r)
pow_loop_total fuel out base e n m x y h ho hb =
    let (r, run, good) = pow_loop_ends fuel out base e n m x y h ho hb in (r, run)
