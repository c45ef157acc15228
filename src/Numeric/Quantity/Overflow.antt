-- ===== src/Numeric/Quantity/Overflow.antt =====
-- The failure of `MultiplyChecked`: the product in lowest terms does not fit.
use Prim.Native.Nat.{◌∣◌}
use native.Mathlib.Nat.{dvd-one, dvd-mul_left_of_dvd, mul_comm, mul-pos}
use concept.Base.{
  ℕ, ◌≡◌, ◌*◌, ◌/◌, ◌<◌, ◌⊎◌, inl, inr, none, some, Option, Bool-cases, ltb, ◌||◌, ap, sym, ◌∙◌,
  subst, arith, refl, true, false, if◌then◌else◌, suc, zero, Bool, List, ℤ,
}
use concept.Numeric.Quantity.{
  quantity_gcd, or_one, normalized, cancelled_product, max_int, QuantityDimension,
  quantity_scale_multiply, multiply_checked, add_exponents, scaled,
}
use concept.Numeric.Quantity.Gcd.{quantity_gcd-greatest, quantity_gcd-scale}
use concept.Numeric.Quantity.Normal.{
  Reduced, quotients-Reduced, normalized-Reduced, Reduced-unique, mul_cancel, or_one_positive,
}
use concept.Numeric.Quantity.Scale.{cross_quotients, unfits, through}

abbrev pub Coprime : ℕ → ℕ → Type 0
Coprime a b = (e : ℕ) → e ∣ a → e ∣ b → e ≡ 1

Reduced-Coprime : (a b : ℕ) → Reduced a b → Coprime a b
Reduced-Coprime a b (pa, pb, one) e ea eb =
    let (_, _, _, most) = quantity_gcd-greatest a b pb in
    dvd-one.0 (subst (λ g. e ∣ g) one (most e ea eb))

Coprime-Reduced : (a b : ℕ) → 0 < a → 0 < b → Coprime a b → Reduced a b
Coprime-Reduced a b pa pb c =
    let (_, ga, gb, _) = quantity_gcd-greatest a b pb in (pa, pb, c (quantity_gcd a b) ga gb)

Coprime-sym : (a b : ℕ) → Coprime a b → Coprime b a
Coprime-sym a b c e eb ea = c e ea eb

-- Factors of coprime numbers.
Coprime-factors : (g h a b : ℕ) → Coprime (g * a) (h * b) → Coprime a b
Coprime-factors g h a b c e ea eb = c e (dvd-mul_left_of_dvd e ea g) (dvd-mul_left_of_dvd e eb h)

-- A product of two numbers that are coprime to a third.
Coprime-product :
    (a b c : ℕ) → 0 < a → 0 < b → 0 < c → Coprime a c → Coprime b c → Coprime (a * b) c
Coprime-product a b c pa pb pc ac bc e eab ec =
    let (_, _, _, most) = quantity_gcd-greatest (b * a) (b * c) (mul-pos pb pc) in
    let (_, _, one) = Coprime-Reduced a c pa pc ac in
    let both : e ∣ quantity_gcd (b * a) (b * c) =
      most e (subst (λ x. e ∣ x) (mul_comm a b) eab) (dvd-mul_left_of_dvd e ec b) in
    let only_b : quantity_gcd (b * a) (b * c) ≡ b =
      quantity_gcd-scale b a c pb pc ∙ ap (λ x. b * x) one ∙ times_one b in
    bc e (subst (λ x. e ∣ x) only_b both) ec
  where
    times_one : (n : ℕ) → n * 1 ≡ n
    times_one n = omega arith

-- Two fractions in lowest terms, divided crosswise by their common divisors, have a product in
-- lowest terms.
products-Reduced :
    (a b c d : ℕ) → Reduced a d → Reduced c b → Coprime a b → Coprime c d → Reduced (a * c) (b * d)
products-Reduced a b c d (pa, pd, ad) (pc, pb, cb) ab cd =
    let over_b = Coprime-product a c b pa pc pb ab (Reduced-Coprime c b (pc, pb, cb)) in
    let over_d = Coprime-product a c d pa pc pd (Reduced-Coprime a d (pa, pd, ad)) cd in
    Coprime-Reduced (a * c) (b * d) (mul-pos pa pc) (mul-pos pb pd) (
      Coprime-sym (b * d) (a * c) (
        Coprime-product b d (a * c) pb pd (mul-pos pa pc) (Coprime-sym (a * c) b over_b)
          (Coprime-sym (a * c) d over_d)))

-- Where one number of a fraction in lowest terms does not fit, one of each equal fraction does not.
unfit :
    (N D p q : ℕ)
    → Reduced N D
    → 0 < p
    → 0 < q
    → N * q ≡ p * D
    → (max_int < N) ⊎ (max_int < D)
    → (max_int < p) ⊎ (max_int < q)
unfit N D p q r hp hq e h =
    let g = quantity_gcd p q in
    let (lowest, ep, eq) = quotients-Reduced p q hp hq in
    let (pg, _, _, _) = quantity_gcd-greatest p q hq in
    let (same_N, same_D) =
      Reduced-unique N D (p / g) (q / g) r lowest (cancel g N D p q (p / g) (q / g) pg ep eq e) in
    elim h [
      | inl b ↦ inl (grows g (p / g) p pg ep (subst (λ x. max_int < x) same_N b))
      | inr b ↦ inr (grows g (q / g) q pg eq (subst (λ x. max_int < x) same_D b))
    ]
  where
    cancel : (g N D p q x y : ℕ) → 0 < g → g * x ≡ p → g * y ≡ q → N * q ≡ p * D → N * y ≡ x * D
    cancel g N D p q x y h ep eq e =
        mul_cancel g (N * y) (x * D) h
          (one g N y ∙ ap (λ z. N * z) eq ∙ e ∙ ap (λ z. z * D) (sym ep) ∙ two g x D)
      where
        one : (g N y : ℕ) → g * (N * y) ≡ N * (g * y)
        one g N y = omega arith

        two : (g x D : ℕ) → g * x * D ≡ g * (x * D)
        two g x D = omega arith

    grows : (g x p : ℕ) → 0 < g → g * x ≡ p → max_int < x → max_int < p
    grows zero x p h e b = absurd (omega (arith, h))
    grows (suc g) x p h e b = omega (arith, e, b)

either : (a b c d : ℕ) → (ltb a b || ltb c d) ≡ true → (ltb a b ≡ true) ⊎ (ltb c d ≡ true)
either a b c d h = elim (Bool-cases (ltb a b)) [ inl e ↦ inl e | inr e ↦ inr (rw e at h) ]

-- Where the product of two fractions in lowest terms does not fit, no fraction equal to it does.
cancelled_product-unfit :
    (n den x y p q : ℕ)
    → Reduced n den
    → Reduced x y
    → cancelled_product n den x y ≡ none
    → 0 < p
    → 0 < q
    → p * (den * y) ≡ q * (n * x)
    → (max_int < p) ⊎ (max_int < q)
unfolding cancelled_product
cancelled_product-unfit n den x y p q (hn, hd, lowest) (hx, hy, lowest') e hp hq same =
    let g = quantity_gcd n y in
    let h = quantity_gcd x den in
    let (rn, en, ey) = quotients-Reduced n y hn hy in
    let (rx, ex, ed) = quotients-Reduced x den hx hd in
    let ad : Coprime (n / g) (den / h) = Coprime-factors g h (n / g) (den / h) (
      subst (λ z. Coprime z (h * (den / h))) (sym en)
        (subst (Coprime n) (sym ed) (Reduced-Coprime n den (hn, hd, lowest)))) in
    let cb : Coprime (x / h) (y / g) = Coprime-factors h g (x / h) (y / g) (
      subst (λ z. Coprime z (g * (y / g))) (sym ex)
        (subst (Coprime x) (sym ey) (Reduced-Coprime x y (hx, hy, lowest')))) in
    let exact = cross_quotients g h (n / g) (y / g) (x / h) (den / h) n y x den en ey ex ed in
    let whole : Reduced (n / g * (x / h)) (y / g * (den / h)) =
      products-Reduced (n / g) (y / g) (x / h) (den / h)
        (Coprime-Reduced (n / g) (den / h) rn.0 rx.1 ad)
        (Coprime-Reduced (x / h) (y / g) rx.0 rn.1 cb) (Reduced-Coprime (n / g) (y / g) rn)
        (Reduced-Coprime (x / h) (den / h) rx) in
    unfit (n / g * (x / h)) (y / g * (den / h)) p q whole hp hq
      (align (n / g * (x / h)) (den / h) (y / g) (den * y) (n * x) p q (mul-pos hd hy) exact same)
      (elim (either (max_int / (x / h)) (n / g) (max_int / (y / g)) (den / h) (
        taken (ltb (max_int / (x / h)) (n / g) || ltb (max_int / (y / g)) (den / h))
          (n / g * (x / h), den / h * (y / g)) e)) [
            | inl b ↦ inl (unfits (n / g) (x / h) rx.0 b)
            | inr b ↦ inr (
                subst (λ z. max_int < z) (mul_comm (den / h) (y / g))
                  (unfits (den / h) (y / g) rn.1 b))
          ])
  where
    taken : (b : Bool) (r : ℕ × ℕ) → (if b then none else some r) ≡ none → b ≡ true
    taken true r e = refl
    taken false r e = cc

    align : (N d b K L p q : ℕ) → 0 < K → N * K ≡ L * (d * b) → p * K ≡ q * L → N * q ≡ p * (b * d)
    align N d b K L p q h exact same = mul_cancel K (N * q) (p * (b * d)) h (
        one K N q
        ∙ ap (λ z. z * q) exact
        ∙ two L d b q
        ∙ ap (λ z. z * (b * d)) (sym same)
        ∙ three p K b d)
      where
        one : (K N q : ℕ) → K * (N * q) ≡ N * K * q
        one K N q = omega arith

        two : (L d b q : ℕ) → L * (d * b) * q ≡ q * L * (b * d)
        two L d b q = omega arith

        three : (p K b d : ℕ) → p * K * (b * d) ≡ K * (p * (b * d))
        three p K b d = omega arith

unscaled : (e : List ℤ) (o : Option (ℕ × ℕ)) → scaled e o ≡ none → o ≡ none
unscaled e none h = refl
unscaled e (some (n, m)) h = cc

-- Where `MultiplyChecked` reports a failure, the product of the scales is no ratio of two positive
-- `int`s: each ratio of positive numbers that is equal to it has a number above the largest `int`.
-- A number of a scale that is 0 counts as 1.
pub multiply_checked-none :
    (d other : QuantityDimension) (p q : ℕ)
    → multiply_checked d other ≡ none
    → 0 < p
    → 0 < q
    → p * (or_one d.scale_denominator * or_one other.scale_denominator)
      ≡ q * (or_one d.scale_numerator * or_one other.scale_numerator)
    → (max_int < p) ⊎ (max_int < q)
unfolding multiply_checked quantity_scale_multiply
multiply_checked-none d other p q e hp hq same =
    let (ra, ca) = normalized-Reduced d in
    let (rb, cb) = normalized-Reduced other in
    let a = normalized d in
    let b = normalized other in
    cancelled_product-unfit a.scale_numerator a.scale_denominator b.scale_numerator
      b.scale_denominator p q ra rb
      (unscaled (add_exponents d.exponents other.exponents)
        (cancelled_product a.scale_numerator a.scale_denominator b.scale_numerator
          b.scale_denominator)
        e)
      hp hq
      (through p q (or_one d.scale_numerator) (or_one d.scale_denominator)
        (or_one other.scale_numerator) (or_one other.scale_denominator) a.scale_numerator
        a.scale_denominator b.scale_numerator b.scale_denominator
        (or_one_positive d.scale_denominator) (or_one_positive other.scale_denominator)
        (same ∙ mul_comm q (or_one d.scale_numerator * or_one other.scale_numerator)) (sym ca)
        (sym cb))
