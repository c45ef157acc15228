-- ===== src/Numeric/Quantity/Scale.antt =====
-- Products, quotients and ratios of scales are exact and fit an `int`.
use concept.Base.{
  none, some, false, true, ℕ, ◌<◌, ltb, ◌≡◌, ◌≤◌, ◌/◌, ◌*◌, arith, Option, ◌⊎◌, Bool-cases, ap, sym,
  leb, ◌∙◌, inl, inr, ◌||◌, if_true, ||-false, subst, some_inj, if_false, ◌==◌, refl,
}
use concept.Numeric.Quantity.{
  quantity_gcd, or_one, normalized, cancelled_product, max_int, QuantityDimension,
  scale_ratio_to_checked, quantity_scale_multiply, multiply_checked, divide_checked, scaled,
  inverse, add_exponents,
}
use concept.Numeric.Quantity.Normal.{Reduced, quotients-Reduced, normalized-Reduced, mul_cancel}
use native.Mathlib.Nat.{div-le_self, le-div_iff_mul-le, mul-pos}

fits : (n x : ℕ) → 0 < x → ltb (max_int / x) n ≡ false → n * x ≤ max_int
fits n x h e = (le-div_iff_mul-le h).0 (not_less (max_int / x) n e)
  where
    not_less : (q n : ℕ) → ltb q n ≡ false → n ≤ q
    not_less q n e = ground arith

pub unfits : (n x : ℕ) → 0 < x → ltb (max_int / x) n ≡ true → max_int < n * x
unfits n x h e = elim (split (n * x)) [
  | inl r ↦ r
  | inr r ↦ absurd (clash (max_int / x) n e ((le-div_iff_mul-le h).1 r))
]
  where
    split : (p : ℕ) → (max_int < p) ⊎ (p ≤ max_int)
    split p = elim (Bool-cases (leb p max_int)) [
      | inl e ↦ inr (ground arith)
      | inr e ↦ inl (ground arith)
    ]

    clash : (q n : ℕ) → ltb q n ≡ true → n ≤ q → ⊥
    clash q n e l = ground arith

-- The product of two fractions, each divided by a number that the other is divided by.
pub cross_quotients :
    (g h a b c d n y x den : ℕ)
    → g * a ≡ n
    → g * b ≡ y
    → h * c ≡ x
    → h * d ≡ den
    → a * c * (den * y) ≡ n * x * (d * b)
cross_quotients g h a b c d n y x den en ey ex ed =
    ap (λ z. a * c * (z * y)) (sym ed)
    ∙ ap (λ z. a * c * (h * d * z)) (sym ey)
    ∙ turn g h a b c d
    ∙ ap (λ z. z * (h * c) * (d * b)) en
    ∙ ap (λ z. n * z * (d * b)) ex
  where
    turn : (g h a b c d : ℕ) → a * c * (h * d * (g * b)) ≡ g * a * (h * c) * (d * b)
    turn g h a b c d = omega arith

-- The product n/den times x/y in lowest terms of its cancelled factors.
pub cancelled_product-exact :
    (n den x y : ℕ) (r : ℕ × ℕ)
    → 0 < n
    → 0 < den
    → 0 < x
    → 0 < y
    → cancelled_product n den x y ≡ some r
    → (0 < r.0) × (0 < r.1) × (r.0 ≤ max_int) × (r.1 ≤ max_int) × (r.0 * (den * y) ≡ n * x * r.1)
unfolding cancelled_product
cancelled_product-exact n den x y r hn hd hx hy e =
    elim (Bool-cases (
      ltb (max_int / (x / quantity_gcd x den)) (n / quantity_gcd n y)
      || ltb (max_int / (y / quantity_gcd n y)) (den / quantity_gcd x den))) [
        | inl f ↦ absurd (
            stuck (
              sym (
                if_true
                  (ltb (max_int / (x / quantity_gcd x den)) (n / quantity_gcd n y)
                    || ltb (max_int / (y / quantity_gcd n y)) (den / quantity_gcd x den))
                  _ _ f)
              ∙ e))
        | inr f ↦
            let ((pn, py, rn), en, ey) = quotients-Reduced n y hn hy in
            let ((px, pd, rx), ex, ed) = quotients-Reduced x den hx hd in
            let (fn, fd) =
              ||-false (ltb (max_int / (x / quantity_gcd x den)) (n / quantity_gcd n y))
                (ltb (max_int / (y / quantity_gcd n y)) (den / quantity_gcd x den)) f in
            subst
              (λ z.
                (0 < z.0)
                × (0 < z.1)
                × (z.0 ≤ max_int)
                × (z.1 ≤ max_int)
                × (z.0 * (den * y) ≡ n * x * z.1))
              (some_inj (
                sym (
                  if_false
                    (ltb (max_int / (x / quantity_gcd x den)) (n / quantity_gcd n y)
                      || ltb (max_int / (y / quantity_gcd n y)) (den / quantity_gcd x den))
                    _ _ f)
                ∙ e))
              (
                mul-pos pn px,
                mul-pos pd py,
                fits (n / quantity_gcd n y) (x / quantity_gcd x den) px fn,
                fits (den / quantity_gcd x den) (y / quantity_gcd n y) py fd,
                cross_quotients (quantity_gcd n y) (quantity_gcd x den) (n / quantity_gcd n y)
                    (y / quantity_gcd n y) (x / quantity_gcd x den) (den / quantity_gcd x den) n y x
                    den en ey ex ed,
              )
      ]
  where
    stuck : ◌≡◌ {A = Option (ℕ × ℕ)} none (some r) → ⊥
    stuck p = cc

-- A ratio of two ratios.
pub through :
    (p q a b c d A B C D : ℕ)
    → 0 < b
    → 0 < d
    → p * (b * d) ≡ a * c * q
    → a * B ≡ A * b
    → c * D ≡ C * d
    → p * (B * D) ≡ q * (A * C)
through p q a b c d A B C D pb pd e f g =
    mul_cancel (b * d) (p * (B * D)) (q * (A * C)) (mul-pos pb pd) (
      start p b d B D
      ∙ ap (λ z. z * (B * D)) e
      ∙ middle a c q B D
      ∙ ap (λ z. q * (z * (c * D))) f
      ∙ ap (λ z. q * (A * b * z)) g
      ∙ finish q A b C d)
  where
    start : (p b d B D : ℕ) → b * d * (p * (B * D)) ≡ p * (b * d) * (B * D)
    start p b d B D = omega arith

    middle : (a c q B D : ℕ) → a * c * q * (B * D) ≡ q * (a * B * (c * D))
    middle a c q B D = omega arith

    finish : (q A b C d : ℕ) → q * (A * b * (C * d)) ≡ b * d * (q * (A * C))
    finish q A b C d = omega arith

turned : (a b c d : ℕ) → a * b ≡ c * d → d * c ≡ b * a
turned a b c d e = omega (arith, e)

-- A ratio of scales that `ScaleRatioToChecked` returns is the exact one, positive, and of two
-- `int`s; a number of a scale that is 0 counts as 1.
pub scale_ratio_to_checked-exact :
    (d other : QuantityDimension) (r : ℕ × ℕ)
    → scale_ratio_to_checked d other ≡ some r
    → (0 < r.0)
      × (0 < r.1)
      × (r.0 ≤ max_int)
      × (r.1 ≤ max_int)
      × (r.0 * (or_one d.scale_denominator * or_one other.scale_numerator)
          ≡ r.1 * (or_one d.scale_numerator * or_one other.scale_denominator))
unfolding scale_ratio_to_checked
scale_ratio_to_checked-exact d other r e =
    let ((pa, pb, ra), ca) = normalized-Reduced d in
    let ((pc, pd, rc), cb) = normalized-Reduced other in
    let a = normalized d in
    let b = normalized other in
    let (p, q, x, y, exact) =
      cancelled_product-exact a.scale_numerator a.scale_denominator b.scale_denominator
        b.scale_numerator r pa pb pd pc e in
    (
      p,
      q,
      x,
      y,
      through r.0 r.1 a.scale_numerator a.scale_denominator b.scale_denominator b.scale_numerator
          (or_one d.scale_numerator) (or_one d.scale_denominator) (or_one other.scale_denominator)
          (or_one other.scale_numerator) pb pc exact ca
          (turned b.scale_numerator (or_one other.scale_denominator) (or_one other.scale_numerator)
            b.scale_denominator cb),
    )

quantity_scale_multiply-exact :
    (d other : QuantityDimension) (r : ℕ × ℕ)
    → quantity_scale_multiply d other ≡ some r
    → (0 < r.0)
      × (0 < r.1)
      × (r.0 ≤ max_int)
      × (r.1 ≤ max_int)
      × (r.0 * (or_one d.scale_denominator * or_one other.scale_denominator)
          ≡ r.1 * (or_one d.scale_numerator * or_one other.scale_numerator))
unfolding quantity_scale_multiply
quantity_scale_multiply-exact d other r e =
    let ((pa, pb, ra), ca) = normalized-Reduced d in
    let ((pc, pd, rc), cb) = normalized-Reduced other in
    let a = normalized d in
    let b = normalized other in
    let (p, q, x, y, exact) =
      cancelled_product-exact a.scale_numerator a.scale_denominator b.scale_numerator
        b.scale_denominator r pa pb pc pd e in
    (
      p,
      q,
      x,
      y,
      through r.0 r.1 a.scale_numerator a.scale_denominator b.scale_numerator b.scale_denominator
          (or_one d.scale_numerator) (or_one d.scale_denominator) (or_one other.scale_numerator)
          (or_one other.scale_denominator) pb pd exact ca cb,
    )

pub or_one_same : (n : ℕ) → 0 < n → or_one n ≡ n
or_one_same n h = if_false (n == 0) 1 n (not_zero n h)
  where
    not_zero : (n : ℕ) → 0 < n → (n == 0) ≡ false
    not_zero n h = ground arith

reduce_ratio : (x y n m E F : ℕ) → 0 < m → x * m ≡ n * y → n * E ≡ m * F → x * E ≡ y * F
reduce_ratio x y n m E F h p q =
    mul_cancel m (x * E) (y * F) h
      (one x m E ∙ ap (λ z. z * E) p ∙ two n y E ∙ ap (λ z. y * z) q ∙ three y m F)
  where
    one : (x m E : ℕ) → m * (x * E) ≡ x * m * E
    one x m E = omega arith

    two : (n y E : ℕ) → n * y * E ≡ y * (n * E)
    two n y E = omega arith

    three : (y m F : ℕ) → y * (m * F) ≡ m * (y * F)
    three y m F = omega arith

abbrev pub IsProduct : QuantityDimension → QuantityDimension → QuantityDimension → Type 0
IsProduct d other r =
    (r.exponents ≡ add_exponents d.exponents other.exponents)
    × Reduced r.scale_numerator r.scale_denominator
    × (r.scale_numerator ≤ max_int)
    × (r.scale_denominator ≤ max_int)
    × (r.scale_numerator * (or_one d.scale_denominator * or_one other.scale_denominator)
        ≡ r.scale_denominator * (or_one d.scale_numerator * or_one other.scale_numerator))

scaled-IsProduct :
    (d other r : QuantityDimension) (o : Option (ℕ × ℕ))
    → ((p : ℕ × ℕ)
        → o ≡ some p
        → (0 < p.0)
          × (0 < p.1)
          × (p.0 ≤ max_int)
          × (p.1 ≤ max_int)
          × (p.0 * (or_one d.scale_denominator * or_one other.scale_denominator)
              ≡ p.1 * (or_one d.scale_numerator * or_one other.scale_numerator)))
    → scaled (add_exponents d.exponents other.exponents) o ≡ some r
    → IsProduct d other r
unfolding normalized
scaled-IsProduct d other r none h e = cc
scaled-IsProduct d other r (some (n, m)) h e =
    let (pn, pm, bn, bm, exact) = h (n, m) refl in
    let raw : QuantityDimension = record {
      exponents = add_exponents d.exponents other.exponents;
      scale_numerator = n;
      scale_denominator = m;
    } in
    let (reduced, ratio) = normalized-Reduced raw in
    let plain : (normalized raw).scale_numerator * m ≡ n * (normalized raw).scale_denominator =
      ap (λ z. (normalized raw).scale_numerator * z) (sym (or_one_same m pm))
      ∙ ratio
      ∙ ap (λ z. z * (normalized raw).scale_denominator) (or_one_same n pn) in
    subst (IsProduct d other) (some_inj e) (
      refl,
      reduced,
      le_trans (div-le_self (or_one n) (quantity_gcd (or_one n) (or_one m)))
          (subst (λ z. z ≤ max_int) (sym (or_one_same n pn)) bn),
      le_trans (div-le_self (or_one m) (quantity_gcd (or_one n) (or_one m)))
          (subst (λ z. z ≤ max_int) (sym (or_one_same m pm)) bm),
      reduce_ratio (normalized raw).scale_numerator (normalized raw).scale_denominator n m
          (or_one d.scale_denominator * or_one other.scale_denominator)
          (or_one d.scale_numerator * or_one other.scale_numerator) pm plain exact,
    )
  where
    le_trans : {a b c : ℕ} → a ≤ b → b ≤ c → a ≤ c
    le_trans p q = omega arith

-- A product that `MultiplyChecked` returns has the sums of the exponents, each in 64 bits, and the
-- exact product of the scales in lowest terms, with both numbers positive and no larger than the
-- largest `int`; a number of a scale that is 0 counts as 1.
pub multiply_checked-IsProduct :
    (d other r : QuantityDimension) → multiply_checked d other ≡ some r → IsProduct d other r
unfolding multiply_checked
multiply_checked-IsProduct d other r e =
    scaled-IsProduct d other r (quantity_scale_multiply d other)
      (λ p h. quantity_scale_multiply-exact d other p h) e

over :
    (p q D N b c E M : ℕ)
    → 0 < b
    → p * (D * b) ≡ q * (N * c)
    → b * E ≡ M * c
    → p * (D * M) ≡ q * (N * E)
over p q D N b c E M h e f =
    mul_cancel b (p * (D * M)) (q * (N * E)) h
      (one p D M b ∙ ap (λ z. M * z) e ∙ two M q N c ∙ ap (λ z. q * N * z) (sym f) ∙ three q N b E)
  where
    one : (p D M b : ℕ) → b * (p * (D * M)) ≡ M * (p * (D * b))
    one p D M b = omega arith

    two : (M q N c : ℕ) → M * (q * (N * c)) ≡ q * N * (M * c)
    two M q N c = omega arith

    three : (q N b E : ℕ) → q * N * (b * E) ≡ b * (q * (N * E))
    three q N b E = omega arith

-- A quotient that `DivideChecked` returns has the exact quotient of the scales in lowest terms, with
-- both numbers positive and no larger than the largest `int`; a number of a scale that is 0 counts
-- as 1.
pub divide_checked-exact :
    (d other r : QuantityDimension)
    → divide_checked d other ≡ some r
    → Reduced r.scale_numerator r.scale_denominator
      × (r.scale_numerator ≤ max_int)
      × (r.scale_denominator ≤ max_int)
      × (r.scale_numerator * (or_one d.scale_denominator * or_one other.scale_numerator)
          ≡ r.scale_denominator * (or_one d.scale_numerator * or_one other.scale_denominator))
unfolding divide_checked
divide_checked-exact d other r e =
    let ((pn, pm, one), ratio) = normalized-Reduced other in
    let b = normalized other in
    let (exps, reduced, ln, lm, exact) = multiply_checked-IsProduct d (inverse b) r e in
    (
      reduced,
      ln,
      lm,
      over r.scale_numerator r.scale_denominator (or_one d.scale_denominator)
          (or_one d.scale_numerator) b.scale_numerator b.scale_denominator
          (or_one other.scale_denominator) (or_one other.scale_numerator) pn
          (ap (λ z. r.scale_numerator * (or_one d.scale_denominator * z))
              (sym (or_one_same b.scale_numerator pn))
            ∙ exact
            ∙ ap (λ z. r.scale_denominator * (or_one d.scale_numerator * z))
                (or_one_same b.scale_denominator pm))
          ratio,
    )
