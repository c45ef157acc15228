-- ===== src/Numeric/Quantity/Normal.antt =====
-- `normalized` gives the one reduced fraction of a scale, so `Equal` decides equality of units.
use concept.Base.{
  [], ◌∷◌, true, ◌≡◌, ℕ, List, ◌↔◌, ℤ, ◌<◌, ◌*◌, refl, arith, Bool, sym, suc, ap, ◌∙◌, ◌&&◌, ◌/◌,
  zero, &&-true, ◌==◌, ==_iff, ◌==ℤ◌, ==ℤ_iff,
}
use concept.Numeric.Quantity.{
  quantity_gcd, or_one, normalized, equal, same_exponents, QuantityDimension,
}
use concept.Numeric.Quantity.Gcd.{quantity_gcd-greatest, quantity_gcd-scale}
use native.Mathlib.Nat.{mul-div_cancel_left, mul-div_cancel', mul_comm}

pub mul_cancel : (k a b : ℕ) → 0 < k → k * a ≡ k * b → a ≡ b
mul_cancel k a b h e = sym (mul-div_cancel_left a h) ∙ ap (λ x. x / k) e ∙ mul-div_cancel_left b h

pub factor_positive : (k a n : ℕ) → k * a ≡ n → 0 < n → 0 < a
factor_positive k zero n e h = absurd (omega arith)
factor_positive k (suc a) n e h = omega arith

pub or_one_positive : (n : ℕ) → 0 < or_one n
or_one_positive n = ground arith

abbrev pub Reduced : ℕ → ℕ → Type 0
Reduced n m = (0 < n) × (0 < m) × (quantity_gcd n m ≡ 1)

-- Both numbers divided by their greatest common divisor.
pub quotients-Reduced :
    (n m : ℕ)
    → 0 < n
    → 0 < m
    → Reduced (n / quantity_gcd n m) (m / quantity_gcd n m)
      × (quantity_gcd n m * (n / quantity_gcd n m) ≡ n)
      × (quantity_gcd n m * (m / quantity_gcd n m) ≡ m)
quotients-Reduced n m hn hm =
    let g = quantity_gcd n m in
    let (pg, gn, gm, most) = quantity_gcd-greatest n m hm in
    let en : g * (n / g) ≡ n = mul-div_cancel' g gn in
    let em : g * (m / g) ≡ m = mul-div_cancel' g gm in
    let pn = factor_positive g (n / g) n en hn in
    let pm = factor_positive g (m / g) m em hm in
    let again : quantity_gcd n m ≡ g * quantity_gcd (n / g) (m / g) =
      ap (λ x. quantity_gcd x m) (sym en)
      ∙ ap (quantity_gcd (g * (n / g))) (sym em)
      ∙ quantity_gcd-scale g (n / g) (m / g) pg pm in
    ((pn, pm, mul_cancel g (quantity_gcd (n / g) (m / g)) 1 pg (sym again ∙ times_one g)), en, em)
  where
    times_one : (g : ℕ) → g ≡ g * 1
    times_one g = omega arith

-- Two reduced fractions that are equal are the same.
pub Reduced-unique : (a b c d : ℕ) → Reduced a b → Reduced c d → a * d ≡ c * b → (a ≡ c) × (b ≡ d)
Reduced-unique a b c d (pa, pb, gab) (pc, pd, gcd) e =
    let left : quantity_gcd (a * c) (a * d) ≡ a * 1 =
      quantity_gcd-scale a c d pa pd ∙ ap (λ x. a * x) gcd in
    let right : quantity_gcd (c * a) (c * b) ≡ c * 1 =
      quantity_gcd-scale c a b pc pb ∙ ap (λ x. c * x) gab in
    let same : quantity_gcd (a * c) (a * d) ≡ quantity_gcd (c * a) (c * b) =
      ap (λ x. quantity_gcd x (a * d)) (mul_comm a c) ∙ ap (quantity_gcd (c * a)) e in
    let ac : a ≡ c = strip (sym left ∙ same ∙ right) in
    (ac, mul_cancel c b d pc (sym e ∙ ap (λ x. x * d) ac))
  where
    strip : {x y : ℕ} → x * 1 ≡ y * 1 → x ≡ y
    strip p = omega arith

-- The scale of a normalized quantity is a reduced fraction of positive numbers, and it is the same
-- ratio as the scale of the quantity, where a number that is 0 counts as 1.
pub normalized-Reduced :
    (d : QuantityDimension)
    → Reduced (normalized d).scale_numerator (normalized d).scale_denominator
      × ((normalized d).scale_numerator * or_one d.scale_denominator
          ≡ or_one d.scale_numerator * (normalized d).scale_denominator)
unfolding normalized
normalized-Reduced d =
    let n = or_one d.scale_numerator in
    let m = or_one d.scale_denominator in
    let (r, en, em) =
      quotients-Reduced n m (or_one_positive d.scale_numerator)
        (or_one_positive d.scale_denominator) in
    (r, cross (quantity_gcd n m) (n / quantity_gcd n m) (m / quantity_gcd n m) n m en em)
  where
    cross : (g x y n m : ℕ) → g * x ≡ n → g * y ≡ m → x * m ≡ n * y
    cross g x y n m en em = ap (λ z. x * z) (sym em) ∙ swap g x y ∙ ap (λ z. z * y) en
      where
        swap : (g x y : ℕ) → x * (g * y) ≡ g * x * y
        swap g x y = omega arith

same_exponents_iff : (xs ys : List ℤ) → (same_exponents xs ys ≡ true) ↔ (xs ≡ ys)
same_exponents_iff [] [] = (λ h. refl, λ h. refl)
same_exponents_iff [] (y ∷ ys) = (λ h. cc, λ h. cc)
same_exponents_iff (x ∷ xs) [] = (λ h. cc, λ h. cc)
same_exponents_iff (x ∷ xs) (y ∷ ys) = (
  λ h.
      let (p, q) = &&-true (x ==ℤ y) (same_exponents xs ys) h in
      ap (λ z. z ∷ xs) ((==ℤ_iff x y).0 p) ∙ ap (λ z. y ∷ z) ((same_exponents_iff xs ys).0 q),
  λ e. conj ((==ℤ_iff x y).1 cc) ((same_exponents_iff xs ys).1 cc),
)
  where
    conj : {a b : Bool} → a ≡ true → b ≡ true → (a && b) ≡ true
    conj p q = ground arith

cross_trans :
    (a b c d x y z w : ℕ)
    → 0 < b
    → 0 < d
    → a * y ≡ x * b
    → c * w ≡ z * d
    → a ≡ c
    → b ≡ d
    → x * w ≡ z * y
cross_trans a b c d x y z w pb pd p q ac bd =
    mul_cancel b (x * w) (z * y) pb (left ∙ ap (λ v. v * y * w) ac ∙ right)
  where
    left : b * (x * w) ≡ a * y * w
    left = omega (arith, ap (λ v. v * w) p)

    right : c * y * w ≡ b * (z * y)
    right = omega (arith, ap (λ v. v * y) (q ∙ ap (λ v. z * v) (sym bd)))

cross_back :
    (a b c d x y z w : ℕ)
    → 0 < x
    → 0 < w
    → a * y ≡ x * b
    → c * w ≡ z * d
    → x * w ≡ z * y
    → a * d ≡ c * b
cross_back a b c d x y z w px pw p q e =
    mul_cancel x (a * d) (c * b) px (mul_cancel w (x * (a * d)) (x * (c * b)) pw (left ∙ right))
  where
    left : w * (x * (a * d)) ≡ a * y * (z * d)
    left = omega (arith, ap (λ v. v * (a * d)) e)

    right : a * y * (z * d) ≡ w * (x * (c * b))
    right = omega (arith, ap (λ v. v * (z * d)) p, ap (λ v. x * b * v) q)

kept : (q : QuantityDimension) → (normalized q).exponents ≡ q.exponents
unfolding normalized
kept q = refl

-- `Equal` holds exactly of two quantities with the same exponents and scales of the same ratio,
-- where a number that is 0 counts as 1.
pub equal_iff :
    (d e : QuantityDimension)
    → (equal d e ≡ true) ↔ (
        (d.exponents ≡ e.exponents)
        × (or_one d.scale_numerator * or_one e.scale_denominator
            ≡ or_one e.scale_numerator * or_one d.scale_denominator))
unfolding equal
equal_iff d e =
    let ((pa, pb, ra), ca) = normalized-Reduced d in
    let ((pc, pd, rc), ce) = normalized-Reduced e in
    let a = (normalized d).scale_numerator in
    let b = (normalized d).scale_denominator in
    let c = (normalized e).scale_numerator in
    let f = (normalized e).scale_denominator in
    (
      λ h.
          let (x, s) =
            &&-true (same_exponents (normalized d).exponents (normalized e).exponents) _ h in
          let (n, m) = &&-true (a == c) (b == f) s in
          (
            sym (kept d)
                ∙ (same_exponents_iff (normalized d).exponents (normalized e).exponents).0 x
                ∙ kept e,
            cross_trans a b c f (or_one d.scale_numerator) (or_one d.scale_denominator)
                (or_one e.scale_numerator) (or_one e.scale_denominator) pb pd ca ce
                ((==_iff a c).0 n) ((==_iff b f).0 m),
          ),
      λ h.
          let (n, m) =
            Reduced-unique a b c f (pa, pb, ra) (pc, pd, rc)
              (cross_back a b c f (or_one d.scale_numerator) (or_one d.scale_denominator)
                (or_one e.scale_numerator) (or_one e.scale_denominator)
                (or_one_positive d.scale_numerator) (or_one_positive e.scale_denominator) ca ce
                h.1) in
          conj
            ((same_exponents_iff (normalized d).exponents (normalized e).exponents).1
              (kept d ∙ h.0 ∙ sym (kept e)))
            (conj ((==_iff a c).1 n) ((==_iff b f).1 m)),
    )
  where
    conj : {a b : Bool} → a ≡ true → b ≡ true → (a && b) ≡ true
    conj p q = ground arith
