-- ===== src/Numeric/Quantity/Gcd.antt =====
-- `quantityGCD`: its loop ends, and its result is the greatest common divisor.
use concept.Base.{
  none, some, false, true, ℕ, ◌≡◌, ◌⊎◌, if_true, ◌≤◌, ◌==◌, ◌<◌, suc, arith, Option, Bool-cases,
  if_false, ap, ◌∙◌, inl, subst, sym, inr, ◌%◌, ◌*◌, some_inj, zero, ◌/◌, ◌-◌,
}
use concept.Numeric.Quantity.{gcd_loop, quantity_gcd, or_one}
use native.Mathlib.Nat.{
  dvd-mod_iff, dvd-zero, dvd_refl, pos_of_dvd_of_pos, mod-lt, mul-div-mul_left, mul-sub,
  mod-eq-sub-mul-div, mul-pos,
}
use Prim.Native.Nat.{◌∣◌}

is_zero : (b : ℕ) → (b ≡ 0) ⊎ (0 < b)
is_zero b = elim (Bool-cases (b == 0)) [ inl e ↦ inl (ground arith) | inr e ↦ inr (ground arith) ]

zero_test : (b : ℕ) → b ≡ 0 → (b == 0) ≡ true
zero_test b h = ground arith

positive_test : (b : ℕ) → 0 < b → (b == 0) ≡ false
positive_test b h = ground arith

gcd_loop-zero : (n a b : ℕ) → b ≡ 0 → gcd_loop n a b ≡ some a
unfolding gcd_loop
gcd_loop-zero zero a b h = if_true (b == 0) (some a) none (zero_test b h)
gcd_loop-zero (suc n) a b h = if_true (b == 0) (some a) (gcd_loop n b (a % b)) (zero_test b h)

gcd_loop-suc : (n a b : ℕ) → 0 < b → gcd_loop (suc n) a b ≡ gcd_loop n b (a % b)
unfolding gcd_loop
gcd_loop-suc n a b h = if_false (b == 0) (some a) (gcd_loop n b (a % b)) (positive_test b h)

-- With the second number as its fuel the loop ends, at a common divisor that every common divisor
-- divides.
pub gcd_loop_ends :
    (fuel a b : ℕ)
    → b ≤ fuel
    → (g : ℕ) × (gcd_loop fuel a b ≡ some g) × (g ∣ a) × (g ∣ b) × ((e : ℕ) → e ∣ a → e ∣ b → e ∣ g)
gcd_loop_ends zero a b h =
    let z : b ≡ 0 = omega arith in
    (a, gcd_loop-zero zero a b z, dvd_refl a, subst (λ x. a ∣ x) (sym z) (dvd-zero a), λ e p q. p)
gcd_loop_ends (suc n) a b h = elim (is_zero b) [
  | inl z ↦ (
    a,
    gcd_loop-zero (suc n) a b z,
    dvd_refl a,
    subst (λ x. a ∣ x) (sym z) (dvd-zero a),
    λ e p q. p,
  )
  | inr z ↦
      let less : a % b < b = mod-lt a z in
      let (g, run, gb, gm, most) = gcd_loop_ends n b (a % b) (omega arith) in
      (
        g,
        gcd_loop-suc n a b z ∙ run,
        (dvd-mod_iff g gb).0 gm,
        gb,
        λ e p q. most e q ((dvd-mod_iff e q).1 p),
      )
]

-- The loop's result does not depend on the fuel.
gcd_loop-fuel : (n m a b g : ℕ) → n ≤ m → gcd_loop n a b ≡ some g → gcd_loop m a b ≡ some g
unfolding gcd_loop
gcd_loop-fuel zero m a b g h e = elim (is_zero b) [
  | inl z ↦ gcd_loop-zero m a b z ∙ sym (gcd_loop-zero zero a b z) ∙ e
  | inr z ↦ absurd (stuck (sym (if_false (b == 0) (some a) none (positive_test b z)) ∙ e))
]
  where
    stuck : ◌≡◌ {A = Option ℕ} none (some g) → ⊥
    stuck p = cc
gcd_loop-fuel (suc n) zero a b g h e = absurd (omega arith)
gcd_loop-fuel (suc n) (suc m) a b g h e = elim (is_zero b) [
  | inl z ↦ gcd_loop-zero (suc m) a b z ∙ sym (gcd_loop-zero (suc n) a b z) ∙ e
  | inr z ↦
      gcd_loop-suc m a b z
      ∙ gcd_loop-fuel n m b (a % b) g (omega arith) (sym (gcd_loop-suc n a b z) ∙ e)
]

mod-scale : (k a b : ℕ) → 0 < k → (k * a) % (k * b) ≡ k * (a % b)
mod-scale k a b h =
    mod-eq-sub-mul-div (k * a) (k * b)
    ∙ ap (λ z. k * a - k * b * z) (mul-div-mul_left a b h)
    ∙ ap (λ z. k * a - z) regroup
    ∙ sym (mul-sub k a (b * (a / b)))
    ∙ ap (λ z. k * z) (sym (mod-eq-sub-mul-div a b))
  where
    regroup : k * b * (a / b) ≡ k * (b * (a / b))
    regroup = omega arith

gcd_loop-scale :
    (n k a b g : ℕ) → 0 < k → gcd_loop n a b ≡ some g → gcd_loop n (k * a) (k * b) ≡ some (k * g)
unfolding gcd_loop
gcd_loop-scale zero k a b g h e = elim (is_zero b) [
  | inl z ↦
      gcd_loop-zero zero (k * a) (k * b) (ap (λ x. k * x) z ∙ times_zero)
      ∙ ap (λ x. some (k * x)) (some_inj (sym (gcd_loop-zero zero a b z) ∙ e))
  | inr z ↦ absurd (stuck (sym (if_false (b == 0) (some a) none (positive_test b z)) ∙ e))
]
  where
    stuck : ◌≡◌ {A = Option ℕ} none (some g) → ⊥
    stuck p = cc

    times_zero : k * 0 ≡ 0
    times_zero = omega arith
gcd_loop-scale (suc n) k a b g h e = elim (is_zero b) [
  | inl z ↦
      gcd_loop-zero (suc n) (k * a) (k * b) (ap (λ x. k * x) z ∙ times_zero)
      ∙ ap (λ x. some (k * x)) (some_inj (sym (gcd_loop-zero (suc n) a b z) ∙ e))
  | inr z ↦
      gcd_loop-suc n (k * a) (k * b) (mul-pos h z)
      ∙ ap (gcd_loop n (k * b)) (mod-scale k a b h)
      ∙ gcd_loop-scale n k b (a % b) g h (sym (gcd_loop-suc n a b z) ∙ e)
]
  where
    times_zero : k * 0 ≡ 0
    times_zero = omega arith

or_one-positive : (g : ℕ) → 0 < g → or_one g ≡ g
or_one-positive g h = if_false (g == 0) 1 g (positive_test g h)

quantity_gcd-loop : (a b g : ℕ) → gcd_loop b a b ≡ some g → 0 < g → quantity_gcd a b ≡ g
unfolding quantity_gcd
quantity_gcd-loop a b g e h =
    ap (λ o. elim o [ none ↦ 1 | some x ↦ or_one x ]) e ∙ or_one-positive g h

-- Of a number and a positive one, `quantity_gcd` is the positive common divisor that every common
-- divisor divides.
pub quantity_gcd-greatest :
    (a b : ℕ)
    → 0 < b
    → (0 < quantity_gcd a b)
      × (quantity_gcd a b ∣ a)
      × (quantity_gcd a b ∣ b)
      × ((e : ℕ) → e ∣ a → e ∣ b → e ∣ quantity_gcd a b)
quantity_gcd-greatest a b h =
    let (g, run, ga, gb, most) = gcd_loop_ends b a b (omega arith) in
    let p : 0 < g = pos_of_dvd_of_pos gb h in
    let same = sym (quantity_gcd-loop a b g run p) in
    subst (λ z. (0 < z) × (z ∣ a) × (z ∣ b) × ((e : ℕ) → e ∣ a → e ∣ b → e ∣ z)) same
      (p, ga, gb, most)

pub quantity_gcd-scale :
    (k a b : ℕ) → 0 < k → 0 < b → quantity_gcd (k * a) (k * b) ≡ k * quantity_gcd a b
quantity_gcd-scale k a b h p =
    let (g, run, ga, gb, most) = gcd_loop_ends b a b (omega arith) in
    let positive : 0 < g = pos_of_dvd_of_pos gb p in
    let (g', run', x, y, z) = gcd_loop_ends (k * b) (k * a) (k * b) (omega arith) in
    let scaled_run = gcd_loop-scale b k a b g h run in
    let longer = gcd_loop-fuel b (k * b) (k * a) (k * b) (k * g) (grows k b h) scaled_run in
    quantity_gcd-loop (k * a) (k * b) (k * g) longer (mul-pos h positive)
    ∙ ap (λ x. k * x) (sym (quantity_gcd-loop a b g run positive))
  where
    grows : (c d : ℕ) → 0 < c → d ≤ c * d
    grows (suc c) d h = omega arith
    grows zero d h = absurd (omega arith)

-- With the second number as its fuel, or more, the loop of `quantityGCD` ends, at a common divisor.
pub gcd_loop_total :
    (fuel a b : ℕ) → b ≤ fuel → (g : ℕ) × (gcd_loop fuel a b ≡ some g) × (g ∣ a) × (g ∣ b)
gcd_loop_total fuel a b h =
    let (g, run, ga, gb, most) = gcd_loop_ends fuel a b h in (g, run, ga, gb)

-- Of a number and a positive one, the result of `quantityGCD` is a positive common divisor, which
-- any common divisor divides.
pub quantity_gcd_greatest :
    (a b e : ℕ)
    → 0 < b
    → e ∣ a
    → e ∣ b
    → (0 < quantity_gcd a b)
      × (quantity_gcd a b ∣ a)
      × (quantity_gcd a b ∣ b)
      × (e ∣ quantity_gcd a b)
quantity_gcd_greatest a b e h p q =
    let (positive, ga, gb, most) = quantity_gcd-greatest a b h in (positive, ga, gb, most e p q)
