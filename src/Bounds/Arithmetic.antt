-- ===== src/Bounds/Arithmetic.antt =====
-- Interval arithmetic contains the exact result.
use native.Mathlib.Nat.{mul-le-mul_right, add-mul, mul_comm}
use concept.Bounds.Domain.{
  LocalInterval, BinaryOp, product_hull, interval_of, min_ℤ, max_ℤ, plus, minus, times, less,
  at_most, greater, at_least, equal_to, unequal, and_op, or_op, other_op,
}
use concept.Base.{
  ℕ, ℤ, ◌*ℤ◌, ◌≡◌, pos_part, ◌+◌, ◌≤ℤ◌, ◌⊎◌, pos, ◌*◌, ◌≤◌, negsuc, arith, inl, neg_part, suc, inr,
  sub_ℕ, eq_of_parts, ◌+ℤ◌, ◌-ℤ◌, -ℤ_parts, some, Option, +ℤ_parts, subst, none, some_inj, refl,
}

*ℤ_parts :
    (a b : ℤ)
    → pos_part (a *ℤ b) + (pos_part a * neg_part b + neg_part a * pos_part b)
      ≡ neg_part (a *ℤ b) + (pos_part a * pos_part b + neg_part a * neg_part b)
unfolding ◌*ℤ◌
*ℤ_parts a b =
    parts_of (pos_part a * pos_part b + neg_part a * neg_part b)
      (pos_part a * neg_part b + neg_part a * pos_part b)
  where
    parts_of : (x y : ℕ) → pos_part (sub_ℕ x y) + y ≡ neg_part (sub_ℕ x y) + x
    parts_of x y = ground arith

scaled_le : (p q r s n : ℕ) → p + q ≤ r + s → p * n + q * n ≤ r * n + s * n
scaled_le p q r s n h = rw (← add-mul p q n, ← add-mul r s n) (mul-le-mul_right n h)

*ℤ-mono_pos : (a b : ℤ) (n : ℕ) → a ≤ℤ b → a *ℤ pos n ≤ℤ b *ℤ pos n
*ℤ-mono_pos a b n h = omega (
  arith,
  *ℤ_parts a (pos n),
  *ℤ_parts b (pos n),
  scaled_le (pos_part a) (neg_part b) (pos_part b) (neg_part a) n h,
)

*ℤ-mono_neg : (a b : ℤ) (n : ℕ) → a ≤ℤ b → b *ℤ negsuc n ≤ℤ a *ℤ negsuc n
*ℤ-mono_neg a b n h = omega (
  arith,
  *ℤ_parts a (negsuc n),
  *ℤ_parts b (negsuc n),
  scaled_le (pos_part a) (neg_part b) (pos_part b) (neg_part a) (suc n) h,
)

-- A product by `b` lies between the products of the endpoints by `b`.
abbrev Between : ℤ → ℤ → ℤ → Type 0
Between x y z = ((x ≤ℤ y) × (y ≤ℤ z)) ⊎ ((z ≤ℤ y) × (y ≤ℤ x))

*ℤ-Between : (lo a hi b : ℤ) → lo ≤ℤ a → a ≤ℤ hi → Between (lo *ℤ b) (a *ℤ b) (hi *ℤ b)
*ℤ-Between lo a hi (pos n) h k = inl (*ℤ-mono_pos lo a n h, *ℤ-mono_pos a hi n k)
*ℤ-Between lo a hi (negsuc n) h k = inr (*ℤ-mono_neg a hi n k, *ℤ-mono_neg lo a n h)

*ℤ_comm : (a b : ℤ) → a *ℤ b ≡ b *ℤ a
*ℤ_comm a b = eq_of_parts (a *ℤ b) (b *ℤ a) (
    omega (
      arith,
      *ℤ_parts a b,
      *ℤ_parts b a,
      mul_comm (pos_part a) (pos_part b),
      mul_comm (neg_part a) (neg_part b),
      mul_comm (pos_part a) (neg_part b),
      mul_comm (neg_part a) (pos_part b),
    ))

*ℤ-Between_right : (a lo b hi : ℤ) → lo ≤ℤ b → b ≤ℤ hi → Between (a *ℤ lo) (a *ℤ b) (a *ℤ hi)
*ℤ-Between_right a lo b hi h k =
    rw (*ℤ_comm a lo, *ℤ_comm a b, *ℤ_comm a hi) (*ℤ-Between lo b hi a h k)

-- The least and the largest of the four products bound what lies between pairs of them.
hull_bounds :
    (a b c d p q x : ℤ)
    → Between a p b
    → Between c q d
    → Between p x q
    → (min_ℤ (min_ℤ (min_ℤ a b) c) d ≤ℤ x) × (x ≤ℤ max_ℤ (max_ℤ (max_ℤ a b) c) d)
hull_bounds a b c d p q x (inl h) (inl k) (inl m) = ground arith
hull_bounds a b c d p q x (inl h) (inl k) (inr m) = ground arith
hull_bounds a b c d p q x (inl h) (inr k) (inl m) = ground arith
hull_bounds a b c d p q x (inl h) (inr k) (inr m) = ground arith
hull_bounds a b c d p q x (inr h) (inl k) (inl m) = ground arith
hull_bounds a b c d p q x (inr h) (inl k) (inr m) = ground arith
hull_bounds a b c d p q x (inr h) (inr k) (inl m) = ground arith
hull_bounds a b c d p q x (inr h) (inr k) (inr m) = ground arith

-- The interval holds a number.
abbrev pub In : LocalInterval → ℤ → Type 0
In i n = (i.lo ≤ℤ n) × (n ≤ℤ i.hi)

product_hull-In : (l r : LocalInterval) (a b : ℤ) → In l a → In r b → In (product_hull l r) (a *ℤ b)
product_hull-In l r a b (la, ah) (lb, bh) =
    hull_bounds (l.lo *ℤ r.lo) (l.lo *ℤ r.hi) (l.hi *ℤ r.lo) (l.hi *ℤ r.hi) (l.lo *ℤ b) (l.hi *ℤ b)
      (a *ℤ b) (*ℤ-Between_right l.lo r.lo b r.hi lb bh) (*ℤ-Between_right l.hi r.lo b r.hi lb bh)
      (*ℤ-Between l.lo a l.hi b la ah)

sum_bounds : (a b c d : ℤ) → a ≤ℤ b → c ≤ℤ d → a +ℤ c ≤ℤ b +ℤ d
sum_bounds a b c d h k = omega (arith, +ℤ_parts a c, +ℤ_parts b d)

difference_bounds : (a b c d : ℤ) → a ≤ℤ b → d ≤ℤ c → a -ℤ c ≤ℤ b -ℤ d
difference_bounds a b c d h k = omega (arith, -ℤ_parts a c, -ℤ_parts b d)

-- The exact result of an arithmetic operator.
unfoldable pub exact_result : BinaryOp → ℤ → ℤ → Option ℤ
exact_result plus a b = some (a +ℤ b)
exact_result minus a b = some (a -ℤ b)
exact_result times a b = some (a *ℤ b)
exact_result less a b = none
exact_result at_most a b = none
exact_result greater a b = none
exact_result at_least a b = none
exact_result equal_to a b = none
exact_result unequal a b = none
exact_result and_op a b = none
exact_result or_op a b = none
exact_result other_op a b = none

-- Where the operator has an interval it is arithmetic, and the interval holds the exact result.
pub interval_of-In :
    (op : BinaryOp) (l r i : LocalInterval) (a b : ℤ)
    → In l a
    → In r b
    → interval_of op l r ≡ some i
    → (n : ℤ) × (exact_result op a b ≡ some n) × In i n
unfolding interval_of exact_result
interval_of-In plus l r i a b h k e = (
  a +ℤ b,
  refl,
  subst (λ x. In x (a +ℤ b)) (some_inj e)
      (sum_bounds l.lo a r.lo b h.0 k.0, sum_bounds a l.hi b r.hi h.1 k.1),
)
interval_of-In minus l r i a b h k e = (
  a -ℤ b,
  refl,
  subst (λ x. In x (a -ℤ b)) (some_inj e)
      (difference_bounds l.lo a r.hi b h.0 k.1, difference_bounds a l.hi b r.lo h.1 k.0),
)
interval_of-In times l r i a b h k e =
    (a *ℤ b, refl, subst (λ x. In x (a *ℤ b)) (some_inj e) (product_hull-In l r a b h k))
interval_of-In less l r i a b h k e = cc
interval_of-In at_most l r i a b h k e = cc
interval_of-In greater l r i a b h k e = cc
interval_of-In at_least l r i a b h k e = cc
interval_of-In equal_to l r i a b h k e = cc
interval_of-In unequal l r i a b h k e = cc
interval_of-In and_op l r i a b h k e = cc
interval_of-In or_op l r i a b h k e = cc
interval_of-In other_op l r i a b h k e = cc
