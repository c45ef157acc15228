-- ===== src/Numeric/Integers/Range.antt =====
-- Values and the ranges of integer types: literals.
use concept.Numeric.Integers.{
  IntegerRange, signed64, IntLiteral, limit_of, signed_range, negated, signed64_of,
}
use concept.Base.{
  Bool, ℕ, ℤ, ◌≡◌, pos, ◌≤◌, negsuc, some, suc, arith, ltb, ◌⊎◌, false, none, zero, true, ◌<◌, inl,
  inr, Bool-cases, ltb→lt, refl, ◌==◌, ap, ==_iff,
}

-- The value of an integer type with this range.
abbrev pub InRange : IntegerRange → ℤ → Type 0
InRange r (pos n) = n ≤ r.max_magnitude
InRange r (negsuc n) = suc n ≤ r.min_magnitude

abbrev pub value_of : Bool → ℕ → ℤ
value_of true n = negated n
value_of false n = pos n

abbrev pub literal_value : IntLiteral → ℤ
literal_value l = value_of l.negative l.magnitude

pub limited-InRange :
    (r : IntegerRange) (b : Bool) (n : ℕ) → n ≤ limit_of r b → InRange r (value_of b n)
limited-InRange r true zero h = omega arith
limited-InRange r true (suc n) h = h
limited-InRange r false n h = h

abbrev pub int64_range : IntegerRange
int64_range = signed_range 9223372036854775807 64

low_lem :
    (n : ℕ)
    → (signed64_of true (suc n) ≡ some (negsuc n) × (suc n ≤ 9223372036854775808))
      ⊎ (signed64_of true (suc n) ≡ none × (9223372036854775808 < suc n))
unfolding signed64_of
low_lem n = elim (Bool-cases (ltb 9223372036854775808 (suc n))) [
  | inl a ↦ inr (rw a refl, ltb→lt _ _ a)
  | inr a ↦ elim (Bool-cases (suc n == 9223372036854775808)) [
    | inl e ↦ inl (
      rw (a, e)
          (ap (λ x. some (negsuc x)) (omega (arith, (==_iff (suc n) 9223372036854775808).0 e))),
      at_most _ _ a,
    )
    | inr e ↦ inl (rw (a, e) refl, at_most _ _ a)
  ]
]
  where
    at_most : (a b : ℕ) → ltb a b ≡ false → b ≤ a
    at_most a b h = ground arith

high_lem :
    (n : ℕ)
    → (signed64_of false n ≡ some (pos n) × (n ≤ 9223372036854775807))
      ⊎ (signed64_of false n ≡ none × (9223372036854775807 < n))
unfolding signed64_of
high_lem n = elim (Bool-cases (ltb 9223372036854775807 n)) [
  | inl a ↦ inr (rw a refl, ltb→lt _ _ a)
  | inr a ↦ inl (rw a refl, at_most _ _ a)
]
  where
    at_most : (a b : ℕ) → ltb a b ≡ false → b ≤ a
    at_most a b h = ground arith

signed64_cases :
    (b : Bool) (n : ℕ)
    → (signed64_of b n ≡ some (value_of b n) × InRange int64_range (value_of b n))
      ⊎ (signed64_of b n ≡ none × ¬ InRange int64_range (value_of b n))
unfolding signed64_of
signed64_cases true zero = inl (refl, omega arith)
signed64_cases true (suc n) = elim (low_lem n) [
  | inl p ↦ inl p
  | inr p ↦ inr (p.0, λ q. omega (arith, p.1, q))
]
signed64_cases false n = elim (high_lem n) [
  | inl p ↦ inl p
  | inr p ↦ inr (p.0, λ q. omega (arith, p.1, q))
]

-- `signed64` returns the value of a literal where it is a signed 64-bit integer, and nothing where
-- it is not.
pub signed64_lem :
    (l : IntLiteral)
    → (signed64 l ≡ some (literal_value l) × InRange int64_range (literal_value l))
      ⊎ (signed64 l ≡ none × ¬ InRange int64_range (literal_value l))
unfolding signed64
signed64_lem l = signed64_cases l.negative l.magnitude
