-- ===== src/Numeric/Integers/Exact.antt =====
-- What a proven exact conversion guarantees for the values of an integer type.
use native.Mathlib.Nat.{pow-le-pow_right}
use concept.Numeric.Integers.{
  IntegerRange, exact_conversion_fact, fits_format, integer_type_range, exact_between,
  contains_range, FloatRepresentationInfo, needed_bits, unsigned_range, signed_range, proven,
  NumericType, numeric_equal, proven_if, same_format, float_representation_info, disproven,
  numeric_representation, same_quantity,
}
use concept.Base.{
  ℤ, Bool, ℕ, Option, suc, String, ◌≤◌, ◌≡◌, pos, some, ◌^◌, none, negsuc, arith, false, refl, ◌-◌,
  if◌then◌else◌, ◌+◌, subst, true, &&-true, some_inj, not, leb→le, ◌==◌, ◌||◌, leb, str_eq, eq_iff,
  Bool-cases, inl, inr,
}
use concept.Numeric.Integers.Range.{InRange}

abbrev pub magnitude_of : ℤ → ℕ
magnitude_of (pos n) = n
magnitude_of (negsuc n) = suc n

-- A value that a numeric type holds exactly: an integer type has it in its range; a floating format
-- has the bits for its magnitude, and binary16 ends below 2^16.
pub Exact : Option FloatRepresentationInfo → Option IntegerRange → ℤ → Type 0
Exact (some g) r v =
    (magnitude_of v ≤ 2 ^ (g.mantissa_bits + 1)) × (g.bits ≡ 16 → magnitude_of v ≤ 2 ^ 15)
Exact none none v = ⊥
Exact none (some r) v = InRange r v

-- The width of an integer type bounds the magnitude of its values.
record Bounded (s : IntegerRange) : Type 0 where
  max_le : s.max_magnitude ≤ 2 ^ needed_bits s
  min_le : s.min_magnitude ≤ 2 ^ needed_bits s
  unsigned_min : s.signed ≡ false → s.min_magnitude ≡ 0

range_case :
    (b : Bool) (r s : IntegerRange) (rest : Option IntegerRange)
    → Bounded r
    → (rest ≡ some s → Bounded s)
    → (if b then some r else rest) ≡ some s
    → Bounded s
range_case true r s rest br next h = subst Bounded (some_inj h) br
range_case false r s rest br next h = next h

no_range : {s : IntegerRange} → ◌≡◌ {A = Option IntegerRange} none (some s) → Bounded s
no_range h = cc

unsigned_Bounded : (limit width : ℕ) → limit ≤ 2 ^ width → Bounded (unsigned_range limit width)
unsigned_Bounded limit width h = record {
  max_le = h;
  min_le = omega arith;
  unsigned_min = λ e. refl;
}

signed_Bounded :
    (limit width : ℕ) → suc limit ≤ 2 ^ (width - 1) → Bounded (signed_range limit width)
signed_Bounded limit width h = record {
  max_le = omega (arith, h);
  min_le = h;
  unsigned_min = λ e. cc;
}

integer_type_range-Bounded :
    (name : String) (s : IntegerRange) → integer_type_range name ≡ some s → Bounded s
unfolding integer_type_range
integer_type_range-Bounded name s =
    range_case (str_eq name "int") _ s _ (signed_Bounded 2147483647 32 (omega arith)) (
      range_case (str_eq name "uint") _ s _ (unsigned_Bounded 4294967295 32 (omega arith)) (
        range_case (str_eq name "uint8" || str_eq name "byte") _ s _
          (unsigned_Bounded 255 8 (omega arith))
          (range_case (str_eq name "uint16") _ s _ (unsigned_Bounded 65535 16 (omega arith)) (
            range_case (str_eq name "uint32") _ s _ (unsigned_Bounded 4294967295 32 (omega arith)) (
              range_case (str_eq name "uint64" || str_eq name "usize") _ s _
                (unsigned_Bounded 18446744073709551615 64 (omega arith))
                (range_case (str_eq name "isize") _ s _
                  (signed_Bounded 9223372036854775807 64 (omega arith)) no_range))))))

magnitude_le :
    (s : IntegerRange) (v : ℤ) → Bounded s → InRange s v → magnitude_of v ≤ 2 ^ needed_bits s
magnitude_le s (pos n) b h = omega (arith, h, b.max_le)
magnitude_le s (negsuc n) b h = omega (arith, h, b.min_le)

fits_format-Exact :
    (g : FloatRepresentationInfo) (s : IntegerRange) (v : ℤ) (r : Option IntegerRange)
    → Bounded s
    → InRange s v
    → fits_format g s ≡ true
    → Exact (some g) r v
unfolding fits_format Exact
fits_format-Exact g s v r b i h =
    let (p, q) = &&-true _ _ h in
    let m = magnitude_le s v b i in
    (
      le_trans m (pow-le-pow_right (omega arith) (leb→le _ _ p)),
      λ e. le_trans m (pow-le-pow_right (omega arith) (half_bits g s e q)),
    )
  where
    half_bits :
        (g : FloatRepresentationInfo) (s : IntegerRange)
        → g.bits ≡ 16
        → (not (g.bits == 16) || leb (needed_bits s) 15) ≡ true
        → needed_bits s ≤ 15
    half_bits g s e q = leb→le _ _ (rw e at q)

    le_trans : {a b c : ℕ} → a ≤ b → b ≤ c → a ≤ c
    le_trans h k = omega arith

contains_range-InRange :
    (r s : IntegerRange) (v : ℤ) → Bounded s → InRange s v → contains_range r s ≡ true → InRange r v
unfolding contains_range
contains_range-InRange r s (pos n) b i h =
    let (_, q) = &&-true (not s.signed || r.signed) _ h in
    let (p, _) = &&-true (leb s.max_magnitude r.max_magnitude) _ q in
    omega (arith, i, leb→le s.max_magnitude r.max_magnitude p)
contains_range-InRange r s (negsuc n) b i h =
    let (_, q) = &&-true (not s.signed || r.signed) _ h in
    let (_, p) = &&-true (leb s.max_magnitude r.max_magnitude) _ q in
    below s.signed s.min_magnitude r.min_magnitude b.unsigned_min p i
  where
    below :
        (signed : Bool) {n : ℕ} (m k : ℕ)
        → (signed ≡ false → m ≡ 0)
        → (not signed || leb m k) ≡ true
        → suc n ≤ m
        → suc n ≤ k
    below true m k z p h = omega (arith, h, leb→le m k p)
    below false m k z p h = absurd (omega (arith, h, z refl))

proven_true : (b : Bool) → proven_if b ≡ proven → b ≡ true
proven_true true h = refl
proven_true false h = cc

exact_between-Exact :
    (g : Option FloatRepresentationInfo) (s : IntegerRange) (r : Option IntegerRange) (v : ℤ)
    → Bounded s
    → InRange s v
    → exact_between none g (some s) r ≡ proven
    → Exact g r v
unfolding exact_between Exact
exact_between-Exact (some g) s r v b i h = fits_format-Exact g s v r b i (proven_true _ h)
exact_between-Exact none s none v b i h = cc
exact_between-Exact none s (some r) v b i h = contains_range-InRange r s v b i (proven_true _ h)

no_format : (g : Option FloatRepresentationInfo) → same_format none g ≡ true → g ≡ none
no_format none h = refl
no_format (some g) h = cc

-- Equal types hold the same values.
numeric_equal-Exact :
    (s t : NumericType) (r : IntegerRange) (v : ℤ)
    → float_representation_info s ≡ none
    → integer_type_range s.name ≡ some r
    → InRange r v
    → numeric_equal s t ≡ true
    → Exact (float_representation_info t) (integer_type_range t.name) v
unfolding numeric_equal Exact
numeric_equal-Exact s t r v f e i h =
    let (p, q) =
      &&-true (same_format (float_representation_info s) (float_representation_info t)) _ h in
    let (n, _) = &&-true (str_eq s.name t.name) _ q in
    let name : s.name ≡ t.name = (eq_iff s.name t.name).0 n in
    rw (no_format _ (rw f at p), rw name at e) i

-- Where a conversion from an integer type is proven exact, the target holds every value of the type:
-- an integer type has it in its range, and a floating format has the bits for its magnitude, which
-- for a 16-bit format is at most 2^15.
pub exact_conversion_fact-Exact :
    (s t : NumericType) (r : IntegerRange) (v : ℤ)
    → float_representation_info s ≡ none
    → integer_type_range s.name ≡ some r
    → InRange r v
    → exact_conversion_fact s t ≡ proven
    → Exact (float_representation_info t) (integer_type_range t.name) v
unfolding exact_conversion_fact
exact_conversion_fact-Exact s t r v f e i h =
    elim (Bool-cases (not (numeric_representation s) || not (numeric_representation t))) [
      | inl a ↦ absurd (not_proven (rw a at h))
      | inr a ↦ elim (Bool-cases (not (same_quantity s.quantity t.quantity))) [
        | inl b ↦ absurd (not_proven (rw (a, b) at h))
        | inr b ↦ elim (Bool-cases (numeric_equal s t)) [
          | inl c ↦ numeric_equal-Exact s t r v f e i c
          | inr c ↦
              exact_between-Exact (float_representation_info t) r (integer_type_range t.name) v
                (integer_type_range-Bounded s.name r e) i (rw (a, b, c, f, e) at h)
        ]
      ]
    ]
  where
    not_proven : disproven ≡ proven → ⊥
    not_proven h = cc
