-- ===== src/Numeric/Integers/Literals.antt =====
-- The resolution of an integer literal to a type: integer_literals.go.
use native.Mathlib.Nat.{one-le-pow}
use concept.Numeric.Integers.{
  unsigned_range, IntegerRange, IntLiteral, resolve_integer_literal, limit_of, integer_type_range,
  signed_range,
}
use concept.Base.{
  Bool, ℕ, ℤ, ◌≡◌, pos, ◌≤◌, String, negsuc, ok, some, suc, arith, ltb, false, none, >>=-eq-ok,
  or_fail, >>-eq-ok, reject, ◌&&◌, zero, not, or_fail-eq-ok, reject-eq-ok, true, ◌<◌, inl, inr,
  Bool-cases, refl, ap, ◌^◌, ◌-◌, ◌↔◌, ◌||◌, subst, sym, ◌∙◌, eq_iff, str_eq, some_inj, Option,
  if◌then◌else◌,
}
use concept.Numeric.Integers.Range.{InRange, value_of, literal_value, limited-InRange}

-- The integer types, with whether they are signed and their widths.
pub data IsIntegerType : String → Bool → ℕ → Type 0 where
  is_int : IsIntegerType "int" true 32
  is_uint : IsIntegerType "uint" false 32
  is_uint8 : IsIntegerType "uint8" false 8
  is_byte : IsIntegerType "byte" false 8
  is_uint16 : IsIntegerType "uint16" false 16
  is_uint32 : IsIntegerType "uint32" false 32
  is_uint64 : IsIntegerType "uint64" false 64
  is_usize : IsIntegerType "usize" false 64
  is_isize : IsIntegerType "isize" true 64

-- The number has w bits: in two's complement, or without a sign.
abbrev pub HasBits : Bool → ℕ → ℤ → Type 0
HasBits true w (pos n) = n < 2 ^ (w - 1)
HasBits true w (negsuc n) = n < 2 ^ (w - 1)
HasBits false w (pos n) = n < 2 ^ w
HasBits false w (negsuc n) = ⊥

-- The name is that of an integer type which has the literal's value in its bits; a literal with an
-- unsigned suffix asks for an unsigned type, and one with a minus sign for a signed type.
abbrev pub Resolves : IntLiteral → String → Type 0
Resolves l name =
    (signed : Bool) × (w : ℕ) × IsIntegerType name signed w
    × ((l.is_unsigned && signed) ≡ false)
    × ((l.negative && not signed) ≡ false)
    × HasBits signed w (literal_value l)

range_of : Bool → ℕ → IntegerRange
range_of true w = signed_range (2 ^ (w - 1) - 1) w
range_of false w = unsigned_range (2 ^ w - 1) w

range_of-signed : (signed : Bool) (w : ℕ) → (range_of signed w).signed ≡ signed
unfolding range_of
range_of-signed true w = refl
range_of-signed false w = refl

below : (k n : ℕ) → (n ≤ 2 ^ k - 1) ↔ (n < 2 ^ k)
below k n =
    let p = one-le-pow k 2 (omega arith) in (λ h. omega (arith, p, h), λ h. omega (arith, p, h))

InRange-HasBits :
    (signed : Bool) (w : ℕ) (v : ℤ) → InRange (range_of signed w) v ↔ HasBits signed w v
unfolding range_of
InRange-HasBits true w (pos n) = below (w - 1) n
InRange-HasBits true w (negsuc n) =
    let (f, g) = below (w - 1) n in (λ h. f (omega (arith, h)), λ h. omega (arith, g h))
InRange-HasBits false w (pos n) = below w n
InRange-HasBits false w (negsuc n) = (λ h. omega (arith, h), λ h. absurd h)

Described : String → IntegerRange → Type 0
Described name r = (signed : Bool) × (w : ℕ) × IsIntegerType name signed w × (r ≡ range_of signed w)

-- The name passes the test for another.
describes :
    (name other : String) {signed : Bool} {w : ℕ}
    → IsIntegerType other signed w
    → str_eq name other ≡ true
    → Described name (range_of signed w)
unfolding Described
describes name other {signed} {w} is e =
    (signed, w, subst (λ n. IsIntegerType n signed w) (sym ((eq_iff name other).0 e)) is, refl)

-- One test of the table.
table_case :
    (name : String) (test : Bool) (r s : IntegerRange) (rest : Option IntegerRange)
    → (test ≡ true → Described name r)
    → (rest ≡ some s → Described name s)
    → (if test then some r else rest) ≡ some s
    → Described name s
table_case name true r s rest here next h = subst (Described name) (some_inj h) (here refl)
table_case name false r s rest here next h = next h

-- A test for two names.
describes_either :
    (name one two : String) {signed : Bool} {w : ℕ}
    → IsIntegerType one signed w
    → IsIntegerType two signed w
    → (str_eq name one || str_eq name two) ≡ true
    → Described name (range_of signed w)
describes_either name one two is_one is_two h = elim (Bool-cases (str_eq name one)) [
  | inl e ↦ describes name one is_one e
  | inr n ↦ describes name two is_two (rw n at h)
]

nothing :
    (name : String) (s : IntegerRange)
    → ◌≡◌ {A = Option IntegerRange} none (some s)
    → Described name s
nothing name s h = cc

integer_type_range-Described :
    (name : String) (s : IntegerRange) → integer_type_range name ≡ some s → Described name s
unfolding integer_type_range range_of
integer_type_range-Described name s =
    table_case name (str_eq name "int") _ s _ (describes name "int" is_int) (
      table_case name (str_eq name "uint") _ s _ (describes name "uint" is_uint) (
        table_case name (str_eq name "uint8" || str_eq name "byte") _ s _
          (describes_either name "uint8" "byte" is_uint8 is_byte)
          (table_case name (str_eq name "uint16") _ s _ (describes name "uint16" is_uint16) (
            table_case name (str_eq name "uint32") _ s _ (describes name "uint32" is_uint32) (
              table_case name (str_eq name "uint64" || str_eq name "usize") _ s _
                (describes_either name "uint64" "usize" is_uint64 is_usize)
                (table_case name (str_eq name "isize") _ s _ (describes name "isize" is_isize)
                  (nothing name s)))))))

integer_type_range-is :
    {name : String} {signed : Bool} {w : ℕ}
    → IsIntegerType name signed w
    → integer_type_range name ≡ some (range_of signed w)
unfolding integer_type_range range_of
integer_type_range-is is_int = refl
integer_type_range-is is_uint = refl
integer_type_range-is is_uint8 = refl
integer_type_range-is is_byte = refl
integer_type_range-is is_uint16 = refl
integer_type_range-is is_uint32 = refl
integer_type_range-is is_uint64 = refl
integer_type_range-is is_usize = refl
integer_type_range-is is_isize = refl

InRange-limited :
    (r : IntegerRange) (b : Bool) (n : ℕ) → InRange r (value_of b n) → n ≤ limit_of r b
InRange-limited r true zero h = omega arith
InRange-limited r true (suc n) h = h
InRange-limited r false n h = h

checked_in_range :
    (l : IntLiteral) (name : String) (r : IntegerRange)
    → integer_type_range name ≡ some r
    → (l.is_unsigned && r.signed) ≡ false
    → (l.negative && not r.signed) ≡ false
    → InRange r (literal_value l)
    → resolve_integer_literal l name ≡ ok tt
unfolding resolve_integer_literal
checked_in_range l name r is suffix sign h =
    let limit = not_below _ _ (InRange-limited r l.negative l.magnitude h) in
    rw (is, suffix, sign, limit) refl
  where
    not_below : (a b : ℕ) → b ≤ a → ltb a b ≡ false
    not_below a b h = ground arith

resolved :
    (l : IntLiteral) (name : String)
    → resolve_integer_literal l name ≡ ok tt
    → (r : IntegerRange) × (integer_type_range name ≡ some r)
      × ((l.is_unsigned && r.signed) ≡ false)
      × ((l.negative && not r.signed) ≡ false)
      × InRange r (literal_value l)
unfolding resolve_integer_literal
resolved l name h =
    let (r, hr, h₁) = >>=-eq-ok (or_fail (integer_type_range name) "CV4644") _ h in
    let (suffix, h₂) = >>-eq-ok (reject (l.is_unsigned && r.signed) "CV4644") _ h₁ in
    let (sign, h₃) = >>-eq-ok (reject (l.negative && not r.signed) "CV4644") _ h₂ in
    (
      r,
      or_fail-eq-ok _ _ hr,
      reject-eq-ok _ _ suffix,
      reject-eq-ok _ _ sign,
      limited-InRange r l.negative l.magnitude (not_above _ _ (reject-eq-ok _ _ h₃)),
    )
  where
    not_above : (a b : ℕ) → ltb a b ≡ false → b ≤ a
    not_above a b h = ground arith

-- A literal resolves to a type exactly where the name is that of an integer type which has the
-- literal's value in its bits, in two's complement or without a sign. A literal with an unsigned
-- suffix needs an unsigned type, and one with a minus sign a signed type.
pub resolve_integer_literal_iff :
    (l : IntLiteral) (name : String) → (resolve_integer_literal l name ≡ ok tt) ↔ Resolves l name
unfolding Described
resolve_integer_literal_iff l name = (forward, backward)
  where
    forward : resolve_integer_literal l name ≡ ok tt → Resolves l name
    forward h =
        let (r, found, suffix, sign, inside) = resolved l name h in
        let (signed, w, is, same) = integer_type_range-Described name r found in
        let kind = ap (λ (x : IntegerRange). x.signed) same ∙ range_of-signed signed w in
        (
          signed,
          w,
          is,
          subst (λ b. (l.is_unsigned && b) ≡ false) kind suffix,
          subst (λ b. (l.negative && not b) ≡ false) kind sign,
          (InRange-HasBits signed w (literal_value l)).0
              (subst (λ x. InRange x (literal_value l)) same inside),
        )

    backward : Resolves l name → resolve_integer_literal l name ≡ ok tt
    backward (signed, w, is, suffix, sign, bits) =
        let kind = sym (range_of-signed signed w) in
        checked_in_range l name (range_of signed w) (integer_type_range-is is)
          (subst (λ b. (l.is_unsigned && b) ≡ false) kind suffix)
          (subst (λ b. (l.negative && not b) ≡ false) kind sign)
          ((InRange-HasBits signed w (literal_value l)).1 bits)
