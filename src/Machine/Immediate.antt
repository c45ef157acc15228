-- ===== src/Machine/Immediate.antt =====
-- Immediates: `machineImmediate`, lines 404 to 424 of internal/concept/machineir.go, with the decimal
-- readers `strconv.ParseInt` and `strconv.ParseUint` at base 10.
use Prim.Native.Char.{code}
use concept.Base.{
  ℕ, ◌+◌, ◌-◌, ◌*◌, ◌^◌, ◌≡◌, refl, ℤ, pos, negsuc, sub_ℕ, Bool, true, false, ◌&&◌, String, List,
  [], ◌∷◌, Option, none, some, Result, ok, err, ltb, leb, ◌==◌, if◌then◌else◌, str_eq,
}
use concept.Machine.Registers.{machine_width_valid}

-- The code points of a text.
abbrev pub codes : String → List ℕ
codes String.[] = []
codes (String.◌∷◌ c s) = code c ∷ codes s

-- Decimal digits after the value so far; `none` at any other character.
read_digits : ℕ → List ℕ → Option ℕ
read_digits acc [] = some acc
read_digits acc (c ∷ cs) = elim (leb b'0' c && leb c b'9') [
  | true ↦ read_digits (acc * 10 + (c - b'0')) cs
  | false ↦ none
]

-- At least one digit.
read_decimal : List ℕ → Option ℕ
unfolding read_digits
read_decimal [] = none
read_decimal (c ∷ cs) = read_digits 0 (c ∷ cs)

within : Option ℕ → ℕ → Option ℕ
within none bound = none
within (some n) bound = if ltb n bound then some n else none

negated : Option ℕ → Option ℤ
negated none = none
negated (some n) = some (sub_ℕ 0 n)

natural : Option ℕ → Option ℤ
natural none = none
natural (some n) = some (pos n)

-- `strconv.ParseUint(s, 10, bits)`
unfoldable pub parse_uint : List ℕ → ℕ → Option ℤ
unfolding read_decimal within natural
parse_uint s bits = natural (within (read_decimal s) (2 ^ bits))

-- `strconv.ParseInt(s, 10, bits)`: a sign, then a magnitude that fits.
unfoldable pub parse_int : List ℕ → ℕ → Option ℤ
unfolding read_decimal within natural negated
parse_int [] bits = none
parse_int (c ∷ cs) bits =
    if c == b'-'
    then negated (within (read_decimal cs) (2 ^ (bits - 1) + 1))
    else if c == b'+'
    then natural (within (read_decimal cs) (2 ^ (bits - 1)))
    else natural (within (read_decimal (c ∷ cs)) (2 ^ (bits - 1)))

-- `true` and `false` stand for 1 and 0.
abbrev pub boolean_literal : String → String
boolean_literal lit =
    let one = if str_eq lit "true" then "1" else lit in if str_eq one "false" then "0" else one

abbrev bytes : ℤ → ℕ
bytes (pos w) = w
bytes (negsuc w) = 0

-- The number that an immediate of `w` bytes stands for, where the literal is accepted.
unfoldable pub immediate_value : String → ℤ → Bool → Result ℤ
unfolding machine_width_valid parse_int parse_uint
immediate_value literal w signed =
    let lit = codes (boolean_literal literal) in
    let value = if signed then parse_int lit (bytes w * 8) else parse_uint lit (bytes w * 8) in
    if machine_width_valid w
    then (elim value [ none ↦ err "MIR_BAD_IMMEDIATE" | some v ↦ ok v ])
    else err "MIR_BAD_IMMEDIATE_WIDTH"

minus_128 : immediate_value "-128" (pos 1) true ≡ ok (negsuc 127)
unfolding immediate_value
minus_128 = refl
