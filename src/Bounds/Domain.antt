-- ===== src/Bounds/Domain.antt =====
-- The abstract values and states: lines 31 to 55 and 183 to 250 of internal/concept/local_bounds.go.
use concept.Base.{
  ℤ, ◌*ℤ◌, if◌then◌else◌, true, false, String, Bool, pos, negsuc, Option, ◌&&◌, not, some, str_eq,
  leb_ℤ, ◌+ℤ◌, ◌||◌, ◌-ℤ◌, none,
}

abbrev pub int32_min : ℤ
int32_min = negsuc 2147483647

abbrev pub int32_max : ℤ
int32_max = pos 2147483647

abbrev pub min_ℤ : ℤ → ℤ → ℤ
min_ℤ a b = if leb_ℤ a b then a else b

abbrev pub max_ℤ : ℤ → ℤ → ℤ
max_ℤ a b = if leb_ℤ a b then b else a

pub record LocalInterval : Type 0 where
  pub lo : ℤ
  pub hi : ℤ

-- Of the type, the analysis asks for the name only.
pub record LocalValue : Type 0 where
  pub type_name : String
  pub integer : LocalInterval
  pub int_known : Bool
  pub length_min : ℤ
  pub length_held : Bool
  pub length_id : String
  pub below_length : String

-- `localValue{}`
abbrev pub no_value : LocalValue
no_value = record {
  type_name = "";
  integer = record { lo = pos 0; hi = pos 0 };
  int_known = false;
  length_min = pos 0;
  length_held = false;
  length_id = "";
  below_length = "";
}

abbrev pub known_interval : LocalInterval → LocalValue
known_interval i = record no_value { integer = i; int_known = true }

abbrev pub local_integer : ℤ → LocalValue
local_integer n = known_interval (record { lo = n; hi = n })

-- `localBoundsState`, a map.
abbrev pub LocalBoundsState : Type 0
LocalBoundsState = String → Option LocalValue

-- `s[name] = v`
unfoldable pub assign : LocalBoundsState → String → LocalValue → LocalBoundsState
assign s name v n = if str_eq n name then some v else s n

abbrev pub value_or_zero : Option LocalValue → LocalValue
value_or_zero none = no_value
value_or_zero (some v) = v

-- Nothing is known of the value; its type and the stale numbers stay.
abbrev pub forgotten : LocalValue → LocalValue
forgotten v = record v { int_known = false; length_held = false; length_id = ""; below_length = "" }

-- `get`, for the names that are `exposed`.
unfoldable pub get : (String → Bool) → LocalBoundsState → String → LocalValue
get exposed s name =
    if exposed name then forgotten (value_or_zero (s name)) else value_or_zero (s name)

abbrev pub hull : LocalInterval → LocalInterval → LocalInterval
hull x y = record { lo = min_ℤ x.lo y.lo; hi = max_ℤ x.hi y.hi }

abbrev pub same_or_empty : String → String → String
same_or_empty a b = if str_eq a b then a else ""

-- What holds of a name after either of two paths.
unfoldable pub join_value : LocalValue → LocalValue → LocalValue
join_value x y =
    let known = x.int_known && y.int_known in
    record x {
      int_known = known;
      integer = if known then hull x.integer y.integer else x.integer;
      length_held = x.length_held && y.length_held;
      length_min = min_ℤ x.length_min y.length_min;
      length_id = same_or_empty x.length_id y.length_id;
      below_length = same_or_empty x.below_length y.below_length;
    }

abbrev pub join_option : Option LocalValue → Option LocalValue → Option LocalValue
join_option (some x) (some y) = some (join_value x y)
join_option none y = none
join_option (some x) none = none

unfoldable pub local_join : LocalBoundsState → LocalBoundsState → LocalBoundsState
local_join a b n = join_option (a n) (b n)

-- `for k, v := range joined { s[k] = v }`
unfoldable pub update_all : LocalBoundsState → LocalBoundsState → LocalBoundsState
update_all s joined n = elim (joined n) [ none ↦ s n | some v ↦ some v ]

pub data BinaryOp : Type 0 where
  plus minus times : BinaryOp
  less at_most greater at_least equal_to unequal : BinaryOp
  and_op or_op : BinaryOp
  other_op : BinaryOp

abbrev pub within_int32 : LocalInterval → Bool
within_int32 i = leb_ℤ int32_min i.lo && leb_ℤ i.hi int32_max

abbrev pub product_hull : LocalInterval → LocalInterval → LocalInterval
product_hull l r =
    let a = l.lo *ℤ r.lo in
    let b = l.lo *ℤ r.hi in
    let c = l.hi *ℤ r.lo in
    let d = l.hi *ℤ r.hi in
    record { lo = min_ℤ (min_ℤ (min_ℤ a b) c) d; hi = max_ℤ (max_ℤ (max_ℤ a b) c) d }

unfoldable pub interval_of : BinaryOp → LocalInterval → LocalInterval → Option LocalInterval
interval_of plus l r = some (record { lo = l.lo +ℤ r.lo; hi = l.hi +ℤ r.hi })
interval_of minus l r = some (record { lo = l.lo -ℤ r.hi; hi = l.hi -ℤ r.lo })
interval_of times l r = some (product_hull l r)
interval_of less l r = none
interval_of at_most l r = none
interval_of greater l r = none
interval_of at_least l r = none
interval_of equal_to l r = none
interval_of unequal l r = none
interval_of and_op l r = none
interval_of or_op l r = none
interval_of other_op l r = none

abbrev pub if_int32 : Option LocalInterval → LocalValue
if_int32 none = no_value
if_int32 (some i) = if within_int32 i then known_interval i else no_value

-- `localArithmetic`. The endpoints are `int32`s where they are combined, so the `int64` sums and
-- products of the source do not wrap.
unfoldable pub local_arithmetic : BinaryOp → LocalValue → LocalValue → LocalValue
local_arithmetic op x y =
    if not x.int_known || not y.int_known
    then no_value
    else if not (within_int32 x.integer) || not (within_int32 y.integer)
    then no_value
    else if_int32 (interval_of op x.integer y.integer)
