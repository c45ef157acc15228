-- ===== src/Bounds/Meets.antt =====
-- What a comparison that held says of its operands, and that `narrow` keeps to it.
use concept.Bounds.Analysis.{narrow, compare_constants, length_bound, opposite, assumed_op}
use concept.Bounds.Domain.{
  BinaryOp, LocalInterval, max_ℤ, min_ℤ, plus, less, at_least, greater, at_most, minus, equal_to,
  times, and_op, unequal, or_op, other_op,
}
use concept.Base.{
  ℤ, ◌==ℤ◌, ◌≡◌, ltb_ℤ, ◌≤ℤ◌, leb_ℤ, Bool, true, some, none, ◌-ℤ◌, false, pos, ◌+ℤ◌, subst, arith,
  some_inj, -ℤ_parts, +ℤ_parts, not,
}
use concept.Bounds.Arithmetic.{In}

-- `a op n`, for the comparisons.
abbrev pub Meets : BinaryOp → ℤ → ℤ → Type 0
Meets less a n = a ≤ℤ n -ℤ pos 1
Meets at_most a n = a ≤ℤ n
Meets greater a n = n +ℤ pos 1 ≤ℤ a
Meets at_least a n = n ≤ℤ a
Meets equal_to a n = (n ≤ℤ a) × (a ≤ℤ n)
Meets unequal a n = Unit
Meets plus a n = Unit
Meets minus a n = Unit
Meets times a n = Unit
Meets and_op a n = Unit
Meets or_op a n = Unit
Meets other_op a n = Unit

below_pred : (a n : ℤ) → ltb_ℤ a n ≡ true → a ≤ℤ n -ℤ pos 1
below_pred a n h = ground (arith, -ℤ_parts n (pos 1))

above_succ : (a n : ℤ) → ltb_ℤ n a ≡ true → n +ℤ pos 1 ≤ℤ a
above_succ a n h = ground (arith, +ℤ_parts n (pos 1))

not_ltb : (a n : ℤ) → ltb_ℤ a n ≡ false → n ≤ℤ a
not_ltb a n h = ground arith

not_leb : (a n : ℤ) → leb_ℤ a n ≡ false → ltb_ℤ n a ≡ true
not_leb a n h = ground arith

leb_true : (a n : ℤ) → leb_ℤ a n ≡ true → a ≤ℤ n
leb_true a n h = ground arith

both_sides : (a n : ℤ) → (a ==ℤ n) ≡ true → (n ≤ℤ a) × (a ≤ℤ n)
both_sides a n h = (ground arith, ground arith)

pub compare-Meets :
    (op : BinaryOp) (a n : ℤ) (t : Bool)
    → compare_constants op a n ≡ some t
    → Meets (assumed_op op t) a n
unfolding compare_constants opposite
compare-Meets less a n true h = below_pred a n (some_inj h)
compare-Meets less a n false h = not_ltb a n (some_inj h)
compare-Meets at_most a n true h = leb_true a n (some_inj h)
compare-Meets at_most a n false h = above_succ a n (not_leb a n (some_inj h))
compare-Meets greater a n true h = above_succ a n (some_inj h)
compare-Meets greater a n false h = not_ltb n a (some_inj h)
compare-Meets at_least a n true h = leb_true n a (some_inj h)
compare-Meets at_least a n false h = below_pred a n (not_leb n a (some_inj h))
compare-Meets equal_to a n true h = both_sides a n (some_inj h)
compare-Meets equal_to a n false h = tt
compare-Meets unequal a n true h = tt
compare-Meets unequal a n false h = both_sides a n (not_false (some_inj h))
  where
    not_false : {b : Bool} → not b ≡ false → b ≡ true
    not_false p = ground arith
compare-Meets plus a n t h = cc
compare-Meets minus a n t h = cc
compare-Meets times a n t h = cc
compare-Meets and_op a n t h = cc
compare-Meets or_op a n t h = cc
compare-Meets other_op a n t h = cc

-- An operator that is no comparison refines nothing.
pub Meets-none :
    (op : BinaryOp) (a n : ℤ) (t : Bool)
    → compare_constants op a n ≡ none
    → Meets (assumed_op op t) a n
unfolding compare_constants opposite
Meets-none plus a n true h = tt
Meets-none plus a n false h = tt
Meets-none minus a n true h = tt
Meets-none minus a n false h = tt
Meets-none times a n true h = tt
Meets-none times a n false h = tt
Meets-none and_op a n true h = tt
Meets-none and_op a n false h = tt
Meets-none or_op a n true h = tt
Meets-none or_op a n false h = tt
Meets-none other_op a n true h = tt
Meets-none other_op a n false h = tt
Meets-none less a n t h = cc
Meets-none at_most a n t h = cc
Meets-none greater a n t h = cc
Meets-none at_least a n t h = cc
Meets-none equal_to a n t h = cc
Meets-none unequal a n t h = cc

pub max_le : (a b c : ℤ) → a ≤ℤ c → b ≤ℤ c → max_ℤ a b ≤ℤ c
max_le a b c h k = ground arith

le_min : (a b c : ℤ) → c ≤ℤ a → c ≤ℤ b → c ≤ℤ min_ℤ a b
le_min a b c h k = ground arith

pub narrow-In :
    (op : BinaryOp) (n a : ℤ) (i : LocalInterval) → In i a → Meets op a n → In (narrow op n i) a
unfolding narrow
narrow-In at_least n a i h m = (max_le i.lo n a h.0 m, h.1)
narrow-In greater n a i h m = (max_le i.lo (n +ℤ pos 1) a h.0 m, h.1)
narrow-In at_most n a i h m = (h.0, le_min i.hi n a h.1 m)
narrow-In less n a i h m = (h.0, le_min i.hi (n -ℤ pos 1) a h.1 m)
narrow-In equal_to n a i h m = (max_le i.lo n a h.0 m.0, le_min i.hi n a h.1 m.1)
narrow-In unequal n a i h m = h
narrow-In plus n a i h m = h
narrow-In minus n a i h m = h
narrow-In times n a i h m = h
narrow-In and_op n a i h m = h
narrow-In or_op n a i h m = h
narrow-In other_op n a i h m = h

pub length_bound-le :
    (op : BinaryOp) (n a l : ℤ) → Meets op a n → length_bound op n ≡ some l → l ≤ℤ a
unfolding length_bound
length_bound-le at_least n a l m h = subst (λ z. z ≤ℤ a) (some_inj h) m
length_bound-le greater n a l m h = subst (λ z. z ≤ℤ a) (some_inj h) m
length_bound-le equal_to n a l m h = subst (λ z. z ≤ℤ a) (some_inj h) m.0
length_bound-le less n a l m h = cc
length_bound-le at_most n a l m h = cc
length_bound-le unequal n a l m h = cc
length_bound-le plus n a l m h = cc
length_bound-le minus n a l m h = cc
length_bound-le times n a l m h = cc
length_bound-le and_op n a l m h = cc
length_bound-le or_op n a l m h = cc
length_bound-le other_op n a l m h = cc
