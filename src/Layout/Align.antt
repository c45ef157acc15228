-- ===== src/Layout/Align.antt =====
use concept.Base.{
  ℕ, ℤ, pos, if◌then◌else◌, ◌≡◌, ◌≤◌, ◌+◌, ◌*◌, leb, ◌/◌, suc, ◌-◌, negsuc, sub_ℕ, ◌<◌, true, arith,
  refl,
}
use native.Mathlib.Nat.{div-mul-le_self, lt-div-mul-add}

-- `evt1AlignUp`, lines 24 to 26 of internal/concept/layout.go, on a 64-bit `int`.

-- `int(^uint(0) >> 1)`
abbrev pub max_geometry : ℕ
max_geometry = 9223372036854775807

-- A sum below 2^64 read as a 64-bit `int`.
abbrev pub wrap_int : ℕ → ℤ
wrap_int s = if leb s max_geometry then pos s else sub_ℕ s 18446744073709551616

-- `s / alignment * alignment`; the division rounds towards 0.
abbrev pub trunc_multiple : ℤ → ℕ → ℤ
trunc_multiple (pos s) alignment = pos (s / alignment * alignment)
trunc_multiple (negsuc s) alignment = sub_ℕ 0 (suc s / alignment * alignment)

unfoldable pub align_up : ℤ → ℕ → ℤ
align_up (pos value) alignment = trunc_multiple (wrap_int (value + alignment - 1)) alignment
align_up (negsuc value) alignment = trunc_multiple (sub_ℕ alignment (suc (suc value))) alignment

abbrev pub Multiple : ℕ → ℕ → Type 0
Multiple n a = (k : ℕ) × (n ≡ k * a)

-- Where `value + alignment - 1` does not pass the largest `int`, the result is the least multiple
-- of the alignment that is not below the value.
pub align_up_lem :
    (value alignment : ℕ)
    → 1 ≤ alignment
    → value + alignment ≤ suc max_geometry
    → (m : ℕ) × (align_up (pos value) alignment ≡ pos m)
      × Multiple m alignment
      × (value ≤ m)
      × (m < value + alignment)
unfolding align_up
align_up_lem value alignment h le =
    let s = value + alignment - 1 in
    let q : s / alignment * alignment ≤ s = div-mul-le_self s alignment in
    let r : s < s / alignment * alignment + alignment = lt-div-mul-add h in
    let w : leb s max_geometry ≡ true = ground arith in
    (
      s / alignment * alignment,
      rw w refl,
      (s / alignment, refl),
      omega (arith, q, r),
      omega (arith, q, r),
    )
