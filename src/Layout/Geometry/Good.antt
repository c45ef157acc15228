-- ===== src/Layout/Geometry/Good.antt =====
-- What a measured type satisfies.
use native.Mathlib.Nat.{le-div_iff_mul-le, mul_right_comm}
use concept.Layout.Geometry.{
  storage_geometry, sparse_storage, raw_storage, StorageKind, other_storage, scalar_geometry,
  array_geometry, StorageDimension, element_count,
}
use concept.Layout.Fields.{Geometry}
use concept.Base.{
  ◌-ℤ◌, ◌≤◌, ◌+ℤ◌, ℕ, ◌≡◌, ok, >>-eq-ok, reject, if◌then◌else◌, ◌+◌, suc, ltb, arith, pos_part, pos,
  subst, ok_inj, ◌<◌, ltb_ℤ, not, ℤ, String, some, List, negsuc, err, ◌==◌, ◌>>◌, ◌*◌, ◌&&◌, ◌/◌,
  >>=-eq-ok, zero, Bool, Option, some_inj, true, none, false,
}
use concept.Layout.Align.{Multiple, max_geometry, align_up_lem, align_up}
use concept.Layout.Fields.Placement.{add_pos}

-- A positive alignment, a size that is a multiple of it, and an `int`.
pub record Good (g : Geometry) : Type 0 where
  pub alignment_pos : 1 ≤ g.1
  pub size_multiple : Multiple g.0 g.1
  pub size_bounded : g.0 ≤ max_geometry

padded_Good :
    (value alignment : ℕ)
    → 1 ≤ alignment
    → value + alignment ≤ suc max_geometry
    → Good (pos_part (align_up (pos value) alignment), alignment)
padded_Good value alignment a fits =
    let (m, e, k, lo, hi) = align_up_lem value alignment a fits in
    record {
      alignment_pos = a;
      size_multiple = rw e k;
      size_bounded = rw e (omega (arith, hi, fits));
    }

lt_le :
    (m bytes aligned : ℕ)
    → m < bytes + 4
    → bytes + 7 + aligned ≤ suc max_geometry
    → m + 4 + aligned ≤ suc max_geometry
lt_le m bytes aligned h f = omega arith

word_fits :
    (bytes aligned : ℕ)
    → 1 ≤ aligned
    → bytes + 7 + aligned ≤ suc max_geometry
    → bytes + 4 ≤ suc max_geometry
word_fits bytes aligned h f = omega arith

raw_Good :
    (bytes aligned : ℕ)
    → 1 ≤ aligned
    → bytes + 7 + aligned ≤ suc max_geometry
    → Good (pos_part (align_up (align_up (pos bytes) 4 +ℤ pos 4) aligned), aligned)
raw_Good bytes aligned a fits =
    let (m, e, k, lo, hi) = align_up_lem bytes 4 (omega arith) (word_fits bytes aligned a fits) in
    rw (e, add_pos) (padded_Good (m + 4) aligned a (lt_le m bytes aligned hi fits))

raw_fits :
    (bytes aligned : ℕ)
    → 1 ≤ aligned
    → reject (ltb_ℤ (pos max_geometry -ℤ pos 7 -ℤ (pos aligned -ℤ pos 1)) (pos bytes)) "CV4573"
      ≡ ok tt
    → bytes + 7 + aligned ≤ suc max_geometry
unfolding ◌-ℤ◌
raw_fits bytes aligned a t = ground arith

sparse_fits :
    (bytes count alignment : ℕ)
    → 1 ≤ alignment
    → reject
        (ltb_ℤ (pos max_geometry -ℤ pos count -ℤ (pos alignment -ℤ pos 1)) (pos bytes))
        "CV4573"
      ≡ ok tt
    → bytes + count + alignment ≤ suc max_geometry
unfolding ◌-ℤ◌
sparse_fits bytes count alignment a t = ground arith

raised_pos : (alignment : ℕ) → 1 ≤ alignment → 1 ≤ (if ltb alignment 4 then 4 else alignment)
raised_pos alignment a = ground arith

storage_geometry-Good :
    (k : StorageKind) (bytes count alignment : ℕ) (g : Geometry)
    → Good (bytes, alignment)
    → storage_geometry k bytes count alignment ≡ ok g
    → Good g
unfolding storage_geometry
storage_geometry-Good raw_storage bytes count alignment g a h =
    let aligned = if ltb alignment 4 then 4 else alignment in
    let (t, h₁) =
      >>-eq-ok
        (reject (ltb_ℤ (pos max_geometry -ℤ pos 7 -ℤ (pos aligned -ℤ pos 1)) (pos bytes)) "CV4573")
        _ h in
    let p = raised_pos alignment a.alignment_pos in
    subst Good (ok_inj h₁) (raw_Good bytes aligned p (raw_fits bytes aligned p t))
storage_geometry-Good sparse_storage bytes count alignment g a h =
    let (t, h₁) =
      >>-eq-ok
        (reject (ltb_ℤ (pos max_geometry -ℤ pos count -ℤ (pos alignment -ℤ pos 1)) (pos bytes))
          "CV4573")
        _ h in
    subst Good (ok_inj h₁) (
      padded_Good (bytes + count) alignment a.alignment_pos
        (sparse_fits bytes count alignment a.alignment_pos t))
storage_geometry-Good other_storage bytes count alignment g a h = subst Good (ok_inj h) a

scaled_Good :
    (size alignment c : ℕ)
    → Good (size, alignment)
    → size * c ≤ max_geometry
    → Good (size * c, alignment)
scaled_Good size alignment c g le = record {
  alignment_pos = g.alignment_pos;
  size_multiple = let (k, e) = g.size_multiple in (k * c, product size k c alignment e);
  size_bounded = le;
}
  where
    product : (s k c a : ℕ) → s ≡ k * a → s * c ≡ k * c * a
    product s k c a e = rw e (mul_right_comm k a c)

product_fits :
    (size c : ℕ)
    → reject (not (c == 0) && ltb (max_geometry / c) size) "CV4573" ≡ ok tt
    → size * c ≤ max_geometry
product_fits size zero t = omega arith
product_fits size (suc c) t =
    let le : size ≤ max_geometry / suc c = ground arith in (le-div_iff_mul-le (omega arith)).0 le

pub array_geometry-Good :
    (m : Geometry) (n : ℤ) (shape : List StorageDimension) (k : StorageKind) (g : Geometry)
    → Good m
    → array_geometry m n shape k ≡ ok g
    → Good g
unfolding array_geometry
array_geometry-Good m n shape k g good h =
    let (count, _, h₁) = >>=-eq-ok (element_count n shape) _ h in counted count h₁
  where
    counted :
        (count : ℤ)
        → (elim count [
          | negsuc c ↦ err "CV4573"
          | pos c ↦ do
            reject (not (c == 0) && ltb (max_geometry / c) m.0) "CV4573"
            storage_geometry k (m.0 * c) c m.1
        ])
          ≡ ok g
        → Good g
    counted (negsuc c) e = cc
    counted (pos c) e =
        let (t, e₁) = >>-eq-ok (reject _ "CV4573") _ e in
        storage_geometry-Good k (m.0 * c) c m.1 g
          (scaled_Good m.0 m.1 c good (product_fits m.0 c t)) e₁

pub size_one : (n : ℕ) → 1 ≤ n → n ≤ 8 → Good (n, n)
size_one n lo hi = record {
  alignment_pos = lo;
  size_multiple = (1, omega arith);
  size_bounded = omega arith;
}

scalar_case :
    (b : Bool) (k : ℕ) (rest : Option Geometry) (g : Geometry)
    → 1 ≤ k
    → k ≤ 8
    → (rest ≡ some g → Good g)
    → (if b then some (k, k) else rest) ≡ some g
    → Good g
scalar_case true k rest g lo hi r h = subst Good (some_inj h) (size_one k lo hi)
scalar_case false k rest g lo hi r h = r h

no_scalar : {g : Geometry} → ◌≡◌ {A = Option Geometry} none (some g) → Good g
no_scalar h = cc

pub scalar_geometry-Good : (n : String) (g : Geometry) → scalar_geometry n ≡ some g → Good g
unfolding scalar_geometry
scalar_geometry-Good n g = scalar_case _ 1 _ g (omega arith) (omega arith) (
    scalar_case _ 2 _ g (omega arith) (omega arith) (
      scalar_case _ 4 _ g (omega arith) (omega arith)
        (scalar_case _ 8 _ g (omega arith) (omega arith) no_scalar)))
