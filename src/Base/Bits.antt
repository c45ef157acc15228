-- ===== src/Base/Bits.antt =====
-- Go's `[]bool`: a missing element reads as false, and a write out of range changes nothing.
use Prim.Native.Nat.{ℕ, zero, suc, ◌≤◌, ◌<◌}
use mathlib.Core.Path.{◌≡◌, refl, ap}
use mathlib.Core.Bool.{Bool, true, false, ◌&&◌}
use mathlib.Core.List.{List, [], ◌∷◌}
use native.Mathlib.Omega.{arith}
use concept.Base.Tests.{ltb, ◌==◌, if◌then◌else◌}
use concept.Base.Lists.{length}

abbrev pub get_or {ℓ} : {A : Type ℓ} → List A → ℕ → A → A
get_or [] i d = d
get_or (x ∷ xs) zero d = x
get_or (x ∷ xs) (suc i) d = get_or xs i d

abbrev pub set {ℓ} : {A : Type ℓ} → List A → ℕ → A → List A
set [] i v = []
set (x ∷ xs) zero v = v ∷ xs
set (x ∷ xs) (suc i) v = x ∷ set xs i v

abbrev pub replicate {ℓ} : {A : Type ℓ} → ℕ → A → List A
replicate zero v = []
replicate (suc n) v = v ∷ replicate n v

abbrev pub bit : List Bool → ℕ → Bool
bit xs i = get_or xs i false

-- `for j := range v { v[j] = v[j] && w[j] }`
abbrev pub and_bits : List Bool → List Bool → List Bool
and_bits [] ws = []
and_bits (v ∷ vs) [] = []
and_bits (v ∷ vs) (w ∷ ws) = (v && w) ∷ and_bits vs ws

-- `v[j] != w[j]` for some j
abbrev pub differ : List Bool → List Bool → Bool
differ [] [] = false
differ (true ∷ vs) (true ∷ ws) = differ vs ws
differ (false ∷ vs) (false ∷ ws) = differ vs ws
differ _ _ = true

abbrev pub count : List Bool → ℕ
count [] = 0
count (true ∷ vs) = suc (count vs)
count (false ∷ vs) = count vs

pub length-set {ℓ} : {A : Type ℓ} (xs : List A) (i : ℕ) (v : A) → length (set xs i v) ≡ length xs
length-set [] i v = refl
length-set (x ∷ xs) zero v = refl
length-set (x ∷ xs) (suc i) v = ap suc (length-set xs i v)

pub length-replicate {ℓ} : {A : Type ℓ} (n : ℕ) (v : A) → length (replicate n v) ≡ n
length-replicate zero v = refl
length-replicate (suc n) v = ap suc (length-replicate n v)

pub get_or-set {ℓ} :
    {A : Type ℓ} (xs : List A) (i k : ℕ) (v d : A)
    → get_or (set xs i v) k d ≡ (if k == i && ltb i (length xs) then v else get_or xs k d)
get_or-set [] i k v d = ground arith
get_or-set (x ∷ xs) zero zero v d = ground arith
get_or-set (x ∷ xs) zero (suc k) v d = ground arith
get_or-set (x ∷ xs) (suc i) zero v d = ground arith
get_or-set (x ∷ xs) (suc i) (suc k) v d = ground (arith, get_or-set xs i k v d)

pub bit-replicate : (n i : ℕ) → bit (replicate n true) i ≡ ltb i n
bit-replicate zero i = ground arith
bit-replicate (suc n) zero = ground arith
bit-replicate (suc n) (suc i) = ground (arith, bit-replicate n i)

pub bit-replicate-false : (n i : ℕ) → bit (replicate n false) i ≡ false
bit-replicate-false zero i = refl
bit-replicate-false (suc n) zero = refl
bit-replicate-false (suc n) (suc i) = bit-replicate-false n i

pub bit-and_bits : (v w : List Bool) (i : ℕ) → bit (and_bits v w) i ≡ (bit v i && bit w i)
bit-and_bits [] w i = refl
bit-and_bits (v ∷ vs) [] i = ground arith
bit-and_bits (v ∷ vs) (w ∷ ws) zero = refl
bit-and_bits (v ∷ vs) (w ∷ ws) (suc i) = bit-and_bits vs ws i

pub length-and_bits : (v w : List Bool) → length w ≡ length v → length (and_bits v w) ≡ length v
length-and_bits [] w h = refl
length-and_bits (v ∷ vs) [] h = absurd (omega arith)
length-and_bits (v ∷ vs) (w ∷ ws) h = ap suc (length-and_bits vs ws (omega arith))

pub bit-lt : (v : List Bool) (i : ℕ) → bit v i ≡ true → i < length v
bit-lt [] i h = cc
bit-lt (v ∷ vs) zero h = omega arith
bit-lt (v ∷ vs) (suc i) h = omega (arith, bit-lt vs i h)

pub differ→≡ : (v w : List Bool) → differ v w ≡ false → v ≡ w
differ→≡ [] [] h = refl
differ→≡ [] (w ∷ ws) h = cc
differ→≡ (true ∷ vs) [] h = cc
differ→≡ (false ∷ vs) [] h = cc
differ→≡ (true ∷ vs) (true ∷ ws) h = ap (◌∷◌ true) (differ→≡ vs ws h)
differ→≡ (false ∷ vs) (false ∷ ws) h = ap (◌∷◌ false) (differ→≡ vs ws h)
differ→≡ (true ∷ vs) (false ∷ ws) h = cc
differ→≡ (false ∷ vs) (true ∷ ws) h = cc

pub differ_self : (v : List Bool) → differ v v ≡ false
differ_self [] = refl
differ_self (true ∷ vs) = differ_self vs
differ_self (false ∷ vs) = differ_self vs

-- A part of a set that is not the whole of it has fewer elements.
pub count-lt :
    (v w : List Bool)
    → length v ≡ length w
    → ((i : ℕ) → bit v i ≡ true → bit w i ≡ true)
    → (count v ≤ count w) × (differ v w ≡ true → count v < count w)
count-lt [] [] l h = (omega arith, λ e. cc)
count-lt [] (w ∷ ws) l h = absurd (omega arith)
count-lt (v ∷ vs) [] l h = absurd (omega arith)
count-lt (true ∷ vs) (true ∷ ws) l h =
    let rec = count-lt vs ws (omega arith) (λ i. h (suc i)) in
    (omega (arith, rec.0), λ e. omega (arith, rec.1 e))
count-lt (false ∷ vs) (false ∷ ws) l h = count-lt vs ws (omega arith) (λ i. h (suc i))
count-lt (false ∷ vs) (true ∷ ws) l h =
    let rec = count-lt vs ws (omega arith) (λ i. h (suc i)) in
    (omega (arith, rec.0), λ e. omega (arith, rec.0))
count-lt (true ∷ vs) (false ∷ ws) l h = absurd (cc (h 0 refl))

pub count-le-length : (v : List Bool) → count v ≤ length v
count-le-length [] = omega arith
count-le-length (true ∷ vs) = omega (arith, count-le-length vs)
count-le-length (false ∷ vs) = omega (arith, count-le-length vs)

pub count-set :
    (v : List Bool) (i : ℕ) → i < length v → bit v i ≡ false → count (set v i true) ≡ suc (count v)
count-set [] i l h = absurd (omega arith)
count-set (true ∷ vs) zero l h = cc
count-set (false ∷ vs) zero l h = refl
count-set (true ∷ vs) (suc i) l h = ap suc (count-set vs i (omega arith) h)
count-set (false ∷ vs) (suc i) l h = count-set vs i (omega arith) h
