-- ===== src/Base/Results.antt =====
-- `(T, error)` as a result type. An error is its code word, the first word of the Go message.
use Prim.Native.Nat.{ℕ, zero, suc, ◌+◌}
use Prim.Native.String.{String}
use mathlib.Core.Path.{◌≡◌, refl}
use mathlib.Core.Bool.{Bool, true, false}
use mathlib.Core.List.{List, [], ◌∷◌}
use mathlib.Core.Option.{Option, none, some}
use native.Mathlib.Omega.{arith}
use native.Mathlib.Nat.{add-zero, add-suc, suc-add}
use concept.Base.Lists.{get_elem?}

pub data Result {ℓ} (T : Type ℓ) : Type ℓ where
  err : (code : String) → Result T
  ok : (value : T) → Result T

-- A function that returns only an `error`.
abbrev pub Check : Type 0
Check = Result (Unit {0})

infixl 5 ◌>>=◌ ◌>>◌
-- `x, err := m; if err != nil { return err }; return f(x)`
abbrev pub ◌>>=◌ {ℓ κ} : {T : Type ℓ} {S : Type κ} → Result T → (T → Result S) → Result S
err code >>= f = err code
ok value >>= f = f value

abbrev pub ◌>>◌ {κ} : {S : Type κ} → Check → Result S → Result S
err code >> k = err code
ok value >> k = k

-- `if b { return err }`
abbrev pub reject : Bool → String → Check
reject true e = err e
reject false e = ok tt

abbrev pub or_fail {ℓ} : {A : Type ℓ} → Option A → String → Result A
or_fail none e = err e
or_fail (some a) e = ok a

-- `for i, x := range xs { if err := f(i, x); err != nil { return err } }`
unfoldable pub for_each {ℓ} : {A : Type ℓ} → (ℕ → A → Check) → ℕ → List A → Check
for_each f i [] = ok tt
for_each f i (x ∷ xs) = f i x >> for_each f (suc i) xs

pub >>=-eq-ok {ℓ κ} :
    {T : Type ℓ} {S : Type κ} (m : Result T) (f : T → Result S) {s : S}
    → (m >>= f) ≡ ok s
    → (t : T) × (m ≡ ok t) × (f t ≡ ok s)
>>=-eq-ok (err code) f h = cc
>>=-eq-ok (ok t) f h = (t, refl, h)

pub >>-eq-ok {ℓ} :
    {B : Type ℓ} (m : Check) (k : Result B) {b : B} → (m >> k) ≡ ok b → (m ≡ ok tt) × (k ≡ ok b)
>>-eq-ok (ok a) k h = (refl, h)
>>-eq-ok (err e) k h = cc

pub reject-eq-ok : (b : Bool) (e : String) → reject b e ≡ ok tt → b ≡ false
reject-eq-ok b e h = ground arith

-- A loop that finishes has passed its test at every index.
pub for_each-get {ℓ} :
    {A : Type ℓ} (f : ℕ → A → Check) (k : ℕ) (xs : List A) (i : ℕ) {x : A}
    → for_each f k xs ≡ ok tt
    → get_elem? xs i ≡ some x
    → f (k + i) x ≡ ok tt
unfolding for_each
for_each-get f k [] i h e = cc
for_each-get f k (y ∷ xs) zero {x} h e = rw add-zero (rw (← some-inj e) ((>>-eq-ok (f k y) _ h).0))
  where
    some-inj : some y ≡ some x → y ≡ x
    some-inj p = cc
for_each-get f k (y ∷ xs) (suc i) h e =
    rw (add-suc, ← suc-add) (for_each-get f (suc k) xs i ((>>-eq-ok (f k y) _ h).1) e)

-- A loop whose test passes at every index finishes.
pub for_each_ok {ℓ} :
    {A : Type ℓ} (f : ℕ → A → Check) (k : ℕ) (xs : List A)
    → ((i : ℕ) (x : A) → get_elem? xs i ≡ some x → f (k + i) x ≡ ok tt)
    → for_each f k xs ≡ ok tt
unfolding for_each
for_each_ok f k [] h = refl
for_each_ok f k (y ∷ xs) h =
    rw (rw add-zero at (h zero y refl))
      (for_each_ok f (suc k) xs (λ i x e. rw (suc-add, ← add-suc) (h (suc i) x e)))

pub ok_inj {ℓ} : {A : Type ℓ} {a b : A} → ok a ≡ ok b → a ≡ b
ok_inj p = cc

pub or_fail-eq-ok {ℓ} :
    {A : Type ℓ} (o : Option A) (e : String) {a : A} → or_fail o e ≡ ok a → o ≡ some a
or_fail-eq-ok none e h = cc
or_fail-eq-ok (some b) e h = cc
