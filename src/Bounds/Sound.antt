-- ===== src/Bounds/Sound.antt =====
-- What an abstract value says of a value, and that `value` says it truly.
use concept.Bounds.Run.{Val, done, and_then, Outcome, int_val, span_val, Store, is_int32, trapped}
use concept.Bounds.Domain.{
  BinaryOp, LocalValue, no_value, LocalInterval, local_arithmetic, if_int32, LocalBoundsState,
  within_int32, interval_of, get, known_interval,
}
use concept.Base.{
  Bool, ℤ, Option, ◌≡◌, String, true, ℕ, false, if◌then◌else◌, some, ◌≤ℤ◌, not, str_eq, ◌||◌, arith,
  ◌∙◌, none, refl, ltb_ℤ, subst, sym,
}
use concept.Bounds.Syntax.{
  Expr, paren, cast, unary, binary, index, if_expr, int_literal, comptime_int, bool_literal,
  name_expr, len_call, opaque,
}
use concept.Bounds.Arithmetic.{In, exact_result, interval_of-In}
use concept.Bounds.Run.{undefined}

-- The ghost argument gives the length that each snapshot of a span stands for.
abbrev pub Snapshots : Type 0
Snapshots = String → ℤ

pub record KnownInt (γ : Snapshots) (v : LocalValue) (w : Val) : Type 0 where
  pub number : ℤ
  pub is_number : w ≡ int_val number
  pub in_interval : In v.integer number
  pub in_int32 : is_int32 number ≡ true
  pub below : str_eq v.below_length "" ≡ false → ltb_ℤ number (γ v.below_length) ≡ true

pub record KnownLength (γ : Snapshots) (v : LocalValue) (w : Val) : Type 0 where
  pub view : ℕ
  pub length : ℤ
  pub is_span : w ≡ span_val view length
  pub long_enough : v.length_min ≤ℤ length
  pub identified : str_eq v.length_id "" ≡ false → γ v.length_id ≡ length

pub record Holds (γ : Snapshots) (v : LocalValue) (w : Val) : Type 0 where
  pub known_int : v.int_known ≡ true → KnownInt γ v w
  pub known_length : v.length_held ≡ true → KnownLength γ v w

-- Every value of the store is as the state says.
abbrev pub Abstracts : (String → Bool) → Snapshots → LocalBoundsState → Store → Type 0
Abstracts exposed γ s σ = (x : String) → Holds γ (get exposed s x) (σ x)

-- No arithmetic of the expression scales units.
abbrev pub Unscaled : Expr → Type 0
Unscaled (paren e) = Unscaled e
Unscaled (cast t e) = Unscaled e
Unscaled (unary op e) = Unscaled e
Unscaled (binary op r k x y) = (k ≡ false) × Unscaled x × Unscaled y
Unscaled (index b i k p) = Unscaled b × Unscaled i
Unscaled (if_expr c x y) = Unscaled c × Unscaled x × Unscaled y
Unscaled (int_literal n b) = Unit
Unscaled (comptime_int v) = Unit
Unscaled (bool_literal b) = Unit
Unscaled (name_expr x) = Unit
Unscaled (len_call v) = Unit
Unscaled (opaque k) = Unit

pub Holds-unknown :
    (γ : Snapshots) (v : LocalValue) (w : Val)
    → v.int_known ≡ false
    → v.length_held ≡ false
    → Holds γ v w
Holds-unknown γ v w a b = record { known_int = λ h. cc; known_length = λ h. cc }

pub Holds-no_value : (γ : Snapshots) (w : Val) → Holds γ no_value w
Holds-no_value γ w = Holds-unknown γ no_value w refl refl

pub and_then-done :
    (o : Outcome) (f : Val → Outcome) (w : Val)
    → and_then o f ≡ done w
    → (v : Val) × (o ≡ done v) × (f v ≡ done w)
unfolding and_then
and_then-done (done v) f w h = (v, refl, h)
and_then-done trapped f w h = cc
and_then-done undefined f w h = cc

pub done_inj : {v w : Val} → done v ≡ done w → v ≡ w
done_inj h = cc

pub int_inj : {a b : ℤ} → int_val a ≡ int_val b → a ≡ b
int_inj h = cc

known_if :
    (b : Bool) (v : LocalValue)
    → (if b then no_value else v).int_known ≡ true
    → (b ≡ false) × (v.int_known ≡ true) × ((if b then no_value else v) ≡ v)
known_if true v h = cc
known_if false v h = (refl, h, refl)

known_unless :
    (b : Bool) (v : LocalValue)
    → (if b then v else no_value).int_known ≡ true
    → (b ≡ true) × ((if b then v else no_value) ≡ v)
known_unless true v h = (refl, refl)
known_unless false v h = cc

if_int32_known :
    (o : Option LocalInterval)
    → (if_int32 o).int_known ≡ true
    → (i : LocalInterval) × (o ≡ some i) × (within_int32 i ≡ true) × (if_int32 o ≡ known_interval i)
if_int32_known none h = cc
if_int32_known (some i) h =
    let (a, b) = known_unless (within_int32 i) (known_interval i) h in (i, refl, a, b)

-- A known result of `local_arithmetic`.
pub local_arithmetic-known :
    (op : BinaryOp) (x y : LocalValue)
    → (local_arithmetic op x y).int_known ≡ true
    → (i : LocalInterval) × (x.int_known ≡ true)
      × (y.int_known ≡ true)
      × (interval_of op x.integer y.integer ≡ some i)
      × (within_int32 i ≡ true)
      × (local_arithmetic op x y ≡ known_interval i)
unfolding local_arithmetic
local_arithmetic-known op x y h =
    let (a, h₁, e₁) = known_if (not x.int_known || not y.int_known) _ h in
    let (b, h₂, e₂) =
      known_if (not (within_int32 x.integer) || not (within_int32 y.integer)) _ h₁ in
    let (i, o, w, e₃) = if_int32_known (interval_of op x.integer y.integer) h₂ in
    let (kx, ky) = both x.int_known y.int_known a in (i, kx, ky, o, w, e₁ ∙ e₂ ∙ e₃)
  where
    both : (p q : Bool) → (not p || not q) ≡ false → (p ≡ true) × (q ≡ true)
    both p q h = ground arith

within-is_int32 : (i : LocalInterval) (n : ℤ) → within_int32 i ≡ true → In i n → is_int32 n ≡ true
within-is_int32 i n h k = ground arith

pub Holds-interval :
    (γ : Snapshots) (i : LocalInterval) (n : ℤ)
    → In i n
    → is_int32 n ≡ true
    → Holds γ (known_interval i) (int_val n)
Holds-interval γ i n h k = record {
  known_int =
      λ e. record { number = n; is_number = refl; in_interval = h; in_int32 = k; below = λ f. cc };
  known_length = λ e. cc;
}

-- Interval arithmetic on known numbers: the exact result is an int32 and as the interval says.
pub local_arithmetic-Holds :
    (γ : Snapshots) (op : BinaryOp) (x y : LocalValue) (v w : Val)
    → Holds γ x v
    → Holds γ y w
    → (local_arithmetic op x y).int_known ≡ true
    → (a b n : ℤ) × (v ≡ int_val a)
      × (w ≡ int_val b)
      × (exact_result op a b ≡ some n)
      × (is_int32 n ≡ true)
      × Holds γ (local_arithmetic op x y) (int_val n)
local_arithmetic-Holds γ op x y v w hx hy h =
    let (i, kx, ky, o, t, e) = local_arithmetic-known op x y h in
    let p = hx.known_int kx in
    let q = hy.known_int ky in
    let (n, en, inn) =
      interval_of-In op x.integer y.integer i p.number q.number p.in_interval q.in_interval o in
    let k = within-is_int32 i n t inn in
    (
      p.number,
      q.number,
      n,
      p.is_number,
      q.is_number,
      en,
      k,
      subst (λ z. Holds γ z (int_val n)) (sym e) (Holds-interval γ i n inn k),
    )
