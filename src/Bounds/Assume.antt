-- ===== src/Bounds/Assume.antt =====
-- Refinements of a state that keep it true of the store.
use concept.Bounds.Analysis.{refine, narrow, raise_length, narrowed, length_bound}
use concept.Bounds.Run.{Val, run, Machine, span_val, Store, int_val, done, length_of}
use concept.Bounds.Sound.{Holds, Abstracts, Snapshots, Holds-unknown}
use concept.Bounds.Meets.{Meets, max_le, length_bound-le, narrow-In}
use concept.Base.{
  String, ℤ, Bool, ◌≡◌, ℕ, true, Option, ◌≤ℤ◌, Bool-cases, some, inl, subst, inr, sym, if_false,
  if_true, str_eq, eq_iff, refl, none, ap,
}
use concept.Bounds.Domain.{
  LocalValue, get, assign, forgotten, LocalInterval, LocalBoundsState, BinaryOp, max_ℤ,
  value_or_zero,
}
use concept.Bounds.Syntax.{
  Expr, len_call, name_expr, int_literal, comptime_int, bool_literal, paren, cast, unary, binary,
  index, if_expr, opaque,
}
use concept.Bounds.Arithmetic.{In}

Holds-forgotten : (γ : Snapshots) (v : LocalValue) (w : Val) → Holds γ (forgotten v) w
Holds-forgotten γ v w = Holds-unknown γ (forgotten v) w refl refl

-- A name may be given any value that holds of what it stores.
pub assign-Abstracts :
    (exposed : String → Bool) (γ : Snapshots) (s : LocalBoundsState) (σ : Store) (x : String)
    (v : LocalValue)
    → Abstracts exposed γ s σ
    → Holds γ v (σ x)
    → Abstracts exposed γ (assign s x v) σ
unfolding get assign
assign-Abstracts exposed γ s σ x v a h z = elim (Bool-cases (exposed z)) [
  | inl e ↦
      subst (λ y. Holds γ y (σ z))
        (sym (if_true (exposed z) (forgotten (value_or_zero (assign s x v z))) _ e))
        (Holds-forgotten γ (value_or_zero (assign s x v z)) (σ z))
  | inr e ↦
      subst (λ y. Holds γ y (σ z)) (sym (if_false (exposed z) _ (value_or_zero (assign s x v z)) e))
        (elim (Bool-cases (str_eq z x)) [
          | inl same ↦
              let p : z ≡ x = (eq_iff z x).0 same in
              subst (λ y. Holds γ (value_or_zero y) (σ z))
                (sym (if_true (str_eq z x) (some v) (s z) same))
                (subst (λ y. Holds γ v (σ y)) (sym p) h)
          | inr other ↦
              subst (λ y. Holds γ (value_or_zero y) (σ z))
                (sym (if_false (str_eq z x) (some v) (s z) other))
                (subst (λ y. Holds γ y (σ z)) (if_false (exposed z) _ (value_or_zero (s z)) e)
                  (a z))
        ])
]

narrowed-Holds :
    (γ : Snapshots) (v : LocalValue) (i : LocalInterval) (w : Val)
    → Holds γ v w
    → v.int_known ≡ true
    → ((a : ℤ) → w ≡ int_val a → In v.integer a → In i a)
    → Holds γ (narrowed v i) w
narrowed-Holds γ v i w h k narrower =
    let p = h.known_int k in
    record {
      known_int = λ e. record {
        number = p.number;
        is_number = p.is_number;
        in_interval = narrower p.number p.is_number p.in_interval;
        in_int32 = p.in_int32;
        below = p.below;
      };
      known_length = λ e.
          let q = h.known_length e in
          record {
            view = q.view;
            length = q.length;
            is_span = q.is_span;
            long_enough = q.long_enough;
            identified = q.identified;
          };
    }

-- A span is at least as long as a number that its length reaches.
pub longer-Holds :
    (γ : Snapshots) (v : LocalValue) (n : ℤ) (w : Val)
    → Holds γ v w
    → ((i : ℕ) (l : ℤ) → w ≡ span_val i l → n ≤ℤ l)
    → Holds γ (record v { length_min = max_ℤ v.length_min n }) w
longer-Holds γ v n w h longer = record {
  known_int = λ e.
      let p = h.known_int e in
      record {
        number = p.number;
        is_number = p.is_number;
        in_interval = p.in_interval;
        in_int32 = p.in_int32;
        below = p.below;
      };
  known_length = λ e.
      let q = h.known_length e in
      record {
        view = q.view;
        length = q.length;
        is_span = q.is_span;
        long_enough =
            max_le v.length_min n q.length q.long_enough (longer q.view q.length q.is_span);
        identified = q.identified;
      };
}

raise_length-Abstracts :
    (exposed : String → Bool) (γ : Snapshots) (s : LocalBoundsState) (σ : Store) (x : String)
    (o : Option ℤ)
    → Abstracts exposed γ s σ
    → ((n : ℤ) (i : ℕ) (l : ℤ) → o ≡ some n → σ x ≡ span_val i l → n ≤ℤ l)
    → Abstracts exposed γ (raise_length s x (get exposed s x) o) σ
raise_length-Abstracts exposed γ s σ x none a h = a
raise_length-Abstracts exposed γ s σ x (some n) a h =
    elim (Bool-cases ((get exposed s x).length_held)) [
      | inr e ↦
          subst (λ y. Abstracts exposed γ y σ)
            (sym (if_false ((get exposed s x).length_held) _ s e)) a
      | inl e ↦
          subst (λ y. Abstracts exposed γ y σ) (sym (if_true ((get exposed s x).length_held) _ s e))
            (assign-Abstracts exposed γ s σ x _ a
              (longer-Holds γ (get exposed s x) n (σ x) (a x) (λ i l q. h n i l refl q)))
    ]

-- The left operand computed `a`, and `a op n`.
pub refine-Abstracts :
    (exposed : String → Bool) (γ : Snapshots) (m : Machine) (s : LocalBoundsState) (σ : Store)
    (op : BinaryOp) (left : Expr) (n : ℤ)
    → Abstracts exposed γ s σ
    → ((a : ℤ) → run m σ left ≡ done (int_val a) → Meets op a n)
    → Abstracts exposed γ (refine exposed op left n s) σ
unfolding refine run
refine-Abstracts exposed γ m s σ op (len_call x) n a h =
    raise_length-Abstracts exposed γ s σ x (length_bound op n) a
      (λ l i k e q. length_bound-le op n k l (h k (ap length_of q)) e)
refine-Abstracts exposed γ m s σ op (name_expr x) n a h =
    elim (Bool-cases ((get exposed s x).int_known)) [
      | inr e ↦
          subst (λ y. Abstracts exposed γ y σ) (sym (if_false ((get exposed s x).int_known) _ s e))
            a
      | inl e ↦
          subst (λ y. Abstracts exposed γ y σ) (sym (if_true ((get exposed s x).int_known) _ s e))
            (assign-Abstracts exposed γ s σ x _ a (
              narrowed-Holds γ (get exposed s x) (narrow op n ((get exposed s x).integer)) (σ x)
                (a x) e
                (λ k q inside.
                  narrow-In op n k ((get exposed s x).integer) inside (h k (ap done q)))))
    ]
refine-Abstracts exposed γ m s σ op (int_literal k b) n a h = a
refine-Abstracts exposed γ m s σ op (comptime_int k) n a h = a
refine-Abstracts exposed γ m s σ op (bool_literal b) n a h = a
refine-Abstracts exposed γ m s σ op (paren e) n a h = a
refine-Abstracts exposed γ m s σ op (cast t e) n a h = a
refine-Abstracts exposed γ m s σ op (unary o e) n a h = a
refine-Abstracts exposed γ m s σ op (binary o r k x y) n a h = a
refine-Abstracts exposed γ m s σ op (index b i k p) n a h = a
refine-Abstracts exposed γ m s σ op (if_expr c x y) n a h = a
refine-Abstracts exposed γ m s σ op (opaque k) n a h = a
