-- ===== src/Bounds/Join.antt =====
-- What holds on one of two paths holds after `localJoin`.
use concept.Base.{
  none, true, false, Option, ℤ, String, ◌≤ℤ◌, str_eq, Bool, ◌⊎◌, ◌≡◌, Bool-cases, inl, if_true,
  arith, inr, ◌∙◌, eq_iff, sym, ap, if_false, &&-true, ◌&&◌, subst, ltb_ℤ, refl, some,
}
use concept.Bounds.Domain.{
  join_value, update_all, local_join, hull, same_or_empty, min_ℤ, max_ℤ, LocalValue, get,
  LocalInterval, LocalBoundsState, value_or_zero, forgotten, join_option,
}
use concept.Bounds.Sound.{Holds, Abstracts, Snapshots, KnownInt, KnownLength, Holds-unknown}
use concept.Bounds.Arithmetic.{In}
use concept.Bounds.Run.{Val, Store}

min_le : (a b n : ℤ) → (a ≤ℤ n) ⊎ (b ≤ℤ n) → min_ℤ a b ≤ℤ n
min_le a b n (inl h) = ground arith
min_le a b n (inr h) = ground arith

le_max : (a b n : ℤ) → (n ≤ℤ a) ⊎ (n ≤ℤ b) → n ≤ℤ max_ℤ a b
le_max a b n (inl h) = ground arith
le_max a b n (inr h) = ground arith

pub hull-In : (x y : LocalInterval) (n : ℤ) → In x n ⊎ In y n → In (hull x y) n
hull-In x y n (inl (a, b)) = (min_le x.lo y.lo n (inl a), le_max x.hi y.hi n (inl b))
hull-In x y n (inr (a, b)) = (min_le x.lo y.lo n (inr a), le_max x.hi y.hi n (inr b))

-- A name that both paths agree on.
same_name :
    (a b : String)
    → str_eq (same_or_empty a b) "" ≡ false
    → (same_or_empty a b ≡ a) × (same_or_empty a b ≡ b)
same_name a b h = elim (Bool-cases (str_eq a b)) [
  | inl e ↦ let p = if_true (str_eq a b) a "" e in (p, p ∙ (eq_iff a b).0 e)
  | inr e ↦ absurd (differ (sym h ∙ ap (λ z. str_eq z "") (if_false (str_eq a b) a "" e)))
]
  where
    differ : false ≡ true → ⊥
    differ p = cc

join_int :
    (γ : Snapshots) (x y z : LocalValue) (w : Val)
    → z ≡ x ⊎ z ≡ y
    → KnownInt γ z w
    → (x.int_known && y.int_known) ≡ true
    → KnownInt γ (join_value x y) w
unfolding join_value
join_int γ x y z w o p k = record {
  number = p.number;
  is_number = p.is_number;
  in_interval =
      subst (λ i. In i p.number)
        (sym (if_true (x.int_known && y.int_known) (hull x.integer y.integer) x.integer k))
        (hull-In x.integer y.integer p.number (side o));
  in_int32 = p.in_int32;
  below = λ e.
      let (l, r) = same_name x.below_length y.below_length e in
      subst (λ n. ltb_ℤ p.number (γ n) ≡ true) (sym (name o l r))
        (p.below (subst (λ n. str_eq n "" ≡ false) (name o l r) e));
}
  where
    side : z ≡ x ⊎ z ≡ y → In x.integer p.number ⊎ In y.integer p.number
    side (inl e) = inl (subst (λ v. In v.integer p.number) e p.in_interval)
    side (inr e) = inr (subst (λ v. In v.integer p.number) e p.in_interval)

    name :
        {n : String} → z ≡ x ⊎ z ≡ y → n ≡ x.below_length → n ≡ y.below_length → n ≡ z.below_length
    name (inl e) l r = l ∙ ap (λ v. v.below_length) (sym e)
    name (inr e) l r = r ∙ ap (λ v. v.below_length) (sym e)

join_length :
    (γ : Snapshots) (x y z : LocalValue) (w : Val)
    → z ≡ x ⊎ z ≡ y
    → KnownLength γ z w
    → KnownLength γ (join_value x y) w
unfolding join_value
join_length γ x y z w o p = record {
  view = p.view;
  length = p.length;
  is_span = p.is_span;
  long_enough = min_le x.length_min y.length_min p.length (side o);
  identified = λ e.
      let (l, r) = same_name x.length_id y.length_id e in
      subst (λ n. γ n ≡ p.length) (sym (name o l r))
        (p.identified (subst (λ n. str_eq n "" ≡ false) (name o l r) e));
}
  where
    side : z ≡ x ⊎ z ≡ y → (x.length_min ≤ℤ p.length) ⊎ (y.length_min ≤ℤ p.length)
    side (inl e) = inl (subst (λ v. v.length_min ≤ℤ p.length) e p.long_enough)
    side (inr e) = inr (subst (λ v. v.length_min ≤ℤ p.length) e p.long_enough)

    name : {n : String} → z ≡ x ⊎ z ≡ y → n ≡ x.length_id → n ≡ y.length_id → n ≡ z.length_id
    name (inl e) l r = l ∙ ap (λ v. v.length_id) (sym e)
    name (inr e) l r = r ∙ ap (λ v. v.length_id) (sym e)

-- What holds of a value on either path holds of it after the join.
pub join_value-Holds :
    (γ : Snapshots) (x y : LocalValue) (w : Val)
    → Holds γ x w ⊎ Holds γ y w
    → Holds γ (join_value x y) w
unfolding join_value
join_value-Holds γ x y w (inl h) = record {
  known_int =
      λ k. join_int γ x y x w (inl refl) (h.known_int (&&-true x.int_known y.int_known k).0) k;
  known_length = λ k.
      join_length γ x y x w (inl refl) (h.known_length (&&-true x.length_held y.length_held k).0);
}
join_value-Holds γ x y w (inr h) = record {
  known_int =
      λ k. join_int γ x y y w (inr refl) (h.known_int (&&-true x.int_known y.int_known k).1) k;
  known_length = λ k.
      join_length γ x y y w (inr refl) (h.known_length (&&-true x.length_held y.length_held k).1);
}

joined-Holds :
    (γ : Snapshots) (s x y : Option LocalValue) (w : Val)
    → Holds γ (value_or_zero s) w
    → Holds γ (value_or_zero x) w ⊎ Holds γ (value_or_zero y) w
    → Holds γ (value_or_zero (elim (join_option x y) [ none ↦ s | some v ↦ some v ])) w
joined-Holds γ s (some x) (some y) w h o = join_value-Holds γ x y w o
joined-Holds γ s none y w h o = h
joined-Holds γ s (some x) none w h o = h

-- Nothing is said of a name that is exposed.
pub Abstracts-of :
    (exposed : String → Bool) (γ : Snapshots) (s : LocalBoundsState) (σ : Store)
    → ((x : String) → exposed x ≡ false → Holds γ (value_or_zero (s x)) (σ x))
    → Abstracts exposed γ s σ
unfolding get
Abstracts-of exposed γ s σ h x = elim (Bool-cases (exposed x)) [
  | inl e ↦
      subst (λ y. Holds γ y (σ x)) (sym (if_true (exposed x) (forgotten (value_or_zero (s x))) _ e))
        (Holds-unknown γ (forgotten (value_or_zero (s x))) (σ x) refl refl)
  | inr e ↦
      subst (λ y. Holds γ y (σ x)) (sym (if_false (exposed x) _ (value_or_zero (s x)) e)) (h x e)
]

pub Abstracts-at :
    (exposed : String → Bool) (γ : Snapshots) (s : LocalBoundsState) (σ : Store) (x : String)
    → Abstracts exposed γ s σ
    → exposed x ≡ false
    → Holds γ (value_or_zero (s x)) (σ x)
unfolding get
Abstracts-at exposed γ s σ x a e =
    subst (λ y. Holds γ y (σ x)) (if_false (exposed x) _ (value_or_zero (s x)) e) (a x)

-- After the join of two paths of which one was taken, the state is true of the store.
pub update_all-Abstracts :
    (exposed : String → Bool) (γ : Snapshots) (s x y : LocalBoundsState) (σ : Store)
    → Abstracts exposed γ s σ
    → Abstracts exposed γ x σ ⊎ Abstracts exposed γ y σ
    → Abstracts exposed γ (update_all s (local_join x y)) σ
unfolding update_all local_join
update_all-Abstracts exposed γ s x y σ a o =
    Abstracts-of exposed γ (update_all s (local_join x y)) σ (λ n e.
      joined-Holds γ (s n) (x n) (y n) (σ n) (Abstracts-at exposed γ s σ n a e) (side n e o))
  where
    side :
        (n : String)
        → exposed n ≡ false
        → Abstracts exposed γ x σ ⊎ Abstracts exposed γ y σ
        → Holds γ (value_or_zero (x n)) (σ n) ⊎ Holds γ (value_or_zero (y n)) (σ n)
    side n e (inl p) = inl (Abstracts-at exposed γ x σ n p e)
    side n e (inr p) = inr (Abstracts-at exposed γ y σ n p e)
