-- ===== src/Bounds/Access.antt =====
-- An access that the analysis proves is in its span.
use concept.Base.{
  true, false, none, String, Bool, ℤ, Option, leb_ℤ, ◌≤ℤ◌, ◌≡◌, pos, ltb_ℤ, ◌+ℤ◌, &&-true, ◌&&◌,
  arith, ◌⊎◌, ℕ, if_true, not, inl, some, ◌∙◌, Bool-cases, ap, sym, inr, if_false, str_eq, subst,
  eq_iff, refl, +ℤ_parts,
}
use concept.Bounds.Domain.{LocalValue}
use concept.Bounds.Run.{access, in_span, Machine, span_val, int_val, Val, done, trapped, undefined}
use concept.Bounds.Visit.{index_proof, checkable, counted, reached}
use concept.Bounds.Sound.{Holds, Snapshots, KnownInt, KnownLength}
use concept.Bounds.Syntax.{LocalBoundsProof}
use concept.Bounds.Assume.{longer-Holds}

pub access-in_span :
    (m : Machine) (p : Option LocalBoundsProof) (i : ℕ) (l n : ℤ) (w : Val)
    → access m p (span_val i l) (int_val n) ≡ done w
    → in_span n l ≡ true
unfolding access
access-in_span m p i l n w h = elim (Bool-cases (in_span n l)) [
  | inl e ↦ e
  | inr e ↦ absurd (stuck p (sym (if_false (in_span n l) _ _ e) ∙ h))
]
  where
    stuck :
        (q : Option LocalBoundsProof) → elim q [ none ↦ trapped | some r ↦ undefined ] ≡ done w → ⊥
    stuck none q = cc
    stuck (some r) q = cc

access-same :
    (m : Machine) (p q : Option LocalBoundsProof) (i : ℕ) (l n : ℤ)
    → in_span n l ≡ true
    → access m p (span_val i l) (int_val n) ≡ access m q (span_val i l) (int_val n)
unfolding access
access-same m p q i l n e =
    if_true (in_span n l) (done (m.element i n)) _ e
    ∙ sym (if_true (in_span n l) (done (m.element i n)) _ e)

by_interval :
    (lo n hi least l : ℤ)
    → leb_ℤ (pos 0) lo ≡ true
    → lo ≤ℤ n
    → n ≤ℤ hi
    → ltb_ℤ hi least ≡ true
    → least ≤ℤ l
    → in_span n l ≡ true
by_interval lo n hi least l a b c d e = ground arith

by_range : (lo n l : ℤ) → leb_ℤ (pos 0) lo ≡ true → lo ≤ℤ n → ltb_ℤ n l ≡ true → in_span n l ≡ true
by_range lo n l a b c = ground arith

counted-cases :
    (view snapshot : String) (counter : Option String) (old : Option LocalBoundsProof) (P : Type 0)
    → P
    → (counted view snapshot counter old ≡ old) ⊎ P
counted-cases view snapshot none old P p = inl refl
counted-cases view snapshot (some c) old P p = inr p

pub checkable-parts :
    (k : Bool) (b i : LocalValue)
    → checkable k b i ≡ true
    → (b.length_held ≡ true) × (i.int_known ≡ true) × (leb_ℤ (pos 0) i.integer.lo ≡ true)
checkable-parts k b i h =
    let (x, y) = &&-true (k && b.length_held) _ h in
    let (p, q) = &&-true i.int_known _ y in ((&&-true k b.length_held x).1, p, q)

-- A new proof is left only where the access is in its span.
proof-in_span :
    (γ : Snapshots) (view : String) (b i : LocalValue) (c : Option String)
    (old : Option LocalBoundsProof) (v u : Val) (q : KnownLength γ b v) (p : KnownInt γ i u)
    → leb_ℤ (pos 0) i.integer.lo ≡ true
    → (index_proof view b i c old ≡ old) ⊎ (in_span p.number q.length ≡ true)
unfolding index_proof
proof-in_span γ view b i c old v u q p z = elim (Bool-cases (ltb_ℤ i.integer.hi b.length_min)) [
  | inl e ↦ inr (
      by_interval i.integer.lo p.number i.integer.hi b.length_min q.length z p.in_interval.0
        p.in_interval.1 e q.long_enough)
  | inr e ↦ elim (Bool-cases (not (str_eq b.length_id "") && str_eq i.below_length b.length_id)) [
    | inr f ↦ inl (
        if_false (ltb_ℤ i.integer.hi b.length_min) _ _ e
        ∙ if_false (not (str_eq b.length_id "") && str_eq i.below_length b.length_id) _ _ f)
    | inl f ↦
        let (named, same) = &&-true (not (str_eq b.length_id "")) _ f in
        let one : i.below_length ≡ b.length_id = (eq_iff i.below_length b.length_id).0 same in
        let id_named = not_true (str_eq b.length_id "") named in
        let less : ltb_ℤ p.number q.length ≡ true =
          subst (λ n. ltb_ℤ p.number n ≡ true) (ap γ one ∙ q.identified id_named)
            (p.below (subst (λ n. str_eq n "" ≡ false) (sym one) id_named)) in
        elim (counted-cases view b.length_id c old (in_span p.number q.length ≡ true)
          (by_range i.integer.lo p.number q.length z p.in_interval.0 less)) [
            | inr r ↦ inr r
            | inl r ↦ inl (
                if_false (ltb_ℤ i.integer.hi b.length_min) _ _ e
                ∙ if_true (not (str_eq b.length_id "") && str_eq i.below_length b.length_id) _ _ f
                ∙ r)
          ]
  ]
]
  where
    not_true : (x : Bool) → not x ≡ true → x ≡ false
    not_true x e = ground arith

-- The proof changes nothing of what the access does.
pub index_proof-access :
    (γ : Snapshots) (m : Machine) (view : String) (k : Bool) (b i : LocalValue) (c : Option String)
    (old : Option LocalBoundsProof) (v u : Val)
    → Holds γ b v
    → Holds γ i u
    → checkable k b i ≡ true
    → access m (index_proof view b i c old) v u ≡ access m old v u
index_proof-access γ m view k b i c old v u hb hi h =
    let (held, known, z) = checkable-parts k b i h in
    let q = hb.known_length held in
    let p = hi.known_int known in
    elim (proof-in_span γ view b i c old v u q p z) [
      | inl e ↦ ap (λ x. access m x v u) e
      | inr e ↦
          subst (λ x. access m (index_proof view b i c old) x u ≡ access m old x u) (sym q.is_span)
            (subst
              (λ y.
                access m (index_proof view b i c old) (span_val q.view q.length) y
                ≡ access m old (span_val q.view q.length) y)
              (sym p.is_number)
              (access-same m (index_proof view b i c old) old q.view q.length p.number e))
    ]

beyond : (lo n l : ℤ) → lo ≤ℤ n → in_span n l ≡ true → lo +ℤ pos 1 ≤ℤ l
beyond lo n l a h = ground (arith, +ℤ_parts lo (pos 1))

-- After the access the span is longer than the lower endpoint.
pub reached-Holds :
    (γ : Snapshots) (m : Machine) (k : Bool) (b i : LocalValue) (p : Option LocalBoundsProof)
    (v u w : Val)
    → Holds γ b v
    → Holds γ i u
    → checkable k b i ≡ true
    → access m p v u ≡ done w
    → Holds γ (reached b i) v
reached-Holds γ m k b i p v u w hb hi h e =
    let (held, known, z) = checkable-parts k b i h in
    let n = hi.known_int known in
    longer-Holds γ b (i.integer.lo +ℤ pos 1) v hb (λ j l s.
      beyond i.integer.lo n.number l n.in_interval.0 (
        access-in_span m p j l n.number w (
          subst (λ y. access m p (span_val j l) y ≡ done w) n.is_number
            (subst (λ x. access m p x u ≡ done w) s e))))
