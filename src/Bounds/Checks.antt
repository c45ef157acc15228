-- ===== src/Bounds/Checks.antt =====
-- The proofs that `visit` leaves change no run, and its states and values are true.
use concept.Bounds.Assume.{assign-Abstracts}
use concept.Bounds.Analysis.{value, assume}
use concept.Base.{
  true, false, none, String, Bool, ◌≡◌, some, ap, some_inj, Option, Bool-cases, inl, subst, sym,
  if_true, inr, if_false, ◌∙◌, refl,
}
use concept.Bounds.Visit.{
  visit, visit_index, name_of, Visited, checkable, index_proof, reached, right_state,
}
use concept.Bounds.Syntax.{
  Expr, name_expr, int_literal, comptime_int, bool_literal, paren, cast, unary, binary, index,
  len_call, if_expr, opaque, LocalBoundsProof,
}
use concept.Bounds.Run.{run, Machine, Store, done, and_then, run_cast, run_unary, Val}
use concept.Bounds.Branches.{Correct, and_then-ap, narrow_cast-Holds, if_expr-Correct}
use concept.Bounds.Sound.{
  Snapshots, Abstracts, and_then-done, Unscaled, Holds-no_value, done_inj, Holds,
}
use concept.Bounds.Domain.{no_value, LocalBoundsState, assign}
use concept.Bounds.Access.{index_proof-access, reached-Holds}
use concept.Bounds.Assume.{assign-Abstracts}
use concept.Bounds.Value.{cast-Sound, unary-Sound, value_true}
use concept.Bounds.Operands.{binary-Correct}

name_of_lem :
    (m : Machine) (σ : Store) (e : Expr) (x : String) → name_of e ≡ some x → run m σ e ≡ done (σ x)
unfolding name_of run
name_of_lem m σ (name_expr y) x h = ap (λ z. done (σ z)) (some_inj h)
name_of_lem m σ (int_literal n b) x h = cc
name_of_lem m σ (comptime_int v) x h = cc
name_of_lem m σ (bool_literal b) x h = cc
name_of_lem m σ (paren e) x h = cc
name_of_lem m σ (cast t e) x h = cc
name_of_lem m σ (unary op e) x h = cc
name_of_lem m σ (binary op r k y z) x h = cc
name_of_lem m σ (index b i k p) x h = cc
name_of_lem m σ (len_call v) x h = cc
name_of_lem m σ (if_expr c y z) x h = cc
name_of_lem m σ (opaque k) x h = cc

unchecked-Correct :
    (exposed : String → Bool) (γ : Snapshots) (m : Machine) (σ : Store) (b i : Expr) (k : Bool)
    (old : Option LocalBoundsProof) (v u : Visited)
    → Correct exposed γ m σ b v
    → (Abstracts exposed γ v.after σ → Correct exposed γ m σ i u)
    → Correct exposed γ m σ (index b i k old) (record {
      annotated = index v.annotated u.annotated k old;
      found = no_value;
      after = u.after;
    })
unfolding run
unchecked-Correct exposed γ m σ b i k old v u (hb, pb) hi = (
  and_then-ap (run m σ v.annotated) (run m σ b) _ _ hb
      (λ w e. and_then-ap (run m σ u.annotated) (run m σ i) _ _ (hi (pb w e).1).0 (λ z d. refl)),
  λ w h.
      let (x, e, d) = and_then-done (run m σ b) _ w h in
      let (y, f, g) = and_then-done (run m σ i) _ w d in
      (Holds-no_value γ w, ((hi (pb x e).1).1 y f).1),
)

checked-Correct :
    (exposed : String → Bool) (γ : Snapshots) (m : Machine) (σ : Store) (b i : Expr) (view : String)
    (counter : Option String) (k : Bool) (old : Option LocalBoundsProof) (v u : Visited)
    → name_of b ≡ some view
    → checkable k v.found u.found ≡ true
    → Correct exposed γ m σ b v
    → (Abstracts exposed γ v.after σ → Correct exposed γ m σ i u)
    → Correct exposed γ m σ (index b i k old) (record {
      annotated = index v.annotated u.annotated k (index_proof view v.found u.found counter old);
      found = no_value;
      after = assign u.after view (reached v.found u.found);
    })
unfolding run
checked-Correct exposed γ m σ b i view counter k old v u name checks (hb, pb) hi = (
  and_then-ap (run m σ v.annotated) (run m σ b) _ _ hb (λ w e.
      and_then-ap (run m σ u.annotated) (run m σ i) _ _ (hi (pb w e).1).0 (λ z d.
        index_proof-access γ m view k v.found u.found counter old w z (pb w e).0
          ((hi (pb w e).1).1 z d).0 checks)),
  λ w h.
      let (x, e, d) = and_then-done (run m σ b) _ w h in
      let (y, f, g) = and_then-done (run m σ i) _ w d in
      let p = (hi (pb x e).1).1 y f in
      let stored : x ≡ σ view = done_inj (sym e ∙ name_of_lem m σ b view name) in
      (
        Holds-no_value γ w,
        assign-Abstracts exposed γ u.after σ view (reached v.found u.found) p.1 (
            subst (Holds γ (reached v.found u.found)) stored
              (reached-Holds γ m k v.found u.found old x y w (pb x e).0 p.0 checks g)),
      ),
)

index-Correct :
    (exposed : String → Bool) (γ : Snapshots) (m : Machine) (σ : Store) (b i : Expr)
    (view counter : Option String) (k : Bool) (old : Option LocalBoundsProof) (v u : Visited)
    → name_of b ≡ view
    → Correct exposed γ m σ b v
    → (Abstracts exposed γ v.after σ → Correct exposed γ m σ i u)
    → Correct exposed γ m σ (index b i k old) (visit_index view counter k old v u)
unfolding visit_index
index-Correct exposed γ m σ b i none counter k old v u name hb hi =
    unchecked-Correct exposed γ m σ b i k old v u hb hi
index-Correct exposed γ m σ b i (some view) counter k old v u name hb hi =
    elim (Bool-cases (checkable k v.found u.found)) [
      | inl e ↦
          subst (Correct exposed γ m σ (index b i k old))
            (sym (if_true (checkable k v.found u.found) _ _ e))
            (checked-Correct exposed γ m σ b i view counter k old v u name e hb hi)
      | inr e ↦
          subst (Correct exposed γ m σ (index b i k old))
            (sym (if_false (checkable k v.found u.found) _ _ e))
            (unchecked-Correct exposed γ m σ b i k old v u hb hi)
    ]

visit-Correct :
    (exposed : String → Bool) (γ : Snapshots) (m : Machine) (σ : Store) (e : Expr)
    (s : LocalBoundsState)
    → Abstracts exposed γ s σ
    → Unscaled e
    → Correct exposed γ m σ e (visit exposed e s)
unfolding visit value run
visit-Correct exposed γ m σ (paren e) s a u = visit-Correct exposed γ m σ e s a u
visit-Correct exposed γ m σ (cast t e) s a u =
    let (h, p) = visit-Correct exposed γ m σ e s a u in
    (
      ap (λ z. and_then z (run_cast m t)) h,
      λ w d.
          let (x, f, g) = and_then-done (run m σ e) (run_cast m t) w d in
          (
            narrow_cast-Holds γ t (visit exposed e s).found w
                (cast-Sound γ m t (visit exposed e s).found (run m σ e) (λ z q. (p z q).0) w d),
            (p x f).1,
          ),
    )
visit-Correct exposed γ m σ (unary op e) s a u =
    let (h, p) = visit-Correct exposed γ m σ e s a u in
    (
      ap (λ z. and_then z (run_unary m op)) h,
      λ w d.
          let (x, f, g) = and_then-done (run m σ e) (run_unary m op) w d in
          (
            unary-Sound γ m op (visit exposed e s).found (run m σ e) (λ z q. (p z q).0) w d,
            (p x f).1,
          ),
    )
visit-Correct exposed γ m σ (binary op r k x y) s a (uk, ux, uy) =
    binary-Correct exposed γ m σ op r k x y (visit exposed x s)
      (visit exposed y (right_state exposed op x (visit exposed x s).after)) ux uk
      (visit-Correct exposed γ m σ x s a ux)
      (λ b. visit-Correct exposed γ m σ y (right_state exposed op x (visit exposed x s).after) b uy)
visit-Correct exposed γ m σ (index b i k p) s a (ub, ui) =
    index-Correct exposed γ m σ b i (name_of b) (name_of i) k p (visit exposed b s)
      (visit exposed i (visit exposed b s).after) refl (visit-Correct exposed γ m σ b s a ub)
      (λ c. visit-Correct exposed γ m σ i (visit exposed b s).after c ui)
visit-Correct exposed γ m σ (if_expr c x y) s a (uc, ux, uy) =
    if_expr-Correct exposed γ m σ c x y (visit exposed c s)
      (visit exposed x (assume exposed c true (visit exposed c s).after))
      (visit exposed y (assume exposed c false (visit exposed c s).after)) uc
      (visit-Correct exposed γ m σ c s a uc)
      (λ b. visit-Correct exposed γ m σ x (assume exposed c true (visit exposed c s).after) b ux)
      (λ b. visit-Correct exposed γ m σ y (assume exposed c false (visit exposed c s).after) b uy)
visit-Correct exposed γ m σ (int_literal n b) s a u =
    (refl, λ w d. (value_true exposed γ m s σ (int_literal n b) a u w d, a))
visit-Correct exposed γ m σ (comptime_int v) s a u =
    (refl, λ w d. (value_true exposed γ m s σ (comptime_int v) a u w d, a))
visit-Correct exposed γ m σ (name_expr x) s a u =
    (refl, λ w d. (value_true exposed γ m s σ (name_expr x) a u w d, a))
visit-Correct exposed γ m σ (bool_literal b) s a u = (refl, λ w d. (Holds-no_value γ w, a))
visit-Correct exposed γ m σ (len_call v) s a u = (refl, λ w d. (Holds-no_value γ w, a))
visit-Correct exposed γ m σ (opaque k) s a u = (refl, λ w d. (Holds-no_value γ w, a))

-- In a store that is as the state says, an expression without scaled arithmetic has the same
-- outcome with the proofs that the analysis leaves in it, where an access with a proof is not
-- checked and is undefined out of bounds, as without them.
pub visit-run :
    (exposed : String → Bool) (γ : Snapshots) (m : Machine) (σ : Store) (e : Expr)
    (s : LocalBoundsState)
    → Abstracts exposed γ s σ
    → Unscaled e
    → run m σ (visit exposed e s).annotated ≡ run m σ e
visit-run exposed γ m σ e s a u = (visit-Correct exposed γ m σ e s a u).0

-- Where an expression without scaled arithmetic has a value, in a store that is as the state says,
-- the abstract value that `visit` finds is true of it, and the state afterwards, with what the
-- successful accesses and the branches taken have shown, is true of the store.
pub visit_true :
    (exposed : String → Bool) (γ : Snapshots) (m : Machine) (σ : Store) (e : Expr)
    (s : LocalBoundsState) (w : Val)
    → Abstracts exposed γ s σ
    → Unscaled e
    → run m σ e ≡ done w
    → Holds γ (visit exposed e s).found w × Abstracts exposed γ (visit exposed e s).after σ
visit_true exposed γ m σ e s w a u h = (visit-Correct exposed γ m σ e s a u).1 w h
