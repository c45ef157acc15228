-- ===== src/Bounds/Tests.antt =====
-- The theorems of Bounds at a guarded access `i < 3 ? v[i] : 0`, with `v` of 5 elements, and at the
-- body `i = 0`.
use concept.Base.{
  refl, none, true, false, ◌≡◌, String, pos, Bool, if◌then◌else◌, ◌||◌, arith, if_false, some,
  str_eq, ◌∙◌, sym, ◌-ℤ◌,
}
use concept.Bounds.Domain.{
  assign, less, known_interval, LocalValue, LocalBoundsState, no_value, get,
}
use concept.Bounds.Syntax.{Expr, binary, name_expr, if_expr, int_literal, index, checked_flow}
use concept.Bounds.Assume.{assign-Abstracts}
use concept.Bounds.Join.{Abstracts-of, Abstracts-at}
use concept.Bounds.Visit.{visit, visit_binary, visit_index, right_state, name_of, index_proof}
use concept.Bounds.Checks.{visit-run, visit_true}
use concept.Bounds.Defined.{visit-run_defined}
use concept.Bounds.Analysis.{value, assume, splits, refine, narrow}
use concept.Bounds.Condition.{assume-Abstracts}
use concept.Bounds.Forget.{
  end_block, stmt_then, assign_stmt, forget_writes, writes, no_while_else, Block,
}
use concept.Bounds.Writes.{forget_writes-Abstracts}
use concept.Bounds.Sound.{Abstracts, Snapshots, Holds, Holds-no_value, Holds-interval}
use concept.Bounds.Run.{
  Machine, Store, span_val, run, done, int_val, run_operands, undefined, run_binary, run_ints,
  and_then, access, bool_val,
}

abbrev machine : Machine
machine = record {
  overflow = λ n. none;
  element = λ i n. int_val n;
  convert = λ t v. none;
  apply = λ op v. none;
  operate = λ op r k v w. none;
  unknown = λ σ k. none;
}

abbrev none_exposed : String → Bool
none_exposed x = false

abbrev snapshots : Snapshots
snapshots id = pos 5

-- `i` is 2 and every other name is a span of 5 elements.
abbrev store : Store
store x = if str_eq x "i" then int_val (pos 2) else span_val 7 (pos 5)

abbrev no_names : LocalBoundsState
no_names x = none

abbrev small : LocalValue
small = known_interval (record { lo = pos 0; hi = pos 9 })

abbrev span_value : LocalValue
span_value = record no_value { length_min = pos 3; length_held = true; length_id = "v#1" }

abbrev state : LocalBoundsState
state = assign (assign no_names "i" small) "v" span_value

no_names-Abstracts : Abstracts none_exposed snapshots no_names store
no_names-Abstracts =
    Abstracts-of none_exposed snapshots no_names store (λ x e. Holds-no_value snapshots (store x))

small-Holds : Holds snapshots small (int_val (pos 2))
small-Holds =
    Holds-interval snapshots (record { lo = pos 0; hi = pos 9 }) (pos 2) (omega arith, omega arith)
      refl

span_value-Holds : Holds snapshots span_value (span_val 7 (pos 5))
span_value-Holds = record {
  known_int = λ e. cc;
  known_length = λ e. record {
    view = 7;
    length = pos 5;
    is_span = refl;
    long_enough = omega arith;
    identified = λ f. refl;
  };
}

state-Abstracts : Abstracts none_exposed snapshots state store
state-Abstracts =
    assign-Abstracts none_exposed snapshots (assign no_names "i" small) store "v" span_value
      (assign-Abstracts none_exposed snapshots no_names store "i" small no_names-Abstracts
        small-Holds)
      span_value-Holds

abbrev below_three : Expr
below_three = binary less "bool" false (name_expr "i") (int_literal 3 false)

abbrev guarded : Expr
guarded =
    if_expr below_three (index (name_expr "v") (name_expr "i") true none) (int_literal 0 false)

guarded-run : run machine store guarded ≡ done (int_val (pos 2))
unfolding run run_operands run_binary run_ints access and_then
guarded-run = refl

visit-run_example :
    run machine store (visit none_exposed guarded state).annotated ≡ run machine store guarded
visit-run_example =
    visit-run none_exposed snapshots machine store guarded state state-Abstracts
      ((refl, tt, tt), (tt, tt), tt)

visit-run_defined_example :
    ¬ (run machine store (visit none_exposed guarded state).annotated ≡ undefined)
visit-run_defined_example =
    visit-run_defined none_exposed snapshots machine store guarded state state-Abstracts
      ((refl, tt, tt), (tt, tt), tt) ((tt, tt), (refl, tt, tt), tt)

visit_true_example :
    Holds snapshots (visit none_exposed guarded state).found (int_val (pos 2))
    × Abstracts none_exposed snapshots (visit none_exposed guarded state).after store
visit_true_example =
    visit_true none_exposed snapshots machine store guarded state (int_val (pos 2)) state-Abstracts
      ((refl, tt, tt), (tt, tt), tt) guarded-run

below_three-run : run machine store below_three ≡ done (bool_val true)
unfolding run run_operands run_binary run_ints and_then
below_three-run = refl

assume-Abstracts_example :
    Abstracts none_exposed snapshots (assume none_exposed below_three true state) store
assume-Abstracts_example =
    assume-Abstracts none_exposed snapshots machine store below_three true state state-Abstracts
      (refl, tt, tt) below_three-run

name-run : run machine store (name_expr "i") ≡ done (int_val (pos 2))
unfolding run
name-run = refl

-- The access is proved, by the interval of the condition.
guarded_proof :
    (visit none_exposed guarded state).annotated
    ≡ if_expr below_three
        (index (name_expr "v") (name_expr "i") true (some (checked_flow (pos 0) (pos 2) (pos 3))))
        (int_literal 0 false)
unfolding visit visit_binary visit_index right_state name_of index_proof assume splits refine narrow
    value get assign ◌-ℤ◌
guarded_proof = refl

abbrev body : Block
body = stmt_then (assign_stmt (name_expr "i")) end_block

body_no_else : no_while_else body ≡ true
unfolding no_while_else
body_no_else = refl

abbrev store_after : Store
store_after x =
    if str_eq x "i"
    then int_val (pos 0)
    else if str_eq x "v"
    then span_val 8 (pos 2)
    else span_val 7 (pos 5)

-- The address of `v` is taken.
abbrev v_exposed : String → Bool
v_exposed x = str_eq x "v"

exposed-Abstracts : Abstracts v_exposed snapshots state store
exposed-Abstracts =
    Abstracts-of v_exposed snapshots state store
      (λ x e. Abstracts-at none_exposed snapshots state store x state-Abstracts refl)

-- The body assigns `i`, and `v` has another length.
changed_only : (x : String) → v_exposed x ≡ false → writes body x ≡ false → store_after x ≡ store x
unfolding writes name_of
changed_only x e h =
    if_false (str_eq x "i") _ (if str_eq x "v" then span_val 8 (pos 2) else span_val 7 (pos 5))
      (not_i h)
    ∙ if_false (str_eq x "v") (span_val 8 (pos 2)) (span_val 7 (pos 5)) e
    ∙ sym (if_false (str_eq x "i") _ (span_val 7 (pos 5)) (not_i h))
  where
    not_i : {b : Bool} → (b || false) ≡ false → b ≡ false
    not_i p = ground arith

forget_writes-Abstracts_example :
    Abstracts v_exposed snapshots (forget_writes body state) store_after
forget_writes-Abstracts_example =
    forget_writes-Abstracts v_exposed snapshots body state store store_after body_no_else
      exposed-Abstracts changed_only
