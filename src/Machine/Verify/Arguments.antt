-- ===== src/Machine/Verify/Arguments.antt =====
-- The argument table of an accepted function.
use concept.Base.{
  ◌<◌, ◌≡◌, ◌≢◌, ok, ℕ, get_elem?, some, arith, ==ℤ_iff, List, pos, >>=-eq-ok, subst, zero-add,
  for_each-get, sym, ◌∙◌, true, ◌==ℤ◌,
}
use concept.Machine.Registers.{MachineArg, win64_argument}
use concept.Machine.Registers.Convention.{location, win64_argument-location_inj}
use concept.Machine.Parts.{verify_arg, bool_eq}
use concept.Machine.Verify.{verify_machine_function}
use concept.Machine.Ir.{MachineFunction, MachineVReg}
use concept.Machine.Verify.Blocks.{verify_machine_function-AcceptedFunction}

location_lem :
    (a e : MachineArg)
    → bool_eq a.on_stack e.on_stack ≡ true
    → (a.register ==ℤ e.register) ≡ true
    → (a.stack_offset ==ℤ e.stack_offset) ≡ true
    → location a ≡ location e
unfolding location
location_lem a e s r o =
    ground (arith, ==ℤ_iff a.register e.register, ==ℤ_iff a.stack_offset e.stack_offset)

-- An accepted argument is where the convention puts an argument of its index and type.
pub verify_arg-location :
    (vregs : List MachineVReg) (i : ℕ) (a : MachineArg)
    → verify_arg vregs i a ≡ ok tt
    → (e : MachineArg) × (win64_argument (pos i) a.typ ≡ ok e) × (location a ≡ location e)
unfolding verify_arg
verify_arg-location vregs i a h =
    let (e, p, q) = >>=-eq-ok (win64_argument (pos i) a.typ) _ h in
    (e, p, location_lem a e (ground arith) (ground arith) (ground arith))

-- In an accepted function two arguments at different indices below 2^59 are passed in different
-- places.
pub verify_machine_function-location_inj :
    (f : MachineFunction) (i j : ℕ) (a b : MachineArg)
    → i < 576460752303423488
    → j < 576460752303423488
    → verify_machine_function f ≡ ok tt
    → get_elem? f.args i ≡ some a
    → get_elem? f.args j ≡ some b
    → i ≢ j
    → location a ≢ location b
verify_machine_function-location_inj f i j a b hi hj h p q ne e =
    let args = (verify_machine_function-AcceptedFunction f h).args_checked in
    let at = λ (k : ℕ) (c : MachineArg) (r : get_elem? f.args k ≡ some c).
      verify_arg-location f.vregs k c (
        subst (λ x. verify_arg f.vregs x c ≡ ok tt) (zero-add k)
          (for_each-get (verify_arg f.vregs) 0 f.args k args r)) in
    let (x, px, lx) = at i a p in
    let (y, py, ly) = at j b q in
    ne (win64_argument-location_inj i j a.typ b.typ x y hi hj px py (sym lx ∙ e ∙ ly))
