-- ===== src/Machine/Registers/Convention.antt =====
-- The Win64 convention of Machine.Registers: frames, argument locations, saved registers, spellings.
use text.Mathlib.TextEquality.{eq_iff}
use concept.Base.{
  ◌==ℤ◌, false, ℕ, zero, suc, ◌+◌, ◌-◌, ◌*◌, ◌/◌, ◌%◌, ◌≤◌, ◌<◌, ◌≡◌, refl, ap, sym, ◌∙◌, >>=-eq-ok,
  ok_inj, ℤ, pos, Bool, true, ◌&&◌, ◌||◌, not, ok, ◌==◌, if◌then◌else◌, arith, str_eq, negsuc,
  ltb→lt, List, any, if_true, ltb,
}
use concept.Lir.Types.{LirType, machine_abi_width}
use concept.Machine.Registers.{
  MachineReg, MachineArg, reg_alias, machine_width_valid, win64_call_frame_bytes, win64_argument,
  int_of, frame_at, argument_at, argument_register, reg_valid, win64_callee_saved,
  win64_caller_saved, rsp,
}

pub int_of-small : (n : ℕ) → n < 9223372036854775808 → int_of n ≡ pos n
unfolding int_of
int_of-small n h =
    let e : n % 18446744073709551616 ≡ n = omega arith in
    rw e (if_true (ltb n 9223372036854775808) (pos n) _ (lt→ltb h))
  where
    lt→ltb : {a b : ℕ} → a < b → ltb a b ≡ true
    lt→ltb h = ground arith

-- Where the locals are at least 39 bytes below the largest `int`, the frame of a function that calls
-- is 8 mod 16, holds the locals and the 32 bytes of home space, and is less than 16 bytes above that
-- sum, so that it is the least such frame.
pub call_frame_bytes_least :
    (local_size : ℕ) (m : ℤ)
    → local_size + 39 ≤ 9223372036854775807
    → win64_call_frame_bytes (pos local_size) true ≡ ok m
    → (n : ℕ) × (m ≡ pos n) × (n % 16 ≡ 8) × (local_size + 32 ≤ n) × (n < local_size + 32 + 16)
unfolding win64_call_frame_bytes frame_at
call_frame_bytes_least local_size m fits h =
    let small = int_of-small (local_size + 32 + 7) (omega (arith, fits)) in
    (
      (local_size + 32 + 7) / 16 * 16 + 8,
      sym (ok_inj h) ∙ ap frame_at small,
      omega arith,
      omega arith,
      omega arith,
    )

-- Where an argument is passed: a register, or an offset from the stack pointer at entry.
pub data Location : Type 0 where
  in_register : MachineReg → Location
  at_offset : ℤ → Location

unfoldable pub location : MachineArg → Location
location a = if a.on_stack then at_offset a.stack_offset else in_register a.register

argument_register_inj :
    (i j : ℕ) → i < 4 → j < 4 → argument_register i ≡ argument_register j → i ≡ j
argument_register_inj zero zero hi hj e = refl
argument_register_inj zero (suc zero) hi hj e = cc
argument_register_inj zero (suc (suc zero)) hi hj e = cc
argument_register_inj zero (suc (suc (suc j))) hi hj e = cc
argument_register_inj (suc zero) zero hi hj e = cc
argument_register_inj (suc zero) (suc zero) hi hj e = refl
argument_register_inj (suc zero) (suc (suc zero)) hi hj e = cc
argument_register_inj (suc zero) (suc (suc (suc j))) hi hj e = cc
argument_register_inj (suc (suc zero)) zero hi hj e = cc
argument_register_inj (suc (suc zero)) (suc zero) hi hj e = cc
argument_register_inj (suc (suc zero)) (suc (suc zero)) hi hj e = refl
argument_register_inj (suc (suc zero)) (suc (suc (suc j))) hi hj e = cc
argument_register_inj (suc (suc (suc i))) zero hi hj e = cc
argument_register_inj (suc (suc (suc i))) (suc zero) hi hj e = cc
argument_register_inj (suc (suc (suc i))) (suc (suc zero)) hi hj e = cc
argument_register_inj (suc (suc (suc i))) (suc (suc (suc j))) hi hj e = omega arith

-- The offsets of arguments below 2^59 are numbers that do not wrap.
argument_at-location-inj :
    (i j : ℕ) (t u : LirType) (w v : ℕ) (a b : Bool)
    → i < 576460752303423488
    → j < 576460752303423488
    → location (argument_at i t w a) ≡ location (argument_at j u v b)
    → i ≡ j
unfolding location
argument_at-location-inj i j t u w v a b hi hj e =
    let p = int_of-small (40 + 8 * (i - 4)) (omega (arith, hi)) in
    let q = int_of-small (40 + 8 * (j - 4)) (omega (arith, hj)) in
    ground (arith, argument_register_inj i j)

-- Two arguments at different indices below 2^59 are never passed in the same place.
pub win64_argument-location_inj :
    (i j : ℕ) (t u : LirType) (a b : MachineArg)
    → i < 576460752303423488
    → j < 576460752303423488
    → win64_argument (pos i) t ≡ ok a
    → win64_argument (pos j) u ≡ ok b
    → location a ≡ location b
    → i ≡ j
unfolding win64_argument
win64_argument-location_inj i j t u a b hi hj ha hb e =
    let (x, _, p) = >>=-eq-ok (machine_abi_width t) _ ha in
    let (y, _, q) = >>=-eq-ok (machine_abi_width u) _ hb in
    argument_at-location-inj i j t u x.0 y.0 x.1 y.1 hi hj
      (ap location (ok_inj p) ∙ e ∙ sym (ap location (ok_inj q)))

-- A check of every register number and every width in bytes.
all_below : ℕ → (ℕ → Bool) → Bool
all_below zero p = true
all_below (suc n) p = p n && all_below n p

all_below-lt : (n : ℕ) (p : ℕ → Bool) (x : ℕ) → all_below n p ≡ true → x < n → p x ≡ true
unfolding all_below
all_below-lt zero p x h lt = absurd (omega arith)
all_below-lt (suc n) p x h lt = ground (arith, all_below-lt n p x)

implies : Bool → Bool → Bool
implies a b = not a || b

abbrev pub member : MachineReg → List MachineReg → Bool
member r = any (λ x. x ==ℤ r)

spelled_apart : ℕ → ℕ → ℕ → ℕ → Bool
spelled_apart r w s v =
    implies
      (machine_width_valid (pos w)
        && machine_width_valid (pos v)
        && str_eq (reg_alias (pos r) (pos w)) (reg_alias (pos s) (pos v)))
      (r == s && w == v)

spelled_apart_all :
    all_below 16
      (λ r. all_below 9 (λ w. all_below 16 (λ s. all_below 9 (λ v. spelled_apart r w s v))))
    ≡ true
unfolding all_below spelled_apart implies reg_alias machine_width_valid
spelled_apart_all = refl

reg_alias_inj_below : (r w s v : ℕ) → r < 16 → w < 9 → s < 16 → v < 9 → spelled_apart r w s v ≡ true
reg_alias_inj_below r w s v hr hw hs hv =
    let a = all_below-lt 16 _ r spelled_apart_all hr in
    let b = all_below-lt 9 _ w a hw in let c = all_below-lt 16 _ s b hs in all_below-lt 9 _ v c hv

reg_alias_inj_numbers :
    (r w s v : ℕ)
    → r < 16
    → w < 9
    → s < 16
    → v < 9
    → machine_width_valid (pos w) ≡ true
    → machine_width_valid (pos v) ≡ true
    → reg_alias (pos r) (pos w) ≡ reg_alias (pos s) (pos v)
    → (r ≡ s) × (w ≡ v)
unfolding spelled_apart implies
reg_alias_inj_numbers r w s v hr hw hs hv vw vv e = ground (
  arith,
  reg_alias_inj_below r w s v hr hw hs hv,
  eq_iff (reg_alias (pos r) (pos w)) (reg_alias (pos s) (pos v)),
)

valid_width : (w : ℕ) → machine_width_valid (pos w) ≡ true → w < 9
unfolding machine_width_valid
valid_width w h = ground arith

valid_width-negsuc : (w : ℕ) → ¬ (machine_width_valid (negsuc w) ≡ true)
unfolding machine_width_valid
valid_width-negsuc w h = ground arith

-- A valid register at a valid width is spelled unlike any other register, and unlike itself at
-- another valid width.
pub reg_alias_inj :
    (r s : MachineReg) (w v : ℤ)
    → reg_valid r ≡ true
    → reg_valid s ≡ true
    → machine_width_valid w ≡ true
    → machine_width_valid v ≡ true
    → reg_alias r w ≡ reg_alias s v
    → (r ≡ s) × (w ≡ v)
unfolding reg_valid
reg_alias_inj (pos r) (pos s) (pos w) (pos v) hr hs hw hv e =
    let (p, q) =
      reg_alias_inj_numbers r w s v (ltb→lt r 16 hr) (valid_width w hw) (ltb→lt s 16 hs)
        (valid_width v hv) hw hv e in
    (ap pos p, ap pos q)
reg_alias_inj (negsuc r) s w v hr hs hw hv e = cc
reg_alias_inj r (negsuc s) w v hr hs hw hv e = cc
reg_alias_inj r s (negsuc w) v hr hs hw hv e = absurd (valid_width-negsuc w hw)
reg_alias_inj r s w (negsuc v) hr hs hw hv e = absurd (valid_width-negsuc v hv)

same : Bool → Bool → Bool
same true b = b
same false b = not b

same→≡ : (a b : Bool) → same a b ≡ true → a ≡ b
unfolding same
same→≡ a b h = ground arith

saved_by_one : ℕ → Bool
saved_by_one n =
    same (member (pos n) win64_callee_saved)
      (not (member (pos n) win64_caller_saved || pos n ==ℤ rsp))

saved_all : all_below 16 saved_by_one ≡ true
unfolding all_below saved_by_one same
saved_all = refl

-- A valid register is callee-saved exactly where it is neither caller-saved nor the stack pointer.
pub saved_once :
    (r : MachineReg)
    → reg_valid r ≡ true
    → member r win64_callee_saved ≡ not (member r win64_caller_saved || r ==ℤ rsp)
unfolding reg_valid saved_by_one
saved_once (pos n) h = same→≡ _ _ (all_below-lt 16 saved_by_one n saved_all (ltb→lt n 16 h))
saved_once (negsuc n) h = cc
