-- ===== src/Machine/Registers.antt =====
-- Registers and the Win64 convention: lines 21 to 195 of internal/concept/machineir.go.
pub mod Convention
use concept.Base.{
  ℕ, zero, suc, ◌+◌, ◌-◌, ◌*◌, ◌/◌, ◌%◌, ℤ, pos, negsuc, sub_ℕ, minus_one, get_at?, in_range, Bool,
  true, false, ◌&&◌, ◌||◌, ◌==ℤ◌, String, List, [], ◌∷◌, length, Option, none, some, Result, ok,
  err, ◌>>=◌, ltb, ◌==◌, if◌then◌else◌,
}
use concept.Lir.Types.{LirType, machine_scalar_width, machine_abi_width, type_eq, void}

-- `MachineReg` is an `int`; the sixteen constants are 0 to 15.
abbrev pub MachineReg : Type 0
MachineReg = ℤ

abbrev pub rax : MachineReg
rax = pos 0

abbrev pub rbx : MachineReg
rbx = pos 1

abbrev pub rcx : MachineReg
rcx = pos 2

abbrev pub rdx : MachineReg
rdx = pos 3

abbrev pub rsi : MachineReg
rsi = pos 4

abbrev pub rdi : MachineReg
rdi = pos 5

abbrev pub rbp : MachineReg
rbp = pos 6

abbrev pub rsp : MachineReg
rsp = pos 7

abbrev pub r8 : MachineReg
r8 = pos 8

abbrev pub r9 : MachineReg
r9 = pos 9

abbrev pub r10 : MachineReg
r10 = pos 10

abbrev pub r11 : MachineReg
r11 = pos 11

abbrev pub r12 : MachineReg
r12 = pos 12

abbrev pub r13 : MachineReg
r13 = pos 13

abbrev pub r14 : MachineReg
r14 = pos 14

abbrev pub r15 : MachineReg
r15 = pos 15

abbrev pub machine_reg_names : List String
machine_reg_names =
    "rax" ∷ "rbx" ∷ "rcx" ∷ "rdx" ∷ "rsi" ∷ "rdi" ∷ "rbp" ∷ "rsp" ∷ "r8" ∷ "r9" ∷ "r10" ∷ "r11"
    ∷ "r12" ∷ "r13" ∷ "r14" ∷ "r15" ∷ []

unfoldable pub reg_valid : MachineReg → Bool
reg_valid r = in_range r (length machine_reg_names)

abbrev or_invalid : Option String → String
or_invalid none = "invalid"
or_invalid (some s) = s

unfoldable pub reg_string : MachineReg → String
reg_string r = or_invalid (get_at? machine_reg_names r)

unfoldable pub machine_width_valid : ℤ → Bool
machine_width_valid w = w ==ℤ pos 1 || w ==ℤ pos 2 || w ==ℤ pos 4 || w ==ℤ pos 8

pub record MachineRegisterWrite : Type 0 where
  pub parent : MachineReg
  pub width : ℤ
  pub zero_extends_parent : Bool

unfoldable pub write_effect : MachineReg → ℤ → Result MachineRegisterWrite
unfolding reg_valid machine_width_valid
write_effect r width =
    if reg_valid r && machine_width_valid width
    then ok (record { parent = r; width = width; zero_extends_parent = width ==ℤ pos 4 })
    else err "MIR_BAD_REGISTER_VIEW"

-- The table of `Alias`: a register's spelling at 1, 2, 4 and 8 bytes.
abbrev aliases : List (String × String × String × String)
aliases =
    ("al", "ax", "eax", "rax")
    ∷ ("bl", "bx", "ebx", "rbx")
    ∷ ("cl", "cx", "ecx", "rcx")
    ∷ ("dl", "dx", "edx", "rdx")
    ∷ ("sil", "si", "esi", "rsi")
    ∷ ("dil", "di", "edi", "rdi")
    ∷ ("bpl", "bp", "ebp", "rbp")
    ∷ ("spl", "sp", "esp", "rsp")
    ∷ ("r8b", "r8w", "r8d", "r8")
    ∷ ("r9b", "r9w", "r9d", "r9")
    ∷ ("r10b", "r10w", "r10d", "r10")
    ∷ ("r11b", "r11w", "r11d", "r11")
    ∷ ("r12b", "r12w", "r12d", "r12")
    ∷ ("r13b", "r13w", "r13d", "r13")
    ∷ ("r14b", "r14w", "r14d", "r14")
    ∷ ("r15b", "r15w", "r15d", "r15")
    ∷ []

abbrev alias_at : Option (String × String × String × String) → ℤ → String
alias_at none width = "invalid"
alias_at (some (b, w, d, q)) width =
    if width ==ℤ pos 1
    then b
    else if width ==ℤ pos 2
    then w
    else if width ==ℤ pos 4
    then d
    else if width ==ℤ pos 8
    then q
    else "invalid"

unfoldable pub reg_alias : MachineReg → ℤ → String
reg_alias r width = alias_at (get_at? aliases r) width

abbrev pub win64_caller_saved : List MachineReg
win64_caller_saved = rax ∷ rcx ∷ rdx ∷ r8 ∷ r9 ∷ r10 ∷ r11 ∷ []

abbrev pub win64_callee_saved : List MachineReg
win64_callee_saved = rbx ∷ rbp ∷ rsi ∷ rdi ∷ r12 ∷ r13 ∷ r14 ∷ r15 ∷ []

-- A natural number as a 64-bit `int`.
unfoldable pub int_of : ℕ → ℤ
int_of n =
    let r = n % 18446744073709551616 in
    if ltb r 9223372036854775808 then pos r else sub_ℕ r 18446744073709551616

-- `n / 16 * 16 + 8`; the division rounds towards 0.
unfoldable pub frame_at : ℤ → ℤ
frame_at (pos n) = pos (n / 16 * 16 + 8)
frame_at (negsuc n) = sub_ℕ 8 (suc n / 16 * 16)

unfoldable pub win64_call_frame_bytes : ℤ → Bool → Result ℤ
win64_call_frame_bytes (negsuc n) has_calls = err "MIR_BAD_FRAME_SIZE"
win64_call_frame_bytes (pos local_size) has_calls =
    if has_calls then ok (frame_at (int_of (local_size + 32 + 7))) else ok (pos local_size)

pub record MachineArg : Type 0 where
  pub index : ℤ
  pub typ : LirType
  pub width : ℤ
  pub indirect : Bool
  pub register : MachineReg
  pub stack_offset : ℤ
  pub on_stack : Bool
  pub vreg : ℤ

-- The first four argument registers.
abbrev argument_register : ℕ → MachineReg
argument_register zero = rcx
argument_register (suc zero) = rdx
argument_register (suc (suc zero)) = r8
argument_register (suc (suc (suc _))) = r9

abbrev argument_at : ℕ → LirType → ℕ → Bool → MachineArg
argument_at index t w indirect =
    if ltb index 4
    then record {
      index = pos index;
      typ = t;
      width = pos w;
      indirect = indirect;
      register = argument_register index;
      stack_offset = pos 0;
      on_stack = false;
      vreg = minus_one;
    }
    else record {
      index = pos index;
      typ = t;
      width = pos w;
      indirect = indirect;
      register = rax;
      stack_offset = int_of (40 + 8 * (index - 4));
      on_stack = true;
      vreg = minus_one;
    }

unfoldable pub win64_argument : ℤ → LirType → Result MachineArg
win64_argument (negsuc n) t = err "MIR_BAD_ARG_INDEX"
win64_argument (pos index) t = machine_abi_width t >>= λ wi. ok (argument_at index t wi.0 wi.1)

-- The result register and its width; `void` has width 0.
unfoldable pub win64_return : LirType → Result (MachineReg × ℕ)
win64_return t =
    let w = machine_scalar_width t in
    if type_eq t void
    then ok (rax, 0)
    else if w == 0
    then err "MIR_UNSUPPORTED_RETURN"
    else ok (rax, w)
