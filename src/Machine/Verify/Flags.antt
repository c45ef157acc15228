-- ===== src/Machine/Verify/Flags.antt =====
-- The FLAGS discipline: a reader of FLAGS sees the value that it names.
use concept.Machine.Ir.{
  MachineFunction, MachineBlock, MachineInstruction, Opcode, jmp, jcc, ret, trap,
}
use concept.Machine.Parts.{MachineEffects, machine_opcode_effects, effects_or_none}
use concept.Machine.Verify.Steps.{Accepted, flags_after, verify_instruction-Accepted}
use concept.Machine.Verify.{
  VerifyState, verify_instructions, count_definition, verify_machine_function, verify_instruction,
  verify_terminator, verify_flags_use, returns_in_rax, last?, traps_last, verify_return,
}
use concept.Base.{
  [], ◌⊎◌, ◌≡◌, ◌++◌, All, false, true, inr, refl, ℕ, is_neg, ap, ok, inl, Bool-cases, sym, arith,
  get_elem?, ok_inj, >>=-eq-ok, some, ◌∙◌, in_range, length, pos, ==ℤ_iff, ◌<◌, ltb→lt, subst,
  negsuc, ◌≢◌, zero-add, ℤ, List, ◌∷◌, Bool, if◌then◌else◌, minus_one,
}
use concept.Machine.Verify.Blocks.{
  verify_instructions-split, verify_machine_function-AcceptedFunction, verify_blocks-get,
}
use concept.Lir.Types.{type_eq→≡, void, machine_scalar_width, LirType, type_eq}
use concept.Machine.Registers.{win64_return}

abbrev pub sets_flags : MachineInstruction → Bool
sets_flags i = (effects_or_none (machine_opcode_effects i.op)).sets_flags

abbrev pub kills_flags : MachineInstruction → Bool
kills_flags i = (effects_or_none (machine_opcode_effects i.op)).kills_flags

-- An instruction that leaves FLAGS alone.
abbrev pub IsQuiet : MachineInstruction → Type 0
IsQuiet i = (sets_flags i ≡ false) × (kills_flags i ≡ false)

-- FLAGS at the end of the instructions is the value `x` of one of them, which sets it, and no later
-- instruction sets or kills FLAGS.
pub record Reaches (is : List MachineInstruction) (x : ℤ) : Type 0 where
  pub before : List MachineInstruction
  pub setter : MachineInstruction
  pub after : List MachineInstruction
  pub split : is ≡ before ++ setter ∷ after
  pub is_setter : sets_flags setter ≡ true
  pub value : setter.flags_def ≡ x
  pub quiet : All IsQuiet after

abbrev next_flag : MachineInstruction → ℤ → ℤ
next_flag i fl = if sets_flags i then i.flags_def else if kills_flags i then minus_one else fl

-- The FLAGS value after the instructions, starting from `fl`.
live_flag : ℤ → List MachineInstruction → ℤ
live_flag fl [] = fl
live_flag fl (i ∷ is) = live_flag (next_flag i fl) is

Reaches-cons :
    (i : MachineInstruction) {is : List MachineInstruction} {x : ℤ}
    → Reaches is x
    → Reaches (i ∷ is) x
Reaches-cons i r = record {
  before = i ∷ r.before;
  setter = r.setter;
  after = r.after;
  split = ap (◌∷◌ i) r.split;
  is_setter = r.is_setter;
  value = r.value;
  quiet = r.quiet;
}

-- What the live value is: that of an instruction which reaches the end, none, or the initial one.
Live : ℤ → List MachineInstruction → ℤ → Type 0
Live fl is x = Reaches is x ⊎ ((x ≡ minus_one) ⊎ (All IsQuiet is × (x ≡ fl)))

Live-cons :
    (fl : ℤ) (i : MachineInstruction) (is : List MachineInstruction) (x : ℤ)
    → Live (next_flag i fl) is x
    → Live fl (i ∷ is) x
unfolding Live
Live-cons fl i is x (inl r) = inl (Reaches-cons i r)
Live-cons fl i is x (inr (inl e)) = inr (inl e)
Live-cons fl i is x (inr (inr (q, e))) = elim (Bool-cases (sets_flags i)) [
  | inl s ↦ inl (record {
    before = [];
    setter = i;
    after = is;
    split = refl;
    is_setter = s;
    value = ground arith;
    quiet = q;
  })
  | inr n ↦ elim (Bool-cases (kills_flags i)) [
    | inl k ↦ inr (inl (ground arith))
    | inr m ↦ inr (inr (((n, m), q), ground arith))
  ]
]

live_flag-Live : (fl : ℤ) (is : List MachineInstruction) → Live fl is (live_flag fl is)
unfolding live_flag Live
live_flag-Live fl [] = inr (inr (tt, refl))
live_flag-Live fl (i ∷ is) = Live-cons fl i is _ (live_flag-Live (next_flag i fl) is)

-- The verifier's flag is the live one.
Accepted-flag :
    {f : MachineFunction} {l : ℤ} {i : MachineInstruction} {s s' : VerifyState}
    → Accepted f l i s s'
    → s'.flag ≡ next_flag i s.flag
unfolding count_definition flags_after
Accepted-flag a = ground arith

verify_instructions-flag :
    (f : MachineFunction) (l : ℤ) (is : List MachineInstruction) (s s' : VerifyState)
    → verify_instructions f l is s ≡ ok s'
    → s'.flag ≡ live_flag s.flag is
unfolding verify_instructions live_flag
verify_instructions-flag f l [] s s' h = ap (λ (x : VerifyState). x.flag) (sym (ok_inj h))
verify_instructions-flag f l (i ∷ is) s s' h =
    let (t, p, q) = >>=-eq-ok (verify_instruction f l i s) _ h in
    verify_instructions-flag f l is t s' q
    ∙ ap (λ x. live_flag x is) (Accepted-flag (verify_instruction-Accepted f l i s t p))

-- A live value that is not -1, in a block that starts with none, was set in the block.
Live-Reaches :
    (is : List MachineInstruction) (x : ℤ) → is_neg x ≡ false → Live minus_one is x → Reaches is x
unfolding Live
Live-Reaches is x n (inl r) = r
Live-Reaches is x n (inr (inl e)) = cc
Live-Reaches is x n (inr (inr (q, e))) = cc

abbrev pub reads_flags : MachineInstruction → Bool
reads_flags i = (effects_or_none (machine_opcode_effects i.op)).reads_flags

-- A reader inside a block is a SETCC, which leaves the value that it reads.
reader_lem :
    (e : MachineEffects) (i : MachineInstruction) (s : VerifyState)
    → machine_opcode_effects i.op ≡ some e
    → e.terminates ≡ false
    → reads_flags i ≡ true
    → verify_flags_use e i (flags_after e i s) ≡ ok tt
    → (is_neg s.flag ≡ false) × (i.flags_use ≡ s.flag)
unfolding machine_opcode_effects flags_after verify_flags_use
reader_lem e i s k c r h = ground (arith, ==ℤ_iff i.flags_use s.flag)

verify_instructions-Reaches :
    (f : MachineFunction) (l : ℤ) (pre post : List MachineInstruction) (i : MachineInstruction)
    (s s' : VerifyState)
    → verify_instructions f l (pre ++ i ∷ post) (record s { flag = minus_one }) ≡ ok s'
    → reads_flags i ≡ true
    → Reaches pre i.flags_use
verify_instructions-Reaches f l pre post i s s' h r =
    let (t, t', hp, a) = verify_instructions-split f l pre i post _ s' h in
    let (n, u) = reader_lem a.effects i t a.known a.continues r a.flags_checked in
    rw u (
      Live-Reaches pre t.flag n
        (rw (verify_instructions-flag f l pre _ t hp) (live_flag-Live minus_one pre)))

-- Where an instruction of an accepted function reads FLAGS, the value that it names was set earlier
-- in its block, and no instruction between them sets or kills FLAGS.
pub verify_machine_function-Reaches :
    (f : MachineFunction) (n : ℕ) (b : MachineBlock) (pre post : List MachineInstruction)
    (i : MachineInstruction)
    → verify_machine_function f ≡ ok tt
    → get_elem? f.blocks n ≡ some b
    → b.instructions ≡ pre ++ i ∷ post
    → reads_flags i ≡ true
    → Reaches pre i.flags_use
verify_machine_function-Reaches f n b pre post i h e p r =
    let a = verify_machine_function-AcceptedFunction f h in
    let (t, t', c) = verify_blocks-get f 0 f.blocks n b _ _ a.blocks_checked e in
    verify_instructions-Reaches f b.lir_block pre post i t t'
      (subst (λ x. verify_instructions f b.lir_block x (record t { flag = minus_one }) ≡ ok t') p
        c.instructions_checked)
      r

-- How a block of `n` blocks may end.
pub data EndsWell (f : MachineFunction) (b : MachineBlock) : Type 0 where
  jumps : (k : ℕ) → b.term.op ≡ jmp → b.term.on_true ≡ pos k → k < length f.blocks → EndsWell f b
  branches :
      (k m : ℕ)
      → b.term.op ≡ jcc
      → b.term.on_true ≡ pos k
      → k < length f.blocks
      → b.term.on_false ≡ pos m
      → m < length f.blocks
      → Reaches b.instructions b.term.flags_use
      → EndsWell f b
  returns :
      b.term.op ≡ ret
      → (f.result ≢ void
          → (0 < machine_scalar_width f.result)
            × (returns_in_rax (last? b.instructions) (machine_scalar_width f.result) ≡ true))
      → EndsWell f b
  traps : b.term.op ≡ trap → traps_last (last? b.instructions) ≡ true → EndsWell f b

in_range_lem : (i : ℤ) (n : ℕ) → in_range i n ≡ true → (k : ℕ) × (i ≡ pos k) × (k < n)
in_range_lem (pos k) n h = (k, refl, ltb→lt k n h)
in_range_lem (negsuc k) n h = cc

not-type_eq : (t u : LirType) → t ≢ u → type_eq t u ≡ false
not-type_eq t u ne = elim (Bool-cases (type_eq t u)) [
  | inl e ↦ absurd (ne (type_eq→≡ t u e))
  | inr e ↦ e
]

verify_return_lem :
    (f : MachineFunction) (b : MachineBlock)
    → verify_return f b ≡ ok tt
    → type_eq f.result void ≡ false
    → (0 < machine_scalar_width f.result)
      × (returns_in_rax (last? b.instructions) (machine_scalar_width f.result) ≡ true)
unfolding verify_return win64_return
verify_return_lem f b h ne = ground arith

verify_terminator-EndsWell :
    (f : MachineFunction) (fl : ℤ) (b : MachineBlock) (o : Opcode)
    → b.term.op ≡ o
    → fl ≡ live_flag minus_one b.instructions
    → verify_terminator o f fl b ≡ ok tt
    → EndsWell f b
unfolding verify_terminator
verify_terminator-EndsWell f fl b jmp e l h =
    let (k, p, q) = in_range_lem b.term.on_true (length f.blocks) (ground arith) in jumps k e p q
verify_terminator-EndsWell f fl b jcc e l h =
    let (k, p, q) = in_range_lem b.term.on_true (length f.blocks) (ground arith) in
    let (m, r, s) = in_range_lem b.term.on_false (length f.blocks) (ground arith) in
    let same : b.term.flags_use ≡ fl = (==ℤ_iff b.term.flags_use fl).0 (ground arith) in
    let set : Reaches b.instructions fl =
      Live-Reaches b.instructions fl (ground arith)
        (rw l (live_flag-Live minus_one b.instructions)) in
    branches k m e p q r s (rw same set)
verify_terminator-EndsWell f fl b ret e l h =
    returns e (λ ne. verify_return_lem f b h (not-type_eq f.result void ne))
verify_terminator-EndsWell f fl b trap e l h = traps e (ground arith)
verify_terminator-EndsWell f fl b _ e l h = cc

-- Every block of an accepted function carries its own number and ends well: in a jump to a block
-- that exists, in a conditional jump to blocks that exist on a FLAGS value which reaches the end of
-- the block, in a trap, or in a return, which leaves the function's result, where it is not void,
-- in RAX at its width.
pub verify_machine_function-EndsWell :
    (f : MachineFunction) (n : ℕ) (b : MachineBlock)
    → verify_machine_function f ≡ ok tt
    → get_elem? f.blocks n ≡ some b
    → (b.id ≡ pos n) × EndsWell f b
verify_machine_function-EndsWell f n b h e =
    let a = verify_machine_function-AcceptedFunction f h in
    let (t, t', c) = verify_blocks-get f 0 f.blocks n b _ _ a.blocks_checked e in
    (
      rw zero-add at c.numbered,
      verify_terminator-EndsWell f t'.flag b b.term.op refl
          (verify_instructions-flag f b.lir_block b.instructions _ t' c.instructions_checked)
          c.terminator_checked,
    )
