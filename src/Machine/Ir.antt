-- ===== src/Machine/Ir.antt =====
-- The data of MachineIR: lines 90 to 302 of internal/concept/machineir.go. The payloads of the later
-- contracts (CMIRAMD4 to CMIRAMD10) are not modelled; the functions here are those of CMIRAMD3.
-- A Go string that the code compares with fixed texts is a data type with those texts as
-- constructors, and `other` for any other text.
use concept.Base.{ℤ, pos, Bool, false, String, List, Result, ok, ◌>>=◌}
use concept.Lir.Types.{LirType}
use concept.Machine.Registers.{MachineReg, MachineArg}
use concept.Machine.Immediate.{boolean_literal, immediate_value}

pub record Span : Type 0 where
  pub line : ℤ
  pub column : ℤ

pub record MachineVReg : Type 0 where
  pub id : ℤ
  pub width : ℤ
  pub address : Bool

pub record MachineStackSlot : Type 0 where
  pub id : ℤ
  pub size : ℤ
  pub align : ℤ
  pub source : String
  pub incoming_indirect : Bool
  pub base_vreg : ℤ

pub record MachineFrame : Type 0 where
  pub local_size : ℤ
  pub alignment : ℤ
  pub shadow_space : ℤ
  pub has_calls : Bool

pub data OperandKind : Type 0 where
  absent vreg preg imm slot mem block : OperandKind  -- `absent` is the empty string
  other : String → OperandKind

pub record MachineOperand : Type 0 where
  pub kind : OperandKind
  pub id : ℤ
  pub width : ℤ
  pub signed : Bool
  pub literal : String
  pub base : ℤ
  pub base_slot : ℤ
  pub index : ℤ
  pub scale : ℤ
  pub disp : ℤ
  pub region : String

-- The zero value.
abbrev pub no_operand : MachineOperand
no_operand = record {
  kind = absent;
  id = pos 0;
  width = pos 0;
  signed = false;
  literal = "";
  base = pos 0;
  base_slot = pos 0;
  index = pos 0;
  scale = pos 0;
  disp = pos 0;
  region = "";
}

abbrev pub mv : ℤ → ℤ → MachineOperand
mv id w = record no_operand { kind = vreg; id = id; width = w }

abbrev pub mp : MachineReg → ℤ → MachineOperand
mp r w = record no_operand { kind = preg; id = r; width = w }

abbrev pub ms : ℤ → ℤ → MachineOperand
ms id w = record no_operand { kind = slot; id = id; width = w }

unfoldable pub machine_immediate : String → ℤ → Bool → Result MachineOperand
machine_immediate lit w signed = do
  v ← immediate_value lit w signed
  ok (record no_operand { kind = imm; literal = boolean_literal lit; width = w; signed = signed })

pub data Opcode : Type 0 where
  mov lea load store add sub imul umul cmp test setcc trap call jmp jcc ret : Opcode
  other : String → Opcode

pub record MachineCallArgument : Type 0 where
  pub value : ℤ
  pub typ : LirType

pub record MachineCall : Type 0 where
  pub kind : String
  pub target : String
  pub convention : String
  pub arguments : List MachineCallArgument
  pub result : LirType

pub record MachineInstruction : Type 0 where
  pub op : Opcode
  pub dst : MachineOperand
  pub src : List MachineOperand
  pub width : ℤ
  pub flags_def : ℤ
  pub flags_use : ℤ
  pub cond : String
  pub lir_block : ℤ
  pub lir_instruction : ℤ
  pub source : Span
  pub decision : String
  pub facts : List String
  pub calls : List MachineCall

pub record MachineTerminator : Type 0 where
  pub op : Opcode
  pub on_true : ℤ
  pub on_false : ℤ
  pub cond : String
  pub flags_use : ℤ
  pub source : Span

pub record MachineBlock : Type 0 where
  pub id : ℤ
  pub lir_block : ℤ
  pub instructions : List MachineInstruction
  pub term : MachineTerminator

pub record MachineFunction : Type 0 where
  pub identity : String
  pub name : String
  pub target : String
  pub abi : String
  pub result : LirType
  pub args : List MachineArg
  pub vregs : List MachineVReg
  pub slots : List MachineStackSlot
  pub frame : MachineFrame
  pub blocks : List MachineBlock
  pub facts : List String
  pub decisions : List String
  pub source : Span
