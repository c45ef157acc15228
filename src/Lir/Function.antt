-- ===== src/Lir/Function.antt =====
-- The functions of the LIR: `LIRValue`, `LIRSlot`, `LIRInstruction`, `LIRTerminator`, `LIRBlock` and
-- `LIRFunction` of internal/concept/lir.go, lines 21 to 114, with the fields that the modelled checks
-- read, the records of a borrow contract, lines 17 to 35 of lir_borrow.go, and the layouts of
-- aggregates, enums and tagged enums. An operation and a root kind are strings, as in the source.
use concept.Base.{ℤ, String, Bool, List, Option}
use concept.Lir.Types.{LirType}
use concept.Lir.Frame.{LirMachineField, LirMachineFunction}

pub record Span : Type 0 where
  pub line : ℤ
  pub column : ℤ

pub record LirValue : Type 0 where
  pub id : ℤ
  pub typ : LirType

pub record LirSlot : Type 0 where
  pub id : ℤ
  pub typ : LirType
  pub element : LirType
  pub extent : ℤ
  pub param_value : ℤ  -- -1 unless bound to an aggregate parameter
  pub readonly : Bool
  pub facts : List String

pub record LirInstruction : Type 0 where
  pub scope : ℤ
  pub op : String
  pub result : ℤ  -- -1 for no result
  pub typ : LirType
  pub args : List ℤ
  pub callee : String
  pub call_target : String
  pub call_abi : String
  pub arg_types : List LirType
  pub slot : ℤ  -- -1 unless this is a slot or array operation
  pub literal : String
  pub extent : ℤ
  pub stride : ℤ
  pub frame_field : ℤ
  pub frame_offset : ℤ
  pub aggregate : LirType
  pub member : ℤ
  pub members : List ℤ
  pub source : Span
  pub facts : List String

-- The targets of `True` and `False` are block numbers.
pub record LirTerminator : Type 0 where
  pub op : String
  pub value : ℤ
  pub on_true : ℤ
  pub on_false : ℤ
  pub reason : String

pub record LirBlock : Type 0 where
  pub id : ℤ
  pub label : String
  pub instructions : List LirInstruction
  pub term : LirTerminator

pub record LirBorrowScope : Type 0 where
  pub id : ℤ
  pub parent : ℤ
  pub source : Span

pub record LirBorrowReference : Type 0 where
  pub value : ℤ
  pub target : LirType
  pub semantic_target : String
  pub root_kind : String
  pub root : ℤ
  pub parent : ℤ
  pub lifetime : ℤ
  pub mutable : Bool
  pub evidence : String
  pub provenance : String
  pub source : Span

pub record LirBorrowContract : Type 0 where
  pub scopes : List LirBorrowScope
  pub slot_scopes : List ℤ
  pub references : List LirBorrowReference

-- Of an activation function the checks read its role and the fields that it initializes.
pub record LirActivationFunction : Type 0 where
  pub role : String
  pub init_fields : List LirMachineField

-- A function keeps whether it has pattern flows.
pub record LirFunction : Type 0 where
  pub identity : String
  pub name : String
  pub params : List LirValue
  pub result : LirType
  pub slots : List LirSlot
  pub blocks : List LirBlock
  pub facts : List String
  pub has_patterns : Bool
  pub machine : Option LirMachineFunction
  pub activation : Option LirActivationFunction
  pub borrow : Option LirBorrowContract

pub record LirAggregateField : Type 0 where
  pub name : String
  pub typ : LirType
  pub type_identity : String
  pub offset : ℤ
  pub size : ℤ
  pub alignment : ℤ
  pub readonly : Bool
  pub declaration_identity : String
  pub element_type : LirType
  pub extent : ℤ
  pub stride : ℤ
  pub element_alignment : ℤ

pub record LirAggregateLayout : Type 0 where
  pub typ : LirType
  pub identity : String
  pub name : String
  pub kind : String
  pub representation : String
  pub size : ℤ
  pub alignment : ℤ
  pub fields : List LirAggregateField
  pub copy_eligibility : String

pub record LirTaggedVariant : Type 0 where
  pub fields : List LirAggregateField

pub record LirTaggedEnum : Type 0 where
  pub typ : LirType
  pub variants : List LirTaggedVariant

pub record LirEnum : Type 0 where
  pub typ : LirType
  pub size : ℤ
  pub alignment : ℤ
  pub variants : List String
