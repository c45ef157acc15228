-- ===== src/Lib.antt =====
-- The Concept compiler: the parts of internal/concept that decide what a program may do. The Go
-- files named below are in that directory.
--
-- The compiler parses and validates a source file, lowers it to a low intermediate
-- representation (LIR), lowers that to MachineIR for 64-bit Windows and prints assembly. Each
-- intermediate representation has a verifier, which runs between the steps and refuses what a
-- later step could not translate.
--
-- Base holds the shared notation: the integers over the native natural numbers (Base/Int), lists
-- (Base/Lists), lists of Booleans (Base/Bits), Boolean tests (Base/Tests), and results, where a
-- Go function that returns an `error` is a `Check` and a loop that returns the first error is
-- `for_each` (Base/Results). A Go `int` that the code computes with is a natural number or an
-- integer with its 64-bit wrap-around written out; where the code only compares a number that it
-- was given, it is an integer.
--
-- Lir/Types: the types of the LIR (`LIRType` of lir.go, a string there and a data type here)
-- with their widths and classes. An array type has its element and its number of elements; the
-- other spellings of a number that `Sscanf` reads in one have no counterpart.
--
-- Machine: MachineIR (machineir.go, machineir_verify.go).
--   Registers    `MachineReg`, its spellings, the Win64 argument, return and frame rules
--   Immediate    the literals that `machineImmediate` accepts
--   Ir           the records of a MachineIR function
--   Parts        effects of opcodes, and the checks of registers, slots, frame and arguments
--   Operands     the check of an operand
--   Shapes       the check of each opcode's operands, and of calls
--   Verify       `VerifyMachineFunction`: a state is passed through the instructions of all blocks
--   Module       `VerifyMachineIR` over the functions of a module
-- The children of Verify, Registers and Module hold proofs. An opcode and an operand kind are
-- strings in the source and data types here, with one more constructor for any other string.
--
-- Layout: fixed memory geometry (layout.go).
--   Align     `evt1AlignUp` with its wrap-around
--   Fields    `evt1StructFieldOffsetsWithin`, over the geometry of a field as a parameter
--   Geometry  `evt1TypeGeometryWithin`, with the query's state passed along
--   Regions   `evt1AnalyzeLayouts` for one declaration
--   Streams   `evt1AnalyzeStreams` for one declaration, and `evt1LayoutRegion`
-- Fields/Placement, Geometry/Good, Geometry/Measured, Regions/Apart, Streams/Lookup and
-- Streams/Channels hold the proofs. A size is a natural number: the model keeps no negative
-- size, so the source's tests for one have no counterpart. The depth that the query has left is
-- an argument: it is `evt1ComptimeMaxCallDepth` less the number of types being visited, and
-- where the source refuses to visit one more it is 0, so the recursion needs no other bound.
-- Type resolution, the spelling of a type and the declarations in scope are the fields of `Env`.
--
-- Numeric/Integers: integer types, literals (integer_literals.go), floating formats
-- (float_representation.go) and the exact conversion fact (numeric_cast.go). A numeric type
-- keeps the fields of `Type` that one has; its unit is a number that names the normal form of
-- its quantity, since only equality of units is asked. Range, Literals and Exact hold the proofs.
--
-- Lir/Frame: `verifyLIRMachineFunction` of lir.go, the check of the frame that the Init and Step
-- functions of a state machine share. Fields holds the proofs.
--
-- Lir/Effects: `verifyLIRMachineEffects` of lir.go, the check of what these functions store to the
-- frame and return. Writes, Blocks, Init and Resume hold the proofs.
--
-- Lir/Function: the records of the functions of the LIR, with the fields that the four parts below
-- read. The scopes, references and slots are numbers there, of which some are -1, so they are
-- integers; a Go map that a loop fills is a list of entries, the latest first.
--
-- Lir/Dominators: `lirSuccessors` and `lirDominators` of lir_borrow.go. A row of the matrix is a list of
-- Booleans. The loop that marks the reached blocks has as fuel the number n of blocks, since each
-- of its rounds but the last marks one; the loop over the rows has n * n + 1, since each of its
-- rounds but the last clears an entry. Walks, Reached, Marked, Meet, Improve, Start, Rounds and
-- Exact hold the proofs, from walks in the graph of the blocks to the entries of the matrix.
--
-- Lir/Borrow: the references of a function (lir_borrow.go): `lirReferenceDefinitions`,
-- `borrowScopeContains`, and in Verify `verifyLIRBorrowFunction`, with the digest test of
-- machineir_object_verify.go. The walk through the parents of a scope has as fuel the number of
-- scopes, plus one. Definitions, Scopes, Accepted, Places and Uses hold the proofs.
--
-- Lir/Aggregate: `verifyLIRAggregateLayouts` and `lirAggregateGeometry` of lir_aggregate.go, the check of
-- the layouts of records and structs. The digest of a layout, of its JSON text, is an argument. The
-- depth that the geometry has left is an argument, 16 at first, as in the source. Ordered,
-- Geometry, Stored and Addresses hold the proofs; Addresses is about a body of Lir/Body that is
-- checked with the layouts.
--
-- Lir/Body: the check of one function in `VerifyLIR` of lir.go, with the tests on types that it calls.
--   Operation  the parts of the cases of its switch
--   Cases      the switch over the operation of an instruction
--   Blocks     the loops over parameters, slots, blocks, instructions, and the terminators
-- Steps, Guards, Values, Available and Typed hold the proofs. What `VerifyLIR` establishes before
-- these loops, the facts, the functions by identity and the layouts by type, is the record `Env`.
-- Where the source indexes a list out of its range and stops there, the model reports an error.
--
-- Bounds: the interval analysis that removes bounds checks from span accesses (local_bounds.go,
-- and `constantBool` of local_bounds_calls.go).
--   Domain    intervals, abstract values, states, `localJoin` and `localArithmetic`
--   Syntax    the expressions and operators of types.go, with the proof that an access carries
--   Analysis  `value`, `constantBool` and `assume`
--   Visit     `expr`, which returns the tree with its proofs, the value and the state
--   Forget    the statements and `localForgetWrites`
--   Run       what the expressions compute, independently of the analysis
-- Arithmetic, Sound, Truth, Value, Meets, Assume, Condition, Join, Access, Branches, Operands,
-- Checks, Defined and Writes hold the proofs. Run is parametric in what the analysis does not
-- look at: the elements of spans, conversions, the operators outside 32-bit arithmetic, and the
-- expressions that stand under `opaque`. An access with a proof is not checked there, and is
-- `undefined` out of bounds. A ghost argument gives the length that each snapshot of a span
-- descriptor (`lengthID`) stands for. The names whose address is taken (`exposed`) are an
-- argument. Scaled arithmetic is excluded by a hypothesis.
--
-- Numeric/Quantity: units of measure (quantity.go): `normalized`, `quantityGCD`, `Equal`,
-- `ScaleRatioToChecked`, `quantityScaleMultiply`, `MultiplyChecked`, `DivideChecked`,
-- `PowChecked`, and in Units the table of units. A function that reports a failure by a Boolean
-- returns an option, and the versions that panic on it are left out. The two loops have fuel:
-- the second number in `quantityGCD` and the exponent in `PowChecked`. A scale is a natural number:
-- the unit table and the operations give no negative one, and the branches of `quantityGCD` for a
-- negative argument have no counterpart. Gcd, Normal, Scale, Overflow and Power hold the proofs.
--
-- Lir/Activation: the storage plan of an automata graph (lir_activation_layout.go), up to the
-- geometry of a slot. The frames use the layout of structs and the geometry of types of the part
-- Layout. Slots holds the proofs.
--
-- Not modelled: the dispatch of `VerifyMachineIR` to its later contracts; the traversal of
-- blocks and the calls in the interval analysis; the shared fields of an activation stack; the
-- parts of `VerifyLIR` that check enums, tagged enums, pattern flows, the uses of aggregates,
-- and activations; the builder of the LIR (lir_lower.go); and the rest of the
-- compiler, which produces what these parts check.
pub mod Base
pub mod Bounds
pub mod Layout
pub mod Lir
pub mod Machine
pub mod Numeric
