-- ===== src/Machine.antt =====
-- AMD64 MachineIR: internal/concept/machineir.go, machineir_verify.go and machineir_lower.go.
pub mod Registers
pub mod Immediate
pub mod Ir
pub mod Parts
pub mod Operands
pub mod Shapes
pub mod Verify
pub mod Module
mod Tests
