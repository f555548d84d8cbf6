-- ===== src/Tests.antt =====
-- Inputs at which the theorems of the other modules apply, and runs of the definitions.
mod BiBuffer
mod Parts
mod Bus
mod Standalone
mod Handshake
mod FastLane
mod WasmCore
mod TwinLane
mod Parallel
mod Bindings
mod Systems
mod FaultTolerance
