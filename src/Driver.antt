-- ===== src/Driver.antt =====
-- src/compiler.cpp: `compile`, which runs the passes, and the JIT entry points around it.
pub mod Options
pub mod DefaultTriple
pub mod Backend
pub mod Compile
pub mod Inside
pub mod Attempts
pub mod Contract
pub mod Passes
pub mod Rejects
pub mod Triples
pub mod Jit
pub mod Builder
pub mod Pieces
pub mod Execute
pub mod Runs
mod Samples
mod SampleRuns
mod Examples
