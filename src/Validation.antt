-- ===== src/Validation.antt =====
-- src/validation.cpp: the checks of a program between the parser and the code generator.
pub mod Checked
pub mod Types
pub mod Environment
pub mod Command
pub mod Infer
pub mod InferCommand
pub mod Operands
pub mod Primary
pub mod Casts
pub mod Convert
pub mod Aliases
pub mod Flow
pub mod Closure
pub mod Missing
pub mod Grows
pub mod FlowSteps
pub mod ClosureSteps
pub mod ClosureEnds
pub mod System
pub mod Access
pub mod Atomics
pub mod Plain
pub mod Block
pub mod Cycles
pub mod Program
pub mod Acyclic
pub mod Visits
pub mod VisitEnds
pub mod CycleFree
pub mod Typing
pub mod PowerOfTwo
pub mod TypeRules
pub mod CastRules
pub mod Widths
pub mod Accepted
pub mod Trace
pub mod Names
pub mod ProgramRules
pub mod BlockPlaces
pub mod Places
pub mod Misplaced
pub mod Fixed
pub mod StorageFixed
pub mod Behind
pub mod Dangling
mod Samples
mod TypeExamples
mod Examples
pub mod ClosureErrors
