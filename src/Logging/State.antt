-- ===== src/Logging/State.antt =====
-- The variables of src/logging.cpp for one thread, with the vectors that diagnostics are pushed to
-- and what is written to the error stream.
use psic.Prelude.{ℕ, Bool, List, Text, Option}

pub data DiagnosticSeverity : Type 0 where
  error warning note : DiagnosticSeverity

-- The fields that the logging fills in; it leaves the others of a diagnostic empty.
pub record Diagnostic : Type 0 where
  pub severity : DiagnosticSeverity
  pub message : Text
  pub line : ℕ
  pub column : ℕ

-- `sink` is the pointer, as the number of a vector; `none` is the null pointer.
pub record Log : Type 0 where
  pub verbose : Bool
  pub errors : ℕ
  pub sink : Option ℕ
  pub line : ℕ
  pub column : ℕ
  pub vectors : ℕ → List Diagnostic
  pub output : List Text
