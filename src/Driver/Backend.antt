-- ===== src/Driver/Backend.antt =====
-- src/codegen.hpp: the code generation as the driver calls it, which builds its results through LLVM.
-- What it reports to the log before it ends is a run of the logging.
use psic.Prelude.{ℕ, Bool, Text}
use psic.Ast.{ProgramNode}
use psic.Target.Model.{Architecture, OperatingSystem}
use psic.Target.Pick.{Checked}
use psic.Logging.Scopes.{Run}
use psic.Logging.Capture.{Undisturbed}
use psic.Validation.Command.{PointerModel}
use psic.Driver.Options.{OptimizationLevel}

-- The CPU and the features that the options select.
pub record Subtarget : Type 0 where
  pub cpu : Text
  pub features : Text

-- What a call reports, and its result or the `std::exception` that it throws.
pub record Reported (A : Type 0) : Type 0 where
  pub reports : Run
  pub outcome : Checked A

-- `optimizeIR`: the text, and the error, which is empty for none.
pub record Optimized : Type 0 where
  pub text : Text
  pub error : Text

-- `compileToObjectMemory`: the result, the bytes and the error.
pub record Emitted : Type 0 where
  pub emitted : Bool
  pub bytes : Text
  pub error : Text

-- The code generation opens no capture scope, sets no sink, and resets the count of errors only at the
-- start of `compileProgram`.
pub record Backend : Type 0 where
  pub normalize_target_triple : Text → Text
  pub target_pointer_model :
      Architecture → OperatingSystem → Text → Subtarget → Checked PointerModel
  -- `compileProgram` behind its call of `resetErrors`.
  pub compile_program :
      Text → ProgramNode → Architecture → OperatingSystem → Text → Subtarget → Reported Text
  pub optimize_ir : Text → OptimizationLevel → Subtarget → Reported Optimized
  pub compile_to_object_memory : Text → Text → OptimizationLevel → Subtarget → Reported Emitted
  pub compile_program-Undisturbed :
      (v : ℕ) (name : Text) (program : ProgramNode) (a : Architecture) (os : OperatingSystem)
      (triple : Text) (subtarget : Subtarget)
      → Undisturbed v (compile_program name program a os triple subtarget).reports
  pub optimize_ir-Undisturbed :
      (v : ℕ) (ir : Text) (level : OptimizationLevel) (subtarget : Subtarget)
      → Undisturbed v (optimize_ir ir level subtarget).reports
  pub compile_to_object_memory-Undisturbed :
      (v : ℕ) (ir triple : Text) (level : OptimizationLevel) (subtarget : Subtarget)
      → Undisturbed v (compile_to_object_memory ir triple level subtarget).reports
