-- ===== src/Driver/Options.antt =====
-- include/psic/compiler.hpp: the options and results of a compilation.
use psic.Prelude.{Bool, true, false, Text, List, Option, codes}
use psic.Target.Pick.{Checked, value, runtime_error}
use psic.Target.Resolve.{TargetOptions}
use psic.Logging.State.{Diagnostic}

-- `other_level` and `other_output` are the values of the type that have no enumerator, which a caller
-- can make by a cast.
pub data OptimizationLevel : Type 0 where
  o0 o1 o2 o3 os oz other_level : OptimizationLevel

pub data OutputKind : Type 0 where
  llvm_ir object other_output : OutputKind

pub record CompileOptions : Type 0 where
  pub module_name : Text
  pub source_name : Text
  pub target : TargetOptions
  pub target_cpu : Text
  pub target_features : Text
  pub optimization : OptimizationLevel
  pub output : OutputKind

-- A diagnostic with the name of its source; `none` for the line is `hasSourceLine == false`.
pub record ShownDiagnostic : Type 0 where
  pub diagnostic : Diagnostic
  pub source_name : Text
  pub source_line : Option Text

pub record CompileResult : Type 0 where
  pub success : Bool
  pub target_triple : Text
  pub ir : Text
  pub object : Text
  pub diagnostics : List ShownDiagnostic

abbrev pub is_llvm_ir : OutputKind → Bool
is_llvm_ir llvm_ir = true
is_llvm_ir _ = false

abbrev check_output : OutputKind → Checked (Unit {0})
check_output other_output = runtime_error (codes "invalid output kind")
check_output _ = value tt

abbrev check_level : OptimizationLevel → OutputKind → Checked (Unit {0})
check_level other_level output = runtime_error (codes "invalid optimization level")
check_level _ output = check_output output

unfoldable pub validate_options : CompileOptions → Checked (Unit {0})
validate_options options = check_level options.optimization options.output
