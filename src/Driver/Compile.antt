-- ===== src/Driver/Compile.antt =====
-- src/compiler.cpp: `compile`.
use psic.Prelude.{
  ℕ, ◌==◌, Bool, false, ◌&&◌, not, Text, [], map, if◌then◌else◌, codes, Option, none, some,
}
use psic.Source.{SourceLocation, Result, ok, failed}
use psic.Ast.{ProgramNode}
use psic.Target.Pick.{Checked, value, runtime_error, Triple, is_empty, then_with}
use psic.Target.Resolve.{TargetConfig, resolve_target}
use psic.Frontend.Parse.{parse_source}
use psic.Frontend.SourceLine.{source_line_at}
use psic.Validation.Program.{Validation, valid, located_error, plain_error, validate_program}
use psic.Validation.Command.{PointerModel}
use psic.Logging.State.{Diagnostic, Log}
use psic.Logging.Report.{log_error, log_error_at, had_errors, reset_errors}
use psic.Logging.Scopes.{run, open_capture, close_capture}
use psic.Driver.Options.{
  CompileOptions, ShownDiagnostic, CompileResult, is_llvm_ir, validate_options,
}
use psic.Driver.DefaultTriple.{default_triple}
use psic.Driver.Backend.{Backend, Subtarget, Optimized, Emitted}

-- The target, and the triple that is used for it.
pub record Selected : Type 0 where
  pub target : TargetConfig
  pub triple : Text

-- How the `try` block ends: behind its last statement, with the generated text or bytes; by the
-- `return` in it; or by an exception, with or without a place. `stuck` is no end.
pub data Attempt : Type 0 where
  completed : Text → Text → Log → Attempt
  returned : Log → Attempt
  threw : Text → Log → Attempt
  threw_at : Text → SourceLocation → Log → Attempt
  stuck : Attempt

abbrev pub subtarget_of : CompileOptions → Subtarget
subtarget_of options = record { cpu = options.target_cpu; features = options.target_features }

-- `psi::logError`, unless the error is empty.
abbrev pub report : Text → Log → Log
report error log = if is_empty error then log else log_error error log

-- The error of an object that is not generated.
abbrev pub object_error : Emitted → Log → Text
object_error r log =
    if not r.emitted && is_empty r.error && not (had_errors log)
    then codes "object generation failed"
    else r.error

abbrev pub optimized : Log → Checked Optimized → Attempt
optimized log (runtime_error m) = threw m log
optimized log (value r) = completed r.text [] (report r.error log)

abbrev pub emitted : Log → Checked Emitted → Attempt
emitted log (runtime_error m) = threw m log
emitted log (value r) = completed [] r.bytes (report (object_error r log) log)

-- The loop over the diagnostics.
abbrev pub shown : Text → CompileOptions → Diagnostic → ShownDiagnostic
shown source options d = record {
  diagnostic = d;
  source_name = options.source_name;
  source_line = source_line_at source d.line;
}

-- The result, and the log when the scope is closed.
abbrev pub finish :
    ℕ → Text → CompileOptions → Log → Text → Bool → Text → Text → Log → CompileResult × Log
finish v source options before target_triple success ir object log = (
  record {
    success = success;
    target_triple = target_triple;
    ir = if success then ir else [];
    object = if success then object else [];
    diagnostics = map (shown source options) (log.vectors v);
  },
  close_capture before log,
)

-- The handlers, and what comes behind the `try` block.
abbrev pub caught : ℕ → Text → CompileOptions → Log → Text → Attempt → Option (CompileResult × Log)
caught v source options before target_triple (completed ir object log) =
    some (finish v source options before target_triple (not (had_errors log)) ir object log)
caught v source options before target_triple (returned log) =
    some (finish v source options before target_triple false [] [] log)
caught v source options before target_triple (threw m log) =
    some (finish v source options before target_triple false [] [] (log_error m log))
caught v source options before target_triple (threw_at m l log) =
    some (
      finish v source options before target_triple false [] [] (log_error_at m l.line l.column log))
caught v source options before target_triple stuck = none

-- `result.diagnostics` is the vector `v`, which is new.
abbrev pub new_vector : ℕ → Log → Log
new_vector v log = record log { vectors = λ w. if w == v then [] else log.vectors w }

module _ (backend : Backend) where
  unfoldable pub select_triple : CompileOptions → TargetConfig → Checked Selected
  select_triple options target =
      let selected = λ (t : Text).
        value (record { target = target; triple = backend.normalize_target_triple t }) in
      if is_empty options.target.target_triple
      then then_with (default_triple target.architecture target.operating_system) selected
      else selected options.target.target_triple

  -- The output that the options ask for, from the IR on.
  unfoldable pub emit : CompileOptions → Selected → Text → Log → Attempt
  emit options selected ir log =
      let subtarget = subtarget_of options in
      let text = backend.optimize_ir ir options.optimization subtarget in
      let bytes =
        backend.compile_to_object_memory ir selected.triple options.optimization subtarget in
      if is_llvm_ir options.output
      then optimized (run text.reports log) text.outcome
      else emitted (run bytes.reports log) bytes.outcome

  abbrev pub generated : CompileOptions → Selected → Log → Checked Text → Attempt
  generated options selected log (runtime_error m) = threw m log
  generated options selected log (value ir) =
      if had_errors log then returned log else emit options selected ir log

  -- From the call of `compileProgram` on, which resets the count of errors.
  unfoldable pub generate : CompileOptions → Selected → ProgramNode → Log → Attempt
  generate options selected program log =
      let code =
        backend.compile_program options.module_name program selected.target.architecture
          selected.target.operating_system selected.triple (subtarget_of options) in
      generated options selected (run code.reports (reset_errors log)) code.outcome

  abbrev pub after_validation : CompileOptions → Selected → ProgramNode → Log → Validation → Attempt
  after_validation options selected program log valid = generate options selected program log
  after_validation options selected program log (located_error m l) = threw_at m l log
  after_validation options selected program log (plain_error m) = threw m log
  after_validation options selected program log Validation.out_of_fuel = stuck

  abbrev pub with_model :
      CompileOptions → Selected → ProgramNode → Log → Checked PointerModel → Attempt
  with_model options selected program log (runtime_error m) = threw m log
  with_model options selected program log (value model) =
      after_validation options selected program log (validate_program model program)

  abbrev pub pointer_model : CompileOptions → Selected → Checked PointerModel
  pointer_model options selected =
      backend.target_pointer_model selected.target.architecture selected.target.operating_system
        selected.triple (subtarget_of options)

  abbrev pub with_program : CompileOptions → Selected → Log → Result ProgramNode → Attempt
  with_program options selected log (ok program) =
      with_model options selected program log (pointer_model options selected)
  with_program options selected log (failed m l) = threw_at m l log
  with_program options selected log Result.out_of_fuel = stuck

  -- The statements up to the assignment of `result.targetTriple`.
  unfoldable pub select_target : (Text → Triple) → CompileOptions → Checked Selected
  select_target triple options =
      then_with (validate_options options)
        (λ _. then_with (resolve_target triple options.target) (select_triple options))

  -- The statements from the lexer on.
  unfoldable pub compile_selected : (Text → Bool) → Text → CompileOptions → Selected → Log → Attempt
  compile_selected float_in_range source options selected log =
      with_program options selected log (parse_source float_in_range source)

  module _ (triple : Text → Triple) (float_in_range : Text → Bool) where
    abbrev pub attempted :
        ℕ → Text → CompileOptions → Log → Log → Checked Selected → Option (CompileResult × Log)
    attempted v source options before log (runtime_error m) =
        caught v source options before [] (threw m log)
    attempted v source options before log (value selected) =
        caught v source options before selected.triple
          (compile_selected float_in_range source options selected log)

    unfoldable pub compile : ℕ → Text → CompileOptions → Log → Option (CompileResult × Log)
    compile v source options before =
        attempted v source options before (open_capture v (new_vector v before))
          (select_target triple options)
