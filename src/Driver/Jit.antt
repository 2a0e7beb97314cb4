-- ===== src/Driver/Jit.antt =====
-- src/compiler.cpp: `buildJit`, which `execute` and `prepareJit` call.
use psic.Prelude.{
  ℕ, ℤ, pos, Bool, true, false, ◌&&◌, not, Text, List, [], ◌∷◌, ◌++◌, if◌then◌else◌, codes, Option,
  none, some,
}
use psic.Source.{SourceLocation, Result, ok, failed}
use psic.Ast.{ProgramNode}
use psic.Target.Pick.{Checked, value, runtime_error, Triple, is_empty, then_with}
use psic.Target.Resolve.{TargetOptions, resolve_target}
use psic.Frontend.Parse.{parse_source}
use psic.Frontend.SourceLine.{source_line_at}
use psic.Frontend.Entry.{EntryCheck, accepted, refused, validate_jit_entry_signature}
use psic.Logging.State.{error, Log}
use psic.Logging.Scopes.{Run, run}
use psic.Driver.Options.{CompileOptions, ShownDiagnostic, CompileResult, is_llvm_ir}
use psic.Driver.DefaultTriple.{default_triple}
use psic.Driver.Backend.{Backend, Subtarget}
use psic.Driver.Compile.{subtarget_of, compile}

pub record FunctionSymbol : Type 0 where
  pub name : Text
  pub address : ℕ

pub record JitOptions : Type 0 where
  pub compile : CompileOptions
  pub entry : Text
  pub external_functions : List FunctionSymbol

-- `jit_module` is the handle of a prepared module.
pub record JitResult : Type 0 where
  pub success : Bool
  pub exit_code : ℤ
  pub target_triple : Text
  pub diagnostics : List ShownDiagnostic
  pub jit_module : Option ℕ

-- How `executeJit` ends: the exit code and the handle, `false` with an error, or an exception; or that
-- it does not end, as the native code that it runs may loop.
pub data Execution : Type 0 where
  executed : ℤ → Option ℕ → Execution
  not_executed : Text → Execution
  execution_threw : Text → Execution
  threw_unknown : Execution
  runs_on : Execution

-- The calls of the JIT, which runs the native code. `none` says that a subtarget is accepted. The flag
-- of `execute_jit` asks for a module in place of a run.
pub record JitBackend : Type 0 where
  pub native_target_triple : Text
  pub validate_jit_subtarget : Text → Subtarget → Option Text
  pub reports : Text → Text → List FunctionSymbol → Subtarget → Bool → Run
  pub execute_jit : Text → Text → List FunctionSymbol → Subtarget → Bool → Execution

-- An error that `buildJit` adds by itself.
abbrev pub jit_error : CompileOptions → Text → ShownDiagnostic
jit_error options m = record {
  diagnostic = record { severity = error; message = m; line = 0; column = 0 };
  source_name = options.source_name;
  source_line = none;
}

abbrev pub entry_error : Text → CompileOptions → Text → SourceLocation → ShownDiagnostic
entry_error source options m l = record {
  diagnostic = record { severity = error; message = m; line = l.line; column = l.column };
  source_name = options.source_name;
  source_line = source_line_at source l.line;
}

abbrev pub jit_failed : Text → List ShownDiagnostic → JitResult
jit_failed target_triple diagnostics = record {
  success = false;
  exit_code = pos 0;
  target_triple = target_triple;
  diagnostics = diagnostics;
  jit_module = none;
}

-- The end of `executeJit`, behind the diagnostics of a compilation; `none` is no end.
abbrev pub after_execution : CompileOptions → CompileResult → Execution → Option JitResult
after_execution options compiled (executed exit_code jit_module) = some (record {
  success = true;
  exit_code = exit_code;
  target_triple = compiled.target_triple;
  diagnostics = compiled.diagnostics;
  jit_module = jit_module;
})
after_execution options compiled (not_executed m) =
    some (jit_failed compiled.target_triple (compiled.diagnostics ++ jit_error options m ∷ []))
after_execution options compiled (execution_threw m) = some (
    jit_failed compiled.target_triple
      (compiled.diagnostics ++ jit_error options (codes "JIT setup failed: " ++ m) ∷ []))
after_execution options compiled threw_unknown = some (
    jit_failed compiled.target_triple (
      compiled.diagnostics
      ++ jit_error options (codes "JIT setup failed with an unknown exception") ∷ []))
after_execution options compiled runs_on = none

-- A result and the log behind it.
abbrev pub with_log : Log → Option JitResult → Option (JitResult × Log)
with_log log none = none
with_log log (some r) = some (r, log)

abbrev pub with_triple : CompileOptions → Text → CompileOptions
with_triple options t = record options { target = record options.target { target_triple = t } }

abbrev pub no_selectors : TargetOptions → Bool
no_selectors target =
    is_empty target.architecture
    && is_empty target.operating_system
    && is_empty target.target_triple

-- The triple that the pair of a target gives; an exception leaves the options as they are.
abbrev pub or_unchanged : CompileOptions → Checked Text → CompileOptions
or_unchanged options (value t) = with_triple options t
or_unchanged options (runtime_error m) = options

module _ (jit : JitBackend) (triple : Text → Triple) where
  -- The options of the compilation: with the native triple, or the one of the named target.
  unfoldable pub configured : CompileOptions → CompileOptions
  configured options =
      let native =
        if no_selectors options.target
        then with_triple options jit.native_target_triple
        else options in
      let default =
        then_with (resolve_target triple native.target)
          (λ t. default_triple t.architecture t.operating_system) in
      if is_empty native.target.target_triple then or_unchanged native default else native

  abbrev pub subtarget_error : CompileOptions → Option Text
  subtarget_error options =
      if is_empty options.target.target_triple
      then none
      else jit.validate_jit_subtarget options.target.target_triple (subtarget_of options)

  module _ (backend : Backend) (float_in_range : Text → Bool) (v : ℕ) (prepare : Bool)
      (source : Text) (options : JitOptions) where
    unfoldable pub execution : CompileResult → Log → Option (JitResult × Log)
    execution compiled log =
        let subtarget = subtarget_of options.compile in
        let symbols = options.external_functions in
        with_log (run (jit.reports compiled.ir options.entry symbols subtarget prepare) log) (
          after_execution options.compile compiled
            (jit.execute_jit compiled.ir options.entry symbols subtarget prepare))

    abbrev pub after_check : CompileResult → Log → EntryCheck → Option (JitResult × Log)
    after_check compiled log accepted = execution compiled log
    after_check compiled log (refused m l) = some (
      jit_failed compiled.target_triple
          (compiled.diagnostics ++ entry_error source options.compile m l ∷ []),
      log,
    )

    -- `validateJitEntrySignature`, which reads the source again.
    abbrev pub after_parse : CompileResult → Log → Result ProgramNode → Option (JitResult × Log)
    after_parse compiled log (ok program) =
        after_check compiled log (validate_jit_entry_signature options.entry program)
    after_parse compiled log (failed m l) = some (
      jit_failed compiled.target_triple (
          compiled.diagnostics
          ++ jit_error options.compile (codes "JIT entry validation failed: " ++ m) ∷ []),
      log,
    )
    after_parse compiled log Result.out_of_fuel = none

    abbrev pub after_compile : Option (CompileResult × Log) → Option (JitResult × Log)
    after_compile none = none
    after_compile (some (compiled, log)) =
        if not compiled.success
        then some (jit_failed compiled.target_triple compiled.diagnostics, log)
        else if prepare
        then execution compiled log
        else after_parse compiled log (parse_source float_in_range source)

    abbrev pub after_subtarget : CompileOptions → Log → Option Text → Option (JitResult × Log)
    after_subtarget chosen before (some m) =
        some (jit_failed chosen.target.target_triple (jit_error chosen m ∷ []), before)
    after_subtarget chosen before none =
        after_compile (compile backend triple float_in_range v source chosen before)

    unfoldable pub build_jit : Log → Option (JitResult × Log)
    build_jit before =
        let chosen = configured options.compile in
        if not (is_llvm_ir options.compile.output)
        then some (
          jit_failed [] (
              jit_error options.compile (codes "JIT execution cannot request object-file output")
              ∷ []),
          before,
        )
        else after_subtarget chosen before (subtarget_error chosen)
