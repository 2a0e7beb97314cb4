-- ===== src/Driver/Attempts.antt =====
-- The `try` block of `compile` in src/compiler.cpp: how it can end, and what the log is then.
use psic.Prelude.{ℕ, ◌≡◌, ◌≢◌, refl, Bool, true, false, Text, [], ==_refl, Bool-cases, inl, inr}
use psic.Source.{Result, ok, failed}
use psic.Ast.{ProgramNode}
use psic.Target.Pick.{Checked, value, runtime_error, is_empty}
use psic.Frontend.Parse.{parse_source}
use psic.Frontend.Total.{parse_source-ne-out_of_fuel}
use psic.Validation.Program.{Validation, valid, located_error, plain_error, validate_program}
use psic.Validation.Places.{validate_program-ne-out_of_fuel}
use psic.Validation.Command.{PointerModel}
use psic.Logging.State.{Log}
use psic.Logging.Report.{had_errors, reset_errors}
use psic.Logging.Scopes.{open_capture}
use psic.Driver.Options.{OutputKind, CompileOptions, is_llvm_ir}
use psic.Driver.Backend.{Backend, Optimized, Emitted}
use psic.Driver.Compile.{
  Selected, Attempt, completed, returned, threw, threw_at, stuck, subtarget_of, report,
  object_error, optimized, emitted, emit, generated, generate, after_validation, with_model,
  pointer_model, with_program, compile_selected, new_vector,
}
use psic.Driver.Inside.{Inside, opened-Inside, run-Inside, log_error-Inside, reset_errors-Inside}

-- Only the output that is asked for.
abbrev pub OnlySelected : OutputKind → Text → Text → Type 0
OnlySelected output ir object =
    (is_llvm_ir output ≡ true → object ≡ []) × (is_llvm_ir output ≡ false → ir ≡ [])

-- An end of the block: it has one, with a log of the scope; a `return` stands behind an error.
abbrev pub Ends : ℕ → Log → OutputKind → Attempt → Type 0
Ends v before output (completed ir object log) = Inside v before log × OnlySelected output ir object
Ends v before output (returned log) = Inside v before log × (had_errors log ≡ true)
Ends v before output (threw m log) = Inside v before log
Ends v before output (threw_at m l log) = Inside v before log
Ends v before output stuck = ⊥

module _ (v : ℕ) (before : Log) where
  report-Inside :
      (error : Text) (log : Log) → Inside v before log → Inside v before (report error log)
  report-Inside error log i = elim (Bool-cases (is_empty error)) [
    | inl e ↦ rw e i
    | inr e ↦ rw e (log_error-Inside v before error log i)
  ]

  optimized-Ends :
      (output : OutputKind) (log : Log) (r : Checked Optimized)
      → is_llvm_ir output ≡ true
      → Inside v before log
      → Ends v before output (optimized log r)
  optimized-Ends output log (runtime_error m) e i = i
  optimized-Ends output log (value r) e i =
      (report-Inside r.error log i, ((λ _. refl), λ h. absurd (cc)))

  emitted-Ends :
      (output : OutputKind) (log : Log) (r : Checked Emitted)
      → is_llvm_ir output ≡ false
      → Inside v before log
      → Ends v before output (emitted log r)
  emitted-Ends output log (runtime_error m) e i = i
  emitted-Ends output log (value r) e i =
      (report-Inside (object_error r log) log i, ((λ h. absurd (cc)), λ _. refl))

  module _ (backend : Backend) where
    emit-Ends :
        (options : CompileOptions) (selected : Selected) (ir : Text) (log : Log)
        → Inside v before log
        → Ends v before options.output (emit backend options selected ir log)
    unfolding emit
    emit-Ends options selected ir log i =
        let level = options.optimization in
        let subtarget = subtarget_of options in
        let object = selected.triple in
        elim (Bool-cases (is_llvm_ir options.output)) [
          | inl e ↦ rw e (
              optimized-Ends options.output _ _ e (
                run-Inside v before _ log
                  (λ u. backend.optimize_ir-Undisturbed u ir level subtarget) i))
          | inr e ↦ rw e (
              emitted-Ends options.output _ _ e (
                run-Inside v before _ log
                  (λ u. backend.compile_to_object_memory-Undisturbed u ir object level subtarget)
                  i))
        ]

    generated-Ends :
        (options : CompileOptions) (selected : Selected) (log : Log) (r : Checked Text)
        → Inside v before log
        → Ends v before options.output (generated backend options selected log r)
    generated-Ends options selected log (runtime_error m) i = i
    generated-Ends options selected log (value ir) i = elim (Bool-cases (had_errors log)) [
      | inl e ↦ rw e (i, e)
      | inr e ↦ rw e (emit-Ends options selected ir log i)
    ]

    generate-Ends :
        (options : CompileOptions) (selected : Selected) (program : ProgramNode) (log : Log)
        → log.vectors v ≡ []
        → Inside v before log
        → Ends v before options.output (generate backend options selected program log)
    unfolding generate
    generate-Ends options selected program log e i =
        let target = selected.target in
        generated-Ends options selected _ _ (
          run-Inside v before _ (reset_errors log)
            (λ u.
              backend.compile_program-Undisturbed u options.module_name program target.architecture
                target.operating_system selected.triple (subtarget_of options))
            (reset_errors-Inside v before log e i))

    after_validation-Ends :
        (options : CompileOptions) (selected : Selected) (program : ProgramNode) (log : Log)
        (r : Validation)
        → r ≢ Validation.out_of_fuel
        → log.vectors v ≡ []
        → Inside v before log
        → Ends v before options.output (after_validation backend options selected program log r)
    after_validation-Ends options selected program log valid ne e i =
        generate-Ends options selected program log e i
    after_validation-Ends options selected program log (located_error m l) ne e i = i
    after_validation-Ends options selected program log (plain_error m) ne e i = i
    after_validation-Ends options selected program log Validation.out_of_fuel ne e i =
        absurd (ne refl)

    with_model-Ends :
        (options : CompileOptions) (selected : Selected) (program : ProgramNode) (log : Log)
        (r : Checked PointerModel)
        → log.vectors v ≡ []
        → Inside v before log
        → Ends v before options.output (with_model backend options selected program log r)
    with_model-Ends options selected program log (runtime_error m) e i = i
    with_model-Ends options selected program log (value model) e i =
        after_validation-Ends options selected program log (validate_program model program)
          (validate_program-ne-out_of_fuel model program) e i

    with_program-Ends :
        (options : CompileOptions) (selected : Selected) (log : Log) (r : Result ProgramNode)
        → r ≢ Result.out_of_fuel
        → log.vectors v ≡ []
        → Inside v before log
        → Ends v before options.output (with_program backend options selected log r)
    with_program-Ends options selected log (ok program) ne e i =
        with_model-Ends options selected program log (pointer_model backend options selected) e i
    with_program-Ends options selected log (failed m l) ne e i = i
    with_program-Ends options selected log Result.out_of_fuel ne e i = absurd (ne refl)

    pub compile_selected-Ends :
        (float_in_range : Text → Bool) (source : Text) (options : CompileOptions)
        (selected : Selected)
        → Ends v before options.output (
            compile_selected backend float_in_range source options selected
              (open_capture v (new_vector v before)))
    unfolding compile_selected open_capture
    compile_selected-Ends float_in_range source options selected =
        with_program-Ends options selected _ (parse_source float_in_range source)
          (parse_source-ne-out_of_fuel float_in_range source) (rw (==_refl v) refl)
          (opened-Inside v before)
