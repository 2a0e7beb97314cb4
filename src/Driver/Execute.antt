-- ===== src/Driver/Execute.antt =====
-- What `execute` and `prepareJit` of src/compiler.cpp promise: `buildJit` over `compile`.
use psic.Prelude.{
  ℕ, ◌≢◌, codes, ◌+◌, ◌≡◌, ◌↔◌, refl, Bool, true, false, not, Text, List, [], ◌∷◌, ◌++◌, Option,
  none, some, if◌then◌else◌, arith, ◌⊎◌, inl, inr,
}
use psic.Source.{Result, ok, failed}
use psic.Ast.{ProgramNode}
use psic.Target.Pick.{Triple}
use psic.Frontend.Parse.{parse_source}
use psic.Frontend.Total.{parse_source-ne-out_of_fuel}
use psic.Frontend.Entry.{EntryCheck, accepted, refused, validate_jit_entry_signature}
use psic.Logging.State.{Log}
use psic.Logging.Capture.{is_error}
use psic.Driver.Options.{CompileOptions, ShownDiagnostic, CompileResult, is_llvm_ir}
use psic.Driver.Backend.{Backend}
use psic.Driver.Compile.{subtarget_of, compile}
use psic.Driver.Contract.{shown_errors, IsContract, compile_lem}
use psic.Driver.Jit.{
  JitBackend, JitOptions, JitResult, Execution, executed, not_executed, execution_threw,
  threw_unknown, runs_on, with_log, jit_failed, jit_error, after_execution, configured,
  subtarget_error, execution, after_check, after_parse, after_compile, after_subtarget, build_jit,
}

-- The result succeeded exactly if no diagnostic is an error.
abbrev pub Reports : JitResult → Type 0
Reports r = (r.success ≡ true) ↔ (shown_errors r.diagnostics ≡ 0)

shown_errors-append :
    (ds es : List ShownDiagnostic) → shown_errors (ds ++ es) ≡ shown_errors ds + shown_errors es
shown_errors-append [] es = omega arith
shown_errors-append (d ∷ ds) es = omega (arith, shown_errors-append ds es)

-- A failure with an error behind the diagnostics of the compilation.
failed-Reports :
    (t : Text) (ds : List ShownDiagnostic) (d : ShownDiagnostic)
    → is_error d.diagnostic.severity ≡ 1
    → Reports (jit_failed t (ds ++ d ∷ []))
failed-Reports t ds d e =
    ((λ h. absurd (cc)), λ h. absurd (omega (arith, shown_errors-append ds (d ∷ []), e, h)))

abbrev Returns : Option (JitResult × Log) → Type 0
Returns o = (r : JitResult) × (after : Log) × (o ≡ some (r, after)) × Reports r

with_log-Returns :
    (options : CompileOptions) (compiled : CompileResult) (log : Log) (x : Execution)
    → shown_errors compiled.diagnostics ≡ 0
    → x ≢ runs_on
    → Returns (with_log log (after_execution options compiled x))
with_log-Returns options compiled log (executed code m) e ends =
    (_, log, refl, ((λ _. e), λ _. refl))
with_log-Returns options compiled log (not_executed m) e ends =
    (_, log, refl, failed-Reports compiled.target_triple compiled.diagnostics _ refl)
with_log-Returns options compiled log (execution_threw m) e ends =
    (_, log, refl, failed-Reports compiled.target_triple compiled.diagnostics _ refl)
with_log-Returns options compiled log threw_unknown e ends =
    (_, log, refl, failed-Reports compiled.target_triple compiled.diagnostics _ refl)
with_log-Returns options compiled log runs_on e ends = absurd (ends refl)

runs_on-cases : (x : Execution) → (x ≡ runs_on) ⊎ (x ≢ runs_on)
runs_on-cases (executed code m) = inr (λ e. absurd (cc))
runs_on-cases (not_executed m) = inr (λ e. absurd (cc))
runs_on-cases (execution_threw m) = inr (λ e. absurd (cc))
runs_on-cases threw_unknown = inr (λ e. absurd (cc))
runs_on-cases runs_on = inl refl

module _ (jit : JitBackend) (triple : Text → Triple) (backend : Backend)
    (float_in_range : Text → Bool) (v : ℕ) (source : Text) (options : JitOptions) where
  -- A compilation succeeds, and the JIT, on its code, does not end.
  pub record RunsOn (prepare : Bool) (before : Log) : Type 0 where
    pub compiled : CompileResult
    pub log : Log
    pub compiles :
        compile backend triple float_in_range v source
          (configured jit triple options.compile)
          before
        ≡ some (compiled, log)
    pub succeeds : compiled.success ≡ true
    pub endless :
        jit.execute_jit compiled.ir options.entry options.external_functions
          (subtarget_of options.compile)
          prepare
        ≡ runs_on

  module _ (prepare : Bool) (before : Log) where
    abbrev Settles : Option (JitResult × Log) → Type 0
    Settles o = Returns o ⊎ RunsOn prepare before

    Settles-if :
        (b : Bool) {x y : Option (JitResult × Log)}
        → (b ≡ true → Settles x)
        → (b ≡ false → Settles y)
        → Settles (if b then x else y)
    Settles-if true hx hy = hx refl
    Settles-if false hx hy = hy refl

    module _ (compiled : CompileResult) (log : Log) where
      execution-Settles :
          shown_errors compiled.diagnostics ≡ 0
          → compiled.success ≡ true
          → compile backend triple float_in_range v source
              (configured jit triple options.compile)
              before
            ≡ some (compiled, log)
          → Settles
              (execution jit triple backend float_in_range v prepare source options compiled log)
      unfolding execution
      execution-Settles e succeeds compiles =
          elim (runs_on-cases (
            jit.execute_jit compiled.ir options.entry options.external_functions
              (subtarget_of options.compile) prepare)) [
                | inl endless ↦ inr (record {
                  compiled = compiled;
                  log = log;
                  compiles = compiles;
                  succeeds = succeeds;
                  endless = endless;
                })
                | inr ends ↦ inl (with_log-Returns options.compile compiled _ _ e ends)
              ]

      after_check-Settles :
          (check : EntryCheck)
          → shown_errors compiled.diagnostics ≡ 0
          → Settles
              (execution jit triple backend float_in_range v prepare source options compiled log)
          → Settles (
              after_check jit triple backend float_in_range v prepare source options compiled log
                check)
      after_check-Settles accepted e runs = runs
      after_check-Settles (refused m l) e runs =
          inl (_, _, refl, failed-Reports compiled.target_triple compiled.diagnostics _ refl)

      after_parse-Settles :
          (r : Result ProgramNode)
          → r ≢ Result.out_of_fuel
          → shown_errors compiled.diagnostics ≡ 0
          → Settles
              (execution jit triple backend float_in_range v prepare source options compiled log)
          → Settles (
              after_parse jit triple backend float_in_range v prepare source options compiled log r)
      after_parse-Settles (ok program) ne e runs =
          after_check-Settles (validate_jit_entry_signature options.entry program) e runs
      after_parse-Settles (failed m l) ne e runs =
          inl (_, _, refl, failed-Reports compiled.target_triple compiled.diagnostics _ refl)
      after_parse-Settles Result.out_of_fuel ne e runs = absurd (ne refl)

      after_compile-Settles :
          compile backend triple float_in_range v source
              (configured jit triple options.compile)
              before
            ≡ some (compiled, log)
          → IsContract (configured jit triple options.compile) compiled
          → Settles (
              after_compile jit triple backend float_in_range v prepare source options
                (some (compiled, log)))
      after_compile-Settles compiles c =
          Settles-if (not compiled.success)
            (λ e. inl (
              jit_failed compiled.target_triple compiled.diagnostics,
              log,
              refl,
              ((λ h. absurd (cc)), λ h. absurd (ground (arith, e, c.success.1 h))),
            ))
            (λ e.
              let succeeds : compiled.success ≡ true = ground (arith, e) in
              let none_wrong = c.success.0 succeeds in
              let runs = execution-Settles none_wrong succeeds compiles in
              Settles-if prepare (λ p. runs)
                (λ p.
                  after_parse-Settles (parse_source float_in_range source)
                    (parse_source-ne-out_of_fuel float_in_range source) none_wrong runs))

    after_subtarget-Settles :
        (m : Option Text)
        → Settles (
            after_subtarget jit triple backend float_in_range v prepare source options
              (configured jit triple options.compile)
              before
              m)
    after_subtarget-Settles (some m) =
        let chosen = configured jit triple options.compile in
        inl (_, _, refl, failed-Reports chosen.target.target_triple [] (jit_error chosen m) refl)
    after_subtarget-Settles none =
        let chosen = configured jit triple options.compile in
        let (compiled, log, e, contract, restored) =
          compile_lem backend triple float_in_range v source chosen before in
        rw e (after_compile-Settles compiled log e contract)

-- For every JIT, every code generation that opens no capture scope, sets no sink and resets the count of
-- errors at its start only, and every source and options, and for a run as for a prepared module:
-- `buildJit` returns, and its result succeeded exactly if no diagnostic is an error, or the compilation
-- succeeded and the call of `executeJit` on its code does not end.
pub build_jit-Reports :
    (jit : JitBackend) (triple : Text → Triple) (backend : Backend) (float_in_range : Text → Bool)
    (v : ℕ) (prepare : Bool) (source : Text) (options : JitOptions) (before : Log)
    → ((r : JitResult) × (after : Log) × (build_jit jit triple backend float_in_range v prepare
            source options before
          ≡ some (r, after))
        × ((r.success ≡ true) ↔ (shown_errors r.diagnostics ≡ 0)))
      ⊎ RunsOn jit triple backend float_in_range v source options prepare before
unfolding build_jit
build_jit-Reports jit triple backend float_in_range v prepare source options before =
    Settles-if jit triple backend float_in_range v source options prepare before
      (not (is_llvm_ir options.compile.output))
      (λ e. inl (
        _,
        _,
        refl,
        failed-Reports [] []
            (jit_error options.compile (codes "JIT execution cannot request object-file output"))
            refl,
      ))
      (λ e.
        after_subtarget-Settles jit triple backend float_in_range v source options prepare before
          (subtarget_error jit triple (configured jit triple options.compile)))
