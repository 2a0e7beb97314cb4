-- ===== src/Driver/Contract.antt =====
-- What `compile` of src/compiler.cpp promises of its result, and how it leaves the log.
use psic.Prelude.{
  ℕ, ◌+◌, ◌≡◌, ◌≢◌, ◌↔◌, refl, ◌∙◌, Bool, true, false, not, Text, List, [], ◌∷◌, map, some, arith,
}
use psic.Target.Pick.{Checked, value, runtime_error, Triple}
use psic.Logging.State.{Diagnostic, Log}
use psic.Logging.Report.{had_errors}
use psic.Logging.Scopes.{open_capture, close_capture}
use psic.Logging.Capture.{is_error, errors_in}
use psic.Driver.Options.{CompileOptions, ShownDiagnostic, CompileResult}
use psic.Driver.Backend.{Backend}
use psic.Driver.Compile.{
  Selected, Attempt, completed, returned, threw, threw_at, stuck, shown, finish, caught, attempted,
  new_vector, select_target, compile,
}
use psic.Driver.Inside.{
  Inside, opened-Inside, log_error-Inside, log_error_at-Inside, had_errors-log_error,
  had_errors-log_error_at,
}
use psic.Driver.Attempts.{OnlySelected, Ends, compile_selected-Ends}

-- The diagnostics that are errors.
abbrev pub shown_errors : List ShownDiagnostic → ℕ
shown_errors [] = 0
shown_errors (d ∷ ds) = is_error d.diagnostic.severity + shown_errors ds

shown_errors-map :
    (source : Text) (options : CompileOptions) (ds : List Diagnostic)
    → shown_errors (map (shown source options) ds) ≡ errors_in ds
shown_errors-map source options [] = refl
shown_errors-map source options (d ∷ ds) = omega (arith, shown_errors-map source options ds)

-- The result says that it succeeded exactly if no diagnostic is an error, and has only the output that
-- is asked for, and none unless it succeeded.
pub record IsContract (options : CompileOptions) (r : CompileResult) : Type 0 where
  pub success : (r.success ≡ true) ↔ (shown_errors r.diagnostics ≡ 0)
  pub selected : OnlySelected options.output r.ir r.object
  pub nothing : r.success ≡ false → (r.ir ≡ []) × (r.object ≡ [])

-- The caller's log is as before, but for the vector of the result.
pub record IsRestored (v : ℕ) (before after : Log) : Type 0 where
  pub sink : after.sink ≡ before.sink
  pub errors : after.errors ≡ before.errors
  pub line : after.line ≡ before.line
  pub column : after.column ≡ before.column
  pub verbose : after.verbose ≡ before.verbose
  pub output : after.output ≡ before.output
  pub untouched : (u : ℕ) → u ≢ v → after.vectors u ≡ before.vectors u

module _ (v : ℕ) (source : Text) (options : CompileOptions) (before : Log) where
  abbrev Fulfils : CompileResult × Log → Type 0
  Fulfils (r, after) = IsContract options r × IsRestored v before after

  close-IsRestored :
      (log : Log) → Inside v before log → IsRestored v before (close_capture before log)
  unfolding close_capture
  close-IsRestored log i = record {
    sink = refl;
    errors = refl;
    line = refl;
    column = refl;
    verbose = refl;
    output = i.output;
    untouched = i.untouched;
  }

  not-had_errors :
      (log : Log)
      → Inside v before log
      → (not (had_errors log) ≡ true) ↔ (errors_in (log.vectors v) ≡ 0)
  unfolding had_errors
  not-had_errors log i = ground (arith, i.counts)

  finish-Fulfils :
      (triple : Text) (success : Bool) (ir object : Text) (log : Log)
      → Inside v before log
      → OnlySelected options.output ir object
      → success ≡ not (had_errors log)
      → Fulfils (finish v source options before triple success ir object log)
  finish-Fulfils triple true ir object log i only e =
      let counted = not-had_errors log i in
      let same = shown_errors-map source options (log.vectors v) in
      (
        record {
          success = ((λ h. same ∙ counted.0 (cc)), λ h. refl);
          selected = only;
          nothing = λ h. absurd (cc);
        },
        close-IsRestored log i,
      )
  finish-Fulfils triple false ir object log i only e =
      let counted = not-had_errors log i in
      let same = shown_errors-map source options (log.vectors v) in
      (
        record {
          success = ((λ h. absurd (cc)), λ h. e ∙ counted.1 (omega (arith, same, h)));
          selected = ((λ _. refl), λ _. refl);
          nothing = λ _. (refl, refl);
        },
        close-IsRestored log i,
      )

  abbrev Returns : Attempt → Text → Type 0
  Returns a triple =
      (result : CompileResult × Log) × (caught v source options before triple a ≡ some result)
      × Fulfils result

  nothing_selected : OnlySelected options.output [] []
  nothing_selected = ((λ _. refl), λ _. refl)

  caught-Returns : (a : Attempt) (triple : Text) → Ends v before options.output a → Returns a triple
  caught-Returns (completed ir object log) triple (i, only) =
      (_, refl, finish-Fulfils triple (not (had_errors log)) ir object log i only refl)
  caught-Returns (returned log) triple (i, h) =
      (_, refl, finish-Fulfils triple false [] [] log i nothing_selected (rw h refl))
  caught-Returns (threw m log) triple i = (
    _,
    refl,
    finish-Fulfils triple false [] [] _ (log_error-Inside v before m log i) nothing_selected
        (rw (had_errors-log_error m log) refl),
  )
  caught-Returns (threw_at m l log) triple i = (
    _,
    refl,
    finish-Fulfils triple false [] [] _ (log_error_at-Inside v before m l.line l.column log i)
        nothing_selected (rw (had_errors-log_error_at m l.line l.column log) refl),
  )
  caught-Returns stuck triple h = absurd h

  module _ (backend : Backend) (triple : Text → Triple) (float_in_range : Text → Bool) where
    attempted-Returns :
        (s : Checked Selected)
        → (result : CompileResult × Log) × (attempted backend triple float_in_range v source options
              before
              (open_capture v (new_vector v before))
              s
            ≡ some result)
          × Fulfils result
    attempted-Returns (runtime_error m) =
        caught-Returns (threw m (open_capture v (new_vector v before))) [] (opened-Inside v before)
    attempted-Returns (value selected) =
        caught-Returns _ selected.triple
          (compile_selected-Ends v before backend float_in_range source options selected)

-- For every code generation that opens no capture scope, sets no sink and resets the count of errors at
-- its start only, and every source and options, `compile` returns: its result succeeded exactly if no
-- diagnostic is an error, holds no other output than the one asked for and none unless it succeeded, and
-- nothing is written to the error stream and the caller's log is left as it was, but for the vector of
-- the result.
pub compile_lem :
    (backend : Backend) (triple : Text → Triple) (float_in_range : Text → Bool) (v : ℕ)
    (source : Text) (options : CompileOptions) (before : Log)
    → (r : CompileResult) × (after : Log) × (compile backend triple float_in_range v source options
          before
        ≡ some (r, after))
      × IsContract options r
      × IsRestored v before after
unfolding compile
compile_lem backend triple float_in_range v source options before =
    let (result, e, fulfils) =
      attempted-Returns v source options before backend triple float_in_range
        (select_target backend triple options) in
    (result.0, result.1, e, fulfils.0, fulfils.1)
