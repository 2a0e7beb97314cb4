-- ===== src/Driver/Inside.antt =====
-- The log inside the capture scope of `compile` in src/compiler.cpp.
use psic.Prelude.{ℕ, ==_refl, ◌≡◌, ◌≢◌, refl, sym, ◌∙◌, true, [], Text, some, arith}
use psic.Logging.State.{Log}
use psic.Logging.Report.{
  log_error, log_error_at, had_errors, reset_errors, emit_diagnostic, emit_or,
}
use psic.Logging.Scopes.{Call, error_call, error_at, called, Run, run, open_capture}
use psic.Logging.Restore.{SetsNoSink, called-Keeps, run-Keeps}
use psic.Logging.Capture.{
  errors_in, Undisturbed, IsNoReset, called-Captures, run-silent, run-counts, run-untouched,
}
use psic.Driver.Compile.{new_vector}

-- The sink is the vector `v`, the errors counted are those in it, and since `before` nothing has been
-- written to the error stream and no other vector has changed.
pub record Inside (v : ℕ) (before log : Log) : Type 0 where
  pub sink : log.sink ≡ some v
  pub output : log.output ≡ before.output
  pub counts : log.errors ≡ errors_in (log.vectors v)
  pub untouched : (u : ℕ) → u ≢ v → log.vectors u ≡ before.vectors u

module _ (v : ℕ) (before : Log) where
  pub opened-Inside : Inside v before (open_capture v (new_vector v before))
  unfolding open_capture
  opened-Inside = record {
    sink = refl;
    output = refl;
    counts = rw (==_refl v) refl;
    untouched = λ u h. ground arith;
  }

  pub run-Inside :
      (r : Run) (log : Log)
      → ((u : ℕ) → Undisturbed u r)
      → Inside v before log
      → Inside v before (run r log)
  run-Inside r log away i = record {
    sink = (run-Keeps r log (away v).sink).sink ∙ i.sink;
    output = run-silent v r log i.sink (away v).sink ∙ i.output;
    counts = omega (
      arith,
      i.counts,
      run-counts v r log i.sink (away v).elsewhere (away v).sink (away v).count,
    );
    untouched = λ u h.
        run-untouched u v r log i.sink (λ e. h (sym e)) (away u).elsewhere (away u).sink
        ∙ i.untouched u h;
  }

  called-Inside :
      (c : Call) (log : Log)
      → SetsNoSink c
      → IsNoReset c
      → Inside v before log
      → Inside v before (called c log)
  called-Inside c log own once i =
      let captures = called-Captures v c log own once i.sink in
      record {
        sink = (called-Keeps c log own).sink ∙ i.sink;
        output = captures.output ∙ i.output;
        counts = omega (arith, i.counts, captures.counts);
        untouched = λ u h. captures.untouched u h ∙ i.untouched u h;
      }

  pub log_error-Inside :
      (m : Text) (log : Log) → Inside v before log → Inside v before (log_error m log)
  unfolding called
  log_error-Inside m log i = called-Inside (error_call m) log tt tt i

  pub log_error_at-Inside :
      (m : Text) (line column : ℕ) (log : Log)
      → Inside v before log
      → Inside v before (log_error_at m line column log)
  unfolding called
  log_error_at-Inside m line column log i = called-Inside (error_at m line column) log tt tt i

  -- A reset of the count loses nothing where no error has been captured.
  pub reset_errors-Inside :
      (log : Log) → log.vectors v ≡ [] → Inside v before log → Inside v before (reset_errors log)
  unfolding reset_errors
  reset_errors-Inside log e i = record {
    sink = i.sink;
    output = i.output;
    counts = rw e refl;
    untouched = i.untouched;
  }

pub had_errors-log_error : (m : Text) (log : Log) → had_errors (log_error m log) ≡ true
unfolding had_errors log_error emit_diagnostic emit_or
had_errors-log_error m log = ground arith

pub had_errors-log_error_at :
    (m : Text) (line column : ℕ) (log : Log) → had_errors (log_error_at m line column log) ≡ true
unfolding had_errors log_error_at emit_or
had_errors-log_error_at m line column log = ground arith
