-- ===== src/Logging/Restore.antt =====
-- The scopes of src/logging.cpp: what code with scopes leaves of the sink and the place.
use psic.Prelude.{ℕ, ◌+◌, ◌≡◌, refl, ◌∙◌, Bool, true, false, Text, Option, none, some}
use psic.Logging.State.{Diagnostic, Log}
use psic.Logging.Report.{
  error_stream, warning_stream, note_stream, verbose_info_stream, emit_or, print, print_if,
  log_error, log_error_at, log_warning, log_note, log_info, emit_diagnostic, stream_destroyed,
  set_verbose, reset_errors,
}
use psic.Logging.Scopes.{
  Call, error_call, warning_call, note_call, info_call, error_at, stream, verbosity, reset, sink_to,
  called, Run, stop, call, located, captured, run, open_location, close_location, open_capture,
  close_capture,
}

-- No call sets the sink by itself, inside a scope or outside.
abbrev pub SetsNoSink : Call → Type 0
SetsNoSink (sink_to sink) = ⊥
SetsNoSink _ = Unit {0}

abbrev pub KeepsSink : Run → Type 0
KeepsSink stop = Unit {0}
KeepsSink (call c rest) = SetsNoSink c × KeepsSink rest
KeepsSink (located line column body rest) = KeepsSink body × KeepsSink rest
KeepsSink (captured v body rest) = KeepsSink body × KeepsSink rest

-- The sink and the place are those of the log before.
pub record Keeps (before after : Log) : Type 0 where
  pub sink : after.sink ≡ before.sink
  pub line : after.line ≡ before.line
  pub column : after.column ≡ before.column

abbrev pub unchanged :
    (before after : Log)
    → after.sink ≡ before.sink
    → after.line ≡ before.line
    → after.column ≡ before.column
    → Keeps before after
unchanged before after s l c = record { sink = s; line = l; column = c }

emit_or-Keeps : (d : Diagnostic) (text : Text) (log : Log) → Keeps log (emit_or d text log)
unfolding emit_or
emit_or-Keeps d text log = go log.sink
  where
    go :
        (o : Option ℕ)
        → Keeps log (elim o [
          | some v ↦ record log { vectors = psic.Logging.Report.push v d log.vectors }
          | none ↦ print text log
        ])
    go none = unchanged log _ refl refl refl
    go (some v) = unchanged log _ refl refl refl

print_if-Keeps : (b : Bool) (text : Text) (log : Log) → Keeps log (print_if b text log)
unfolding print_if
print_if-Keeps true text log = unchanged log _ refl refl refl
print_if-Keeps false text log = unchanged log _ refl refl refl

pub called-Keeps : (c : Call) (log : Log) → SetsNoSink c → Keeps log (called c log)
unfolding called log_error log_error_at log_warning log_note log_info emit_diagnostic
    stream_destroyed set_verbose reset_errors
called-Keeps (error_call message) log h =
    let k = emit_or-Keeps _ _ (record log { errors = log.errors + 1 }) in
    unchanged log _ k.sink k.line k.column
called-Keeps (warning_call message) log h = emit_or-Keeps _ _ log
called-Keeps (note_call message) log h = emit_or-Keeps _ _ log
called-Keeps (info_call message) log h = print_if-Keeps _ _ log
called-Keeps (error_at message line column) log h =
    let k = emit_or-Keeps _ _ (record log { errors = log.errors + 1 }) in
    unchanged log _ k.sink k.line k.column
called-Keeps (stream error_stream buffer) log h =
    let k = emit_or-Keeps _ _ (record log { errors = log.errors + 1 }) in
    unchanged log _ k.sink k.line k.column
called-Keeps (stream warning_stream buffer) log h = emit_or-Keeps _ _ log
called-Keeps (stream note_stream buffer) log h = emit_or-Keeps _ _ log
called-Keeps (stream verbose_info_stream buffer) log h = print_if-Keeps _ _ log
called-Keeps (verbosity enabled) log h = unchanged log _ refl refl refl
called-Keeps reset log h = unchanged log _ refl refl refl
called-Keeps (sink_to sink) log h = absurd h

Keeps-trans : {a b c : Log} → Keeps a b → Keeps b c → Keeps a c
Keeps-trans f g = unchanged _ _ (g.sink ∙ f.sink) (g.line ∙ f.line) (g.column ∙ f.column)

-- Code that opens and closes scopes as blocks, and sets no sink, leaves the sink, the line and the
-- column of the log as it found them.
pub run-Keeps : (r : Run) (log : Log) → KeepsSink r → Keeps log (run r log)
unfolding run open_location close_location open_capture close_capture
run-Keeps stop log own = unchanged log log refl refl refl
run-Keeps (call c rest) log own =
    Keeps-trans (called-Keeps c log own.0) (run-Keeps rest (called c log) own.1)
run-Keeps (located line column body rest) log own =
    let inside = run-Keeps body (open_location line column log) own.0 in
    Keeps-trans
      (unchanged log (close_location log (run body (open_location line column log))) inside.sink
        refl refl)
      (run-Keeps rest (close_location log (run body (open_location line column log))) own.1)
run-Keeps (captured v body rest) log own =
    Keeps-trans (unchanged log (close_capture log (run body (open_capture v log))) refl refl refl)
      (run-Keeps rest (close_capture log (run body (open_capture v log))) own.1)
