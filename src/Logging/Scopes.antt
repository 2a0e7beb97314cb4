-- ===== src/Logging/Scopes.antt =====
-- src/logging.cpp: the two scopes, and what code does with the logging while scopes are open.
use psic.Prelude.{ℕ, Bool, Text, Option, some}
use psic.Logging.State.{Log}
use psic.Logging.Report.{
  StreamKind, log_error, log_error_at, log_warning, log_note, log_info, stream_destroyed,
  set_verbose, reset_errors,
}

-- The constructor of `DiagnosticLocationScope`, and the destructor with the log before it.
unfoldable pub open_location : ℕ → ℕ → Log → Log
open_location line column log = record log { line = line; column = column }

unfoldable pub close_location : Log → Log → Log
close_location before log = record log { line = before.line; column = before.column }

-- The sink before is the result.
unfoldable pub set_diagnostic_sink : Option ℕ → Log → Option ℕ × Log
set_diagnostic_sink sink log = (log.sink, record log { sink = sink })

-- The constructor of `DiagnosticCaptureScope`, and the destructor with the log before it.
unfoldable pub open_capture : ℕ → Log → Log
open_capture v log = record log { sink = some v; errors = 0; line = 0; column = 0 }

unfoldable pub close_capture : Log → Log → Log
close_capture before log = record log {
  sink = before.sink;
  errors = before.errors;
  line = before.line;
  column = before.column;
  verbose = before.verbose;
}

-- One call of the logging.
pub data Call : Type 0 where
  error_call warning_call note_call info_call : Text → Call
  error_at : Text → ℕ → ℕ → Call
  stream : StreamKind → Text → Call
  verbosity : Bool → Call
  reset : Call
  sink_to : Option ℕ → Call

unfoldable pub called : Call → Log → Log
unfolding log_error log_error_at log_warning log_note log_info stream_destroyed set_verbose
    reset_errors set_diagnostic_sink
called (error_call message) log = log_error message log
called (warning_call message) log = log_warning message log
called (note_call message) log = log_note message log
called (info_call message) log = log_info message log
called (error_at message line column) log = log_error_at message line column log
called (stream kind buffer) log = stream_destroyed kind buffer log
called (verbosity enabled) log = set_verbose enabled log
called reset log = reset_errors log
called (sink_to sink) log = (set_diagnostic_sink sink log).1

-- A run of code: calls one after the other, and blocks with a scope around them.
pub data Run : Type 0 where
  stop : Run
  call : Call → Run → Run
  located : ℕ → ℕ → Run → Run → Run
  captured : ℕ → Run → Run → Run

unfoldable pub run : Run → Log → Log
unfolding called open_location close_location open_capture close_capture
run stop log = log
run (call c rest) log = run rest (called c log)
run (located line column body rest) log =
    run rest (close_location log (run body (open_location line column log)))
run (captured v body rest) log = run rest (close_capture log (run body (open_capture v log)))
