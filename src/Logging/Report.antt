-- ===== src/Logging/Report.antt =====
-- src/logging.cpp: the functions that report a message, and the stream that calls them.
use psic.Prelude.{
  ℕ, ◌+◌, Bool, true, false, ◌&&◌, not, List, [], ◌∷◌, ◌++◌, String, Text, codes, ◌==◌,
  if◌then◌else◌, none, some,
}
use psic.Parser.Decimal.{decimal}
use psic.Logging.State.{DiagnosticSeverity, error, warning, note, Diagnostic, Log}

-- `push_back` on the vector `v`.
abbrev pub push : ℕ → Diagnostic → (ℕ → List Diagnostic) → ℕ → List Diagnostic
push v d vectors w = if w == v then vectors w ++ d ∷ [] else vectors w

abbrev pub print : Text → Log → Log
print text log = record log { output = log.output ++ text ∷ [] }

abbrev pub label : DiagnosticSeverity → String
label error = "error"
label warning = "warning"
label note = "note"

-- Into the sink if there is one, and onto the error stream as `text` otherwise.
unfoldable pub emit_or : Diagnostic → Text → Log → Log
emit_or d text log = elim log.sink [
  | some v ↦ record log { vectors = push v d log.vectors }
  | none ↦ print text log
]

unfoldable pub emit_diagnostic : DiagnosticSeverity → Text → Log → Log
unfolding codes
emit_diagnostic severity message log =
    emit_or
      (record { severity = severity; message = message; line = log.line; column = log.column })
      (codes "psic: " ++ (codes (label severity) ++ (codes ": " ++ (message ++ codes "\n")))) log

abbrev pub count_error : Log → Log
count_error log = record log { errors = log.errors + 1 }

unfoldable pub log_error : Text → Log → Log
unfolding emit_diagnostic
log_error message log = emit_diagnostic error message (count_error log)

abbrev or_current : ℕ → ℕ → ℕ
or_current given current = if given == 0 then current else given

unfoldable pub log_error_at : Text → ℕ → ℕ → Log → Log
unfolding codes decimal
log_error_at message given_line given_column log =
    let line = or_current given_line log.line in
    let column = or_current given_column log.column in
    emit_or (record { severity = error; message = message; line = line; column = column })
      (codes "psic: error: "
        ++ (message
            ++ (codes " (" ++ (decimal line ++ (codes ":" ++ (decimal column ++ codes ")\n"))))))
      (count_error log)

unfoldable pub log_warning : Text → Log → Log
unfolding emit_diagnostic
log_warning message log = emit_diagnostic warning message log

unfoldable pub log_note : Text → Log → Log
unfolding emit_diagnostic
log_note message log = emit_diagnostic note message log

abbrev has_sink : Log → Bool
has_sink log = elim log.sink [ some _ ↦ true | none ↦ false ]

abbrev is_empty : Text → Bool
is_empty [] = true
is_empty (_ ∷ _) = false

-- A message without a label, under a condition.
unfoldable pub print_if : Bool → Text → Log → Log
unfolding codes
print_if condition message log =
    if condition then print (codes "psic: " ++ (message ++ codes "\n")) log else log

unfoldable pub log_info : Text → Log → Log
log_info message log = print_if (log.verbose && not (has_sink log)) message log

pub data StreamKind : Type 0 where
  error_stream warning_stream note_stream verbose_info_stream : StreamKind

unfoldable pub strip_trailing_newline : Text → Text
strip_trailing_newline [] = []
strip_trailing_newline (c ∷ []) = if c == b'\n' then [] else c ∷ []
strip_trailing_newline (c ∷ d ∷ cs) = c ∷ strip_trailing_newline (d ∷ cs)

-- The destructor of a stream with the text that was written to it; memory never runs out.
unfoldable pub stream_destroyed : StreamKind → Text → Log → Log
unfolding log_error log_warning log_note strip_trailing_newline
stream_destroyed error_stream buffer log = log_error (strip_trailing_newline buffer) log
stream_destroyed warning_stream buffer log = log_warning (strip_trailing_newline buffer) log
stream_destroyed note_stream buffer log = log_note (strip_trailing_newline buffer) log
stream_destroyed verbose_info_stream buffer log =
    let message = strip_trailing_newline buffer in
    print_if (log.verbose && not (has_sink log) && not (is_empty message)) message log

unfoldable pub set_verbose : Bool → Log → Log
set_verbose enabled log = record log { verbose = enabled }

unfoldable pub had_errors : Log → Bool
had_errors log = not (log.errors == 0)

unfoldable pub error_count : Log → ℕ
error_count log = log.errors

unfoldable pub reset_errors : Log → Log
reset_errors log = record log { errors = 0 }
