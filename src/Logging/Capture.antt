-- ===== src/Logging/Capture.antt =====
-- `DiagnosticCaptureScope` of src/logging.cpp: where reports inside it go, and `hasErrors`.
use psic.Prelude.{
  ltb, ℕ, ◌+◌, ◌≡◌, ◌≢◌, refl, sym, ap, ◌∙◌, Bool, true, false, List, [], ◌∷◌, ◌++◌, Text, ==_refl,
  some, arith, ◌⊎◌, inl, inr,
}
use psic.Logging.State.{DiagnosticSeverity, error, Diagnostic, Log}
use psic.Logging.Report.{
  had_errors, error_stream, warning_stream, note_stream, verbose_info_stream, push, emit_or,
  print_if, log_error, log_error_at, log_warning, log_note, log_info, emit_diagnostic,
  stream_destroyed, set_verbose, reset_errors,
}
use psic.Logging.Scopes.{
  Call, error_call, warning_call, note_call, info_call, error_at, stream, verbosity, reset, sink_to,
  called, Run, stop, call, located, captured, run, open_location, close_location, open_capture,
  close_capture,
}
use psic.Logging.Restore.{SetsNoSink, KeepsSink, Keeps, called-Keeps, run-Keeps}

abbrev pub is_error : DiagnosticSeverity → ℕ
is_error severity = elim severity [ error ↦ 1 | _ ↦ 0 ]

abbrev pub errors_in : List Diagnostic → ℕ
errors_in [] = 0
errors_in (d ∷ ds) = is_error d.severity + errors_in ds

errors_in-append :
    (ds : List Diagnostic) (d : Diagnostic)
    → errors_in (ds ++ d ∷ []) ≡ errors_in ds + is_error d.severity
errors_in-append [] d = omega arith
errors_in-append (e ∷ ds) d = omega (arith, errors_in-append ds d)

-- No scope inside captures into the vector.
abbrev pub Elsewhere : ℕ → Run → Type 0
Elsewhere v stop = Unit {0}
Elsewhere v (call c rest) = Elsewhere v rest
Elsewhere v (located line column body rest) = Elsewhere v body × Elsewhere v rest
Elsewhere v (captured w body rest) = (w ≢ v) × Elsewhere v body × Elsewhere v rest

-- The count of errors is not reset, but in capture scopes inside, which have a count of their own.
abbrev pub IsNoReset : Call → Type 0
IsNoReset reset = ⊥
IsNoReset _ = Unit {0}

abbrev pub KeepsCount : Run → Type 0
KeepsCount stop = Unit {0}
KeepsCount (call c rest) = IsNoReset c × KeepsCount rest
KeepsCount (located line column body rest) = KeepsCount body × KeepsCount rest
KeepsCount (captured w body rest) = KeepsCount rest

-- What a capture scope into the vector relies on in the code inside it.
pub record Undisturbed (v : ℕ) (r : Run) : Type 0 where
  pub elsewhere : Elsewhere v r
  pub sink : KeepsSink r
  pub count : KeepsCount r

-- From one log to another nothing is written to the error stream, the errors counted are those
-- pushed to the vector `v`, and no vector other than `w` and those captured into has changed.
pub record Captures (v : ℕ) (before after : Log) : Type 0 where
  pub output : after.output ≡ before.output
  pub counts :
      after.errors + errors_in (before.vectors v) ≡ before.errors + errors_in (after.vectors v)
  pub untouched : (u : ℕ) → u ≢ v → after.vectors u ≡ before.vectors u

push-same :
    (v : ℕ) (d : Diagnostic) (vectors : ℕ → List Diagnostic)
    → push v d vectors v ≡ vectors v ++ d ∷ []
push-same v d vectors = rw (==_refl v) refl

push-other :
    (v u : ℕ) (d : Diagnostic) (vectors : ℕ → List Diagnostic)
    → u ≢ v
    → push v d vectors u ≡ vectors u
push-other v u d vectors h = ground arith

-- A diagnostic that is counted as it is pushed.
emit_or-Captures :
    (v n : ℕ) (d : Diagnostic) (text : Text) (log : Log)
    → log.sink ≡ some v
    → n ≡ log.errors + is_error d.severity
    → Captures v log (emit_or d text (record log { errors = n }))
unfolding emit_or
emit_or-Captures v n d text log e counted = rw e (record {
  output = refl;
  counts =
      rw (push-same v d log.vectors) (omega (arith, errors_in-append (log.vectors v) d, counted));
  untouched = λ u h. push-other v u d log.vectors h;
})

print_if-Captures :
    (v : ℕ) (b : Bool) (text : Text) (log : Log) → b ≡ false → Captures v log (print_if b text log)
unfolding print_if
print_if-Captures v true text log h = absurd (cc)
print_if-Captures v false text log h = record {
  output = refl;
  counts = refl;
  untouched = λ u h. refl;
}

pub called-Captures :
    (v : ℕ) (c : Call) (log : Log)
    → SetsNoSink c
    → IsNoReset c
    → log.sink ≡ some v
    → Captures v log (called c log)
unfolding called log_error log_error_at log_warning log_note log_info emit_diagnostic
    stream_destroyed set_verbose reset_errors
called-Captures v (error_call message) log own once e = emit_or-Captures v _ _ _ log e refl
called-Captures v (warning_call message) log own once e =
    emit_or-Captures v _ _ _ log e (omega arith)
called-Captures v (note_call message) log own once e = emit_or-Captures v _ _ _ log e (omega arith)
called-Captures v (info_call message) log own once e =
    print_if-Captures v _ _ log (ground (arith, e))
called-Captures v (error_at message line column) log own once e =
    emit_or-Captures v _ _ _ log e refl
called-Captures v (stream error_stream buffer) log own once e = emit_or-Captures v _ _ _ log e refl
called-Captures v (stream warning_stream buffer) log own once e =
    emit_or-Captures v _ _ _ log e (omega arith)
called-Captures v (stream note_stream buffer) log own once e =
    emit_or-Captures v _ _ _ log e (omega arith)
called-Captures v (stream verbose_info_stream buffer) log own once e =
    print_if-Captures v _ _ log (ground (arith, e))
called-Captures v (verbosity enabled) log own once e = record {
  output = refl;
  counts = refl;
  untouched = λ u h. refl;
}
called-Captures v reset log own once e = absurd once
called-Captures v (sink_to sink) log own once e = absurd own

reset-cases : (c : Call) → (c ≡ reset) ⊎ IsNoReset c
reset-cases (error_call message) = inr tt
reset-cases (warning_call message) = inr tt
reset-cases (note_call message) = inr tt
reset-cases (info_call message) = inr tt
reset-cases (error_at message line column) = inr tt
reset-cases (stream kind buffer) = inr tt
reset-cases (verbosity enabled) = inr tt
reset-cases reset = inl refl
reset-cases (sink_to sink) = inr tt

-- A call into a sink, a reset of the count among them.
called-quiet :
    (v : ℕ) (c : Call) (log : Log)
    → SetsNoSink c
    → log.sink ≡ some v
    → ((called c log).output ≡ log.output)
      × ((u : ℕ) → u ≢ v → (called c log).vectors u ≡ log.vectors u)
unfolding called reset_errors
called-quiet v c log own e = elim (reset-cases c) [
  | inl is_reset ↦ rw is_reset (refl, λ u h. refl)
  | inr once ↦
      let captures = called-Captures v c log own once e in (captures.output, captures.untouched)
]

-- What `Captures` says of a first and of a second part, from a log whose sink is the vector.
Captures-trans : {v : ℕ} {a b c : Log} → Captures v a b → Captures v b c → Captures v a c
Captures-trans f g = record {
  output = g.output ∙ f.output;
  counts = omega (arith, f.counts, g.counts);
  untouched = λ u h. g.untouched u h ∙ f.untouched u h;
}

-- Code whose sink is `w` changes no other vector than the ones that it captures into.
pub run-untouched :
    (u w : ℕ) (r : Run) (log : Log)
    → log.sink ≡ some w
    → w ≢ u
    → Elsewhere u r
    → KeepsSink r
    → (run r log).vectors u ≡ log.vectors u
unfolding run open_location close_location open_capture close_capture
run-untouched u w stop log e h away own = refl
run-untouched u w (call c rest) log e h away own =
    run-untouched u w rest (called c log) ((called-Keeps c log own.0).sink ∙ e) h away own.1
    ∙ (called-quiet w c log own.0 e).1 u (λ p. h (sym p))
run-untouched u w (located line column body rest) log e h away own =
    let inside = open_location line column log in
    run-untouched u w rest (close_location log (run body inside))
      ((run-Keeps body inside own.0).sink ∙ e) h away.1 own.1
    ∙ run-untouched u w body inside e h away.0 own.0
run-untouched u w (captured v body rest) log e h away own =
    run-untouched u w rest (close_capture log (run body (open_capture v log))) e h away.2 own.1
    ∙ run-untouched u v body (open_capture v log) refl away.0 away.1 own.0

-- Nothing is written to the error stream while there is a sink.
pub run-silent :
    (w : ℕ) (r : Run) (log : Log)
    → log.sink ≡ some w
    → KeepsSink r
    → (run r log).output ≡ log.output
unfolding run open_location close_location open_capture close_capture
run-silent w stop log e own = refl
run-silent w (call c rest) log e own =
    run-silent w rest (called c log) ((called-Keeps c log own.0).sink ∙ e) own.1
    ∙ (called-quiet w c log own.0 e).0
run-silent w (located line column body rest) log e own =
    let inside = open_location line column log in
    run-silent w rest (close_location log (run body inside))
      ((run-Keeps body inside own.0).sink ∙ e) own.1
    ∙ run-silent w body inside e own.0
run-silent w (captured v body rest) log e own =
    run-silent w rest (close_capture log (run body (open_capture v log))) e own.1
    ∙ run-silent v body (open_capture v log) refl own.0

-- The errors counted by code are those that it pushes to its sink.
pub run-counts :
    (v : ℕ) (r : Run) (log : Log)
    → log.sink ≡ some v
    → Elsewhere v r
    → KeepsSink r
    → KeepsCount r
    → (run r log).errors + errors_in (log.vectors v)
      ≡ log.errors + errors_in ((run r log).vectors v)
unfolding run open_location close_location open_capture close_capture
run-counts v stop log e away own once = refl
run-counts v (call c rest) log e away own once = omega (
  arith,
  (called-Captures v c log own.0 once.0 e).counts,
  run-counts v rest (called c log) ((called-Keeps c log own.0).sink ∙ e) away own.1 once.1,
)
run-counts v (located line column body rest) log e away own once =
    let inside = open_location line column log in
    omega (
      arith,
      run-counts v body inside e away.0 own.0 once.0,
      run-counts v rest (close_location log (run body inside))
          ((run-Keeps body inside own.0).sink ∙ e) away.1 own.1 once.1,
    )
run-counts v (captured w body rest) log e away own once =
    let after = close_capture log (run body (open_capture w log)) in
    let same = run-untouched v w body (open_capture w log) refl away.0 away.1 own.0 in
    omega (arith, ap errors_in same, run-counts v rest after e away.2 own.1 once)

-- If the code in a capture scope captures into other vectors only, never calls `setDiagnosticSink`, and
-- calls `resetErrors` in capture scopes of its own only, then nothing is written to the error stream,
-- `hasErrors` is true at the end exactly if the vector has more errors than at the beginning, and the
-- scope leaves the count of errors, the sink, the place and the verbosity of the log as it found them.
pub captured_lem :
    (v : ℕ) (body : Run) (log : Log)
    → Undisturbed v body
    → ((run (captured v body stop) log).output ≡ log.output)
      × (had_errors (run body (open_capture v log))
          ≡ ltb
              (errors_in (log.vectors v))
              (errors_in ((run (captured v body stop) log).vectors v)))
      × ((run (captured v body stop) log).errors ≡ log.errors)
      × ((run (captured v body stop) log).verbose ≡ log.verbose)
      × Keeps log (run (captured v body stop) log)
unfolding run open_capture close_capture had_errors
captured_lem v body log u = (
  run-silent v body (open_capture v log) refl u.sink,
  ground (arith, run-counts v body (open_capture v log) refl u.elsewhere u.sink u.count),
  refl,
  refl,
  run-Keeps (captured v body stop) log (u.sink, tt),
)
