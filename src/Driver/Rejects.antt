-- ===== src/Driver/Rejects.antt =====
-- What `compile` of src/compiler.cpp reports when a pass in front of the code generation throws.
use psic.Prelude.{ℕ, ◌≡◌, false, Text, [], ◌∷◌, some}
use psic.Source.{SourceLocation}
use psic.Logging.State.{error, Diagnostic, Log}
use psic.Logging.Scopes.{open_capture}
use psic.Driver.Options.{CompileOptions, CompileResult}
use psic.Driver.Backend.{Backend}
use psic.Driver.Compile.{Attempt, shown, caught, new_vector}

-- The diagnostic of an error at a place.
abbrev pub error_at_place : Text → SourceLocation → Diagnostic
error_at_place m l = record { severity = error; message = m; line = l.line; column = l.column }

abbrev pub rejected : Text → CompileOptions → Text → Text → SourceLocation → CompileResult
rejected source options target_triple m l = record {
  success = false;
  target_triple = target_triple;
  ir = [];
  object = [];
  diagnostics = shown source options (error_at_place m l) ∷ [];
}

module _ (v : ℕ) (source : Text) (options : CompileOptions) (before : Log) where
  abbrev Reports : Text → Attempt → Text → SourceLocation → Type 0
  Reports target_triple a m l =
      (after : Log) × (caught v source options before target_triple a
        ≡ some (rejected source options target_triple m l, after))

  abbrev opened : Log
  opened = open_capture v (new_vector v before)
