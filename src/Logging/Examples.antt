-- ===== src/Logging/Examples.antt =====
-- The theorems about the logging at concrete runs.
use psic.Prelude.{◌≡◌, [], codes, false, ltb, none, arith}
use psic.Logging.State.{Log}
use psic.Logging.Report.{had_errors, warning_stream}
use psic.Logging.Scopes.{
  error_call, error_at, stream, Run, stop, call, reset, located, captured, run, open_capture,
}
use psic.Logging.Restore.{Keeps}
use psic.Logging.Capture.{errors_in, Undisturbed, captured_lem}

abbrev fresh : Log
fresh = record {
  verbose = false;
  errors = 0;
  sink = none;
  line = 0;
  column = 0;
  vectors = λ _. [];
  output = [];
}

-- An error at a place, and an error that is captured elsewhere, where the count is reset.
abbrev body : Run
body = located 3 7 (call (error_call (codes "unknown register")) stop) (
    captured 1 (call (error_at (codes "bad type") 4 0) (call reset stop))
      (call (stream warning_stream (codes "unused\n")) stop))

body-Undisturbed : Undisturbed 0 body
body-Undisturbed = record {
  elsewhere = (tt, (omega arith, tt, tt));
  sink = ((tt, tt), ((tt, (tt, tt)), (tt, tt)));
  count = ((tt, tt), (tt, tt));
}

captured_example :
    ((run (captured 0 body stop) fresh).output ≡ [])
    × (had_errors (run body (open_capture 0 fresh))
        ≡ ltb 0 (errors_in ((run (captured 0 body stop) fresh).vectors 0)))
    × ((run (captured 0 body stop) fresh).errors ≡ 0)
    × ((run (captured 0 body stop) fresh).verbose ≡ false)
    × Keeps fresh (run (captured 0 body stop) fresh)
captured_example = captured_lem 0 body fresh body-Undisturbed
