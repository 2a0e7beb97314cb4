-- ===== src/Driver/Examples.antt =====
-- The theorems about the driver at concrete inputs.
use psic.Prelude.{false, ◌⊎◌, ◌≡◌, refl, ◌∷◌, [], Text, true, codes, ◌++◌, List, ◌↔◌, some}
use psic.Driver.Samples.{
  any_float, source, on_linux, desktop_options, backend, jit, jit_options, fresh, desktop_triple,
}
use psic.Target.Model.{wasm32, free_standing}
use psic.Target.Pick.{value}
use psic.Logging.State.{Log}
use psic.Driver.Options.{CompileResult}
use psic.Driver.DefaultTriple.{default_triple}
use psic.Driver.Compile.{Selected, select_target, compile}
use psic.Driver.Contract.{shown_errors, IsContract, IsRestored, compile_lem}
use psic.Driver.Passes.{IsAccepted, compile-success}
use psic.Driver.Triples.{resolve_target-default_triple}
use psic.Driver.Jit.{JitBackend, runs_on, JitResult, build_jit}
use psic.Driver.Execute.{RunsOn, build_jit-Reports}
use psic.Driver.Runs.{IsRun, build_jit-IsRun}
use psic.Driver.Builder.{new_builder, ends_line, Piece, declares, defines, build}
use psic.Driver.Pieces.{build-Extends}
use psic.Driver.SampleRuns.{
  compiled, web, web_target, ran, source-compiles, web-resolves, main-runs,
}

compile_lem_example :
    (r : CompileResult) × (after : Log) × (compile backend on_linux any_float 0 source
        desktop_options fresh
      ≡ some (r, after))
    × IsContract desktop_options r
    × IsRestored 0 fresh after
compile_lem_example = compile_lem backend on_linux any_float 0 source desktop_options fresh

compile-success_example :
    (selected : Selected) × (select_target backend on_linux desktop_options ≡ value selected)
    × (desktop_triple ≡ selected.triple)
    × IsAccepted backend any_float source desktop_options selected
compile-success_example =
    compile-success backend on_linux any_float 0 source desktop_options fresh compiled.0 compiled.1
      source-compiles refl

resolve_target-default_triple_example : (t : Text) × (default_triple wasm32 free_standing ≡ value t)
resolve_target-default_triple_example =
    resolve_target-default_triple on_linux web web_target refl web-resolves

-- A JIT whose native code loops.
abbrev endless : JitBackend
endless = record jit { execute_jit = λ ir name symbols s prepare. runs_on }

build_jit-Reports_example :
    ((r : JitResult) × (after : Log) × (build_jit endless on_linux backend any_float 0 false source
          jit_options fresh
        ≡ some (r, after))
      × ((r.success ≡ true) ↔ (shown_errors r.diagnostics ≡ 0)))
    ⊎ RunsOn endless on_linux backend any_float 0 source jit_options false fresh
build_jit-Reports_example =
    build_jit-Reports endless on_linux backend any_float 0 false source jit_options fresh

build_jit-IsRun_example : IsRun jit on_linux backend any_float 0 source jit_options fresh ran.0
build_jit-IsRun_example =
    build_jit-IsRun jit on_linux backend any_float 0 source jit_options fresh ran.1 ran.0 main-runs
      refl

abbrev twice : List Piece
twice = defines (codes "i32") (codes "id") (codes "i32 x") (codes "ret x;") ∷ []

build-Extends_example :
    (added : Text) × ((build
        (declares (codes "const i32 one = 1;") ∷ twice)
        (new_builder [])).source
      ≡ [] ++ added)
    × (ends_line (build (declares (codes "const i32 one = 1;") ∷ twice) (new_builder [])).source
        ≡ true)
build-Extends_example = build-Extends (declares (codes "const i32 one = 1;")) twice (new_builder [])
