-- ===== src/Driver/Runs.antt =====
-- A successful `execute` of src/compiler.cpp: the program that has been run.
use psic.Prelude.{
  ℕ, ◌≡◌, refl, Bool, true, false, not, Text, Option, none, some, if◌then◌else◌, Bool-cases, inl,
  inr, arith,
}
use psic.Source.{Result, ok, failed}
use psic.Ast.{ProgramNode}
use psic.Target.Pick.{value, Triple}
use psic.Frontend.Parse.{parse_source}
use psic.Frontend.Entry.{EntryCheck, accepted, refused, validate_jit_entry_signature}
use psic.Frontend.Callable.{first_named, NoneOr, validate_jit_entry_signature_iff}
use psic.Logging.State.{Log}
use psic.Driver.Options.{CompileOptions, CompileResult, is_llvm_ir}
use psic.Driver.Backend.{Backend}
use psic.Driver.Compile.{Selected, compile, subtarget_of, select_target}
use psic.Driver.Passes.{IsAccepted, compile-success}
use psic.Driver.Jit.{
  JitBackend, JitOptions, JitResult, Execution, executed, not_executed, execution_threw,
  threw_unknown, runs_on, with_log, after_execution, configured, subtarget_error, execution,
  after_check, after_parse, after_compile, after_subtarget, build_jit,
}

module _ (jit : JitBackend) (triple : Text → Triple) (backend : Backend)
    (float_in_range : Text → Bool) (v : ℕ) (source : Text) (options : JitOptions) where
  -- The exit code comes from the code of a compilation, of an accepted program whose first entry or
  -- function with the name, if there is one, can be called.
  pub record IsRun (before : Log) (r : JitResult) : Type 0 where
    pub compiled : CompileResult
    pub log : Log
    pub compiles :
        compile backend triple float_in_range v source
          (configured jit triple options.compile)
          before
        ≡ some (compiled, log)
    pub succeeds : compiled.success ≡ true
    pub runs :
        jit.execute_jit compiled.ir options.entry options.external_functions
          (subtarget_of options.compile)
          false
        ≡ executed r.exit_code r.jit_module
    pub selected : Selected
    pub selects :
        select_target backend triple (configured jit triple options.compile) ≡ value selected
    pub accepts :
        IsAccepted backend float_in_range source (configured jit triple options.compile) selected
    pub callable : NoneOr (first_named options.entry accepts.program)

  after_execution-executed :
      (compiled : CompileResult) (x : Execution) (r : JitResult)
      → after_execution options.compile compiled x ≡ some r
      → r.success ≡ true
      → x ≡ executed r.exit_code r.jit_module
  after_execution-executed compiled (executed code m) r e h = cc
  after_execution-executed compiled (not_executed m) r e h = absurd (cc)
  after_execution-executed compiled (execution_threw m) r e h = absurd (cc)
  after_execution-executed compiled threw_unknown r e h = absurd (cc)
  after_execution-executed compiled runs_on r e h = absurd (cc)

  with_log-some :
      (log : Log) (o : Option JitResult) (r : JitResult) (after : Log)
      → with_log log o ≡ some (r, after)
      → o ≡ some r
  with_log-some log none r after e = absurd (cc)
  with_log-some log (some r') r after e = cc

  -- What the checks of the entry and the run say where they succeed.
  abbrev Ran : CompileResult → JitResult → ProgramNode → Type 0
  Ran compiled r program =
      (jit.execute_jit compiled.ir options.entry options.external_functions
          (subtarget_of options.compile) false
        ≡ executed r.exit_code r.jit_module)
      × NoneOr (first_named options.entry program)

  after_check-Ran :
      (compiled : CompileResult) (log : Log) (program : ProgramNode) (c : EntryCheck)
      (r : JitResult) (after : Log)
      → validate_jit_entry_signature options.entry program ≡ c
      → after_check jit triple backend float_in_range v false source options compiled log c
        ≡ some (r, after)
      → r.success ≡ true
      → Ran compiled r program
  unfolding execution
  after_check-Ran compiled log program accepted r after e h s = (
    after_execution-executed compiled _ r (with_log-some _ _ r after h) s,
    (validate_jit_entry_signature_iff options.entry program).0 e,
  )
  after_check-Ran compiled log program (refused m l) r after e h s = absurd (cc)

  after_parse-Ran :
      (compiled : CompileResult) (log : Log) (p : Result ProgramNode) (program : ProgramNode)
      (r : JitResult) (after : Log)
      → p ≡ ok program
      → after_parse jit triple backend float_in_range v false source options compiled log p
        ≡ some (r, after)
      → r.success ≡ true
      → Ran compiled r program
  after_parse-Ran compiled log (ok other) program r after e h s =
      let same : program ≡ other = cc in
      after_check-Ran compiled log program (validate_jit_entry_signature options.entry program) r
        after refl (rw same h) s
  after_parse-Ran compiled log (failed m l) program r after e h s = absurd (cc)
  after_parse-Ran compiled log Result.out_of_fuel program r after e h s = absurd (cc)

  abbrev chosen : CompileOptions
  chosen = configured jit triple options.compile

  after_compile-IsRun :
      (before : Log) (o : Option (CompileResult × Log)) (r : JitResult) (after : Log)
      → compile backend triple float_in_range v source chosen before ≡ o
      → after_compile jit triple backend float_in_range v false source options o ≡ some (r, after)
      → r.success ≡ true
      → IsRun before r
  after_compile-IsRun before none r after e h s = absurd (cc)
  after_compile-IsRun before (some (compiled, log)) r after e h s =
      elim (Bool-cases compiled.success) [
        | inr failing ↦ absurd (ground (arith, failing, h, s))
        | inl succeeds ↦
            let (selected, selects, named, accepts) =
              compile-success backend triple float_in_range v source chosen before compiled log e
                succeeds in
            let (runs, callable) =
              after_parse-Ran compiled log (parse_source float_in_range source) accepts.program r
                after accepts.parses (ground (arith, succeeds, h)) s in
            record {
              compiled = compiled;
              log = log;
              compiles = e;
              succeeds = succeeds;
              runs = runs;
              selected = selected;
              selects = selects;
              accepts = accepts;
              callable = callable;
            }
      ]

  after_subtarget-IsRun :
      (before : Log) (m : Option Text) (r : JitResult) (after : Log)
      → after_subtarget jit triple backend float_in_range v false source options chosen before m
        ≡ some (r, after)
      → r.success ≡ true
      → IsRun before r
  after_subtarget-IsRun before (some m) r after h s = absurd (cc)
  after_subtarget-IsRun before none r after h s =
      after_compile-IsRun before (compile backend triple float_in_range v source chosen before) r
        after refl h s

  after_output-IsRun :
      (before : Log) (b : Bool) (x : JitResult × Log) (o : Option (JitResult × Log)) (r : JitResult)
      (after : Log)
      → x.0.success ≡ false
      → (o ≡ some (r, after) → IsRun before r)
      → (if b then some x else o) ≡ some (r, after)
      → r.success ≡ true
      → IsRun before r
  after_output-IsRun before true x o r after e next h s = absurd (cc)
  after_output-IsRun before false x o r after e next h s = next h

  -- If `execute` succeeds then its exit code is the one that the JIT gives for the code of a
  -- compilation that succeeded, the source parses, its program is valid for the target, and the first
  -- of its entries and functions with the name of the JIT entry, if there is one, is an entry, or a
  -- function with a body, without arguments, that returns `void` or `i32`.
  pub build_jit-IsRun :
      (before after : Log) (r : JitResult)
      → build_jit jit triple backend float_in_range v false source options before ≡ some (r, after)
      → r.success ≡ true
      → IsRun before r
  unfolding build_jit
  build_jit-IsRun before after r h s =
      after_output-IsRun before (not (is_llvm_ir options.compile.output)) _ _ r after refl
        (λ k. after_subtarget-IsRun before (subtarget_error jit triple chosen) r after k s) h s
