-- ===== src/Driver/Passes.antt =====
-- The passes that `compile` of src/compiler.cpp runs in front of the code generation: what a success
-- says of them, and what is reported when one of them throws.
use psic.Prelude.{ℕ, ◌≡◌, refl, Bool, true, Text, some}
use psic.Source.{SourceLocation, Result, ok, failed}
use psic.Ast.{ProgramNode}
use psic.Target.Pick.{Checked, value, runtime_error, Triple}
use psic.Frontend.Parse.{parse_source}
use psic.Validation.Program.{Validation, valid, located_error, plain_error, validate_program}
use psic.Validation.Command.{PointerModel}
use psic.Logging.State.{Log}
use psic.Logging.Scopes.{open_capture}
use psic.Driver.Options.{CompileOptions, CompileResult}
use psic.Driver.Backend.{Backend}
use psic.Driver.Compile.{
  Selected, Attempt, completed, returned, threw, threw_at, stuck, caught, attempted,
  after_validation, with_model, pointer_model, with_program, new_vector, select_target,
  compile_selected, compile,
}

abbrev pub nowhere : SourceLocation
nowhere = record { line = 0; column = 0 }

module _ (backend : Backend) (float_in_range : Text → Bool) (source : Text)
    (options : CompileOptions) (selected : Selected) where
  -- The source parses, and its program is valid for the pointers of the target.
  pub record IsAccepted : Type 0 where
    pub program : ProgramNode
    pub model : PointerModel
    pub parses : parse_source float_in_range source ≡ ok program
    pub has_model : pointer_model backend options selected ≡ value model
    pub validates : validate_program model program ≡ valid

  -- The first pass that throws throws the message at the place, or without one, as at line 0.
  pub data Rejects (m : Text) (l : SourceLocation) : Type 0 where
    unparsed : parse_source float_in_range source ≡ failed m l → Rejects m l
    without_model :
        (program : ProgramNode)
        → parse_source float_in_range source ≡ ok program
        → pointer_model backend options selected ≡ runtime_error m
        → l ≡ nowhere
        → Rejects m l
    invalid :
        (program : ProgramNode) (model : PointerModel)
        → parse_source float_in_range source ≡ ok program
        → pointer_model backend options selected ≡ value model
        → validate_program model program ≡ located_error m l
        → Rejects m l
    cyclic :
        (program : ProgramNode) (model : PointerModel)
        → parse_source float_in_range source ≡ ok program
        → pointer_model backend options selected ≡ value model
        → validate_program model program ≡ plain_error m
        → l ≡ nowhere
        → Rejects m l

  -- A block that reaches its end has run every pass.
  with_model-completed :
      (program : ProgramNode) (log : Log) (ir object : Text) (after : Log)
      (r : Checked PointerModel)
      → pointer_model backend options selected ≡ r
      → parse_source float_in_range source ≡ ok program
      → with_model backend options selected program log r ≡ completed ir object after
      → IsAccepted
  with_model-completed program log ir object after (runtime_error m) p e h = absurd (cc)
  with_model-completed program log ir object after (value model) p e h =
      go (validate_program model program) refl h
    where
      go :
          (v : Validation)
          → validate_program model program ≡ v
          → after_validation backend options selected program log v ≡ completed ir object after
          → IsAccepted
      go valid q k = record {
        program = program;
        model = model;
        parses = e;
        has_model = p;
        validates = q;
      }
      go (located_error m l) q k = absurd (cc)
      go (plain_error m) q k = absurd (cc)
      go Validation.out_of_fuel q k = absurd (cc)

  with_program-completed :
      (log : Log) (ir object : Text) (after : Log) (r : Result ProgramNode)
      → parse_source float_in_range source ≡ r
      → with_program backend options selected log r ≡ completed ir object after
      → IsAccepted
  with_program-completed log ir object after (ok program) e h =
      with_model-completed program log ir object after (pointer_model backend options selected) refl
        e h
  with_program-completed log ir object after (failed m l) e h = absurd (cc)
  with_program-completed log ir object after Result.out_of_fuel e h = absurd (cc)

caught-success :
    (v : ℕ) (source : Text) (options : CompileOptions) (before : Log) (triple : Text) (a : Attempt)
    (r : CompileResult) (after : Log)
    → caught v source options before triple a ≡ some (r, after)
    → r.success ≡ true
    → (ir : Text) × (object : Text) × (log : Log) × (a ≡ completed ir object log)
      × (r.target_triple ≡ triple)
caught-success v source options before triple (completed ir object log) r after e h =
    (ir, object, log, refl, cc)
caught-success v source options before triple (returned log) r after e h = absurd (cc)
caught-success v source options before triple (threw m log) r after e h = absurd (cc)
caught-success v source options before triple (threw_at m l log) r after e h = absurd (cc)
caught-success v source options before triple stuck r after e h = absurd (cc)

module _ (backend : Backend) (triple : Text → Triple) (float_in_range : Text → Bool) (v : ℕ)
    (source : Text) (options : CompileOptions) (before : Log) where
  -- If a compilation succeeds then its options select a target, whose triple is in the result, the
  -- source parses, and the program is valid for the pointers of that target.
  pub compile-success :
      (r : CompileResult) (after : Log)
      → compile backend triple float_in_range v source options before ≡ some (r, after)
      → r.success ≡ true
      → (selected : Selected) × (select_target backend triple options ≡ value selected)
        × (r.target_triple ≡ selected.triple)
        × IsAccepted backend float_in_range source options selected
  unfolding compile compile_selected
  compile-success r after e h = go (select_target backend triple options) refl e
    where
      go :
          (s : Checked Selected)
          → select_target backend triple options ≡ s
          → attempted backend triple float_in_range v source options before
              (open_capture v (new_vector v before))
              s
            ≡ some (r, after)
          → (selected : Selected) × (select_target backend triple options ≡ value selected)
            × (r.target_triple ≡ selected.triple)
            × IsAccepted backend float_in_range source options selected
      go (runtime_error m) p k = absurd (cc)
      go (value selected) p k =
          let (ir, object, log, ended, named) =
            caught-success v source options before selected.triple _ r after k h in
          (
            selected,
            p,
            named,
            with_program-completed backend float_in_range source options selected _ ir object log
                (parse_source float_in_range source) refl ended,
          )
