-- ===== src/Validation/ClosureErrors.antt =====
-- The place of an error of the flow analysis of src/validation.cpp: the one that `activeLocation` has.
use psic.Prelude.{◌≡◌, Bool, ℕ, zero, suc, true, false, Text, if◌then◌else◌}
use psic.Source.{SourceLocation, Result, ok, failed}
use psic.Ast.{TypeNode, BlockNode}
use psic.Target.Pick.{Checked, value, runtime_error}
use psic.Validation.Environment.{Map, TypeEnvironment}
use psic.Validation.Aliases.{Flow}
use psic.Validation.Closure.{located_then, alias_closure, close, round, start_flow, enough_rounds}

either-elsewhere :
    (b : Bool) (x y : Result Flow) (flow : Flow) (m : Text) (l here : SourceLocation)
    → (x ≡ failed m l → y ≡ failed m here)
    → (if b then x else ok flow) ≡ failed m l
    → (if b then y else ok flow) ≡ failed m here
either-elsewhere true x y flow m l here f h = f h
either-elsewhere false x y flow m l here f h = absurd (cc)

module _ (env : TypeEnvironment) where
  -- An analysis that fails does so wherever `activeLocation` is, which is the place of its error.
  turn-elsewhere :
      (there here l : SourceLocation) (m : Text) (rest rest' : Flow → Result Flow)
      (r : Checked Flow)
      → ((next : Flow) → rest next ≡ failed m l → rest' next ≡ failed m here)
      → located_then there r (λ next. if next.added then rest next else ok next) ≡ failed m l
      → located_then here r (λ next. if next.added then rest' next else ok next) ≡ failed m here
  turn-elsewhere there here l m rest rest' (value next) ih h =
      either-elsewhere next.added (rest next) (rest' next) next m l here (ih next) h
  turn-elsewhere there here l m rest rest' (runtime_error m') ih h = cc

  close-elsewhere :
      (fuel : ℕ) (there here : SourceLocation) (locals : Map TypeNode) (block : BlockNode)
      (flow : Flow) (m : Text) (l : SourceLocation)
      → close fuel there env locals block flow ≡ failed m l
      → close fuel here env locals block flow ≡ failed m here
  unfolding close
  close-elsewhere zero there here locals block flow m l h = absurd (cc)
  close-elsewhere (suc fuel) there here locals block flow m l h =
      turn-elsewhere there here l m (close fuel there env locals block)
        (close fuel here env locals block) (round env locals block (record flow { added = false }))
        (λ next. close-elsewhere fuel there here locals block next m l) h

-- An analysis that fails, from one place, fails from every place with the same message, there.
pub alias_closure-elsewhere :
    (env : TypeEnvironment) (there here : SourceLocation) (locals : Map TypeNode)
    (block : BlockNode) (m : Text) (l : SourceLocation)
    → alias_closure there env locals block ≡ failed m l
    → alias_closure here env locals block ≡ failed m here
unfolding alias_closure
alias_closure-elsewhere env there here locals block m l h =
    close-elsewhere env (enough_rounds block) there here locals block start_flow m l h

pub alias_closure-active :
    (active : SourceLocation) (env : TypeEnvironment) (locals : Map TypeNode) (block : BlockNode)
    (m : Text) (l : SourceLocation)
    → alias_closure active env locals block ≡ failed m l
    → l ≡ active
alias_closure-active active env locals block m l h =
    let again = alias_closure-elsewhere env active active locals block m l h in cc
