-- ===== src/Validation/BlockPlaces.antt =====
-- src/validation.cpp: where `validateBlock` leaves `activeLocation`, and where its errors are located.
use psic.Prelude.{◌≡◌, refl, ◌⊎◌, inl, inr, Bool, true, false, Text, [], ◌∷◌, if◌then◌else◌, Option}
use psic.Source.{SourceLocation, Result, ok, failed}
use psic.Ast.{TypeNode, BlockNode}
use psic.Target.Pick.{Checked, value, runtime_error}
use psic.Validation.Environment.{Map, TypeEnvironment, Names}
use psic.Validation.Command.{PointerModel}
use psic.Validation.Aliases.{Flow}
use psic.Validation.Closure.{located_then, locals_after, alias_closure}
use psic.Validation.ClosureEnds.{alias_closure-ne-out_of_fuel}
use psic.Validation.ClosureErrors.{alias_closure-active}
use psic.Validation.Block.{
  check_command, flow_after, validate_commands, validate_block, after_closure,
}

-- The place of a command of the block.
abbrev pub IsPlace : SourceLocation → BlockNode → Type 0
IsPlace l [] = ⊥
IsPlace l (command ∷ block) = (l ≡ command.location) ⊎ IsPlace l block

-- A result that is not out of fuel: `P` holds of where it leaves `activeLocation`, or of where its
-- error is.
pub data Placed (P : SourceLocation → Type 0) : Result SourceLocation → Type 0 where
  left_at : {l : SourceLocation} → P l → Placed P (ok l)
  error_at : {l : SourceLocation} (m : Text) → P l → Placed P (failed m l)

pub Placed-map :
    {P Q : SourceLocation → Type 0} {r : Result SourceLocation}
    → ((l : SourceLocation) → P l → Q l)
    → Placed P r
    → Placed Q r
Placed-map g (left_at {l} p) = left_at (g l p)
Placed-map g (error_at {l} m p) = error_at m (g l p)

Placed-if :
    {P : SourceLocation → Type 0} (b : Bool) {x y : Result SourceLocation}
    → (b ≡ true → Placed P x)
    → (b ≡ false → Placed P y)
    → Placed P (if b then x else y)
Placed-if true hx hy = hx refl
Placed-if false hx hy = hy refl

module _ (model : PointerModel) (env : TypeEnvironment) (return_type : Option TypeNode) where
  abbrev pub FromHere : SourceLocation → BlockNode → SourceLocation → Type 0
  FromHere active block l = (l ≡ active) ⊎ IsPlace l block

  located_then-Placed :
      {P : SourceLocation → Type 0} {A : Type 0} (place : SourceLocation) (r : Checked A)
      (next : A → Result SourceLocation)
      → P place
      → ((a : A) → Placed P (next a))
      → Placed P (located_then place r next)
  located_then-Placed place (value a) next p g = g a
  located_then-Placed place (runtime_error m) next p g = error_at m p

  validate_commands-Placed :
      (active : SourceLocation) (locals : Map TypeNode) (flow : Flow) (labels : Names)
      (block : BlockNode)
      → Placed
          (FromHere active block)
          (validate_commands model env return_type active locals flow labels block)
  unfolding validate_commands
  validate_commands-Placed active locals flow labels [] = left_at (inl refl)
  validate_commands-Placed active locals flow labels (command ∷ commands) =
      Placed-if command.is_empty
        (λ e.
          Placed-map (λ l p. inr p)
            (validate_commands-Placed command.location locals flow labels commands))
        (λ e.
          located_then-Placed command.location
            (check_command model locals env flow return_type command labels) _ (inr (inl refl))
            (λ after.
              Placed-map (λ l p. inr p)
                (validate_commands-Placed command.location (locals_after command locals)
                  (flow_after model locals env flow command) after commands)))

  pub validate_block-Placed :
      (active : SourceLocation) (locals : Map TypeNode) (block : BlockNode)
      → Placed (FromHere active block) (validate_block model env return_type active locals block)
  unfolding validate_block
  validate_block-Placed active locals block = go (alias_closure active env locals block) refl
    where
      go :
          (r : Result Flow)
          → alias_closure active env locals block ≡ r
          → Placed (FromHere active block) (
              after_closure model env return_type r
                (λ flow. validate_commands model env return_type active locals flow [] block))
      go (ok flow) e = validate_commands-Placed active locals flow [] block
      go (failed m l) e = error_at m (inl (alias_closure-active active env locals block m l e))
      go Result.out_of_fuel e = absurd (alias_closure-ne-out_of_fuel active env locals block e)
