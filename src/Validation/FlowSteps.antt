-- ===== src/Validation/FlowSteps.antt =====
-- Each step of the flow analysis adds names of the block only.
use psic.Prelude.{◌≡◌, inl, inr, Bool, true, Text, ◌&&◌, List, [], ◌∷◌, Bool-cases}
use psic.Ast.{TypeNode, ValueNode, register, CommandNode}
use psic.Target.Pick.{Checked, value}
use psic.Validation.Checked.{Returns, returns, Returns-any}
use psic.Validation.Environment.{Map, TypeEnvironment, member}
use psic.Validation.Command.{no_accessors, target_register}
use psic.Validation.Aliases.{Flow, may_name_immutable_backing}
use psic.Validation.Flow.{
  store_into, store_operands, store_step, copy_operands, memcpy_step, load_operands, load_step,
  aggregate_step, element_is_pointer, stores_address_in_local,
}
use psic.Validation.Closure.{register_names}
use psic.Validation.Grows.{
  StepChecked, Step, Grows, RefersWithin, none-Grows, add_immutable-Grows, add_storage-Grows,
  add_contents-Grows, add_if-Grows, add_when-Grows, with_reference-Grows, then-Grows, pure-Grows,
  seq-Grows, choice-Grows,
}
use psic.Validation.Missing.{member-head}

-- The registers of the operands are among the names.
abbrev pub Covers : List Text → List ValueNode → Type 0
Covers names values = (u : Text) → member (register_names values) u ≡ true → member names u ≡ true

module _ (names : List Text) (env : TypeEnvironment) (visible : Map TypeNode) where
  pure-none : StepChecked names (λ f. value f)
  pure-none f w = returns (none-Grows names f w)

  pub after :
      {f : Flow} {first : Flow → Flow} {step : Flow → Checked Flow}
      → Step names first
      → RefersWithin names f.local_references
      → StepChecked names step
      → Returns (Grows names f) (step (first f))
  after {f} s w t = then-Grows names (s f w) t

  store_into-Grows :
      (destination : Text) (stored : ValueNode) (local : Text)
      → member names local ≡ true
      → StepChecked names (store_into env visible destination stored local)
  store_into-Grows destination stored local m f w =
      after
        (add_if-Grows names (may_name_immutable_backing visible env stored f.immutable_aliases)
          (add_immutable-Grows names local m))
        w
        (add_when-Grows names _ (
          seq-Grows names (add_storage-Grows names local m)
            (add_if-Grows names _ (add_contents-Grows names local m))))

  store_operands-Grows :
      (b : Bool) (values : List ValueNode) → StepChecked names (store_operands env visible b values)
  store_operands-Grows true (register destination ∷ stored ∷ []) f w =
      elim (Bool-cases
        (no_accessors destination && member f.local_storage_aliases destination.name)) [
          | inl e ↦
              rw (e, store_operands)
                (with_reference-Grows names destination.name
                  (store_into-Grows destination.name stored) f w)
          | inr e ↦ rw (e, store_operands) (pure-none f w)
        ]
  store_operands-Grows _ values f w = pure-none f w

  pub store_step-Grows :
      (command : CommandNode) → StepChecked names (store_step env visible command)
  unfolding store_step
  store_step-Grows command f w = store_operands-Grows _ command.values f w

  copy_operands-Grows :
      (b : Bool) (values : List ValueNode)
      → Covers names values
      → StepChecked names (copy_operands env visible b values)
  copy_operands-Grows true (register destination ∷ register source ∷ v ∷ []) c f w =
      let m = c destination.name (member-head destination.name _) in
      choice-Grows names _
        (λ g v. after (add_contents-Grows names destination.name m) v (
          with_reference-Grows names destination.name
            (λ local m'. pure-Grows names (add_contents-Grows names local m'))))
        f w
  copy_operands-Grows _ values c f w = pure-none f w

  pub memcpy_step-Grows :
      (command : CommandNode)
      → Covers names command.values
      → StepChecked names (memcpy_step env visible command)
  unfolding memcpy_step
  memcpy_step-Grows command c f w = copy_operands-Grows _ command.values c f w

  load_operands-Grows :
      (b : Bool) (target : Text) (values : List ValueNode)
      → member names target ≡ true
      → StepChecked names (load_operands env visible b target values)
  load_operands-Grows true target (register source ∷ []) m f w =
      elim (Bool-cases (no_accessors source)) [
        | inl e ↦
            rw (e, load_operands)
              (with_reference-Grows names source.name
                (λ local m' g v. returns (
                  add_if-Grows names (member g.immutable_aliases local)
                    (add_immutable-Grows names target m) g v))
                f w)
        | inr e ↦ rw (e, load_operands) (pure-none f w)
      ]
  load_operands-Grows _ target values m f w = pure-none f w

  pub load_step-Grows :
      (command : CommandNode)
      → member names (target_register command).name ≡ true
      → StepChecked names (load_step env visible command)
  unfolding load_step
  load_step-Grows command m f w =
      load_operands-Grows _ (target_register command).name command.values m f w

  pub aggregate_step-Grows :
      (command : CommandNode)
      → member names (target_register command).name ≡ true
      → StepChecked names (aggregate_step env visible command)
  unfolding aggregate_step
  aggregate_step-Grows command m f w =
      Returns-any (element_is_pointer env visible (target_register command)) (λ points.
        after (add_if-Grows names _ (add_immutable-Grows names _ m)) w (λ g.
          add_when-Grows names (stores_address_in_local env visible command g)
            (seq-Grows names (add_storage-Grows names _ m) (add_contents-Grows names _ m)) g))
