-- ===== src/Validation/Behind.antt =====
-- src/validation.cpp: the checks of `validateBlock` behind some of its commands.
use psic.Prelude.{
  ◌≡◌, refl, inl, inr, true, Text, List, [], ◌∷◌, ◌++◌, arith, ◌∙◌, text_eq_refl, Option,
  Bool-cases,
}
use psic.Ast.{TypeNode, CommandNode, BlockNode}
use psic.Validation.Environment.{Map, TypeEnvironment, Names, has, emplace}
use psic.Validation.Command.{PointerModel, target_register, has_declared_type, declared}
use psic.Validation.Missing.{has-Adds}
use psic.Validation.Aliases.{Flow}
use psic.Validation.Closure.{locals_after}
use psic.Validation.ClosureSteps.{CoversBlock}
use psic.Validation.Fixed.{CoversBlock-tail}
use psic.Validation.Block.{flow_after}
use psic.Validation.Trace.{Accepts, skip, pass}

pub flow_after-storage :
    (model : PointerModel) (locals : Map TypeNode) (env : TypeEnvironment) (flow : Flow)
    (command : CommandNode)
    → (flow_after model locals env flow command).local_storage_aliases ≡ flow.local_storage_aliases
unfolding flow_after
flow_after-storage model locals env flow command = ground arith

has-emplace :
    (name : Text) (type : TypeNode) (locals : Map TypeNode) (u : Text)
    → has locals u ≡ true
    → has (emplace name type locals) u ≡ true
unfolding emplace
has-emplace name type locals u h = elim (Bool-cases (has locals name)) [
  | inl e ↦ rw e h
  | inr e ↦ rw e (ground (arith, h, has-Adds name type locals u))
]

pub has-emplaced :
    (name : Text) (type : TypeNode) (locals : Map TypeNode)
    → has (emplace name type locals) name ≡ true
unfolding emplace
has-emplaced name type locals = elim (Bool-cases (has locals name)) [
  | inl e ↦ rw e e
  | inr e ↦ rw e (ground (arith, has-Adds name type locals name, text_eq_refl name))
]

has-locals_after :
    (command : CommandNode) (locals : Map TypeNode) (u : Text)
    → has locals u ≡ true
    → has (locals_after command locals) u ≡ true
has-locals_after command locals u h = elim (Bool-cases (has_declared_type command)) [
  | inl e ↦ rw e (has-emplace (target_register command).name (declared command) locals u h)
  | inr e ↦ rw e h
]

module _ (model : PointerModel) (env : TypeEnvironment) (return_type : Option TypeNode) where
  -- The run behind some commands: the storage aliases are the same, and no local is lost.
  abbrev pub Later : Map TypeNode → Flow → BlockNode → Type 0
  Later locals flow rest =
      (locals' : Map TypeNode) × (flow' : Flow) × (labels' : Names) × Accepts model env return_type
        locals' flow' labels' rest
      × (flow'.local_storage_aliases ≡ flow.local_storage_aliases)
      × ((u : Text) → has locals u ≡ true → has locals' u ≡ true)

  pub Accepts-behind :
      (locals : Map TypeNode) (flow : Flow) (labels : Names) (before rest : BlockNode)
      → Accepts model env return_type locals flow labels (before ++ rest)
      → Later locals flow rest
  Accepts-behind locals flow labels [] rest a = (locals, flow, labels, a, refl, (λ u h. h))
  Accepts-behind locals flow labels (command ∷ before) rest (skip e a) =
      Accepts-behind locals flow labels before rest a
  Accepts-behind locals flow labels (command ∷ before) rest (pass {after = after} e passed a) =
      let (locals', flow', labels', accepted, same, kept) =
        Accepts-behind (locals_after command locals) (flow_after model locals env flow command)
          after before rest a in
      (
        locals',
        flow',
        labels',
        accepted,
        same ∙ flow_after-storage model locals env flow command,
        (λ u h. kept u (has-locals_after command locals u h)),
      )

pub CoversBlock-behind :
    (names : List Text) (before rest : BlockNode)
    → CoversBlock names (before ++ rest)
    → CoversBlock names rest
CoversBlock-behind names [] rest c = c
CoversBlock-behind names (command ∷ before) rest c =
    CoversBlock-behind names before rest (CoversBlock-tail names command (before ++ rest) c)
