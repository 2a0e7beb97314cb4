-- ===== src/Validation/Fixed.antt =====
-- A round that adds nothing passes over every command of the block without adding anything.
use psic.Prelude.{◌≡◌, inl, inr, Text, List, [], ◌∷◌, ◌++◌, arith, sym, subst, ◌∙◌, ap}
use psic.Ast.{TypeNode, CommandNode, BlockNode}
use psic.Target.Pick.{Checked, value}
use psic.Validation.Checked.{◌>>=◌, Returns, returns, throws, bind-value, value-inj}
use psic.Validation.Environment.{Map, TypeEnvironment}
use psic.Validation.Command.{target_register}
use psic.Validation.Aliases.{Flow}
use psic.Validation.Closure.{round, command_step, locals_after, register_names, block_names}
use psic.Validation.Grows.{Grows, RefersWithin, StepChecked}
use psic.Validation.Missing.{member-head, member-tail}
use psic.Validation.ClosureSteps.{CoversBlock, round-Grows, command_step-Grows, member-append}

-- The locals behind some commands.
abbrev pub locals_behind : BlockNode → Map TypeNode → Map TypeNode
locals_behind [] locals = locals
locals_behind (command ∷ commands) locals = locals_behind commands (locals_after command locals)

module _ (names : List Text) where
  -- Two flows that grow into each other are the same.
  pub Grows-same : (f g : Flow) → Grows names f g → Grows names g f → g ≡ f
  Grows-same f g (inl e, w) d = e
  Grows-same f g (inr (lt, a), w) (inl e, w') = sym e
  Grows-same f g (inr (lt, a), w) (inr (lt', a'), w') = absurd (omega (arith, lt, lt'))

  pub Returns-value :
      {P : Flow → Type 0} {r : Checked Flow} {g : Flow} → Returns P r → r ≡ value g → P g
  Returns-value {P} (returns h) e = subst P (value-inj e) h
  Returns-value (throws m) e = cc

  -- Two steps that leave a flow as it is do so one by one.
  pub bind-fixed :
      (first second : Flow → Checked Flow) (f : Flow)
      → StepChecked names first
      → StepChecked names second
      → RefersWithin names f.local_references
      → (first f >>= second) ≡ value f
      → (first f ≡ value f) × (second f ≡ value f)
  bind-fixed first second f s t w h =
      let parts = bind-value (first f) second f h in
      let there = Returns-value (s f w) parts.1 in
      let back = Returns-value (t parts.0 there.1) parts.2 in
      let same = Grows-same f parts.0 there back in
      (parts.1 ∙ ap value same, subst (λ g. second g ≡ value f) same parts.2)

  pub command_step-Grows-of :
      (env : TypeEnvironment) (visible : Map TypeNode) (command : CommandNode) (rest : BlockNode)
      → CoversBlock names (command ∷ rest)
      → StepChecked names (command_step env visible command)
  command_step-Grows-of env visible command rest c =
      let x = (target_register command).name in
      let registers = register_names command.values in
      command_step-Grows names env visible command (c x (member-head x _))
        (λ u m. c u (member-tail x _ u (member-append registers (block_names rest) u (inl m))))

  pub CoversBlock-tail :
      (command : CommandNode) (rest : BlockNode)
      → CoversBlock names (command ∷ rest)
      → CoversBlock names rest
  CoversBlock-tail command rest c u m = c u (
      member-tail (target_register command).name _ u
        (member-append (register_names command.values) (block_names rest) u (inr m)))

  -- The first command of a round that adds nothing, and the others.
  round-fixed-first :
      (env : TypeEnvironment) (visible : Map TypeNode) (command : CommandNode) (rest : BlockNode)
      (f : Flow)
      → CoversBlock names (command ∷ rest)
      → RefersWithin names f.local_references
      → round env visible (command ∷ rest) f ≡ value f
      → (command_step env visible command f ≡ value f)
        × (round env (locals_after command visible) rest f ≡ value f)
  unfolding round
  round-fixed-first env visible command rest f c w h =
      bind-fixed (command_step env visible command) (round env (locals_after command visible) rest)
        f (command_step-Grows-of env visible command rest c)
        (round-Grows names env (locals_after command visible) rest
          (CoversBlock-tail command rest c))
        w h

  pub round-fixed :
      (env : TypeEnvironment) (visible : Map TypeNode) (before : BlockNode) (command : CommandNode)
      (rest : BlockNode) (f : Flow)
      → CoversBlock names (before ++ command ∷ rest)
      → RefersWithin names f.local_references
      → round env visible (before ++ command ∷ rest) f ≡ value f
      → command_step env (locals_behind before visible) command f ≡ value f
  round-fixed env visible [] command rest f c w h =
      (round-fixed-first env visible command rest f c w h).0
  round-fixed env visible (first ∷ before) command rest f c w h =
      let whole = before ++ command ∷ rest in
      round-fixed env (locals_after first visible) before command rest f
        (CoversBlock-tail first whole c) w (round-fixed-first env visible first whole f c w h).1
