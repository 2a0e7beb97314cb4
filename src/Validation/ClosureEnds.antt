-- ===== src/Validation/ClosureEnds.antt =====
-- The `do` loop of the flow analysis ends, and what it ends with is closed.
use psic.Prelude.{
  ◌≡◌, refl, ◌≢◌, inl, inr, ℕ, zero, suc, ◌<◌, true, false, if◌then◌else◌, Text, List, arith, sym,
  subst,
}
use psic.Source.{
  SourceLocation, Result, ok, out_of_fuel, Ensures, holds, rejected, Ensures-if,
  Ensures-ne-out_of_fuel, Ensures-ok,
}
use psic.Ast.{TypeNode, BlockNode}
use psic.Target.Pick.{Checked, value, runtime_error}
use psic.Validation.Checked.{Returns, returns, throws}
use psic.Validation.Environment.{Map, TypeEnvironment, find}
use psic.Validation.Aliases.{Flow}
use psic.Validation.Closure.{
  round, close, located_then, block_names, start_flow, enough_rounds, alias_closure,
}
use psic.Validation.Grows.{Grows, RefersWithin, room, room-le}
use psic.Validation.ClosureSteps.{CoversBlock, round-Grows}

-- A round over the commands of the block adds nothing.
abbrev pub IsClosed : TypeEnvironment → Map TypeNode → BlockNode → Flow → Type 0
IsClosed env locals block flow = (flow.added ≡ false) × (round env locals block flow ≡ value flow)

-- It is closed, and refers to names of the list only.
abbrev pub ClosedWithin : List Text → TypeEnvironment → Map TypeNode → BlockNode → Flow → Type 0
ClosedWithin names env locals block flow =
    IsClosed env locals block flow × RefersWithin names flow.local_references

abbrev unmarked : Flow → Flow
unmarked flow = record flow { added = false }

module _ (names : List Text) (active : SourceLocation) (env : TypeEnvironment)
    (locals : Map TypeNode) (block : BlockNode) (c : CoversBlock names block) where
  -- What a round that returns has done: nothing, or the room has shrunk.
  round-cases :
      (flow next : Flow)
      → Grows names (unmarked flow) next
      → round env locals block (unmarked flow) ≡ value next
      → (next.added ≡ false → IsClosed env locals block next)
        × (next.added ≡ true → room names next < room names flow)
  round-cases flow next (inl e, w) h =
      (λ _. (cc, subst (λ x. round env locals block x ≡ value next) (sym e) h), λ a. absurd (cc))
  round-cases flow next (inr (lt, a), w) h = (λ b. absurd (cc), λ _. lt)

  -- One turn of the loop, whose other turns are `rest`.
  turn-IsClosed :
      (flow : Flow) (rest : Flow → Result Flow) (r : Checked Flow)
      → round env locals block (unmarked flow) ≡ r
      → Returns (Grows names (unmarked flow)) r
      → ((next : Flow)
          → RefersWithin names next.local_references
          → room names next < room names flow
          → Ensures (ClosedWithin names env locals block) (rest next))
      → Ensures
          (ClosedWithin names env locals block)
          (located_then active r (λ next. if next.added then rest next else ok next))
  turn-IsClosed flow rest (value next) e (returns d) ih =
      let cases = round-cases flow next d e in
      Ensures-if next.added (λ a. ih next d.1 (cases.1 a)) (λ b. holds (cases.0 b, d.1))
  turn-IsClosed flow rest (runtime_error m) e (throws _) ih = rejected m active

  close-IsClosed :
      (fuel : ℕ) (flow : Flow)
      → RefersWithin names flow.local_references
      → room names flow < fuel
      → Ensures (ClosedWithin names env locals block) (close fuel active env locals block flow)
  unfolding close
  close-IsClosed zero flow w lt = absurd (omega (arith, lt))
  close-IsClosed (suc fuel) flow w lt =
      turn-IsClosed flow (λ next. close fuel active env locals block next)
        (round env locals block (unmarked flow)) refl
        (round-Grows names env locals block c (unmarked flow) w)
        (λ next w' lt'. close-IsClosed fuel next w' (omega (arith, lt, lt')))

pub alias_closure-Ensures :
    (active : SourceLocation) (env : TypeEnvironment) (locals : Map TypeNode) (block : BlockNode)
    → Ensures
        (ClosedWithin (block_names block) env locals block)
        (alias_closure active env locals block)
unfolding alias_closure find
alias_closure-Ensures active env locals block =
    let names = block_names block in
    close-IsClosed names active env locals block (λ u m. m) (enough_rounds block) start_flow
      (λ u local h. absurd (cc)) (omega (arith, room-le names start_flow))

-- For every block, the rounds over its commands that look for aliases end: five rounds for each
-- register name in it, and one more, are enough.
pub alias_closure-ne-out_of_fuel :
    (active : SourceLocation) (env : TypeEnvironment) (locals : Map TypeNode) (block : BlockNode)
    → alias_closure active env locals block ≢ out_of_fuel
alias_closure-ne-out_of_fuel active env locals block =
    Ensures-ne-out_of_fuel (alias_closure-Ensures active env locals block)

-- If the analysis of a block returns alias sets then one more round over the commands of the block
-- returns the same sets.
pub alias_closure-IsClosed :
    (active : SourceLocation) (env : TypeEnvironment) (locals : Map TypeNode) (block : BlockNode)
    (flow : Flow)
    → alias_closure active env locals block ≡ ok flow
    → round env locals block flow ≡ value flow
alias_closure-IsClosed active env locals block flow h =
    (Ensures-ok (alias_closure-Ensures active env locals block) h).0.1
