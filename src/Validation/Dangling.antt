-- ===== src/Validation/Dangling.antt =====
-- A block that returns the address of one of its locals is rejected.
use psic.Prelude.{
  ◌≡◌, refl, ◌≢◌, inl, inr, ◌<◌, true, false, Text, List, [], ◌∷◌, ◌++◌, arith, sym, subst, ◌∙◌,
  lt→ltb, codes, text_eq, Option, none, some, Bool-cases,
}
use psic.Source.{SourceLocation, ok, Ensures-ok}
use psic.Ast.{TypeNode, RegNode, register, to_register, no_target, CommandNode, BlockNode}
use psic.Target.Pick.{value}
use psic.Validation.Environment.{Map, TypeEnvironment, Names, member, has, emplace}
use psic.Validation.Command.{PointerModel, normalized_instruction_name}
use psic.Validation.Missing.{member-head, member-tail}
use psic.Validation.Aliases.{
  Flow, command_may_point_into_local_storage, may_contain_local_pointer,
  may_point_into_local_storage,
}
use psic.Validation.Closure.{command_step, storage_condition, alias_closure, block_names}
use psic.Validation.ClosureEnds.{alias_closure-Ensures}
use psic.Validation.ClosureSteps.{member-append}
use psic.Validation.Grows.{RefersWithin}
use psic.Validation.FlowSteps.{Covers}
use psic.Validation.Fixed.{locals_behind, round-fixed}
use psic.Validation.StorageFixed.{storage-fixed, add_when-fixed}
use psic.Validation.Plain.{check_plain, check_return}
use psic.Validation.Block.{flow_after, validate_block}
use psic.Validation.Trace.{
  Accepts, skip, pass, validate_block-Accepts, check_command-parts, check_effect-parts,
}
use psic.Validation.Behind.{flow_after-storage, has-emplaced, Accepts-behind, CoversBlock-behind}

abbrev pub plain_register : Text → RegNode
plain_register name = record { name = name; accessors = [] }

-- `type pointer = ref local`.
abbrev pub takes_address : SourceLocation → TypeNode → Text → Text → CommandNode
takes_address location type pointer local = record {
  location = location;
  is_empty = false;
  volatile_access = false;
  declared_type = some type;
  target = to_register (plain_register pointer);
  instruction = some (record { name = codes "ref"; is_special = false });
  values = register (plain_register local) ∷ [];
}

-- `ret pointer`.
abbrev pub returns_pointer : SourceLocation → Text → CommandNode
returns_pointer location pointer = record {
  location = location;
  is_empty = false;
  volatile_access = false;
  declared_type = none;
  target = no_target;
  instruction = some (record { name = codes "ret"; is_special = false });
  values = register (plain_register pointer) ∷ [];
}

module _ (env : TypeEnvironment) (location : SourceLocation) (type : TypeNode)
    (pointer local : Text) where
  takes_address-points :
      (visible : Map TypeNode) (flow : Flow)
      → has visible local ≡ true
      → 0 < type.pointer_level
      → member flow.local_storage_aliases pointer ≡ false
      → storage_condition env visible pointer type (takes_address location type pointer local) flow
        ≡ value true
  unfolding command_may_point_into_local_storage normalized_instruction_name codes text_eq
  takes_address-points visible flow h l m = rw (lt→ltb 0 type.pointer_level l, m, h) refl

  -- The pointer is a storage alias.
  takes_address-member :
      (names : List Text) (visible : Map TypeNode) (flow : Flow)
      → member names pointer ≡ true
      → Covers names (register (plain_register local) ∷ [])
      → RefersWithin names flow.local_references
      → flow.added ≡ false
      → has visible local ≡ true
      → 0 < type.pointer_level
      → command_step env visible (takes_address location type pointer local) flow ≡ value flow
      → member flow.local_storage_aliases pointer ≡ true
  takes_address-member names visible flow m c w a h l fixed =
      elim (Bool-cases (member flow.local_storage_aliases pointer)) [
        | inl e ↦ e
        | inr e ↦ absurd (
            add_when-fixed
              (storage_condition env visible pointer type
                (takes_address location type pointer local) flow)
              pointer flow
              (storage-fixed names env visible (takes_address location type pointer local) m c flow
                type w refl refl refl fixed)
              a e (takes_address-points visible flow h l e))
      ]

module _ (model : PointerModel) (env : TypeEnvironment) (return_type : Option TypeNode) where
  -- `ret` of a local that is a storage alias does not pass.
  returns_pointer-fails :
      (location : SourceLocation) (pointer : Text) (locals : Map TypeNode) (flow : Flow)
      (labels : Names) (rest : BlockNode)
      → Accepts model env return_type locals flow labels (returns_pointer location pointer ∷ rest)
      → has locals pointer ≡ true
      → member flow.local_storage_aliases pointer ≡ true
      → ⊥
  unfolding check_plain check_return may_contain_local_pointer may_point_into_local_storage codes
      text_eq
  returns_pointer-fails location pointer locals flow labels rest (skip e a) h m = cc
  returns_pointer-fails location pointer locals flow labels rest (pass {after = after} e passed a) h
        m =
      let command = returns_pointer location pointer in
      let parts =
        check_command-parts model locals env flow return_type command labels after passed in
      let effect =
        check_effect-parts model locals env flow return_type command labels after refl parts.2 in
      let plain = effect.4 in absurd (ground (arith, plain, h, m))

-- The pointer is a local behind the command that takes the address.
taken :
    (model : PointerModel) (env : TypeEnvironment) (return_type : Option TypeNode)
    (here there : SourceLocation) (type : TypeNode) (pointer local : Text) (locals : Map TypeNode)
    (flow : Flow) (labels : Names) (between rest : BlockNode)
    → Accepts model env return_type locals flow labels
        (takes_address here type pointer local ∷ (between ++ returns_pointer there pointer ∷ rest))
    → member flow.local_storage_aliases pointer ≡ true
    → ⊥
taken model env return_type here there type pointer local locals flow labels between rest (skip e a)
      m =
    cc
taken model env return_type here there type pointer local locals flow labels between rest
      (pass {after = after} e passed a) m =
    let taking = takes_address here type pointer local in
    let next = flow_after model locals env flow taking in
    let (locals', flow', labels', accepted, same, kept) =
      Accepts-behind model env return_type (emplace pointer type locals) next after between
        (returns_pointer there pointer ∷ rest) a in
    let aliases = same ∙ flow_after-storage model locals env flow taking in
    returns_pointer-fails model env return_type there pointer locals' flow' labels' rest accepted
      (kept pointer (has-emplaced pointer type locals))
      (subst (λ s. member s pointer ≡ true) (sym aliases) m)

-- The analysis finds the pointer that takes the address.
alias_closure-takes_address :
    (env : TypeEnvironment) (active location : SourceLocation) (type : TypeNode)
    (pointer local : Text) (arguments : Map TypeNode) (before rest : BlockNode) (flow : Flow)
    → has (locals_behind before arguments) local ≡ true
    → 0 < type.pointer_level
    → alias_closure active env arguments
        (before ++ takes_address location type pointer local ∷ rest)
      ≡ ok flow
    → member flow.local_storage_aliases pointer ≡ true
alias_closure-takes_address env active location type pointer local arguments before rest flow h l
      e =
    let taking = takes_address location type pointer local in
    let block = before ++ taking ∷ rest in
    let names = block_names block in
    let closed = Ensures-ok (alias_closure-Ensures active env arguments block) e in
    let covers = CoversBlock-behind names before (taking ∷ rest) (λ u m. m) in
    let fixed =
      round-fixed names env arguments before taking rest flow (λ u m. m) closed.1 closed.0.1 in
    takes_address-member env location type pointer local names (locals_behind before arguments) flow
      (covers pointer (member-head pointer _))
      (λ u m.
        covers u
          (member-tail pointer _ u (member-append (local ∷ []) (block_names rest) u (inl m))))
      closed.1 closed.0.0 h l fixed

-- If the local is declared before, or is an argument, and the type is one of pointers then no block is
-- accepted that takes the address of the local, `type pointer = ref local`, and in which a later
-- command returns it, `ret pointer`.
pub validate_block-rejects-returns_pointer :
    (model : PointerModel) (env : TypeEnvironment) (return_type : Option TypeNode)
    (active left here there : SourceLocation) (type : TypeNode) (pointer local : Text)
    (arguments : Map TypeNode) (before between rest : BlockNode)
    → has (locals_behind before arguments) local ≡ true
    → 0 < type.pointer_level
    → validate_block model env return_type active arguments (
        before
        ++ takes_address here type pointer local
          ∷ (between ++ returns_pointer there pointer ∷ rest))
      ≢ ok left
validate_block-rejects-returns_pointer model env return_type active left here there type pointer
      local arguments before between rest h l e =
    let later = between ++ returns_pointer there pointer ∷ rest in
    let taking = takes_address here type pointer local in
    let (flow, closed, accepted) =
      validate_block-Accepts model env return_type active arguments (before ++ taking ∷ later) left
        e in
    let m =
      alias_closure-takes_address env active here type pointer local arguments before later flow h l
        closed in
    let (locals, flow', labels, a, same, kept) =
      Accepts-behind model env return_type arguments flow [] before (taking ∷ later) accepted in
    taken model env return_type here there type pointer local locals flow' labels between rest a
      (subst (λ s. member s pointer ≡ true) (sym same) m)
