-- ===== src/Validation/Typing.antt =====
-- The types of registers as rules, and `registerType` on them.
use psic.Prelude.{
  ◌≡◌, refl, ◌⊎◌, ◌↔◌, ℕ, ◌-◌, ◌<◌, ◌==◌, ltb, Bool, true, false, not, ◌||◌, Text, List, [], ◌∷◌,
  arith, some, subst, ltb→lt, lt→ltb, ==_iff,
}
use psic.Ast.{TypeNode, ArgNode, AccessorNode, index, field, RegNode}
use psic.Target.Pick.{value}
use psic.Validation.Checked.{is, bind-value, value-inj, require-then}
use psic.Validation.Environment.{
  Map, TypeEnvironment, find, find_field, root_type, accessed_type, accessed_through, register_type,
  found-then,
}

-- A field of the value has the type of the field, and is constant or volatile where the value is.
abbrev pub qualified : TypeNode → TypeNode → TypeNode
qualified outer inner = record inner {
  is_const = inner.is_const || outer.is_const;
  is_volatile = inner.is_volatile || outer.is_volatile;
}

-- The types of a value and of what one accessor reaches in it.
pub data Reaches (env : TypeEnvironment) : TypeNode → AccessorNode → TypeNode → Type 0 where
  element :
      {type : TypeNode} {i : ℕ}
      → type.is_view ≡ false
      → 0 < type.pointer_level
      → (1 < type.pointer_level) ⊎ (is type.base_name "void" ≡ false)
      → Reaches env type (index i) (record type { pointer_level = type.pointer_level - 1 })
  member :
      {type inner : TypeNode} {name : Text} {fields : List ArgNode}
      → type.is_view ≡ false
      → type.pointer_level ≡ 0
      → find env.structs type.base_name ≡ some fields
      → find_field fields name ≡ some inner
      → Reaches env type (field name) (qualified type inner)

pub data ReachesAll (env : TypeEnvironment) : TypeNode → List AccessorNode → TypeNode → Type 0 where
  here : {type : TypeNode} → ReachesAll env type [] type
  step :
      {type inner result : TypeNode} {a : AccessorNode} {accessors : List AccessorNode}
      → Reaches env type a inner
      → ReachesAll env inner accessors result
      → ReachesAll env type (a ∷ accessors) result

-- `Γ ⊢ reg : type`: a local of the name, or else a global, and then the accessors.
pub data HasType (locals : Map TypeNode) (env : TypeEnvironment) : RegNode → TypeNode → Type 0 where
  register :
      {reg : RegNode} {root type : TypeNode}
      → root_type locals env reg.name ≡ some root
      → ReachesAll env root reg.accessors type
      → HasType locals env reg type

accessed_type-Reaches :
    (env : TypeEnvironment) (type : TypeNode) (a : AccessorNode) (inner : TypeNode)
    → accessed_type env type a ≡ value inner
    → Reaches env type a inner
unfolding accessed_type
accessed_type-Reaches env type (index i) inner h =
    let view = require-then (not type.is_view) _ h in
    let level = require-then (ltb 0 type.pointer_level) _ view.1 in
    let complete =
      require-then (ltb 1 type.pointer_level || not (is type.base_name "void")) _ level.1 in
    subst (Reaches env type (index i)) (value-inj complete.1) (
      element (ground (arith, view.0)) (ltb→lt 0 type.pointer_level level.0)
        (ground (arith, complete.0)))
accessed_type-Reaches env type (field name) inner h =
    let view = require-then (not type.is_view) _ h in
    let level = require-then (type.pointer_level == 0) _ view.1 in
    let structure = found-then (find env.structs type.base_name) _ level.1 in
    let reached = found-then (find_field structure.0 name) _ structure.2 in
    subst (Reaches env type (field name)) (value-inj reached.2) (
      member (ground (arith, view.0)) ((==_iff type.pointer_level 0).0 level.0) structure.1
        reached.1)

complete-or : (l : ℕ) (b : Bool) → (1 < l) ⊎ (b ≡ false) → (ltb 1 l || not b) ≡ true
complete-or l b h = ground (arith, h)

Reaches-accessed_type :
    {env : TypeEnvironment} {type : TypeNode} {a : AccessorNode} {inner : TypeNode}
    → Reaches env type a inner
    → accessed_type env type a ≡ value inner
unfolding accessed_type
Reaches-accessed_type {type = type} (element v l c) =
    rw
      (
        v,
        lt→ltb 0 type.pointer_level l,
        complete-or type.pointer_level (is type.base_name "void") c,
      )
      refl
Reaches-accessed_type {type = type} (member v l s f) = rw (v, l, s, f) refl

accessed_through-ReachesAll :
    (env : TypeEnvironment) (type : TypeNode) (accessors : List AccessorNode) (result : TypeNode)
    → accessed_through env type accessors ≡ value result
    → ReachesAll env type accessors result
unfolding accessed_through
accessed_through-ReachesAll env type [] result h = subst (ReachesAll env type []) (value-inj h) here
accessed_through-ReachesAll env type (a ∷ accessors) result h =
    let inner = bind-value (accessed_type env type a) _ result h in
    step (accessed_type-Reaches env type a inner.0 inner.1)
      (accessed_through-ReachesAll env inner.0 accessors result inner.2)

ReachesAll-accessed_through :
    {env : TypeEnvironment} {type : TypeNode} {accessors : List AccessorNode} {result : TypeNode}
    → ReachesAll env type accessors result
    → accessed_through env type accessors ≡ value result
unfolding accessed_through
ReachesAll-accessed_through here = refl
ReachesAll-accessed_through (step r rest) =
    rw (Reaches-accessed_type r) (ReachesAll-accessed_through rest)

-- For all locals and environments, `registerType` returns a type for a register exactly when the
-- typing rules give the register that type.
pub register_type_iff :
    (reg : RegNode) (locals : Map TypeNode) (env : TypeEnvironment) (type : TypeNode)
    → (register_type reg locals env ≡ value type) ↔ HasType locals env reg type
unfolding register_type
register_type_iff reg locals env type = (
  (λ h.
      let root = found-then (root_type locals env reg.name) _ h in
      register root.1 (accessed_through-ReachesAll env root.0 reg.accessors type root.2)),
  (λ t. elim t [ register e r ↦ rw e (ReachesAll-accessed_through r) ]),
)
