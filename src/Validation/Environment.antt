-- ===== src/Validation/Environment.antt =====
-- src/validation.cpp: `TypeEnvironment` and the maps and sets of names, and `registerType`.
use psic.Prelude.{
  ◌==◌, ltb, ◌-◌, Bool, true, false, not, ◌||◌, if◌then◌else◌, Text, codes, text_eq, List, [], ◌∷◌,
  ◌++◌, Option, none, some, ◌≡◌, refl,
}
use psic.Ast.{TypeNode, ArgNode, AccessorNode, index, field, RegNode}
use psic.Target.Pick.{Checked, value, runtime_error}
use psic.Validation.Checked.{◌>>=◌, ◌>>◌, require, is, surrounded}

-- `std::unordered_map` by name. The code never asks for its order.
abbrev pub Map : Type 0 → Type 0
Map A = List (Text × A)

module _ {A : Type 0} where
  unfoldable pub find : Map A → Text → Option A
  find [] name = none
  find ((key, a) ∷ m) name = if text_eq key name then some a else find m name

  abbrev pub is_some : Option A → Bool
  is_some none = false
  is_some (some _) = true

  unfoldable pub has : Map A → Text → Bool
  has m name = is_some (find m name)

  -- `emplace` leaves a name that is there as it is.
  unfoldable pub emplace : Text → A → Map A → Map A
  emplace name a m = if has m name then m else (name, a) ∷ m

-- `std::unordered_set` of names.
abbrev pub Names : Type 0
Names = List Text

unfoldable pub member : Names → Text → Bool
member [] name = false
member (key ∷ names) name = text_eq key name || member names name

unfoldable pub insert : Text → Names → Names
insert name names = if member names name then names else name ∷ names

pub record TypeEnvironment : Type 0 where
  pub globals : Map TypeNode
  pub constant_objects : Names
  pub immutable_global_backing : Names
  pub returns : Map TypeNode
  pub parameters : Map (List TypeNode)
  pub structs : Map (List ArgNode)

-- `std::find_if` over the fields of a struct: the type of the first one with the name.
unfoldable pub find_field : List ArgNode → Text → Option TypeNode
find_field [] name = none
find_field (candidate ∷ fields) name =
    if text_eq candidate.name name then some candidate.type else find_field fields name

abbrev pub found : {A : Type 0} → Option A → Text → Checked A
found none message = runtime_error message
found (some a) message = value a

-- The local of the name or, where there is none, the global.
unfoldable pub root_type : Map TypeNode → TypeEnvironment → Text → Option TypeNode
root_type locals env name = elim (find locals name) [
  | some type ↦ some type
  | none ↦ find env.globals name
]

-- The type behind one accessor: an element of a pointer, or a field of a struct.
unfoldable pub accessed_type : TypeEnvironment → TypeNode → AccessorNode → Checked TypeNode
accessed_type env type (index i) = do
  require (not type.is_view) (codes "a bounded view must be indexed with #viewload or #viewstore")
  require (ltb 0 type.pointer_level) (codes "index accessor requires a pointer")
  require (ltb 1 type.pointer_level || not (is type.base_name "void"))
      (codes "cannot index void*; convert it to an object pointer first")
  value (record type { pointer_level = type.pointer_level - 1 })
accessed_type env type (field name) = do
  require (not type.is_view) (codes "a bounded view must be indexed with #viewload or #viewstore")
  require (type.pointer_level == 0) (codes "field accessor requires a struct value")
  fields ← found (find env.structs type.base_name) (codes "field accessor requires a struct type")
  inner ←
      found (find_field fields name)
        (surrounded "struct '" type.base_name "' has no field named '" ++ name ++ codes "'")
  value (record inner {
    is_const = inner.is_const || type.is_const;
    is_volatile = inner.is_volatile || type.is_volatile;
  })

unfoldable pub accessed_through : TypeEnvironment → TypeNode → List AccessorNode → Checked TypeNode
accessed_through env type [] = value type
accessed_through env type (a ∷ accessors) =
    accessed_type env type a >>= λ inner. accessed_through env inner accessors

unfoldable pub register_type : RegNode → Map TypeNode → TypeEnvironment → Checked TypeNode
register_type reg locals env = do
  type ←
      found (root_type locals env reg.name) (surrounded "use of undeclared register '" reg.name "'")
  accessed_through env type reg.accessors

pub found-then :
    {A B : Type 0} (o : Option A) (m : Text) {f : A → Checked B} {b : B}
    → (found o m >>= f) ≡ value b
    → (a : A) × (o ≡ some a) × (f a ≡ value b)
found-then none m h = cc
found-then (some a) m h = (a, refl, h)
