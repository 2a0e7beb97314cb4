-- ===== src/Validation/Acyclic.antt =====
-- What `validateStructCycles` decides: whether a struct contains itself by value.
use psic.Prelude.{◌≡◌, ◌⊎◌, true, false, Text, List, [], ◌∷◌, some}
use psic.Ast.{ArgNode}
use psic.Validation.Environment.{Names, member, find, has}
use psic.Validation.Cycles.{Structs}

-- A field of the list is of the struct type by value.
abbrev pub HasField : List ArgNode → Text → Type 0
HasField [] name = ⊥
HasField (f ∷ fields) name =
    ((f.type.pointer_level ≡ 0) × (f.type.base_name ≡ name)) ⊎ HasField fields name

-- A struct has a field of the other struct by value, or there is a path of such fields.
abbrev pub Holds : Structs → Text → Text → Type 0
Holds structs a b = (fields : List ArgNode) × (find structs a ≡ some fields) × HasField fields b

pub data Contains (structs : Structs) : Text → Text → Type 0 where
  directly : {a b : Text} → Holds structs a b → Contains structs a b
  through : {a b c : Text} → Contains structs a b → Holds structs b c → Contains structs a c

-- No struct contains itself.
abbrev pub IsAcyclic : Structs → Type 0
IsAcyclic structs = (name : Text) → Contains structs name name → ⊥

-- Every visited struct was visited behind the structs that it has fields of.
abbrev pub IsOrdered : Structs → Names → Type 0
IsOrdered structs [] = Unit {0}
IsOrdered structs (a ∷ seen) =
    ((b : Text) → Holds structs a b → has structs b ≡ true → member seen b ≡ true)
    × (member seen a ≡ false)
    × IsOrdered structs seen
