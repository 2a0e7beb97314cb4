-- ===== src/Validation/Cycles.antt =====
-- src/validation.cpp: `visitStructByValue` and `validateStructCycles`.
use psic.Prelude.{ℕ, zero, suc, ◌==◌, if◌then◌else◌, Text, List, [], ◌∷◌, length, none, some}
use psic.Ast.{ArgNode}
use psic.Validation.Checked.{surrounded}
use psic.Validation.Environment.{Map, Names, member, find}

abbrev pub Structs : Type 0
Structs = Map (List ArgNode)

-- The structs visited so far, or a thrown `std::runtime_error`. `out_of_fuel` has no counterpart in
-- the program.
pub data Visit : Type 0 where
  visited : Names → Visit
  recursive : Text → Visit
  out_of_fuel : Visit

abbrev pub after_visit : Visit → (Names → Visit) → Visit
after_visit (visited names) next = next names
after_visit (recursive message) next = recursive message
after_visit out_of_fuel next = out_of_fuel

-- The loop over the fields: those that are no pointers are visited.
unfoldable pub visit_fields : (Text → Names → Visit) → List ArgNode → Names → Visit
visit_fields visit [] seen = visited seen
visit_fields visit (f ∷ fields) seen =
    if f.type.pointer_level == 0
    then after_visit (visit f.type.base_name seen) (visit_fields visit fields)
    else visit_fields visit fields seen

-- A call that returns leaves `visiting` as it was, so it is an argument only.
unfoldable pub visit_struct_by_value : ℕ → Structs → Names → Text → Names → Visit
visit_struct_by_value zero structs visiting name seen = out_of_fuel
visit_struct_by_value (suc fuel) structs visiting name seen =
    let inner = visit_fields (visit_struct_by_value fuel structs (name ∷ visiting)) in
    if member seen name then visited seen else elim (find structs name) [
      | none ↦ visited seen
      | some fields ↦
          if member visiting name
          then recursive (surrounded "recursive by-value struct '" name "'")
          else after_visit (inner fields seen) (λ names. visited (name ∷ names))
    ]

unfoldable pub visit_all : ℕ → Structs → Structs → Names → Visit
visit_all fuel structs [] seen = visited seen
visit_all fuel structs ((name, _) ∷ rest) seen =
    after_visit (visit_struct_by_value fuel structs [] name seen) (visit_all fuel structs rest)

-- No path of structs is longer than there are structs.
unfoldable pub validate_struct_cycles : Structs → Visit
validate_struct_cycles structs = visit_all (suc (length structs)) structs structs []
