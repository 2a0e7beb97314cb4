-- ===== src/Validation/TypeExamples.antt =====
-- The theorems about structs, registers and types at concrete inputs.
use psic.Prelude.{◌↔◌, ◌≡◌, false, Text, List, [], ◌∷◌, codes, some}
use psic.Ast.{TypeNode, RegNode, ArgNode, field}
use psic.Target.Pick.{value}
use psic.Validation.Types.{plain_type, validate_type}
use psic.Validation.Environment.{Map, register_type, Names, TypeEnvironment}
use psic.Validation.Cycles.{Structs, validate_struct_cycles, visited, recursive}
use psic.Validation.Acyclic.{IsAcyclic, Contains}
use psic.Validation.CycleFree.{validate_struct_cycles_iff}
use psic.Validation.Typing.{HasType, register_type_iff}
use psic.Validation.TypeRules.{IsWellFormed, validate_type_iff}
use psic.Validation.Checked.{Passes}
use psic.Validation.Infer.{known_type}
use psic.Validation.Casts.{check_cast}
use psic.Validation.CastRules.{check_cast-back}
use psic.Validation.Program.{empty_environment}
use psic.Validation.Samples.{desktop, i32, x_argument}

abbrev node_fields : List ArgNode
node_fields = record { type = plain_type (codes "node") 1; name = codes "next" } ∷ x_argument ∷ []

abbrev pair_fields : List ArgNode
pair_fields = record { type = plain_type (codes "node") 0; name = codes "first" } ∷ []

abbrev two_structs : Structs
two_structs = (codes "pair", pair_fields) ∷ (codes "node", node_fields) ∷ []

validate_struct_cycles_iff_example :
    (((names : Names) × (validate_struct_cycles two_structs ≡ visited names))
      ↔ IsAcyclic two_structs)
    × (((message : Text) × (validate_struct_cycles two_structs ≡ recursive message))
        ↔ ((name : Text) × Contains two_structs name name))
validate_struct_cycles_iff_example = validate_struct_cycles_iff two_structs

abbrev with_structs : TypeEnvironment
with_structs = record empty_environment { structs = two_structs }

abbrev first_of_pair : RegNode
first_of_pair = record { name = codes "y"; accessors = field (codes "first") ∷ [] }

abbrev pair_local : Map TypeNode
pair_local = (codes "y", plain_type (codes "pair") 0) ∷ []

register_type_iff_example :
    (register_type first_of_pair pair_local with_structs ≡ value (plain_type (codes "node") 0))
    ↔ HasType pair_local with_structs first_of_pair (plain_type (codes "node") 0)
register_type_iff_example =
    register_type_iff first_of_pair pair_local with_structs (plain_type (codes "node") 0)

abbrev aligned : TypeNode
aligned = record i32 { alignment = some 16 }

validate_type_iff_example : (validate_type aligned false ≡ value tt) ↔ IsWellFormed false aligned
validate_type_iff_example = validate_type_iff aligned false

abbrev u64 : TypeNode
u64 = plain_type (codes "u64") 0

check_cast-back_example :
    (Passes (check_cast desktop (codes "trunc") (known_type u64) i32)
      ↔ Passes (check_cast desktop (codes "sext") (known_type i32) u64))
    × (Passes (check_cast desktop (codes "trunc") (known_type u64) i32)
        ↔ Passes (check_cast desktop (codes "zext") (known_type i32) u64))
    × (Passes (check_cast desktop (codes "fptrunc") (known_type u64) i32)
        ↔ Passes (check_cast desktop (codes "fpext") (known_type i32) u64))
    × (Passes (check_cast desktop (codes "ptrtoint") (known_type u64) i32)
        ↔ Passes (check_cast desktop (codes "inttoptr") (known_type i32) u64))
check_cast-back_example = check_cast-back desktop u64 i32
