-- ===== src/Validation/Samples.antt =====
-- Programs, blocks and types for the runs of the validation.
use psic.Prelude.{ℕ, true, false, [], ◌∷◌, codes, none, some, pos}
use psic.Source.{SourceLocation}
use psic.Ast.{
  TypeNode, ArgNode, number_int, index, to_register, CommandNode, BlockNode, entry, func, glob,
  ProgramNode,
}
use psic.Target.Model.{x86_64, linux}
use psic.Validation.Command.{PointerModel}
use psic.Validation.Types.{plain_type}
use psic.Validation.Environment.{Map}
use psic.Validation.Aliases.{Flow}
use psic.Validation.Dangling.{plain_register, takes_address, returns_pointer}

abbrev pub at_line : ℕ → SourceLocation
at_line n = record { line = n; column = 1 }

abbrev pub desktop : PointerModel
desktop = record {
  bits = 64;
  integral = true;
  architecture = x86_64;
  operating_system = linux;
  effective_target_features = [];
}

abbrev pub i32 : TypeNode
i32 = plain_type (codes "i32") 0

abbrev pub i32_pointer : TypeNode
i32_pointer = plain_type (codes "i32") 1

abbrev pub x_argument : ArgNode
x_argument = record { type = i32; name = codes "x" }

abbrev pub declares_x : CommandNode
declares_x = record {
  location = at_line 2;
  is_empty = false;
  volatile_access = false;
  declared_type = some i32;
  target = to_register (plain_register (codes "x"));
  instruction = none;
  values = number_int (pos 1) ∷ [];
}

abbrev pub indexes_x : CommandNode
indexes_x = record {
  location = at_line 3;
  is_empty = false;
  volatile_access = false;
  declared_type = none;
  target = to_register (record { name = codes "x"; accessors = index 0 ∷ [] });
  instruction = none;
  values = number_int (pos 1) ∷ [];
}

abbrev pub dangling : BlockNode
dangling =
    takes_address (at_line 2) i32_pointer (codes "p") (codes "x")
    ∷ returns_pointer (at_line 3) (codes "p")
    ∷ []

abbrev pub function_with : BlockNode → ProgramNode
function_with body =
    record {
      location = at_line 1;
      decl = func i32_pointer (codes "f") (x_argument ∷ []) (some body);
    }
    ∷ record { location = at_line 9; decl = glob i32 (codes "g") (number_int (pos 0)) }
    ∷ []

abbrev pub dangling_program : ProgramNode
dangling_program = function_with dangling

abbrev pub misplaced_program : ProgramNode
misplaced_program =
    record { location = at_line 1; decl = entry (codes "main") (declares_x ∷ indexes_x ∷ []) }
    ∷ record { location = at_line 9; decl = glob i32 (codes "g") (number_int (pos 0)) }
    ∷ []

abbrev pub plain_program : ProgramNode
plain_program = record { location = at_line 1; decl = entry (codes "main") (declares_x ∷ []) } ∷ []

abbrev pub x_local : Map TypeNode
x_local = (codes "x", i32) ∷ []

abbrev pub dangling_flow : Flow
dangling_flow = record {
  immutable_aliases = [];
  local_storage_aliases = codes "p" ∷ [];
  local_aggregate_contents = [];
  local_aggregate_references = [];
  local_references = (codes "p", codes "x") ∷ [];
  added = false;
}
