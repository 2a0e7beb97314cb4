-- ===== src/Ast.antt =====
-- src/ast.hpp: the syntax tree. A struct with a kind and one member for each kind is a data type
-- with a constructor for each kind, and a member with a `has` flag is an `Option`. A pointer to a
-- value stands for the value: the parser stores each pointer in one place.
use psic.Prelude.{ℕ, Bool, Text, List, Option, ℤ}
use psic.Source.{SourceLocation}

pub record TypeNode : Type 0 where
  pub base_name : Text
  pub pointer_level : ℕ
  pub alignment : Option ℕ
  pub is_primitive : Bool
  pub is_view : Bool
  pub is_const : Bool
  pub is_volatile : Bool

pub data AccessorNode : Type 0 where
  index : ℕ → AccessorNode
  field : Text → AccessorNode

pub record RegNode : Type 0 where
  pub name : Text
  pub accessors : List AccessorNode

pub record InstNode : Type 0 where
  pub name : Text
  pub is_special : Bool

-- A `double` is named by its decimal spelling in the source. `Values` is the vector of an array.
mutual
  pub data ValueNode : Type 0 where
    number_int : ℤ → ValueNode
    number_float : Text → ValueNode
    string : Text → ValueNode
    register : RegNode → ValueNode
    array : Values → ValueNode
    special_register : Text → ValueNode
    bool : Bool → ValueNode
    null : ValueNode

  pub data Values : Type 0 where
    nil : Values
    cons : ValueNode → Values → Values

pub record ArgNode : Type 0 where
  pub type : TypeNode
  pub name : Text

pub data TargetNode : Type 0 where
  no_target : TargetNode
  to_register : RegNode → TargetNode
  to_special_register : Text → TargetNode

pub record CommandNode : Type 0 where
  pub location : SourceLocation
  pub is_empty : Bool
  pub volatile_access : Bool
  pub declared_type : Option TypeNode
  pub target : TargetNode
  pub instruction : Option InstNode
  pub values : List ValueNode

abbrev pub BlockNode : Type 0
BlockNode = List CommandNode

pub data DeclNode : Type 0 where
  entry : Text → BlockNode → DeclNode
  struct : TypeNode → List ArgNode → DeclNode
  func : TypeNode → Text → List ArgNode → Option BlockNode → DeclNode
  glob : TypeNode → Text → ValueNode → DeclNode
  constant : TypeNode → Text → ValueNode → DeclNode

pub record DeclarationNode : Type 0 where
  pub location : SourceLocation
  pub decl : DeclNode

abbrev pub ProgramNode : Type 0
ProgramNode = List DeclarationNode
