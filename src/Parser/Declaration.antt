-- ===== src/Parser/Declaration.antt =====
-- src/parser.cpp: the declarations and `parseProgram`.
use psic.Prelude.{Bool, true, ◌&&◌, ◌||◌, not, List, [], ◌∷◌, ◌++◌, Text, codes, none, some}
use psic.Source.{Result, ok, failed}
use psic.Source
use psic.Ast.{
  ArgNode, ValueNode, DeclNode, entry, struct, func, glob, constant, DeclarationNode, ProgramNode,
}
use psic.Lexer.Token.{
  Token, identifier, special_register, left_brace, right_brace, equals, semicolon, end_of_file,
}
use psic.Parser.State.{
  Parser, pure, ◌>>=◌, ◌>>◌, when, check_token_type, check_keyword, consume_token,
  expect_token_type, raise_error, token_location, while,
}
use psic.Parser.Types.{parse_type}
use psic.Parser.Value.{parse_value}
use psic.Parser.Command.{parse_block}

unfoldable pub parse_argument : Parser ArgNode
parse_argument = do
  type ← parse_type
  name ← expect_token_type identifier (codes "an argument name")
  pure (record { type = type; name = name.text })

-- What stands between two members of a struct.
unfoldable pub parse_separator : Parser (Unit {0})
parse_separator =
    when (λ s. not (check_token_type right_brace s) && check_token_type semicolon s)
      (consume_token >> pure tt)
      (when
        (λ s.
          not (check_token_type right_brace s)
          && not (check_token_type identifier s || check_token_type special_register s))
        (raise_error (codes "expected ';' between struct members")) (pure tt))

unfoldable pub parse_struct_declaration : Parser DeclNode
parse_struct_declaration = do
  type ← parse_type
  expect_token_type left_brace (codes "'{'")
  fields ←
      while (λ s. not (check_token_type right_brace s))
        (λ fields. do arg ← parse_argument; parse_separator; pure (fields ++ (arg ∷ []))) []
  expect_token_type right_brace (codes "'}'")
  pure (struct type fields)

unfoldable pub parse_arguments : Parser (List ArgNode)
parse_arguments =
    while (λ s. not (check_token_type left_brace s) && not (check_token_type semicolon s))
      (λ args. do arg ← parse_argument; pure (args ++ (arg ∷ []))) []

module _ (float_in_range : Text → Bool) where
  unfoldable pub parse_func_declaration : Parser DeclNode
  parse_func_declaration = do
    return_type ← parse_type
    name ← expect_token_type identifier (codes "a function name")
    args ← parse_arguments
    when (check_token_type semicolon) (consume_token >> pure (func return_type name.text args none))
        (do body ← parse_block float_in_range; pure (func return_type name.text args (some body)))

  -- `parseGlobDeclaration` and `parseConstDeclaration` behind the type, with the words for the name.
  unfoldable pub parse_initialized : Text → Parser (Text × ValueNode)
  parse_initialized what = do
    name ← expect_token_type identifier what
    expect_token_type equals (codes "'='")
    value ← parse_value float_in_range
    expect_token_type semicolon (codes "';'")
    pure (name.text, value)

  unfoldable pub parse_glob_declaration : Parser DeclNode
  parse_glob_declaration = do
    type ← parse_type
    named ← parse_initialized (codes "a global name")
    pure (glob type named.0 named.1)

  unfoldable pub parse_const_declaration : Parser DeclNode
  parse_const_declaration = do
    type ← parse_type
    named ← parse_initialized (codes "a constant name")
    pure (constant (record type { is_const = true }) named.0 named.1)

  unfoldable pub parse_entry_declaration : Parser DeclNode
  parse_entry_declaration = do
    name ← expect_token_type identifier (codes "an entry name")
    body ← parse_block float_in_range
    pure (entry name.text body)

  unfoldable pub parse_decl : Parser DeclNode
  parse_decl = when (check_keyword "entry") (consume_token >> parse_entry_declaration) (
      when (check_keyword "struct") (consume_token >> parse_struct_declaration) (
        when (check_keyword "func") (consume_token >> parse_func_declaration) (
          when (check_keyword "const") (consume_token >> parse_const_declaration)
            parse_glob_declaration)))

  unfoldable pub parse_declaration : Parser DeclarationNode
  parse_declaration s =
      (do decl ← parse_decl; pure (record { location = token_location s.here; decl = decl })) s

  unfoldable pub parse_program : Parser ProgramNode
  parse_program =
      while (λ s. not (check_token_type end_of_file s))
        (λ decls. do decl ← parse_declaration; pure (decls ++ (decl ∷ []))) []

  -- `Parser(tokens).parseProgram()`. The lexer always hands over a token.
  unfoldable pub parse : List Token → Result ProgramNode
  parse [] = ok []
  parse (t ∷ ts) = Source.◌>>=◌ (parse_program (record { here = t; ahead = ts })) (λ r. ok r.0)
