-- ===== src/Parser/Command.antt =====
-- src/parser.cpp: `parseCommand` and `parseBlock`.
use psic.Prelude.{
  Bool, true, false, ◌&&◌, ◌||◌, not, List, [], ◌∷◌, ◌++◌, Text, codes, if◌then◌else◌, Option, none,
  some, tail,
}
use psic.Ast.{
  TypeNode, InstNode, ValueNode, TargetNode, no_target, to_register, to_special_register,
  CommandNode, BlockNode,
}
use psic.Lexer.Token.{
  identifier, special_register, left_brace, right_brace, left_bracket, right_bracket, star, dot,
  colon, equals, semicolon,
}
use psic.Parser.State.{
  State, Parser, pure, ◌>>=◌, ◌>>◌, when, look, check_token_type, check_token_type_ahead,
  check_keyword, look_ahead_token, consume_token, expect_token_type, raise_error, raise_reserved,
  is_reserved_word, token_location, while,
}
use psic.Parser.Names.{token_starts_instruction}
use psic.Parser.Types.{parse_type, parse_register}
use psic.Parser.Value.{parse_instruction, parse_value}

-- `volatile` in front of an instruction.
unfoldable pub parse_volatile : Parser Bool
parse_volatile =
    when (λ s. check_keyword "volatile" s && token_starts_instruction (look_ahead_token 1 s))
      (consume_token >> pure true) (pure false)

abbrev pub starts_declaration : State → Bool
starts_declaration s =
    check_token_type_ahead identifier 1 s
    || check_token_type_ahead star 1 s
    || check_token_type_ahead colon 1 s
    || (check_token_type_ahead left_bracket 1 s && check_token_type_ahead right_bracket 2 s)

abbrev pub starts_assignment : State → Bool
starts_assignment s =
    check_token_type_ahead equals 1 s
    || check_token_type_ahead left_bracket 1 s
    || check_token_type_ahead dot 1 s

-- The declared type and the target of a command.
pub record Head : Type 0 where
  pub declared_type : Option TypeNode
  pub target : TargetNode

unfoldable pub parse_declaration_head : Parser Head
parse_declaration_head = do
  type ← parse_type
  reg ← parse_register
  pure (record { declared_type = some type; target = to_register reg })

unfoldable pub parse_assignment_head : Parser Head
parse_assignment_head =
    when (λ s. is_reserved_word s.here.text) raise_reserved
      (do reg ← parse_register; pure (record { declared_type = none; target = to_register reg }))

unfoldable pub parse_head : Parser Head
parse_head =
    when (check_token_type special_register)
      (do
        token ← consume_token
        pure (record { declared_type = none; target = to_special_register (tail token.text) }))
      (when (λ s. token_starts_instruction s.here)
        (pure (record { declared_type = none; target = no_target }))
        (when (check_token_type identifier)
          (when starts_declaration parse_declaration_head (
            when starts_assignment parse_assignment_head
              (raise_error (codes "unexpected token after identifier in a command"))))
          (raise_error (codes "unexpected token at the start of a command"))))

abbrev pub is_declaration : Head → Bool
is_declaration h = elim h.declared_type [ none ↦ false | some _ ↦ true ]

abbrev pub has_target : Head → Bool
has_target h = elim h.target [ no_target ↦ false | _ ↦ true ]

-- A declaration that ends behind its register.
abbrev pub without_initializer : Head → State → Bool
without_initializer h s = is_declaration h && check_token_type semicolon s

unfoldable pub parse_equals : Head → Parser (Unit {0})
parse_equals h =
    when (λ s. has_target h && not (without_initializer h s))
      (expect_token_type equals (codes "'='") >> pure tt) (pure tt)

-- The instruction and the values of a command.
pub record Body : Type 0 where
  pub instruction : Option InstNode
  pub values : List ValueNode

module _ (float_in_range : Text → Bool) where
  unfoldable pub parse_operands : Parser (List ValueNode)
  parse_operands =
      while (λ s. not (check_token_type semicolon s))
        (λ vs. do v ← parse_value float_in_range; pure (vs ++ (v ∷ []))) []

  unfoldable pub parse_body : Parser Body
  parse_body =
      when (λ s. token_starts_instruction s.here)
        (do
          inst ← parse_instruction
          values ← parse_operands
          pure (record { instruction = some inst; values = values }))
        (when (λ s. not (check_token_type semicolon s))
          (do v ← parse_value float_in_range; pure (record { instruction = none; values = v ∷ [] }))
          (pure (record { instruction = none; values = [] })))

  -- The body of a command, unless the command ends behind its register.
  unfoldable pub parse_initializer : Bool → Parser Body
  parse_initializer no_initializer s =
      if no_initializer then pure (record { instruction = none; values = [] }) s else parse_body s

  -- The command behind its location, if it is not a lone semicolon.
  unfoldable pub parse_full_command : psic.Source.SourceLocation → Parser CommandNode
  parse_full_command location = do
    volatile_first ← parse_volatile
    head ← parse_head
    no_initializer ← look (without_initializer head)
    parse_equals head
    volatile_second ← parse_volatile
    body ← parse_initializer no_initializer
    expect_token_type semicolon (codes "';'")
    pure (record {
      location = location;
      is_empty = false;
      volatile_access = volatile_first || volatile_second;
      declared_type = head.declared_type;
      target = head.target;
      instruction = body.instruction;
      values = body.values;
    })

  unfoldable pub parse_command : Parser CommandNode
  parse_command s =
      let location = token_location s.here in
      when (check_token_type semicolon)
        (consume_token
          >> pure (record {
            location = location;
            is_empty = true;
            volatile_access = false;
            declared_type = none;
            target = no_target;
            instruction = none;
            values = [];
          }))
        (parse_full_command location) s

  unfoldable pub parse_block : Parser BlockNode
  parse_block = do
    expect_token_type left_brace (codes "'{'")
    commands ←
        while (λ s. not (check_token_type right_brace s))
          (λ cs. do c ← parse_command; pure (cs ++ (c ∷ []))) []
    expect_token_type right_brace (codes "'}'")
    pure commands
