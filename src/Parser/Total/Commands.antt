-- ===== src/Parser/Total/Commands.antt =====
-- How far `parseCommand` and `parseBlock` of src/parser.cpp go on in the tokens.
use psic.Prelude.{Bool, false, ◌&&◌, not, [], Text}
use psic.Source.{SourceLocation, Ensures-if}
use psic.Lexer.Token.{identifier, special_register, left_brace, right_brace, equals, semicolon}
use psic.Parser.State.{check_token_type, check_keyword, look_ahead_token, is_reserved_word}
use psic.Parser.Names.{token_starts_instruction}
use psic.Parser.Command.{
  parse_volatile, starts_declaration, starts_assignment, Head, parse_declaration_head,
  parse_assignment_head, parse_head, has_target, without_initializer, parse_equals, parse_operands,
  parse_body, parse_initializer, parse_full_command, parse_command, parse_block,
}
use psic.Parser.Progress.{
  Advances, pure-Steps, raise_error-Steps, raise_reserved-Steps, weaken, consume_token-Steps,
  expect_token_type-Advances, then-Steps, finally-Steps, while-Steps,
}
use psic.Parser.Total.Types.{consumes, parse_type-Advances, parse_register-Advances}
use psic.Parser.Total.Values.{parse_instruction-Steps, parse_value-Advances}

parse_volatile-Advances : Advances 0 parse_volatile
unfolding parse_volatile
parse_volatile-Advances s h =
    Ensures-if (check_keyword "volatile" s && token_starts_instruction (look_ahead_token 1 s))
      (λ _. finally-Steps 0 s _ (consume_token-Steps s h)) λ _. pure-Steps false s h

declaration_head-Advances : Advances 1 parse_declaration_head
unfolding parse_declaration_head
declaration_head-Advances s h =
    then-Steps 1 0 s (parse_type-Advances s h)
      λ x a. finally-Steps 0 x.1 _ (weaken x.1 (parse_register-Advances x.1 a.ends))

assignment_head-Advances : Advances 1 parse_assignment_head
unfolding parse_assignment_head
assignment_head-Advances s h =
    Ensures-if (is_reserved_word s.here.text) (λ _. raise_reserved-Steps 1 s)
      λ _. finally-Steps 1 s _ (parse_register-Advances s h)

parse_head-Advances : Advances 0 parse_head
unfolding parse_head
parse_head-Advances s h =
    Ensures-if (check_token_type special_register s)
      (λ c. finally-Steps 0 s _ (consume_token-Steps s h))
      λ _.
        Ensures-if (token_starts_instruction s.here) (λ _. pure-Steps _ s h)
          λ _.
            Ensures-if (check_token_type identifier s)
              (λ c.
                Ensures-if (starts_declaration s) (λ _. weaken s (declaration_head-Advances s h))
                  λ _.
                    Ensures-if (starts_assignment s) (λ _. weaken s (assignment_head-Advances s h))
                      λ _. raise_error-Steps 0 _ s)
              λ _. raise_error-Steps 0 _ s

parse_equals-Advances : (head : Head) → Advances 0 (parse_equals head)
unfolding parse_equals
parse_equals-Advances head s h =
    Ensures-if (has_target head && not (without_initializer head s))
      (λ _. finally-Steps 0 s _ (weaken s (expect_token_type-Advances equals _ (cc) s h)))
      λ _. pure-Steps tt s h

module _ (float_in_range : Text → Bool) where
  parse_operands-Advances : Advances 0 (parse_operands float_in_range)
  unfolding parse_operands
  parse_operands-Advances s h =
      while-Steps _ _ [] s
        (λ vs t e c. finally-Steps 1 t _ (parse_value-Advances float_in_range t e)) h

  parse_body-Advances : Advances 0 (parse_body float_in_range)
  unfolding parse_body
  parse_body-Advances s h =
      Ensures-if (token_starts_instruction s.here)
        (λ _.
          then-Steps 0 0 s (weaken s (parse_instruction-Steps s h))
            λ x a. finally-Steps 0 x.1 _ (parse_operands-Advances x.1 a.ends))
        λ _.
          Ensures-if (not (check_token_type semicolon s))
            (λ _. finally-Steps 0 s _ (weaken s (parse_value-Advances float_in_range s h)))
            λ _. pure-Steps _ s h

  parse_initializer-Advances :
      (no_initializer : Bool) → Advances 0 (parse_initializer float_in_range no_initializer)
  unfolding parse_initializer
  parse_initializer-Advances no_initializer s h =
      Ensures-if no_initializer (λ _. pure-Steps _ s h) λ _. parse_body-Advances s h

  parse_full_command-Advances :
      (location : SourceLocation) → Advances 1 (parse_full_command float_in_range location)
  unfolding parse_full_command
  parse_full_command-Advances location s h = then-Steps 0 1 s (parse_volatile-Advances s h) λ x a.
      then-Steps 0 1 x.1 (parse_head-Advances x.1 a.ends) λ y b.
        then-Steps 0 1 y.1 (parse_equals-Advances y.0 y.1 b.ends) λ z c.
          then-Steps 0 1 z.1 (parse_volatile-Advances z.1 c.ends) λ w d.
            then-Steps 0 1 w.1 (parse_initializer-Advances (without_initializer y.0 y.1) w.1 d.ends)
              λ v e. finally-Steps 1 v.1 _ (expect_token_type-Advances semicolon _ (cc) v.1 e.ends)

  pub parse_command-Advances : Advances 1 (parse_command float_in_range)
  unfolding parse_command
  parse_command-Advances s h =
      Ensures-if (check_token_type semicolon s)
        (λ c. finally-Steps 1 s _ (consumes semicolon s h c (cc)))
        λ _. parse_full_command-Advances _ s h

  pub parse_block-Advances : Advances 1 (parse_block float_in_range)
  unfolding parse_block
  parse_block-Advances s h =
      then-Steps 1 0 s (expect_token_type-Advances left_brace _ (cc) s h) λ x a.
        then-Steps 0 0 x.1
          (while-Steps _ _ [] x.1 (λ cs t e c. finally-Steps 1 t _ (parse_command-Advances t e))
            a.ends)
          λ y b.
            finally-Steps 0 y.1 _
              (weaken y.1 (expect_token_type-Advances right_brace _ (cc) y.1 b.ends))
