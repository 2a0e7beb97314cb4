-- ===== src/Parser/Total/Program.antt =====
-- How far the declarations and `parseProgram` of src/parser.cpp go on in the tokens.
use psic.Prelude.{Bool, ◌&&◌, ◌||◌, not, List, [], ◌∷◌, Text}
use psic.Source.{Ensures, Ensures-if, Ensures-bind, holds}
use psic.Lexer.Token.{
  Token, identifier, special_register, left_brace, right_brace, equals, semicolon,
}
use psic.Lexer.Stream.{IsStream, last, before}
use psic.Parser.State.{check_token_type, check_keyword}
use psic.Parser.Declaration.{
  parse_argument, parse_separator, parse_struct_declaration, parse_arguments,
  parse_func_declaration, parse_initialized, parse_glob_declaration, parse_const_declaration,
  parse_entry_declaration, parse_decl, parse_declaration, parse_program, parse,
}
use psic.Parser.Progress.{
  Ends, Advances, pure-Steps, raise_error-Steps, weaken, consume_token-Steps,
  expect_token_type-Advances, then-Steps, finally-Steps, while-Steps,
}
use psic.Parser.Total.Types.{parse_type-Advances}
use psic.Parser.Total.Values.{parse_value-Advances}
use psic.Parser.Total.Commands.{parse_block-Advances}

parse_argument-Advances : Advances 1 parse_argument
unfolding parse_argument
parse_argument-Advances s h = then-Steps 1 0 s (parse_type-Advances s h) λ x a.
    finally-Steps 0 x.1 _ (weaken x.1 (expect_token_type-Advances identifier _ (cc) x.1 a.ends))

parse_separator-Advances : Advances 0 parse_separator
unfolding parse_separator
parse_separator-Advances s h =
    Ensures-if (not (check_token_type right_brace s) && check_token_type semicolon s)
      (λ _. finally-Steps 0 s _ (consume_token-Steps s h))
      λ _.
        Ensures-if
          (not (check_token_type right_brace s)
            && not (check_token_type identifier s || check_token_type special_register s))
          (λ _. raise_error-Steps 0 _ s) λ _. pure-Steps tt s h

parse_struct_declaration-Advances : Advances 1 parse_struct_declaration
unfolding parse_struct_declaration
parse_struct_declaration-Advances s h = then-Steps 1 0 s (parse_type-Advances s h) λ x a.
    then-Steps 0 0 x.1 (weaken x.1 (expect_token_type-Advances left_brace _ (cc) x.1 a.ends)) λ y b.
      then-Steps 0 0 y.1
        (while-Steps _ _ [] y.1
          (λ fields t e c.
            then-Steps 1 0 t (parse_argument-Advances t e)
              λ z d. finally-Steps 0 z.1 _ (parse_separator-Advances z.1 d.ends))
          b.ends)
        λ z d.
          finally-Steps 0 z.1 _
            (weaken z.1 (expect_token_type-Advances right_brace _ (cc) z.1 d.ends))

parse_arguments-Advances : Advances 0 parse_arguments
unfolding parse_arguments
parse_arguments-Advances s h =
    while-Steps _ _ [] s (λ args t e c. finally-Steps 1 t _ (parse_argument-Advances t e)) h

module _ (float_in_range : Text → Bool) where
  parse_func_declaration-Advances : Advances 1 (parse_func_declaration float_in_range)
  unfolding parse_func_declaration
  parse_func_declaration-Advances s h = then-Steps 1 0 s (parse_type-Advances s h) λ x a.
      then-Steps 0 0 x.1 (weaken x.1 (expect_token_type-Advances identifier _ (cc) x.1 a.ends))
        λ y b. then-Steps 0 0 y.1 (parse_arguments-Advances y.1 b.ends) λ z c.
          Ensures-if (check_token_type semicolon z.1)
            (λ _. finally-Steps 0 z.1 _ (consume_token-Steps z.1 c.ends))
            λ _. finally-Steps 0 z.1 _ (weaken z.1 (parse_block-Advances float_in_range z.1 c.ends))

  parse_initialized-Advances : (what : Text) → Advances 1 (parse_initialized float_in_range what)
  unfolding parse_initialized
  parse_initialized-Advances what s h =
      then-Steps 1 0 s (expect_token_type-Advances identifier _ (cc) s h) λ x a.
        then-Steps 0 0 x.1 (weaken x.1 (expect_token_type-Advances equals _ (cc) x.1 a.ends)) λ y b.
          then-Steps 0 0 y.1 (weaken y.1 (parse_value-Advances float_in_range y.1 b.ends)) λ z c.
            finally-Steps 0 z.1 _
              (weaken z.1 (expect_token_type-Advances semicolon _ (cc) z.1 c.ends))

  parse_glob_declaration-Advances : Advances 1 (parse_glob_declaration float_in_range)
  unfolding parse_glob_declaration
  parse_glob_declaration-Advances s h =
      then-Steps 1 0 s (parse_type-Advances s h)
        λ x a. finally-Steps 0 x.1 _ (weaken x.1 (parse_initialized-Advances _ x.1 a.ends))

  parse_const_declaration-Advances : Advances 1 (parse_const_declaration float_in_range)
  unfolding parse_const_declaration
  parse_const_declaration-Advances s h =
      then-Steps 1 0 s (parse_type-Advances s h)
        λ x a. finally-Steps 0 x.1 _ (weaken x.1 (parse_initialized-Advances _ x.1 a.ends))

  parse_entry_declaration-Advances : Advances 1 (parse_entry_declaration float_in_range)
  unfolding parse_entry_declaration
  parse_entry_declaration-Advances s h =
      then-Steps 1 0 s (expect_token_type-Advances identifier _ (cc) s h)
        λ x a. finally-Steps 0 x.1 _ (weaken x.1 (parse_block-Advances float_in_range x.1 a.ends))

  parse_decl-Advances : Advances 1 (parse_decl float_in_range)
  unfolding parse_decl
  parse_decl-Advances s h =
      let step = consume_token-Steps s h in
      Ensures-if (check_keyword "entry" s)
        (λ _. then-Steps 0 1 s step λ x a. parse_entry_declaration-Advances x.1 a.ends)
        λ _.
          Ensures-if (check_keyword "struct" s)
            (λ _. then-Steps 0 1 s step λ x a. parse_struct_declaration-Advances x.1 a.ends)
            λ _.
              Ensures-if (check_keyword "func" s)
                (λ _. then-Steps 0 1 s step λ x a. parse_func_declaration-Advances x.1 a.ends)
                λ _.
                  Ensures-if (check_keyword "const" s)
                    (λ _. then-Steps 0 1 s step λ x a. parse_const_declaration-Advances x.1 a.ends)
                    λ _. parse_glob_declaration-Advances s h

  pub parse_program-Advances : Advances 0 (parse_program float_in_range)
  unfolding parse_program parse_declaration
  parse_program-Advances s h =
      while-Steps _ _ [] s
        (λ decls t e c. finally-Steps 1 t _ (finally-Steps 1 t _ (parse_decl-Advances t e))) h

IsStream-Ends :
    (t : Token) (ts : List Token) → IsStream (t ∷ ts) → Ends (record { here = t; ahead = ts })
IsStream-Ends t [] (last e) = e
IsStream-Ends t [] (before n r) = elim r [ ]
IsStream-Ends t (u ∷ us) (before n r) = IsStream-Ends u us r

-- On tokens that end in the end-of-file token the parser returns a program or throws: no loop and
-- no recursion of it runs on.
pub parse-Settles :
    (float_in_range : Text → Bool) (ts : List Token)
    → IsStream ts
    → Ensures (λ _. Unit {0}) (parse float_in_range ts)
unfolding parse
parse-Settles float_in_range [] h = holds tt
parse-Settles float_in_range (t ∷ ts) h =
    Ensures-bind (parse_program-Advances float_in_range _ (IsStream-Ends t ts h)) λ r _. holds tt
