-- ===== src/Frontend/Parse.antt =====
-- src/compiler.cpp: `Parser(Lexer(source).tokenize()).parseProgram()`.
use psic.Prelude.{Bool, Text}
use psic.Source.{Result, ◌>>=◌}
use psic.Ast.{ProgramNode}
use psic.Lexer.Tokenize.{tokenize}
use psic.Parser.Declaration.{parse}

unfoldable pub parse_source : (Text → Bool) → Text → Result ProgramNode
parse_source float_in_range source = tokenize source >>= parse float_in_range
