-- ===== src/Lib.antt =====
-- psic compiles the PSI language to LLVM IR and object code. A source goes through the lexer, the
-- parser, the validation and the code generation; a driver resolves the target and runs them, and
-- every pass reports its errors as diagnostics.
--
-- Which file models which part:
--   Prelude.antt, Prelude/: native numbers with Boolean tests, lists measured by them, integers, and
--     texts as lists of bytes; the other files take these names from it.
--   Source.antt: SourceLocation and LocatedSourceError of src/ast.hpp. `Result` is what a pass
--     returns: a value (`ok`), a thrown error with its place (`failed`), or `out_of_fuel`, which the
--     program does not have. `Ensures` is the postcondition on such a run that also excludes
--     `out_of_fuel`.
--   Lexer.antt, Lexer/: src/lexer.hpp and src/lexer.cpp. Token, Chars (isDigitChar to
--     utf8SequenceLength), Cursor (readChar and the line and column counters), Read (readIdentifier,
--     readNumber, readString, readSpecialToken), Skip (skipWhitespaceAndComments) and Tokenize
--     (tokenize). A function of the lexer takes the bytes still to be read and the cursor, and returns
--     what it read, the rest and the cursor there. Grammar and Gaps describe tokens and the text
--     between them without the reader; Consumes, Progress and Shapes are about single tokens, Sound
--     and Stream about the whole list, Lines and Columns about the counters.
--   Ast.antt: the nodes of src/ast.hpp.
--   Parser.antt, Parser/: src/parser.hpp and src/parser.cpp. State (the token position, errors and
--     loops), Names, Literal (parseSignedIntegerLiteral, decodeStringEscapes), Types (parseType,
--     parseRegister, expectIndexNumber), Value, Command and Declaration. The position in the token
--     vector is the current token and the ones ahead; consumeToken stays on the last one. Progress
--     and Total/ are about its loops, Numbers, Decimal, Escapes, IndexNumbers and IndexErrors are about
--     literals, Print and ValuePrint give the tokens of a register, a type and a value, and RoundTrip,
--     TypeRoundTrip, ValueItems, ValueSteps and ValueRoundTrip read them back.
--   Frontend.antt, Frontend/: Parse is the lexer and the parser in sequence as src/compiler.cpp runs
--     them, Entry its validateJitEntrySignature, SourceLine its sourceLineAt; Total, Strings, Callable
--     and Lines hold theorems.
--   Target.antt, Target/: src/target_model.hpp (Model, Features), src/target.hpp (Groups),
--     src/target.cpp (Pick) and resolveTarget of src/compiler.cpp (Resolve); LastMention, Named,
--     Supported and Resolved hold theorems.
--   Logging.antt, Logging/: src/logging.hpp and src/logging.cpp. State (the thread-local variables, the
--     vectors that a sink points to, the error stream), Report (the log functions and the stream) and
--     Scopes (the two scopes, and code that uses them as blocks); Restore and Capture hold theorems.
--   Validation.antt, Validation/: src/validation.cpp. A check is a value or a thrown runtime_error
--     (Checked); a map or a set of names is an association list or a list (Environment). Types, Command,
--     Infer, InferCommand, Operands, Primary, Casts and Convert are the functions in front of
--     validateBlock; Aliases, Flow and Closure are its analysis of aliases, a round being recursion on
--     the commands with the locals visible at each; System, Access, Atomics, Plain and Block are its
--     checks of a command, in their order; Cycles and Program are the rest of the file.
--     validate_commands and validate_bodies hand on activeLocation, which says where an error that is
--     thrown is located. Missing, Grows, FlowSteps, ClosureSteps, ClosureEnds, ClosureErrors, Fixed,
--     StorageFixed, Behind and Dangling are about the analysis, Acyclic, Visits, VisitEnds and CycleFree
--     about the structs, PowerOfTwo, TypeRules, Typing, CastRules and Widths about types, and Trace,
--     Accepted, Names, ProgramRules, BlockPlaces, Places and Misplaced about runs of the pass.
--   Driver.antt, Driver/: compile, ModuleBuilder and buildJit of src/compiler.cpp, the options and
--     results of include/psic/compiler.hpp, and defaultTriple of src/codegen_module.cpp. Options
--     (validateOptions), DefaultTriple, Compile (compile: an `Attempt` is an end of its try block, and
--     `caught` its handlers and what comes behind them), Builder, and Jit (buildJit, which prepareJit and
--     execute call with the flag `prepare`). The calls of the code generation are the record Backend, and
--     those of the JIT JitBackend: a call has a result or an exception, and the run of the logging that
--     it makes before. The vector that a result takes is `v`, which `compile` empties first. Inside,
--     Attempts and Contract are about the log and the result of compile, Passes and Rejects about the
--     passes in it, Triples, Execute, Runs and Pieces about defaultTriple, buildJit and ModuleBuilder.
--     An `Option` is none only where a pass runs out of fuel, or where `executeJit` does not end, since
--     native code may loop (`runs_on`).
--
-- Bounds and fuel: a loop of the lexer is recursion on the text where each round reads one byte, and
-- otherwise on fuel that starts one above the number of bytes left; every round of the parser's loops
-- consumes a token, so their fuel is one above the number of tokens ahead, and the nesting of values
-- has as much. Lines and columns are `int` in the program and natural numbers here. Bytes are natural
-- numbers; a theorem that needs well-formed UTF-8 says so. The rounds of the analysis of aliases and the
-- search for cycles of structs run on fuel, five for each register name of the block and one for each
-- struct; an alias set never gets another name, and a path never the same struct twice. The levels of
-- pointers and the alignment are `int` in the program and natural numbers here.
--
-- Parameters: whether a stream reads the spelling of a decimal number into a finite double
-- (`float_in_range`; a double is named by its spelling), what llvm::Triple says of a normalized
-- target triple (`triple`), and the code generation and the JIT (Backend, JitBackend). The fields of
-- Backend that end in -Undisturbed are hypotheses on it: it opens no capture scope, sets no sink, and
-- resets the count of errors at the start of compileProgram only, as the code generation does.
--
-- Not modelled: the rest of the code generation (src/codegen*.cpp), which builds IR through LLVM, and
-- the C interface and the command line, which call the driver. Memory that runs out (std::bad_alloc,
-- which the driver lets through), mutexes and the caches around LLVM are not modelled either. The owned
-- values of the parser are inlined in the tree. An empty token vector, which the lexer never returns, is
-- undefined in the program and an empty program here. An operand that is not there is the null value in
-- the validation, whose checks before exclude that it is read.
pub mod Prelude
pub mod Source
pub mod Lexer
pub mod Ast
pub mod Parser
pub mod Frontend
pub mod Target
pub mod Validation
pub mod Driver
pub mod Logging
