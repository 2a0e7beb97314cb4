-- ===== src/Driver/Samples.antt =====
-- A source, a code generation and a JIT for the runs of the driver.
use psic.Prelude.{pos, Bool, true, false, Text, [], ◌∷◌, codes, none, some}
use psic.Ast.{TypeNode, CommandNode, number_int, to_register, entry, ProgramNode}
use psic.Target.Model.{x86_64, linux}
use psic.Target.Pick.{Triple, triple_x86_64, value}
use psic.Target.Resolve.{TargetOptions}
use psic.Validation.Command.{PointerModel}
use psic.Logging.State.{Log}
use psic.Logging.Report.{warning_stream}
use psic.Logging.Scopes.{Run, stop, call, stream}
use psic.Driver.Options.{CompileOptions, o2, llvm_ir}
use psic.Driver.Backend.{Backend}
use psic.Driver.Compile.{Selected}
use psic.Driver.Jit.{JitBackend, JitOptions, executed}

abbrev pub any_float : Text → Bool
any_float _ = true

abbrev pub source : Text
source = codes "entry main {\ni32 x = 1;\n}\n"

-- A semicolon is missing.
abbrev pub broken_source : Text
broken_source = codes "entry main {\ni32 x = 1\n}\n"

abbrev i32 : TypeNode
i32 = record {
  base_name = codes "i32";
  pointer_level = 0;
  alignment = none;
  is_primitive = true;
  is_view = false;
  is_const = false;
  is_volatile = false;
}

abbrev declares_x : CommandNode
declares_x = record {
  location = record { line = 2; column = 1 };
  is_empty = false;
  volatile_access = false;
  declared_type = some i32;
  target = to_register (record { name = codes "x"; accessors = [] });
  instruction = none;
  values = number_int (pos 1) ∷ [];
}

abbrev pub program : ProgramNode
program =
    record {
      location = record { line = 1; column = 1 };
      decl = entry (codes "main") (declares_x ∷ []);
    }
    ∷ []

abbrev pub desktop : PointerModel
desktop = record {
  bits = 64;
  integral = true;
  architecture = x86_64;
  operating_system = linux;
  effective_target_features = [];
}

-- Every triple is one of a 64-bit desktop with Linux.
abbrev pub on_linux : Text → Triple
on_linux _ = record {
  arch = triple_x86_64;
  os = record {
    is_linux = true;
    is_darwin = false;
    is_windows = false;
    is_wasi = false;
    is_unknown = false;
    name = codes "linux";
  };
}

abbrev pub desktop_triple : Text
desktop_triple = codes "x86_64-unknown-linux-gnu"

abbrev pub no_target : TargetOptions
no_target = record { architecture = []; operating_system = []; target_triple = [] }

abbrev pub options_for : TargetOptions → CompileOptions
options_for target = record {
  module_name = codes "module";
  source_name = codes "sample.psi";
  target = target;
  target_cpu = [];
  target_features = [];
  optimization = o2;
  output = llvm_ir;
}

abbrev pub desktop_options : CompileOptions
desktop_options = options_for (record no_target { target_triple = desktop_triple })

abbrev pub desktop_selected : Selected
desktop_selected = record {
  target = record { architecture = x86_64; operating_system = linux };
  triple = desktop_triple;
}

abbrev pub warns : Run
warns = call (stream warning_stream (codes "unused variable\n")) stop

-- It warns, and gives the name of the module as its code.
abbrev pub backend : Backend
backend = record {
  normalize_target_triple = λ t. t;
  target_pointer_model = λ a os t s. value desktop;
  compile_program = λ name p a os t s. record { reports = warns; outcome = value name };
  optimize_ir =
      λ ir level s. record { reports = stop; outcome = value (record { text = ir; error = [] }) };
  compile_to_object_memory = λ ir t level s. record {
    reports = stop;
    outcome = value (record { emitted = true; bytes = ir; error = [] });
  };
  compile_program-Undisturbed =
      λ v name p a os t s. record { elsewhere = tt; sink = (tt, tt); count = (tt, tt) };
  optimize_ir-Undisturbed = λ v ir level s. record { elsewhere = tt; sink = tt; count = tt };
  compile_to_object_memory-Undisturbed =
      λ v ir t level s. record { elsewhere = tt; sink = tt; count = tt };
}

abbrev pub jit : JitBackend
jit = record {
  native_target_triple = desktop_triple;
  validate_jit_subtarget = λ t s. none;
  reports = λ ir name symbols s prepare. stop;
  execute_jit = λ ir name symbols s prepare. executed (pos 7) none;
}

abbrev pub jit_options : JitOptions
jit_options = record {
  compile = options_for no_target;
  entry = codes "main";
  external_functions = [];
}

abbrev pub fresh : Log
fresh = record {
  verbose = false;
  errors = 0;
  sink = none;
  line = 0;
  column = 0;
  vectors = λ _. [];
  output = [];
}
