-- ===== src/Driver/DefaultTriple.antt =====
-- src/codegen_module.cpp: `defaultTriple`, the target triple of a pair that no triple is given for.
use psic.Prelude.{◌++◌, String, Text, codes, Option, none, some}
use psic.Target.Model.{
  Architecture, x86, x86_64, aarch64, arm, wasm32, wasm64, riscv32, riscv64, ppc32, ppc64, ppc64le,
  mips, mipsel, mips64, mips64el, loongarch64, systemz, OperatingSystem, linux, darwin, windows,
  free_standing, wasi,
}
use psic.Target.Pick.{Checked, value, runtime_error}

abbrev web_triple : String → OperatingSystem → Checked Text
web_triple name wasi = value (codes name ++ codes "-unknown-wasi")
web_triple name free_standing = value (codes name ++ codes "-unknown-unknown")
web_triple name _ = runtime_error (codes "WebAssembly requires OS none or wasi")

-- The architectures that run on Linux or on no operating system; `abi` is that of Linux.
abbrev embedded_triple : String → String → OperatingSystem → Checked Text
embedded_triple cpu abi linux = value (codes cpu ++ codes abi)
embedded_triple cpu abi free_standing = value (codes cpu ++ codes "-unknown-none")
embedded_triple cpu abi wasi = runtime_error (codes "WASI requires WebAssembly")
embedded_triple cpu abi _ =
    runtime_error (codes "this architecture supports Linux or freestanding targets")

abbrev gnu : String
gnu = "-unknown-linux-gnu"

abbrev linux_triple : Architecture → Option String
linux_triple x86_64 = some "x86_64-unknown-linux-gnu"
linux_triple x86 = some "i386-unknown-linux-gnu"
linux_triple aarch64 = some "aarch64-unknown-linux-gnu"
linux_triple arm = some "armv7-unknown-linux-gnueabihf"
linux_triple _ = none

abbrev darwin_triple : Architecture → Option String
darwin_triple x86_64 = some "x86_64-apple-macosx"
darwin_triple x86 = some "i386-apple-macosx"
darwin_triple aarch64 = some "arm64-apple-macosx"
darwin_triple arm = some "armv7-apple-ios"
darwin_triple _ = none

abbrev windows_triple : Architecture → Option String
windows_triple x86_64 = some "x86_64-pc-windows-msvc"
windows_triple x86 = some "i686-pc-windows-msvc"
windows_triple aarch64 = some "aarch64-pc-windows-msvc"
windows_triple arm = some "thumbv7-pc-windows-msvc"
windows_triple _ = none

abbrev bare_triple : Architecture → Option String
bare_triple x86_64 = some "x86_64-unknown-none"
bare_triple x86 = some "i386-unknown-none"
bare_triple aarch64 = some "aarch64-unknown-none"
bare_triple arm = some "armv7-unknown-none-eabihf"
bare_triple _ = none

abbrev or_unsupported : Option String → Checked Text
or_unsupported (some triple) = value (codes triple)
or_unsupported none = runtime_error (codes "unsupported architecture/OS combination")

-- The two `switch` statements on the operating system and the architecture.
abbrev general_triple : OperatingSystem → Architecture → Checked Text
general_triple linux a = or_unsupported (linux_triple a)
general_triple darwin a = or_unsupported (darwin_triple a)
general_triple windows a = or_unsupported (windows_triple a)
general_triple free_standing a = or_unsupported (bare_triple a)
general_triple wasi a = runtime_error (codes "WASI requires WebAssembly")
general_triple _ a = or_unsupported none

unfoldable pub default_triple : Architecture → OperatingSystem → Checked Text
default_triple wasm32 os = web_triple "wasm32" os
default_triple wasm64 os = web_triple "wasm64" os
default_triple riscv32 os = embedded_triple "riscv32" gnu os
default_triple riscv64 os = embedded_triple "riscv64" gnu os
default_triple ppc32 os = embedded_triple "powerpc" gnu os
default_triple ppc64 os = embedded_triple "powerpc64" gnu os
default_triple ppc64le os = embedded_triple "powerpc64le" gnu os
default_triple mips os = embedded_triple "mips" gnu os
default_triple mipsel os = embedded_triple "mipsel" gnu os
default_triple mips64 os = embedded_triple "mips64" "-unknown-linux-gnuabi64" os
default_triple mips64el os = embedded_triple "mips64el" "-unknown-linux-gnuabi64" os
default_triple loongarch64 os = embedded_triple "loongarch64" gnu os
default_triple systemz os = embedded_triple "s390x" gnu os
default_triple a os = general_triple os a
