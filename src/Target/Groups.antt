-- ===== src/Target/Groups.antt =====
-- src/target.hpp: the names of the architectures and of the operating systems. The descriptions
-- for the help text are left out.
use psic.Prelude.{String, List, [], ◌∷◌, if◌then◌else◌}
use psic.Target.Model.{
  Architecture, x86, x86_64, aarch64, arm, wasm32, wasm64, riscv32, riscv64, ppc32, ppc64, ppc64le,
  mips, mipsel, mips64, mips64el, loongarch64, systemz, OperatingSystem, linux, darwin, windows,
  free_standing, wasi, same_architecture,
}

pub data ArchitectureProfileFamily : Type 0 where
  general_purpose linux_or_freestanding web_assembly generic_llvm : ArchitectureProfileFamily

-- `ArchitectureNameGroup` and `OperatingSystemNameGroup`, over the enumeration that is named.
pub record NameGroup (A : Type 0) : Type 0 where
  pub value : A
  pub canonical : String
  pub aliases : List String

pub record ArchitectureNameGroup : Type 0 where
  pub names : NameGroup Architecture
  pub profile_family : ArchitectureProfileFamily

abbrev group : {A : Type 0} → A → String → List String → NameGroup A
group value canonical aliases = record { value = value; canonical = canonical; aliases = aliases }

abbrev row : Architecture → String → List String → ArchitectureProfileFamily → ArchitectureNameGroup
row a canonical aliases family = record {
  names = group a canonical aliases;
  profile_family = family;
}

abbrev pub architecture_name_groups : List ArchitectureNameGroup
architecture_name_groups =
    row x86 "x86" ("i386" ∷ "i486" ∷ "i586" ∷ "i686" ∷ []) general_purpose
    ∷ row x86_64 "x86_64" ("x86-64" ∷ "amd64" ∷ []) general_purpose
    ∷ row aarch64 "aarch64" ("arm64" ∷ []) general_purpose
    ∷ row arm "arm" ("armv7" ∷ "armv7a" ∷ "thumbv7" ∷ "thumbv7a" ∷ []) general_purpose
    ∷ row wasm32 "wasm32" ("wasm" ∷ []) web_assembly
    ∷ row wasm64 "wasm64" [] web_assembly
    ∷ row riscv32 "riscv32" [] linux_or_freestanding
    ∷ row riscv64 "riscv64" [] linux_or_freestanding
    ∷ row ppc32 "ppc" ("powerpc" ∷ []) linux_or_freestanding
    ∷ row ppc64 "ppc64" ("powerpc64" ∷ []) linux_or_freestanding
    ∷ row ppc64le "ppc64le" ("powerpc64le" ∷ []) linux_or_freestanding
    ∷ row mips "mips" [] linux_or_freestanding
    ∷ row mipsel "mipsel" [] linux_or_freestanding
    ∷ row mips64 "mips64" [] linux_or_freestanding
    ∷ row mips64el "mips64el" [] linux_or_freestanding
    ∷ row loongarch64 "loongarch64" [] linux_or_freestanding
    ∷ row systemz "s390x" ("systemz" ∷ []) linux_or_freestanding
    ∷ []

abbrev pub operating_system_name_groups : List (NameGroup OperatingSystem)
operating_system_name_groups =
    group linux "linux" []
    ∷ group darwin "darwin" ("macos" ∷ "macosx" ∷ [])
    ∷ group windows "windows" ("win32" ∷ [])
    ∷ group wasi "wasi" []
    ∷ group free_standing "none" ("freestanding" ∷ "bare-metal" ∷ [])
    ∷ []

abbrev family_in : List ArchitectureNameGroup → Architecture → ArchitectureProfileFamily
family_in [] a = generic_llvm
family_in (g ∷ gs) a =
    if same_architecture g.names.value a then g.profile_family else family_in gs a

unfoldable pub architecture_profile_family : Architecture → ArchitectureProfileFamily
unfolding same_architecture
architecture_profile_family = family_in architecture_name_groups
