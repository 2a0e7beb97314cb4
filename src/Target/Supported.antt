-- ===== src/Target/Supported.antt =====
-- What `resolveTarget` of src/compiler.cpp accepts, against a table of the supported pairs, and the
-- system calls of src/target_model.hpp.
use psic.Prelude.{◌<◌, ◌≡◌, ◌↔◌, refl, Bool, true, false, ◌&&◌, not, arith}
use psic.Target.Model.{
  Architecture, x86, x86_64, aarch64, arm, wasm32, wasm64, riscv32, riscv64, ppc32, ppc64, ppc64le,
  mips, mipsel, mips64, mips64el, loongarch64, systemz, llvm_generic, OperatingSystem, linux,
  darwin, windows, free_standing, wasi, target_specific, same_os, supports_linux_syscall,
  linux_syscall_word_bits,
}
use psic.Target.Groups.{
  architecture_profile_family, general_purpose, web_assembly, linux_or_freestanding, generic_llvm,
}
use psic.Target.Resolve.{valid_pair, is_web_assembly}

-- The operating systems of each architecture; the flag says that there is a target triple.
abbrev pub desktop : Bool → OperatingSystem → Bool
desktop has_triple wasi = false
desktop has_triple target_specific = has_triple
desktop has_triple _ = true

abbrev pub web : Bool → OperatingSystem → Bool
web has_triple free_standing = true
web has_triple wasi = true
web has_triple target_specific = has_triple
web has_triple _ = false

abbrev pub embedded : Bool → OperatingSystem → Bool
embedded has_triple linux = true
embedded has_triple free_standing = true
embedded has_triple target_specific = has_triple
embedded has_triple _ = false

abbrev pub any : Bool → OperatingSystem → Bool
any has_triple os = has_triple && not (same_os os wasi)

abbrev pub supported : Bool → Architecture → OperatingSystem → Bool
supported has_triple x86 os = desktop has_triple os
supported has_triple x86_64 os = desktop has_triple os
supported has_triple aarch64 os = desktop has_triple os
supported has_triple arm os = desktop has_triple os
supported has_triple wasm32 os = web has_triple os
supported has_triple wasm64 os = web has_triple os
supported has_triple llvm_generic os = any has_triple os
supported has_triple _ os = embedded has_triple os

desktop-valid_pair :
    (has_triple : Bool) (os : OperatingSystem)
    → valid_pair has_triple general_purpose os ≡ desktop has_triple os
unfolding valid_pair same_os
desktop-valid_pair true linux = refl
desktop-valid_pair true darwin = refl
desktop-valid_pair true windows = refl
desktop-valid_pair true free_standing = refl
desktop-valid_pair true wasi = refl
desktop-valid_pair true target_specific = refl
desktop-valid_pair false linux = refl
desktop-valid_pair false darwin = refl
desktop-valid_pair false windows = refl
desktop-valid_pair false free_standing = refl
desktop-valid_pair false wasi = refl
desktop-valid_pair false target_specific = refl

web-valid_pair :
    (has_triple : Bool) (os : OperatingSystem)
    → valid_pair has_triple web_assembly os ≡ web has_triple os
unfolding valid_pair same_os
web-valid_pair true linux = refl
web-valid_pair true darwin = refl
web-valid_pair true windows = refl
web-valid_pair true free_standing = refl
web-valid_pair true wasi = refl
web-valid_pair true target_specific = refl
web-valid_pair false linux = refl
web-valid_pair false darwin = refl
web-valid_pair false windows = refl
web-valid_pair false free_standing = refl
web-valid_pair false wasi = refl
web-valid_pair false target_specific = refl

embedded-valid_pair :
    (has_triple : Bool) (os : OperatingSystem)
    → valid_pair has_triple linux_or_freestanding os ≡ embedded has_triple os
unfolding valid_pair same_os
embedded-valid_pair true linux = refl
embedded-valid_pair true darwin = refl
embedded-valid_pair true windows = refl
embedded-valid_pair true free_standing = refl
embedded-valid_pair true wasi = refl
embedded-valid_pair true target_specific = refl
embedded-valid_pair false linux = refl
embedded-valid_pair false darwin = refl
embedded-valid_pair false windows = refl
embedded-valid_pair false free_standing = refl
embedded-valid_pair false wasi = refl
embedded-valid_pair false target_specific = refl

any-valid_pair :
    (has_triple : Bool) (os : OperatingSystem)
    → valid_pair has_triple generic_llvm os ≡ any has_triple os
unfolding valid_pair same_os
any-valid_pair true linux = refl
any-valid_pair true darwin = refl
any-valid_pair true windows = refl
any-valid_pair true free_standing = refl
any-valid_pair true wasi = refl
any-valid_pair true target_specific = refl
any-valid_pair false linux = refl
any-valid_pair false darwin = refl
any-valid_pair false windows = refl
any-valid_pair false free_standing = refl
any-valid_pair false wasi = refl
any-valid_pair false target_specific = refl

pub valid_pair-supported :
    (has_triple : Bool) (a : Architecture) (os : OperatingSystem)
    → valid_pair has_triple (architecture_profile_family a) os ≡ supported has_triple a os
unfolding architecture_profile_family
valid_pair-supported has_triple x86 os = desktop-valid_pair has_triple os
valid_pair-supported has_triple x86_64 os = desktop-valid_pair has_triple os
valid_pair-supported has_triple aarch64 os = desktop-valid_pair has_triple os
valid_pair-supported has_triple arm os = desktop-valid_pair has_triple os
valid_pair-supported has_triple wasm32 os = web-valid_pair has_triple os
valid_pair-supported has_triple wasm64 os = web-valid_pair has_triple os
valid_pair-supported has_triple riscv32 os = embedded-valid_pair has_triple os
valid_pair-supported has_triple riscv64 os = embedded-valid_pair has_triple os
valid_pair-supported has_triple ppc32 os = embedded-valid_pair has_triple os
valid_pair-supported has_triple ppc64 os = embedded-valid_pair has_triple os
valid_pair-supported has_triple ppc64le os = embedded-valid_pair has_triple os
valid_pair-supported has_triple mips os = embedded-valid_pair has_triple os
valid_pair-supported has_triple mipsel os = embedded-valid_pair has_triple os
valid_pair-supported has_triple mips64 os = embedded-valid_pair has_triple os
valid_pair-supported has_triple mips64el os = embedded-valid_pair has_triple os
valid_pair-supported has_triple loongarch64 os = embedded-valid_pair has_triple os
valid_pair-supported has_triple systemz os = embedded-valid_pair has_triple os
valid_pair-supported has_triple llvm_generic os = any-valid_pair has_triple os

abbrev pub is_wasm : Architecture → Bool
is_wasm wasm32 = true
is_wasm wasm64 = true
is_wasm _ = false

pub is_web_assembly-is_wasm :
    (a : Architecture) → is_web_assembly (architecture_profile_family a) ≡ is_wasm a
unfolding architecture_profile_family
is_web_assembly-is_wasm x86 = refl
is_web_assembly-is_wasm x86_64 = refl
is_web_assembly-is_wasm aarch64 = refl
is_web_assembly-is_wasm arm = refl
is_web_assembly-is_wasm wasm32 = refl
is_web_assembly-is_wasm wasm64 = refl
is_web_assembly-is_wasm riscv32 = refl
is_web_assembly-is_wasm riscv64 = refl
is_web_assembly-is_wasm ppc32 = refl
is_web_assembly-is_wasm ppc64 = refl
is_web_assembly-is_wasm ppc64le = refl
is_web_assembly-is_wasm mips = refl
is_web_assembly-is_wasm mipsel = refl
is_web_assembly-is_wasm mips64 = refl
is_web_assembly-is_wasm mips64el = refl
is_web_assembly-is_wasm loongarch64 = refl
is_web_assembly-is_wasm systemz = refl
is_web_assembly-is_wasm llvm_generic = refl

-- The system calls of Linux are supported on exactly the architectures whose word size for them is
-- not 0.
pub supports_linux_syscall_iff :
    (a : Architecture) → (supports_linux_syscall a ≡ true) ↔ (0 < linux_syscall_word_bits a)
unfolding supports_linux_syscall linux_syscall_word_bits
supports_linux_syscall_iff x86 = (λ _. omega arith, λ h. refl)
supports_linux_syscall_iff x86_64 = (λ _. omega arith, λ h. refl)
supports_linux_syscall_iff aarch64 = (λ _. omega arith, λ h. refl)
supports_linux_syscall_iff arm = (λ _. omega arith, λ h. refl)
supports_linux_syscall_iff wasm32 = (λ h. absurd (cc), λ h. absurd (omega arith))
supports_linux_syscall_iff wasm64 = (λ h. absurd (cc), λ h. absurd (omega arith))
supports_linux_syscall_iff riscv32 = (λ _. omega arith, λ h. refl)
supports_linux_syscall_iff riscv64 = (λ _. omega arith, λ h. refl)
supports_linux_syscall_iff ppc32 = (λ h. absurd (cc), λ h. absurd (omega arith))
supports_linux_syscall_iff ppc64 = (λ h. absurd (cc), λ h. absurd (omega arith))
supports_linux_syscall_iff ppc64le = (λ h. absurd (cc), λ h. absurd (omega arith))
supports_linux_syscall_iff mips = (λ h. absurd (cc), λ h. absurd (omega arith))
supports_linux_syscall_iff mipsel = (λ h. absurd (cc), λ h. absurd (omega arith))
supports_linux_syscall_iff mips64 = (λ h. absurd (cc), λ h. absurd (omega arith))
supports_linux_syscall_iff mips64el = (λ h. absurd (cc), λ h. absurd (omega arith))
supports_linux_syscall_iff loongarch64 = (λ h. absurd (cc), λ h. absurd (omega arith))
supports_linux_syscall_iff systemz = (λ h. absurd (cc), λ h. absurd (omega arith))
supports_linux_syscall_iff llvm_generic = (λ h. absurd (cc), λ h. absurd (omega arith))
