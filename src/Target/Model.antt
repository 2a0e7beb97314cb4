-- ===== src/Target/Model.antt =====
-- src/target_model.hpp: the architectures and operating systems, and what an architecture offers.
use psic.Prelude.{◌≡◌, ◌↔◌, refl, ℕ, Bool, true, false, ◌||◌, Text, String, List, contains, ◌∷◌, []}

pub data Architecture : Type 0 where
  x86 x86_64 aarch64 arm wasm32 wasm64 riscv32 riscv64 ppc32 : Architecture
  ppc64 ppc64le mips mipsel mips64 mips64el loongarch64 systemz llvm_generic : Architecture

pub data OperatingSystem : Type 0 where
  linux darwin windows free_standing wasi target_specific : OperatingSystem

pub Architecture-discrete : Discrete Architecture
Architecture-discrete = hlevel

pub OperatingSystem-discrete : Discrete OperatingSystem
OperatingSystem-discrete = hlevel

unfoldable pub same_architecture : Architecture → Architecture → Bool
unfolding Architecture-discrete
same_architecture a b = elim (Architecture-discrete a b) [ yes _ ↦ true | no _ ↦ false ]

unfoldable pub same_os : OperatingSystem → OperatingSystem → Bool
unfolding OperatingSystem-discrete
same_os a b = elim (OperatingSystem-discrete a b) [ yes _ ↦ true | no _ ↦ false ]

same-yes :
    {A : Type 0} {a b : A} (d : Dec (a ≡ b))
    → ((elim d [ yes _ ↦ true | no _ ↦ false ]) ≡ true) ↔ (a ≡ b)
same-yes (yes e) = (λ _. e, λ _. refl)
same-yes (no n) = (λ h. absurd (cc), λ e. absurd (n e))

pub same_os_iff : (a b : OperatingSystem) → (same_os a b ≡ true) ↔ (a ≡ b)
unfolding same_os
same_os_iff a b = same-yes (OperatingSystem-discrete a b)

abbrev x86_names : List String
x86_names =
    "pause" ∷ "lfence" ∷ "sfence" ∷ "mfence" ∷ "hlt" ∷ "cli" ∷ "sti" ∷ "inb" ∷ "outb" ∷ "rdtsc"
    ∷ "inw" ∷ "inl" ∷ "outw" ∷ "outl" ∷ []

abbrev riscv_names : List String
riscv_names = "ecall" ∷ "ebreak" ∷ "wfi" ∷ "fence_i" ∷ "fence_io" ∷ "sfence_vma" ∷ []

abbrev ppc_names : List String
ppc_names = "sync" ∷ "lwsync" ∷ "isync" ∷ "eieio" ∷ []

-- The names that each case of the switch compares with.
abbrev pub native_names : Architecture → List String
native_names x86 = x86_names
native_names x86_64 = x86_names
native_names arm = "yield" ∷ "dmb" ∷ "dsb" ∷ "isb" ∷ "wfi" ∷ "wfe" ∷ "sev" ∷ []
native_names aarch64 = "yield" ∷ "dmb" ∷ "dsb" ∷ "isb" ∷ "wfi" ∷ "wfe" ∷ "sev" ∷ "sevl" ∷ []
native_names riscv32 = riscv_names
native_names riscv64 = riscv_names
native_names ppc32 = ppc_names
native_names ppc64 = ppc_names
native_names ppc64le = ppc_names
native_names mips = "sync" ∷ []
native_names mipsel = "sync" ∷ []
native_names mips64 = "sync" ∷ []
native_names mips64el = "sync" ∷ []
native_names loongarch64 = "dbar" ∷ "ibar" ∷ []
native_names systemz = "serialize" ∷ []
native_names wasm32 = []
native_names wasm64 = []
native_names llvm_generic = []

unfoldable pub supports_native_special_instruction : Architecture → Text → Bool
supports_native_special_instruction architecture name = contains (native_names architecture) name

unfoldable pub supports_linux_syscall : Architecture → Bool
unfolding same_architecture
supports_linux_syscall a =
    same_architecture a x86
    || same_architecture a x86_64
    || same_architecture a arm
    || same_architecture a aarch64
    || same_architecture a riscv32
    || same_architecture a riscv64

unfoldable pub linux_syscall_word_bits : Architecture → ℕ
linux_syscall_word_bits x86 = 32
linux_syscall_word_bits arm = 32
linux_syscall_word_bits riscv32 = 32
linux_syscall_word_bits x86_64 = 64
linux_syscall_word_bits aarch64 = 64
linux_syscall_word_bits riscv64 = 64
linux_syscall_word_bits _ = 0
