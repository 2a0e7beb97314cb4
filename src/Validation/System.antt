-- ===== src/Validation/System.antt =====
-- src/validation.cpp: the checks of `validateBlock` on the special instructions that reach the
-- machine, from `#asm` to `#fence.i`.
use psic.Prelude.{
  ℕ, ◌==◌, leb, Bool, true, false, not, ◌&&◌, ◌||◌, if◌then◌else◌, String, Text, contains, List, [],
  ◌∷◌, ◌++◌, codes, length, pos,
}
use psic.Ast.{TypeNode, ValueNode, number_int, CommandNode}
use psic.Parser.Decimal.{decimal}
use psic.Target.Pick.{Checked}
use psic.Target.Model.{
  Architecture, x86, x86_64, aarch64, riscv32, riscv64, linux, same_architecture, same_os,
  supports_native_special_instruction, supports_linux_syscall, linux_syscall_word_bits,
}
use psic.Target.Features.{target_feature_enabled}
use psic.Validation.Checked.{◌>>=◌, ◌>>◌, require, when, for_each, is, surrounded}
use psic.Validation.Types.{is_integer_type}
use psic.Validation.Environment.{Map, TypeEnvironment}
use psic.Validation.Command.{
  PointerModel, has_declared_type, declared, targets_register, has_no_target, operand, no_values,
  is_string,
}
use psic.Validation.Infer.{infer_value_type}
use psic.Validation.Primary.{is_integer}

abbrev pub one_of : List String → Text → Bool
one_of names name = contains names name

-- An integer literal from 0 to the limit.
abbrev pub is_literal_within : ℕ → ValueNode → Bool
is_literal_within limit (number_int (pos n)) = leb n limit
is_literal_within limit _ = false

abbrev pub sharp : Text → String → Text
sharp name rest = surrounded "'#" name rest

abbrev pub is_risc_v : Architecture → Bool
is_risc_v a = same_architecture a riscv32 || same_architecture a riscv64

abbrev pub is_x86 : Architecture → Bool
is_x86 a = same_architecture a x86 || same_architecture a x86_64

abbrev pub native_specials : List String
native_specials =
    "pause" ∷ "lfence" ∷ "sfence" ∷ "mfence" ∷ "hlt" ∷ "cli" ∷ "sti" ∷ "yield" ∷ "dmb" ∷ "dsb"
    ∷ "isb" ∷ "wfi" ∷ "wfe" ∷ "sev" ∷ "sevl" ∷ "ecall" ∷ "ebreak" ∷ "fence_i" ∷ "sync" ∷ "lwsync"
    ∷ "isync" ∷ "eieio" ∷ "dbar" ∷ "ibar" ∷ "serialize" ∷ []

-- A result of a declared integer type.
abbrev pub has_integer_result : CommandNode → Bool
has_integer_result command =
    targets_register command && has_declared_type command && is_integer_type (declared command)

unfoldable pub check_asm : CommandNode → Checked (Unit {0})
check_asm command = do
  require
      (leb 2 (length command.values)
        && is_string (operand command.values 0)
        && is_string (operand command.values 1))
      (codes "'#asm' requires assembly and constraint strings before its operands")
  require
      (has_no_target command && not (has_declared_type command)
        || targets_register command && has_declared_type command)
      (codes "'#asm' results require a typed destination; void assembly has no destination")

abbrev pub count_is : CommandNode → ℕ → Bool
count_is command n = length command.values == n

module _ (model : PointerModel) (locals : Map TypeNode) (env : TypeEnvironment) where
  -- The operand is a known integer, and a condition holds.
  abbrev pub integer_and : ValueNode → Bool → Text → Checked (Unit {0})
  integer_and v condition message =
      infer_value_type locals env v >>= λ t. require (is_integer t && condition) message

  unfoldable pub check_csr : Text → CommandNode → Checked (Unit {0})
  check_csr special command = do
    require (is_risc_v model.architecture) (sharp special "' requires a RISC-V target")
    require (target_feature_enabled model.effective_target_features (codes "zicsr"))
        (sharp special "' requires the Zicsr target feature")
    require (count_is command (if is special "csrr" then 1 else 2))
        (surrounded "incorrect operand count for '#" special "'")
    require
        (is_string (operand command.values 0) || is_literal_within 4095 (operand command.values 0))
        (codes "RISC-V CSR must be a name string or a 12-bit CSR number")
    if is special "csrr"
        then require (has_integer_result command)
            (codes "'#csrr' requires a declared integer result")
        else (do
          integer_and (operand command.values 1) true (codes "RISC-V CSR value must be an integer")
          require (has_no_target command) (codes "RISC-V CSR writes do not produce a result"))

  unfoldable pub check_system_register : Text → CommandNode → Checked (Unit {0})
  check_system_register special command = do
    require (same_architecture model.architecture aarch64)
        (sharp special "' requires an AArch64 target")
    require
        (count_is command (if is special "mrs" then 1 else 2)
          && is_string (operand command.values 0))
        (sharp special "' requires a system-register name string")
    if is special "mrs"
        then require (has_integer_result command)
            (codes "'#mrs' requires a declared integer result")
        else integer_and (operand command.values 1) (has_no_target command)
            (codes "'#msr' requires an integer value and no result")

  unfoldable pub check_model_register : Text → CommandNode → Checked (Unit {0})
  check_model_register special command = do
    require (is_x86 model.architecture) (sharp special "' requires an x86 target")
    require
        (count_is command (if is special "rdmsr" then 1 else 2)
          && is_literal_within 0xFFFF_FFFF (operand command.values 0))
        (sharp special "' requires a 32-bit MSR index")
    if is special "rdmsr"
        then require
            (targets_register command
              && has_declared_type command
              && is (declared command).base_name "u64")
            (codes "'#rdmsr' requires a u64 result")
        else integer_and (operand command.values 1) (has_no_target command)
            (codes "'#wrmsr' requires an integer value and no result")

  unfoldable pub check_risc_v_fence : Text → CommandNode → Checked (Unit {0})
  check_risc_v_fence special command = do
    require (is_risc_v model.architecture) (sharp special "' requires a RISC-V target")
    require (no_values command.values && has_no_target command)
        (sharp special "' takes no operands and produces no result")

  unfoldable pub check_interrupt : CommandNode → Checked (Unit {0})
  check_interrupt command = do
    require (is_x86 model.architecture) (codes "'#int' requires an x86 target")
    require (count_is command 1) (codes "'#int' requires one interrupt vector")
    require (is_literal_within 255 (operand command.values 0))
        (codes "'#int' vector must be an integer literal from 0 to 255")
    require (has_no_target command) (codes "'#int' does not produce a result")

  unfoldable pub check_undefined : CommandNode → Checked (Unit {0})
  check_undefined command = do
    require (is_x86 model.architecture) (codes "'#ud2' requires an x86 target")
    require (no_values command.values) (codes "'#ud2' takes no operands")
    require (has_no_target command) (codes "'#ud2' does not produce a result")

  unfoldable pub check_native : Text → CommandNode → Checked (Unit {0})
  check_native special command = do
    require (supports_native_special_instruction model.architecture special)
        (sharp special "' is unavailable on the selected target")
    require (no_values command.values) (sharp special "' takes no operands")
    require (has_no_target command) (sharp special "' does not produce a result")

  unfoldable pub check_time_stamp : CommandNode → Checked (Unit {0})
  check_time_stamp command = do
    require (supports_native_special_instruction model.architecture (codes "rdtsc"))
        (codes "'#rdtsc' is only available on x86 targets")
    require (no_values command.values) (codes "'#rdtsc' takes no operands")

  unfoldable pub check_syscall : CommandNode → Checked (Unit {0})
  check_syscall command =
      let word_bits = linux_syscall_word_bits model.architecture in
      let architecture = model.architecture in
      do
        require (same_os model.operating_system linux && supports_linux_syscall architecture)
            (codes "'#syscall' is available only for supported Linux target profiles")
        require (not (same_architecture architecture x86_64 && model.bits == 32))
            (codes "'#syscall' is not available for the Linux x32 ABI")
        require (model.bits == word_bits) (
            codes "'#syscall' requires the "
            ++ decimal word_bits
            ++ codes "-bit Linux ABI for this architecture; the selected profile has "
            ++ decimal model.bits
            ++ codes "-bit pointers")
        require (leb 1 (length command.values) && leb (length command.values) 7)
            (codes "'#syscall' requires a number and zero to six arguments")
        for_each (λ v. integer_and v true (codes "'#syscall' operands must be scalar integers"))
            command.values

  unfoldable pub check_system : Text → CommandNode → Checked (Unit {0})
  check_system special command = do
    when (is special "asm") (check_asm command)
    when (one_of ("csrr" ∷ "csrw" ∷ "csrs" ∷ "csrc" ∷ []) special) (check_csr special command)
    when (one_of ("mrs" ∷ "msr" ∷ []) special) (check_system_register special command)
    when (one_of ("rdmsr" ∷ "wrmsr" ∷ []) special) (check_model_register special command)
    when (one_of ("fence_io" ∷ "sfence_vma" ∷ []) special) (check_risc_v_fence special command)
    when (is special "int") (check_interrupt command)
    when (is special "ud2") (check_undefined command)
    when (contains native_specials special) (check_native special command)
    when (is special "rdtsc") (check_time_stamp command)
    when (is special "syscall") (check_syscall command)
    when (one_of ("inb" ∷ "outb" ∷ "inw" ∷ "inl" ∷ "outw" ∷ "outl" ∷ []) special) (
        require (supports_native_special_instruction model.architecture special)
          (sharp special "' requires an x86 target"))
    when (is special "fence_i") (
        require (target_feature_enabled model.effective_target_features (codes "zifencei"))
          (codes "'#fence.i' requires the Zifencei target feature"))
