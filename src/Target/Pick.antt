-- ===== src/Target/Pick.antt =====
-- src/target.cpp: `pickArchitecture` and `pickOperatingSystem`. What `llvm::Triple` makes of a
-- target triple, once it is normalized, is a parameter.
use psic.Prelude.{
  Bool, true, false, ◌&&◌, ◌||◌, not, String, List, [], ◌∷◌, ◌++◌, Text, codes, text_eq, contains,
  if◌then◌else◌, map, Option, none, some,
}
use psic.Target.Model.{
  Architecture, x86, x86_64, aarch64, arm, wasm32, wasm64, riscv32, riscv64, ppc32, ppc64, ppc64le,
  mips, mipsel, mips64, mips64el, loongarch64, systemz, llvm_generic, OperatingSystem, linux,
  darwin, windows, free_standing, wasi, target_specific, same_architecture,
}
use psic.Target.Groups.{NameGroup, architecture_name_groups, operating_system_name_groups}

-- A value, or a thrown `std::runtime_error`.
pub data Checked (A : Type 0) : Type 0 where
  value : A → Checked A
  runtime_error : Text → Checked A

-- The architectures of `llvm::Triple` that the switch names, all the others, and the unknown one.
pub data TripleArch : Type 0 where
  triple_x86 triple_x86_64 triple_arm triple_thumb triple_aarch64 triple_wasm32 triple_wasm64 :
      TripleArch
  triple_riscv32 triple_riscv64 triple_ppc triple_ppc64 triple_ppc64le triple_mips triple_mipsel :
      TripleArch
  triple_mips64 triple_mips64el triple_loongarch64 triple_systemz other_arch unknown_arch :
      TripleArch

-- What the code asks a triple about its operating system.
pub record TripleOs : Type 0 where
  pub is_linux : Bool
  pub is_darwin : Bool
  pub is_windows : Bool
  pub is_wasi : Bool
  pub is_unknown : Bool
  pub name : Text

pub record Triple : Type 0 where
  pub arch : TripleArch
  pub os : TripleOs

abbrev pub is_empty : Text → Bool
is_empty [] = true
is_empty (_ ∷ _) = false

-- The loop over the groups: the value of the first one that has the name.
unfoldable pub lookup : {A : Type 0} → List (NameGroup A) → Text → Option A
unfolding contains codes text_eq
lookup [] name = none
lookup (g ∷ gs) name =
    if text_eq name (codes g.canonical) || contains g.aliases name
    then some g.value
    else lookup gs name

abbrev pub or_error : {A : Type 0} → Option A → Text → Checked A
or_error none message = runtime_error message
or_error (some a) message = value a

abbrev pub between_quotes : String → Text → Text
between_quotes before name = codes before ++ (name ++ codes "'")

unfoldable pub parse_architecture : Text → Checked Architecture
unfolding lookup
parse_architecture name =
    or_error (lookup (map (λ g. g.names) architecture_name_groups) name)
      (between_quotes "unknown architecture '" name)

unfoldable pub architecture_of_triple : Text → TripleArch → Checked Architecture
architecture_of_triple text triple_x86 = value x86
architecture_of_triple text triple_x86_64 = value x86_64
architecture_of_triple text triple_arm = value arm
architecture_of_triple text triple_thumb = value arm
architecture_of_triple text triple_aarch64 = value aarch64
architecture_of_triple text triple_wasm32 = value wasm32
architecture_of_triple text triple_wasm64 = value wasm64
architecture_of_triple text triple_riscv32 = value riscv32
architecture_of_triple text triple_riscv64 = value riscv64
architecture_of_triple text triple_ppc = value ppc32
architecture_of_triple text triple_ppc64 = value ppc64
architecture_of_triple text triple_ppc64le = value ppc64le
architecture_of_triple text triple_mips = value mips
architecture_of_triple text triple_mipsel = value mipsel
architecture_of_triple text triple_mips64 = value mips64
architecture_of_triple text triple_mips64el = value mips64el
architecture_of_triple text triple_loongarch64 = value loongarch64
architecture_of_triple text triple_systemz = value systemz
architecture_of_triple text other_arch = value llvm_generic
architecture_of_triple text unknown_arch =
    runtime_error (between_quotes "unsupported architecture in target triple '" text)

-- Whether an architecture and what the triple says are not the same one.
abbrev pub conflicts : Architecture → Checked Architecture → Checked Architecture
conflicts a (value b) =
    if same_architecture a b
    then value a
    else runtime_error (codes "architecture conflicts with target triple")
conflicts a (runtime_error message) = runtime_error message

abbrev pub then_with : {A B : Type 0} → Checked A → (A → Checked B) → Checked B
then_with (value a) f = f a
then_with (runtime_error message) f = runtime_error message

unfoldable pub os_of_triple : Text → TripleOs → Checked OperatingSystem
os_of_triple text os =
    if os.is_linux
    then value linux
    else if os.is_darwin
    then value darwin
    else if os.is_windows
    then value windows
    else if os.is_wasi
    then value wasi
    else if os.is_unknown
        && (is_empty os.name || text_eq os.name (codes "unknown") || text_eq os.name (codes "none"))
    then value free_standing
    else if not os.is_unknown
    then value target_specific
    else runtime_error (between_quotes "unsupported OS in target triple '" text)

module _ (triple : Text → Triple) where
  unfoldable pub pick_architecture : Text → Text → Checked Architecture
  unfolding parse_architecture architecture_of_triple
  pick_architecture explicit_arch target_triple =
      let parse_triple = architecture_of_triple target_triple (triple target_triple).arch in
      if not (is_empty explicit_arch)
      then then_with (parse_architecture explicit_arch)
          (λ a. if not (is_empty target_triple) then conflicts a parse_triple else value a)
      else if is_empty target_triple
      then value x86_64
      else parse_triple

  unfoldable pub pick_operating_system : Text → Text → Checked OperatingSystem
  unfolding lookup os_of_triple
  pick_operating_system explicit_os target_triple =
      if not (is_empty explicit_os)
      then or_error (lookup operating_system_name_groups explicit_os)
          (between_quotes "unknown OS '" explicit_os)
      else if not (is_empty target_triple)
      then os_of_triple target_triple (triple target_triple).os
      else value linux
