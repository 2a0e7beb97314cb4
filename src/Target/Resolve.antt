-- ===== src/Target/Resolve.antt =====
-- src/compiler.cpp: `resolveTarget`.
use psic.Prelude.{Bool, true, false, ◌&&◌, ◌||◌, not, [], ◌++◌, Text, codes, if◌then◌else◌}
use psic.Target.Model.{
  Architecture, OperatingSystem, linux, free_standing, wasi, target_specific, same_os,
}
use psic.Target.Groups.{
  ArchitectureProfileFamily, general_purpose, linux_or_freestanding, web_assembly, generic_llvm,
  architecture_profile_family,
}
use psic.Target.Pick.{
  Checked, value, runtime_error, Triple, is_empty, then_with, between_quotes, pick_architecture,
  pick_operating_system,
}

pub record TargetConfig : Type 0 where
  pub architecture : Architecture
  pub operating_system : OperatingSystem

-- The options of `CompileOptions` that name the target.
pub record TargetOptions : Type 0 where
  pub architecture : Text
  pub operating_system : Text
  pub target_triple : Text

abbrev pub is_web_assembly : ArchitectureProfileFamily → Bool
is_web_assembly family = elim family [ web_assembly ↦ true | _ ↦ false ]

abbrev pub is_general_purpose : ArchitectureProfileFamily → Bool
is_general_purpose family = elim family [ general_purpose ↦ true | _ ↦ false ]

abbrev pub is_linux_profile : ArchitectureProfileFamily → Bool
is_linux_profile family = elim family [ linux_or_freestanding ↦ true | _ ↦ false ]

abbrev pub is_generic : ArchitectureProfileFamily → Bool
is_generic family = elim family [ generic_llvm ↦ true | _ ↦ false ]

unfoldable pub valid_pair : Bool → ArchitectureProfileFamily → OperatingSystem → Bool
unfolding same_os
valid_pair has_triple family os =
    let linux_or_free = same_os os linux || same_os os free_standing in
    if is_web_assembly family
    then same_os os free_standing || same_os os wasi || (has_triple && same_os os target_specific)
    else if same_os os target_specific
    then has_triple && (is_general_purpose family || is_linux_profile family || is_generic family)
    else if is_generic family
    then has_triple && not (same_os os wasi)
    else not (same_os os wasi)
      && (is_general_purpose family || (is_linux_profile family && linux_or_free))

unfoldable pub selected_profile : TargetOptions → Text
selected_profile options =
    if not (is_empty options.target_triple)
    then options.target_triple
    else (if is_empty options.architecture
        then codes "default architecture"
        else options.architecture)
      ++ (if is_empty options.operating_system then [] else codes "/" ++ options.operating_system)

-- The last test: the pair, if it is a valid one.
unfoldable pub check_pair : TargetOptions → Architecture → OperatingSystem → Checked TargetConfig
unfolding valid_pair selected_profile architecture_profile_family
check_pair options a os =
    if valid_pair (not (is_empty options.target_triple)) (architecture_profile_family a) os
    then value (record { architecture = a; operating_system = os })
    else runtime_error (
        between_quotes "unsupported architecture/OS profile combination '"
          (selected_profile options))

-- WebAssembly that nothing else is said about has no operating system.
unfoldable pub default_os : TargetOptions → Architecture → OperatingSystem → OperatingSystem
unfolding architecture_profile_family
default_os options a os =
    if is_empty options.operating_system
      && is_empty options.target_triple
      && is_web_assembly (architecture_profile_family a)
    then free_standing
    else os

module _ (triple : Text → Triple) where
  -- The operating system that is named agrees with the one of the triple.
  unfoldable pub check_os : TargetOptions → OperatingSystem → Checked OperatingSystem
  unfolding pick_operating_system same_os
  check_os options os =
      if not (is_empty options.operating_system) && not (is_empty options.target_triple)
      then then_with (pick_operating_system triple [] options.target_triple) (λ other.
        if same_os os other
        then value os
        else runtime_error (codes "OS conflicts with target triple"))
      else value os

  -- The function from where the operating system is picked, and from where both are picked.
  unfoldable pub resolve_picked :
      TargetOptions → Architecture → OperatingSystem → Checked TargetConfig
  unfolding default_os
  resolve_picked options a os =
      then_with (check_os options (default_os options a os)) (check_pair options a)

  unfoldable pub resolve_os : TargetOptions → Architecture → Checked TargetConfig
  resolve_os options a =
      then_with (pick_operating_system triple options.operating_system options.target_triple)
        (resolve_picked options a)

  unfoldable pub resolve_target : TargetOptions → Checked TargetConfig
  resolve_target options =
      then_with (pick_architecture triple options.architecture options.target_triple)
        (resolve_os options)
