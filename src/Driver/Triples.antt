-- ===== src/Driver/Triples.antt =====
-- The pairs that `defaultTriple` of src/codegen_module.cpp has a triple for, against those that
-- `resolveTarget` of src/compiler.cpp returns.
use psic.Prelude.{◌≡◌, ◌↔◌, refl, sym, ◌∙◌, Bool, true, false, not, [], Text, ap}
use psic.Target.Model.{
  Architecture, x86, OperatingSystem, linux, darwin, windows, free_standing, wasi, target_specific,
  same_os,
}
use psic.Target.Pick.{Checked, value, runtime_error, Triple, is_empty}
use psic.Target.Supported.{supported}
use psic.Target.Resolve.{TargetConfig, TargetOptions, resolve_target}
use psic.Target.Resolved.{resolve_target_iff}
use psic.Driver.DefaultTriple.{default_triple}

abbrev is_value : Checked Text → Bool
is_value (value _) = true
is_value (runtime_error _) = false

default_triple-supported :
    (a : Architecture) (os : OperatingSystem)
    → is_value (default_triple a os) ≡ supported false a os
unfolding default_triple same_os
default_triple-supported x86 linux = refl
default_triple-supported _ linux = refl
default_triple-supported x86 darwin = refl
default_triple-supported _ darwin = refl
default_triple-supported x86 windows = refl
default_triple-supported _ windows = refl
default_triple-supported x86 free_standing = refl
default_triple-supported _ free_standing = refl
default_triple-supported x86 wasi = refl
default_triple-supported _ wasi = refl
default_triple-supported x86 target_specific = refl
default_triple-supported _ target_specific = refl

is_value_iff : (r : Checked Text) → ((t : Text) × (r ≡ value t)) ↔ (is_value r ≡ true)
is_value_iff (value t) = (λ h. refl, λ h. (t, refl))
is_value_iff (runtime_error m) = (λ (t, e). absurd (cc), λ h. absurd (cc))

-- The code generation has a default triple for a pair exactly if the table of `resolveTarget` supports
-- the pair without a triple.
pub default_triple_iff :
    (a : Architecture) (os : OperatingSystem)
    → ((t : Text) × (default_triple a os ≡ value t)) ↔ (supported false a os ≡ true)
default_triple_iff a os =
    let there = is_value_iff (default_triple a os) in
    let table = default_triple-supported a os in
    ((λ h. sym table ∙ there.0 h), λ h. there.1 (table ∙ h))

-- If `resolveTarget` returns a target for options without a triple then the code generation has a
-- default triple for that target.
pub resolve_target-default_triple :
    (triple : Text → Triple) (options : TargetOptions) (target : TargetConfig)
    → options.target_triple ≡ []
    → resolve_target triple options ≡ value target
    → (t : Text) × (default_triple target.architecture target.operating_system ≡ value t)
resolve_target-default_triple triple options target e h =
    let pair = ((resolve_target_iff triple options target).0 h).pair in
    (default_triple_iff target.architecture target.operating_system).1 (
      ap (λ t. supported (not (is_empty t)) target.architecture target.operating_system) (sym e)
      ∙ pair)
