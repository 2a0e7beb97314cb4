-- ===== src/Target/Examples.antt =====
-- The theorems about the target at concrete inputs.

use psic.Prelude.{text_eq, ◌≡◌, ◌↔◌, refl, true, false, [], ◌∷◌, ◌++◌, Text, codes, arith}
use psic.Target.Model.{same_os, aarch64, x86_64, darwin}
use psic.Target.Features.{pieces, target_feature_enabled, target_feature_disabled}
use psic.Target.LastMention.{
  flag_or, flipped_or, last_said, mark, target_feature-last_said, target_feature-appended,
}
use psic.Target.Pick.{Triple, triple_aarch64, value, pick_architecture, pick_operating_system}
use psic.Target.Named.{IsNameOf, architecture_names, pick_architecture_iff}
use psic.Target.Resolve.{
  TargetConfig, TargetOptions, check_os, check_pair, resolve_target, resolve_os, resolve_picked,
}
use psic.Target.Resolved.{Resolved, resolve_target_iff}

abbrev features : Text
features = codes "+neon, -sse2 ,+sse2"

abbrev sse2 : Text
sse2 = codes "sse2"

last_said_example :
    (target_feature_enabled features sse2 ≡ flag_or false (last_said sse2 (pieces features)))
    × (target_feature_disabled features sse2 ≡ flipped_or false (last_said sse2 (pieces features)))
last_said_example = target_feature-last_said features sse2

appended_example :
    (target_feature_enabled (features ++ b',' ∷ mark false ∷ sse2) sse2 ≡ false)
    × (target_feature_disabled (features ++ b',' ∷ mark false ∷ sse2) sse2 ≡ true)
unfolding codes
appended_example = target_feature-appended features sse2 false (omega arith) refl

-- Every triple is one of a 64-bit ARM on macOS.
abbrev on_darwin : Text → Triple
on_darwin _ = record {
  arch = triple_aarch64;
  os = record {
    is_linux = false;
    is_darwin = true;
    is_windows = false;
    is_wasi = false;
    is_unknown = false;
    name = codes "darwin";
  };
}

pick_architecture_example :
    (pick_architecture on_darwin (codes "amd64") [] ≡ value x86_64)
    ↔ IsNameOf architecture_names (codes "amd64") x86_64
unfolding codes
pick_architecture_example = pick_architecture_iff on_darwin b'a' (codes "md64") x86_64

abbrev options : TargetOptions
options = record {
  architecture = codes "arm64";
  operating_system = codes "macos";
  target_triple = codes "aarch64-apple-darwin";
}

abbrev apple : TargetConfig
apple = record { architecture = aarch64; operating_system = darwin }

resolve_target_example :
    (resolve_target on_darwin options ≡ value apple) ↔ Resolved on_darwin options apple
resolve_target_example = resolve_target_iff on_darwin options apple

options-apple : resolve_target on_darwin options ≡ value apple
unfolding resolve_target resolve_os resolve_picked same_os codes text_eq pick_architecture
    pick_operating_system check_os check_pair
options-apple = refl
