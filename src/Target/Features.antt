-- ===== src/Target/Features.antt =====
-- src/target_model.hpp: `targetFeatureEnabled` and `targetFeatureDisabled`.
use psic.Prelude.{
  ℕ, ◌&&◌, Bool, true, false, List, [], ◌∷◌, Text, text_eq, ◌==◌, if◌then◌else◌, ltb, length, tail,
}
use psic.Lexer.Cursor.{current_char}

-- A character more at the front of the first feature.
abbrev pub grow : ℕ → List Text → List Text
grow c [] = (c ∷ []) ∷ []
grow c (feature ∷ more) = (c ∷ feature) ∷ more

-- The pieces between the commas that the loop visits: a comma at the very end starts no other one.
unfoldable pub pieces : Text → List Text
pieces [] = []
pieces (c ∷ cs) = let more = pieces cs in if c == b',' then [] ∷ more else grow c more

-- `remove_prefix` and `remove_suffix` as long as a space stands there.
unfoldable pub trim_front : Text → Text
trim_front [] = []
trim_front (c ∷ cs) = let trimmed = trim_front cs in if c == b' ' then trimmed else c ∷ cs

abbrev pub without_space : ℕ → Text → Text
without_space c [] = if c == b' ' then [] else c ∷ []
without_space c (d ∷ ds) = c ∷ d ∷ ds

unfoldable pub trim_back : Text → Text
trim_back [] = []
trim_back (c ∷ cs) = without_space c (trim_back cs)

-- The body of the loop: the flag that `on` sets and `off` clears, after one piece.
unfoldable pub next_flag : (on off : ℕ) → Text → Text → Bool → Bool
unfolding trim_front trim_back
next_flag on off name piece flag =
    let feature = trim_back (trim_front piece) in
    if ltb 1 (length feature) && text_eq (tail feature) name
    then (if current_char feature == on
        then true
        else if current_char feature == off
        then false
        else flag)
    else flag

unfoldable pub flag_after : (on off : ℕ) → Text → List Text → Bool → Bool
unfolding next_flag
flag_after on off name [] flag = flag
flag_after on off name (piece ∷ more) flag =
    flag_after on off name more (next_flag on off name piece flag)

unfoldable pub target_feature_enabled : Text → Text → Bool
unfolding flag_after pieces
target_feature_enabled features name = flag_after b'+' b'-' name (pieces features) false

unfoldable pub target_feature_disabled : Text → Text → Bool
unfolding flag_after pieces
target_feature_disabled features name = flag_after b'-' b'+' name (pieces features) false
