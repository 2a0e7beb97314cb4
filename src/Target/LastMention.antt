-- ===== src/Target/LastMention.antt =====
-- `targetFeatureEnabled` and `targetFeatureDisabled` of src/target_model.hpp against the pieces that
-- mention the feature.
use psic.Prelude.{
  ℕ, ◌<◌, ◌≡◌, ◌&&◌, not, refl, Bool, true, false, List, [], ◌∷◌, ◌++◌, Text, text_eq, text_eq_refl,
  ◌==◌, if◌then◌else◌, ltb, length, tail, Option, none, some, arith, all, Bool-cases, inl, inr,
}
use psic.Lexer.Cursor.{current_char}
use psic.Target.Features.{
  pieces, trim_front, trim_back, next_flag, flag_after, target_feature_enabled,
  target_feature_disabled,
}

-- What a piece without the spaces around it says of the feature: on, off, or nothing.
abbrev pub said_by : Text → Text → Option Bool
said_by [] feature = none
said_by (n ∷ ns) feature =
    if text_eq feature (b'+' ∷ n ∷ ns)
    then some true
    else if text_eq feature (b'-' ∷ n ∷ ns)
    then some false
    else none

abbrev pub last_said : Text → List Text → Option Bool
last_said name [] = none
last_said name (piece ∷ more) = elim (last_said name more) [
  | some b ↦ some b
  | none ↦ said_by name (trim_back (trim_front piece))
]

abbrev pub flag_or : Bool → Option Bool → Bool
flag_or flag none = flag
flag_or flag (some b) = b

abbrev pub flipped_or : Bool → Option Bool → Bool
flipped_or flag none = flag
flipped_or flag (some b) = not b

-- The body of the loop on a piece without the spaces around it.
abbrev body : (on off : ℕ) → Text → Text → Bool → Bool
body on off name feature flag =
    if ltb 1 (length feature) && text_eq (tail feature) name
    then (if current_char feature == on
        then true
        else if current_char feature == off
        then false
        else flag)
    else flag

body-said_by :
    (name feature : Text) (flag : Bool)
    → (body b'+' b'-' name feature flag ≡ flag_or flag (said_by name feature))
      × (body b'-' b'+' name feature flag ≡ flipped_or flag (said_by name feature))
unfolding text_eq
body-said_by [] [] flag = (ground arith, ground arith)
body-said_by [] (c ∷ []) flag = (ground arith, ground arith)
body-said_by [] (c ∷ d ∷ cs) flag = (ground arith, ground arith)
body-said_by (n ∷ ns) [] flag = (ground arith, ground arith)
body-said_by (n ∷ ns) (c ∷ []) flag = (ground arith, ground arith)
body-said_by (n ∷ ns) (c ∷ d ∷ cs) flag = (ground arith, ground arith)

flag_after-last_said :
    (name : Text) (features : List Text) (flag : Bool)
    → (flag_after b'+' b'-' name features flag ≡ flag_or flag (last_said name features))
      × (flag_after b'-' b'+' name features flag ≡ flipped_or flag (last_said name features))
unfolding flag_after next_flag
flag_after-last_said name [] flag = (refl, refl)
flag_after-last_said name (piece ∷ more) flag =
    let feature = trim_back (trim_front piece) in
    let this = body-said_by name feature flag in
    let on = (flag_after-last_said name more (body b'+' b'-' name feature flag)).0 in
    let off = (flag_after-last_said name more (body b'-' b'+' name feature flag)).1 in
    (ground (arith, this.0, on), ground (arith, this.1, off))

-- A feature is enabled if and only if the last piece between commas that is its name behind a plus
-- or a minus, spaces around it ignored, has the plus, and disabled if and only if that piece has
-- the minus; it is neither if there is no such piece.
pub target_feature-last_said :
    (features name : Text)
    → (target_feature_enabled features name ≡ flag_or false (last_said name (pieces features)))
      × (target_feature_disabled features name
          ≡ flipped_or false (last_said name (pieces features)))
unfolding target_feature_enabled target_feature_disabled
target_feature-last_said features name = flag_after-last_said name (pieces features) false

-- A feature is never both enabled and disabled.
pub target_feature-exclusive :
    (features name : Text)
    → target_feature_enabled features name ≡ true
    → target_feature_disabled features name ≡ false
target_feature-exclusive features name h =
    let (on, off) = target_feature-last_said features name in ground (arith, on, off, h)

-- A name without commas and spaces.
abbrev pub is_plain : ℕ → Bool
is_plain c = not (c == b',') && not (c == b' ')

pieces-append :
    (front behind : Text)
    → (first : Text) × (more : List Text) × (pieces (front ++ b',' ∷ behind)
        ≡ first ∷ (more ++ pieces behind))
unfolding pieces
pieces-append [] behind = ([], [], refl)
pieces-append (c ∷ cs) behind =
    let (first, more, e) = pieces-append cs behind in
    elim (Bool-cases (c == b',')) [
      | inl comma ↦ ([], first ∷ more, ground (arith, comma, e))
      | inr other ↦ (c ∷ first, more, ground (arith, other, e))
    ]

pieces-plain : (c : ℕ) (cs : Text) → all is_plain (c ∷ cs) ≡ true → pieces (c ∷ cs) ≡ (c ∷ cs) ∷ []
unfolding pieces
pieces-plain c [] h = ground arith
pieces-plain c (d ∷ ds) h = ground (arith, pieces-plain d ds)

trim_front-plain : (c : ℕ) (cs : Text) → all is_plain (c ∷ cs) ≡ true → trim_front (c ∷ cs) ≡ c ∷ cs
unfolding trim_front
trim_front-plain c cs h = ground arith

trim_back-plain : (cs : Text) → all is_plain cs ≡ true → trim_back cs ≡ cs
unfolding trim_back
trim_back-plain [] h = refl
trim_back-plain (c ∷ []) h = ground arith
trim_back-plain (c ∷ d ∷ ds) h = ground (arith, trim_back-plain (d ∷ ds))

last_said-last :
    (name feature : Text) (b : Bool) (features : List Text)
    → said_by name (trim_back (trim_front feature)) ≡ some b
    → last_said name (features ++ feature ∷ []) ≡ some b
last_said-last name feature b [] h = h
last_said-last name feature b (f ∷ fs) h = ground (arith, last_said-last name feature b fs h)

-- The mark that switches a feature on or off.
abbrev pub mark : Bool → ℕ
mark true = b'+'
mark false = b'-'

said_by-mark : (n : ℕ) (ns : Text) (b : Bool) → said_by (n ∷ ns) (mark b ∷ n ∷ ns) ≡ some b
unfolding text_eq
said_by-mark n ns true = ground (arith, text_eq_refl (n ∷ ns))
said_by-mark n ns false = ground (arith, text_eq_refl (n ∷ ns))

plain-mark : (b : Bool) (cs : Text) → all is_plain cs ≡ true → all is_plain (mark b ∷ cs) ≡ true
plain-mark true cs h = h
plain-mark false cs h = h

-- Behind any list of features, a comma and a feature with a plus enable it and one with a minus
-- disable it, whatever was said of it before, if its name is not empty and has no comma or space.
pub target_feature-appended :
    (features name : Text) (on : Bool)
    → 0 < length name
    → all is_plain name ≡ true
    → (target_feature_enabled (features ++ b',' ∷ mark on ∷ name) name ≡ on)
      × (target_feature_disabled (features ++ b',' ∷ mark on ∷ name) name ≡ not on)
target_feature-appended features [] on p h = absurd (omega arith)
target_feature-appended features (n ∷ ns) on p h =
    let feature = mark on ∷ n ∷ ns in
    let plain = plain-mark on (n ∷ ns) h in
    let (first, more, split) = pieces-append features feature in
    let trimmed : trim_back (trim_front feature) ≡ feature =
      rw (trim_front-plain (mark on) (n ∷ ns) plain) (trim_back-plain feature plain) in
    let said : last_said (n ∷ ns) (pieces (features ++ b',' ∷ feature)) ≡ some on =
      rw (split, pieces-plain (mark on) (n ∷ ns) plain)
        (last_said-last (n ∷ ns) feature on (first ∷ more) (rw trimmed (said_by-mark n ns on))) in
    let (enabled, disabled) = target_feature-last_said (features ++ b',' ∷ feature) (n ∷ ns) in
    (rw (enabled, said) refl, rw (disabled, said) refl)
