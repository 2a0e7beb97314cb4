-- ===== src/Validation/Missing.antt =====
-- How many names of a list a set does not have yet.
use psic.Prelude.{
  ◌≡◌, refl, inl, inr, ℕ, ◌+◌, ◌≤◌, ◌<◌, Bool, true, false, ◌||◌, if◌then◌else◌, Text, text_eq,
  text_eq_iff, text_eq_refl, List, [], ◌∷◌, length, arith, Bool-cases,
}
use psic.Validation.Environment.{Map, Names, member, find, has}

-- The names that `p` refuses.
pub missing : List Text → (Text → Bool) → ℕ
missing [] p = 0
missing (u ∷ names) p = (if p u then 0 else 1) + missing names p

pub missing-le : (names : List Text) (p : Text → Bool) → missing names p ≤ length names
unfolding missing
missing-le [] p = omega arith
missing-le (u ∷ names) p = ground (arith, missing-le names p)

-- `q` accepts what `p` accepts, and `name`.
abbrev pub Adds : Text → (Text → Bool) → (Text → Bool) → Type 0
Adds name p q = (u : Text) → q u ≡ (text_eq name u || p u)

missing_mono :
    (names : List Text) (name : Text) (p q : Text → Bool)
    → Adds name p q
    → missing names q ≤ missing names p
unfolding missing
missing_mono [] name p q h = omega arith
missing_mono (u ∷ names) name p q h = ground (arith, h u, missing_mono names name p q h)

pub missing-lt :
    (names : List Text) (name : Text) (p q : Text → Bool)
    → Adds name p q
    → member names name ≡ true
    → p name ≡ false
    → missing names q < missing names p
unfolding missing member
missing-lt [] name p q h m f = cc
missing-lt (u ∷ names) name p q h m f = elim (Bool-cases (text_eq u name)) [
  | inl e ↦
      let same = (text_eq_iff u name).0 e in
      ground (arith, same, h name, h u, f, text_eq_iff name name, missing_mono names name p q h)
  | inr e ↦ ground (arith, e, m, h u, missing-lt names name p q h, missing_mono names name p q h)
]

pub member-Adds : (name : Text) (s : Names) → Adds name (member s) (member (name ∷ s))
unfolding member
member-Adds name s u = refl

pub has-Adds :
    {A : Type 0} (name : Text) (a : A) (m : Map A) → Adds name (has m) (has ((name, a) ∷ m))
unfolding has find
has-Adds name a m u = ground arith

pub member-head : (name : Text) (s : Names) → member (name ∷ s) name ≡ true
unfolding member
member-head name s = ground (arith, text_eq_refl name)

pub member-tail :
    (x : Text) (s : Names) (name : Text) → member s name ≡ true → member (x ∷ s) name ≡ true
unfolding member
member-tail x s name h = ground (arith, h)
