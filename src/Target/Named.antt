-- ===== src/Target/Named.antt =====
-- The names of src/target.hpp under `pickArchitecture` and `pickOperatingSystem` of src/target.cpp.
use mathlib.Core.List.{Memᴰ}
use psic.Prelude.{
  text_eq_comm, ◌≡◌, refl, ap, sym, ◌∙◌, ◌||◌, true, String, List, [], ◌∷◌, map, Text, codes,
  text_eq, text_eq_iff, contains, Option, none, some, Bool-cases, inl, inr, arith, ◌↔◌, ℕ,
}
use psic.Target.Model.{Architecture, OperatingSystem}
use psic.Target.Groups.{NameGroup, architecture_name_groups, operating_system_name_groups}
use psic.Target.Pick.{
  Checked, value, runtime_error, Triple, lookup, or_error, then_with, between_quotes,
  parse_architecture, pick_architecture, pick_operating_system,
}

abbrev pub architecture_names : List (NameGroup Architecture)
architecture_names = map (λ g. g.names) architecture_name_groups

module _ {A : Type 0} where
  -- The name is the canonical name of the group or one of its aliases.
  abbrev pub Names : NameGroup A → Text → Type 0
  Names g name = contains (g.canonical ∷ g.aliases) name ≡ true

  -- The text names a group of the value.
  pub record IsNameOf (groups : List (NameGroup A)) (name : Text) (a : A) : Type 0 where
    pub group : NameGroup A
    pub member : Memᴰ group groups
    pub named : Names group name
    pub valued : group.value ≡ a

  abbrev Found : List (NameGroup A) → A → List String → Type 0
  Found groups a [] = Unit
  Found groups a (n ∷ ns) = (lookup groups (codes n) ≡ some a) × Found groups a ns

  abbrev AllFound : List (NameGroup A) → List (NameGroup A) → Type 0
  AllFound groups [] = Unit
  AllFound groups (g ∷ gs) = Found groups g.value (g.canonical ∷ g.aliases) × AllFound groups gs

  lookup-Found :
      (groups : List (NameGroup A)) (a : A) (ns : List String) (name : Text)
      → Found groups a ns
      → contains ns name ≡ true
      → lookup groups name ≡ some a
  unfolding contains
  lookup-Found groups a [] name found h = absurd (cc)
  lookup-Found groups a (n ∷ ns) name found h = elim (Bool-cases (text_eq (codes n) name)) [
    | inl e ↦ ap (lookup groups) (sym ((text_eq_iff (codes n) name).0 e)) ∙ found.0
    | inr e ↦ lookup-Found groups a ns name found.1 (ground (arith, e, h))
  ]

  lookup-member :
      (groups : List (NameGroup A)) {g : NameGroup A} {gs : List (NameGroup A)} (name : Text)
      → AllFound groups gs
      → Memᴰ g gs
      → Names g name
      → lookup groups name ≡ some g.value
  lookup-member groups {gs = []} name found m h = elim m [ ]
  lookup-member groups {gs = g ∷ gs} name found (Memᴰ.head e) h =
      rw e (lookup-Found groups g.value (g.canonical ∷ g.aliases) name found.0 (rw e at h))
  lookup-member groups {gs = g ∷ gs} name found (Memᴰ.tail m) h =
      lookup-member groups name found.1 m h

  behind :
      {g : NameGroup A} {gs : List (NameGroup A)} {name : Text} {a : A}
      → IsNameOf gs name a
      → IsNameOf (g ∷ gs) name a
  behind h = record {
    group = h.group;
    member = Memᴰ.tail h.member;
    named = h.named;
    valued = h.valued;
  }

  lookup-IsNameOf :
      (groups : List (NameGroup A)) (name : Text) (a : A)
      → lookup groups name ≡ some a
      → IsNameOf groups name a
  unfolding lookup contains
  lookup-IsNameOf [] name a h = absurd (cc)
  lookup-IsNameOf (g ∷ gs) name a h =
      elim (Bool-cases (text_eq name (codes g.canonical) || contains g.aliases name)) [
        | inl e ↦ record {
          group = g;
          member = Memᴰ.head refl;
          named = ground (arith, e, text_eq_comm name (codes g.canonical));
          valued = ground (arith, e, h);
        }
        | inr e ↦ behind (lookup-IsNameOf gs name a (ground (arith, e, h)))
      ]

architectures-AllFound : AllFound architecture_names architecture_names
unfolding lookup contains codes text_eq
architectures-AllFound = (
  (refl, (refl, (refl, (refl, (refl, tt))))),
  (
    (refl, (refl, (refl, tt))),
    (
      (refl, (refl, tt)),
      (
        (refl, (refl, (refl, (refl, (refl, tt))))),
        (
          (refl, (refl, tt)),
          (
            (refl, tt),
            (
              (refl, tt),
              (
                (refl, tt),
                (
                  (refl, (refl, tt)),
                  (
                    (refl, (refl, tt)),
                    (
                      (refl, (refl, tt)),
                      (
                        (refl, tt),
                        (
                          (refl, tt),
                          ((refl, tt), ((refl, tt), ((refl, tt), ((refl, (refl, tt)), tt)))),
                        ),
                      ),
                    ),
                  ),
                ),
              ),
            ),
          ),
        ),
      ),
    ),
  ),
)

operating_systems-AllFound : AllFound operating_system_name_groups operating_system_name_groups
unfolding lookup contains codes text_eq
operating_systems-AllFound = (
  (refl, tt),
  (
    (refl, (refl, (refl, tt))),
    ((refl, (refl, tt)), ((refl, tt), ((refl, (refl, (refl, tt))), tt))),
  ),
)

or_error_iff :
    {A : Type 0} (o : Option A) (message : Text) (a : A)
    → (or_error o message ≡ value a) ↔ (o ≡ some a)
or_error_iff none message a = (λ h. absurd (cc), λ h. absurd (cc))
or_error_iff (some b) message a = (λ h. cc, λ h. cc)

then_with-value :
    {A : Type 0} (x : Checked A) (a : A) → (then_with x (λ b. value b) ≡ value a) ↔ (x ≡ value a)
then_with-value (value b) a = (λ h. h, λ h. h)
then_with-value (runtime_error message) a = (λ h. h, λ h. h)

lookup_iff :
    {A : Type 0} (groups : List (NameGroup A)) (name : Text) (a : A)
    → AllFound groups groups
    → (lookup groups name ≡ some a) ↔ IsNameOf groups name a
lookup_iff groups name a found = (
  lookup-IsNameOf groups name a,
  λ h. lookup-member groups name found h.member h.named ∙ ap some h.valued,
)

-- A text that is not empty picks an architecture, without a target triple, if and only if it is the
-- canonical name or an alias of a group of that architecture: no two groups share a name.
pub pick_architecture_iff :
    (triple : Text → Triple) (c : ℕ) (cs : Text) (a : Architecture)
    → (pick_architecture triple (c ∷ cs) [] ≡ value a) ↔ IsNameOf architecture_names (c ∷ cs) a
unfolding pick_architecture parse_architecture
pick_architecture_iff triple c cs a =
    let found = lookup_iff architecture_names (c ∷ cs) a architectures-AllFound in
    let read =
      or_error_iff (lookup architecture_names (c ∷ cs))
        (between_quotes "unknown architecture '" (c ∷ cs)) a in
    let plain = then_with-value (parse_architecture (c ∷ cs)) a in
    (λ h. found.0 (read.0 (plain.0 h)), λ h. plain.1 (read.1 (found.1 h)))

-- A text that is not empty picks an operating system, whatever the target triple, if and only if it
-- is the canonical name or an alias of a group of that system.
pub pick_operating_system_iff :
    (triple : Text → Triple) (c : ℕ) (cs target_triple : Text) (os : OperatingSystem)
    → (pick_operating_system triple (c ∷ cs) target_triple ≡ value os)
      ↔ IsNameOf operating_system_name_groups (c ∷ cs) os
unfolding pick_operating_system
pick_operating_system_iff triple c cs target_triple os =
    let found = lookup_iff operating_system_name_groups (c ∷ cs) os operating_systems-AllFound in
    let read =
      or_error_iff (lookup operating_system_name_groups (c ∷ cs))
        (between_quotes "unknown OS '" (c ∷ cs)) os in
    (λ h. found.0 (read.0 h), λ h. read.1 (found.1 h))
