-- ===== src/Validation/VisitEnds.antt =====
-- `visitStructByValue` on enough fuel, and the loop over the structs.
use psic.Prelude.{
  ◌≡◌, refl, ◌⊎◌, inl, inr, ℕ, zero, suc, ◌<◌, Bool, true, false, Text, text_eq, text_eq_iff, List,
  [], ◌∷◌, length, arith, Bool-cases, none, some, Option-cases, sym, subst,
}
use psic.Ast.{ArgNode}
use psic.Validation.Environment.{Map, Names, member, find, has}
use psic.Validation.Missing.{missing, missing-le, missing-lt, member-Adds, member-head, member-tail}
use psic.Validation.Cycles.{Structs, visit_struct_by_value, visit_all, validate_struct_cycles}
use psic.Validation.Acyclic.{HasField, Holds, Contains, directly, through, IsOrdered}
use psic.Validation.Visits.{
  Outcome, fine, cyclic, Outcome-then, Outcome-map, keys, length-keys, find-keys, Kept, After,
  AfterFields, Kept-refl, Kept-trans, visit_fields-Outcome,
}

pub member-cons-cases :
    (x : Text) (s : Names) (u : Text) → member (x ∷ s) u ≡ true → (x ≡ u) ⊎ (member s u ≡ true)
unfolding member
member-cons-cases x s u h = elim (Bool-cases (text_eq x u)) [
  | inl e ↦ inl ((text_eq_iff x u).0 e)
  | inr e ↦ inr (ground (arith, e, h))
]

has-find : {A : Type 0} (m : Map A) (name : Text) → find m name ≡ none → has m name ≡ false
unfolding has
has-find m name e = rw e

pub true-ne-false : (b : Bool) → b ≡ true → b ≡ false → ⊥
true-ne-false b t f = cc

not-true : (b : Bool) → (b ≡ true → ⊥) → b ≡ false
not-true true h = absurd (h refl)
not-true false h = refl

module _ (structs : Structs) where
  -- The struct `name` is visited behind its fields.
  close-visit :
      (visiting seen names : Names) (name : Text) (fields : List ArgNode)
      → find structs name ≡ some fields
      → member visiting name ≡ false
      → member seen name ≡ false
      → AfterFields structs (name ∷ visiting) seen fields names
      → After structs visiting seen name (name ∷ names)
  close-visit visiting seen names name fields e v s a =
      let fresh =
        not-true (member names name)
          (λ m. true-ne-false (member seen name) (a.0.2 name (member-head name visiting) m) s) in
      (
        (
          ((λ b h. a.1 b (subst (λ x. HasField x b) (cc) h.2)), fresh, a.0.0),
          (λ u m. member-tail name names u (a.0.1 u m)),
          (λ u m n. elim (member-cons-cases name names u n) [
            | inl same ↦ absurd (
                true-ne-false (member visiting name)
                  (subst (λ x. member visiting x ≡ true) (sym same) m) v)
            | inr n' ↦ a.0.2 u (member-tail name visiting u m) n'
          ]),
        ),
        (λ h. member-head name names),
      )

  -- The structs that are being visited contain a field of the last one of them.
  path-field :
      (visiting : Names) (name b : Text)
      → ((u : Text) → member visiting u ≡ true → Contains structs u name)
      → Holds structs name b
      → (u : Text) → member (name ∷ visiting) u ≡ true
      → Contains structs u b
  path-field visiting name b path field u m = elim (member-cons-cases name visiting u m) [
    | inl same ↦ directly (subst (λ x. Holds structs x b) same field)
    | inr m' ↦ through (path u m') field
  ]

  pub visit_struct-Outcome :
      (fuel : ℕ) (visiting : Names) (name : Text) (seen : Names)
      → missing (keys structs) (member visiting) < fuel
      → IsOrdered structs seen
      → ((u : Text) → member visiting u ≡ true → Contains structs u name)
      → Outcome structs
          (After structs visiting seen name)
          (visit_struct_by_value fuel structs visiting name seen)
  unfolding visit_struct_by_value
  visit_struct-Outcome zero visiting name seen lt o path = absurd (omega (arith, lt))
  visit_struct-Outcome (suc fuel) visiting name seen lt o path =
      elim (Bool-cases (member seen name)) [
        | inl s ↦ rw s (fine (Kept-refl structs visiting seen o, (λ h. s)))
        | inr s ↦ rw s (elim (Option-cases (find structs name)) [
          | inl e ↦ rw e (
              fine (
                Kept-refl structs visiting seen o,
                (λ h. absurd (true-ne-false (has structs name) h (has-find structs name e))),
              ))
          | inr (fields, e) ↦ rw e (elim (Bool-cases (member visiting name)) [
            | inl v ↦ rw v (cyclic _ name (path name v))
            | inr v ↦ rw v (
                Outcome-then
                  (visit_fields-Outcome structs (name ∷ visiting)
                    (visit_struct_by_value fuel structs (name ∷ visiting)) fields
                    (λ b field seen' o'.
                      visit_struct-Outcome fuel (name ∷ visiting) b seen'
                        (omega (
                          arith,
                          lt,
                          missing-lt (keys structs) name _ _ (member-Adds name visiting)
                              (find-keys structs name fields e) v,
                        ))
                        o' (path-field visiting name b path (fields, e, field)))
                    seen o)
                  (λ names a. fine (close-visit visiting seen names name fields e v s a)))
          ])
        ])
      ]

  -- Every struct of the list is visited.
  abbrev pub VisitsAll : Structs → Names → Names → Type 0
  VisitsAll rest seen names =
      Kept structs [] seen names
      × ((u : Text) → member (keys rest) u ≡ true → has structs u ≡ true → member names u ≡ true)

  visit_all-Outcome :
      (fuel : ℕ) (rest : Structs) (seen : Names)
      → length structs < fuel
      → IsOrdered structs seen
      → Outcome structs (VisitsAll rest seen) (visit_all fuel structs rest seen)
  unfolding visit_all member
  visit_all-Outcome fuel [] seen lt o = fine (Kept-refl structs [] seen o, (λ u m. absurd (cc)))
  visit_all-Outcome fuel ((name, fields) ∷ rest) seen lt o =
      let room = missing-le (keys structs) (member []) in
      Outcome-then
        (visit_struct-Outcome fuel [] name seen (omega (arith, lt, room, length-keys structs)) o
          (λ u m. absurd (cc)))
        (λ names a.
          Outcome-map
            (λ names' a'. (
              Kept-trans structs [] seen names names' a.0 a'.0,
              (λ u m h. elim (member-cons-cases name (keys rest) u m) [
                | inl same ↦ a'.0.1 u (
                    subst (λ x. member names x ≡ true) same
                      (a.1 (subst (λ x. has structs x ≡ true) (sym same) h)))
                | inr m' ↦ a'.1 u m' h
              ]),
            ))
            (visit_all-Outcome fuel rest names lt a.0.0))

  pub validate_struct_cycles-Outcome :
      Outcome structs (VisitsAll structs []) (validate_struct_cycles structs)
  unfolding validate_struct_cycles
  validate_struct_cycles-Outcome =
      visit_all-Outcome (suc (length structs)) structs [] (omega arith) tt
