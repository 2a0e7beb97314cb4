-- ===== src/Validation/Visits.antt =====
-- `visitStructByValue` follows the fields of the structs within its fuel.
use psic.Prelude.{
  ◌≡◌, refl, inl, inr, ◌==◌, ==_iff, true, Text, List, [], ◌∷◌, length, arith, Bool-cases, some,
  sym, subst,
}
use psic.Ast.{ArgNode}
use psic.Validation.Environment.{Map, Names, member, find, has}
use psic.Validation.Cycles.{Structs, Visit, visited, recursive, after_visit, visit_fields}
use psic.Validation.Acyclic.{HasField, Contains, IsOrdered}

-- What is so of the outcome: `P` of the visited structs, or a struct contains itself.
pub data Outcome (structs : Structs) (P : Names → Type 0) : Visit → Type 0 where
  fine : {names : Names} → P names → Outcome structs P (visited names)
  cyclic : (m : Text) (name : Text) → Contains structs name name → Outcome structs P (recursive m)

pub Outcome-then :
    {structs : Structs} {P Q : Names → Type 0} {v : Visit} {next : Names → Visit}
    → Outcome structs P v
    → ((names : Names) → P names → Outcome structs Q (next names))
    → Outcome structs Q (after_visit v next)
Outcome-then (fine {names} p) g = g names p
Outcome-then (cyclic m name c) g = cyclic m name c

pub Outcome-map :
    {structs : Structs} {P Q : Names → Type 0} {v : Visit}
    → ((names : Names) → P names → Q names)
    → Outcome structs P v
    → Outcome structs Q v
Outcome-map g (fine {names} p) = fine (g names p)
Outcome-map g (cyclic m name c) = cyclic m name c

-- The names of a map.
abbrev pub keys : {A : Type 0} → Map A → List Text
keys [] = []
keys ((name, _) ∷ m) = name ∷ keys m

pub length-keys : {A : Type 0} (m : Map A) → length (keys m) ≡ length m
length-keys [] = refl
length-keys ((name, _) ∷ m) = omega (arith, length-keys m)

pub find-keys :
    {A : Type 0} (m : Map A) (name : Text) (a : A)
    → find m name ≡ some a
    → member (keys m) name ≡ true
unfolding find member
find-keys [] name a h = cc
find-keys ((key, b) ∷ m) name a h = ground (arith, find-keys m name a)

abbrev Extends : Names → Names → Type 0
Extends seen names = (u : Text) → member seen u ≡ true → member names u ≡ true

module _ (structs : Structs) (visiting : Names) where
  -- More is visited, in order, and none of those that are being visited.
  abbrev pub Kept : Names → Names → Type 0
  Kept seen names =
      IsOrdered structs names
      × Extends seen names
      × ((u : Text) → member visiting u ≡ true → member names u ≡ true → member seen u ≡ true)

  abbrev pub After : Names → Text → Names → Type 0
  After seen name names = Kept seen names × (has structs name ≡ true → member names name ≡ true)

  abbrev pub AfterFields : Names → List ArgNode → Names → Type 0
  AfterFields seen fields names =
      Kept seen names
      × ((b : Text) → HasField fields b → has structs b ≡ true → member names b ≡ true)

  pub Kept-refl : (seen : Names) → IsOrdered structs seen → Kept seen seen
  Kept-refl seen o = (o, (λ u m. m), (λ u v m. m))

  pub Kept-trans : (s t r : Names) → Kept s t → Kept t r → Kept s r
  Kept-trans s t r k l = (l.0, (λ u m. l.1 u (k.1 u m)), (λ u v m. k.2 u v (l.2 u v m)))

  pub visit_fields-Outcome :
      (visit : Text → Names → Visit) (fields : List ArgNode)
      → ((b : Text)
          → HasField fields b
          → (seen : Names) → IsOrdered structs seen
          → Outcome structs (After seen b) (visit b seen))
      → (seen : Names) → IsOrdered structs seen
      → Outcome structs (AfterFields seen fields) (visit_fields visit fields seen)
  unfolding visit_fields
  visit_fields-Outcome visit [] h seen o = fine (Kept-refl seen o, (λ b f. absurd f))
  visit_fields-Outcome visit (f ∷ fields) h seen o =
      let ih = visit_fields-Outcome visit fields (λ b i. h b (inr i)) in
      elim (Bool-cases (f.type.pointer_level == 0)) [
        | inl e ↦
            let level = (==_iff f.type.pointer_level 0).0 e in
            rw e (
              Outcome-then (h f.type.base_name (inl (level, refl)) seen o) (λ names a.
                Outcome-map
                  (λ names' a'. (
                    Kept-trans seen names names' a.0 a'.0,
                    λ b. elim [
                      | inl (_, same) ↦ λ s. a'.0.1 b (
                          subst (λ x. member names x ≡ true) same
                            (a.1 (subst (λ x. has structs x ≡ true) (sym same) s)))
                      | inr i ↦ a'.1 b i
                    ],
                  ))
                  (ih names a.0.0)))
        | inr e ↦ rw e (
            Outcome-map
              (λ names a. (
                a.0,
                λ b. elim [
                  | inl (level, _) ↦ λ s. absurd (ground (arith, e, level))
                  | inr i ↦ a.1 b i
                ],
              ))
              (ih seen o))
      ]
