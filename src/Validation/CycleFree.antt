-- ===== src/Validation/CycleFree.antt =====
-- `validateStructCycles` rejects exactly the programs in which a struct contains itself.
use psic.Prelude.{◌≡◌, refl, inl, inr, ◌↔◌, true, Text, [], ◌∷◌, sym, subst}
use psic.Validation.Environment.{Names, member, has}
use psic.Validation.Missing.{member-tail}
use psic.Validation.Cycles.{Structs, Visit, visited, recursive, out_of_fuel, validate_struct_cycles}
use psic.Validation.Acyclic.{Holds, Contains, directly, through, IsOrdered, IsAcyclic}
use psic.Validation.Visits.{Outcome, fine, cyclic, keys, find-keys}
use psic.Validation.VisitEnds.{
  member-cons-cases, true-ne-false, VisitsAll, validate_struct_cycles-Outcome,
}

module _ (structs : Structs) where
  -- The structs that are visited are closed under fields of structs.
  IsOrdered-closed :
      (seen : Names) (a b : Text)
      → IsOrdered structs seen
      → member seen a ≡ true
      → Holds structs a b
      → has structs b ≡ true
      → member seen b ≡ true
  unfolding member
  IsOrdered-closed [] a b o m h s = absurd (cc)
  IsOrdered-closed (x ∷ seen) a b o m h s = elim (member-cons-cases x seen a m) [
    | inl same ↦ member-tail x seen b (o.0 b (subst (λ x. Holds structs x b) (sym same) h) s)
    | inr m' ↦ member-tail x seen b (IsOrdered-closed seen a b o.2 m' h s)
  ]

  Holds-has : (a b : Text) → Holds structs a b → has structs a ≡ true
  unfolding has
  Holds-has a b h = rw h.1 refl

  Contains-has : {a b : Text} → Contains structs a b → has structs a ≡ true
  Contains-has {a} (directly {b = b} h) = Holds-has a b h
  Contains-has (through c h) = Contains-has c

  -- What the first struct contains was visited before it.
  Contains-seen :
      (x : Text) (seen : Names)
      → IsOrdered structs (x ∷ seen)
      → {b : Text} → Contains structs x b
      → has structs b ≡ true
      → member seen b ≡ true
  Contains-seen x seen o {b} (directly h) s = o.0 b h s
  Contains-seen x seen o {b} (through {b = c} p h) s =
      IsOrdered-closed seen c b o.2 (Contains-seen x seen o p (Holds-has c b h)) h s

  IsOrdered-ne :
      (seen : Names) (a : Text)
      → IsOrdered structs seen
      → member seen a ≡ true
      → Contains structs a a
      → ⊥
  unfolding member
  IsOrdered-ne [] a o m c = cc
  IsOrdered-ne (x ∷ seen) a o m c = elim (member-cons-cases x seen a m) [
    | inl same ↦
        let c' = subst (λ y. Contains structs y y) (sym same) c in
        true-ne-false (member seen x) (Contains-seen x seen o c' (Contains-has c')) o.1
    | inr m' ↦ IsOrdered-ne seen a o.2 m' c
  ]

  Contains-keys : {a b : Text} → Contains structs a b → member (keys structs) a ≡ true
  Contains-keys {a} (directly h) = find-keys structs a h.0 h.1
  Contains-keys (through c h) = Contains-keys c

  VisitsAll-IsAcyclic : (names : Names) → VisitsAll structs structs [] names → IsAcyclic structs
  VisitsAll-IsAcyclic names v name c =
      IsOrdered-ne names name v.0.0 (v.1 name (Contains-keys c) (Contains-has c)) c

-- For every list of structs, the check of by-value cycles visits all of them without an error
-- exactly when no struct contains itself through fields that are no pointers, and it reports a
-- recursive struct exactly when some struct contains itself so.
pub validate_struct_cycles_iff :
    (structs : Structs)
    → (((names : Names) × (validate_struct_cycles structs ≡ visited names)) ↔ IsAcyclic structs)
      × (((message : Text) × (validate_struct_cycles structs ≡ recursive message))
          ↔ ((name : Text) × Contains structs name name))
validate_struct_cycles_iff structs =
    cases (validate_struct_cycles structs) (validate_struct_cycles-Outcome structs)
  where
    cases :
        (v : Visit)
        → Outcome structs (VisitsAll structs structs []) v
        → (((names : Names) × (v ≡ visited names)) ↔ IsAcyclic structs)
          × (((message : Text) × (v ≡ recursive message))
              ↔ ((name : Text) × Contains structs name name))
    cases (visited names) (fine p) =
        let acyclic = VisitsAll-IsAcyclic structs names p in
        ((λ _. acyclic, λ _. (names, refl)), (λ h. absurd (cc), λ h. absurd (acyclic h.0 h.1)))
    cases (recursive m) (cyclic m' name c) =
        ((λ h. absurd (cc), λ a. absurd (a name c)), (λ _. (name, c), λ _. (m, refl)))
    cases out_of_fuel x = elim x [ ]
