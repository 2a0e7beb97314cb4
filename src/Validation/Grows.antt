-- ===== src/Validation/Grows.antt =====
-- What a step of the flow analysis does to the alias sets: nothing, or it adds a name and sets the
-- flag.
use psic.Prelude.{
  ◌≡◌, refl, ◌⊎◌, inl, inr, ℕ, ◌+◌, ◌*◌, ◌≤◌, ◌<◌, Bool, true, false, if◌then◌else◌, Text, List,
  ◌∷◌, length, arith, Bool-cases, some, subst, sym, Option-cases,
}
use psic.Target.Pick.{Checked, value, runtime_error}
use psic.Validation.Checked.{◌>>=◌, Returns, returns, throws, Returns-bind, Returns-map}
use psic.Validation.Environment.{Map, member, find, has}
use psic.Validation.Aliases.{Flow}
use psic.Validation.Flow.{
  add_immutable, add_storage, add_contents, add_aggregate_reference, add_reference, add_if,
  add_when, with_reference,
}
use psic.Validation.Missing.{missing, missing-le, missing-lt, member-Adds, has-Adds}

-- The local that a name refers to is one of the names.
abbrev pub RefersWithin : List Text → Map Text → Type 0
RefersWithin names references =
    (u local : Text) → find references u ≡ some local → member names local ≡ true

module _ (names : List Text) where
  -- How much can still be added.
  abbrev pub room : Flow → ℕ
  room f =
      missing names (member f.immutable_aliases)
      + missing names (member f.local_storage_aliases)
      + missing names (member f.local_aggregate_contents)
      + missing names (member f.local_aggregate_references)
      + missing names (has f.local_references)

  pub room-le : (f : Flow) → room f ≤ 5 * length names
  room-le f = omega (
    arith,
    missing-le names (member f.immutable_aliases),
    missing-le names (member f.local_storage_aliases),
    missing-le names (member f.local_aggregate_contents),
    missing-le names (member f.local_aggregate_references),
    missing-le names (has f.local_references),
  )

  abbrev pub Grows : Flow → Flow → Type 0
  Grows f g =
      ((g ≡ f) ⊎ ((room g < room f) × (g.added ≡ true))) × RefersWithin names g.local_references

  -- A step that starts within the names.
  abbrev pub Step : (Flow → Flow) → Type 0
  Step step = (f : Flow) → RefersWithin names f.local_references → Grows f (step f)

  abbrev pub StepChecked : (Flow → Checked Flow) → Type 0
  StepChecked step = (f : Flow) → RefersWithin names f.local_references → Returns (Grows f) (step f)

  pub Grows-trans : {f g h : Flow} → Grows f g → Grows g h → Grows f h
  Grows-trans {f} {g} {h} (inl e, w) (inl e', w') = (inl (cc), w')
  Grows-trans {f} {g} {h} (inl e, w) (inr (lt, a), w') =
      (inr (subst (λ x. room h < room x) e lt, a), w')
  Grows-trans {f} {g} {h} (inr (lt, a), w) (inl e, w') =
      (inr (subst (λ x. room x < room f) (sym e) lt, subst (λ x. x.added ≡ true) (sym e) a), w')
  Grows-trans {f} {g} {h} (inr (lt, a), w) (inr (lt', a'), w') =
      (inr (omega (arith, lt, lt'), a'), w')

  pub add_immutable-Grows : (x : Text) → member names x ≡ true → Step (add_immutable x)
  unfolding add_immutable
  add_immutable-Grows x m f w = elim (Bool-cases (member f.immutable_aliases x)) [
    | inl e ↦ rw e (inl refl, w)
    | inr e ↦ rw e (
      inr (omega (arith, missing-lt names x _ _ (member-Adds x f.immutable_aliases) m e), refl),
      w,
    )
  ]

  pub add_storage-Grows : (x : Text) → member names x ≡ true → Step (add_storage x)
  unfolding add_storage
  add_storage-Grows x m f w = elim (Bool-cases (member f.local_storage_aliases x)) [
    | inl e ↦ rw e (inl refl, w)
    | inr e ↦ rw e (
      inr (omega (arith, missing-lt names x _ _ (member-Adds x f.local_storage_aliases) m e), refl),
      w,
    )
  ]

  pub add_contents-Grows : (x : Text) → member names x ≡ true → Step (add_contents x)
  unfolding add_contents
  add_contents-Grows x m f w = elim (Bool-cases (member f.local_aggregate_contents x)) [
    | inl e ↦ rw e (inl refl, w)
    | inr e ↦ rw e (
      inr (
        omega (arith, missing-lt names x _ _ (member-Adds x f.local_aggregate_contents) m e),
        refl,
      ),
      w,
    )
  ]

  pub add_aggregate_reference-Grows :
      (x : Text) → member names x ≡ true → Step (add_aggregate_reference x)
  unfolding add_aggregate_reference
  add_aggregate_reference-Grows x m f w =
      elim (Bool-cases (member f.local_aggregate_references x)) [
        | inl e ↦ rw e (inl refl, w)
        | inr e ↦ rw e (
          inr (
            omega (arith, missing-lt names x _ _ (member-Adds x f.local_aggregate_references) m e),
            refl,
          ),
          w,
        )
      ]

  RefersWithin-add :
      (x local : Text) (references : Map Text)
      → member names local ≡ true
      → RefersWithin names references
      → RefersWithin names ((x, local) ∷ references)
  unfolding find
  RefersWithin-add x local references m w u found e = ground (arith, w u found, e, m)

  pub add_reference-Grows :
      (x local : Text)
      → member names x ≡ true
      → member names local ≡ true
      → Step (add_reference x local)
  unfolding add_reference
  add_reference-Grows x local m m' f w = elim (Bool-cases (has f.local_references x)) [
    | inl e ↦ rw e (inl refl, w)
    | inr e ↦ rw e (
      inr (omega (arith, missing-lt names x _ _ (has-Adds x local f.local_references) m e), refl),
      RefersWithin-add x local f.local_references m' w,
    )
  ]

  pub none-Grows : (f : Flow) → RefersWithin names f.local_references → Grows f f
  none-Grows f w = (inl refl, w)

  pub add_if-Grows : (b : Bool) {add : Flow → Flow} → Step add → Step (add_if b add)
  add_if-Grows true s f w = s f w
  add_if-Grows false s f w = none-Grows f w

  pub add_when-Grows :
      (condition : Checked Bool) {add : Flow → Flow}
      → Step add
      → StepChecked (add_when condition add)
  add_when-Grows (value b) s f w = returns (add_if-Grows b s f w)
  add_when-Grows (runtime_error m) s f w = throws m

  pub with_reference-Grows :
      {add : Text → Flow → Checked Flow} (x : Text)
      → ((local : Text) → member names local ≡ true → StepChecked (add local))
      → StepChecked (with_reference add x)
  with_reference-Grows {add} x s f w = elim (Option-cases (find f.local_references x)) [
    | inl e ↦ rw (e, with_reference) (returns (none-Grows f w))
    | inr (local, e) ↦ rw (e, with_reference) (s local (w x local e) f w)
  ]

  -- One step behind another.
  pub then-Grows :
      {f g : Flow} {step : Flow → Checked Flow}
      → Grows f g
      → StepChecked step
      → Returns (Grows f) (step g)
  then-Grows {f} {g} {step} d s = Returns-map (λ h. Grows-trans d) (s g d.1)

  pub bind-Grows :
      {first second : Flow → Checked Flow}
      → StepChecked first
      → StepChecked second
      → StepChecked (λ f. first f >>= second)
  bind-Grows s t f w = Returns-bind (s f w) (λ g d. then-Grows d t)

  pub pure-Grows : {first : Flow → Flow} → Step first → StepChecked (λ f. value (first f))
  pure-Grows s f w = returns (s f w)

  pub seq-Grows :
      {first second : Flow → Flow} → Step first → Step second → Step (λ f. second (first f))
  seq-Grows s t f w = let d = s f w in Grows-trans d (t _ d.1)

  pub choice-Grows :
      (condition : Checked Bool) {add : Flow → Checked Flow}
      → StepChecked add
      → (f : Flow) → RefersWithin names f.local_references
      → Returns (Grows f) (condition >>= λ b. if b then add f else value f)
  choice-Grows (value true) s f w = s f w
  choice-Grows (value false) s f w = returns (none-Grows f w)
  choice-Grows (runtime_error m) s f w = throws m
