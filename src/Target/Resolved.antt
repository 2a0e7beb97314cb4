-- ===== src/Target/Resolved.antt =====
-- `resolveTarget` of src/compiler.cpp: the options that it accepts, and the target that they give.
use psic.Prelude.{
  ◌≡◌, ◌↔◌, refl, ap, sym, ◌∙◌, Bool, true, false, ◌&&◌, not, [], Text, if◌then◌else◌, arith,
}
use psic.Target.Model.{Architecture, OperatingSystem, free_standing, same_os, same_os_iff}
use psic.Target.Groups.{architecture_profile_family}
use psic.Target.Pick.{
  Checked, value, runtime_error, Triple, is_empty, then_with, pick_architecture,
  pick_operating_system,
}
use psic.Target.Resolve.{
  TargetConfig, TargetOptions, valid_pair, check_pair, default_os, check_os, resolve_picked,
  resolve_os, resolve_target,
}
use psic.Target.Supported.{supported, is_wasm, is_web_assembly-is_wasm, valid_pair-supported}

value-injective : {A : Type 0} {a b : A} → value a ≡ value b → a ≡ b
value-injective e = cc

then_with-Value :
    {A B : Type 0} (x : Checked A) (f : A → Checked B) (b : B)
    → then_with x f ≡ value b
    → (a : A) × (x ≡ value a) × (f a ≡ value b)
then_with-Value (value a) f b h = (a, refl, h)
then_with-Value (runtime_error message) f b h = absurd (cc)

if-Value :
    {A : Type 0} (b : Bool) (x t : A) (message : Text)
    → ((if b then value x else runtime_error message) ≡ value t) ↔ ((b ≡ true) × (x ≡ t))
if-Value true x t message = (λ h. (refl, cc), λ h. ap value h.1)
if-Value false x t message = (λ h. absurd (cc), λ h. absurd (cc))

agreement :
    (both : Bool) (r : Checked OperatingSystem) (os chosen : OperatingSystem) (message : Text)
    → ((if both
          then then_with r (λ other. if same_os os other then value os else runtime_error message)
          else value os)
        ≡ value chosen)
      ↔ ((os ≡ chosen) × (both ≡ true → r ≡ value chosen))
agreement false r os chosen message = (λ h. (cc, λ e. absurd (cc)), λ h. ap value h.0)
agreement true (runtime_error text) os chosen message = (λ h. absurd (cc), λ h. h.1 refl)
agreement true (value other) os chosen message =
    let (there, back) = if-Value (same_os os other) os chosen message in
    let same = same_os_iff os other in
    (
      λ h. let (found, e) = there h in (e, λ _. ap value (sym (same.0 found) ∙ e)),
      λ h.
          let other_one : other ≡ chosen = value-injective (h.1 refl) in
          back (same.1 (h.0 ∙ sym other_one), h.0),
    )

abbrev has_triple : TargetOptions → Bool
has_triple options = not (is_empty options.target_triple)

-- WebAssembly runs without an operating system where neither one nor a triple is named.
abbrev pub chosen_os : TargetOptions → Architecture → OperatingSystem → OperatingSystem
chosen_os options a picked =
    if is_empty options.operating_system && is_empty options.target_triple && is_wasm a
    then free_standing
    else picked

default_os-chosen_os :
    (options : TargetOptions) (a : Architecture) (os : OperatingSystem)
    → default_os options a os ≡ chosen_os options a os
unfolding default_os
default_os-chosen_os options a os = rw (is_web_assembly-is_wasm a) refl

module _ (triple : Text → Triple) where
  -- The options give the target.
  pub record Resolved (options : TargetOptions) (t : TargetConfig) : Type 0 where
    pub architecture :
        pick_architecture triple options.architecture options.target_triple ≡ value t.architecture
    pub picked : OperatingSystem
    pub picks :
        pick_operating_system triple options.operating_system options.target_triple ≡ value picked
    pub chosen : t.operating_system ≡ chosen_os options t.architecture picked
    pub agrees :
        is_empty options.operating_system ≡ false
        → is_empty options.target_triple ≡ false
        → pick_operating_system triple [] options.target_triple ≡ value t.operating_system
    pub pair : supported (has_triple options) t.architecture t.operating_system ≡ true

  check_pair-Value :
      (options : TargetOptions) (a : Architecture) (os : OperatingSystem) (t : TargetConfig)
      → (check_pair options a os ≡ value t) ↔ (
          (a ≡ t.architecture)
          × (os ≡ t.operating_system)
          × (supported (has_triple options) a os ≡ true))
  unfolding check_pair
  check_pair-Value options a os t =
      let table = valid_pair-supported (has_triple options) a os in
      let (there, back) =
        if-Value (valid_pair (has_triple options) (architecture_profile_family a) os)
          (record { architecture = a; operating_system = os }) t _ in
      (
        λ h.
            let (valid, same) = there h in
            (ap (λ u. u.architecture) same, ap (λ u. u.operating_system) same, sym table ∙ valid),
        λ h. back (table ∙ h.2, rw (h.0, h.1) refl),
      )

  check_os-Value :
      (options : TargetOptions) (os chosen : OperatingSystem)
      → (check_os triple options os ≡ value chosen) ↔ (
          (os ≡ chosen)
          × (is_empty options.operating_system ≡ false
              → is_empty options.target_triple ≡ false
              → pick_operating_system triple [] options.target_triple ≡ value chosen))
  unfolding check_os
  check_os-Value options os chosen =
      let named = not (is_empty options.operating_system) && not (is_empty options.target_triple) in
      let (there, back) =
        agreement named (pick_operating_system triple [] options.target_triple) os chosen _ in
      (
        λ h. let (same, other) = there h in (same, λ p q. other (ground (arith, p, q))),
        λ h. back (h.0, λ e. h.1 (ground (arith, e)) (ground (arith, e))),
      )

  resolve_picked-Value :
      (options : TargetOptions) (a : Architecture) (os : OperatingSystem) (t : TargetConfig)
      → resolve_picked triple options a os ≡ value t
      → (a ≡ t.architecture)
        × (default_os options a os ≡ t.operating_system)
        × (is_empty options.operating_system ≡ false
            → is_empty options.target_triple ≡ false
            → pick_operating_system triple [] options.target_triple ≡ value t.operating_system)
        × (supported (has_triple options) t.architecture t.operating_system ≡ true)
  unfolding resolve_picked
  resolve_picked-Value options a os t h =
      let (chosen, checked, rest) =
        then_with-Value (check_os triple options (default_os options a os)) (check_pair options a) t
          h in
      let (same, chose, pair) = (check_pair-Value options a chosen t).0 rest in
      let (is_chosen, agrees) =
        (check_os-Value options (default_os options a os) chosen).0 checked in
      (same, is_chosen ∙ chose, (λ p q. agrees p q ∙ ap value chose), rw (same, chose) at pair)

  resolve_target-Resolved :
      (options : TargetOptions) (t : TargetConfig)
      → resolve_target triple options ≡ value t
      → Resolved options t
  unfolding resolve_target resolve_os
  resolve_target-Resolved options t h =
      let (a, architecture, h1) =
        then_with-Value (pick_architecture triple options.architecture options.target_triple)
          (resolve_os triple options) t h in
      let (picked, picks, h2) =
        then_with-Value
          (pick_operating_system triple options.operating_system options.target_triple)
          (resolve_picked triple options a) t h1 in
      let (same, chosen, agrees, pair) = resolve_picked-Value options a picked t h2 in
      record {
        architecture = architecture ∙ ap value same;
        picked = picked;
        picks = picks;
        chosen =
            sym chosen
            ∙ default_os-chosen_os options a picked
            ∙ ap (λ b. chosen_os options b picked) same;
        agrees = agrees;
        pair = pair;
      }

  Resolved-resolve_target :
      (options : TargetOptions) (t : TargetConfig)
      → Resolved options t
      → resolve_target triple options ≡ value t
  unfolding resolve_target resolve_os resolve_picked
  Resolved-resolve_target options t r =
      let chosen = default_os-chosen_os options t.architecture r.picked ∙ sym r.chosen in
      let checked =
        (check_os-Value options (default_os options t.architecture r.picked) t.operating_system).1
          (chosen, r.agrees) in
      let pair =
        (check_pair-Value options t.architecture t.operating_system t).1 (refl, refl, r.pair) in
      rw (r.architecture, r.picks, checked) pair

  -- `resolveTarget` returns a target if and only if the architecture and the operating system are
  -- the ones that the options and the triple pick, without a system the default of the architecture,
  -- a named system and a triple agree, and the table supports the pair.
  pub resolve_target_iff :
      (options : TargetOptions) (t : TargetConfig)
      → (resolve_target triple options ≡ value t) ↔ Resolved options t
  resolve_target_iff options t =
      (resolve_target-Resolved options t, Resolved-resolve_target options t)
