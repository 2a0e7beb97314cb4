-- ===== src/Validation/TypeRules.antt =====
-- What the checks of a type by itself accept.
use psic.Prelude.{
  ◌≡◌, refl, ◌⊎◌, ◌↔◌, ℕ, ◌<◌, ◌==◌, ==_iff, ltb, Bool, true, not, ◌||◌, codes, text_eq_iff, arith,
  Option, none, some,
}
use psic.Ast.{TypeNode}
use psic.Target.Pick.{value}
use psic.Validation.Checked.{is, Passes, require-Passes, then-Passes}
use psic.Validation.Types.{check_alignment, validate_type, is_power_of_two}
use psic.Validation.PowerOfTwo.{IsPowerOfTwo, is_power_of_two_iff}

abbrev pub IsVoid : TypeNode → Type 0
IsVoid type = type.base_name ≡ codes "void"

abbrev pub HasAlignment : Option ℕ → Type 0
HasAlignment none = Unit {0}
HasAlignment (some a) = IsPowerOfTwo a

-- A view is one of values, `void` stands where it is allowed or behind a pointer, and an alignment is
-- a power of two.
abbrev pub IsWellFormed : Bool → TypeNode → Type 0
IsWellFormed allow_void type =
    (type.is_view ≡ true → (type.pointer_level ≡ 0) × (IsVoid type → ⊥))
    × (IsVoid type → (allow_void ≡ true) ⊎ (0 < type.pointer_level))
    × HasAlignment type.alignment

check_alignment_iff : (o : Option ℕ) → Passes (check_alignment o) ↔ HasAlignment o
check_alignment_iff none = (λ h. tt, λ h. refl)
check_alignment_iff (some a) =
    let power = is_power_of_two_iff a in
    let passes =
      require-Passes (is_power_of_two a) (codes "alignment must be a positive power of two") in
    (λ h. power.0 (passes.0 h), λ h. passes.1 (power.1 h))

validate_type-conditions :
    (type : TypeNode) (allow_void : Bool)
    → Passes (validate_type type allow_void)
      ↔ ((not type.is_view || type.pointer_level == 0) ≡ true)
        × ((not type.is_view || not (is type.base_name "void")) ≡ true)
        × ((allow_void || not (is type.base_name "void") || ltb 0 type.pointer_level) ≡ true)
        × Passes (check_alignment type.alignment)
unfolding validate_type
validate_type-conditions type allow_void = (
  (λ h.
      let first = (then-Passes _ _).0 h in
      let second = (then-Passes _ _).0 first.1 in
      let third = (then-Passes _ _).0 second.1 in
      (
        (require-Passes _ _).0 first.0,
        (require-Passes _ _).0 second.0,
        (require-Passes _ _).0 third.0,
        third.1,
      )),
  (λ (a, b, c, d). rw (a, b, c) d),
)

-- For every type, the check of a type passes exactly when it is well formed: a view is no pointer
-- and not of `void`, `void` is allowed or stands behind a pointer, and an alignment is 2 ^ k for
-- some k.
pub validate_type_iff :
    (type : TypeNode) (allow_void : Bool)
    → (validate_type type allow_void ≡ value tt) ↔ IsWellFormed allow_void type
validate_type_iff type allow_void =
    let conditions = validate_type-conditions type allow_void in
    let void = text_eq_iff type.base_name (codes "void") in
    let level = ==_iff type.pointer_level 0 in
    let alignment = check_alignment_iff type.alignment in
    (
      (λ h.
          let (a, b, c, d) = conditions.0 h in
          (ground (arith, a, b, c, void, level), ground (arith, c, void), alignment.0 d)),
      (λ (v, u, a). conditions.1 (
        ground (arith, v, void, level),
        ground (arith, v, void),
        ground (arith, u, void),
        alignment.1 a,
      )),
    )
