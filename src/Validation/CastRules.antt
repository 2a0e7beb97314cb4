-- ===== src/Validation/CastRules.antt =====
-- How the explicit casts of `validateExplicitCast` relate to each other, and the widths of integers.
use psic.Prelude.{
  ◌≡◌, ◌↔◌, ℕ, ◌==◌, ltb, Bool, true, false, not, ◌&&◌, if◌then◌else◌, Text, codes, text_eq, arith,
}
use psic.Ast.{TypeNode}
use psic.Validation.Checked.{◌>>◌, require, is, Passes, require-Passes}
use psic.Validation.Types.{is_integer_type, is_floating_type, integer_width}
use psic.Validation.Command.{PointerModel}
use psic.Validation.Infer.{known_type}
use psic.Validation.Casts.{
  check_cast, check_ptrtoint, check_inttoptr, check_integer_resize, check_float_resize, float_width,
  is_pointer_level_0,
}

two-Passes :
    (a b : Bool) (m n : Text) → Passes (require a m >> require b n) ↔ ((a ≡ true) × (b ≡ true))
two-Passes a b m n = ground arith

three-Passes :
    (a b c : Bool) (m n o : Text)
    → Passes (require a m >> (require b n >> require c o)) ↔ ((a && b && c) ≡ true)
three-Passes true true c m n o = require-Passes c o
three-Passes true false c m n o = (λ h. cc, λ h. cc)
three-Passes false b c m n o = (λ h. cc, λ h. cc)

pub is_integer_type-scalar :
    (type : TypeNode) → is_integer_type type ≡ true → (type.pointer_level == 0) ≡ true
unfolding is_integer_type
is_integer_type-scalar type h = ground (arith, h)

-- `narrow` is whether the name is that of the cast that narrows.
abbrev resizes : Bool → ℕ → ℕ → Bool
resizes narrow from to = if narrow then ltb to from else ltb from to

-- What the casts between integers, and those between floating-point types, ask for.
check_integer_resize_iff :
    (name : Text) (s r : TypeNode)
    → Passes (check_integer_resize name (known_type s) r) ↔ (
        (is_integer_type s ≡ true)
        × (is_integer_type r ≡ true)
        × (resizes (is name "trunc") (integer_width s) (integer_width r) ≡ true))
unfolding check_integer_resize
check_integer_resize_iff name s r =
    let passes =
      three-Passes (is_pointer_level_0 s && is_pointer_level_0 r)
        (is_integer_type s && is_integer_type r)
        (resizes (is name "trunc") (integer_width s) (integer_width r)) _ _ _ in
    (
      (λ h. ground (arith, passes.0 h)),
      (λ (a, b, c).
          passes.1
            (ground (arith, a, b, c, is_integer_type-scalar s a, is_integer_type-scalar r b))),
    )

pub is_floating_type-scalar :
    (type : TypeNode) → is_floating_type type ≡ true → (type.pointer_level == 0) ≡ true
unfolding is_floating_type
is_floating_type-scalar type h = ground (arith, h)

check_float_resize_iff :
    (name : Text) (s r : TypeNode)
    → Passes (check_float_resize name (known_type s) r) ↔ (
        (is_floating_type s ≡ true)
        × (is_floating_type r ≡ true)
        × (resizes (not (is name "fpext")) (float_width s) (float_width r) ≡ true))
unfolding check_float_resize
check_float_resize_iff name s r =
    let passes =
      three-Passes (is_pointer_level_0 s && is_pointer_level_0 r)
        (is_floating_type s && is_floating_type r)
        (if is name "fpext"
          then ltb (float_width s) (float_width r)
          else ltb (float_width r) (float_width s))
        _ _ _ in
    (
      (λ h. ground (arith, passes.0 h)),
      (λ (a, b, c).
          passes.1
            (ground (arith, a, b, c, is_floating_type-scalar s a, is_floating_type-scalar r b))),
    )

four-Passes :
    (a b c d : Bool) (m n o p : Text)
    → Passes (require a m >> (require b n >> (require c o >> require d p)))
      ↔ ((a && b && c && d) ≡ true)
four-Passes true b c d m n o p = three-Passes b c d n o p
four-Passes false b c d m n o p = (λ h. cc, λ h. cc)

check_ptrtoint_iff :
    (model : PointerModel) (s r : TypeNode)
    → Passes (check_ptrtoint model (known_type s) r) ↔ (
        (ltb 0 s.pointer_level
          && is_integer_type r
          && model.integral
          && integer_width r == model.bits)
        ≡ true)
unfolding check_ptrtoint
check_ptrtoint_iff model s r =
    four-Passes (ltb 0 s.pointer_level) (is_integer_type r) model.integral
      (integer_width r == model.bits) (codes "'#ptrtoint' requires a pointer operand")
      (codes "'#ptrtoint' requires an integer result type")
      (codes "'#ptrtoint' is unavailable for a non-integral pointer target")
      (codes "'#ptrtoint' result width must match the target pointer width")

check_inttoptr_iff :
    (model : PointerModel) (r s : TypeNode)
    → Passes (check_inttoptr model (known_type r) s) ↔ (
        ((is_pointer_level_0 r && is_integer_type r)
          && ltb 0 s.pointer_level
          && model.integral
          && integer_width r == model.bits)
        ≡ true)
unfolding check_inttoptr
check_inttoptr_iff model r s =
    four-Passes (is_pointer_level_0 r && is_integer_type r) (ltb 0 s.pointer_level) model.integral
      (integer_width r == model.bits) (codes "'#inttoptr' requires an integer operand")
      (codes "'#inttoptr' requires a pointer result type")
      (codes "'#inttoptr' is unavailable for a non-integral pointer target")
      (codes "'#inttoptr' operand width must match the target pointer width")

-- For all types s and r, `#trunc` of an s to an r is allowed exactly when `#sext` of an r to an s is,
-- and exactly when `#zext` of an r to an s is; `#fptrunc` of an s to an r exactly when `#fpext` of an r
-- to an s is; and `#ptrtoint` of an s to an r exactly when `#inttoptr` of an r to an s is.
pub check_cast-back :
    (model : PointerModel) (s r : TypeNode)
    → (Passes (check_cast model (codes "trunc") (known_type s) r)
        ↔ Passes (check_cast model (codes "sext") (known_type r) s))
      × (Passes (check_cast model (codes "trunc") (known_type s) r)
          ↔ Passes (check_cast model (codes "zext") (known_type r) s))
      × (Passes (check_cast model (codes "fptrunc") (known_type s) r)
          ↔ Passes (check_cast model (codes "fpext") (known_type r) s))
      × (Passes (check_cast model (codes "ptrtoint") (known_type s) r)
          ↔ Passes (check_cast model (codes "inttoptr") (known_type r) s))
unfolding check_cast codes text_eq
check_cast-back model s r =
    let trunc = check_integer_resize_iff (codes "trunc") s r in
    let sext = check_integer_resize_iff (codes "sext") r s in
    let zext = check_integer_resize_iff (codes "zext") r s in
    let fptrunc = check_float_resize_iff (codes "fptrunc") s r in
    let fpext = check_float_resize_iff (codes "fpext") r s in
    let to_integer = check_ptrtoint_iff model s r in
    let to_pointer = check_inttoptr_iff model r s in
    (
      ground (arith, trunc, sext),
      ground (arith, trunc, zext),
      ground (arith, fptrunc, fpext),
      ground (arith, to_integer, to_pointer, is_integer_type-scalar r),
    )
