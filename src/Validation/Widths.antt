-- ===== src/Validation/Widths.antt =====
-- The widths that `integerWidth` reads off the names of integer types.
use psic.Prelude.{
  ◌≡◌, refl, ◌⊎◌, inl, inr, ℕ, ◌==◌, Bool, true, false, ◌||◌, Text, codes, text_eq, text_eq_iff,
  contains, List, String, [], ◌∷◌, arith, Bool-cases, all, subst,
}
use psic.Ast.{TypeNode}
use psic.Validation.Types.{plain_type, is_integer_type, integer_width, integer_names}

abbrev name_width : Text → ℕ
name_width name = integer_width (plain_type name 0)

contains-all :
    (names : List String) (p : Text → Bool) (name : Text)
    → all (λ n. p (codes n)) names ≡ true
    → contains names name ≡ true
    → p name ≡ true
unfolding contains
contains-all [] p name a c = cc
contains-all (n ∷ names) p name a c = elim (Bool-cases (text_eq (codes n) name)) [
  | inl e ↦ subst (λ x. p x ≡ true) ((text_eq_iff (codes n) name).0 e) (ground (arith, a))
  | inr e ↦ contains-all names p name (ground (arith, a)) (ground (arith, e, c))
]

abbrev is_width_of : List ℕ → ℕ → Bool
is_width_of [] w = false
is_width_of (v ∷ widths) w = v == w || is_width_of widths w

integer_names-widths :
    all (λ n. is_width_of (1 ∷ 8 ∷ 16 ∷ 32 ∷ 64 ∷ []) (name_width (codes n))) integer_names ≡ true
unfolding integer_width codes text_eq
integer_names-widths = refl

-- The width of every integer type is 1, 8, 16, 32 or 64.
pub integer_width-bounds :
    (type : TypeNode)
    → is_integer_type type ≡ true
    → (integer_width type ≡ 1)
      ⊎ ((integer_width type ≡ 8)
          ⊎ ((integer_width type ≡ 16) ⊎ ((integer_width type ≡ 32) ⊎ (integer_width type ≡ 64))))
unfolding integer_width is_integer_type
integer_width-bounds type h =
    let listed =
      contains-all integer_names (λ name. is_width_of (1 ∷ 8 ∷ 16 ∷ 32 ∷ 64 ∷ []) (name_width name))
        type.base_name integer_names-widths (ground (arith, h)) in
    ground (arith, listed)
