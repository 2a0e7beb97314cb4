-- ===== src/Prelude/Bytes.antt =====
-- Text as the list of its bytes, and the comparison of two texts.
use Prim.Native.Nat.{ℕ, compare, Ordering}
use Prim.Native.Char.{code}
use Prim.Native.String.{String}
use mathlib.Core.Path.{◌≡◌, refl}
use mathlib.Core.Logic.{◌↔◌}
use mathlib.Core.Bool.{Bool, true, false, ◌&&◌, ◌||◌}
use mathlib.Core.List.{List, [], ◌∷◌}
use native.Mathlib.Omega.{arith}

abbrev pub Text : Type 0
Text = List ℕ

-- The bytes of a literal, all of whose characters are ASCII.
unfoldable pub codes : String → Text
codes String.[] = []
codes (String.◌∷◌ c s) = code c ∷ codes s

unfoldable pub text_eq : Text → Text → Bool
text_eq [] [] = true
text_eq (x ∷ xs) (y ∷ ys) = (elim (compare x y) [ Ordering.eq ↦ true | _ ↦ false ]) && text_eq xs ys
text_eq _ _ = false

pub text_eq_iff : (a b : Text) → (text_eq a b ≡ true) ↔ (a ≡ b)
unfolding text_eq
text_eq_iff (x ∷ a) (y ∷ b) = ground (arith, text_eq_iff a b)
text_eq_iff _ _ = ground arith

pub text_eq_refl : (a : Text) → text_eq a a ≡ true
text_eq_refl a = (text_eq_iff a a).1 refl

pub text_eq_comm : (a b : Text) → text_eq a b ≡ text_eq b a
unfolding text_eq
text_eq_comm [] [] = refl
text_eq_comm [] (d ∷ ds) = refl
text_eq_comm (c ∷ cs) [] = refl
text_eq_comm (c ∷ cs) (d ∷ ds) = ground (arith, text_eq_comm cs ds)

-- `std::find` of a text in a constant array of names.
unfoldable pub contains : List String → Text → Bool
unfolding codes text_eq
contains [] t = false
contains (n ∷ ns) t = text_eq (codes n) t || contains ns t
