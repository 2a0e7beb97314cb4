-- ===== src/Prelude/Lists.antt =====
-- Lists measured and indexed by native numbers, under the library's names.
use Prim.Native.Nat.{ℕ, zero, suc, ◌+◌}
use mathlib.Core.Path.{◌≡◌, refl, ap}
use mathlib.Core.Bool.{Bool, true, ◌&&◌}
use mathlib.Core.List.{List, [], ◌∷◌, ◌++◌}
use native.Mathlib.Omega.{arith}

module _ {ℓ} {A : Type ℓ} where
  abbrev pub length : List A → ℕ
  length [] = 0
  length (x ∷ xs) = suc (length xs)

  abbrev pub tail : List A → List A
  tail [] = []
  tail (x ∷ xs) = xs

  pub length-append : (xs ys : List A) → length (xs ++ ys) ≡ length xs + length ys
  length-append [] ys = omega arith
  length-append (x ∷ xs) ys = omega (arith, length-append xs ys)

  -- The element `i` places on, or the last one of the non-empty list `x ∷ xs`.
  abbrev pub get_or_last : A → List A → ℕ → A
  get_or_last x [] i = x
  get_or_last x (y ∷ ys) zero = x
  get_or_last x (y ∷ ys) (suc i) = get_or_last y ys i

  abbrev pub last_of : A → List A → A
  last_of x [] = x
  last_of x (y ∷ ys) = last_of y ys

  abbrev pub all : (A → Bool) → List A → Bool
  all p [] = true
  all p (x ∷ xs) = p x && all p xs

  pub append-cons_assoc :
      (xs ys zs : List A) (a : A) → xs ++ (a ∷ ys) ++ zs ≡ xs ++ (a ∷ (ys ++ zs))
  append-cons_assoc [] ys zs a = refl
  append-cons_assoc (x ∷ xs) ys zs a = ap (◌∷◌ x) (append-cons_assoc xs ys zs a)
