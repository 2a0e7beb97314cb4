-- ===== src/Source.antt =====
-- src/ast.hpp: source locations, and `LocatedSourceError` as the failing result of a pass.
use psic.Prelude.{subst, ◌≢◌, Bool, true, false, ◌≡◌, refl, if◌then◌else◌, Text, ℕ}

pub record SourceLocation : Type 0 where
  pub line : ℕ
  pub column : ℕ

-- `failed` is a thrown `LocatedSourceError`. `out_of_fuel` has no counterpart in the program.
pub data Result {ℓ} (A : Type ℓ) : Type ℓ where
  ok : A → Result A
  failed : Text → SourceLocation → Result A
  out_of_fuel : Result A

infixl 5 ◌>>=◌ ◌>>◌
abbrev pub ◌>>=◌ {ℓ κ} : {A : Type ℓ} {B : Type κ} → Result A → (A → Result B) → Result B
ok a >>= f = f a
failed m l >>= f = failed m l
out_of_fuel >>= f = out_of_fuel

abbrev pub ◌>>◌ {ℓ κ} : {A : Type ℓ} {B : Type κ} → Result A → Result B → Result B
m >> k = m >>= λ _. k

-- The run stayed within its fuel, and `P` holds of its value if it has one.
pub data Ensures {ℓ κ} {A : Type ℓ} (P : A → Type κ) : Result A → Type (ℓ ⊔ κ) where
  holds : {a : A} → P a → Ensures P (ok a)
  rejected : (m : Text) (l : SourceLocation) → Ensures P (failed m l)

pub Ensures-if {ℓ κ} :
    {A : Type ℓ} {P : A → Type κ} (b : Bool) {x y : Result A}
    → (b ≡ true → Ensures P x)
    → (b ≡ false → Ensures P y)
    → Ensures P (if b then x else y)
Ensures-if true hx hy = hx refl
Ensures-if false hx hy = hy refl

pub Ensures-bind {ℓ κ ℓ' κ'} :
    {A : Type ℓ} {P : A → Type κ} {B : Type ℓ'} {Q : B → Type κ'} {r : Result A} {f : A → Result B}
    → Ensures P r
    → ((a : A) → P a → Ensures Q (f a))
    → Ensures Q (r >>= f)
Ensures-bind (holds {a} h) g = g a h
Ensures-bind (rejected m l) g = rejected m l

pub Ensures-ok {ℓ κ} :
    {A : Type ℓ} {P : A → Type κ} {r : Result A} {a : A} → Ensures P r → r ≡ ok a → P a
Ensures-ok {P = P} (holds h) e = subst P (cc) h
Ensures-ok (rejected m l) e = cc

pub Ensures-ne-out_of_fuel {ℓ κ} :
    {A : Type ℓ} {P : A → Type κ} {r : Result A} → Ensures P r → r ≢ out_of_fuel
Ensures-ne-out_of_fuel (holds h) = cc
Ensures-ne-out_of_fuel (rejected m l) = cc

pub Ensures-both {ℓ κ κ'} :
    {A : Type ℓ} {P : A → Type κ} {Q : A → Type κ'} {r : Result A}
    → Ensures P r
    → Ensures Q r
    → Ensures (λ a. P a × Q a) r
Ensures-both (holds p) (holds q) = holds (p, q)
Ensures-both (rejected m l) (rejected m' l') = rejected m l

pub Ensures-map {ℓ κ κ'} :
    {A : Type ℓ} {P : A → Type κ} {Q : A → Type κ'} {r : Result A}
    → ((a : A) → P a → Q a)
    → Ensures P r
    → Ensures Q r
Ensures-map g (holds {a} h) = holds (g a h)
Ensures-map g (rejected m l) = rejected m l
