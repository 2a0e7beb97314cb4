-- ===== src/Validation/Checked.antt =====
-- src/validation.cpp: `require`, and a pass that returns or throws a `std::runtime_error`.
use psic.Prelude.{
  ◌≡◌, refl, ◌↔◌, Bool, true, false, String, Text, codes, text_eq, ◌++◌, List, [], ◌∷◌,
}
use psic.Target.Pick.{Checked, value, runtime_error}

infixl 5 ◌>>=◌ ◌>>◌
abbrev pub ◌>>=◌ : {A B : Type 0} → Checked A → (A → Checked B) → Checked B
value a >>= f = f a
runtime_error m >>= f = runtime_error m

abbrev pub ◌>>◌ : {A B : Type 0} → Checked A → Checked B → Checked B
r >> s = r >>= λ _. s

abbrev pub require : Bool → Text → Checked (Unit {0})
require true message = value tt
require false message = runtime_error message

-- The check is made when the condition holds.
abbrev pub when : Bool → Checked (Unit {0}) → Checked (Unit {0})
when true check = check
when false check = value tt

-- Every element passes, in order.
abbrev pub for_each : {A : Type 0} → (A → Checked (Unit {0})) → List A → Checked (Unit {0})
for_each check [] = value tt
for_each check (x ∷ xs) = check x >> for_each check xs

-- The comparison of a `std::string` with a literal.
abbrev pub is : Text → String → Bool
is name literal = text_eq name (codes literal)

abbrev pub surrounded : String → Text → String → Text
surrounded before name after = codes before ++ name ++ codes after

abbrev pub Passes : Checked (Unit {0}) → Type 0
Passes r = r ≡ value tt

pub require-Passes : (b : Bool) (message : Text) → Passes (require b message) ↔ (b ≡ true)
require-Passes true message = (λ _. refl, λ _. refl)
require-Passes false message = (λ h. cc, λ h. cc)

pub when-Passes : (b : Bool) (r : Checked (Unit {0})) → Passes (when b r) ↔ (b ≡ true → Passes r)
when-Passes true r = (λ h _. h, λ h. h refl)
when-Passes false r = (λ _ h. cc, λ _. refl)

pub then-value :
    {A : Type 0} (r : Checked (Unit {0})) (s : Checked A) (a : A)
    → ((r >> s) ≡ value a) ↔ (Passes r × (s ≡ value a))
then-value (value tt) s a = (λ h. (refl, h), λ h. h.1)
then-value (runtime_error m) s a = (λ h. cc, λ h. cc)

pub then-Passes : (r s : Checked (Unit {0})) → Passes (r >> s) ↔ (Passes r × Passes s)
then-Passes r s = then-value r s tt

pub bind-value :
    {A B : Type 0} (r : Checked A) (f : A → Checked B) (b : B)
    → (r >>= f) ≡ value b
    → (a : A) × (r ≡ value a) × (f a ≡ value b)
bind-value (value a) f b h = (a, refl, h)
bind-value (runtime_error m) f b h = cc

-- If a value is returned then `P` holds of it.
pub data Returns {A : Type 0} (P : A → Type 0) : Checked A → Type 0 where
  returns : {a : A} → P a → Returns P (value a)
  throws : (m : Text) → Returns P (runtime_error m)

pub Returns-bind :
    {A B : Type 0} {P : A → Type 0} {Q : B → Type 0} {r : Checked A} {f : A → Checked B}
    → Returns P r
    → ((a : A) → P a → Returns Q (f a))
    → Returns Q (r >>= f)
Returns-bind (returns {a} h) g = g a h
Returns-bind (throws m) g = throws m

pub Returns-any :
    {A B : Type 0} {Q : B → Type 0} (r : Checked A) {f : A → Checked B}
    → ((a : A) → Returns Q (f a))
    → Returns Q (r >>= f)
Returns-any (value a) g = g a
Returns-any (runtime_error m) g = throws m

pub Returns-map :
    {A : Type 0} {P Q : A → Type 0} {r : Checked A}
    → ((a : A) → P a → Q a)
    → Returns P r
    → Returns Q r
Returns-map g (returns {a} h) = returns (g a h)
Returns-map g (throws m) = throws m

pub value-inj : {A : Type 0} {a b : A} → value a ≡ value b → a ≡ b
value-inj h = cc

pub require-then :
    {A : Type 0} (b : Bool) (m : Text) {rest : Checked A} {a : A}
    → (require b m >> rest) ≡ value a
    → (b ≡ true) × (rest ≡ value a)
require-then true m h = (refl, h)
require-then false m h = cc

pub when-then :
    {A : Type 0} (b : Bool) {check : Checked (Unit {0})} {rest : Checked A} {a : A}
    → (when b check >> rest) ≡ value a
    → (b ≡ true → Passes check) × (rest ≡ value a)
when-then true {check} {rest} {a} h = let p = (then-value check rest a).0 h in ((λ _. p.0), p.1)
when-then false h = ((λ e. cc), h)
