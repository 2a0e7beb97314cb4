-- ===== src/Validation/PowerOfTwo.antt =====
-- The test of an alignment, `alignment & (alignment - 1)`, is that of a power of two.
use Prim.Native.Nat.{digits, min, bit_and-bitwise}
use psic.Prelude.{
  ◌≡◌, refl, ◌⊎◌, inl, inr, ◌↔◌, ℕ, zero, suc, ◌-◌, ◌*◌, ◌/◌, ◌%◌, ◌^◌, ◌≤◌, ◌<◌, bit_and, true,
  arith, ==_iff, sym, ◌∙◌, and-eq-true,
}
use psic.Validation.Types.{is_power_of_two}

abbrev and_digits : ℕ → ℕ → ℕ → ℕ
and_digits = digits (λ b. zero) min

min-bit : (x : ℕ) → x < 2 → min x x ≡ x
min-bit x h = omega (arith, h)

and_digits_self : (n c : ℕ) → c ≤ n → and_digits n c c ≡ c
and_digits_self zero c h = omega (arith, h)
and_digits_self (suc n) zero h = refl
and_digits_self (suc n) (suc c) h =
    let ih = and_digits_self n (suc c / 2) (omega (arith, h)) in
    omega (arith, ih, min-bit (suc c % 2) (omega arith))

and_digits-eq : (n a b c d : ℕ) → a ≡ c → b ≡ d → and_digits n a b ≡ and_digits n c d
and_digits-eq n a b c d e e' = rw (e, e') refl

-- One step for an even number, and for an odd one.
and_digits-even :
    (n a b c : ℕ)
    → suc a ≡ suc c * 2
    → b ≡ suc (c * 2)
    → and_digits (suc n) (suc a) b ≡ and_digits n (suc c) c * 2
and_digits-even n a b c h e = omega (
  arith,
  and_digits-eq n (suc a / 2) (b / 2) (suc c) c (omega (arith, h)) (omega (arith, e)),
  h,
  e,
)

and_digits-odd : (n a c : ℕ) → a ≡ c * 2 → and_digits (suc n) (suc a) a ≡ and_digits n c c * 2
and_digits-odd n a c h =
    omega (arith, and_digits-eq n (suc a / 2) (a / 2) c c (omega (arith, h)) (omega (arith, h)), h)

abbrev pub IsPowerOfTwo : ℕ → Type 0
IsPowerOfTwo a = (k : ℕ) × (a ≡ 2 ^ k)

parity : (a : ℕ) → ((c : ℕ) × (a ≡ c * 2)) ⊎ ((c : ℕ) × (a ≡ suc (c * 2)))
parity zero = inl (0, refl)
parity (suc a) = elim (parity a) [
  | inl (c, e) ↦ inr (c, omega (arith, e))
  | inr (c, e) ↦ inl (suc c, omega (arith, e))
]

and_digits→power : (n b : ℕ) → suc b ≤ n → and_digits n (suc b) b ≡ 0 → IsPowerOfTwo (suc b)
and_digits→power zero b h z = absurd (omega (arith, h))
and_digits→power (suc n) b h z = elim (parity (suc b)) [
  | inl (zero, e) ↦ absurd (omega (arith, e))
  | inl (suc c, e) ↦
      let (k, q) =
        and_digits→power n c (omega (arith, h, e))
          (omega (arith, z, and_digits-even n b b c e (omega (arith, e)))) in
      (suc k, omega (arith, e, q))
  | inr (c, e) ↦
      let half = and_digits_self n c (omega (arith, h, e)) in
      (0, omega (arith, e, half, z, and_digits-odd n b c (omega (arith, e))))
]

power→and_digits : (n k b : ℕ) → suc b ≤ n → suc b ≡ 2 ^ k → and_digits n (suc b) b ≡ 0
power→and_digits zero k b h e = absurd (omega (arith, h))
power→and_digits (suc n) zero b h e =
    omega (arith, e, and_digits_self n 0 (omega arith), and_digits-odd n b 0 (omega (arith, e)))
power→and_digits (suc n) (suc k) b h e = elim (parity (suc b)) [
  | inl (zero, e') ↦ absurd (omega (arith, e'))
  | inl (suc c, e') ↦ omega (
    arith,
    power→and_digits n k c (omega (arith, h, e')) (omega (arith, e, e')),
    and_digits-even n b b c e' (omega (arith, e')),
  )
  | inr (c, e') ↦ absurd (omega (arith, e, e'))
]

pow-pos : (k : ℕ) → 0 < 2 ^ k
pow-pos zero = omega arith
pow-pos (suc k) = omega (arith, pow-pos k)

bit_and-digits : (b : ℕ) → bit_and (suc b) (suc b - 1) ≡ and_digits (suc b) (suc b) b
bit_and-digits b =
    bit_and-bitwise (suc b) (suc b - 1)
    ∙ and_digits-eq (suc b) (suc b) (suc b - 1) (suc b) b refl (omega arith)

pub is_power_of_two_iff : (a : ℕ) → (is_power_of_two a ≡ true) ↔ IsPowerOfTwo a
is_power_of_two_iff zero = (λ h. cc, λ (k, e). absurd (omega (arith, e, pow-pos k)))
is_power_of_two_iff (suc a) = (
  (λ h.
      let zero_and = (==_iff (bit_and (suc a) (suc a - 1)) 0).0 (and-eq-true _ _ h).1 in
      and_digits→power (suc a) a (omega arith) (sym (bit_and-digits a) ∙ zero_and)),
  (λ (k, e).
      let zero_and = bit_and-digits a ∙ power→and_digits (suc a) k a (omega arith) e in
      ground (arith, zero_and)),
)
