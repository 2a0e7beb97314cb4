-- ===== src/Parser/Numbers.antt =====
-- `parseSignedIntegerLiteral` of src/parser.cpp against the value that a spelling has, without a
-- limit.
use native.Mathlib.Nat.{mul-le-mul_right}
use psic.Prelude.{
  ℕ, suc, ◌+◌, ◌-◌, ◌*◌, ◌/◌, ◌^◌, ◌≤◌, ◌<◌, ◌≡◌, Bool, false, ◌&&◌, [], ◌∷◌, Text, ltb, leb,
  if◌then◌else◌, Option, none, some, ℤ, pos, neg, arith, all, Option-cases, Bool-cases, inl, inr,
}
use psic.Parser.Literal.{
  digit_value, accumulate, positive_limit, is_negative, without_sign, base_and_digits,
  parse_signed_integer_literal,
}

-- Whether the character is a digit of the base.
abbrev pub is_digit_of : ℕ → ℕ → Bool
is_digit_of base c = elim (digit_value c) [ none ↦ false | some d ↦ ltb d base ]

abbrev pub digit : ℕ → ℕ
digit c = elim (digit_value c) [ none ↦ 0 | some d ↦ d ]

-- The number that the digits write behind digits of the value `front`.
abbrev pub written : ℕ → Text → ℕ → ℕ
written base [] front = front
written base (c ∷ cs) front = written base cs (front * base + digit c)

written-le : (base : ℕ) (cs : Text) (front : ℕ) → 0 < base → front ≤ written base cs front
written-le base [] front p = omega arith
written-le base (c ∷ cs) front p =
    omega (arith, written-le base cs (front * base + digit c) p, mul-le-mul_right front p)

-- The test of the loop, by division, is the test that the next value is too large.
guard_lem :
    (limit base d m : ℕ)
    → d < base
    → base ≤ limit
    → ltb ((limit - d) / base) m ≡ ltb limit (m * base + d)
guard_lem limit base d m below small = elim (Bool-cases (ltb ((limit - d) / base) m)) [
  | inl e ↦
      let over : suc ((limit - d) / base) ≤ m = ground arith in
      ground (arith, mul-le-mul_right base over, below, small)
  | inr e ↦
      let fits : m ≤ (limit - d) / base = ground arith in
      ground (arith, mul-le-mul_right base fits, below, small)
]

-- The value that the digits write, if they are digits of the base and it is at most the limit.
abbrev pub bounded : ℕ → ℕ → Text → ℕ → Option ℕ
bounded limit base cs front =
    if all (is_digit_of base) cs && leb (written base cs front) limit
    then some (written base cs front)
    else none

-- From a value within the limit, the loop over the digits returns the value that they write if
-- they are digits of the base and the value is at most the limit, and nothing otherwise.
pub accumulate-bounded :
    (limit base : ℕ)
    → 0 < base
    → base ≤ limit
    → (cs : Text) (front : ℕ) → front ≤ limit
    → accumulate limit base cs front ≡ bounded limit base cs front
unfolding accumulate
accumulate-bounded limit base p q [] front h = ground arith
accumulate-bounded limit base p q (c ∷ cs) front h = elim (Option-cases (digit_value c)) [
  | inl e ↦ ground (arith, e)
  | inr (d, e) ↦ elim (Bool-cases (leb base d)) [
    | inl big ↦ ground (arith, e, big)
    | inr small ↦ elim (Bool-cases (ltb limit (front * base + d))) [
      | inl over ↦ ground (
        arith,
        e,
        small,
        over,
        guard_lem limit base d front (ground arith) q,
        written-le base cs (front * base + d) p,
      )
      | inr fits ↦ ground (
        arith,
        e,
        small,
        fits,
        guard_lem limit base d front (ground arith) q,
        accumulate-bounded limit base p q cs (front * base + d) (ground arith),
      )
    ]
  ]
]

-- The 64-bit integers in two's complement: a magnitude with its sign.
abbrev pub in_range : Bool → ℕ → Bool
in_range negative magnitude = if negative then leb magnitude (2 ^ 63) else ltb magnitude (2 ^ 63)

abbrev pub signed : Bool → ℕ → ℤ
signed negative magnitude = if negative then neg magnitude else pos magnitude

-- The number of a sign and digits, if they are digits of the base and it is a 64-bit integer.
abbrev pub read_in : Bool → ℕ × Text → Option ℤ
read_in negative (base, digits) =
    if all (is_digit_of base) digits && in_range negative (written base digits 0)
    then some (signed negative (written base digits 0))
    else none

base-bounds : (digits : Text) → (0 < (base_and_digits digits).0) × ((base_and_digits digits).0 ≤ 16)
unfolding base_and_digits
base-bounds digits = ground arith

-- A spelling of a number, with its sign and its base prefix, is read as the number that its digits
-- write in that base if each of them is a digit of the base and the number with its sign is a
-- 64-bit integer, -2^63 included and 2^63 excluded; it is refused otherwise.
pub parse_signed_integer_literal_lem :
    (spelling : Text)
    → parse_signed_integer_literal spelling
      ≡ read_in (is_negative spelling) (base_and_digits (without_sign spelling))
unfolding parse_signed_integer_literal
parse_signed_integer_literal_lem spelling =
    let split = base_and_digits (without_sign spelling) in
    let bounds = base-bounds (without_sign spelling) in
    elim (Bool-cases (is_negative spelling)) [
      | inl e ↦ ground (
        arith,
        e,
        accumulate-bounded (positive_limit + 1) split.0 bounds.0 (omega (arith, bounds.1)) split.1 0
            (omega arith),
      )
      | inr e ↦ ground (
        arith,
        e,
        accumulate-bounded positive_limit split.0 bounds.0 (omega (arith, bounds.1)) split.1 0
            (omega arith),
      )
    ]
