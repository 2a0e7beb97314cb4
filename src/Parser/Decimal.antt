-- ===== src/Parser/Decimal.antt =====
-- The decimal spelling of an integer, and `parseSignedIntegerLiteral` of src/parser.cpp on it.
use psic.Prelude.{
  ℕ, zero, suc, ◌+◌, ◌*◌, ◌/◌, ◌%◌, ◌^◌, ◌≤◌, ◌<◌, ◌≡◌, refl, Bool, true, false, [], ◌∷◌, ◌++◌,
  Text, ltb, some, ℤ, pos, negsuc, arith, all,
}
use psic.Lexer.Read.{has_prefix}
use psic.Parser.Literal.{digit_value, is_negative, base_and_digits, parse_signed_integer_literal}
use psic.Parser.Numbers.{
  is_digit_of, digit, written, read_in, in_range, signed, parse_signed_integer_literal_lem,
}

-- The decimal digits of a number, on fuel.
decimal_on : ℕ → ℕ → Text
decimal_on zero n = []
decimal_on (suc fuel) n =
    elim (ltb n 10) [ true ↦ [] | false ↦ decimal_on fuel (n / 10) ] ++ (b'0' + n % 10) ∷ []

unfoldable pub decimal : ℕ → Text
unfolding decimal_on
decimal n = decimal_on (suc n) n

unfoldable pub decimal_integer : ℤ → Text
decimal_integer (pos n) = decimal n
decimal_integer (negsuc n) = b'-' ∷ decimal (suc n)

IsDecimalDigit : ℕ → Type 0
IsDecimalDigit c = (b'0' ≤ c) × (c ≤ b'9')

written-append :
    (base : ℕ) (cs : Text) (c front : ℕ)
    → written base (cs ++ c ∷ []) front ≡ written base cs front * base + digit c
written-append base [] c front = refl
written-append base (d ∷ cs) c front = written-append base cs c (front * base + digit d)

all-append :
    (p : ℕ → Bool) (cs : Text) (c : ℕ) → all p cs ≡ true → p c ≡ true → all p (cs ++ c ∷ []) ≡ true
all-append p [] c h e = ground arith
all-append p (d ∷ cs) c h e = ground (arith, all-append p cs c)

digit-last : (n : ℕ) → (digit (b'0' + n % 10) ≡ n % 10) × (is_digit_of 10 (b'0' + n % 10) ≡ true)
unfolding digit_value
digit-last n = (ground arith, ground arith)

-- The text writes the number in decimal digits.
unfoldable pub Writes : ℕ → Text → Type 0
Writes n cs = (written 10 cs 0 ≡ n) × (all (is_digit_of 10) cs ≡ true)

Writes-append : (n : ℕ) (cs : Text) → Writes (n / 10) cs → Writes n (cs ++ (b'0' + n % 10) ∷ [])
unfolding Writes
Writes-append n cs h =
    let last = digit-last n in
    (
      omega (arith, written-append 10 cs (b'0' + n % 10) 0, h.0, last.0),
      all-append (is_digit_of 10) cs (b'0' + n % 10) h.1 last.1,
    )

Writes-leading :
    (n : ℕ) (digits : Text) (small : Bool)
    → ltb n 10 ≡ small
    → (small ≡ false → Writes (n / 10) digits)
    → Writes (n / 10) (elim small [ true ↦ [] | false ↦ digits ])
unfolding Writes
Writes-leading n digits true e h = (ground arith, refl)
Writes-leading n digits false e h = h refl

decimal_on-Writes : (fuel n : ℕ) → n < fuel → Writes n (decimal_on fuel n)
unfolding decimal_on
decimal_on-Writes zero n h = absurd (omega arith)
decimal_on-Writes (suc fuel) n h = Writes-append n _ (
    Writes-leading n (decimal_on fuel (n / 10)) (ltb n 10) refl
      λ e. decimal_on-Writes fuel (n / 10) (ground arith))

pub decimal-Writes : (n : ℕ) → Writes n (decimal n)
unfolding decimal
decimal-Writes n = decimal_on-Writes (suc n) n (omega arith)

pub not_prefix :
    (lower upper : ℕ) (cs : Text)
    → b'9' < lower
    → b'9' < upper
    → all (is_digit_of 10) cs ≡ true
    → has_prefix lower upper cs ≡ false
unfolding has_prefix digit_value
not_prefix lower upper [] p q h = ground arith
not_prefix lower upper (a ∷ []) p q h = ground arith
not_prefix lower upper (a ∷ b ∷ cs) p q h = ground arith

base_and_digits-decimal :
    (cs : Text) → all (is_digit_of 10) cs ≡ true → base_and_digits cs ≡ (10, cs)
unfolding base_and_digits
base_and_digits-decimal cs h = ground (
  arith,
  not_prefix b'x' b'X' cs (omega arith) (omega arith) h,
  not_prefix b'o' b'O' cs (omega arith) (omega arith) h,
)

unsigned : (cs : Text) → all (is_digit_of 10) cs ≡ true → is_negative cs ≡ false
unfolding digit_value
unsigned [] h = refl
unsigned (c ∷ cs) h = ground arith

read_in-decimal :
    (negative : Bool) (n : ℕ)
    → in_range negative n ≡ true
    → read_in negative (base_and_digits (decimal n)) ≡ some (signed negative n)
unfolding Writes
read_in-decimal negative n h =
    let w = decimal-Writes n in rw (base_and_digits-decimal (decimal n) w.1, w.0, w.1, h) refl

-- The 64-bit integers: -2^63 is one of them, 2^63 is not.
abbrev pub IsInt64 : ℤ → Type 0
IsInt64 (pos n) = n < 2 ^ 63
IsInt64 (negsuc n) = n < 2 ^ 63

-- The decimal spelling of a 64-bit integer, with a minus sign if it is negative, is read back as
-- that integer.
pub parse_signed_integer_literal-decimal_integer :
    (z : ℤ) → IsInt64 z → parse_signed_integer_literal (decimal_integer z) ≡ some z
unfolding decimal_integer
parse_signed_integer_literal-decimal_integer (pos n) h =
    let plain = unsigned (decimal n) (unfold Writes in (decimal-Writes n).1) in
    ground (
      arith,
      parse_signed_integer_literal_lem (decimal n),
      plain,
      read_in-decimal false n (ground arith),
    )
parse_signed_integer_literal-decimal_integer (negsuc n) h = ground (
  arith,
  parse_signed_integer_literal_lem (b'-' ∷ decimal (suc n)),
  read_in-decimal true (suc n) (ground arith),
)
