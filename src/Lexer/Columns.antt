-- ===== src/Lexer/Columns.antt =====
-- The column counter of src/lexer.cpp and `utf8SequenceLength` on the characters of UTF-8.
use psic.Prelude.{
  subst, and-eq-true, ◌-◌, ℕ, zero, suc, ◌+◌, ◌≤◌, ◌<◌, ◌≡◌, ◌≢◌, refl, Bool, true, ◌&&◌, [], ◌∷◌,
  ◌++◌, Text, arith,
}
use psic.Lexer.Chars.{is_continuation, utf8_sequence_length}
use psic.Lexer.Cursor.{Cursor, read_byte, advance}
use psic.Lexer.Consumes.{advance-append}

abbrev pub IsTail : ℕ → Type 0
IsTail b = (0x80 ≤ b) × (b < 0xC0)

-- The byte sequences of one character, by the table of the Unicode standard.
pub data IsCharacter : Text → Type 0 where
  one : {a : ℕ} → a < 0x80 → IsCharacter (a ∷ [])
  two : {a b : ℕ} → 0xC2 ≤ a → a < 0xE0 → IsTail b → IsCharacter (a ∷ b ∷ [])
  three :
      {a b c : ℕ}
      → 0xE0 ≤ a
      → a < 0xF0
      → IsTail b
      → (a ≡ 0xE0 → 0xA0 ≤ b)
      → (a ≡ 0xED → b < 0xA0)
      → IsTail c
      → IsCharacter (a ∷ b ∷ c ∷ [])
  four :
      {a b c d : ℕ}
      → 0xF0 ≤ a
      → a < 0xF5
      → IsTail b
      → (a ≡ 0xF0 → 0x90 ≤ b)
      → (a ≡ 0xF4 → b < 0x90)
      → IsTail c
      → IsTail d
      → IsCharacter (a ∷ b ∷ c ∷ d ∷ [])

-- `n` characters, none of which ends a line.
pub data IsLineText : ℕ → Text → Type 0 where
  none : IsLineText 0 []
  more :
      {a n : ℕ} {tail text whole : Text}
      → IsCharacter (a ∷ tail)
      → a ≢ b'\n'
      → a ≢ b'\r'
      → IsLineText n text
      → whole ≡ a ∷ (tail ++ text)
      → IsLineText (suc n) whole

-- Whether the `count` bytes from `first` on are all continuation bytes.
are_continuations : (first count : ℕ) → Bool
are_continuations first zero = true
are_continuations first (suc count) = is_continuation first && are_continuations (suc first) count

is_continuation-from :
    (first count distance : ℕ)
    → are_continuations first count ≡ true
    → distance < count
    → is_continuation (first + distance) ≡ true
unfolding are_continuations
is_continuation-from first zero distance all below = absurd (omega arith)
is_continuation-from first (suc count) zero all below =
    let (this, _) = and-eq-true (is_continuation first) (are_continuations (suc first) count) all in
    subst (λ b. is_continuation b ≡ true) (omega arith) this
is_continuation-from first (suc count) (suc distance) all below =
    let (_, others) =
      and-eq-true (is_continuation first) (are_continuations (suc first) count) all in
    subst (λ b. is_continuation b ≡ true) (omega arith)
      (is_continuation-from (suc first) count distance others (omega arith))

are_continuations-tails : are_continuations 0x80 64 ≡ true
unfolding are_continuations is_continuation
are_continuations-tails = refl

is_continuation-IsTail : (b : ℕ) → IsTail b → is_continuation b ≡ true
is_continuation-IsTail b h =
    let e : 0x80 + (b - 0x80) ≡ b = omega arith in
    rw e at (is_continuation-from 0x80 64 (b - 0x80) are_continuations-tails (omega arith))

length_two :
    (a b : ℕ) (rest : Text) → 0xC2 ≤ a → a < 0xE0 → IsTail b → utf8_sequence_length a (b ∷ rest) ≡ 2
unfolding utf8_sequence_length
length_two a b rest l u h = ground (arith, is_continuation-IsTail b h)

length_three :
    (a b c : ℕ) (rest : Text)
    → 0xE0 ≤ a
    → a < 0xF0
    → IsTail b
    → (a ≡ 0xE0 → 0xA0 ≤ b)
    → (a ≡ 0xED → b < 0xA0)
    → IsTail c
    → utf8_sequence_length a (b ∷ c ∷ rest) ≡ 3
unfolding utf8_sequence_length
length_three a b c rest l u h o s g =
    ground (arith, is_continuation-IsTail b h, is_continuation-IsTail c g, o, s)

length_four :
    (a b c d : ℕ) (rest : Text)
    → 0xF0 ≤ a
    → a < 0xF5
    → IsTail b
    → (a ≡ 0xF0 → 0x90 ≤ b)
    → (a ≡ 0xF4 → b < 0x90)
    → IsTail c
    → IsTail d
    → utf8_sequence_length a (b ∷ c ∷ d ∷ rest) ≡ 4
unfolding utf8_sequence_length
length_four a b c d rest l u h o s g i = ground (
  arith,
  is_continuation-IsTail b h,
  is_continuation-IsTail c g,
  is_continuation-IsTail d i,
  o,
  s,
)

length_one : (a : ℕ) (rest : Text) → a < 0x80 → utf8_sequence_length a rest ≡ 1
unfolding utf8_sequence_length
length_one a rest l = ground arith

-- The counters of `k'`, in terms of those of `k`: `n` columns further, with `m` bytes to come.
record Moves (k k' : Cursor) (n m : ℕ) : Type 0 where
  column : k'.column ≡ k.column + n
  pending : k'.utf8_continuation_bytes ≡ m

first_byte :
    (c : ℕ) (behind : Text) (k : Cursor) (m : ℕ)
    → c ≢ b'\n'
    → c ≢ b'\r'
    → k.utf8_continuation_bytes ≡ 0
    → utf8_sequence_length c behind ≡ suc m
    → Moves k (read_byte c behind k) 1 m
unfolding read_byte
first_byte c behind k m n r z l = ground arith

tail_byte :
    (c : ℕ) (behind : Text) (k : Cursor) (m : ℕ)
    → IsTail c
    → k.utf8_continuation_bytes ≡ suc m
    → Moves k (read_byte c behind k) 0 m
unfolding read_byte
tail_byte c behind k m t e = ground (arith, is_continuation-IsTail c t)

Moves-trans :
    {k k' k'' : Cursor} {n m n' m' : ℕ}
    → Moves k k' n m
    → Moves k' k'' n' m'
    → Moves k k'' (n + n') m'
Moves-trans p q = record { column = omega (arith, p.column, q.column); pending = q.pending }

advance-character :
    {a : ℕ} {tail : Text} (behind : Text) (k : Cursor)
    → IsCharacter (a ∷ tail)
    → a ≢ b'\n'
    → a ≢ b'\r'
    → k.utf8_continuation_bytes ≡ 0
    → Moves k (advance (a ∷ tail) behind k) 1 0
unfolding advance
advance-character behind k (one {a} l) n r z = first_byte a behind k 0 n r z (length_one a behind l)
advance-character behind k (two {a} {b} l u h) n r z =
    let p = first_byte a (b ∷ behind) k 1 n r z (length_two a b behind l u h) in
    Moves-trans p (tail_byte b behind _ 0 h p.pending)
advance-character behind k (three {a} {b} {c} l u h o s g) n r z =
    let p = first_byte a (b ∷ c ∷ behind) k 2 n r z (length_three a b c behind l u h o s g) in
    let q = Moves-trans p (tail_byte b (c ∷ behind) _ 1 h p.pending) in
    Moves-trans q (tail_byte c behind _ 0 g q.pending)
advance-character behind k (four {a} {b} {c} {d} l u h o s g i) n r z =
    let p =
      first_byte a (b ∷ c ∷ d ∷ behind) k 3 n r z (length_four a b c d behind l u h o s g i) in
    let q = Moves-trans p (tail_byte b (c ∷ d ∷ behind) _ 2 h p.pending) in
    let t = Moves-trans q (tail_byte c (d ∷ behind) _ 1 g q.pending) in
    Moves-trans t (tail_byte d behind _ 0 i t.pending)

advance-IsLineText :
    {n : ℕ} {text : Text} (behind : Text) (k : Cursor)
    → IsLineText n text
    → k.utf8_continuation_bytes ≡ 0
    → Moves k (advance text behind k) n 0
advance-IsLineText behind k none z = record {
  column = unfold advance in omega arith;
  pending = unfold advance in z;
}
advance-IsLineText behind k (more {a} {n} {tail} {text} ch ne re rest w) z =
    let p = advance-character (text ++ behind) k ch ne re z in
    let q = Moves-trans p (advance-IsLineText behind _ rest p.pending) in
    rw (w, advance-append (a ∷ tail) text behind k)
      (record { column = omega (arith, q.column); pending = q.pending })

-- Over `n` well-formed characters that end no line, whatever follows them, the column grows by
-- `n`, from a place where no character is under way, and ends at such a place.
pub column_number :
    {n : ℕ} {text : Text} (behind : Text) (k : Cursor)
    → IsLineText n text
    → k.utf8_continuation_bytes ≡ 0
    → ((advance text behind k).column ≡ k.column + n)
      × ((advance text behind k).utf8_continuation_bytes ≡ 0)
column_number behind k h z = let p = advance-IsLineText behind k h z in (p.column, p.pending)
