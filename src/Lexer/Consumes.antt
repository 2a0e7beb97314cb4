-- ===== src/Lexer/Consumes.antt =====
-- The text that each reader of src/lexer.cpp takes, and the cursor that it leaves.
use psic.Prelude.{
  ◌&&◌, not, ◌==◌, ℕ, ◌≡◌, refl, sym, ap, ◌∙◌, Bool, true, false, [], ◌∷◌, ◌++◌, append_assoc, Text,
  if◌then◌else◌,
}
use psic.Source.{Ensures, Ensures-if, Ensures-bind, holds, rejected}
use psic.Lexer.Chars.{is_letter_char, is_hex_digit_char, is_octal_digit_char}
use psic.Lexer.Cursor.{Cursor, current_char, read_char, read_byte, advance}
use psic.Lexer.Read.{
  location, Read, nothing, read_one, read_while, and_then, read_identifier, read_fraction,
  read_digits, has_prefix, read_based, read_number, read_string_body, read_string,
  read_special_name, read_special_token,
}

pub advance-append :
    (a b behind : Text) (k : Cursor)
    → advance (a ++ b) behind k ≡ advance b behind (advance a (b ++ behind) k)
unfolding advance
advance-append [] b behind k = refl
advance-append (c ∷ a) b behind k =
    advance-append a b behind _
    ∙ ap (λ s. advance b behind (advance a (b ++ behind) (read_byte c s k)))
        (append_assoc a b behind)

pub record Consumes (src : Text) (k : Cursor) (r : Read) : Type 0 where
  pub splits : src ≡ r.text ++ r.rest
  pub moved : r.cursor ≡ advance r.text r.rest k

pub nothing-Consumes : (src : Text) (k : Cursor) → Consumes src k (nothing src k)
unfolding advance
nothing-Consumes src k = record { splits = refl; moved = refl }

pub read_one-Consumes : (src : Text) (k : Cursor) → Consumes src k (read_one src k)
unfolding advance
read_one-Consumes [] k = record { splits = refl; moved = refl }
read_one-Consumes (c ∷ cs) k = record { splits = refl; moved = refl }

prepend-Consumes :
    (c : ℕ) (cs : Text) (k : Cursor) (r : Read)
    → Consumes cs (read_char (c ∷ cs) k) r
    → Consumes (c ∷ cs) k (record r { text = c ∷ r.text })
unfolding advance
prepend-Consumes c cs k r h = record {
  splits = ap (◌∷◌ c) h.splits;
  moved = rw (← h.splits) h.moved;
}

Consumes-if :
    (b : Bool) (src : Text) (k : Cursor) {x y : Read}
    → Consumes src k x
    → Consumes src k y
    → Consumes src k (if b then x else y)
Consumes-if true src k hx hy = hx
Consumes-if false src k hx hy = hy

and_then-Consumes :
    {src : Text} {k : Cursor} {r : Read} (f : Text → Cursor → Read)
    → Consumes src k r
    → ((s : Text) (k' : Cursor) → Consumes s k' (f s k'))
    → Consumes src k (and_then r f)
and_then-Consumes {k = k} {r = r} f h hf =
    let next = hf r.rest r.cursor in
    record {
      splits = h.splits ∙ ap (λ s. r.text ++ s) next.splits ∙ sym (append_assoc r.text _ _);
      moved =
          next.moved
          ∙ ap (advance _ _) (h.moved ∙ ap (λ s. advance r.text s k) next.splits)
          ∙ sym (advance-append r.text _ _ _);
    }

pub read_while-Consumes :
    (p : ℕ → Bool) (src : Text) (k : Cursor) → Consumes src k (read_while p src k)
unfolding read_while
read_while-Consumes p [] k = nothing-Consumes [] k
read_while-Consumes p (c ∷ cs) k =
    Consumes-if (p c) (c ∷ cs) k (prepend-Consumes c cs k _ (read_while-Consumes p cs _))
      (nothing-Consumes (c ∷ cs) k)

read_fraction-Consumes : (src : Text) (k : Cursor) → Consumes src k (read_fraction src k)
unfolding read_fraction
read_fraction-Consumes src k =
    Consumes-if _ src k (and_then-Consumes _ (read_one-Consumes src k) (read_while-Consumes _))
      (nothing-Consumes src k)

read_based-Consumes :
    (is_digit : ℕ → Bool) (message : Text) (at_start k : Cursor) (src : Text) {signed : Read}
    → Consumes src k signed
    → Ensures (Consumes src k) (read_based is_digit message at_start signed)
unfolding read_based
read_based-Consumes is_digit message at_start k src {signed} h =
    let prefixed =
      and_then-Consumes _ (and_then-Consumes _ h read_one-Consumes) read_one-Consumes in
    let next = current_char (and_then (and_then signed read_one) read_one).rest in
    Ensures-if (not (is_digit next)) (λ _. rejected message (location at_start))
      λ _. holds (and_then-Consumes _ prefixed (read_while-Consumes is_digit))

read_digits-Consumes :
    (at_start k : Cursor) (src : Text) {signed : Read}
    → Consumes src k signed
    → Ensures (Consumes src k) (read_digits at_start signed)
unfolding read_digits
read_digits-Consumes at_start k src {signed} h =
    Ensures-if (has_prefix b'x' b'X' signed.rest)
      (λ _. read_based-Consumes is_hex_digit_char _ at_start k src h)
      λ _.
        Ensures-if (has_prefix b'o' b'O' signed.rest)
          (λ _. read_based-Consumes is_octal_digit_char _ at_start k src h)
          λ _. holds (
            and_then-Consumes _ (and_then-Consumes _ h (read_while-Consumes _))
              read_fraction-Consumes)

pub read_number-Consumes : (src : Text) (k : Cursor) → Ensures (Consumes src k) (read_number src k)
unfolding read_number
read_number-Consumes src k = read_digits-Consumes k k src (
    Consumes-if (current_char src == b'-') src k (read_one-Consumes src k) (nothing-Consumes src k))

pub read_string_body-Consumes :
    (start : Cursor) (escaped : Bool) (src : Text) (k : Cursor)
    → Ensures (Consumes src k) (read_string_body start escaped src k)
unfolding read_string_body
read_string_body-Consumes start escaped [] k = rejected _ _
read_string_body-Consumes start escaped (c ∷ cs) k =
    Ensures-if (c == b'"' && not escaped) (λ _. holds (read_one-Consumes (c ∷ cs) k))
      λ _.
        Ensures-bind (read_string_body-Consumes start (c == b'\\' && not escaped) cs _)
          λ r h. holds (prepend-Consumes c cs k r h)

pub read_string-Consumes :
    (c : ℕ) (cs : Text) (k : Cursor) → Ensures (Consumes (c ∷ cs) k) (read_string (c ∷ cs) k)
unfolding read_string
read_string-Consumes c cs k =
    Ensures-bind (read_string_body-Consumes k false cs _) λ r h. holds (prepend-Consumes c cs k r h)

pub read_special_name-Consumes :
    (marker : ℕ) (src : Text) (k : Cursor) → Consumes src k (read_special_name marker src k)
unfolding read_special_name
read_special_name-Consumes marker [] k = nothing-Consumes [] k
read_special_name-Consumes marker (c ∷ cs) k =
    let more = prepend-Consumes c cs k _ (read_special_name-Consumes marker cs _) in
    Consumes-if _ _ k more (Consumes-if _ _ k more (nothing-Consumes (c ∷ cs) k))

pub read_special_token-Consumes :
    (marker : ℕ) (src : Text) (k : Cursor)
    → Ensures (Consumes src k) (read_special_token marker src k)
unfolding read_special_token
read_special_token-Consumes marker src k =
    Ensures-if (not (is_letter_char (current_char (read_one src k).rest))) (λ _. rejected _ _)
      λ _. holds (and_then-Consumes _ (read_one-Consumes src k) (read_special_name-Consumes marker))

pub read_identifier-Consumes : (src : Text) (k : Cursor) → Consumes src k (read_identifier src k)
unfolding read_identifier
read_identifier-Consumes src k = read_while-Consumes _ src k
