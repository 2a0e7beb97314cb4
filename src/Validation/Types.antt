-- ===== src/Validation/Types.antt =====
-- src/validation.cpp: the checks and predicates on a type by itself.
use psic.Prelude.{
  ℕ, ◌==◌, ltb, ◌-◌, ◌+◌, ◌*◌, leb, Bool, false, not, ◌&&◌, ◌||◌, if◌then◌else◌, String, Text,
  codes, text_eq, contains, List, [], ◌∷◌, tail, Option, none, some, bit_and,
}
use psic.Ast.{TypeNode}
use psic.Target.Pick.{Checked, value}
use psic.Validation.Checked.{◌>>◌, require, is}

-- `TypeNode{name, level}`: the other members have their initial values.
abbrev pub plain_type : Text → ℕ → TypeNode
plain_type name level = record {
  base_name = name;
  pointer_level = level;
  alignment = none;
  is_primitive = false;
  is_view = false;
  is_const = false;
  is_volatile = false;
}

unfoldable pub pointer_difference_result_type : ℕ → Option Text
pointer_difference_result_type bits =
    if bits == 8
    then some (codes "i8")
    else if bits == 16
    then some (codes "i16")
    else if bits == 32
    then some (codes "i32")
    else if bits == 64
    then some (codes "i64")
    else none

abbrev pub is_power_of_two : ℕ → Bool
is_power_of_two a = ltb 0 a && bit_and a (a - 1) == 0

abbrev pub check_alignment : Option ℕ → Checked (Unit {0})
check_alignment none = value tt
check_alignment (some a) =
    require (is_power_of_two a) (codes "alignment must be a positive power of two")

unfoldable pub validate_type : TypeNode → Bool → Checked (Unit {0})
validate_type type allow_void = do
  require (not type.is_view || type.pointer_level == 0)
      (codes "a view type cannot be wrapped in a pointer")
  require (not type.is_view || not (is type.base_name "void"))
      (codes "a bounded view requires a value element type")
  require (allow_void || not (is type.base_name "void") || ltb 0 type.pointer_level)
      (codes "void is only valid as a return type or pointer element")
  check_alignment type.alignment

unfoldable pub same_type : TypeNode → TypeNode → Bool
same_type left right =
    text_eq left.base_name right.base_name
    && left.pointer_level == right.pointer_level
    && (if left.is_view then right.is_view else not right.is_view)

unfoldable pub compatible_pointer_types : TypeNode → TypeNode → Bool
compatible_pointer_types left right =
    same_type left right
    || left.pointer_level == 1
      && right.pointer_level == 1
      && (is left.base_name "void" || is right.base_name "void")

-- A value type that is neither a view nor a pointer, with one of the names.
abbrev scalar_of : List String → TypeNode → Bool
scalar_of names type = not type.is_view && type.pointer_level == 0 && contains names type.base_name

abbrev pub integer_names : List String
integer_names = "bool" ∷ "i8" ∷ "i16" ∷ "i32" ∷ "i64" ∷ "u8" ∷ "u16" ∷ "u32" ∷ "u64" ∷ []

unfoldable pub is_integer_type : TypeNode → Bool
is_integer_type = scalar_of integer_names

unfoldable pub is_signed_integer_type : TypeNode → Bool
is_signed_integer_type = scalar_of ("i8" ∷ "i16" ∷ "i32" ∷ "i64" ∷ [])

unfoldable pub is_unsigned_integer_type : TypeNode → Bool
is_unsigned_integer_type = scalar_of ("u8" ∷ "u16" ∷ "u32" ∷ "u64" ∷ [])

-- The number that the leading digits of a text spell, `front` being read before them.
abbrev leading_number : ℕ → Text → ℕ
leading_number front [] = front
leading_number front (c ∷ cs) =
    let rest = leading_number (front * 10 + (c - b'0')) cs in
    if leb b'0' c && leb c b'9' then rest else front

-- The code asks for the width of an integer type only, for which `std::stoul` reads a number.
unfoldable pub integer_width : TypeNode → ℕ
integer_width type = if is type.base_name "bool" then 1 else leading_number 0 (tail type.base_name)

unfoldable pub is_floating_type : TypeNode → Bool
is_floating_type = scalar_of ("f32" ∷ "f64" ∷ [])

unfoldable pub is_atomic_integer_type : TypeNode → Bool
is_atomic_integer_type =
    scalar_of ("i8" ∷ "i16" ∷ "i32" ∷ "i64" ∷ "u8" ∷ "u16" ∷ "u32" ∷ "u64" ∷ [])

unfoldable pub is_atomic_load_store_type : TypeNode → Bool
is_atomic_load_store_type type =
    ltb 0 type.pointer_level || is_atomic_integer_type type || is_floating_type type

unfoldable pub is_integer_vector_type : TypeNode → Bool
is_integer_vector_type = scalar_of ("i8x16" ∷ "i16x8" ∷ "i32x4" ∷ "i64x2" ∷ "i32x8" ∷ "i64x4" ∷ [])
