-- ===== src/Text.antt =====
-- Userland/shell/utils/utils.c: numbers as text. A string is the list of its bytes before the
-- terminator; an `int` is kept in its 32 bits.
pub mod Base
pub mod Decimal
use mathlib.Core.List.{reverse}
use tp_so.Prelude.{
  ℕ, zero, suc, ◌+◌, ◌-◌, ◌*◌, ◌/◌, ◌%◌, ◌^◌, Option, some, none, Bool, true, false, ◌&&◌, ◌||◌,
  not, ltb, leb, ◌==◌, List, [], ◌∷◌, length, ℤ, if◌then◌else◌,
}
use tp_so.ProcessTable.{int_of_u64}

abbrev pub is_digit : ℕ → Bool
is_digit c = leb b'0' c && leb c b'9'

-- `result = result * 10 + (*str - '0');`
unfoldable pub add_digit : ℕ → ℕ → ℕ
add_digit result c = (result * 10 + (c - b'0')) % 2 ^ 32

-- The loop of `string_to_int` up to the first character that is no digit.
unfoldable pub digits_from : ℕ → List ℕ → ℕ
unfolding add_digit
digits_from result [] = result
digits_from result (c ∷ str) =
    let rest = digits_from (add_digit result c) str in if is_digit c then rest else result

unfoldable pub string_to_int : List ℕ → ℤ
unfolding digits_from
string_to_int str = int_of_u64 (digits_from 0 str)

abbrev pub all_digits : List ℕ → Bool
all_digits [] = true
all_digits (c ∷ str) = is_digit c && all_digits str

-- NULL and the empty string are not numeric.
unfoldable pub is_numeric : Option (List ℕ) → Bool
is_numeric none = false
is_numeric (some []) = false
is_numeric (some (c ∷ str)) = all_digits (c ∷ str)

-- `digits[d]` of "0123456789ABCDEF".
unfoldable pub digit : ℕ → ℕ
digit d = if ltb d 10 then b'0' + d else b'A' + (d - 10)

-- `while (value > 0) { temp[i++] = digits[value % base]; value /= base; }` with fuel.
unfoldable pub base_digits : ℕ → ℕ → ℕ → List ℕ
unfolding digit
base_digits zero base value = []
base_digits (suc fuel) base value =
    let rest = base_digits fuel base (value / base) in
    if value == 0 then [] else digit (value % base) ∷ rest

-- The result and the text. A 64-bit number has at most 64 digits.
unfoldable pub uint_to_base : ℕ → ℕ → ℕ × List ℕ
unfolding base_digits
uint_to_base value base =
    let temp = base_digits 64 base value in
    if ltb base 2 || ltb 16 base
    then (0, [])
    else if value == 0
    then (1, b'0' ∷ [])
    else (length temp, reverse temp)
