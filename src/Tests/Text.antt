-- ===== src/Tests/Text.antt =====
-- The theorems on numbers as text at some numbers.
use mathlib.Core.List.{reverse}
use tp_so.Prelude.{◌<◌, ◌≤◌, ◌≡◌, true, some, pos, arith, length}
use tp_so.Text.{uint_to_base, is_numeric, string_to_int}
use tp_so.Text.Base.{value, uint_to_base-value}
use tp_so.Text.Decimal.{string_to_int-uint_to_base}

uint_to_base-value_example :
    let r = uint_to_base 48879 16 in
    (value 16 (reverse r.1) ≡ 48879) × (r.0 ≡ length r.1) × (0 < r.0) × (r.0 ≤ 64)
uint_to_base-value_example = uint_to_base-value 48879 16 (omega arith) (omega arith) (omega arith)

string_to_int-uint_to_base_example :
    let text = (uint_to_base 2026 10).1 in
    (is_numeric (some text) ≡ true) × (string_to_int text ≡ pos 2026)
string_to_int-uint_to_base_example = string_to_int-uint_to_base 2026 (omega arith)
