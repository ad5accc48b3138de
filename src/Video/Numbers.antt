-- ===== src/Video/Numbers.antt =====
-- Kernel/drivers/video.c: the kernel's own `uintToBase`, what prints with it, and the number that
-- Kernel/syscall/syscall.c sets the font's scale to.
--
-- A buffer is a function on offsets, and `p`, `p1` and `p2` are offsets in it.
use tp_so.Prelude.{
  ℕ, zero, suc, ◌+◌, ◌-◌, ◌/◌, ◌%◌, Bool, ◌&&◌, ◌||◌, ltb, leb, ◌==◌, ◌*◌, ℤ, pos, negsuc, List, [],
  ◌∷◌, update, if◌then◌else◌,
}
use tp_so.ProcessTable.{int_of_u64}
use tp_so.Video.{Screen, PixelTarget, u32, vd_print, vd_set_font_scale}

unfoldable pub remainder_char : ℕ → ℕ
remainder_char remainder = if ltb remainder 10 then remainder + b'0' else remainder + b'A' - 10

-- The `do` loop, with fuel: how far `p` comes, which is the number of digits, and the buffer.
unfoldable pub digit_loop : ℕ → ℕ → ℕ → ℕ → (ℕ → ℕ) → ℕ × (ℕ → ℕ)
unfolding remainder_char
digit_loop zero base value p buffer = (p, buffer)
digit_loop (suc fuel) base value p buffer =
    let written = update buffer p (remainder_char (value % base)) in
    let rest = digit_loop fuel base (value / base) (suc p) written in
    if value / base == 0 then (suc p, written) else rest

abbrev pub swap : ℕ → ℕ → (ℕ → ℕ) → ℕ → ℕ
swap p1 p2 buffer = update (update buffer p1 (buffer p2)) p2 (buffer p1)

-- `while (p1 < p2)`, with fuel.
unfoldable pub swap_loop : ℕ → ℕ → ℕ → (ℕ → ℕ) → ℕ → ℕ
swap_loop zero p1 p2 buffer = buffer
swap_loop (suc fuel) p1 p2 buffer =
    let rest = swap_loop fuel (suc p1) (p2 - 1) (swap p1 p2 buffer) in
    if ltb p1 p2 then rest else buffer

-- A 64-bit number has at most 64 digits.
unfoldable pub vd_uint_to_base : ℕ → ℕ → (ℕ → ℕ) → ℕ × (ℕ → ℕ)
unfolding digit_loop swap_loop
vd_uint_to_base value base buffer =
    let r = digit_loop 64 base value 0 buffer in (r.0, swap_loop r.0 0 (r.0 - 1) (update r.1 r.0 0))

-- So many characters from an offset on.
unfoldable pub chars : ℕ → ℕ → (ℕ → ℕ) → List ℕ
chars zero i buffer = []
chars (suc n) i buffer = buffer i ∷ chars n (suc i) buffer

-- The string in the buffer: the digits are not NUL.
abbrev pub text_of : ℕ × (ℕ → ℕ) → List ℕ
text_of r = chars r.0 0 r.1

module _ (font : ℕ → ℕ → ℕ) (buffer : ℕ → ℕ) where
  unfoldable pub vd_print_base : ℕ → ℕ → PixelTarget → Screen → Screen
  unfolding vd_uint_to_base
  vd_print_base value base target s =
      vd_print font (text_of (vd_uint_to_base value base buffer)) target s

  unfoldable pub vd_print_hex : ℕ → PixelTarget → Screen → Screen
  unfolding vd_print_base
  vd_print_hex value target s = vd_print_base value 16 target s

abbrev pub is_blank : ℕ → Bool
is_blank c = c == 32 || c == 9 || c == 13 || c == 10 || c == 11 || c == 12

unfoldable pub skip_blanks : List ℕ → List ℕ
skip_blanks [] = []
skip_blanks (c ∷ s) = if is_blank c then skip_blanks s else c ∷ s

unfoldable pub skip_sign : List ℕ → List ℕ
skip_sign [] = []
skip_sign (c ∷ s) = if c == b'+' || c == b'-' then s else c ∷ s

-- `while (*s >= '0' && *s <= '9')`, from the value of `x` on.
unfoldable pub read_digits : ℕ → List ℕ → ℕ
read_digits x [] = x
read_digits x (c ∷ s) =
    let rest = read_digits (u32 (x * 10 + (c - b'0'))) s in
    if leb b'0' c && leb c b'9' then rest else x

unfoldable pub str_to_uint_ignore_sign : List ℕ → ℕ
unfolding read_digits skip_sign skip_blanks
str_to_uint_ignore_sign s = read_digits 0 (skip_sign (skip_blanks s))

-- `int s`, from 1 to 4.
unfoldable pub clamp_scale : ℤ → ℕ
clamp_scale (pos s) = if ltb s 1 then 1 else if ltb 4 s then 4 else s
clamp_scale (negsuc s) = 1

-- With the text that the system call is given.
unfoldable pub syscall_resize : List ℕ → Screen → Screen
unfolding str_to_uint_ignore_sign clamp_scale
syscall_resize text s =
    vd_set_font_scale (clamp_scale (int_of_u64 (str_to_uint_ignore_sign text))) s
