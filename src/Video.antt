-- ===== src/Video.antt =====
-- Kernel/drivers/video.c: text and pixels in the frame buffer.
--
-- `vram` is the memory behind `VBE_mode_info->framebuffer` and `back` the array `g_back`, both by the
-- offset from where they start. The cursor `x`, `y` is in pixels, an unsigned int. The font is a
-- parameter, `font c row` being the byte of the row. Nothing is printed through NULL, and the font's
-- scale is not negative.
pub mod Frame
pub mod Pixels
pub mod Bounds
pub mod Text
pub mod Numbers
pub mod Swaps
pub mod Digits
pub mod Calls
pub mod Cursor
use tp_so.Prelude.{
  ℕ, zero, suc, ◌+◌, ◌-◌, ◌*◌, ◌/◌, ◌%◌, ◌^◌, Bool, ◌||◌, ltb, leb, ◌==◌, List, [], ◌∷◌, ℤ, pos,
  negsuc, update, if◌then◌else◌,
}

pub data PixelTarget : Type 0 where
  pixel_vram pixel_back : PixelTarget

pub record Screen : Type 0 where
  pub width : ℕ
  pub height : ℕ
  pub pitch : ℕ
  pub g_scale : ℕ
  pub x : ℕ
  pub y : ℕ
  pub vram : ℕ → ℕ
  pub back : ℕ → ℕ

abbrev pub base_font_w : ℕ
base_font_w = 8

abbrev pub base_font_h : ℕ
base_font_h = 16

abbrev pub cell_w : Screen → ℕ
cell_w s = base_font_w * s.g_scale

abbrev pub cell_h : Screen → ℕ
cell_h s = base_font_h * s.g_scale

-- An `unsigned int`.
abbrev pub u32 : ℕ → ℕ
u32 n = n % 2 ^ 32

-- for (k = i; k < i + n; k++) f(k);
unfoldable pub loop {ℓ} : {S : Type ℓ} → ℕ → ℕ → (ℕ → S → S) → S → S
loop zero i f s = s
loop (suc n) i f s = loop n (suc i) f (f i s)

unfoldable pub vd_set_font_scale : ℕ → Screen → Screen
vd_set_font_scale n s = record s { g_scale = n }

-- Three bytes at an offset: blue, green, red.
unfoldable pub store_pixel : ℕ → ℕ → ℕ → ℕ → (ℕ → ℕ) → ℕ → ℕ
store_pixel at b g r m = update (update (update m at b) (at + 1) g) (at + 2) r

abbrev pub blue : ℕ → ℕ
blue color = color % 256

abbrev pub green : ℕ → ℕ
green color = color / 2 ^ 8 % 256

abbrev pub red : ℕ → ℕ
red color = color / 2 ^ 16 % 256

unfoldable pub on_target : PixelTarget → ((ℕ → ℕ) → ℕ → ℕ) → Screen → Screen
on_target pixel_vram f s = record s { vram = f s.vram }
on_target pixel_back f s = record s { back = f s.back }

unfoldable pub put_pixel : ℕ → ℕ → ℕ → PixelTarget → Screen → Screen
unfolding on_target store_pixel
put_pixel color px py target s =
    if leb s.width px || leb s.height py
    then s
    else on_target target
        (store_pixel (py * s.pitch + px * 3) (blue color) (green color) (red color)) s

-- memset and memcpy of so many bytes.
unfoldable pub clear_bytes : ℕ → (ℕ → ℕ) → ℕ → ℕ
clear_bytes n m = loop n 0 (λ i (t : ℕ → ℕ). update t i 0) m

unfoldable pub copy_bytes : ℕ → (ℕ → ℕ) → (ℕ → ℕ) → ℕ → ℕ
copy_bytes n src m = loop n 0 (λ i (t : ℕ → ℕ). update t i (src i)) m

unfoldable pub put_frame : Screen → Screen
unfolding clear_bytes
put_frame s = record s { back = clear_bytes (s.pitch * s.height) s.back }

-- dst and src are offsets in the same memory.
unfoldable pub fb_copy : ℕ → ℕ → ℕ → (ℕ → ℕ) → ℕ → ℕ
fb_copy dst src n m = loop n 0 (λ i (t : ℕ → ℕ). update t (dst + i) (t (src + i))) m

unfoldable pub fb_fill_row : ℕ → ℕ → ℕ → ℕ → ℕ → (ℕ → ℕ) → ℕ → ℕ
unfolding store_pixel
fb_fill_row row width b g r m = loop width 0 (λ i. store_pixel (row + i * 3) b g r) m

-- Rows `from` to `from + n - 1` become black.
unfoldable pub blank_rows : ℕ → ℕ → Screen → Screen
unfolding fb_fill_row
blank_rows from n s = record s {
  vram = loop n from (λ row. fb_fill_row (row * s.pitch) s.width 0 0 0) s.vram;
}

unfoldable pub move_rows : ℕ → Screen → Screen
unfolding fb_copy
move_rows rows s = record s {
  vram =
      loop (s.height - rows) rows
        (λ ysrc. fb_copy ((ysrc - rows) * s.pitch) (ysrc * s.pitch) s.pitch) s.vram;
}

-- Where the cursor is after the text has moved up.
unfoldable pub cursor_up : ℕ → Screen → Screen
cursor_up rows s =
    let y1 = if leb rows s.y then s.y - rows else 0 in
    let y2 =
      if ltb s.height (u32 (y1 + cell_h s))
      then (if leb (cell_h s) s.height then s.height - cell_h s else 0)
      else y1 in
    record s { y = y2; x = (if ltb s.width (u32 (s.x + cell_w s)) then 0 else s.x) }

unfoldable pub vd_scroll_up_pixels : ℕ → Screen → Screen
unfolding blank_rows move_rows cursor_up
vd_scroll_up_pixels rows s =
    if rows == 0 || leb s.height rows
    then record (blank_rows 0 s.height s) { x = 0; y = 0 }
    else cursor_up rows (blank_rows (s.height - rows) rows (move_rows rows s))

-- The end of a line, and the rest of `vdNewline`.
unfoldable pub vd_newline : Screen → Screen
unfolding vd_scroll_up_pixels
vd_newline s =
    let t = record s { x = 0; y = u32 (s.y + cell_h s) } in
    if ltb s.height (u32 (t.y + cell_h s)) then vd_scroll_up_pixels (cell_h s) t else t

-- The two loops over a cell, from the cursor to the cell's edge or the screen's.
unfoldable pub clear_cell : PixelTarget → Screen → Screen
unfolding put_pixel
clear_cell target s =
    loop (cell_h s) s.y
      (λ py t.
        if ltb py s.height
        then loop (cell_w s) s.x (λ px u. if ltb px s.width then put_pixel 0 px py target u else u)
            t
        else t)
      s

unfoldable pub vd_back_space : PixelTarget → Screen → Screen
unfolding clear_cell
vd_back_space target s =
    if leb (cell_w s) s.x
    then clear_cell target (record s { x = s.x - cell_w s })
    else if leb (cell_h s) s.y
    then clear_cell target (record s { y = s.y - cell_h s; x = s.width / cell_w s * cell_w s })
    else s

-- One dot of the font, `g_scale` pixels wide and high.
unfoldable pub draw_dot : ℕ → ℕ → ℕ → PixelTarget → Screen → Screen
unfolding put_pixel
draw_dot color pos_x pos_y target s =
    loop s.g_scale 0
      (λ dy t.
        let py = u32 (pos_y + dy) in
        if leb s.height py
        then t
        else loop s.g_scale 0
            (λ dx u.
              let px = u32 (pos_x + dx) in
              if leb s.width px then u else put_pixel color px py target u)
            t)
      s

-- `line & (0x80 >> col)`
abbrev pub dot : ℕ → ℕ → Bool
dot line col = line / 2 ^ (7 - col) % 2 == 1

-- The cursor goes one cell on, and to the next line at the end of this one.
unfoldable pub next_cell : Screen → Screen
unfolding vd_newline
next_cell s =
    let t = record s { x = u32 (s.x + cell_w s) } in
    if ltb s.width (u32 (t.x + cell_w s)) then vd_newline t else t

-- A negative column or row counts as the first.
unfoldable pub clip : ℤ → ℕ
clip (pos n) = n
clip (negsuc n) = 0

module _ (font : ℕ → ℕ → ℕ) where
  unfoldable pub draw_char : ℕ → ℕ → ℕ → PixelTarget → Screen → Screen
  unfolding draw_dot
  draw_char c f_color bg_color target s =
      loop base_font_h 0
        (λ row t.
          loop base_font_w 0
            (λ col.
              draw_dot (if dot (font c row) col then f_color else bg_color) (s.x + col * s.g_scale)
                (s.y + row * s.g_scale) target)
            t)
        s

  unfoldable pub print_glyph : ℕ → ℕ → ℕ → PixelTarget → Screen → Screen
  unfolding draw_char next_cell
  print_glyph c f_color bg_color target s = next_cell (draw_char c f_color bg_color target s)

  -- A tab is four spaces.
  unfoldable pub vd_print_char_styled : ℕ → ℕ → ℕ → PixelTarget → Screen → Screen
  unfolding print_glyph vd_back_space
  vd_print_char_styled c f_color bg_color target s =
      let space = print_glyph 32 f_color bg_color target in
      if c == 10
      then vd_newline s
      else if c == 9
      then space (space (space (space s)))
      else if c == 8
      then vd_back_space target s
      else print_glyph c f_color bg_color target s

  unfoldable pub vd_print_styled : List ℕ → ℕ → ℕ → PixelTarget → Screen → Screen
  unfolding vd_print_char_styled
  vd_print_styled [] f_color bg_color target s = s
  vd_print_styled (c ∷ str) f_color bg_color target s =
      vd_print_styled str f_color bg_color target (vd_print_char_styled c f_color bg_color target s)

  unfoldable pub vd_print : List ℕ → PixelTarget → Screen → Screen
  unfolding vd_print_styled
  vd_print str target s = vd_print_styled str 0xffffff 0 target s

  unfoldable pub vd_print_styled_at : List ℕ → ℤ → ℤ → ℕ → ℕ → PixelTarget → Screen → Screen
  unfolding vd_print_styled clip
  vd_print_styled_at str col fil f_color bg_color target s =
      let start = record s { x = u32 (clip col * cell_w s); y = u32 (clip fil * cell_h s) } in
      record (vd_print_styled str f_color bg_color target start) { x = s.x; y = s.y }

unfoldable pub present_fullframe : Screen → Screen
unfolding copy_bytes
present_fullframe s = record s { vram = copy_bytes (s.pitch * s.height) s.back s.vram }

unfoldable pub vdclear_screen_db : ℕ → Screen → Screen
unfolding fb_fill_row present_fullframe
vdclear_screen_db color s =
    let filled = record s {
      back =
          loop s.height 0
            (λ row. fb_fill_row (row * s.pitch) s.width (blue color) (green color) (red color))
            s.back;
    } in
    record (present_fullframe filled) { x = 0; y = 0 }
