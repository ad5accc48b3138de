-- ===== src/Video/Cursor.antt =====
-- Where Kernel/drivers/video.c leaves the cursor.
use native.Mathlib.Nat.{div-mul-le_self}
use tp_so.Prelude.{
  ℕ, ◌+◌, ◌-◌, ◌*◌, ◌/◌, ◌%◌, ◌^◌, ◌≤◌, ◌<◌, ◌≡◌, refl, ◌||◌, ltb, leb, ◌==◌, List, [], ◌∷◌, arith,
  if_elim, if◌then◌else◌,
}
use tp_so.Video.{
  Screen, PixelTarget, pixel_vram, pixel_back, cell_w, cell_h, u32, loop, on_target, put_pixel,
  blank_rows, move_rows, cursor_up, vd_scroll_up_pixels, vd_newline, clear_cell, vd_back_space,
  draw_dot, dot, draw_char, next_cell, print_glyph, vd_print_char_styled, vd_print_styled,
}
use tp_so.Video.Frame.{loop_keeps}

-- The same screen but for the pixels.
pub record Same (s t : Screen) : Type 0 where
  pub width : t.width ≡ s.width
  pub height : t.height ≡ s.height
  pub scale : t.g_scale ≡ s.g_scale
  pub x : t.x ≡ s.x
  pub y : t.y ≡ s.y

Same-refl : (s : Screen) → Same s s
Same-refl s = record { width = refl; height = refl; scale = refl; x = refl; y = refl }

module _ (s : Screen) where
  on_target-Same :
      (target : PixelTarget) (f : (ℕ → ℕ) → ℕ → ℕ) (t : Screen)
      → Same s t
      → Same s (on_target target f t)
  unfolding on_target
  on_target-Same pixel_vram f t k = record {
    width = k.width;
    height = k.height;
    scale = k.scale;
    x = k.x;
    y = k.y;
  }
  on_target-Same pixel_back f t k = record {
    width = k.width;
    height = k.height;
    scale = k.scale;
    x = k.x;
    y = k.y;
  }

  put_pixel-Same :
      (color px py : ℕ) (target : PixelTarget) (t : Screen)
      → Same s t
      → Same s (put_pixel color px py target t)
  unfolding put_pixel
  put_pixel-Same color px py target t k =
      if_elim (Same s) (leb t.width px || leb t.height py) (λ _. k)
        (λ _. on_target-Same target _ t k)

  rounds :
      (n i : ℕ) (f : ℕ → Screen → Screen) (t : Screen)
      → ((j : ℕ) (u : Screen) → Same s u → Same s (f j u))
      → Same s t
      → Same s (loop n i f t)
  rounds n i f t h k = loop_keeps (Same s) n i f (λ j a b u q. h j u q) t k

clear_cell-Same : (target : PixelTarget) (s : Screen) → Same s (clear_cell target s)
unfolding clear_cell
clear_cell-Same target s =
    rounds s (cell_h s) s.y _ s
      (λ py u q.
        if_elim (Same s) (ltb py s.height)
          (λ _.
            rounds s (cell_w s) s.x _ u
              (λ px v r.
                if_elim (Same s) (ltb px s.width) (λ _. put_pixel-Same s 0 px py target v r)
                  (λ _. r))
              q)
          (λ _. q))
      (Same-refl s)

draw_dot-Same :
    (s : Screen) (color pos_x pos_y : ℕ) (target : PixelTarget) (t : Screen)
    → Same s t
    → Same s (draw_dot color pos_x pos_y target t)
unfolding draw_dot
draw_dot-Same s color pos_x pos_y target t k =
    rounds s t.g_scale 0 _ t
      (λ dy u q.
        if_elim (Same s) (leb t.height (u32 (pos_y + dy))) (λ _. q)
          (λ _.
            rounds s t.g_scale 0 _ u
              (λ dx v r.
                if_elim (Same s) (leb t.width (u32 (pos_x + dx))) (λ _. r)
                  (λ _. put_pixel-Same s color (u32 (pos_x + dx)) (u32 (pos_y + dy)) target v r))
              q))
      k

-- The cursor is not beyond the right edge, and its line is on the screen; a screen is less than 2 ^ 16
-- pixels wide and high, and the font not wider than 2 ^ 16.
pub record InScreen (s : Screen) : Type 0 where
  pub x_fits : s.x ≤ s.width
  pub y_fits : s.y + cell_h s ≤ s.height
  pub narrow : s.width < 2 ^ 16
  pub low : s.height < 2 ^ 16

Same-InScreen : (s t : Screen) → Same s t → InScreen s → InScreen t
Same-InScreen s t k v = record {
  x_fits = omega (arith, k.x, k.width, v.x_fits);
  y_fits = omega (arith, k.y, k.height, k.scale, v.y_fits);
  narrow = omega (arith, k.width, v.narrow);
  low = omega (arith, k.height, v.low);
}

newline-InScreen :
    (s : Screen)
    → s.y + cell_h s ≤ s.height
    → s.width < 2 ^ 16
    → s.height < 2 ^ 16
    → InScreen (vd_newline s)
unfolding vd_newline vd_scroll_up_pixels cursor_up move_rows blank_rows
newline-InScreen s fits narrow low = record {
  x_fits = ground arith;
  y_fits = ground arith;
  narrow = ground arith;
  low = ground arith;
}

next_cell-InScreen : (s : Screen) → InScreen s → InScreen (next_cell s)
unfolding next_cell
next_cell-InScreen s v =
    let t = record s { x = u32 (s.x + cell_w s) } in
    if_elim InScreen (ltb s.width (u32 (t.x + cell_w s)))
      (λ _. newline-InScreen t v.y_fits v.narrow v.low)
      (λ e.
        let fits : (s.x + cell_w s) % 2 ^ 32 ≤ s.width =
          ground (arith, v.x_fits, v.y_fits, v.narrow, v.low) in
        record { x_fits = fits; y_fits = v.y_fits; narrow = v.narrow; low = v.low })

draw_char-Same :
    (font : ℕ → ℕ → ℕ) (c f b : ℕ) (target : PixelTarget) (s : Screen)
    → Same s (draw_char font c f b target s)
unfolding draw_char
draw_char-Same font c f b target s =
    rounds s 16 0 _ s
      (λ row t q.
        rounds s 8 0 _ t
          (λ col u r.
            draw_dot-Same s (if dot (font c row) col then f else b) (s.x + col * s.g_scale)
              (s.y + row * s.g_scale) target u r)
          q)
      (Same-refl s)

back_space-InScreen :
    (target : PixelTarget) (s : Screen) → InScreen s → InScreen (vd_back_space target s)
unfolding vd_back_space
back_space-InScreen target s v =
    if_elim InScreen (leb (cell_w s) s.x)
      (λ _.
        let t = record s { x = s.x - cell_w s } in
        Same-InScreen t (clear_cell target t) (clear_cell-Same target t) (record {
          x_fits = omega (arith, v.x_fits);
          y_fits = v.y_fits;
          narrow = v.narrow;
          low = v.low;
        }))
      (λ _.
        if_elim InScreen (leb (cell_h s) s.y)
          (λ _.
            let t = record s { y = s.y - cell_h s; x = s.width / cell_w s * cell_w s } in
            Same-InScreen t (clear_cell target t) (clear_cell-Same target t) (record {
              x_fits = div-mul-le_self s.width (cell_w s);
              y_fits = omega (arith, v.y_fits);
              narrow = v.narrow;
              low = v.low;
            }))
          (λ _. v))

module _ (font : ℕ → ℕ → ℕ) (f_color bg_color : ℕ) (target : PixelTarget) where
  glyph-InScreen :
      (c : ℕ) (s : Screen) → InScreen s → InScreen (print_glyph font c f_color bg_color target s)
  unfolding print_glyph
  glyph-InScreen c s v =
      let drawn = draw_char font c f_color bg_color target s in
      next_cell-InScreen drawn
        (Same-InScreen s drawn (draw_char-Same font c f_color bg_color target s) v)

  char-InScreen :
      (c : ℕ) (s : Screen)
      → InScreen s
      → InScreen (vd_print_char_styled font c f_color bg_color target s)
  unfolding vd_print_char_styled
  char-InScreen c s v =
      if_elim InScreen (c == 10) (λ _. newline-InScreen s v.y_fits v.narrow v.low)
        (λ _.
          if_elim InScreen (c == 9)
            (λ _.
              glyph-InScreen 32 _
                (glyph-InScreen 32 _ (glyph-InScreen 32 _ (glyph-InScreen 32 s v))))
            (λ _.
              if_elim InScreen (c == 8) (λ _. back_space-InScreen target s v)
                (λ _. glyph-InScreen c s v)))

  -- Printing any text, with newlines, tabs and backspaces in it, leaves the cursor not beyond the right edge
  -- and on a line that is on the screen as a whole, if it was there before and the screen is less
  -- than 2 ^ 16 pixels wide and high: at the bottom the screen scrolls.
  pub print-InScreen :
      (str : List ℕ) (s : Screen)
      → InScreen s
      → InScreen (vd_print_styled font str f_color bg_color target s)
  unfolding vd_print_styled
  print-InScreen [] s v = v
  print-InScreen (c ∷ str) s v = print-InScreen str _ (char-InScreen c s v)
