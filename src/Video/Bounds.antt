-- ===== src/Video/Bounds.antt =====
-- Kernel/drivers/video.c writes nothing outside the frame.
use tp_so.Prelude.{
  ℕ, ◌+◌, ◌-◌, ◌*◌, ◌/◌, ◌≤◌, ◌<◌, ◌≡◌, refl, ap, ◌∙◌, false, ◌||◌, ltb, leb, ◌==◌, arith, if_elim,
}
use tp_so.Video.{
  Screen, PixelTarget, pixel_vram, pixel_back, cell_w, cell_h, u32, loop, blue, green, red,
  on_target, put_pixel, fb_copy, fb_fill_row, blank_rows, move_rows, cursor_up, vd_scroll_up_pixels,
  vd_newline, clear_cell, vd_back_space,
}
use tp_so.Video.Frame.{
  loop_keeps, SameFrom, store_pixel-SameFrom, fb_copy-SameFrom, fb_fill_row-SameFrom, row_fits,
  Kept,
}

module _ (s : Screen) (wide : s.width * 3 ≤ s.pitch) where
  on_target-Kept :
      (target : PixelTarget) (f : (ℕ → ℕ) → ℕ → ℕ) (t : Screen)
      → ((m u : ℕ → ℕ) → SameFrom (s.pitch * s.height) m u → SameFrom (s.pitch * s.height) m (f u))
      → Kept s t
      → Kept s (on_target target f t)
  unfolding on_target
  on_target-Kept pixel_vram f t h k = record {
    width = k.width;
    height = k.height;
    pitch = k.pitch;
    vram = h s.vram t.vram k.vram;
    back = k.back;
  }
  on_target-Kept pixel_back f t h k = record {
    width = k.width;
    height = k.height;
    pitch = k.pitch;
    vram = k.vram;
    back = h s.back t.back k.back;
  }

  pixel_fits :
      (t : Screen) (px py : ℕ)
      → Kept s t
      → (leb t.width px || leb t.height py) ≡ false
      → py * t.pitch + px * 3 + 3 ≤ s.pitch * s.height
  pixel_fits t px py k e =
      let p : px < s.width = ground (arith, k.width) in
      let q : py < s.height = ground (arith, k.height) in
      rw (k.pitch) (omega (arith, row_fits py s.width s.height s.pitch q wide))

  pub put_pixel-Kept :
      (color px py : ℕ) (target : PixelTarget) (t : Screen)
      → Kept s t
      → Kept s (put_pixel color px py target t)
  unfolding put_pixel
  put_pixel-Kept color px py target t k =
      if_elim (Kept s) (leb t.width px || leb t.height py) (λ _. k)
        (λ e.
          on_target-Kept target _ t
            (λ m u.
              store_pixel-SameFrom (s.pitch * s.height) (py * t.pitch + px * 3) (blue color)
                (green color) (red color) m u (pixel_fits t px py k e))
            k)

  -- Another cursor or scale.
  pub moved :
      (t u : Screen)
      → u.width ≡ t.width
      → u.height ≡ t.height
      → u.pitch ≡ t.pitch
      → u.vram ≡ t.vram
      → u.back ≡ t.back
      → Kept s t
      → Kept s u
  moved t u w h p v b k = record {
    width = w ∙ k.width;
    height = h ∙ k.height;
    pitch = p ∙ k.pitch;
    vram = λ a l. ap (λ m. m a) v ∙ k.vram a l;
    back = λ a l. ap (λ m. m a) b ∙ k.back a l;
  }

  -- Other contents of the video memory.
  pub shown :
      (t : Screen) (m : ℕ → ℕ)
      → SameFrom (s.pitch * s.height) s.vram m
      → Kept s t
      → Kept s (record t { vram = m })
  shown t m h k = record {
    width = k.width;
    height = k.height;
    pitch = k.pitch;
    vram = h;
    back = k.back;
  }

  pub row_ends :
      (t : Screen) (row : ℕ)
      → Kept s t
      → row < t.height
      → row * t.pitch + t.width * 3 ≤ s.pitch * s.height
  row_ends t row k h =
      let q : row < s.height = omega (arith, k.height) in
      rw (k.pitch, k.width) (row_fits row s.width s.height s.pitch q wide)

  blank_rows-Kept :
      (from n : ℕ) (t : Screen) → from + n ≤ t.height → Kept s t → Kept s (blank_rows from n t)
  unfolding blank_rows
  blank_rows-Kept from n t h k =
      let lim = s.pitch * s.height in
      shown t _
        (loop_keeps (SameFrom lim s.vram) n from (λ row. fb_fill_row (row * t.pitch) t.width 0 0 0)
          (λ j a b m q.
            fb_fill_row-SameFrom lim (j * t.pitch) t.width 0 0 0 s.vram m
              (row_ends t j k (omega arith)) q)
          t.vram k.vram)
        k

  whole_row :
      (t : Screen) (row : ℕ)
      → Kept s t
      → row < t.height
      → row * t.pitch + t.pitch ≤ s.pitch * s.height
  whole_row t row k h =
      let q : row < s.height = omega (arith, k.height) in rw (k.pitch) (grind arith)

  move_rows-Kept : (rows : ℕ) (t : Screen) → rows ≤ t.height → Kept s t → Kept s (move_rows rows t)
  unfolding move_rows
  move_rows-Kept rows t h k =
      let lim = s.pitch * s.height in
      shown t _
        (loop_keeps (SameFrom lim s.vram) (t.height - rows) rows
          (λ ysrc. fb_copy ((ysrc - rows) * t.pitch) (ysrc * t.pitch) t.pitch)
          (λ j a b m q.
            fb_copy-SameFrom lim ((j - rows) * t.pitch) (j * t.pitch) t.pitch s.vram m
              (whole_row t (j - rows) k (omega arith)) q)
          t.vram k.vram)
        k

  vd_scroll_up-Kept : (rows : ℕ) (t : Screen) → Kept s t → Kept s (vd_scroll_up_pixels rows t)
  unfolding vd_scroll_up_pixels cursor_up
  vd_scroll_up-Kept rows t k =
      if_elim (Kept s) (rows == 0 || leb t.height rows)
        (λ _.
          let b = blank_rows 0 t.height t in
          moved b (record b { x = 0; y = 0 }) refl refl refl refl refl
            (blank_rows-Kept 0 t.height t (omega arith) k))
        (λ e.
          let below : rows ≤ t.height = ground arith in
          let fits : t.height - rows + rows ≤ t.height = omega arith in
          let u = move_rows rows t in
          let b = blank_rows (t.height - rows) rows u in
          moved b (cursor_up rows b) refl refl refl refl refl
            (blank_rows-Kept (t.height - rows) rows u fits (move_rows-Kept rows t below k)))

  pub vd_newline-Kept : (t : Screen) → Kept s t → Kept s (vd_newline t)
  unfolding vd_newline
  vd_newline-Kept t k =
      let n = record t { x = 0; y = u32 (t.y + cell_h t) } in
      let kn = moved t n refl refl refl refl refl k in
      if_elim (Kept s) (ltb t.height (u32 (n.y + cell_h t)))
        (λ _. vd_scroll_up-Kept (cell_h t) n kn) (λ _. kn)

  -- Where a round of a loop keeps the frame, so does the loop.
  pub rounds :
      (n i : ℕ) (f : ℕ → Screen → Screen) (t : Screen)
      → ((j : ℕ) (u : Screen) → Kept s u → Kept s (f j u))
      → Kept s t
      → Kept s (loop n i f t)
  rounds n i f t h k = loop_keeps (Kept s) n i f (λ j a b u q. h j u q) t k

  clear_cell-Kept : (target : PixelTarget) (t : Screen) → Kept s t → Kept s (clear_cell target t)
  unfolding clear_cell
  clear_cell-Kept target t k =
      rounds (cell_h t) t.y _ t
        (λ py u q.
          if_elim (Kept s) (ltb py t.height)
            (λ _.
              rounds (cell_w t) t.x _ u
                (λ px v r.
                  if_elim (Kept s) (ltb px t.width) (λ _. put_pixel-Kept 0 px py target v r)
                    (λ _. r))
                q)
            (λ _. q))
        k

  pub vd_back_space-Kept :
      (target : PixelTarget) (t : Screen) → Kept s t → Kept s (vd_back_space target t)
  unfolding vd_back_space
  vd_back_space-Kept target t k =
      if_elim (Kept s) (leb (cell_w t) t.x)
        (λ _.
          let u = record t { x = t.x - cell_w t } in
          clear_cell-Kept target u (moved t u refl refl refl refl refl k))
        (λ _.
          if_elim (Kept s) (leb (cell_h t) t.y)
            (λ _.
              let u = record t { y = t.y - cell_h t; x = t.width / cell_w t * cell_w t } in
              clear_cell-Kept target u (moved t u refl refl refl refl refl k))
            (λ _. k))
