-- ===== src/Video/Text.antt =====
-- The text that Kernel/drivers/video.c draws stays in the frame.
use tp_so.Prelude.{ℕ, ◌+◌, ◌*◌, ◌≤◌, refl, ltb, leb, ◌==◌, List, [], ◌∷◌, ℤ, if_elim, if◌then◌else◌}
use tp_so.Video.{
  Screen, PixelTarget, cell_w, cell_h, u32, draw_dot, dot, draw_char, next_cell, print_glyph,
  vd_print_char_styled, vd_print_styled, vd_print_styled_at, clip,
}
use tp_so.Video.Bounds.{rounds, put_pixel-Kept, moved, vd_newline-Kept, vd_back_space-Kept}
use tp_so.Video.Frame.{Kept}

module _ (s : Screen) (wide : s.width * 3 ≤ s.pitch) where
  draw_dot-Kept :
      (color pos_x pos_y : ℕ) (target : PixelTarget) (t : Screen)
      → Kept s t
      → Kept s (draw_dot color pos_x pos_y target t)
  unfolding draw_dot
  draw_dot-Kept color pos_x pos_y target t k =
      rounds s wide t.g_scale 0 _ t
        (λ dy u q.
          if_elim (Kept s) (leb t.height (u32 (pos_y + dy))) (λ _. q)
            (λ _.
              rounds s wide t.g_scale 0 _ u
                (λ dx v r.
                  if_elim (Kept s) (leb t.width (u32 (pos_x + dx))) (λ _. r)
                    (λ _.
                      put_pixel-Kept s wide color (u32 (pos_x + dx)) (u32 (pos_y + dy)) target v r))
                q))
        k

  next_cell-Kept : (t : Screen) → Kept s t → Kept s (next_cell t)
  unfolding next_cell
  next_cell-Kept t k =
      let u = record t { x = u32 (t.x + cell_w t) } in
      let ku = moved s wide t u refl refl refl refl refl k in
      if_elim (Kept s) (ltb t.width (u32 (u.x + cell_w t))) (λ _. vd_newline-Kept s wide u ku)
        (λ _. ku)

  module _ (font : ℕ → ℕ → ℕ) (f_color bg_color : ℕ) (target : PixelTarget) where
    print_glyph-Kept :
        (c : ℕ) (t : Screen) → Kept s t → Kept s (print_glyph font c f_color bg_color target t)
    unfolding print_glyph draw_char
    print_glyph-Kept c t k = next_cell-Kept (draw_char font c f_color bg_color target t) (
        rounds s wide 16 0 _ t
          (λ row u q.
            rounds s wide 8 0 _ u
              (λ col v r.
                draw_dot-Kept (if dot (font c row) col then f_color else bg_color)
                  (t.x + col * t.g_scale) (t.y + row * t.g_scale) target v r)
              q)
          k)

    print_char-Kept :
        (c : ℕ) (t : Screen)
        → Kept s t
        → Kept s (vd_print_char_styled font c f_color bg_color target t)
    unfolding vd_print_char_styled
    print_char-Kept c t k =
        if_elim (Kept s) (c == 10) (λ _. vd_newline-Kept s wide t k)
          (λ _.
            if_elim (Kept s) (c == 9)
              (λ _.
                print_glyph-Kept 32 _
                  (print_glyph-Kept 32 _ (print_glyph-Kept 32 _ (print_glyph-Kept 32 t k))))
              (λ _.
                if_elim (Kept s) (c == 8) (λ _. vd_back_space-Kept s wide target t k)
                  (λ _. print_glyph-Kept c t k)))

    pub print-Kept :
        (str : List ℕ) (t : Screen)
        → Kept s t
        → Kept s (vd_print_styled font str f_color bg_color target t)
    unfolding vd_print_styled
    print-Kept [] t k = k
    print-Kept (c ∷ str) t k = print-Kept str _ (print_char-Kept c t k)

    pub print_at-Kept :
        (str : List ℕ) (col fil : ℤ) (t : Screen)
        → Kept s t
        → Kept s (vd_print_styled_at font str col fil f_color bg_color target t)
    unfolding vd_print_styled_at
    print_at-Kept str col fil t k =
        let start = record t { x = u32 (clip col * cell_w t); y = u32 (clip fil * cell_h t) } in
        let done = vd_print_styled font str f_color bg_color target start in
        moved s wide done (record done { x = t.x; y = t.y }) refl refl refl refl refl
          (print-Kept str start (moved s wide t start refl refl refl refl refl k))
