-- ===== src/Video/Calls.antt =====
-- Any sequence of the drawing calls of Kernel/drivers/video.c stays in the frame.
use tp_so.Prelude.{ℕ, ◌*◌, ◌≤◌, refl, List, [], ◌∷◌, ℤ, arith}
use tp_so.Video.Numbers.{
  text_of, vd_uint_to_base, vd_print_base, clamp_scale, str_to_uint_ignore_sign, syscall_resize,
}
use tp_so.ProcessTable.{int_of_u64}
use tp_so.Video.{
  Screen, PixelTarget, loop, vd_set_font_scale, blue, green, red, put_pixel, copy_bytes, put_frame,
  fb_fill_row, vd_back_space, vd_print_styled, vd_print_styled_at, vd_print, present_fullframe,
  vdclear_screen_db,
}
use tp_so.Video.Frame.{
  loop_keeps, SameFrom, copy_bytes-SameFrom, clear_bytes-SameFrom, fb_fill_row-SameFrom, Kept,
  Kept-refl,
}
use tp_so.Video.Bounds.{moved, shown, row_ends, put_pixel-Kept, vd_back_space-Kept}
use tp_so.Video.Text.{print-Kept, print_at-Kept}

module _ (s : Screen) (wide : s.width * 3 ≤ s.pitch) where
  present-Kept : (t : Screen) → Kept s t → Kept s (present_fullframe t)
  unfolding present_fullframe
  present-Kept t k =
      let copied : SameFrom (s.pitch * s.height) s.vram
          (copy_bytes (t.pitch * t.height) t.back t.vram) =
        rw (k.pitch, k.height)
          (copy_bytes-SameFrom (s.pitch * s.height) t.back s.vram t.vram k.vram) in
      shown s wide t (copy_bytes (t.pitch * t.height) t.back t.vram) copied k

  put_frame-Kept : (t : Screen) → Kept s t → Kept s (put_frame t)
  unfolding put_frame
  put_frame-Kept t k = record {
    width = k.width;
    height = k.height;
    pitch = k.pitch;
    vram = k.vram;
    back = rw (k.pitch, k.height) (clear_bytes-SameFrom (s.pitch * s.height) s.back t.back k.back);
  }

  clear_screen-Kept : (color : ℕ) (t : Screen) → Kept s t → Kept s (vdclear_screen_db color t)
  unfolding vdclear_screen_db
  clear_screen-Kept color t k =
      let lim = s.pitch * s.height in
      let paint : ℕ → (ℕ → ℕ) → ℕ → ℕ =
        λ row. fb_fill_row (row * t.pitch) t.width (blue color) (green color) (red color) in
      let filled = record t { back = loop t.height 0 paint t.back } in
      let kf : Kept s filled = record {
        width = k.width;
        height = k.height;
        pitch = k.pitch;
        vram = k.vram;
        back =
            loop_keeps (SameFrom lim s.back) t.height 0 paint
              (λ j a b m q.
                fb_fill_row-SameFrom lim (j * t.pitch) t.width (blue color) (green color)
                  (red color) s.back m (row_ends s wide t j k (omega arith)) q)
              t.back k.back;
      } in
      moved s wide (present_fullframe filled) (record (present_fullframe filled) { x = 0; y = 0 })
        refl refl refl refl refl (present-Kept filled kf)

-- The calls of video.c that draw, and the system call that sets the scale.
pub data VideoCall : Type 0 where
  prints : List ℕ → ℕ → ℕ → PixelTarget → VideoCall
  prints_number : (ℕ → ℕ) → ℕ → ℕ → PixelTarget → VideoCall
  prints_at : List ℕ → ℤ → ℤ → ℕ → ℕ → PixelTarget → VideoCall
  plots : ℕ → ℕ → ℕ → PixelTarget → VideoCall
  erases : PixelTarget → VideoCall
  clears : ℕ → VideoCall
  presents resets : VideoCall
  scales : ℕ → VideoCall
  resizes : List ℕ → VideoCall

module _ (font : ℕ → ℕ → ℕ) where
  unfoldable pub draw : VideoCall → Screen → Screen
  draw (prints str f b target) t = vd_print_styled font str f b target t
  draw (prints_number buffer value base target) t = vd_print_base font buffer value base target t
  draw (prints_at str col fil f b target) t = vd_print_styled_at font str col fil f b target t
  draw (plots color px py target) t = put_pixel color px py target t
  draw (erases target) t = vd_back_space target t
  draw (clears color) t = vdclear_screen_db color t
  draw presents t = present_fullframe t
  draw resets t = put_frame t
  draw (scales n) t = vd_set_font_scale n t
  draw (resizes text) t = syscall_resize text t

  unfoldable pub draw_all : List VideoCall → Screen → Screen
  unfolding draw
  draw_all [] t = t
  draw_all (c ∷ cs) t = draw_all cs (draw c t)

  module _ (s : Screen) (wide : s.width * 3 ≤ s.pitch) where
    scaled : (n : ℕ) (t : Screen) → Kept s t → Kept s (vd_set_font_scale n t)
    unfolding vd_set_font_scale
    scaled n t k = moved s wide t (record t { g_scale = n }) refl refl refl refl refl k

    draw-Kept : (c : VideoCall) (t : Screen) → Kept s t → Kept s (draw c t)
    unfolding draw syscall_resize vd_print_base vd_print
    draw-Kept (prints str f b target) t k = print-Kept s wide font f b target str t k
    draw-Kept (prints_number buffer value base target) t k =
        print-Kept s wide font 0xffffff 0 target (text_of (vd_uint_to_base value base buffer)) t k
    draw-Kept (prints_at str col fil f b target) t k =
        print_at-Kept s wide font f b target str col fil t k
    draw-Kept (plots color px py target) t k = put_pixel-Kept s wide color px py target t k
    draw-Kept (erases target) t k = vd_back_space-Kept s wide target t k
    draw-Kept (clears color) t k = clear_screen-Kept s wide color t k
    draw-Kept presents t k = present-Kept s wide t k
    draw-Kept resets t k = put_frame-Kept s wide t k
    draw-Kept (scales n) t k = scaled n t k
    draw-Kept (resizes text) t k =
        scaled (clamp_scale (int_of_u64 (str_to_uint_ignore_sign text))) t k

    all-Kept : (cs : List VideoCall) (t : Screen) → Kept s t → Kept s (draw_all cs t)
    unfolding draw_all
    all-Kept [] t k = k
    all-Kept (c ∷ cs) t k = all-Kept cs (draw c t) (draw-Kept c t k)

    -- Where a row of pixels fits into the pitch, no sequence of drawing calls, with any text, colours,
    -- positions and font scales, changes a byte of the video memory or of the back buffer from
    -- `pitch * height` on: scrolling, backspaces and a cursor outside the screen included.
    pub draw_all-Kept : (cs : List VideoCall) → Kept s (draw_all cs s)
    draw_all-Kept cs = all-Kept cs s (Kept-refl s)
