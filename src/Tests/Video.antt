-- ===== src/Tests/Video.antt =====
-- Kernel/drivers/video.c on a screen of two cells by two.
use tp_so.Text.{uint_to_base}
use tp_so.Prelude.{◌%◌, ◌^◌, ◌==◌, ◌&&◌, if◌then◌else◌, ◌≡◌, ℕ, List, [], ◌∷◌, pos, negsuc, arith}
use tp_so.Video.{Screen, pixel_vram, pixel_back, put_pixel, vd_print_styled}
use tp_so.Video.Pixels.{pixel_at, put_pixel-pixel_at}
use tp_so.Video.Frame.{Kept}
use tp_so.Video.Calls.{
  VideoCall, prints, prints_number, prints_at, plots, erases, clears, presents, resizes, scales,
  draw_all, draw_all-Kept,
}
use tp_so.Video.Numbers.{text_of, vd_uint_to_base}
use tp_so.Video.Digits.{vd_uint_to_base-uint_to_base}
use tp_so.Video.Cursor.{InScreen, print-InScreen}

abbrev screen : Screen
screen = record {
  width = 16;
  height = 32;
  pitch = 48;
  g_scale = 1;
  x = 8;
  y = 16;
  vram = λ a. 7;
  back = λ a. 9;
}

abbrev font : ℕ → ℕ → ℕ
font c row = 0x18

abbrev calls : List VideoCall
calls =
    prints (b'a' ∷ 10 ∷ 9 ∷ 8 ∷ []) 0xffffff 0 pixel_vram
    ∷ prints_at (b'b' ∷ []) (negsuc 0) (pos 300) 255 0 pixel_back
    ∷ prints_number (λ i. 0) 300 16 pixel_vram
    ∷ plots 255 15 31 pixel_back
    ∷ scales 3
    ∷ resizes (32 ∷ b'-' ∷ b'9' ∷ [])
    ∷ erases pixel_vram
    ∷ clears 128
    ∷ presents
    ∷ []

draw_all-Kept_example : Kept screen (draw_all font calls screen)
draw_all-Kept_example = draw_all-Kept font screen (ground arith) calls

screen-InScreen : InScreen screen
screen-InScreen = record {
  x_fits = ground arith;
  y_fits = ground arith;
  narrow = ground arith;
  low = ground arith;
}

print-InScreen_example :
    InScreen (vd_print_styled font (b'a' ∷ 8 ∷ 9 ∷ 10 ∷ b'b' ∷ []) 0xffffff 0 pixel_vram screen)
print-InScreen_example =
    print-InScreen font 0xffffff 0 pixel_vram (b'a' ∷ 8 ∷ 9 ∷ 10 ∷ b'b' ∷ []) screen screen-InScreen

vd_uint_to_base-uint_to_base_example :
    let r = vd_uint_to_base 300 16 (λ i. 7) in
    let q = uint_to_base 300 16 in (r.0 ≡ q.0) × (text_of r ≡ q.1) × (r.1 r.0 ≡ 0)
vd_uint_to_base-uint_to_base_example =
    vd_uint_to_base-uint_to_base 300 16 (λ i. 7) (omega arith) (omega arith)

-- The last pixel of the screen, when another one is drawn.
put_pixel-pixel_at_example :
    pixel_at pixel_back (put_pixel 0xff8000 15 30 pixel_back screen) 15 31
    ≡ (if 15 == 15 && 31 == 30 then 0xff8000 % 2 ^ 24 else pixel_at pixel_back screen 15 31)
put_pixel-pixel_at_example =
    put_pixel-pixel_at 0xff8000 15 30 15 31 pixel_back screen (ground arith) (ground arith)
      (ground arith)
