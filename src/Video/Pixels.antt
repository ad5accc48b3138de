-- ===== src/Video/Pixels.antt =====
-- The pixels that `putPixel` of Kernel/drivers/video.c writes.
use native.Mathlib.Decide.{ℕ_discrete}
use tp_so.Prelude.{
  ℕ, update, ◌+◌, ◌*◌, ◌%◌, ◌^◌, ◌≤◌, ◌<◌, ◌≡◌, ◌≢◌, refl, true, false, ◌&&◌, ◌||◌, ltb, leb, ◌==◌,
  arith, if_elim, Bool-cases, inl, inr, ◌⊎◌, if◌then◌else◌,
}
use tp_so.Video.{
  Screen, PixelTarget, pixel_vram, pixel_back, blue, green, red, store_pixel, on_target, put_pixel,
}

-- The three bytes at an offset as a colour.
abbrev pub color_at : (ℕ → ℕ) → ℕ → ℕ
color_at m at = m at + 2 ^ 8 * m (at + 1) + 2 ^ 16 * m (at + 2)

abbrev pub pixels : PixelTarget → Screen → ℕ → ℕ
pixels pixel_vram s = s.vram
pixels pixel_back s = s.back

abbrev pub pixel_at : PixelTarget → Screen → ℕ → ℕ → ℕ
pixel_at target s px py = color_at (pixels target s) (py * s.pitch + px * 3)

stored :
    (at color : ℕ) (m : ℕ → ℕ)
    → color_at (store_pixel at (blue color) (green color) (red color) m) at ≡ color % 2 ^ 24
unfolding store_pixel
stored at color m =
    let b : update (update (update m at (blue color)) (at + 1) (green color)) (at + 2) (red color)
          at
        ≡ blue color =
      ground arith in
    let g : update (update (update m at (blue color)) (at + 1) (green color)) (at + 2) (red color)
          (at + 1)
        ≡ green color =
      ground arith in
    let r : update (update (update m at (blue color)) (at + 1) (green color)) (at + 2) (red color)
          (at + 2)
        ≡ red color =
      ground arith in
    omega (arith, b, g, r)

stored_elsewhere :
    (at q b g r : ℕ) (m : ℕ → ℕ)
    → ((q + 3 ≤ at) ⊎ (at + 3 ≤ q))
    → color_at (store_pixel at b g r m) q ≡ color_at m q
unfolding store_pixel
stored_elsewhere at q b g r m (inl h) = ground arith
stored_elsewhere at q b g r m (inr h) = ground arith

apart :
    (px py qx qy width pitch : ℕ)
    → px < width
    → qx < width
    → width * 3 ≤ pitch
    → qy < py
    → qy * pitch + qx * 3 + 3 ≤ py * pitch + px * 3
apart px py qx qy width pitch h k w l = grind arith

unequal : (a b : ℕ) → a ≢ b → (a < b) ⊎ (b < a)
unequal a b ne = elim (Bool-cases (ltb a b)) [
  | inl e ↦ inl (ground arith)
  | inr e ↦ inr (ground (arith, ne))
]

same_row :
    (o px qx : ℕ)
    → (qx < px) ⊎ (px < qx)
    → (o + qx * 3 + 3 ≤ o + px * 3) ⊎ (o + px * 3 + 3 ≤ o + qx * 3)
same_row o px qx (inl l) = inl (omega arith)
same_row o px qx (inr l) = inr (omega arith)

other_row :
    (px py qx qy width pitch : ℕ)
    → px < width
    → qx < width
    → width * 3 ≤ pitch
    → (qy < py) ⊎ (py < qy)
    → (qy * pitch + qx * 3 + 3 ≤ py * pitch + px * 3)
      ⊎ (py * pitch + px * 3 + 3 ≤ qy * pitch + qx * 3)
other_row px py qx qy width pitch h k w (inl l) = inl (apart px py qx qy width pitch h k w l)
other_row px py qx qy width pitch h k w (inr l) = inr (apart qx qy px py width pitch k h w l)

-- What a pixel is in memory in which one has been stored.
stored_pixel :
    (color px py qx qy width pitch : ℕ) (m : ℕ → ℕ)
    → px < width
    → qx < width
    → width * 3 ≤ pitch
    → let at = py * pitch + px * 3 in
      let q = qy * pitch + qx * 3 in
      color_at (store_pixel at (blue color) (green color) (red color) m) q
      ≡ (if qx == px && qy == py then color % 2 ^ 24 else color_at m q)
stored_pixel color px py qx qy width pitch m h k w = elim (ℕ_discrete qy py) [
  | yes e ↦ elim (ℕ_discrete qx px) [
    | yes f ↦
        let t : (qx == px && qy == py) ≡ true = ground arith in
        rw t (rw (e, f) (stored (py * pitch + px * 3) color m))
    | no nf ↦
        let t : (qx == px && qy == py) ≡ false = ground (arith, nf) in
        rw t (
          rw e (
            stored_elsewhere (py * pitch + px * 3) (py * pitch + qx * 3) _ _ _ m
              (same_row (py * pitch) px qx (unequal qx px nf))))
  ]
  | no ne ↦
      let t : (qx == px && qy == py) ≡ false = ground (arith, ne) in
      rw t (
        stored_elsewhere (py * pitch + px * 3) (qy * pitch + qx * 3) _ _ _ m
          (other_row px py qx qy width pitch h k w (unequal qy py ne)))
]

-- Where a row of pixels fits into the pitch, drawing a pixel sets that pixel of the target to the
-- lower 24 bits of the colour and changes no other pixel of the screen; a position outside the screen
-- changes none.
pub put_pixel-pixel_at :
    (color px py qx qy : ℕ) (target : PixelTarget) (s : Screen)
    → s.width * 3 ≤ s.pitch
    → qx < s.width
    → qy < s.height
    → pixel_at target (put_pixel color px py target s) qx qy
      ≡ (if qx == px && qy == py then color % 2 ^ 24 else pixel_at target s qx qy)
unfolding put_pixel on_target
put_pixel-pixel_at color px py qx qy target s w h k =
    let Goal : Screen → Type 0 = λ t.
      pixel_at target t qx qy
      ≡ (if qx == px && qy == py then color % 2 ^ 24 else pixel_at target s qx qy) in
    if_elim Goal (leb s.width px || leb s.height py)
      (λ e. let t : (qx == px && qy == py) ≡ false = ground arith in rw t refl)
      (λ e. drawn target (ground arith))
  where
    drawn :
        (target : PixelTarget)
        → px < s.width
        → pixel_at target
            (on_target target
              (store_pixel (py * s.pitch + px * 3) (blue color) (green color) (red color))
              s)
            qx
            qy
          ≡ (if qx == px && qy == py then color % 2 ^ 24 else pixel_at target s qx qy)
    drawn pixel_vram l = stored_pixel color px py qx qy s.width s.pitch s.vram l h w
    drawn pixel_back l = stored_pixel color px py qx qy s.width s.pitch s.back l h w
