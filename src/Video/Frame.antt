-- ===== src/Video/Frame.antt =====
-- The loops of Kernel/drivers/video.c over memory, and which of it they leave alone.
use tp_so.Prelude.{ℕ, zero, suc, ◌+◌, ◌*◌, ◌≤◌, ◌<◌, ◌≡◌, refl, update, update_elim, arith}
use tp_so.Video.{Screen, loop, store_pixel, clear_bytes, copy_bytes, fb_copy, fb_fill_row}

-- What holds before a loop and is kept by each round holds behind it.
pub loop_keeps {ℓ κ} :
    {S : Type ℓ} (P : S → Type κ) (n i : ℕ) (f : ℕ → S → S)
    → ((j : ℕ) → i ≤ j → j < i + n → (t : S) → P t → P (f j t))
    → (s : S) → P s
    → P (loop n i f s)
unfolding loop
loop_keeps P zero i f keep s p = p
loop_keeps P (suc n) i f keep s p =
    loop_keeps P n (suc i) f (λ j a b. keep j (omega arith) (omega arith)) (f i s)
      (keep i (omega arith) (omega arith) s p)

-- From `lim` on the memory is the same.
abbrev pub SameFrom : ℕ → (ℕ → ℕ) → (ℕ → ℕ) → Type 0
SameFrom lim m t = (a : ℕ) → lim ≤ a → t a ≡ m a

pub update-SameFrom :
    (lim at v : ℕ) (m t : ℕ → ℕ) → at < lim → SameFrom lim m t → SameFrom lim m (update t at v)
update-SameFrom lim at v m t b h a l =
    update_elim (λ x. x ≡ m a) t at v a (λ e. absurd (omega arith)) (λ _. h a l)

pub store_pixel-SameFrom :
    (lim at b g r : ℕ) (m t : ℕ → ℕ)
    → at + 3 ≤ lim
    → SameFrom lim m t
    → SameFrom lim m (store_pixel at b g r t)
unfolding store_pixel
store_pixel-SameFrom lim at b g r m t l h = update-SameFrom lim (at + 2) r m _ (omega arith) (
    update-SameFrom lim (at + 1) g m _ (omega arith) (update-SameFrom lim at b m t (omega arith) h))

pub copy_bytes-SameFrom :
    (lim : ℕ) (src m t : ℕ → ℕ) → SameFrom lim m t → SameFrom lim m (copy_bytes lim src t)
unfolding copy_bytes
copy_bytes-SameFrom lim src m t h =
    loop_keeps (SameFrom lim m) lim 0 (λ i (u : ℕ → ℕ). update u i (src i))
      (λ j a b u k. update-SameFrom lim j (src j) m u (omega arith) k) t h

pub clear_bytes-SameFrom :
    (lim : ℕ) (m t : ℕ → ℕ) → SameFrom lim m t → SameFrom lim m (clear_bytes lim t)
unfolding clear_bytes
clear_bytes-SameFrom lim m t h =
    loop_keeps (SameFrom lim m) lim 0 (λ i (u : ℕ → ℕ). update u i 0)
      (λ j a b u k. update-SameFrom lim j 0 m u (omega arith) k) t h

pub fb_copy-SameFrom :
    (lim dst src n : ℕ) (m t : ℕ → ℕ)
    → dst + n ≤ lim
    → SameFrom lim m t
    → SameFrom lim m (fb_copy dst src n t)
unfolding fb_copy
fb_copy-SameFrom lim dst src n m t l h =
    loop_keeps (SameFrom lim m) n 0 (λ i (u : ℕ → ℕ). update u (dst + i) (u (src + i)))
      (λ j a b u k. update-SameFrom lim (dst + j) (u (src + j)) m u (omega arith) k) t h

pub fb_fill_row-SameFrom :
    (lim row width b g r : ℕ) (m t : ℕ → ℕ)
    → row + width * 3 ≤ lim
    → SameFrom lim m t
    → SameFrom lim m (fb_fill_row row width b g r t)
unfolding fb_fill_row
fb_fill_row-SameFrom lim row width b g r m t l h =
    loop_keeps (SameFrom lim m) width 0 (λ i. store_pixel (row + i * 3) b g r)
      (λ j a c u k. store_pixel-SameFrom lim (row + j * 3) b g r m u (omega arith) k) t h

-- A row of the frame ends in it.
pub row_fits :
    (row width height pitch : ℕ)
    → row < height
    → width * 3 ≤ pitch
    → row * pitch + width * 3 ≤ pitch * height
row_fits row width height pitch h w = grind arith

-- A screen with the same frame, and the same memory outside it.
pub record Kept (s t : Screen) : Type 0 where
  pub width : t.width ≡ s.width
  pub height : t.height ≡ s.height
  pub pitch : t.pitch ≡ s.pitch
  pub vram : SameFrom (s.pitch * s.height) s.vram t.vram
  pub back : SameFrom (s.pitch * s.height) s.back t.back

pub Kept-refl : (s : Screen) → Kept s s
Kept-refl s = record {
  width = refl;
  height = refl;
  pitch = refl;
  vram = λ a l. refl;
  back = λ a l. refl;
}
