-- ===== src/Memory/Bitmap/Init.antt =====
-- `mm_init` of the bitmap memory manager: where the bitmap and the blocks lie.
use tp_so.Prelude.{
  ℕ, zero, suc, ◌+◌, ◌-◌, ◌*◌, ◌/◌, ◌%◌, ◌^◌, ◌≤◌, ◌<◌, ◌≡◌, ◌≢◌, refl, ap, ◌∙◌, false, not, ◌||◌,
  ltb, leb, ◌==◌, arith, update_elim, if_elim,
}
use tp_so.Memory.Bits.{bit_and_align, bit_and-pow, zero-bit}
use tp_so.Memory.Bitmap.{Heap, block_size, bitmap_test, bitmap_bytes, clear_words, mm_init}

-- The heap is split into a bitmap and whole blocks behind it: the bitmap has a bit for each block, the
-- blocks start at a multiple of 16 bytes from the heap's start and end in the heap, and all are free.
pub record Layout (start size : ℕ) (m : Heap) : Type 0 where
  pub bits : m.total_blocks ≤ (m.blocks_base - m.bitmap) * 8
  pub bitmap : m.bitmap ≡ start
  pub aligned : (m.blocks_base - start) % block_size ≡ 0
  pub base : start ≤ m.blocks_base
  pub end : m.blocks_base + m.total_blocks * block_size ≤ start + size
  pub all_free : (c : ℕ) → c < m.total_blocks → bitmap_test m.words c ≡ false
  pub used : m.used_blocks ≡ 0

bitmap_bytes_lem :
    (words : ℕ)
    → words < 2 ^ 60
    → (bitmap_bytes words % block_size ≡ 0)
      × (words * 4 ≤ bitmap_bytes words)
      × (bitmap_bytes words < words * 4 + 16)
unfolding bitmap_bytes
bitmap_bytes_lem n h =
    if_elim (λ b. (b % 16 ≡ 0) × (n * 4 ≤ b) × (b < n * 4 + 16)) (n * 4 % 16 == 0)
      (λ e. (ground arith, omega arith, omega arith))
      (λ e.
        rw (bit_and_align (n * 4 + 16 - 1) (omega arith)) (omega arith, omega arith, omega arith))

clear_words_lem : (n : ℕ) (w : ℕ → ℕ) (i : ℕ) → i < n → clear_words n w i ≡ 0
unfolding clear_words
clear_words_lem zero w i h = absurd (omega arith)
clear_words_lem (suc n) w i h =
    update_elim (λ x. x ≡ 0) (clear_words n w) n 0 i (λ _. refl)
      (λ n'. clear_words_lem n w i (omega arith))

clear-free : (w : ℕ → ℕ) (c : ℕ) → w (c / 32) ≡ 0 → bitmap_test w c ≡ false
unfolding bitmap_test
clear-free w c e = ap not (bit_and-pow (w (c / 32)) (c % 32)) ∙ rw (e, zero-bit (c % 32)) refl

-- From a heap that is not NULL, `mm_init` sets up a layout in it, or leaves fewer than two blocks.
pub mm_init-Layout :
    (start size : ℕ) (m : Heap)
    → start ≢ 0
    → size < 2 ^ 64
    → 2 ≤ (mm_init start size m).total_blocks
    → Layout start size (mm_init start size m)
unfolding mm_init
mm_init-Layout start size m s b =
    let n = (size / 16 + 32 - 1) / 32 in
    let lay = bitmap_bytes_lem n (omega arith) in
    if_elim Goal (start == 0 || ltb size (block_size * 2)) (λ _ h. absurd (omega arith))
      (λ _.
        if_elim Goal (leb size (bitmap_bytes n)) (λ _ h. absurd (omega arith))
          (λ fits.
            if_elim Goal (ltb ((size - bitmap_bytes n) / block_size) 2)
              (λ e h. absurd (ground arith))
              (λ _ h. record {
                bits = omega (arith, lay);
                bitmap = refl;
                aligned = omega (arith, lay);
                base = omega arith;
                end = ground arith;
                all_free =
                    λ c k. clear-free _ c (clear_words_lem n m.words (c / 32) (omega (arith, lay)));
                used = refl;
              })))
  where
    Goal : Heap → Type 0
    Goal m' = 2 ≤ m'.total_blocks → Layout start size m'
