-- ===== src/Memory/Bitmap.antt =====
-- Kernel/memory/bitmap_mm.c: a heap of 16-byte blocks with one bit for each, taken first fit. The
-- static variables are the record `Heap`; `words` is the bitmap by word index, and `headers` holds
-- the `nblocks` of the header at each address.
pub mod Runs
pub mod Alloc
pub mod Init
use Prim.Native.Nat.{bit_and, bit_or}
use tp_so.Prelude.{
  ℕ, zero, suc, ◌+◌, ◌-◌, ◌*◌, ◌/◌, ◌%◌, ◌^◌, Option, none, some, Bool, true, false, not, ◌&&◌,
  ◌||◌, ltb, leb, ◌==◌, ℤ, pos, negsuc, minus_one, update, find_from, is_some, on_some,
  if◌then◌else◌,
}
use tp_so.ProcessTable.{int_of_u64}

abbrev pub block_size : ℕ
block_size = 16

abbrev pub bits_per_word : ℕ
bits_per_word = 32

pub record Heap : Type 0 where
  pub pool : ℕ
  pub bitmap : ℕ
  pub blocks_base : ℕ
  pub total_blocks : ℕ
  pub used_blocks : ℕ
  pub words : ℕ → ℕ
  pub headers : ℕ → ℕ

-- `1u << (b % BITS_PER_WORD)`
abbrev pub bit_mask : ℕ → ℕ
bit_mask b = 2 ^ (b % bits_per_word)

unfoldable pub bitmap_set : ℕ → (ℕ → ℕ) → ℕ → ℕ
bitmap_set b w = update w (b / bits_per_word) (bit_or (w (b / bits_per_word)) (bit_mask b))

unfoldable pub bitmap_clear : ℕ → (ℕ → ℕ) → ℕ → ℕ
bitmap_clear b w =
    update w (b / bits_per_word) (bit_and (w (b / bits_per_word)) (2 ^ 32 - 1 - bit_mask b))

unfoldable pub bitmap_test : (ℕ → ℕ) → ℕ → Bool
bitmap_test w b = not (bit_and (w (b / bits_per_word)) (bit_mask b) == 0)

-- Block `i` and the `needed - 1` blocks behind it are free.
unfoldable pub is_free_run : (ℕ → ℕ) → ℕ → ℕ → Bool
is_free_run w needed i =
    not (bitmap_test w i) && not (is_some (find_from (needed - 1) (i + 1) (bitmap_test w)))

unfoldable pub first_fit : ℕ → Heap → ℤ
unfolding is_free_run
first_fit needed m =
    if needed == 0 || ltb m.total_blocks needed
    then minus_one
    else on_some (find_from (m.total_blocks - needed + 1) 0 (is_free_run m.words needed)) int_of_u64
        minus_one

-- `for (i = 0; i < n; i++) bitmap_set(g_bitmap, start + i);`, and the same with `bitmap_clear`.
unfoldable pub set_range : ℕ → ℕ → (ℕ → ℕ) → ℕ → ℕ
set_range zero start w = w
set_range (suc n) start w = bitmap_set (start + n) (set_range n start w)

unfoldable pub clear_range : ℕ → ℕ → (ℕ → ℕ) → ℕ → ℕ
clear_range zero start w = w
clear_range (suc n) start w = bitmap_clear (start + n) (clear_range n start w)

-- The bytes of the bitmap, rounded up to whole blocks.
unfoldable pub bitmap_bytes : ℕ → ℕ
bitmap_bytes words =
    let bytes = words * 4 in
    if bytes % block_size == 0
    then bytes
    else bit_and (bytes + block_size - 1) (2 ^ 64 - block_size)

unfoldable pub clear_words : ℕ → (ℕ → ℕ) → ℕ → ℕ
clear_words zero w = w
clear_words (suc n) w = update (clear_words n w) n 0

unfoldable pub mm_init : ℕ → ℕ → Heap → Heap
unfolding bitmap_bytes clear_words
mm_init heap_start heap_size m =
    let bitmap_words = (heap_size / block_size + bits_per_word - 1) / bits_per_word in
    let bytes = bitmap_bytes bitmap_words in
    let m1 = record m { total_blocks = 0; used_blocks = 0; pool = heap_start } in
    let m2 = record m1 { total_blocks = (heap_size - bytes) / block_size } in
    if heap_start == 0 || ltb heap_size (block_size * 2)
    then m1
    else if leb heap_size bytes
    then m1
    else if ltb m2.total_blocks 2
    then m2
    else record m2 {
      bitmap = heap_start;
      blocks_base = heap_start + bytes;
      words = clear_words bitmap_words m.words;
    }

-- `(size + BLOCK_SIZE - 1) / BLOCK_SIZE` in 64 bits.
unfoldable pub user_blocks : ℕ → ℕ
user_blocks size = (size + block_size - 1) % 2 ^ 64 / block_size

-- The run of blocks at `start`, with its header, and the address behind the header.
unfoldable pub take_run : ℕ → ℕ → Heap → ℕ × Heap
unfolding set_range
take_run start n m =
    let header_addr = m.blocks_base + start * block_size in
    (
      header_addr + block_size,
      record m {
        words = set_range (n + 1) start m.words;
        used_blocks = (m.used_blocks + (n + 1)) % 2 ^ 64;
        headers = update m.headers header_addr (n % 2 ^ 32);
      },
    )

unfoldable pub alloc_at : ℤ → ℕ → Heap → ℕ × Heap
unfolding take_run
alloc_at (pos start) n m = take_run start n m
alloc_at (negsuc i) n m = (0, m)

unfoldable pub mm_alloc : ℕ → Heap → ℕ × Heap
unfolding alloc_at user_blocks
mm_alloc size m =
    if m.pool == 0 || size == 0 || m.total_blocks == 0
    then (0, m)
    else alloc_at (first_fit (user_blocks size + 1) m) (user_blocks size) m

unfoldable pub free_run : ℕ → ℕ → Heap → Heap
unfolding clear_range
free_run start total m =
    if ltb m.total_blocks (start + total)
    then m
    else if bitmap_test m.words start
    then record m {
      words = clear_range total start m.words;
      used_blocks = (m.used_blocks + 2 ^ 64 - total) % 2 ^ 64;
    }
    else m

unfoldable pub mm_free : ℕ → Heap → Heap
unfolding free_run
mm_free ptr m =
    let offset = ptr - m.blocks_base in
    if ptr == 0 || m.pool == 0 || m.total_blocks == 0
    then m
    else if ltb ptr m.blocks_base || leb (m.total_blocks * block_size) offset
    then m
    else if not (offset % block_size == 0) || offset / block_size == 0
    then m
    else free_run (offset / block_size - 1) (m.headers (ptr - block_size) + 1) m

-- `*total`, `*used` and `*free_mem`.
unfoldable pub mm_state : Heap → ℕ × ℕ × ℕ
mm_state m =
    let total = m.total_blocks * block_size in
    let used = m.used_blocks * block_size in
    if m.pool == 0 then (0, 0, 0) else (total, used, (total + 2 ^ 64 - used) % 2 ^ 64)
