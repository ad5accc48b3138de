-- ===== src/Memory.antt =====
-- Kernel/include/memory_manager.h: what the kernel asks of a memory manager. The build links one of
-- two implementations, memory/bitmap_mm.c or memory/buddy_mm.c.
pub mod Bits
pub mod Bitmap
pub mod Buddy
use tp_so.Prelude.{ℕ}

-- `mm_alloc`, which returns 0 for NULL, `mm_free`, and the three numbers of `mm_state`.
pub record Manager (M : Type 0) : Type 0 where
  pub alloc : ℕ → M → ℕ × M
  pub free : ℕ → M → M
  pub state : M → ℕ × ℕ × ℕ
