-- ===== src/Tests/Memory.antt =====
-- The bitmap memory manager on a heap of ten blocks, of which blocks 0 and 2 are taken, and the buddy
-- memory manager on a heap whose first half is taken.
use tp_so.Prelude.{ℕ, zero, suc, ◌≡◌, ◌⊎◌, refl, arith, find_from}
use tp_so.Memory.Bitmap.{Heap, mm_alloc, mm_free, first_fit, is_free_run, bitmap_test, mm_init}
use tp_so.Memory.Bitmap.Alloc.{IsHeap, Given, Refused, Restored, mm_alloc-Given, mm_free-mm_alloc}
use tp_so.Memory.Bitmap.Init.{Layout, mm_init-Layout}
use tp_so.ProcessTable.{int_of_u64}
use tp_so.Memory.Buddy
use tp_so.Memory.Buddy.{Buddy, NodeState, node_free, node_used, node_split, alloc_recursive}
use tp_so.Memory.Buddy.Address.{IsBuddy, InHeap, mm_alloc-InHeap}
use tp_so.Memory.Buddy.Search.{Searched, alloc_recursive-Searched}

words : ℕ → ℕ
words zero = 5
words (suc i) = 0

abbrev heap : Heap
heap = record {
  pool = 4096;
  bitmap = 4096;
  blocks_base = 4112;
  total_blocks = 10;
  used_blocks = 2;
  words = words;
  headers = λ _. 0;
}

heap-IsHeap : IsHeap heap
heap-IsHeap = record {
  pool = omega arith;
  some_blocks = omega arith;
  small = omega arith;
  used = omega arith;
}

mm_alloc-Given_example : Given 20 heap (mm_alloc 20 heap) ⊎ Refused 20 heap (mm_alloc 20 heap)
mm_alloc-Given_example = mm_alloc-Given 20 heap heap-IsHeap (omega arith) (omega arith)

-- The first run of three free blocks is that of blocks 3 to 5.
given : (mm_alloc 20 heap).0 ≡ 4176
unfolding mm_alloc first_fit is_free_run bitmap_test find_from int_of_u64 words
given = refl

mm_free-mm_alloc_example : Restored heap (mm_free (mm_alloc 20 heap).0 (mm_alloc 20 heap).1)
mm_free-mm_alloc_example =
    mm_free-mm_alloc 20 heap heap-IsHeap (omega arith) (omega arith) (omega (arith, given))

-- A heap of 4096 bytes has 254 blocks behind 32 bytes of bitmap.
laid_out : (mm_init 4096 4096 heap).total_blocks ≡ 254
unfolding mm_init
laid_out = refl

mm_init-Layout_example : Layout 4096 4096 (mm_init 4096 4096 heap)
mm_init-Layout_example =
    mm_init-Layout 4096 4096 heap (omega arith) (omega arith) (omega (arith, laid_out))

-- A tree whose left half is taken.
half_taken : ℕ → NodeState
half_taken zero = node_free
half_taken (suc zero) = node_split
half_taken (suc (suc zero)) = node_used
half_taken _ = node_free

alloc_recursive-Searched_example : Searched 2 1 half_taken (alloc_recursive 2 1 half_taken)
alloc_recursive-Searched_example =
    alloc_recursive-Searched 2 1 half_taken (λ e. absurd (omega arith))

found_node : (alloc_recursive 2 1 half_taken).0 ≡ 6
unfolding alloc_recursive half_taken
found_node = refl

abbrev buddies : Buddy
buddies = record {
  heap_base = 1000;
  total_size = 64;
  min_block_size = 16;
  levels = 3;
  tree = half_taken;
  used_mem = 32;
}

buddies-IsBuddy : IsBuddy buddies
buddies-IsBuddy = record { exponent = 2; small = omega arith; total = omega arith; block = refl }

-- The third of the four blocks is the first that is free.
third_block : (Buddy.mm_alloc 10 buddies).0 ≡ 1032
unfolding Buddy.mm_alloc half_taken
third_block = refl

mm_alloc-InHeap_example : InHeap 10 buddies (Buddy.mm_alloc 10 buddies).0
mm_alloc-InHeap_example = mm_alloc-InHeap 10 buddies buddies-IsBuddy (omega (arith, third_block))
