-- ===== src/Memory/Bitmap/Alloc.antt =====
-- `mm_alloc` and `mm_free` of the bitmap memory manager.
use tp_so.Prelude.{
  ℕ, ◌+◌, ◌-◌, ◌*◌, ◌/◌, ◌%◌, ◌^◌, ◌≤◌, ◌<◌, ◌≡◌, ◌≢◌, ◌⊎◌, refl, sym, subst, ◌∙◌, Bool, true,
  false, not, ◌&&◌, ◌||◌, ltb, leb, ◌==◌, arith, find_from_cases, inl, inr, if_elim, ap, ℤ, pos,
  negsuc,
}
use tp_so.ProcessTable.{int_of_u64}
use tp_so.Memory.Bitmap.{
  Heap, block_size, bitmap_test, is_free_run, first_fit, set_range, user_blocks, take_run, alloc_at,
  mm_alloc, free_run, mm_free,
}
use tp_so.Memory.Bitmap.Runs.{
  in_run, is_free_run_sound, is_free_run_complete, bitmap_test-set_range, bitmap_test-clear_range,
}

-- A heap that `mm_init` has set up, of less than 32 GiB.
pub record IsHeap (m : Heap) : Type 0 where
  pub pool : m.pool ≢ 0
  pub some_blocks : 0 < m.total_blocks
  pub small : m.total_blocks < 2 ^ 31
  pub used : m.used_blocks ≤ m.total_blocks

abbrev pub AreFree : Heap → ℕ → ℕ → Type 0
AreFree m start n = (c : ℕ) → in_run start n c ≡ true → bitmap_test m.words c ≡ false

-- A request of `size` bytes got the run of blocks at `start`: its header's and the user's.
pub record Given (size : ℕ) (m : Heap) (r : ℕ × Heap) : Type 0 where
  pub start : ℕ
  pub in_heap : start + (user_blocks size + 1) ≤ m.total_blocks
  pub room : size ≤ user_blocks size * block_size
  pub were_free : AreFree m start (user_blocks size + 1)
  pub address : r.0 ≡ m.blocks_base + (start + 1) * block_size
  pub taken :
      (c : ℕ)
      → bitmap_test r.1.words c ≡ (in_run start (user_blocks size + 1) c || bitmap_test m.words c)
  pub count : r.1.used_blocks ≡ m.used_blocks + (user_blocks size + 1)
  pub header : r.1.headers (m.blocks_base + start * block_size) ≡ user_blocks size
  pub other_headers : (a : ℕ) → a ≢ m.blocks_base + start * block_size → r.1.headers a ≡ m.headers a
  pub same_heap :
      (r.1.pool ≡ m.pool) × (r.1.blocks_base ≡ m.blocks_base) × (r.1.total_blocks ≡ m.total_blocks)

-- The same by the code's own steps.
record Ran (size : ℕ) (m : Heap) (r : ℕ × Heap) : Type 0 where
  start : ℕ
  in_heap : start + (user_blocks size + 1) ≤ m.total_blocks
  room : size ≤ user_blocks size * block_size
  were_free : AreFree m start (user_blocks size + 1)
  result : r ≡ take_run start (user_blocks size) m

-- There was no run long enough.
pub record Refused (size : ℕ) (m : Heap) (r : ℕ × Heap) : Type 0 where
  pub no_run :
      (start : ℕ)
      → start + (user_blocks size + 1) ≤ m.total_blocks
      → AreFree m start (user_blocks size + 1)
      → ⊥
  pub result : r ≡ (0, m)

int_of_small : (x : ℕ) → x < 2 ^ 31 → int_of_u64 x ≡ pos x
unfolding int_of_u64
int_of_small x h = ground arith

-- What the search finds.
abbrev Fits : ℕ → Heap → ℤ → Type 0
Fits n m (pos start) = (start + n ≤ m.total_blocks) × AreFree m start n
Fits n m (negsuc i) = (start : ℕ) → start + n ≤ m.total_blocks → AreFree m start n → ⊥

first_fit-Fits : (n : ℕ) (m : Heap) → 0 < n → m.total_blocks < 2 ^ 31 → Fits n m (first_fit n m)
unfolding first_fit
first_fit-Fits n m b h =
    if_elim (Fits n m) (n == 0 || ltb m.total_blocks n) (λ e s l f. ground arith)
      (λ e. elim (find_from_cases (m.total_blocks - n + 1) (is_free_run m.words n)) [
        | inl (f, none_free) ↦ rw f (λ s l free.
            let c : true ≡ false =
              sym (is_free_run_complete m.words n s b free) ∙ none_free s (omega arith) in
            cc)
        | inr (s, f, l, free, _) ↦
            rw (f, int_of_small s (omega arith))
              (ground arith, λ c k. is_free_run_sound m.words n s c b free k)
      ])

alloc_at_lem :
    (size : ℕ) (m : Heap) (o : ℤ)
    → size ≤ user_blocks size * block_size
    → Fits (user_blocks size + 1) m o
    → let r = alloc_at o (user_blocks size) m in Ran size m r ⊎ Refused size m r
unfolding alloc_at
alloc_at_lem size m (pos s) b f =
    inl (record { start = s; in_heap = f.0; room = b; were_free = f.1; result = refl })
alloc_at_lem size m (negsuc i) b f = inr (record { no_run = f; result = refl })

mm_alloc-Ran :
    (size : ℕ) (m : Heap)
    → IsHeap m
    → 0 < size
    → size + 15 < 2 ^ 64
    → Ran size m (mm_alloc size m) ⊎ Refused size m (mm_alloc size m)
unfolding mm_alloc
mm_alloc-Ran size m v a b =
    if_elim (λ r. Ran size m r ⊎ Refused size m r) (m.pool == 0 || size == 0 || m.total_blocks == 0)
      (λ e. absurd (ground (arith, v.pool, v.some_blocks)))
      (λ _.
        alloc_at_lem size m _ (unfold user_blocks in omega arith)
          (first_fit-Fits (user_blocks size + 1) m (omega arith) v.small))

take_run-Given :
    (size start : ℕ) (m : Heap)
    → IsHeap m
    → start + (user_blocks size + 1) ≤ m.total_blocks
    → size ≤ user_blocks size * block_size
    → AreFree m start (user_blocks size + 1)
    → Given size m (take_run start (user_blocks size) m)
unfolding take_run
take_run-Given size start m v h b f = record {
  start = start;
  in_heap = h;
  room = b;
  were_free = f;
  address = omega arith;
  taken = λ c. bitmap_test-set_range (user_blocks size + 1) start m.words c;
  count = omega (arith, v.small, v.used);
  header = ground (arith, v.small);
  other_headers = λ a ne. ground (arith, ne);
  same_heap = (refl, refl, refl);
}

-- A request that is not empty gets blocks enough for it and one more for the header, all of which
-- were free and lie in the heap: those blocks and no others are taken then, the header has their number,
-- and the address is that of the first block behind the header. Or it is refused, the heap being left
-- alone, where no such run of blocks is free.
pub mm_alloc-Given :
    (size : ℕ) (m : Heap)
    → IsHeap m
    → 0 < size
    → size + 15 < 2 ^ 64
    → Given size m (mm_alloc size m) ⊎ Refused size m (mm_alloc size m)
mm_alloc-Given size m v a b = elim (mm_alloc-Ran size m v a b) [
  | inl g ↦ inl (
      subst (Given size m) (sym g.result)
        (take_run-Given size g.start m v g.in_heap g.room g.were_free))
  | inr r ↦ inr r
]

-- The heap as it was before a block was given out.
pub record Restored (m s : Heap) : Type 0 where
  pub blocks : (c : ℕ) → bitmap_test s.words c ≡ bitmap_test m.words c
  pub used : s.used_blocks ≡ m.used_blocks
  pub total : s.total_blocks ≡ m.total_blocks
  pub base : s.blocks_base ≡ m.blocks_base
  pub pool : s.pool ≡ m.pool

-- The guards of `mm_free` let the address of block `start + 1` through.
mm_free_lem :
    (ptr start : ℕ) (m : Heap)
    → m.pool ≢ 0
    → start + 1 < m.total_blocks
    → ptr ≡ m.blocks_base + start * block_size + block_size
    → mm_free ptr m ≡ free_run start (m.headers (m.blocks_base + start * block_size) + 1) m
unfolding mm_free
mm_free_lem ptr start m p h at =
    let block : (ptr - m.blocks_base) / block_size - 1 ≡ start = omega arith in
    let header : ptr - block_size ≡ m.blocks_base + start * block_size = omega arith in
    if_elim Goal (ptr == 0 || m.pool == 0 || m.total_blocks == 0) (λ e. absurd (ground arith))
      (λ _.
        if_elim Goal
          (ltb ptr m.blocks_base || leb (m.total_blocks * block_size) (ptr - m.blocks_base))
          (λ e. absurd (ground arith))
          (λ _.
            if_elim Goal
              (not ((ptr - m.blocks_base) % block_size == 0)
                || (ptr - m.blocks_base) / block_size == 0)
              (λ e. absurd (ground arith)) (λ _. rw (block, header) refl)))
  where
    Goal : Heap → Type 0
    Goal s = s ≡ free_run start (m.headers (m.blocks_base + start * block_size) + 1) m

mm_free-take_run :
    (start n : ℕ) (m : Heap)
    → IsHeap m
    → 0 < n
    → start + (n + 1) ≤ m.total_blocks
    → let r = take_run start n m in mm_free r.0 r.1 ≡ free_run start (n + 1) r.1
unfolding mm_free take_run
mm_free-take_run start n m v b h =
    mm_free_lem (take_run start n m).0 start (take_run start n m).1 v.pool (omega arith) refl
    ∙ ap (λ k. free_run start (k + 1) (take_run start n m).1) (ground (arith, v.small))

taken_back : (a b : Bool) → (a ≡ true → b ≡ false) → (not a && (a || b)) ≡ b
taken_back true b h = sym (h refl)
taken_back false b h = refl

free_run-Restored :
    (start n : ℕ) (m : Heap)
    → IsHeap m
    → start + (n + 1) ≤ m.total_blocks
    → AreFree m start (n + 1)
    → Restored m (free_run start (n + 1) (take_run start n m).1)
unfolding free_run take_run
free_run-Restored start n m v h f =
    let here : bitmap_test (set_range (n + 1) start m.words) start ≡ true =
      bitmap_test-set_range (n + 1) start m.words start ∙ ground arith in
    rw here (
      if_elim (Restored m) (ltb m.total_blocks (start + (n + 1))) (λ e. absurd (ground arith))
        (λ _. record {
          blocks = λ c.
              bitmap_test-clear_range (n + 1) start _ c
              ∙ ap (λ x. not (in_run start (n + 1) c) && x)
                  (bitmap_test-set_range (n + 1) start m.words c)
              ∙ taken_back (in_run start (n + 1) c) (bitmap_test m.words c) (f c);
          used = omega (arith, v.used, v.small);
          total = refl;
          base = refl;
          pool = refl;
        }))

-- Freeing what a request was given, before anything else happens, leaves each block free or taken as
-- it was before the request, and the count of used blocks too.
pub mm_free-mm_alloc :
    (size : ℕ) (m : Heap)
    → IsHeap m
    → 0 < size
    → size + 15 < 2 ^ 64
    → (mm_alloc size m).0 ≢ 0
    → Restored m (mm_free (mm_alloc size m).0 (mm_alloc size m).1)
mm_free-mm_alloc size m v a b n = elim (mm_alloc-Ran size m v a b) [
  | inl g ↦
      rw
        (
          g.result,
          mm_free-take_run g.start (user_blocks size) m v (omega (arith, g.room)) g.in_heap,
        )
        (free_run-Restored g.start (user_blocks size) m v g.in_heap g.were_free)
  | inr r ↦ absurd (n (ap (λ x. x.0) r.result))
]
