-- ===== src/Memory/Buddy/Address.antt =====
-- The addresses that the buddy memory manager gives out.
use native.Mathlib.Nat.{mul-div_left}
use tp_so.Prelude.{
  ℕ, zero, suc, ◌+◌, ◌-◌, ◌*◌, ◌/◌, ◌^◌, ◌≤◌, ◌<◌, ◌≡◌, ◌≢◌, ◌⊎◌, inl, inr, refl, ◌∙◌, ap, subst,
  true, ◌||◌, ltb, leb, ◌==◌, arith, if_elim,
}
use tp_so.Memory.Buddy.{
  Buddy, NodeState, log2_from, my_log2, node_level, round_up, use_node, alloc_recursive, mm_alloc,
}
use tp_so.Memory.Buddy.Levels.{Leaf, alloc_recursive-Leaf}

twice : (k : ℕ) → (2 ^ suc k ≡ 2 ^ k * 2) × (2 ^ suc k / 2 ≡ 2 ^ k) × (0 < 2 ^ k)
twice zero = (omega arith, omega arith, omega arith)
twice (suc k) = (omega arith, omega arith, omega (arith, (twice k).2))

-- A heap that `mm_init` has set up.
pub record IsBuddy (m : Buddy) : Type 0 where
  pub exponent : ℕ
  pub small : exponent < 60
  pub total : m.total_size ≡ 16 * 2 ^ exponent
  pub block : m.min_block_size ≡ 16

-- The loop finds the exponent of the highest power of two in a number.
log2_from_lem : (fuel k n : ℕ) → k < fuel → 2 ^ k ≤ n → n < 2 ^ k * 2 → log2_from fuel n ≡ k
unfolding log2_from
log2_from_lem zero k n h a b = absurd (omega arith)
log2_from_lem (suc fuel) zero n h a b = ground arith
log2_from_lem (suc fuel) (suc k) n h a b =
    let rest : log2_from fuel (n / 2) ≡ k =
      log2_from_lem fuel k (n / 2) (omega arith) (omega (arith, twice k))
        (omega (arith, twice k)) in
    let big : ltb 1 n ≡ true = ground (arith, twice k) in rw (big, rest) refl

-- What rounding up comes to: no block, or one of `16 * 2 ^ j` bytes that the heap holds.
abbrev Rounded : ℕ → ℕ → ℕ → Type 0
Rounded a size b = (b ≡ 0) ⊎ ((j : ℕ) × (j ≤ a) × (b ≡ 16 * 2 ^ j) × (size ≤ b))

round_up-Rounded :
    (fuel a j size : ℕ)
    → j ≤ a
    → a < fuel + j
    → Rounded a size (round_up fuel (16 * 2 ^ a) size (16 * 2 ^ j))
unfolding round_up
round_up-Rounded zero a j size h l = absurd (omega arith)
round_up-Rounded (suc fuel) a j size h l =
    if_elim (Rounded a size) (leb size (16 * 2 ^ j)) (λ e. inr (j, h, refl, ground arith))
      (λ _.
        if_elim (Rounded a size) (leb (16 * 2 ^ a) (16 * 2 ^ j)) (λ _. inl refl)
          (λ e.
            let ne : j ≢ a = λ q. ground (arith, ap (λ x. 2 ^ x) q) in
            subst (λ b. Rounded a size (round_up fuel (16 * 2 ^ a) size b)) (omega (arith, twice j))
              (round_up-Rounded fuel a (suc j) size (omega arith) (omega arith))))

pow_split : (j d : ℕ) → 2 ^ (j + d) ≡ 2 ^ d * 2 ^ j
pow_split zero d = grind arith
pow_split (suc j) d =
    let e : 2 ^ (suc j + d) ≡ 2 ^ (j + d) * 2 = ap (λ x. 2 ^ x) (omega arith) ∙ (twice (j + d)).0 in
    let f : 2 ^ suc j ≡ 2 ^ j * 2 = (twice j).0 in rw (e, f, pow_split j d) (grind arith)

quotient : (j d : ℕ) → 16 * 2 ^ (j + d) / (16 * 2 ^ j) ≡ 2 ^ d
quotient j d =
    let e : 16 * 2 ^ (j + d) ≡ 2 ^ d * (16 * 2 ^ j) = grind (arith, pow_split j d) in
    rw e (mul-div_left (2 ^ d) (omega (arith, twice j)))

block_of : (j d : ℕ) → 16 * 2 ^ (j + d) / 2 ^ d ≡ 16 * 2 ^ j
block_of j d =
    let e : 16 * 2 ^ (j + d) ≡ 16 * 2 ^ j * 2 ^ d = grind (arith, pow_split j d) in
    rw e (mul-div_left (16 * 2 ^ j) (omega (arith, twice d)))

-- A block of at least `size` bytes that lies in the heap, at a multiple of its own size.
pub record InHeap (size : ℕ) (m : Buddy) (ptr : ℕ) : Type 0 where
  pub bytes : ℕ
  pub position : ℕ
  pub room : size ≤ bytes
  pub at : ptr ≡ m.heap_base + position * bytes
  pub end : ptr + bytes ≤ m.heap_base + m.total_size

one_block : (p q b : ℕ) → p < q → p * b + b ≤ q * b
one_block p q b h = let e : q ≡ p + 1 + (q - p - 1) = omega arith in rw e (grind arith)

use_node-InHeap :
    (j d size : ℕ) (r : ℕ × (ℕ → NodeState)) (m : Buddy)
    → m.total_size ≡ 16 * 2 ^ (j + d)
    → d < 64
    → size ≤ 16 * 2 ^ j
    → Leaf d 1 r
    → (use_node (16 * 2 ^ j) r m).0 ≢ 0
    → InHeap size m (use_node (16 * 2 ^ j) r m).0
unfolding use_node node_level
use_node-InHeap j d size (node, t) m e b h l =
    if_elim (λ (x : ℕ × Buddy). x.0 ≢ 0 → InHeap size m x.0) (node == 0) (λ _ n. absurd (n refl))
      (λ z _.
        let nz : node ≢ 0 = ground arith in
        let level : log2_from 64 node ≡ d =
          log2_from_lem 64 d node b (omega (arith, l.first nz)) (omega (arith, l.last nz)) in
        let total : 16 * 2 ^ (j + d) ≡ 2 ^ d * (16 * 2 ^ j) = grind (arith, pow_split j d) in
        rw (level, e, block_of j d)
          (record {
            bytes = 16 * 2 ^ j;
            position = node - 2 ^ d;
            room = h;
            at = refl;
            end = omega (
              arith,
              one_block (node - 2 ^ d) (2 ^ d) (16 * 2 ^ j) (omega (arith, l.first nz, l.last nz)),
              total,
            );
          }))

-- A block as large as the rounded size, at the level where blocks have that size.
block_InHeap :
    (a j size : ℕ) (m : Buddy)
    → a < 60
    → m.total_size ≡ 16 * 2 ^ a
    → j ≤ a
    → size ≤ 16 * 2 ^ j
    → let r =
        use_node
          (16 * 2 ^ j)
          (alloc_recursive (my_log2 (m.total_size / (16 * 2 ^ j))) 1 m.tree)
          m in
      r.0 ≢ 0 → InHeap size m r.0
unfolding my_log2
block_InHeap a j size m b e h l =
    let sum : a ≡ j + (a - j) = omega arith in
    let e' : m.total_size ≡ 16 * 2 ^ (j + (a - j)) = e ∙ ap (λ x. 16 * 2 ^ x) sum in
    let level : log2_from 64 (m.total_size / (16 * 2 ^ j)) ≡ a - j =
      ap (λ x. log2_from 64 (x / (16 * 2 ^ j))) e'
      ∙ ap (log2_from 64) (quotient j (a - j))
      ∙ log2_from_lem 64 (a - j) (2 ^ (a - j)) (omega arith) (omega arith)
          (omega (arith, twice (a - j))) in
    rw level (
      use_node-InHeap j (a - j) size _ m e' (omega arith) l (alloc_recursive-Leaf (a - j) 1 m.tree))

-- A block that `mm_alloc` gives out has room for the request, starts at a multiple of its own size
-- from the heap's start, and ends in the heap.
pub mm_alloc-InHeap :
    (size : ℕ) (m : Buddy) → IsBuddy m → (mm_alloc size m).0 ≢ 0 → InHeap size m (mm_alloc size m).0
unfolding mm_alloc
mm_alloc-InHeap size m v =
    let block = round_up 64 m.total_size size m.min_block_size in
    let rounded : Rounded v.exponent size block =
      rw (v.total, v.block)
        (round_up-Rounded 64 v.exponent 0 size (omega arith) (omega (arith, v.small))) in
    if_elim Goal (size == 0 || m.total_size == 0) (λ _ n. absurd (n refl))
      (λ _.
        if_elim Goal (block == 0 || ltb m.total_size block) (λ _ n. absurd (n refl))
          (λ f. elim rounded [
            | inl z ↦ absurd (ground arith)
            | inr (j, h, e, l) ↦
                rw e (block_InHeap v.exponent j size m v.small v.total h (omega (arith, l, e)))
          ]))
  where
    Goal : ℕ × Buddy → Type 0
    Goal r = r.0 ≢ 0 → InHeap size m r.0
