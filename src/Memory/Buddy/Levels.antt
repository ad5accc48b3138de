-- ===== src/Memory/Buddy/Levels.antt =====
-- Where in the tree the search of the buddy memory manager ends.
use Prim.Native.Nat.{◌^◌}
use tp_so.Prelude.{
  ℕ, zero, suc, ◌+◌, ◌*◌, ◌≤◌, ◌<◌, ◌≡◌, ◌≢◌, refl, true, ◌&&◌, ◌==◌, arith, if◌then◌else◌, if_elim,
}
use tp_so.Memory.Buddy.{NodeState, node_free, eq_node, is_taken, split_node, alloc_recursive}

-- Node `r` is a free one `depth` levels below `node`, or there is none.
pub record Leaf (depth node : ℕ) (r : ℕ × (ℕ → NodeState)) : Type 0 where
  pub first : r.0 ≢ 0 → node * 2 ^ depth ≤ r.0
  pub last : r.0 ≢ 0 → r.0 < (node + 1) * 2 ^ depth
  pub free : r.0 ≢ 0 → eq_node (r.1 r.0) node_free ≡ true

Leaf-none : (depth node : ℕ) (t : ℕ → NodeState) → Leaf depth node (0, t)
Leaf-none depth node t = record {
  first = λ n. absurd (n refl);
  last = λ n. absurd (n refl);
  free = λ n. absurd (n refl);
}

-- The leaves below a node are those below its two halves.
halves :
    (depth node : ℕ)
    → (node * 2 ^ suc depth ≡ 2 * node * 2 ^ depth)
      × ((node + 1) * 2 ^ suc depth ≡ (2 * node + 1 + 1) * 2 ^ depth)
      × ((2 * node + 1) * 2 ^ depth ≡ 2 * node * 2 ^ depth + 2 ^ depth)
      × ((2 * node + 1 + 1) * 2 ^ depth ≡ 2 * node * 2 ^ depth + 2 ^ depth + 2 ^ depth)
halves depth node =
    let twice : 2 ^ suc depth ≡ 2 ^ depth * 2 = omega arith in
    rw twice (grind arith, grind arith, grind arith, grind arith)

Leaf-left :
    (depth node : ℕ) (r : ℕ × (ℕ → NodeState)) → Leaf depth (2 * node) r → Leaf (suc depth) node r
Leaf-left depth node r l = record {
  first = λ n. omega (arith, l.first n, halves depth node);
  last = λ n. omega (arith, l.last n, halves depth node);
  free = l.free;
}

Leaf-right :
    (depth node : ℕ) (r : ℕ × (ℕ → NodeState))
    → Leaf depth (2 * node + 1) r
    → Leaf (suc depth) node r
Leaf-right depth node r l = record {
  first = λ n. omega (arith, l.first n, halves depth node);
  last = λ n. omega (arith, l.last n, halves depth node);
  free = l.free;
}

pub alloc_recursive-Leaf :
    (depth node : ℕ) (t : ℕ → NodeState) → Leaf depth node (alloc_recursive depth node t)
unfolding alloc_recursive
alloc_recursive-Leaf zero node t =
    if_elim (Leaf zero node) (is_taken (t node)) (λ _. Leaf-none zero node t)
      (λ _.
        if_elim (λ r. Leaf zero node (r, t)) (eq_node (t node) node_free)
          (λ e. record { first = λ n. omega arith; last = λ n. omega arith; free = λ n. e })
          (λ _. Leaf-none zero node t))
alloc_recursive-Leaf (suc depth) node t =
    let left = alloc_recursive depth (2 * node) (split_node node t) in
    let right = alloc_recursive depth (2 * node + 1) left.1 in
    let found : Leaf (suc depth) node (if left.0 == 0 then right else left) =
      if_elim (Leaf (suc depth) node) (left.0 == 0)
        (λ _. Leaf-right depth node right (alloc_recursive-Leaf depth (2 * node + 1) left.1))
        (λ _.
          Leaf-left depth node left (alloc_recursive-Leaf depth (2 * node) (split_node node t))) in
    if_elim (Leaf (suc depth) node) (is_taken (t node)) (λ _. Leaf-none (suc depth) node t)
      (λ _.
        if_elim (Leaf (suc depth) node)
          ((if left.0 == 0 then right else left).0 == 0 && eq_node (t node) node_free)
          (λ _. Leaf-none (suc depth) node _) (λ _. found))
