-- ===== src/Memory/Buddy.antt =====
-- Kernel/memory/buddy_mm.c: a heap of 2 ^ (levels - 1) blocks of 16 bytes, given out in powers of
-- two. `tree` is the array of node states: node 1 is the whole heap, and nodes 2n and 2n + 1 are the
-- two halves of node n.
pub mod Levels
pub mod Search
pub mod Address
use tp_so.Prelude.{
  ℕ, zero, suc, ◌+◌, ◌-◌, ◌*◌, ◌/◌, ◌%◌, ◌^◌, ◌≤◌, Bool, true, false, not, ◌&&◌, ◌||◌, ltb, leb,
  ◌==◌, update, map_range, if◌then◌else◌,
}

abbrev pub min_block : ℕ
min_block = 16

pub data NodeState : Type 0 where
  node_free node_used node_split node_full : NodeState

abbrev pub eq_node : NodeState → NodeState → Bool
eq_node node_free node_free = true
eq_node node_used node_used = true
eq_node node_split node_split = true
eq_node node_full node_full = true
eq_node _ _ = false

pub record Buddy : Type 0 where
  pub heap_base : ℕ
  pub total_size : ℕ
  pub min_block_size : ℕ
  pub levels : ℕ
  pub tree : ℕ → NodeState
  pub used_mem : ℕ

-- `while (n > 1) { n >>= 1; r++; }` with fuel, for `my_log2` and `node_level`: a 64-bit number takes
-- at most 63 rounds.
unfoldable pub log2_from : ℕ → ℕ → ℕ
log2_from zero n = 0
log2_from (suc fuel) n = let rest = log2_from fuel (n / 2) in if ltb 1 n then suc rest else 0

unfoldable pub my_log2 : ℕ → ℕ
unfolding log2_from
my_log2 n = log2_from 64 n

unfoldable pub node_level : ℕ → ℕ
unfolding log2_from
node_level n = log2_from 64 n

-- `while (p * 2 <= n) p *= 2;` with fuel.
unfoldable pub double_up : ℕ → ℕ → ℕ → ℕ
double_up zero p n = p
double_up (suc fuel) p n = let rest = double_up fuel (p * 2) n in if leb (p * 2) n then rest else p

unfoldable pub floor_pow2 : ℕ → ℕ
unfolding double_up
floor_pow2 n = double_up 64 1 n

abbrev pub is_taken : NodeState → Bool
is_taken s = eq_node s node_used || eq_node s node_full

-- The state of a parent by those of its halves.
abbrev pub joined : NodeState → NodeState → NodeState
joined left right =
    if eq_node left node_free && eq_node right node_free
    then node_free
    else if is_taken left && is_taken right
    then node_full
    else node_split

unfoldable pub update_parent : ℕ → ℕ → (ℕ → NodeState) → ℕ → NodeState
update_parent zero node t = t
update_parent (suc fuel) node t =
    let parent = node / 2 in
    let new_state = joined (t (2 * parent)) (t (2 * parent + 1)) in
    let rest = update_parent fuel parent (update t parent new_state) in
    if leb node 1 then t else if eq_node (t parent) new_state then t else rest

-- A free node is split before the descent.
unfoldable pub split_node : ℕ → (ℕ → NodeState) → ℕ → NodeState
split_node node t =
    if eq_node (t node) node_free
    then update (update (update t node node_split) (2 * node) node_free) (2 * node + 1) node_free
    else t

-- `depth` is `target_level - level`.
unfoldable pub alloc_recursive : ℕ → ℕ → (ℕ → NodeState) → ℕ × (ℕ → NodeState)
unfolding split_node
alloc_recursive zero node t =
    if is_taken (t node) then (0, t) else ((if eq_node (t node) node_free then node else 0), t)
alloc_recursive (suc depth) node t =
    let left = alloc_recursive depth (2 * node) (split_node node t) in
    let right = alloc_recursive depth (2 * node + 1) left.1 in
    let found = if left.0 == 0 then right else left in
    if is_taken (t node)
    then (0, t)
    else if found.0 == 0 && eq_node (t node) node_free
    then (0, update found.1 node node_free)
    else found

-- `while (block_size < size) { if (block_size >= total_size) return NULL; block_size *= 2; }`: 0 where
-- it returns.
unfoldable pub round_up : ℕ → ℕ → ℕ → ℕ → ℕ
round_up zero total size block = block
round_up (suc fuel) total size block =
    let rest = round_up fuel total size (block * 2) in
    if leb size block then block else if leb total block then 0 else rest

unfoldable pub clear_nodes : ℕ → (ℕ → NodeState) → ℕ → NodeState
clear_nodes n t = map_range n (λ _. node_free) t

unfoldable pub mm_init : ℕ → ℕ → Buddy → Buddy
unfolding my_log2 floor_pow2 clear_nodes
mm_init heap_start heap_size m =
    let m1 = record m { total_size = 0 } in
    let ratio = heap_size / min_block in
    let tree_size = 2 ^ (my_log2 ratio + 1) in
    let total_size = floor_pow2 (heap_size - tree_size) in
    let levels = my_log2 (total_size / min_block) + 1 in
    if heap_start == 0 || ltb heap_size (min_block * 4)
    then m1
    else if ltb ratio 2 || leb heap_size tree_size
    then m1
    else if ltb total_size min_block
    then m1
    else record m1 {
      heap_base = heap_start + tree_size;
      total_size = total_size;
      min_block_size = min_block;
      levels = levels;
      used_mem = 0;
      tree = clear_nodes (2 ^ levels) m.tree;
    }

-- What is done with the node found, 0 for none.
unfoldable pub use_node : ℕ → ℕ × (ℕ → NodeState) → Buddy → ℕ × Buddy
unfolding update_parent node_level
use_node block_size (node, t) m =
    let level = node_level node in
    if node == 0 then (0, record m { tree = t }) else (
      m.heap_base + (node - 2 ^ level) * (m.total_size / 2 ^ level),
      record m {
        tree = update_parent 64 node (update t node node_used);
        used_mem = (m.used_mem + block_size) % 2 ^ 64;
      },
    )

unfoldable pub mm_alloc : ℕ → Buddy → ℕ × Buddy
unfolding alloc_recursive use_node round_up my_log2
mm_alloc size m =
    let block_size = round_up 64 m.total_size size m.min_block_size in
    let target_level = my_log2 (m.total_size / block_size) in
    if size == 0 || m.total_size == 0
    then (0, m)
    else if block_size == 0 || ltb m.total_size block_size
    then (0, m)
    else use_node block_size (alloc_recursive target_level 1 m.tree) m

-- From the leaves up, the USED node whose block starts at `offset`, or 0.
unfoldable pub find_used : ℕ → ℕ → Buddy → ℕ
find_used zero offset m = 0
find_used (suc lvl) offset m =
    let bsz = m.total_size / 2 ^ lvl in
    let node = 2 ^ lvl + offset / bsz in
    let rest = find_used lvl offset m in
    if offset % bsz == 0 && eq_node (m.tree node) node_used then node else rest

abbrev pub buddy_of : ℕ → ℕ
buddy_of node = if node % 2 == 0 then node + 1 else node - 1

-- The merging loop with fuel, and the node it ends at.
unfoldable pub merge : ℕ → ℕ → (ℕ → NodeState) → ℕ × (ℕ → NodeState)
merge zero node t = (node, t)
merge (suc fuel) node t =
    let rest = merge fuel (node / 2) (update t (node / 2) node_free) in
    if ltb 1 node && eq_node (t (buddy_of node)) node_free then rest else (node, t)

unfoldable pub release : ℕ → Buddy → Buddy
unfolding merge update_parent node_level
release found m =
    let block_size = m.total_size / 2 ^ node_level found in
    let (node, t) = merge 64 found (update m.tree found node_free) in
    if found == 0 then m else record m {
      used_mem = (m.used_mem + 2 ^ 64 - block_size) % 2 ^ 64;
      tree = (if ltb 1 node then update_parent 64 node t else t);
    }

unfoldable pub mm_free : ℕ → Buddy → Buddy
unfolding find_used release
mm_free ptr m =
    let offset = ptr - m.heap_base in
    if ptr == 0 || m.total_size == 0
    then m
    else if ltb ptr m.heap_base || leb m.total_size offset
    then m
    else release (find_used m.levels offset m) m

-- `*total`, `*used` and `*free_mem`.
unfoldable pub mm_state : Buddy → ℕ × ℕ × ℕ
mm_state m = (m.total_size, m.used_mem, (m.total_size + 2 ^ 64 - m.used_mem) % 2 ^ 64)
