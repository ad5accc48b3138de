-- ===== src/Memory/Buddy/Search.antt =====
-- Which nodes the search of the buddy memory manager finds, and when it finds none.
use Prim.Native.Nat.{◌^◌}
use tp_so.Prelude.{
  ℕ, zero, suc, ◌+◌, ◌*◌, ◌≤◌, ◌<◌, ◌≡◌, ◌≢◌, ◌⊎◌, inl, inr, refl, sym, ap, ◌∙◌, subst, true, false,
  ◌&&◌, ◌==◌, arith, if◌then◌else◌, if_elim, and_true,
}
use tp_so.Memory.Buddy.{
  NodeState, node_free, node_used, node_split, node_full, eq_node, is_taken, split_node,
  alloc_recursive,
}
use tp_so.Memory.Buddy.Levels.{alloc_recursive-Leaf}

-- Node `q` is `depth` levels below `node`, and its block is free in the tree: the node itself or one
-- above it is free, and the nodes above that one are split. A node below one that is used or full is not
-- open, whatever its own state.
abbrev pub IsOpen : ℕ → ℕ → (ℕ → NodeState) → ℕ → Type 0
IsOpen zero node t q = (t node ≡ node_free) × (q ≡ node)
IsOpen (suc depth) node t q =
    ((t node ≡ node_free) × (node * 2 ^ suc depth ≤ q) × (q < (node + 1) * 2 ^ suc depth))
    ⊎ ((t node ≡ node_split) × (IsOpen depth (2 * node) t q ⊎ IsOpen depth (2 * node + 1) t q))

-- A search found an open node, which is a free one in the tree that it left, or it found none, there
-- being no open one, and left the tree alone.
abbrev pub Searched : ℕ → ℕ → (ℕ → NodeState) → ℕ × (ℕ → NodeState) → Type 0
Searched depth node t r =
    ((r.0 ≢ 0) × IsOpen depth node t r.0 × (r.1 r.0 ≡ node_free))
    ⊎ ((r.0 ≡ 0) × (r.1 ≡ t) × ((q : ℕ) → IsOpen depth node t q → ⊥))

free-cases : (s : NodeState) → (s ≡ node_free) ⊎ ((s ≡ node_split) ⊎ (is_taken s ≡ true))
free-cases node_free = inl refl
free-cases node_split = inr (inl refl)
free-cases node_used = inr (inr refl)
free-cases node_full = inr (inr refl)

-- The search in the halves of a node, which is split first where it is free.
descend : ℕ → ℕ → (ℕ → NodeState) → ℕ × (ℕ → NodeState)
descend depth node t =
    let left = alloc_recursive depth (2 * node) (split_node node t) in
    let right = alloc_recursive depth (2 * node + 1) left.1 in if left.0 == 0 then right else left

taken_not : (s : NodeState) → is_taken s ≡ true → s ≢ node_free
taken_not node_free e = cc
taken_not node_split e = cc
taken_not node_used e = λ d. cc
taken_not node_full e = λ d. cc

not_zero : (n : ℕ) → n ≢ 0 → (n == 0) ≡ false
not_zero n h = ground (arith, h)

alloc-descend :
    (depth node : ℕ) (t : ℕ → NodeState)
    → is_taken (t node) ≡ false
    → (((descend depth node t).0 == 0) ≡ true → eq_node (t node) node_free ≡ false)
    → alloc_recursive (suc depth) node t ≡ descend depth node t
unfolding alloc_recursive descend
alloc-descend depth node t n h =
    if_elim (λ r. r ≡ descend depth node t) (is_taken (t node))
      (λ e. let c : true ≡ false = sym e ∙ n in cc)
      (λ _.
        if_elim (λ r. r ≡ descend depth node t)
          ((descend depth node t).0 == 0 && eq_node (t node) node_free)
          (λ e. let both = and_true _ _ e in let c : true ≡ false = sym both.1 ∙ h both.0 in cc)
          (λ _. refl))

split_left :
    (node : ℕ) (t : ℕ → NodeState) → t node ≡ node_free → split_node node t (2 * node) ≡ node_free
unfolding split_node
split_left node t f = rw f (ground arith)

split_same : (node : ℕ) (t : ℕ → NodeState) → t node ≡ node_split → split_node node t ≡ t
unfolding split_node
split_same node t f = rw f refl

descend-left :
    (depth node : ℕ) (t : ℕ → NodeState)
    → let left = alloc_recursive depth (2 * node) (split_node node t) in
      (left.0 ≢ 0) → descend depth node t ≡ left
unfolding descend
descend-left depth node t h = rw (not_zero _ h) refl

descend-right :
    (depth node : ℕ) (t : ℕ → NodeState)
    → let left = alloc_recursive depth (2 * node) (split_node node t) in
      (left.0 ≡ 0) → descend depth node t ≡ alloc_recursive depth (2 * node + 1) left.1
unfolding descend
descend-right depth node t h = rw h refl

free_untaken : (s : NodeState) → s ≡ node_free → is_taken s ≡ false
free_untaken s e = rw e refl

split_untaken : (s : NodeState) → s ≡ node_split → is_taken s ≡ false
split_untaken s e = rw e refl

split_not_free : (s : NodeState) → s ≡ node_split → eq_node s node_free ≡ false
split_not_free s e = rw e refl

eq_free : (s : NodeState) → eq_node s node_free ≡ true → s ≡ node_free
eq_free node_free e = refl
eq_free node_used e = cc
eq_free node_split e = cc
eq_free node_full e = cc

alloc-taken :
    (depth node : ℕ) (t : ℕ → NodeState)
    → is_taken (t node) ≡ true
    → alloc_recursive depth node t ≡ (0, t)
unfolding alloc_recursive
alloc-taken zero node t e = rw e refl
alloc-taken (suc depth) node t e = rw e refl

alloc_leaf-free :
    (node : ℕ) (t : ℕ → NodeState) → t node ≡ node_free → alloc_recursive 0 node t ≡ (node, t)
unfolding alloc_recursive
alloc_leaf-free node t e = rw e refl

alloc_leaf-split :
    (node : ℕ) (t : ℕ → NodeState) → t node ≡ node_split → alloc_recursive 0 node t ≡ (0, t)
unfolding alloc_recursive
alloc_leaf-split node t e = rw e refl

-- Below a free node there is always one to be found.
free-found :
    (depth node : ℕ) (t : ℕ → NodeState)
    → node ≢ 0
    → t node ≡ node_free
    → (alloc_recursive depth node t).0 ≢ 0
free-found zero node t n f = λ e. n (sym (ap (λ r. r.0) (alloc_leaf-free node t f)) ∙ e)
free-found (suc depth) node t n f =
    let l =
      free-found depth (2 * node) (split_node node t) (λ e. n (omega arith))
        (split_left node t f) in
    let d = descend-left depth node t l in
    let found : (descend depth node t).0 ≢ 0 = λ e. l (sym (ap (λ r. r.0) d) ∙ e) in
    let a =
      alloc-descend depth node t (free_untaken (t node) f)
        (λ z. let c : true ≡ false = sym z ∙ not_zero _ found in cc) in
    λ e. found (sym (ap (λ r. r.0) a) ∙ e)

-- A split node's halves are searched as they are, the right one where the left one has none.
split_step :
    (depth node : ℕ) (t : ℕ → NodeState)
    → t node ≡ node_split
    → Searched depth (2 * node) t (alloc_recursive depth (2 * node) t)
    → Searched depth (2 * node + 1) t (alloc_recursive depth (2 * node + 1) t)
    → Searched (suc depth) node t (alloc_recursive (suc depth) node t)
split_step depth node t f left right =
    let a =
      alloc-descend depth node t (split_untaken (t node) f) (λ _. split_not_free (t node) f) in
    let same = split_same node t f in
    let go_left : (alloc_recursive depth (2 * node) t).0 ≢ 0
        → descend depth node t ≡ alloc_recursive depth (2 * node) t =
      subst
        (λ u.
          (alloc_recursive depth (2 * node) u).0 ≢ 0
          → descend depth node t ≡ alloc_recursive depth (2 * node) u)
        same (descend-left depth node t) in
    let go_right : (alloc_recursive depth (2 * node) t).0 ≡ 0
        → descend depth node t
          ≡ alloc_recursive depth (2 * node + 1) (alloc_recursive depth (2 * node) t).1 =
      subst
        (λ u.
          (alloc_recursive depth (2 * node) u).0 ≡ 0
          → descend depth node t
            ≡ alloc_recursive depth (2 * node + 1) (alloc_recursive depth (2 * node) u).1)
        same (descend-right depth node t) in
    elim left [
      | inl (n, o, z) ↦
          subst (Searched (suc depth) node t) (sym (a ∙ go_left n)) (inl (n, inr (f, inl o), z))
      | inr (n, u, none_left) ↦
          subst (Searched (suc depth) node t)
            (sym (a ∙ go_right n ∙ ap (alloc_recursive depth (2 * node + 1)) u))
            (elim right [
              | inl (m, o, z) ↦ inl (m, inr (f, inr o), z)
              | inr (m, v, none_right) ↦ inr (m, v, λ q o. none_open q none_left none_right o)
            ])
    ]
  where
    none_open :
        (q : ℕ)
        → ((q : ℕ) → IsOpen depth (2 * node) t q → ⊥)
        → ((q : ℕ) → IsOpen depth (2 * node + 1) t q → ⊥)
        → IsOpen (suc depth) node t q
        → ⊥
    none_open q l r (inl (e, _, _)) = let c : node_free ≡ node_split = sym e ∙ f in cc
    none_open q l r (inr (_, inl o)) = l q o
    none_open q l r (inr (_, inr o)) = r q o

taken_step :
    (depth node : ℕ) (t : ℕ → NodeState)
    → is_taken (t node) ≡ true
    → Searched depth node t (alloc_recursive depth node t)
taken_step depth node t e =
    subst (Searched depth node t) (sym (alloc-taken depth node t e)) (inr (refl, refl, shut depth))
  where
    shut : (depth q : ℕ) → IsOpen depth node t q → ⊥
    shut zero q o = taken_not (t node) e o.0
    shut (suc depth) q (inl o) = taken_not (t node) e o.0
    shut (suc depth) q (inr o) = let c : true ≡ false = sym e ∙ split_untaken (t node) o.0 in cc

-- The search for a block of the size of `depth` levels below a node finds such a block that is free, and
-- that is part of no block in use: the nodes above it are split down to one that is free. In the tree
-- that the search leaves it is a free node. If it finds none, no such block is free, and the tree is as
-- it was.
pub alloc_recursive-Searched :
    (depth node : ℕ) (t : ℕ → NodeState)
    → node ≢ 0
    → Searched depth node t (alloc_recursive depth node t)
alloc_recursive-Searched zero node t n = elim (free-cases (t node)) [
  | inl f ↦ subst (Searched zero node t) (sym (alloc_leaf-free node t f)) (inl (n, (f, refl), f))
  | inr (inl e) ↦
      subst (Searched zero node t) (sym (alloc_leaf-split node t e))
        (inr (refl, refl, λ q o. let c : node_free ≡ node_split = sym o.0 ∙ e in cc))
  | inr (inr e) ↦ taken_step zero node t e
]
alloc_recursive-Searched (suc depth) node t n = elim (free-cases (t node)) [
  | inl f ↦
      let r = alloc_recursive (suc depth) node t in
      let found = free-found (suc depth) node t n f in
      let leaf = alloc_recursive-Leaf (suc depth) node t in
      inl (found, inl (f, leaf.first found, leaf.last found), eq_free (r.1 r.0) (leaf.free found))
  | inr (inl e) ↦
      split_step depth node t e (alloc_recursive-Searched depth (2 * node) t (λ z. n (omega arith)))
        (alloc_recursive-Searched depth (2 * node + 1) t (λ z. omega arith))
  | inr (inr e) ↦ taken_step (suc depth) node t e
]
