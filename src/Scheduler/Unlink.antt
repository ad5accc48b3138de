-- ===== src/Scheduler/Unlink.antt =====
-- Taking an entry out of a chain: what the two pointer writes of `remove_from_ready_queue` do to
-- the chain that holds the entry.
use tp_so.Prelude.{
  ℕ, ◌≡◌, refl, ◌≢◌, Option, some, true, false, List, [], ◌∷◌, ◌==◌, if◌then◌else◌, arith, All,
  All-map, Absent, Distinct, erase, member, Bool-cases, inl, inr, subst,
}
use tp_so.Machine.{Pcb}
use tp_so.Scheduler.{points_to}
use tp_so.Scheduler.Chain.{Chain, SameLinks, Chain-frame, next-Absent, prev-Absent}

-- `u` is `t` after the neighbours of `p` were made to skip it.
abbrev pub Skips : ℕ → (ℕ → Pcb) → (ℕ → Pcb) → ℕ → Type 0
Skips p t u q =
    ((u q).next ≡ (if points_to (t p).prev q then (t p).next else (t q).next))
    × ((u q).prev ≡ (if points_to (t p).next q then (t p).prev else (t q).prev))

abbrev pub NotAt : Option ℕ → List ℕ → Type 0
NotAt o = All (λ z. points_to o z ≡ false)

Absent-NotAt : (x : ℕ) (xs : List ℕ) → Absent x xs → NotAt (some x) xs
Absent-NotAt x xs a =
    All-map (λ z. z ≢ x) (λ z. points_to (some x) z ≡ false) xs (λ z h. ground arith) a

module _ (p : ℕ) (t u : ℕ → Pcb) (skips : (q : ℕ) → q ≢ p → Skips p t u q) where
  -- An entry that is no neighbour of `p` keeps its links.
  SameLinks-far :
      (z : ℕ)
      → z ≢ p
      → points_to (t p).prev z ≡ false
      → points_to (t p).next z ≡ false
      → SameLinks t u z
  SameLinks-far z n a b = ground (arith, skips z n)

  pub SameLinks-All :
      (zs : List ℕ)
      → Absent p zs
      → NotAt (t p).prev zs
      → NotAt (t p).next zs
      → All (SameLinks t u) zs
  SameLinks-All [] n a b = tt
  SameLinks-All (z ∷ zs) n a b = (SameLinks-far z n.0 a.0 b.0, SameLinks-All zs n.1 a.1 b.1)

  -- What stood behind `p` stands behind what stood before `p`.
  Chain-relink :
      (xs : List ℕ)
      → Absent p xs
      → Distinct xs
      → NotAt (t p).prev xs
      → Chain t (some p) (t p).next xs
      → Chain u (t p).prev (t p).next xs
  Chain-relink [] n d a c = c
  Chain-relink (y ∷ ys) n d a c = (
    c.0,
    ground (arith, skips y n.0),
    let keep : (u y).next ≡ (t y).next = ground (arith, skips y n.0) in
        rw keep (
          Chain-frame t u (some y) (t y).next ys
            (SameLinks-All ys n.1 a.1 (rw (c.0) (Absent-NotAt y ys d.0))) c.2),
  )

  -- `p` is behind `x` exactly where `x` is before `p`.
  neighbours :
      (x : ℕ) (xs : List ℕ)
      → Absent x xs
      → member p xs ≡ true
      → Chain t (some x) (t x).next xs
      → points_to (t p).prev x ≡ points_to (t x).next p
  neighbours x [] a m c = cc
  neighbours x (y ∷ ys) a m c = elim (Bool-cases (y == p)) [
    | inl e ↦ ground arith
    | inr e ↦
        ground
          (arith, prev-Absent t (some y) (t y).next ys p x c.2 (ground arith) a.1 (ground arith))
  ]

  Chain-drop_head :
      (x : ℕ) (pv : Option ℕ) (xs : List ℕ)
      → x ≡ p
      → Absent x xs × Distinct xs
      → NotAt pv xs
      → (t x).prev ≡ pv
      → Chain t (some x) (t x).next xs
      → Chain u pv (t p).next xs
  Chain-drop_head x pv xs e d a b c =
      let same : (t p).prev ≡ pv = cc in
      rw (← same) (
        Chain-relink xs (rw e at d.0) d.1 (rw same a)
          (subst (λ z. Chain t (some z) (t z).next xs) e c))

  pub Chain-erase :
      (pv hd : Option ℕ) (xs : List ℕ)
      → Distinct xs
      → member p xs ≡ true
      → NotAt pv xs
      → Chain t pv hd xs
      → Chain u pv (if points_to hd p then (t p).next else hd) (erase p xs)
  Chain-erase pv hd [] d m a c = cc
  Chain-erase pv hd (x ∷ xs) d m a c = elim (Bool-cases (x == p)) [
    | inl e ↦ rw (e, c.0, e) (Chain-drop_head x pv xs (ground arith) d a.1 c.1 c.2)
    | inr e ↦
        let m' : member p xs ≡ true = rw e at m in
        let ne : x ≢ p = ground arith in
        let after : (u x).next ≡ (if points_to (t x).next p then (t p).next else (t x).next) =
          rw (← neighbours x xs d.0 m' c.2) ((skips x ne).0) in
        rw (e, c.0, e)
          (
            refl,
            ground (arith, skips x ne, next-Absent t (some x) (t x).next xs p x c.2 m' d.0),
            rw after (Chain-erase (some x) (t x).next xs d.1 m' (Absent-NotAt x xs d.0) c.2),
          )
  ]
