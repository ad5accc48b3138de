-- ===== src/Tron/Free.antt =====
-- How many cells of the board are free, and that every step takes one of them.
use tp_so.Prelude.{
  true_of_not, ℕ, zero, suc, ◌+◌, ◌*◌, ◌≤◌, ◌<◌, ◌≡◌, refl, sym, ap, ◌∙◌, subst, Bool, true, false,
  not, ltb, ◌==◌, ==_false, arith, update, inl, inr, if_elim, ℤ, Bool-cases, if◌then◌else◌,
}
use tp_so.Tron.{Player, TronGame, grid_contains_cell, occ_idx, occ_get, occ_set}
use tp_so.Tron.Moves.{
  Intent, next_col, next_row, player_set_dir, player_step_and_paint, player_action_tick,
}
use tp_so.Tron.Cells.{occ_idx-lt}
use tp_so.Tron.Step.{inside, IsBoard, occ_set_lem, occ_get_lem}

-- The number of free entries below `n`.
unfoldable pub free : ℕ → (ℕ → ℕ) → ℕ
free zero occ = 0
free (suc n) occ = (if occ n == 0 then 1 else 0) + free n occ

pub free-le : (n : ℕ) (occ : ℕ → ℕ) → free n occ ≤ n
unfolding free
free-le zero occ = omega arith
free-le (suc n) occ = ground (arith, free-le n occ)

free-above : (n i v : ℕ) (occ : ℕ → ℕ) → n ≤ i → free n (update occ i v) ≡ free n occ
unfolding free
free-above zero i v occ h = refl
free-above (suc n) i v occ h =
    rw (==_false n i (λ e. omega arith), free)
      (ap (λ x. (if occ n == 0 then 1 else 0) + x) (free-above n i v occ (omega arith)))

free-take : (n i : ℕ) (occ : ℕ → ℕ) → i < n → occ i ≡ 0 → free n occ ≡ suc (free n (update occ i 1))
unfolding free
free-take zero i occ h e = absurd (omega arith)
free-take (suc n) i occ h e = elim (Bool-cases (n == i)) [
  | inl q ↦ taken q (ground arith)
  | inr q ↦
      rw (q, free)
        (ap (λ x. (if occ n == 0 then 1 else 0) + x) (free-take n i occ (below q) e)
          ∙ add-suc (if occ n == 0 then 1 else 0) (free n (update occ i 1)))
]
  where
    taken : (n == i) ≡ true → n ≡ i → free (suc n) occ ≡ suc (free (suc n) (update occ i 1))
    taken here_too q =
        let here : occ n ≡ 0 = ap occ q ∙ e in
        let same = free-above n i 1 occ (omega (arith, q)) in
        rw (here, here_too, same, free) (omega arith)

    below : (n == i) ≡ false → i < n
    below q = ground arith

    add-suc : (a b : ℕ) → a + suc b ≡ suc (a + b)
    add-suc a b = omega arith

-- What a step does to the board: if the player lives, one cell fewer is free.
pub record Stepped (cells : ℕ → ℕ) (game : TronGame) (p : Player) (r : Bool × TronGame × Player)
    : Type 0 where
  pub after : ℕ → ℕ
  pub board : IsBoard after r.1
  pub same_grid : r.1.grid ≡ game.grid
  pub same_score : r.1.score ≡ game.score
  pub same_id : r.2.id_cell ≡ p.id_cell
  pub no_more :
      free (game.grid.rows * game.grid.cols) after ≤ free (game.grid.rows * game.grid.cols) cells
  pub fewer :
      r.0 ≡ true
      → free (game.grid.rows * game.grid.cols) after < free (game.grid.rows * game.grid.cols) cells

dead-Stepped :
    (cells : ℕ → ℕ) (game : TronGame) (p : Player)
    → IsBoard cells game
    → Stepped cells game p (false, game, p)
dead-Stepped cells game p b = record {
  after = cells;
  board = b;
  same_grid = refl;
  same_score = refl;
  same_id = refl;
  no_more = omega arith;
  fewer = λ e. cc;
}

free_entry : {x y : ℕ} → x ≡ (if ltb 0 y then 1 else 0) → (x == 0) ≡ true → y ≡ 0
free_entry e h = ground arith

stepped :
    (cells : ℕ → ℕ) (game : TronGame) (p : Player)
    → IsBoard cells game
    → 0 < p.id_cell
    → grid_contains_cell game.grid (next_col p) (next_row p) ≡ true
    → (occ_get game (next_col p) (next_row p) == 0) ≡ true
    → Stepped cells game p (
      true,
      occ_set (next_col p) (next_row p) p.id_cell game,
      record p { col = next_col p; row = next_row p },
    )
stepped cells game p b i h f =
    let c = next_col p in
    let r = next_row p in
    let at = occ_idx game.grid c r in
    let q = inside game.grid c r h in
    let was : cells at ≡ 0 = free_entry (occ_get_lem cells game c r (b.there) h) f in
    let fewer =
      free-take (game.grid.rows * game.grid.cols) at cells
        (occ_idx-lt game.grid c r (b.grid) q.0 q.1) was in
    subst (λ g. Stepped cells game p (true, g, record p { col = c; row = r }))
      (sym (occ_set_lem cells game c r (p.id_cell) (b.there) h i))
      (record {
        after = update cells at 1;
        board = record { there = refl; grid = b.grid };
        same_grid = refl;
        same_score = refl;
        same_id = refl;
        no_more = omega (arith, fewer);
        fewer = λ _. omega (arith, fewer);
      })

step-Stepped :
    (cells : ℕ → ℕ) (game : TronGame) (p : Player)
    → IsBoard cells game
    → 0 < p.id_cell
    → Stepped cells game p (player_step_and_paint game p)
unfolding player_step_and_paint
step-Stepped cells game p b i =
    if_elim (Stepped cells game p) (not (grid_contains_cell game.grid (next_col p) (next_row p)))
      (λ _. dead-Stepped cells game p b)
      (λ h.
        if_elim (Stepped cells game p) (not (occ_get game (next_col p) (next_row p) == 0))
          (λ _. dead-Stepped cells game p b)
          (λ f. stepped cells game p b i (true_of_not _ h) (true_of_not _ f)))

set_dir-id : (dx dy : ℤ) (p : Player) → (player_set_dir dx dy p).id_cell ≡ p.id_cell
unfolding player_set_dir
set_dir-id dx dy p = ground arith

pub tick-Stepped :
    (cells : ℕ → ℕ) (game : TronGame) (p : Player) (i : Intent)
    → IsBoard cells game
    → 0 < p.id_cell
    → Stepped cells game p (player_action_tick game p i)
unfolding player_action_tick
tick-Stepped cells game p i b h =
    let q = player_set_dir (i.x) (i.y) p in
    let s = step-Stepped cells game q b (rw (set_dir-id (i.x) (i.y) p) h) in
    record {
      after = s.after;
      board = s.board;
      same_grid = s.same_grid;
      same_score = s.same_score;
      same_id = s.same_id ∙ set_dir-id (i.x) (i.y) p;
      no_more = s.no_more;
      fewer = s.fewer;
    }
