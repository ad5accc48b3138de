-- ===== src/Tron/Step.antt =====
-- One step of a player.
use tp_so.Prelude.{
  false_of_not, true_of_not, ℕ, ◌<◌, ◌≡◌, ◌≢◌, refl, sym, ap, ◌∙◌, subst, some, Bool, true, false,
  not, ltb, ◌==◌, ==_false, lt→ltb, arith, update, ◌⊎◌, inl, inr, if_elim, Bool-cases, Option-cases,
  if◌then◌else◌,
}
use tp_so.Tron.{Grid, Player, TronGame, grid_contains_cell, occ_idx, occ_get, occ_set}
use tp_so.Tron.Moves.{next_col, next_row, player_step_and_paint}
use tp_so.Tron.Cells.{IsGrid, occ_idx-injective}

-- The board is there, with these entries.
pub record IsBoard (cells : ℕ → ℕ) (game : TronGame) : Type 0 where
  pub there : game.occ ≡ some cells
  pub grid : IsGrid game.grid

-- The game after cell (c, r) has been taken.
abbrev pub with_cell : (ℕ → ℕ) → ℕ → ℕ → TronGame → TronGame
with_cell cells c r game = record game { occ = some (update cells (occ_idx game.grid c r) 1) }

pub occ_set_lem :
    (cells : ℕ → ℕ) (game : TronGame) (c r v : ℕ)
    → game.occ ≡ some cells
    → grid_contains_cell game.grid c r ≡ true
    → 0 < v
    → occ_set c r v game ≡ with_cell cells c r game
unfolding occ_set
occ_set_lem cells game c r v e h p = rw (e, h, lt→ltb 0 v p) refl

pub occ_get_lem :
    (cells : ℕ → ℕ) (game : TronGame) (c r : ℕ)
    → game.occ ≡ some cells
    → grid_contains_cell game.grid c r ≡ true
    → occ_get game c r ≡ (if ltb 0 (cells (occ_idx game.grid c r)) then 1 else 0)
unfolding occ_get
occ_get_lem cells game c r e h = rw (e, h) refl

occ_get-outside :
    (game : TronGame) (c r : ℕ) → grid_contains_cell game.grid c r ≡ false → occ_get game c r ≡ 0
unfolding occ_get
occ_get-outside game c r h = elim (Option-cases (game.occ)) [
  | inl e ↦ rw e refl
  | inr (m, e) ↦ rw (e, h) refl
]

pub inside : (g : Grid) (c r : ℕ) → grid_contains_cell g c r ≡ true → (c < g.cols) × (r < g.rows)
inside g c r h = (ground arith, ground arith)

update-other : (f : ℕ → ℕ) (i j : ℕ) → j ≢ i → update f i 1 j ≡ f j
update-other f i j h = rw (==_false j i h) refl

update-at : (f : ℕ → ℕ) (i : ℕ) → update f i 1 i ≡ 1
update-at f i = ground arith

-- Taking a cell changes that cell only.
others_same :
    (cells : ℕ → ℕ) (game : TronGame) (c r d s : ℕ)
    → IsBoard cells game
    → grid_contains_cell game.grid c r ≡ true
    → ((d ≡ c) × (s ≡ r) → ⊥)
    → occ_get (with_cell cells c r game) d s ≡ occ_get game d s
others_same cells game c r d s b h ne = elim (Bool-cases (grid_contains_cell game.grid d s)) [
  | inl i ↦
      let new =
        occ_get_lem (update cells (occ_idx game.grid c r) 1) (with_cell cells c r game) d s refl
          i in
      let p = inside game.grid c r h in
      let q = inside game.grid d s i in
      let apart : occ_idx game.grid d s ≢ occ_idx game.grid c r =
        λ e. ne (occ_idx-injective game.grid d s c r b.grid q.0 q.1 p.0 p.1 e) in
      new
      ∙ ap (λ x. if ltb 0 x then 1 else 0)
          (update-other cells (occ_idx game.grid c r) (occ_idx game.grid d s) apart)
      ∙ sym (occ_get_lem cells game d s (b.there) i)
  | inr o ↦ occ_get-outside (with_cell cells c r game) d s o ∙ sym (occ_get-outside game d s o)
]

-- The player died where it was: the next cell lies outside the board, or is occupied.
pub record Died (game : TronGame) (p : Player) (r : Bool × TronGame × Player) : Type 0 where
  pub stays : r ≡ (false, game, p)
  pub blocked :
      (grid_contains_cell game.grid (next_col p) (next_row p) ≡ false)
      ⊎ (occ_get game (next_col p) (next_row p) ≡ 1)

-- The player is in the next cell, which was free, and is now the one cell more that is occupied.
pub record Advanced (game : TronGame) (p : Player) (r : Bool × TronGame × Player) : Type 0 where
  pub alive : r.0 ≡ true
  pub in_board : grid_contains_cell game.grid (next_col p) (next_row p) ≡ true
  pub was_free : occ_get game (next_col p) (next_row p) ≡ 0
  pub taken : occ_get r.1 (next_col p) (next_row p) ≡ 1
  pub others :
      (d s : ℕ) → ((d ≡ next_col p) × (s ≡ next_row p) → ⊥) → occ_get r.1 d s ≡ occ_get game d s
  pub moved : r.2 ≡ record p { col = next_col p; row = next_row p }

advanced :
    (cells : ℕ → ℕ) (game : TronGame) (p : Player)
    → IsBoard cells game
    → 0 < p.id_cell
    → grid_contains_cell game.grid (next_col p) (next_row p) ≡ true
    → occ_get game (next_col p) (next_row p) ≡ 0
    → Advanced game p (
      true,
      occ_set (next_col p) (next_row p) p.id_cell game,
      record p { col = next_col p; row = next_row p },
    )
advanced cells game p b i h f =
    let c = next_col p in
    let r = next_row p in
    subst (λ g. Advanced game p (true, g, record p { col = c; row = r }))
      (sym (occ_set_lem cells game c r (p.id_cell) (b.there) h i))
      (record {
        alive = refl;
        in_board = h;
        was_free = f;
        taken =
            occ_get_lem (update cells (occ_idx game.grid c r) 1) (with_cell cells c r game) c r refl
              h
            ∙ ap (λ x. if ltb 0 x then 1 else 0) (update-at cells (occ_idx game.grid c r));
        others = λ d s ne. others_same cells game c r d s b h ne;
        moved = refl;
      })

==_zero : {n : ℕ} → (n == 0) ≡ true → n ≡ 0
==_zero h = ground arith

-- `occ_get` is 0 or 1.
occupied : (game : TronGame) (c r : ℕ) → (occ_get game c r == 0) ≡ false → occ_get game c r ≡ 1
unfolding occ_get
occupied game c r h = elim (Option-cases (game.occ)) [
  | inl e ↦ absurd (ground arith)
  | inr (m, e) ↦ ground arith
]

-- The step of a player whose mark is not 0 on a board that is there: the player either dies, outside the board or on an occupied cell, and nothing
-- changes, or moves on to the next cell, which lies in the board and was free; then that cell is occupied, and no
-- other cell has changed.
pub player_step_and_paint-Advanced :
    (cells : ℕ → ℕ) (game : TronGame) (p : Player)
    → IsBoard cells game
    → 0 < p.id_cell
    → Died game p (player_step_and_paint game p) ⊎ Advanced game p (player_step_and_paint game p)
unfolding player_step_and_paint
player_step_and_paint-Advanced cells game p b i =
    if_elim Goal (not (grid_contains_cell game.grid nx ny))
      (λ o. inl (record { stays = refl; blocked = inl (false_of_not _ o) }))
      (λ h.
        if_elim Goal (not (occ_get game nx ny == 0))
          (λ o.
            inl (record { stays = refl; blocked = inr (occupied game nx ny (false_of_not _ o)) }))
          (λ f. inr (advanced cells game p b i (true_of_not _ h) (==_zero (true_of_not _ f)))))
  where
    nx : ℕ
    nx = next_col p

    ny : ℕ
    ny = next_row p

    Goal : Bool × TronGame × Player → Type 0
    Goal r = Died game p r ⊎ Advanced game p r
