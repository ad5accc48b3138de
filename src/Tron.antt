-- ===== src/Tron.antt =====
-- Userland/shell/tron2/include/types.h and Userland/shell/tron2/map.c: the board of the game of Tron
-- and which of its cells are occupied. What is drawn is left out: no later step reads it.
--
-- `occ` is the static buffer of map_init, none for NULL. An int that is only 0 or 1 is a Bool.
pub mod Moves
pub mod Ai
pub mod Game
pub mod Cells
pub mod Step
pub mod Chosen
pub mod Free
pub mod Ends
pub mod Decided
use tp_so.Prelude.{
  ℕ, zero, suc, ◌+◌, ◌-◌, ◌*◌, ◌/◌, ◌%◌, ◌^◌, Option, some, none, Bool, true, false, ◌&&◌, not, ltb,
  ◌==◌, ℤ, update, map_range, on_some, if◌then◌else◌,
}

pub record Grid : Type 0 where
  pub x0 : ℕ
  pub y0 : ℕ
  pub cols : ℕ
  pub rows : ℕ
  pub cell_px : ℕ
  pub line_color : ℕ
  pub bg_color : ℕ
  pub border_color : ℕ

pub record Player : Type 0 where
  pub col : ℕ
  pub row : ℕ
  pub dx : ℤ
  pub dy : ℤ
  pub id_cell : ℕ
  pub color : ℕ
  pub alive : ℕ

pub record Score : Type 0 where
  pub p1 : ℕ
  pub p2 : ℕ

pub record TronGame : Type 0 where
  pub grid : Grid
  pub occ : Option (ℕ → ℕ)
  pub p1 : Player
  pub p2 : Player
  pub score : Score
  pub level : ℕ

-- The numbers of config.h.
abbrev pub tron_cell_px : ℕ
tron_cell_px = 10

abbrev pub tron_margin_left : ℕ
tron_margin_left = 128

abbrev pub tron_margin_top : ℕ
tron_margin_top = 128

abbrev pub tron_margin_right : ℕ
tron_margin_right = 128

abbrev pub tron_margin_bottom : ℕ
tron_margin_bottom = 64

abbrev pub tron_tick_ms : ℕ
tron_tick_ms = 50

abbrev pub tron_p1_color : ℕ
tron_p1_color = 0xC4872B

abbrev pub tron_p2_color : ℕ
tron_p2_color = 0x1A9BA0

-- `uint64_t` subtraction.
abbrev pub minus64 : ℕ → ℕ → ℕ
minus64 a b = (a + 2 ^ 64 - b) % 2 ^ 64

-- The board for a screen of `w` by `h` pixels.
unfoldable pub map_grid : ℕ → ℕ → Grid
map_grid w h = record {
  x0 = tron_margin_left;
  y0 = tron_margin_top;
  cols = minus64 (minus64 w tron_margin_left) tron_margin_right / tron_cell_px % 2 ^ 16;
  rows = minus64 (minus64 h tron_margin_top) tron_margin_bottom / tron_cell_px % 2 ^ 16;
  cell_px = tron_cell_px;
  line_color = 0x303030;
  bg_color = 0x000000;
  border_color = 0x444444;
}

-- `buffer` is what `occ_buffer` holds.
unfoldable pub map_init : ℕ → ℕ → (ℕ → ℕ) → TronGame → TronGame
unfolding map_grid
map_init w h buffer game =
    let grid = map_grid w h in
    let total = grid.cols * grid.rows % 2 ^ 32 in
    let capped = if ltb (128 * 128) total then 128 * 128 else total in
    record game { grid = grid; occ = some (map_range capped (λ _. 0) buffer) }

abbrev pub grid_contains_cell : Grid → ℕ → ℕ → Bool
grid_contains_cell g col row = ltb col g.cols && ltb row g.rows

unfoldable pub occ_idx : Grid → ℕ → ℕ → ℕ
occ_idx g col row = (row * g.cols + col) % 2 ^ 32

unfoldable pub occ_get : TronGame → ℕ → ℕ → ℕ
occ_get game col row =
    on_some game.occ
      (λ occ.
        if grid_contains_cell game.grid col row
        then (if ltb 0 (occ (occ_idx game.grid col row)) then 1 else 0)
        else 0)
      0

unfoldable pub occ_set : ℕ → ℕ → ℕ → TronGame → TronGame
occ_set col row v game =
    on_some game.occ
      (λ occ.
        if grid_contains_cell game.grid col row
        then record game {
          occ = some (update occ (occ_idx game.grid col row) (if ltb 0 v then 1 else 0));
        }
        else game)
      game

-- `if (G->occ[idx] != 0) G->occ[idx] = 0;` over one row, the first `n` columns, and over the first
-- `n` rows.
unfoldable pub free_cell : ℕ → (ℕ → ℕ) → ℕ → ℕ
free_cell idx occ = if not (occ idx == 0) then update occ idx 0 else occ

unfoldable pub free_row : ℕ → ℕ → ℕ → (ℕ → ℕ) → ℕ → ℕ
unfolding free_cell
free_row cols row zero occ = occ
free_row cols row (suc n) occ = free_cell ((row * cols + n) % 2 ^ 32) (free_row cols row n occ)

unfoldable pub free_rows : ℕ → ℕ → (ℕ → ℕ) → ℕ → ℕ
unfolding free_row
free_rows cols zero occ = occ
free_rows cols (suc n) occ = free_row cols n cols (free_rows cols n occ)

unfoldable pub map_free : TronGame → TronGame
unfolding free_rows
map_free game =
    on_some game.occ
      (λ occ. record game { occ = some (free_rows game.grid.cols game.grid.rows occ) }) game
