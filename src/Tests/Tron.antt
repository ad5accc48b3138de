-- ===== src/Tests/Tron.antt =====
-- The theorems on the game of Tron on a board of 8 by 6 cells at its start.
use tp_so.Prelude.{
  add_int, unsigned, neg, int8, diff, ℕ, zero, suc, ◌≡◌, ◌⊎◌, inl, refl, some, true, false, arith,
  List, [], ◌∷◌, pos, minus_one, ◌==◌, ◌||◌, if◌then◌else◌,
}
use tp_so.Keyboard.{arrow_key}
use tp_so.Tron.{Grid, Player, TronGame, occ_get, occ_idx}
use tp_so.Tron.Moves.{
  left, player_step_and_paint, player_action_tick, arrow_intent, up, down, right,
}
use tp_so.Tron.Ai.{
  first_free, candidates, toward_col, toward_row, iabs, ai_choose_dir_simple, ai_choose_dir_track,
  free_ahead,
}
use tp_so.Tron.Game.{Tick, Match, play_round, play_game}
use tp_so.Tron.Step.{IsBoard, Died, Advanced, player_step_and_paint-Advanced}
use tp_so.Tron.Chosen.{west, behind, ai_choose_dir_track-alive}
use tp_so.Tron.Free.{free-le}
use tp_so.Tron.Ends.{HasBoard, RoundOver, play_round-RoundOver}
use tp_so.Tron.Decided.{MatchOver, play_game-MatchOver}

abbrev pub board : Grid
board = record {
  x0 = 128;
  y0 = 128;
  cols = 8;
  rows = 6;
  cell_px = 10;
  line_color = 0;
  bg_color = 0;
  border_color = 0;
}

abbrev pub red : Player
red = record { col = 2; row = 3; dx = pos 1; dy = pos 0; id_cell = 1; color = 1; alive = 1 }

-- In the last column, with its trail behind it.
abbrev pub blue : Player
blue = record { col = 6; row = 3; dx = minus_one; dy = pos 0; id_cell = 2; color = 2; alive = 1 }

-- The cells of both players and the one behind the second.
abbrev pub trails : ℕ → ℕ
trails i = if i == 26 || i == 30 || i == 31 then 1 else 0

abbrev pub game : TronGame
game = record {
  grid = board;
  occ = some trails;
  p1 = red;
  p2 = blue;
  score = record { p1 = 0; p2 = 0 };
  level = 2;
}

game-IsBoard : IsBoard trails game
game-IsBoard = record {
  there = refl;
  grid = record { cols_fit = omega arith; rows_fit = omega arith };
}

player_step_and_paint-Advanced_example :
    Died game red (player_step_and_paint game red)
    ⊎ Advanced game red (player_step_and_paint game red)
player_step_and_paint-Advanced_example =
    player_step_and_paint-Advanced trails game red game-IsBoard (omega arith)

simple_choice : (ai_choose_dir_simple 0 3 game blue).0 ≡ some left
unfolding ai_choose_dir_simple free_ahead occ_get occ_idx add_int unsigned int8
simple_choice = refl

track_choice : (ai_choose_dir_track 0 3 game blue red).0 ≡ some left
unfolding ai_choose_dir_track first_free candidates toward_col toward_row iabs diff free_ahead
    occ_get occ_idx add_int unsigned int8
track_choice = refl

trail_behind : free_ahead game blue (behind blue) ≡ false
unfolding free_ahead occ_get occ_idx add_int unsigned neg
trail_behind = refl

ai_choose_dir_track-alive_example : (player_action_tick game blue left).0 ≡ true
ai_choose_dir_track-alive_example =
    ai_choose_dir_track-alive 0 3 game blue red left (game-IsBoard.grid) west trail_behind
      track_choice

abbrev pub playing : Match
playing = record {
  game = game;
  p1 = red;
  p2 = blue;
  p1_intent = right;
  p2_intent = left;
  count = 3;
}

game-HasBoard : HasBoard 48 48 game
game-HasBoard = record {
  cells = trails;
  board = game-IsBoard;
  fits = omega arith;
  few = free-le 48 trails;
}

-- Nobody presses a key.
abbrev pub idle : ℕ → List Tick
idle zero = []
idle (suc n) = record { keys = []; ms = 0 } ∷ idle n

play_round-RoundOver_example :
    RoundOver 48 (record { p1 = 0; p2 = 0 }) (play_round 1 (idle 49) playing)
play_round-RoundOver_example =
    play_round-RoundOver 1 48 48 (idle 49) playing (inl refl)
      (record { has_board = game-HasBoard; mark1 = omega arith; mark2 = omega arith }) (omega arith)
      (omega arith) (omega arith) (omega arith)

play_game-MatchOver_example :
    MatchOver (play_game 1 (idle 49 ∷ idle 49 ∷ idle 49 ∷ idle 49 ∷ idle 49 ∷ []) playing)
play_game-MatchOver_example =
    play_game-MatchOver 1 48 48 (idle 49 ∷ idle 49 ∷ idle 49 ∷ idle 49 ∷ idle 49 ∷ []) playing
      (inl refl) game-HasBoard (omega arith) (omega arith)
      (omega arith, (omega arith, (omega arith, (omega arith, (omega arith, tt))))) (omega arith)

-- The scan codes of the arrow keys turn player 2 the way the arrows point, although the driver and the
-- game give two of the codes between them each other's names.
arrows :
    (arrow_intent (arrow_key 0x48) ≡ some up)
    × (arrow_intent (arrow_key 0x50) ≡ some down)
    × (arrow_intent (arrow_key 0x4B) ≡ some left)
    × (arrow_intent (arrow_key 0x4D) ≡ some right)
unfolding arrow_intent arrow_key
arrows = (refl, refl, refl, refl)
