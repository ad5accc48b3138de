-- ===== src/Tron/Decided.antt =====
-- Between the rounds the board is cleared, and a match is decided.
use tp_so.Prelude.{
  ℕ, zero, suc, ◌+◌, ◌*◌, ◌^◌, ◌%◌, ◌≤◌, ◌<◌, ◌≡◌, ◌⊎◌, ◌&&◌, refl, ap, ◌∙◌, some, false, ltb, ◌==◌,
  arith, ltb→lt, List, [], ◌∷◌, length, All, inl, inr, if_elim, on_some_elim, Bool-cases, and_true,
}
use tp_so.Tron.{
  tron_p1_color, tron_p2_color, Score, TronGame, grid_contains_cell, occ_idx, occ_get, occ_set,
  free_cell, free_row, free_rows, map_free,
}
use tp_so.Tron.Moves.{player_spawn_center_left, player_spawn_center_right}
use tp_so.Tron.Game.{Tick, Match, Turn, round_over, start_round, undecided, play_game}
use tp_so.Tron.Step.{IsBoard, inside}
use tp_so.Tron.Free.{free-le}
use tp_so.Tron.Ends.{room, HasBoard, IsReady, IsMode, play_round-RoundOver}

free_cell-at : (i : ℕ) (occ : ℕ → ℕ) → free_cell i occ i ≡ 0
unfolding free_cell
free_cell-at i occ = ground arith

free_cell-keeps : (i j : ℕ) (occ : ℕ → ℕ) → occ j ≡ 0 → free_cell i occ j ≡ 0
unfolding free_cell
free_cell-keeps i j occ h = ground arith

free_row-keeps : (cols row n j : ℕ) (occ : ℕ → ℕ) → occ j ≡ 0 → free_row cols row n occ j ≡ 0
unfolding free_row
free_row-keeps cols row zero j occ h = h
free_row-keeps cols row (suc n) j occ h =
    free_cell-keeps ((row * cols + n) % 2 ^ 32) j (free_row cols row n occ)
      (free_row-keeps cols row n j occ h)

free_row-clears :
    (cols row n c : ℕ) (occ : ℕ → ℕ)
    → c < n
    → free_row cols row n occ ((row * cols + c) % 2 ^ 32) ≡ 0
unfolding free_row
free_row-clears cols row zero c occ h = absurd (omega arith)
free_row-clears cols row (suc n) c occ h = elim (Bool-cases (c == n)) [
  | inl e ↦
      let here : c ≡ n = ground arith in
      rw here (free_cell-at ((row * cols + n) % 2 ^ 32) (free_row cols row n occ))
  | inr e ↦
      free_cell-keeps ((row * cols + n) % 2 ^ 32) ((row * cols + c) % 2 ^ 32)
        (free_row cols row n occ) (free_row-clears cols row n c occ (ground arith))
]

free_rows-clears :
    (cols n c r : ℕ) (occ : ℕ → ℕ)
    → c < cols
    → r < n
    → free_rows cols n occ ((r * cols + c) % 2 ^ 32) ≡ 0
unfolding free_rows
free_rows-clears cols zero c r occ h l = absurd (omega arith)
free_rows-clears cols (suc n) c r occ h l = elim (Bool-cases (r == n)) [
  | inl e ↦
      let here : r ≡ n = ground arith in
      rw here (free_row-clears cols n cols c (free_rows cols n occ) h)
  | inr e ↦ free_row-keeps cols n cols _ _ (free_rows-clears cols n c r occ h (ground arith))
]

-- After `map_free` no cell of the board is occupied.
pub occ_get-map_free : (game : TronGame) (c r : ℕ) → occ_get (map_free game) c r ≡ 0
unfolding occ_get map_free occ_idx
occ_get-map_free game c r =
    on_some_elim (λ g. occ_get g c r ≡ 0) (game.occ)
      (λ cells e.
        if_elim (λ (x : ℕ). x ≡ 0) (grid_contains_cell game.grid c r)
          (λ h.
            let q = inside game.grid c r h in
            rw (free_rows-clears (game.grid.cols) (game.grid.rows) c r cells q.0 q.1) refl)
          (λ _. refl))
      (λ e. rw e refl)

-- Any board will do for the next round.
board_of :
    (size : ℕ) (game : TronGame) (cells : ℕ → ℕ)
    → IsBoard cells game
    → room game ≤ size
    → HasBoard size size game
board_of size game cells b h = record {
  cells = cells;
  board = b;
  fits = h;
  few = omega (arith, free-le (room game) cells);
}

-- What `occ_set` and `map_free` keep.
pub record IsLike (size : ℕ) (game next : TronGame) : Type 0 where
  pub has_board : HasBoard size size next
  pub same_score : next.score ≡ game.score

IsLike-board :
    (size k : ℕ) (game : TronGame) (cells : ℕ → ℕ)
    → HasBoard size k game
    → IsLike size game (record game { occ = some cells })
IsLike-board size k game cells b = record {
  has_board =
      board_of size (record game { occ = some cells }) cells
        (record { there = refl; grid = b.board.grid }) (b.fits);
  same_score = refl;
}

occ_set-IsLike :
    (size k c r v : ℕ) (game : TronGame)
    → HasBoard size k game
    → IsLike size game (occ_set c r v game)
unfolding occ_set
occ_set-IsLike size k c r v game b =
    on_some_elim (IsLike size game) (game.occ)
      (λ occ e.
        if_elim (IsLike size game) (grid_contains_cell game.grid c r)
          (λ _. IsLike-board size k game _ b)
          (λ _. record {
            has_board = board_of size game (b.cells) (b.board) (b.fits);
            same_score = refl;
          }))
      (λ e. record {
        has_board = board_of size game (b.cells) (b.board) (b.fits);
        same_score = refl;
      })

map_free-IsLike :
    (size k : ℕ) (game : TronGame) → HasBoard size k game → IsLike size game (map_free game)
unfolding map_free
map_free-IsLike size k game b =
    on_some_elim (IsLike size game) (game.occ)
      (λ occ e. IsLike-board size k game (free_rows game.grid.cols game.grid.rows occ) b)
      (λ e. record {
        has_board = board_of size game (b.cells) (b.board) (b.fits);
        same_score = refl;
      })

-- A round can start.
pub record Starts (size : ℕ) (m n : Match) : Type 0 where
  pub ready : IsReady size size n
  pub same_score : n.game.score ≡ m.game.score

start_round-Starts :
    (size k : ℕ) (m : Match) → HasBoard size k m.game → Starts size m (start_round m)
unfolding start_round player_spawn_center_left player_spawn_center_right
start_round-Starts size k m b =
    let p1 = player_spawn_center_left m.game 1 tron_p1_color m.p1 in
    let p2 = player_spawn_center_right m.game 2 tron_p2_color m.p2 in
    let one = occ_set-IsLike size k p1.col p1.row p1.id_cell m.game b in
    let two =
      occ_set-IsLike size size p2.col p2.row p2.id_cell (occ_set p1.col p1.row p1.id_cell m.game)
        (one.has_board) in
    record {
      ready = record { has_board = two.has_board; mark1 = omega arith; mark2 = omega arith };
      same_score = two.same_score ∙ one.same_score;
    }

-- The match is over: a player has 3 points, and neither has more.
pub record MatchOver (r : Turn) : Type 0 where
  pub state : Match
  pub result : r ≡ round_over state
  pub first_most : state.game.score.p1 ≤ 3
  pub second_most : state.game.score.p2 ≤ 3
  pub won : (state.game.score.p1 ≡ 3) ⊎ (state.game.score.p2 ≡ 3)

three : (a b : ℕ) → a ≤ 3 → b ≤ 3 → (ltb a 3 && ltb b 3) ≡ false → (a ≡ 3) ⊎ (b ≡ 3)
three a b h l w = elim (Bool-cases (ltb a 3)) [
  | inl e ↦ inr (ground arith)
  | inr e ↦ inl (ground arith)
]

decided :
    (m : Match)
    → m.game.score.p1 ≤ 3
    → m.game.score.p2 ≤ 3
    → undecided m ≡ false
    → MatchOver (round_over m)
decided m h l w = record {
  state = m;
  result = refl;
  first_most = h;
  second_most = l;
  won = three m.game.score.p1 m.game.score.p2 h l w;
}

-- A match is over after at most 5 rounds: in either mode, on a board of at most `size` cells that is there, with no score above 3,
-- `play_game` comes to its end with a score of 3 on one side and none above, whatever the keys and the times,
-- provided that there are as many rounds as can be needed, 5 from the start, and more turns for each than the board has cells.
pub play_game-MatchOver :
    (mode size k : ℕ) (rounds : List (List Tick)) (m : Match)
    → IsMode mode
    → HasBoard size k m.game
    → m.game.score.p1 ≤ 3
    → m.game.score.p2 ≤ 3
    → All (λ ts. size < length ts) rounds
    → 5 ≤ length rounds + m.game.score.p1 + m.game.score.p2
    → MatchOver (play_game mode rounds m)
unfolding play_game
play_game-MatchOver mode size k [] m o b h l a n =
    if_elim MatchOver (undecided m) (λ u. absurd (ground arith)) (λ w. decided m h l w)
play_game-MatchOver mode size k (ts ∷ rounds) m o b h l a n =
    if_elim MatchOver (undecided m)
      (λ u.
        let both = and_true (ltb m.game.score.p1 3) (ltb m.game.score.p2 3) u in
        let s = start_round-Starts size k m b in
        let r =
          play_round-RoundOver mode size size ts (start_round m) o (s.ready) (omega arith)
            (rw (s.same_score) (ltb→lt m.game.score.p1 3 both.0))
            (rw (s.same_score) (ltb→lt m.game.score.p2 3 both.1)) a.0 in
        let f = map_free-IsLike size size r.state.game (r.ready.has_board) in
        let g = map_free r.state.game in
        let first : g.score.p1 ≡ m.game.score.p1 + r.scored.first =
          ap (λ (x : Score). x.p1) (f.same_score)
          ∙ r.scored.p1_now
          ∙ ap (λ (x : Score). x.p1 + r.scored.first) (s.same_score) in
        let second : g.score.p2 ≡ m.game.score.p2 + r.scored.second =
          ap (λ (x : Score). x.p2) (f.same_score)
          ∙ r.scored.p2_now
          ∙ ap (λ (x : Score). x.p2 + r.scored.second) (s.same_score) in
        let l1 = ltb→lt m.game.score.p1 3 both.0 in
        let l2 = ltb→lt m.game.score.p2 3 both.1 in
        rw (r.result) (
          play_game-MatchOver mode size size rounds (record r.state { game = g }) o (f.has_board)
            (omega (arith, first, r.scored.first_one, l1))
            (omega (arith, second, r.scored.second_one, l2)) a.1
            (omega (arith, n, first, second, r.scored.someone))))
      (λ w. decided m h l w)
