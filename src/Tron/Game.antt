-- ===== src/Tron/Game.antt =====
-- Userland/shell/commands/tron_game.c: the rounds of a match.
--
-- `Tick` is what one turn of the loop reads from outside: the keys, and the clock as the
-- computer's player reads it. Waiting for the next turn or round, and drawing, are left out. A loop
-- runs as long as there are ticks.
use tp_so.Prelude.{
  ℕ, ◌+◌, ◌-◌, ◌*◌, ◌%◌, ◌^◌, Option, some, none, Bool, ◌&&◌, ◌||◌, not, ltb, leb, ◌==◌, List, [],
  ◌∷◌, on_some, if◌then◌else◌,
}
use tp_so.Tron.{
  Player, Score, TronGame, tron_tick_ms, tron_p1_color, tron_p2_color, map_init, map_free, occ_set,
}
use tp_so.Tron.Moves.{
  Intent, left, right, player_spawn_center_left, player_spawn_center_right, player_action_tick,
  tron_handle_input_edge, tron_handle_input_edge_coop,
}
use tp_so.Tron.Ai.{ai_choose_dir_simple, ai_choose_dir_track}

pub record Tick : Type 0 where
  pub keys : List ℕ
  pub ms : ℕ

-- The variables of `play_Game`, and the static one of AI.c.
pub record Match : Type 0 where
  pub game : TronGame
  pub p1 : Player
  pub p2 : Player
  pub p1_intent : Intent
  pub p2_intent : Intent
  pub count : ℕ

-- The loop goes on, or the round is over, or `play_Game` returns.
pub data Turn : Type 0 where
  plays_on : Match → Turn
  round_over : Match → Turn
  leaves : Match → Turn

-- `score_init` and the board, for a screen of `w` by `h` pixels.
unfoldable pub tron_setup_match : ℕ → ℕ → (ℕ → ℕ) → Player → Player → TronGame → TronGame
tron_setup_match w h buffer p1 p2 game =
    map_init w h buffer (record game { score = record { p1 = 0; p2 = 0 }; p1 = p1; p2 = p2 })

unfoldable pub tron_tick_for_level : TronGame → ℕ
tron_tick_for_level game =
    let base = tron_tick_ms in
    let lvl = if game.level == 0 then 1 else game.level in
    let dec = (lvl - 1) * 8 in
    if leb base 20 then base else if leb (base - 20) dec then 20 else base - dec

unfoldable pub start_round : Match → Match
start_round m =
    let p1 = player_spawn_center_left m.game 1 tron_p1_color m.p1 in
    let p2 = player_spawn_center_right m.game 2 tron_p2_color m.p2 in
    record m {
      game = occ_set p2.col p2.row p2.id_cell (occ_set p1.col p1.row p1.id_cell m.game);
      p1 = p1;
      p2 = p2;
      p1_intent = right;
      p2_intent = left;
    }

-- The computer's player: from level 2 on it follows the other.
unfoldable pub bot_choice : Tick → Match → Option Intent × ℕ
bot_choice t m =
    if leb 2 m.game.level
    then ai_choose_dir_track t.ms m.count m.game m.p2 m.p1
    else ai_choose_dir_simple t.ms m.count m.game m.p2

-- One player, two players, or no such mode.
unfoldable pub read_intents : ℕ → Tick → Match → Option Match
unfolding bot_choice
read_intents mode t m =
    let bot = bot_choice t m in
    let coop = tron_handle_input_edge_coop t.keys m.p1_intent m.p2_intent in
    if mode == 1
    then some (record m {
      p1_intent = tron_handle_input_edge t.keys m.p1_intent;
      p2_intent = on_some bot.0 (λ i. i) m.p2_intent;
      count = bot.1;
    })
    else if mode == 2
    then some (record m { p1_intent = coop.0; p2_intent = coop.1 })
    else none

-- `uint16_t` increment.
abbrev pub incr_score : ℕ → ℕ
incr_score x = (x + 1) % 2 ^ 16

-- Who stays alive wins the round; both score when both die.
unfoldable pub score_round : Bool → Bool → Score → Score
score_round alive1 alive2 s =
    if not alive2 && not alive1
    then record { p1 = incr_score s.p1; p2 = incr_score s.p2 }
    else if not alive1
    then record s { p2 = incr_score s.p2 }
    else record s { p1 = incr_score s.p1 }

-- Player 2 moves first.
unfoldable pub move_players : Match → Turn
unfolding score_round
move_players m =
    let second = player_action_tick m.game m.p2 m.p2_intent in
    let first = player_action_tick second.1 m.p1 m.p1_intent in
    let game = first.1 in
    let moved = record m { game = game; p1 = first.2; p2 = second.2 } in
    if not second.0 || not first.0
    then round_over
        (record moved { game = record game { score = score_round first.0 second.0 game.score } })
    else plays_on moved

unfoldable pub tick : ℕ → Tick → Match → Turn
unfolding read_intents move_players
tick mode t m = on_some (read_intents mode t m) move_players (leaves m)

-- `while (in_game)`.
unfoldable pub play_round : ℕ → List Tick → Match → Turn
unfolding tick
play_round mode [] m = plays_on m
play_round mode (t ∷ ts) m = elim (tick mode t m) [
  | plays_on n ↦ play_round mode ts n
  | round_over n ↦ round_over n
  | leaves n ↦ leaves n
]

abbrev pub undecided : Match → Bool
undecided m = ltb m.game.score.p1 3 && ltb m.game.score.p2 3

-- The loop over the rounds, each with its ticks: the match is over when one player has 3 points.
unfoldable pub play_game : ℕ → List (List Tick) → Match → Turn
unfolding play_round start_round
play_game mode [] m = if undecided m then plays_on m else round_over m
play_game mode (ts ∷ rounds) m =
    if undecided m
    then (elim (play_round mode ts (start_round m)) [
      | plays_on n ↦ plays_on n
      | round_over n ↦ play_game mode rounds (record n { game = map_free n.game })
      | leaves n ↦ leaves n
    ])
    else round_over m
