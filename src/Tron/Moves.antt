-- ===== src/Tron/Moves.antt =====
-- Userland/shell/tron2/player.c and Userland/shell/tron2/player_Intent.c: where the players start,
-- how they turn and step, and what the keys make of their intentions.
--
-- `keys` are the characters that `get_multiple_chars_sys` put in the buffer, first to last.
use mathlib.Core.List.{reverse}
use tp_so.Prelude.{
  ℕ, ◌*◌, ◌/◌, ◌%◌, ◌^◌, Option, some, none, Bool, true, false, ◌&&◌, ◌||◌, not, ◌==◌, List, [],
  ◌∷◌, ℤ, pos, minus_one, eq_ℤ, neg, add_int, unsigned, on_some, if◌then◌else◌,
}
use tp_so.Tron.{Grid, Player, TronGame, grid_contains_cell, occ_get, occ_set}

pub record Intent : Type 0 where
  pub x : ℤ
  pub y : ℤ

abbrev pub up : Intent
up = record { x = pos 0; y = minus_one }

abbrev pub down : Intent
down = record { x = pos 0; y = pos 1 }

abbrev pub left : Intent
left = record { x = minus_one; y = pos 0 }

abbrev pub right : Intent
right = record { x = pos 1; y = pos 0 }

abbrev pub center_row : Grid → ℕ
center_row g = g.rows / 2

abbrev pub center_left_col : Grid → ℕ
center_left_col g = g.cols / 4

abbrev pub center_right_col : Grid → ℕ
center_right_col g = 3 * g.cols / 4 % 2 ^ 16

unfoldable pub player_spawn_center_left : TronGame → ℕ → ℕ → Player → Player
player_spawn_center_left game id color p = record p {
  col = center_left_col game.grid;
  row = center_row game.grid;
  dx = pos 1;
  dy = pos 0;
  id_cell = id;
  color = color;
}

unfoldable pub player_spawn_center_right : TronGame → ℕ → ℕ → Player → Player
player_spawn_center_right game id color p = record p {
  col = center_right_col game.grid;
  row = center_row game.grid;
  dx = minus_one;
  dy = pos 0;
  id_cell = id;
  color = color;
}

-- Only (±1, 0) and (0, ±1).
abbrev pub is_unit : ℤ → ℤ → Bool
is_unit dx dy =
    (eq_ℤ dx (pos 0) && (eq_ℤ dy (pos 1) || eq_ℤ dy minus_one))
    || (eq_ℤ dy (pos 0) && (eq_ℤ dx (pos 1) || eq_ℤ dx minus_one))

unfoldable pub player_set_dir : ℤ → ℤ → Player → Player
player_set_dir dx dy p =
    if not (is_unit dx dy)
    then p
    else if eq_ℤ dx (neg p.dx) && eq_ℤ dy (neg p.dy)
    then p
    else record p { dx = dx; dy = dy }

abbrev pub next_col : Player → ℕ
next_col p = unsigned 16 (add_int p.col p.dx)

abbrev pub next_row : Player → ℕ
next_row p = unsigned 16 (add_int p.row p.dy)

-- Whether the player lives, the game, and the player.
unfoldable pub player_step_and_paint : TronGame → Player → Bool × TronGame × Player
player_step_and_paint game p =
    let nx = next_col p in
    let ny = next_row p in
    if not (grid_contains_cell game.grid nx ny)
    then (false, game, p)
    else if not (occ_get game nx ny == 0)
    then (false, game, p)
    else (true, occ_set nx ny p.id_cell game, record p { col = nx; row = ny })

unfoldable pub player_action_tick : TronGame → Player → Intent → Bool × TronGame × Player
unfolding player_step_and_paint player_set_dir
player_action_tick game p intent =
    player_step_and_paint game (player_set_dir (intent.x) (intent.y) p)

abbrev pub key_up : ℕ
key_up = 0xF1

abbrev pub key_left : ℕ
key_left = 0xF2

abbrev pub key_down : ℕ
key_down = 0xF3

abbrev pub key_right : ℕ
key_right = 0xF4

-- The two switches over a key.
unfoldable pub letter_intent : ℕ → Option Intent
letter_intent k =
    if k == b'w'
    then some up
    else if k == b's'
    then some down
    else if k == b'a'
    then some left
    else if k == b'd'
    then some right
    else none

unfoldable pub arrow_intent : ℕ → Option Intent
arrow_intent k =
    if k == key_up
    then some up
    else if k == key_down
    then some down
    else if k == key_left
    then some left
    else if k == key_right
    then some right
    else none

-- The first key of the list that decides.
unfoldable pub decide_by : (ℕ → Option Intent) → List ℕ → Intent → Intent
decide_by f [] intent = intent
decide_by f (k ∷ keys) intent = let rest = decide_by f keys intent in on_some (f k) (λ i. i) rest

unfoldable pub tron_handle_input_edge : List ℕ → Intent → Intent
unfolding decide_by letter_intent
tron_handle_input_edge keys p1 = decide_by letter_intent (reverse keys) p1

-- Both players' intentions, with whether each is decided.
unfoldable pub coop_key : ℕ → (Bool × Intent) × (Bool × Intent) → (Bool × Intent) × (Bool × Intent)
unfolding letter_intent arrow_intent
coop_key k s =
    let a = if s.0.0 then s.0 else on_some (letter_intent k) (λ i. (true, i)) s.0 in
    if a.0 && s.1.0
    then (a, s.1)
    else (a, if s.1.0 then s.1 else on_some (arrow_intent k) (λ i. (true, i)) s.1)

unfoldable pub coop_keys : List ℕ → (Bool × Intent) × (Bool × Intent) → Intent × Intent
unfolding coop_key
coop_keys [] s = (s.0.1, s.1.1)
coop_keys (k ∷ keys) s =
    let rest = coop_keys keys (coop_key k s) in
    if not (s.0.0) || not (s.1.0) then rest else (s.0.1, s.1.1)

unfoldable pub tron_handle_input_edge_coop : List ℕ → Intent → Intent → Intent × Intent
unfolding coop_keys
tron_handle_input_edge_coop keys p1 p2 = coop_keys (reverse keys) ((false, p1), (false, p2))
