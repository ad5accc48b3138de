-- ===== src/Tron/Ai.antt =====
-- Userland/shell/tron2/AI.c: how the computer's player chooses its direction.
--
-- `count` is the static variable s_count, and `ms` what `get_ms_since_boot` returns.
use tp_so.Prelude.{
  ℕ, zero, suc, ◌+◌, ◌-◌, ◌%◌, ◌^◌, Option, some, none, Bool, ◌&&◌, ltb, leb, ◌==◌, List, [], ◌∷◌,
  ◌++◌, ℤ, pos, negsuc, minus_one, neg, add_int, diff, unsigned, int8, index, is_some, on_some,
  if◌then◌else◌,
}
use tp_so.Tron.{Grid, Player, TronGame, occ_get}
use tp_so.Tron.Moves.{Intent}

abbrev pub tron_ai_jitter_period : ℕ
tron_ai_jitter_period = 7

-- A direction turned to the left and to the right.
unfoldable pub dir_left : ℤ × ℤ → ℤ × ℤ
dir_left d = (d.1, neg d.0)

unfoldable pub dir_right : ℤ × ℤ → ℤ × ℤ
dir_right d = (neg d.1, d.0)

abbrev pub cell_is_inside : Grid → ℤ → ℤ → Bool
cell_is_inside g c r = is_some (index c g.cols) && is_some (index r g.rows)

unfoldable pub cell_is_free : TronGame → ℤ → ℤ → Bool
cell_is_free game c r =
    cell_is_inside game.grid c r && occ_get game (unsigned 16 c) (unsigned 16 r) == 0

-- Whether the cell one step from the bot is free.
unfoldable pub free_ahead : TronGame → Player → ℤ × ℤ → Bool
unfolding cell_is_free
free_ahead game bot d = cell_is_free game (add_int bot.col d.0) (add_int bot.row d.1)

abbrev pub intent_of : ℤ × ℤ → Intent
intent_of d = record { x = int8 d.0; y = int8 d.1 }

abbrev pub heading : Player → ℤ × ℤ
heading bot = (bot.dx, bot.dy)

-- Straight ahead, to the left or to the right; `none` is the result 0.
unfoldable pub ai_jitter3_simple : ℕ → TronGame → Player → Option Intent
unfolding free_ahead dir_left dir_right
ai_jitter3_simple ms game bot =
    let pick = ms % 2 ^ 32 % 3 in
    let d =
      if pick == 1
      then dir_left (heading bot)
      else if pick == 2
      then dir_right (heading bot)
      else heading bot in
    if free_ahead game bot d then some (intent_of d) else none

-- The first of the directions in which the next cell is free.
unfoldable pub first_free : TronGame → Player → List (ℤ × ℤ) → Option Intent
unfolding free_ahead
first_free game bot [] = none
first_free game bot (d ∷ ds) =
    let rest = first_free game bot ds in if free_ahead game bot d then some (intent_of d) else rest

unfoldable pub jitter_period : ℕ → ℕ
jitter_period level =
    let lvl = if level == 0 then 1 else level in
    if ltb 1 lvl
    then (if leb (tron_ai_jitter_period - 2) (lvl - 1)
        then 2
        else tron_ai_jitter_period - (lvl - 1))
    else tron_ai_jitter_period

-- Straight ahead, then left, then right.
unfoldable pub ai_straight : TronGame → Player → Option Intent
unfolding first_free dir_left dir_right
ai_straight game bot =
    first_free game bot (heading bot ∷ dir_left (heading bot) ∷ dir_right (heading bot) ∷ [])

unfoldable pub ai_choose_dir_simple : ℕ → ℕ → TronGame → Player → Option Intent × ℕ
unfolding ai_jitter3_simple ai_straight jitter_period
ai_choose_dir_simple ms count game bot =
    let now = (count + 1) % 2 ^ 32 in
    let straight = ai_straight game bot in
    let jitter = ai_jitter3_simple ms game bot in
    (
      if now % jitter_period game.level == 0
          then on_some jitter (λ i. some i) straight
          else straight,
      now,
    )

unfoldable pub iabs : ℤ → ℕ
iabs (pos n) = n
iabs (negsuc n) = n + 1

-- The step that makes a difference of columns, or of rows, smaller.
unfoldable pub toward_col : ℤ → List (ℤ × ℤ)
toward_col (pos zero) = []
toward_col (pos (suc n)) = (pos 1, pos 0) ∷ []
toward_col (negsuc n) = (minus_one, pos 0) ∷ []

unfoldable pub toward_row : ℤ → List (ℤ × ℤ)
toward_row (pos zero) = []
toward_row (pos (suc n)) = (pos 0, pos 1) ∷ []
toward_row (negsuc n) = (pos 0, minus_one) ∷ []

unfoldable pub candidates : Player → Player → List (ℤ × ℤ)
unfolding iabs toward_col toward_row
candidates bot target =
    let dc = diff target.col bot.col in
    let dr = diff target.row bot.row in
    (if leb (iabs dr) (iabs dc)
      then toward_col dc ++ toward_row dr
      else toward_row dr ++ toward_col dc)
    ++ (heading bot ∷ [])

unfoldable pub ai_choose_dir_track : ℕ → ℕ → TronGame → Player → Player → Option Intent × ℕ
unfolding candidates first_free ai_choose_dir_simple
ai_choose_dir_track ms count game bot target =
    on_some (first_free game bot (candidates bot target)) (λ i. (some i, count))
      (ai_choose_dir_simple ms count game bot)
