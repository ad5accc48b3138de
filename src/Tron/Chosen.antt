-- ===== src/Tron/Chosen.antt =====
-- What the computer's player chooses keeps it alive.
use tp_so.Prelude.{
  ℕ, ◌+◌, ◌%◌, ◌^◌, ◌≡◌, refl, sym, ap, ap₂, zero, suc, ◌∙◌, subst, Option, some, Bool, true, false,
  ◌&&◌, leb, ◌==◌, arith, List, [], ◌∷◌, All, All-append, All-map, inl, inr, if_elim, and_true,
  on_some_elim, Bool-cases, ℤ, pos, negsuc, minus_one, neg, int8, unsigned, add_int, diff, eq_ℤ,
  eq_ℤ_sound, if◌then◌else◌,
}
use tp_so.Tron.{Grid, Player, TronGame, grid_contains_cell, occ_get}
use tp_so.Tron.Moves.{
  Intent, next_col, next_row, player_set_dir, player_step_and_paint, player_action_tick,
}
use tp_so.Tron.Ai.{
  iabs, cell_is_inside, cell_is_free, free_ahead, dir_left, dir_right, heading, intent_of,
  first_free, ai_straight, ai_jitter3_simple, jitter_period, ai_choose_dir_simple,
  ai_choose_dir_track, candidates, toward_col, toward_row,
}
use tp_so.Tron.Cells.{IsGrid}

-- One of the four directions.
pub data IsHeading : ℤ × ℤ → Type 0 where
  east : IsHeading (pos 1, pos 0)
  west : IsHeading (minus_one, pos 0)
  south : IsHeading (pos 0, pos 1)
  north : IsHeading (pos 0, minus_one)

left-IsHeading : (d : ℤ × ℤ) → IsHeading d → IsHeading (dir_left d)
unfolding dir_left neg
left-IsHeading _ east = north
left-IsHeading _ west = south
left-IsHeading _ south = east
left-IsHeading _ north = west

right-IsHeading : (d : ℤ × ℤ) → IsHeading d → IsHeading (dir_right d)
unfolding dir_right neg
right-IsHeading _ east = south
right-IsHeading _ west = north
right-IsHeading _ south = west
right-IsHeading _ north = east

-- What `player_set_dir` refuses.
abbrev pub is_back : ℤ × ℤ → ℤ × ℤ → Bool
is_back h d = eq_ℤ d.0 (neg h.0) && eq_ℤ d.1 (neg h.1)

straight-forward : (h : ℤ × ℤ) → IsHeading h → is_back h h ≡ false
unfolding neg
straight-forward _ east = refl
straight-forward _ west = refl
straight-forward _ south = refl
straight-forward _ north = refl

left-forward : (h : ℤ × ℤ) → IsHeading h → is_back h (dir_left h) ≡ false
unfolding neg dir_left
left-forward _ east = refl
left-forward _ west = refl
left-forward _ south = refl
left-forward _ north = refl

right-forward : (h : ℤ × ℤ) → IsHeading h → is_back h (dir_right h) ≡ false
unfolding neg dir_right
right-forward _ east = refl
right-forward _ west = refl
right-forward _ south = refl
right-forward _ north = refl

-- The turn is made.
set_dir-heading :
    (p : Player) (d : ℤ × ℤ)
    → IsHeading d
    → is_back (heading p) d ≡ false
    → player_set_dir (int8 d.0) (int8 d.1) p ≡ record p { dx = d.0; dy = d.1 }
unfolding player_set_dir int8 unsigned
set_dir-heading p _ east f = rw f refl
set_dir-heading p _ west f = rw f refl
set_dir-heading p _ south f = rw f refl
set_dir-heading p _ north f = rw f refl

inside-contains :
    (g : Grid) (c r : ℤ)
    → IsGrid g
    → cell_is_inside g c r ≡ true
    → grid_contains_cell g (unsigned 16 c) (unsigned 16 r) ≡ true
unfolding unsigned
inside-contains g (pos c) (pos r) v h = ground (arith, v.cols_fit, v.rows_fit)
inside-contains g (pos c) (negsuc r) v h = ground arith
inside-contains g (negsuc c) r v h = ground arith

step-alive :
    (game : TronGame) (p : Player)
    → grid_contains_cell game.grid (next_col p) (next_row p) ≡ true
    → (occ_get game (next_col p) (next_row p) == 0) ≡ true
    → (player_step_and_paint game p).0 ≡ true
unfolding player_step_and_paint
step-alive game p h f = rw (h, f) refl

-- A direction that is no way back and in which the next cell is free.
pub record IsSafe (game : TronGame) (p : Player) (i : Intent) : Type 0 where
  pub way : ℤ × ℤ
  pub chosen : i ≡ intent_of way
  pub unit : IsHeading way
  pub forward : is_back (heading p) way ≡ false
  pub free : free_ahead game p way ≡ true

IsSafe-alive :
    (game : TronGame) (p : Player) (i : Intent)
    → IsGrid game.grid
    → IsSafe game p i
    → (player_action_tick game p i).0 ≡ true
unfolding player_action_tick free_ahead cell_is_free
IsSafe-alive game p i v s =
    let q = record p { dx = s.way.0; dy = s.way.1 } in
    let c = add_int p.col (s.way.0) in
    let r = add_int p.row (s.way.1) in
    let free =
      and_true (cell_is_inside game.grid c r) (occ_get game (unsigned 16 c) (unsigned 16 r) == 0)
        (s.free) in
    rw (s.chosen) (
      rw (set_dir-heading p (s.way) (s.unit) (s.forward))
        (step-alive game q (inside-contains game.grid c r v (free.0)) (free.1)))

-- What the search comes to in directions that are safe where the next cell is free.
first_free-IsSafe :
    (game : TronGame) (p : Player) (ds : List (ℤ × ℤ)) (i : Intent)
    → All (λ d. IsHeading d × (free_ahead game p d ≡ true → is_back (heading p) d ≡ false)) ds
    → first_free game p ds ≡ some i
    → IsSafe game p i
unfolding first_free
first_free-IsSafe game p [] i a e = cc
first_free-IsSafe game p (d ∷ ds) i a e = elim (Bool-cases (free_ahead game p d)) [
  | inl f ↦ record {
    way = d;
    chosen = chosen i d (rw (f, first_free) at e);
    unit = a.0.0;
    forward = a.0.1 f;
    free = f;
  }
  | inr f ↦ first_free-IsSafe game p ds i (a.1) (rw (f, first_free) at e)
]
  where
    chosen : (j : Intent) (w : ℤ × ℤ) → some (intent_of w) ≡ some j → j ≡ intent_of w
    chosen j w q = cc

ai_straight-IsSafe :
    (game : TronGame) (p : Player) (i : Intent)
    → IsHeading (heading p)
    → ai_straight game p ≡ some i
    → IsSafe game p i
unfolding ai_straight
ai_straight-IsSafe game p i u e =
    let h = heading p in
    first_free-IsSafe game p (h ∷ dir_left h ∷ dir_right h ∷ []) i
      (
        (u, λ _. straight-forward h u),
        (
          (left-IsHeading h u, λ _. left-forward h u),
          ((right-IsHeading h u, λ _. right-forward h u), tt),
        ),
      )
      e

ai_jitter3_simple-IsSafe :
    (ms : ℕ) (game : TronGame) (p : Player) (i : Intent)
    → IsHeading (heading p)
    → ai_jitter3_simple ms game p ≡ some i
    → IsSafe game p i
unfolding ai_jitter3_simple first_free
ai_jitter3_simple-IsSafe ms game p i u e =
    let h = heading p in
    let pick = ms % 2 ^ 32 % 3 in
    let d = if pick == 1 then dir_left h else if pick == 2 then dir_right h else h in
    first_free-IsSafe game p (d ∷ []) i (any_pick, tt) e
  where
    Ahead : ℤ × ℤ → Type 0
    Ahead d = IsHeading d × (free_ahead game p d ≡ true → is_back (heading p) d ≡ false)

    any_pick :
        let h = heading p in
        let pick = ms % 2 ^ 32 % 3 in
        Ahead (if pick == 1 then dir_left h else if pick == 2 then dir_right h else h)
    any_pick =
        let h = heading p in
        if_elim Ahead (ms % 2 ^ 32 % 3 == 1) (λ _. (left-IsHeading h u, λ _. left-forward h u))
          (λ _.
            if_elim Ahead (ms % 2 ^ 32 % 3 == 2)
              (λ _. (right-IsHeading h u, λ _. right-forward h u))
              (λ _. (u, λ _. straight-forward h u)))

ai_choose_dir_simple-IsSafe :
    (ms count : ℕ) (game : TronGame) (bot : Player) (i : Intent)
    → IsHeading (heading bot)
    → (ai_choose_dir_simple ms count game bot).0 ≡ some i
    → IsSafe game bot i
unfolding ai_choose_dir_simple
ai_choose_dir_simple-IsSafe ms count game bot i u =
    if_elim Goal ((count + 1) % 2 ^ 32 % jitter_period game.level == 0)
      (λ _.
        on_some_elim Goal (ai_jitter3_simple ms game bot)
          (λ j e q. subst (IsSafe game bot) (same j q) (ai_jitter3_simple-IsSafe ms game bot j u e))
          (λ _ q. ai_straight-IsSafe game bot i u q))
      (λ _ q. ai_straight-IsSafe game bot i u q)
  where
    Goal : Option Intent → Type 0
    Goal o = o ≡ some i → IsSafe game bot i

    same : (j : Intent) → some j ≡ some i → j ≡ i
    same j q = cc

-- Where the simple strategy chooses a direction, for a bot that heads in one of the four directions, the next step of the bot does not kill it.
ai_choose_dir_simple-alive :
    (ms count : ℕ) (game : TronGame) (bot : Player) (i : Intent)
    → IsGrid game.grid
    → IsHeading (heading bot)
    → (ai_choose_dir_simple ms count game bot).0 ≡ some i
    → (player_action_tick game bot i).0 ≡ true
ai_choose_dir_simple-alive ms count game bot i v u e =
    IsSafe-alive game bot i v (ai_choose_dir_simple-IsSafe ms count game bot i u e)

toward_col-IsHeading : (z : ℤ) → All IsHeading (toward_col z)
unfolding toward_col
toward_col-IsHeading (pos zero) = tt
toward_col-IsHeading (pos (suc n)) = (east, tt)
toward_col-IsHeading (negsuc n) = (west, tt)

toward_row-IsHeading : (z : ℤ) → All IsHeading (toward_row z)
unfolding toward_row
toward_row-IsHeading (pos zero) = tt
toward_row-IsHeading (pos (suc n)) = (south, tt)
toward_row-IsHeading (negsuc n) = (north, tt)

candidates-IsHeading :
    (bot target : Player) → IsHeading (heading bot) → All IsHeading (candidates bot target)
unfolding candidates
candidates-IsHeading bot target u =
    let dc = diff target.col bot.col in
    let dr = diff target.row bot.row in
    All-append IsHeading _ (heading bot ∷ [])
      (if_elim (All IsHeading) (leb (iabs dr) (iabs dc))
        (λ _.
          All-append IsHeading (toward_col dc) (toward_row dr) (toward_col-IsHeading dc)
            (toward_row-IsHeading dr))
        (λ _.
          All-append IsHeading (toward_row dr) (toward_col dc) (toward_row-IsHeading dr)
            (toward_col-IsHeading dc)))
      (u, tt)

-- The cell behind the player.
abbrev pub behind : Player → ℤ × ℤ
behind p = (neg p.dx, neg p.dy)

not_back :
    (game : TronGame) (p : Player) (d : ℤ × ℤ)
    → free_ahead game p (behind p) ≡ false
    → free_ahead game p d ≡ true
    → is_back (heading p) d ≡ false
not_back game p d b f = elim (Bool-cases (is_back (heading p) d)) [
  | inr n ↦ n
  | inl y ↦
      let both = and_true (eq_ℤ d.0 (neg p.dx)) (eq_ℤ d.1 (neg p.dy)) y in
      let same : d ≡ behind p =
        ap₂ (λ (x z : ℤ). (x, z)) (eq_ℤ_sound d.0 (neg p.dx) both.0)
          (eq_ℤ_sound d.1 (neg p.dy) both.1) in
      let c : true ≡ false = sym f ∙ ap (free_ahead game p) same ∙ b in cc
]

-- The same of the strategy that follows the other player, where the cell behind the bot is not free.
pub ai_choose_dir_track-alive :
    (ms count : ℕ) (game : TronGame) (bot target : Player) (i : Intent)
    → IsGrid game.grid
    → IsHeading (heading bot)
    → free_ahead game bot (behind bot) ≡ false
    → (ai_choose_dir_track ms count game bot target).0 ≡ some i
    → (player_action_tick game bot i).0 ≡ true
unfolding ai_choose_dir_track
ai_choose_dir_track-alive ms count game bot target i v u b =
    on_some_elim Goal (first_free game bot (candidates bot target))
      (λ j e q.
        subst (λ k. (player_action_tick game bot k).0 ≡ true) (same j q)
          (IsSafe-alive game bot j v (
            first_free-IsSafe game bot (candidates bot target) j
              (All-map IsHeading _ (candidates bot target) (λ d h. (h, not_back game bot d b))
                (candidates-IsHeading bot target u))
              e)))
      (λ _ q. ai_choose_dir_simple-alive ms count game bot i v u q)
  where
    Goal : Option Intent × ℕ → Type 0
    Goal r = r.0 ≡ some i → (player_action_tick game bot i).0 ≡ true

    same : (j : Intent) → some j ≡ some i → j ≡ i
    same j q = cc
