-- ===== src/Tron/Ends.antt =====
-- A round of the game ends.
use tp_so.Prelude.{
  ℕ, suc, ◌+◌, ◌-◌, ◌*◌, ◌≤◌, ◌<◌, ◌≡◌, refl, sym, ◌∙◌, subst, Bool, true, false, ◌||◌, not, arith,
  List, [], ◌∷◌, length, ◌⊎◌, inl, inr, if_elim,
}
use tp_so.Tron.{Grid, Player, Score, TronGame}
use tp_so.Tron.Moves.{player_action_tick}
use tp_so.Tron.Game.{
  Tick, Match, Turn, plays_on, round_over, leaves, read_intents, score_round, move_players, tick,
  play_round,
}
use tp_so.Tron.Step.{IsBoard}
use tp_so.Tron.Free.{free, tick-Stepped, Stepped}

-- The number of cells, and the number of free ones.
abbrev pub room : TronGame → ℕ
room game = game.grid.rows * game.grid.cols

-- The board is there with at most `size` cells, of which at most `k` are free.
pub record HasBoard (size k : ℕ) (game : TronGame) : Type 0 where
  pub cells : ℕ → ℕ
  pub board : IsBoard cells game
  pub fits : room game ≤ size
  pub few : free (room game) cells ≤ k

pub record IsReady (size k : ℕ) (m : Match) : Type 0 where
  pub has_board : HasBoard size k m.game
  pub mark1 : 0 < m.p1.id_cell
  pub mark2 : 0 < m.p2.id_cell

-- One player or both got a point.
pub record Scored (s t : Score) : Type 0 where
  pub first : ℕ
  pub second : ℕ
  pub p1_now : t.p1 ≡ s.p1 + first
  pub p2_now : t.p2 ≡ s.p2 + second
  pub first_one : first ≤ 1
  pub second_one : second ≤ 1
  pub someone : 1 ≤ first + second

-- What one turn comes to: it uses up a free cell, or ends the round with a point.
abbrev pub AfterTurn : ℕ → ℕ → Score → Turn → Type 0
AfterTurn size k s (plays_on n) = (0 < k) × IsReady size (k - 1) n × (n.game.score ≡ s)
AfterTurn size k s (round_over n) = IsReady size k n × Scored s n.game.score
AfterTurn size k s (leaves n) = ⊥

score_round-Scored :
    (a b : Bool) (s : Score)
    → s.p1 < 3
    → s.p2 < 3
    → (not b || not a) ≡ true
    → Scored s (score_round a b s)
unfolding score_round
score_round-Scored false false s h l o = record {
  first = 1;
  second = 1;
  p1_now = omega arith;
  p2_now = omega arith;
  first_one = omega arith;
  second_one = omega arith;
  someone = omega arith;
}
score_round-Scored false true s h l o = record {
  first = 0;
  second = 1;
  p1_now = omega arith;
  p2_now = omega arith;
  first_one = omega arith;
  second_one = omega arith;
  someone = omega arith;
}
score_round-Scored true false s h l o = record {
  first = 1;
  second = 0;
  p1_now = omega arith;
  p2_now = omega arith;
  first_one = omega arith;
  second_one = omega arith;
  someone = omega arith;
}
score_round-Scored true true s h l o = cc

Stepped-HasBoard :
    {cells : ℕ → ℕ} {game : TronGame} {p : Player} {r : Bool × TronGame × Player} (size k : ℕ)
    (s : Stepped cells game p r)
    → room game ≤ size
    → free (room game) s.after ≤ k
    → HasBoard size k r.1
Stepped-HasBoard size k s h l = record {
  cells = s.after;
  board = s.board;
  fits = subst (λ (g : Grid). g.rows * g.cols ≤ size) (sym (s.same_grid)) h;
  few = subst (λ (g : Grid). free (g.rows * g.cols) s.after ≤ k) (sym (s.same_grid)) l;
}

with_score :
    {size k : ℕ} (game : TronGame) (s : Score)
    → HasBoard size k game
    → HasBoard size k (record game { score = s })
with_score game s b = record {
  cells = b.cells;
  board = record { there = b.board.there; grid = b.board.grid };
  fits = b.fits;
  few = b.few;
}

both_true : (a b : Bool) → (not a || not b) ≡ false → (a ≡ true) × (b ≡ true)
both_true true true o = (refl, refl)
both_true true false o = cc
both_true false b o = cc

move_players-AfterTurn :
    (size k : ℕ) (m : Match)
    → IsReady size k m
    → m.game.score.p1 < 3
    → m.game.score.p2 < 3
    → AfterTurn size k m.game.score (move_players m)
unfolding move_players
move_players-AfterTurn size k m v h l =
    if_elim (AfterTurn size k m.game.score) (not second.0 || not first.0)
      (λ o. (
        record {
          has_board = with_score _ _ (Stepped-HasBoard size k s1 room2 few1);
          mark1 = mark1;
          mark2 = mark2;
        },
        subst (λ x. Scored x (score_round first.0 second.0 first.1.score)) same_score
            (score_round-Scored first.0 second.0 first.1.score
              (subst (λ (x : Score). x.p1 < 3) (sym same_score) h)
              (subst (λ (x : Score). x.p2 < 3) (sym same_score) l) o),
      ))
      (λ o. (
        omega (arith, few2 o),
        record {
          has_board = Stepped-HasBoard size (k - 1) s1 room2 (omega (arith, few2 o));
          mark1 = mark1;
          mark2 = mark2;
        },
        same_score,
      ))
  where
    b : HasBoard size k m.game
    b = v.has_board

    second : Bool × TronGame × Player
    second = player_action_tick m.game m.p2 m.p2_intent

    first : Bool × TronGame × Player
    first = player_action_tick second.1 m.p1 m.p1_intent

    s2 : Stepped b.cells m.game m.p2 second
    s2 = tick-Stepped (b.cells) m.game m.p2 m.p2_intent (b.board) (v.mark2)

    s1 : Stepped s2.after second.1 m.p1 first
    s1 = tick-Stepped (s2.after) second.1 m.p1 m.p1_intent (s2.board) (v.mark1)

    room2 : room second.1 ≤ size
    room2 = subst (λ (g : Grid). g.rows * g.cols ≤ size) (sym (s2.same_grid)) (b.fits)

    between : free (room second.1) s2.after ≤ free (room m.game) b.cells
    between =
        subst (λ (g : Grid). free (g.rows * g.cols) s2.after ≤ free (room m.game) b.cells)
          (sym (s2.same_grid)) (s2.no_more)

    few1 : free (room second.1) s1.after ≤ k
    few1 = omega (arith, between, s1.no_more, b.few)

    both : (not second.0 || not first.0) ≡ false → (second.0 ≡ true) × (first.0 ≡ true)
    both o = both_true second.0 first.0 o

    few2 : (not second.0 || not first.0) ≡ false → suc (free (room second.1) s1.after) ≤ k
    few2 o = omega (arith, between, s1.fewer (both o).1, b.few)

    mark1 : 0 < first.2.id_cell
    mark1 = rw (s1.same_id) (v.mark1)

    mark2 : 0 < second.2.id_cell
    mark2 = rw (s2.same_id) (v.mark2)

    same_score : first.1.score ≡ m.game.score
    same_score = s1.same_score ∙ s2.same_score

pub grow : (size k : ℕ) (m : Match) → k ≤ size → IsReady size k m → IsReady size size m
grow size k m f v =
    let b = v.has_board in
    record {
      has_board = record {
        cells = b.cells;
        board = b.board;
        fits = b.fits;
        few = omega (arith, b.few);
      };
      mark1 = v.mark1;
      mark2 = v.mark2;
    }

-- One player or two.
abbrev pub IsMode : ℕ → Type 0
IsMode mode = (mode ≡ 1) ⊎ (mode ≡ 2)

tick-AfterTurn :
    (mode size k : ℕ) (t : Tick) (m : Match)
    → IsMode mode
    → IsReady size k m
    → m.game.score.p1 < 3
    → m.game.score.p2 < 3
    → AfterTurn size k m.game.score (tick mode t m)
unfolding tick read_intents
tick-AfterTurn mode size k t m (inl e) v h l = rw e (
    move_players-AfterTurn size k _
      (record { has_board = v.has_board; mark1 = v.mark1; mark2 = v.mark2 }) h l)
tick-AfterTurn mode size k t m (inr e) v h l = rw e (
    move_players-AfterTurn size k _
      (record { has_board = v.has_board; mark1 = v.mark1; mark2 = v.mark2 }) h l)

-- The round is over: there is a board as large as before, and somebody has got a point.
pub record RoundOver (size : ℕ) (s : Score) (r : Turn) : Type 0 where
  pub state : Match
  pub result : r ≡ round_over state
  pub ready : IsReady size size state
  pub scored : Scored s state.game.score

-- A round ends in fewer turns than there are cells, and somebody gets a point: on a board of at most `size` cells, of which
-- at most `k` are free, from any state of the two
-- players with marks that are not 0, with both scores below 3 and any keys and times, in either mode, the loop is over after
-- at most `k` + 1 turns.
pub play_round-RoundOver :
    (mode size k : ℕ) (ts : List Tick) (m : Match)
    → IsMode mode
    → IsReady size k m
    → k ≤ size
    → m.game.score.p1 < 3
    → m.game.score.p2 < 3
    → k < length ts
    → RoundOver size m.game.score (play_round mode ts m)
unfolding play_round
play_round-RoundOver mode size k [] m o v f h l n = absurd (omega arith)
play_round-RoundOver mode size k (t ∷ ts) m o v f h l n =
    after (tick mode t m) (tick-AfterTurn mode size k t m o v h l) (λ q p w e.
      subst (λ s. RoundOver size s (play_round mode ts q)) e
        (play_round-RoundOver mode size (k - 1) ts q o w (omega arith) (rw e h) (rw e l)
          (omega (arith, p))))
  where
    after :
        (r : Turn)
        → AfterTurn size k m.game.score r
        → ((q : Match)
            → 0 < k
            → IsReady size (k - 1) q
            → q.game.score ≡ m.game.score
            → RoundOver size m.game.score (play_round mode ts q))
        → RoundOver size m.game.score (elim r [
          | plays_on q ↦ play_round mode ts q
          | round_over q ↦ round_over q
          | leaves q ↦ leaves q
        ])
    after (plays_on q) a next = next q a.0 a.1 a.2
    after (round_over q) a next = record {
      state = q;
      result = refl;
      ready = grow size k q f a.0;
      scored = a.1;
    }
    after (leaves q) a next = absurd a
