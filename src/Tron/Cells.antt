-- ===== src/Tron/Cells.antt =====
-- The cells of the board: every cell has an entry of its own in `occ`, which stays below cols * rows.
use native.Mathlib.Nat.{mul-le-mul_right, mul-add-div_right, div-eq_of_lt, suc-mul}
use tp_so.Prelude.{ℕ, suc, ◌+◌, ◌*◌, ◌/◌, ◌^◌, ◌≤◌, ◌<◌, ◌≡◌, sym, ap, ◌∙◌, arith}
use tp_so.Tron.{Grid, occ_idx}

-- The sizes are `uint16_t`s.
pub record IsGrid (g : Grid) : Type 0 where
  pub cols_fit : g.cols < 2 ^ 16
  pub rows_fit : g.rows < 2 ^ 16

row_end : (g : Grid) (c r : ℕ) → c < g.cols → r < g.rows → r * g.cols + c < g.rows * g.cols
row_end g c r h l =
    let whole : suc r * g.cols ≤ g.rows * g.cols = mul-le-mul_right (g.cols) l in
    omega (arith, suc-mul r (g.cols))

board_fits : (g : Grid) → IsGrid g → g.rows * g.cols < 2 ^ 32
board_fits g v =
    let most : g.rows * g.cols ≤ 65535 * g.cols =
      mul-le-mul_right (g.cols) (omega (arith, v.rows_fit)) in
    omega (arith, v.cols_fit)

-- The index does not wrap.
occ_idx_lem :
    (g : Grid) (c r : ℕ) → IsGrid g → c < g.cols → r < g.rows → occ_idx g c r ≡ r * g.cols + c
unfolding occ_idx
occ_idx_lem g c r v h l = omega (arith, row_end g c r h l, board_fits g v)

pub occ_idx-lt :
    (g : Grid) (c r : ℕ) → IsGrid g → c < g.cols → r < g.rows → occ_idx g c r < g.rows * g.cols
occ_idx-lt g c r v h l = omega (arith, occ_idx_lem g c r v h l, row_end g c r h l)

row_of : (g : Grid) (c r : ℕ) → c < g.cols → (r * g.cols + c) / g.cols ≡ r
row_of g c r h =
    let p : 0 < g.cols = omega arith in omega (arith, mul-add-div_right p r c, div-eq_of_lt h)

-- Two cells of the board have different entries.
pub occ_idx-injective :
    (g : Grid) (c r d s : ℕ)
    → IsGrid g
    → c < g.cols
    → r < g.rows
    → d < g.cols
    → s < g.rows
    → occ_idx g c r ≡ occ_idx g d s
    → (c ≡ d) × (r ≡ s)
occ_idx-injective g c r d s v h l i m e =
    let same : r * g.cols + c ≡ s * g.cols + d =
      sym (occ_idx_lem g c r v h l) ∙ e ∙ occ_idx_lem g d s v i m in
    let row : r ≡ s = sym (row_of g c r h) ∙ ap (λ x. x / g.cols) same ∙ row_of g d s i in
    (omega (arith, ap (λ x. x * g.cols) row), row)
