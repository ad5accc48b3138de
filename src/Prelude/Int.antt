-- ===== src/Prelude/Int.antt =====
-- The C `int`s that can be negative, and the test that makes one an index.
use Prim.Native.Nat.{ℕ, zero, suc, ◌+◌, ◌-◌, ◌%◌, ◌^◌, ◌<◌}
use mathlib.Core.Path.{◌≡◌, ap}
use native.Mathlib.Omega.{arith}
use mathlib.Core.Bool.{Bool, true, false}
use mathlib.Core.Option.{Option, none, some}
use tp_so.Prelude.Tests.{ltb, ◌==◌, if◌then◌else◌}

-- `negsuc n` is -(n + 1).
pub data ℤ : Type 0 where
  pos : ℕ → ℤ
  negsuc : ℕ → ℤ

abbrev pub minus_one : ℤ
minus_one = negsuc 0

-- `0 <= i && i < bound`, with the index where it holds.
abbrev pub index : ℤ → ℕ → Option ℕ
index (pos i) bound = if ltb i bound then some i else none
index (negsuc i) bound = none

abbrev pub eq_ℤ : ℤ → ℤ → Bool
eq_ℤ (pos a) (pos b) = a == b
eq_ℤ (negsuc a) (negsuc b) = a == b
eq_ℤ _ _ = false

pub index-lt : (z : ℤ) (bound i : ℕ) → index z bound ≡ some i → i < bound
index-lt (pos j) bound i e = ground arith
index-lt (negsuc j) bound i e = cc

-- `-z`, and the sum of an unsigned number and an int.
unfoldable pub neg : ℤ → ℤ
neg (pos zero) = pos 0
neg (pos (suc n)) = negsuc n
neg (negsuc n) = pos (suc n)

unfoldable pub add_int : ℕ → ℤ → ℤ
add_int c (pos n) = pos (c + n)
add_int c (negsuc n) = if ltb n c then pos (c - 1 - n) else negsuc (n - c)

-- The difference of two unsigned numbers.
unfoldable pub diff : ℕ → ℕ → ℤ
diff a b = if ltb a b then negsuc (b - a - 1) else pos (a - b)

-- The value in w bits, unsigned and signed.
unfoldable pub unsigned : ℕ → ℤ → ℕ
unsigned w (pos n) = n % 2 ^ w
unsigned w (negsuc n) = 2 ^ w - 1 - n % 2 ^ w

unfoldable pub int8 : ℤ → ℤ
unfolding unsigned
int8 z = let x = unsigned 8 z in if ltb x 128 then pos x else negsuc (255 - x)

pub eq_ℤ_sound : (a b : ℤ) → eq_ℤ a b ≡ true → a ≡ b
eq_ℤ_sound (pos a) (pos b) h = ap pos (ground arith)
eq_ℤ_sound (pos a) (negsuc b) h = cc
eq_ℤ_sound (negsuc a) (pos b) h = cc
eq_ℤ_sound (negsuc a) (negsuc b) h = ap negsuc (ground arith)
