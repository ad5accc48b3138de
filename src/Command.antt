-- ===== src/Command.antt =====
-- Userland/shell/lib/commandRead.c, and the table of commands of Userland/shell/lib/commands.c: how a
-- line is split into words, and how its first word is looked up.
--
-- A line is the list of its characters before the terminator, and a `char *` into it what is left of it.
-- Cutting the line into strings is left out: the words are lists of their own.
pub mod Lookup
pub mod Words
use tp_so.Prelude.{
  ℕ, zero, suc, ◌+◌, ◌-◌, ◌/◌, ◌≡◌, Option, some, none, Bool, true, false, ◌&&◌, ◌||◌, not, ltb,
  leb, ◌==◌, List, [], ◌∷◌, length, drop, ℤ, pos, negsuc, minus_one, on_some, if◌then◌else◌,
}

-- The commands' names and numbers.
abbrev pub commands : List (List ℕ × ℕ)
commands =
    (b'b' ∷ b'e' ∷ b'n' ∷ b'c' ∷ b'h' ∷ b'm' ∷ b'a' ∷ b'r' ∷ b'k' ∷ [], 8)
    ∷ (b'b' ∷ b'l' ∷ b'o' ∷ b'c' ∷ b'k' ∷ [], 27)
    ∷ (b'c' ∷ b'a' ∷ b't' ∷ [], 29)
    ∷ (b'c' ∷ b'l' ∷ b'e' ∷ b'a' ∷ b'r' ∷ [], 0)
    ∷ (b'd' ∷ b'a' ∷ b't' ∷ b'e' ∷ [], 1)
    ∷ (b'e' ∷ b'c' ∷ b'h' ∷ b'o' ∷ [], 2)
    ∷ (b'f' ∷ b'i' ∷ b'l' ∷ b't' ∷ b'e' ∷ b'r' ∷ [], 31)
    ∷ (b'f' ∷ b'p' ∷ b's' ∷ [], 15)
    ∷ (b'h' ∷ b'e' ∷ b'l' ∷ b'p' ∷ [], 3)
    ∷ (b'k' ∷ b'i' ∷ b'l' ∷ b'l' ∷ [], 22)
    ∷ (b'l' ∷ b'o' ∷ b'o' ∷ b'p' ∷ [], 28)
    ∷ (b'm' ∷ b'e' ∷ b'm' ∷ [], 32)
    ∷ (b'm' ∷ b'v' ∷ b'a' ∷ b'r' ∷ [], 34)
    ∷ (b'n' ∷ b'i' ∷ b'c' ∷ b'e' ∷ [], 23)
    ∷ (b'p' ∷ b's' ∷ [], 17)
    ∷ (b'r' ∷ b'e' ∷ b'g' ∷ b'i' ∷ b's' ∷ b't' ∷ b'e' ∷ b'r' ∷ b's' ∷ [], 9)
    ∷ (b'r' ∷ b'e' ∷ b's' ∷ b'i' ∷ b'z' ∷ b'e' ∷ [], 4)
    ∷ (b's' ∷ b'e' ∷ b'm' ∷ [], 33)
    ∷ (b's' ∷ b'h' ∷ b'u' ∷ b't' ∷ b'd' ∷ b'o' ∷ b'w' ∷ b'n' ∷ [], 11)
    ∷ (b's' ∷ b'l' ∷ b'e' ∷ b'e' ∷ b'p' ∷ [], 13)
    ∷ (b't' ∷ b'e' ∷ b's' ∷ b't' ∷ b'_' ∷ b'm' ∷ b'm' ∷ [], 16)
    ∷ (b't' ∷ b'e' ∷ b's' ∷ b't' ∷ b'_' ∷ b'p' ∷ b'r' ∷ b'i' ∷ b'o' ∷ [], 18)
    ∷ (b't' ∷ b'e' ∷ b's' ∷ b't' ∷ b'_' ∷ b'p' ∷ b'r' ∷ b'o' ∷ b'c' ∷ [], 36)
    ∷ (b't' ∷ b'e' ∷ b's' ∷ b't' ∷ b'_' ∷ b's' ∷ b'y' ∷ b'n' ∷ b'c' ∷ [], 37)
    ∷ (
      b't' ∷ b'e' ∷ b's' ∷ b't' ∷ b'i' ∷ b'n' ∷ b'v' ∷ b'a' ∷ b'l' ∷ b'i' ∷ b'd' ∷ b'o' ∷ b'p' ∷ [],
      5,
    )
    ∷ (b't' ∷ b'e' ∷ b's' ∷ b't' ∷ b's' ∷ b'o' ∷ b'u' ∷ b'n' ∷ b'd' ∷ [], 12)
    ∷ (b't' ∷ b'e' ∷ b's' ∷ b't' ∷ b's' ∷ b'y' ∷ b's' ∷ b'c' ∷ b'a' ∷ b'l' ∷ b'l' ∷ b's' ∷ [], 14)
    ∷ (b't' ∷ b'e' ∷ b's' ∷ b't' ∷ b'z' ∷ b'e' ∷ b'r' ∷ b'o' ∷ [], 6)
    ∷ (b't' ∷ b'i' ∷ b'm' ∷ b'e' ∷ [], 7)
    ∷ (b't' ∷ b'r' ∷ b'o' ∷ b'n' ∷ [], 10)
    ∷ (b'u' ∷ b'n' ∷ b'b' ∷ b'l' ∷ b'o' ∷ b'c' ∷ b'k' ∷ [], 26)
    ∷ (b'w' ∷ b'c' ∷ [], 30)
    ∷ (b'y' ∷ b'i' ∷ b'e' ∷ b'l' ∷ b'd' ∷ [], 35)
    ∷ []

abbrev pub n_commands : ℕ
n_commands = length commands

abbrev pub cr_maxargs : ℕ
cr_maxargs = 32

-- Row `i` of a table; past its end, a command without a name.
unfoldable pub command_at : List (List ℕ × ℕ) → ℕ → List ℕ × ℕ
command_at [] i = ([], 0)
command_at (c ∷ cs) zero = c
command_at (c ∷ cs) (suc i) = command_at cs i

abbrev pub command_name : ℕ → List ℕ
command_name i = (command_at commands i).0

unfoldable pub my_tolower : ℕ → ℕ
my_tolower c = if leb b'A' c && leb c b'Z' then c + (b'a' - b'A') else c

-- The sign of the comparison of a name with the characters of a token.
unfoldable pub ci_cmp_prefix : List ℕ → List ℕ → ℤ
unfolding my_tolower
ci_cmp_prefix name [] = pos 0
ci_cmp_prefix [] (b ∷ tok) = minus_one
ci_cmp_prefix (a ∷ name) (b ∷ tok) =
    let rest = ci_cmp_prefix name tok in
    let da = my_tolower a in
    let db = my_tolower b in
    if not (da == db) then (if ltb da db then minus_one else pos 1) else rest

abbrev pub is_negative : ℤ → Bool
is_negative (pos n) = false
is_negative (negsuc n) = true

abbrev pub is_positive : ℤ → Bool
is_positive (pos zero) = false
is_positive (pos (suc n)) = true
is_positive (negsuc n) = false

-- The two binary searches, with fuel.
unfoldable pub lb_prefix : ℕ → ℕ → ℕ → List ℕ → ℕ
unfolding ci_cmp_prefix
lb_prefix zero lo hi tok = lo
lb_prefix (suc fuel) lo hi tok =
    let mid = lo + (hi - lo) / 2 in
    let above = lb_prefix fuel (mid + 1) hi tok in
    let below = lb_prefix fuel lo mid tok in
    if ltb lo hi
    then (if is_negative (ci_cmp_prefix (command_name mid) tok) then above else below)
    else lo

unfoldable pub ub_prefix : ℕ → ℕ → ℕ → List ℕ → ℕ
unfolding ci_cmp_prefix
ub_prefix zero lo hi tok = lo
ub_prefix (suc fuel) lo hi tok =
    let mid = lo + (hi - lo) / 2 in
    let above = ub_prefix fuel (mid + 1) hi tok in
    let below = ub_prefix fuel lo mid tok in
    if ltb lo hi
    then (if not (is_positive (ci_cmp_prefix (command_name mid) tok)) then above else below)
    else lo

-- Whether `ci_strncmp` gives 0 for two strings of the length that it is called with.
unfoldable pub ci_same : List ℕ → List ℕ → Bool
unfolding my_tolower
ci_same [] [] = true
ci_same [] (b ∷ ys) = false
ci_same (a ∷ xs) [] = false
ci_same (a ∷ xs) (b ∷ ys) = my_tolower a == my_tolower b && ci_same xs ys

-- Each round of a search halves 33 commands: 6 rounds are enough.
unfoldable pub cr_find_cmd_idx_ci_exact : List ℕ → ℤ
unfolding lb_prefix ub_prefix ci_same
cr_find_cmd_idx_ci_exact token =
    let lo = lb_prefix 6 0 n_commands token in
    let hi = ub_prefix 6 0 n_commands token in
    let name = command_name lo in
    if length token == 0
    then minus_one
    else if not (hi == lo + 1)
    then minus_one
    else if not (length name == length token)
    then minus_one
    else if not (ci_same name token)
    then minus_one
    else pos lo

abbrev pub is_space : ℕ → Bool
is_space c = c == 32 || (c == 9 || (c == 13 || c == 10))

unfoldable pub skip_spaces : List ℕ → List ℕ
skip_spaces [] = []
skip_spaces (c ∷ p) = let rest = skip_spaces p in if is_space c then rest else c ∷ p

-- Up to the next separator, and from it on.
unfoldable pub word : List ℕ → List ℕ
word [] = []
word (c ∷ p) = let rest = word p in if is_space c then [] else c ∷ rest

unfoldable pub after_word : List ℕ → List ℕ
after_word [] = []
after_word (c ∷ p) = let rest = after_word p in if is_space c then c ∷ p else rest

-- The outer loop; `room` is `maxargv - 1 - argc`.
unfoldable pub words : ℕ → List ℕ → List (List ℕ)
unfolding word after_word skip_spaces
words zero p = []
words (suc room) [] = []
words (suc room) (c ∷ p) = word (c ∷ p) ∷ words room (skip_spaces (drop 1 (after_word (c ∷ p))))

unfoldable pub simple_tokenize : List ℕ → ℕ → List (List ℕ)
unfolding words
simple_tokenize line maxargv = words (maxargv - 1) (skip_spaces line)

unfoldable pub first_word : List ℕ → Option (List ℕ)
unfolding word
first_word [] = none
first_word (c ∷ p) = some (word (c ∷ p))

unfoldable pub cr_first_token : List ℕ → Option (List ℕ)
unfolding first_word skip_spaces
cr_first_token buf = first_word (skip_spaces buf)

-- What follows: the message, or the handler of the command with this number and its arguments.
pub data Dispatch : Type 0 where
  invalid_command : Dispatch
  commands_handler : ℕ → List (List ℕ) → Dispatch

unfoldable pub run_command : ℤ → List ℕ → Dispatch
unfolding simple_tokenize
run_command (pos idx) buf =
    commands_handler (command_at commands idx).1 (simple_tokenize buf cr_maxargs)
run_command (negsuc n) buf = invalid_command

unfoldable pub cr_dispatch_exact : List ℕ → Dispatch
unfolding run_command cr_first_token cr_find_cmd_idx_ci_exact
cr_dispatch_exact buf =
    on_some (cr_first_token buf) (λ t. run_command (cr_find_cmd_idx_ci_exact t) buf) invalid_command
