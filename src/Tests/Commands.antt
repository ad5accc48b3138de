-- ===== src/Tests/Commands.antt =====
-- The theorems on command lines at some lines.
use tp_so.Prelude.{ℕ, ◌≡◌, ◌↔◌, refl, List, [], ◌∷◌, arith, pos}
use tp_so.Command.{
  commands_handler, cr_dispatch_exact, cr_find_cmd_idx_ci_exact, cr_maxargs, simple_tokenize,
  cr_first_token, run_command, first_word, skip_spaces, word, after_word, words, lb_prefix,
  ub_prefix, ci_cmp_prefix, ci_same, command_at, my_tolower,
}
use tp_so.Command.Lookup.{IsNamed, cr_find_cmd_idx_ci_exact-IsNamed}
use tp_so.Command.Words.{unwords, simple_tokenize-unwords}

-- "Ps", and " Ps  1".
abbrev pub typed : List ℕ
typed = b'P' ∷ b's' ∷ []

abbrev pub line : List ℕ
line = 32 ∷ b'P' ∷ b's' ∷ 32 ∷ 32 ∷ b'1' ∷ []

runs_ps : cr_dispatch_exact line ≡ commands_handler 17 (typed ∷ (b'1' ∷ []) ∷ [])
unfolding cr_dispatch_exact cr_find_cmd_idx_ci_exact cr_first_token first_word run_command
    simple_tokenize skip_spaces word after_word words lb_prefix ub_prefix ci_cmp_prefix ci_same
    command_at my_tolower
runs_ps = refl

cr_find_cmd_idx_ci_exact-IsNamed_example :
    (cr_find_cmd_idx_ci_exact typed ≡ pos 14) ↔ IsNamed 14 typed
cr_find_cmd_idx_ci_exact-IsNamed_example = cr_find_cmd_idx_ci_exact-IsNamed typed 14

simple_tokenize-unwords_example :
    simple_tokenize (unwords (typed ∷ (b'1' ∷ []) ∷ [])) cr_maxargs ≡ typed ∷ (b'1' ∷ []) ∷ []
simple_tokenize-unwords_example =
    simple_tokenize-unwords (typed ∷ (b'1' ∷ []) ∷ [])
      (
        record { some_letter = omega arith; letters = (refl, (refl, tt)) },
        (record { some_letter = omega arith; letters = (refl, tt) }, tt),
      )
      (omega arith)
