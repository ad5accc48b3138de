-- ===== src/Tests/Shell.antt =====
-- Userland/shell/shell.c on a system that numbers what it is asked for.
use tp_so.Prelude.{ℕ, suc, ◌≡◌, refl, [], ◌∷◌, pos, arith, inl, inr}
use tp_so.Shell.{Shell, Os, shell_dispatch}
use tp_so.Shell.Means.{Line, IsCommand, piped, text, runs, Carries}
use tp_so.Shell.Lines.{shell_dispatch-text}

abbrev os : Os ℕ
os = record {
  println = λ m s. suc s;
  write = λ t s. s;
  pipe_create = λ s. (pos s, suc s);
  create_process = λ e name priority foreground s. (pos (suc s), suc s);
  waitpid = λ p s. s;
  read = λ s. (0, ([], s));
}

abbrev shell : Shell
shell = record {
  pipe_ctx_a = record { cmd = []; pipe_id = pos 0 };
  pipe_ctx_b = record { cmd = []; pipe_id = pos 0 };
  bg_cmd = [];
  fg_cmd = [];
}

ls-IsCommand : IsCommand (b'l' ∷ b's' ∷ [])
ls-IsCommand = record {
  starts = ((λ e. absurd (omega arith)), (λ e. absurd (omega arith)));
  ends = (((λ e. absurd (omega arith)), (λ e. absurd (omega arith))), (λ e. absurd (omega arith)));
  short = omega arith;
  plain = ((λ e. absurd (ground (arith, e))), ((λ e. absurd (ground (arith, e))), tt));
}

-- `ls |`, a tab, `ls`.
abbrev line : Line
line = piped (b'l' ∷ b's' ∷ []) (32 ∷ []) (9 ∷ []) (b'l' ∷ b's' ∷ [])

shell_dispatch-text_example :
    (shell_dispatch os (text line) (shell, 0) ≡ runs os line (shell, 0))
    × Carries line (pos 0) (shell_dispatch os (text line) (shell, 0)).0
shell_dispatch-text_example =
    shell_dispatch-text os line ((ls-IsCommand, (inl refl, tt)), ((inr refl, tt), ls-IsCommand))
      shell 0
