-- ===== src/Shell/Lines.antt =====
-- What Userland/shell/shell.c makes of the lines that a user writes.
use tp_so.Prelude.{
  ℕ, zero, suc, ◌≡◌, refl, sym, subst, ap, ap₂, ◌∙◌, ℤ, pos, negsuc, List, [], ◌∷◌, ◌++◌,
  All-append,
}
use tp_so.Text.{uint_to_base}
use tp_so.Shell.Means.{
  IsCommand, Line, foreground, background, piped, IsMeant, text, name_of, Carries, awaits, runs,
}
use tp_so.Shell.{
  wait_foreground, announce, start_both, wait_if_started, fg_proc_entry, bg_proc_entry, pipe_proc_a,
  pipe_proc_b, no_process, no_background, no_pipe, proc_steps, Shell, Os, run_pair, run_piped,
  run_background, run_foreground, dispatch_rest, shell_dispatch,
}
use tp_so.Shell.Chars.{
  trim_right-EndsWell, trim_left-StartsWell, find_bar-none, find_bar-first, Blanks-plain,
  take-append, drop-append, nonempty, ampersand-last, without_last-append, no_ampersand,
  EndsWell-append, EndsWell-nonempty, first_token-name, strcpy-all,
}

module _ {S : Type 0} (os : Os S) where
  -- What the code runs for a line.
  runs_by : Line → Shell × S → Shell × S
  runs_by (foreground c) st = run_foreground os c st
  runs_by (background c bs) st = run_background os c st
  runs_by (piped a bs cs b) st = run_pair os a b st

  shell_dispatch-run :
      (l : Line) → IsMeant l → (st : Shell × S) → shell_dispatch os (text l) st ≡ runs_by l st
  unfolding text runs_by shell_dispatch dispatch_rest run_piped
  shell_dispatch-run (foreground c) p st =
      rw (EndsWell-nonempty c p.ends, no_ampersand c p.ends, find_bar-none c p.plain)
  shell_dispatch-run (background c bs) (p, h) st = rw (
    nonempty (c ++ bs) b'&' [],
    ampersand-last (c ++ bs),
    without_last-append (c ++ bs),
    trim_right-EndsWell c bs p.ends h,
    EndsWell-nonempty c p.ends,
    find_bar-none c p.plain,
  )
  shell_dispatch-run (piped a bs cs b) ((p, h), (k, q)) st = rw (
    nonempty (a ++ bs) b'|' (cs ++ b),
    no_ampersand _ (EndsWell-append (a ++ bs) _ (EndsWell-append (b'|' ∷ cs) b q.ends)),
    find_bar-first (a ++ bs) (cs ++ b) (All-append _ a bs p.plain (Blanks-plain bs h)),
    take-append (a ++ bs) (b'|' ∷ (cs ++ b)),
    drop-append (a ++ bs) b'|' (cs ++ b),
    trim_right-EndsWell a bs p.ends h,
    trim_left-StartsWell cs b k q.starts,
  )

  awaits_lem : (z : ℤ) (s : S) → wait_if_started os z s ≡ awaits os z s
  unfolding wait_if_started awaits
  awaits_lem (pos zero) s = refl
  awaits_lem (pos (suc n)) s = refl
  awaits_lem (negsuc n) s = refl

  foreground_meant :
      (c : List ℕ)
      → IsCommand c
      → (st : Shell × S) → run_foreground os c st ≡ runs os (foreground c) st
  unfolding run_foreground wait_foreground runs
  foreground_meant c p (sh, s) =
      let started = os.create_process fg_proc_entry (name_of c) (pos 2) (pos 1) s in
      ap₂
        (λ cmd name.
          let p = os.create_process fg_proc_entry name (pos 2) (pos 1) s in
          (record sh { fg_cmd = cmd }, wait_foreground os p.0 p.1))
        (strcpy-all c p.short) (first_token-name c p.starts)
      ∙ ap (λ x. (record sh { fg_cmd = c }, x)) (waited started.0 started.1)
    where
      waited :
          (z : ℤ) (s : S)
          → wait_foreground os z s
            ≡ elim z [ pos n ↦ os.waitpid n s | negsuc n ↦ os.println no_process s ]
      waited (pos n) s = refl
      waited (negsuc n) s = refl

  background_meant :
      (c bs : List ℕ)
      → IsCommand c
      → (st : Shell × S) → run_background os c st ≡ runs os (background c bs) st
  unfolding run_background announce runs
  background_meant c bs p (sh, s) =
      let started = os.create_process bg_proc_entry (name_of c) (pos 2) (pos 0) s in
      ap₂
        (λ cmd name.
          let p = os.create_process bg_proc_entry name (pos 2) (pos 0) s in
          (record sh { bg_cmd = cmd }, announce os p.0 p.1))
        (strcpy-all c p.short) (first_token-name c p.starts)
      ∙ ap (λ x. (record sh { bg_cmd = c }, x)) (announced started.0 started.1)
    where
      announced :
          (z : ℤ) (s : S)
          → announce os z s ≡ elim z [
            | pos n ↦
                os.write (b']' ∷ 10 ∷ []) (os.write (uint_to_base n 10).1 (os.write (b'[' ∷ []) s))
            | negsuc n ↦ os.println no_background s
          ]
      announced (pos n) s = refl
      announced (negsuc n) s = refl

  -- Both sides of a pipe, once it is asked for.
  both_meant :
      (a b : List ℕ)
      → IsCommand a
      → IsCommand b
      → (z : ℤ) (sh : Shell) (s : S)
      → start_both os a b z (sh, s) ≡ elim z [
        | pos id ↦
            let x = os.create_process pipe_proc_a (name_of a) (pos 2) (pos 1) s in
            let y = os.create_process pipe_proc_b (name_of b) (pos 2) (pos 1) x.1 in
            (
              record sh {
                pipe_ctx_a = record { cmd = a; pipe_id = pos id };
                pipe_ctx_b = record { cmd = b; pipe_id = pos id };
              },
              awaits os y.0 (awaits os x.0 y.1),
            )
        | negsuc n ↦ (sh, os.println no_pipe s)
      ]
  unfolding start_both
  both_meant a b p q (negsuc n) sh s = refl
  both_meant a b p q (pos id) sh s =
      let x = os.create_process pipe_proc_a (name_of a) (pos 2) (pos 1) s in
      let y = os.create_process pipe_proc_b (name_of b) (pos 2) (pos 1) x.1 in
      rw
        (
          strcpy-all a p.short,
          strcpy-all b q.short,
          first_token-name a p.starts,
          first_token-name b q.starts,
          awaits_lem x.0 y.1,
        )
        (ap
          (λ t. (
            record sh {
              pipe_ctx_a = record { cmd = a; pipe_id = pos id };
              pipe_ctx_b = record { cmd = b; pipe_id = pos id };
            },
            t,
          ))
          (awaits_lem y.0 (awaits os x.0 y.1)))

  pipe_meant :
      (a bs cs b : List ℕ)
      → IsCommand a
      → IsCommand b
      → (st : Shell × S) → run_pair os a b st ≡ runs os (piped a bs cs b) st
  unfolding run_pair runs
  pipe_meant a bs cs b p q (sh, s) =
      rw (EndsWell-nonempty a p.ends, EndsWell-nonempty b q.ends)
        (both_meant a b p q (os.pipe_create s).0 sh (os.pipe_create s).1)

  run-meant : (l : Line) → IsMeant l → (st : Shell × S) → runs_by l st ≡ runs os l st
  unfolding runs_by
  run-meant (foreground c) p st = foreground_meant c p st
  run-meant (background c bs) (p, h) st = background_meant c bs p st
  run-meant (piped a bs cs b) ((p, h), (k, q)) st = pipe_meant a bs cs b p q st

  runs-carried :
      (l : Line) (sh : Shell) (s : S) → Carries l (os.pipe_create s).0 (runs os l (sh, s)).0
  unfolding runs Carries proc_steps
  runs-carried (foreground c) sh s = refl
  runs-carried (background c bs) sh s = refl
  runs-carried (piped a bs cs b) sh s = λ id e. rw (runs, e) (refl, refl)

  -- A line that holds `command`, `command &` or `command | command`, with any blanks before the `&` and
  -- around the `|`, and commands of at most 255 characters: the shell creates the processes that are
  -- meant, in order, with the first words as names, waits for those that are not in the background, and
  -- for no others, and reports what could not be created. What the processes find to do is the command
  -- with exactly its characters, and in a pipe, where it was created, its two ends.
  pub shell_dispatch-text :
      (l : Line)
      → IsMeant l
      → (sh : Shell) (s : S)
      → (shell_dispatch os (text l) (sh, s) ≡ runs os l (sh, s))
        × Carries l (os.pipe_create s).0 (shell_dispatch os (text l) (sh, s)).0
  shell_dispatch-text l h sh s =
      let same = shell_dispatch-run l h (sh, s) ∙ run-meant l h (sh, s) in
      (
        same,
        subst (λ (r : Shell × S). Carries l (os.pipe_create s).0 r.0) (sym same)
            (runs-carried l sh s),
      )
