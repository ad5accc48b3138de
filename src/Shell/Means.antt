-- ===== src/Shell/Means.antt =====
-- What a user of Userland/shell/shell.c means by a line: the processes that are to run, with their names,
-- what they do, and whether they are waited for.
use tp_so.Prelude.{
  ℕ, zero, suc, ◌<◌, ◌≡◌, ◌≢◌, ◌⊎◌, ◌||◌, ◌==◌, List, [], ◌∷◌, ◌++◌, take, length, ℤ, pos, negsuc,
  All, if◌then◌else◌,
}
use tp_so.Text.{uint_to_base}
use tp_so.Shell.{
  Shell, Os, fg_proc_entry, bg_proc_entry, pipe_proc_a, pipe_proc_b, no_process, no_background,
  no_pipe, sets_fd, dispatches, closes_pipe, exits, proc_steps,
}

-- A space or a tab, and neither.
abbrev pub IsBlank : ℕ → Type 0
IsBlank c = (c ≡ 32) ⊎ (c ≡ 9)

abbrev pub NoBlank : ℕ → Type 0
NoBlank c = (c ≢ 32) × (c ≢ 9)

abbrev pub Blanks : List ℕ → Type 0
Blanks = All IsBlank

-- A command as it is meant: it begins with no blank, ends with neither a blank nor `&`, has no `|` in it and
-- is at most as long as a line, 255 characters.
abbrev pub EndsWell : List ℕ → Type 0
EndsWell [] = ⊥
EndsWell (c ∷ []) = NoBlank c × (c ≢ 38)
EndsWell (c ∷ d ∷ s) = EndsWell (d ∷ s)

abbrev pub StartsWell : List ℕ → Type 0
StartsWell [] = ⊥
StartsWell (c ∷ s) = NoBlank c

pub record IsCommand (s : List ℕ) : Type 0 where
  pub starts : StartsWell s
  pub ends : EndsWell s
  pub plain : All (λ c. c ≢ 124) s
  pub short : length s < 256

-- A line as a user means it, with the blanks that stand in it.
pub data Line : Type 0 where
  foreground : List ℕ → Line
  background : List ℕ → List ℕ → Line
  piped : List ℕ → List ℕ → List ℕ → List ℕ → Line

abbrev pub IsMeant : Line → Type 0
IsMeant (foreground c) = IsCommand c
IsMeant (background c bs) = IsCommand c × Blanks bs
IsMeant (piped a bs cs b) = (IsCommand a × Blanks bs) × (Blanks cs × IsCommand b)

-- What is typed for it.
unfoldable pub text : Line → List ℕ
text (foreground c) = c
text (background c bs) = (c ++ bs) ++ (b'&' ∷ [])
text (piped a bs cs b) = (a ++ bs) ++ (b'|' ∷ (cs ++ b))

-- A process has the first word of its command as its name, 31 characters at most.
unfoldable pub word_of : List ℕ → List ℕ
word_of [] = []
word_of (c ∷ s) = let rest = word_of s in if c == b' ' || c == 9 then [] else c ∷ rest

abbrev pub name_of : List ℕ → List ℕ
name_of c = take 31 (word_of c)

-- Whatever the processes are to do is in the shell's variables when they are created: the whole command,
-- and for the sides of a pipe its number.
unfoldable pub Carries : Line → ℤ → Shell → Type 0
Carries (foreground c) z sh = proc_steps fg_proc_entry sh ≡ dispatches c ∷ exits ∷ []
Carries (background c bs) z sh = proc_steps bg_proc_entry sh ≡ dispatches c ∷ exits ∷ []
Carries (piped a bs cs b) z sh =
    (id : ℕ)
    → z ≡ pos id
    → (proc_steps pipe_proc_a sh
        ≡ sets_fd (pos 1) (pos id) ∷ dispatches a ∷ closes_pipe (pos id) (pos 1) ∷ exits ∷ [])
      × (proc_steps pipe_proc_b sh
          ≡ sets_fd (pos 0) (pos id) ∷ dispatches b ∷ closes_pipe (pos id) (pos 0) ∷ exits ∷ [])

module _ {S : Type 0} (os : Os S) where
  -- Only a process with a number above 0 is waited for.
  unfoldable pub awaits : ℤ → S → S
  awaits (pos zero) s = s
  awaits (pos (suc n)) s = os.waitpid (suc n) s
  awaits (negsuc n) s = s

  -- A command in the foreground is waited for, one in the background is announced by its number, and of
  -- a pipe both sides are waited for, the first one first.
  unfoldable pub runs : Line → Shell × S → Shell × S
  runs (foreground c) (sh, s) =
      let p = os.create_process fg_proc_entry (name_of c) (pos 2) (pos 1) s in
      (
        record sh { fg_cmd = c },
        elim p.0 [ pos n ↦ os.waitpid n p.1 | negsuc n ↦ os.println no_process p.1 ],
      )
  runs (background c bs) (sh, s) =
      let p = os.create_process bg_proc_entry (name_of c) (pos 2) (pos 0) s in
      (
        record sh { bg_cmd = c },
        elim p.0 [
          | pos n ↦
              os.write (b']' ∷ 10 ∷ []) (os.write (uint_to_base n 10).1 (os.write (b'[' ∷ []) p.1))
          | negsuc n ↦ os.println no_background p.1
        ],
      )
  runs (piped a bs cs b) (sh, s) =
      let p = os.pipe_create s in
      elim p.0 [
        | pos id ↦
            let x = os.create_process pipe_proc_a (name_of a) (pos 2) (pos 1) p.1 in
            let y = os.create_process pipe_proc_b (name_of b) (pos 2) (pos 1) x.1 in
            (
              record sh {
                pipe_ctx_a = record { cmd = a; pipe_id = pos id };
                pipe_ctx_b = record { cmd = b; pipe_id = pos id };
              },
              awaits y.0 (awaits x.0 y.1),
            )
        | negsuc n ↦ (sh, os.println no_pipe p.1)
      ]
