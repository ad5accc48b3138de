-- ===== src/Command/Words.antt =====
-- What `simple_tokenize` makes of a line.
use tp_so.Prelude.{
  ℕ, zero, suc, ◌≤◌, ◌<◌, ◌≡◌, refl, ap, ap₂, ◌∙◌, Option, some, none, false, List, [], ◌∷◌, ◌++◌,
  length, drop, All, arith, if_elim,
}
use tp_so.Command.{
  cr_maxargs, is_space, skip_spaces, word, after_word, words, simple_tokenize, first_word,
  cr_first_token,
}

-- A word is not empty, and has no separator in it.
pub record IsWord (w : List ℕ) : Type 0 where
  pub some_letter : 0 < length w
  pub letters : All (λ c. is_space c ≡ false) w

-- No separator stands at the start.
abbrev pub Starts : List ℕ → Type 0
Starts [] = Unit {0}
Starts (c ∷ p) = is_space c ≡ false

skip_spaces-Starts : (p : List ℕ) → Starts (skip_spaces p)
unfolding skip_spaces
skip_spaces-Starts [] = tt
skip_spaces-Starts (c ∷ p) = if_elim Starts (is_space c) (λ _. skip_spaces-Starts p) (λ f. f)

word-All : (p : List ℕ) → All (λ c. is_space c ≡ false) (word p)
unfolding word
word-All [] = tt
word-All (c ∷ p) =
    if_elim (All (λ d. is_space d ≡ false)) (is_space c) (λ _. tt) (λ f. (f, word-All p))

word-IsWord : (c : ℕ) (p : List ℕ) → is_space c ≡ false → IsWord (word (c ∷ p))
word-IsWord c p h = record {
  some_letter = unfold word in rw h (omega arith);
  letters = word-All (c ∷ p);
}

words-IsWord :
    (room : ℕ) (p : List ℕ) → Starts p → All IsWord (words room p) × (length (words room p) ≤ room)
unfolding words
words-IsWord zero p h = (tt, omega arith)
words-IsWord (suc room) [] h = (tt, omega arith)
words-IsWord (suc room) (c ∷ p) h =
    let next = skip_spaces (drop 1 (after_word (c ∷ p))) in
    let rest = words-IsWord room next (skip_spaces-Starts (drop 1 (after_word (c ∷ p)))) in
    ((word-IsWord c p h, rest.0), omega (arith, rest.1))

-- The words of any line are not empty, have no separators in them, and are fewer than CR_MAXARGS, so that
-- NULL fits behind them.
simple_tokenize-IsWord :
    (line : List ℕ)
    → All IsWord (simple_tokenize line cr_maxargs)
      × (length (simple_tokenize line cr_maxargs) < cr_maxargs)
unfolding simple_tokenize
simple_tokenize-IsWord line =
    let all = words-IsWord 31 (skip_spaces line) (skip_spaces-Starts line) in
    (all.0, omega (arith, all.1))

-- The words with a space behind each.
pub unwords : List (List ℕ) → List ℕ
unwords [] = []
unwords (w ∷ ws) = w ++ (32 ∷ unwords ws)

word-append : (w r : List ℕ) → All (λ c. is_space c ≡ false) w → word (w ++ (32 ∷ r)) ≡ w
unfolding word
word-append [] r h = refl
word-append (c ∷ w) r h = rw (h.0, word) (ap (λ x. c ∷ x) (word-append w r h.1))

after_word-append :
    (w r : List ℕ) → All (λ c. is_space c ≡ false) w → after_word (w ++ (32 ∷ r)) ≡ 32 ∷ r
unfolding after_word
after_word-append [] r h = refl
after_word-append (c ∷ w) r h = rw (h.0, after_word) (after_word-append w r h.1)

skip_spaces-word : (w r : List ℕ) → IsWord w → skip_spaces (w ++ r) ≡ w ++ r
unfolding skip_spaces
skip_spaces-word [] r v = absurd (omega (arith, v.some_letter))
skip_spaces-word (c ∷ w) r v = rw (v.letters.0, skip_spaces) refl

skip_spaces-unwords : (ws : List (List ℕ)) → All IsWord ws → skip_spaces (unwords ws) ≡ unwords ws
unfolding unwords skip_spaces
skip_spaces-unwords [] h = refl
skip_spaces-unwords (w ∷ ws) h = skip_spaces-word w (32 ∷ unwords ws) h.0

-- One round of the loop.
words-append :
    (room : ℕ) (w r : List ℕ)
    → IsWord w
    → words (suc room) (w ++ (32 ∷ r)) ≡ w ∷ words room (skip_spaces r)
unfolding words
words-append room [] r v = absurd (omega (arith, v.some_letter))
words-append room (c ∷ w) r v =
    ap₂ (λ x p. x ∷ words room (skip_spaces (drop 1 p))) (word-append (c ∷ w) r (v.letters))
      (after_word-append (c ∷ w) r (v.letters))

words-unwords :
    (room : ℕ) (ws : List (List ℕ))
    → All IsWord ws
    → length ws ≤ room
    → words room (unwords ws) ≡ ws
unfolding unwords
words-unwords room [] h l = nothing room
  where
    nothing : (n : ℕ) → words n [] ≡ []
    nothing zero = unfold words in refl
    nothing (suc n) = unfold words in refl
words-unwords zero (w ∷ ws) h l = absurd (omega arith)
words-unwords (suc room) (w ∷ ws) h l =
    words-append room w (unwords ws) h.0
    ∙ ap (λ p. w ∷ words room p) (skip_spaces-unwords ws h.1)
    ∙ ap (λ r. w ∷ r) (words-unwords room ws h.1 (omega arith))

-- A line that is made of at most 31 words, each with a space behind it, is split into these words.
pub simple_tokenize-unwords :
    (ws : List (List ℕ))
    → All IsWord ws
    → length ws < cr_maxargs
    → simple_tokenize (unwords ws) cr_maxargs ≡ ws
unfolding simple_tokenize
simple_tokenize-unwords ws h l =
    ap (words 31) (skip_spaces-unwords ws h) ∙ words-unwords 31 ws h (omega arith)

abbrev pub first_of : List (List ℕ) → Option (List ℕ)
first_of [] = none
first_of (w ∷ ws) = some w

first_word-words : (room : ℕ) (p : List ℕ) → first_word p ≡ first_of (words (suc room) p)
unfolding first_word words
first_word-words room [] = refl
first_word-words room (c ∷ p) = refl

-- The word by which a command is looked up is the first of its arguments.
pub cr_first_token_lem :
    (line : List ℕ) → cr_first_token line ≡ first_of (simple_tokenize line cr_maxargs)
unfolding cr_first_token simple_tokenize
cr_first_token_lem line = first_word-words 30 (skip_spaces line)
