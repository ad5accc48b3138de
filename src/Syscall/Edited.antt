-- ===== src/Syscall/Edited.antt =====
-- One key of the line that a user types: what it does to the line, and what the call does to the buffer.
use tp_so.Prelude.{
  ℕ, zero, suc, ◌+◌, ◌-◌, ◌≤◌, ◌<◌, ◌≡◌, ◌≢◌, refl, sym, ap, ap₂, ◌∙◌, subst, ltb, ◌==◌, ==_false,
  lt→ltb, List, [], ◌∷◌, ◌++◌, length, take, length-append, arith, update, inl, inr, if_elim,
  Bool-cases, if◌then◌else◌,
}
use tp_so.Keyboard.{print_char, back_space, show, Terminal}
use tp_so.Syscall.Console.{Turn, goes_on, put, console_key}

-- The first `n` bytes from an address on.
unfoldable pub load : ℕ → ℕ → (ℕ → ℕ) → List ℕ
load zero at m = []
load (suc n) at m = m at ∷ load n (at + 1) m

pub load-above : (n at i v : ℕ) (m : ℕ → ℕ) → at + n ≤ i → load n at (update m i v) ≡ load n at m
unfolding load
load-above zero at i v m h = refl
load-above (suc n) at i v m h =
    rw (==_false at i (λ e. omega arith), load)
      (ap (λ r. m at ∷ r) (load-above n (at + 1) i v m (omega arith)))

load-suc : (n at : ℕ) (m : ℕ → ℕ) → load (suc n) at m ≡ load n at m ++ (m (at + n) ∷ [])
unfolding load
load-suc zero at m = ap (λ a. m a ∷ []) (omega arith)
load-suc (suc n) at m =
    ap (λ r. m at ∷ r)
      (load-suc n (at + 1) m ∙ ap (λ a. load n (at + 1) m ++ (m a ∷ [])) (omega arith))

length-load : (n at : ℕ) (m : ℕ → ℕ) → length (load n at m) ≡ n
unfolding load
length-load zero at m = refl
length-load (suc n) at m = ap suc (length-load n (at + 1) m)

load-take : (n at : ℕ) (m : ℕ → ℕ) → load n at m ≡ take n (load (suc n) at m)
unfolding load
load-take zero at m = refl
load-take (suc n) at m = ap (λ r. m at ∷ r) (load-take n (at + 1) m)

load-put :
    (n at v : ℕ) (m : ℕ → ℕ) → load (suc n) at (update m (at + n) v) ≡ load n at m ++ (v ∷ [])
load-put n at v m =
    load-suc n at (update m (at + n) v)
    ∙ ap₂ (λ r x. r ++ (x ∷ [])) (load-above n at (at + n) v m (omega arith)) (ground arith)

-- A key of a line: a character, or a backspace.
pub record IsKey (key : ℕ) : Type 0 where
  pub no_enter : key ≢ 10
  pub no_end : key ≢ 4
  pub no_cancel : key ≢ 3
  pub some_key : key ≢ 0

-- The line after one more key, and after more keys.
unfoldable pub edit_key : ℕ → List ℕ → List ℕ
edit_key k line = if k == 8 then take (length line - 1) line else line ++ (k ∷ [])

unfoldable pub edit : List ℕ → List ℕ → List ℕ
edit line [] = line
edit line (k ∷ keys) = edit (edit_key k line) keys

length-take-less : (n : ℕ) (xs : List ℕ) → n ≤ length xs → length (take n xs) ≡ n
length-take-less zero xs h = refl
length-take-less (suc n) [] h = absurd (omega arith)
length-take-less (suc n) (x ∷ xs) h = ap suc (length-take-less n xs (omega arith))

pub length-edit_key : (k : ℕ) (line : List ℕ) → length (edit_key k line) ≤ suc (length line)
unfolding edit_key
length-edit_key k line =
    if_elim (λ (t : List ℕ). length t ≤ suc (length line)) (k == 8)
      (λ _. omega (arith, length-take-less (length line - 1) line (omega arith)))
      (λ _. omega (arith, length-append line (k ∷ [])))

module _ {M : Type 0} where
  -- The line so far is in the buffer.
  pub record Holds (buf size : ℕ) (line : List ℕ) (s : Terminal M) : Type 0 where
    pub text : load size buf s.kernel.bytes ≡ line
    pub length_is : length line ≡ size

  -- Between two keys: the loop goes on with the edited line, and the keyboard is as it was.
  pub record Edited (buf : ℕ) (line : List ℕ) (s : Terminal M) (r : Turn M) : Type 0 where
    pub size : ℕ
    pub state : Terminal M
    pub result : r ≡ goes_on size state
    pub holds : Holds buf size line state
    pub same_keyboard : state.keyboard ≡ s.keyboard

  backspaced :
      (buf n : ℕ) (line : List ℕ) (s : Terminal M)
      → Holds buf (suc n) line s
      → Edited buf (take (length line - 1) line) s (goes_on n (show back_space (put (buf + n) 0 s)))
  backspaced buf n line s h =
      let less : length line - 1 ≡ n = omega (arith, h.length_is) in
      rw less (record {
        size = n;
        state = show back_space (put (buf + n) 0 s);
        result = refl;
        holds = record {
          text =
              load-above n buf (buf + n) 0 s.kernel.bytes (omega arith)
              ∙ load-take n buf s.kernel.bytes
              ∙ ap (take n) (h.text);
          length_is = length-take-less n line (omega (arith, h.length_is));
        };
        same_keyboard = refl;
      })

  lettered :
      (buf size key : ℕ) (line : List ℕ) (s : Terminal M)
      → Holds buf size line s
      → Edited buf
          (line ++ (key ∷ []))
          s
          (goes_on (size + 1) (show (print_char key) (put (buf + size) key s)))
  lettered buf size key line s h = record {
    size = size + 1;
    state = show (print_char key) (put (buf + size) key s);
    result = refl;
    holds = record {
      text =
          ap (λ n. load n buf (update s.kernel.bytes (buf + size) key)) (omega arith)
          ∙ load-put size buf key s.kernel.bytes
          ∙ ap (λ r. r ++ (key ∷ [])) (h.text);
      length_is = omega (arith, length-append line (key ∷ []), h.length_is);
    };
    same_keyboard = refl;
  }

  console_key-back :
      (buf size : ℕ) (line : List ℕ) (s : Terminal M)
      → Holds buf size line s
      → Edited buf (take (length line - 1) line) s (console_key buf size 8 s)
  unfolding console_key
  console_key-back buf zero [] s h = record {
    size = zero;
    state = s;
    result = refl;
    holds = record { text = unfold load in refl; length_is = refl };
    same_keyboard = refl;
  }
  console_key-back buf zero (c ∷ line) s h = absurd (omega (arith, h.length_is))
  console_key-back buf (suc n) line s h =
      let less : n ≡ suc n - 1 = omega arith in
      if_elim (Edited buf (take (length line - 1) line) s) (ltb 0 (suc n))
        (λ _.
          subst
            (λ j.
              Edited buf (take (length line - 1) line) s
                (goes_on j (show back_space (put (buf + j) 0 s))))
            less (backspaced buf n line s h))
        (λ f. absurd (ground arith))

  pub console_key-Edited :
      (buf size key : ℕ) (line : List ℕ) (s : Terminal M)
      → IsKey key
      → Holds buf size line s
      → size < 255
      → Edited buf (edit_key key line) s (console_key buf size key s)
  unfolding console_key edit_key
  console_key-Edited buf size key line s v h l = elim (Bool-cases (key == 8)) [
    | inl e ↦
        let back : key ≡ 8 = ground arith in
        subst (λ k. Edited buf (edit_key k line) s (console_key buf size k s)) (sym back)
          (console_key-back buf size line s h)
    | inr e ↦
        rw
          (
            ==_false key 10 (v.no_enter),
            e,
            ==_false key 4 (v.no_end),
            ==_false key 3 (v.no_cancel),
            ==_false key 0 (v.some_key),
            lt→ltb (size + 1) 256 (omega arith),
          )
          (lettered buf size key line s h)
  ]
