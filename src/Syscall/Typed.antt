-- ===== src/Syscall/Typed.antt =====
-- The line that a user types, with backspaces, is what syscall_read puts in the buffer.
use tp_so.Prelude.{
  ℕ, ◌+◌, ◌<◌, ◌≡◌, refl, sym, ap, ◌∙◌, subst, true, ◌==◌, List, [], ◌∷◌, ◌++◌, length, All, arith,
  if◌then◌else◌,
}
use tp_so.Keyboard.{
  print_char, show, KeyEvent, Keyboard, Terminal, on_keyboard, has_next_key, get_next_key,
  push_event, clear_keyboard_buffer, pressed,
}
use tp_so.Keyboard.Ring.{
  newest, newest_short, length-events, IsRing, events, push_event-newest, get_next_key-events,
}
use tp_so.Syscall.Console.{
  after_turn, goes_on, enters, Console, typing, entered, put, console_key, console_turn,
  console_loop, read_console,
}
use tp_so.Syscall.Edited.{
  load, load-above, IsKey, edit_key, edit, length-edit_key, Holds, console_key-Edited,
}

-- Nothing is in the buffer.
pub record IsIdle (b : Keyboard) : Type 0 where
  pub ring : IsRing b
  pub empty : events b ≡ []

-- One key in an empty buffer, and what is read from it.
one_key :
    (ev : KeyEvent) (b : Keyboard)
    → IsIdle b
    → let r = get_next_key (push_event ev b) in
      (has_next_key (push_event ev b) ≡ true) × (r.0 ≡ ev) × IsIdle r.1
unfolding has_next_key
one_key ev b v =
    let p = push_event-newest ev b (v.ring) in
    let held : events (push_event ev b) ≡ ev ∷ [] =
      p.0 ∙ ap (λ es. newest (es ++ (ev ∷ []))) (v.empty) ∙ newest_short (ev ∷ []) (omega arith) in
    let one : (push_event ev b).count ≡ 1 =
      sym (length-events (push_event ev b)) ∙ ap length held in
    let g = get_next_key-events (push_event ev b) ev [] p.1 held in
    (rw one refl, g.0, record { ring = g.2; empty = g.1 })

cleared-IsIdle : (b : Keyboard) → IsIdle (clear_keyboard_buffer b)
unfolding clear_keyboard_buffer events
cleared-IsIdle b = record {
  ring = record { next_in = omega arith; count_in = omega arith; last_at = omega arith };
  empty = refl;
}

module _ {M : Type 0} where
  -- One key arrives by an interrupt, and the loop has a turn for it.
  key_comes : ℕ → Terminal M → Terminal M
  key_comes key s = on_keyboard (push_event (pressed 0 key)) s

  turn-idle :
      (buf size : ℕ) (s : Terminal M) → IsIdle s.keyboard → console_turn buf size s ≡ goes_on size s
  unfolding console_turn has_next_key
  turn-idle buf size s v =
      let none_there : s.keyboard.count ≡ 0 =
        sym (length-events s.keyboard) ∙ ap length (v.empty) in
      rw none_there refl

  -- The turn that takes the key.
  turn-key :
      (buf size key : ℕ) (s : Terminal M)
      → IsIdle s.keyboard
      → (b : Keyboard) × (console_turn buf size (key_comes key s)
          ≡ console_key buf size key (record s { keyboard = b }))
        × IsIdle b
  unfolding console_turn key_comes
  turn-key buf size key s v =
      let g = one_key (pressed 0 key) s.keyboard v in
      let b = (get_next_key (push_event (pressed 0 key) s.keyboard)).1 in
      let t = record s { keyboard = b } in
      (
        b,
        rw g.0 (
            subst
              (λ (e : KeyEvent).
                (if e.is_pressed then console_key buf size e.key t else goes_on size t)
                ≡ console_key buf size key t)
              (sym g.1) refl),
        g.2,
      )

  -- Each key comes while the loop waits, and the loop has a turn for it before the next; the last one
  -- is Enter.
  pub arrive : List ℕ → List (Terminal M → Terminal M)
  arrive [] = key_comes 10 ∷ []
  arrive (k ∷ keys) = key_comes k ∷ (λ s. s) ∷ arrive keys

  -- The call returned the length of the line, or 1, with the line and a terminator in the buffer.
  pub record Entered (buf : ℕ) (line : List ℕ) (r : Console M) : Type 0 where
    pub state : Terminal M
    pub result : r ≡ entered (if length line == 0 then 1 else length line) state
    pub text : load (length line) buf state.kernel.bytes ≡ line
    pub ended : state.kernel.bytes (buf + length line) ≡ 0

  loop-goes_on :
      (buf size n : ℕ) (e : Terminal M → Terminal M) (es : List (Terminal M → Terminal M))
      (s t : Terminal M)
      → console_turn buf size s ≡ goes_on n t
      → console_loop buf (e ∷ es) size s ≡ console_loop buf es n (e t)
  unfolding console_loop after_turn
  loop-goes_on buf size n e es s t h = ap (after_turn (λ m u. console_loop buf es m (e u))) h

  loop-enters :
      (buf size v : ℕ) (s t : Terminal M)
      → console_turn buf size s ≡ enters v t
      → console_loop buf [] size s ≡ entered v t
  unfolding console_loop after_turn
  loop-enters buf size v s t h = ap (after_turn (λ m u. typing u)) h

  enter-Entered :
      (buf size : ℕ) (line : List ℕ) (s : Terminal M)
      → IsIdle s.keyboard
      → Holds buf size line s
      → Entered buf line (console_loop buf (arrive []) size s)
  unfolding arrive
  enter-Entered buf size line s v h =
      let g = turn-key buf size 10 s v in
      let t = record s { keyboard = g.0 } in
      let done = put (buf + size) 0 (show (print_char 10) t) in
      subst (Entered buf line)
        (sym (
          loop-goes_on buf size size (key_comes 10) [] s s (turn-idle buf size s v)
          ∙ loop-enters buf size (if size == 0 then 1 else size) (key_comes 10 s) done
              (g.1 ∙ unfold console_key in refl)))
        (record {
          state = done;
          result = ap (λ n. entered (if n == 0 then 1 else n) done) (sym (h.length_is));
          text =
              ap (λ n. load n buf done.kernel.bytes) (h.length_is)
              ∙ load-above size buf (buf + size) 0 s.kernel.bytes (omega arith)
              ∙ h.text;
          ended = ap (λ n. done.kernel.bytes (buf + n)) (h.length_is) ∙ ground arith;
        })

  console_loop-Entered :
      (keys : List ℕ) (buf size : ℕ) (line : List ℕ) (s : Terminal M)
      → IsIdle s.keyboard
      → Holds buf size line s
      → All IsKey keys
      → size + length keys < 256
      → Entered buf (edit line keys) (console_loop buf (arrive keys) size s)
  unfolding arrive edit
  console_loop-Entered [] buf size line s v h a l = enter-Entered buf size line s v h
  console_loop-Entered (k ∷ keys) buf size line s v h a l =
      let g = turn-key buf size k s v in
      let t = record s { keyboard = g.0 } in
      let e =
        console_key-Edited buf size k line t a.0 (record { text = h.text; length_is = h.length_is })
          (omega arith) in
      subst (Entered buf (edit (edit_key k line) keys))
        (sym (
          loop-goes_on buf size size (key_comes k) ((λ x. x) ∷ arrive keys) s s
            (turn-idle buf size s v)
          ∙ loop-goes_on buf size e.size (λ x. x) (arrive keys) (key_comes k s) e.state
              (g.1 ∙ e.result)))
        (console_loop-Entered keys buf e.size (edit_key k line) e.state
          (subst IsIdle (sym (e.same_keyboard)) g.2) (e.holds) a.1
          (omega (arith, length-edit_key k line, e.holds.length_is, h.length_is)))

  -- A line of at most 255 keys, characters and backspaces, that is typed and ended with Enter, each key coming
  -- while the call waits and after it has dealt with the one before, is read as edited:
  -- whatever the keyboard held before, the call returns the length of the edited line, or 1 if it is empty, and the buffer holds the line with its terminator.
  pub read_console-Entered :
      (keys : List ℕ) (registers : ℕ → ℕ) (s : Terminal M)
      → All IsKey keys
      → length keys < 256
      → Entered (registers 13) (edit [] keys) (read_console (arrive keys) registers s)
  unfolding read_console
  read_console-Entered keys registers s a l =
      console_loop-Entered keys (registers 13) 0 [] (on_keyboard clear_keyboard_buffer s)
        (cleared-IsIdle s.keyboard) (record { text = unfold load in refl; length_is = refl }) a
        (omega arith)
