-- ===== src/Keyboard/Safety.antt =====
-- The buffer's invariant under everything that the keyboard driver does.
use tp_so.Prelude.{
  ℕ, ◌%◌, ◌≡◌, refl, Option, none, some, false, not, ◌&&◌, ◌||◌, leb, ◌==◌, arith, if_elim, is_some,
  on_some, if◌then◌else◌,
}
use tp_so.Memory.{Manager}
use tp_so.Keyboard.{
  KeyEvent, Keyboard, Terminal, keyboard_pressed, add_key_to_buffer, extended_key, type_key, ctrl_c,
  push_event, get_next_key, clear_keyboard_buffer, update_regs, arrow_key, translate, pressed,
  is_lower, is_upper, on_keyboard,
}
use tp_so.Keyboard.Ring.{IsRing, push_event-newest, get_next_key-IsRing}
use tp_so.Process.{kill_foreground_process}

-- What happens to the keyboard: an interrupt with a scan code, a read, or a reset.
pub data Use : Type 0 where
  presses : ℕ → Option (ℕ → ℕ) → Use
  reads : Use
  clears : Use

module _ {M : Type 0} (mm : Manager M) where
  record Good (s : Terminal M) : Type 0 where
    ring : IsRing s.keyboard

  -- The positions alone matter.
  same_ring :
      (s t : Terminal M)
      → t.keyboard.nextkey ≡ s.keyboard.nextkey
      → t.keyboard.count ≡ s.keyboard.count
      → t.keyboard.lastkey ≡ s.keyboard.lastkey
      → Good s
      → Good t
  same_ring s t e f g v = record {
    ring = record {
      next_in = omega (arith, v.ring.next_in);
      count_in = omega (arith, v.ring.count_in);
      last_at = omega (arith, v.ring.last_at);
    };
  }

  pushed : (ev : KeyEvent) (s : Terminal M) → Good s → Good (on_keyboard (push_event ev) s)
  pushed ev s v = record { ring = (push_event-newest ev s.keyboard v.ring).1 }

  unfoldable pub run_use : Use → Terminal M → Terminal M
  run_use (presses sc registers) s = keyboard_pressed mm sc registers s
  run_use reads s = record s { keyboard = (get_next_key s.keyboard).1 }
  run_use clears s = record s { keyboard = clear_keyboard_buffer s.keyboard }

  ctrl_c-IsRing : (sc : ℕ) (s : Terminal M) → Good s → Good (ctrl_c mm sc s)
  unfolding ctrl_c
  ctrl_c-IsRing sc s v =
      if_elim Good s.keyboard.ctrl_c_latch (λ _. v)
        (λ _.
          if_elim Good ((kill_foreground_process mm s.kernel).0 == 0)
            (λ _. pushed (pressed sc 3) _ (same_ring s _ refl refl refl v))
            (λ _. same_ring s _ refl refl refl v))

  type_key-IsRing : (sc : ℕ) (s : Terminal M) → Good s → Good (type_key mm sc s)
  unfolding type_key
  type_key-IsRing sc s v =
      let ch = translate s.keyboard.shift_pressed s.keyboard.caps_lock sc in
      let typed = if s.keyboard.ctrl_pressed then ch % 32 else ch in
      if_elim Good (s.keyboard.ctrl_pressed && not (is_lower ch || is_upper ch)) (λ _. v)
        (λ _.
          if_elim Good (s.keyboard.ctrl_pressed && ch % 32 == 3) (λ _. ctrl_c-IsRing sc s v)
            (λ _. if_elim Good (typed == 0) (λ _. v) (λ _. pushed (pressed sc typed) s v)))

  add_key-IsRing :
      (sc : ℕ) (registers : Option (ℕ → ℕ)) (s : Terminal M)
      → Good s
      → Good (add_key_to_buffer mm sc registers s)
  unfolding add_key_to_buffer update_regs
  add_key-IsRing sc registers s v =
      let kept : (b : Keyboard)
          → b.nextkey ≡ s.keyboard.nextkey
          → b.count ≡ s.keyboard.count
          → b.lastkey ≡ s.keyboard.lastkey
          → Good (on_keyboard (λ _. b) s) =
        λ b e f g. same_ring s (on_keyboard (λ _. b) s) e f g v in
      if_elim Good (sc == 0x1D) (λ _. kept _ refl refl refl)
        (λ _.
          if_elim Good (sc == 0x9D) (λ _. kept _ refl refl refl)
            (λ _.
              if_elim Good (sc == 0x2A || sc == 0x36) (λ _. kept _ refl refl refl)
                (λ _.
                  if_elim Good (sc == 0xAA || sc == 0xB6) (λ _. kept _ refl refl refl)
                    (λ _.
                      if_elim Good (sc == 0x3A) (λ _. kept _ refl refl refl)
                        (λ _.
                          if_elim Good
                            (sc == 0x0F && (s.keyboard.shift_pressed && is_some registers))
                            (λ _. saved registers)
                            (λ _.
                              if_elim Good (leb 0x80 sc)
                                (λ _.
                                  if_elim Good (sc == 0xAE) (λ _. kept _ refl refl refl) (λ _. v))
                                (λ _. type_key-IsRing sc s v)))))))
    where
      saved : (o : Option (ℕ → ℕ)) → Good (on_keyboard (λ b. on_some o (λ r. update_regs r b) b) s)
      saved none = v
      saved (some r) = same_ring s _ refl refl refl v

  extended_key-IsRing : (sc : ℕ) (s : Terminal M) → Good s → Good (extended_key sc s)
  unfolding extended_key
  extended_key-IsRing sc s v =
      let code = sc % 0x80 in
      let s1 = on_keyboard (λ b. record b { e0_prefix = false }) s in
      if_elim Good (code == 0x1D) (λ _. same_ring s _ refl refl refl v)
        (λ _.
          if_elim Good (not (leb 0x80 sc) && not (arrow_key code == 0))
            (λ _. pushed (pressed sc (arrow_key code)) s1 (same_ring s s1 refl refl refl v))
            (λ _. same_ring s s1 refl refl refl v))

  keyboard_pressed-IsRing :
      (sc : ℕ) (registers : Option (ℕ → ℕ)) (s : Terminal M)
      → Good s
      → Good (keyboard_pressed mm sc registers s)
  unfolding keyboard_pressed
  keyboard_pressed-IsRing sc registers s v =
      if_elim Good (sc == 0xE0) (λ _. same_ring s _ refl refl refl v)
        (λ _.
          if_elim Good s.keyboard.e0_prefix (λ _. extended_key-IsRing sc s v)
            (λ _. add_key-IsRing sc registers s v))

  -- Every interrupt of the keyboard, with any scan code, every read and every reset keep the buffer
  -- valid: at most 32 events, its positions inside the array, and the write position behind the
  -- last event.
  pub run_use-IsRing :
      (u : Use) (s : Terminal M) → IsRing s.keyboard → IsRing (run_use u s).keyboard
  unfolding run_use clear_keyboard_buffer
  run_use-IsRing (presses sc registers) s v =
      (keyboard_pressed-IsRing sc registers s (record { ring = v })).ring
  run_use-IsRing reads s v = get_next_key-IsRing s.keyboard v
  run_use-IsRing clears s v = record {
    next_in = omega arith;
    count_in = omega arith;
    last_at = omega arith;
  }
