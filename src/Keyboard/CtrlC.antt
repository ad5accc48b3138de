-- ===== src/Keyboard/CtrlC.antt =====
-- Ctrl+C held down: the keyboard repeats the scan code, and the handler answers once.
use tp_so.Prelude.{
  ℕ, zero, suc, ◌%◌, ◌≡◌, refl, sym, ap, ◌∙◌, subst, Option, Bool, true, false, ◌||◌, ◌==◌, arith,
  if_elim,
}
use tp_so.Memory.{Manager}
use tp_so.Keyboard.{
  Keyboard, Terminal, keyboard_pressed, add_key_to_buffer, type_key, ctrl_c, push_event,
  drop_oldest, translate, is_lower, is_upper,
}
use tp_so.Process.{kill_foreground_process}

-- Ctrl is down, and the last byte was no prefix.
pub record IsCtrl (b : Keyboard) : Type 0 where
  pub ctrl : b.ctrl_pressed ≡ true
  pub plain : b.e0_prefix ≡ false

-- The code 0x2E is a letter C under any state of Shift and CapsLock.
translate-c :
    (shift caps : Bool)
    → let ch = translate shift caps 0x2E in
      ((is_lower ch || is_upper ch) ≡ true) × ((ch % 32 == 3) ≡ true)
unfolding translate
translate-c true true = (refl, refl)
translate-c true false = (refl, refl)
translate-c false true = (refl, refl)
translate-c false false = (refl, refl)

module _ {M : Type 0} (mm : Manager M) where
  type_key-ctrl_c :
      (s : Terminal M) → s.keyboard.ctrl_pressed ≡ true → type_key mm 0x2E s ≡ ctrl_c mm 0x2E s
  unfolding type_key
  type_key-ctrl_c s c =
      let t = translate-c s.keyboard.shift_pressed s.keyboard.caps_lock in rw (c, t.0, t.1) refl

  keyboard_pressed-ctrl_c :
      (registers : Option (ℕ → ℕ)) (s : Terminal M)
      → IsCtrl s.keyboard
      → keyboard_pressed mm 0x2E registers s ≡ ctrl_c mm 0x2E s
  unfolding keyboard_pressed add_key_to_buffer
  keyboard_pressed-ctrl_c registers s h =
      if_elim (λ t. t ≡ ctrl_c mm 0x2E s) s.keyboard.e0_prefix
        (λ e. let c : true ≡ false = sym e ∙ h.plain in cc) (λ _. type_key-ctrl_c s h.ctrl)

  ctrl_c-latched : (s : Terminal M) → s.keyboard.ctrl_c_latch ≡ true → ctrl_c mm 0x2E s ≡ s
  unfolding ctrl_c
  ctrl_c-latched s h = rw h refl

  Latched : Terminal M → Type 0
  Latched s = IsCtrl s.keyboard × (s.keyboard.ctrl_c_latch ≡ true)

  ctrl_c-Latched : (s : Terminal M) → IsCtrl s.keyboard → Latched (ctrl_c mm 0x2E s)
  unfolding ctrl_c push_event drop_oldest Latched
  ctrl_c-Latched s h =
      if_elim Latched s.keyboard.ctrl_c_latch (λ e. (h, e))
        (λ _.
          if_elim Latched ((kill_foreground_process mm s.kernel).0 == 0)
            (λ _. (
              record { ctrl = ground (arith, h.ctrl); plain = ground (arith, h.plain) },
              ground arith,
            ))
            (λ _. (record { ctrl = h.ctrl; plain = h.plain }, refl)))

  -- The scan code of C, `n` times more.
  pub repeats : ℕ → Option (ℕ → ℕ) → Terminal M → Terminal M
  repeats zero registers s = s
  repeats (suc n) registers s = repeats n registers (keyboard_pressed mm 0x2E registers s)

  repeats-Latched :
      (n : ℕ) (registers : Option (ℕ → ℕ)) (s : Terminal M) → Latched s → repeats n registers s ≡ s
  unfolding repeats Latched
  repeats-Latched zero registers s h = refl
  repeats-Latched (suc n) registers s h =
      ap (repeats n registers) (keyboard_pressed-ctrl_c registers s h.0 ∙ ctrl_c-latched s h.1)
      ∙ repeats-Latched n registers s h

  -- While Ctrl is down, the scan code of C repeated any number of times leaves what its first
  -- occurrence leaves: processes are killed once, and one cancel event at most is put into the buffer.
  pub repeats-keyboard_pressed :
      (n : ℕ) (registers : Option (ℕ → ℕ)) (s : Terminal M)
      → IsCtrl s.keyboard
      → repeats n registers (keyboard_pressed mm 0x2E registers s)
        ≡ keyboard_pressed mm 0x2E registers s
  repeats-keyboard_pressed n registers s h =
      repeats-Latched n registers _
        (subst Latched (sym (keyboard_pressed-ctrl_c registers s h)) (ctrl_c-Latched s h))
