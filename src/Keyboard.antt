-- ===== src/Keyboard.antt =====
-- Kernel/drivers/keyboard_handler.c: scan codes to characters, and the circular buffer of key events
-- between the interrupt and the readers.
--
-- `Terminal` is the kernel's state with the keyboard's static variables and the calls of the video
-- driver so far, first to last. A char is a byte, so that KEY_UP is 0xF1. `registers` is the array
-- that the interrupt entry saved, none for NULL.
pub mod Ring
pub mod Safety
pub mod CtrlC
use tp_so.Prelude.{
  ℕ, zero, suc, ◌+◌, ◌-◌, ◌%◌, ◌≡◌, Option, some, none, Bool, true, false, ◌&&◌, ◌||◌, not, ltb,
  leb, ◌==◌, List, [], ◌∷◌, ◌++◌, update, is_some, on_some, if◌then◌else◌,
}
use tp_so.Machine.{System}
use tp_so.Memory.{Manager}
use tp_so.Process.{kill_foreground_process}

abbrev pub buffer_max_length : ℕ
buffer_max_length = 32

abbrev pub key_up : ℕ
key_up = 0xF1

abbrev pub key_down : ℕ
key_down = 0xF2

abbrev pub key_left : ℕ
key_left = 0xF3

abbrev pub key_right : ℕ
key_right = 0xF4

pub record KeyEvent : Type 0 where
  pub scancode : ℕ
  pub key : ℕ
  pub is_pressed : Bool

-- `saved_registers` is what `getSavedRegs` points to, none before the first snapshot.
pub record Keyboard : Type 0 where
  pub e0_prefix : Bool
  pub regs_saved : Bool
  pub saved_registers : Option (ℕ → ℕ)
  pub buf : ℕ → KeyEvent
  pub lastkey : ℕ
  pub nextkey : ℕ
  pub count : ℕ
  pub caps_lock : Bool
  pub shift_pressed : Bool
  pub ctrl_pressed : Bool
  pub ctrl_c_latch : Bool

pub data ScreenCall : Type 0 where
  print_text : List ℕ → ScreenCall
  print_char : ℕ → ScreenCall
  back_space : ScreenCall

pub record Terminal (M : Type 0) : Type 0 where
  pub kernel : System M
  pub keyboard : Keyboard
  pub screen : List ScreenCall

-- Entry `i` of a table that is 0 from its last entry on.
abbrev pub entry : List ℕ → ℕ → ℕ
entry [] i = 0
entry (x ∷ xs) zero = x
entry (x ∷ xs) (suc i) = entry xs i

abbrev pub scancode_to_ascii : List ℕ
scancode_to_ascii =
    0 ∷ 27 ∷ 49 ∷ 50 ∷ 51 ∷ 52 ∷ 53 ∷ 54 ∷ 55 ∷ 56 ∷ 57 ∷ 48 ∷ 45 ∷ 61 ∷ 8 ∷ 9 ∷ 113 ∷ 119 ∷ 101
    ∷ 114 ∷ 116 ∷ 121 ∷ 117 ∷ 105 ∷ 111 ∷ 112 ∷ 91 ∷ 93 ∷ 10 ∷ 0 ∷ 97 ∷ 115 ∷ 100 ∷ 102 ∷ 103 ∷ 104
    ∷ 106 ∷ 107 ∷ 108 ∷ 59 ∷ 39 ∷ 96 ∷ 0 ∷ 92 ∷ 122 ∷ 120 ∷ 99 ∷ 118 ∷ 98 ∷ 110 ∷ 109 ∷ 44 ∷ 46 ∷ 47
    ∷ 0 ∷ 42 ∷ 0 ∷ 32 ∷ []

abbrev pub scancode_to_ascii_shift : List ℕ
scancode_to_ascii_shift =
    0 ∷ 27 ∷ 33 ∷ 64 ∷ 35 ∷ 36 ∷ 37 ∷ 94 ∷ 38 ∷ 42 ∷ 40 ∷ 41 ∷ 95 ∷ 43 ∷ 8 ∷ 9 ∷ 81 ∷ 87 ∷ 69 ∷ 82
    ∷ 84 ∷ 89 ∷ 85 ∷ 73 ∷ 79 ∷ 80 ∷ 123 ∷ 125 ∷ 10 ∷ 0 ∷ 65 ∷ 83 ∷ 68 ∷ 70 ∷ 71 ∷ 72 ∷ 74 ∷ 75 ∷ 76
    ∷ 58 ∷ 34 ∷ 126 ∷ 0 ∷ 124 ∷ 90 ∷ 88 ∷ 67 ∷ 86 ∷ 66 ∷ 78 ∷ 77 ∷ 60 ∷ 62 ∷ 63 ∷ 0 ∷ 42 ∷ 0 ∷ 32
    ∷ []

-- `(index + 1) % BUFFER_MAXLENGTH`
abbrev pub next_index : ℕ → ℕ
next_index i = (i + 1) % buffer_max_length

-- A full buffer loses its oldest event.
unfoldable pub drop_oldest : Keyboard → Keyboard
drop_oldest b =
    if b.count == buffer_max_length
    then record b { nextkey = next_index b.nextkey; count = b.count - 1 }
    else b

unfoldable pub push_event : KeyEvent → Keyboard → Keyboard
unfolding drop_oldest
push_event ev b =
    let c = drop_oldest b in
    record c {
      buf = update c.buf c.lastkey ev;
      lastkey = next_index c.lastkey;
      count = c.count + 1;
    }

unfoldable pub has_next_key : Keyboard → Bool
has_next_key b = not (b.count == 0)

abbrev pub no_event : KeyEvent
no_event = record { scancode = 0; key = 0; is_pressed = false }

unfoldable pub get_next_key : Keyboard → KeyEvent × Keyboard
get_next_key b =
    if b.count == 0
    then (no_event, b)
    else (b.buf b.nextkey, record b { nextkey = next_index b.nextkey; count = b.count - 1 })

unfoldable pub clear_keyboard_buffer : Keyboard → Keyboard
clear_keyboard_buffer b = record b { lastkey = 0; nextkey = 0; count = 0 }

unfoldable pub update_regs : (ℕ → ℕ) → Keyboard → Keyboard
update_regs registers b = record b { saved_registers = some registers; regs_saved = true }

abbrev pub is_lower : ℕ → Bool
is_lower c = leb b'a' c && leb c b'z'

abbrev pub is_upper : ℕ → Bool
is_upper c = leb b'A' c && leb c b'Z'

abbrev pub differ : Bool → Bool → Bool
differ true b = not b
differ false b = b

-- Letters follow Shift and CapsLock, the rest only Shift.
unfoldable pub translate : Bool → Bool → ℕ → ℕ
translate shift caps scancode =
    let base = entry scancode_to_ascii scancode in
    if is_lower base
    then (if differ shift caps then base - b'a' + b'A' else base)
    else if shift
    then entry scancode_to_ascii_shift scancode
    else base

abbrev pub pressed : ℕ → ℕ → KeyEvent
pressed scancode key = record { scancode = scancode; key = key; is_pressed = true }

-- What the code of an arrow key becomes, 0 for any other.
unfoldable pub arrow_key : ℕ → ℕ
arrow_key code =
    if code == 0x48
    then key_up
    else if code == 0x4B
    then key_down
    else if code == 0x50
    then key_left
    else if code == 0x4D
    then key_right
    else 0

module _ {M : Type 0} where
  abbrev pub on_keyboard : (Keyboard → Keyboard) → Terminal M → Terminal M
  on_keyboard f s = record s { keyboard = f s.keyboard }

  abbrev pub show : ScreenCall → Terminal M → Terminal M
  show c s = record s { screen = s.screen ++ (c ∷ []) }

  -- What follows a 0xE0: the right Ctrl key, an arrow, or nothing of use.
  unfoldable pub extended_key : ℕ → Terminal M → Terminal M
  unfolding arrow_key push_event
  extended_key sc s =
      let released = leb 0x80 sc in
      let code = sc % 0x80 in
      let out = arrow_key code in
      let s1 = on_keyboard (λ b. record b { e0_prefix = false }) s in
      if code == 0x1D
      then on_keyboard
          (λ b. record b {
            ctrl_pressed = not released;
            ctrl_c_latch = (if released then false else b.ctrl_c_latch);
          })
          s1
      else if not released && not (out == 0)
      then on_keyboard (push_event (pressed sc out)) s1
      else s1

  module _ (mm : Manager M) where
    -- Once for each press of Ctrl+C: kill the foreground processes, or put a cancel event.
    unfoldable pub ctrl_c : ℕ → Terminal M → Terminal M
    unfolding push_event
    ctrl_c scancode s =
        let s1 =
          show (print_text (b'^' ∷ b'C' ∷ 10 ∷ []))
            (on_keyboard (λ b. record b { ctrl_c_latch = true }) s) in
        let killed = kill_foreground_process mm s1.kernel in
        let s2 = record s1 { kernel = killed.1 } in
        if s.keyboard.ctrl_c_latch
        then s
        else if killed.0 == 0
        then on_keyboard (push_event (pressed scancode 3)) s2
        else s2

    -- A key that is neither a modifier nor released.
    unfoldable pub type_key : ℕ → Terminal M → Terminal M
    unfolding ctrl_c translate
    type_key scancode s =
        let ch = translate s.keyboard.shift_pressed s.keyboard.caps_lock scancode in
        let letter = is_lower ch || is_upper ch in
        let typed = if s.keyboard.ctrl_pressed then ch % 32 else ch in
        if s.keyboard.ctrl_pressed && not letter
        then s
        else if s.keyboard.ctrl_pressed && ch % 32 == 3
        then ctrl_c scancode s
        else if typed == 0
        then s
        else on_keyboard (push_event (pressed scancode typed)) s

    -- `scancode & 0x80` is set from 0x80 on.
    unfoldable pub add_key_to_buffer : ℕ → Option (ℕ → ℕ) → Terminal M → Terminal M
    unfolding type_key update_regs
    add_key_to_buffer scancode registers s =
        if scancode == 0x1D
        then on_keyboard (λ b. record b { ctrl_pressed = true }) s
        else if scancode == 0x9D
        then on_keyboard (λ b. record b { ctrl_pressed = false; ctrl_c_latch = false }) s
        else if scancode == 0x2A || scancode == 0x36
        then on_keyboard (λ b. record b { shift_pressed = true }) s
        else if scancode == 0xAA || scancode == 0xB6
        then on_keyboard (λ b. record b { shift_pressed = false }) s
        else if scancode == 0x3A
        then on_keyboard (λ b. record b { caps_lock = not b.caps_lock }) s
        else if scancode == 0x0F && (s.keyboard.shift_pressed && is_some registers)
        then on_keyboard (λ b. on_some registers (λ r. update_regs r b) b) s
        else if leb 0x80 scancode
        then (if scancode == 0xAE
            then on_keyboard (λ b. record b { ctrl_c_latch = false }) s
            else s)
        else type_key scancode s

    -- `sc` is the byte that the port gives.
    unfoldable pub keyboard_pressed : ℕ → Option (ℕ → ℕ) → Terminal M → Terminal M
    unfolding extended_key add_key_to_buffer
    keyboard_pressed sc registers s =
        if sc == 0xE0
        then on_keyboard (λ b. record b { e0_prefix = true }) s
        else if s.keyboard.e0_prefix
        then extended_key sc s
        else add_key_to_buffer sc registers s
