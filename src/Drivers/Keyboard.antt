-- ===== src/Drivers/Keyboard.antt =====
-- drivers/kbd.c: the keyboard, whose scancodes become characters for the line discipline. A write
-- outside the map of the keys is a fault, `none`.
pub mod Strokes
pub mod EnterKey
use os0_kernel.Prelude.{
  ℕ, zero, suc, ◌+◌, ◌-◌, Bool, true, false, ◌&&◌, ◌||◌, Option, none, some, List, [], ◌∷◌, ◌++◌,
  ltb, leb, ◌==◌, ◌!=◌, if◌then◌else◌, get_or, replicate,
}
use os0_kernel.Drivers.Tty.{Emulator, Tty, Processes, process_input}

-- `kbd_press_map` and `modifies`
pub record Keyboard : Type 0 where
  pub press_map : ℕ → Bool
  pub modifies : Bool

-- The number of keys of the maps
abbrev pub keys : ℕ
keys = 128

-- `kbd_scancode_map`
unfoldable pub scancode_map : List ℕ
scancode_map =
    (0 ∷ (27 ∷ (b'1' ∷ (b'2' ∷ (b'3' ∷ (b'4' ∷ (b'5' ∷ (b'6' ∷ (b'7' ∷ (b'8' ∷ []))))))))))
    ++ ((b'9' ∷ (b'0' ∷ (b'-' ∷ (b'=' ∷ (31 ∷ (9 ∷ (b'q' ∷ (b'w' ∷ (b'e' ∷ (b'r' ∷ []))))))))))
        ++ ((b't' ∷ (b'y' ∷ (b'u' ∷ (b'i' ∷ (b'o' ∷ (b'p' ∷ (b'[' ∷ (b']' ∷ (10 ∷ (0 ∷ []))))))))))
            ++ ((b'a'
                  ∷ (b's'
                      ∷ (b'd' ∷ (b'f' ∷ (b'g' ∷ (b'h' ∷ (b'j' ∷ (b'k' ∷ (b'l' ∷ (b';' ∷ []))))))))))
                ++ ((39
                      ∷ (96
                          ∷ (0 ∷ (92 ∷ (b'z' ∷ (b'x' ∷ (b'c' ∷ (b'v' ∷ (b'b' ∷ (b'n' ∷ []))))))))))
                    ++ ((b'm' ∷ (b',' ∷ (b'.' ∷ (b'/' ∷ (0 ∷ (b'*' ∷ (0 ∷ (b' ' ∷ []))))))))
                        ++ (replicate 13 0
                            ++ ((b'7'
                                ∷ (b'8'
                                    ∷ (b'9'
                                        ∷ (b'-'
                                            ∷ (b'4'
                                                ∷ (b'5'
                                                    ∷ (b'6'
                                                        ∷ (b'+'
                                                            ∷ (b'1'
                                                            ∷ (b'2'
                                                            ∷ (b'3'
                                                            ∷ (b'0' ∷ (b'.' ∷ []))))))))))))))))))))

-- The characters on the keys of the digits, from 0 on
abbrev digit_signs : List ℕ
digit_signs =
    b')' ∷ (b'!' ∷ (b'@' ∷ (b'#' ∷ (b'$' ∷ (b'%' ∷ (b'^' ∷ (b'&' ∷ (b'*' ∷ (b'(' ∷ [])))))))))

abbrev lookup : List (ℕ × ℕ) → ℕ → ℕ
lookup [] c = 0
lookup ((x, y) ∷ pairs) c = if c == x then y else lookup pairs c

-- `kbd_shift_chars`
pub shift_chars : ℕ → ℕ
shift_chars c =
    if leb b'a' c && leb c b'z'
    then c - 32
    else if leb b'0' c && leb c b'9'
    then get_or digit_signs (c - b'0') 0
    else lookup
        ((b'-', b'_')
          ∷ ((b'=', b'+')
              ∷ ((b',', b'<')
                  ∷ ((b'.', b'>')
                      ∷ ((b'/', b'?')
                          ∷ ((b';', b':')
                              ∷ ((39, 34)
                                  ∷ ((b'[', b'{')
                                      ∷ ((b']', b'}') ∷ ((92, b'|') ∷ ((96, b'~') ∷ [])))))))))))
        c

-- `kbd_ctrl_chars`
pub ctrl_chars : ℕ → ℕ
ctrl_chars c =
    if leb b'a' c && leb c b'z'
    then c - 96
    else lookup ((b'[', 27) ∷ ((92, 28) ∷ ((b']', 29) ∷ ((b'~', 30) ∷ ((b'?', 31) ∷ []))))) c

-- KEY_LCTRL, KEY_LSHIFT, KEY_RSHIFT and KEY_EXTENDED
abbrev pub lctrl : ℕ
lctrl = 0x1d

abbrev pub lshift : ℕ
lshift = 0x2a

abbrev pub rshift : ℕ
rshift = 0x36

abbrev pub extended : ℕ
extended = 0xe0

-- SHIFT_DOWN and CTRL_DOWN
abbrev pub shift_down : Keyboard → Bool
shift_down k = k.press_map lshift || k.press_map rshift

abbrev pub ctrl_down : Keyboard → Bool
ctrl_down k = k.press_map lctrl

-- A key pressed or released
abbrev pub marked : Keyboard → ℕ → Bool → Keyboard
marked k code down = record k { press_map = λ i. if i == code then down else k.press_map i }

-- The character of a key with the keys for shift and control
pub shifted : Keyboard → ℕ → ℕ
shifted k c = if shift_down k && shift_chars c != 0 then shift_chars c else c

pub controlled : Keyboard → ℕ → ℕ
controlled k c = if ctrl_down k && ctrl_chars c != 0 then ctrl_chars c else c

abbrev with_keyboard : {S : Type 0} → Keyboard → Option (Tty S) → Option (Keyboard × Tty S)
with_keyboard k none = none
with_keyboard k (some t) = some (k, t)

module _ {S : Type 0} (e : Emulator S) (ps : Processes) where
  -- The key is sent to the line discipline.
  pub sent_key : Keyboard → Tty S → ℕ → Option (Keyboard × Tty S)
  sent_key k t code =
      let c = get_or scancode_map code 0 in
      if c != 0
      then with_keyboard k (process_input e ps t (controlled k (shifted k c)))
      else some (k, t)

  -- `kbd_handle`
  pub handle : Keyboard → Tty S → ℕ → Option (Keyboard × Tty S)
  handle k t scancode =
      if k.modifies
      then some (record k { modifies = false }, t)
      else if scancode == extended
      then some (record k { modifies = true }, t)
      else if ltb 0x80 scancode
      then (if ltb (scancode - 0x80) keys then some (marked k (scancode - 0x80) false, t) else none)
      else if ltb scancode keys
      then sent_key (marked k scancode true) t scancode
      else none

  -- The scancodes that the keyboard gives, one after the other
  pub handled : Keyboard → Tty S → List ℕ → Option (Keyboard × Tty S)
  handled k t [] = some (k, t)
  handled k t (scancode ∷ rest) = elim (handle k t scancode) as (λ x. Option (Keyboard × Tty S)) [
    | none ↦ none
    | some (k', t') ↦ handled k' t' rest
  ]
