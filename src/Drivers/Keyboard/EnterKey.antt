-- ===== src/Drivers/Keyboard/EnterKey.antt =====
-- A line from the keys of drivers/kbd.c to a process that calls `tty_read`.
use os0_kernel.Prelude.{
  ℕ, ◌+◌, ◌-◌, ◌≤◌, ◌<◌, ◌≡◌, refl, ◌∙◌, ap, Bool, true, false, some, List, [], ◌∷◌, ◌++◌, arith,
  length,
}
use os0_kernel.Drivers.Input.{Input, has_lflag, icanon, buffer_size}
use os0_kernel.Drivers.Tty.{Emulator, Keeps, Tty, Processes, typed}
use os0_kernel.Drivers.Tty.Calls.{reads, read}
use os0_kernel.Drivers.Tty.Typing.{AllOrdinary}
use os0_kernel.Drivers.Tty.Reading.{typed_line_is_read}
use os0_kernel.Drivers.Keyboard.{Keyboard, scancode_map, handled}
use os0_kernel.Drivers.Keyboard.Strokes.{
  Idle, Key, AllKeys, char_of, chars_of, strokes, handled-typed,
}

-- The scancode of the key for a new line
abbrev pub enter : ℕ
enter = 28

enter-Key : Key enter
unfolding scancode_map
enter-Key = record { bound = omega arith; sends = refl }

AllKeys-enter : (codes : List ℕ) → AllKeys codes → AllKeys (codes ++ (enter ∷ []))
AllKeys-enter [] h = (enter-Key, tt)
AllKeys-enter (code ∷ codes) (h, hs) = (h, AllKeys-enter codes hs)

chars_of-enter : (codes : List ℕ) → chars_of (codes ++ (enter ∷ [])) ≡ chars_of codes ++ (10 ∷ [])
unfolding scancode_map
chars_of-enter [] = refl
chars_of-enter (code ∷ codes) = ap (λ s. char_of code ∷ s) (chars_of-enter codes)

module _ {S : Type 0} (e : Emulator S) (P : S → Type 0) (k : Keeps e P) (ps : Processes) where
  -- Keys of ordinary characters, pressed and released one after the other, and then the key for a
  -- new line, while no key for shift or control is down, give a process that reads the terminal in
  -- canonical mode, and asks for as much, the line of their characters with its newline, where the
  -- input was empty, has room for it, and no quote is pending; the input is empty afterwards. The emulator is any whose operations end.
  pub keys_are_read :
      (kb : Keyboard) (t : Tty S) (codes : List ℕ) (nonblock : Bool) (tick : ℕ) (polls : List ℕ)
      (len : ℕ)
      → Idle kb
      → AllKeys codes
      → P t.screen
      → t.input.tb_start ≡ 0
      → t.input.tb_end ≡ 0
      → t.quoted ≡ false
      → has_lflag t.termios icanon ≡ true
      → AllOrdinary t.termios (chars_of codes)
      → length (chars_of codes) < buffer_size - 1
      → length (chars_of codes) + 1 ≤ len
      → (kb' : Keyboard) × (t' : Tty S) × (b : Input) × (handled e ps kb t
            (strokes (codes ++ (enter ∷ [])))
          ≡ some (kb', t'))
        × (read t' nonblock tick polls len ≡ some (reads (chars_of codes ++ (10 ∷ [])) b))
        × Idle kb'
        × (b.tb_start ≡ 0)
        × (b.tb_end ≡ 0)
        × (b.ready ≡ false)
  keys_are_read kb t codes nonblock tick polls len w h p z z' q canon o fits asks =
      let (t', b, eq, line, x, y, r) =
        typed_line_is_read e P k ps t (chars_of codes) nonblock tick polls len p z z' q canon o fits
          asks in
      let (kb', eq', w') =
        handled-typed e ps (codes ++ (enter ∷ [])) kb t t' w (AllKeys-enter codes h)
          (ap (typed e ps t) (chars_of-enter codes) ∙ eq) in
      (kb', t', b, eq', line, w', x, y, r)
