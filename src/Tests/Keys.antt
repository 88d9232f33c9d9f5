-- ===== src/Tests/Keys.antt =====
-- Keys that are typed.
use os0_kernel.Prelude.{◌≡◌, refl, false, some, [], ◌∷◌, ◌++◌, arith}
use os0_kernel.Drivers.Vt100.{Terminal}
use os0_kernel.Drivers.Vt100.Safety.{IsSafe}
use os0_kernel.Drivers.Input.{Input}
use os0_kernel.Drivers.Tty.{Tty}
use os0_kernel.Drivers.Tty.Calls.{reads, read}
use os0_kernel.Drivers.Tty.Typing.{Ordinary}
use os0_kernel.Drivers.Console.{vt100, vt100-Keeps, default_termios}
use os0_kernel.Drivers.Keyboard.{Keyboard, scancode_map, handled}
use os0_kernel.Drivers.Keyboard.Strokes.{Idle, Key, char_of, chars_of, strokes}
use os0_kernel.Drivers.Keyboard.EnterKey.{enter, keys_are_read}
use os0_kernel.Tests.Terminals.{started, started-IsSafe}
use os0_kernel.Tests.Typing.{few}

-- No key is down.
abbrev released : Keyboard
released = record { press_map = λ i. false; modifies = false }

released-Idle : Idle released
released-Idle = record { modifies = refl; lctrl = refl; lshift = refl; rshift = refl }

-- The key of the letter "q"
q-Key : Key 16
unfolding scancode_map
q-Key = record { bound = omega arith; sends = refl }

q-Ordinary : Ordinary default_termios (char_of 16)
unfolding scancode_map
q-Ordinary = record {
  unedited = record {
    line = refl;
    eof = refl;
    erase = refl;
    kill = refl;
    werase = refl;
    reprint = refl;
    lnext = refl;
  };
  signal = refl;
}

keys_are_read_example :
    (kb' : Keyboard) × (t' : Tty Terminal) × (b : Input) × (handled vt100 few released started
        (strokes ((16 ∷ []) ++ (enter ∷ [])))
      ≡ some (kb', t'))
    × (read t' false 0 [] 80 ≡ some (reads (chars_of (16 ∷ []) ++ (10 ∷ [])) b))
    × Idle kb'
    × (b.tb_start ≡ 0)
    × (b.tb_end ≡ 0)
    × (b.ready ≡ false)
keys_are_read_example =
    keys_are_read vt100 IsSafe vt100-Keeps few released started (16 ∷ []) false 0 [] 80
      released-Idle (q-Key, tt) started-IsSafe refl refl refl refl (q-Ordinary, tt) (omega arith)
      (omega arith)
