-- ===== src/Drivers/Emulator.antt =====
-- What the line discipline of drivers/tty-line.c shows characters with, as an interface.
use os0_kernel.Prelude.{ℕ, Option}
use os0_kernel.Prelude.Ends.{Ends}

-- What a terminal is shown with
pub record Emulator (S : Type 0) : Type 0 where
  pub write_char : S → ℕ → Option S
  pub erase_char : S → Option S
  pub erase_line : S → ℕ → Option S
  pub column : S → ℕ

-- The operations of an emulator end, and keep `P`.
pub record Keeps {S : Type 0} (e : Emulator S) (P : S → Type 0) : Type 0 where
  pub write_char : (s : S) (c : ℕ) → P s → Ends P (e.write_char s c)
  pub erase_char : (s : S) → P s → Ends P (e.erase_char s)
  pub erase_line : (s : S) (n : ℕ) → P s → Ends P (e.erase_line s n)
