-- ===== src/Drivers.antt =====
-- Of the drivers in drivers/: the text screen, its escape sequences, the terminal's line
-- discipline, and the keyboard.
pub mod Vga
pub mod Vt100
pub mod Input
pub mod Emulator
pub mod Flags
pub mod Tty
pub mod Console
pub mod Keyboard
