-- ===== src/Drivers/Flags.antt =====
-- Bits of `c_lflag` and indices of `c_cc` from include/bits/termios.h, for the line discipline.
use os0_kernel.Prelude.{ℕ}

-- Bits of `c_lflag`
abbrev pub isig : ℕ
isig = 0x1

abbrev pub echo : ℕ
echo = 0x8

abbrev pub echoe : ℕ
echoe = 0x10

abbrev pub echok : ℕ
echok = 0x20

abbrev pub echonl : ℕ
echonl = 0x40

abbrev pub tostop : ℕ
tostop = 0x100

abbrev pub echoctl : ℕ
echoctl = 0x200

abbrev pub echoke : ℕ
echoke = 0x800

abbrev pub iexten : ℕ
iexten = 0x8000

-- Indices of `c_cc`
abbrev pub vintr : ℕ
vintr = 0

abbrev pub vquit : ℕ
vquit = 1

abbrev pub verase : ℕ
verase = 2

abbrev pub vkill : ℕ
vkill = 3

abbrev pub vtime : ℕ
vtime = 5

abbrev pub vmin : ℕ
vmin = 6

abbrev pub vsusp : ℕ
vsusp = 9

abbrev pub veol : ℕ
veol = 10

abbrev pub vreprint : ℕ
vreprint = 11

abbrev pub vwerase : ℕ
vwerase = 13

abbrev pub vlnext : ℕ
vlnext = 14

abbrev pub veol2 : ℕ
veol2 = 15
