-- ===== src/Libk/SigSet.antt =====
-- libk/signal.c: sets of signals as the bits of an array of bytes, the highest bit of a byte first.
pub mod Laws
use os0_kernel.Prelude.{
  ℕ, ◌-◌, ◌/◌, ◌%◌, ◌^◌, Bool, List, [], ◌∷◌, bit_and, bit_or, ◌!=◌, get_or, set, replicate,
}

-- `sigset_t`: NSIG / CHAR_BIT bytes.
abbrev pub SigSet : Type 0
SigSet = List ℕ

abbrev pub nsig : ℕ
nsig = 48

abbrev pub sigset_bytes : ℕ
sigset_bytes = 6

-- `sigemptyset` and `sigfillset`
unfoldable pub empty : SigSet
empty = replicate sigset_bytes 0

unfoldable pub fill : SigSet
fill = replicate sigset_bytes 0xff

-- `1 << (7 - sig % CHAR_BIT)`
abbrev pub mask : ℕ → ℕ
mask sig = 2 ^ (7 - sig % 8)

-- `sigaddset`
pub add : SigSet → ℕ → SigSet
add s sig = set s (sig / 8) (bit_or (get_or s (sig / 8) 0) (mask sig))

-- `sigdelset`; the byte keeps the low 8 bits of the complement.
pub del : SigSet → ℕ → SigSet
del s sig = set s (sig / 8) (bit_and (get_or s (sig / 8) 0) (2 ^ 8 - 1 - mask sig))

-- `sigismember`
unfoldable pub member : SigSet → ℕ → Bool
member s sig = bit_and (get_or s (sig / 8) 0) (mask sig) != 0

-- The loops over the bytes that or one set into another, or take it out.
pub union : SigSet → SigSet → SigSet
union [] t = []
union (b ∷ s) [] = b ∷ s
union (b ∷ s) (c ∷ t) = bit_or b c ∷ union s t

pub minus : SigSet → SigSet → SigSet
minus [] t = []
minus (b ∷ s) [] = b ∷ s
minus (b ∷ s) (c ∷ t) = bit_and b (2 ^ 8 - 1 - c) ∷ minus s t
