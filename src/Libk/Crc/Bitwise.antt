-- ===== src/Libk/Crc/Bitwise.antt =====
-- The checksum of libk/crc16.c against one that goes bit by bit.
use os0_kernel.Prelude.{
  ℕ, zero, suc, ◌/◌, ◌%◌, ◌<◌, ◌≡◌, refl, sym, subst, Bool, true, ◌&&◌, List, [], ◌∷◌, arith, ◌==◌,
  ==→eq, bit_and, bit_xor, get_or, if◌then◌else◌,
}
use native.Mathlib.Decide.{ℕ_discrete}
use os0_kernel.Bits.Masks.{bit_and_ones-lt}
use os0_kernel.Libk.Crc.{crc16_table, crc16_round, crc16}

-- `n` bits shifted out at the low end, with the reversed polynomial 0xa001.
pub shifted : ℕ → ℕ → ℕ
shifted zero crc = crc
shifted (suc n) crc = shifted n (if crc % 2 == 1 then bit_xor (crc / 2) 0xa001 else crc / 2)

-- The entries below `n` are the checksums of their indices.
right_below : ℕ → Bool
right_below zero = true
right_below (suc n) = get_or crc16_table n 0 == shifted 8 n && right_below n

right_below_sound : (n i : ℕ) → right_below n ≡ true → i < n → get_or crc16_table i 0 ≡ shifted 8 i
unfolding right_below
right_below_sound zero i e h = absurd (omega arith)
right_below_sound (suc n) i e h = elim (ℕ_discrete i n) [
  | yes here ↦
      subst (λ n. get_or crc16_table n 0 ≡ shifted 8 n) (sym here) (==→eq _ _ (ground arith))
  | no ne ↦ right_below_sound n i (ground arith) (omega arith)
]

all_right : right_below 256 ≡ true
unfolding right_below crc16_table shifted
all_right = refl

-- The checksum with eight shifts for each byte, and no table.
pub bitwise_crc16 : ℕ → List ℕ → ℕ
bitwise_crc16 crc [] = crc
bitwise_crc16 crc (byte ∷ bytes) =
    bitwise_crc16
      (bit_and (bit_xor (bit_and (crc / 256) 0xff) (shifted 8 (bit_and (bit_xor crc byte) 0xff)))
        0xffff)
      bytes

low_byte : (x : ℕ) → bit_and x 0xff < 256
low_byte x = bit_and_ones-lt 8 x

-- `crc16` with its table answers what eight shifts for each byte do, for any seed and data.
pub crc16-bitwise_crc16 : (bytes : List ℕ) (crc : ℕ) → crc16 crc bytes ≡ bitwise_crc16 crc bytes
unfolding crc16 crc16_round bitwise_crc16
crc16-bitwise_crc16 [] crc = refl
crc16-bitwise_crc16 (byte ∷ bytes) crc =
    rw (right_below_sound 256 (bit_and (bit_xor crc byte) 0xff) all_right (low_byte _))
      (crc16-bitwise_crc16 bytes _)
