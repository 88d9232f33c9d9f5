-- ===== src/Tests/Texts.antt =====
-- Numbers as text and checksums of libk.
use os0_kernel.Prelude.{◌≡◌, ℕ, some, List, [], ◌∷◌, arith}
use os0_kernel.Libk.Strings.Copies.{terminated}
use os0_kernel.Libk.Numbers.{atoi}
use os0_kernel.Libk.Spell.{utoa}
use os0_kernel.Libk.Spell.Decimals.{atoi-utoa}
use os0_kernel.Libk.Crc.{crc16}
use os0_kernel.Libk.Crc.Bitwise.{bitwise_crc16, crc16-bitwise_crc16}

-- "4070"
atoi-utoa_example : atoi (terminated (utoa 4070 10) []) ≡ some 4070
atoi-utoa_example = atoi-utoa 4070 [] (omega arith)

-- "abd"
abbrev abd : List ℕ
abd = b'a' ∷ b'b' ∷ b'd' ∷ []

-- "abd" from the seed of the group descriptors.
crc16-bitwise_crc16_example : crc16 0xffff abd ≡ bitwise_crc16 0xffff abd
crc16-bitwise_crc16_example = crc16-bitwise_crc16 abd 0xffff
