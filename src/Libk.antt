-- ===== src/Libk.antt =====
-- The kernel's C library, libk/.
pub mod Array
pub mod SortedArray
pub mod Stack
pub mod SigSet
pub mod Strings
pub mod Ctype
pub mod BitSearch
pub mod Numbers
pub mod Spell
pub mod Crc
