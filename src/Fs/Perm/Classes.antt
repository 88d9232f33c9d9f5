-- ===== src/Fs/Perm/Classes.antt =====
-- The permission checks against the bits of the caller's class.
use os0_kernel.Prelude.{
  ℕ, ◌+◌, ◌/◌, ◌≡◌, Bool, not, ◌&&◌, ◌||◌, arith, bit_and, bit_or, ◌==◌, ◌!=◌, if◌then◌else◌,
  Result, ok, err, eacces,
}
use os0_kernel.Bits.{bit, bit_and-zero, and_two_pow-ne-zero}
use os0_kernel.Bits.Step.{bit_and_step}
use os0_kernel.Process.State.{Ids}
use os0_kernel.Fs.Perm.{Inode, is_dir, caller_uid, caller_gid, check_read, check_write, check_exec}

-- The lowest bit of the three for the caller: those of the owner if the caller owns the file, else
-- those of the group if the caller is in its group, else those of the others.
pub class_bits : Ids → Inode → Bool → ℕ
class_bits i inode real =
    if inode.uid == caller_uid i real then 6 else if inode.gid == caller_gid i real then 3 else 0

-- Bit `k` of the mode grants.
abbrev pub grants : Inode → ℕ → Bool
grants inode k = bit inode.mode k

abbrev pub verdict : Bool → Result ℕ
verdict b = if b then ok 0 else err eacces

-- Reading wants the class's bit 2, writing its bit 1, and both want bit 0 as well on a directory;
-- the superuser may do both.
pub may_access : Ids → Inode → Bool → ℕ → Bool
may_access i inode real want =
    caller_uid i real == 0
    || grants inode (class_bits i inode real + want)
      && (not (is_dir inode) || grants inode (class_bits i inode real))

-- Executing wants the class's bit 0, and of the superuser any of the three bits 0.
pub may_execute : Ids → Inode → Bool → Bool
may_execute i inode real =
    if caller_uid i real == 0
    then grants inode 6 || (grants inode 3 || grants inode 0)
    else grants inode (class_bits i inode real)

-- The three execute bits at once.
any_execute :
    (m : ℕ) → (bit_and m (bit_or (bit_or 0o100 0o10) 0o1) != 0) ≡ (bit m 6 || (bit m 3 || bit m 0))
unfolding bit
any_execute m = ground (
  arith,
  bit_and_step m 73,
  bit_and_step (m / 2) 36,
  bit_and_step (m / 2 / 2) 18,
  bit_and_step (m / 2 / 2 / 2) 9,
  bit_and_step (m / 2 / 2 / 2 / 2) 4,
  bit_and_step (m / 2 / 2 / 2 / 2 / 2) 2,
  bit_and_step (m / 2 / 2 / 2 / 2 / 2 / 2) 1,
  bit_and-zero (m / 2 / 2 / 2 / 2 / 2 / 2 / 2),
)

module _ (i : Ids) (inode : Inode) (real : Bool) where
  -- `vfs_perm_check_read` succeeds for the superuser and for a caller whose class has the read bit,
  -- and on a directory the execute bit too; otherwise it answers EACCES.
  pub check_read_lem : check_read i inode real ≡ verdict (may_access i inode real 2)
  unfolding check_read may_access class_bits
  check_read_lem = ground (
    arith,
    and_two_pow-ne-zero 8 inode.mode,
    and_two_pow-ne-zero 6 inode.mode,
    and_two_pow-ne-zero 5 inode.mode,
    and_two_pow-ne-zero 3 inode.mode,
    and_two_pow-ne-zero 2 inode.mode,
    and_two_pow-ne-zero 0 inode.mode,
  )

  -- `vfs_perm_check_write` succeeds for the superuser and for a caller whose class has the write
  -- bit, and on a directory the execute bit too; otherwise it answers EACCES.
  pub check_write_lem : check_write i inode real ≡ verdict (may_access i inode real 1)
  unfolding check_write may_access class_bits
  check_write_lem = ground (
    arith,
    and_two_pow-ne-zero 7 inode.mode,
    and_two_pow-ne-zero 6 inode.mode,
    and_two_pow-ne-zero 4 inode.mode,
    and_two_pow-ne-zero 3 inode.mode,
    and_two_pow-ne-zero 1 inode.mode,
    and_two_pow-ne-zero 0 inode.mode,
  )

  -- `vfs_perm_check_exec` succeeds for the superuser if any of the three execute bits is set, and
  -- for another caller if its class has the execute bit; otherwise it answers EACCES.
  pub check_exec_lem : check_exec i inode real ≡ verdict (may_execute i inode real)
  unfolding check_exec may_execute class_bits
  check_exec_lem = ground (
    arith,
    any_execute inode.mode,
    and_two_pow-ne-zero 6 inode.mode,
    and_two_pow-ne-zero 3 inode.mode,
    and_two_pow-ne-zero 0 inode.mode,
  )
