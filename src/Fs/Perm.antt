-- ===== src/Fs/Perm.antt =====
-- fs/perm.c: may a process read, write or execute a file, and can a file be sought in.
pub mod Classes
use os0_kernel.Prelude.{
  ℕ, Bool, true, false, not, ◌&&◌, ◌||◌, bit_and, bit_or, ◌==◌, ◌!=◌, if◌then◌else◌, Result, ok,
  err, eacces,
}
use os0_kernel.Process.State.{Ids}

-- The fields of `VFSInode` that permissions depend on.
pub record Inode : Type 0 where
  pub mode : ℕ
  pub uid : ℕ
  pub gid : ℕ

-- `vi_mode & m`, as a test.
abbrev pub has : Inode → ℕ → Bool
has inode m = bit_and inode.mode m != 0

-- `S_ISDIR`, and S_IFMT by which the other types are told apart.
abbrev pub is_type : Inode → ℕ → Bool
is_type inode t = bit_and inode.mode 0o170000 == t

abbrev pub is_dir : Inode → Bool
is_dir inode = is_type inode 0o040000

-- `real ? sys_getuid () : sys_geteuid ()`, and so for groups.
abbrev pub caller_uid : Ids → Bool → ℕ
caller_uid i real = if real then i.uid else i.euid

abbrev pub caller_gid : Ids → Bool → ℕ
caller_gid i real = if real then i.gid else i.egid

-- `vfs_perm_check_read`
pub check_read : Ids → Inode → Bool → Result ℕ
check_read i inode real =
    if caller_uid i real == 0
    then ok 0
    else if inode.uid == caller_uid i real
    then (if not (has inode 0o400)
        then err eacces
        else if is_dir inode && not (has inode 0o100)
        then err eacces
        else ok 0)
    else if inode.gid == caller_gid i real
    then (if not (has inode 0o40)
        then err eacces
        else if is_dir inode && not (has inode 0o10)
        then err eacces
        else ok 0)
    else if not (has inode 0o4)
    then err eacces
    else if is_dir inode && not (has inode 0o1)
    then err eacces
    else ok 0

-- `vfs_perm_check_write`
pub check_write : Ids → Inode → Bool → Result ℕ
check_write i inode real =
    if caller_uid i real == 0
    then ok 0
    else if inode.uid == caller_uid i real
    then (if not (has inode 0o200)
        then err eacces
        else if is_dir inode && not (has inode 0o100)
        then err eacces
        else ok 0)
    else if inode.gid == caller_gid i real
    then (if not (has inode 0o20)
        then err eacces
        else if is_dir inode && not (has inode 0o10)
        then err eacces
        else ok 0)
    else if not (has inode 0o2)
    then err eacces
    else if is_dir inode && not (has inode 0o1)
    then err eacces
    else ok 0

-- `vfs_perm_check_exec`
pub check_exec : Ids → Inode → Bool → Result ℕ
check_exec i inode real =
    if caller_uid i real == 0
    then (if has inode (bit_or (bit_or 0o100 0o10) 0o1) then ok 0 else err eacces)
    else if inode.uid == caller_uid i real
    then (if not (has inode 0o100) then err eacces else ok 0)
    else if inode.gid == caller_gid i real
    then (if not (has inode 0o10) then err eacces else ok 0)
    else if not (has inode 0o1)
    then err eacces
    else ok 0

-- `vfs_can_seek`: not in character devices, sockets and pipes.
pub can_seek : Inode → Bool
can_seek inode =
    if is_type inode 0o020000 || (is_type inode 0o140000 || is_type inode 0o010000)
    then false
    else true
