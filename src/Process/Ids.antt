-- ===== src/Process/Ids.antt =====
-- uapi/id.c: the user, group, process-group and session ids of processes.
pub mod Users
pub mod Groups
use os0_kernel.Prelude.{
  ℕ, zero, suc, ◌%◌, ◌^◌, Bool, true, false, not, ◌&&◌, ◌||◌, Option, none, some, ltb, ◌==◌, ◌!=◌,
  if◌then◌else◌, is_none, Result, ok, err, eperm, esrch, einval, enotsup,
}
use os0_kernel.Prelude.Int.{ℤ, pos, negsuc}
use os0_kernel.Process.State.{Ids, Task, Process, Kernel, with_process}

-- `(uid_t) -1` and `(gid_t) -1` in 16 bits, which leave an id as it is.
abbrev pub keep : ℕ
keep = 0xffff

-- An argument of the type `uid_t` or `gid_t`, which have 16 bits
abbrev pub id16 : ℕ → ℕ
id16 n = n % 2 ^ 16

-- `process_valid` of kernel/process.c
unfoldable pub process_valid : Kernel → ℤ → Bool
process_valid k (negsuc n) = false
process_valid k (pos pid) = ltb pid k.limit && not (is_none (k.table pid).task)

abbrev pub ids_of : Kernel → ℕ → Ids
ids_of k pid = (k.table pid).ids

abbrev pub with_ids : Kernel → ℕ → Ids → Kernel
with_ids k pid i = with_process k pid (record (k.table pid) { ids = i })

-- `sys_getpid`, and `sys_getuid` to `sys_getegid`
pub getpid : Kernel → ℕ
getpid k = k.current

pub getuid : Kernel → ℕ
getuid k = (ids_of k k.current).uid

pub getgid : Kernel → ℕ
getgid k = (ids_of k k.current).gid

pub geteuid : Kernel → ℕ
geteuid k = (ids_of k k.current).euid

pub getegid : Kernel → ℕ
getegid k = (ids_of k k.current).egid

-- `sys_setuid`, on the ids of the calling process.
unfoldable pub setuid : Ids → ℕ → Result Ids
setuid i uid =
    let uid = id16 uid in
    if i.euid != 0 && i.uid != uid
    then err eperm
    else ok (record i { uid = uid; euid = uid; suid = uid })

-- `sys_setgid`
pub setgid : Ids → ℕ → Result Ids
setgid i gid =
    let gid = id16 gid in
    if i.euid != 0 && i.gid != gid
    then err eperm
    else ok (record i { gid = gid; egid = gid; sgid = gid })

-- `sys_setreuid`: the tests for a process whose effective user is not 0, then the two updates.
abbrev pub reuid_refused : Ids → ℕ → ℕ → Bool
reuid_refused i ruid euid =
    i.euid != 0
    && (ruid != keep && (ruid != i.uid && ruid != i.euid)
        || euid != keep && (euid != i.uid && (euid != i.euid && euid != i.suid)))

abbrev pub with_euid : Ids → ℕ → Ids
with_euid i euid =
    if euid != keep
    then record i { suid = if i.uid != euid then euid else i.suid; euid = euid }
    else i

abbrev pub with_ruid : Ids → ℕ → Ids
with_ruid i ruid = if ruid != keep then record i { uid = ruid; suid = i.euid } else i

pub setreuid : Ids → ℕ → ℕ → Result Ids
setreuid i ruid euid =
    let ruid = id16 ruid in
    let euid = id16 euid in
    if reuid_refused i ruid euid then err eperm else ok (with_ruid (with_euid i euid) ruid)

-- `sys_setregid`
abbrev pub regid_refused : Ids → ℕ → ℕ → Bool
regid_refused i rgid egid =
    i.euid != 0
    && (rgid != keep && (rgid != i.gid && rgid != i.egid)
        || egid != keep && (egid != i.gid && (egid != i.egid && egid != i.sgid)))

abbrev pub with_egid : Ids → ℕ → Ids
with_egid i egid =
    if egid != keep
    then record i { sgid = if i.gid != egid then egid else i.sgid; egid = egid }
    else i

abbrev pub with_rgid : Ids → ℕ → Ids
with_rgid i rgid = if rgid != keep then record i { gid = rgid; sgid = i.egid } else i

pub setregid : Ids → ℕ → ℕ → Result Ids
setregid i rgid egid =
    let rgid = id16 rgid in
    let egid = id16 egid in
    if regid_refused i rgid egid then err eperm else ok (with_rgid (with_egid i egid) rgid)

-- `sys_getgroups` and `sys_setgroups`: there are no supplementary groups.
pub getgroups : Ids → Result ℕ
getgroups i = ok 0

pub setgroups : Ids → Result ℕ
setgroups i = if i.euid != 0 then err eperm else err enotsup

-- One of the three tests of `sys_setresuid`: the id is given, and is none of the user ids.
abbrev pub foreign_uid : Ids → ℕ → Bool
foreign_uid i id = id != keep && (id != i.uid && (id != i.euid && id != i.suid))

-- `sys_setresuid`
pub setresuid : Ids → ℕ → ℕ → ℕ → Result Ids
setresuid i ruid euid suid =
    let ruid = id16 ruid in
    let euid = id16 euid in
    let suid = id16 suid in
    if i.euid != 0 && (foreign_uid i ruid || (foreign_uid i euid || foreign_uid i suid))
    then err eperm
    else ok (record i {
      uid = if ruid != keep then ruid else i.uid;
      euid = if euid != keep then euid else i.euid;
      suid = if suid != keep then suid else i.suid;
    })

abbrev pub foreign_gid : Ids → ℕ → Bool
foreign_gid i id = id != keep && (id != i.gid && (id != i.egid && id != i.sgid))

-- `sys_setresgid`
pub setresgid : Ids → ℕ → ℕ → ℕ → Result Ids
setresgid i rgid egid sgid =
    let rgid = id16 rgid in
    let egid = id16 egid in
    let sgid = id16 sgid in
    if i.euid != 0 && (foreign_gid i rgid || (foreign_gid i egid || foreign_gid i sgid))
    then err eperm
    else ok (record i {
      gid = if rgid != keep then rgid else i.gid;
      egid = if egid != keep then egid else i.egid;
      sgid = if sgid != keep then sgid else i.sgid;
    })

-- `sys_getresuid` and `sys_getresgid`, with pointers that are not null.
pub getresuid : Ids → ℕ × ℕ × ℕ
getresuid i = (i.uid, i.euid, i.suid)

pub getresgid : Ids → ℕ × ℕ × ℕ
getresgid i = (i.gid, i.egid, i.sgid)

-- `sys_setpgid` once the arguments that are 0 are replaced by the calling process.
abbrev pub setpgid_to : Kernel → ℤ → ℕ → Result Kernel
setpgid_to k (negsuc n) pgid = err esrch
setpgid_to k (pos pid) pgid =
    if not (process_valid k (pos pid))
    then err esrch
    else if (ids_of k pid).sid == pid
    then err eperm
    else if process_valid k (pos pgid) && (ids_of k pid).sid != (ids_of k pgid).sid
    then err eperm
    else ok (with_ids k pid (record (ids_of k pid) { pgid = pgid }))

abbrev pub or_caller : Kernel → ℤ → ℤ
or_caller k (negsuc n) = negsuc n
or_caller k (pos n) = pos (if n == 0 then k.current else n)

-- `sys_setpgid`
pub setpgid : Kernel → ℤ → ℤ → Result Kernel
setpgid k pid (negsuc n) = err einval
setpgid k pid (pos pgid) = setpgid_to k (or_caller k pid) (if pgid == 0 then k.current else pgid)

-- `sys_getppid`; `none` where the caller has no task.
pub getppid : Kernel → Option ℕ
getppid k = elim (k.table k.current).task [ none ↦ none | some t ↦ some t.ppid ]

-- `sys_getpgrp`
pub getpgrp : Kernel → ℕ
getpgrp k = (ids_of k k.current).pgid

-- The loop of `sys_setsid`: another process among `n` from `i` on is in the group `pid`.
pub leads_others : Kernel → ℕ → ℕ → ℕ → Bool
leads_others k pid zero i = false
leads_others k pid (suc n) i = i != pid && (ids_of k i).pgid == pid || leads_others k pid n (suc i)

-- `sys_setsid`
pub setsid : Kernel → Result (ℕ × Kernel)
setsid k =
    let pid = k.current in
    if leads_others k pid k.limit 0
    then err eperm
    else ok (pid, with_ids k pid (record (ids_of k pid) { pgid = pid; sid = pid }))

-- `sys_getpgid`; the test is made before a 0 is replaced by the caller.
pub getpgid : Kernel → ℤ → Result ℕ
getpgid k (negsuc n) = err esrch
getpgid k (pos pid) =
    if process_valid k (pos pid)
    then ok (ids_of k (if pid == 0 then k.current else pid)).pgid
    else err esrch

-- `sys_getsid`
pub getsid : Kernel → ℤ → Result ℕ
getsid k (negsuc n) = err esrch
getsid k (pos pid) = if process_valid k (pos pid) then ok (ids_of k pid).sid else err esrch
