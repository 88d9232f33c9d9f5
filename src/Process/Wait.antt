-- ===== src/Process/Wait.antt =====
-- kernel/wait.c: waiting for a process that has terminated.
pub mod Climbs
pub mod Reports
use os0_kernel.Prelude.{
  ℕ, zero, suc, Bool, true, false, not, ◌&&◌, Option, none, some, List, [], ◌∷◌, ◌==◌, ◌!=◌,
  if◌then◌else◌, Errno, echild, esrch,
}
use os0_kernel.Prelude.Int.{ℤ, pos, negsuc}
use os0_kernel.Process.State.{Kernel, Task}
use os0_kernel.Process.Ids.{process_valid, ids_of}

-- Where the walk to the parents ends: at a process, at a process with a null `p_task`, or nowhere
-- within the fuel.
pub data Climb : Type 0 where
  at : ℕ → Climb
  fault more : Climb

-- The loop of `wait_get_status` from `temp` on, for the process `curr`.
pub climb : ℕ → Kernel → ℕ → ℕ → Climb
climb zero k curr temp = more
climb (suc fuel) k curr temp = if temp == 0 then at 0 else elim (k.table temp).task [
  | none ↦ fault
  | some task ↦ elim (task.ppid == curr) [ true ↦ at temp | false ↦ climb fuel k curr task.ppid ]
]

-- The answer of a call: no process yet, a process with its wait status, an error, a null `p_task`,
-- or no end within the fuel.
pub data Status : Type 0 where
  nobody : Status
  exited : ℕ → ℕ → Status
  failed : Errno → Status
  crashed unfinished : Status

abbrev pub reported : Kernel → ℕ → Status
reported k temp = exited temp (k.table temp).waitstat

-- The cases -1 and 0, where the process found must be in the caller's group if `same_group`.
abbrev pub climbed : Kernel → Bool → Climb → Status
climbed k same_group fault = crashed
climbed k same_group more = unfinished
climbed k same_group (at temp) =
    if temp == 0
    then nobody
    else if same_group && (ids_of k k.current).pgid != (ids_of k temp).pgid
    then nobody
    else reported k temp

-- `wait_get_status`, less the resource usage. No process id equals a `pid` below -1.
pub wait_get_status : ℕ → Kernel → ℤ → Status
wait_get_status fuel k pid = if k.exit_task == 0 then nobody else elim pid [
  | negsuc n ↦ if n == 0 then climbed k false (climb fuel k k.current k.exit_task) else nobody
  | pos n ↦
      if n == 0
      then climbed k true (climb fuel k k.current k.exit_task)
      else if k.exit_task == n
      then reported k k.exit_task
      else nobody
]

-- `if (pid < -1) pid = -pid`
abbrev pub positive : ℤ → ℤ
positive (pos n) = pos n
positive (negsuc zero) = negsuc zero
positive (negsuc (suc n)) = pos (suc (suc n))

abbrev pub names_invalid : Kernel → ℤ → Bool
names_invalid k (negsuc n) = false
names_invalid k (pos n) = n != 0 && not (process_valid k (pos n))

-- The endless loop of `wait4`: `ks` are the kernels that it meets, round by round. `nobody` means
-- that it still waits.
pub poll : ℕ → ℤ → List Kernel → Status
poll fuel pid [] = nobody
poll fuel pid (k ∷ ks) = elim (wait_get_status fuel k pid) [
  | nobody ↦ poll fuel pid ks
  | exited temp status ↦ exited temp status
  | failed e ↦ failed e
  | crashed ↦ crashed
  | unfinished ↦ unfinished
]

-- `wait4` in the kernel `k`; `nohang` is `options & WNOHANG`.
pub wait4 : ℕ → ℤ → Bool → Kernel → List Kernel → Status
wait4 fuel pid nohang k ks =
    if (k.table k.current).children == 0
    then failed echild
    else if names_invalid k (positive pid)
    then failed esrch
    else if nohang
    then wait_get_status fuel k (positive pid)
    else poll fuel (positive pid) (k ∷ ks)
