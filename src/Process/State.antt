-- ===== src/Process/State.antt =====
-- The C structs that processes are made of, and the kernel's variables about them.
-- The fields that the modelled code neither reads nor writes are left out.
use os0_kernel.Prelude.{ℕ, Bool, Option, ◌==◌, if◌then◌else◌}
use os0_kernel.Libk.SigSet.{SigSet}
use os0_kernel.Memory.{Memory}

-- `struct sigaction`; function pointers are numbers.
pub record SigAction : Type 0 where
  pub handler : ℕ
  pub sigaction : ℕ
  pub flags : ℕ
  pub mask : SigSet

-- `siginfo_t`; `value`, `errno`, `addr`, `status` and `band` are only cleared.
pub record SigInfo : Type 0 where
  pub signo : ℕ
  pub code : ℕ
  pub pid : ℕ
  pub uid : ℕ

-- `ProcessTask`: the process and its parent.
pub record Task : Type 0 where
  pub pid : ℕ
  pub ppid : ℕ

-- The signal fields of `Process`; `sig` is the signal to be handled, 0 for none.
pub record Signals : Type 0 where
  pub actions : ℕ → SigAction
  pub blocked : SigSet
  pub pending : SigSet
  pub sig : ℕ
  pub siginfo : SigInfo
  pub pause : Bool

-- The user, group, process-group and session fields of `Process`.
pub record Ids : Type 0 where
  pub uid : ℕ
  pub euid : ℕ
  pub suid : ℕ
  pub gid : ℕ
  pub egid : ℕ
  pub sgid : ℕ
  pub pgid : ℕ
  pub sid : ℕ

-- The file descriptors of `Process`; `files` holds indices into the system's table of files.
pub record Descriptors : Type 0 where
  pub files : ℕ → Option ℕ
  pub fdflags : ℕ → ℕ

-- `Process`; `task` is `none` where `p_task` is NULL.
pub record Process : Type 0 where
  pub task : Option Task
  pub fds : Descriptors
  pub signals : Signals
  pub ids : Ids
  pub children : ℕ
  pub term : Bool
  pub waitstat : ℕ

-- `process_table` with its limit, `exit_task`, `task_switch_enabled`, the process that runs (the
-- `t_pid` of `task_current`), the two variables that the return to user mode reads, the physical
-- pages, and what the page TASK_SIGINFO_PAGE of the running process is mapped to and holds.
pub record Kernel : Type 0 where
  pub table : ℕ → Process
  pub limit : ℕ
  pub exit_task : ℕ
  pub switch_enabled : Bool
  pub current : ℕ
  pub process_signal : ℕ
  pub process_signal_handler : ℕ
  pub mem : Memory
  pub siginfo_paddr : ℕ
  pub siginfo_page : SigInfo

-- One process given anew.
abbrev pub with_process : Kernel → ℕ → Process → Kernel
with_process k pid p = record k { table = λ j. if j == pid then p else k.table j }

abbrev pub with_signals : Kernel → ℕ → Signals → Kernel
with_signals k pid s = with_process k pid (record (k.table pid) { signals = s })
