-- ===== src/Tests/Processes.antt =====
-- A kernel with three processes: 1 is the first one, 2 its child and 3 a child of 2.
use os0_kernel.Prelude.{ℕ, false, true, none, some, [], ◌∷◌, ◌==◌, if◌then◌else◌, refl, arith}
use os0_kernel.Libk.SigSet.{SigSet}
use os0_kernel.Libk.SigSet.Laws.{IsValid}
use os0_kernel.Process.State.{SigAction, SigInfo, Signals, Ids, Process, Kernel}
use os0_kernel.Memory.Pages.{booted}

abbrev pub no_signals : SigSet
no_signals = 0 ∷ 0 ∷ 0 ∷ 0 ∷ 0 ∷ 0 ∷ []

pub no_signals-IsValid : IsValid no_signals
no_signals-IsValid = record {
  room = refl;
  bytes =
      (omega arith, (omega arith, (omega arith, (omega arith, (omega arith, (omega arith, tt))))));
}

abbrev pub default_action : SigAction
default_action = record { handler = 0; sigaction = 0; flags = 0; mask = no_signals }

abbrev pub no_info : SigInfo
no_info = record { signo = 0; code = 0; pid = 0; uid = 0 }

abbrev pub quiet : Signals
quiet = record {
  actions = λ i. default_action;
  blocked = no_signals;
  pending = no_signals;
  sig = 0;
  siginfo = no_info;
  pause = false;
}

-- The ids of an ordinary user, in the group and session of process 2.
abbrev pub user : Ids
user = record {
  uid = 1000;
  euid = 1000;
  suid = 1000;
  gid = 100;
  egid = 100;
  sgid = 100;
  pgid = 2;
  sid = 2;
}

abbrev pub process : ℕ → ℕ → Process
process pid ppid = record {
  task = some (record { pid = pid; ppid = ppid });
  fds = record { files = λ fd. none; fdflags = λ fd. 0 };
  signals = quiet;
  ids = user;
  children = 1;
  term = false;
  waitstat = 0;
}

abbrev pub unused : Process
unused = record (process 0 0) { task = none; ids = record user { pgid = 0; sid = 0 } }

abbrev pub table : ℕ → Process
table pid =
    if pid == 1
    then record (process 1 0) { ids = record user { pgid = 1; sid = 1 } }
    else if pid == 2
    then process 2 1
    else if pid == 3
    then process 3 2
    else unused

-- Process `pid` runs, and `exit_task` has exited.
abbrev pub kernel : ℕ → ℕ → Kernel
kernel pid exit_task = record {
  table = table;
  limit = 4;
  exit_task = exit_task;
  switch_enabled = true;
  current = pid;
  process_signal = 0;
  process_signal_handler = 0;
  mem = booted 1048576 (λ i. 0);
  siginfo_paddr = 0;
  siginfo_page = no_info;
}

abbrev pub yield : Kernel → Kernel
yield k = k
