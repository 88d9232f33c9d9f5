-- ===== src/Process/SignalCalls.antt =====
-- uapi/signal.c: the system calls that send signals, set actions and change the blocked signals.
pub mod Kill
pub mod Masks
use os0_kernel.Prelude.{
  ℕ, zero, suc, ◌+◌, ◌-◌, Bool, true, false, not, ◌&&◌, ◌||◌, Option, none, some, leb, ◌==◌, ◌!=◌,
  if◌then◌else◌, replicate, Result, ok, err, eperm, esrch, eintr, einval, enosys,
}
use os0_kernel.Prelude.Int.{ℤ, pos, negsuc}
use os0_kernel.Libk.SigSet
use os0_kernel.Libk.SigSet.{SigSet, nsig, sigset_bytes}
use os0_kernel.Process.State.{
  SigAction, SigInfo, Signals, Process, Kernel, with_process, with_signals,
}
use os0_kernel.Process.Ids.{process_valid, ids_of}
use os0_kernel.Process.Signal.{Outcome, done, fault, more, sigkill, sigstop, send}

abbrev pub si_user : ℕ
si_user = 0x100

-- `(sig_t) -1`
abbrev pub sig_err : ℕ
sig_err = 0xffffffff

-- What a call answers, with the kernel that it leaves; or it dereferences a null pointer, or the
-- fuel runs out.
pub data Answer : Type 0 where
  replied : Result ℕ → Kernel → Answer
  crashed : Answer
  unfinished : Answer

abbrev pub sent : Outcome → Answer
sent (done k) = replied (ok 0) k
sent fault = crashed
sent more = unfinished

abbrev pub user_info : Kernel → ℕ → SigInfo
user_info k sig = record {
  signo = sig;
  code = si_user;
  pid = k.current;
  uid = (ids_of k k.current).uid;
}

-- The kernel with the siginfo of a process filled in.
abbrev pub informed : Kernel → ℕ → ℕ → Kernel
informed k pid sig = with_signals k pid (record (k.table pid).signals { siginfo = user_info k sig })

-- The caller is not the superuser, and its effective user is not that of the process.
abbrev pub may_not_signal : Kernel → ℕ → Bool
may_not_signal k pid =
    (ids_of k k.current).euid != 0 && (ids_of k k.current).euid != (ids_of k pid).euid

module _ (yield : Kernel → Kernel) (fuel : ℕ) where
  -- `sys_kill` for a signal in range and a positive process id.
  pub kill_one : Kernel → ℕ → ℕ → Answer
  kill_one k pid sig =
      if not (process_valid k (pos pid))
      then replied (err esrch) k
      else if may_not_signal k pid
      then replied (err eperm) k
      else sent (send yield fuel (informed k pid sig) pid sig)

  -- The loop of `__sys_killpg`, with `n` rounds left from process `i` on.
  pub killpg_from : ℕ → ℕ → Kernel → ℕ → ℕ → Answer
  killpg_from zero i k pgid sig = replied (ok 0) k
  killpg_from (suc n) i k pgid sig = elim ((ids_of k i).pgid == pgid) [
    | false ↦ killpg_from n (suc i) k pgid sig
    | true ↦ elim (kill_one k i sig) [
      | replied (ok r) k' ↦ killpg_from n (suc i) k' pgid sig
      | replied (err e) k' ↦ replied (err e) k'
      | crashed ↦ crashed
      | unfinished ↦ unfinished
    ]
  ]

  -- `__sys_killpg`
  pub killpg : Kernel → ℕ → ℕ → Answer
  killpg k pgid sig = killpg_from (k.limit - 1) 1 k pgid sig

  abbrev pub kill_target : Kernel → ℤ → ℕ → Answer
  kill_target k (negsuc zero) sig = replied (err enosys) k
  kill_target k (negsuc (suc n)) sig = killpg k (n + 2) sig
  kill_target k (pos zero) sig = killpg k 0 sig
  kill_target k (pos (suc n)) sig = kill_one k (suc n) sig

  -- `sys_kill`
  pub kill : Kernel → ℤ → ℤ → Answer
  kill k pid (negsuc n) = replied (err einval) k
  kill k pid (pos sig) = if leb nsig sig then replied (err einval) k else kill_target k pid sig

-- The signals whose action cannot be set.
abbrev pub fixed_action : ℕ → Bool
fixed_action sig = leb nsig sig || (sig == sigkill || sig == sigstop)

abbrev pub with_action : Signals → ℕ → SigAction → Signals
with_action s sig a = record s { actions = λ j. if j == sig then a else s.actions j }

-- `sys_sigaction`: the old action, and the signals with the new one if it is given.
pub sigaction : Signals → ℤ → Option SigAction → Result SigAction × Signals
sigaction s (negsuc n) act = (err einval, s)
sigaction s (pos sig) act =
    if fixed_action sig
    then (err einval, s)
    else (ok (s.actions sig), elim act [ none ↦ s | some a ↦ with_action s sig a ])

abbrev pub plain_action : ℕ → SigAction
plain_action func = record {
  handler = func;
  sigaction = 0;
  flags = 0;
  mask = replicate sigset_bytes 0;
}

-- The answer of `sys_signal`; it compares that of `sys_sigaction` with -1, which it never is.
abbrev pub old_handler : Result SigAction → ℕ
old_handler (ok a) = a.handler
old_handler (err e) = sig_err

-- `sys_signal`
pub signal : Signals → ℤ → ℕ → ℕ × Signals
unfolding sigaction
signal s sig func = let (r, s') = sigaction s sig (some (plain_action func)) in (old_handler r, s')

-- `sys_sigpending`
pub sigpending : Signals → SigSet
sigpending s = s.pending

-- `how` of `sys_sigprocmask`: SIG_BLOCK is 0, SIG_UNBLOCK 1 and SIG_SETMASK 2.
abbrev pub sig_block : ℕ
sig_block = 0

abbrev pub sig_unblock : ℕ
sig_unblock = 1

abbrev pub sig_setmask : ℕ
sig_setmask = 2

-- `sys_sigprocmask`: its result, the old set, which is written even on an error, and the signals.
pub sigprocmask : Signals → ℕ → Option SigSet → Result ℕ × SigSet × Signals
sigprocmask s how none = (ok 0, s.blocked, s)
sigprocmask s how (some t) =
    if how == sig_block
    then (ok 0, s.blocked, record s { blocked = SigSet.union s.blocked t })
    else if how == sig_unblock
    then (ok 0, s.blocked, record s { blocked = SigSet.minus s.blocked t })
    else if how == sig_setmask
    then (ok 0, s.blocked, record s { blocked = t })
    else (err einval, s.blocked, s)

-- The busy waits of `sys_pause` and `sys_sigsuspend`: `wait` is what the rest of the system does
-- until the caller next looks at `p_pause` and finds it clear, if it ever does.
module _ (wait : Kernel → Option Kernel) where
  abbrev paused : Kernel → SigSet → Kernel
  paused k blocked =
      with_signals k k.current
        (record (k.table k.current).signals { blocked = blocked; pause = true })

  -- `sys_pause`
  pub pause : Kernel → Option (Result ℕ × Kernel)
  pause k = elim (wait (paused k (k.table k.current).signals.blocked)) [
    | none ↦ none
    | some k' ↦ some (err eintr, k')
  ]

  -- `sys_sigsuspend`, by the process that calls it.
  pub sigsuspend : Kernel → SigSet → Option (Result ℕ × Kernel)
  sigsuspend k mask = elim (wait (paused k mask)) [
    | none ↦ none
    | some k' ↦ some (
      err eintr,
      with_signals k' k.current
          (record (k'.table k.current).signals { blocked = (k.table k.current).signals.blocked }),
    )
  ]
