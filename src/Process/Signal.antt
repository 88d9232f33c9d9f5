-- ===== src/Process/Signal.antt =====
-- Sending and delivering signals: `process_send_signal`, `process_handle_signal` and
-- `process_signal_handled` of kernel/process.c.
pub mod Send
pub mod Exits
pub mod Stops
pub mod Deliver
pub mod Defaults
pub mod Redeliver
use os0_kernel.Prelude.{
  ℕ, zero, suc, ◌+◌, ◌*◌, Bool, true, false, not, ◌&&◌, ◌||◌, Option, none, some, bit_and, bit_or,
  ltb, leb, ◌==◌, ◌!=◌, if◌then◌else◌,
}
use os0_kernel.Libk.SigSet
use os0_kernel.Libk.SigSet.{SigSet}
use os0_kernel.Memory.{alloc_page, free_page}
use os0_kernel.Process.State.{
  SigAction, SigInfo, Task, Signals, Process, Kernel, with_process, with_signals,
}

abbrev pub sigkill : ℕ
sigkill = 9

abbrev pub sigchld : ℕ
sigchld = 17

abbrev pub sigcont : ℕ
sigcont = 18

abbrev pub sigstop : ℕ
sigstop = 19

abbrev pub sigsys : ℕ
sigsys = 31

abbrev pub sig_dfl : ℕ
sig_dfl = 0

abbrev pub sig_ign : ℕ
sig_ign = 1

-- A call that dereferences a null `p_task` is a fault; `more` means that the fuel ran out.
pub data Outcome : Type 0 where
  done : Kernel → Outcome
  fault : Outcome
  more : Outcome

-- `sa_flags & SA_SIGINFO`, `& SA_NOCLDSTOP`, `& SA_NODEFER`
abbrev pub has_siginfo : SigAction → Bool
has_siginfo a = bit_and a.flags 0x4 != 0

abbrev pub no_cldstop : SigAction → Bool
no_cldstop a = bit_and a.flags 0x1 != 0

abbrev pub no_defer : SigAction → Bool
no_defer a = bit_and a.flags 0x40000000 != 0

-- The signals of the first group of cases: the default is to terminate.
unfoldable pub terminates : ℕ → Bool
terminates sig =
    leb 1 sig && leb sig 8
    || leb 10 sig && leb sig 16
    || leb 24 sig && leb sig 27
    || leb 29 sig && leb sig 31

-- SIGTSTP, SIGTTIN and SIGTTOU: the default is to stop.
unfoldable pub stops : ℕ → Bool
stops sig = leb 20 sig && leb sig 22

-- `WIFSTOPPED`
abbrev pub is_stopped : ℕ → Bool
is_stopped status = bit_and status 0xff == 0x7f

-- `!(sa_flags & SA_SIGINFO) && sa_handler == …`
abbrev pub plain_handler : SigAction → ℕ → Bool
plain_handler a handler = not (has_siginfo a) && a.handler == handler

-- The locals `exit` and `stop` when the `switch` is over.
unfoldable pub is_exit : ℕ → SigAction → Bool
is_exit sig a = sig == sigkill || terminates sig && plain_handler a sig_dfl

unfoldable pub is_stop : ℕ → SigAction → Bool
is_stop sig a = sig == sigstop || stops sig && plain_handler a sig_dfl

-- The case SIGCONT of the `switch`.
pub continued : ℕ → Process → Process
continued sig p =
    if sig == sigcont && is_stopped p.waitstat then record p { term = false; waitstat = 0 } else p

module _ (yield : Kernel → Kernel) where
  -- The end of `process_send_signal`; `yield` is `task_yield`.
  pub finish : ℕ → ℕ → Outcome → Outcome
  finish pid sig fault = fault
  finish pid sig more = more
  finish pid sig (done k) =
      let p = k.table pid in
      let k' = record (with_signals k pid (record p.signals { sig = sig })) {
        switch_enabled = true;
      } in
      done (if pid == k.current then yield k' else k')

  -- `if (ppid != 0) process_send_signal (ppid, SIGCHLD)`, with the call as a function.
  pub notify_parent : (Kernel → ℕ → ℕ → Outcome) → Kernel → ℕ → Outcome
  notify_parent send k pid = elim (k.table pid).task [
    | none ↦ fault
    | some task ↦ if task.ppid == 0 then done k else send k task.ppid sigchld
  ]

  -- What follows the `switch`, with `a` the action of the signal.
  pub act : (Kernel → ℕ → ℕ → Outcome) → Kernel → ℕ → ℕ → SigAction → Outcome
  act send k pid sig a =
      let p = k.table pid in
      if is_exit sig a
      then notify_parent send
          (record (with_process k pid (record p { term = true; waitstat = sig })) {
            exit_task = pid;
          })
          pid
      else if is_stop sig a
      then (let k' =
            with_process k pid (record p { term = true; waitstat = bit_or (sig * 256) 0x7f }) in
          if no_cldstop a then done k' else notify_parent send k' pid)
      else done k

  -- `process_send_signal`; the fuel bounds the depth of the calls for parents.
  pub send : ℕ → Kernel → ℕ → ℕ → Outcome
  send zero k pid sig = more
  send (suc fuel) k pid sig =
      let p = k.table pid in
      let a = p.signals.actions sig in
      if sig != sigkill && SigSet.member p.signals.blocked sig
      then done
          (record (with_signals k pid
            (record p.signals { pending = SigSet.add p.signals.pending sig })) {
              switch_enabled = true;
            })
      else if sig != sigkill && plain_handler a sig_ign
      then done (record k { switch_enabled = true })
      else finish pid sig (
          act (send fuel) (record (with_process k pid (continued sig p)) { switch_enabled = false })
            pid sig a)

-- The loop over the pending signals in `process_handle_signal`, from `i` on for `n` rounds.
unfoldable pub next_pending : ℕ → ℕ → Signals → Option ℕ
next_pending zero i s = none
next_pending (suc n) i s =
    let rest = next_pending n (suc i) s in
    if not (SigSet.member s.blocked i) && SigSet.member s.pending i then some i else rest

-- The choice of the signal to be handled; signal 0 is none.
pub choose_signal : Signals → Signals
choose_signal s =
    if s.sig == 0
    then elim (next_pending sigsys 1 s) [
      | none ↦ s
      | some i ↦ record s { sig = i; pending = SigSet.del s.pending i }
    ]
    else s

-- What a delivered signal does to the sets.
pub block_delivered : Signals → Signals
block_delivered s =
    let a = s.actions s.sig in
    let blocked = SigSet.union s.blocked a.mask in
    record s {
      pending = SigSet.del s.pending s.sig;
      blocked = if no_defer a then blocked else SigSet.add blocked s.sig;
    }

-- `process_handle_signal`, on the way back to user mode. The page for the siginfo is mapped anew.
pub handle_signal : Kernel → Kernel
handle_signal k =
    let s = choose_signal (k.table k.current).signals in
    let k' = record (with_signals k k.current s) { process_signal = s.sig } in
    if s.sig == 0
    then k'
    else (let a = s.actions s.sig in
        let (paddr, mem) = alloc_page k.mem in
        record (with_signals k' k.current (block_delivered s)) {
          mem = mem;
          siginfo_paddr = paddr;
          siginfo_page = s.siginfo;
          process_signal_handler = if has_siginfo a then a.sigaction else a.handler;
        })

abbrev pub no_siginfo : SigInfo
no_siginfo = record { signo = 0; code = 0; pid = 0; uid = 0 }

-- `process_signal_handled`, when the handler has returned.
pub signal_handled : Kernel → Kernel
signal_handled k =
    let s = (k.table k.current).signals in
    record (with_signals k k.current (record s { sig = 0; pause = false; siginfo = no_siginfo })) {
      mem = free_page k.mem k.siginfo_paddr;
    }
