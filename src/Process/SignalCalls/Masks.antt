-- ===== src/Process/SignalCalls/Masks.antt =====
-- Actions and blocked signals: `sys_sigaction`, `sys_signal` and `sys_sigprocmask` of
-- uapi/signal.c.
use os0_kernel.Prelude.{
  ℕ, ◌<◌, ◌≡◌, not, ◌&&◌, ◌||◌, Option, some, List, [], ◌∷◌, arith, ◌==◌, if◌then◌else◌,
}
use os0_kernel.Prelude.Int.{ℤ}
use os0_kernel.Libk.SigSet
use os0_kernel.Libk.SigSet.{SigSet, nsig}
use os0_kernel.Libk.SigSet.Laws.{IsValid, member-union, member-minus}
use os0_kernel.Process.State.{SigAction, Signals}
use os0_kernel.Process.Signal.{sigkill, sigstop}
use os0_kernel.Process.SignalCalls.{
  sigaction, signal, sigprocmask, sig_block, sig_unblock, sig_setmask,
}

pub data Call : Type 0 where
  sigactions : ℤ → Option SigAction → Call
  signals : ℤ → ℕ → Call
  masks : ℕ → Option SigSet → Call

pub step : Signals → Call → Signals
step s (sigactions sig act) = (sigaction s sig act).1
step s (signals sig func) = (signal s sig func).1
step s (masks how t) = (sigprocmask s how t).2

pub run : Signals → List Call → Signals
run s [] = s
run s (c ∷ cs) = run (step s c) cs

-- The two actions that no process may change.
abbrev pub SameFixed : Signals → Signals → Type 0
SameFixed s t = (t.actions sigkill ≡ s.actions sigkill) × (t.actions sigstop ≡ s.actions sigstop)

-- `sys_sigprocmask` with a set: SIG_BLOCK blocks what was blocked or is in the set, SIG_UNBLOCK
-- what was blocked and is not in the set, SIG_SETMASK what is in the set, and any other `how`
-- leaves the blocked signals alone.
pub member-sigprocmask :
    (s : Signals) (how : ℕ) (t : SigSet) (j : ℕ)
    → IsValid s.blocked
    → IsValid t
    → j < nsig
    → SigSet.member (sigprocmask s how (some t)).2.blocked j ≡ (
        if how == sig_block
        then SigSet.member s.blocked j || SigSet.member t j
        else if how == sig_unblock
        then SigSet.member s.blocked j && not (SigSet.member t j)
        else if how == sig_setmask
        then SigSet.member t j
        else SigSet.member s.blocked j)
unfolding sigprocmask
member-sigprocmask s how t j v w lt =
    ground (arith, member-union s.blocked t j v w, member-minus s.blocked t j v w lt)
