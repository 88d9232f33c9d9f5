-- ===== src/Tests/Signals.antt =====
-- Signals to process 3, or to the running process.
use os0_kernel.Prelude.{
  ℕ, inl, subst, ◌≡◌, ◌≢◌, true, false, not, ◌&&◌, ◌||◌, ◌==◌, refl, none, some, List, [], ◌∷◌,
  arith,
}
use os0_kernel.Prelude.Int.{pos}
use os0_kernel.Libk.SigSet
use os0_kernel.Libk.SigSet.{SigSet}
use os0_kernel.Process.State.{Kernel, with_process, with_signals}
use os0_kernel.Process.Signal.{
  send, done, more, sigkill, sigcont, sigstop, is_stopped, handle_signal, signal_handled, no_defer,
}
use os0_kernel.Process.Signal.Send.{send_enough}
use os0_kernel.Process.Signal.Exits.{Passes, Elsewhere, send-exit}
use os0_kernel.Process.Signal.Stops.{send-stop}
use os0_kernel.Process.Signal.Redeliver.{second_delivery_never}
use os0_kernel.Process.Signal.Deliver.{
  ValidSets, deliverable, current_signals, FirstFrom, handle_signal_first,
}
use os0_kernel.Process.Ids.{process_valid}
use os0_kernel.Process.SignalCalls.{kill, sig_block}
use os0_kernel.Process.SignalCalls.Kill.{Justified, LowestMember, kill-Justified}
use os0_kernel.Process.SignalCalls.Masks.{Call, sigactions, signals, masks}
use os0_kernel.Tests.Processes.{
  kernel, yield, process, no_signals, no_signals-IsValid, default_action,
}

-- Process 1 runs.
abbrev idle : Kernel
idle = kernel 1 0

elsewhere : Elsewhere idle 3 (record { pid = 3; ppid = 2 })
elsewhere = record {
  has_task = refl;
  no_loop = omega arith;
  not_running = omega arith;
  parent_not_running = omega arith;
}

passes : (sig : ℕ) → SigSet.member no_signals sig ≡ false → Passes idle 3 sig
passes sig e = record { not_blocked = ground arith; not_ignored = ground arith }

none_blocked :
    (SigSet.member no_signals sigkill ≡ false) × (SigSet.member no_signals sigstop ≡ false)
unfolding SigSet.member
none_blocked = (refl, refl)

send-exit_example :
    (after : Kernel) × (send yield 2 idle 3 sigkill ≡ done after)
    × ((after.table 3).term ≡ true)
    × ((after.table 3).waitstat ≡ sigkill)
    × ((after.table 3).signals.sig ≡ sigkill)
    × (after.exit_task ≡ 3)
send-exit_example =
    send-exit yield 0 idle 3 sigkill elsewhere (passes sigkill none_blocked.0) (inl refl)

send-stop_example :
    (after : Kernel) × (send yield 2 idle 3 sigstop ≡ done after)
    × ((after.table 3).term ≡ true)
    × (is_stopped (after.table 3).waitstat ≡ true)
    × ((after.table 3).signals.sig ≡ sigstop)
send-stop_example =
    send-stop yield 0 idle 3 sigstop (omega arith) elsewhere (passes sigstop none_blocked.1)
      (inl refl)

-- Process 3 is stopped.
abbrev halted : Kernel
halted = with_process idle 3 (record (process 3 2) { term = true; waitstat = 0x137f })

Passes-halted : Passes halted 3 sigcont
unfolding SigSet.member
Passes-halted = record { not_blocked = refl; not_ignored = refl }

send_enough_example : send yield 2 idle 3 sigstop ≢ more
send_enough_example = send_enough yield 0 idle 3 sigstop

-- Process 3 runs, with the signals 2 and 10 pending.
abbrev two_pending : SigSet
two_pending = 0x20 ∷ 0x20 ∷ 0 ∷ 0 ∷ 0 ∷ 0 ∷ []

abbrev signalled : Kernel
signalled =
    let k = kernel 3 0 in with_signals k 3 (record (k.table 3).signals { pending = two_pending })

signalled_sets : ValidSets (current_signals signalled)
signalled_sets = record {
  blocked = no_signals-IsValid;
  pending = record {
    room = refl;
    bytes = (
      omega arith,
      (omega arith, (omega arith, (omega arith, (omega arith, (omega arith, tt))))),
    );
  };
  masks = λ i. no_signals-IsValid;
}

first_pending : FirstFrom 31 1 (current_signals signalled) (some 2)
unfolding SigSet.member
first_pending = (
  omega arith,
  omega arith,
  refl,
  λ j p q.
      subst (λ i. deliverable (current_signals signalled) i ≡ false)
        (let e : 1 ≡ j = omega arith in e) refl,
)

handle_signal_first_example :
    let s = current_signals signalled in
    let s' = current_signals (handle_signal signalled) in
    ((handle_signal signalled).process_signal ≡ 2)
    × (SigSet.member s'.pending 10 ≡ (not (2 == 10) && SigSet.member s.pending 10))
    × (SigSet.member s'.blocked 10 ≡ (
        SigSet.member s.blocked 10
        || SigSet.member (s.actions 2).mask 10
        || not (no_defer (s.actions 2)) && 2 == 10))
handle_signal_first_example = handle_signal_first signalled 2 signalled_sets refl first_pending 10

second_delivery_never_example :
    let back = signal_handled (handle_signal signalled) in
    (after : Kernel) × (send yield 1 back back.current 2 ≡ done after)
    × (SigSet.member (current_signals after).pending 2 ≡ true)
    × (SigSet.member (current_signals after).blocked 2 ≡ true)
    × ((handle_signal after).process_signal ≢ 2)
second_delivery_never_example =
    second_delivery_never yield 0 signalled 2 signalled_sets refl first_pending refl (omega arith)

kill-Justified_example : Justified yield 2 idle 3 sigkill (kill yield 2 idle (pos 3) (pos sigkill))
kill-Justified_example = kill-Justified yield 2 idle 2 sigkill

-- Process 2 belongs to another user; processes 2 and 3 are of the group 2.
abbrev guarded : Kernel
guarded =
    with_process idle 2
      (let p = process 2 1 in record p { ids = record p.ids { uid = 7; euid = 7; suid = 7 } })

lowest : LowestMember guarded 2 2
lowest = record {
  from_one = omega arith;
  in_table = omega arith;
  member = refl;
  lowest = λ j p q. ground arith;
}

there : process_valid guarded (pos 2) ≡ true
unfolding process_valid
there = refl

-- A call that sets an action, and one that may not set it.
abbrev calls : List Call
calls =
    sigactions (pos 2) (some default_action) ∷ signals (pos sigkill) 77 ∷ masks sig_block none ∷ []
