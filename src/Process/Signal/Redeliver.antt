-- ===== src/Process/Signal/Redeliver.antt =====
-- A signal that is sent again while it is handled: kernel/process.c.
use os0_kernel.Prelude.{ℕ, suc, ◌≡◌, ◌≢◌, refl, true, false, some, inl, inr, arith, subst, sym}
use os0_kernel.Libk.SigSet
use os0_kernel.Libk.SigSet.Laws.{IsValid, member-add}
use os0_kernel.Process.State.{Kernel, with_signals}
use os0_kernel.Process.Signal.Send.{send-blocked}
use os0_kernel.Process.Signal.{sigkill, no_defer, handle_signal, signal_handled, send, done}
use os0_kernel.Process.Signal.Deliver.{
  deliverable, FirstFrom, ValidSets, current_signals, handle_signal_first,
  handle_signal-pending-IsValid, handled-deliverable,
}

-- The handler's return leaves the blocked signals as delivery set them.
signal_handled-blocked :
    (k : Kernel)
    → ((signal_handled k).current ≡ k.current)
      × ((current_signals (signal_handled k)).blocked ≡ (current_signals k).blocked)
      × ((current_signals (signal_handled k)).sig ≡ 0)
unfolding signal_handled
signal_handled-blocked k = (refl, ground arith, ground arith)

current-handle_signal : (k : Kernel) → (handle_signal k).current ≡ k.current
unfolding handle_signal
current-handle_signal k = ground arith

-- The kernel when a blocked signal has been sent to the running process.
abbrev repeated : Kernel → ℕ → Kernel
repeated k sig =
    record (with_signals k k.current
      (record (current_signals k) { pending = SigSet.add (current_signals k).pending sig })) {
        switch_enabled = true;
      }

signal_handled-pending :
    (k : Kernel) → (current_signals (signal_handled k)).pending ≡ (current_signals k).pending
unfolding signal_handled
signal_handled-pending k = ground arith

-- A signal other than SIGKILL whose action has no SA_NODEFER, and which is the first of 1 to 31 that
-- is pending and not blocked where no signal is left to handle, is delivered, and its handler
-- returns: sending it to the process again leaves it pending and blocked, and the next return to
-- user mode does not deliver it. The sets have the length of a signal set.
pub second_delivery_never :
    (yield : Kernel → Kernel) (fuel : ℕ) (k : Kernel) (sig : ℕ)
    → ValidSets (current_signals k)
    → (current_signals k).sig ≡ 0
    → FirstFrom 31 1 (current_signals k) (some sig)
    → no_defer ((current_signals k).actions sig) ≡ false
    → sig ≢ sigkill
    → let back = signal_handled (handle_signal k) in
      (after : Kernel) × (send yield (suc fuel) back back.current sig ≡ done after)
      × (SigSet.member (current_signals after).pending sig ≡ true)
      × (SigSet.member (current_signals after).blocked sig ≡ true)
      × ((handle_signal after).process_signal ≢ sig)
second_delivery_never yield fuel k sig v idle first defers ne = (
  repeated back sig,
  send-blocked yield fuel back back.current sig ne still,
  pending_again,
  blocked_again,
  λ same.
      elim (handled-deliverable (repeated back sig) (repeated-idle (signal_handled-blocked _).2)) [
        | inl z ↦ omega (arith, first.0)
        | inr d ↦
            blocked_not_deliverable
              (subst (λ i. deliverable (current_signals (repeated back sig)) i ≡ true) same d)
      ],
)
  where
    back : Kernel
    back = signal_handled (handle_signal k)

    still : SigSet.member (current_signals back).blocked sig ≡ true
    still =
        rw ((signal_handled-blocked (handle_signal k)).1)
          (ground (arith, (handle_signal_first k sig v idle first sig).2))

    valid : IsValid (current_signals back).pending
    valid =
        subst IsValid (sym (signal_handled-pending (handle_signal k)))
          (handle_signal-pending-IsValid k sig v idle first)

    pending_again : SigSet.member (current_signals (repeated back sig)).pending sig ≡ true
    pending_again =
        ground
          (arith, member-add (current_signals back).pending sig sig valid (omega (arith, first.1)))

    blocked_again : SigSet.member (current_signals (repeated back sig)).blocked sig ≡ true
    blocked_again = ground (arith, still)

    repeated-idle : (current_signals back).sig ≡ 0 → (current_signals (repeated back sig)).sig ≡ 0
    repeated-idle e = ground arith

    blocked_not_deliverable : deliverable (current_signals (repeated back sig)) sig ≡ true → ⊥
    blocked_not_deliverable d = ground (arith, still)
