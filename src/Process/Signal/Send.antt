-- ===== src/Process/Signal/Send.antt =====
-- What `process_send_signal` does to the process that it is called for.
use os0_kernel.Prelude.{
  ℕ, suc, ◌≡◌, ◌≢◌, refl, Bool, true, false, ◌&&◌, inl, inr, arith, ◌!=◌, if◌then◌else◌, Bool-cases,
  Option-cases,
}
use os0_kernel.Libk.SigSet
use os0_kernel.Process.State.{SigAction, Process, Kernel, with_process, with_signals}
use os0_kernel.Process.Signal.{
  sigkill, sigchld, sig_ign, Outcome, done, fault, more, no_cldstop, plain_handler, terminates,
  stops, is_exit, is_stop, continued, finish, notify_parent, act, send,
}

-- A child's signal neither ends nor stops the parent.
pub act-sigchld :
    (yield : Kernel → Kernel) (call : Kernel → ℕ → ℕ → Outcome) (k : Kernel) (pid : ℕ)
    (a : SigAction)
    → act yield call k pid sigchld a ≡ done k
unfolding act is_exit is_stop terminates stops
act-sigchld yield call k pid a = refl

if-ne-more : (b : Bool) {x y : Outcome} → x ≢ more → y ≢ more → (if b then x else y) ≢ more
if-ne-more true h k = h
if-ne-more false h k = k

module _ (yield : Kernel → Kernel) where
  finish-ne-more : (pid sig : ℕ) (o : Outcome) → o ≢ more → finish yield pid sig o ≢ more
  unfolding finish
  finish-ne-more pid sig (done k) h = λ e. cc
  finish-ne-more pid sig fault h = λ e. cc
  finish-ne-more pid sig more h = λ e. h refl

  send-sigchld : (fuel : ℕ) (k : Kernel) (pid : ℕ) → send yield (suc fuel) k pid sigchld ≢ more
  unfolding send finish
  send-sigchld fuel k pid = ground (
    arith,
    act-sigchld yield (send yield fuel)
        (record (with_process k pid (continued sigchld (k.table pid))) { switch_enabled = false })
        pid ((k.table pid).signals.actions sigchld),
  )

  notify_parent-ne-more :
      (fuel : ℕ) (k : Kernel) (pid : ℕ) → notify_parent yield (send yield (suc fuel)) k pid ≢ more
  unfolding notify_parent
  notify_parent-ne-more fuel k pid = elim (Option-cases (k.table pid).task) [
    | inl e ↦ rw (e, notify_parent) (λ h. cc)
    | inr (task, e) ↦ rw (e, notify_parent) (ground (arith, send-sigchld fuel k task.ppid))
  ]

  act-ne-more :
      (fuel : ℕ) (k : Kernel) (pid sig : ℕ) (a : SigAction)
      → act yield (send yield (suc fuel)) k pid sig a ≢ more
  unfolding act
  act-ne-more fuel k pid sig a = if-ne-more (is_exit sig a) (notify_parent-ne-more fuel _ pid) (
      if-ne-more (is_stop sig a)
        (if-ne-more (no_cldstop a) (λ e. cc) (notify_parent-ne-more fuel _ pid)) (λ e. cc))

  -- Two levels of calls are enough: a signal for a process, and SIGCHLD for its parent.
  pub send_enough :
      (fuel : ℕ) (k : Kernel) (pid sig : ℕ) → send yield (suc (suc fuel)) k pid sig ≢ more
  unfolding send
  send_enough fuel k pid sig =
      let p = k.table pid in
      let a = p.signals.actions sig in
      if-ne-more (sig != sigkill && SigSet.member p.signals.blocked sig) (λ e. cc)
        (if-ne-more (sig != sigkill && plain_handler a sig_ign) (λ e. cc)
          (finish-ne-more pid sig _ (act-ne-more fuel _ pid sig a)))

-- The kernel after a call that leaves the other processes, `exit_task` and the choice of the
-- running process as they were.
pub record OnlyFor (q : ℕ) (k after : Kernel) : Type 0 where
  pub others : (j : ℕ) → j ≢ q → after.table j ≡ k.table j
  pub same_exit : after.exit_task ≡ k.exit_task
  pub same_current : after.current ≡ k.current

module _ (k : Kernel) (q : ℕ) where
  with_process-OnlyFor :
      (p : Process) (b : Bool) → OnlyFor q k (record (with_process k q p) { switch_enabled = b })
  with_process-OnlyFor p b = record {
    others = λ j ne. ground arith;
    same_exit = refl;
    same_current = refl;
  }

-- The kernel behind the `switch`, and behind the end of a call for a process that does not run.
abbrev pub entered : Kernel → ℕ → ℕ → Kernel
entered k pid sig = record (with_process k pid (continued sig (k.table pid))) {
  switch_enabled = false;
}

abbrev pub recorded : ℕ → ℕ → Kernel → Kernel
recorded pid sig k = record (with_signals k pid (record (k.table pid).signals { sig = sig })) {
  switch_enabled = true;
}

-- SIGCHLD for a process that does not run touches nothing but that process.
module _ (yield : Kernel → Kernel) (fuel : ℕ) where
  pub send-sigchld_only :
      (k : Kernel) (q : ℕ)
      → q ≢ k.current
      → (after : Kernel) × (send yield (suc fuel) k q sigchld ≡ done after) × OnlyFor q k after
  unfolding send finish continued
  send-sigchld_only k q ne =
      let p = k.table q in
      elim (Bool-cases (SigSet.member p.signals.blocked sigchld)) [
        | inl e ↦ (
          record (with_signals k q
              (record p.signals { pending = SigSet.add p.signals.pending sigchld })) {
                switch_enabled = true;
              },
          rw e,
          with_process-OnlyFor k q _ true,
        )
        | inr e ↦ elim (Bool-cases (plain_handler (p.signals.actions sigchld) sig_ign)) [
          | inl i ↦ (
            record k { switch_enabled = true },
            ground arith,
            record { others = λ j h. refl; same_exit = refl; same_current = refl },
          )
          | inr i ↦ (
            recorded q sigchld (entered k q sigchld),
            ground (
              arith,
              act-sigchld yield (send yield fuel) (entered k q sigchld) q
                  (p.signals.actions sigchld),
            ),
            record { others = λ j h. ground arith; same_exit = refl; same_current = refl },
          )
        ]
      ]

module _ (yield : Kernel → Kernel) (fuel : ℕ) (k : Kernel) (pid : ℕ) where
  -- Any signal but SIGKILL that the process blocks is only recorded as pending.
  pub send-blocked :
      (sig : ℕ)
      → sig ≢ sigkill
      → SigSet.member (k.table pid).signals.blocked sig ≡ true
      → send yield (suc fuel) k pid sig
        ≡ done
            (record (with_signals k pid (record (k.table pid).signals {
              pending = SigSet.add (k.table pid).signals.pending sig;
            })) { switch_enabled = true })
  unfolding send
  send-blocked sig ne b = ground arith
