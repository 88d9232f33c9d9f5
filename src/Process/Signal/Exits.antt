-- ===== src/Process/Signal/Exits.antt =====
-- Signals that end a process that does not run: `process_send_signal` of kernel/process.c.
use os0_kernel.Prelude.{
  ℕ, suc, ◌≡◌, ◌≢◌, refl, ◌∙◌, ap, sym, true, false, ◌&&◌, some, inl, inr, arith, ◌==◌, ◌!=◌,
  Bool-cases,
}
use os0_kernel.Libk.SigSet
use os0_kernel.Process.State.{SigAction, Task, Process, Kernel, with_process}
use os0_kernel.Process.Signal.{
  sigkill, sig_ign, Outcome, done, plain_handler, is_exit, continued, finish, notify_parent, act,
  send,
}
use os0_kernel.Process.Signal.Defaults.{Kills, Kills-is_exit}
use os0_kernel.Process.Signal.Send.{entered, recorded, send-sigchld_only}

-- The signal gets past the tests on blocked and ignored signals.
pub record Passes (k : Kernel) (pid sig : ℕ) : Type 0 where
  pub not_blocked : (sig != sigkill && SigSet.member (k.table pid).signals.blocked sig) ≡ false
  pub not_ignored :
      (sig != sigkill && plain_handler ((k.table pid).signals.actions sig) sig_ign) ≡ false

-- The process has a task, and neither it nor its parent is the one that runs.
pub record Elsewhere (k : Kernel) (pid : ℕ) (task : Task) : Type 0 where
  pub has_task : (k.table pid).task ≡ some task
  pub no_loop : task.ppid ≢ pid
  pub not_running : pid ≢ k.current
  pub parent_not_running : task.ppid ≢ k.current

module _ (yield : Kernel → Kernel) (fuel : ℕ) where
  -- Telling the parent leaves the process as it is.
  pub notify_parent_lem :
      (k : Kernel) (pid : ℕ) {task : Task}
      → Elsewhere k pid task
      → (after : Kernel) × (notify_parent yield (send yield (suc fuel)) k pid ≡ done after)
        × (after.table pid ≡ k.table pid)
        × (after.exit_task ≡ k.exit_task)
        × (after.current ≡ k.current)
  unfolding notify_parent
  notify_parent_lem k pid {task} w = elim (Bool-cases (task.ppid == 0)) [
    | inl z ↦ (k, rw (w.has_task, notify_parent, z), refl, refl, refl)
    | inr nz ↦
        let (after, eq, o) = send-sigchld_only yield fuel k task.ppid w.parent_not_running in
        (
          after,
          rw (w.has_task, notify_parent, nz) eq,
          o.others pid (λ e. w.no_loop (sym e)),
          o.same_exit,
          o.same_current,
        )
  ]

module _ (yield : Kernel → Kernel) (fuel : ℕ) (k : Kernel) (pid sig : ℕ) where
  -- `process_send_signal` past its first tests.
  pub send-passed :
      Passes k pid sig
      → send yield (suc fuel) k pid sig
        ≡ finish yield pid sig (
            act yield
              (send yield fuel)
              (entered k pid sig)
              pid
              sig
              ((k.table pid).signals.actions sig))
  unfolding send
  send-passed w = rw (w.not_blocked, w.not_ignored)

  pub finish-recorded :
      (mid : Kernel)
      → pid ≢ mid.current
      → finish yield pid sig (done mid) ≡ done (recorded pid sig mid)
  unfolding finish
  finish-recorded mid ne = ground arith

-- The process marked as terminated with a wait status.
abbrev pub marked : Kernel → ℕ → ℕ → Kernel
marked k pid status = with_process k pid (record (k.table pid) { term = true; waitstat = status })

abbrev ended : Kernel → ℕ → ℕ → Kernel
ended k pid sig = record (marked k pid sig) { exit_task = pid }

act-exit :
    (yield : Kernel → Kernel) (call : Kernel → ℕ → ℕ → Outcome) (k : Kernel) (pid sig : ℕ)
    (a : SigAction)
    → is_exit sig a ≡ true
    → act yield call k pid sig a ≡ notify_parent yield call (ended k pid sig) pid
unfolding act
act-exit yield call k pid sig a e = rw e

-- `switch` changes neither the task nor the signals of a process.
module _ (k : Kernel) (pid sig status : ℕ) where
  pub marked-task : ((marked (entered k pid sig) pid status).table pid).task ≡ (k.table pid).task
  unfolding continued
  marked-task = ground arith

  pub marked-term : ((marked (entered k pid sig) pid status).table pid).term ≡ true
  marked-term = ground arith

  pub marked-waitstat : ((marked (entered k pid sig) pid status).table pid).waitstat ≡ status
  marked-waitstat = ground arith

pub recorded-same :
    (k : Kernel) (pid sig : ℕ)
    → (((recorded pid sig k).table pid).term ≡ (k.table pid).term)
      × (((recorded pid sig k).table pid).waitstat ≡ (k.table pid).waitstat)
      × (((recorded pid sig k).table pid).signals.sig ≡ sig)
recorded-same k pid sig = (ground arith, ground arith, ground arith)

module _ (yield : Kernel → Kernel) (fuel : ℕ) (k : Kernel) (pid sig : ℕ) {task : Task} where
  -- A signal that ends the process, SIGKILL or one of the 22 whose default action is to terminate
  -- (6, 14, 7, 8, 1, 4, 2, 29, 13, 27, 30, 3, 11, 16, 31, 15, 5, 10, 12, 26, 24 and 25) and which is
  -- at its default, and that is neither blocked nor ignored: where neither the process nor its
  -- parent runs, the process is marked as terminated, its wait status is the signal, the signal is
  -- left for it to handle, and it becomes the process that exits.
  pub send-exit :
      Elsewhere k pid task
      → Passes k pid sig
      → Kills sig ((k.table pid).signals.actions sig)
      → (after : Kernel) × (send yield (suc (suc fuel)) k pid sig ≡ done after)
        × ((after.table pid).term ≡ true)
        × ((after.table pid).waitstat ≡ sig)
        × ((after.table pid).signals.sig ≡ sig)
        × (after.exit_task ≡ pid)
  send-exit w passes kills =
      let there : Elsewhere (ended (entered k pid sig) pid sig) pid task = record {
        has_task = marked-task k pid sig sig ∙ w.has_task;
        no_loop = w.no_loop;
        not_running = w.not_running;
        parent_not_running = w.parent_not_running;
      } in
      let (mid, eq, same, ex, cu) =
        notify_parent_lem yield fuel (ended (entered k pid sig) pid sig) pid there in
      let (term, waitstat, left) = recorded-same mid pid sig in
      (
        recorded pid sig mid,
        send-passed yield (suc fuel) k pid sig passes
            ∙ ap (finish yield pid sig) (
                act-exit yield (send yield (suc fuel)) (entered k pid sig) pid sig
                  ((k.table pid).signals.actions sig)
                  (Kills-is_exit sig ((k.table pid).signals.actions sig) kills)
                ∙ eq)
            ∙ finish-recorded yield fuel k pid sig mid (λ e. w.not_running (e ∙ cu)),
        term ∙ ap (λ (p : Process). p.term) same ∙ marked-term k pid sig sig,
        waitstat ∙ ap (λ (p : Process). p.waitstat) same ∙ marked-waitstat k pid sig sig,
        left,
        ex,
      )
