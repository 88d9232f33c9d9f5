-- ===== src/Process/Signal/Stops.antt =====
-- Signals that stop a process that does not run, or let it go on: `process_send_signal` of
-- kernel/process.c.
use os0_kernel.Prelude.{
  ℕ, zero, suc, ◌*◌, ◌<◌, ◌≡◌, ◌≢◌, refl, ◌∙◌, ap, Bool, true, false, ◌&&◌, arith, bit_or,
  if◌then◌else◌,
}
use os0_kernel.Process.State.{SigAction, Task, Process, Kernel}
use os0_kernel.Process.Signal.{
  sigcont, Outcome, done, no_cldstop, terminates, stops, is_stopped, is_exit, is_stop, continued,
  finish, notify_parent, act, send,
}
use os0_kernel.Process.Signal.Defaults.{Halts, Halts-is_stop, Halts-stays}
use os0_kernel.Process.Signal.Send.{entered, recorded}
use os0_kernel.Process.Signal.Exits.{
  Passes, Elsewhere, notify_parent_lem, send-passed, finish-recorded, marked, marked-task,
  marked-term, marked-waitstat, recorded-same,
}

-- The wait status of a stopped process is recognised by `WIFSTOPPED`.
stop_status : ℕ → ℕ
stop_status sig = bit_or (sig * 256) 0x7f

all_stopped : ℕ → Bool
unfolding stop_status
all_stopped zero = true
all_stopped (suc n) = is_stopped (stop_status n) && all_stopped n

all_stopped_lem : (n sig : ℕ) → sig < n → all_stopped n ≡ true → is_stopped (stop_status sig) ≡ true
unfolding all_stopped
all_stopped_lem zero sig lt h = absurd (omega arith)
all_stopped_lem (suc n) sig lt h = ground (arith, all_stopped_lem n sig)

is_stopped-stop_status : (sig : ℕ) → sig < 48 → is_stopped (bit_or (sig * 256) 0x7f) ≡ true
unfolding all_stopped
is_stopped-stop_status sig lt = all_stopped_lem 48 sig lt refl

act-stop :
    (yield : Kernel → Kernel) (call : Kernel → ℕ → ℕ → Outcome) (k : Kernel) (pid sig : ℕ)
    (a : SigAction)
    → is_exit sig a ≡ false
    → is_stop sig a ≡ true
    → act yield call k pid sig a ≡ (
        if no_cldstop a
        then done (marked k pid (bit_or (sig * 256) 0x7f))
        else notify_parent yield call (marked k pid (bit_or (sig * 256) 0x7f)) pid)
unfolding act
act-stop yield call k pid sig a e s = rw (e, s)

module _ (yield : Kernel → Kernel) (fuel : ℕ) (k : Kernel) (pid sig : ℕ) {task : Task} where
  -- A signal below 48 that stops the process, SIGSTOP or one of SIGTTIN, SIGTTOU and SIGTSTP (21, 22
  -- and 20) at its default, and that is neither blocked nor ignored: where neither the process nor its parent
  -- runs, the process is marked as terminated with a wait status that WIFSTOPPED recognises.
  pub send-stop :
      sig < 48
      → Elsewhere k pid task
      → Passes k pid sig
      → Halts sig ((k.table pid).signals.actions sig)
      → (after : Kernel) × (send yield (suc (suc fuel)) k pid sig ≡ done after)
        × ((after.table pid).term ≡ true)
        × (is_stopped (after.table pid).waitstat ≡ true)
        × ((after.table pid).signals.sig ≡ sig)
  send-stop small w passes halts =
      let status = bit_or (sig * 256) 0x7f in
      let a = (k.table pid).signals.actions sig in
      let stopped : Kernel = marked (entered k pid sig) pid status in
      let there : Elsewhere stopped pid task = record {
        has_task = marked-task k pid sig status ∙ w.has_task;
        no_loop = w.no_loop;
        not_running = w.not_running;
        parent_not_running = w.parent_not_running;
      } in
      let (mid, eq, same, cu) = told stopped pid (no_cldstop a) there in
      let (term, waitstat, left) = recorded-same mid pid sig in
      (
        recorded pid sig mid,
        send-passed yield (suc fuel) k pid sig passes
            ∙ ap (finish yield pid sig) (
                act-stop yield (send yield (suc fuel)) (entered k pid sig) pid sig a
                  (Halts-stays sig a halts) (Halts-is_stop sig a halts)
                ∙ eq)
            ∙ finish-recorded yield fuel k pid sig mid (λ e. w.not_running (e ∙ cu)),
        term ∙ ap (λ (p : Process). p.term) same ∙ marked-term k pid sig status,
        ap is_stopped
              (waitstat ∙ ap (λ (p : Process). p.waitstat) same ∙ marked-waitstat k pid sig status)
            ∙ is_stopped-stop_status sig small,
        left,
      )
    where
      told :
          (k : Kernel) (pid : ℕ) (quiet : Bool)
          → Elsewhere k pid task
          → (mid : Kernel) × ((if quiet
                then done k
                else notify_parent yield (send yield (suc fuel)) k pid)
              ≡ done mid)
            × (mid.table pid ≡ k.table pid)
            × (mid.current ≡ k.current)
      told k pid true w = (k, refl, refl, refl)
      told k pid false w =
          let (mid, eq, same, ex, cu) = notify_parent_lem yield fuel k pid w in (mid, eq, same, cu)

module _ (yield : Kernel → Kernel) (fuel : ℕ) (k : Kernel) (pid : ℕ) where
  -- SIGCONT that is neither blocked nor ignored lets a stopped process that does not run
  -- go on: it is no longer marked as terminated, and its wait status is cleared.
  pub send-sigcont :
      Passes k pid sigcont
      → pid ≢ k.current
      → is_stopped (k.table pid).waitstat ≡ true
      → (after : Kernel) × (send yield (suc fuel) k pid sigcont ≡ done after)
        × ((after.table pid).term ≡ false)
        × ((after.table pid).waitstat ≡ 0)
        × ((after.table pid).signals.sig ≡ sigcont)
  unfolding act is_exit is_stop terminates stops continued
  send-sigcont passes ne stopped =
      let (term, waitstat, left) = recorded-same (entered k pid sigcont) pid sigcont in
      (
        recorded pid sigcont (entered k pid sigcont),
        send-passed yield fuel k pid sigcont passes
            ∙ finish-recorded yield fuel k pid sigcont (entered k pid sigcont) ne,
        term ∙ ground arith,
        waitstat ∙ ground arith,
        left,
      )
