-- ===== src/Process/SignalCalls/Kill.antt =====
-- Who may send signals to whom: `sys_kill` of uapi/signal.c.
use native.Mathlib.Decide.{ℕ_discrete}
use os0_kernel.Prelude.{
  sym, subst, ◌+◌, ◌-◌, ==-ne, Errno, ℕ, zero, suc, ◌≤◌, ◌<◌, ◌≡◌, ◌≢◌, ◌⊎◌, inl, inr, refl, true,
  false, arith, ok, err, eperm, Bool-cases, ◌==◌, leb,
}
use os0_kernel.Prelude.Int.{pos}
use os0_kernel.Libk.SigSet.{nsig}
use os0_kernel.Process.State.{Kernel}
use os0_kernel.Process.Ids.{process_valid, ids_of}
use os0_kernel.Process.Signal.{send, done, fault, more, Outcome}
use os0_kernel.Process.SignalCalls.{
  killpg_from, Answer, replied, crashed, unfinished, sent, kill_one, killpg, kill, may_not_signal,
  informed,
}

-- What an answer of `sys_kill` for one process says: an error left the kernel as it was, and
-- success means that the process exists, that the caller is the superuser or has the effective
-- user of the process, and that the signal was sent.
abbrev pub Justified : (Kernel → Kernel) → ℕ → Kernel → ℕ → ℕ → Answer → Type 0
Justified yield fuel k pid sig (replied (ok r) after) =
    (process_valid k (pos pid) ≡ true)
    × (sig < nsig)
    × (((ids_of k k.current).euid ≡ 0) ⊎ ((ids_of k k.current).euid ≡ (ids_of k pid).euid))
    × (send yield fuel (informed k pid sig) pid sig ≡ done after)
Justified yield fuel k pid sig (replied (err e) after) = after ≡ k
Justified yield fuel k pid sig crashed = send yield fuel (informed k pid sig) pid sig ≡ fault
Justified yield fuel k pid sig unfinished = send yield fuel (informed k pid sig) pid sig ≡ more

module _ (yield : Kernel → Kernel) (fuel : ℕ) (k : Kernel) (pid sig : ℕ) where
  sent-Justified :
      (o : Outcome)
      → send yield fuel (informed k pid sig) pid sig ≡ o
      → process_valid k (pos pid) ≡ true
      → sig < nsig
      → may_not_signal k pid ≡ false
      → Justified yield fuel k pid sig (sent o)
  sent-Justified (done after) e v lt m = (v, lt, ground arith, e)
  sent-Justified fault e v lt m = e
  sent-Justified more e v lt m = e

  kill_one-Justified : sig < nsig → Justified yield fuel k pid sig (kill_one yield fuel k pid sig)
  unfolding kill_one
  kill_one-Justified lt = elim (Bool-cases (process_valid k (pos pid))) [
    | inr bad ↦ rw bad refl
    | inl good ↦ elim (Bool-cases (may_not_signal k pid)) [
      | inl refused ↦ rw (good, refused) refl
      | inr allowed ↦ rw (good, allowed) (sent-Justified _ refl good lt allowed)
    ]
  ]

-- A signal for one process is checked before anything changes: where `sys_kill` with a positive
-- process id answers an error, the kernel is as it was; where it succeeds, the process exists, the
-- signal is below NSIG, the caller is the superuser or has the effective user of the process, and
-- the kernel is what `process_send_signal` leaves with the siginfo filled in.
pub kill-Justified :
    (yield : Kernel → Kernel) (fuel : ℕ) (k : Kernel) (pid sig : ℕ)
    → Justified yield fuel k (suc pid) sig (kill yield fuel k (pos (suc pid)) (pos sig))
unfolding kill
kill-Justified yield fuel k pid sig = elim (Bool-cases (leb nsig sig)) [
  | inl big ↦ rw big refl
  | inr small ↦ rw small (kill_one-Justified yield fuel k (suc pid) sig (ground arith))
]

-- A group of which process `i` is the lowest member from 1 on.
pub record LowestMember (k : Kernel) (pgid i : ℕ) : Type 0 where
  pub from_one : 1 ≤ i
  pub in_table : i < k.limit
  pub member : (ids_of k i).pgid ≡ pgid
  pub lowest : (j : ℕ) → 1 ≤ j → j < i → (ids_of k j).pgid ≢ pgid

module _ (yield : Kernel → Kernel) (fuel : ℕ) (k : Kernel) (pgid sig i : ℕ) where
  killpg_from-skip :
      (n j : ℕ)
      → 1 ≤ j
      → j ≤ i
      → i < j + n
      → LowestMember k pgid i
      → {r : Errno} {after : Kernel} → kill_one yield fuel k i sig ≡ replied (err r) after
      → killpg_from yield fuel n j k pgid sig ≡ replied (err r) after
  unfolding killpg_from
  killpg_from-skip zero j p q h w {r} {after} e = absurd (omega arith)
  killpg_from-skip (suc n) j p q h w {r} {after} e = elim (ℕ_discrete j i) [
    | yes same ↦
        subst (λ m. killpg_from yield fuel (suc n) m k pgid sig ≡ replied (err r) after) (sym same)
          (rw (here, e, killpg_from))
    | no ne ↦
        rw (other j p (omega arith), killpg_from)
          (killpg_from-skip n (suc j) (omega arith) (omega arith) (omega arith) w e)
  ]
    where
      here : ((ids_of k i).pgid == pgid) ≡ true
      here = ground (arith, w.member)

      other : (j : ℕ) → 1 ≤ j → j < i → ((ids_of k j).pgid == pgid) ≡ false
      other j p q = ==-ne _ _ (w.lowest j p q)

  -- A signal for a group reaches nobody if the caller may not send it to the member with the lowest
  -- process id: `__sys_killpg` then answers EPERM and leaves the kernel as it was, whatever the
  -- caller may send to the other members.
  pub killpg-first_refused :
      LowestMember k pgid i
      → process_valid k (pos i) ≡ true
      → may_not_signal k i ≡ true
      → killpg yield fuel k pgid sig ≡ replied (err eperm) k
  unfolding killpg kill_one
  killpg-first_refused w valid refused =
      killpg_from-skip (k.limit - 1) 1 (omega arith) w.from_one (omega (arith, w.in_table)) w
        (rw (valid, refused) refl)
