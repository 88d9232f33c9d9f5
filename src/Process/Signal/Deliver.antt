-- ===== src/Process/Signal/Deliver.antt =====
-- Which signal `process_handle_signal` of kernel/process.c delivers, and what delivery leaves behind.
use os0_kernel.Prelude.{
  ℕ, zero, suc, ◌+◌, ◌≤◌, ◌<◌, ◌≡◌, ◌≢◌, ◌⊎◌, Bool, true, false, not, ◌&&◌, ◌||◌, Option, none,
  some, inl, inr, arith, ◌==◌, Bool-cases, Option-cases, subst, sym, ap,
}
use native.Mathlib.Decide.{ℕ_discrete}
use os0_kernel.Libk.SigSet
use os0_kernel.Libk.SigSet.Laws.{
  IsValid, member-add, member-del, member-union, del-IsValid, union-IsValid,
}
use os0_kernel.Process.State.{Signals, Kernel}
use os0_kernel.Process.Signal.{
  sigsys, no_defer, next_pending, choose_signal, block_delivered, handle_signal,
}

-- The signal is pending and not blocked.
abbrev pub deliverable : Signals → ℕ → Bool
deliverable s i = not (SigSet.member s.blocked i) && SigSet.member s.pending i

-- The first deliverable signal among `n` from `i` on, or that there is none.
abbrev pub FirstFrom : ℕ → ℕ → Signals → Option ℕ → Type 0
FirstFrom n i s none = (j : ℕ) → i ≤ j → j < i + n → deliverable s j ≡ false
FirstFrom n i s (some f) =
    (i ≤ f)
    × (f < i + n)
    × (deliverable s f ≡ true)
    × ((j : ℕ) → i ≤ j → j < f → deliverable s j ≡ false)

next_pending-FirstFrom : (n i : ℕ) (s : Signals) → FirstFrom n i s (next_pending n i s)
unfolding next_pending
next_pending-FirstFrom zero i s = λ j p q. absurd (omega arith)
next_pending-FirstFrom (suc n) i s = elim (Bool-cases (deliverable s i)) [
  | inl e ↦ rw (e, next_pending) (omega arith, omega arith, e, λ j p q. absurd (omega arith))
  | inr e ↦
      rw (e, next_pending) (later (next_pending n (suc i) s) (next_pending-FirstFrom n (suc i) s) e)
]
  where
    later :
        (o : Option ℕ) → FirstFrom n (suc i) s o → deliverable s i ≡ false → FirstFrom (suc n) i s o
    later none h e = λ j p q. elim (ℕ_discrete i j) [
      | yes same ↦ subst (λ m. deliverable s m ≡ false) same e
      | no ne ↦ h j (omega arith) (omega arith)
    ]
    later (some f) (p, q, d, h) e = (
      omega arith,
      omega arith,
      d,
      λ j p' q'. elim (ℕ_discrete i j) [
        | yes same ↦ subst (λ m. deliverable s m ≡ false) same e
        | no ne ↦ h j (omega arith) (omega arith)
      ],
    )

-- The search finds what is the first one.
next_pending-first :
    (n i f : ℕ) (s : Signals) → FirstFrom n i s (some f) → next_pending n i s ≡ some f
unfolding next_pending
next_pending-first zero i f s (p, q, d, h) = absurd (omega arith)
next_pending-first (suc n) i f s (p, q, d, h) = elim (ℕ_discrete i f) [
  | yes same ↦ rw (subst (λ m. deliverable s m ≡ true) (sym same) d, next_pending) (ap some same)
  | no ne ↦
      rw (h i (omega arith) (omega arith), next_pending)
        (next_pending-first n (suc i) f s
          (omega arith, omega arith, d, λ j a b. h j (omega arith) b))
]

pub record ValidSets (s : Signals) : Type 0 where
  pub blocked : IsValid s.blocked
  pub pending : IsValid s.pending
  pub masks : (i : ℕ) → IsValid (s.actions i).mask

abbrev pub current_signals : Kernel → Signals
current_signals k = (k.table k.current).signals

-- The signals once `sig` is chosen.
abbrev chosen : Signals → ℕ → Signals
chosen s sig = record s { sig = sig; pending = SigSet.del s.pending sig }

choose_signal-chosen :
    (s : Signals) (sig : ℕ)
    → s.sig ≡ 0
    → next_pending sigsys 1 s ≡ some sig
    → choose_signal s ≡ chosen s sig
unfolding choose_signal
choose_signal-chosen s sig z e = ground arith

handle_signal-chosen :
    (k : Kernel) (sig : ℕ)
    → sig ≢ 0
    → choose_signal (current_signals k) ≡ chosen (current_signals k) sig
    → ((handle_signal k).process_signal ≡ sig)
      × (current_signals (handle_signal k) ≡ block_delivered (chosen (current_signals k) sig))
unfolding handle_signal
handle_signal-chosen k sig ne e = (ground arith, ground arith)

-- What delivery does to the sets.
module _ (s : Signals) (sig j : ℕ) (v : ValidSets s) (small : sig < 48) where
  member-pending :
      SigSet.member (block_delivered (chosen s sig)).pending j
      ≡ (not (sig == j) && SigSet.member s.pending j)
  unfolding block_delivered
  member-pending = ground (
    arith,
    member-del (SigSet.del s.pending sig) sig j (del-IsValid s.pending sig v.pending) small,
    member-del s.pending sig j v.pending small,
  )

  member-blocked : SigSet.member (block_delivered (chosen s sig)).blocked j ≡ (
      SigSet.member s.blocked j
      || SigSet.member (s.actions sig).mask j
      || not (no_defer (s.actions sig)) && sig == j)
  unfolding block_delivered
  member-blocked =
      let both = SigSet.union s.blocked (s.actions sig).mask in
      ground (
        arith,
        member-union s.blocked (s.actions sig).mask j v.blocked (v.masks sig),
        member-add both sig j (union-IsValid s.blocked (s.actions sig).mask v.blocked (v.masks sig))
            small,
      )

module _ (k : Kernel) where
  module _ (sig : ℕ) (v : ValidSets (current_signals k)) (idle : (current_signals k).sig ≡ 0)
      (first : FirstFrom 31 1 (current_signals k) (some sig)) where
    delivered :
        ((handle_signal k).process_signal ≡ sig)
        × (current_signals (handle_signal k) ≡ block_delivered (chosen (current_signals k) sig))
    delivered = handle_signal-chosen k sig (omega (arith, first.0)) (
        choose_signal-chosen (current_signals k) sig idle
          (next_pending-first sigsys 1 sig (current_signals k) first))

    pub handle_signal-pending-IsValid : IsValid (current_signals (handle_signal k)).pending
    unfolding block_delivered
    handle_signal-pending-IsValid = rw (delivered.1) (
        del-IsValid (SigSet.del (current_signals k).pending sig) sig
          (del-IsValid (current_signals k).pending sig v.pending))

    -- With no signal left to handle, the first signal of 1 to 31 that is pending and not blocked,
    -- where there is one, is delivered: it is the one to be handled, it alone is no longer pending,
    -- and what is blocked from then on is what was blocked, the mask of its action and, unless the
    -- action has SA_NODEFER, the signal itself. The signal sets are words of their size.
    pub handle_signal_first :
        (j : ℕ)
        → let s = current_signals k in
          let s' = current_signals (handle_signal k) in
          ((handle_signal k).process_signal ≡ sig)
          × (SigSet.member s'.pending j ≡ (not (sig == j) && SigSet.member s.pending j))
          × (SigSet.member s'.blocked j ≡ (
              SigSet.member s.blocked j
              || SigSet.member (s.actions sig).mask j
              || not (no_defer (s.actions sig)) && sig == j))
    handle_signal_first j =
        let s = current_signals k in
        (
          delivered.0,
          rw (delivered.1) (member-pending s sig j v (omega (arith, first.1))),
          rw (delivered.1) (member-blocked s sig j v (omega (arith, first.1))),
        )

  -- What a process with no signal left to handle gets is no signal or one that it does not block.
  pub handled-deliverable :
      (current_signals k).sig ≡ 0
      → ((handle_signal k).process_signal ≡ 0)
        ⊎ (deliverable (current_signals k) (handle_signal k).process_signal ≡ true)
  unfolding handle_signal choose_signal
  handled-deliverable idle = elim (Option-cases (next_pending sigsys 1 (current_signals k))) [
    | inl e ↦ inl (ground arith)
    | inr (f, e) ↦ inr (
        let ff : FirstFrom sigsys 1 (current_signals k) (some f) =
          subst (FirstFrom sigsys 1 (current_signals k)) e
            (next_pending-FirstFrom sigsys 1 (current_signals k)) in
        ground (arith, ff))
  ]
