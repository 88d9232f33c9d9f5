-- ===== src/Process/Signal/Defaults.antt =====
-- The default actions of signals: the lists of the `switch` in `process_send_signal` of
-- kernel/process.c, by the numbers of include/bits/signal.h, against the tests of the model.
use os0_kernel.Prelude.{
  ℕ, ◌≡◌, refl, Bool, true, false, not, List, [], ◌∷◌, arith, ◌==◌, ◌&&◌, ◌||◌, ◌⊎◌, inl, inr,
  Bool-cases, ==→eq, subst, sym,
}
use os0_kernel.Process.State.{SigAction}
use os0_kernel.Process.Signal.{
  sigkill, sigstop, sig_dfl, plain_handler, terminates, stops, is_exit, is_stop,
}

abbrev pub listed : ℕ → List ℕ → Bool
listed sig [] = false
listed sig (s ∷ ss) = sig == s || listed sig ss

-- SIGABRT, SIGALRM, SIGBUS, SIGFPE, SIGHUP, SIGILL, SIGINT, SIGIO, SIGPIPE, SIGPROF, SIGPWR,
-- SIGQUIT, SIGSEGV, SIGSTKFLT, SIGSYS, SIGTERM, SIGTRAP, SIGUSR1, SIGUSR2, SIGVTALRM, SIGXCPU and
-- SIGXFSZ
abbrev pub terminating : List ℕ
terminating =
    6 ∷ 14 ∷ 7 ∷ 8 ∷ 1 ∷ 4 ∷ 2 ∷ 29 ∷ 13 ∷ 27 ∷ 30 ∷ 3 ∷ 11 ∷ 16 ∷ 31 ∷ 15 ∷ 5 ∷ 10 ∷ 12 ∷ 26 ∷ 24
    ∷ 25 ∷ []

-- SIGTTIN, SIGTTOU and SIGTSTP
abbrev pub stopping : List ℕ
stopping = 21 ∷ 22 ∷ 20 ∷ []

-- The signal ends a process with this action for it.
abbrev pub Kills : ℕ → SigAction → Type 0
Kills sig a = (sig ≡ sigkill) ⊎ ((listed sig terminating ≡ true) × (plain_handler a sig_dfl ≡ true))

-- The signal stops a process with this action for it.
abbrev pub Halts : ℕ → SigAction → Type 0
Halts sig a = (sig ≡ sigstop) ⊎ ((listed sig stopping ≡ true) × (plain_handler a sig_dfl ≡ true))

abbrev all_of : (ℕ → Bool) → List ℕ → Bool
all_of test [] = true
all_of test (s ∷ ss) = test s && all_of test ss

listed-all_of :
    (test : ℕ → Bool) (sig : ℕ) (ss : List ℕ)
    → all_of test ss ≡ true
    → listed sig ss ≡ true
    → test sig ≡ true
listed-all_of test sig [] h l = absurd (ground arith)
listed-all_of test sig (s ∷ ss) h l = elim (Bool-cases (sig == s)) [
  | inl same ↦ subst (λ j. test j ≡ true) (sym (==→eq sig s same)) (ground arith)
  | inr other ↦ listed-all_of test sig ss (ground arith) (ground arith)
]

listed-terminates : (sig : ℕ) → listed sig terminating ≡ true → terminates sig ≡ true
unfolding terminates
listed-terminates sig l = listed-all_of terminates sig terminating refl l

listed-stops : (sig : ℕ) → listed sig stopping ≡ true → (stops sig && not (terminates sig)) ≡ true
unfolding stops terminates
listed-stops sig l = listed-all_of (λ s. stops s && not (terminates s)) sig stopping refl l

pub Kills-is_exit : (sig : ℕ) (a : SigAction) → Kills sig a → is_exit sig a ≡ true
unfolding is_exit
Kills-is_exit sig a (inl e) = ground arith
Kills-is_exit sig a (inr (l, plain)) = ground (arith, plain, listed-terminates sig l)

pub Halts-is_stop : (sig : ℕ) (a : SigAction) → Halts sig a → is_stop sig a ≡ true
unfolding is_stop
Halts-is_stop sig a (inl e) = ground arith
Halts-is_stop sig a (inr (l, plain)) = ground (arith, plain, listed-stops sig l)

-- A signal that stops a process does not end it.
pub Halts-stays : (sig : ℕ) (a : SigAction) → Halts sig a → is_exit sig a ≡ false
unfolding is_exit terminates stops
Halts-stays sig a (inl e) = ground arith
Halts-stays sig a (inr (l, plain)) = ground (arith, listed-stops sig l)
