-- ===== src/Process/Files/System/Runs.antt =====
-- Sequences of calls on descriptors.
use os0_kernel.Prelude.{ℕ, Option, ◌≤◌, ◌<◌, refl, sym, none, some, List, [], ◌∷◌, arith}
use os0_kernel.Prelude.Int.{ℤ}
use os0_kernel.Process.Files.{File, Limits, Command}
use os0_kernel.Prelude.Ends.{Ends}
use os0_kernel.Process.Files.Counts.{refs-none}
use os0_kernel.Process.Files.System.{System, Inv}
use os0_kernel.Process.Files.System.Steps.{
  after_alloc, after_free, after_fcntl, alloc-Inv, free-Inv, fcntl-Inv,
}

pub data Op : Type 0 where
  alloc : ℕ → ℕ → Op
  free : ℕ → ℕ → Op
  control : ℕ → ℤ → Command → ℤ → Op

module _ (raw : ℤ → ℕ) (l : Limits) (procs : ℕ) where
  -- `none` is a write outside the tables.
  pub step : System → Op → Option System
  step s (alloc pid fd) = after_alloc l procs s pid fd
  step s (free pid fd) = some (after_free l procs s pid fd)
  step s (control pid fd cmd arg) = some (after_fcntl l procs raw s pid fd cmd arg)

  pub run : System → List Op → Option System
  run s [] = some s
  run s (op ∷ ops) = elim (step s op) [ none ↦ none | some t ↦ run t ops ]

  -- The process exists, a descriptor that is freed is below the limit, and one from which a free
  -- descriptor is searched is at most the limit, as at every call.
  abbrev pub Allowed : Op → Type 0
  Allowed (alloc pid fd) = (pid < procs) × (fd ≤ l.file_limit)
  Allowed (free pid fd) = (pid < procs) × (fd < l.file_limit)
  Allowed (control pid fd cmd arg) = pid < procs

  abbrev pub AllAllowed : List Op → Type 0
  AllAllowed [] = Unit
  AllAllowed (op ∷ ops) = Allowed op × AllAllowed ops

  step-Inv : (s : System) (op : Op) → Allowed op → Inv l procs s → Ends (Inv l procs) (step s op)
  unfolding step
  step-Inv s (alloc pid fd) (p, q) inv = alloc-Inv l procs s pid p inv fd q
  step-Inv s (free pid fd) (p, q) inv = (_, refl, free-Inv l procs s pid p inv fd q)
  step-Inv s (control pid fd cmd arg) p inv =
      (_, refl, fcntl-Inv l procs s pid p inv raw fd cmd arg)

  -- Any sequence of `process_alloc_fd`, `process_free_fd` and `fcntl` calls of existing processes, in
  -- which the descriptors to be freed are below PROCESS_FILE_LIMIT and `process_alloc_fd` searches
  -- from a descriptor that is at most PROCESS_FILE_LIMIT, writes nothing outside the tables and
  -- keeps this: the reference count of each file is the number of descriptors, over all processes,
  -- that hold it; every open descriptor holds a file of the table; and all files before
  -- `process_fd_next` are in use.
  pub run-Inv :
      (ops : List Op) (s : System) → AllAllowed ops → Inv l procs s → Ends (Inv l procs) (run s ops)
  unfolding run
  run-Inv [] s h inv = (s, refl, inv)
  run-Inv (op ∷ ops) s (h, t) inv =
      let (next, e, inv') = step-Inv s op h inv in rw (run, e) (run-Inv ops next t inv')

-- The tables at boot: nothing is open.
abbrev pub no_file : File
no_file = record { inode = none; path = none; mode = 0; offset = 0; refcnt = 0 }

abbrev pub boot : System
boot = record {
  files = record { table = λ f. no_file; next = 0 };
  fds = λ pid. record { files = λ fd. none; fdflags = λ fd. 0 };
}

pub boot-Inv : (l : Limits) (procs : ℕ) → Inv l procs boot
boot-Inv l procs = record {
  counted = λ f. sym (refs-none f l.file_limit procs boot.fds (λ pid fd. refl));
  in_table = λ pid fd f e. absurd (ground arith);
  next_in = omega arith;
  hint = λ f h. absurd (omega arith);
}
