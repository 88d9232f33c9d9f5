-- ===== src/Process/Files/System.antt =====
-- The descriptors of all processes together with the system's table of files, and the invariant
-- that relates reference counts to descriptors and `process_fd_next` to the files in use.
pub mod Steps
pub mod Runs
use mathlib.Core.Path.{fun_ext}
use native.Mathlib.Decide.{ℕ_discrete}
use os0_kernel.Prelude.{
  ℕ, zero, suc, ◌+◌, ◌-◌, ◌≤◌, ◌<◌, ◌≡◌, ◌≢◌, ◌⊎◌, refl, ap, sym, subst, ◌∙◌, Bool, true, false,
  Option, none, some, List, [], ◌∷◌, inl, inr, arith, ◌==◌, ltb, leb, if◌then◌else◌, is_none,
  Option-cases, Bool-cases, Result, ok, err, enfile, emfile,
}
use os0_kernel.Prelude.Int.{ℤ, pos, negsuc}
use os0_kernel.Process.State.{Descriptors}
use os0_kernel.Process.Files.{
  File, Files, Limits, with_file, with_fd, with_fdflags, find_file, find_fd, alloc_file, alloc_fd,
  cleared, dropped, release, free_fd, retain, dupfd, Command, fcntl_open, fcntl,
}
use os0_kernel.Prelude.First.{First}
use os0_kernel.Process.Files.Search.{find_file-First, find_fd-First}
use os0_kernel.Process.Files.Counts.{hit, refs, refs-change}

-- `procs` bounds the process ids.
pub record System : Type 0 where
  pub files : Files
  pub fds : ℕ → Descriptors

abbrev pub with_fds : (ℕ → Descriptors) → ℕ → Descriptors → ℕ → Descriptors
with_fds ds pid d j = if j == pid then d else ds j

module _ (l : Limits) (procs : ℕ) where
  pub record Inv (s : System) : Type 0 where
    pub counted : (f : ℕ) → (s.files.table f).refcnt ≡ refs f l.file_limit procs s.fds
    pub in_table : (pid fd f : ℕ) → (s.fds pid).files fd ≡ some f → f < l.sys_file_limit
    pub next_in : s.files.next ≤ l.sys_file_limit
    pub hint : (f : ℕ) → f < s.files.next → 0 < (s.files.table f).refcnt

  -- One descriptor that goes from one file, or none, to another, or none, with the counts.
  pub record Moved (s t : System) (pid fd : ℕ) : Type 0 where
    valid_pid : pid < procs
    valid_fd : fd < l.file_limit
    other_procs : (j : ℕ) → j ≢ pid → t.fds j ≡ s.fds j
    other_fds : (j : ℕ) → j ≢ fd → (t.fds pid).files j ≡ (s.fds pid).files j
    counts :
        (f : ℕ)
        → (t.files.table f).refcnt + hit f ((s.fds pid).files fd)
          ≡ (s.files.table f).refcnt + hit f ((t.fds pid).files fd)

  Moved-counted :
      (s t : System) (pid fd : ℕ)
      → Moved s t pid fd
      → ((f : ℕ) → (s.files.table f).refcnt ≡ refs f l.file_limit procs s.fds)
      → (f : ℕ) → (t.files.table f).refcnt ≡ refs f l.file_limit procs t.fds
  Moved-counted s t pid fd m h f = omega (
    arith,
    h f,
    m.counts f,
    refs-change f l.file_limit procs pid fd s.fds t.fds m.valid_pid m.valid_fd m.other_procs
        m.other_fds,
  )

  Moved-in_table :
      (s t : System) (pid fd : ℕ)
      → Moved s t pid fd
      → ((f : ℕ) → (t.fds pid).files fd ≡ some f → f < l.sys_file_limit)
      → ((pid fd f : ℕ) → (s.fds pid).files fd ≡ some f → f < l.sys_file_limit)
      → (p d f : ℕ) → (t.fds p).files d ≡ some f
      → f < l.sys_file_limit
  Moved-in_table s t pid fd m new h p d f e = elim (ℕ_discrete p pid) [
    | no ne ↦ h p d f (ap (λ (x : Descriptors). x.files d) (sym (m.other_procs p ne)) ∙ e)
    | yes here ↦ elim (ℕ_discrete d fd) [
      | no ne ↦ h pid d f (sym (m.other_fds d ne) ∙ subst (λ q. (t.fds q).files d ≡ some f) here e)
      | yes there ↦ new f (
          subst (λ c. (t.fds pid).files c ≡ some f) there
            (subst (λ q. (t.fds q).files d ≡ some f) here e))
    ]
  ]

  with_fds_self : (ds : ℕ → Descriptors) (pid : ℕ) → with_fds ds pid (ds pid) ≡ ds
  with_fds_self ds pid = fun_ext λ j. ground arith

  pub Inv-unchanged :
      (s : System) (pid : ℕ) → Inv s → Inv (record s { fds = with_fds s.fds pid (s.fds pid) })
  Inv-unchanged s pid inv =
      subst (λ ds. Inv (record { files = s.files; fds = ds })) (sym (with_fds_self s.fds pid)) inv

  module _ (s : System) (pid fd : ℕ) (p : pid < procs) (q : fd < l.file_limit) where
    -- A closed descriptor that is opened on a file with one reference more.
    pub opened : ℕ → Files → Descriptors → System
    opened f files d = record { files = files; fds = with_fds s.fds pid (with_fd d fd (some f)) }

    pub Moved-open :
        (f : ℕ) (files : Files) (d : Descriptors)
        → ((j : ℕ) → d.files j ≡ (s.fds pid).files j)
        → (s.fds pid).files fd ≡ none
        → ((g : ℕ) → (files.table g).refcnt ≡ (s.files.table g).refcnt + (if f == g then 1 else 0))
        → Moved s (opened f files d) pid fd
    unfolding opened
    Moved-open f files d same closed more = record {
      valid_pid = p;
      valid_fd = q;
      other_procs = λ j ne. ground arith;
      other_fds = λ j ne. ground (arith, same j);
      counts = λ g. ground (arith, more g, closed);
    }

    -- An open descriptor that is closed, with one reference less.
    pub closed : Files → System
    closed files = record { files = files; fds = with_fds s.fds pid (with_fd (s.fds pid) fd none) }

    pub Moved-close :
        (f : ℕ) (files : Files)
        → (s.fds pid).files fd ≡ some f
        → ((g : ℕ) → (files.table g).refcnt + (if f == g then 1 else 0) ≡ (s.files.table g).refcnt)
        → Moved s (closed files) pid fd
    unfolding closed
    Moved-close f files open_now less = record {
      valid_pid = p;
      valid_fd = q;
      other_procs = λ j ne. ground arith;
      other_fds = λ j ne. ground arith;
      counts = λ g. ground (arith, less g, open_now);
    }

    pub Inv-open :
        (f : ℕ) (files : Files) (d : Descriptors)
        → Inv s
        → f < l.sys_file_limit
        → Moved s (opened f files d) pid fd
        → files.next ≤ l.sys_file_limit
        → ((g : ℕ) → g < files.next → 0 < (files.table g).refcnt)
        → Inv (opened f files d)
    unfolding opened
    Inv-open f files d inv lt m next_in hint = record {
      counted = Moved-counted s _ pid fd m inv.counted;
      in_table = Moved-in_table s _ pid fd m (λ g e. ground arith) inv.in_table;
      next_in = next_in;
      hint = hint;
    }

    pub Inv-close :
        (f : ℕ) (files : Files)
        → Inv s
        → Moved s (closed files) pid fd
        → files.next ≤ l.sys_file_limit
        → ((g : ℕ) → g < files.next → 0 < (files.table g).refcnt)
        → Inv (closed files)
    unfolding closed
    Inv-close f files inv m next_in hint = record {
      counted = Moved-counted s _ pid fd m inv.counted;
      in_table = Moved-in_table s _ pid fd m (λ g e. ground arith) inv.in_table;
      next_in = next_in;
      hint = hint;
    }
