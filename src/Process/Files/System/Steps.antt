-- ===== src/Process/Files/System/Steps.antt =====
-- The calls on descriptors of kernel/process.c and kernel/fcntl.c, one by one, and the system's
-- invariant.
use os0_kernel.Prelude.{
  ℕ, Option, none, ltb, ◌≤◌, ◌+◌, ◌-◌, ◌<◌, ◌≡◌, refl, sym, subst, ◌∙◌, Bool, true, false, some,
  inl, inr, arith, ◌==◌, leb, if◌then◌else◌, is_none, Option-cases, Bool-cases,
}
use os0_kernel.Prelude.Int.{ℤ, pos, negsuc}
use os0_kernel.Process.State.{Descriptors}
use os0_kernel.Process.Files.{
  Files, Limits, with_file, with_fd, with_fdflags, find_file, find_fd, alloc_below, alloc_file,
  alloc_fd, release, free_fd, retain, dupfd, Command, fcntl_open, fcntl, f_dupfd, f_dupfd_cloexec,
  f_setfd, f_setfl,
}
use os0_kernel.Prelude.Ends.{Ends}
use os0_kernel.Prelude.First.{First}
use os0_kernel.Process.Files.Search.{find_file-First, find_fd-First}
use os0_kernel.Process.Files.Counts.{refs-pos, refs-same}
use os0_kernel.Process.Files.System.{
  System, with_fds, Inv, opened, closed, Inv-open, Inv-close, Inv-unchanged, Moved-open,
  Moved-close,
}

module _ (l : Limits) (procs : ℕ) where
  -- The calls, each for a process; `none` where the call writes outside the process's table.
  abbrev pub after_alloc : System → ℕ → ℕ → Option System
  after_alloc s pid fd = elim (alloc_fd l s.files (s.fds pid) fd) [
    | none ↦ none
    | some (r, files, d) ↦ some (record { files = files; fds = with_fds s.fds pid d })
  ]

  abbrev pub after_free : System → ℕ → ℕ → System
  after_free s pid fd =
      let (r, gone, files, d) = free_fd s.files (s.fds pid) fd in
      record { files = files; fds = with_fds s.fds pid d }

  abbrev pub after_fcntl : (ℤ → ℕ) → System → ℕ → ℤ → Command → ℤ → System
  after_fcntl raw s pid fd cmd arg =
      let (r, files, d) = fcntl raw l s.files (s.fds pid) fd cmd arg in
      record { files = files; fds = with_fds s.fds pid d }

  module _ (s : System) (pid : ℕ) (p : pid < procs) (inv : Inv l procs s) where
    pub alloc-Inv : (fd : ℕ) → fd ≤ l.file_limit → Ends (Inv l procs) (after_alloc s pid fd)
    unfolding alloc_fd opened
    alloc-Inv fd le =
        let small : ltb l.file_limit fd ≡ false = ground arith in
        elim (Option-cases
          (find_file s.files.table (l.sys_file_limit - s.files.next) s.files.next)) [
            | inl e ↦ (_, rw (after_alloc, alloc_fd, e) refl, Inv-unchanged l procs s pid inv)
            | inr (f, e) ↦ elim (Option-cases (find_fd (s.fds pid).files (l.file_limit - fd) fd)) [
              | inl n ↦ (
                _,
                rw (after_alloc, alloc_fd, e, alloc_file, small, alloc_below, n) refl,
                Inv-unchanged l procs s pid inv,
              )
              | inr (nfd, n) ↦ (
                _,
                rw (after_alloc, alloc_fd, e, alloc_file, small, alloc_below, n) refl,
                taken f nfd
                    (subst
                      (First (λ j. (s.files.table j).refcnt == 0) (l.sys_file_limit - s.files.next)
                        s.files.next)
                      e
                      (find_file-First s.files.table (l.sys_file_limit - s.files.next)
                        s.files.next))
                    (subst (First (λ j. is_none ((s.fds pid).files j)) (l.file_limit - fd) fd) n
                      (find_fd-First (s.fds pid).files (l.file_limit - fd) fd)),
              )
            ]
          ]
      where
        taken :
            (f nfd : ℕ)
            → First
                (λ j. (s.files.table j).refcnt == 0)
                (l.sys_file_limit - s.files.next)
                s.files.next
                (some f)
            → First (λ j. is_none ((s.fds pid).files j)) (l.file_limit - fd) fd (some nfd)
            → Inv l procs (record {
              files = record (with_file s.files f (record (s.files.table f) { refcnt = 1 })) {
                next = f + 1;
              };
              fds = with_fds s.fds pid (with_fd (s.fds pid) nfd (some f));
            })
        taken f nfd (a, b, c, before) (a', b', c', before') =
            Inv-open l procs s pid nfd p (omega arith) f _ (s.fds pid) inv
              (omega (arith, inv.next_in))
              (Moved-open l procs s pid nfd p (omega arith) f _ (s.fds pid) (λ j. refl)
                (ground arith) (λ g. ground arith))
              (omega (arith, inv.next_in)) (λ g h. ground (arith, inv.hint g, before g))

    pub free-Inv : (fd : ℕ) → fd < l.file_limit → Inv l procs (after_free s pid fd)
    unfolding free_fd closed
    free-Inv fd q = elim (Option-cases ((s.fds pid).files fd)) [
      | inl e ↦ rw (e, free_fd) (Inv-unchanged l procs s pid inv)
      | inr (f, e) ↦
          rw (e, free_fd)
            (Inv-close l procs s pid fd p q f (release s.files f) inv
              (Moved-close l procs s pid fd p q f (release s.files f) e
                (λ g. ground (arith, used f e)))
              (ground (arith, inv.next_in)) (λ g h. ground (arith, inv.hint g)))
    ]
      where
        used : (f : ℕ) → (s.fds pid).files fd ≡ some f → 0 < (s.files.table f).refcnt
        used f e = omega (arith, inv.counted f, refs-pos f l.file_limit procs pid fd s.fds p q e)

    -- What `fcntl` leaves where it opens and closes no descriptor.
    Inv-same_files :
        (files : Files) (d : Descriptors)
        → files.next ≡ s.files.next
        → ((g : ℕ) → (files.table g).refcnt ≡ (s.files.table g).refcnt)
        → ((j : ℕ) → d.files j ≡ (s.fds pid).files j)
        → Inv l procs (record { files = files; fds = with_fds s.fds pid d })
    Inv-same_files files d next counts same =
        let all : (j fd : ℕ) → (with_fds s.fds pid d j).files fd ≡ (s.fds j).files fd =
          λ j fd. ground (arith, same fd) in
        record {
          counted = λ g. omega (
            arith,
            counts g,
            inv.counted g,
            refs-same g l.file_limit procs s.fds (with_fds s.fds pid d) all,
          );
          in_table = λ j fd g e. inv.in_table j fd g (sym (all j fd) ∙ e);
          next_in = omega (arith, next, inv.next_in);
          hint = λ g h. omega (arith, counts g, inv.hint g (omega (arith, next, h)));
        }

    dupfd-Inv :
        (fd f : ℕ) (arg : ℤ) (cloexec : Bool)
        → (s.fds pid).files fd ≡ some f
        → let (r, files, d) = dupfd l s.files (s.fds pid) fd f arg cloexec in
          Inv l procs (record { files = files; fds = with_fds s.fds pid d })
    unfolding dupfd opened
    dupfd-Inv fd f (negsuc arg) cloexec e = Inv-unchanged l procs s pid inv
    dupfd-Inv fd f (pos arg) cloexec e = elim (Bool-cases (leb l.file_limit arg)) [
      | inl big ↦ rw big (Inv-unchanged l procs s pid inv)
      | inr small ↦ elim (Bool-cases (fd == arg)) [
        | inl same ↦ rw (small, same) (Inv-unchanged l procs s pid inv)
        | inr ne ↦ elim (Option-cases (find_fd (s.fds pid).files (l.file_limit - arg) arg)) [
          | inl n ↦ rw (small, ne, n) (Inv-unchanged l procs s pid inv)
          | inr (nfd, n) ↦
              rw (small, ne, n)
                (doubled nfd (if cloexec then 1 else 0) (
                  subst (First (λ j. is_none ((s.fds pid).files j)) (l.file_limit - arg) arg) n
                    (find_fd-First (s.fds pid).files (l.file_limit - arg) arg)))
        ]
      ]
    ]
      where
        doubled :
            (nfd flag : ℕ)
            → First (λ j. is_none ((s.fds pid).files j)) (l.file_limit - arg) arg (some nfd)
            → Inv l procs (record {
              files = retain s.files f;
              fds = with_fds s.fds pid (with_fdflags (with_fd (s.fds pid) nfd (some f)) nfd flag);
            })
        doubled nfd flag (a, b, c, before) =
            let d' = with_fdflags (s.fds pid) nfd flag in
            Inv-open l procs s pid nfd p (omega arith) f (retain s.files f) d' inv
              (inv.in_table pid fd f e)
              (Moved-open l procs s pid nfd p (omega arith) f (retain s.files f) d' (λ j. refl)
                (ground arith) (λ g. ground arith))
              inv.next_in (λ g h. ground (arith, inv.hint g))

    pub fcntl-Inv :
        (raw : ℤ → ℕ) (fd : ℤ) (cmd : Command) (arg : ℤ)
        → Inv l procs (after_fcntl raw s pid fd cmd arg)
    unfolding fcntl fcntl_open
    fcntl-Inv raw (negsuc fd) cmd arg = Inv-unchanged l procs s pid inv
    fcntl-Inv raw (pos fd) cmd arg = elim (Bool-cases (leb l.file_limit fd)) [
      | inl big ↦ rw big (Inv-unchanged l procs s pid inv)
      | inr small ↦ elim (Option-cases ((s.fds pid).files fd)) [
        | inl e ↦ rw (small, e) (Inv-unchanged l procs s pid inv)
        | inr (f, e) ↦ rw (small, e) (on_open f e cmd)
      ]
    ]
      where
        on_open :
            (f : ℕ)
            → (s.fds pid).files fd ≡ some f
            → (cmd : Command)
            → let (r, files, d) = fcntl_open raw l s.files (s.fds pid) fd f cmd arg in
              Inv l procs (record { files = files; fds = with_fds s.fds pid d })
        on_open f e f_dupfd = dupfd-Inv fd f arg false e
        on_open f e f_dupfd_cloexec = dupfd-Inv fd f arg true e
        on_open f e f_setfd =
            Inv-same_files s.files (with_fdflags (s.fds pid) fd (raw arg)) refl (λ g. refl)
              (λ j. refl)
        on_open f e f_setfl =
            Inv-same_files (with_file s.files f (record (s.files.table f) { mode = raw arg }))
              (s.fds pid) refl (λ g. ground arith) (λ j. refl)
        on_open f e _ = Inv-unchanged l procs s pid inv
