-- ===== src/Process/Files/Answers.antt =====
-- What `process_alloc_fd` of kernel/process.c answers.
use os0_kernel.Prelude.{
  ℕ, ◌-◌, ◌≤◌, ◌<◌, ◌≡◌, ◌≢◌, ◌↔◌, refl, ap, subst, ◌∙◌, none, some, inl, inr, ltb, Bool-cases,
  arith, ◌==◌, is_none, Option-cases, ok, err, enfile,
}
use os0_kernel.Process.State.{Descriptors}
use os0_kernel.Process.Files.{Files, Limits, find_file, find_fd, alloc_fd}
use os0_kernel.Prelude.First.{First}
use os0_kernel.Process.Files.System.{System, Inv}
use os0_kernel.Process.Files.Search.{find_file-First, find_fd-First}

module _ (l : Limits) (procs : ℕ) (s : System) (pid fd : ℕ) (inv : Inv l procs s) where
  -- `process_alloc_fd` answers ENFILE, and changes nothing, exactly when every file of the system's
  -- table is in use.
  pub alloc_fd-enfile :
      (alloc_fd l s.files (s.fds pid) fd ≡ some (err enfile, s.files, s.fds pid))
      ↔ ((f : ℕ) → f < l.sys_file_limit → 0 < (s.files.table f).refcnt)
  unfolding alloc_fd
  alloc_fd-enfile =
      elim (Option-cases (find_file s.files.table (l.sys_file_limit - s.files.next) s.files.next)) [
        | inl e ↦
            rw (e, alloc_fd)
              (λ same f lt. ground (arith, inv.hint f, all_used e f, inv.next_in), λ used. refl)
        | inr (f, e) ↦
            rw (e, alloc_fd)
              (
                λ same. elim (Bool-cases (ltb l.file_limit fd)) [
                  | inl big ↦ ground arith
                  | inr small ↦
                      elim (Option-cases (find_fd (s.fds pid).files (l.file_limit - fd) fd)) [
                        | inl n ↦ ground arith
                        | inr (nfd, n) ↦ ground arith
                      ]
                ],
                λ used.
                    absurd (let (a, b, c, d) = unused f e in ground (arith, used f, inv.next_in)),
              )
      ]
    where
      all_used :
          find_file s.files.table (l.sys_file_limit - s.files.next) s.files.next ≡ none
          → First
              (λ j. (s.files.table j).refcnt == 0)
              (l.sys_file_limit - s.files.next)
              s.files.next
              none
      all_used e =
          subst
            (First (λ j. (s.files.table j).refcnt == 0) (l.sys_file_limit - s.files.next)
              s.files.next)
            e (find_file-First s.files.table (l.sys_file_limit - s.files.next) s.files.next)

      unused :
          (f : ℕ)
          → find_file s.files.table (l.sys_file_limit - s.files.next) s.files.next ≡ some f
          → First
              (λ j. (s.files.table j).refcnt == 0)
              (l.sys_file_limit - s.files.next)
              s.files.next
              (some f)
      unused f e =
          subst
            (First (λ j. (s.files.table j).refcnt == 0) (l.sys_file_limit - s.files.next)
              s.files.next)
            e (find_file-First s.files.table (l.sys_file_limit - s.files.next) s.files.next)

module _ (l : Limits) (s : Files) (d : Descriptors) (fd : ℕ) where
  -- The descriptor that `process_alloc_fd` answers is the lowest closed one from `fd` on. It holds
  -- a file that had no reference and now has one.
  pub alloc_fd-lowest :
      (nfd : ℕ) (t : Files) (e : Descriptors)
      → alloc_fd l s d fd ≡ some (ok nfd, t, e)
      → (fd ≤ nfd)
        × (nfd < l.file_limit)
        × (d.files nfd ≡ none)
        × ((j : ℕ) → fd ≤ j → j < nfd → d.files j ≢ none)
        × ((f : ℕ) × (e.files nfd ≡ some f) × ((s.table f).refcnt ≡ 0) × ((t.table f).refcnt ≡ 1))
  unfolding alloc_fd
  alloc_fd-lowest nfd t e r =
      elim (Option-cases (find_file s.table (l.sys_file_limit - s.next) s.next)) [
        | inl e ↦ absurd (ground arith)
        | inr (f, e) ↦ elim (Option-cases (find_fd d.files (l.file_limit - fd) fd)) [
          | inl n ↦ absurd (ground arith)
          | inr (g, n) ↦
              let same : g ≡ nfd = ground arith in
              let (a, b, c, before) : First (λ j. is_none (d.files j)) (l.file_limit - fd) fd
                  (some nfd) =
                subst (First (λ j. is_none (d.files j)) (l.file_limit - fd) fd) (n ∙ ap some same)
                  (find_fd-First d.files (l.file_limit - fd) fd) in
              let free : First (λ j. (s.table j).refcnt == 0) (l.sys_file_limit - s.next) s.next
                  (some f) =
                subst (First (λ j. (s.table j).refcnt == 0) (l.sys_file_limit - s.next) s.next) e
                  (find_file-First s.table (l.sys_file_limit - s.next) s.next) in
              (
                a,
                omega arith,
                ground arith,
                λ j p q h. ground (arith, before j),
                (f, ground arith, ground (arith, free), ground arith),
              )
        ]
      ]
